-- ===== src/Base/Xor.antt =====
-- Exclusive or with a fixed number is one-to-one, by its lowest digit.
use Prim.Native.Nat.{ℕ, zero, suc, ◌+◌, ◌/◌, ◌%◌, ◌<◌, bit_xor, differ, digits, bit_xor-bitwise}
use mathlib.Core.Path.{◌≡◌, refl, sym, ◌∙◌}
use mathlib.Core.Logic.{◌⊎◌, inl, inr}
use native.Mathlib.Omega.{arith}

abbrev xor_digits : ℕ → ℕ → ℕ → ℕ
xor_digits n a b = digits (λ b. b) differ n a b

differ_bits :
    (r x : ℕ)
    → r < 2
    → x < 2
    → (r + x ≡ differ r x) × (r + x < 2) ⊎ (r ≡ 1) × (x ≡ 1) × (differ r x ≡ 0)
differ_bits zero x h k = inl (omega arith, omega arith)
differ_bits (suc zero) zero h k = inl (omega arith, omega arith)
differ_bits (suc zero) (suc zero) h k = inr (refl, refl, refl)
differ_bits (suc zero) (suc (suc x)) h k = absurd (omega arith)
differ_bits (suc (suc r)) x h k = absurd (omega arith)

xor_digits_cancel : (n a b c : ℕ) → xor_digits n a b ≡ xor_digits n a c → b ≡ c
xor_digits_cancel zero a b c h = h
xor_digits_cancel (suc n) zero b c h = h
xor_digits_cancel (suc n) (suc a) b c h =
    omega (arith, low, xor_digits_cancel n (suc a / 2) (b / 2) (c / 2) (omega (arith, low)))
  where
    low : (xor_digits n (suc a / 2) (b / 2) ≡ xor_digits n (suc a / 2) (c / 2)) × (b % 2 ≡ c % 2)
    low = omega (
      arith,
      differ_bits (suc a % 2) (b % 2) (omega arith) (omega arith),
      differ_bits (suc a % 2) (c % 2) (omega arith) (omega arith),
    )

pub bit_xor_cancel : (a b c : ℕ) → bit_xor a b ≡ bit_xor a c → b ≡ c
bit_xor_cancel a b c h =
    xor_digits_cancel a a b c (sym (bit_xor-bitwise a b) ∙ h ∙ bit_xor-bitwise a c)
