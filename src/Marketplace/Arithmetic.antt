-- ===== src/Marketplace/Arithmetic.antt =====
-- Rust's arithmetic on `u32`, `u64` and `u128`. `none` is a panic. An overflow panics if the build has
-- `overflow-checks`, else it wraps around.
use mu.Base.{
  ◌≡◌, ℕ, ◌+◌, ◌-◌, ◌%◌, ◌^◌, ◌≤◌, ◌<◌, Bool, true, false, Option, none, some, ltb, leb,
  if◌then◌else◌, arith,
}
use native.Mathlib.Nat.{mod-le}

abbrev pub u32 : ℕ
u32 = 2 ^ 32

abbrev pub u64 : ℕ
u64 = 2 ^ 64

abbrev pub u128 : ℕ
u128 = 2 ^ 128

-- The result `n` of an addition or a multiplication, in a type of `size` values.
unfoldable pub fit : Bool → ℕ → ℕ → Option ℕ
fit overflow_checks size n =
    if ltb n size then some n else if overflow_checks then none else some (n % size)

unfoldable pub subtract : Bool → ℕ → ℕ → ℕ → Option ℕ
subtract overflow_checks size a b =
    if leb b a then some (a - b) else if overflow_checks then none else some (a + size - b)

pub fit-small :
    (overflow_checks : Bool) (size n : ℕ) → n < size → fit overflow_checks size n ≡ some n
unfolding fit
fit-small overflow_checks size n h = ground arith

-- An overflow only makes the number smaller.
pub fit-le : (overflow_checks : Bool) (size n m : ℕ) → fit overflow_checks size n ≡ some m → m ≤ n
unfolding fit
fit-le true size n m e = ground arith
fit-le false size n m e = ground (arith, mod-le n size)

pub subtract-le :
    (overflow_checks : Bool) (size a b : ℕ)
    → b ≤ a
    → subtract overflow_checks size a b ≡ some (a - b)
unfolding subtract
subtract-le overflow_checks size a b h = ground arith
