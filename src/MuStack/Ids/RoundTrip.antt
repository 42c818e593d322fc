-- ===== src/MuStack/Ids/RoundTrip.antt =====
-- A `StackID` that is written, as bytes or as text, and read back.
use mu.Base.{
  ◌≡◌, refl, ◌↔◌, ℕ, ◌+◌, ◌≤◌, false, Option, some, List, [], ◌∷◌, arith, length, ltb, nat_key,
}
use mu.MuStack.Ids.{
  StackId, solana_public_key, solana_pubkey_size, IsSized, to_bytes, from_discriminator,
  try_from_bytes, byte_len, to_string, from_str, parse_variant, ok,
}

-- `try_from_bytes` accepts exactly what `to_bytes` writes.
pub try_from_bytes_iff :
    (bytes : List ℕ) (id : StackId)
    → (try_from_bytes bytes ≡ some id) ↔ ((bytes ≡ to_bytes id) × IsSized id)
unfolding try_from_bytes to_bytes from_discriminator
try_from_bytes_iff [] (solana_public_key key) = (λ h. cc, λ (e, n). cc)
try_from_bytes_iff (x ∷ bytes) (solana_public_key key) = (
  λ h. (ground arith, ground arith),
  λ (e, n). let first : x ≡ 1 = cc in let rest : bytes ≡ key = cc in rw first (rw rest (rw n refl)),
)

len_pos : (s : List ℕ) → 1 ≤ length s → 1 ≤ byte_len s
len_pos [] h = absurd (omega arith)
len_pos (c ∷ s) h = ground arith

-- If base58 reads back what it writes, and writes something for a key, then so does the text of a
-- `StackID`.
pub from_str-to_string :
    (to_base58 : List ℕ → List ℕ) (from_base58 : List ℕ → Option (List ℕ))
    → ((key : List ℕ) → from_base58 (to_base58 key) ≡ some key)
    → ((key : List ℕ) → length key ≡ solana_pubkey_size → 1 ≤ length (to_base58 key))
    → (id : StackId) → IsSized id
    → from_str to_base58 from_base58 (to_string to_base58 from_base58 id) ≡ ok id
unfolding from_str to_string parse_variant
from_str-to_string to_base58 from_base58 codec some_text (solana_public_key key) n =
    let long = len_pos (to_base58 key) (some_text key n) in
    let enough : ltb (1 + (1 + byte_len (to_base58 key))) 3 ≡ false = ground arith in
    rw enough (rw (codec key) (rw n refl))
