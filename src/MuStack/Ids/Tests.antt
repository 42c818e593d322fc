-- ===== src/MuStack/Ids/Tests.antt =====
-- A key of zeros. Base58 is the identity.
use mu.Base.{◌≡◌, refl, ◌↔◌, ℕ, zero, suc, some, List, [], ◌∷◌, arith}
use mu.MuStack.Ids.{
  StackId, solana_public_key, IsSized, to_bytes, try_from_bytes, to_string, from_str, ok,
}
use mu.MuStack.Ids.RoundTrip.{try_from_bytes_iff, from_str-to_string}

abbrev zeros : ℕ → List ℕ
zeros zero = []
zeros (suc n) = 0 ∷ zeros n

abbrev id : StackId
id = solana_public_key (zeros 32)

try_from_bytes_iff_example :
    (try_from_bytes (to_bytes id) ≡ some id) ↔ ((to_bytes id ≡ to_bytes id) × IsSized id)
try_from_bytes_iff_example = try_from_bytes_iff (to_bytes id) id

from_str-to_string_example : from_str (λ key. key) some (to_string (λ key. key) some id) ≡ ok id
from_str-to_string_example =
    from_str-to_string (λ key. key) some (λ key. refl) (λ key h. omega arith) id refl
