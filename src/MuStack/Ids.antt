-- ===== src/MuStack/Ids.antt =====
-- rust-libs/mu_stack/src/lib.rs: the bytes and the text of a `StackID`. The model's key is its 32 bytes
-- here, and a text the list of its code points. The crate base58 is a parameter.
pub mod RoundTrip
pub mod Tests
use mu.Base.{
  ◌≡◌, ℕ, ◌+◌, Bool, true, false, Option, none, some, List, [], ◌∷◌, ◌==◌, ltb, if◌then◌else◌,
  nat_key, length, ◌||◌, not,
}

abbrev pub solana_pubkey_size : ℕ
solana_pubkey_size = 32

pub data StackId : Type 0 where
  solana_public_key : List ℕ → StackId

-- A `StackID` holds an array of 32 bytes.
abbrev pub IsSized : StackId → Type 0
IsSized (solana_public_key key) = length key ≡ solana_pubkey_size

unfoldable pub to_bytes : StackId → List ℕ
to_bytes (solana_public_key key) = 1 ∷ key

-- `match bytes[0]`, of a text that is long enough.
unfoldable pub from_discriminator : List ℕ → Option StackId
from_discriminator [] = none
from_discriminator (x ∷ key) = if x == 1 then some (solana_public_key key) else none

unfoldable pub try_from_bytes : List ℕ → Option StackId
try_from_bytes bytes =
    if length bytes == solana_pubkey_size + 1 then from_discriminator bytes else none

-- The bytes of a code point in UTF-8, and of a text: `str::len`.
abbrev pub utf8_len : ℕ → ℕ
utf8_len c = if ltb c 128 then 1 else if ltb c 2048 then 2 else if ltb c 65536 then 3 else 4

abbrev pub byte_len : List ℕ → ℕ
byte_len [] = 0
byte_len (c ∷ s) = utf8_len c + byte_len s

-- `s.chars().nth(1) == Some('_')`
abbrev second_is_underscore : List ℕ → Bool
second_is_underscore (c ∷ d ∷ s) = d == b'_'
second_is_underscore _ = false

pub data ParseStackIdError : Type 0 where
  invalid_format unknown_variant failed_to_parse : ParseStackIdError

pub data Parsed : Type 0 where
  ok : StackId → Parsed
  err : ParseStackIdError → Parsed

abbrev of_key : Option (List ℕ) → Parsed
of_key none = err failed_to_parse
of_key (some bytes) =
    if length bytes == solana_pubkey_size then ok (solana_public_key bytes) else err failed_to_parse

module _ (to_base58 : List ℕ → List ℕ) (from_base58 : List ℕ → Option (List ℕ)) where
  -- `Display`
  unfoldable pub to_string : StackId → List ℕ
  to_string (solana_public_key key) = b's' ∷ b'_' ∷ to_base58 key

  -- The `match` on the variant's code.
  unfoldable pub parse_variant : List ℕ → Parsed
  parse_variant (c ∷ d ∷ code) =
      if c == b's' then of_key (from_base58 code) else err unknown_variant
  parse_variant _ = err unknown_variant

  unfoldable pub from_str : List ℕ → Parsed
  from_str s =
      if ltb (byte_len s) 3 || not (second_is_underscore s)
      then err invalid_format
      else parse_variant s
