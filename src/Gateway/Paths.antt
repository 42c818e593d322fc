-- ===== src/Gateway/Paths.antt =====
-- rust-libs/gateway/src/lib.rs: `match_path_and_extract_path_params`.
pub mod Matching
use Prim.Native.Char.{Char, code}
use Prim.Native.String
use Prim.Native.String.{[], ◌∷◌}
use mathlib.Core.List.{List, [], ◌∷◌}
use mu.Base.{
  ℕ, ◌+◌, Bool, true, false, Option, none, some, String, ◌==◌, ◌&&◌, if◌then◌else◌, nat_key,
  text_key,
}
use mu.Base.HashMap
use mu.Base.HashMap.{HashMap}

abbrev pub is_char : ℕ → Char → Bool
is_char n c = code c == n

-- `split('/')`, with the segment that is being read.
split_from : String → String → List String
split_from segment [] = segment ∷ []
split_from segment (c ∷ s) =
    let closed = split_from "" s in
    let longer = split_from (String.◌++◌ segment (c ∷ [])) s in
    if is_char b'/' c then segment ∷ closed else longer

unfoldable pub split : String → List String
unfolding split_from
split path = split_from "" path

unfoldable pub starts_with : ℕ → String → Bool
starts_with n [] = false
starts_with n (c ∷ s) = is_char n c

unfoldable pub ends_with : ℕ → String → Bool
ends_with n [] = false
ends_with n (c ∷ []) = is_char n c
ends_with n (c ∷ (d ∷ s)) = ends_with n (d ∷ s)

-- `s[1..s.len() - 1]`, of a text in braces.
without_first : String → String
without_first [] = []
without_first (c ∷ s) = s

without_last : String → String
without_last [] = []
without_last (c ∷ []) = []
without_last (c ∷ (d ∷ s)) = c ∷ without_last (d ∷ s)

unfoldable pub param_name : String → String
unfolding without_first without_last
param_name segment = without_last (without_first segment)

unfoldable pub is_param : String → Bool
is_param segment = starts_with b'{' segment && ends_with b'}' segment

abbrev pub PathParams : Type 0
PathParams = HashMap String String

-- The loop over the segments of the request's path and of the endpoint's.
unfoldable pub match_segments : List String → List String → ℕ → PathParams → Option (ℕ × PathParams)
match_segments [] [] match_score path_params = some (match_score, path_params)
match_segments [] (ep_segment ∷ eps) match_score path_params = none
match_segments (req_segment ∷ reqs) [] match_score path_params = none
match_segments (req_segment ∷ reqs) (ep_segment ∷ eps) match_score path_params =
    let same = match_segments reqs eps (match_score + String.len req_segment) path_params in
    let bound =
      match_segments reqs eps match_score
        (HashMap.insert path_params (param_name ep_segment) req_segment) in
    if req_segment == ep_segment then same else if is_param ep_segment then bound else none

unfoldable pub match_path_and_extract_path_params : String → String → Option (ℕ × PathParams)
match_path_and_extract_path_params request_path endpoint_path =
    match_segments (split request_path) (split endpoint_path) 0 []
