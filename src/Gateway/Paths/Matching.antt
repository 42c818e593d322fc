-- ===== src/Gateway/Paths/Matching.antt =====
-- Which paths match, with which score and parameters.
use Prim.Native.String
use mu.Base.{
  ◌≡◌, refl, ap, ◌∙◌, ◌⊎◌, inl, inr, ℕ, ◌+◌, true, Option, none, some, List, [], ◌∷◌, String, ◌==◌,
  if◌then◌else◌, nat_key, text_key, arith, Bool-cases,
}
use mu.Base.HashMap
use mu.Gateway.Paths.{
  split, is_param, param_name, PathParams, match_segments, split,
  match_path_and_extract_path_params,
}

-- As many segments on both sides, and each is the endpoint's own or stands for a parameter, which a
-- segment does even if it is empty.
abbrev pub Fits : List String → List String → Type 0
Fits [] [] = Unit
Fits [] (e ∷ es) = ⊥
Fits (r ∷ rs) [] = ⊥
Fits (r ∷ rs) (e ∷ es) = ((r ≡ e) ⊎ (is_param e ≡ true)) × Fits rs es

-- The bytes in the segments that are equal.
abbrev pub score : List String → List String → ℕ
score (r ∷ rs) (e ∷ es) = (if r == e then String.len r else 0) + score rs es
score _ _ = 0

-- The last segment that stands for a parameter, if one does.
abbrev pub bound_to : String → List String → List String → Option String → Option String
bound_to name (r ∷ rs) (e ∷ es) before =
    bound_to name rs es (if r == e then before else if param_name e == name then some r else before)
bound_to name _ _ before = before

abbrev pub Matches : String → String → Type 0
Matches request_path endpoint_path = Fits (split request_path) (split endpoint_path)

abbrev pub score_of_paths : String → String → ℕ
score_of_paths request_path endpoint_path = score (split request_path) (split endpoint_path)

abbrev bind_param : String → String → PathParams → PathParams
bind_param r e ps = HashMap.insert ps (param_name e) r

abbrev pub HasParams : List String → List String → PathParams → PathParams → Type 0
HasParams rs es before after =
    (name : String) → HashMap.get after name ≡ bound_to name rs es (HashMap.get before name)

match_segments-Fits :
    (rs es : List String) (n : ℕ) (ps : PathParams)
    → Fits rs es
    → (after : PathParams) × (match_segments rs es n ps ≡ some (n + score rs es, after))
      × HasParams rs es ps after
unfolding match_segments
match_segments-Fits [] (e ∷ es) n ps h = elim h [ ]
match_segments-Fits (r ∷ rs) [] n ps h = elim h [ ]
match_segments-Fits [] [] n ps h = (ps, ground arith, λ name. refl)
match_segments-Fits (r ∷ rs) (e ∷ es) n ps (h, hs) = elim (Bool-cases (r == e)) [
  | inl same ↦
      let (after, found, params) = match_segments-Fits rs es (n + String.len r) ps hs in
      (after, ground (arith, found, same), λ name. rw same (params name))
  | inr other ↦
      let (after, found, params) = match_segments-Fits rs es n (bind_param r e ps) hs in
      (
        after,
        ground (arith, found, other, h, text_key.same_iff r e),
        λ name.
            rw other (
              params name ∙ ap (bound_to name rs es) (HashMap.get-insert ps (param_name e) name r)),
      )
]

Fits-dec : (rs es : List String) → Fits rs es ⊎ (¬ Fits rs es)
Fits-dec [] [] = inl tt
Fits-dec [] (e ∷ es) = inr (λ h. h)
Fits-dec (r ∷ rs) [] = inr (λ h. h)
Fits-dec (r ∷ rs) (e ∷ es) = elim (Fits-dec rs es) [
  | inr unfit ↦ inr (λ h. unfit h.1)
  | inl fits ↦ elim (Bool-cases (r == e)) [
    | inl same ↦ inl (inl ((text_key.same_iff r e).0 same), fits)
    | inr other ↦ elim (Bool-cases (is_param e)) [
      | inl param ↦ inl (inr param, fits)
      | inr fixed ↦ inr (λ h. elim h.0 [
        | inl same ↦ ground (arith, text_key.same_iff r e, same, other)
        | inr param ↦ ground (arith, param, fixed)
      ])
    ]
  ]
]

match_segments-no_fit :
    (rs es : List String) (n : ℕ) (ps : PathParams)
    → ¬ Fits rs es
    → match_segments rs es n ps ≡ none
unfolding match_segments
match_segments-no_fit [] [] n ps h = absurd (h tt)
match_segments-no_fit [] (e ∷ es) n ps h = refl
match_segments-no_fit (r ∷ rs) [] n ps h = refl
match_segments-no_fit (r ∷ rs) (e ∷ es) n ps h = elim (Bool-cases (r == e)) [
  | inl same ↦ rw same (
      match_segments-no_fit rs es (n + String.len r) ps
        λ hs. h (inl ((text_key.same_iff r e).0 same), hs))
  | inr other ↦ elim (Bool-cases (is_param e)) [
    | inl param ↦
        rw (other, param)
          (match_segments-no_fit rs es n (bind_param r e ps) λ hs. h (inr param, hs))
    | inr fixed ↦ rw (other, fixed) refl
  ]
]

abbrev pub MatchOf : String → String → Type 0
MatchOf request_path endpoint_path =
    ((params : PathParams) × (match_path_and_extract_path_params request_path endpoint_path
        ≡ some (score_of_paths request_path endpoint_path, params))
      × Matches request_path endpoint_path
      × HasParams (split request_path) (split endpoint_path) [] params)
    ⊎ ((match_path_and_extract_path_params request_path endpoint_path ≡ none)
        × ¬ Matches request_path endpoint_path)

pub match_path_lem : (request_path endpoint_path : String) → MatchOf request_path endpoint_path
unfolding match_path_and_extract_path_params
match_path_lem request_path endpoint_path =
    elim (Fits-dec (split request_path) (split endpoint_path)) [
      | inl fits ↦
          let (after, found, params) =
            match_segments-Fits (split request_path) (split endpoint_path) 0 [] fits in
          inl (after, ground (arith, found), fits, params)
      | inr unfit ↦
          inr (match_segments-no_fit (split request_path) (split endpoint_path) 0 [] unfit, unfit)
    ]
