-- ===== src/Gateway/Requests/Routes.antt =====
-- Which endpoint a request is routed to.
use mathlib.Core.List.{filter_map}
use mathlib.Core.Option
use mu.Base.{
  ◌≡◌, refl, ap, ◌∙◌, ◌⊎◌, inl, inr, ℕ, ◌≤◌, Option, none, some, [], ◌∷◌, String, arith, All, In,
  Bool-cases, leb, text_key, ◌>>=◌,
}
use mu.Base.HashMap
use mu.Base.HashMap.{HashMap}
use mu.Base.Sort.{last_highest, last-sort_by_key}
use mu.MuStack.{HttpMethod, AssemblyAndFunction, Gateway}
use mu.MuStack.Validation.{method_key}
use mu.Gateway.{Endpoints}
use mu.Gateway.Paths.{PathParams, split}
use mu.Gateway.Paths.Matching.{Matches, score_of_paths, HasParams, match_path_lem}
use mu.Gateway.Requests.{Matched, score_of, match_endpoint, find_method, find_route}

-- The endpoint's path matches, and no path that matches has a higher score.
abbrev pub IsBest : String → Endpoints → String × HashMap HttpMethod AssemblyAndFunction → Type 0
IsBest path endpoints entry =
    In entry endpoints
    × Matches path entry.0
    × All
        (λ (other : String × HashMap HttpMethod AssemblyAndFunction).
          Matches path other.0 → score_of_paths path other.0 ≤ score_of_paths path entry.0)
        endpoints

abbrev pub NoMatch : String → Endpoints → Type 0
NoMatch path endpoints =
    All (λ (other : String × HashMap HttpMethod AssemblyAndFunction). ¬ Matches path other.0)
      endpoints

abbrev BestMatch : String → Endpoints → Option Matched → Type 0
BestMatch path endpoints found =
    ((entry : String × HashMap HttpMethod AssemblyAndFunction) × (params : PathParams) × IsBest path
        endpoints entry
      × HasParams (split path) (split entry.0) [] params
      × (found ≡ some ((score_of_paths path entry.0, params), entry.1)))
    ⊎ (NoMatch path endpoints × (found ≡ none))

raise :
    (path : String) (n m : ℕ) (endpoints : Endpoints)
    → n ≤ m
    → All
        (λ (other : String × HashMap HttpMethod AssemblyAndFunction).
          Matches path other.0 → score_of_paths path other.0 ≤ n)
        endpoints
    → All
        (λ (other : String × HashMap HttpMethod AssemblyAndFunction).
          Matches path other.0 → score_of_paths path other.0 ≤ m)
        endpoints
raise path n m [] h hs = tt
raise path n m (x ∷ xs) h (h', hs) =
    ((λ fits. let below = h' fits in omega arith), raise path n m xs h hs)

vacuous :
    (path : String) (n : ℕ) (endpoints : Endpoints)
    → NoMatch path endpoints
    → All
        (λ (other : String × HashMap HttpMethod AssemblyAndFunction).
          Matches path other.0 → score_of_paths path other.0 ≤ n)
        endpoints
vacuous path n [] h = tt
vacuous path n (x ∷ xs) (h, hs) = ((λ fits. absurd (h fits)), vacuous path n xs hs)

best_match :
    (path : String) (endpoints : Endpoints)
    → BestMatch path endpoints (last_highest score_of (filter_map (match_endpoint path) endpoints))
unfolding last_highest filter_map match_endpoint
best_match path [] = inr (tt, refl)
best_match path ((p, eps) ∷ rest) = elim (match_path_lem path p) [
  | inr (skip, unfit) ↦ elim (best_match path rest) [
    | inl (entry, params, (there, fits, most), has, found) ↦
        inl (entry, params, (inr there, fits, ((λ h. absurd (unfit h)), most)), has, rw skip found)
    | inr (nowhere, found) ↦ inr ((unfit, nowhere), rw skip found)
  ]
  | inl (params, hit, fits, has) ↦ elim (best_match path rest) [
    | inr (nowhere, found) ↦ inl (
      (p, eps),
      params,
      (inl refl, fits, ((λ _. omega arith), vacuous path (score_of_paths path p) rest nowhere)),
      has,
      rw (hit, found) refl,
    )
    | inl (entry, params', (there, fits', most), has', found) ↦
        elim (Bool-cases (leb (score_of_paths path p) (score_of_paths path entry.0))) [
          | inl le ↦ inl (
            entry,
            params',
            (inr there, fits', ((λ _. ground arith), most)),
            has',
            rw (hit, found, le) refl,
          )
          | inr gt ↦ inl (
            (p, eps),
            params,
            (
              inl refl,
              fits,
              (
                (λ _. omega arith),
                raise path (score_of_paths path entry.0) (score_of_paths path p) rest (ground arith)
                    most,
              ),
            ),
            has,
            rw (hit, found, gt) refl,
          )
        ]
  ]
]

abbrev pub RouteOf : Gateway → String → HttpMethod → Type 0
RouteOf gateway path method =
    ((entry : String × HashMap HttpMethod AssemblyAndFunction) × (params : PathParams) × IsBest path
        gateway.endpoints entry
      × HasParams (split path) (split entry.0) [] params
      × (find_route gateway path method
          ≡ Option.map (λ target. (target, params)) (HashMap.get entry.1 method)))
    ⊎ (NoMatch path gateway.endpoints × (find_route gateway path method ≡ none))

-- A request is routed by an endpoint path whose score is the highest of those that match it, to
-- the function that this path has for the request's method, with the last segment that stands for
-- each parameter. Where no path matches, or this path does not have the method, there is no route.
pub find_route_lem :
    (gateway : Gateway) (path : String) (method : HttpMethod) → RouteOf gateway path method
unfolding find_route find_method
find_route_lem gateway path method =
    let sorted = last-sort_by_key score_of (filter_map (match_endpoint path) gateway.endpoints) in
    elim (best_match path gateway.endpoints) [
      | inl (entry, params, best, has, found) ↦
          inl (entry, params, best, has, ap (λ o. o >>= find_method method) (sorted ∙ found))
      | inr (nowhere, found) ↦ inr (nowhere, ap (λ o. o >>= find_method method) (sorted ∙ found))
    ]
