-- ===== src/MuStack/Validation/Exact.antt =====
-- Which stacks `validate` accepts.
use mathlib.Core.Option
use mu.Base.{
  ◌≡◌, refl, ◌↔◌, true, Option, none, some, List, [], ◌∷◌, map, String, Key, text_key, pair_key,
  nat_key, All, Bool-cases, inl, inr,
}
use mu.Base.HashMap.{HashMap}
use mu.Base.HashSet
use mu.Base.Distinct.{first_repeated, AllDistinct-iff, AllDistinct}
use mu.MuStack.{
  HttpMethod, NameAndDelete, AssemblyAndFunction, Gateway, Stack, key_value_tables, storages,
  gateways,
}
use mu.MuStack.Validation.{
  StackValidationError, duplicate_endpoint_in_gateway, Validated, ok, method_key, ensure_all_unique,
  Endpoints, check_endpoints, check_paths, check_gateways, or_else, function_names,
  ensure_gateway_functions_correct, endpoint_keys, duplicate_endpoints, attempt, validate,
}

-- Each endpoint of the gateways calls a function of the stack.
abbrev pub TargetsKnown : Stack → Type 0
TargetsKnown stack =
    All
      (λ (gw : Gateway).
        All
          (λ (entry : String × Endpoints).
            All
              (λ (ep : HttpMethod × AssemblyAndFunction).
                HashSet.contains (function_names stack) ep.1.assembly ≡ true)
              entry.1)
          gw.endpoints)
      (gateways stack)

-- What a stack must satisfy.
abbrev pub IsValid : Stack → Type 0
IsValid stack =
    AllDistinct (function_names stack)
    × (AllDistinct (map (λ (t : NameAndDelete). t.name) (key_value_tables stack))
        × (AllDistinct (map (λ (g : Gateway). g.name) (gateways stack))
            × (AllDistinct (map (λ (s : NameAndDelete). s.name) (storages stack))
                × (TargetsKnown stack
                    × All (λ (gw : Gateway). AllDistinct (endpoint_keys gw)) (gateways stack)))))

or_else_iff : (a b : Option StackValidationError) → (or_else a b ≡ none) ↔ ((a ≡ none) × (b ≡ none))
or_else_iff none b = (λ h. (refl, h), λ h. h.1)
or_else_iff (some e) b = (λ h. cc, λ h. cc)

module _ (names : List String) where
  abbrev Known : HttpMethod × AssemblyAndFunction → Type 0
  Known ep = HashSet.contains names ep.1.assembly ≡ true

  check_endpoints_iff :
      (gateway : String) (endpoints : Endpoints)
      → (check_endpoints names gateway endpoints ≡ none) ↔ All Known endpoints
  unfolding check_endpoints
  check_endpoints_iff gateway [] = (λ _. tt, λ _. refl)
  check_endpoints_iff gateway ((method, target) ∷ rest) =
      let ih = check_endpoints_iff gateway rest in
      elim (Bool-cases (HashSet.contains names target.assembly)) [
        | inl known ↦ rw known (λ h. (refl, ih.0 h), λ (_, h). ih.1 h)
        | inr unknown ↦ rw unknown (λ h. cc, λ (h, _). cc)
      ]

  check_paths_iff :
      (gateway : String) (paths : HashMap String Endpoints)
      → (check_paths names gateway paths ≡ none) ↔ All (λ entry. All Known entry.1) paths
  unfolding check_paths
  check_paths_iff gateway [] = (λ _. tt, λ _. refl)
  check_paths_iff gateway ((path, endpoints) ∷ rest) =
      let one = check_endpoints_iff gateway endpoints in
      let ih = check_paths_iff gateway rest in
      let both =
        or_else_iff (check_endpoints names gateway endpoints) (check_paths names gateway rest) in
      (λ h. let (a, b) = both.0 h in (one.0 a, ih.0 b), λ (a, b). both.1 (one.1 a, ih.1 b))

  check_gateways_iff :
      (gws : List Gateway)
      → (check_gateways names gws ≡ none)
        ↔ All (λ (gw : Gateway). All (λ entry. All Known entry.1) gw.endpoints) gws
  unfolding check_gateways
  check_gateways_iff [] = (λ _. tt, λ _. refl)
  check_gateways_iff (gw ∷ rest) =
      let one = check_paths_iff gw.name gw.endpoints in
      let ih = check_gateways_iff rest in
      let both = or_else_iff (check_paths names gw.name gw.endpoints) (check_gateways names rest) in
      (λ h. let (a, b) = both.0 h in (one.0 a, ih.0 b), λ (a, b). both.1 (one.1 a, ih.1 b))

-- An error that was found is kept.
duplicate_endpoints-some :
    (gws : List Gateway) (e : StackValidationError)
    → (e' : StackValidationError) × (duplicate_endpoints gws (some e) ≡ some e')
unfolding duplicate_endpoints
duplicate_endpoints-some [] e = (e, refl)
duplicate_endpoints-some (gw ∷ rest) e =
    found (ensure_all_unique (endpoint_keys gw)) (λ e'. duplicate_endpoints-some rest e')
  where
    found :
        (x : Option (String × HttpMethod))
        → ((e'' : StackValidationError)
            → (e' : StackValidationError) × (duplicate_endpoints rest (some e'') ≡ some e'))
        → (e' : StackValidationError) × (duplicate_endpoints rest (elim x [
          | none ↦ some e
          | some (path, method) ↦ some (duplicate_endpoint_in_gateway gw.name path method)
        ])
            ≡ some e')
    found none later = later e
    found (some (path, method)) later = later (duplicate_endpoint_in_gateway gw.name path method)

duplicate_endpoints_iff :
    (gws : List Gateway)
    → (duplicate_endpoints gws none ≡ none)
      ↔ All (λ (gw : Gateway). AllDistinct (endpoint_keys gw)) gws
unfolding duplicate_endpoints ensure_all_unique
duplicate_endpoints_iff [] = (λ _. tt, λ _. refl)
duplicate_endpoints_iff (gw ∷ rest) =
    found (first_repeated [] (endpoint_keys gw)) (AllDistinct-iff (endpoint_keys gw))
      (duplicate_endpoints_iff rest)
  where
    found :
        (x : Option (String × HttpMethod))
        → ((x ≡ none) ↔ AllDistinct (endpoint_keys gw))
        → ((duplicate_endpoints rest none ≡ none)
            ↔ All (λ (g : Gateway). AllDistinct (endpoint_keys g)) rest)
        → (duplicate_endpoints rest (elim x [
          | none ↦ none
          | some (path, method) ↦ some (duplicate_endpoint_in_gateway gw.name path method)
        ])
            ≡ none)
          ↔ (AllDistinct (endpoint_keys gw)
              × All (λ (g : Gateway). AllDistinct (endpoint_keys g)) rest)
    found none one ih = (λ h. (one.0 refl, ih.0 h), λ (a, b). ih.1 b)
    found (some (path, method)) one ih =
        let (e, kept) =
          duplicate_endpoints-some rest (duplicate_endpoint_in_gateway gw.name path method) in
        (λ h. cc, λ (a, b). let none_found = one.1 a in cc)

-- A check and what follows it.
attempt_iff {ℓ κ} :
    {A : Type ℓ} {B : Type κ} (x : Option StackValidationError) (next : Validated) (stack : Stack)
    → ((x ≡ none) ↔ A)
    → ((next ≡ ok stack) ↔ B)
    → (attempt x next ≡ ok stack) ↔ (A × B)
attempt_iff none next stack one two = (λ h. (one.0 refl, two.0 h), λ (a, b). two.1 b)
attempt_iff (some e) next stack one two = (λ h. cc, λ (a, b). let no_error = one.1 a in cc)

last_iff {ℓ} :
    {A : Type ℓ} (x : Option StackValidationError) (stack : Stack)
    → ((x ≡ none) ↔ A)
    → (attempt x (ok stack) ≡ ok stack) ↔ A
last_iff none stack one = (λ h. one.0 refl, λ h. refl)
last_iff (some e) stack one = (λ h. cc, λ a. let no_error = one.1 a in cc)

map-none_iff {ℓ} :
    {K : Type ℓ} (f : K → StackValidationError) (x : Option K)
    → (Option.map f x ≡ none) ↔ (x ≡ none)
map-none_iff f none = (λ _. refl, λ _. refl)
map-none_iff f (some k) = (λ h. cc, λ h. cc)

unique_iff {ℓ} :
    {K : Type ℓ} ⦃e : Key K⦄ (f : K → StackValidationError) (ks : List K)
    → (Option.map f (ensure_all_unique ks) ≡ none) ↔ AllDistinct ks
unfolding ensure_all_unique
unique_iff f ks =
    let all = AllDistinct-iff ks in
    let mapped = map-none_iff f (first_repeated [] ks) in
    (λ h. all.0 (mapped.0 h), λ h. mapped.1 (all.1 h))

-- `validate` accepts exactly the stacks whose functions, tables, gateways and storages have names of
-- their own, whose endpoints call functions of the stack, and whose gateways have no endpoint twice.
-- It gives back the stack as it was.
pub validate_iff : (stack : Stack) → (validate stack ≡ ok stack) ↔ IsValid stack
unfolding validate ensure_gateway_functions_correct
validate_iff stack = attempt_iff _ _ stack (unique_iff _ (function_names stack)) (
    attempt_iff _ _ stack (unique_iff _ _) (
      attempt_iff _ _ stack (unique_iff _ _) (
        attempt_iff _ _ stack (unique_iff _ _) (
          attempt_iff _ _ stack (check_gateways_iff (function_names stack) (gateways stack))
            (last_iff _ stack (duplicate_endpoints_iff (gateways stack)))))))
