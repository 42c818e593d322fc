-- ===== src/MuStack/Validation.antt =====
-- rust-libs/mu_stack/src/validation.rs: the checks that a stack must pass before it is deployed.
pub mod Exact
pub mod Tests
use mathlib.Core.List.{flat_map}
use mathlib.Core.Option
use mu.Base.{
  ◌≡◌, refl, ℕ, Bool, true, false, Option, none, some, List, [], ◌∷◌, map, String, Key, key_by,
  text_key, pair_key, if◌then◌else◌, nat_key, eqb,
}
use mu.Base.HashMap.{HashMap}
use mu.Base.HashSet
use mu.Base.Distinct.{first_repeated}
use mu.MuStack.{
  HttpMethod, get, head, post, put, patch, delete, options, NameAndDelete, AssemblyAndFunction,
  Gateway, Function, Stack, functions, key_value_tables, storages, gateways,
}

pub data StackValidationError : Type 0 where
  duplicate_function_name duplicate_table_name duplicate_gateway_name duplicate_storage_name :
      String → StackValidationError
  -- the function and the gateway
  unknown_function_in_gateway : String → String → StackValidationError
  -- the gateway, the path and the method
  duplicate_endpoint_in_gateway : String → String → HttpMethod → StackValidationError

-- The stack that comes with an error is the one given.
pub data Validated : Type 0 where
  ok : Stack → Validated
  err : StackValidationError → Validated

abbrev pub method_number : HttpMethod → ℕ
method_number get = 0
method_number head = 1
method_number post = 2
method_number put = 3
method_number patch = 4
method_number delete = 5
method_number options = 6

abbrev pub method_numbered : ℕ → HttpMethod
method_numbered n =
    if eqb n 0
    then get
    else if eqb n 1
    then head
    else if eqb n 2
    then post
    else if eqb n 3
    then put
    else if eqb n 4
    then patch
    else if eqb n 5
    then delete
    else options

pub numbered-number : (m : HttpMethod) → method_numbered (method_number m) ≡ m
numbered-number get = refl
numbered-number head = refl
numbered-number post = refl
numbered-number put = refl
numbered-number patch = refl
numbered-number delete = refl
numbered-number options = refl

instance abbrev pub method_key : Key HttpMethod
method_key = key_by method_number method_numbered numbered-number

-- `none` is `Ok(())`.
unfoldable pub ensure_all_unique {ℓ} : {K : Type ℓ} ⦃e : Key K⦄ → List K → Option K
ensure_all_unique ks = first_repeated [] ks

abbrev pub Endpoints : Type 0
Endpoints = HashMap HttpMethod AssemblyAndFunction

-- The loops of `ensure_gateway_functions_correct`, from the innermost.
unfoldable pub check_endpoints : List String → String → Endpoints → Option StackValidationError
check_endpoints names gateway [] = none
check_endpoints names gateway ((method, target) ∷ rest) =
    let more = check_endpoints names gateway rest in
    if HashSet.contains names target.assembly
    then more
    else some (unknown_function_in_gateway target.assembly gateway)

abbrev pub or_else :
    Option StackValidationError → Option StackValidationError → Option StackValidationError
or_else none next = next
or_else (some e) next = some e

unfoldable pub check_paths :
    List String → String → HashMap String Endpoints → Option StackValidationError
check_paths names gateway [] = none
check_paths names gateway ((path, endpoints) ∷ rest) =
    or_else (check_endpoints names gateway endpoints) (check_paths names gateway rest)

unfoldable pub check_gateways : List String → List Gateway → Option StackValidationError
check_gateways names [] = none
check_gateways names (gw ∷ rest) =
    or_else (check_paths names gw.name gw.endpoints) (check_gateways names rest)

abbrev pub function_names : Stack → List String
function_names stack = map (λ (f : Function). f.name) (functions stack)

unfoldable pub ensure_gateway_functions_correct : Stack → Option StackValidationError
ensure_gateway_functions_correct stack = check_gateways (function_names stack) (gateways stack)

-- The paths and methods of a gateway.
abbrev pub endpoint_keys : Gateway → List (String × HttpMethod)
endpoint_keys gw = flat_map (λ (path, endpoints). map (λ ep. (path, ep.0)) endpoints) gw.endpoints

-- The last loop: the error of the last gateway that has one.
unfoldable pub duplicate_endpoints :
    List Gateway → Option StackValidationError → Option StackValidationError
duplicate_endpoints [] error = error
duplicate_endpoints (gw ∷ rest) error =
    duplicate_endpoints rest (elim (ensure_all_unique (endpoint_keys gw)) [
      | none ↦ error
      | some (path, method) ↦ some (duplicate_endpoint_in_gateway gw.name path method)
    ])

-- `attempt_with!`: an error ends the function.
abbrev pub attempt : Option StackValidationError → Validated → Validated
attempt none next = next
attempt (some e) next = err e

unfoldable pub validate : Stack → Validated
validate stack =
    attempt (Option.map duplicate_function_name (ensure_all_unique (function_names stack))) (
      attempt
        (Option.map duplicate_table_name
          (ensure_all_unique (map (λ (t : NameAndDelete). t.name) (key_value_tables stack))))
        (attempt
          (Option.map duplicate_gateway_name
            (ensure_all_unique (map (λ (g : Gateway). g.name) (gateways stack))))
          (attempt
            (Option.map duplicate_storage_name
              (ensure_all_unique (map (λ (s : NameAndDelete). s.name) (storages stack))))
            (attempt (ensure_gateway_functions_correct stack)
              (attempt (duplicate_endpoints (gateways stack) none) (ok stack))))))
