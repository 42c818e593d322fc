-- ===== src/Runtime/Provided.antt =====
-- The functions that the runtime has, as the deployment of stacks sees them.
use mu.Base.{
  ◌≡◌, refl, ◌∙◌, inl, inr, Bool, true, false, Option, none, some, List, [], ◌∷◌, map, String, ◌==◌,
  ◌&&◌, ◌||◌, if◌then◌else◌, nat_key, text_key, for_each, arith, Option-cases, eqb_iff,
}
use mu.Base.HashMap
use mu.Base.HashMap.{HashMap}
use mu.Base.HashSet
use mu.MuStack.{StackId}
use mu.Runtime.{
  AssemblyDefinition, AssemblyProvider, StackFunctions, get_assembly, or_new, add_function,
  remove_function, get_function_names, add_functions, remove_functions, remove_all_functions,
}
use mu.Deploy.Stacks.{Runtime}
use mu.Deploy.Stacks.Cleaning.{Laws, is_named}

abbrev pub is_some : Option AssemblyDefinition → Bool
is_some none = false
is_some (some d) = true

abbrev pub has : AssemblyProvider → StackId → String → Bool
has p id name = is_some (get_assembly id name p)

has-add_function :
    (d : AssemblyDefinition) (p : AssemblyProvider) (id : StackId) (name : String)
    → has (add_function d p) id name
      ≡ ((d.stack_id == id && d.assembly_name == name) || has p id name)
unfolding add_function get_assembly
has-add_function d p id name =
    let f = or_new (HashMap.get p d.stack_id) in
    ground (
      arith,
      HashMap.get-insert p d.stack_id id (HashMap.insert f d.assembly_name d),
      HashMap.get-insert f d.assembly_name name d,
      HashMap.get-empty {K = String} {V = AssemblyDefinition} name,
      eqb_iff d.stack_id id,
    )

has-add_functions :
    (ds : List AssemblyDefinition) (p : AssemblyProvider) (id : StackId) (name : String)
    → has (add_functions ds p) id name ≡ (is_named id name ds || has p id name)
unfolding add_functions for_each
has-add_functions [] p id name = refl
has-add_functions (d ∷ ds) p id name =
    has-add_functions ds (add_function d p) id name ∙ ground (arith, has-add_function d p id name)

has-remove_function :
    (id : StackId) (x : String) (p : AssemblyProvider) (other : StackId) (name : String)
    → has (remove_function id x p) other name
      ≡ (if id == other && x == name then false else has p other name)
unfolding remove_function get_assembly
has-remove_function id x p other name = elim (Option-cases (HashMap.get p id)) [
  | inl missing ↦ rw (remove_function, missing) (ground (arith, missing, eqb_iff id other))
  | inr (f, found) ↦
      rw (remove_function, found)
        (ground (
          arith,
          found,
          HashMap.get-insert p id other (HashMap.remove f x),
          HashMap.get-remove f x name,
          eqb_iff id other,
        ))
]

has-remove_functions :
    (id : StackId) (names : List String) (p : AssemblyProvider) (other : StackId) (name : String)
    → has (remove_functions id names p) other name
      ≡ (if id == other && HashSet.contains names name then false else has p other name)
unfolding remove_functions for_each HashSet.contains
has-remove_functions id [] p other name = ground arith
has-remove_functions id (x ∷ xs) p other name =
    has-remove_functions id xs (remove_function id x p) other name
    ∙ ground (arith, has-remove_function id x p other name)

contains-names :
    (f : StackFunctions) (name : String)
    → HashSet.contains (map (λ (name, d). name) f) name ≡ is_some (HashMap.get f name)
unfolding HashSet.contains HashMap.get
contains-names [] name = refl
contains-names ((x, d) ∷ rest) name = ground (arith, contains-names rest name)

names-has :
    (id : StackId) (p : AssemblyProvider) (name : String)
    → HashSet.contains (get_function_names id p) name ≡ has p id name
unfolding get_function_names get_assembly
names-has id p name =
    contains-names (or_new (HashMap.get p id)) name
    ∙ ground (arith, HashMap.get-empty {K = String} {V = AssemblyDefinition} name)

-- While the runtime's mailbox runs, no message is refused.
module _ (is_valid : AssemblyDefinition → Bool) where
  abbrev pub provider : Runtime AssemblyProvider
  provider = record {
    is_valid = is_valid;
    add_functions = λ ds p. (true, add_functions ds p);
    remove_functions = λ id names p. (true, remove_functions id names p);
    remove_all_functions = λ id p. (true, remove_all_functions id p);
    get_function_names = λ id p. (some (get_function_names id p), p);
  }

  -- The runtime keeps the laws that the deployment of stacks asks for.
  pub provider-Laws : Laws provider has
  provider-Laws = record {
    added = λ ds p ok id name. has-add_functions ds p id name;
    refused = λ ds p wrong id name. absurd cc;
    asked = λ id p other name. refl;
    named = λ id p names told name. ground (arith, names-has id p name, told);
    spared = λ id names p other name kept.
        ground (arith, has-remove_functions id names p other name, kept);
    only_removes =
        λ id names p other name h. ground (arith, has-remove_functions id names p other name, h);
    removed = λ id names p ok name listed.
        ground (arith, has-remove_functions id names p id name, listed, eqb_iff id id);
  }
