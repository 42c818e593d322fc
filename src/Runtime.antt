-- ===== src/Runtime.antt =====
-- rust-libs/runtime/src/providers.rs: the functions that can be run, and the messages of
-- rust-libs/runtime/src/lib.rs that change them. Running them is not modelled.
pub mod Provided
use mathlib.Core.Option
use mu.Base.{
  ℕ, Bool, true, Option, none, some, List, [], ◌∷◌, map, String, nat_key, text_key, for_each, ◌>>=◌,
}
use mu.Base.HashMap
use mu.Base.HashMap.{HashMap}
use mu.MuStack.{StackId, AssemblyRuntime}

pub record AssemblyDefinition : Type 0 where
  pub stack_id : StackId
  pub assembly_name : String
  pub source : List ℕ
  pub runtime : AssemblyRuntime
  pub env : HashMap String String
  pub memory_limit : ℕ

abbrev pub StackFunctions : Type 0
StackFunctions = HashMap String AssemblyDefinition

abbrev pub AssemblyProvider : Type 0
AssemblyProvider = HashMap StackId StackFunctions

unfoldable pub get_assembly : StackId → String → AssemblyProvider → Option AssemblyDefinition
get_assembly id name p = HashMap.get p id >>= λ f. HashMap.get f name

abbrev pub or_new : Option StackFunctions → StackFunctions
or_new none = []
or_new (some f) = f

unfoldable pub add_function : AssemblyDefinition → AssemblyProvider → AssemblyProvider
add_function d p =
    HashMap.insert p d.stack_id
      (HashMap.insert (or_new (HashMap.get p d.stack_id)) d.assembly_name d)

unfoldable pub remove_function : StackId → String → AssemblyProvider → AssemblyProvider
remove_function id name p = elim (HashMap.get p id) [
  | none ↦ p
  | some f ↦ HashMap.insert p id (HashMap.remove f name)
]

unfoldable pub remove_all_functions : StackId → AssemblyProvider → AssemblyProvider
remove_all_functions id p = HashMap.remove p id

unfoldable pub get_function_names : StackId → AssemblyProvider → List String
get_function_names id p = map (λ (name, d). name) (or_new (HashMap.get p id))

-- `AddFunctions` and `RemoveFunctions`
unfoldable pub add_functions : List AssemblyDefinition → AssemblyProvider → AssemblyProvider
add_functions functions p = for_each add_function functions p

unfoldable pub remove_functions : StackId → List String → AssemblyProvider → AssemblyProvider
remove_functions id names p = for_each (remove_function id) names p
