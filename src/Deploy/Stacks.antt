-- ===== src/Deploy/Stacks.antt =====
-- executor/src/stack/deploy.rs: `deploy` and `undeploy_stack`. The runtime, the database and the storage
-- are interfaces, each with a state of its own; `none` and `false` are their failures.
pub mod Cleaning
pub mod Functions
use mu.Base.{
  ℕ, Bool, true, false, not, Option, none, some, List, [], ◌∷◌, map, String, if◌then◌else◌,
  is_empty, text_key,
}
use mu.Base.HashMap.{HashMap}
use mu.MuStack.{
  StackId, StackOwner, NameAndDelete, AssemblyRuntime, Function, Stack, functions, key_value_tables,
  storages,
}
use mu.Runtime.{AssemblyDefinition}
use mu.StackMetadata.{StackWithMetadata, StackRemovalMode, permanent, temporary, owner}
use mu.Deploy.{names_to_remove}

pub data StackDeploymentError : Type 0 where
  bad_assembly_definition : StackDeploymentError
  cannot_fetch_function : String → StackDeploymentError
  failed_to_deploy_functions failed_to_deploy_gateways failed_to_deploy_tables
        failed_to_deploy_storage_names failed_to_connect_to_database failed_to_connect_to_storage :
      StackDeploymentError

pub record Runtime (R : Type 0) : Type 0 where
  -- `AssemblyDefinition::try_new`
  pub is_valid : AssemblyDefinition → Bool
  pub add_functions : List AssemblyDefinition → R → Bool × R
  pub remove_functions : StackId → List String → R → Bool × R
  pub remove_all_functions : StackId → R → Bool × R
  pub get_function_names : StackId → R → Option (List String) × R

pub record Database (D : Type 0) : Type 0 where
  pub make_client : D → Bool × D
  pub is_table_name : String → Bool
  -- with whether each table is to be deleted
  pub update_stack_tables : StackId → List (String × Bool) → D → Bool × D
  pub table_list : StackId → D → Option (List String) × D
  pub clear_table : StackId → String → D → Bool × D

-- A user or a stack owns a file.
pub record Storage (S : Type 0) : Type 0 where
  pub can_connect : S → Bool
  pub get : StackOwner → String → S → Option (List ℕ) × S
  pub update_stack_storages : StackId → List (String × Bool) → S → Bool × S
  pub storage_list : StackId → S → Option (List String) × S
  pub remove_storage : StackId → String → S → Bool × S

abbrev pub is_deleted : NameAndDelete → Bool
is_deleted n = elim n.delete [ none ↦ false | some delete ↦ delete ]

abbrev pub name_and_delete : NameAndDelete → String × Bool
name_and_delete n = (n.name, is_deleted n)

-- An error, or none; and the three states.
abbrev pub Outcome : Type 0 → Type 0 → Type 0 → Type 0
Outcome R D S = Option StackDeploymentError × R × D × S

module _ {R D S : Type 0} (runtime : Runtime R) (db : Database D) (storage : Storage S) where
  abbrev pub definition_of : StackId → Function → List ℕ → AssemblyDefinition
  definition_of id func source = record {
    stack_id = id;
    assembly_name = func.name;
    source = source;
    runtime = func.runtime;
    env = func.env;
    memory_limit = func.memory_limit;
  }

  abbrev pub Definitions : Type 0
  Definitions = Option (List AssemblyDefinition)

  abbrev prepend :
      AssemblyDefinition
      → (Option StackDeploymentError × List AssemblyDefinition) × S
      → (Option StackDeploymentError × List AssemblyDefinition) × S
  prepend d ((error, defs), s) = ((error, d ∷ defs), s)

  -- The loop over the functions. The definitions are of no use with an error.
  unfoldable pub fetch_definitions :
      StackId
      → StackOwner
      → List Function
      → S
      → (Option StackDeploymentError × List AssemblyDefinition) × S
  fetch_definitions id user [] s = ((none, []), s)
  fetch_definitions id user (func ∷ rest) s =
      let (source, s) = storage.get user func.binary s in
      let more = fetch_definitions id user rest s in
      elim source [
        | none ↦ ((some failed_to_deploy_functions, []), s)
        | some bytes ↦
            if runtime.is_valid (definition_of id func bytes)
            then prepend (definition_of id func bytes) more
            else ((some bad_assembly_definition, []), s)
      ]

  -- What fails here is not an error.
  unfoldable pub remove_old_functions : StackId → List String → R → R
  remove_old_functions id wanted r =
      let (existing, r) = runtime.get_function_names id r in
      let old = names_to_remove wanted (elim existing [ none ↦ [] | some names ↦ names ]) in
      if is_empty old then r else (runtime.remove_functions id old r).1

  -- The steps of `deploy`, from the last.
  unfoldable pub deploy_storages : StackId → StackWithMetadata → R → D → S → Outcome R D S
  deploy_storages id stack r d s =
      let (updated, s) =
        storage.update_stack_storages id (map name_and_delete (storages stack.stack)) s in
      if updated
      then (
        none,
        remove_old_functions id (map (λ (f : Function). f.name) (functions stack.stack)) r,
        d,
        s,
      )
      else (some failed_to_deploy_storage_names, r, d, s)

  abbrev pub are_table_names : List NameAndDelete → Bool
  are_table_names [] = true
  are_table_names (t ∷ ts) = if db.is_table_name t.name then are_table_names ts else false

  unfoldable pub deploy_tables : StackId → StackWithMetadata → R → D → S → Outcome R D S
  deploy_tables id stack r d s =
      let (updated, d') =
        db.update_stack_tables id (map name_and_delete (key_value_tables stack.stack)) d in
      if are_table_names (key_value_tables stack.stack)
      then if updated
        then deploy_storages id stack r d' s
        else (some failed_to_deploy_tables, r, d', s)
      else (some failed_to_deploy_tables, r, d, s)

  unfoldable pub deploy_functions :
      StackId
      → StackWithMetadata
      → R
      → D
      → (Option StackDeploymentError × List AssemblyDefinition) × S
      → Outcome R D S
  deploy_functions id stack r d ((some e, defs), s) = (some e, r, d, s)
  deploy_functions id stack r d ((none, defs), s) =
      let (added, r) = runtime.add_functions defs r in
      if added then deploy_tables id stack r d s else (some failed_to_deploy_functions, r, d, s)

  unfoldable pub deploy : StackId → StackWithMetadata → R → D → S → Outcome R D S
  deploy id stack r d s =
      let (connected, d) = db.make_client d in
      if connected
      then if storage.can_connect s
        then deploy_functions id stack r d
            (fetch_definitions id (owner stack) (functions stack.stack) s)
        else (some failed_to_connect_to_storage, r, d, s)
      else (some failed_to_connect_to_database, r, d, s)

  -- `false` is a failure in what follows; the states are those at that point.
  unfoldable pub clear_tables : StackId → List String → D → Bool × D
  clear_tables id [] d = (true, d)
  clear_tables id (name ∷ rest) d =
      let (cleared, d) = db.clear_table id name d in
      let more = clear_tables id rest d in if cleared then more else (false, d)

  unfoldable pub delete_listed_tables : StackId → Option (List String) × D → Bool × D
  delete_listed_tables id (none, d) = (false, d)
  delete_listed_tables id (some names, d) =
      let (cleared, d) = clear_tables id names d in
      if cleared then db.update_stack_tables id (map (λ name. (name, true)) names) d else (false, d)

  unfoldable pub delete_from_database : StackId → D → Bool × D
  delete_from_database id d =
      let (connected, d) = db.make_client d in
      if connected then delete_listed_tables id (db.table_list id d) else (false, d)

  unfoldable pub remove_storages : StackId → List String → S → Bool × S
  remove_storages id [] s = (true, s)
  remove_storages id (name ∷ rest) s =
      let (removed, s) = storage.remove_storage id name s in
      let more = remove_storages id rest s in if removed then more else (false, s)

  unfoldable pub delete_listed_storages : StackId → Option (List String) × S → Bool × S
  delete_listed_storages id (none, s) = (false, s)
  delete_listed_storages id (some names, s) =
      let (removed, s) = remove_storages id names s in
      if removed
      then storage.update_stack_storages id (map (λ name. (name, true)) names) s
      else (false, s)

  unfoldable pub delete_from_storage : StackId → S → Bool × S
  delete_from_storage id s =
      if storage.can_connect s
      then delete_listed_storages id (storage.storage_list id s)
      else (false, s)

  unfoldable pub delete_user_data : StackId → D → S → Bool × D × S
  delete_user_data id d s =
      let (deleted, d) = delete_from_database id d in
      let (deleted', s') = delete_from_storage id s in
      if deleted then (deleted', d, s') else (false, d, s)

  unfoldable pub undeploy_stack : StackId → StackRemovalMode → R → D → S → Bool × R × D × S
  undeploy_stack id temporary r d s =
      let (removed, r) = runtime.remove_all_functions id r in (removed, r, d, s)
  undeploy_stack id permanent r d s =
      let (deleted, d, s) = delete_user_data id d s in
      let (removed, r') = runtime.remove_all_functions id r in
      if deleted then (removed, r', d, s) else (false, r, d, s)
