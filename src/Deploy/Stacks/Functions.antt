-- ===== src/Deploy/Stacks/Functions.antt =====
-- Which functions the runtime has after `deploy`.
use mu.Base.{
  ◌≡◌, ◌≢◌, ◌⊎◌, Bool, true, Option, none, some, List, map, String, ◌==◌, ◌&&◌, ◌||◌, text_key,
  nat_key,
}
use mu.Base.HashSet
use mu.MuStack.{StackId, Function, functions}
use mu.Runtime.{AssemblyDefinition}
use mu.StackMetadata.{StackWithMetadata}
use mu.Deploy.Stacks.Cleaning.{Laws, is_named, CleaningFails}
use mu.Deploy.Stacks.{StackDeploymentError, Runtime, Database, Storage, Outcome}

abbrev wanted_of : StackWithMetadata → List String
wanted_of stack = map (λ (f : Function). f.name) (functions stack.stack)

module _ {R D S : Type 0} (runtime : Runtime R) (db : Database D) (storage : Storage S)
    (has : R → StackId → String → Bool) (laws : Laws runtime has) where
  -- The functions of other stacks are as they were, and none comes up that the stack does not name. Where
  -- there is an error, those of the stack are still there. Otherwise all that it names are there, and no
  -- others unless the runtime fails to list or to remove them.
  abbrev pub Deployed : StackId → StackWithMetadata → R → Outcome R D S → Type 0
  Deployed id stack r done =
      ((other : StackId) (name : String) → id ≢ other → has done.1 other name ≡ has r other name)
      × ((name : String)
          → has done.1 id name ≡ true
          → (HashSet.contains (wanted_of stack) name || has r id name) ≡ true)
      × ((e : StackDeploymentError)
          → done.0 ≡ some e
          → (name : String) → has r id name ≡ true
          → has done.1 id name ≡ true)
      × ((done.0 ≡ none)
          → (name : String) → HashSet.contains (wanted_of stack) name ≡ true
          → has done.1 id name ≡ true)
      × ((done.0 ≡ none)
          → ((name : String) → has done.1 id name ≡ HashSet.contains (wanted_of stack) name)
            ⊎ CleaningFails runtime db storage has laws id (wanted_of stack)
                (λ name. HashSet.contains (wanted_of stack) name || has r id name))

  abbrev Added : StackId → StackWithMetadata → R → R → Type 0
  Added id stack before r =
      (other : StackId) (name : String)
      → has r other name
        ≡ (id == other && HashSet.contains (wanted_of stack) name || has before other name)

  -- The definitions that are fetched are those of the functions.
  abbrev AreNamed :
      StackId → List Function → (Option StackDeploymentError × List AssemblyDefinition) × S → Type 0
  AreNamed id fs fetched =
      fetched.0.0 ≡ none
      → (other : StackId) (name : String)
      → is_named other name fetched.0.1
        ≡ (id == other && HashSet.contains (map (λ (f : Function). f.name) fs) name)
