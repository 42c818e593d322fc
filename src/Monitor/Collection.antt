-- ===== src/Monitor/Collection.antt =====
-- executor/src/stack/blockchain_monitor/stack_collection.rs. `none` is a panic (`expect`, `unwrap`,
-- `panic!`). An entry of an owner is the collection with the owner's key.
pub mod Indexed
pub mod Views
use mu.Base.{
  Bool, true, false, Option, none, some, List, [], ◌∷◌, ◌++◌, map, leb, if◌then◌else◌, ◌==◌, ◌>>=◌,
  is_empty, nat_key,
}
use mu.Base.HashMap
use mu.Base.HashMap.{HashMap}
use mu.Base.HashSet
use mu.Base.HashSet.{HashSet}
use mu.MuStack.{StackId, StackOwner}
use mu.StackMetadata.{StackWithMetadata, id, owner}

pub data OwnerState : Type 0 where
  active inactive : OwnerState

pub record OwnerData : Type 0 where
  pub state : OwnerState
  pub stacks : HashSet StackId

pub record StackCollection : Type 0 where
  pub stacks : HashMap StackId StackWithMetadata
  pub owners : HashMap StackOwner OwnerData
  pub active_owners : HashSet StackOwner
  pub inactive_owners : HashSet StackOwner

-- `StackCollection::new`
abbrev pub new : StackCollection
new = record { stacks = []; owners = []; active_owners = []; inactive_owners = [] }

-- `get_owner_index(state).insert(owner)`
abbrev pub insert_index : OwnerState → StackOwner → StackCollection → StackCollection
insert_index active o c = record c { active_owners = HashSet.insert c.active_owners o }
insert_index inactive o c = record c { inactive_owners = HashSet.insert c.inactive_owners o }

-- The loop of `from_known` over the stacks of one owner.
unfoldable pub add_known :
    List StackWithMetadata
    → HashSet StackId
    → StackCollection
    → Option (HashSet StackId × StackCollection)
add_known [] ids c = some (ids, c)
add_known (stack ∷ rest) ids c =
    let added =
      add_known rest (HashSet.insert ids (id stack))
        (record c { stacks = HashMap.insert c.stacks (id stack) stack }) in
    if HashMap.contains_key c.stacks (id stack) then none else added

unfoldable pub from_known_loop :
    List (StackOwner × OwnerState × List StackWithMetadata)
    → StackCollection
    → Option StackCollection
from_known_loop [] c = some c
from_known_loop ((o, state, stacks) ∷ rest) c = add_known stacks [] c >>= λ (ids, c').
    from_known_loop rest (
      insert_index state o (record c' {
        owners = HashMap.insert c'.owners o (record { state = state; stacks = ids });
      }))

unfoldable pub from_known :
    List (StackOwner × OwnerState × List StackWithMetadata) → Option StackCollection
from_known known_stacks = from_known_loop known_stacks new

set_state : OwnerState → OwnerData → OwnerData
set_state state d = record d { state = state }

-- `make_inactive` for an owner that is found, by its state.
unfoldable pub deactivate : StackOwner → OwnerState → OwnerData → StackCollection → StackCollection
unfolding set_state
deactivate o active d c = record c {
  owners = HashMap.insert c.owners o (set_state inactive d);
  active_owners = HashSet.remove c.active_owners o;
  inactive_owners = HashSet.insert c.inactive_owners o;
}
deactivate o inactive d c = c

unfoldable pub make_inactive : StackOwner → StackCollection → StackCollection
make_inactive o c = elim (HashMap.get c.owners o) [ none ↦ c | some d ↦ deactivate o d.state d c ]

unfoldable pub activate : StackOwner → OwnerState → OwnerData → StackCollection → StackCollection
unfolding set_state
activate o active d c = c
activate o inactive d c = record c {
  owners = HashMap.insert c.owners o (set_state active d);
  inactive_owners = HashSet.remove c.inactive_owners o;
  active_owners = HashSet.insert c.active_owners o;
}

unfoldable pub make_active : StackOwner → StackCollection → StackCollection
make_active o c = elim (HashMap.get c.owners o) [ none ↦ c | some d ↦ activate o d.state d c ]

-- `Entry`
pub data Entry : Type 0 where
  vacant : Entry
  active : StackWithMetadata → Entry
  inactive : StackWithMetadata → Entry

entry_of : StackWithMetadata → Option OwnerData → Option Entry
entry_of stack none = none
entry_of stack (some d) =
    some (elim d.state [ OwnerState.active ↦ active stack | OwnerState.inactive ↦ inactive stack ])

unfoldable pub entry : StackCollection → StackId → Option Entry
unfolding entry_of
entry c stack_id = elim (HashMap.get c.stacks stack_id) [
  | none ↦ some vacant
  | some stack ↦ entry_of stack (HashMap.get c.owners (owner stack))
]

-- The stacks of a set of ids.
unfoldable pub stacks_of_ids : StackCollection → List StackId → Option (List StackWithMetadata)
stacks_of_ids c [] = some []
stacks_of_ids c (k ∷ ks) =
    let rest = stacks_of_ids c ks in
    HashMap.get c.stacks k >>= λ stack. rest >>= λ stacks. some (stack ∷ stacks)

-- `OccupiedOwnerEntry::stacks`
unfoldable pub owner_stacks : StackCollection → StackOwner → Option (List StackWithMetadata)
owner_stacks c o = HashMap.get c.owners o >>= λ d. stacks_of_ids c d.stacks

unfoldable pub all_by_owners : StackCollection → List StackOwner → Option (List StackWithMetadata)
all_by_owners c [] = some []
all_by_owners c (o ∷ os) =
    let rest = all_by_owners c os in
    owner_stacks c o >>= λ stacks. rest >>= λ others. some (stacks ++ others)

unfoldable pub all_active : StackCollection → Option (List StackWithMetadata)
all_active c = all_by_owners c c.active_owners

unfoldable pub all_inactive : StackCollection → Option (List StackWithMetadata)
all_inactive c = all_by_owners c c.inactive_owners

-- `OccupiedOwnerEntry::owner_state`
unfoldable pub owner_state : StackCollection → StackOwner → Option OwnerState
owner_state c o = HashMap.get c.owners o >>= λ d. some d.state

-- The stack is not yet known: it goes under its owner.
unfoldable pub add_new_stack :
    StackWithMetadata → Option OwnerData → StackCollection → Option (Bool × StackCollection)
add_new_stack stack none c = none
add_new_stack stack (some d) c = some (
  true,
  record c {
    stacks = HashMap.insert c.stacks (id stack) stack;
    owners =
        HashMap.insert c.owners (owner stack)
          (record d { stacks = HashSet.insert d.stacks (id stack) });
  },
)

unfoldable pub add_owned_stack :
    StackWithMetadata → Option StackWithMetadata → StackCollection → Option (Bool × StackCollection)
add_owned_stack stack (some existing) c =
    if leb stack.revision existing.revision
    then some (false, c)
    else some (true, record c { stacks = HashMap.insert c.stacks (id stack) stack })
add_owned_stack stack none c = add_new_stack stack (HashMap.get c.owners (owner stack)) c

-- `OccupiedOwnerEntry::add_stack`, for the entry of the owner `o`.
unfoldable pub add_stack :
    StackOwner → StackWithMetadata → StackCollection → Option (Bool × StackCollection)
add_stack o stack c =
    if owner stack == o then add_owned_stack stack (HashMap.get c.stacks (id stack)) c else none

-- `VacantOwnerEntry::insert_first`
unfoldable pub insert_first :
    StackOwner → OwnerState → StackWithMetadata → StackCollection → Option (Bool × StackCollection)
insert_first o state stack c = add_stack o stack (
    insert_index state o
      (record c { owners = HashMap.insert c.owners o (record { state = state; stacks = [] }) }))

unfoldable pub remove_owned_stack :
    StackOwner → StackId → Option OwnerData → StackCollection → Option (Bool × StackCollection)
remove_owned_stack o k none c = none
remove_owned_stack o k (some d) c =
    let left = HashSet.remove d.stacks k in
    if HashSet.contains d.stacks k
    then if is_empty left
      then some (
        true,
        record c { stacks = HashMap.remove c.stacks k; owners = HashMap.remove c.owners o },
      )
      else some (
        false,
        record c {
          stacks = HashMap.remove c.stacks k;
          owners = HashMap.insert c.owners o (record d { stacks = left });
        },
      )
    else some (false, c)

-- `OccupiedOwnerEntry::remove_stack`. The Boolean says whether the owner is gone.
unfoldable pub remove_stack :
    StackOwner → StackId → StackCollection → Option (Bool × StackCollection)
remove_stack o k c = remove_owned_stack o k (HashMap.get c.owners o) c
