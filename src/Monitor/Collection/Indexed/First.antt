-- ===== src/Monitor/Collection/Indexed/First.antt =====
-- `insert_first` and `remove_stack`.
use mu.Base.{◌≡◌, true, false, none, some, arith, is_empty, nat_key}
use mu.Base.HashMap
use mu.Base.HashSet
use mu.MuStack.{StackId, StackOwner}
use mu.StackMetadata.{StackWithMetadata, id, owner}
use mu.Monitor.Collection.{
  OwnerState, active, inactive, OwnerData, StackCollection, insert_first, remove_stack,
  remove_owned_stack,
}
use mu.Monitor.Collection.Indexed.{KeyOk, IsIndexed}
use mu.Monitor.Collection.Indexed.Stacks.{Adds, with_owner-IsIndexed, add_stack-IsIndexed}

-- For an owner that is not known, `insert_first` does not panic, keeps the indexes in agreement, and
-- if it returns true then the stack is the one held under its id.
pub insert_first-IsIndexed :
    (stack : StackWithMetadata) (state : OwnerState) (c : StackCollection)
    → IsIndexed c
    → HashMap.get c.owners (owner stack) ≡ none
    → HashMap.get c.stacks (id stack) ≡ none
    → Adds stack (HashMap.get c.stacks (id stack)) (insert_first (owner stack) state stack c)
unfolding insert_first
insert_first-IsIndexed stack active c v fresh new =
    add_stack-IsIndexed stack _ (with_owner-IsIndexed stack c v fresh active) _
      (HashMap.get-insert_self c.owners (owner stack) _) (rw new tt)
insert_first-IsIndexed stack inactive c v fresh new =
    add_stack-IsIndexed stack _ (with_owner-IsIndexed stack c v fresh inactive) _
      (HashMap.get-insert_self c.owners (owner stack) _) (rw new tt)

module _ (o : StackOwner) (k : StackId) (c : StackCollection) (d : OwnerData) (v : IsIndexed c)
    (e : HashMap.get c.owners o ≡ some d) where
  -- If the owner keeps another stack, `remove_stack` takes the stack out of every index, and yet it
  -- returns false.
  pub remove_one_of_many :
      HashSet.contains d.stacks k ≡ true
      → is_empty (HashSet.remove d.stacks k) ≡ false
      → (c' : StackCollection) × (remove_stack o k c ≡ some (false, c'))
        × IsIndexed c'
        × (HashMap.get c'.stacks k ≡ none)
  unfolding remove_stack remove_owned_stack
  remove_one_of_many held more = (
    record c {
      stacks = HashMap.remove c.stacks k;
      owners = HashMap.insert c.owners o (record d { stacks = HashSet.remove d.stacks k });
    },
    rw (e, remove_owned_stack) (rw held (rw more)),
    record {
      active_index = λ j. ground (
        arith,
        HashMap.get-insert c.owners o j (record d { stacks = HashSet.remove d.stacks k }),
        v.active_index j,
      );
      inactive_index = λ j. ground (
        arith,
        HashMap.get-insert c.owners o j (record d { stacks = HashSet.remove d.stacks k }),
        v.inactive_index j,
      );
      owned = λ j i. ground (
        arith,
        HashMap.get-insert c.owners o j (record d { stacks = HashSet.remove d.stacks k }),
        HashMap.get-remove c.stacks k i,
        HashSet.contains-remove d.stacks k i,
        v.owned j i,
        v.owned o k,
      );
      keyed = HashMap.remove-keeps KeyOk c.stacks v.keyed k tt;
    },
    ground (arith, HashMap.get-remove c.stacks k k),
  )
