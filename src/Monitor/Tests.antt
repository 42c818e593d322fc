-- ===== src/Monitor/Tests.antt =====
-- Concrete events: owner 7 is known and active with the stacks 1 and 2; owner 8 is not known.
use mu.Base.{ℕ, ◌≡◌, refl, true, Option, none, some, List, [], ◌∷◌, arith, nat_key, map}
use mu.Base.HashMap
use mu.Base.HashSet
use mu.MuStack.{StackId, StackOwner}
use mu.StackMetadata.{StackWithMetadata, StackMetadata, id, owner}
use mu.Monitor.Collection.{
  OwnerState, OwnerData, StackCollection, remove_stack, all_active, all_inactive,
}
use mu.Monitor.Collection.Indexed.{IsIndexed, has_state}
use mu.Monitor.Collection.Views.{Yields, all-Yields, remove_last_panics}
use mu.Monitor.Events.{
  MonitorState, StackWithState, ok, on_new_stack_received, on_solana_escrow_updated,
  state_of_balance, same_state,
}
use mu.Monitor.Events.Escrow.{escrow_change_announced, announcement}
use mu.Monitor.Events.Deletion.{Receives, stack_received, deletion_not_told}

abbrev stack_of : StackId → StackOwner → StackWithMetadata
stack_of id owner = record {
  stack = record { name = "s"; version = "1"; services = [] };
  name = "s";
  revision = 1;
  metadata = StackMetadata.solana (record { account_id = id; owner = owner });
}

abbrev owner_7 : OwnerData
owner_7 = record { state = OwnerState.active; stacks = 1 ∷ 2 ∷ [] }

abbrev two_stacks : StackCollection
two_stacks = record {
  stacks = (1, stack_of 1 7) ∷ (2, stack_of 2 7) ∷ [];
  owners = (7, owner_7) ∷ [];
  active_owners = 7 ∷ [];
  inactive_owners = [];
}

two_stacks-IsIndexed : IsIndexed two_stacks
unfolding HashMap.get HashSet.contains
two_stacks-IsIndexed = record {
  active_index = λ o. ground arith;
  inactive_index = λ o. ground arith;
  owned = λ o k. ground arith;
  keyed = λ k. ground arith;
}

abbrev state : MonitorState
state = record {
  stacks = two_stacks;
  min_escrow_balance = 100;
  escrow_balances = (7, 150) ∷ [];
  notification_channel = [];
}

abbrev fetch : StackOwner → Option (Option ℕ)
fetch o = some (some 20)

stack_received_example :
    Receives
      (stack_of 3 8)
      state
      (on_new_stack_received fetch (StackWithState.active (stack_of 3 8)) state)
unfolding HashMap.get
stack_received_example =
    stack_received (stack_of 3 8) state fetch two_stacks-IsIndexed tt (some 20) refl

escrow_change_announced_example :
    (s' : MonitorState) × (l : List StackWithMetadata) × (on_solana_escrow_updated 7 20 state
      ≡ ok s')
    × IsIndexed s'.stacks
    × (HashMap.get s'.stacks.owners 7 ≡ some (record owner_7 { state = state_of_balance 100 20 }))
    × (s'.notification_channel ≡ announcement (state_of_balance 100 20) l ∷ [])
    × (map id l ≡ 1 ∷ 2 ∷ [])
unfolding HashMap.get state_of_balance same_state
escrow_change_announced_example =
    escrow_change_announced 7 owner_7 20 state two_stacks-IsIndexed refl refl

deletion_not_told_example :
    (s' : MonitorState) × (on_new_stack_received fetch (StackWithState.deleted 1 7) state ≡ ok s')
    × (HashMap.get s'.stacks.stacks 1 ≡ none)
    × (s'.notification_channel ≡ [])
unfolding HashMap.get HashSet.contains HashSet.remove
deletion_not_told_example =
    deletion_not_told fetch 7 1 owner_7 state two_stacks-IsIndexed refl refl refl

all-Yields_example :
    Yields
      (λ o. has_state OwnerState.active (HashMap.get two_stacks.owners o) ≡ true)
      (all_active two_stacks)
    × Yields
        (λ o. has_state OwnerState.inactive (HashMap.get two_stacks.owners o) ≡ true)
        (all_inactive two_stacks)
all-Yields_example = all-Yields two_stacks two_stacks-IsIndexed

abbrev one_stack : StackCollection
one_stack = record {
  stacks = (1, stack_of 1 7) ∷ [];
  owners = (7, record { state = OwnerState.active; stacks = 1 ∷ [] }) ∷ [];
  active_owners = 7 ∷ [];
  inactive_owners = [];
}

one_stack-IsIndexed : IsIndexed one_stack
unfolding HashMap.get HashSet.contains
one_stack-IsIndexed = record {
  active_index = λ o. ground arith;
  inactive_index = λ o. ground arith;
  owned = λ o k. ground arith;
  keyed = λ k. ground arith;
}

remove_last_panics_example :
    (c' : StackCollection) × (remove_stack 7 1 one_stack ≡ some (true, c')) × (all_active c' ≡ none)
unfolding HashMap.get HashSet.contains HashSet.remove
remove_last_panics_example =
    remove_last_panics 7 1 one_stack (record { state = OwnerState.active; stacks = 1 ∷ [] })
      one_stack-IsIndexed refl refl refl refl
