-- ===== src/Monitor/Events/Deletion.antt =====
-- Stacks that come and go (`on_new_stack_received`).
use mu.Base.{
  ◌≡◌, refl, ◌⊎◌, inl, inr, ℕ, Bool, true, false, Option, none, some, [], ◌∷◌, arith, nat_key,
  is_empty,
}
use mu.Base.HashMap
use mu.Base.HashSet
use mu.MuStack.{StackId, StackOwner}
use mu.StackMetadata.{StackWithMetadata, id, owner}
use mu.Monitor.Collection.{OwnerData, StackCollection}
use mu.Monitor.Collection.Indexed.{IsIndexed}
use mu.Monitor.Collection.Indexed.Stacks.{Adds, SameOwner, add_stack-IsIndexed}
use mu.Monitor.Collection.Indexed.First.{insert_first-IsIndexed, remove_one_of_many}
use mu.Monitor.Events.{
  stacks_available, MonitorState, StackWithState, deleted, Outcome, ok, report_stack,
  on_first_stack, on_active_stack, on_new_stack_received, on_deleted_stack, report_removal, always,
  balance_or_zero, state_of_balance,
}

-- What is left after a stack is received: indexes that agree, and either nothing new is told, or the
-- stack is held and it is announced.
abbrev pub Received : StackWithMetadata → MonitorState → MonitorState → Type 0
Received stack s s' =
    IsIndexed s'.stacks
    × ((s'.notification_channel ≡ s.notification_channel)
        ⊎ ((HashMap.get s'.stacks.stacks (id stack) ≡ some stack)
            × (s'.notification_channel ≡ stacks_available (stack ∷ []) ∷ s.notification_channel)))

abbrev pub Receives : StackWithMetadata → MonitorState → Outcome MonitorState → Type 0
Receives stack s r = (s' : MonitorState) × (r ≡ ok s') × Received stack s s'

module _ (stack : StackWithMetadata) (s : MonitorState) where
  report-Receives :
      (b : Bool) (c : StackCollection)
      → IsIndexed c
      → (b ≡ true → HashMap.get c.stacks (id stack) ≡ some stack)
      → Receives stack s (report_stack stack (some (b, c)) s)
  unfolding report_stack
  report-Receives true c v held = (_, refl, (v, inr (held refl, refl)))
  report-Receives false c v held = (_, refl, (v, inl refl))

  module _ (x : Option StackWithMetadata) (r : Option (Bool × StackCollection)) where
    report_stack-Receives : Adds stack x r → Receives stack s (report_stack stack r s)
    report_stack-Receives (b, c, e, v, held, first) = rw e (report-Receives b c v held)

    always-Receives : Adds stack x r → x ≡ none → Receives stack s (report_stack stack (always r) s)
    unfolding always
    always-Receives (b, c, e, v, held, first) fresh =
        rw (e, always) (report-Receives true c v λ _. held (first fresh))

  -- A stack is only known if its owner is.
  unknown_stack :
      (v : IsIndexed s.stacks)
      → HashMap.get s.stacks.owners (owner stack) ≡ none
      → (x : Option StackWithMetadata) → HashMap.get s.stacks.stacks (id stack) ≡ x
      → SameOwner stack s.stacks v x
      → x ≡ none
  unknown_stack v e none known same = refl
  unknown_stack v e (some existing) known same = grind (arith, v.owned (owner stack) (id stack))

  module _ (fetch : StackOwner → Option (Option ℕ)) (v : IsIndexed s.stacks)
      (same : SameOwner stack s.stacks v (HashMap.get s.stacks.stacks (id stack))) where
    active-Receives :
        (balance : Option ℕ)
        → fetch (owner stack) ≡ some balance
        → (x : Option OwnerData) → HashMap.get s.stacks.owners (owner stack) ≡ x
        → Receives stack s (on_active_stack fetch stack x s)
    unfolding on_active_stack on_first_stack
    active-Receives balance fetched (some d) e =
        report_stack-Receives _ _ (add_stack-IsIndexed stack s.stacks v d e same)
    active-Receives balance fetched none e =
        let fresh = unknown_stack v e (HashMap.get s.stacks.stacks (id stack)) refl same in
        rw (fetched, on_first_stack)
          (always-Receives _ _
            (insert_first-IsIndexed stack
              (state_of_balance s.min_escrow_balance (balance_or_zero balance)) s.stacks v e fresh)
            fresh)

    -- When a stack is received whose owner is not another than before, and the owner's balance can be
    -- fetched, the event does not panic, the indexes still agree, and either nothing new is told or the
    -- stack is now the one held under its id and it is announced.
    pub stack_received :
        (balance : Option ℕ)
        → fetch (owner stack) ≡ some balance
        → Receives stack s (on_new_stack_received fetch (StackWithState.active stack) s)
    unfolding on_new_stack_received
    stack_received balance fetched = active-Receives balance fetched _ refl

-- Deleting one of several stacks of an owner takes it out of the collection but tells nobody.
pub deletion_not_told :
    (fetch : StackOwner → Option (Option ℕ)) (o : StackOwner) (k : StackId) (d : OwnerData)
    → (s : MonitorState) → IsIndexed s.stacks
    → HashMap.get s.stacks.owners o ≡ some d
    → HashSet.contains d.stacks k ≡ true
    → is_empty (HashSet.remove d.stacks k) ≡ false
    → (s' : MonitorState) × (on_new_stack_received fetch (deleted k o) s ≡ ok s')
      × (HashMap.get s'.stacks.stacks k ≡ none)
      × (s'.notification_channel ≡ s.notification_channel)
unfolding on_new_stack_received on_deleted_stack report_removal
deletion_not_told fetch o k d s v e held more =
    let (c, removed, v', gone) = remove_one_of_many o k s.stacks d v e held more in
    rw (e, on_deleted_stack) (rw (removed, report_removal) (_, refl, gone, refl))
