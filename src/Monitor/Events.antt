-- ===== src/Monitor/Events.antt =====
-- executor/src/stack/blockchain_monitor.rs: the events that the monitor gets from the blockchain,
-- already decoded. `fetch` is the RPC request of `fetch_owner_escrow_balance`: `none` is an error,
-- `some none` that there is no such account. `notification_channel` holds what was sent, the newest
-- first.
pub mod Escrow
pub mod Deletion
use mu.Base.{
  ℕ, Bool, true, false, Option, none, some, List, [], ◌∷◌, map, leb, if◌then◌else◌, nat_key,
}
use mu.Base.HashMap
use mu.Base.HashMap.{HashMap}
use mu.MuStack.{StackId, StackOwner}
use mu.StackMetadata.{
  StackWithMetadata, StackMetadata, id, owner, ApiRequestSigner, StackRemovalMode, temporary,
  permanent,
}
use mu.Monitor.Collection.{
  OwnerState, OwnerData, StackCollection, Entry, entry, owner_stacks, make_active, make_inactive,
  add_stack, insert_first, remove_stack,
}

pub data BlockchainMonitorNotification : Type 0 where
  stacks_available : List StackWithMetadata → BlockchainMonitorNotification
  stacks_removed : List (StackId × StackRemovalMode) → BlockchainMonitorNotification
  request_signers_available : List (ApiRequestSigner × StackOwner) → BlockchainMonitorNotification
  request_signers_removed : List ApiRequestSigner → BlockchainMonitorNotification

-- `State`, with the fields of `Solana` that the events read and write.
pub record MonitorState : Type 0 where
  pub stacks : StackCollection
  pub min_escrow_balance : ℕ
  pub escrow_balances : HashMap StackOwner ℕ
  pub notification_channel : List BlockchainMonitorNotification

pub data StackWithState : Type 0 where
  active : StackWithMetadata → StackWithState
  deleted : StackId → StackOwner → StackWithState

-- `err` is an `Err` that the main loop logs, with nothing changed.
pub data Outcome {ℓ} (A : Type ℓ) : Type ℓ where
  ok : A → Outcome A
  err : Outcome A
  panicked : Outcome A

abbrev pub notify : BlockchainMonitorNotification → MonitorState → MonitorState
notify n s = record s { notification_channel = n ∷ s.notification_channel }

unfoldable pub state_of_balance : ℕ → ℕ → OwnerState
state_of_balance min_escrow_balance balance =
    if leb min_escrow_balance balance then OwnerState.active else OwnerState.inactive

unfoldable pub balance_or_zero : Option ℕ → ℕ
balance_or_zero none = 0
balance_or_zero (some balance) = balance

-- The end of the branch `Active`: the stack is reported if `should_report_stack`.
unfoldable pub report_stack :
    StackWithMetadata → Option (Bool × StackCollection) → MonitorState → Outcome MonitorState
report_stack stack none s = panicked
report_stack stack (some (should_report_stack, c)) s =
    let s' : MonitorState = record s { stacks = c } in
    ok (if should_report_stack then notify (stacks_available (stack ∷ [])) s' else s')

unfoldable pub always : Option (Bool × StackCollection) → Option (Bool × StackCollection)
always none = none
always (some (added, c)) = some (true, c)

unfoldable pub on_first_stack :
    StackWithMetadata → Option (Option ℕ) → MonitorState → Outcome MonitorState
unfolding always balance_or_zero
on_first_stack stack none s = err
on_first_stack stack (some balance) s =
    report_stack stack
      (always (
        insert_first (owner stack) (state_of_balance s.min_escrow_balance (balance_or_zero balance))
          stack s.stacks))
      s

unfoldable pub on_active_stack :
    (StackOwner → Option (Option ℕ))
    → StackWithMetadata
    → Option OwnerData
    → MonitorState
    → Outcome MonitorState
on_active_stack fetch stack none s = on_first_stack stack (fetch (owner stack)) s
on_active_stack fetch stack (some d) s =
    report_stack stack (add_stack (owner stack) stack s.stacks) s

-- The branch `Deleted`, once `remove_stack` returned.
unfoldable pub report_removal :
    StackId → Option (Bool × StackCollection) → MonitorState → Outcome MonitorState
report_removal stack_id none s = panicked
report_removal stack_id (some (removed, c)) s =
    let s' : MonitorState = record s { stacks = c } in
    ok (if removed then notify (stacks_removed ((stack_id, permanent) ∷ [])) s' else s')

unfoldable pub on_deleted_stack :
    StackId → StackOwner → Option OwnerData → MonitorState → Outcome MonitorState
on_deleted_stack stack_id owner_id none s = ok s
on_deleted_stack stack_id owner_id (some d) s =
    report_removal stack_id (remove_stack owner_id stack_id s.stacks) s

unfoldable pub on_new_stack_received :
    (StackOwner → Option (Option ℕ)) → StackWithState → MonitorState → Outcome MonitorState
on_new_stack_received fetch (active stack) s =
    on_active_stack fetch stack (HashMap.get s.stacks.owners (owner stack)) s
on_new_stack_received fetch (deleted stack_id owner_id) s =
    on_deleted_stack stack_id owner_id (HashMap.get s.stacks.owners owner_id) s

abbrev pub id_modes : List StackWithMetadata → List (StackId × StackRemovalMode)
id_modes stacks = map (λ stack. (id stack, temporary)) stacks

-- The owner changes to the new state; its stacks are announced or withdrawn.
unfoldable pub change_state :
    StackOwner → OwnerState → Option (List StackWithMetadata) → MonitorState → Outcome MonitorState
change_state o new_state none s = panicked
change_state o OwnerState.active (some stacks) s =
    ok (notify (stacks_available stacks) (record s { stacks = make_active o s.stacks }))
change_state o OwnerState.inactive (some stacks) s =
    ok (notify (stacks_removed (id_modes stacks)) (record s { stacks = make_inactive o s.stacks }))

unfoldable pub same_state : OwnerState → OwnerState → Bool
same_state OwnerState.active OwnerState.active = true
same_state OwnerState.inactive OwnerState.inactive = true
same_state _ _ = false

unfoldable pub on_owner_escrow :
    StackOwner → OwnerState → Option OwnerData → MonitorState → Outcome MonitorState
unfolding same_state
on_owner_escrow o new_state none s = ok s
on_owner_escrow o new_state (some d) s =
    if same_state d.state new_state
    then ok s
    else change_state o new_state (owner_stacks s.stacks o) s

unfoldable pub on_solana_escrow_updated : StackOwner → ℕ → MonitorState → Outcome MonitorState
on_solana_escrow_updated o escrow_balance s =
    on_owner_escrow o (state_of_balance s.min_escrow_balance escrow_balance)
      (HashMap.get s.stacks.owners o)
      (record s { escrow_balances = HashMap.insert s.escrow_balances o escrow_balance })

-- `on_request_signer_received`, on the decoded account: its signer, its user and whether it is active.
unfoldable pub on_request_signer_received :
    ApiRequestSigner → StackOwner → Bool → MonitorState → MonitorState
on_request_signer_received signer user true s =
    notify (request_signers_available ((signer, user) ∷ [])) s
on_request_signer_received signer user false s = notify (request_signers_removed (signer ∷ [])) s

-- The reply to `GetStack`: the stack, if its owner is active.
unfoldable pub get_stack : MonitorState → StackId → Option (Option StackWithMetadata)
get_stack s stack_id = elim (entry s.stacks stack_id) [
  | none ↦ none
  | some e ↦ elim e [
    | Entry.vacant ↦ some none
    | Entry.active stack ↦ some (some stack)
    | Entry.inactive stack ↦ some none
  ]
]
