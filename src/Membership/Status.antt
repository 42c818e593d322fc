-- ===== src/Membership/Status.antt =====
-- executor/src/network/membership.rs: the status that a node writes to the database. The database is
-- the interface `DbClient`, on statuses that are already decoded; `none` is its failure.
pub mod Written
use mu.Base.{
  ℕ, ◌+◌, zero, suc, Bool, true, false, Option, none, some, List, [], ◌∷◌, ◌==◌, ◌&&◌, ltb,
  if◌then◌else◌, nat_key,
}
use mu.Base.HashSet
use mu.Base.HashSet.{HashSet}
use mu.MuStack.{StackId}
use mu.Membership.NodeCollection.{
  AddressAndPort, NodeAddress, NodeDeadReason, dead_state, missed_update,
}

pub data NodeState : Type 0 where
  dead alive : NodeState

-- Times and durations are in the clock's units.
pub record NodeStatus : Type 0 where
  pub version : ℕ
  pub address : NodeAddress
  pub region_id : List ℕ
  pub last_update : ℕ
  pub state : NodeState
  pub deployed_stacks : HashSet StackId

abbrev pub status_key : NodeStatus → AddressAndPort
status_key status = (status.address.address, status.address.port)

unfoldable pub get_dead_reason : ℕ → ℕ → NodeStatus → Option NodeDeadReason
get_dead_reason assume_dead_after now node = elim node.state [
  | dead ↦ some dead_state
  | alive ↦ if ltb now (node.last_update + assume_dead_after) then none else some missed_update
]

-- What is in the second set and not in the first.
unfoldable pub missing_from : HashSet StackId → HashSet StackId → List StackId
missing_from current [] = []
missing_from current (id ∷ incoming) =
    let rest = missing_from current incoming in
    if HashSet.contains current id then rest else id ∷ rest

-- The stacks that are added, and those that are removed.
unfoldable pub compare_deployed_stack_list :
    HashSet StackId → HashSet StackId → List StackId × List StackId
compare_deployed_stack_list current incoming =
    (missing_from current incoming, missing_from incoming current)

pub record DbClient (W : Type 0) : Type 0 where
  pub get_raw : AddressAndPort → W → Option (Option NodeStatus) × W
  -- whether the status was written, which it is if the one expected stands there
  pub compare_and_swap_raw : AddressAndPort → Option NodeStatus → NodeStatus → W → Option Bool × W
  pub scan_raw : W → Option (List NodeStatus) × W

pub data Write : Type 0 where
  written failed refused out_of_fuel : Write

module _ {W : Type 0} (db : DbClient W) where
  -- A round, and what follows a round that did not write.
  unfoldable pub after_swap : (W → Write × W) → Option Bool × W → Write × W
  after_swap retry (none, w) = (failed, w)
  after_swap retry (some true, w) = (written, w)
  after_swap retry (some false, w) = retry w

  unfoldable pub with_existing :
      (W → Write × W) → NodeStatus → Option (Option NodeStatus) × W → Write × W
  with_existing retry status (none, w) = (failed, w)
  with_existing retry status (some none, w) =
      after_swap retry (db.compare_and_swap_raw (status_key status) none status w)
  with_existing retry status (some (some existing), w) =
      let swapped =
        after_swap retry (db.compare_and_swap_raw (status_key status) (some existing) status w) in
      if ltb status.address.generation existing.address.generation then (refused, w) else swapped

  -- The loop, a round for each number.
  unfoldable pub write_status : ℕ → NodeStatus → W → Write × W
  write_status zero status w = (out_of_fuel, w)
  write_status (suc n) status w =
      with_existing (λ w. write_status n status w) status (db.get_raw (status_key status) w)
