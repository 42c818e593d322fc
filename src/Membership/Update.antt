-- ===== src/Membership/Update.antt =====
-- executor/src/network/membership.rs: the state of the membership and its messages. `none` is a panic.
pub mod Follows
pub mod Keeps
pub mod Runs
pub mod Start
pub mod Live
pub mod Tests
use mathlib.Core.List.{filter_map}
use mathlib.Core.Option
use mu.Base.{
  ℕ, zero, suc, Bool, true, false, not, Option, none, some, List, [], ◌∷◌, map, ◌==◌, ◌&&◌, ◌||◌,
  ltb, if◌then◌else◌, nat_key, pair_key, is_empty, ◌>>=◌, for_each,
}
use mu.Base.HashMap
use mu.Base.HashMap.{HashMap}
use mu.Base.HashSet
use mu.Base.HashSet.{HashSet}
use mu.MuStack.{StackId}
use mu.Scheduler.State.{NodeHash}
use mu.Membership.NodeCollection.{
  AddressAndPort, NodeAddress, NodeDeadReason, replaced_by_new_generation, missing_from_db,
  RemoteNodeInfo, NodeCollection, get_by_address, insert, update_in_place, remove,
}
use mu.Membership.Status.{
  NodeStatus, dead, alive, status_key, get_dead_reason, compare_deployed_stack_list, DbClient,
  Write, written, write_status,
}

pub data Notification : Type 0 where
  node_discovered : NodeAddress → Notification
  node_died : NodeHash → NodeDeadReason → Notification
  -- the node, what is added and what is removed
  node_stacks_changed : NodeHash → List StackId → List StackId → Notification

-- The notifications that were sent, the newest first.
pub record State (W : Type 0) : Type 0 where
  pub notification_channel : List Notification
  pub world : W
  pub nodes : NodeCollection
  pub assume_dead_after : ℕ
  pub my_version : ℕ
  pub my_address : NodeAddress
  pub deployed_stacks : HashSet StackId
  pub region_id : List ℕ

-- `==` of texts of bytes and of addresses.
abbrev pub same_bytes : List ℕ → List ℕ → Bool
same_bytes [] [] = true
same_bytes (x ∷ xs) (y ∷ ys) = x == y && same_bytes xs ys
same_bytes _ _ = false

abbrev pub same_address : NodeAddress → NodeAddress → Bool
same_address a b = a.address == b.address && a.port == b.port && a.generation == b.generation

abbrev pub is_dead : RemoteNodeInfo → Bool
is_dead node = elim node.dead_reason [ none ↦ false | some reason ↦ true ]

-- `collect` into a map, a status that comes later in the place of an older one.
abbrev collect_status :
    NodeStatus → HashMap AddressAndPort NodeStatus → HashMap AddressAndPort NodeStatus
collect_status status all = HashMap.insert all (status_key status) status

unfoldable pub collect_statuses : List NodeStatus → HashMap AddressAndPort NodeStatus
collect_statuses statuses = for_each collect_status statuses []

module _ {W : Type 0} where
  abbrev pub send : Notification → State W → State W
  send n s = record s { notification_channel = n ∷ s.notification_channel }

  -- `retain`
  unfoldable pub retained :
      State W → HashMap AddressAndPort NodeStatus → HashMap AddressAndPort NodeStatus
  retained s [] = []
  retained s ((k, v) ∷ all) =
      let rest = retained s all in
      if same_bytes v.region_id s.region_id && not (same_address v.address s.my_address)
      then (k, v) ∷ rest
      else rest

  abbrev pub send_missing : NodeHash → State W → State W
  send_missing hash s = send (node_died hash missing_from_db) s

  abbrev pub remove_node : NodeHash → State W → State W
  remove_node hash s = record s { nodes = (remove hash s.nodes).1 }

-- The hashes of the known nodes that have no status.
abbrev pub missing_hash :
    (NodeAddress → NodeHash)
    → HashMap AddressAndPort NodeStatus
    → NodeHash × RemoteNodeInfo
    → Option NodeHash
missing_hash get_hash all (hash, known) =
    if HashMap.contains_key all (known.address.address, known.address.port)
    then none
    else some (get_hash known.address)

abbrev live_node : NodeHash × RemoteNodeInfo → Option (NodeAddress × List StackId)
live_node (hash, n) = if is_dead n then none else some (n.address, n.deployed_stacks)

module _ {W : Type 0} (get_hash : NodeAddress → NodeHash) where
  unfoldable pub drop_missing : HashMap AddressAndPort NodeStatus → State W → State W
  drop_missing all s =
      let missing = filter_map (missing_hash get_hash all) s.nodes.nodes in
      for_each remove_node missing (for_each send_missing missing s)

  unfoldable pub on_node_discovered : NodeStatus → State W → Option (State W)
  on_node_discovered node s =
      let sent : State W = send (node_discovered node.address) s in
      let inserted =
        insert get_hash
          (record {
            version = node.version;
            address = node.address;
            dead_reason = none;
            deployed_stacks = node.deployed_stacks;
          })
          sent.nodes in
      if inserted.0 then some (record sent { nodes = inserted.1 }) else none

  -- The three notifications for a node of the same generation.
  abbrev pub came_back : RemoteNodeInfo → NodeStatus → Option NodeDeadReason → State W → State W
  came_back existing new none s =
      if is_dead existing then send (node_discovered new.address) s else s
  came_back existing new (some reason) s = s

  abbrev pub stacks_changed : RemoteNodeInfo → NodeStatus → State W → State W
  stacks_changed existing new s =
      let changes = compare_deployed_stack_list existing.deployed_stacks new.deployed_stacks in
      if not (is_empty changes.0) || not (is_empty changes.1)
      then send (node_stacks_changed (get_hash new.address) changes.0 changes.1) s
      else s

  abbrev pub died : RemoteNodeInfo → Option NodeDeadReason → State W → State W
  died existing none s = s
  died existing (some reason) s =
      if is_dead existing then s else send (node_died (get_hash existing.address) reason) s

  unfoldable pub on_same_generation :
      RemoteNodeInfo → NodeStatus → Option NodeDeadReason → State W → Option (State W)
  on_same_generation existing new dead_reason s =
      let sent : State W =
        died existing dead_reason
          (stacks_changed existing new (came_back existing new dead_reason s)) in
      update_in_place get_hash (get_hash new.address)
        (λ node. record node { dead_reason = dead_reason; deployed_stacks = new.deployed_stacks })
        sent.nodes
      >>= λ updated. some (record sent { nodes = updated.1 })

  abbrev pub replaced : RemoteNodeInfo → State W → State W
  replaced existing s =
      if is_dead existing
      then s
      else send (node_died (get_hash existing.address) replaced_by_new_generation) s

  abbrev if_alive : NodeStatus → Option NodeDeadReason → State W → Option (State W)
  if_alive new none s = on_node_discovered new s
  if_alive new (some reason) s = some s

  unfoldable pub on_newer_generation :
      RemoteNodeInfo → NodeStatus → Option NodeDeadReason → State W → Option (State W)
  on_newer_generation existing new dead_reason s =
      if_alive new dead_reason (remove_node (get_hash existing.address) (replaced existing s))

  -- A status, the node at its address if one is known, and whether the status tells that it is dead.
  unfoldable pub on_status :
      NodeStatus → Option RemoteNodeInfo → Option NodeDeadReason → State W → Option (State W)
  on_status new none none s = on_node_discovered new s
  on_status new none (some reason) s = some s
  on_status new (some existing) dead_reason s =
      let same = on_same_generation existing new dead_reason s in
      let newer = on_newer_generation existing new dead_reason s in
      if existing.address.generation == new.address.generation
      then same
      else if ltb existing.address.generation new.address.generation
      then newer
      else some s

  unfoldable pub on_statuses : ℕ → HashMap AddressAndPort NodeStatus → State W → Option (State W)
  on_statuses now [] s = some s
  on_statuses now ((address, new) ∷ rest) s =
      get_by_address s.nodes address
      >>= (λ existing. on_status new existing (get_dead_reason s.assume_dead_after now new) s)
      >>= (λ s. on_statuses now rest s)

  -- What `perform_update` does with the statuses that it has read.
  unfoldable pub update_nodes : ℕ → List NodeStatus → State W → Option (State W)
  update_nodes now statuses s =
      let all_nodes = retained s (collect_statuses statuses) in
      on_statuses now all_nodes (drop_missing all_nodes s)

  -- The reply to `GetNodes`.
  unfoldable pub live_nodes : State W → List (NodeAddress × List StackId)
  live_nodes s = filter_map live_node s.nodes.nodes

  -- The reply to `GetNode`.
  unfoldable pub live_address : NodeHash → State W → Option NodeAddress
  live_address hash s =
      HashMap.get s.nodes.nodes hash >>= λ n. if is_dead n then none else some n.address

-- The replies of `GetNodes` and `GetNode` do not change the state. `Update` and `Stop` come with the time.
pub data Message : Type 0 where
  stack_deployed_locally stack_undeployed_locally : StackId → Message
  get_nodes : Message
  get_node : NodeHash → Message
  update stop : ℕ → Message

module _ {W : Type 0} (get_hash : NodeAddress → NodeHash) (db : DbClient W) (rounds : ℕ) where
  abbrev pub my_status : ℕ → State W → NodeStatus
  my_status now s = record {
    version = s.my_version;
    address = s.my_address;
    region_id = s.region_id;
    last_update = now;
    state = alive;
    deployed_stacks = s.deployed_stacks;
  }

  abbrev pub with_statuses : ℕ → State W → Option (List NodeStatus) × W → Option (State W)
  with_statuses now s (none, w) = some (record s { world = w })
  with_statuses now s (some statuses, w) =
      update_nodes get_hash now statuses (record s { world = w })

  -- Where the write fails or goes on, nothing more happens.
  abbrev pub with_written : ℕ → State W → Write × W → Option (State W)
  with_written now s (written, w) = with_statuses now s (db.scan_raw w)
  with_written now s (other, w) = some (record s { world = w })

  unfoldable pub perform_update : ℕ → State W → Option (State W)
  perform_update now s = with_written now s (write_status db rounds (my_status now s) s.world)

  unfoldable pub mark_me_dead : ℕ → State W → State W
  mark_me_dead now s =
      let status : NodeStatus = record (my_status now s) { state = dead; deployed_stacks = [] } in
      record s { world = (write_status db rounds status s.world).1 }

  unfoldable pub body : Message → State W → Option (State W)
  body (stack_deployed_locally id) s =
      some (record s { deployed_stacks = HashSet.insert s.deployed_stacks id })
  body (stack_undeployed_locally id) s =
      some (record s { deployed_stacks = HashSet.remove s.deployed_stacks id })
  body get_nodes s = some s
  body (get_node hash) s = some s
  body (update now) s = perform_update now s
  body (stop now) s = some (mark_me_dead now s)

  unfoldable pub run : List Message → State W → Option (State W)
  run [] s = some s
  run (msg ∷ rest) s = body msg s >>= λ s. run rest s
