-- ===== src/Membership/Update/Tests.antt =====
-- A node of a region of two, over a run of messages.
use mathlib.Core.Option
use mathlib.Core.Option.{Option-elim}
use mathlib.Core.List.{filter_map}
use mu.Base.{
  ◌≡◌, ◌≢◌, refl, ap, ℕ, ◌+◌, ◌*◌, zero, suc, ◌<◌, Bool, true, false, Option, none, some, List, [],
  ◌∷◌, map, ◌==◌, if◌then◌else◌, nat_key, pair_key, arith, eqb_iff, for_each,
}
use mu.Base.Distinct.{AllDistinct}
use mu.Base.HashSet
use mu.Base.HashMap
use mu.Base.HashMap.{HashMap}
use mu.MuStack.{StackId}
use mu.Scheduler.State.{NodeHash}
use mu.Membership.NodeCollection.{
  AddressAndPort, NodeAddress, RemoteNodeInfo, get_by_address, indexed_node, insert, remove,
  remove_found,
}
use mu.Membership.NodeCollection.InSync.{IsInSync}
use mu.Membership.Status.{
  NodeStatus, alive, DbClient, out_of_fuel, write_status, with_existing, after_swap,
  get_dead_reason, compare_deployed_stack_list,
}
use mu.Membership.Status.Written.{
  Contended, Keeps, WriteOf, TellsChanges, compare_lem, write_status_ends, write_status_lem,
}
use mu.Membership.NodeCollection.{replaced_by_new_generation}
use mu.Membership.Update.{
  State, node_discovered, node_died, body, perform_update, update_nodes, on_statuses, retained,
  collect_statuses, drop_missing, on_newer_generation, on_node_discovered, on_status, Message,
  stack_deployed_locally, get_nodes, update, stop, run,
}
use mu.Membership.Update.Follows.{IsInjective}
use mu.Membership.Update.Keeps.{Kept}
use mu.MuStack.{StackId}
use mu.Membership.Update.Start.{Settings, start}
use mu.Membership.Update.Live.{is_listed, run-start-Follows}

-- A number for each pair, 2 ^ a * (2 * b + 1).
abbrev pair_number : ℕ → ℕ → ℕ
pair_number zero b = 2 * b + 1
pair_number (suc a) b = 2 * pair_number a b

pair_number_injective : (a b c d : ℕ) → pair_number a b ≡ pair_number c d → (a ≡ c) × (b ≡ d)
pair_number_injective zero b zero d e = (refl, omega arith)
pair_number_injective zero b (suc c) d e = absurd (omega arith)
pair_number_injective (suc a) b zero d e = absurd (omega arith)
pair_number_injective (suc a) b (suc c) d e =
    let (same, same') = pair_number_injective a b c d (omega arith) in (ap suc same, same')

abbrev pub hash_of : NodeAddress → NodeHash
hash_of a = pair_number a.address (pair_number a.port a.generation)

hash_of-IsInjective : IsInjective hash_of
hash_of-IsInjective a b e =
    let (address, rest) =
      pair_number_injective a.address (pair_number a.port a.generation) b.address
        (pair_number b.port b.generation) e in
    let (port, generation) = pair_number_injective a.port a.generation b.port b.generation rest in
    ground (arith, address, port, generation)

abbrev node_address : ℕ → ℕ → NodeAddress
node_address address generation = record { address = address; port = 2; generation = generation }

abbrev status_of : ℕ → ℕ → NodeStatus
status_of address generation = record {
  version = 1;
  address = node_address address generation;
  region_id = 7 ∷ [];
  last_update = 95;
  state = alive;
  deployed_stacks = 5 ∷ [];
}

abbrev pub World : Type 0
World = HashMap AddressAndPort NodeStatus

abbrev generation_of : Option NodeStatus → ℕ
generation_of none = 0
generation_of (some status) = suc status.address.generation

abbrev statuses_of : World → List NodeStatus
statuses_of w = map (λ (key, status). status) w

-- A database that one node uses.
abbrev db : DbClient World
db = record {
  get_raw = λ key w. (some (HashMap.get w key), w);
  compare_and_swap_raw = λ key expected status w.
      if generation_of expected == generation_of (HashMap.get w key)
      then (some true, HashMap.insert w key status)
      else (some false, w);
  scan_raw = λ w. (some (statuses_of w), w);
}

db-Keeps : Keeps db (λ w key. HashMap.get w key)
db-Keeps = record {
  reads = λ key w. refl;
  swaps = λ key status w.
      ground
        (arith, eqb_iff (generation_of (HashMap.get w key)) (generation_of (HashMap.get w key)));
  stores = λ key key' status w.
      rw ((eqb_iff (generation_of (HashMap.get w key)) (generation_of (HashMap.get w key))).1 refl)
        (HashMap.get-insert w key key' status);
}

write_status_lem_example :
    WriteOf db
      (λ w key. HashMap.get w key)
      db-Keeps
      (status_of 1 4)
      (((1, 2), status_of 1 3) ∷ [])
      (some (status_of 1 3))
      (write_status db 1 (status_of 1 4) (((1, 2), status_of 1 3) ∷ []))
unfolding HashMap.get
write_status_lem_example =
    write_status_lem db (λ w key. HashMap.get w key) db-Keeps 0 (status_of 1 4)
      (((1, 2), status_of 1 3) ∷ [])

-- A database on which others write as many times as the world says.
abbrev contended_swap : ℕ → Option Bool × ℕ
contended_swap zero = (some true, zero)
contended_swap (suc w) = (some false, w)

abbrev contended_db : DbClient ℕ
contended_db = record {
  get_raw = λ key w. (some none, w);
  compare_and_swap_raw = λ key expected status w. contended_swap w;
  scan_raw = λ w. (some [], w);
}

contended_swap_lost : (w : ℕ) → (contended_swap w).0 ≡ some false → (contended_swap w).1 < w
contended_swap_lost zero e = absurd cc
contended_swap_lost (suc w) e = omega arith

contended : Contended contended_db
contended = record {
  others = λ w. w;
  reading = λ key w. omega arith;
  swapping = λ key expected status w lost. contended_swap_lost w lost;
}

write_status_ends_example : (write_status contended_db 4 (status_of 1 4) 3).0 ≢ out_of_fuel
unfolding contended
write_status_ends_example =
    write_status_ends contended_db contended 4 (status_of 1 4) 3 (omega arith)

abbrev known_node : RemoteNodeInfo
known_node = record {
  version = 1;
  address = node_address 1 3;
  dead_reason = none;
  deployed_stacks = [];
}

abbrev pub two_nodes : State World
two_nodes = record {
  notification_channel = [];
  world = ((1, 2), status_of 1 4) ∷ ((3, 2), status_of 3 1) ∷ [];
  nodes = record { nodes = (114, known_node) ∷ []; nodes_by_addr_and_port = ((1, 2), 114) ∷ [] };
  assume_dead_after = 20;
  my_version = 1;
  my_address = node_address 9 1;
  deployed_stacks = [];
  region_id = 7 ∷ [];
}

pub known-IsInSync : IsInSync hash_of two_nodes.nodes
unfolding HashMap.get
known-IsInSync = record { hashed = λ h. ground arith; in_sync = λ a h. ground arith }

abbrev messages : List Message
messages = stack_deployed_locally 6 ∷ update 100 ∷ get_nodes ∷ update 150 ∷ stop 160 ∷ []

abbrev settings : Settings
settings = record {
  my_version = 1;
  my_address = node_address 9 1;
  region_id = 7 ∷ [];
  assume_dead_after = 20;
}

abbrev statuses : List NodeStatus
statuses = status_of 1 3 ∷ status_of 9 1 ∷ []

run-start-Follows_example :
    (s : State World) × (live : List (NodeAddress × List StackId)) × (start hash_of settings 100
        statuses two_nodes.world
      ≡ some (s, live))
    × Kept hash_of hash_of-IsInjective
        (is_listed hash_of hash_of-IsInjective live)
        (run hash_of db 1 messages s)
run-start-Follows_example =
    run-start-Follows hash_of hash_of-IsInjective db 1 settings 100 statuses two_nodes.world
      messages

update_example :
    Option.map
      (λ (s : State World). s.notification_channel)
      (run hash_of db 1 (update 100 ∷ []) two_nodes)
    ≡ some (
        node_discovered (node_address 1 4)
        ∷ node_died 114 replaced_by_new_generation
        ∷ node_discovered (node_address 3 1)
        ∷ [])
unfolding run body perform_update write_status with_existing HashMap.get after_swap update_nodes
    on_statuses retained collect_statuses for_each HashMap.insert HashMap.remove get_by_address
    drop_missing filter_map HashMap.contains_key Option-elim indexed_node insert remove remove_found
    get_dead_reason on_newer_generation on_node_discovered on_status
update_example = refl

compare_lem_example :
    AllDistinct (compare_deployed_stack_list (1 ∷ 2 ∷ []) (2 ∷ 3 ∷ [])).0
    × AllDistinct (compare_deployed_stack_list (1 ∷ 2 ∷ []) (2 ∷ 3 ∷ [])).1
    × ((id : StackId) → TellsChanges (1 ∷ 2 ∷ []) (2 ∷ 3 ∷ []) id)
unfolding HashSet.contains
compare_lem_example = compare_lem (1 ∷ 2 ∷ []) (2 ∷ 3 ∷ []) (refl, (refl, tt)) (refl, (refl, tt))
