-- ===== src/Membership/NodeCollection/Tests.antt =====
-- One node is known; a second one comes.
use mu.Base.{◌≡◌, ℕ, ◌+◌, ◌*◌, true, none, some, [], ◌∷◌, arith, nat_key, pair_key}
use mu.Base.HashMap
use mu.Scheduler.State.{NodeHash}
use mu.Membership.NodeCollection.{
  NodeAddress, RemoteNodeInfo, NodeCollection, get_by_address, insert, remove,
}
use mu.Membership.NodeCollection.InSync.{
  IsInSync, Finds, get_by_address-Finds, insert_finds, remove_removes,
}

-- A hash that tells all nodes of one network apart, where ports are below 65536.
abbrev get_hash : NodeAddress → NodeHash
get_hash a = 65536 * a.address + a.port

abbrev node_of : ℕ → ℕ → RemoteNodeInfo
node_of address port = record {
  version = 1;
  address = record { address = address; port = port; generation = 1 };
  dead_reason = none;
  deployed_stacks = [];
}

abbrev one_node : NodeCollection
one_node = record {
  nodes = (65616, node_of 1 80) ∷ [];
  nodes_by_addr_and_port = ((1, 80), 65616) ∷ [];
}

one_node-IsInSync : IsInSync get_hash one_node
unfolding HashMap.get
one_node-IsInSync = record { hashed = λ h. ground arith; in_sync = λ a h. ground arith }

get_by_address-Finds_example :
    Finds get_hash one_node one_node-IsInSync (1, 80) (get_by_address one_node (1, 80))
get_by_address-Finds_example = get_by_address-Finds get_hash one_node one_node-IsInSync (1, 80)

remove_removes_example :
    IsInSync get_hash (remove 65616 one_node).1
    × (HashMap.get (remove 65616 one_node).1.nodes 65616 ≡ none)
remove_removes_example = remove_removes get_hash one_node one_node-IsInSync 65616

insert_finds_example :
    IsInSync get_hash (insert get_hash (node_of 2 80) one_node).1
    × ((insert get_hash (node_of 2 80) one_node).0 ≡ true
        → get_by_address (insert get_hash (node_of 2 80) one_node).1 (2, 80)
          ≡ some (some (node_of 2 80)))
unfolding HashMap.get
insert_finds_example =
    insert_finds get_hash one_node one_node-IsInSync (node_of 2 80) (λ known e. cc)
