-- ===== src/Membership/NodeCollection.antt =====
-- executor/src/network/membership/node_collection.rs. `none` is a panic. The hash of an address
-- (`get_hash`, by the crate stable-hash) is a parameter.
pub mod InSync
pub mod New
pub mod Tests
use mu.Base.{
  ℕ, Bool, true, false, Option, none, some, List, [], ◌∷◌, ◌==◌, ◌>>=◌, if◌then◌else◌, nat_key,
  pair_key, for_each, length,
}
use mu.Base.HashMap
use mu.Base.HashMap.{HashMap}
use mu.Base.HashSet.{HashSet}
use mu.MuStack.{StackId}
use mu.Scheduler.State.{NodeHash}

-- An `IpAddr`, as a number, and a port.
abbrev pub AddressAndPort : Type 0
AddressAndPort = ℕ × ℕ

pub record NodeAddress : Type 0 where
  pub address : ℕ
  pub port : ℕ
  pub generation : ℕ

pub data NodeDeadReason : Type 0 where
  dead_state replaced_by_new_generation missed_update missing_from_db : NodeDeadReason

pub record RemoteNodeInfo : Type 0 where
  pub version : ℕ
  pub address : NodeAddress
  pub dead_reason : Option NodeDeadReason
  pub deployed_stacks : HashSet StackId

pub record NodeCollection : Type 0 where
  pub nodes : HashMap NodeHash RemoteNodeInfo
  pub nodes_by_addr_and_port : HashMap AddressAndPort NodeHash

abbrev pub addr_and_port : RemoteNodeInfo → AddressAndPort
addr_and_port node = (node.address.address, node.address.port)

-- `NodeCollection::default`
abbrev pub empty : NodeCollection
empty = record { nodes = []; nodes_by_addr_and_port = [] }

-- The index has found a hash, or not.
unfoldable pub indexed_node : NodeCollection → Option NodeHash → Option (Option RemoteNodeInfo)
indexed_node c none = some none
indexed_node c (some hash) = HashMap.get c.nodes hash >>= λ node. some (some node)

unfoldable pub get_by_address : NodeCollection → AddressAndPort → Option (Option RemoteNodeInfo)
unfolding indexed_node
get_by_address c address = indexed_node c (HashMap.get c.nodes_by_addr_and_port address)

module _ (get_hash : NodeAddress → NodeHash) where
  unfoldable pub insert : RemoteNodeInfo → NodeCollection → Bool × NodeCollection
  insert node c =
      if HashMap.contains_key c.nodes_by_addr_and_port (addr_and_port node) then (false, c) else (
        true,
        record {
          nodes = HashMap.insert c.nodes (get_hash node.address) node;
          nodes_by_addr_and_port =
              HashMap.insert c.nodes_by_addr_and_port (addr_and_port node) (get_hash node.address);
        },
      )

  abbrev pub index_node :
      RemoteNodeInfo → HashMap AddressAndPort NodeHash → HashMap AddressAndPort NodeHash
  index_node n index = HashMap.insert index (addr_and_port n) (get_hash n.address)

  abbrev pub store_node :
      RemoteNodeInfo → HashMap NodeHash RemoteNodeInfo → HashMap NodeHash RemoteNodeInfo
  store_node n nodes = HashMap.insert nodes (get_hash n.address) n

  -- `NodeCollection::new`
  unfoldable pub new : List RemoteNodeInfo → Option NodeCollection
  new nodes =
      let result : NodeCollection = record {
        nodes = for_each store_node nodes [];
        nodes_by_addr_and_port = for_each index_node nodes [];
      } in
      if length result.nodes == length result.nodes_by_addr_and_port then some result else none

  unfoldable pub update_found :
      NodeHash → RemoteNodeInfo → NodeCollection → Option (Bool × NodeCollection)
  update_found hash node c =
      if get_hash node.address == hash
      then some (true, record c { nodes = HashMap.insert c.nodes hash node })
      else none

  unfoldable pub update_in_place :
      NodeHash → (RemoteNodeInfo → RemoteNodeInfo) → NodeCollection → Option (Bool × NodeCollection)
  unfolding update_found
  update_in_place hash update c = elim (HashMap.get c.nodes hash) [
    | none ↦ some (false, c)
    | some node ↦ update_found hash (update node) c
  ]

unfoldable pub remove_found : NodeHash → Option RemoteNodeInfo → NodeCollection → NodeCollection
remove_found hash none c = c
remove_found hash (some node) c = record {
  nodes = HashMap.remove c.nodes hash;
  nodes_by_addr_and_port = HashMap.remove c.nodes_by_addr_and_port (addr_and_port node);
}

unfoldable pub remove : NodeHash → NodeCollection → Option RemoteNodeInfo × NodeCollection
unfolding remove_found
remove hash c = (HashMap.get c.nodes hash, remove_found hash (HashMap.get c.nodes hash) c)

module _ (get_hash : NodeAddress → NodeHash) where
  reinserted : Bool × NodeCollection → Option (Bool × NodeCollection)
  reinserted (false, c) = none
  reinserted (true, c) = some (true, c)

  -- A node that would take another's address is a panic.
  unfoldable pub update :
      NodeHash → (RemoteNodeInfo → RemoteNodeInfo) → NodeCollection → Option (Bool × NodeCollection)
  unfolding reinserted
  update hash change c = elim (HashMap.get c.nodes hash) [
    | none ↦ some (false, c)
    | some node ↦ reinserted (insert get_hash (change node) (remove hash c).1)
  ]
