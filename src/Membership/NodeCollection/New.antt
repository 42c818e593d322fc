-- ===== src/Membership/NodeCollection/New.antt =====
-- A collection that is made of a list of nodes.
use mu.Base.{
  ◌≡◌, refl, sym, ap, ◌∙◌, inl, inr, suc, false, none, some, List, [], ◌∷◌, map, arith, ◌==◌,
  nat_key, pair_key, for_each, length, Bool-cases, All, Key, eqb_iff,
}
use mu.Base.Distinct.{AllDistinct}
use mu.Base.HashMap
use mu.Base.HashMap.{HashMap}
use mu.Base.HashSet
use mu.Scheduler.State.{NodeHash}
use mu.Membership.NodeCollection.{
  NodeAddress, RemoteNodeInfo, NodeCollection, addr_and_port, index_node, store_node, new, empty,
}
use mu.Membership.NodeCollection.InSync.{IsInSync, NoCollision, fresh_hash, insert-IsInSync}

remove-absent {ℓ κ} :
    {K : Type ℓ} {V : Type κ} ⦃e : Key K⦄ (m : HashMap K V) (k : K)
    → HashMap.get m k ≡ none
    → HashMap.remove m k ≡ m
unfolding HashMap.remove HashMap.get
remove-absent [] k h = refl
remove-absent ((j, v) ∷ m) k h = elim (Bool-cases (j == k)) [
  | inl same ↦ absurd (ground (arith, h, same))
  | inr other ↦ rw other (ap (λ r. (j, v) ∷ r) (remove-absent m k (ground (arith, h, other))))
]

length-insert {ℓ κ} :
    {K : Type ℓ} {V : Type κ} ⦃e : Key K⦄ (m : HashMap K V) (k : K) (v : V)
    → HashMap.get m k ≡ none
    → length (HashMap.insert m k v) ≡ suc (length m)
unfolding HashMap.insert
length-insert m k v h = ap (λ r. suc (length r)) (remove-absent m k h)

module _ (get_hash : NodeAddress → NodeHash)
    (apart : (c : NodeCollection)
      → IsInSync get_hash c
      → (n : RemoteNodeInfo) → NoCollision get_hash c n) where
  -- None of the addresses is listed.
  abbrev AreNew : NodeCollection → List RemoteNodeInfo → Type 0
  AreNew c ns = All (λ n. HashMap.get c.nodes_by_addr_and_port (addr_and_port n) ≡ none) ns

  abbrev with_node : RemoteNodeInfo → NodeCollection → NodeCollection
  with_node n c = record {
    nodes = store_node get_hash n c.nodes;
    nodes_by_addr_and_port = index_node get_hash n c.nodes_by_addr_and_port;
  }

  AreNew-with_node :
      (c : NodeCollection) (n : RemoteNodeInfo) (ns : List RemoteNodeInfo)
      → AreNew c ns
      → HashSet.contains (map addr_and_port ns) (addr_and_port n) ≡ false
      → AreNew (with_node n c) ns
  unfolding HashSet.contains
  AreNew-with_node c n [] h away = tt
  AreNew-with_node c n (x ∷ xs) (h, hs) away =
      let looked =
        HashMap.get-insert c.nodes_by_addr_and_port (addr_and_port n) (addr_and_port x)
          (get_hash n.address) in
      let same = pair_key.same_iff (addr_and_port x) (addr_and_port n) in
      let same' = pair_key.same_iff (addr_and_port n) (addr_and_port x) in
      (
        ground (arith, looked, same, same', away, h),
        AreNew-with_node c n xs hs (ground (arith, away)),
      )

  abbrev folded : NodeCollection → List RemoteNodeInfo → NodeCollection
  folded c ns = record {
    nodes = for_each (store_node get_hash) ns c.nodes;
    nodes_by_addr_and_port = for_each (index_node get_hash) ns c.nodes_by_addr_and_port;
  }

  -- As many nodes as addresses.
  abbrev AreEqual : NodeCollection → Type 0
  AreEqual c = length c.nodes ≡ length c.nodes_by_addr_and_port

  folded-IsInSync :
      (c : NodeCollection) (ns : List RemoteNodeInfo)
      → IsInSync get_hash c
      → AreEqual c
      → AreNew c ns
      → AllDistinct (map addr_and_port ns)
      → IsInSync get_hash (folded c ns) × AreEqual (folded c ns)
  unfolding for_each
  folded-IsInSync c [] v same new distinct = (v, same)
  folded-IsInSync c (n ∷ ns) v same (here, new) (away, distinct) =
      let stored =
        length-insert c.nodes (get_hash n.address) n
          (fresh_hash get_hash c v n (apart c v n) here) in
      let listed =
        length-insert c.nodes_by_addr_and_port (addr_and_port n) (get_hash n.address) here in
      folded-IsInSync (with_node n c) ns (insert-IsInSync get_hash c v n (apart c v n) here)
        (stored ∙ ap suc same ∙ sym listed) (AreNew-with_node c n ns new away) distinct

  empty-IsInSync : IsInSync get_hash empty
  unfolding HashMap.get
  empty-IsInSync = record { hashed = λ h. tt; in_sync = λ a h. refl }

  empty-AreNew : (ns : List RemoteNodeInfo) → AreNew empty ns
  unfolding HashMap.get
  empty-AreNew [] = tt
  empty-AreNew (n ∷ ns) = (refl, empty-AreNew ns)

  -- Nodes at addresses of their own make a collection: the assertion holds, and the maps agree.
  pub new-IsInSync :
      (nodes : List RemoteNodeInfo)
      → AllDistinct (map addr_and_port nodes)
      → (c : NodeCollection) × (new get_hash nodes ≡ some c)
        × IsInSync get_hash c
        × (c.nodes ≡ for_each (store_node get_hash) nodes [])
  unfolding new
  new-IsInSync nodes distinct =
      let (v, same) =
        folded-IsInSync empty nodes empty-IsInSync refl (empty-AreNew nodes) distinct in
      (folded empty nodes, rw ((eqb_iff _ _).1 same) refl, v, refl)
