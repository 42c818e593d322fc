-- ===== src/Membership/NodeCollection/InSync.antt =====
-- The two maps of a node collection point at each other.
use mu.Base.{
  ◌≡◌, refl, sym, ◌∙◌, ap, Bool, true, false, Option, none, some, arith, ◌==◌, ◌>>=◌, nat_key,
  pair_key, eqb_iff,
}
use mu.Base.HashMap
use mu.Scheduler.State.{NodeHash}
use mu.Membership.NodeCollection.{
  AddressAndPort, NodeAddress, RemoteNodeInfo, NodeCollection, addr_and_port, get_by_address,
  indexed_node, insert, remove, remove_found,
}

abbrev pub points_at : NodeHash → Option NodeHash → Bool
points_at hash none = false
points_at hash (some h) = h == hash

abbrev pub lives_at : AddressAndPort → Option RemoteNodeInfo → Bool
lives_at address none = false
lives_at address (some node) = addr_and_port node == address

module _ (get_hash : NodeAddress → NodeHash) where
  abbrev pub HashOk : NodeHash → Option RemoteNodeInfo → Type 0
  HashOk hash none = Unit
  HashOk hash (some node) = get_hash node.address ≡ hash

  -- An address is listed with the hash of the node that lives there, and a node stands under its hash.
  pub record IsInSync (c : NodeCollection) : Type 0 where
    pub hashed : (hash : NodeHash) → HashOk hash (HashMap.get c.nodes hash)
    pub in_sync :
        (address : AddressAndPort) (hash : NodeHash)
        → points_at hash (HashMap.get c.nodes_by_addr_and_port address)
          ≡ lives_at address (HashMap.get c.nodes hash)

  -- No known node at another address has the node's hash.
  abbrev pub NoCollision : NodeCollection → RemoteNodeInfo → Type 0
  NoCollision c node =
      (known : RemoteNodeInfo)
      → HashMap.get c.nodes (get_hash node.address) ≡ some known
      → addr_and_port known ≡ addr_and_port node

  module _ (c : NodeCollection) (v : IsInSync c) where
    pub fresh_hash :
        (node : RemoteNodeInfo)
        → NoCollision c node
        → HashMap.get c.nodes_by_addr_and_port (addr_and_port node) ≡ none
        → HashMap.get c.nodes (get_hash node.address) ≡ none
    fresh_hash node apart e =
        found (HashMap.get c.nodes (get_hash node.address)) refl
          (v.in_sync (addr_and_port node) (get_hash node.address))
      where
        found :
            (x : Option RemoteNodeInfo)
            → HashMap.get c.nodes (get_hash node.address) ≡ x
            → points_at
                (get_hash node.address)
                (HashMap.get c.nodes_by_addr_and_port (addr_and_port node))
              ≡ lives_at (addr_and_port node) x
            → x ≡ none
        found none h s = refl
        found (some other) h s =
            let same =
              (pair_key.same_iff (addr_and_port other) (addr_and_port node)).1 (apart other h) in
            let told = rw e at s in cc

    remove-IsInSync :
        (hash : NodeHash) (x : Option RemoteNodeInfo)
        → HashMap.get c.nodes hash ≡ x
        → IsInSync (remove_found hash x c)
    unfolding remove_found
    remove-IsInSync hash none e = v
    remove-IsInSync hash (some node) e = record {
      hashed = HashMap.remove-keeps HashOk c.nodes v.hashed hash tt;
      in_sync = λ a h. ground (
        arith,
        HashMap.get-remove c.nodes hash h,
        HashMap.get-remove c.nodes_by_addr_and_port (addr_and_port node) a,
        v.in_sync a h,
        v.in_sync a hash,
      );
    }

    pub insert-IsInSync :
        (node : RemoteNodeInfo)
        → NoCollision c node
        → HashMap.get c.nodes_by_addr_and_port (addr_and_port node) ≡ none
        → IsInSync (record {
          nodes = HashMap.insert c.nodes (get_hash node.address) node;
          nodes_by_addr_and_port =
              HashMap.insert c.nodes_by_addr_and_port (addr_and_port node) (get_hash node.address);
        })
    insert-IsInSync node apart e = record {
      hashed = HashMap.insert-keeps HashOk c.nodes v.hashed (get_hash node.address) node refl;
      in_sync = λ a h. ground (
        arith,
        HashMap.get-insert c.nodes (get_hash node.address) h node,
        HashMap.get-insert c.nodes_by_addr_and_port (addr_and_port node) a (get_hash node.address),
        v.in_sync a h,
        v.in_sync a (get_hash node.address),
        fresh_hash node apart e,
      );
    }

    -- A call finds the node that lives at the address, if there is one, and does not panic.
    abbrev pub Finds : AddressAndPort → Option (Option RemoteNodeInfo) → Type 0
    Finds address r =
        (x : Option RemoteNodeInfo) × (r ≡ some x)
        × ((hash : NodeHash) (node : RemoteNodeInfo)
            → HashMap.get c.nodes hash ≡ some node
            → addr_and_port node ≡ address
            → x ≡ some node)

    stored_at :
        (address : AddressAndPort) (h : NodeHash)
        → HashMap.get c.nodes_by_addr_and_port address ≡ some h
        → (y : Option RemoteNodeInfo) → HashMap.get c.nodes h ≡ y
        → Finds address (y >>= λ node. some (some node))
    stored_at address h e none m =
        let listed = rw (e, m) at (v.in_sync address h) in
        let same = (eqb_iff h h).1 refl in absurd cc
    stored_at address h e (some n) m = (
      some n,
      refl,
      λ hash node at_hash here.
          let listed = rw (e, at_hash) at (v.in_sync address hash) in
          let same = (pair_key.same_iff (addr_and_port node) address).1 here in
          let equal = (eqb_iff h hash).0 (listed ∙ same) in
          sym m ∙ ap (HashMap.get c.nodes) equal ∙ at_hash,
    )

    -- With the maps in agreement `get_by_address` does not panic, and it finds whatever node lives at
    -- the address.
    pub get_by_address-Finds : (address : AddressAndPort) → Finds address (get_by_address c address)
    unfolding get_by_address indexed_node
    get_by_address-Finds address = found (HashMap.get c.nodes_by_addr_and_port address) refl
      where
        found :
            (x : Option NodeHash)
            → HashMap.get c.nodes_by_addr_and_port address ≡ x
            → Finds address (indexed_node c x)
        found none e = (
          none,
          refl,
          λ hash node at_hash here.
              let listed = rw (e, at_hash) at (v.in_sync address hash) in
              let same = (pair_key.same_iff (addr_and_port node) address).1 here in cc,
        )
        found (some h) e = stored_at address h e (HashMap.get c.nodes h) refl

    -- Whether a new node is let in or not, the maps agree after `insert`; if it is, it is found at its
    -- address.
    pub insert_finds :
        (node : RemoteNodeInfo)
        → NoCollision c node
        → IsInSync (insert get_hash node c).1
          × ((insert get_hash node c).0 ≡ true
              → get_by_address (insert get_hash node c).1 (addr_and_port node) ≡ some (some node))
    unfolding insert HashMap.contains_key get_by_address indexed_node
    insert_finds node apart =
        let_in (HashMap.get c.nodes_by_addr_and_port (addr_and_port node)) refl
      where
        let_in :
            (x : Option NodeHash)
            → HashMap.get c.nodes_by_addr_and_port (addr_and_port node) ≡ x
            → IsInSync (insert get_hash node c).1
              × ((insert get_hash node c).0 ≡ true
                  → get_by_address (insert get_hash node c).1 (addr_and_port node)
                    ≡ some (some node))
        let_in (some h) e =
            let known : HashMap.contains_key c.nodes_by_addr_and_port (addr_and_port node) ≡ true =
              rw (e, HashMap.contains_key) refl in
            rw (known, insert) (v, λ h. cc)
        let_in none e =
            let new : HashMap.contains_key c.nodes_by_addr_and_port (addr_and_port node) ≡ false =
              rw (e, HashMap.contains_key) refl in
            rw (new, insert)
              (
                insert-IsInSync node apart e,
                λ _.
                    rw
                      (
                        HashMap.get-insert_self c.nodes_by_addr_and_port (addr_and_port node)
                            (get_hash node.address),
                        indexed_node,
                      )
                      (rw (HashMap.get-insert_self c.nodes (get_hash node.address) node) refl),
              )

    -- After `remove` the maps agree, and no node stands under the hash.
    pub remove_removes :
        (hash : NodeHash)
        → IsInSync (remove hash c).1 × (HashMap.get (remove hash c).1.nodes hash ≡ none)
    unfolding remove remove_found
    remove_removes hash = gone (HashMap.get c.nodes hash) refl
      where
        gone :
            (x : Option RemoteNodeInfo)
            → HashMap.get c.nodes hash ≡ x
            → IsInSync (remove_found hash x c)
              × (HashMap.get (remove_found hash x c).nodes hash ≡ none)
        gone none e = (v, e)
        gone (some node) e = (
          remove-IsInSync hash (some node) e,
          ground (arith, HashMap.get-remove c.nodes hash hash),
        )
