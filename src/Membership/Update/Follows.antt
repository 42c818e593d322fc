-- ===== src/Membership/Update/Follows.antt =====
-- Which nodes are alive, by the state and by the notifications.
use mu.Base.{
  ◌≡◌, refl, sym, ap, ◌∙◌, ◌⊎◌, inl, inr, Bool, true, false, not, Option, none, some, List, [], ◌∷◌,
  ◌==◌, if◌then◌else◌, nat_key, pair_key, arith, eqb_iff, Bool-cases, Option-cases, for_each,
}
use mu.Base.HashMap
use mu.Base.HashSet
use mu.Scheduler.State.{NodeHash}
use mu.Membership.NodeCollection.{
  AddressAndPort, NodeAddress, NodeDeadReason, RemoteNodeInfo, NodeCollection, addr_and_port,
  get_by_address, indexed_node, insert, remove, update_in_place,
}
use mu.Membership.NodeCollection.InSync.{IsInSync, NoCollision, remove_removes, HashOk}
use mu.Membership.Update.{
  Notification, node_discovered, node_died, node_stacks_changed, State, is_dead, send, send_missing,
  remove_node,
}

abbrev pub is_live : Option RemoteNodeInfo → Bool
is_live none = false
is_live (some n) = not (is_dead n)

abbrev pub alive_in : NodeCollection → NodeHash → Bool
alive_in c hash = is_live (HashMap.get c.nodes hash)

module _ (get_hash : NodeAddress → NodeHash) where
  -- A node is alive if the last that was told of it is that it was discovered, or nothing was told and
  -- it was alive before.
  abbrev pub told : (NodeHash → Bool) → List Notification → NodeHash → Bool
  told before [] hash = before hash
  told before (node_discovered address ∷ earlier) hash =
      if get_hash address == hash then true else told before earlier hash
  told before (node_died dead reason ∷ earlier) hash =
      if dead == hash then false else told before earlier hash
  told before (node_stacks_changed node added removed ∷ earlier) hash = told before earlier hash

  abbrev pub IsInjective : Type 0
  IsInjective = (a b : NodeAddress) → get_hash a ≡ get_hash b → a ≡ b

  -- The maps of the nodes agree, and a node is alive exactly if it is by what was told.
  pub record Follows {W : Type 0} (before : NodeHash → Bool) (s : State W) : Type 0 where
    pub in_sync : IsInSync get_hash s.nodes
    pub agree : (hash : NodeHash) → told before s.notification_channel hash ≡ alive_in s.nodes hash

  pub alive-remove :
      (c : NodeCollection) (hash h : NodeHash)
      → alive_in (remove hash c).1 h ≡ (if hash == h then false else alive_in c h)
  unfolding remove mu.Membership.NodeCollection.remove_found
  alive-remove c hash h = elim (Option-cases (HashMap.get c.nodes hash)) [
    | inl missing ↦ rw missing (ground (arith, missing, eqb_iff hash h))
    | inr (n, found) ↦ rw found (ground (arith, HashMap.get-remove c.nodes hash h))
  ]

  pub unlisted :
      (c : NodeCollection) (hash : NodeHash) (n : RemoteNodeInfo) (address : AddressAndPort)
      → HashMap.get c.nodes hash ≡ some n
      → addr_and_port n ≡ address
      → HashMap.get (remove hash c).1.nodes_by_addr_and_port address ≡ none
  unfolding remove mu.Membership.NodeCollection.remove_found
  unlisted c hash n address found at = rw found (
      HashMap.get-remove c.nodes_by_addr_and_port (addr_and_port n) address
      ∙ rw ((pair_key.same_iff (addr_and_port n) address).1 at) refl)

  pub replace-IsInSync :
      (c : NodeCollection) (v : IsInSync get_hash c) (hash : NodeHash)
      (existing node : RemoteNodeInfo)
      → HashMap.get c.nodes hash ≡ some existing
      → existing.address ≡ node.address
      → get_hash node.address ≡ hash
      → IsInSync get_hash (record c { nodes = HashMap.insert c.nodes hash node })
  replace-IsInSync c v hash existing node found same hashed = record {
    hashed = HashMap.insert-keeps (HashOk get_hash) c.nodes v.hashed hash node hashed;
    in_sync = λ a h.
        ground (
          arith,
          HashMap.get-insert c.nodes hash h node,
          v.in_sync a h,
          found,
          same,
          eqb_iff hash h,
        );
  }

  module _ (c : NodeCollection) (v : IsInSync get_hash c) where
    pub no_collision : IsInjective → (node : RemoteNodeInfo) → NoCollision get_hash c node
    no_collision inj node known found =
        let at_hash = v.hashed (get_hash node.address) in
        let same = inj known.address node.address (rw found at at_hash) in
        ap (λ (a : NodeAddress). (a.address, a.port)) same

    -- A call of `get_by_address` finds a node that lives at the address and stands under its hash, or the
    -- address is not listed.
    pub get_by_address_cases :
        (address : AddressAndPort)
        → ((n : RemoteNodeInfo) × (get_by_address c address ≡ some (some n))
            × (addr_and_port n ≡ address)
            × (HashMap.get c.nodes (get_hash n.address) ≡ some n))
          ⊎ ((get_by_address c address ≡ some none)
              × (HashMap.get c.nodes_by_addr_and_port address ≡ none))
    unfolding get_by_address indexed_node
    get_by_address_cases address =
        elim (Option-cases (HashMap.get c.nodes_by_addr_and_port address)) [
          | inl new ↦ inr (rw (new, indexed_node) refl, new)
          | inr (h, listed) ↦
              let points = v.in_sync address h in
              let at_hash = v.hashed h in
              elim (Option-cases (HashMap.get c.nodes h)) [
                | inl missing ↦ absurd (ground (arith, points, listed, missing, eqb_iff h h))
                | inr (n, found) ↦
                    let hashed : get_hash n.address ≡ h = rw found at at_hash in
                    let lives : (addr_and_port n == address) ≡ true =
                      ground (arith, points, listed, found, eqb_iff h h) in
                    inl (
                      n,
                      rw (listed, indexed_node, found) refl,
                      (pair_key.same_iff (addr_and_port n) address).0 lives,
                      ap (HashMap.get c.nodes) hashed ∙ found,
                    )
              ]
        ]

  module _ {W : Type 0} (before : NodeHash → Bool) where
    pub removed-Follows :
        (s : State W) (hash : NodeHash) (reason : NodeDeadReason)
        → Follows before s
        → Follows before (remove_node hash (send (node_died hash reason) s))
    removed-Follows s hash reason f = record {
      in_sync = (remove_removes get_hash s.nodes f.in_sync hash).0;
      agree = λ h. ground (arith, alive-remove s.nodes hash h, f.agree h);
    }

    -- It need not be told that a dead node is taken out.
    pub removed_dead-Follows :
        (s : State W) (hash : NodeHash)
        → Follows before s
        → alive_in s.nodes hash ≡ false
        → Follows before (remove_node hash s)
    removed_dead-Follows s hash f gone = record {
      in_sync = (remove_removes get_hash s.nodes f.in_sync hash).0;
      agree = λ h. f.agree h ∙ elim (Bool-cases (hash == h)) [
        | inl same ↦
            let e = (eqb_iff hash h).0 same in
            sym (ap (alive_in s.nodes) e) ∙ gone ∙ sym (alive-remove s.nodes hash h ∙ rw same refl)
        | inr other ↦ sym (alive-remove s.nodes hash h ∙ rw other refl)
      ];
    }

    pub told-missing :
        (missing : List NodeHash) (s : State W) (h : NodeHash)
        → told before (for_each send_missing missing s).notification_channel h
          ≡ (if HashSet.contains missing h then false else told before s.notification_channel h)
    unfolding for_each HashSet.contains
    told-missing [] s h = refl
    told-missing (hash ∷ rest) s h = told-missing rest (send_missing hash s) h ∙ ground arith

    pub alive-missing :
        (missing : List NodeHash) (s : State W) (h : NodeHash)
        → alive_in (for_each remove_node missing s).nodes h
          ≡ (if HashSet.contains missing h then false else alive_in s.nodes h)
    unfolding for_each HashSet.contains
    alive-missing [] s h = refl
    alive-missing (hash ∷ rest) s h =
        alive-missing rest (remove_node hash s) h ∙ ground (arith, alive-remove s.nodes hash h)
