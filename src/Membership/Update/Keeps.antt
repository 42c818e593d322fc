-- ===== src/Membership/Update/Keeps.antt =====
-- Every message keeps the notifications true to the state.
use mathlib.Core.List.{filter_map}
use mu.Base.{
  ◌≡◌, refl, sym, ap, subst, ◌∙◌, inl, inr, Bool, true, false, not, Option, none, some, ◌∷◌, ◌==◌,
  if◌then◌else◌, nat_key, pair_key, arith, eqb_iff, Bool-cases, ◌>>=◌, for_each, for_each-keeps,
  ltb,
}
use mu.Base.HashMap
use mu.Base.HashMap.{HashMap}
use mu.Base.HashSet
use mu.MuStack.{StackId}
use mu.Scheduler.State.{NodeHash}
use mu.Membership.NodeCollection.{
  AddressAndPort, NodeAddress, NodeDeadReason, replaced_by_new_generation, RemoteNodeInfo,
  NodeCollection, addr_and_port, get_by_address, insert, update_in_place, update_found,
}
use mu.Membership.NodeCollection.InSync.{IsInSync, insert-IsInSync, remove_removes}
use mu.Membership.Status.{NodeStatus, status_key}
use mu.Membership.Update.{
  node_discovered, State, is_dead, send_missing, remove_node, drop_missing, on_node_discovered,
  came_back, stacks_changed, died, on_same_generation, replaced, on_newer_generation, on_status,
  missing_hash,
}
use mu.Membership.Update.Follows.{
  Follows, IsInjective, replace-IsInSync, unlisted, is_live, alive_in, told, no_collision,
  get_by_address_cases, removed-Follows, removed_dead-Follows, told-missing, alive-missing,
}

alive_replaced :
    (existing : RemoteNodeInfo) (c : NodeCollection) (hash : NodeHash)
    (reason : Option NodeDeadReason) (stacks : HashSet.HashSet StackId) (h : NodeHash)
    → (if hash == h then elim reason [ none ↦ true | some r ↦ false ] else alive_in c h)
      ≡ is_live (
          HashMap.get
            (HashMap.insert c.nodes hash
              (record existing { dead_reason = reason; deployed_stacks = stacks }))
            h)
alive_replaced existing c hash reason stacks h = ground (
  arith,
  HashMap.get-insert c.nodes hash h
      (record existing { dead_reason = reason; deployed_stacks = stacks }),
)

same_node :
    (existing : RemoteNodeInfo) (new : NodeStatus)
    → addr_and_port existing ≡ status_key new
    → existing.address.generation ≡ new.address.generation
    → existing.address ≡ new.address
same_node existing new here same = ground (arith, here, same)

module _ {W : Type 0} (get_hash : NodeAddress → NodeHash) (inj : IsInjective get_hash)
    (before : NodeHash → Bool) where
  -- A step does not panic, and keeps the notifications true.
  abbrev pub Kept : Option (State W) → Type 0
  Kept o = (s : State W) × (o ≡ some s) × Follows get_hash before s

  pub drop_missing-Follows :
      (all : HashMap AddressAndPort NodeStatus) (s : State W)
      → Follows get_hash before s
      → Follows get_hash before (drop_missing get_hash all s)
  unfolding drop_missing
  drop_missing-Follows all s f =
      let missing = filter_map (missing_hash get_hash all) s.nodes.nodes in
      let sent : State W = for_each send_missing missing s in
      let same_nodes : sent.nodes ≡ s.nodes =
        for_each-keeps (λ (t : State W). t.nodes ≡ s.nodes) send_missing (λ hash t e. e) missing s
          refl in
      let same_sent : (for_each remove_node missing sent).notification_channel
          ≡ sent.notification_channel =
        for_each-keeps (λ (t : State W). t.notification_channel ≡ sent.notification_channel)
          remove_node (λ hash t e. e) missing sent refl in
      record {
        in_sync =
            for_each-keeps (λ (t : State W). IsInSync get_hash t.nodes) remove_node
              (λ hash t v. (remove_removes get_hash t.nodes v hash).0) missing sent
              (subst (IsInSync get_hash) (sym same_nodes) f.in_sync);
        agree = λ h.
            ap (λ ns. told get_hash before ns h) same_sent
            ∙ told-missing get_hash before missing s h
            ∙ ap (λ b. if HashSet.contains missing h then false else b)
                (f.agree h ∙ ap (λ c. alive_in c h) (sym same_nodes))
            ∙ sym (alive-missing get_hash before missing sent h);
      }

  discovered-Follows :
      (new : NodeStatus) (s : State W)
      → Follows get_hash before s
      → HashMap.get s.nodes.nodes_by_addr_and_port (status_key new) ≡ none
      → Kept (on_node_discovered get_hash new s)
  unfolding on_node_discovered insert HashMap.contains_key
  discovered-Follows new s f fresh =
      let node : RemoteNodeInfo = record {
        version = new.version;
        address = new.address;
        dead_reason = none;
        deployed_stacks = new.deployed_stacks;
      } in
      (
        record s {
          notification_channel = node_discovered new.address ∷ s.notification_channel;
          nodes = record {
            nodes = HashMap.insert s.nodes.nodes (get_hash new.address) node;
            nodes_by_addr_and_port =
                HashMap.insert s.nodes.nodes_by_addr_and_port (status_key new)
                  (get_hash new.address);
          };
        },
        rw (on_node_discovered, insert, HashMap.contains_key, fresh) refl,
        record {
          in_sync =
              insert-IsInSync get_hash s.nodes f.in_sync node
                (no_collision get_hash s.nodes f.in_sync inj node) fresh;
          agree = λ h.
              ground
                (arith, HashMap.get-insert s.nodes.nodes (get_hash new.address) h node, f.agree h);
        },
      )

  abbrev sent_same : RemoteNodeInfo → NodeStatus → Option NodeDeadReason → State W → State W
  sent_same existing new reason s =
      died get_hash existing reason
        (stacks_changed get_hash existing new (came_back get_hash existing new reason s))

  sent_same_nodes :
      (existing : RemoteNodeInfo) (new : NodeStatus) (reason : Option NodeDeadReason) (s : State W)
      → (sent_same existing new reason s).nodes ≡ s.nodes
  sent_same_nodes existing new none s = ground arith
  sent_same_nodes existing new (some reason) s = ground arith

  told_same :
      (existing : RemoteNodeInfo) (new : NodeStatus) (reason : Option NodeDeadReason) (s : State W)
      (h : NodeHash)
      → existing.address ≡ new.address
      → told get_hash before s.notification_channel (get_hash new.address) ≡ not (is_dead existing)
      → told get_hash before (sent_same existing new reason s).notification_channel h ≡ (
          if get_hash new.address == h
          then elim reason [ none ↦ true | some r ↦ false ]
          else told get_hash before s.notification_channel h)
  told_same existing new none s h same was =
      ground (arith, eqb_iff (get_hash new.address) h, same, was)
  told_same existing new (some reason) s h same was =
      ground (arith, eqb_iff (get_hash new.address) h, same, was)

  same-Follows :
      (existing : RemoteNodeInfo) (new : NodeStatus) (reason : Option NodeDeadReason) (s : State W)
      → Follows get_hash before s
      → HashMap.get s.nodes.nodes (get_hash new.address) ≡ some existing
      → existing.address ≡ new.address
      → Kept (on_same_generation get_hash existing new reason s)
  unfolding on_same_generation update_in_place update_found
  same-Follows existing new reason s f found same =
      let sent = sent_same existing new reason s in
      let same_nodes = sent_same_nodes existing new reason s in
      let was = f.agree (get_hash new.address) ∙ ap is_live found in
      let node : RemoteNodeInfo = record existing {
        dead_reason = reason;
        deployed_stacks = new.deployed_stacks;
      } in
      let at : HashMap.get sent.nodes.nodes (get_hash new.address) ≡ some existing =
        ap (λ (c : NodeCollection). HashMap.get c.nodes (get_hash new.address)) same_nodes
        ∙ found in
      let hashed : (get_hash node.address == get_hash new.address) ≡ true =
        (eqb_iff (get_hash node.address) (get_hash new.address)).1 (ap get_hash same) in
      (
        record sent {
          nodes = record sent.nodes {
            nodes = HashMap.insert sent.nodes.nodes (get_hash new.address) node;
          };
        },
        rw (on_same_generation, update_in_place, at, update_found, hashed) refl,
        record {
          in_sync =
              replace-IsInSync get_hash sent.nodes
                (subst (IsInSync get_hash) (sym same_nodes) f.in_sync) (get_hash new.address)
                existing node at refl (ap get_hash same);
          agree = λ h.
              told_same existing new reason s h same was
              ∙ ap
                  (λ b.
                    if get_hash new.address == h
                    then elim reason [ none ↦ true | some r ↦ false ]
                    else b)
                  (f.agree h ∙ ap (λ c. alive_in c h) (sym same_nodes))
              ∙ alive_replaced existing sent.nodes (get_hash new.address) reason new.deployed_stacks
                  h;
        },
      )

  replaced-Follows :
      (existing : RemoteNodeInfo) (s : State W)
      → Follows get_hash before s
      → HashMap.get s.nodes.nodes (get_hash existing.address) ≡ some existing
      → Follows get_hash before
          (remove_node (get_hash existing.address) (replaced get_hash existing s))
  replaced-Follows existing s f found = elim (Bool-cases (is_dead existing)) [
    | inl dead ↦ rw dead (
        removed_dead-Follows get_hash before s (get_hash existing.address) f
          (ap is_live found ∙ ap not dead))
    | inr live ↦
        rw live (
          removed-Follows get_hash before s (get_hash existing.address) replaced_by_new_generation
            f)
  ]

  newer-Follows :
      (existing : RemoteNodeInfo) (new : NodeStatus) (reason : Option NodeDeadReason) (s : State W)
      → Follows get_hash before s
      → HashMap.get s.nodes.nodes (get_hash existing.address) ≡ some existing
      → addr_and_port existing ≡ status_key new
      → Kept (on_newer_generation get_hash existing new reason s)
  unfolding on_newer_generation
  newer-Follows existing new none s f found same =
      let r = replaced-Follows existing s f found in
      discovered-Follows new
        (remove_node (get_hash existing.address) (replaced get_hash existing s)) r
        (elim (Bool-cases (is_dead existing)) [
          | inl dead ↦ rw dead (
              unlisted get_hash s.nodes (get_hash existing.address) existing (status_key new) found
                same)
          | inr live ↦ rw live (
              unlisted get_hash s.nodes (get_hash existing.address) existing (status_key new) found
                same)
        ])
  newer-Follows existing new (some reason) s f found same = (
    remove_node (get_hash existing.address) (replaced get_hash existing s),
    refl,
    replaced-Follows existing s f found,
  )

  on_unknown :
      (new : NodeStatus) (reason : Option NodeDeadReason) (s : State W)
      → Follows get_hash before s
      → HashMap.get s.nodes.nodes_by_addr_and_port (status_key new) ≡ none
      → Kept (on_status get_hash new none reason s)
  unfolding on_status
  on_unknown new none s f fresh = discovered-Follows new s f fresh
  on_unknown new (some reason) s f fresh = (s, refl, f)

  on_known :
      (existing : RemoteNodeInfo) (new : NodeStatus) (reason : Option NodeDeadReason) (s : State W)
      → Follows get_hash before s
      → addr_and_port existing ≡ status_key new
      → HashMap.get s.nodes.nodes (get_hash existing.address) ≡ some existing
      → Kept (on_status get_hash new (some existing) reason s)
  unfolding on_status
  on_known existing new reason s f here found =
      elim (Bool-cases (existing.address.generation == new.address.generation)) [
        | inl same ↦
            let one =
              same_node existing new here
                ((eqb_iff existing.address.generation new.address.generation).0 same) in
            let at =
              ap (λ (a : NodeAddress). HashMap.get s.nodes.nodes (get_hash a)) (sym one) ∙ found in
            rw same (same-Follows existing new reason s f at one)
        | inr other ↦ elim (Bool-cases (ltb existing.address.generation new.address.generation)) [
          | inl newer ↦ rw (other, newer) (newer-Follows existing new reason s f found here)
          | inr older ↦ rw (other, older) (s, refl, f)
        ]
      ]

  pub on_status-Follows :
      (new : NodeStatus) (reason : Option NodeDeadReason) (s : State W)
      → Follows get_hash before s
      → Kept (
          get_by_address s.nodes (status_key new) >>= λ existing.
          on_status get_hash new existing reason s)
  unfolding on_status
  on_status-Follows new reason s f =
      elim (get_by_address_cases get_hash s.nodes f.in_sync (status_key new)) [
        | inr (unknown, fresh) ↦ rw unknown (on_unknown new reason s f fresh)
        | inl (existing, known, here, found) ↦
            rw known (on_known existing new reason s f here found)
      ]
