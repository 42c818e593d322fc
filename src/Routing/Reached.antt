-- ===== src/Routing/Reached.antt =====
-- Where a request goes.
use mu.Base.{
  ◌≡◌, refl, ap, ◌∙◌, ◌⊎◌, inl, inr, true, false, not, Option, none, some, List, is_empty, nat_key,
  Bool-cases, Option-cases,
}
use mu.Base.HashMap
use mu.Base.HashSet
use mu.MuStack.{StackId}
use mu.Scheduler.State.{
  NodeHash, SchedulerState, StackDeployment, unknown, undeployed, has_deployment_candidate,
  deployed_to_self, deployed_to_self_with_pending_update, deployed_to_others,
}
use mu.Scheduler.Step.{status_reply, deployment_status}
use mu.Scheduler.WellFormed.{SlotOk, IsWellFormed}
use mu.Membership.NodeCollection.{NodeAddress}
use mu.Membership.NodeCollection.InSync.{IsInSync}
use mu.Membership.Update.{State, live_address, is_dead}
use mu.Membership.Update.Follows.{alive_in, is_live}
use mu.Routing.{
  not_deployed, local, remote, Route, ok, no_deployment_targets, node_not_known, with_address,
  with_target, route_of_status, get_route,
}

-- A choice is made where there is one, and it is one of the list.
pub record Chooses (choose : List NodeHash → Option NodeHash) : Type 0 where
  pub chosen :
      (nodes : List NodeHash) (hash : NodeHash)
      → choose nodes ≡ some hash
      → HashSet.contains nodes hash ≡ true
  pub chooses : (nodes : List NodeHash) → choose nodes ≡ none → is_empty nodes ≡ true

module _ {V : Type 0} (get_hash : NodeAddress → NodeHash) (choose : List NodeHash → Option NodeHash)
    (c : Chooses choose) (membership : State V) (v : IsInSync get_hash membership.nodes) where
  -- One of the nodes is chosen. If it is alive the request goes to its address, otherwise it fails.
  abbrev pub Reaches : List NodeHash → Route → Type 0
  Reaches nodes route =
      (hash : NodeHash) × (HashSet.contains nodes hash ≡ true)
      × (((a : NodeAddress) × (route ≡ ok (remote a))
            × (get_hash a ≡ hash)
            × (alive_in membership.nodes hash ≡ true))
          ⊎ ((route ≡ node_not_known hash) × (alive_in membership.nodes hash ≡ false)))

  abbrev pub RouteOf : Option StackDeployment → Route → Type 0
  RouteOf none route = route ≡ ok not_deployed
  RouteOf (some (undeployed stack)) route = route ≡ ok not_deployed
  RouteOf (some (has_deployment_candidate stack candidate)) route = route ≡ ok not_deployed
  RouteOf (some (deployed_to_self stack others)) route = route ≡ ok local
  RouteOf (some (deployed_to_self_with_pending_update stack others)) route = route ≡ ok local
  RouteOf (some (deployed_to_others stack deployed_to)) route = Reaches deployed_to route
  RouteOf (some (unknown deployed_to)) route =
      ((is_empty deployed_to ≡ true) × (route ≡ no_deployment_targets)) ⊎ Reaches deployed_to route

  address-Reaches :
      (nodes : List NodeHash) (hash : NodeHash)
      → HashSet.contains nodes hash ≡ true
      → Reaches nodes (with_address hash (live_address get_hash hash membership))
  unfolding live_address
  address-Reaches nodes hash among = elim (Option-cases (HashMap.get membership.nodes.nodes hash)) [
    | inl missing ↦ (hash, among, inr (rw (live_address, missing) refl, ap is_live missing))
    | inr (n, found) ↦
        let at_hash = v.hashed hash in
        let hashed : get_hash n.address ≡ hash = rw found at at_hash in
        elim (Bool-cases (is_dead n)) [
          | inl dead ↦ (
            hash,
            among,
            inr (rw (live_address, found, dead) refl, ap is_live found ∙ ap not dead),
          )
          | inr live ↦ (
            hash,
            among,
            inl (
              n.address,
              rw (live_address, found, live) refl,
              hashed,
              ap is_live found ∙ ap not live,
            ),
          )
        ]
  ]

  target-Reaches :
      (nodes : List NodeHash)
      → ((is_empty nodes ≡ true)
          × (with_target get_hash choose membership (choose nodes) ≡ no_deployment_targets))
        ⊎ Reaches nodes (with_target get_hash choose membership (choose nodes))
  target-Reaches nodes = elim (Option-cases (choose nodes)) [
    | inl nothing ↦ inl (c.chooses nodes nothing, rw nothing refl)
    | inr (hash, one) ↦ inr (rw one (address-Reaches nodes hash (c.chosen nodes hash one)))
  ]

  slot_route :
      (known : HashSet.HashSet NodeHash) (id : StackId) (slot : Option StackDeployment)
      → SlotOk known id slot
      → RouteOf slot (route_of_status get_hash choose (deployment_status slot) membership)
  unfolding route_of_status deployment_status
  slot_route known id none h = refl
  slot_route known id (some (undeployed stack)) h = refl
  slot_route known id (some (has_deployment_candidate stack candidate)) h = refl
  slot_route known id (some (deployed_to_self stack others)) h = refl
  slot_route known id (some (deployed_to_self_with_pending_update stack others)) h = refl
  slot_route known id (some (unknown deployed_to)) h = target-Reaches deployed_to
  slot_route known id (some (deployed_to_others stack deployed_to)) h =
      elim (target-Reaches deployed_to) [ inl (empty, lost) ↦ absurd cc | inr reached ↦ reached ]

  -- With the scheduler's state well-formed, a request for a stack that this node runs is answered here, and
  -- one for a stack that others run goes to the address of one of those nodes if it is alive, and fails
  -- otherwise; only for a stack that is not known here can there be no node to choose from.
  pub get_route_lem :
      {W : Type 0} (id : StackId) (s : SchedulerState W)
      → IsWellFormed s
      → RouteOf (HashMap.get s.stacks id) (get_route get_hash choose id s membership)
  unfolding get_route status_reply
  get_route_lem id s w = slot_route s.known_nodes id (HashMap.get s.stacks id) (w.slot id)
