-- ===== src/Scheduler/DeadNodes.antt =====
-- What `NodeDied` leaves of the node and of the stacks that it held.
use mathlib.Core.Option
use mu.Base.{
  ◌≡◌, refl, ◌⊎◌, inl, inr, true, false, Option, none, some, [], ◌∷◌, arith, ◌==◌, Bool-cases,
  nat_key, eqb,
}
use mu.Base.HashMap
use mu.Base.HashMap.{HashMap}
use mu.Base.HashSet
use mu.Base.HashSet.{HashSet}
use mu.MuStack.{StackId}
use mu.StackMetadata.{StackWithMetadata}
use mu.Scheduler.State.{
  NodeHash, StackDeployment, unknown, undeployed, has_deployment_candidate, deployed_to_self,
  deployed_to_self_with_pending_update, deployed_to_others, SchedulerState, Services, node_died,
}
use mu.Scheduler.Handlers.{forget_node, forget_node_loop}
use mu.Scheduler.Step.{forget_dead_node, step}
use mu.Scheduler.WellFormed.{get-forget_node_loop}

-- The deployment does not name the node.
abbrev pub Unmentioned : NodeHash → Option StackDeployment → Type 0
Unmentioned node none = Unit
Unmentioned node (some (unknown deployed_to)) = HashSet.contains deployed_to node ≡ false
Unmentioned node (some (undeployed stack)) = Unit
Unmentioned node (some (has_deployment_candidate stack candidate)) = (candidate == node) ≡ false
Unmentioned node (some (deployed_to_self stack others)) = HashSet.contains others node ≡ false
Unmentioned node (some (deployed_to_self_with_pending_update new_stack others)) =
    HashSet.contains others node ≡ false
Unmentioned node (some (deployed_to_others stack deployed_to)) =
    HashSet.contains deployed_to node ≡ false

gone :
    (s : HashSet NodeHash) (node : NodeHash) → HashSet.contains (HashSet.remove s node) node ≡ false
gone s node = ground (arith, HashSet.contains-remove s node node)

forget_node-Unmentioned :
    (node : NodeHash) (o : Option StackDeployment)
    → Unmentioned node (Option.map (λ d. (forget_node node d).0) o)
unfolding forget_node
forget_node-Unmentioned node none = tt
forget_node-Unmentioned node (some (unknown ds)) = gone ds node
forget_node-Unmentioned node (some (undeployed stack)) = tt
forget_node-Unmentioned node (some (has_deployment_candidate stack c)) = ground arith
forget_node-Unmentioned node (some (deployed_to_self stack ds)) = gone ds node
forget_node-Unmentioned node (some (deployed_to_self_with_pending_update stack ds)) = gone ds node
forget_node-Unmentioned node (some (deployed_to_others stack ds)) = ground (arith, gone ds node)

-- The set of stacks to look at only grows in the loop, and takes in each stack that it orphans.
loop_grows :
    (node : NodeHash) (m : HashMap StackId StackDeployment) (r : HashSet StackId) (k : StackId)
    → HashSet.contains r k ≡ true
    → HashSet.contains (forget_node_loop node m r).1 k ≡ true
unfolding forget_node_loop
loop_grows node [] r k h = h
loop_grows node ((j, d) ∷ m) r k h =
    loop_grows node m _ k (ground (arith, HashSet.contains-insert r j k))

loop_marks :
    (node : NodeHash) (m : HashMap StackId StackDeployment) (r : HashSet StackId) (k : StackId)
    (d : StackDeployment)
    → HashMap.get m k ≡ some d
    → (forget_node node d).1 ≡ true
    → HashSet.contains (forget_node_loop node m r).1 k ≡ true
unfolding forget_node_loop HashMap.get
loop_marks node [] r k d h marked = cc
loop_marks node ((j, d') ∷ m) r k d h marked = elim (Bool-cases (eqb j k)) [
  | inl same ↦ loop_grows node m _ k (ground (arith, HashSet.contains-insert r j k))
  | inr different ↦ loop_marks node m _ k d (rw different at h) marked
]

abbrev pub Rescheduled :
    StackWithMetadata → HashSet StackId → StackId → Option StackDeployment → Type 0
Rescheduled stack marked k before =
    (before ≡ some (undeployed stack)) ⊎ (HashSet.contains marked k ≡ true)

orphan_marked :
    (node : NodeHash) (stack : StackWithMetadata) (marked : HashSet StackId) (k : StackId)
    (o : Option StackDeployment)
    → ((d : StackDeployment)
        → o ≡ some d
        → (forget_node node d).1 ≡ true
        → HashSet.contains marked k ≡ true)
    → Option.map (λ d. (forget_node node d).0) o ≡ some (undeployed stack)
    → Rescheduled stack marked k o
unfolding forget_node
orphan_marked node stack marked k none h e = cc
orphan_marked node stack marked k (some (undeployed st)) h e = inl e
orphan_marked node stack marked k (some (unknown ds)) h e = cc
orphan_marked node stack marked k (some (deployed_to_self st ds)) h e = cc
orphan_marked node stack marked k (some (deployed_to_self_with_pending_update st ds)) h e = cc
orphan_marked node stack marked k (some (has_deployment_candidate st c)) h e =
    inr (ground (arith, h (has_deployment_candidate st c) refl))
orphan_marked node stack marked k (some (deployed_to_others st ds)) h e =
    inr (ground (arith, h (deployed_to_others st ds) refl))

module _ {W : Type 0} (services : Services W) (node : NodeHash) (s : SchedulerState W) where
  abbrev after : SchedulerState W
  after = step services (node_died node) s

  -- After `NodeDied` the node is no known node, no deployment names it, and each stack that is
  -- undeployed was undeployed before or is looked at on the next tick.
  pub node_died_forgets :
      (HashSet.contains after.known_nodes node ≡ false)
      × ((k : StackId) → Unmentioned node (HashMap.get after.stacks k))
      × ((k : StackId) (stack : StackWithMetadata)
          → HashMap.get after.stacks k ≡ some (undeployed stack)
          → Rescheduled stack after.reevaluate_on_next_tick k (HashMap.get s.stacks k))
  unfolding step forget_dead_node
  node_died_forgets = (
    gone s.known_nodes node,
    λ k.
        rw (get-forget_node_loop node s.stacks s.reevaluate_on_next_tick k)
          (forget_node-Unmentioned node (HashMap.get s.stacks k)),
    λ k stack e.
        orphan_marked node stack _ k (HashMap.get s.stacks k)
          (loop_marks node s.stacks s.reevaluate_on_next_tick k)
          (rw (get-forget_node_loop node s.stacks s.reevaluate_on_next_tick k) at e),
  )
