-- ===== src/Scheduler/WellFormed.antt =====
-- The invariant of the scheduler's state, and each message against it.
pub mod Steps
pub mod Start
use mathlib.Core.Option
use mu.Base.{
  ℕ, ◌≡◌, refl, inl, inr, Bool, true, false, Option, none, some, List, [], ◌∷◌, arith, is_empty,
  eqb, for_each, for_each-keeps, if◌then◌else◌, Bool-cases, nat_key,
}
use mu.Base.HashMap
use mu.Base.HashSet
use mu.Base.HashSet.{HashSet}
use mu.MuStack.{StackId}
use mu.StackMetadata.{StackWithMetadata, StackRemovalMode, id}
use mu.Scheduler.State.{
  NodeHash, StackDeployment, unknown, undeployed, has_deployment_candidate, deployed_to_self,
  deployed_to_self_with_pending_update, deployed_to_others, SchedulerState, Services,
  SchedulerMessage, node_discovered, node_died, node_deployed_stacks, node_undeployed_stacks,
  stacks_available, stacks_removed, ready_to_schedule_stacks, get_deployment_status,
}
use mu.Scheduler.Handlers.{
  forget_node, forget_node_loop, on_node_deployed, on_node_undeployed, on_stack_available,
  deploy_stack, undeploy_stack,
}
use mu.Scheduler.Step.{
  forget_dead_node, node_deployed_stack, node_undeployed_stack, stack_available, undeploy_removed,
  stack_removed, step, run,
}

-- A stack stands under its own id, a deployment candidate is a live node, and a stack that is
-- deployed to others is deployed to some node.
abbrev pub SlotOk : HashSet NodeHash → StackId → Option StackDeployment → Type 0
SlotOk known k none = Unit
SlotOk known k (some (unknown deployed_to)) = Unit
SlotOk known k (some (undeployed stack)) = id stack ≡ k
SlotOk known k (some (has_deployment_candidate stack candidate)) =
    (id stack ≡ k) × (HashSet.contains known candidate ≡ true)
SlotOk known k (some (deployed_to_self stack others)) = id stack ≡ k
SlotOk known k (some (deployed_to_self_with_pending_update new_stack others)) = id new_stack ≡ k
SlotOk known k (some (deployed_to_others stack deployed_to)) =
    (id stack ≡ k) × (is_empty deployed_to ≡ false)

pub record IsWellFormed {W : Type 0} (s : SchedulerState W) : Type 0 where
  pub slot : (k : StackId) → SlotOk s.known_nodes k (HashMap.get s.stacks k)

pub SlotOk-discovered :
    (known : HashSet NodeHash) (hash : NodeHash) (k : StackId) (o : Option StackDeployment)
    → SlotOk known k o
    → SlotOk (HashSet.insert known hash) k o
SlotOk-discovered known hash k none h = tt
SlotOk-discovered known hash k (some (has_deployment_candidate stack candidate)) h =
    ground (arith, HashSet.contains-insert known hash candidate)
SlotOk-discovered known hash k (some _) h = h

forget_node-SlotOk :
    (known : HashSet NodeHash) (node : NodeHash) (k : StackId) (d : StackDeployment)
    → SlotOk known k (some d)
    → SlotOk (HashSet.remove known node) k (some (forget_node node d).0)
unfolding forget_node
forget_node-SlotOk known node k (unknown deployed_to) h = tt
forget_node-SlotOk known node k (has_deployment_candidate stack candidate) h =
    ground (arith, HashSet.contains-remove known node candidate)
forget_node-SlotOk known node k (deployed_to_others stack deployed_to) h =
    ground (arith, HashSet.remove_absent deployed_to node)
forget_node-SlotOk known node k _ h = h

pub get-forget_node_loop :
    (node : NodeHash) (m : HashMap.HashMap StackId StackDeployment) (r : HashSet StackId)
    (k : StackId)
    → HashMap.get (forget_node_loop node m r).0 k
      ≡ Option.map (λ d. (forget_node node d).0) (HashMap.get m k)
unfolding forget_node_loop HashMap.get
get-forget_node_loop node [] r k = refl
get-forget_node_loop node ((j, d) ∷ m) r k = elim (Bool-cases (eqb j k)) [
  | inl same ↦ rw same
  | inr different ↦ rw different (get-forget_node_loop node m _ k)
]

on_node_deployed-SlotOk :
    (known : HashSet NodeHash) (node : NodeHash) (k : StackId) (o : Option StackDeployment)
    → SlotOk known k o
    → SlotOk known k (some (on_node_deployed node o))
unfolding on_node_deployed
on_node_deployed-SlotOk known node k none h = tt
on_node_deployed-SlotOk known node k (some (unknown deployed_to)) h = tt
on_node_deployed-SlotOk known node k (some (undeployed stack)) h =
    (h, HashSet.is_empty-insert [] node)
on_node_deployed-SlotOk known node k (some (has_deployment_candidate stack candidate)) h =
    (h.0, HashSet.is_empty-insert [] node)
on_node_deployed-SlotOk known node k (some (deployed_to_others stack deployed_to)) h =
    (h.0, HashSet.is_empty-insert deployed_to node)
on_node_deployed-SlotOk known node k (some _) h = h

on_node_undeployed-SlotOk :
    (known : HashSet NodeHash) (node : NodeHash) (k : StackId) (o : Option StackDeployment)
    → SlotOk known k o
    → SlotOk known k (on_node_undeployed node o)
unfolding on_node_undeployed
on_node_undeployed-SlotOk known node k none h = tt
on_node_undeployed-SlotOk known node k (some (unknown deployed_to)) h = ground arith
on_node_undeployed-SlotOk known node k (some (deployed_to_others stack deployed_to)) h =
    ground (arith, HashSet.remove_absent deployed_to node)
on_node_undeployed-SlotOk known node k (some _) h = h

on_stack_available-SlotOk :
    (known : HashSet NodeHash) (stack : StackWithMetadata) (o : Option StackDeployment)
    → SlotOk known (id stack) o
    → SlotOk known (id stack) (some (on_stack_available stack o))
unfolding on_stack_available
on_stack_available-SlotOk known stack none h = refl
on_stack_available-SlotOk known stack (some (unknown deployed_to)) h = ground arith
on_stack_available-SlotOk known stack (some _) h = ground arith

module _ {W : Type 0} where
  pub node_died-IsWellFormed :
      (node : NodeHash) (s : SchedulerState W)
      → IsWellFormed s
      → IsWellFormed (forget_dead_node node s)
  unfolding forget_dead_node
  node_died-IsWellFormed node s v = record {
    slot = λ k.
        rw (get-forget_node_loop node s.stacks s.reevaluate_on_next_tick k)
          (forgotten k (HashMap.get s.stacks k) (v.slot k));
  }
    where
      forgotten :
          (k : StackId) (o : Option StackDeployment)
          → SlotOk s.known_nodes k o
          → SlotOk
              (HashSet.remove s.known_nodes node)
              k
              (Option.map (λ d. (forget_node node d).0) o)
      forgotten k none h = tt
      forgotten k (some d) h = forget_node-SlotOk s.known_nodes node k d h

  pub node_deployed_stack-IsWellFormed :
      (node : NodeHash) (k : StackId) (s : SchedulerState W)
      → IsWellFormed s
      → IsWellFormed (node_deployed_stack node k s)
  unfolding node_deployed_stack
  node_deployed_stack-IsWellFormed node k s v = record {
    slot =
        HashMap.insert-keeps (SlotOk s.known_nodes) s.stacks v.slot k _
          (on_node_deployed-SlotOk s.known_nodes node k _ (v.slot k));
  }

  pub node_undeployed_stack-IsWellFormed :
      (node : NodeHash) (k : StackId) (s : SchedulerState W)
      → IsWellFormed s
      → IsWellFormed (node_undeployed_stack node k s)
  unfolding node_undeployed_stack
  node_undeployed_stack-IsWellFormed node k s v = record {
    slot =
        HashMap.set_entry-keeps (SlotOk s.known_nodes) s.stacks v.slot k _
          (on_node_undeployed-SlotOk s.known_nodes node k _ (v.slot k));
  }

  module _ (services : Services W) where
    pub stack_available-IsWellFormed :
        (stack : StackWithMetadata) (s : SchedulerState W)
        → IsWellFormed s
        → IsWellFormed (stack_available services stack s)
    unfolding stack_available
    stack_available-IsWellFormed stack s v = record {
      slot =
          HashMap.insert-keeps (SlotOk s.known_nodes) s.stacks v.slot (id stack) _
            (on_stack_available-SlotOk s.known_nodes stack _ (v.slot (id stack)));
    }

    -- The calls that undeploy a stack change neither the known nodes nor the deployments.
    undeploy_removed-IsWellFormed :
        (k : StackId) (mode : StackRemovalMode) (o : Option StackDeployment) (s : SchedulerState W)
        → IsWellFormed s
        → IsWellFormed (undeploy_removed services k mode o s)
    unfolding undeploy_removed undeploy_stack
    undeploy_removed-IsWellFormed k mode (some (deployed_to_self stack others)) s v = record {
      slot = λ j. ground (arith, v.slot j);
    }
    undeploy_removed-IsWellFormed k mode (some (deployed_to_self_with_pending_update stack others))
          s v =
        record { slot = λ j. ground (arith, v.slot j) }
    undeploy_removed-IsWellFormed k mode none s v = v
    undeploy_removed-IsWellFormed k mode (some _) s v = v

    pub stack_removed-IsWellFormed :
        (r : StackId × StackRemovalMode) (s : SchedulerState W)
        → IsWellFormed s
        → IsWellFormed (stack_removed services r s)
    unfolding stack_removed
    stack_removed-IsWellFormed (k, mode) s v = record {
      slot = HashMap.remove-keeps (SlotOk _) _ (undeployed_first.slot) k tt;
    }
      where
        undeployed_first : IsWellFormed (
            undeploy_removed services k mode
              (HashMap.get s.stacks k)
              (record s { world = (services.undeploy_gateways k s.world).1 }))
        undeployed_first = undeploy_removed-IsWellFormed k mode _ _ (record { slot = v.slot })
