-- ===== src/Scheduler/WellFormed/Steps.antt =====
-- `tick`, `step` and a run of the mailbox keep the scheduler's invariant.
use mu.Base.{
  ℕ, ◌≡◌, refl, if-cases, false, Option, none, some, List, [], arith, is_empty, for_each,
  for_each-keeps, nat_key,
}
use mu.Base.HashMap
use mu.Base.HashSet.{HashSet}
use mu.MuStack.{StackId}
use mu.StackMetadata.{StackWithMetadata, id, temporary}
use mu.Scheduler.State.{
  NodeHash, StackDeployment, unknown, undeployed, has_deployment_candidate, deployed_to_self,
  deployed_to_self_with_pending_update, deployed_to_others, SchedulerState, Services,
  SchedulerMessage, node_discovered, node_died, node_deployed_stacks, node_undeployed_stacks,
  stacks_available, stacks_removed, ready_to_schedule_stacks, get_deployment_status,
}
use mu.Scheduler.Closest.{
  GetClosestNodeResult, me, other, check_stack_also_deployed_to_closer_remote,
}
use mu.Scheduler.Agreement.{IsNearest, get_closest_node-IsNearest}
use mu.Scheduler.Tick.{
  put_deployment, deploy_here, hand_off, tick_undeployed, tick_deployed_to_self,
  tick_pending_update, tick_deployed_to_others, tick_deployment, tick_entry, tick_stack, tick_all,
  tick,
}
use mu.Scheduler.Step.{step, run}
use mu.Scheduler.WellFormed.{
  SlotOk, IsWellFormed, SlotOk-discovered, node_died-IsWellFormed, node_deployed_stack-IsWellFormed,
  node_undeployed_stack-IsWellFormed, stack_available-IsWellFormed, stack_removed-IsWellFormed,
}

pub nonempty_of_closer :
    (xor : ℕ → ℕ → ℕ) (k : StackId) (my_hash : NodeHash) (others : HashSet NodeHash) {n : NodeHash}
    → check_stack_also_deployed_to_closer_remote xor k my_hash others ≡ some n
    → is_empty others ≡ false
unfolding check_stack_also_deployed_to_closer_remote
nonempty_of_closer xor k my_hash others h = ground arith

module _ {W : Type 0} (services : Services W) (k : StackId) where
  deploy_here-IsWellFormed :
      (stack : StackWithMetadata) (others : HashSet NodeHash) (s : SchedulerState W)
      → id stack ≡ k
      → IsWellFormed s
      → IsWellFormed (deploy_here services k stack others s)
  unfolding deploy_here
  deploy_here-IsWellFormed stack others s e v =
      if-cases IsWellFormed (services.deploy k stack s.world).0
        (λ _. record { slot = HashMap.insert-keeps (SlotOk s.known_nodes) s.stacks v.slot k _ e })
        (λ _. record { slot = v.slot })

  hand_off-IsWellFormed :
      (stack : StackWithMetadata) (others : HashSet NodeHash) (s : SchedulerState W)
      → id stack ≡ k
      → is_empty others ≡ false
      → IsWellFormed s
      → IsWellFormed (hand_off services k stack others s)
  unfolding hand_off
  hand_off-IsWellFormed stack others s e filled v =
      if-cases (λ t. IsWellFormed (put_deployment services k (deployed_to_others stack others) t))
        (services.undeploy_stack k temporary s.world).0 (λ _. record { slot = handed })
        (λ _. record { slot = handed })
    where
      handed :
          (j : StackId)
          → SlotOk s.known_nodes j
              (HashMap.get (HashMap.insert s.stacks k (deployed_to_others stack others)) j)
      handed = HashMap.insert-keeps (SlotOk s.known_nodes) s.stacks v.slot k _ (e, filled)

  tick_undeployed-IsWellFormed :
      (stack : StackWithMetadata) (r : GetClosestNodeResult) (s : SchedulerState W)
      → id stack ≡ k
      → IsNearest services.xor k s.my_hash s.known_nodes r
      → IsWellFormed s
      → IsWellFormed (tick_undeployed services k stack r s)
  unfolding tick_undeployed
  tick_undeployed-IsWellFormed stack me s e near v = deploy_here-IsWellFormed stack [] s e v
  tick_undeployed-IsWellFormed stack (other n) s e near v = record {
    slot = HashMap.insert-keeps (SlotOk s.known_nodes) s.stacks v.slot k _ (e, near.0);
  }

  tick_deployed_to_self-IsWellFormed :
      (stack : StackWithMetadata) (others : HashSet NodeHash) (r : Option NodeHash)
      (s : SchedulerState W)
      → check_stack_also_deployed_to_closer_remote services.xor k s.my_hash others ≡ r
      → id stack ≡ k
      → IsWellFormed s
      → IsWellFormed (tick_deployed_to_self services k stack others r s)
        × IsWellFormed (tick_pending_update services k stack others r s)
  unfolding tick_deployed_to_self tick_pending_update
  tick_deployed_to_self-IsWellFormed stack others none s r e v =
      (v, deploy_here-IsWellFormed stack others s e v)
  tick_deployed_to_self-IsWellFormed stack others (some n) s r e v = (handed, handed)
    where
      handed : IsWellFormed (hand_off services k stack others s)
      handed =
          hand_off-IsWellFormed stack others s e
            (nonempty_of_closer services.xor k s.my_hash others r) v

  tick_deployed_to_others-IsWellFormed :
      (stack : StackWithMetadata) (deployed_to : HashSet NodeHash) (r : GetClosestNodeResult)
      (s : SchedulerState W)
      → id stack ≡ k
      → IsWellFormed s
      → IsWellFormed (tick_deployed_to_others services k stack deployed_to r s)
  unfolding tick_deployed_to_others
  tick_deployed_to_others-IsWellFormed stack deployed_to me s e v =
      deploy_here-IsWellFormed stack deployed_to s e v
  tick_deployed_to_others-IsWellFormed stack deployed_to (other n) s e v = v

  tick_deployment-IsWellFormed :
      (d : StackDeployment) (s : SchedulerState W)
      → SlotOk s.known_nodes k (some d)
      → IsWellFormed s
      → IsWellFormed (tick_deployment services k d s)
  unfolding tick_deployment
  tick_deployment-IsWellFormed (undeployed stack) s ok v =
      tick_undeployed-IsWellFormed stack _ s ok
        (get_closest_node-IsNearest services.xor k s.my_hash s.known_nodes) v
  tick_deployment-IsWellFormed (deployed_to_self stack others) s ok v =
      (tick_deployed_to_self-IsWellFormed stack others _ s refl ok v).0
  tick_deployment-IsWellFormed (deployed_to_self_with_pending_update stack others) s ok v =
      (tick_deployed_to_self-IsWellFormed stack others _ s refl ok v).1
  tick_deployment-IsWellFormed (deployed_to_others stack deployed_to) s ok v =
      tick_deployed_to_others-IsWellFormed stack deployed_to _ s ok.0 v
  tick_deployment-IsWellFormed (has_deployment_candidate stack candidate) s ok v = v
  tick_deployment-IsWellFormed (unknown deployed_to) s ok v = v

  tick_stack-IsWellFormed :
      (s : SchedulerState W) → IsWellFormed s → IsWellFormed (tick_stack services k s)
  unfolding tick_stack
  tick_stack-IsWellFormed s v = entry (HashMap.get s.stacks k) (v.slot k)
    where
      entry :
          (o : Option StackDeployment)
          → SlotOk s.known_nodes k o
          → IsWellFormed (tick_entry services k o s)
      entry none ok = v
      entry (some d) ok = tick_deployment-IsWellFormed d s ok v

module _ {W : Type 0} (services : Services W) where
  tick-IsWellFormed : (s : SchedulerState W) → IsWellFormed s → IsWellFormed (tick services s)
  unfolding tick tick_all
  tick-IsWellFormed s v =
      if-cases IsWellFormed s.ready_to_schedule (λ _. record { slot = all.slot }) (λ _. v)
    where
      all : IsWellFormed (for_each (tick_stack services) s.reevaluate_on_next_tick s)
      all =
          for_each-keeps IsWellFormed _ (tick_stack-IsWellFormed services) s.reevaluate_on_next_tick
            s v

  -- Every message keeps the state well-formed, whatever the services answer: each stack stands under
  -- its own id, deployment candidates are live, and a stack deployed to others is somewhere.
  pub step-IsWellFormed :
      (m : SchedulerMessage) (s : SchedulerState W)
      → IsWellFormed s
      → IsWellFormed (step services m s)
  unfolding step
  step-IsWellFormed ready_to_schedule_stacks s v = record { slot = v.slot }
  step-IsWellFormed (node_discovered hash) s v = record {
    slot = λ k. SlotOk-discovered s.known_nodes hash k _ (v.slot k);
  }
  step-IsWellFormed (node_died node) s v = node_died-IsWellFormed node s v
  step-IsWellFormed (node_deployed_stacks node stack_ids) s v =
      for_each-keeps IsWellFormed _ (node_deployed_stack-IsWellFormed node) stack_ids s v
  step-IsWellFormed (node_undeployed_stacks node stack_ids) s v =
      for_each-keeps IsWellFormed _ (node_undeployed_stack-IsWellFormed node) stack_ids s v
  step-IsWellFormed (stacks_available stacks) s v =
      for_each-keeps IsWellFormed _ (stack_available-IsWellFormed services) stacks s v
  step-IsWellFormed (stacks_removed id_modes) s v =
      for_each-keeps IsWellFormed _ (stack_removed-IsWellFormed services) id_modes s v
  step-IsWellFormed (get_deployment_status stack_id) s v = v
  step-IsWellFormed SchedulerMessage.tick s v = tick-IsWellFormed s v

  pub run-IsWellFormed :
      (ms : List SchedulerMessage) (s : SchedulerState W)
      → IsWellFormed s
      → IsWellFormed (run services ms s)
  unfolding run
  run-IsWellFormed ms s v = for_each-keeps IsWellFormed _ step-IsWellFormed ms s v
