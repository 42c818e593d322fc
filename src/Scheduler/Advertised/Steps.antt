-- ===== src/Scheduler/Advertised/Steps.antt =====
-- `tick` and `step` keep what is advertised equal to what is deployed here.
use mu.Base.{
  ◌≡◌, refl, ap, sym, ◌∙◌, Option, none, some, [], arith, for_each, for_each-keeps, if-cases,
  nat_key,
}
use mu.Base.HashMap
use mu.Base.HashSet.{HashSet}
use mu.MuStack.{StackId}
use mu.StackMetadata.{StackWithMetadata, temporary}
use mu.Scheduler.State.{
  NodeHash, StackDeployment, unknown, undeployed, has_deployment_candidate, deployed_to_self,
  deployed_to_self_with_pending_update, deployed_to_others, SchedulerState, Services,
  SchedulerMessage, node_discovered, node_died, node_deployed_stacks, node_undeployed_stacks,
  stacks_available, stacks_removed, ready_to_schedule_stacks, get_deployment_status,
}
use mu.Scheduler.Closest.{GetClosestNodeResult, me, other}
use mu.Scheduler.Tick.{
  deploy_here, hand_off, tick_undeployed, tick_deployed_to_self, tick_pending_update,
  tick_deployed_to_others, tick_deployment, tick_entry, tick_stack, tick_all, tick,
}
use mu.Scheduler.Step.{step}
use mu.Scheduler.Advertised.{
  SlotAgrees, IsAdvertised, advertised, is_local, AlwaysUndeploys, node_died-IsAdvertised,
  node_deployed_stack-IsAdvertised, node_undeployed_stack-IsAdvertised,
  stack_available-IsAdvertised, stack_removed-IsAdvertised,
}

module _ {W : Type 0} (services : Services W) where
  module _ (k : StackId) where
    deploy_here-IsAdvertised :
        (stack : StackWithMetadata) (others : HashSet NodeHash) (s : SchedulerState W)
        → IsAdvertised s
        → IsAdvertised (deploy_here services k stack others s)
    unfolding deploy_here advertised
    deploy_here-IsAdvertised stack others s v = record {
      agrees = λ j.
          ground
            (arith, HashMap.get-insert s.stacks k j (deployed_to_self stack others), v.agrees j);
    }

    hand_off-IsAdvertised :
        (undeploys : AlwaysUndeploys services) (stack : StackWithMetadata)
        (others : HashSet NodeHash) (s : SchedulerState W)
        → IsAdvertised s
        → IsAdvertised (hand_off services k stack others s)
    unfolding hand_off advertised
    hand_off-IsAdvertised undeploys stack others s v = record {
      agrees = λ j. ground (
        arith,
        undeploys k temporary s.world,
        HashMap.get-insert s.stacks k j (deployed_to_others stack others),
        v.agrees j,
      );
    }

    tick_undeployed-IsAdvertised :
        (stack : StackWithMetadata) (r : GetClosestNodeResult) (s : SchedulerState W)
        → HashMap.get s.stacks k ≡ some (undeployed stack)
        → IsAdvertised s
        → IsAdvertised (tick_undeployed services k stack r s)
    unfolding tick_undeployed
    tick_undeployed-IsAdvertised stack me s e v = deploy_here-IsAdvertised stack [] s v
    tick_undeployed-IsAdvertised stack (other n) s e v = record {
      agrees =
          HashMap.insert-keeps (SlotAgrees s.notification_channel) s.stacks v.agrees k
            (has_deployment_candidate stack n) (ap is_local (sym e) ∙ v.agrees k);
    }

    tick_deployed-IsAdvertised :
        (undeploys : AlwaysUndeploys services) (stack : StackWithMetadata)
        (others : HashSet NodeHash) (r : Option NodeHash) (s : SchedulerState W)
        → IsAdvertised s
        → IsAdvertised (tick_deployed_to_self services k stack others r s)
          × IsAdvertised (tick_pending_update services k stack others r s)
    unfolding tick_deployed_to_self tick_pending_update
    tick_deployed-IsAdvertised undeploys stack others none s v =
        (v, deploy_here-IsAdvertised stack others s v)
    tick_deployed-IsAdvertised undeploys stack others (some n) s v = (
      hand_off-IsAdvertised undeploys stack others s v,
      hand_off-IsAdvertised undeploys stack others s v,
    )

    tick_deployed_to_others-IsAdvertised :
        (stack : StackWithMetadata) (ds : HashSet NodeHash) (r : GetClosestNodeResult)
        (s : SchedulerState W)
        → IsAdvertised s
        → IsAdvertised (tick_deployed_to_others services k stack ds r s)
    unfolding tick_deployed_to_others
    tick_deployed_to_others-IsAdvertised stack ds me s v = deploy_here-IsAdvertised stack ds s v
    tick_deployed_to_others-IsAdvertised stack ds (other n) s v = v

    tick_entry-IsAdvertised :
        (undeploys : AlwaysUndeploys services) (o : Option StackDeployment) (s : SchedulerState W)
        → HashMap.get s.stacks k ≡ o
        → IsAdvertised s
        → IsAdvertised (tick_entry services k o s)
    unfolding tick_deployment
    tick_entry-IsAdvertised undeploys none s e v = v
    tick_entry-IsAdvertised undeploys (some (undeployed stack)) s e v =
        tick_undeployed-IsAdvertised stack _ s e v
    tick_entry-IsAdvertised undeploys (some (deployed_to_self stack others)) s e v =
        (tick_deployed-IsAdvertised undeploys stack others _ s v).0
    tick_entry-IsAdvertised undeploys (some (deployed_to_self_with_pending_update stack others)) s e
          v =
        (tick_deployed-IsAdvertised undeploys stack others _ s v).1
    tick_entry-IsAdvertised undeploys (some (deployed_to_others stack ds)) s e v =
        tick_deployed_to_others-IsAdvertised stack ds _ s v
    tick_entry-IsAdvertised undeploys (some (has_deployment_candidate stack c)) s e v = v
    tick_entry-IsAdvertised undeploys (some (unknown ds)) s e v = v

  module _ (undeploys : AlwaysUndeploys services) where
    tick_stack-IsAdvertised :
        (k : StackId) (s : SchedulerState W)
        → IsAdvertised s
        → IsAdvertised (tick_stack services k s)
    unfolding tick_stack
    tick_stack-IsAdvertised k s v =
        tick_entry-IsAdvertised k undeploys (HashMap.get s.stacks k) s refl v

    tick-IsAdvertised : (s : SchedulerState W) → IsAdvertised s → IsAdvertised (tick services s)
    unfolding tick tick_all
    tick-IsAdvertised s v =
        if-cases IsAdvertised s.ready_to_schedule (λ _. record { agrees = all.agrees }) (λ _. v)
      where
        all : IsAdvertised (for_each (tick_stack services) s.reevaluate_on_next_tick s)
        all = for_each-keeps IsAdvertised _ tick_stack-IsAdvertised s.reevaluate_on_next_tick s v

    -- If undeployments succeed, every message keeps the scheduler honest: the last notification sent
    -- about a stack says that it is deployed here exactly if the scheduler holds it to be.
    pub step-IsAdvertised :
        (m : SchedulerMessage) (s : SchedulerState W)
        → IsAdvertised s
        → IsAdvertised (step services m s)
    unfolding step
    step-IsAdvertised ready_to_schedule_stacks s v = record { agrees = v.agrees }
    step-IsAdvertised (node_discovered hash) s v = record { agrees = v.agrees }
    step-IsAdvertised (node_died node) s v = node_died-IsAdvertised node s v
    step-IsAdvertised (node_deployed_stacks node stack_ids) s v =
        for_each-keeps IsAdvertised _ (node_deployed_stack-IsAdvertised node) stack_ids s v
    step-IsAdvertised (node_undeployed_stacks node stack_ids) s v =
        for_each-keeps IsAdvertised _ (node_undeployed_stack-IsAdvertised node) stack_ids s v
    step-IsAdvertised (stacks_available stacks) s v =
        for_each-keeps IsAdvertised _ (stack_available-IsAdvertised services) stacks s v
    step-IsAdvertised (stacks_removed id_modes) s v =
        for_each-keeps IsAdvertised _ (stack_removed-IsAdvertised services undeploys) id_modes s v
    step-IsAdvertised (get_deployment_status stack_id) s v = v
    step-IsAdvertised SchedulerMessage.tick s v = tick-IsAdvertised s v
