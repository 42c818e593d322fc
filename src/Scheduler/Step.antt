-- ===== src/Scheduler/Step.antt =====
-- executor/src/stack/scheduler.rs: `step`. The mailbox hands `step` one message at a
-- time.
use mu.Base.{true, Option, none, some, List, for_each, nat_key}
use mu.Base.HashMap
use mu.Base.HashSet
use mu.MuStack.{StackId}
use mu.StackMetadata.{StackWithMetadata, StackRemovalMode, id}
use mu.Scheduler.State.{
  NodeHash, StackDeployment, unknown, undeployed, has_deployment_candidate, deployed_to_self,
  deployed_to_self_with_pending_update, deployed_to_others, SchedulerState, Services,
  SchedulerMessage, StackDeploymentStatus, node_discovered, node_died, node_deployed_stacks,
  node_undeployed_stacks, stacks_available, stacks_removed, ready_to_schedule_stacks,
  get_deployment_status,
}
use mu.Scheduler.Handlers.{
  forget_node_loop, on_node_deployed, on_node_undeployed, on_stack_available, undeploy_stack,
}
use mu.Scheduler.Tick.{tick}

-- The reply to `GetDeploymentStatus`.
unfoldable pub deployment_status : Option StackDeployment → StackDeploymentStatus
deployment_status none = StackDeploymentStatus.unknown
deployment_status (some (undeployed stack)) = StackDeploymentStatus.not_deployed
deployment_status (some (has_deployment_candidate stack candidate)) =
    StackDeploymentStatus.not_deployed
deployment_status (some (unknown deployed_to)) =
    StackDeploymentStatus.deployed_to_others deployed_to
deployment_status (some (deployed_to_others stack deployed_to)) =
    StackDeploymentStatus.deployed_to_others deployed_to
deployment_status (some (deployed_to_self stack others)) =
    StackDeploymentStatus.deployed_to_self others
deployment_status (some (deployed_to_self_with_pending_update new_stack others)) =
    StackDeploymentStatus.deployed_to_self others

module _ {W : Type 0} where
  -- `r.reply(…)` of `GetDeploymentStatus`.
  unfoldable pub status_reply : StackId → SchedulerState W → StackDeploymentStatus
  unfolding deployment_status
  status_reply id s = deployment_status (HashMap.get s.stacks id)

  unfoldable pub node_deployed_stack : NodeHash → StackId → SchedulerState W → SchedulerState W
  node_deployed_stack node id s = record s {
    reevaluate_on_next_tick = HashSet.insert s.reevaluate_on_next_tick id;
    stacks = HashMap.insert s.stacks id (on_node_deployed node (HashMap.get s.stacks id));
  }

  unfoldable pub node_undeployed_stack : NodeHash → StackId → SchedulerState W → SchedulerState W
  node_undeployed_stack node id s = record s {
    reevaluate_on_next_tick = HashSet.insert s.reevaluate_on_next_tick id;
    stacks = HashMap.set_entry s.stacks id (on_node_undeployed node (HashMap.get s.stacks id));
  }

  unfoldable pub forget_dead_node : NodeHash → SchedulerState W → SchedulerState W
  forget_dead_node node s =
      let (stacks, reevaluate) = forget_node_loop node s.stacks s.reevaluate_on_next_tick in
      record s {
        known_nodes = HashSet.remove s.known_nodes node;
        stacks = stacks;
        reevaluate_on_next_tick = reevaluate;
      }

module _ {W : Type 0} (services : Services W) where
  unfoldable pub stack_available : StackWithMetadata → SchedulerState W → SchedulerState W
  stack_available new_stack s =
      let (ok, w) = services.deploy_gateways (id new_stack) new_stack.stack s.world in
      record s {
        reevaluate_on_next_tick = HashSet.insert s.reevaluate_on_next_tick (id new_stack);
        world = w;
        stacks =
            HashMap.insert s.stacks (id new_stack)
              (on_stack_available new_stack (HashMap.get s.stacks (id new_stack)));
      }

  -- A removed stack is undeployed if it is deployed here.
  unfoldable pub undeploy_removed :
      StackId → StackRemovalMode → Option StackDeployment → SchedulerState W → SchedulerState W
  undeploy_removed id mode (some (deployed_to_self stack others)) s =
      undeploy_stack services id mode s
  undeploy_removed id mode (some (deployed_to_self_with_pending_update new_stack others)) s =
      undeploy_stack services id mode s
  undeploy_removed id mode _ s = s

  unfoldable pub stack_removed : StackId × StackRemovalMode → SchedulerState W → SchedulerState W
  stack_removed (id, mode) s =
      let (ok, w) = services.undeploy_gateways id s.world in
      let s' : SchedulerState W =
        undeploy_removed id mode (HashMap.get s.stacks id) (record s { world = w }) in
      record s' { stacks = HashMap.remove s'.stacks id }

  unfoldable pub step : SchedulerMessage → SchedulerState W → SchedulerState W
  step ready_to_schedule_stacks s = record s { ready_to_schedule = true }
  step (node_discovered hash) s = record s { known_nodes = HashSet.insert s.known_nodes hash }
  step (node_died node) s = forget_dead_node node s
  step (node_deployed_stacks node stack_ids) s = for_each (node_deployed_stack node) stack_ids s
  step (node_undeployed_stacks node stack_ids) s = for_each (node_undeployed_stack node) stack_ids s
  step (stacks_available stacks) s = for_each stack_available stacks s
  step (stacks_removed id_modes) s = for_each stack_removed id_modes s
  step (get_deployment_status stack_id) s = s
  step SchedulerMessage.tick s = tick services s

  unfoldable pub run : List SchedulerMessage → SchedulerState W → SchedulerState W
  run messages s = for_each step messages s
