-- ===== src/Scheduler/Tick.antt =====
-- executor/src/stack/scheduler.rs: `tick`.
use mu.Base.{Option, none, some, [], if◌then◌else◌, for_each, nat_key}
use mu.Base.HashMap
use mu.Base.HashSet.{HashSet}
use mu.MuStack.{StackId}
use mu.StackMetadata.{StackWithMetadata, temporary}
use mu.Scheduler.State.{
  NodeHash, StackDeployment, unknown, undeployed, has_deployment_candidate, deployed_to_self,
  deployed_to_self_with_pending_update, deployed_to_others, SchedulerState, Services,
}
use mu.Scheduler.Closest.{
  GetClosestNodeResult, me, other, get_closest_node, check_stack_also_deployed_to_closer_remote,
}
use mu.Scheduler.Handlers.{deploy_stack, undeploy_stack}

module _ {W : Type 0} (services : Services W) (id : StackId) where
  -- `occ.insert(deployment)`
  abbrev pub put_deployment : StackDeployment → SchedulerState W → SchedulerState W
  put_deployment deployment s = record s { stacks = HashMap.insert s.stacks id deployment }

  -- Deploys the stack here. A failure leaves the entry as it was.
  unfoldable pub deploy_here :
      StackWithMetadata → HashSet NodeHash → SchedulerState W → SchedulerState W
  unfolding deploy_stack
  deploy_here stack others s =
      let (ok, s') = deploy_stack services id stack s in
      if ok then put_deployment (deployed_to_self stack others) s' else s'

  -- Leaves the stack to a closer node, whether or not it can be undeployed here.
  unfoldable pub hand_off :
      StackWithMetadata → HashSet NodeHash → SchedulerState W → SchedulerState W
  unfolding undeploy_stack
  hand_off stack others s =
      put_deployment (deployed_to_others stack others) (undeploy_stack services id temporary s)

  unfoldable pub tick_undeployed :
      StackWithMetadata → GetClosestNodeResult → SchedulerState W → SchedulerState W
  tick_undeployed stack me s = deploy_here stack [] s
  tick_undeployed stack (other node) s = put_deployment (has_deployment_candidate stack node) s

  unfoldable pub tick_deployed_to_self :
      StackWithMetadata → HashSet NodeHash → Option NodeHash → SchedulerState W → SchedulerState W
  tick_deployed_to_self stack others (some node) s = hand_off stack others s
  tick_deployed_to_self stack others none s = s

  unfoldable pub tick_pending_update :
      StackWithMetadata → HashSet NodeHash → Option NodeHash → SchedulerState W → SchedulerState W
  tick_pending_update new_stack others (some node) s = hand_off new_stack others s
  tick_pending_update new_stack others none s = deploy_here new_stack others s

  unfoldable pub tick_deployed_to_others :
      StackWithMetadata
      → HashSet NodeHash
      → GetClosestNodeResult
      → SchedulerState W
      → SchedulerState W
  tick_deployed_to_others stack deployed_to me s = deploy_here stack deployed_to s
  tick_deployed_to_others stack deployed_to (other node) s = s

  -- The `match` on the entry's value.
  unfoldable pub tick_deployment : StackDeployment → SchedulerState W → SchedulerState W
  tick_deployment (undeployed stack) s =
      tick_undeployed stack (get_closest_node services.xor id s.my_hash s.known_nodes) s
  tick_deployment (deployed_to_self stack others) s =
      tick_deployed_to_self stack others
        (check_stack_also_deployed_to_closer_remote services.xor id s.my_hash others) s
  tick_deployment (deployed_to_self_with_pending_update new_stack others) s =
      tick_pending_update new_stack others
        (check_stack_also_deployed_to_closer_remote services.xor id s.my_hash others) s
  tick_deployment (deployed_to_others stack deployed_to) s =
      tick_deployed_to_others stack deployed_to
        (get_closest_node services.xor id s.my_hash deployed_to) s
  tick_deployment (has_deployment_candidate stack candidate) s = s
  tick_deployment (unknown deployed_to) s = s

  abbrev pub tick_entry : Option StackDeployment → SchedulerState W → SchedulerState W
  tick_entry none s = s
  tick_entry (some deployment) s = tick_deployment deployment s

  unfoldable pub tick_stack : SchedulerState W → SchedulerState W
  tick_stack s = tick_entry (HashMap.get s.stacks id) s

module _ {W : Type 0} (services : Services W) where
  unfoldable pub tick_all : SchedulerState W → SchedulerState W
  tick_all s =
      let s' : SchedulerState W = for_each (tick_stack services) s.reevaluate_on_next_tick s in
      record s' { reevaluate_on_next_tick = [] }

  unfoldable pub tick : SchedulerState W → SchedulerState W
  tick s = if s.ready_to_schedule then tick_all s else s
