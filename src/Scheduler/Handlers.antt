-- ===== src/Scheduler/Handlers.antt =====
-- executor/src/stack/scheduler.rs: what `step` does to one stack on each message but `Tick`.
use mu.Base.{
  Bool, true, false, Option, none, some, [], ◌∷◌, ltb, if◌then◌else◌, ◌==◌, ◌&&◌, is_empty, nat_key,
}
use mu.Base.HashMap.{HashMap}
use mu.Base.HashSet
use mu.Base.HashSet.{HashSet}
use mu.MuStack.{StackId}
use mu.StackMetadata.{StackWithMetadata, StackRemovalMode, id}
use mu.Scheduler.State.{
  NodeHash, StackDeployment, unknown, undeployed, has_deployment_candidate, deployed_to_self,
  deployed_to_self_with_pending_update, deployed_to_others, SchedulerState, Services,
  SchedulerNotification, stack_deployed, stack_undeployed, failed_to_deploy_stack,
}

-- `NodeDied`: the deployment without the node, and whether to look at it on the next tick.
unfoldable pub forget_node : NodeHash → StackDeployment → StackDeployment × Bool
forget_node node (unknown deployed_to) =
    (unknown (HashSet.remove deployed_to node), HashSet.contains deployed_to node)
forget_node node (undeployed stack) = (undeployed stack, false)
forget_node node (has_deployment_candidate stack candidate) =
    if candidate == node
    then (undeployed stack, true)
    else (has_deployment_candidate stack candidate, false)
forget_node node (deployed_to_self stack others) =
    (deployed_to_self stack (HashSet.remove others node), HashSet.contains others node)
forget_node node (deployed_to_self_with_pending_update new_stack others) = (
  deployed_to_self_with_pending_update new_stack (HashSet.remove others node),
  HashSet.contains others node,
)
forget_node node (deployed_to_others stack deployed_to) =
    if HashSet.contains deployed_to node && is_empty (HashSet.remove deployed_to node)
    then (undeployed stack, true)
    else (deployed_to_others stack (HashSet.remove deployed_to node), false)

-- `for (id, deployment) in state.stacks.iter_mut()`
unfoldable pub forget_node_loop :
    NodeHash
    → HashMap StackId StackDeployment
    → HashSet StackId
    → HashMap StackId StackDeployment × HashSet StackId
forget_node_loop node [] reevaluate = ([], reevaluate)
forget_node_loop node ((id, deployment) ∷ rest) reevaluate =
    let (deployment', again) = forget_node node deployment in
    let (rest', reevaluate') =
      forget_node_loop node rest (if again then HashSet.insert reevaluate id else reevaluate) in
    ((id, deployment') ∷ rest', reevaluate')

-- `NodeDeployedStacks`, for one stack: from the entry as found to the entry as left.
unfoldable pub on_node_deployed : NodeHash → Option StackDeployment → StackDeployment
on_node_deployed node none = unknown (HashSet.insert [] node)
on_node_deployed node (some (unknown deployed_to)) = unknown (HashSet.insert deployed_to node)
on_node_deployed node (some (undeployed stack)) = deployed_to_others stack (HashSet.insert [] node)
on_node_deployed node (some (has_deployment_candidate stack candidate)) =
    deployed_to_others stack (HashSet.insert [] node)
on_node_deployed node (some (deployed_to_self stack others)) =
    deployed_to_self stack (HashSet.insert others node)
on_node_deployed node (some (deployed_to_self_with_pending_update new_stack others)) =
    deployed_to_self_with_pending_update new_stack (HashSet.insert others node)
on_node_deployed node (some (deployed_to_others stack deployed_to)) =
    deployed_to_others stack (HashSet.insert deployed_to node)

-- `NodeUndeployedStacks`, for one stack.
unfoldable pub on_node_undeployed : NodeHash → Option StackDeployment → Option StackDeployment
on_node_undeployed node none = none
on_node_undeployed node (some (unknown deployed_to)) =
    let left = HashSet.remove deployed_to node in
    if is_empty left then none else some (unknown left)
on_node_undeployed node (some (undeployed stack)) = some (undeployed stack)
on_node_undeployed node (some (has_deployment_candidate stack candidate)) =
    some (has_deployment_candidate stack candidate)
on_node_undeployed node (some (deployed_to_self stack others)) =
    some (deployed_to_self stack (HashSet.remove others node))
on_node_undeployed node (some (deployed_to_self_with_pending_update new_stack others)) =
    some (deployed_to_self_with_pending_update new_stack (HashSet.remove others node))
on_node_undeployed node (some (deployed_to_others stack deployed_to)) =
    let left = HashSet.remove deployed_to node in
    if HashSet.contains deployed_to node && is_empty left
    then some (undeployed stack)
    else some (deployed_to_others stack left)

newer : StackWithMetadata → StackWithMetadata → StackWithMetadata
newer stack new_stack = if ltb stack.revision new_stack.revision then new_stack else stack

-- `StacksAvailable`, for one stack.
unfoldable pub on_stack_available : StackWithMetadata → Option StackDeployment → StackDeployment
unfolding newer
on_stack_available new_stack none = undeployed new_stack
on_stack_available new_stack (some (unknown deployed_to)) =
    if is_empty deployed_to then undeployed new_stack else deployed_to_others new_stack deployed_to
on_stack_available new_stack (some (deployed_to_self stack others)) =
    if ltb stack.revision new_stack.revision
    then deployed_to_self_with_pending_update new_stack others
    else deployed_to_self stack others
on_stack_available new_stack (some (deployed_to_self_with_pending_update previous others)) =
    deployed_to_self_with_pending_update (newer previous new_stack) others
on_stack_available new_stack (some (has_deployment_candidate stack candidate)) =
    has_deployment_candidate (newer stack new_stack) candidate
on_stack_available new_stack (some (deployed_to_others stack deployed_to)) =
    deployed_to_others (newer stack new_stack) deployed_to
on_stack_available new_stack (some (undeployed stack)) = undeployed (newer stack new_stack)

module _ {W : Type 0} where
  abbrev pub send : SchedulerNotification → SchedulerState W → SchedulerState W
  send n s = record s { notification_channel = n ∷ s.notification_channel }

  -- `deploy_stack` and `undeploy_stack`: the call, and the notification that follows it.
  unfoldable pub deploy_stack :
      Services W → StackId → StackWithMetadata → SchedulerState W → Bool × SchedulerState W
  deploy_stack services id stack s =
      let (ok, w) = services.deploy id stack s.world in
      let sent = if ok then stack_deployed id else failed_to_deploy_stack id in
      (ok, send sent (record s { world = w }))

  unfoldable pub undeploy_stack :
      Services W → StackId → StackRemovalMode → SchedulerState W → SchedulerState W
  undeploy_stack services id mode s =
      let (ok, w) = services.undeploy_stack id mode s.world in
      let s' : SchedulerState W = record s { world = w } in
      if ok then send (stack_undeployed id) s' else s'
