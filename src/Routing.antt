-- ===== src/Routing.antt =====
-- executor/src/request_routing.rs: which node answers a request. The random choice of a node, the runtime
-- and the connections to other nodes are parameters.
pub mod Reached
pub mod Tests
use mu.Base.{ℕ, Bool, true, false, Option, none, some, List}
use mu.MuStack.{StackId}
use mu.Scheduler.State.{
  NodeHash, StackDeploymentStatus, deployed_to_self, deployed_to_others, SchedulerState,
}
use mu.Scheduler.Step.{status_reply}
use mu.Membership.NodeCollection.{NodeAddress}
use mu.Membership.Update.{State, live_address}
use mu.Gateway.Requests.{FunctionId, Request, Response}

pub data RoutingTarget : Type 0 where
  not_deployed local : RoutingTarget
  remote : NodeAddress → RoutingTarget

pub data Route : Type 0 where
  ok : RoutingTarget → Route
  no_deployment_targets : Route
  node_not_known : NodeHash → Route

abbrev with_address : NodeHash → Option NodeAddress → Route
with_address hash none = node_not_known hash
with_address hash (some a) = ok (remote a)

-- The connections; `none` is a failure.
pub record Network (W : Type 0) : Type 0 where
  pub connect : NodeAddress → W → Option ℕ × W
  pub send_execute_function : ℕ → FunctionId → Request → W → Option Response × W
  pub disconnect : ℕ → W → W
  pub invoke_function : FunctionId → Request → W → Option Response × W

module _ {V : Type 0} (get_hash : NodeAddress → NodeHash)
    (choose : List NodeHash → Option NodeHash) where
  abbrev with_target : State V → Option NodeHash → Route
  with_target membership none = no_deployment_targets
  with_target membership (some target) =
      with_address target (live_address get_hash target membership)

  unfoldable pub route_of_status : StackDeploymentStatus → State V → Route
  route_of_status StackDeploymentStatus.unknown membership = ok not_deployed
  route_of_status StackDeploymentStatus.not_deployed membership = ok not_deployed
  route_of_status (deployed_to_self others) membership = ok local
  route_of_status (deployed_to_others deployed_to) membership =
      with_target membership (choose deployed_to)

  unfoldable pub get_route : {W : Type 0} → StackId → SchedulerState W → State V → Route
  get_route id scheduler membership = route_of_status (status_reply id scheduler) membership

module _ {W : Type 0} (network : Network W) where
  unfoldable pub send_to : FunctionId → Request → Option ℕ × W → Option Response × W
  send_to id request (none, w) = (none, w)
  send_to id request (some connection, w) =
      let (response, w) = network.send_execute_function connection id request w in
      (response, network.disconnect connection w)

  -- From the route on; its errors end the request.
  unfoldable pub route_request : FunctionId → Request → Route → W → Option Response × W
  route_request id request (ok not_deployed) w = (none, w)
  route_request id request (ok local) w = network.invoke_function id request w
  route_request id request (ok (remote address)) w = send_to id request (network.connect address w)
  route_request id request no_deployment_targets w = (none, w)
  route_request id request (node_not_known hash) w = (none, w)
