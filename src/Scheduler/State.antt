-- ===== src/Scheduler/State.antt =====
-- executor/src/stack/scheduler.rs: the scheduler's state, its messages, and what it calls.
-- A `NodeHash` is the number that its 32 bytes spell, as in `to_bigint`. `W` is the state of the
-- runtime, the gateways, the database and the storage, which the scheduler only passes on.
use mu.Base.{ℕ, Bool, List}
use mu.Base.HashMap.{HashMap}
use mu.Base.HashSet.{HashSet}
use mu.MuStack.{StackId, Stack}
use mu.StackMetadata.{StackWithMetadata, StackRemovalMode}

abbrev pub NodeHash : Type 0
NodeHash = ℕ

pub data StackDeploymentStatus : Type 0 where
  deployed_to_self : List NodeHash → StackDeploymentStatus
  deployed_to_others : List NodeHash → StackDeploymentStatus
  not_deployed : StackDeploymentStatus
  unknown : StackDeploymentStatus

pub data SchedulerNotification : Type 0 where
  stack_deployed : StackId → SchedulerNotification
  stack_undeployed : StackId → SchedulerNotification
  failed_to_deploy_stack : StackId → SchedulerNotification

pub data SchedulerMessage : Type 0 where
  node_discovered : NodeHash → SchedulerMessage
  node_died : NodeHash → SchedulerMessage
  node_deployed_stacks : NodeHash → List StackId → SchedulerMessage
  node_undeployed_stacks : NodeHash → List StackId → SchedulerMessage
  stacks_available : List StackWithMetadata → SchedulerMessage
  stacks_removed : List (StackId × StackRemovalMode) → SchedulerMessage
  ready_to_schedule_stacks : SchedulerMessage
  get_deployment_status : StackId → SchedulerMessage
  tick : SchedulerMessage

pub data StackDeployment : Type 0 where
  unknown : HashSet NodeHash → StackDeployment
  undeployed : StackWithMetadata → StackDeployment
  has_deployment_candidate : StackWithMetadata → NodeHash → StackDeployment
  deployed_to_self : StackWithMetadata → HashSet NodeHash → StackDeployment
  deployed_to_self_with_pending_update : StackWithMetadata → HashSet NodeHash → StackDeployment
  deployed_to_others : StackWithMetadata → HashSet NodeHash → StackDeployment

-- `notification_channel` holds what was sent, the newest first.
pub record SchedulerState (W : Type 0) : Type 0 where
  pub my_hash : NodeHash
  pub known_nodes : HashSet NodeHash
  pub stacks : HashMap StackId StackDeployment
  pub reevaluate_on_next_tick : HashSet StackId
  pub ready_to_schedule : Bool
  pub notification_channel : List SchedulerNotification
  pub world : W

-- `xor` is `^` on the non-negative `BigInt`s; the others are the functions of deploy.rs, with
-- `true` for `Ok(())`: the scheduler logs an error and does not look into it.
pub record Services (W : Type 0) : Type 0 where
  pub xor : ℕ → ℕ → ℕ
  pub deploy : StackId → StackWithMetadata → W → Bool × W
  pub undeploy_stack : StackId → StackRemovalMode → W → Bool × W
  pub deploy_gateways : StackId → Stack → W → Bool × W
  pub undeploy_gateways : StackId → W → Bool × W
