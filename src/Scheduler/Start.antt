-- ===== src/Scheduler/Start.antt =====
-- executor/src/stack/scheduler.rs: `start`, up to the mailbox and the timer.
use mu.Base.{false, Option, none, some, List, [], if◌then◌else◌, for_each, nat_key, map}
use mu.Base.HashMap
use mu.Base.HashMap.{HashMap}
use mu.Base.HashSet
use mu.Base.HashSet.{HashSet}
use mu.MuStack.{StackId}
use mu.StackMetadata.{StackWithMetadata, id}
use mu.Scheduler.State.{
  NodeHash, StackDeployment, unknown, undeployed, deployed_to_others, SchedulerState,
}

-- `.entry(*stack_id).or_insert_with(HashSet::new)`
unfoldable pub or_new : Option (HashSet NodeHash) → HashSet NodeHash
or_new none = []
or_new (some nodes) = nodes

unfoldable pub add_deployment :
    NodeHash → StackId → HashMap StackId (HashSet NodeHash) → HashMap StackId (HashSet NodeHash)
add_deployment node stack_id deployed =
    HashMap.insert deployed stack_id (HashSet.insert (or_new (HashMap.get deployed stack_id)) node)

unfoldable pub add_node :
    NodeHash × List StackId
    → HashMap StackId (HashSet NodeHash)
    → HashMap StackId (HashSet NodeHash)
add_node (node, stack_ids) deployed = for_each (add_deployment node) stack_ids deployed

unfoldable pub initial_deployment : StackWithMetadata → Option (HashSet NodeHash) → StackDeployment
initial_deployment stack none = undeployed stack
initial_deployment stack (some nodes) = deployed_to_others stack nodes

unfoldable pub add_available :
    HashMap StackId (HashSet NodeHash)
    → StackWithMetadata
    → HashMap StackId StackDeployment
    → HashMap StackId StackDeployment
add_available deployed stack stacks =
    HashMap.insert stacks (id stack) (initial_deployment stack (HashMap.get deployed (id stack)))

-- The stacks that other nodes deploy and that are not among the available ones.
unfoldable pub add_unknown :
    HashMap StackId StackDeployment
    → StackId × HashSet NodeHash
    → HashMap StackId StackDeployment
    → HashMap StackId StackDeployment
add_unknown available (stack_id, nodes) stacks =
    if HashMap.contains_key available stack_id
    then stacks
    else HashMap.insert stacks stack_id (unknown nodes)

unfoldable pub initial_stacks :
    HashMap StackId (HashSet NodeHash) → List StackWithMetadata → HashMap StackId StackDeployment
initial_stacks deployed available_stacks =
    let available : HashMap StackId StackDeployment =
      for_each (add_available deployed) available_stacks [] in
    for_each (add_unknown available) deployed available

unfoldable pub start :
    {W : Type 0}
    → NodeHash
    → List (NodeHash × List StackId)
    → List StackWithMetadata
    → W
    → SchedulerState W
start my_hash known_nodes available_stacks world = record {
  my_hash = my_hash;
  known_nodes = map (λ node. node.0) known_nodes;
  stacks = initial_stacks (for_each add_node known_nodes []) available_stacks;
  reevaluate_on_next_tick = [];
  ready_to_schedule = false;
  notification_channel = [];
  world = world;
}
