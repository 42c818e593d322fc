-- ===== src/Scheduler/Tests.antt =====
-- Concrete runs of the scheduler. Node 1 runs it; nodes 5 and 8 are the others.
use Prim.Native.Nat.{bit_xor}
use mu.Base.{ℕ, suc, ◌≡◌, refl, true, false, Bool, some, List, [], ◌∷◌, arith, nat_key, for_each}
use mu.Base.Xor.{bit_xor_cancel}
use mu.Base.HashMap
use mu.Base.HashSet
use mu.MuStack.{StackId}
use mu.StackMetadata.{StackWithMetadata, StackMetadata}
use mu.Scheduler.State.{
  NodeHash, has_deployment_candidate, deployed_to_self, SchedulerState, Services, SchedulerMessage,
  node_died, stacks_available, ready_to_schedule_stacks, stack_deployed,
}
use mu.Scheduler.Closest.{closest_loop, get_closest_node}
use mu.Scheduler.Agreement.{IsNearest, get_closest_node-IsNearest, Leads, one_leader}
use mu.Scheduler.Start.{
  start, initial_stacks, add_available, add_unknown, initial_deployment, add_node, add_deployment,
  or_new,
}
use mu.Scheduler.Step.{step, run, stack_available}
use mu.Scheduler.Handlers.{on_stack_available}
use mu.Scheduler.Tick.{
  tick, tick_all, tick_stack, tick_deployment, deploy_here, tick_undeployed,
  tick_deployed_to_others,
}
use mu.Scheduler.WellFormed.{IsWellFormed}
use mu.Scheduler.WellFormed.Start.{run-start-IsWellFormed}
use mu.Scheduler.DeadNodes.{node_died_forgets}
use mu.Scheduler.Settled.{SettledSlot}
use mu.Scheduler.Settled.Ticks.{tick_settles}
use mu.Scheduler.Revisions.{definition, newest, stacks_available_newest}
use mu.Scheduler.Advertised.{IsAdvertised, advertised}
use mu.Scheduler.Advertised.Steps.{step-IsAdvertised}

-- The world counts the calls. Every call succeeds, but undeployments do as `undeploys` says.
abbrev pub services_with : Bool → Services ℕ
services_with undeploys = record {
  xor = bit_xor;
  deploy = λ id stack w. (true, suc w);
  undeploy_stack = λ id mode w. (undeploys, suc w);
  deploy_gateways = λ id stack w. (true, suc w);
  undeploy_gateways = λ id w. (true, suc w);
}

abbrev pub services : Services ℕ
services = services_with true

abbrev stack_at : StackId → ℕ → StackWithMetadata
stack_at id revision = record {
  stack = record { name = "s"; version = "1"; services = [] };
  name = "s";
  revision = revision;
  metadata = StackMetadata.solana (record { account_id = id; owner = 77 });
}

abbrev started : SchedulerState ℕ
started = start 1 ((5, 40 ∷ []) ∷ (8, []) ∷ []) [] 0

abbrev busy : List SchedulerMessage
busy =
    ready_to_schedule_stacks
    ∷ stacks_available (stack_at 0 1 ∷ stack_at 9 1 ∷ stack_at 40 1 ∷ [])
    ∷ SchedulerMessage.tick
    ∷ []

-- `run` with all that it calls, for the tests to compute with.
run_busy : SchedulerState ℕ
unfolding run for_each step start initial_stacks add_available add_unknown initial_deployment
    add_node add_deployment or_new stack_available on_stack_available tick tick_all tick_stack
    tick_deployment tick_undeployed tick_deployed_to_others deploy_here get_closest_node
    closest_loop HashMap.get HashMap.insert HashMap.remove HashMap.contains_key HashSet.insert
    HashSet.contains
run_busy = run services busy started

-- 0 and 40 are nearest to this node, and 9 to node 8.
deploys_own_stacks : run_busy.notification_channel ≡ stack_deployed 0 ∷ stack_deployed 40 ∷ []
unfolding run_busy
deploys_own_stacks = refl

leaves_others : HashMap.get run_busy.stacks 9 ≡ some (has_deployment_candidate (stack_at 9 1) 8)
unfolding run_busy
leaves_others = refl

get_closest_node-IsNearest_example :
    IsNearest bit_xor 9 1 (5 ∷ 8 ∷ []) (get_closest_node bit_xor 9 1 (5 ∷ 8 ∷ []))
get_closest_node-IsNearest_example = get_closest_node-IsNearest bit_xor 9 1 (5 ∷ 8 ∷ [])

one_leader_example : (l : NodeHash) × Leads bit_xor 9 (1 ∷ 5 ∷ 8 ∷ []) l
unfolding HashSet.contains
one_leader_example = one_leader bit_xor 9 bit_xor_cancel (1 ∷ 5 ∷ 8 ∷ []) 5 refl

run-start-IsWellFormed_example : IsWellFormed (run services busy started)
run-start-IsWellFormed_example =
    run-start-IsWellFormed services 1 ((5, 40 ∷ []) ∷ (8, []) ∷ []) [] 0 busy

node_died_forgets_example :
    HashSet.contains (step services (node_died 5) started).known_nodes 5 ≡ false
node_died_forgets_example = (node_died_forgets services 5 started).0

-- This node has stack 9, which node 8, nearer to it, has too.
abbrev crowded : SchedulerState ℕ
crowded = record {
  my_hash = 1;
  known_nodes = 8 ∷ [];
  stacks = (9, deployed_to_self (stack_at 9 1) (8 ∷ [])) ∷ [];
  reevaluate_on_next_tick = 9 ∷ [];
  ready_to_schedule = true;
  notification_channel = stack_deployed 9 ∷ [];
  world = 0;
}

tick_settles_example : SettledSlot bit_xor 1 9 (HashMap.get (tick services crowded).stacks 9)
unfolding HashSet.contains
tick_settles_example = (tick_settles services crowded (λ k stack w. refl) refl).0 9 refl

stacks_available_newest_example :
    definition (
      HashMap.get
        (step services (stacks_available (stack_at 9 3 ∷ stack_at 9 2 ∷ [])) crowded).stacks
        9)
    ≡ newest 9 (stack_at 9 3 ∷ stack_at 9 2 ∷ []) (some (stack_at 9 1))
unfolding HashMap.get
stacks_available_newest_example =
    stacks_available_newest services (stack_at 9 3 ∷ stack_at 9 2 ∷ []) crowded 9

crowded-IsAdvertised : IsAdvertised crowded
unfolding HashMap.get advertised
crowded-IsAdvertised = record { agrees = λ k. ground arith }

step-IsAdvertised_example : IsAdvertised (step services SchedulerMessage.tick crowded)
step-IsAdvertised_example =
    step-IsAdvertised services (λ k mode w. refl) SchedulerMessage.tick crowded crowded-IsAdvertised
