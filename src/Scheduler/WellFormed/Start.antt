-- ===== src/Scheduler/WellFormed/Start.antt =====
-- `start` builds a well-formed state, and so every state that the mailbox reaches is well-formed.
use mu.Base.{
  ◌≡◌, refl, false, Option, none, some, List, [], is_empty, for_each-keeps, nat_key, if-cases,
}
use mu.Base.HashMap
use mu.Base.HashMap.{HashMap}
use mu.Base.HashSet
use mu.Base.HashSet.{HashSet}
use mu.MuStack.{StackId}
use mu.StackMetadata.{StackWithMetadata, id}
use mu.Scheduler.State.{NodeHash, StackDeployment, unknown, Services, SchedulerMessage}
use mu.Scheduler.Start.{
  add_deployment, add_node, initial_deployment, add_available, add_unknown, initial_stacks, start,
}
use mu.Scheduler.Step.{run}
use mu.Scheduler.WellFormed.{SlotOk, IsWellFormed}
use mu.Scheduler.WellFormed.Steps.{run-IsWellFormed}

-- Each stack that is known to be deployed is deployed to some node.
abbrev SomewhereOk : StackId → Option (HashSet NodeHash) → Type 0
SomewhereOk k none = Unit
SomewhereOk k (some nodes) = is_empty nodes ≡ false

abbrev Somewhere : HashMap StackId (HashSet NodeHash) → Type 0
Somewhere deployed = (k : StackId) → SomewhereOk k (HashMap.get deployed k)

add_node-Somewhere :
    (n : NodeHash × List StackId) (deployed : HashMap StackId (HashSet NodeHash))
    → Somewhere deployed
    → Somewhere (add_node n deployed)
unfolding add_node add_deployment
add_node-Somewhere (node, stack_ids) deployed h =
    for_each-keeps Somewhere (add_deployment node)
      (λ k m all. HashMap.insert-keeps SomewhereOk m all k _ (HashSet.is_empty-insert _ node))
      stack_ids deployed h

module _ (known : HashSet NodeHash) where
  abbrev AllOk : HashMap StackId StackDeployment → Type 0
  AllOk m = (k : StackId) → SlotOk known k (HashMap.get m k)

  initial_deployment-SlotOk :
      (stack : StackWithMetadata) (o : Option (HashSet NodeHash))
      → SomewhereOk (id stack) o
      → SlotOk known (id stack) (some (initial_deployment stack o))
  unfolding initial_deployment
  initial_deployment-SlotOk stack none h = refl
  initial_deployment-SlotOk stack (some nodes) h = (refl, h)

  add_unknown-AllOk :
      (available : HashMap StackId StackDeployment) (n : StackId × HashSet NodeHash)
      (m : HashMap StackId StackDeployment)
      → AllOk m
      → AllOk (add_unknown available n m)
  unfolding add_unknown
  add_unknown-AllOk available n m all =
      if-cases AllOk (HashMap.contains_key available n.0) {x = m}
        {y = HashMap.insert m n.0 (unknown n.1)} (λ _. all)
        (λ _. HashMap.insert-keeps (SlotOk known) m all n.0 (unknown n.1) tt)

  initial_stacks-AllOk :
      (deployed : HashMap StackId (HashSet NodeHash)) (available : List StackWithMetadata)
      → Somewhere deployed
      → AllOk (initial_stacks deployed available)
  unfolding initial_stacks add_available HashMap.get
  initial_stacks-AllOk deployed available h =
      for_each-keeps AllOk _ (add_unknown-AllOk _) deployed _ (
        for_each-keeps AllOk _
          (λ stack m all.
            HashMap.insert-keeps (SlotOk known) m all (id stack) _
              (initial_deployment-SlotOk stack _ (h (id stack))))
          available [] (λ k. tt))

-- Whatever nodes and stacks it starts with and whatever messages come, in whatever order, the
-- scheduler's state is well-formed.
pub run-start-IsWellFormed :
    {W : Type 0} (services : Services W) (my_hash : NodeHash)
    (nodes : List (NodeHash × List StackId)) (available : List StackWithMetadata) (world : W)
    (ms : List SchedulerMessage)
    → IsWellFormed (run services ms (start my_hash nodes available world))
unfolding start HashMap.get
run-start-IsWellFormed services my_hash nodes available world ms =
    run-IsWellFormed services ms _ (record {
      slot =
          initial_stacks-AllOk _ _ available
            (for_each-keeps Somewhere add_node add_node-Somewhere nodes [] (λ k. tt));
    })
