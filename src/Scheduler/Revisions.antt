-- ===== src/Scheduler/Revisions.antt =====
-- The definition that the scheduler holds of a stack, against those that it was given.
use mu.Base.{
  ◌≡◌, refl, ap, ◌∙◌, Option, none, some, List, [], ◌∷◌, arith, for_each, ltb, nat_key,
  if◌then◌else◌, ◌==◌, Bool-cases, inl, inr, eqb_iff,
}
use mu.Base.HashMap
use mu.MuStack.{StackId}
use mu.StackMetadata.{StackWithMetadata, id}
use mu.Scheduler.State.{
  StackDeployment, unknown, undeployed, has_deployment_candidate, deployed_to_self,
  deployed_to_self_with_pending_update, deployed_to_others, SchedulerState, Services,
  stacks_available,
}
use mu.Scheduler.Handlers.{on_stack_available}
use mu.Scheduler.Step.{stack_available, step}

-- The definition that the deployment is for, or is to be updated to.
abbrev pub definition : Option StackDeployment → Option StackWithMetadata
definition none = none
definition (some (unknown deployed_to)) = none
definition (some (undeployed stack)) = some stack
definition (some (has_deployment_candidate stack candidate)) = some stack
definition (some (deployed_to_self stack others)) = some stack
definition (some (deployed_to_self_with_pending_update new_stack others)) = some new_stack
definition (some (deployed_to_others stack deployed_to)) = some stack

-- Of two definitions the one of the higher revision; of two of one revision, the one held.
abbrev pub newer_of : StackWithMetadata → Option StackWithMetadata → StackWithMetadata
newer_of stack none = stack
newer_of stack (some held) = if ltb held.revision stack.revision then stack else held

pub newest : StackId → List StackWithMetadata → Option StackWithMetadata → Option StackWithMetadata
newest k [] held = held
newest k (stack ∷ stacks) held =
    newest k stacks (if id stack == k then some (newer_of stack held) else held)

definition-on_stack_available :
    (stack : StackWithMetadata) (o : Option StackDeployment)
    → definition (some (on_stack_available stack o)) ≡ some (newer_of stack (definition o))
unfolding on_stack_available
definition-on_stack_available stack none = refl
definition-on_stack_available stack (some (unknown ds)) = ground arith
definition-on_stack_available stack (some _) = ground arith

module _ {W : Type 0} (services : Services W) where
  definition-stack_available :
      (stack : StackWithMetadata) (s : SchedulerState W) (k : StackId)
      → definition (HashMap.get (stack_available services stack s).stacks k) ≡ (
          if id stack == k
          then some (newer_of stack (definition (HashMap.get s.stacks k)))
          else definition (HashMap.get s.stacks k))
  unfolding stack_available
  definition-stack_available stack s k =
      rw
        (HashMap.get-insert s.stacks (id stack) k
          (on_stack_available stack (HashMap.get s.stacks (id stack))))
        (elim (Bool-cases (id stack == k)) [
          | inl same ↦ rw same (
              definition-on_stack_available stack _
              ∙ ap (λ j. some (newer_of stack (definition (HashMap.get s.stacks j))))
                  ((eqb_iff (id stack) k).0 same))
          | inr different ↦ rw different
        ])

  -- After `StacksAvailable` the definition held of each stack is the newest of the one held before
  -- and those in the message, in the order in which they stand there.
  pub stacks_available_newest :
      (stacks : List StackWithMetadata) (s : SchedulerState W) (k : StackId)
      → definition (HashMap.get (step services (stacks_available stacks) s).stacks k)
        ≡ newest k stacks (definition (HashMap.get s.stacks k))
  unfolding step for_each newest
  stacks_available_newest [] s k = refl
  stacks_available_newest (stack ∷ stacks) s k =
      stacks_available_newest stacks (stack_available services stack s) k
      ∙ ap (newest k stacks) (definition-stack_available stack s k)
