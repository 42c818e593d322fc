-- ===== src/Scheduler/Advertised.antt =====
-- What the scheduler tells the rest of the node (`SchedulerNotification`) against what it holds to
-- be deployed here. executor/src/lib.rs hands the notifications on to the membership, which
-- advertises the stacks to the other nodes.
pub mod Steps
use mathlib.Core.Option
use mu.Base.{
  ◌≡◌, refl, ap, ◌∙◌, true, false, Bool, Option, none, some, List, [], ◌∷◌, arith, for_each,
  for_each-keeps, if-cases, nat_key, if◌then◌else◌, ◌==◌, is_empty, Bool-cases, inl, inr,
}
use mu.Base.HashMap
use mu.Base.HashSet
use mu.Base.HashSet.{HashSet}
use mu.MuStack.{StackId}
use mu.StackMetadata.{StackWithMetadata, StackRemovalMode, temporary, id}
use mu.Scheduler.State.{
  NodeHash, StackDeployment, unknown, undeployed, has_deployment_candidate, deployed_to_self,
  deployed_to_self_with_pending_update, deployed_to_others, SchedulerState, Services,
  SchedulerNotification, stack_deployed, stack_undeployed, failed_to_deploy_stack,
}
use mu.Scheduler.Handlers.{
  forget_node, on_node_deployed, on_node_undeployed, on_stack_available, undeploy_stack,
}
use mu.Scheduler.Step.{
  forget_dead_node, node_deployed_stack, node_undeployed_stack, stack_available, undeploy_removed,
  stack_removed,
}
use mu.Scheduler.WellFormed.{get-forget_node_loop}

-- The last word on a stack in what was sent, the newest first: deployed here, or not.
unfoldable pub advertised : List SchedulerNotification → StackId → Bool
advertised [] k = false
advertised (stack_deployed j ∷ ns) k = if j == k then true else advertised ns k
advertised (stack_undeployed j ∷ ns) k = if j == k then false else advertised ns k
advertised (failed_to_deploy_stack j ∷ ns) k = advertised ns k

abbrev pub is_local : Option StackDeployment → Bool
is_local none = false
is_local (some (unknown deployed_to)) = false
is_local (some (undeployed stack)) = false
is_local (some (has_deployment_candidate stack candidate)) = false
is_local (some (deployed_to_self stack others)) = true
is_local (some (deployed_to_self_with_pending_update new_stack others)) = true
is_local (some (deployed_to_others stack deployed_to)) = false

pub record IsAdvertised {W : Type 0} (s : SchedulerState W) : Type 0 where
  pub agrees :
      (k : StackId) → is_local (HashMap.get s.stacks k) ≡ advertised s.notification_channel k

local-forget_node :
    (node : NodeHash) (o : Option StackDeployment)
    → is_local (Option.map (λ d. (forget_node node d).0) o) ≡ is_local o
unfolding forget_node
local-forget_node node none = refl
local-forget_node node (some (has_deployment_candidate stack c)) = ground arith
local-forget_node node (some (deployed_to_others stack ds)) = ground arith
local-forget_node node (some _) = refl

local-on_node_deployed :
    (node : NodeHash) (o : Option StackDeployment)
    → is_local (some (on_node_deployed node o)) ≡ is_local o
unfolding on_node_deployed
local-on_node_deployed node none = refl
local-on_node_deployed node (some (undeployed stack)) = refl
local-on_node_deployed node (some _) = refl

local-on_node_undeployed :
    (node : NodeHash) (o : Option StackDeployment)
    → is_local (on_node_undeployed node o) ≡ is_local o
unfolding on_node_undeployed
local-on_node_undeployed node none = refl
local-on_node_undeployed node (some (unknown ds)) = ground arith
local-on_node_undeployed node (some (deployed_to_others stack ds)) = ground arith
local-on_node_undeployed node (some _) = refl

local-on_stack_available :
    (stack : StackWithMetadata) (o : Option StackDeployment)
    → is_local (some (on_stack_available stack o)) ≡ is_local o
unfolding on_stack_available
local-on_stack_available stack none = refl
local-on_stack_available stack (some (unknown ds)) = ground arith
local-on_stack_available stack (some (deployed_to_self st ds)) = ground arith
local-on_stack_available stack (some _) = refl

-- Every undeployment succeeds.
abbrev pub AlwaysUndeploys : {W : Type 0} → Services W → Type 0
AlwaysUndeploys {W} services =
    (k : StackId) (mode : StackRemovalMode) (w : W) → (services.undeploy_stack k mode w).0 ≡ true

abbrev pub SlotAgrees : List SchedulerNotification → StackId → Option StackDeployment → Type 0
SlotAgrees ns k o = is_local o ≡ advertised ns k

module _ {W : Type 0} where
  pub node_died-IsAdvertised :
      (node : NodeHash) (s : SchedulerState W)
      → IsAdvertised s
      → IsAdvertised (forget_dead_node node s)
  unfolding forget_dead_node
  node_died-IsAdvertised node s v = record {
    agrees = λ k.
        rw (get-forget_node_loop node s.stacks s.reevaluate_on_next_tick k)
          (rw (local-forget_node node (HashMap.get s.stacks k)) (v.agrees k));
  }

  pub node_deployed_stack-IsAdvertised :
      (node : NodeHash) (k : StackId) (s : SchedulerState W)
      → IsAdvertised s
      → IsAdvertised (node_deployed_stack node k s)
  unfolding node_deployed_stack
  node_deployed_stack-IsAdvertised node k s v = record {
    agrees =
        HashMap.insert-keeps (SlotAgrees s.notification_channel) s.stacks v.agrees k _
          (local-on_node_deployed node _ ∙ v.agrees k);
  }

  pub node_undeployed_stack-IsAdvertised :
      (node : NodeHash) (k : StackId) (s : SchedulerState W)
      → IsAdvertised s
      → IsAdvertised (node_undeployed_stack node k s)
  unfolding node_undeployed_stack
  node_undeployed_stack-IsAdvertised node k s v = record {
    agrees =
        HashMap.set_entry-keeps (SlotAgrees s.notification_channel) s.stacks v.agrees k _
          (local-on_node_undeployed node _ ∙ v.agrees k);
  }

  module _ (services : Services W) where
    pub stack_available-IsAdvertised :
        (stack : StackWithMetadata) (s : SchedulerState W)
        → IsAdvertised s
        → IsAdvertised (stack_available services stack s)
    unfolding stack_available
    stack_available-IsAdvertised stack s v = record {
      agrees =
          HashMap.insert-keeps (SlotAgrees s.notification_channel) s.stacks v.agrees (id stack) _
            (local-on_stack_available stack _ ∙ v.agrees (id stack));
    }

    -- Once the stack is undeployed and the notification sent, its slot may go.
    cleared :
        (undeploys : AlwaysUndeploys services) (k : StackId) (mode : StackRemovalMode)
        (o : Option StackDeployment) (s : SchedulerState W)
        → o ≡ HashMap.get s.stacks k
        → IsAdvertised s
        → (j : StackId)
        → SlotAgrees
            (undeploy_removed services k mode o s).notification_channel
            j
            (HashMap.get (HashMap.remove (undeploy_removed services k mode o s).stacks k) j)
    unfolding undeploy_removed undeploy_stack advertised
    cleared undeploys k mode (some (deployed_to_self stack others)) s e v j =
        rw (undeploys k mode s.world) (ground (arith, HashMap.get-remove s.stacks k j, v.agrees j))
    cleared undeploys k mode (some (deployed_to_self_with_pending_update stack others)) s e v j =
        rw (undeploys k mode s.world) (ground (arith, HashMap.get-remove s.stacks k j, v.agrees j))
    cleared undeploys k mode none s e v j =
        HashMap.remove-keeps (SlotAgrees s.notification_channel) s.stacks v.agrees k
          (ap is_local e ∙ v.agrees k) j
    cleared undeploys k mode (some (unknown ds)) s e v j =
        HashMap.remove-keeps (SlotAgrees s.notification_channel) s.stacks v.agrees k
          (ap is_local e ∙ v.agrees k) j
    cleared undeploys k mode (some (undeployed stack)) s e v j =
        HashMap.remove-keeps (SlotAgrees s.notification_channel) s.stacks v.agrees k
          (ap is_local e ∙ v.agrees k) j
    cleared undeploys k mode (some (has_deployment_candidate stack c)) s e v j =
        HashMap.remove-keeps (SlotAgrees s.notification_channel) s.stacks v.agrees k
          (ap is_local e ∙ v.agrees k) j
    cleared undeploys k mode (some (deployed_to_others stack ds)) s e v j =
        HashMap.remove-keeps (SlotAgrees s.notification_channel) s.stacks v.agrees k
          (ap is_local e ∙ v.agrees k) j

    pub stack_removed-IsAdvertised :
        (undeploys : AlwaysUndeploys services) (r : StackId × StackRemovalMode)
        (s : SchedulerState W)
        → IsAdvertised s
        → IsAdvertised (stack_removed services r s)
    unfolding stack_removed
    stack_removed-IsAdvertised undeploys (k, mode) s v = record {
      agrees = cleared undeploys k mode _ _ refl (record { agrees = v.agrees });
    }
