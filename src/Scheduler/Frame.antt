-- ===== src/Scheduler/Frame.antt =====
-- The slots that one round of the tick may change.
use mu.Base.{◌≡◌, refl, false, Option, none, some, [], ◌==◌, if-cases, nat_key}
use mu.Base.HashMap
use mu.Base.HashSet.{HashSet}
use mu.MuStack.{StackId}
use mu.StackMetadata.{StackWithMetadata, temporary}
use mu.Scheduler.State.{
  NodeHash, StackDeployment, unknown, undeployed, has_deployment_candidate, deployed_to_self,
  deployed_to_self_with_pending_update, deployed_to_others, SchedulerState, Services,
}
use mu.Scheduler.Closest.{GetClosestNodeResult, me, other}
use mu.Scheduler.Tick.{
  put_deployment, deploy_here, hand_off, tick_undeployed, tick_deployed_to_self,
  tick_pending_update, tick_deployed_to_others, tick_deployment, tick_entry, tick_stack,
}

-- What one round of the tick, for the stack `k`, does not change.
pub record Frame {W : Type 0} (k : StackId) (s t : SchedulerState W) : Type 0 where
  pub my_hash : t.my_hash ≡ s.my_hash
  pub slot : (j : StackId) → (k == j) ≡ false → HashMap.get t.stacks j ≡ HashMap.get s.stacks j

module _ {W : Type 0} (services : Services W) (k : StackId) where
  Frame-refl : (s : SchedulerState W) → Frame k s s
  Frame-refl s = record { my_hash = refl; slot = λ j h. refl }

  put-slot :
      (m : HashMap.HashMap StackId StackDeployment) (d : StackDeployment) (j : StackId)
      → (k == j) ≡ false
      → HashMap.get (HashMap.insert m k d) j ≡ HashMap.get m j
  put-slot m d j h = rw (HashMap.get-insert m k j d) (rw h)

  deploy_here-Frame :
      (stack : StackWithMetadata) (others : HashSet NodeHash) (s : SchedulerState W)
      → Frame k s (deploy_here services k stack others s)
  unfolding deploy_here
  deploy_here-Frame stack others s =
      if-cases (Frame k s) (services.deploy k stack s.world).0
        (λ _. record { my_hash = refl; slot = put-slot s.stacks _ })
        (λ _. record { my_hash = refl; slot = λ j h. refl })

  hand_off-Frame :
      (stack : StackWithMetadata) (others : HashSet NodeHash) (s : SchedulerState W)
      → Frame k s (hand_off services k stack others s)
  unfolding hand_off
  hand_off-Frame stack others s =
      if-cases (λ t. Frame k s (put_deployment services k (deployed_to_others stack others) t))
        (services.undeploy_stack k temporary s.world).0
        (λ _. record { my_hash = refl; slot = put-slot s.stacks _ })
        (λ _. record { my_hash = refl; slot = put-slot s.stacks _ })

  tick_undeployed-Frame :
      (stack : StackWithMetadata) (r : GetClosestNodeResult) (s : SchedulerState W)
      → Frame k s (tick_undeployed services k stack r s)
  unfolding tick_undeployed
  tick_undeployed-Frame stack me s = deploy_here-Frame stack [] s
  tick_undeployed-Frame stack (other n) s = record { my_hash = refl; slot = put-slot s.stacks _ }

  tick_deployed-Frame :
      (stack : StackWithMetadata) (others : HashSet NodeHash) (r : Option NodeHash)
      (s : SchedulerState W)
      → Frame k s (tick_deployed_to_self services k stack others r s)
        × Frame k s (tick_pending_update services k stack others r s)
  unfolding tick_deployed_to_self tick_pending_update
  tick_deployed-Frame stack others none s = (Frame-refl s, deploy_here-Frame stack others s)
  tick_deployed-Frame stack others (some n) s =
      (hand_off-Frame stack others s, hand_off-Frame stack others s)

  tick_deployed_to_others-Frame :
      (stack : StackWithMetadata) (deployed_to : HashSet NodeHash) (r : GetClosestNodeResult)
      (s : SchedulerState W)
      → Frame k s (tick_deployed_to_others services k stack deployed_to r s)
  unfolding tick_deployed_to_others
  tick_deployed_to_others-Frame stack deployed_to me s = deploy_here-Frame stack deployed_to s
  tick_deployed_to_others-Frame stack deployed_to (other n) s = Frame-refl s

  tick_entry-Frame :
      (o : Option StackDeployment) (s : SchedulerState W) → Frame k s (tick_entry services k o s)
  unfolding tick_deployment
  tick_entry-Frame none s = Frame-refl s
  tick_entry-Frame (some (undeployed stack)) s = tick_undeployed-Frame stack _ s
  tick_entry-Frame (some (deployed_to_self stack others)) s =
      (tick_deployed-Frame stack others _ s).0
  tick_entry-Frame (some (deployed_to_self_with_pending_update stack others)) s =
      (tick_deployed-Frame stack others _ s).1
  tick_entry-Frame (some (deployed_to_others stack deployed_to)) s =
      tick_deployed_to_others-Frame stack deployed_to _ s
  tick_entry-Frame (some (has_deployment_candidate stack c)) s = Frame-refl s
  tick_entry-Frame (some (unknown deployed_to)) s = Frame-refl s

  pub tick_stack-Frame : (s : SchedulerState W) → Frame k s (tick_stack services k s)
  unfolding tick_stack
  tick_stack-Frame s = tick_entry-Frame (HashMap.get s.stacks k) s
