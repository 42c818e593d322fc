-- ===== src/Scheduler/Settled.antt =====
-- What a tick leaves behind.
pub mod Ticks
use mu.Base.{
  ℕ, ◌≡◌, refl, sym, ◌∙◌, ◌⊎◌, inl, inr, true, false, Option, none, some, List, [], ◌∷◌, arith,
  for_each, if-cases, Bool-cases, nat_key, eqb, eqb_iff, if◌then◌else◌, subst, ◌==◌,
}
use mu.Base.HashMap
use mu.Base.HashSet
use mu.Base.HashSet.{HashSet}
use mu.MuStack.{StackId}
use mu.StackMetadata.{StackWithMetadata, temporary}
use mu.Scheduler.State.{
  NodeHash, StackDeployment, unknown, undeployed, has_deployment_candidate, deployed_to_self,
  deployed_to_self_with_pending_update, deployed_to_others, SchedulerState, Services,
}
use mu.Scheduler.Closest.{
  GetClosestNodeResult, me, other, get_closest_node, check_stack_also_deployed_to_closer_remote,
}
use mu.Scheduler.Tick.{
  put_deployment, deploy_here, hand_off, tick_undeployed, tick_deployed_to_self,
  tick_pending_update, tick_deployed_to_others, tick_deployment, tick_entry, tick_stack, tick_all,
  tick,
}
use mu.Scheduler.Frame.{Frame, tick_stack-Frame}

-- A settled stack: it is not undeployed, it has no update to come, it is deployed here only if none
-- of the other nodes that deploy it is closer, and it is left to others only if one of them is.
abbrev pub SettledSlot : (ℕ → ℕ → ℕ) → NodeHash → StackId → Option StackDeployment → Type 0
SettledSlot xor my k none = Unit
SettledSlot xor my k (some (unknown deployed_to)) = Unit
SettledSlot xor my k (some (undeployed stack)) = ⊥
SettledSlot xor my k (some (has_deployment_candidate stack candidate)) = Unit
SettledSlot xor my k (some (deployed_to_self stack others)) =
    check_stack_also_deployed_to_closer_remote xor k my others ≡ none
SettledSlot xor my k (some (deployed_to_self_with_pending_update new_stack others)) = ⊥
SettledSlot xor my k (some (deployed_to_others stack deployed_to)) =
    (n : NodeHash) × (get_closest_node xor k my deployed_to ≡ other n)

closer-other :
    (xor : ℕ → ℕ → ℕ) (k : StackId) (my : NodeHash) (others : HashSet NodeHash) (n : NodeHash)
    → check_stack_also_deployed_to_closer_remote xor k my others ≡ some n
    → get_closest_node xor k my others ≡ other n
unfolding check_stack_also_deployed_to_closer_remote
closer-other xor k my others n h = ground arith

me-none :
    (xor : ℕ → ℕ → ℕ) (k : StackId) (my : NodeHash) (others : HashSet NodeHash)
    → get_closest_node xor k my others ≡ me
    → check_stack_also_deployed_to_closer_remote xor k my others ≡ none
unfolding check_stack_also_deployed_to_closer_remote
me-none xor k my others h = ground arith

-- Every deployment succeeds.
abbrev pub AlwaysDeploys : {W : Type 0} → Services W → Type 0
AlwaysDeploys {W} services =
    (k : StackId) (stack : StackWithMetadata) (w : W) → (services.deploy k stack w).0 ≡ true

module _ {W : Type 0} (services : Services W) (deploys : AlwaysDeploys services) where
  module _ (k : StackId) where
    abbrev pub Settles : SchedulerState W → SchedulerState W → Type 0
    Settles s t = SettledSlot services.xor s.my_hash k (HashMap.get t.stacks k)

    deploy_here-Settles :
        (stack : StackWithMetadata) (others : HashSet NodeHash) (s : SchedulerState W)
        → check_stack_also_deployed_to_closer_remote services.xor k s.my_hash others ≡ none
        → Settles s (deploy_here services k stack others s)
    unfolding deploy_here
    deploy_here-Settles stack others s h =
        rw (deploys k stack s.world)
          (rw (HashMap.get-insert_self s.stacks k (deployed_to_self stack others)) h)

    hand_off-Settles :
        (stack : StackWithMetadata) (others : HashSet NodeHash) (s : SchedulerState W)
        (n : NodeHash)
        → check_stack_also_deployed_to_closer_remote services.xor k s.my_hash others ≡ some n
        → Settles s (hand_off services k stack others s)
    unfolding hand_off
    hand_off-Settles stack others s n h =
        if-cases (λ t. Settles s (put_deployment services k (deployed_to_others stack others) t))
          (services.undeploy_stack k temporary s.world).0 (λ _. handed) (λ _. handed)
      where
        handed :
            SettledSlot services.xor s.my_hash k
              (HashMap.get (HashMap.insert s.stacks k (deployed_to_others stack others)) k)
        handed =
            rw (HashMap.get-insert_self s.stacks k (deployed_to_others stack others))
              (n, closer-other services.xor k s.my_hash others n h)

    tick_undeployed-Settles :
        (stack : StackWithMetadata) (r : GetClosestNodeResult) (s : SchedulerState W)
        → Settles s (tick_undeployed services k stack r s)
    unfolding tick_undeployed check_stack_also_deployed_to_closer_remote
    tick_undeployed-Settles stack me s = deploy_here-Settles stack [] s refl
    tick_undeployed-Settles stack (other n) s =
        rw (HashMap.get-insert_self s.stacks k (has_deployment_candidate stack n)) tt

    tick_deployed_to_self-Settles :
        (stack : StackWithMetadata) (others : HashSet NodeHash) (r : Option NodeHash)
        (s : SchedulerState W)
        → HashMap.get s.stacks k ≡ some (deployed_to_self stack others)
        → check_stack_also_deployed_to_closer_remote services.xor k s.my_hash others ≡ r
        → Settles s (tick_deployed_to_self services k stack others r s)
    unfolding tick_deployed_to_self
    tick_deployed_to_self-Settles stack others none s e h = rw e h
    tick_deployed_to_self-Settles stack others (some n) s e h = hand_off-Settles stack others s n h

    tick_pending_update-Settles :
        (stack : StackWithMetadata) (others : HashSet NodeHash) (r : Option NodeHash)
        (s : SchedulerState W)
        → check_stack_also_deployed_to_closer_remote services.xor k s.my_hash others ≡ r
        → Settles s (tick_pending_update services k stack others r s)
    unfolding tick_pending_update
    tick_pending_update-Settles stack others none s h = deploy_here-Settles stack others s h
    tick_pending_update-Settles stack others (some n) s h = hand_off-Settles stack others s n h

    tick_deployed_to_others-Settles :
        (stack : StackWithMetadata) (ds : HashSet NodeHash) (r : GetClosestNodeResult)
        (s : SchedulerState W)
        → HashMap.get s.stacks k ≡ some (deployed_to_others stack ds)
        → get_closest_node services.xor k s.my_hash ds ≡ r
        → Settles s (tick_deployed_to_others services k stack ds r s)
    unfolding tick_deployed_to_others
    tick_deployed_to_others-Settles stack ds me s e h =
        deploy_here-Settles stack ds s (me-none services.xor k s.my_hash ds h)
    tick_deployed_to_others-Settles stack ds (other n) s e h = rw e (n, h)

    tick_entry-Settles :
        (o : Option StackDeployment) (s : SchedulerState W)
        → HashMap.get s.stacks k ≡ o
        → Settles s (tick_entry services k o s)
    unfolding tick_deployment
    tick_entry-Settles none s e = rw e tt
    tick_entry-Settles (some (undeployed stack)) s e = tick_undeployed-Settles stack _ s
    tick_entry-Settles (some (deployed_to_self stack others)) s e =
        tick_deployed_to_self-Settles stack others _ s e refl
    tick_entry-Settles (some (deployed_to_self_with_pending_update stack others)) s e =
        tick_pending_update-Settles stack others _ s refl
    tick_entry-Settles (some (deployed_to_others stack ds)) s e =
        tick_deployed_to_others-Settles stack ds _ s e refl
    tick_entry-Settles (some (has_deployment_candidate stack c)) s e = rw e tt
    tick_entry-Settles (some (unknown ds)) s e = rw e tt

    pub tick_stack-Settles : (s : SchedulerState W) → Settles s (tick_stack services k s)
    unfolding tick_stack
    tick_stack-Settles s = tick_entry-Settles (HashMap.get s.stacks k) s refl
