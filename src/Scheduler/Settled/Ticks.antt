-- ===== src/Scheduler/Settled/Ticks.antt =====
-- The loop of a tick settles each stack of its list, and leaves the others alone.
use mu.Base.{
  ◌≡◌, refl, sym, ◌∙◌, ◌⊎◌, inl, inr, true, false, List, [], ◌∷◌, arith, for_each, Bool-cases,
  nat_key, eqb, eqb_iff, subst,
}
use mu.Base.HashMap
use mu.Base.HashSet
use mu.MuStack.{StackId}
use mu.Scheduler.State.{NodeHash, SchedulerState, Services}
use mu.Scheduler.Tick.{tick_stack, tick_all, tick}
use mu.Scheduler.Frame.{tick_stack-Frame}
use mu.Scheduler.Settled.{SettledSlot, AlwaysDeploys, tick_stack-Settles}

module _ {W : Type 0} (services : Services W) where
  -- What holds of the slot of `k` for a state with this `my_hash` survives the rounds of others.
  loop_untouched :
      (ks : List StackId) (s : SchedulerState W) (k : StackId)
      → HashSet.contains ks k ≡ false
      → HashMap.get (for_each (tick_stack services) ks s).stacks k ≡ HashMap.get s.stacks k
  unfolding for_each HashSet.contains
  loop_untouched [] s k h = refl
  loop_untouched (j ∷ ks) s k h = elim (Bool-cases (eqb j k)) [
    | inl same ↦ ground arith
    | inr different ↦
        loop_untouched ks (tick_stack services j s) k (rw different at h)
        ∙ (tick_stack-Frame services j s).slot k different
  ]

  loop-my_hash :
      (ks : List StackId) (s : SchedulerState W)
      → (for_each (tick_stack services) ks s).my_hash ≡ s.my_hash
  unfolding for_each
  loop-my_hash [] s = refl
  loop-my_hash (j ∷ ks) s =
      loop-my_hash ks (tick_stack services j s) ∙ (tick_stack-Frame services j s).my_hash

  module _ (deploys : AlwaysDeploys services) (my : NodeHash) (k : StackId) where
    abbrev IsSettled : SchedulerState W → Type 0
    IsSettled s = SettledSlot services.xor my k (HashMap.get s.stacks k)

    round_settles : (s : SchedulerState W) → s.my_hash ≡ my → IsSettled (tick_stack services k s)
    round_settles s e =
        subst (λ h. SettledSlot services.xor h k (HashMap.get (tick_stack services k s).stacks k)) e
          (tick_stack-Settles services deploys k s)

    loop_settles :
        (ks : List StackId) (s : SchedulerState W)
        → s.my_hash ≡ my
        → (HashSet.contains ks k ≡ true) ⊎ IsSettled s
        → IsSettled (for_each (tick_stack services) ks s)
    unfolding for_each HashSet.contains
    loop_settles [] s e (inl h) = cc
    loop_settles [] s e (inr settled) = settled
    loop_settles (j ∷ ks) s e h =
        loop_settles ks (tick_stack services j s) ((tick_stack-Frame services j s).my_hash ∙ e)
          (elim (Bool-cases (eqb j k)) [
            | inl same ↦ inr (
                subst (λ i. IsSettled (tick_stack services i s)) (sym ((eqb_iff j k).0 same))
                  (round_settles s e))
            | inr different ↦ elim h [
              | inl listed ↦ inl (rw different at listed)
              | inr settled ↦ inr (rw ((tick_stack-Frame services j s).slot k different) settled)
            ]
          ])

  -- If deployments succeed, a tick of a scheduler that is ready settles each stack that was to be
  -- looked at, leaves the slots of the others as they were, and leaves nothing to look at.
  pub tick_settles :
      (s : SchedulerState W)
      → AlwaysDeploys services
      → s.ready_to_schedule ≡ true
      → ((k : StackId)
          → HashSet.contains s.reevaluate_on_next_tick k ≡ true
          → SettledSlot services.xor s.my_hash k (HashMap.get (tick services s).stacks k))
        × ((k : StackId)
            → HashSet.contains s.reevaluate_on_next_tick k ≡ false
            → HashMap.get (tick services s).stacks k ≡ HashMap.get s.stacks k)
        × ((tick services s).reevaluate_on_next_tick ≡ [])
  unfolding tick tick_all
  tick_settles s deploys ready = (
    λ k h. simp ready (loop_settles deploys s.my_hash k s.reevaluate_on_next_tick s refl (inl h)),
    λ k h. simp ready (loop_untouched s.reevaluate_on_next_tick s k h),
    simp ready,
  )
