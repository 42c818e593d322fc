-- ===== src/UsageAggregator/Conserves.antt =====
-- What is registered, against what is reported and what is held.
use mu.Base.{
  ◌≡◌, ◌⊎◌, inl, inr, ℕ, ◌+◌, ◌%◌, ◌<◌, true, false, List, [], ◌∷◌, arith, ◌==◌, Bool-cases,
  if◌then◌else◌, nat_key, for_each,
}
use native.Mathlib.Nat.{mod-eq_of_lt}
use mu.Base.HashMap
use mu.Base.HashMap.{HashMap}
use mu.MuStack.{StackId}
use mu.UsageAggregator.{
  Usage, UsageCategory, category_key, u128, into_category, Usages, Message, register_usage,
  get_and_reset_usages, State, or_zero, or_empty, add_usage, mailbox_step, run,
}

-- What a reply says of a stack and a category; a missing entry is nothing.
abbrev pub amount_in : StackId → UsageCategory → Usages → ℕ
amount_in stack category usages =
    or_zero (HashMap.get (or_empty (HashMap.get usages stack)) category)

abbrev pub worth : UsageCategory → Usage → ℕ
worth category usage = if (into_category usage).0 == category then (into_category usage).1 else 0

abbrev pub worth_all : UsageCategory → List Usage → ℕ
worth_all category [] = 0
worth_all category (usage ∷ rest) = worth category usage + worth_all category rest

-- What the messages register for a stack and a category.
abbrev pub registered : StackId → UsageCategory → List Message → ℕ
registered stack category [] = 0
registered stack category (register_usage stack_id usage ∷ rest) =
    (if stack_id == stack then worth_all category usage else 0) + registered stack category rest
registered stack category (get_and_reset_usages ∷ rest) = registered stack category rest

abbrev pub reported : StackId → UsageCategory → List Usages → ℕ
reported stack category [] = 0
reported stack category (reply ∷ rest) =
    amount_in stack category reply + reported stack category rest

module _ (category : UsageCategory) where
  abbrev held : HashMap UsageCategory ℕ → ℕ
  held m = or_zero (HashMap.get m category)

  add_usage-held :
      (usage : Usage) (m : HashMap UsageCategory ℕ)
      → held m + worth category usage < u128
      → held (add_usage usage m) ≡ held m + worth category usage
  unfolding add_usage
  add_usage-held usage m = added (into_category usage).0 (into_category usage).1 (Bool-cases _)
    where
      added :
          (c : UsageCategory) (n : ℕ)
          → ((c == category) ≡ true) ⊎ ((c == category) ≡ false)
          → held m + (if c == category then n else 0) < u128
          → held (HashMap.insert m c ((or_zero (HashMap.get m c) + n) % u128))
            ≡ held m + (if c == category then n else 0)
      added c n (inl same) h =
          let here = (category_key.same_iff c category).0 same in
          rw (HashMap.get-insert m c category ((or_zero (HashMap.get m c) + n) % u128))
            (rw same (rw here (mod-eq_of_lt (rw same at h))))
      added c n (inr other) h =
          rw (HashMap.get-insert m c category ((or_zero (HashMap.get m c) + n) % u128))
            (rw other (omega arith))

  add_all-held :
      (usage : List Usage) (m : HashMap UsageCategory ℕ)
      → held m + worth_all category usage < u128
      → held (for_each add_usage usage m) ≡ held m + worth_all category usage
  unfolding for_each
  add_all-held [] m h = omega arith
  add_all-held (usage ∷ rest) m h =
      let first = add_usage-held usage m (omega arith) in
      let others = add_all-held rest (add_usage usage m) (omega arith) in omega arith

module _ (stack : StackId) (category : UsageCategory) where
  register-amount_in :
      (stack_id : StackId) (usage : List Usage) (usages : Usages)
      → amount_in stack category usages
          + (if stack_id == stack then worth_all category usage else 0)
        < u128
      → amount_in stack category (
          HashMap.insert usages stack_id
            (for_each add_usage usage (or_empty (HashMap.get usages stack_id))))
        ≡ amount_in stack category usages
          + (if stack_id == stack then worth_all category usage else 0)
  register-amount_in stack_id usage usages h =
      rw (HashMap.get-insert usages stack_id stack _) (elim (Bool-cases (stack_id == stack)) [
        | inl same ↦
            let here = (nat_key.same_iff stack_id stack).0 same in
            rw same (rw here (add_all-held category usage _ (rw same at h)))
        | inr other ↦ rw other (omega arith)
      ])

  -- What the messages register is what was reported before, or is still held.
  loop-reported :
      (messages : List Message) (s : State)
      → amount_in stack category s.usages + registered stack category messages < u128
      → reported stack category (for_each mailbox_step messages s).replies
          + amount_in stack category (for_each mailbox_step messages s).usages
        ≡ reported stack category s.replies
          + amount_in stack category s.usages
          + registered stack category messages
  unfolding for_each mailbox_step HashMap.get
  loop-reported [] s h = omega arith
  loop-reported (register_usage stack_id usage ∷ rest) s h =
      let first = register-amount_in stack_id usage s.usages (omega arith) in
      let others =
        loop-reported rest (mailbox_step (register_usage stack_id usage) s) (omega arith) in
      omega arith
  loop-reported (get_and_reset_usages ∷ rest) s h =
      let others = loop-reported rest (mailbox_step get_and_reset_usages s) (omega arith) in
      omega arith

-- If what is registered for a stack and a category fits in a `u128`, then whenever the usages are
-- reported and reset, what was reported and what is held add up to what was registered.
pub run-conserves :
    (stack : StackId) (category : UsageCategory) (messages : List Message)
    → registered stack category messages < u128
    → reported stack category (run messages).replies
        + amount_in stack category (run messages).usages
      ≡ registered stack category messages
unfolding run HashMap.get
run-conserves stack category messages h =
    let all =
      loop-reported stack category messages (record { usages = []; replies = [] }) (omega arith) in
    omega arith
