-- ===== src/Marketplace/Instructions/StackHistory.antt =====
-- What transactions can do to a stack, in a build that checks for overflows.
use mu.Base.{
  ◌≡◌, refl, ◌⊎◌, inl, inr, ℕ, ◌+◌, ◌<◌, true, Option, none, some, List, arith, nat_key,
  for_each-keeps, subst, sym, ◌∙◌, String,
}
use mu.Base.HashMap
use mu.Marketplace.Arithmetic.{u32, fit}
use mu.Marketplace.Accounts.{Pubkey, Stack, StackState, active, deleted, Ledger, Runtime}
use mu.Marketplace.Program.{
  create_stack, update_stack, update_state, delete_stack, delete_state, initialize, pay,
  update_usage, create_provider, update_provider_deposit, create_provider_authorizer,
  authorize_provider, create_region, create_authorized_usage_signer, withdraw_escrow, put_stack,
}
use mu.Marketplace.Instructions.{
  Instruction, execute, transact, transact_all, add_request_signer, set_request_signer,
}
use mu.Marketplace.Instructions.Ensures.{
  Ensures, require-Ensures, load-Ensures, vacant-Ensures, committed-keeps, weaken-Ensures,
  update_usage-Ensures,
}

-- A deleted stack stays deleted; an active one may be deleted, or updated to a greater revision.
abbrev pub Later : StackState → StackState → Type 0
Later deleted s' = s' ≡ deleted
Later (active revision name content) deleted = Unit
Later (active revision name content) (active revision' name' content') =
    (active revision' name' content' ≡ active revision name content) ⊎ (revision < revision')

-- A stack keeps its user, its region and its seed.
abbrev pub Continues : Option Stack → Option Stack → Type 0
Continues none s' = Unit
Continues (some s) none = ⊥
Continues (some s) (some s') =
    (s'.user ≡ s.user) × (s'.region ≡ s.region) × (s'.seed ≡ s.seed) × Later s.state s'.state

Later-refl : (s : StackState) → Later s s
Later-refl deleted = refl
Later-refl (active revision name content) = inl refl

Later-trans : (a b c : StackState) → Later a b → Later b c → Later a c
Later-trans deleted b c h g = subst (λ x. Later x c) h g
Later-trans (active r n d) deleted deleted h g = tt
Later-trans (active r n d) deleted (active _ _ _) h g = cc
Later-trans (active r n d) (active r' n' d') deleted h g = tt
Later-trans (active r n d) (active r' n' d') (active r'' n'' d'') (inl same) g =
    subst (λ x. Later x (active r'' n'' d'')) same g
Later-trans (active r n d) (active r' n' d') (active r'' n'' d'') (inr more) (inl same) =
    subst (λ x. Later (active r n d) x) (sym same) (inr more)
Later-trans (active r n d) (active r' n' d') (active r'' n'' d'') (inr more) (inr more') =
    inr (omega arith)

Continues-refl : (x : Option Stack) → Continues x x
Continues-refl none = tt
Continues-refl (some s) = (refl, refl, refl, Later-refl s.state)

Continues-trans : (x y z : Option Stack) → Continues x y → Continues y z → Continues x z
Continues-trans none y z h g = tt
Continues-trans (some a) none z h g = absurd h
Continues-trans (some a) (some b) none h g = absurd g
Continues-trans (some a) (some b) (some c) (u, r, s, later) (u', r', s', later') =
    (u' ∙ u, r' ∙ r, s' ∙ s, Later-trans a.state b.state c.state later later')

fit-next : (n m : ℕ) → fit true u32 n ≡ some m → n ≡ m
unfolding fit
fit-next n m e = ground arith

module _ {T : Type 0} (runtime : Runtime T) where
  abbrev Keeps : Ledger T → Ledger T → Type 0
  Keeps l l' = (k : Pubkey) → Continues (HashMap.get l.stacks k) (HashMap.get l'.stacks k)

  put_stack-Keeps :
      (l : Ledger T) (key : Pubkey) (s : Stack) (state : StackState)
      → HashMap.get l.stacks key ≡ some s
      → Later s.state state
      → Ensures (Keeps l) (put_stack runtime true key s l state)
  put_stack-Keeps l key s state e later =
      HashMap.insert-keeps (λ k x. Continues (HashMap.get l.stacks k) x) l.stacks
        (λ k. Continues-refl _) key (record s { state = state }) (rw e (refl, refl, refl, later))

  update_state-Keeps :
      (l : Ledger T) (key : Pubkey) (s : Stack) (content : List ℕ) (name : String)
      → HashMap.get l.stacks key ≡ some s
      → Ensures
          (Keeps l)
          (update_state runtime true content name s.state (put_stack runtime true key s l))
  unfolding update_state
  update_state-Keeps l key s content name e = of s.state refl
    where
      of :
          (state : StackState)
          → s.state ≡ state
          → Ensures
              (Keeps l)
              (update_state runtime true content name state (put_stack runtime true key s l))
      of deleted same = tt
      of (active revision _ _) same = load-Ensures _ _ _ _ λ next fits.
          put_stack-Keeps l key s _ e
            (rw same (inr (grind (arith, fit-next (revision + 1) next fits))))

  delete_state-Keeps :
      (l : Ledger T) (key : Pubkey) (s : Stack)
      → HashMap.get l.stacks key ≡ some s
      → Ensures (Keeps l) (delete_state runtime true s.state (put_stack runtime true key s l))
  unfolding delete_state
  delete_state-Keeps l key s e = of s.state refl
    where
      of :
          (state : StackState)
          → s.state ≡ state
          → Ensures (Keeps l) (delete_state runtime true state (put_stack runtime true key s l))
      of deleted same = tt
      of (active revision name content) same = put_stack-Keeps l key s deleted e (rw same tt)

  execute-Keeps : (i : Instruction) (l : Ledger T) → Ensures (Keeps l) (execute runtime true i l)
  unfolding execute initialize update_provider_deposit create_provider_authorizer create_provider
      authorize_provider create_region create_stack update_stack delete_stack add_request_signer
      set_request_signer create_authorized_usage_signer update_usage pay withdraw_escrow
  execute-Keeps (Instruction.initialize _ _ _ _) l =
      vacant-Ensures _ _ _ λ _. require-Ensures _ _ _ _ λ _ k. Continues-refl _
  execute-Keeps (Instruction.update_provider_deposit _ _) l =
      load-Ensures _ _ _ _ λ _ _ k. Continues-refl _
  execute-Keeps (Instruction.create_provider_authorizer _ _) l =
      load-Ensures _ _ _ _
        λ _ _. require-Ensures _ _ _ _ λ _. vacant-Ensures _ _ _ λ _ k. Continues-refl _
  execute-Keeps (Instruction.create_provider _ _ _ _) l = load-Ensures _ _ _ _ λ _ _.
      require-Ensures _ _ _ _
        λ _. vacant-Ensures _ _ _ λ _. load-Ensures _ _ _ _ λ _ _ k. Continues-refl _
  execute-Keeps (Instruction.authorize_provider _ _) l =
      load-Ensures _ _ _ _
        λ _ _. require-Ensures _ _ _ _ λ _. load-Ensures _ _ _ _ λ _ _ k. Continues-refl _
  execute-Keeps (Instruction.create_region _ _ _ _ _ _ _ _) l = load-Ensures _ _ _ _ λ _ _.
      require-Ensures _ _ _ _
        λ _. vacant-Ensures _ _ _ λ _. require-Ensures _ _ _ _ λ _ k. Continues-refl _
  execute-Keeps (Instruction.create_stack provider region user seed content name) l =
      load-Ensures _ _ _ _ λ _ _. load-Ensures _ _ _ _ λ _ _. require-Ensures _ _ _ _ λ _.
        vacant-Ensures _ _ _ λ fresh. require-Ensures _ _ _ _ λ _.
          HashMap.insert-keeps (λ k x. Continues (HashMap.get l.stacks k) x) l.stacks
            (λ k. Continues-refl _) _ _ (rw fresh tt)
  execute-Keeps (Instruction.update_stack region user seed content name) l =
      load-Ensures _ _ _ _ λ _ _.
        load-Ensures _ _ _ _
          λ s e. require-Ensures _ _ _ _ λ _. update_state-Keeps l _ s content name e
  execute-Keeps (Instruction.delete_stack region user seed) l =
      load-Ensures _ _ _ _
        λ _ _. load-Ensures _ _ _ _ λ s e. require-Ensures _ _ _ _ λ _. delete_state-Keeps l _ s e
  execute-Keeps (Instruction.create_api_request_signer _ _ _) l =
      load-Ensures _ _ _ _ λ _ _. vacant-Ensures _ _ _ λ _ k. Continues-refl _
  execute-Keeps (Instruction.set_api_request_signer _ _ _ _) l =
      load-Ensures _ _ _ _
        λ _ _. require-Ensures _ _ _ _ λ _. load-Ensures _ _ _ _ λ _ _ k. Continues-refl _
  execute-Keeps (Instruction.create_authorized_usage_signer _ _ _ _ _) l =
      load-Ensures _ _ _ _ λ _ _. require-Ensures _ _ _ _ λ _.
        load-Ensures _ _ _ _
          λ _ _. require-Ensures _ _ _ _ λ _. vacant-Ensures _ _ _ λ _ k. Continues-refl _
  execute-Keeps (Instruction.update_usage a b c d e seed usage) l =
      update_usage-Ensures runtime true a b c d e seed usage l (Keeps l) λ t u k. Continues-refl _
  execute-Keeps (Instruction.withdraw_escrow _ _ _ _) l =
      load-Ensures _ _ _ _
        λ _ _. load-Ensures _ _ _ _ λ _ _. load-Ensures _ _ _ _ λ _ _ k. Continues-refl _

  -- In a build that checks for overflows, whatever transactions are tried, a stack is never taken away or
  -- given to another user, region or seed, a deleted stack stays deleted, and an active one that is not
  -- deleted either is as it was or has a greater revision.
  pub stack_history :
      (is : List Instruction) (l : Ledger T) (k : Pubkey)
      → Continues (HashMap.get l.stacks k) (HashMap.get (transact_all runtime true is l).stacks k)
  unfolding transact_all transact
  stack_history is l =
      for_each-keeps (Keeps l) (transact runtime true)
        (λ i l' h. committed-keeps (Keeps l) l' (execute runtime true i l') h (
          weaken-Ensures (Keeps l') (Keeps l) (execute runtime true i l') (execute-Keeps i l')
            λ l'' g k. Continues-trans _ (HashMap.get l'.stacks k) _ (h k) (g k)))
        is l (λ k. Continues-refl _)
