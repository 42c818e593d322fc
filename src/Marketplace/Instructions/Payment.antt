-- ===== src/Marketplace/Instructions/Payment.antt =====
-- The tokens that `update_usage` moves.
use mu.Base.{
  ◌≡◌, ◌≢◌, refl, sym, ℕ, ◌+◌, ◌-◌, ◌*◌, ◌/◌, ◌≤◌, ◌<◌, Bool, none, some, arith, nat_key, eqb_iff,
}
use native.Mathlib.Nat.{mul-le-mul, le_refl}
use mu.Base.HashMap
use mu.Marketplace.Arithmetic.{u64, fit-small, subtract-le}
use mu.Marketplace.Usage.{ServiceUsage, calc_usage, split_price, shares}
use mu.Marketplace.Accounts.{
  Pubkey, Seeds, MuState, ProviderRegion, Stack, AuthorizedUsageSigner, Ledger, ok, load, require,
  vacant, Runtime,
}
use mu.Marketplace.Program.{update_usage, pay}

-- `split_price` without an overflow.
split_price-exact :
    (overflow_checks : Bool) (rate tokens : ℕ)
    → rate ≤ 1000000
    → tokens * rate < u64
    → split_price overflow_checks rate tokens
      ≡ some (tokens * rate / 1000000, tokens - tokens * rate / 1000000)
unfolding split_price shares
split_price-exact c rate tokens bound small =
    let most : tokens * rate ≤ tokens * 1000000 = mul-le-mul (le_refl tokens) bound in
    rw (fit-small c u64 (tokens * rate) small)
      (rw (subtract-le c u64 tokens (tokens * rate / 1000000) (omega arith)) refl)

module _ {T : Type 0} (runtime : Runtime T) (balance : T → Pubkey → ℕ) where
  -- A transfer between two accounts of the token program, if the first has the tokens.
  abbrev pub Moves : Pubkey → Pubkey → Pubkey → Type 0
  Moves from to authority =
      (n : ℕ) (t : T)
      → n ≤ balance t from
      → (t' : T) × (runtime.transfer from to authority n t ≡ some t')
        × (balance t' from + n ≡ balance t from)
        × (balance t' to ≡ balance t to + n)
        × ((k : Pubkey) → k ≢ from → k ≢ to → balance t' k ≡ balance t k)

  -- A signer that the region's owner has authorized may report the usage, which costs `tokens`.
  pub record Reportable (overflow_checks : Bool) (region stack : Pubkey) (update_seed : ℕ)
      (usage : ServiceUsage) (l : Ledger T) (s : MuState) (a : AuthorizedUsageSigner)
      (r : ProviderRegion) (k : Stack) (tokens : ℕ) : Type 0 where
    pub has_state : l.mu_state ≡ some s
    pub has_signer :
        HashMap.get l.authorized_signers
          (runtime.find_program_address (Seeds.authorized_signer region))
        ≡ some a
    pub has_region : HashMap.get l.regions region ≡ some r
    pub has_stack : HashMap.get l.stacks stack ≡ some k
    pub in_region : k.region ≡ region
    pub is_new :
        HashMap.get l.usage_updates
          (runtime.find_program_address (Seeds.update stack region update_seed))
        ≡ none
    pub costs : calc_usage overflow_checks r.rates usage ≡ some tokens
    pub rate : s.commission_rate_micros ≤ 1000000
    pub small : tokens * s.commission_rate_micros < u64

  module _ (overflow_checks : Bool) (region stack : Pubkey) (update_seed : ℕ) (usage : ServiceUsage)
      (l : Ledger T) (s : MuState) (a : AuthorizedUsageSigner) (r : ProviderRegion) (k : Stack)
      (tokens : ℕ) where
    abbrev pub escrow : Pubkey
    escrow = runtime.find_program_address (Seeds.escrow k.user r.provider)

    -- If a usage may be reported and the escrow account holds its price, then the update succeeds: the
    -- escrow account pays the price, the provider and the commission account get their shares, which
    -- add up to the price, and the update is recorded.
    pub update_usage_pays :
        Reportable overflow_checks region stack update_seed usage l s a r k tokens
        → Moves escrow a.token_account (runtime.find_program_address Seeds.state)
        → Moves escrow s.commission_token (runtime.find_program_address Seeds.state)
        → a.token_account ≢ escrow
        → s.commission_token ≢ escrow
        → a.token_account ≢ s.commission_token
        → tokens ≤ balance l.tokens escrow
        → (l' : Ledger T) × (update_usage runtime overflow_checks a.signer s.commission_token region
              a.token_account stack update_seed usage l
            ≡ ok l')
          × (balance l'.tokens escrow + tokens ≡ balance l.tokens escrow)
          × (balance l'.tokens s.commission_token
              ≡ balance l.tokens s.commission_token + tokens * s.commission_rate_micros / 1000000)
          × (balance l'.tokens a.token_account + balance l'.tokens s.commission_token
              ≡ balance l.tokens a.token_account + balance l.tokens s.commission_token + tokens)
          × (HashMap.get l'.usage_updates
                (runtime.find_program_address (Seeds.update stack region update_seed))
              ≡ some (record { region = region; stack = stack; seed = update_seed; usage = usage }))
    unfolding update_usage pay load require vacant
    update_usage_pays h moves moves' apart apart' distinct funds =
        let commission = tokens * s.commission_rate_micros / 1000000 in
        let most : tokens * s.commission_rate_micros ≤ tokens * 1000000 =
          mul-le-mul (le_refl tokens) h.rate in
        let (t, sent, debit, credit, others) = moves (tokens - commission) l.tokens (omega arith) in
        let (t', sent', debit', credit', others') = moves' commission t (omega arith) in
        let kept = others s.commission_token apart' (λ e. distinct (sym e)) in
        let kept' = others' a.token_account apart distinct in
        (
          record l {
            tokens = t';
            usage_updates =
                HashMap.insert l.usage_updates
                  (runtime.find_program_address (Seeds.update stack region update_seed))
                  (record { region = region; stack = stack; seed = update_seed; usage = usage });
          },
          rw (h.has_state, load)
              (rw ((eqb_iff s.commission_token s.commission_token).1 refl) (
                rw (h.has_signer, load)
                  (rw ((eqb_iff a.signer a.signer).1 refl) (
                    rw ((eqb_iff a.token_account a.token_account).1 refl) (
                      rw (h.has_region, load)
                        (rw (h.has_stack, load)
                          (rw ((eqb_iff k.region region).1 h.in_region) (
                            rw (h.is_new, vacant)
                              (rw (h.costs, load)
                                (rw
                                  (
                                    split_price-exact _ s.commission_rate_micros tokens h.rate
                                        h.small,
                                    load,
                                  )
                                  (rw (sent, load) (rw (sent', load) refl)))))))))))),
          omega arith,
          omega arith,
          omega arith,
          HashMap.get-insert_self l.usage_updates _ _,
        )
