-- ===== src/Marketplace/Program.antt =====
-- The instructions of the on-chain program. The keys that come first are those of the accounts in the
-- instruction's `Context`, of which `user`, `owner`, `authority`, `authorizer` and `signer` have signed;
-- the instruction's own arguments follow. Accounts with seeds stand at the address of their seeds.
use mu.Base.{ℕ, ◌+◌, Bool, true, false, some, List, String, ◌==◌, ◌&&◌, leb, nat_key}
use mu.Base.HashMap
use mu.Marketplace.Arithmetic.{u32, fit}
use mu.Marketplace.Usage.{ServiceRates, ServiceUsage, calc_usage, split_price}
use mu.Marketplace.Accounts.{
  Pubkey, Seeds, Stack, StackState, active, deleted, Ledger, Result, ok, err,
  provider_not_authorized, commission_rate_out_of_bounds, cannot_operate_on_deleted_stack,
  constraint, token_error, panicked, require, load, vacant, Runtime,
}

module _ {T : Type 0} (runtime : Runtime T) (overflow_checks : Bool) where
  abbrev pda : Seeds → Pubkey
  pda = runtime.find_program_address

  unfoldable pub initialize : Pubkey → Pubkey → ℕ → ℕ → Ledger T → Result (Ledger T)
  initialize authority mint commission_rate_micros provider_deposit l = vacant l.mu_state (
      require (leb commission_rate_micros 1000000) commission_rate_out_of_bounds (
        ok (record l {
          mu_state = some (record {
            authority = authority;
            mint = mint;
            deposit_token = pda Seeds.deposit;
            commission_token = pda Seeds.commission;
            commission_rate_micros = commission_rate_micros;
            provider_deposit = provider_deposit;
          });
        })))

  -- The authority signs, but no check compares it with that of the state.
  unfoldable pub update_provider_deposit : Pubkey → ℕ → Ledger T → Result (Ledger T)
  update_provider_deposit authority provider_deposit l =
      load l.mu_state constraint
        λ s. ok (record l { mu_state = some (record s { provider_deposit = provider_deposit }) })

  unfoldable pub create_provider_authorizer : Pubkey → Pubkey → Ledger T → Result (Ledger T)
  create_provider_authorizer authority authorizer l = load l.mu_state constraint λ s.
      require (s.authority == authority) constraint (
        vacant (HashMap.get l.authorizers (pda (Seeds.authorizer authorizer))) (
          ok (record l {
            authorizers =
                HashMap.insert l.authorizers (pda (Seeds.authorizer authorizer))
                  (record { authorizer = authorizer });
          })))

  unfoldable pub create_provider : Pubkey → Pubkey → Pubkey → String → Ledger T → Result (Ledger T)
  create_provider owner owner_token deposit_token name l = load l.mu_state constraint λ s.
      require (s.deposit_token == deposit_token) constraint (
        vacant (HashMap.get l.providers (pda (Seeds.provider owner))) (
          load (runtime.transfer owner_token deposit_token owner s.provider_deposit l.tokens)
            token_error
            λ tokens. ok (record l {
              tokens = tokens;
              providers = HashMap.insert l.providers (pda (Seeds.provider owner)) (record {
                owner = owner;
                authorized = false;
                name = name;
                deposit = s.provider_deposit;
              });
            })))

  unfoldable pub authorize_provider : Pubkey → Pubkey → Ledger T → Result (Ledger T)
  authorize_provider authorizer owner l =
      load (HashMap.get l.authorizers (pda (Seeds.authorizer authorizer))) constraint λ a.
        require (a.authorizer == authorizer) constraint (
          load (HashMap.get l.providers (pda (Seeds.provider owner))) constraint λ p. ok (record l {
            providers =
                HashMap.insert l.providers (pda (Seeds.provider owner))
                  (record p { authorized = true });
          }))

  -- The region, but for its provider and its number.
  unfoldable pub create_region :
      Pubkey → Pubkey → ℕ → String → String → ServiceRates → ℕ → ℕ → Ledger T → Result (Ledger T)
  create_region provider owner region_num name base_url rates min_escrow max_instructions l =
      load (HashMap.get l.providers provider) constraint λ p.
        require (p.owner == owner) constraint (
          vacant (HashMap.get l.regions (pda (Seeds.region owner region_num))) (
            require p.authorized provider_not_authorized (
              ok (record l {
                regions = HashMap.insert l.regions (pda (Seeds.region owner region_num)) (record {
                  provider = provider;
                  region_num = region_num;
                  rates = rates;
                  min_escrow_balance = min_escrow;
                  max_giga_instructions_per_call = max_instructions;
                  name = name;
                  base_url = base_url;
                });
              }))))

  unfoldable pub create_stack :
      Pubkey → Pubkey → Pubkey → ℕ → List ℕ → String → Ledger T → Result (Ledger T)
  create_stack provider region user stack_seed stack_data name l =
      load (HashMap.get l.providers provider) constraint λ p.
        load (HashMap.get l.regions region) constraint λ r.
          require (r.provider == provider) constraint (
            vacant (HashMap.get l.stacks (pda (Seeds.stack user region stack_seed))) (
              require p.authorized provider_not_authorized (
                ok (record l {
                  stacks =
                      HashMap.insert l.stacks (pda (Seeds.stack user region stack_seed)) (record {
                        user = user;
                        region = region;
                        seed = stack_seed;
                        state = active 1 name stack_data;
                      });
                }))))

  unfoldable pub update_state :
      List ℕ → String → StackState → (StackState → Result (Ledger T)) → Result (Ledger T)
  update_state stack_data name deleted done = err cannot_operate_on_deleted_stack
  update_state stack_data name (active revision _ _) done =
      load (fit overflow_checks u32 (revision + 1)) panicked
        λ next. done (active next name stack_data)

  abbrev pub put_stack : Pubkey → Stack → Ledger T → StackState → Result (Ledger T)
  put_stack key s l state =
      ok (record l { stacks = HashMap.insert l.stacks key (record s { state = state }) })

  unfoldable pub update_stack : Pubkey → Pubkey → ℕ → List ℕ → String → Ledger T → Result (Ledger T)
  update_stack region user stack_seed stack_data name l =
      load (HashMap.get l.regions region) constraint λ r.
        load (HashMap.get l.stacks (pda (Seeds.stack user region stack_seed))) constraint λ s.
          require (s.user == user) constraint (
            update_state stack_data name s.state
              (put_stack (pda (Seeds.stack user region stack_seed)) s l))

  unfoldable pub delete_state : StackState → (StackState → Result (Ledger T)) → Result (Ledger T)
  delete_state deleted done = err cannot_operate_on_deleted_stack
  delete_state (active _ _ _) done = done deleted

  unfoldable pub delete_stack : Pubkey → Pubkey → ℕ → Ledger T → Result (Ledger T)
  delete_stack region user stack_seed l = load (HashMap.get l.regions region) constraint λ r.
      load (HashMap.get l.stacks (pda (Seeds.stack user region stack_seed))) constraint λ s.
        require (s.user == user) constraint
          (delete_state s.state (put_stack (pda (Seeds.stack user region stack_seed)) s l))

  unfoldable pub create_authorized_usage_signer :
      Pubkey → Pubkey → Pubkey → Pubkey → Pubkey → Ledger T → Result (Ledger T)
  create_authorized_usage_signer provider region owner signer token_account l =
      load (HashMap.get l.providers provider) constraint λ p.
        require (p.owner == owner) constraint (
          load (HashMap.get l.regions region) constraint λ r.
            require (r.provider == provider) constraint (
              vacant (HashMap.get l.authorized_signers (pda (Seeds.authorized_signer region))) (
                ok (record l {
                  authorized_signers =
                      HashMap.insert l.authorized_signers (pda (Seeds.authorized_signer region))
                        (record { signer = signer; token_account = token_account });
                }))))

  -- The two transfers out of the escrow account, the provider's share first.
  unfoldable pub pay :
      Pubkey → Pubkey → Pubkey → (ℕ × ℕ) → T → (T → Result (Ledger T)) → Result (Ledger T)
  pay escrow_account token_account commission_token (commission_tokens, provider_tokens) t done =
      load (runtime.transfer escrow_account token_account (pda Seeds.state) provider_tokens t)
        token_error
        λ t'.
          load
            (runtime.transfer escrow_account commission_token (pda Seeds.state) commission_tokens
              t')
            token_error done

  unfoldable pub update_usage :
      Pubkey → Pubkey → Pubkey → Pubkey → Pubkey → ℕ → ServiceUsage → Ledger T → Result (Ledger T)
  update_usage signer commission_token region token_account stack update_seed usage l =
      load l.mu_state constraint λ s. require (s.commission_token == commission_token) constraint (
        load (HashMap.get l.authorized_signers (pda (Seeds.authorized_signer region))) constraint
          λ a. require ((a.signer == signer) && (a.token_account == token_account)) constraint (
            load (HashMap.get l.regions region) constraint λ r.
              load (HashMap.get l.stacks stack) constraint λ k.
                require (k.region == region) constraint (
                  vacant (HashMap.get l.usage_updates (pda (Seeds.update stack region update_seed)))
                    (load (calc_usage overflow_checks r.rates usage) panicked λ usage_tokens.
                      load (split_price overflow_checks s.commission_rate_micros usage_tokens)
                        panicked
                        λ parts.
                          pay (pda (Seeds.escrow k.user r.provider)) token_account commission_token
                            parts l.tokens
                            λ t. ok (record l {
                              tokens = t;
                              usage_updates =
                                  HashMap.insert l.usage_updates
                                    (pda (Seeds.update stack region update_seed))
                                    (record {
                                      region = region;
                                      stack = stack;
                                      seed = update_seed;
                                      usage = usage;
                                    });
                            })))))

  unfoldable pub withdraw_escrow : Pubkey → Pubkey → Pubkey → ℕ → Ledger T → Result (Ledger T)
  withdraw_escrow withdraw_to provider user amount l = load l.mu_state constraint λ s.
      load (HashMap.get l.providers provider) constraint λ p.
        load
          (runtime.transfer (pda (Seeds.escrow user provider)) withdraw_to (pda Seeds.state) amount
            l.tokens)
          token_error λ t. ok (record l { tokens = t })
