-- ===== src/Marketplace/Tests.antt =====
-- Concrete transactions. The token program's state is the balance of each account.
use mu.Base.{
  ◌≡◌, refl, ℕ, ◌+◌, ◌-◌, ◌*◌, ◌/◌, ◌≤◌, Bool, true, false, Option, none, some, List, [], ◌∷◌,
  arith, ◌==◌, leb, if◌then◌else◌, nat_key,
}
use mu.Base.HashMap
use mu.Marketplace.Arithmetic.{fit, subtract}
use mu.Marketplace.Usage.{
  ServiceRates, ServiceUsage, calc_usage, split_price, wide_price, price, add, shares,
}
use mu.Marketplace.Usage.Price.{
  exact_price, never_overcharged, Fits, calc_usage-exact, split_price-conserves,
}
use mu.Marketplace.Accounts.{
  Pubkey, Seeds, MuState, ProviderRegion, Stack, StackState, AuthorizedUsageSigner, Ledger, Runtime,
  ok,
}
use mu.Marketplace.Program.{update_usage}
use mu.Marketplace.Instructions.{Instruction, transact_all}
use mu.Marketplace.Instructions.StackHistory.{Continues, stack_history}
use mu.Marketplace.Instructions.Sound.{IsSound}
use mu.Marketplace.Instructions.Sound.Steps.{no_accounts, transact_all-IsSound}
use mu.Marketplace.Instructions.Payment.{Moves, Reportable, update_usage_pays}

abbrev address : Seeds → Pubkey
address Seeds.state = 1
address Seeds.deposit = 2
address Seeds.commission = 3
address (Seeds.authorizer a) = 1000 + a
address (Seeds.provider o) = 2000 + o
address (Seeds.region o n) = 3000 + 10 * o + n
address (Seeds.escrow u p) = 10000 + 100 * u + p
address (Seeds.stack u r n) = 4000 + u + r + n
address (Seeds.request_signer u s r) = 20000 + u + s + r
address (Seeds.authorized_signer r) = 5000 + r
address (Seeds.update s r n) = 6000 + s + r + n

abbrev move : Pubkey → Pubkey → Pubkey → ℕ → (Pubkey → ℕ) → Option (Pubkey → ℕ)
move from to authority n t =
    if leb n (t from)
    then some (λ k. if k == from then t from - n else if k == to then t to + n else t k)
    else none

abbrev runtime : Runtime (Pubkey → ℕ)
runtime = record { find_program_address = address; transfer = move }

abbrev rates : ServiceRates
rates = record {
  function_mb_tera_instructions = 3;
  db_gigabyte_months = 1000;
  million_db_reads = 500;
  million_db_writes = 2000;
  million_gateway_requests = 50;
  gigabytes_gateway_traffic = 100;
}

abbrev usage : ServiceUsage
usage = record {
  function_mb_instructions = 5000000000000;
  db_bytes_seconds = 1024 * 1024 * 1024 * 60 * 60 * 24 * 30;
  db_reads = 2000000;
  db_writes = 0;
  gateway_requests = 3000000;
  gateway_traffic_bytes = 5;
}

calc_usage_run : (c : Bool) → calc_usage c rates usage ≡ some 2165
unfolding calc_usage wide_price price add fit
calc_usage_run c = refl

never_overcharged_example : 2165 ≤ exact_price rates usage
never_overcharged_example = never_overcharged true rates usage 2165 (calc_usage_run true)

usage-Fits : Fits rates usage
usage-Fits = record {
  instructions = omega arith;
  storage = omega arith;
  reads = omega arith;
  writes = omega arith;
  requests = omega arith;
  traffic = omega arith;
}

calc_usage-exact_example : calc_usage false rates usage ≡ some (exact_price rates usage)
calc_usage-exact_example = calc_usage-exact false rates usage usage-Fits (omega arith)

split_price-conserves_example : (216 + 1949 ≡ 2165) × (216 * 1000000 ≤ 2165 * 100000)
unfolding split_price shares fit subtract
split_price-conserves_example = split_price-conserves true 100000 2165 (omega arith) 216 1949 refl

abbrev region : ProviderRegion
region = record {
  provider = 2007;
  region_num = 1;
  rates = rates;
  min_escrow_balance = 100;
  max_giga_instructions_per_call = 1;
  name = "r";
  base_url = "u";
}

abbrev stack : Stack
stack = record { user = 9; region = 3071; seed = 1; state = StackState.active 1 "s" [] }

abbrev signer : AuthorizedUsageSigner
signer = record { signer = 21; token_account = 22 }

abbrev mu_state : MuState
mu_state = record {
  authority = 2;
  mint = 3;
  deposit_token = 4;
  commission_token = 5;
  commission_rate_micros = 100000;
  provider_deposit = 10;
}

abbrev ledger : Ledger (Pubkey → ℕ)
ledger = record (no_accounts (λ k. 5000)) {
  mu_state = some mu_state;
  regions = (3071, region) ∷ [];
  stacks = (7081, stack) ∷ [];
  authorized_signers = (8071, signer) ∷ [];
}

abbrev transactions : List Instruction
transactions =
    Instruction.update_stack 3071 9 1 (1 ∷ []) "s"
    ∷ Instruction.delete_stack 3071 9 1
    ∷ Instruction.update_usage 21 5 3071 22 7081 1 usage
    ∷ []

stack_history_example :
    Continues
      (HashMap.get ledger.stacks 7081)
      (HashMap.get (transact_all runtime true transactions ledger).stacks 7081)
stack_history_example = stack_history runtime transactions ledger 7081

transact_all-IsSound_example :
    IsSound (transact_all runtime false transactions (no_accounts (λ k. 0)))
transact_all-IsSound_example = transact_all-IsSound runtime false transactions (λ k. 0)

move-Moves :
    (from to authority : Pubkey)
    → (to == from) ≡ false
    → Moves runtime (λ t k. t k) from to authority
move-Moves from to authority other n t funds = (
  λ k. if k == from then t from - n else if k == to then t to + n else t k,
  ground arith,
  ground arith,
  ground arith,
  λ k a b. ground arith,
)

usage-Reportable :
    Reportable runtime (λ t k. t k) true 3071 7081 4 usage ledger mu_state signer region stack 2165
unfolding HashMap.get
usage-Reportable = record {
  has_state = refl;
  has_signer = refl;
  has_region = refl;
  has_stack = refl;
  in_region = refl;
  is_new = refl;
  costs = calc_usage_run true;
  rate = omega arith;
  small = omega arith;
}

update_usage_pays_example :
    (l' : Ledger (Pubkey → ℕ)) × (update_usage runtime true 21 5 3071 22 7081 4 usage ledger
      ≡ ok l')
    × (l'.tokens 12907 + 2165 ≡ 5000)
    × (l'.tokens 5 ≡ 5000 + 2165 * 100000 / 1000000)
    × (l'.tokens 22 + l'.tokens 5 ≡ 5000 + 5000 + 2165)
    × (HashMap.get l'.usage_updates 16156
        ≡ some (record { region = 3071; stack = 7081; seed = 4; usage = usage }))
update_usage_pays_example =
    update_usage_pays runtime (λ t k. t k) true 3071 7081 4 usage ledger mu_state signer region
      stack 2165 usage-Reportable (move-Moves 12907 22 1 refl) (move-Moves 12907 5 1 refl)
      (λ e. absurd (omega arith)) (λ e. absurd (omega arith)) (λ e. absurd (omega arith))
      (omega arith)
