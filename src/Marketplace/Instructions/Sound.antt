-- ===== src/Marketplace/Instructions/Sound.antt =====
-- What holds of the accounts after any transactions.
pub mod Steps
use mu.Base.{
  String, ◌≡◌, refl, sym, ◌∙◌, inl, inr, ℕ, ◌≤◌, Bool, true, false, Option, none, some, List, arith,
  ◌==◌, if◌then◌else◌, nat_key, Bool-cases, eqb, eqb_iff, leb, ltb, for_each, for_each-keeps,
}
use mu.Base.HashMap
use mu.Base.HashMap.{HashMap}
use mu.Marketplace.Accounts.{
  Pubkey, Seeds, MuState, Provider, ProviderRegion, Stack, StackState, active, deleted, Ledger,
  Result, Runtime,
}
use mu.Marketplace.Program.{
  create_stack, update_stack, update_state, delete_stack, delete_state, initialize, create_provider,
  update_provider_deposit, create_provider_authorizer, authorize_provider, create_region,
  create_authorized_usage_signer, withdraw_escrow, put_stack,
}
use mu.Marketplace.Instructions.{
  Instruction, execute, transact, transact_all, committed, add_request_signer, set_request_signer,
}
use mu.Marketplace.Instructions.Ensures.{
  Ensures, require-Ensures, load-Ensures, vacant-Ensures, committed-keeps, update_usage-Ensures,
}

-- The provider at an address is authorized.
abbrev pub IsAuthorized : HashMap Pubkey Provider → Pubkey → Type 0
IsAuthorized ps k = (p : Provider) × (HashMap.get ps k ≡ some p) × (p.authorized ≡ true)

abbrev pub RateOk : Option MuState → Type 0
RateOk none = Unit
RateOk (some s) = s.commission_rate_micros ≤ 1000000

abbrev pub RegionOk : HashMap Pubkey Provider → Option ProviderRegion → Type 0
RegionOk ps none = Unit
RegionOk ps (some r) = IsAuthorized ps r.provider

abbrev pub StackOk : HashMap Pubkey ProviderRegion → Option Stack → Type 0
StackOk rs none = Unit
StackOk rs (some s) = (r : ProviderRegion) × (HashMap.get rs s.region ≡ some r)

-- The commission is at most the whole price, a region belongs to an authorized provider, and a stack
-- stands in a region.
pub record IsSound {T : Type 0} (l : Ledger T) : Type 0 where
  pub rate : RateOk l.mu_state
  pub regions : (k : Pubkey) → RegionOk l.providers (HashMap.get l.regions k)
  pub stacks : (k : Pubkey) → StackOk l.regions (HashMap.get l.stacks k)

-- A provider is put at an address where none was, or it is authorized if the one before was.
module _ (ps : HashMap Pubkey Provider) (k : Pubkey) (v : Provider)
    (keep : (p : Provider)
      → HashMap.get ps k ≡ some p
      → p.authorized ≡ true
      → v.authorized ≡ true) where
  IsAuthorized-insert : (j : Pubkey) → IsAuthorized ps j → IsAuthorized (HashMap.insert ps k v) j
  IsAuthorized-insert j (p, e, h) = rw (HashMap.get-insert ps k j v) (elim (Bool-cases (eqb k j)) [
    | inl here ↦ rw here (v, refl, keep p (rw ((eqb_iff k j).0 here) e) h)
    | inr there ↦ rw there (p, e, h)
  ])

  RegionOk-insert : (r : Option ProviderRegion) → RegionOk ps r → RegionOk (HashMap.insert ps k v) r
  RegionOk-insert none h = tt
  RegionOk-insert (some r) h = IsAuthorized-insert r.provider h

pub StackOk-insert :
    (rs : HashMap Pubkey ProviderRegion) (k : Pubkey) (r : ProviderRegion) (s : Option Stack)
    → StackOk rs s
    → StackOk (HashMap.insert rs k r) s
StackOk-insert rs k r none h = tt
StackOk-insert rs k r (some s) (q, e) =
    rw (HashMap.get-insert rs k s.region r) (elim (Bool-cases (eqb k s.region)) [
      | inl here ↦ rw here (r, refl)
      | inr there ↦ rw there (q, e)
    ])

pub le_of_leb : (n m : ℕ) → leb n m ≡ true → n ≤ m
le_of_leb n m h = ground arith

module _ {T : Type 0} (runtime : Runtime T) (c : Bool) (l : Ledger T) (v : IsSound l) where
  pub put_stack-IsSound :
      (key : Pubkey) (s : Stack) (state : StackState)
      → HashMap.get l.stacks key ≡ some s
      → Ensures IsSound (put_stack runtime c key s l state)
  put_stack-IsSound key s state e = record {
    rate = v.rate;
    regions = v.regions;
    stacks =
        HashMap.insert-keeps (λ k x. StackOk l.regions x) l.stacks v.stacks key
          (record s { state = state }) (rw e at (v.stacks key));
  }

  pub update_state-IsSound :
      (key : Pubkey) (s : Stack) (content : List ℕ) (name : String)
      → HashMap.get l.stacks key ≡ some s
      → (state : StackState)
      → Ensures IsSound (update_state runtime c content name state (put_stack runtime c key s l))
  unfolding update_state
  update_state-IsSound key s content name e deleted = tt
  update_state-IsSound key s content name e (active _ _ _) =
      load-Ensures _ _ _ _ λ next _. put_stack-IsSound key s _ e

  pub delete_state-IsSound :
      (key : Pubkey) (s : Stack)
      → HashMap.get l.stacks key ≡ some s
      → (state : StackState)
      → Ensures IsSound (delete_state runtime c state (put_stack runtime c key s l))
  unfolding delete_state
  delete_state-IsSound key s e deleted = tt
  delete_state-IsSound key s e (active _ _ _) = put_stack-IsSound key s deleted e

  pub authorize_provider-IsSound :
      (authorizer owner : Pubkey)
      → Ensures IsSound (authorize_provider runtime c authorizer owner l)
  unfolding authorize_provider
  authorize_provider-IsSound authorizer owner = load-Ensures _ _ _ _ λ _ _.
      require-Ensures _ _ _ _ λ _. load-Ensures _ _ _ _ λ p e. record {
        rate = v.rate;
        regions = λ k.
            RegionOk-insert l.providers _ (record p { authorized = true }) (λ _ _ _. refl) _
              (v.regions k);
        stacks = v.stacks;
      }

  pub create_provider-IsSound :
      (owner owner_token deposit_token : Pubkey) (name : String)
      → Ensures IsSound (create_provider runtime c owner owner_token deposit_token name l)
  unfolding create_provider
  create_provider-IsSound owner owner_token deposit_token name = load-Ensures _ _ _ _ λ _ _.
      require-Ensures _ _ _ _ λ _. vacant-Ensures _ _ _ λ fresh. load-Ensures _ _ _ _ λ _ _.
        record {
          rate = v.rate;
          regions = λ k. RegionOk-insert l.providers _ _ (λ p e h. cc) _ (v.regions k);
          stacks = v.stacks;
        }
