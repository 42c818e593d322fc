-- ===== src/Marketplace/Instructions/Sound/Steps.antt =====
-- Each instruction, and then all transactions, against `IsSound`.
use mu.Base.{◌≡◌, refl, ℕ, Bool, none, List, [], String, nat_key, for_each-keeps}
use mu.Base.HashMap
use mu.Marketplace.Accounts.{Pubkey, Ledger, Runtime}
use mu.Marketplace.Usage.{ServiceRates}
use mu.Marketplace.Program.{
  create_stack, update_stack, delete_stack, initialize, update_provider_deposit,
  create_provider_authorizer, create_region, create_authorized_usage_signer, withdraw_escrow,
}
use mu.Marketplace.Instructions.{
  Instruction, execute, transact, transact_all, add_request_signer, set_request_signer,
}
use mu.Marketplace.Instructions.Ensures.{
  Ensures, require-Ensures, load-Ensures, vacant-Ensures, committed-keeps, update_usage-Ensures,
}
use mu.Marketplace.Instructions.Sound.{
  RegionOk, StackOk, StackOk-insert, IsSound, le_of_leb, update_state-IsSound, delete_state-IsSound,
  authorize_provider-IsSound, create_provider-IsSound,
}

-- The program is deployed, and nothing else done.
abbrev pub no_accounts : {T : Type 0} → T → Ledger T
no_accounts t = record {
  mu_state = none;
  authorizers = [];
  providers = [];
  regions = [];
  stacks = [];
  request_signers = [];
  authorized_signers = [];
  usage_updates = [];
  tokens = t;
}

module _ {T : Type 0} (runtime : Runtime T) (c : Bool) where
  create_region-IsSound :
      (l : Ledger T) (v : IsSound l) (provider owner : Pubkey) (num : ℕ) (name url : String)
      → (rates : ServiceRates) (escrow most : ℕ)
      → Ensures IsSound (create_region runtime c provider owner num name url rates escrow most l)
  unfolding create_region
  create_region-IsSound l v provider owner num name url rates escrow most =
      load-Ensures _ _ _ _ λ p e. require-Ensures _ _ _ _ λ _. vacant-Ensures _ _ _ λ _.
        require-Ensures _ _ _ _ λ authorized. record {
          rate = v.rate;
          regions =
              HashMap.insert-keeps (λ k x. RegionOk l.providers x) l.regions v.regions _ _
                (p, e, authorized);
          stacks = λ k. StackOk-insert l.regions _ _ _ (v.stacks k);
        }

  create_stack-IsSound :
      (l : Ledger T) (v : IsSound l) (provider region user : Pubkey) (seed : ℕ)
      → (content : List ℕ) (name : String)
      → Ensures IsSound (create_stack runtime c provider region user seed content name l)
  unfolding create_stack
  create_stack-IsSound l v provider region user seed content name = load-Ensures _ _ _ _ λ _ _.
      load-Ensures _ _ _ _ λ r e. require-Ensures _ _ _ _ λ _. vacant-Ensures _ _ _ λ _.
        require-Ensures _ _ _ _ λ _. record {
          rate = v.rate;
          regions = v.regions;
          stacks = HashMap.insert-keeps (λ k x. StackOk l.regions x) l.stacks v.stacks _ _ (r, e);
        }

  same-IsSound :
      (l l' : Ledger T)
      → l'.mu_state ≡ l.mu_state
      → l'.providers ≡ l.providers
      → l'.regions ≡ l.regions
      → l'.stacks ≡ l.stacks
      → IsSound l
      → IsSound l'
  same-IsSound l l' state providers regions stacks v = record {
    rate = rw state v.rate;
    regions = λ k. rw providers (rw regions (v.regions k));
    stacks = λ k. rw regions (rw stacks (v.stacks k));
  }

  execute-IsSound :
      (i : Instruction) (l : Ledger T) → IsSound l → Ensures IsSound (execute runtime c i l)
  unfolding execute initialize update_provider_deposit create_provider_authorizer update_stack
      delete_stack add_request_signer set_request_signer create_authorized_usage_signer
      withdraw_escrow
  execute-IsSound (Instruction.initialize _ _ rate _) l v = vacant-Ensures _ _ _ λ _.
      require-Ensures _ _ _ _
        λ h. record { rate = le_of_leb rate 1000000 h; regions = v.regions; stacks = v.stacks }
  execute-IsSound (Instruction.update_provider_deposit _ _) l v =
      load-Ensures _ _ _ _
        λ s e. record { rate = rw e at v.rate; regions = v.regions; stacks = v.stacks }
  execute-IsSound (Instruction.create_provider_authorizer _ _) l v = load-Ensures _ _ _ _ λ _ _.
      require-Ensures _ _ _ _ λ _. vacant-Ensures _ _ _ λ _. same-IsSound l _ refl refl refl refl v
  execute-IsSound (Instruction.create_provider owner owner_token deposit_token name) l v =
      create_provider-IsSound runtime c l v owner owner_token deposit_token name
  execute-IsSound (Instruction.authorize_provider authorizer owner) l v =
      authorize_provider-IsSound runtime c l v authorizer owner
  execute-IsSound (Instruction.create_region provider owner num name url rates escrow most) l v =
      create_region-IsSound l v provider owner num name url rates escrow most
  execute-IsSound (Instruction.create_stack provider region user seed content name) l v =
      create_stack-IsSound l v provider region user seed content name
  execute-IsSound (Instruction.update_stack region user seed content name) l v =
      load-Ensures _ _ _ _ λ _ _. load-Ensures _ _ _ _ λ s e.
        require-Ensures _ _ _ _ λ _. update_state-IsSound runtime c l v _ s content name e s.state
  execute-IsSound (Instruction.delete_stack region user seed) l v = load-Ensures _ _ _ _ λ _ _.
      load-Ensures _ _ _ _
        λ s e. require-Ensures _ _ _ _ λ _. delete_state-IsSound runtime c l v _ s e s.state
  execute-IsSound (Instruction.create_api_request_signer _ _ _) l v =
      load-Ensures _ _ _ _ λ _ _. vacant-Ensures _ _ _ λ _. same-IsSound l _ refl refl refl refl v
  execute-IsSound (Instruction.set_api_request_signer _ _ _ _) l v = load-Ensures _ _ _ _ λ _ _.
      require-Ensures _ _ _ _
        λ _. load-Ensures _ _ _ _ λ _ _. same-IsSound l _ refl refl refl refl v
  execute-IsSound (Instruction.create_authorized_usage_signer _ _ _ _ _) l v =
      load-Ensures _ _ _ _ λ _ _. require-Ensures _ _ _ _ λ _. load-Ensures _ _ _ _ λ _ _.
        require-Ensures _ _ _ _
          λ _. vacant-Ensures _ _ _ λ _. same-IsSound l _ refl refl refl refl v
  execute-IsSound (Instruction.update_usage a b d e f seed usage) l v =
      update_usage-Ensures runtime c a b d e f seed usage l IsSound
        λ t u. same-IsSound l _ refl refl refl refl v
  execute-IsSound (Instruction.withdraw_escrow _ _ _ _) l v = load-Ensures _ _ _ _ λ _ _.
      load-Ensures _ _ _ _ λ _ _. load-Ensures _ _ _ _ λ _ _. same-IsSound l _ refl refl refl refl v

  -- Whatever transactions are tried from the program's deployment on, the commission rate is at most a
  -- million micros, each region belongs to an authorized provider, and each stack stands in a region.
  pub transact_all-IsSound :
      (is : List Instruction) (t : T) → IsSound (transact_all runtime c is (no_accounts t))
  unfolding transact_all transact HashMap.get
  transact_all-IsSound is t =
      for_each-keeps IsSound (transact runtime c)
        (λ i l v. committed-keeps IsSound l (execute runtime c i l) v (execute-IsSound i l v)) is
        (no_accounts t) (record { rate = tt; regions = λ k. tt; stacks = λ k. tt })
