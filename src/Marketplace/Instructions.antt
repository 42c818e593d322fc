-- ===== src/Marketplace/Instructions.antt =====
-- The instructions on request signers, and transactions: an instruction that fails changes nothing.
pub mod Ensures
pub mod Sound
pub mod StackHistory
pub mod Payment
use mu.Base.{ℕ, Bool, true, false, List, String, ◌==◌, ◌&&◌, nat_key, for_each}
use mu.Base.HashMap
use mu.Marketplace.Usage.{ServiceRates, ServiceUsage}
use mu.Marketplace.Accounts.{
  Pubkey, Seeds, ApiRequestSigner, Ledger, Result, ok, err, constraint, require, load, vacant,
  Runtime,
}
use mu.Marketplace.Program

-- The keys are those that the functions of Program take.
pub data Instruction : Type 0 where
  initialize : Pubkey → Pubkey → ℕ → ℕ → Instruction
  update_provider_deposit : Pubkey → ℕ → Instruction
  create_provider_authorizer : Pubkey → Pubkey → Instruction
  create_provider : Pubkey → Pubkey → Pubkey → String → Instruction
  authorize_provider : Pubkey → Pubkey → Instruction
  create_region : Pubkey → Pubkey → ℕ → String → String → ServiceRates → ℕ → ℕ → Instruction
  create_stack : Pubkey → Pubkey → Pubkey → ℕ → List ℕ → String → Instruction
  update_stack : Pubkey → Pubkey → ℕ → List ℕ → String → Instruction
  delete_stack : Pubkey → Pubkey → ℕ → Instruction
  create_api_request_signer : Pubkey → Pubkey → Pubkey → Instruction
  set_api_request_signer : Bool → Pubkey → Pubkey → Pubkey → Instruction
  create_authorized_usage_signer : Pubkey → Pubkey → Pubkey → Pubkey → Pubkey → Instruction
  update_usage : Pubkey → Pubkey → Pubkey → Pubkey → Pubkey → ℕ → ServiceUsage → Instruction
  withdraw_escrow : Pubkey → Pubkey → Pubkey → ℕ → Instruction

module _ {T : Type 0} (runtime : Runtime T) where
  abbrev request_signer_key : Pubkey → Pubkey → Pubkey → Pubkey
  request_signer_key user signer region =
      runtime.find_program_address (Seeds.request_signer user signer region)

  unfoldable pub add_request_signer : Pubkey → Pubkey → Pubkey → Ledger T → Result (Ledger T)
  add_request_signer user signer region l = load (HashMap.get l.regions region) constraint λ r.
      vacant (HashMap.get l.request_signers (request_signer_key user signer region)) (
        ok (record l {
          request_signers =
              HashMap.insert l.request_signers (request_signer_key user signer region)
                (record { signer = signer; user = user; region = region; active = true });
        }))

  -- `activate_api_request_signer` and `deactivate_api_request_signer`. Only the first needs the
  -- signature of `signer`.
  unfoldable pub set_request_signer : Bool → Pubkey → Pubkey → Pubkey → Ledger T → Result (Ledger T)
  set_request_signer active user signer region l =
      load (HashMap.get l.request_signers (request_signer_key user signer region)) constraint λ a.
        require (((a.user == user) && (a.signer == signer)) && (a.region == region)) constraint (
          load (HashMap.get l.regions region) constraint λ r. ok (record l {
            request_signers =
                HashMap.insert l.request_signers (request_signer_key user signer region)
                  (record a { active = active });
          }))

-- What a transaction leaves.
unfoldable pub committed {ℓ} : {L : Type ℓ} → L → Result L → L
committed l (ok l') = l'
committed l (err e) = l

module _ {T : Type 0} (runtime : Runtime T) (overflow_checks : Bool) where
  unfoldable pub execute : Instruction → Ledger T → Result (Ledger T)
  execute (initialize authority mint rate provider_deposit) l =
      Program.initialize runtime overflow_checks authority mint rate provider_deposit l
  execute (update_provider_deposit authority deposit) l =
      Program.update_provider_deposit runtime overflow_checks authority deposit l
  execute (create_provider_authorizer authority authorizer) l =
      Program.create_provider_authorizer runtime overflow_checks authority authorizer l
  execute (create_provider owner owner_token deposit_token name) l =
      Program.create_provider runtime overflow_checks owner owner_token deposit_token name l
  execute (authorize_provider authorizer owner) l =
      Program.authorize_provider runtime overflow_checks authorizer owner l
  execute (create_region provider owner num name url rates escrow most) l =
      Program.create_region runtime overflow_checks provider owner num name url rates escrow most l
  execute (create_stack provider region user seed content name) l =
      Program.create_stack runtime overflow_checks provider region user seed content name l
  execute (update_stack region user seed content name) l =
      Program.update_stack runtime overflow_checks region user seed content name l
  execute (delete_stack region user seed) l =
      Program.delete_stack runtime overflow_checks region user seed l
  execute (create_api_request_signer user signer region) l =
      add_request_signer runtime user signer region l
  execute (set_api_request_signer active user signer region) l =
      set_request_signer runtime active user signer region l
  execute (create_authorized_usage_signer provider region owner signer account) l =
      Program.create_authorized_usage_signer runtime overflow_checks provider region owner signer
        account l
  execute (update_usage signer commission region account stack seed usage) l =
      Program.update_usage runtime overflow_checks signer commission region account stack seed usage
        l
  execute (withdraw_escrow withdraw_to provider user amount) l =
      Program.withdraw_escrow runtime overflow_checks withdraw_to provider user amount l

  unfoldable pub transact : Instruction → Ledger T → Ledger T
  transact i l = committed l (execute i l)

  -- Transactions, one after the other.
  unfoldable pub transact_all : List Instruction → Ledger T → Ledger T
  transact_all is l = for_each transact is l
