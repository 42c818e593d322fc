-- ===== src/Marketplace/Accounts.antt =====
-- The accounts of the on-chain program, and the checks that Anchor makes on them. The field `bump` is
-- left out: it belongs to an account's address.
use mu.Base.{ℕ, Bool, Option, none, some, List, String, if◌then◌else◌}
use mu.Base.HashMap.{HashMap}
use mu.Marketplace.Usage.{ServiceRates, ServiceUsage}

abbrev pub Pubkey : Type 0
Pubkey = ℕ

-- The seeds of the program's addresses.
pub data Seeds : Type 0 where
  state deposit commission : Seeds
  authorizer : Pubkey → Seeds
  provider : Pubkey → Seeds
  region : Pubkey → ℕ → Seeds
  escrow : Pubkey → Pubkey → Seeds
  stack : Pubkey → Pubkey → ℕ → Seeds
  request_signer : Pubkey → Pubkey → Pubkey → Seeds
  authorized_signer : Pubkey → Seeds
  update : Pubkey → Pubkey → ℕ → Seeds

pub record MuState : Type 0 where
  pub authority : Pubkey
  pub mint : Pubkey
  pub deposit_token : Pubkey
  pub commission_token : Pubkey
  pub commission_rate_micros : ℕ
  pub provider_deposit : ℕ

pub record ProviderAuthorizer : Type 0 where
  pub authorizer : Pubkey

pub record Provider : Type 0 where
  pub owner : Pubkey
  pub authorized : Bool
  pub name : String
  pub deposit : ℕ

pub record ProviderRegion : Type 0 where
  pub provider : Pubkey
  pub region_num : ℕ
  pub rates : ServiceRates
  pub min_escrow_balance : ℕ
  pub max_giga_instructions_per_call : ℕ
  pub name : String
  pub base_url : String

pub data StackState : Type 0 where
  active : ℕ → String → List ℕ → StackState
  deleted : StackState

pub record Stack : Type 0 where
  pub user : Pubkey
  pub region : Pubkey
  pub seed : ℕ
  pub state : StackState

pub record ApiRequestSigner : Type 0 where
  pub signer : Pubkey
  pub user : Pubkey
  pub region : Pubkey
  pub active : Bool

pub record AuthorizedUsageSigner : Type 0 where
  pub signer : Pubkey
  pub token_account : Pubkey

pub record UsageUpdate : Type 0 where
  pub region : Pubkey
  pub stack : Pubkey
  pub seed : ℕ
  pub usage : ServiceUsage

-- The program's accounts by their addresses, and the state `T` of the token program.
pub record Ledger (T : Type 0) : Type 0 where
  pub mu_state : Option MuState
  pub authorizers : HashMap Pubkey ProviderAuthorizer
  pub providers : HashMap Pubkey Provider
  pub regions : HashMap Pubkey ProviderRegion
  pub stacks : HashMap Pubkey Stack
  pub request_signers : HashMap Pubkey ApiRequestSigner
  pub authorized_signers : HashMap Pubkey AuthorizedUsageSigner
  pub usage_updates : HashMap Pubkey UsageUpdate
  pub tokens : T

-- `Error`, and the failures that end a transaction without one.
pub data Error : Type 0 where
  provider_not_authorized commission_rate_out_of_bounds cannot_operate_on_deleted_stack : Error
  constraint token_error panicked : Error

pub data Result {ℓ} (A : Type ℓ) : Type ℓ where
  ok : A → Result A
  err : Error → Result A

unfoldable pub require {ℓ} : {A : Type ℓ} → Bool → Error → Result A → Result A
require condition e r = if condition then r else err e

-- The value of an account, or of a call, that must be there.
unfoldable pub load {ℓ κ} : {A : Type ℓ} {B : Type κ} → Option A → Error → (A → Result B) → Result B
load none e f = err e
load (some a) e f = f a

-- `init`: there is no such account yet.
unfoldable pub vacant {ℓ κ} : {A : Type ℓ} {B : Type κ} → Option A → Result B → Result B
vacant none r = r
vacant (some a) r = err constraint

-- What Solana and the SPL token program do for the program: derive an address, and move tokens from an
-- account to another with the signature of its authority.
pub record Runtime (T : Type 0) : Type 0 where
  pub find_program_address : Seeds → Pubkey
  pub transfer : Pubkey → Pubkey → Pubkey → ℕ → T → Option T
