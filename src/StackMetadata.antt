-- ===== src/StackMetadata.antt =====
-- executor/src/stack.rs: a stack as the executor knows it, with what the blockchain says of it.
use mu.Base.{ℕ, String}
use mu.MuStack.{StackId, StackOwner, Stack}

pub record SolanaStackMetadata : Type 0 where
  pub account_id : ℕ
  pub owner : ℕ

pub data StackMetadata : Type 0 where
  solana : SolanaStackMetadata → StackMetadata

abbrev pub metadata_id : StackMetadata → StackId
metadata_id (solana m) = m.account_id

abbrev pub metadata_owner : StackMetadata → StackOwner
metadata_owner (solana m) = m.owner

pub record StackWithMetadata : Type 0 where
  pub stack : Stack
  pub name : String
  pub revision : ℕ
  pub metadata : StackMetadata

abbrev pub id : StackWithMetadata → StackId
id s = metadata_id s.metadata

abbrev pub owner : StackWithMetadata → StackOwner
owner s = metadata_owner s.metadata

-- `ApiRequestSigner::Solana`, the only variant of its type.
abbrev pub ApiRequestSigner : Type 0
ApiRequestSigner = ℕ

-- `StackRemovalMode` of blockchain_monitor.rs.
pub data StackRemovalMode : Type 0 where
  temporary permanent : StackRemovalMode
