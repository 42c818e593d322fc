-- ===== src/RequestSignerCache.antt =====
-- executor/src/stack/request_signer_cache.rs: which signers may sign requests for a stack.
pub mod History
pub mod Tests
use mu.Base.{
  Bool, true, false, Option, none, some, List, [], ◌∷◌, ◌==◌, if◌then◌else◌, nat_key, for_each,
}
use mu.Base.HashMap
use mu.Base.HashMap.{HashMap}
use mu.MuStack.{StackId, StackOwner}
use mu.StackMetadata.{ApiRequestSigner}

pub data Message : Type 0 where
  validate_signer : StackId → ApiRequestSigner → Message
  stacks_available : List (StackId × StackOwner) → Message
  stacks_removed : List StackId → Message
  signers_available : List (ApiRequestSigner × StackOwner) → Message
  signers_removed : List ApiRequestSigner → Message

-- `State`, and the replies to `ValidateSigner`, the newest first.
pub record State : Type 0 where
  pub stacks : HashMap StackId StackOwner
  pub signers : HashMap ApiRequestSigner StackOwner
  pub replies : List Bool

signed_for : StackOwner → Option StackOwner → Bool
signed_for stack_owner none = false
signed_for stack_owner (some signer_owner) = signer_owner == stack_owner

unfoldable pub is_valid_for :
    HashMap ApiRequestSigner StackOwner → ApiRequestSigner → Option StackOwner → Bool
unfolding signed_for
is_valid_for signers signer none = false
is_valid_for signers signer (some stack_owner) =
    if signer == stack_owner then true else signed_for stack_owner (HashMap.get signers signer)

unfoldable pub is_valid_signer : State → StackId → ApiRequestSigner → Bool
is_valid_signer state stack_id signer =
    is_valid_for state.signers signer (HashMap.get state.stacks stack_id)

unfoldable pub insert_all {ℓ} :
    {V : Type ℓ} → List (StackId × V) → HashMap StackId V → HashMap StackId V
insert_all entries m = for_each (λ (k, v) m. HashMap.insert m k v) entries m

unfoldable pub remove_all {ℓ} : {V : Type ℓ} → List StackId → HashMap StackId V → HashMap StackId V
remove_all keys m = for_each (λ k m. HashMap.remove m k) keys m

unfoldable pub mailbox_step : Message → State → State
mailbox_step (validate_signer stack_id signer) state = record state {
  replies = is_valid_signer state stack_id signer ∷ state.replies;
}
mailbox_step (stacks_available stacks) state = record state {
  stacks = insert_all stacks state.stacks;
}
mailbox_step (stacks_removed stack_ids) state = record state {
  stacks = remove_all stack_ids state.stacks;
}
mailbox_step (signers_available signers) state = record state {
  signers = insert_all signers state.signers;
}
mailbox_step (signers_removed signers) state = record state {
  signers = remove_all signers state.signers;
}

-- `start`, and then the messages in turn.
unfoldable pub run : List Message → State
run messages = for_each mailbox_step messages (record { stacks = []; signers = []; replies = [] })
