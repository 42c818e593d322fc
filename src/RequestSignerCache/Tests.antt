-- ===== src/RequestSignerCache/Tests.antt =====
-- Owner 7 has the stack 1 and the signer 20; the signer 21 was removed.
use mu.Base.{◌≡◌, ◌↔◌, true, some, List, [], ◌∷◌, nat_key}
use mu.RequestSignerCache.{
  Message, validate_signer, stacks_available, stacks_removed, signers_available, signers_removed,
  is_valid_signer, run,
}
use mu.RequestSignerCache.History.{MaySign, validate_by_history}

abbrev messages : List Message
messages =
    stacks_available ((1, 7) ∷ (2, 8) ∷ [])
    ∷ signers_available ((20, 7) ∷ (21, 7) ∷ [])
    ∷ validate_signer 1 20
    ∷ signers_removed (21 ∷ [])
    ∷ stacks_removed (2 ∷ [])
    ∷ []

validate_by_history_example :
    (is_valid_signer (run messages) 1 20 ≡ true) ↔ MaySign 20 (some 7) (some 7)
validate_by_history_example = validate_by_history messages 1 20
