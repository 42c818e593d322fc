-- ===== src/RequestSignerCache/History.antt =====
-- The answers of the cache, against what the messages say of a stack and of a signer.
use mu.Base.{
  ◌≡◌, refl, ◌∙◌, ap, ◌⊎◌, inl, inr, ◌↔◌, ◌≢◌, subst, true, Option, none, some, List, [], ◌∷◌, ◌==◌,
  if◌then◌else◌, nat_key, for_each, Bool-cases, eqb, eqb_iff,
}
use mu.Base.HashMap
use mu.Base.HashMap.{HashMap}
use mu.MuStack.{StackId, StackOwner}
use mu.StackMetadata.{ApiRequestSigner}
use mu.RequestSignerCache.{
  Message, validate_signer, stacks_available, stacks_removed, signers_available, signers_removed,
  State, signed_for, is_valid_for, is_valid_signer, insert_all, remove_all, mailbox_step, run,
}

-- The owner last told of a key: `before`, unless the list names the key.
abbrev pub last_told {ℓ} : {V : Type ℓ} → StackId → List (StackId × V) → Option V → Option V
last_told k [] before = before
last_told k ((j, v) ∷ rest) before = last_told k rest (if j == k then some v else before)

abbrev pub unless_removed {ℓ} : {V : Type ℓ} → StackId → List StackId → Option V → Option V
unless_removed k [] before = before
unless_removed k (j ∷ rest) before = unless_removed k rest (if j == k then none else before)

-- The owner of a stack, and the user of a signer, by the messages alone.
abbrev pub stack_owner : StackId → List Message → Option StackOwner → Option StackOwner
stack_owner k [] before = before
stack_owner k (stacks_available stacks ∷ rest) before =
    stack_owner k rest (last_told k stacks before)
stack_owner k (stacks_removed ids ∷ rest) before = stack_owner k rest (unless_removed k ids before)
stack_owner k (validate_signer _ _ ∷ rest) before = stack_owner k rest before
stack_owner k (signers_available _ ∷ rest) before = stack_owner k rest before
stack_owner k (signers_removed _ ∷ rest) before = stack_owner k rest before

abbrev pub signer_user : ApiRequestSigner → List Message → Option StackOwner → Option StackOwner
signer_user k [] before = before
signer_user k (signers_available signers ∷ rest) before =
    signer_user k rest (last_told k signers before)
signer_user k (signers_removed ids ∷ rest) before = signer_user k rest (unless_removed k ids before)
signer_user k (validate_signer _ _ ∷ rest) before = signer_user k rest before
signer_user k (stacks_available _ ∷ rest) before = signer_user k rest before
signer_user k (stacks_removed _ ∷ rest) before = signer_user k rest before

module _ {ℓ} {V : Type ℓ} (k : StackId) where
  get-insert_all :
      (entries : List (StackId × V)) (m : HashMap StackId V)
      → HashMap.get (insert_all entries m) k ≡ last_told k entries (HashMap.get m k)
  unfolding insert_all for_each
  get-insert_all [] m = refl
  get-insert_all ((j, v) ∷ rest) m =
      get-insert_all rest (HashMap.insert m j v)
      ∙ ap (last_told k rest) (HashMap.get-insert m j k v)

  get-remove_all :
      (keys : List StackId) (m : HashMap StackId V)
      → HashMap.get (remove_all keys m) k ≡ unless_removed k keys (HashMap.get m k)
  unfolding remove_all for_each
  get-remove_all [] m = refl
  get-remove_all (j ∷ rest) m =
      get-remove_all rest (HashMap.remove m j)
      ∙ ap (unless_removed k rest) (HashMap.get-remove m j k)

loop-stacks :
    (k : StackId) (messages : List Message) (s : State)
    → HashMap.get (for_each mailbox_step messages s).stacks k
      ≡ stack_owner k messages (HashMap.get s.stacks k)
unfolding for_each mailbox_step
loop-stacks k [] s = refl
loop-stacks k (validate_signer a b ∷ rest) s =
    loop-stacks k rest (mailbox_step (validate_signer a b) s)
loop-stacks k (stacks_available l ∷ rest) s =
    loop-stacks k rest (mailbox_step (stacks_available l) s)
    ∙ ap (stack_owner k rest) (get-insert_all k l s.stacks)
loop-stacks k (stacks_removed l ∷ rest) s =
    loop-stacks k rest (mailbox_step (stacks_removed l) s)
    ∙ ap (stack_owner k rest) (get-remove_all k l s.stacks)
loop-stacks k (signers_available l ∷ rest) s =
    loop-stacks k rest (mailbox_step (signers_available l) s)
loop-stacks k (signers_removed l ∷ rest) s = loop-stacks k rest (mailbox_step (signers_removed l) s)

loop-signers :
    (k : ApiRequestSigner) (messages : List Message) (s : State)
    → HashMap.get (for_each mailbox_step messages s).signers k
      ≡ signer_user k messages (HashMap.get s.signers k)
unfolding for_each mailbox_step
loop-signers k [] s = refl
loop-signers k (validate_signer a b ∷ rest) s =
    loop-signers k rest (mailbox_step (validate_signer a b) s)
loop-signers k (signers_available l ∷ rest) s =
    loop-signers k rest (mailbox_step (signers_available l) s)
    ∙ ap (signer_user k rest) (get-insert_all k l s.signers)
loop-signers k (signers_removed l ∷ rest) s =
    loop-signers k rest (mailbox_step (signers_removed l) s)
    ∙ ap (signer_user k rest) (get-remove_all k l s.signers)
loop-signers k (stacks_available l ∷ rest) s =
    loop-signers k rest (mailbox_step (stacks_available l) s)
loop-signers k (stacks_removed l ∷ rest) s = loop-signers k rest (mailbox_step (stacks_removed l) s)

-- The stack has an owner, who is the signer or whose signer it is.
abbrev pub MaySign : ApiRequestSigner → Option StackOwner → Option StackOwner → Type 0
MaySign signer owner user = (o : StackOwner) × (owner ≡ some o) × ((signer ≡ o) ⊎ (user ≡ some o))

is_valid_for-MaySign :
    (signers : HashMap ApiRequestSigner StackOwner) (signer : ApiRequestSigner)
    → (owner : Option StackOwner)
    → (is_valid_for signers signer owner ≡ true) ↔ MaySign signer owner (HashMap.get signers signer)
unfolding is_valid_for signed_for
is_valid_for-MaySign signers signer none = (λ h. cc, λ (o, e, h). cc)
is_valid_for-MaySign signers signer (some o) = elim (Bool-cases (eqb signer o)) [
  | inl same ↦ rw same (λ _. (o, refl, inl ((eqb_iff signer o).0 same)), λ _. refl)
  | inr other ↦
      rw other (signed (HashMap.get signers signer) λ same. let t = (eqb_iff signer o).1 same in cc)
]
  where
    signed :
        (user : Option StackOwner)
        → signer ≢ o
        → (signed_for o user ≡ true) ↔ MaySign signer (some o) user
    signed none apart =
        (λ h. cc, λ (x, e, h). elim h [ inl same ↦ absurd (apart cc) | inr known ↦ cc ])
    signed (some u) apart = (
      λ h. (o, refl, inr (ap some ((eqb_iff u o).0 h))),
      λ (x, e, h). elim h [ inl same ↦ absurd (apart cc) | inr known ↦ (eqb_iff u o).1 cc ],
    )

-- Whatever the messages and their order, a signer is valid for a stack exactly if, by what the cache
-- was last told, the stack has an owner who is the signer or whose signer it is.
pub validate_by_history :
    (messages : List Message) (stack_id : StackId) (signer : ApiRequestSigner)
    → (is_valid_signer (run messages) stack_id signer ≡ true)
      ↔ MaySign signer (stack_owner stack_id messages none) (signer_user signer messages none)
unfolding run is_valid_signer HashMap.get
validate_by_history messages stack_id signer =
    let start : State = record { stacks = []; signers = []; replies = [] } in
    let told = loop-stacks stack_id messages start in
    let told' = loop-signers signer messages start in
    subst
      (λ o.
        (is_valid_signer (run messages) stack_id signer ≡ true)
        ↔ MaySign signer o (signer_user signer messages none))
      told
      (subst
        (λ u.
          (is_valid_signer (run messages) stack_id signer ≡ true)
          ↔ MaySign signer (HashMap.get (run messages).stacks stack_id) u)
        told' (is_valid_for-MaySign (run messages).signers signer _))
