-- ===== src/Monitor/Collection/Views.antt =====
-- The iterators `all_active` and `all_inactive`, and when they panic.
use mu.Base.{
  ◌>>=◌, ◌≡◌, refl, ap, ◌∙◌, sym, subst, inl, inr, true, Option, none, some, List, [], ◌∷◌, ◌++◌,
  arith, All, All-append, is_empty, nat_key, Bool-cases, eqb, eqb_iff,
}
use mu.Base.HashMap
use mu.Base.HashSet
use mu.Base.HashSet.{HashSet}
use mu.MuStack.{StackId, StackOwner}
use mu.StackMetadata.{StackWithMetadata, owner}
use mu.Monitor.Collection.{
  OwnerState, active, inactive, OwnerData, StackCollection, stacks_of_ids, owner_stacks,
  all_by_owners, all_active, all_inactive, remove_stack, remove_owned_stack,
}
use mu.Monitor.Collection.Indexed.{has_state, lists, belongs_to, IsIndexed}

-- The call returns a list, of stacks whose owners satisfy `P`.
abbrev pub Yields : (StackOwner → Type 0) → Option (List StackWithMetadata) → Type 0
Yields P r = (l : List StackWithMetadata) × (r ≡ some l) × All (λ stack. P (owner stack)) l

module _ (c : StackCollection) (v : IsIndexed c) where
  stacks_of_ids-Yields :
      (P : StackOwner → Type 0) (o : StackOwner) (ks : List StackId)
      → P o
      → All (λ k. belongs_to o (HashMap.get c.stacks k) ≡ true) ks
      → Yields P (stacks_of_ids c ks)
  unfolding stacks_of_ids
  stacks_of_ids-Yields P o [] h all = ([], refl, tt)
  stacks_of_ids-Yields P o (k ∷ ks) h all =
      cons (HashMap.get c.stacks k) all.0 (stacks_of_ids-Yields P o ks h all.1)
    where
      cons :
          (x : Option StackWithMetadata)
          → belongs_to o x ≡ true
          → Yields P (stacks_of_ids c ks)
          → Yields P (x >>= λ stack. stacks_of_ids c ks >>= λ stacks. some (stack ∷ stacks))
      cons none own (l, e, rest) = cc
      cons (some stack) own (l, e, rest) =
          (stack ∷ l, rw e, (subst P (sym ((eqb_iff (owner stack) o).0 own)) h, rest))

  pub listed_own :
      (o : StackOwner) (ks : HashSet StackId) (all : HashSet StackId)
      → ((k : StackId) → HashSet.contains ks k ≡ true → HashSet.contains all k ≡ true)
      → ((k : StackId) → HashSet.contains all k ≡ belongs_to o (HashMap.get c.stacks k))
      → All (λ k. belongs_to o (HashMap.get c.stacks k) ≡ true) ks
  unfolding HashSet.contains
  listed_own o [] all sub same = tt
  listed_own o (k ∷ ks) all sub same =
      (sym (same k) ∙ sub k (ground arith), listed_own o ks all (λ j h. sub j (ground arith)) same)

  owner_stacks-Yields :
      (P : StackOwner → Type 0) (o : StackOwner) (d : OwnerData)
      → HashMap.get c.owners o ≡ some d
      → P o
      → Yields P (owner_stacks c o)
  unfolding owner_stacks
  owner_stacks-Yields P o d e h = rw e (
      stacks_of_ids-Yields P o d.stacks h
        (listed_own o d.stacks d.stacks (λ k x. x) λ k. ap (λ x. lists x k) (sym e) ∙ v.owned o k))

  all_by_owners-Yields :
      (P : StackOwner → Type 0) (os : List StackOwner)
      → All (λ o. P o × ((d : OwnerData) × (HashMap.get c.owners o ≡ some d))) os
      → Yields P (all_by_owners c os)
  unfolding all_by_owners
  all_by_owners-Yields P [] all = ([], refl, tt)
  all_by_owners-Yields P (o ∷ os) all =
      let (first, e, own) = owner_stacks-Yields P o all.0.1.0 all.0.1.1 all.0.0 in
      let (rest, e', others) = all_by_owners-Yields P os all.1 in
      (first ++ rest, rw e (rw e'), All-append _ first rest own others)

known_of_state :
    (s : OwnerState) (x : Option OwnerData) → has_state s x ≡ true → (d : OwnerData) × (x ≡ some d)
known_of_state active none h = cc
known_of_state inactive none h = cc
known_of_state s (some d) h = (d, refl)

-- With the indexes in agreement `all_active` does not panic, and what it yields are stacks of active
-- owners; `all_inactive` does not panic either, and yields stacks of inactive owners.
pub all-Yields :
    (c : StackCollection)
    → IsIndexed c
    → Yields (λ o. has_state active (HashMap.get c.owners o) ≡ true) (all_active c)
      × Yields (λ o. has_state inactive (HashMap.get c.owners o) ≡ true) (all_inactive c)
unfolding all_active all_inactive
all-Yields c v = (
  all_by_owners-Yields c v _ c.active_owners (
      HashSet.All-of_contains _ c.active_owners
        λ o h. let a = sym (v.active_index o) ∙ h in (a, known_of_state active _ a)),
  all_by_owners-Yields c v _ c.inactive_owners (
      HashSet.All-of_contains _ c.inactive_owners
        λ o h. let a = sym (v.inactive_index o) ∙ h in (a, known_of_state inactive _ a)),
)

missing_panics :
    (c : StackCollection) (os : List StackOwner) (o : StackOwner)
    → HashMap.get c.owners o ≡ none
    → HashSet.contains os o ≡ true
    → all_by_owners c os ≡ none
unfolding all_by_owners owner_stacks HashSet.contains
missing_panics c [] o e h = cc
missing_panics c (p ∷ os) o e h = elim (Bool-cases (eqb p o)) [
  | inl same ↦ rw ((eqb_iff p o).0 same) (rw e)
  | inr other ↦ ground (arith, missing_panics c os o e (rw other at h))
]

-- Once the last stack of an active owner is removed, `all_active` panics: the owner is gone but
-- stays in the index of active owners.
pub remove_last_panics :
    (o : StackOwner) (k : StackId) (c : StackCollection) (d : OwnerData)
    → IsIndexed c
    → HashMap.get c.owners o ≡ some d
    → d.state ≡ active
    → HashSet.contains d.stacks k ≡ true
    → is_empty (HashSet.remove d.stacks k) ≡ true
    → (c' : StackCollection) × (remove_stack o k c ≡ some (true, c')) × (all_active c' ≡ none)
unfolding remove_stack remove_owned_stack all_active
remove_last_panics o k c d v e on held last = (
  record c { stacks = HashMap.remove c.stacks k; owners = HashMap.remove c.owners o },
  rw (e, remove_owned_stack) (rw held (rw last)),
  missing_panics _ c.active_owners o (ground (arith, HashMap.get-remove c.owners o o))
      (v.active_index o ∙ rw e (rw on refl)),
)
