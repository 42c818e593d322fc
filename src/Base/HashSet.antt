-- ===== src/Base/HashSet.antt =====
-- `std::collections::HashSet` as a list. `remove` of the source returns whether the element was
-- there, which is `contains` before the call.
use mathlib.Core.Path.{◌≡◌, refl, subst}
use mathlib.Core.Logic.{inl, inr}
use mathlib.Core.Bool.{Bool, true, false}
use mathlib.Core.List.{List, [], ◌∷◌}
use native.Mathlib.Omega.{arith}
use mu.Base.Tests.{Key, ◌==◌, if◌then◌else◌, Bool-cases}
use mu.Base.Lists.{is_empty, All}

abbrev pub HashSet {ℓ} : Type ℓ → Type ℓ
HashSet K = List K

module _ {ℓ} {K : Type ℓ} ⦃e : Key K⦄ where
  unfoldable pub contains : HashSet K → K → Bool
  contains [] k = false
  contains (j ∷ s) k = if j == k then true else contains s k

  unfoldable pub insert : HashSet K → K → HashSet K
  insert s k = if contains s k then s else k ∷ s

  unfoldable pub remove : HashSet K → K → HashSet K
  remove [] k = []
  remove (j ∷ s) k = let rest = remove s k in if j == k then rest else j ∷ rest

  pub contains-insert :
      (s : HashSet K) (k j : K) → contains (insert s k) j ≡ (if k == j then true else contains s j)
  unfolding contains insert
  contains-insert s k j = ground (arith, e.same_iff k j)

  pub contains-remove :
      (s : HashSet K) (k j : K) → contains (remove s k) j ≡ (if k == j then false else contains s j)
  unfolding contains remove
  contains-remove [] k j = ground arith
  contains-remove (i ∷ s) k j =
      ground (arith, contains-remove s k j, e.same_iff i k, e.same_iff i j, e.same_iff k j)

  pub is_empty-insert : (s : HashSet K) (k : K) → is_empty (insert s k) ≡ false
  unfolding insert contains
  is_empty-insert [] k = refl
  is_empty-insert (j ∷ s) k = ground arith

  pub is_empty_of_contains : (s : HashSet K) (k : K) → contains s k ≡ true → is_empty s ≡ false
  unfolding contains
  is_empty_of_contains [] k h = cc
  is_empty_of_contains (j ∷ s) k h = refl

  pub All-contains {κ} :
      (P : K → Type κ) (s : HashSet K) (k : K) → All P s → contains s k ≡ true → P k
  unfolding contains
  All-contains P [] k all h = cc
  All-contains P (j ∷ s) k all h = elim (Bool-cases (j == k)) [
    | inl same ↦ subst P ((e.same_iff j k).0 same) all.0
    | inr other ↦ All-contains P s k all.1 (rw other at h)
  ]

  pub remove_absent : (s : HashSet K) (k : K) → contains s k ≡ false → remove s k ≡ s
  unfolding contains remove
  remove_absent [] k h = refl
  remove_absent (j ∷ s) k h = ground (arith, remove_absent s k)

  pub All-of_contains {κ} :
      (P : K → Type κ) (s : HashSet K) → ((k : K) → contains s k ≡ true → P k) → All P s
  unfolding contains
  All-of_contains P [] h = tt
  All-of_contains P (j ∷ s) h = (
    h j (rw ((e.same_iff j j).1 refl)),
    All-of_contains P s (λ k there.
        h k (elim (Bool-cases (j == k)) [ inl same ↦ rw same | inr other ↦ rw other there ])),
  )
