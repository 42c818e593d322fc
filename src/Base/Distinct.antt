-- ===== src/Base/Distinct.antt =====
-- Lists without repetitions.
use mathlib.Core.Path.{◌≡◌, refl, ap}
use mathlib.Core.Logic.{inl, inr, ◌↔◌, ◌⊎◌}
use mathlib.Core.Bool.{true, false}
use mathlib.Core.List.{List, [], ◌∷◌, ◌++◌}
use native.Mathlib.Omega.{arith}
use mathlib.Core.Option.{Option, none, some}
use mu.Base.Tests.{Key, ◌==◌, if◌then◌else◌, Bool-cases}
use mu.Base.Lists.{All}
use mu.Base.HashSet.{HashSet, contains, insert, contains-insert}

module _ {ℓ} {K : Type ℓ} ⦃e : Key K⦄ where
  -- No element comes up again.
  abbrev pub AllDistinct : List K → Type 0
  AllDistinct [] = Unit
  AllDistinct (k ∷ ks) = (contains ks k ≡ false) × AllDistinct ks

  -- No element of the second list is in the first.
  abbrev pub Apart : HashSet K → List K → Type 0
  Apart seen ks = All (λ k. contains seen k ≡ false) ks

  same_sym : (j k : K) → (j == k) ≡ (k == j)
  same_sym j k = ground (arith, e.same_iff j k, e.same_iff k j)

  Apart-insert :
      (seen : HashSet K) (k : K) (ks : List K)
      → Apart (insert seen k) ks ↔ (Apart seen ks × (contains ks k ≡ false))
  unfolding contains
  Apart-insert seen k [] = (λ _. (tt, refl), λ _. tt)
  Apart-insert seen k (j ∷ ks) =
      let ih = Apart-insert seen k ks in
      let one = contains-insert seen k j in
      let turned = same_sym j k in
      elim (Bool-cases (k == j)) [
        | inl same ↦ (λ (h, hs). absurd cc, λ (h, apart). absurd (ground arith))
        | inr other ↦ (
          λ (h, hs). let (hs', apart) = ih.0 hs in ((cc, hs'), ground arith),
          λ ((h, hs), apart). (ground arith, ih.1 (hs, ground arith)),
        )
      ]

-- The loop of a check that no element of a list comes up twice: the first that does.
module _ {ℓ} {K : Type ℓ} ⦃e : Key K⦄ where
  unfoldable pub first_repeated : HashSet K → List K → Option K
  first_repeated seen [] = none
  first_repeated seen (k ∷ ks) =
      let more = first_repeated (insert seen k) ks in if contains seen k then some k else more

  first_repeated_iff :
      (seen : HashSet K) (ks : List K)
      → (first_repeated seen ks ≡ none) ↔ (Apart seen ks × AllDistinct ks)
  unfolding first_repeated
  first_repeated_iff seen [] = (λ _. (tt, tt), λ _. refl)
  first_repeated_iff seen (k ∷ ks) =
      let (to, from) = first_repeated_iff (insert seen k) ks in
      let (out, into) = Apart-insert seen k ks in
      elim (Bool-cases (contains seen k)) [
        | inl old ↦ rw old (λ h. cc, λ ((h, hs), apart). cc)
        | inr new ↦ rw new (
          λ h.
              let (apart, distinct) = to h in
              let (apart', not_again) = out apart in ((refl, apart'), (not_again, distinct)),
          λ ((h, hs), (not_again, distinct)). from (into (hs, not_again), distinct),
        )
      ]

  Apart-empty : (ks : List K) → Apart [] ks
  unfolding contains
  Apart-empty [] = tt
  Apart-empty (k ∷ ks) = (refl, Apart-empty ks)

  pub AllDistinct-iff : (ks : List K) → (first_repeated [] ks ≡ none) ↔ AllDistinct ks
  AllDistinct-iff ks =
      let (to, from) = first_repeated_iff [] ks in (λ h. (to h).1, λ h. from (Apart-empty ks, h))

  -- What is found did come up before.
  pub first_repeated_repeats :
      (seen : HashSet K) (ks : List K) (k : K)
      → first_repeated seen ks ≡ some k
      → (before after : List K) × (ks ≡ before ++ k ∷ after)
        × ((contains seen k ≡ true) ⊎ (contains before k ≡ true))
  unfolding first_repeated contains
  first_repeated_repeats seen [] k h = cc
  first_repeated_repeats seen (j ∷ ks) k h = elim (Bool-cases (contains seen j)) [
    | inl old ↦
        let found : some j ≡ some k = rw old at h in
        let same : j ≡ k = cc in ([], ks, rw same refl, inl (rw same at old))
    | inr new ↦
        let (before, after, e, where_before) =
          first_repeated_repeats (insert seen j) ks k (rw new at h) in
        (j ∷ before, after, ap (λ l. j ∷ l) e, met before where_before)
  ]
    where
      met :
          (before : List K)
          → ((contains (insert seen j) k ≡ true) ⊎ (contains before k ≡ true))
          → (contains seen k ≡ true) ⊎ (contains (j ∷ before) k ≡ true)
      met before w = ground (arith, contains-insert seen j k)
