-- ===== src/Base/HashMap.antt =====
-- `std::collections::HashMap` as an association list. Iteration takes the entries in the order of
-- the list; a theorem about every list is a theorem about every order of iteration.
use mathlib.Core.Path.{◌≡◌, refl, subst}
use mathlib.Core.Bool.{Bool, true, false}
use mathlib.Core.Option.{Option, none, some}
use mathlib.Core.Option
use mathlib.Core.Logic.{inl, inr}
use mathlib.Core.List.{List, [], ◌∷◌}
use native.Mathlib.Omega.{arith}
use mu.Base.Tests.{Key, ◌==◌, if◌then◌else◌, Bool-cases}

abbrev pub HashMap {ℓ κ} : Type ℓ → Type κ → Type (ℓ ⊔ κ)
HashMap K V = List (K × V)

module _ {ℓ κ} {K : Type ℓ} {V : Type κ} ⦃e : Key K⦄ where
  unfoldable pub get : HashMap K V → K → Option V
  get [] k = none
  get ((j, v) ∷ m) k = if j == k then some v else get m k

  unfoldable pub remove : HashMap K V → K → HashMap K V
  remove [] k = []
  remove ((j, v) ∷ m) k = let rest = remove m k in if j == k then rest else (j, v) ∷ rest

  -- The old entry, if there is one, is replaced.
  unfoldable pub insert : HashMap K V → K → V → HashMap K V
  insert m k v = (k, v) ∷ remove m k

  unfoldable pub contains_key : HashMap K V → K → Bool
  contains_key m k = elim (get m k) [ none ↦ false | some v ↦ true ]

  -- `iter_mut`: every value is replaced, in place.
  unfoldable pub map_values : (K → V → V) → HashMap K V → HashMap K V
  map_values f [] = []
  map_values f ((k, v) ∷ m) = (k, f k v) ∷ map_values f m

  pub get-empty : (k : K) → get [] k ≡ none
  unfolding get
  get-empty k = refl

  pub get-remove :
      (m : HashMap K V) (k j : K) → get (remove m k) j ≡ (if k == j then none else get m j)
  unfolding get remove
  get-remove [] k j = ground arith
  get-remove ((i, v) ∷ m) k j =
      ground (arith, get-remove m k j, e.same_iff i k, e.same_iff i j, e.same_iff k j)

  pub get-insert :
      (m : HashMap K V) (k j : K) (v : V)
      → get (insert m k v) j ≡ (if k == j then some v else get m j)
  unfolding get insert
  get-insert m k j v = ground (arith, get-remove m k j)

  pub get-insert_self : (m : HashMap K V) (k : K) (v : V) → get (insert m k v) k ≡ some v
  get-insert_self m k v = rw (get-insert m k k v) (rw ((e.same_iff k k).1 refl))

  pub get-map_values :
      (f : K → V → V) (m : HashMap K V) (k : K)
      → get (map_values f m) k ≡ Option.map (f k) (get m k)
  unfolding get map_values
  get-map_values f [] k = refl
  get-map_values f ((j, v) ∷ m) k = elim (Bool-cases (j == k)) [
    | inl same ↦ rw same (rw ((e.same_iff j k).0 same))
    | inr other ↦ rw other (get-map_values f m k)
  ]

  -- What an `Entry` is left as: `none` if it stays vacant or is removed.
  unfoldable pub set_entry : HashMap K V → K → Option V → HashMap K V
  set_entry m k none = remove m k
  set_entry m k (some v) = insert m k v

  pub get-set_entry :
      (m : HashMap K V) (k j : K) (o : Option V)
      → get (set_entry m k o) j ≡ (if k == j then o else get m j)
  unfolding set_entry
  get-set_entry m k j none = get-remove m k j
  get-set_entry m k j (some v) = get-insert m k j v

  -- What holds of every slot goes on to hold, if it holds of the slot that is written.
  module _ {μ} (P : K → Option V → Type μ) (m : HashMap K V) (all : (j : K) → P j (get m j)) where
    pub set_entry-keeps : (k : K) (o : Option V) → P k o → (j : K) → P j (get (set_entry m k o) j)
    set_entry-keeps k o h j = rw (get-set_entry m k j o) (elim (Bool-cases (k == j)) [
      | inl same ↦ rw same (subst (λ i. P i o) ((e.same_iff k j).0 same) h)
      | inr other ↦ rw other (all j)
    ])

    pub insert-keeps : (k : K) (v : V) → P k (some v) → (j : K) → P j (get (insert m k v) j)
    unfolding set_entry
    insert-keeps k v h = set_entry-keeps k (some v) h

    pub remove-keeps : (k : K) → P k none → (j : K) → P j (get (remove m k) j)
    unfolding set_entry
    remove-keeps k h = set_entry-keeps k none h
