-- ===== src/Base/Values.antt =====
-- What holds of every value of a map.
use mathlib.Core.Path.{◌≡◌, subst}
use mathlib.Core.Logic.{inl, inr}
use mathlib.Core.Option.{some}
use mathlib.Core.List.{[], ◌∷◌}
use native.Mathlib.Omega.{arith}
use mu.Base.Tests.{Key, ◌==◌, Bool-cases}
use mu.Base.Lists.{All, In}
use mu.Base.HashMap
use mu.Base.HashMap.{HashMap}

module _ {ℓ κ μ} {K : Type ℓ} {V : Type κ} ⦃e : Key K⦄ (P : V → Type μ) where
  abbrev pub OnValues : HashMap K V → Type μ
  OnValues m = All (λ (entry : K × V). P entry.1) m

  pub remove-OnValues : (m : HashMap K V) (k : K) → OnValues m → OnValues (HashMap.remove m k)
  unfolding HashMap.remove
  remove-OnValues [] k h = h
  remove-OnValues ((j, v) ∷ m) k (h, hs) = elim (Bool-cases (j == k)) [
    | inl same ↦ rw same (remove-OnValues m k hs)
    | inr other ↦ rw other (h, remove-OnValues m k hs)
  ]

  pub get-OnValues : (m : HashMap K V) (k : K) (v : V) → OnValues m → HashMap.get m k ≡ some v → P v
  unfolding HashMap.get
  get-OnValues [] k v h found = absurd cc
  get-OnValues ((j, w) ∷ m) k v (h, hs) found = elim (Bool-cases (j == k)) [
    | inl same ↦ subst P (ground (arith, found, same)) h
    | inr other ↦ get-OnValues m k v hs (ground (arith, found, other))
  ]

  pub In-OnValues : (m : HashMap K V) (entry : K × V) → OnValues m → In entry m → P entry.1
  In-OnValues [] entry h there = absurd there.lower
  In-OnValues (x ∷ m) entry (h, hs) (inl e) = subst (λ (entry : K × V). P entry.1) e h
  In-OnValues (x ∷ m) entry (h, hs) (inr there) = In-OnValues m entry hs there

  pub insert-OnValues :
      (m : HashMap K V) (k : K) (v : V) → P v → OnValues m → OnValues (HashMap.insert m k v)
  unfolding HashMap.insert
  insert-OnValues m k v h hs = (h, remove-OnValues m k hs)
