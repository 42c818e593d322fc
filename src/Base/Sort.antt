-- ===== src/Base/Sort.antt =====
-- `sort_by_key` on a list, which is stable, and its last element: what stands for `sort`, `rev`, `next`.
use mathlib.Core.Path.{◌≡◌, refl, ap, ◌∙◌}
use mathlib.Core.Logic.{inl, inr}
use mathlib.Core.Option.{Option, none, some}
use mathlib.Core.List.{List, [], ◌∷◌}
use Prim.Native.Nat.{ℕ, ◌≤◌}
use native.Mathlib.Omega.{arith}
use mu.Base.Tests.{leb, if◌then◌else◌, Bool-cases}
use mu.Base.Lists.{All}

module _ {ℓ} {A : Type ℓ} where
  unfoldable pub last : List A → Option A
  last [] = none
  last (x ∷ []) = some x
  last (x ∷ (y ∷ ys)) = last (y ∷ ys)

module _ {ℓ} {A : Type ℓ} (key : A → ℕ) where
  -- Before the elements with the same key, which come later in the list given.
  unfoldable pub insert_sorted : A → List A → List A
  insert_sorted x [] = x ∷ []
  insert_sorted x (y ∷ ys) =
      let further = insert_sorted x ys in if leb (key x) (key y) then x ∷ (y ∷ ys) else y ∷ further

  unfoldable pub sort_by_key : List A → List A
  sort_by_key [] = []
  sort_by_key (x ∷ xs) = insert_sorted x (sort_by_key xs)

  -- The last of the elements whose key is highest.
  unfoldable pub last_highest : List A → Option A
  last_highest [] = none
  last_highest (x ∷ xs) = elim (last_highest xs) [
    | none ↦ some x
    | some y ↦ if leb (key x) (key y) then some y else some x
  ]

  abbrev AtLeast : ℕ → List A → Type 0
  AtLeast n ys = All (λ y. n ≤ key y) ys

  abbrev IsSorted : List A → Type 0
  IsSorted [] = Unit
  IsSorted (x ∷ xs) = AtLeast (key x) xs × IsSorted xs

  lower : (m n : ℕ) (ys : List A) → m ≤ n → AtLeast n ys → AtLeast m ys
  lower m n [] h hs = tt
  lower m n (y ∷ ys) h (h', hs) = (omega arith, lower m n ys h hs)

  insert-AtLeast :
      (n : ℕ) (x : A) (ys : List A) → n ≤ key x → AtLeast n ys → AtLeast n (insert_sorted x ys)
  unfolding insert_sorted
  insert-AtLeast n x [] h hs = (h, tt)
  insert-AtLeast n x (y ∷ ys) h (h', hs) = elim (Bool-cases (leb (key x) (key y))) [
    | inl le ↦ rw le (h, (h', hs))
    | inr gt ↦ rw gt (h', insert-AtLeast n x ys h hs)
  ]

  insert-IsSorted : (x : A) (ys : List A) → IsSorted ys → IsSorted (insert_sorted x ys)
  unfolding insert_sorted
  insert-IsSorted x [] h = (tt, tt)
  insert-IsSorted x (y ∷ ys) (low, sorted) = elim (Bool-cases (leb (key x) (key y))) [
    | inl le ↦
        let below : key x ≤ key y = ground arith in
        rw le ((below, lower (key x) (key y) ys below low), (low, sorted))
    | inr gt ↦ rw gt (insert-AtLeast (key y) x ys (ground arith) low, insert-IsSorted x ys sorted)
  ]

  sort-IsSorted : (xs : List A) → IsSorted (sort_by_key xs)
  unfolding sort_by_key
  sort-IsSorted [] = tt
  sort-IsSorted (x ∷ xs) = insert-IsSorted x (sort_by_key xs) (sort-IsSorted xs)

  abbrev later_of : A → Option A → Option A
  later_of x o = elim o [ none ↦ some x | some y ↦ if leb (key x) (key y) then some y else some x ]

  -- An element that is not above a list's elements is not above the last.
  later_of-AtLeast :
      (x y : A) (ys : List A)
      → key x ≤ key y
      → AtLeast (key x) ys
      → last (y ∷ ys) ≡ later_of x (last (y ∷ ys))
  unfolding last
  later_of-AtLeast x y [] h hs = ground arith
  later_of-AtLeast x y (z ∷ zs) h (h', hs) = later_of-AtLeast x z zs h' hs

  last-insert_cons :
      (x y z : A) (zs : List A)
      → last (y ∷ insert_sorted x (z ∷ zs)) ≡ last (insert_sorted x (z ∷ zs))
  unfolding last insert_sorted
  last-insert_cons x y z zs = elim (Bool-cases (leb (key x) (key z))) [
    | inl le ↦ rw le refl
    | inr gt ↦ rw gt refl
  ]

  last-insert :
      (x : A) (ys : List A) → IsSorted ys → last (insert_sorted x ys) ≡ later_of x (last ys)
  unfolding last insert_sorted
  last-insert x [] sorted = refl
  last-insert x (y ∷ []) sorted = ground arith
  last-insert x (y ∷ (z ∷ zs)) (low, sorted) = elim (Bool-cases (leb (key x) (key y))) [
    | inl le ↦
        let below : key x ≤ key y = ground arith in
        rw le (later_of-AtLeast x y (z ∷ zs) below (lower (key x) (key y) (z ∷ zs) below low))
    | inr gt ↦ rw gt (last-insert_cons x y z zs ∙ last-insert x (z ∷ zs) sorted)
  ]

  pub last-sort_by_key : (xs : List A) → last (sort_by_key xs) ≡ last_highest xs
  unfolding sort_by_key last_highest last
  last-sort_by_key [] = refl
  last-sort_by_key (x ∷ xs) =
      last-insert x (sort_by_key xs) (sort-IsSorted xs) ∙ ap (later_of x) (last-sort_by_key xs)
