-- ===== src/Monitor/Collection/Indexed.antt =====
-- When the indexes of the collection agree with one another, and the operations against that.
pub mod Stacks
pub mod First
use mu.Base.{
  ◌≡◌, refl, sym, ◌∙◌, ap, subst, inl, inr, Bool, true, false, Option, none, some, List, [], ◌∷◌,
  arith, ◌==◌, ◌&&◌, if◌then◌else◌, Bool-cases, is_empty, nat_key, eqb_iff, eqb,
}
use mu.Base.HashMap
use mu.Base.HashSet
use mu.Base.HashSet.{HashSet}
use mu.MuStack.{StackId, StackOwner}
use mu.StackMetadata.{StackWithMetadata, id, owner}
use mu.Monitor.Collection.{
  OwnerState, active, inactive, OwnerData, StackCollection, new, make_inactive, deactivate,
  make_active, activate, add_stack, add_owned_stack, add_new_stack, insert_first, insert_index,
  remove_stack, remove_owned_stack,
}

abbrev pub has_state : OwnerState → Option OwnerData → Bool
has_state s none = false
has_state active (some d) = elim d.state [ active ↦ true | inactive ↦ false ]
has_state inactive (some d) = elim d.state [ active ↦ false | inactive ↦ true ]

abbrev pub lists : Option OwnerData → StackId → Bool
lists none k = false
lists (some d) k = HashSet.contains d.stacks k

abbrev pub belongs_to : StackOwner → Option StackWithMetadata → Bool
belongs_to o none = false
belongs_to o (some stack) = owner stack == o

abbrev pub KeyOk : StackId → Option StackWithMetadata → Type 0
KeyOk k none = Unit
KeyOk k (some stack) = id stack ≡ k

-- The index of active owners holds the owners that are active, that of inactive owners those that
-- are inactive; an owner lists the stacks that are its own; each stack stands under its id.
pub record IsIndexed (c : StackCollection) : Type 0 where
  pub active_index :
      (o : StackOwner)
      → HashSet.contains c.active_owners o ≡ has_state active (HashMap.get c.owners o)
  pub inactive_index :
      (o : StackOwner)
      → HashSet.contains c.inactive_owners o ≡ has_state inactive (HashMap.get c.owners o)
  pub owned :
      (o : StackOwner) (k : StackId)
      → lists (HashMap.get c.owners o) k ≡ belongs_to o (HashMap.get c.stacks k)
  pub keyed : (k : StackId) → KeyOk k (HashMap.get c.stacks k)

new-IsIndexed : IsIndexed new
unfolding HashMap.get HashSet.contains
new-IsIndexed = record {
  active_index = λ o. refl;
  inactive_index = λ o. refl;
  owned = λ o k. refl;
  keyed = λ k. tt;
}

module _ (o : StackOwner) (d : OwnerData) (c : StackCollection)
    (e : HashMap.get c.owners o ≡ some d) (v : IsIndexed c) where
  -- The owner's list of stacks does not change.
  lists_same :
      (s : OwnerState) (j : StackOwner) (k : StackId)
      → lists (HashMap.get (HashMap.insert c.owners o (record d { state = s })) j) k
        ≡ lists (HashMap.get c.owners j) k
  lists_same s j k =
      rw (HashMap.get-insert c.owners o j (record d { state = s })) (elim (Bool-cases (o == j)) [
        | inl same ↦ rw same (
            ap (λ x. lists x k) (sym e)
            ∙ ap (λ i. lists (HashMap.get c.owners i) k) ((eqb_iff o j).0 same))
        | inr different ↦ rw different
      ])

  deactivate-IsIndexed : (s : OwnerState) → d.state ≡ s → IsIndexed (deactivate o s d c)
  unfolding deactivate
  deactivate-IsIndexed inactive h = v
  deactivate-IsIndexed active h = record {
    active_index = λ j. ground (
      arith,
      HashSet.contains-remove c.active_owners o j,
      HashMap.get-insert c.owners o j (record d { state = inactive }),
      v.active_index j,
    );
    inactive_index = λ j. ground (
      arith,
      HashSet.contains-insert c.inactive_owners o j,
      HashMap.get-insert c.owners o j (record d { state = inactive }),
      v.inactive_index j,
    );
    owned = λ j k. lists_same inactive j k ∙ v.owned j k;
    keyed = v.keyed;
  }

  activate-IsIndexed : (s : OwnerState) → d.state ≡ s → IsIndexed (activate o s d c)
  unfolding activate
  activate-IsIndexed active h = v
  activate-IsIndexed inactive h = record {
    active_index = λ j. ground (
      arith,
      HashSet.contains-insert c.active_owners o j,
      HashMap.get-insert c.owners o j (record d { state = active }),
      v.active_index j,
    );
    inactive_index = λ j. ground (
      arith,
      HashSet.contains-remove c.inactive_owners o j,
      HashMap.get-insert c.owners o j (record d { state = active }),
      v.inactive_index j,
    );
    owned = λ j k. lists_same active j k ∙ v.owned j k;
    keyed = v.keyed;
  }

pub make_inactive-IsIndexed :
    (o : StackOwner) (c : StackCollection) → IsIndexed c → IsIndexed (make_inactive o c)
unfolding make_inactive
make_inactive-IsIndexed o c v = found (HashMap.get c.owners o) refl
  where
    found :
        (x : Option OwnerData)
        → HashMap.get c.owners o ≡ x
        → IsIndexed (elim x [ none ↦ c | some d ↦ deactivate o d.state d c ])
    found none e = v
    found (some d) e = deactivate-IsIndexed o d c e v d.state refl

pub make_active-IsIndexed :
    (o : StackOwner) (c : StackCollection) → IsIndexed c → IsIndexed (make_active o c)
unfolding make_active
make_active-IsIndexed o c v = found (HashMap.get c.owners o) refl
  where
    found :
        (x : Option OwnerData)
        → HashMap.get c.owners o ≡ x
        → IsIndexed (elim x [ none ↦ c | some d ↦ activate o d.state d c ])
    found none e = v
    found (some d) e = activate-IsIndexed o d c e v d.state refl
