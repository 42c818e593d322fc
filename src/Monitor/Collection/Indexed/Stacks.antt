-- ===== src/Monitor/Collection/Indexed/Stacks.antt =====
-- Adding and removing stacks: when the indexes still agree, and what the calls return.
use mu.Base.{
  ◌≡◌, refl, sym, ◌∙◌, ap, inl, inr, Bool, true, false, Option, none, some, [], arith, Bool-cases,
  nat_key, eqb_iff, eqb, leb,
}
use mu.Base.HashMap
use mu.Base.HashSet
use mu.Base.HashSet.{HashSet}
use mu.MuStack.{StackId}
use mu.StackMetadata.{StackWithMetadata, id, owner}
use mu.Monitor.Collection.{
  OwnerState, active, inactive, OwnerData, StackCollection, add_stack, add_owned_stack,
  add_new_stack, insert_index,
}
use mu.Monitor.Collection.Indexed.{belongs_to, KeyOk, IsIndexed}

-- The call succeeds, the indexes agree, if it returns true then the stack is now the one held, and it
-- does if no stack of that id was.
abbrev pub Adds :
    StackWithMetadata → Option StackWithMetadata → Option (Bool × StackCollection) → Type 0
Adds stack existing r =
    (b : Bool) × (c' : StackCollection) × (r ≡ some (b, c'))
    × IsIndexed c'
    × (b ≡ true → HashMap.get c'.stacks (id stack) ≡ some stack)
    × (existing ≡ none → b ≡ true)

module _ (stack : StackWithMetadata) (c : StackCollection) (v : IsIndexed c) where
  abbrev with_stack : StackCollection
  with_stack = record c { stacks = HashMap.insert c.stacks (id stack) stack }

  with_stack-keyed : (k : StackId) → KeyOk k (HashMap.get with_stack.stacks k)
  with_stack-keyed = HashMap.insert-keeps KeyOk c.stacks v.keyed (id stack) stack refl

  replace-IsIndexed :
      (existing : StackWithMetadata)
      → HashMap.get c.stacks (id stack) ≡ some existing
      → owner existing ≡ owner stack
      → IsIndexed with_stack
  replace-IsIndexed existing e same = record {
    active_index = v.active_index;
    inactive_index = v.inactive_index;
    owned = λ j k.
        rw (HashMap.get-insert c.stacks (id stack) k stack) (elim (Bool-cases (eqb (id stack) k)) [
          | inl here ↦ rw here (
              v.owned j k
              ∙ ap (λ i. belongs_to j (HashMap.get c.stacks i))
                  (sym ((eqb_iff (id stack) k).0 here))
              ∙ ap (belongs_to j) e
              ∙ ap (λ i. eqb i j) same)
          | inr there ↦ rw there (v.owned j k)
        ]);
    keyed = with_stack-keyed;
  }

  abbrev with_new_stack : OwnerData → StackCollection
  with_new_stack d = record with_stack {
    owners =
        HashMap.insert c.owners (owner stack)
          (record d { stacks = HashSet.insert d.stacks (id stack) });
  }

  add_new-IsIndexed :
      (d : OwnerData)
      → HashMap.get c.owners (owner stack) ≡ some d
      → HashMap.get c.stacks (id stack) ≡ none
      → IsIndexed (with_new_stack d)
  add_new-IsIndexed d e fresh = record {
    active_index = λ j. ground (
      arith,
      HashMap.get-insert c.owners (owner stack) j
          (record d { stacks = HashSet.insert d.stacks (id stack) }),
      v.active_index j,
    );
    inactive_index = λ j. ground (
      arith,
      HashMap.get-insert c.owners (owner stack) j
          (record d { stacks = HashSet.insert d.stacks (id stack) }),
      v.inactive_index j,
    );
    owned = λ j k. ground (
      arith,
      HashMap.get-insert c.owners (owner stack) j
          (record d { stacks = HashSet.insert d.stacks (id stack) }),
      HashMap.get-insert c.stacks (id stack) k stack,
      HashSet.contains-insert d.stacks (id stack) k,
      v.owned j k,
    );
    keyed = with_stack-keyed;
  }

  -- A stack's owner never changes: the account's `user` is set once, by create_stack.
  abbrev pub SameOwner : Option StackWithMetadata → Type 0
  SameOwner none = Unit
  SameOwner (some existing) = owner existing ≡ owner stack

  add_found :
      (d : OwnerData) (o : Option StackWithMetadata)
      → HashMap.get c.owners (owner stack) ≡ some d
      → HashMap.get c.stacks (id stack) ≡ o
      → SameOwner o
      → Adds stack o (add_owned_stack stack o c)
  unfolding add_owned_stack add_new_stack
  add_found d none e fresh _ =
      rw (e, add_new_stack)
        (
          true,
          with_new_stack d,
          refl,
          add_new-IsIndexed d e fresh,
          λ _. HashMap.get-insert_self c.stacks (id stack) stack,
          λ _. refl,
        )
  add_found d (some existing) e known same =
      elim (Bool-cases (leb stack.revision existing.revision)) [
        | inl old ↦ rw old (false, c, refl, v, λ h. cc, λ h. cc)
        | inr newer ↦ rw newer (
          true,
          with_stack,
          refl,
          replace-IsIndexed existing known same,
          λ _. HashMap.get-insert_self c.stacks (id stack) stack,
          λ _. refl,
        )
      ]

  -- For an owner that is known, `add_stack` does not panic, keeps the indexes in agreement, and if it
  -- returns true then the stack is the one held under its id.
  pub add_stack-IsIndexed :
      (d : OwnerData)
      → HashMap.get c.owners (owner stack) ≡ some d
      → SameOwner (HashMap.get c.stacks (id stack))
      → Adds stack (HashMap.get c.stacks (id stack)) (add_stack (owner stack) stack c)
  unfolding add_stack
  add_stack-IsIndexed d e same =
      rw ((eqb_iff (owner stack) (owner stack)).1 refl) (add_found d _ e refl same)

  module _ (fresh : HashMap.get c.owners (owner stack) ≡ none) where
    abbrev pub with_owner : OwnerState → StackCollection
    with_owner state = insert_index state (owner stack) (record c {
      owners = HashMap.insert c.owners (owner stack) (record { state = state; stacks = [] });
    })

    pub with_owner-IsIndexed : (state : OwnerState) → IsIndexed (with_owner state)
    unfolding HashSet.contains
    with_owner-IsIndexed active = record {
      active_index = λ j. ground (
        arith,
        HashMap.get-insert c.owners (owner stack) j (record { state = active; stacks = [] }),
        HashSet.contains-insert c.active_owners (owner stack) j,
        v.active_index j,
      );
      inactive_index = λ j. ground (
        arith,
        HashMap.get-insert c.owners (owner stack) j (record { state = active; stacks = [] }),
        v.inactive_index j,
      );
      owned = λ j k. ground (
        arith,
        HashMap.get-insert c.owners (owner stack) j (record { state = active; stacks = [] }),
        v.owned j k,
      );
      keyed = v.keyed;
    }
    with_owner-IsIndexed inactive = record {
      active_index = λ j. ground (
        arith,
        HashMap.get-insert c.owners (owner stack) j (record { state = inactive; stacks = [] }),
        v.active_index j,
      );
      inactive_index = λ j. ground (
        arith,
        HashMap.get-insert c.owners (owner stack) j (record { state = inactive; stacks = [] }),
        HashSet.contains-insert c.inactive_owners (owner stack) j,
        v.inactive_index j,
      );
      owned = λ j k. ground (
        arith,
        HashMap.get-insert c.owners (owner stack) j (record { state = inactive; stacks = [] }),
        v.owned j k,
      );
      keyed = v.keyed;
    }
