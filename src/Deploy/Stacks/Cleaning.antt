-- ===== src/Deploy/Stacks/Cleaning.antt =====
-- What cleaning up after a deployment removes, and when it fails.
use mu.Base.{
  ◌≡◌, refl, ◌∙◌, ◌⊎◌, inl, inr, Bool, true, false, not, none, some, List, [], ◌∷◌, String, ◌==◌,
  ◌&&◌, ◌||◌, is_empty, text_key, nat_key, arith, Bool-cases, Option-cases,
}
use mu.Base.HashSet
use mu.MuStack.{StackId}
use mu.Runtime.{AssemblyDefinition}
use mu.Deploy.{names_to_remove}
use mu.Deploy.Exactly.{contains-names_to_remove}
use mu.Deploy.Stacks.{Runtime, Database, Storage, remove_old_functions}

abbrev pub is_named : StackId → String → List AssemblyDefinition → Bool
is_named id name [] = false
is_named id name (d ∷ ds) = (d.stack_id == id && d.assembly_name == name) || is_named id name ds

-- What the runtime does with its functions. Adding is all or nothing. Asking for the names may fail and
-- changes nothing. Removing may fail and then may have removed some, but only of those it was told.
pub record Laws {R : Type 0} (runtime : Runtime R) (has : R → StackId → String → Bool)
    : Type 0 where
  pub added :
      (defs : List AssemblyDefinition) (r : R)
      → (runtime.add_functions defs r).0 ≡ true
      → (id : StackId) (name : String)
      → has (runtime.add_functions defs r).1 id name ≡ (is_named id name defs || has r id name)
  pub refused :
      (defs : List AssemblyDefinition) (r : R)
      → (runtime.add_functions defs r).0 ≡ false
      → (id : StackId) (name : String)
      → has (runtime.add_functions defs r).1 id name ≡ has r id name
  pub asked :
      (id : StackId) (r : R) (other : StackId) (name : String)
      → has (runtime.get_function_names id r).1 other name ≡ has r other name
  pub named :
      (id : StackId) (r : R) (names : List String)
      → (runtime.get_function_names id r).0 ≡ some names
      → (name : String) → HashSet.contains names name ≡ has r id name
  pub spared :
      (id : StackId) (names : List String) (r : R) (other : StackId) (name : String)
      → (id == other && HashSet.contains names name) ≡ false
      → has (runtime.remove_functions id names r).1 other name ≡ has r other name
  pub only_removes :
      (id : StackId) (names : List String) (r : R) (other : StackId) (name : String)
      → has (runtime.remove_functions id names r).1 other name ≡ true
      → has r other name ≡ true
  pub removed :
      (id : StackId) (names : List String) (r : R)
      → (runtime.remove_functions id names r).0 ≡ true
      → (name : String) → HashSet.contains names name ≡ true
      → has (runtime.remove_functions id names r).1 id name ≡ false

none_old :
    (old : List String) (name : String) → is_empty old ≡ true → HashSet.contains old name ≡ false
unfolding HashSet.contains
none_old [] name e = refl
none_old (x ∷ xs) name e = absurd cc

none_listed : (wanted : List String) → is_empty (names_to_remove wanted []) ≡ true
unfolding names_to_remove
none_listed wanted = refl

module _ {R D S : Type 0} (runtime : Runtime R) (db : Database D) (storage : Storage S)
    (has : R → StackId → String → Bool) (laws : Laws runtime has) where
  -- In a state where the stack has these functions, the runtime does not list them, or does not remove
  -- those that are not wanted.
  abbrev pub CleaningFails : StackId → List String → (String → Bool) → Type 0
  CleaningFails id wanted there =
      (r : R) × ((name : String) → has r id name ≡ there name)
      × (((runtime.get_function_names id r).0 ≡ none)
          ⊎ ((old : List String) × ((name : String)
                → HashSet.contains old name ≡ (there name && not (HashSet.contains wanted name)))
              × ((runtime.remove_functions id old r).0 ≡ false)))

  abbrev pub Cleaned : StackId → List String → R → R → Type 0
  Cleaned id wanted r after =
      ((other : StackId) (name : String)
        → (id == other && not (HashSet.contains wanted name)) ≡ false
        → has after other name ≡ has r other name)
      × ((other : StackId) (name : String) → has after other name ≡ true → has r other name ≡ true)
      × (((name : String) → HashSet.contains wanted name ≡ false → has after id name ≡ false)
          ⊎ CleaningFails id wanted (has r id))

  pub remove_old_lem :
      (id : StackId) (wanted : List String) (r : R)
      → Cleaned id wanted r (remove_old_functions runtime db storage id wanted r)
  unfolding remove_old_functions
  remove_old_lem id wanted r =
      let asked = runtime.get_function_names id r in
      elim (Option-cases asked.0) [
        | inl silent ↦
            rw (remove_old_functions, silent, none_listed wanted)
              (
                (λ other name kept. laws.asked id r other name),
                (λ other name h. ground (arith, laws.asked id r other name, h)),
                inr (r, (λ name. refl), inl silent),
              )
        | inr (names, told) ↦
            let old = names_to_remove wanted names in
            let contained = contains-names_to_remove wanted names in
            elim (Bool-cases (is_empty old)) [
              | inl empty ↦
                  rw (remove_old_functions, told, empty)
                    (
                      (λ other name kept. laws.asked id r other name),
                      (λ other name h. ground (arith, laws.asked id r other name, h)),
                      inl (λ name unwanted. ground (
                        arith,
                        none_old old name empty,
                        contained name,
                        laws.named id r names told name,
                        laws.asked id r id name,
                        unwanted,
                      )),
                    )
              | inr some_old ↦
                  rw (remove_old_functions, told, some_old)
                    (
                      (λ other name kept.
                          laws.spared id old asked.1 other name
                            (ground (arith, contained name, kept))
                          ∙ laws.asked id r other name),
                      (λ other name h.
                          let before = laws.only_removes id old asked.1 other name h in
                          ground (arith, laws.asked id r other name, before)),
                      elim (Bool-cases (runtime.remove_functions id old asked.1).0) [
                        | inr failed ↦ inr (
                          asked.1,
                          (λ name. laws.asked id r id name),
                          inr (
                            old,
                            (λ name.
                                ground (arith, contained name, laws.named id r names told name)),
                            failed,
                          ),
                        )
                        | inl fine ↦ inl λ name unwanted.
                            let listed = laws.named id r names told name in
                            let here = laws.asked id r id name in
                            let gone = laws.removed id old asked.1 fine name in
                            let never = laws.only_removes id old asked.1 id name in
                            elim (Bool-cases (HashSet.contains old name)) [
                              | inl there ↦ gone there
                              | inr absent ↦
                                  elim (Bool-cases
                                    (has (runtime.remove_functions id old asked.1).1 id name)) [
                                      | inr lost ↦ lost
                                      | inl had ↦
                                          let was = never had in
                                          absurd (
                                            ground (
                                              arith,
                                              contained name,
                                              listed,
                                              here,
                                              was,
                                              absent,
                                              unwanted,
                                            ))
                                    ]
                            ]
                      ],
                    )
            ]
      ]
