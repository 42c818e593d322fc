-- ===== src/Membership/Status/Written.antt =====
-- How `write_status` ends, and what stacks a changed status tells.
use mu.Base.{
  ◌≡◌, ◌≢◌, refl, sym, subst, ◌⊎◌, inl, inr, ℕ, zero, suc, ◌<◌, ◌≤◌, Bool, true, false, not, Option,
  none, some, [], ◌∷◌, ◌==◌, ◌&&◌, ◌||◌, ltb, if◌then◌else◌, nat_key, arith, Bool-cases, eqb_iff,
  pair_key,
}
use mu.Base.Distinct.{AllDistinct}
use mu.Base.HashSet
use mu.Base.HashSet.{HashSet}
use mu.MuStack.{StackId}
use mu.Membership.NodeCollection.{AddressAndPort}
use mu.Membership.Status.{
  NodeStatus, status_key, missing_from, compare_deployed_stack_list, DbClient, Write, written,
  refused, out_of_fuel, after_swap, with_existing, write_status,
}

contains-missing_from :
    (current incoming : HashSet StackId) (id : StackId)
    → HashSet.contains (missing_from current incoming) id
      ≡ (HashSet.contains incoming id && not (HashSet.contains current id))
unfolding HashSet.contains missing_from
contains-missing_from current [] id = refl
contains-missing_from current (x ∷ xs) id =
    ground (arith, contains-missing_from current xs id, eqb_iff x id)

abbrev pub TellsChanges : HashSet StackId → HashSet StackId → StackId → Type 0
TellsChanges current incoming id =
    (HashSet.contains incoming id ≡ (
      HashSet.contains (compare_deployed_stack_list current incoming).0 id
      || (HashSet.contains current id
          && not (HashSet.contains (compare_deployed_stack_list current incoming).1 id))))
    × ((HashSet.contains (compare_deployed_stack_list current incoming).0 id ≡ true)
        → HashSet.contains current id ≡ false)
    × ((HashSet.contains (compare_deployed_stack_list current incoming).1 id ≡ true)
        → HashSet.contains current id ≡ true)

missing_from-AllDistinct :
    (current incoming : HashSet StackId)
    → AllDistinct incoming
    → AllDistinct (missing_from current incoming)
unfolding missing_from
missing_from-AllDistinct current [] h = tt
missing_from-AllDistinct current (x ∷ xs) (new, h) =
    let rest = missing_from-AllDistinct current xs h in
    elim (Bool-cases (HashSet.contains current x)) [
      | inl old ↦ rw old rest
      | inr told ↦ rw told (ground (arith, contains-missing_from current xs x, new), rest)
    ]

-- Of two sets, each without repetition: no stack is told twice, neither among the added nor among the
-- removed. Whoever adds the stacks that are told as added to those known before, and takes out those
-- that are told as removed, has the stacks of the new status. What is told as added was not known
-- before, and what is told as removed was.
pub compare_lem :
    (current incoming : HashSet StackId)
    → AllDistinct current
    → AllDistinct incoming
    → AllDistinct (compare_deployed_stack_list current incoming).0
      × AllDistinct (compare_deployed_stack_list current incoming).1
      × ((id : StackId) → TellsChanges current incoming id)
unfolding compare_deployed_stack_list
compare_lem current incoming h h' = (
  missing_from-AllDistinct current incoming h',
  missing_from-AllDistinct incoming current h,
  λ id.
      let added = contains-missing_from current incoming id in
      let removed = contains-missing_from incoming current id in
      (
        ground (arith, added, removed),
        (λ told. ground (arith, added, told)),
        (λ told. ground (arith, removed, told)),
      ),
)

module _ {W : Type 0} (db : DbClient W) where
  -- A number that goes down whenever a swap finds that another has written in between, and that reading
  -- does not raise: the writes of others that are still to come.
  pub record Contended : Type 0 where
    pub others : W → ℕ
    pub reading : (key : AddressAndPort) (w : W) → others (db.get_raw key w).1 ≤ others w
    pub swapping :
        (key : AddressAndPort) (expected : Option NodeStatus) (status : NodeStatus) (w : W)
        → (db.compare_and_swap_raw key expected status w).0 ≡ some false
        → others (db.compare_and_swap_raw key expected status w).1 < others w

  module _ (c : Contended) where
    abbrev Ends : Write × W → Type 0
    Ends done = done.0 ≢ out_of_fuel

    after_swap-Ends :
        (bound : ℕ) (retry : W → Write × W) (swapped : Option Bool × W)
        → ((w : W) → c.others w < bound → Ends (retry w))
        → (swapped.0 ≡ some false → c.others swapped.1 < bound)
        → Ends (after_swap db retry swapped)
    unfolding after_swap
    after_swap-Ends bound retry (none, w) more less = λ e. cc
    after_swap-Ends bound retry (some true, w) more less = λ e. cc
    after_swap-Ends bound retry (some false, w) more less = more w (less refl)

    with_existing-Ends :
        (bound : ℕ) (retry : W → Write × W) (status : NodeStatus)
        (read : Option (Option NodeStatus) × W)
        → ((w : W) → c.others w < bound → Ends (retry w))
        → c.others read.1 ≤ bound
        → Ends (with_existing db retry status read)
    unfolding with_existing
    with_existing-Ends bound retry status (none, w) more less = λ e. cc
    with_existing-Ends bound retry status (some none, w) more less =
        after_swap-Ends bound retry _ more
          λ lost. let down = c.swapping (status_key status) none status w lost in omega arith
    with_existing-Ends bound retry status (some (some existing), w) more less =
        elim (Bool-cases (ltb status.address.generation existing.address.generation)) [
          | inl newer ↦ rw newer (λ e. cc)
          | inr older ↦ rw older (
              after_swap-Ends bound retry _ more λ lost.
                let down = c.swapping (status_key status) (some existing) status w lost in
                omega arith)
        ]

    -- If others write only so often in between, the loop ends: with a round more than that it has written,
    -- refused or failed.
    pub write_status_ends :
        (rounds : ℕ) (status : NodeStatus) (w : W)
        → c.others w < rounds
        → (write_status db rounds status w).0 ≢ out_of_fuel
    unfolding write_status
    write_status_ends zero status w less = absurd (omega arith)
    write_status_ends (suc n) status w less =
        let read = c.reading (status_key status) w in
        with_existing-Ends n (λ w. write_status db n status w) status
          (db.get_raw (status_key status) w) (λ w less. write_status_ends n status w less)
          (omega arith)

  -- The database answers what stands in it, and a swap that expects that writes.
  pub record Keeps (view : W → AddressAndPort → Option NodeStatus) : Type 0 where
    pub reads : (key : AddressAndPort) (w : W) → db.get_raw key w ≡ (some (view w key), w)
    pub swaps :
        (key : AddressAndPort) (status : NodeStatus) (w : W)
        → (db.compare_and_swap_raw key (view w key) status w).0 ≡ some true
    pub stores :
        (key key' : AddressAndPort) (status : NodeStatus) (w : W)
        → view (db.compare_and_swap_raw key (view w key) status w).1 key'
          ≡ (if key == key' then some status else view w key')

  module _ (view : W → AddressAndPort → Option NodeStatus) (k : Keeps view) where
    abbrev pub is_newer : NodeStatus → Option NodeStatus → Bool
    is_newer status none = false
    is_newer status (some existing) = ltb status.address.generation existing.address.generation

    -- The status stands in the database, and the others are as they were.
    abbrev pub IsWritten : NodeStatus → W → Write × W → Type 0
    IsWritten status w done =
        (done.0 ≡ written)
        × ((key : AddressAndPort)
            → view done.1 key ≡ (if status_key status == key then some status else view w key))

    swapped-IsWritten :
        (retry : W → Write × W) (status : NodeStatus) (w : W) (swapped : Option Bool × W)
        → swapped.0 ≡ some true
        → ((key : AddressAndPort)
            → view swapped.1 key ≡ (if status_key status == key then some status else view w key))
        → IsWritten status w (after_swap db retry swapped)
    unfolding after_swap
    swapped-IsWritten retry status w (none, w') e h = absurd cc
    swapped-IsWritten retry status w (some true, w') e h = (refl, h)
    swapped-IsWritten retry status w (some false, w') e h = absurd cc

    abbrev pub WriteOf : NodeStatus → W → Option NodeStatus → Write × W → Type 0
    WriteOf status w existing done =
        ((is_newer status existing ≡ true) × (done ≡ (refused, w)))
        ⊎ ((is_newer status existing ≡ false) × IsWritten status w done)

    existing_cases :
        (retry : W → Write × W) (status : NodeStatus) (w : W) (existing : Option NodeStatus)
        → IsWritten status w
            (after_swap db retry (db.compare_and_swap_raw (status_key status) existing status w))
        → WriteOf status w existing (with_existing db retry status (some existing, w))
    unfolding with_existing
    existing_cases retry status w none put = inr (refl, put)
    existing_cases retry status w (some existing) put =
        elim (Bool-cases (ltb status.address.generation existing.address.generation)) [
          | inl newer ↦ inl (newer, rw newer refl)
          | inr older ↦ inr (older, rw older put)
        ]

    existing-WriteOf :
        (retry : W → Write × W) (status : NodeStatus) (w : W) (existing : Option NodeStatus)
        → view w (status_key status) ≡ existing
        → WriteOf status w existing (with_existing db retry status (some existing, w))
    unfolding with_existing
    existing-WriteOf retry status w existing stands =
        let put =
          subst
            (λ o.
              IsWritten status w
                (after_swap db retry (db.compare_and_swap_raw (status_key status) o status w)))
            stands
            (swapped-IsWritten retry status w
              (db.compare_and_swap_raw (status_key status) (view w (status_key status)) status w)
              (k.swaps (status_key status) status w)
              (λ key'. k.stores (status_key status) key' status w)) in
        existing_cases retry status w existing put

    -- Where no other writes in between, one round is enough: a status of a newer generation stays and the
    -- write is refused, and otherwise the status is written in its place and nothing else changes.
    pub write_status_lem :
        (rounds : ℕ) (status : NodeStatus) (w : W)
        → WriteOf status w (view w (status_key status)) (write_status db (suc rounds) status w)
    unfolding write_status
    write_status_lem rounds status w =
        let retry : W → Write × W = λ w. write_status db rounds status w in
        subst
          (λ read.
            WriteOf status w (view w (status_key status)) (with_existing db retry status read))
          (sym (k.reads (status_key status) w))
          (existing-WriteOf retry status w (view w (status_key status)) refl)
