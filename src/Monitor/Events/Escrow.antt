-- ===== src/Monitor/Events/Escrow.antt =====
-- An owner's escrow balance changes (`on_solana_escrow_updated`).
use mu.Base.{
  ◌>>=◌, ◌≡◌, refl, ℕ, sym, ◌∙◌, ap, true, false, Option, none, some, List, [], ◌∷◌, All, map,
  nat_key,
}
use mu.Base.HashMap
use mu.MuStack.{StackId, StackOwner}
use mu.StackMetadata.{StackWithMetadata, id}
use mu.Monitor.Collection.{
  OwnerState, active, inactive, OwnerData, StackCollection, stacks_of_ids, owner_stacks,
  make_active, make_inactive, activate, deactivate,
}
use mu.Monitor.Collection.Indexed.{
  lists, belongs_to, KeyOk, IsIndexed, make_active-IsIndexed, make_inactive-IsIndexed,
}
use mu.Monitor.Collection.Views.{listed_own}
use mu.Monitor.Events.{
  BlockchainMonitorNotification, stacks_available, stacks_removed, MonitorState, Outcome, ok,
  id_modes, state_of_balance, on_solana_escrow_updated, on_owner_escrow, change_state, same_state,
}

-- What an owner's change to a state says about its stacks.
abbrev pub announcement : OwnerState → List StackWithMetadata → BlockchainMonitorNotification
announcement active stacks = stacks_available stacks
announcement inactive stacks = stacks_removed (id_modes stacks)

module _ (c : StackCollection) (v : IsIndexed c) where
  -- The stacks of the owner's ids, one for each of them.
  abbrev Finds : List StackId → Option (List StackWithMetadata) → Type 0
  Finds ks r = (l : List StackWithMetadata) × (r ≡ some l) × (map id l ≡ ks)

  stacks_of_ids-Finds :
      (o : StackOwner) (ks : List StackId)
      → All (λ k. belongs_to o (HashMap.get c.stacks k) ≡ true) ks
      → Finds ks (stacks_of_ids c ks)
  unfolding stacks_of_ids
  stacks_of_ids-Finds o [] all = ([], refl, refl)
  stacks_of_ids-Finds o (k ∷ ks) all =
      cons (HashMap.get c.stacks k) (v.keyed k) all.0 (stacks_of_ids-Finds o ks all.1)
    where
      cons :
          (x : Option StackWithMetadata)
          → KeyOk k x
          → belongs_to o x ≡ true
          → Finds ks (stacks_of_ids c ks)
          → Finds (k ∷ ks) (x >>= λ stack. stacks_of_ids c ks >>= λ stacks. some (stack ∷ stacks))
      cons none key own (l, e, ids) = cc
      cons (some stack) key own (l, e, ids) = (stack ∷ l, rw e refl, rw key (rw ids refl))

  pub owner_stacks-Finds :
      (o : StackOwner) (d : OwnerData)
      → HashMap.get c.owners o ≡ some d
      → Finds d.stacks (owner_stacks c o)
  unfolding owner_stacks
  owner_stacks-Finds o d e = rw e (
      stacks_of_ids-Finds o d.stacks (
        listed_own c v o d.stacks d.stacks (λ k x. x)
          λ k. ap (λ x. lists x k) (sym e) ∙ v.owned o k))

abbrev Changes : StackOwner → OwnerData → OwnerState → MonitorState → Outcome MonitorState → Type 0
Changes o d new s r =
    (s' : MonitorState) × (l : List StackWithMetadata) × (r ≡ ok s')
    × IsIndexed s'.stacks
    × (HashMap.get s'.stacks.owners o ≡ some (record d { state = new }))
    × (s'.notification_channel ≡ announcement new l ∷ s.notification_channel)
    × (map id l ≡ d.stacks)

make_active-changed :
    (o : StackOwner) (d : OwnerData) (c : StackCollection)
    → HashMap.get c.owners o ≡ some d
    → HashMap.get (make_active o c).owners o ≡ some (record d { state = active })
unfolding make_active activate
make_active-changed o d c e = rw (e, make_active) (changed d.state refl)
  where
    changed :
        (s : OwnerState)
        → d.state ≡ s
        → HashMap.get (activate o s d c).owners o ≡ some (record d { state = active })
    changed active h = e ∙ rw (sym h) refl
    changed inactive h = HashMap.get-insert_self c.owners o _

make_inactive-changed :
    (o : StackOwner) (d : OwnerData) (c : StackCollection)
    → HashMap.get c.owners o ≡ some d
    → HashMap.get (make_inactive o c).owners o ≡ some (record d { state = inactive })
unfolding make_inactive deactivate
make_inactive-changed o d c e = rw (e, make_inactive) (changed d.state refl)
  where
    changed :
        (s : OwnerState)
        → d.state ≡ s
        → HashMap.get (deactivate o s d c).owners o ≡ some (record d { state = inactive })
    changed inactive h = e ∙ rw (sym h) refl
    changed active h = HashMap.get-insert_self c.owners o _

change_state-Changes :
    (o : StackOwner) (d : OwnerData) (new : OwnerState) (s : MonitorState)
    → IsIndexed s.stacks
    → HashMap.get s.stacks.owners o ≡ some d
    → Changes o d new s (change_state o new (owner_stacks s.stacks o) s)
unfolding change_state
change_state-Changes o d active s v e =
    let (l, found, ids) = owner_stacks-Finds s.stacks v o d e in
    rw (found, change_state)
      (
        _,
        l,
        refl,
        make_active-IsIndexed o s.stacks v,
        make_active-changed o d s.stacks e,
        refl,
        ids,
      )
change_state-Changes o d inactive s v e =
    let (l, found, ids) = owner_stacks-Finds s.stacks v o d e in
    rw (found, change_state)
      (
        _,
        l,
        refl,
        make_inactive-IsIndexed o s.stacks v,
        make_inactive-changed o d s.stacks e,
        refl,
        ids,
      )

-- If a balance takes a known owner over or under the minimum, the event does not panic, the owner
-- is then in its new state, the indexes still agree, and one notification goes out, which announces
-- or withdraws all the owner's stacks and no others.
pub escrow_change_announced :
    (o : StackOwner) (d : OwnerData) (balance : ℕ) (s : MonitorState)
    → IsIndexed s.stacks
    → HashMap.get s.stacks.owners o ≡ some d
    → same_state d.state (state_of_balance s.min_escrow_balance balance) ≡ false
    → Changes o d
        (state_of_balance s.min_escrow_balance balance)
        s
        (on_solana_escrow_updated o balance s)
unfolding on_solana_escrow_updated on_owner_escrow
escrow_change_announced o d balance s v e changed =
    rw (e, on_owner_escrow)
      (rw changed (
        change_state-Changes o d (state_of_balance s.min_escrow_balance balance)
          (record s { escrow_balances = HashMap.insert s.escrow_balances o balance }) v e))
