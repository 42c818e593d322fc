-- ===== src/Membership/Update/Runs.antt =====
-- Whatever messages come, the notifications stay true to the state.
use mu.Base.{
  ◌≡◌, refl, sym, ap, ◌∙◌, inl, inr, ℕ, Bool, not, Option, none, some, List, [], ◌∷◌, ◌==◌, ◌&&◌,
  nat_key, pair_key, Bool-cases, ◌>>=◌, for_each-keeps, All,
}
use mu.Base.HashMap
use mu.Base.HashMap.{HashMap}
use mu.Scheduler.State.{NodeHash}
use mu.Membership.NodeCollection.{AddressAndPort, NodeAddress, get_by_address}
use mu.Membership.Status.{
  NodeStatus, status_key, get_dead_reason, DbClient, Write, written, failed, refused, out_of_fuel,
  write_status,
}
use mu.Membership.Update.{
  State, drop_missing, on_status, on_statuses, collect_statuses, retained, update_nodes,
  perform_update, body, run, Message, mark_me_dead, my_status, stack_deployed_locally,
  stack_undeployed_locally, get_nodes, get_node, update, stop, same_bytes, same_address,
  with_statuses, with_written,
}
use mu.Membership.Update.Keeps.{Kept, drop_missing-Follows, on_status-Follows}
use mu.Membership.Update.Follows.{Follows, IsInjective}

-- Each status stands under its own address and port.
abbrev pub KeysOk : HashMap AddressAndPort NodeStatus → Type 0
KeysOk all = All (λ (entry : AddressAndPort × NodeStatus). status_key entry.1 ≡ entry.0) all

remove-KeysOk :
    (all : HashMap AddressAndPort NodeStatus) (key : AddressAndPort)
    → KeysOk all
    → KeysOk (HashMap.remove all key)
unfolding HashMap.remove
remove-KeysOk [] key h = tt
remove-KeysOk ((address, new) ∷ rest) key (h, hs) = elim (Bool-cases (address == key)) [
  | inl same ↦ rw same (remove-KeysOk rest key hs)
  | inr other ↦ rw other (h, remove-KeysOk rest key hs)
]

pub collect-KeysOk : (statuses : List NodeStatus) → KeysOk (collect_statuses statuses)
unfolding collect_statuses HashMap.insert
collect-KeysOk statuses =
    for_each-keeps KeysOk _ (λ status all h. (refl, remove-KeysOk all (status_key status) h))
      statuses [] tt

module _ {W : Type 0} (get_hash : NodeAddress → NodeHash) (inj : IsInjective get_hash)
    (before : NodeHash → Bool) where
  retained-KeysOk :
      (s : State W) (all : HashMap AddressAndPort NodeStatus) → KeysOk all → KeysOk (retained s all)
  unfolding retained
  retained-KeysOk s [] h = tt
  retained-KeysOk s ((address, new) ∷ rest) (h, hs) =
      let kept =
        same_bytes new.region_id s.region_id && not (same_address new.address s.my_address) in
      elim (Bool-cases kept) [
        | inl stays ↦ rw stays (h, retained-KeysOk s rest hs)
        | inr goes ↦ rw goes (retained-KeysOk s rest hs)
      ]

  on_statuses-Follows :
      (now : ℕ) (all : HashMap AddressAndPort NodeStatus) (s : State W)
      → KeysOk all
      → Follows get_hash before s
      → Kept get_hash inj before (on_statuses get_hash now all s)
  unfolding on_statuses
  on_statuses-Follows now [] s keys f = (s, refl, f)
  on_statuses-Follows now ((address, new) ∷ rest) s (key, keys) f =
      let (s', done, f') =
        on_status-Follows get_hash inj before new (get_dead_reason s.assume_dead_after now new) s
          f in
      let (s'', done', f'') = on_statuses-Follows now rest s' keys f' in
      (
        s'',
        ap
              (λ a.
                get_by_address s.nodes a
                >>= (λ existing.
                    on_status get_hash new existing (get_dead_reason s.assume_dead_after now new) s)
                >>= on_statuses get_hash now rest)
              (sym key)
            ∙ ap (λ o. o >>= on_statuses get_hash now rest) done
            ∙ done',
        f'',
      )

  update_nodes-Follows :
      (now : ℕ) (statuses : List NodeStatus) (s : State W)
      → Follows get_hash before s
      → Kept get_hash inj before (update_nodes get_hash now statuses s)
  unfolding update_nodes
  update_nodes-Follows now statuses s f =
      let all = retained s (collect_statuses statuses) in
      on_statuses-Follows now all (drop_missing get_hash all s)
        (retained-KeysOk s (collect_statuses statuses) (collect-KeysOk statuses))
        (drop_missing-Follows get_hash inj before all s f)

  module _ (db : DbClient W) (rounds : ℕ) where
    world-Follows :
        (s : State W) (w : W)
        → Follows get_hash before s
        → Follows get_hash before (record s { world = w })
    world-Follows s w f = record { in_sync = f.in_sync; agree = f.agree }

    with_statuses-Follows :
        (now : ℕ) (s : State W) (read : Option (List NodeStatus) × W)
        → Follows get_hash before s
        → Kept get_hash inj before (with_statuses get_hash db rounds now s read)
    with_statuses-Follows now s (none, w) f = (_, refl, world-Follows s w f)
    with_statuses-Follows now s (some statuses, w) f =
        update_nodes-Follows now statuses (record s { world = w }) (world-Follows s w f)

    with_written-Follows :
        (now : ℕ) (s : State W) (done : Write × W)
        → Follows get_hash before s
        → Kept get_hash inj before (with_written get_hash db rounds now s done)
    with_written-Follows now s (written, w) f = with_statuses-Follows now s (db.scan_raw w) f
    with_written-Follows now s (failed, w) f = (_, refl, world-Follows s w f)
    with_written-Follows now s (refused, w) f = (_, refl, world-Follows s w f)
    with_written-Follows now s (out_of_fuel, w) f = (_, refl, world-Follows s w f)

    body-Follows :
        (msg : Message) (s : State W)
        → Follows get_hash before s
        → Kept get_hash inj before (body get_hash db rounds msg s)
    unfolding body perform_update mark_me_dead
    body-Follows (stack_deployed_locally id) s f =
        (_, refl, record { in_sync = f.in_sync; agree = f.agree })
    body-Follows (stack_undeployed_locally id) s f =
        (_, refl, record { in_sync = f.in_sync; agree = f.agree })
    body-Follows get_nodes s f = (s, refl, f)
    body-Follows (get_node hash) s f = (s, refl, f)
    body-Follows (update now) s f =
        with_written-Follows now s
          (write_status db rounds (my_status get_hash db rounds now s) s.world) f
    body-Follows (stop now) s f = (_, refl, world-Follows s _ f)

    -- If no two nodes have one hash, then whatever messages come, and whatever the database does, no
    -- message panics, the maps of the nodes agree, and a node is alive in the state exactly if it is by the
    -- notifications that were sent.
    pub run-Follows :
        (messages : List Message) (s : State W)
        → Follows get_hash before s
        → Kept get_hash inj before (run get_hash db rounds messages s)
    unfolding run
    run-Follows [] s f = (s, refl, f)
    run-Follows (msg ∷ rest) s f =
        let (s', done, f') = body-Follows msg s f in
        let (s'', done', f'') = run-Follows rest s' f' in
        (s'', ap (λ o. o >>= run get_hash db rounds rest) done ∙ done', f'')
