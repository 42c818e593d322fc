-- ===== src/Membership/Update/Live.antt =====
-- Which nodes are told to be alive when a node starts, and from then on.
use mathlib.Core.List.{filter_map}
use mu.Base.{
  ◌≡◌, refl, sym, ap, ◌∙◌, inl, inr, ℕ, Bool, false, not, some, List, [], ◌∷◌, map, arith, ◌==◌,
  ◌&&◌, ◌||◌, nat_key, pair_key, for_each, Bool-cases, eqb_iff,
}
use mu.Base.Distinct.{AllDistinct}
use mu.Base.HashMap
use mu.Base.HashMap.{HashMap}
use mu.Base.HashSet
use mu.MuStack.{StackId}
use mu.Scheduler.State.{NodeHash}
use mu.Membership.NodeCollection.{NodeAddress, RemoteNodeInfo, addr_and_port, store_node}
use mu.Membership.NodeCollection.New.{new-IsInSync}
use mu.Membership.Status.{NodeStatus, DbClient}
use mu.Membership.Update.{State, Message, is_dead, collect_statuses, run}
use mu.Membership.Update.Follows.{IsInjective, is_live, no_collision}
use mu.Membership.Update.Keeps.{Kept}
use mu.Membership.Update.Runs.{collect-KeysOk, run-Follows}
use mu.Membership.Update.Start.{
  Settings, all_nodes, if_live, start, started-AllDistinct, collect-AllDistinct,
}

module _ (get_hash : NodeAddress → NodeHash) (inj : IsInjective get_hash) where
  -- The hash is that of a node in the list.
  abbrev pub is_listed : List (NodeAddress × List StackId) → NodeHash → Bool
  is_listed [] hash = false
  is_listed ((address, stacks) ∷ live) hash = get_hash address == hash || is_listed live hash

  abbrev hashes_of : List RemoteNodeInfo → List NodeHash
  hashes_of ns = map (λ (n : RemoteNodeInfo). get_hash n.address) ns

  hash_apart :
      (n : RemoteNodeInfo) (ns : List RemoteNodeInfo)
      → HashSet.contains (map addr_and_port ns) (addr_and_port n) ≡ false
      → HashSet.contains (hashes_of ns) (get_hash n.address) ≡ false
  unfolding HashSet.contains
  hash_apart n [] h = refl
  hash_apart n (x ∷ xs) h = elim (Bool-cases (get_hash x.address == get_hash n.address)) [
    | inl same ↦
        let one =
          inj x.address n.address ((eqb_iff (get_hash x.address) (get_hash n.address)).0 same) in
        absurd (
          ground (
            arith,
            h,
            ap (λ (a : NodeAddress). a.address) one,
            ap (λ (a : NodeAddress). a.port) one,
          ))
    | inr other ↦ rw other (hash_apart n xs (ground (arith, h)))
  ]

  unlisted :
      (ns : List RemoteNodeInfo) (hash : NodeHash)
      → HashSet.contains (hashes_of ns) hash ≡ false
      → is_listed (filter_map if_live ns) hash ≡ false
  unfolding HashSet.contains filter_map
  unlisted [] hash h = refl
  unlisted (n ∷ ns) hash h =
      let rest = unlisted ns hash (ground (arith, h)) in
      elim (Bool-cases (is_dead n)) [
        | inl dead ↦ rw dead rest
        | inr live ↦ rw live (ground (arith, rest, h))
      ]

  alive-stored :
      (ns : List RemoteNodeInfo) (m : HashMap NodeHash RemoteNodeInfo) (hash : NodeHash)
      → AllDistinct (map addr_and_port ns)
      → is_live (HashMap.get (for_each (store_node get_hash) ns m) hash) ≡ (
          is_listed (filter_map if_live ns) hash
          || (not (HashSet.contains (hashes_of ns) hash) && is_live (HashMap.get m hash)))
  unfolding for_each HashSet.contains filter_map
  alive-stored [] m hash h = refl
  alive-stored (n ∷ ns) m hash (h, hs) =
      let rest = alive-stored ns (store_node get_hash n m) hash hs in
      let got = HashMap.get-insert m (get_hash n.address) hash n in
      let away = hash_apart n ns h in
      let off = unlisted ns (get_hash n.address) away in
      let same = eqb_iff (get_hash n.address) hash in
      rest ∙ elim (Bool-cases (is_dead n)) [
        | inl dead ↦ rw dead (ground (arith, got, away, off, same, dead))
        | inr live ↦ rw live (ground (arith, got, away, off, same, live))
      ]

module _ {W : Type 0} (get_hash : NodeAddress → NodeHash) (inj : IsInjective get_hash)
    (db : DbClient W) (rounds : ℕ) where
  -- If no two nodes have one hash, the node starts without a panic whatever statuses the database has.
  -- Whatever messages come then, none panics, and a node is alive in the state exactly if the last
  -- notification of it says so, or there is none and it is one of those that were told at the start.
  pub run-start-Follows :
      (settings : Settings) (now : ℕ) (statuses : List NodeStatus) (w : W) (messages : List Message)
      → (s : State W) × (live : List (NodeAddress × List StackId)) × (start get_hash settings now
            statuses w
          ≡ some (s, live))
        × Kept get_hash inj (is_listed get_hash inj live) (run get_hash db rounds messages s)
  unfolding start all_nodes
  run-start-Follows settings now statuses w messages =
      let nodes = all_nodes settings now statuses in
      let distinct =
        started-AllDistinct settings now (collect_statuses statuses) (collect-KeysOk statuses)
          (collect-AllDistinct statuses) in
      let (c, made, v, stored) =
        new-IsInSync get_hash (λ c v n. no_collision get_hash c v inj n) nodes distinct in
      let s : State W = record {
        notification_channel = [];
        world = w;
        nodes = c;
        assume_dead_after = settings.assume_dead_after;
        my_version = settings.my_version;
        my_address = settings.my_address;
        deployed_stacks = [];
        region_id = settings.region_id;
      } in
      (
        s,
        filter_map if_live nodes,
        rw made refl,
        run-Follows get_hash inj (is_listed get_hash inj (filter_map if_live nodes)) db rounds
            messages s
            (record {
              in_sync = v;
              agree = λ h. sym (
                  ap (λ m. is_live (HashMap.get m h)) stored
                  ∙ alive-stored get_hash inj nodes [] h distinct
                  ∙ ground (arith, HashMap.get-empty {K = NodeHash} {V = RemoteNodeInfo} h));
            }),
      )
