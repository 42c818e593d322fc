-- ===== src/Membership/Update/Start.antt =====
-- executor/src/network/membership.rs: `start`, up to the mailbox, on the statuses that the database has.
use mathlib.Core.List.{filter_map}
use mu.Base.{
  ◌≡◌, refl, sym, ◌∙◌, subst, ◌⊎◌, inl, inr, ℕ, false, Option, none, some, List, [], ◌∷◌, map,
  arith, ◌==◌, ◌&&◌, if◌then◌else◌, nat_key, pair_key, for_each-keeps, Bool-cases, ◌>>=◌,
}
use mu.Base.Distinct.{AllDistinct}
use mu.Base.HashMap
use mu.Base.HashMap.{HashMap}
use mu.Base.HashSet
use mu.MuStack.{StackId}
use mu.Scheduler.State.{NodeHash}
use mu.Membership.NodeCollection.{AddressAndPort, NodeAddress, RemoteNodeInfo, addr_and_port, new}
use mu.Membership.Status.{NodeStatus, status_key, get_dead_reason}
use mu.Membership.Update.{State, is_dead, same_bytes, collect_statuses}
use mu.Membership.Update.Runs.{KeysOk}

-- What the node is started with.
pub record Settings : Type 0 where
  pub my_version : ℕ
  pub my_address : NodeAddress
  pub region_id : List ℕ
  pub assume_dead_after : ℕ

-- The other nodes of the region.
abbrev pub started_node : Settings → ℕ → AddressAndPort × NodeStatus → Option RemoteNodeInfo
started_node settings now (key, v) =
    if same_bytes v.region_id settings.region_id
    then if v.address.address == settings.my_address.address
        && v.address.port == settings.my_address.port
      then none
      else some (record {
        version = v.version;
        address = v.address;
        dead_reason = get_dead_reason settings.assume_dead_after now v;
        deployed_stacks = v.deployed_stacks;
      })
    else none

unfoldable pub all_nodes : Settings → ℕ → List NodeStatus → List RemoteNodeInfo
all_nodes settings now statuses = filter_map (started_node settings now) (collect_statuses statuses)

abbrev pub if_live : RemoteNodeInfo → Option (NodeAddress × List StackId)
if_live n = if is_dead n then none else some (n.address, n.deployed_stacks)

-- The state, and the nodes that are told to be alive; `none` is a panic.
unfoldable pub start :
    {W : Type 0} (get_hash : NodeAddress → NodeHash)
    → Settings
    → ℕ
    → List NodeStatus
    → W
    → Option (State W × List (NodeAddress × List StackId))
start get_hash settings now statuses w =
    let nodes = all_nodes settings now statuses in
    new get_hash nodes >>= λ c. some (
      record {
        notification_channel = [];
        world = w;
        nodes = c;
        assume_dead_after = settings.assume_dead_after;
        my_version = settings.my_version;
        my_address = settings.my_address;
        deployed_stacks = [];
        region_id = settings.region_id;
      },
      filter_map if_live nodes,
    )

abbrev keys_of : HashMap AddressAndPort NodeStatus → List AddressAndPort
keys_of m = map (λ (key, v). key) m

contains-keys_remove :
    (m : HashMap AddressAndPort NodeStatus) (key k : AddressAndPort)
    → HashSet.contains (keys_of (HashMap.remove m key)) k
      ≡ (if key == k then false else HashSet.contains (keys_of m) k)
unfolding HashSet.contains HashMap.remove
contains-keys_remove [] key k = ground arith
contains-keys_remove ((j, v) ∷ m) key k = ground (
  arith,
  contains-keys_remove m key k,
  pair_key.same_iff j key,
  pair_key.same_iff j k,
  pair_key.same_iff key k,
)

remove-AllDistinct :
    (m : HashMap AddressAndPort NodeStatus) (key : AddressAndPort)
    → AllDistinct (keys_of m)
    → AllDistinct (keys_of (HashMap.remove m key))
unfolding HashMap.remove
remove-AllDistinct [] key h = tt
remove-AllDistinct ((j, v) ∷ m) key (h, hs) = elim (Bool-cases (j == key)) [
  | inl same ↦ rw same (remove-AllDistinct m key hs)
  | inr other ↦
      rw other (ground (arith, contains-keys_remove m key j, h), remove-AllDistinct m key hs)
]

pub collect-AllDistinct :
    (statuses : List NodeStatus) → AllDistinct (keys_of (collect_statuses statuses))
unfolding collect_statuses HashMap.insert
collect-AllDistinct statuses =
    for_each-keeps (λ m. AllDistinct (keys_of m)) _
      (λ status m h. (
        ground (
          arith,
          contains-keys_remove m (status_key status) (status_key status),
          pair_key.same_iff (status_key status) (status_key status),
        ),
        remove-AllDistinct m (status_key status) h,
      ))
      statuses [] tt

started_cases :
    (settings : Settings) (now : ℕ) (k : AddressAndPort) (v : NodeStatus)
    → (started_node settings now (k, v) ≡ none)
      ⊎ ((n : RemoteNodeInfo) × (started_node settings now (k, v) ≡ some n)
          × (addr_and_port n ≡ status_key v))
started_cases settings now k v = elim (Bool-cases (same_bytes v.region_id settings.region_id)) [
  | inr off ↦ rw off (inl refl)
  | inl on ↦
      elim (Bool-cases (
        v.address.address == settings.my_address.address
        && v.address.port == settings.my_address.port)) [
          | inl mine ↦ rw (on, mine) (inl refl)
          | inr other ↦ rw (on, other) (inr (_, refl, refl))
        ]
]

-- A node stands at the key of its status.
contains-started :
    (settings : Settings) (now : ℕ) (m : HashMap AddressAndPort NodeStatus) (key : AddressAndPort)
    → KeysOk m
    → HashSet.contains (keys_of m) key ≡ false
    → HashSet.contains (map addr_and_port (filter_map (started_node settings now) m)) key ≡ false
unfolding HashSet.contains filter_map
contains-started settings now [] key keys h = refl
contains-started settings now ((k, v) ∷ m) key (at, keys) h =
    let rest = contains-started settings now m key keys (ground (arith, h)) in
    elim (started_cases settings now k v) [
      | inl left_out ↦ rw left_out rest
      | inr (n, made, here) ↦
          let off : (k == key) ≡ false = ground (arith, h) in
          let away = subst (λ (a : AddressAndPort). (a == key) ≡ false) (sym (here ∙ at)) off in
          rw made (ground (arith, away, rest))
    ]

pub started-AllDistinct :
    (settings : Settings) (now : ℕ) (m : HashMap AddressAndPort NodeStatus)
    → KeysOk m
    → AllDistinct (keys_of m)
    → AllDistinct (map addr_and_port (filter_map (started_node settings now) m))
unfolding filter_map
started-AllDistinct settings now [] keys h = tt
started-AllDistinct settings now ((k, v) ∷ m) (at, keys) (h, hs) =
    let rest = started-AllDistinct settings now m keys hs in
    elim (started_cases settings now k v) [
      | inl left_out ↦ rw left_out rest
      | inr (n, made, here) ↦ rw made (
        subst
            (λ key.
              HashSet.contains (map addr_and_port (filter_map (started_node settings now) m)) key
              ≡ false)
            (sym (here ∙ at)) (contains-started settings now m k keys h),
        rest,
      )
    ]
