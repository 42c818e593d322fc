-- ===== src/Deploy/Unslashed.antt =====
-- executor/src/stack/deploy.rs and rust-libs/gateway/src/lib.rs: the leading slashes that deploying takes
-- off the paths of a gateway's endpoints, by a description of its own.
use Prim.Native.String.{[], ◌∷◌}
use Prim.Native.Char.{Char, code}
use mathlib.Core.List.{[], ◌∷◌}
use mathlib.Core.Option
use mu.Base.{
  ◌≡◌, ◌≢◌, refl, subst, ◌⊎◌, inl, inr, Option, none, some, String, ◌==◌, text_key, nat_key, arith,
  for_each, eqb_iff, Bool-cases, Option-cases, In,
}
use mu.Base.HashMap
use mu.MuStack.{HttpMethod, AssemblyAndFunction, Gateway}
use mu.Gateway.{Endpoints, strip_slash, strip_endpoints, collect_endpoint}
use mu.Deploy.{clone_normalized}

abbrev pub StartsBare : String → Type 0
StartsBare [] = Unit
StartsBare (c ∷ s) = code c ≢ b'/'

-- The second text is the first without its leading slashes, but for those after the second.
pub data Unslashed : String → String → Type 0 where
  as_is : {s : String} → StartsBare s → Unslashed s s
  without_one : {c : Char} {s : String} → code c ≡ b'/' → StartsBare s → Unslashed (c ∷ s) s
  without_two :
      {c d : Char} {s : String} → code c ≡ b'/' → code d ≡ b'/' → Unslashed (c ∷ (d ∷ s)) s

strip_slash_twice : (path : String) → Unslashed path (strip_slash (strip_slash path))
unfolding strip_slash
strip_slash_twice [] = as_is tt
strip_slash_twice (c ∷ s) = elim (Bool-cases (code c == b'/')) [
  | inr bare ↦ rw (bare, bare) (as_is λ e. ground (arith, bare, eqb_iff (code c) b'/', e))
  | inl slash ↦ rw slash (second s ((eqb_iff (code c) b'/').0 slash))
]
  where
    second : (s : String) → code c ≡ b'/' → Unslashed (c ∷ s) (strip_slash s)
    second [] one = without_one one tt
    second (d ∷ s) one = elim (Bool-cases (code d == b'/')) [
      | inr bare ↦ rw bare (without_one one λ e. ground (arith, bare, eqb_iff (code d) b'/', e))
      | inl slash ↦ rw slash (without_two one ((eqb_iff (code d) b'/').0 slash))
    ]

abbrev pub Target : Type 0
Target = HashMap.HashMap HttpMethod AssemblyAndFunction

get-In :
    (m : Endpoints) (path : String) (target : Target)
    → HashMap.get m path ≡ some target
    → In (path, target) m
unfolding HashMap.get
get-In [] path target h = absurd cc
get-In ((x, t) ∷ m) path target h = elim (Bool-cases (x == path)) [
  | inl same ↦
      let here : x ≡ path = (text_key.same_iff x path).0 same in
      let found : t ≡ target = ground (arith, h, same) in inl cc
  | inr other ↦ inr (get-In m path target (ground (arith, h, other)))
]

In-remove :
    (m : Endpoints) (path : String) (entry : String × Target)
    → In entry (HashMap.remove m path)
    → In entry m
unfolding HashMap.remove
In-remove [] path entry h = h
In-remove ((x, t) ∷ m) path entry h = elim (Bool-cases (x == path)) [
  | inl same ↦ inr (In-remove m path entry (rw same at h))
  | inr other ↦ elim (rw other at h) [
    | inl e ↦ inl e
    | inr there ↦ inr (In-remove m path entry there)
  ]
]

-- What a round of collecting comes from.
abbrev ComesFrom : Endpoints → String → Target → Type 0
ComesFrom l path target = (k : String) × In (k, target) l × (strip_slash k ≡ path)

collect-ComesFrom :
    (l m : Endpoints) (path : String) (target : Target)
    → In (path, target) (for_each collect_endpoint l m)
    → ComesFrom l path target ⊎ In (path, target) m
unfolding for_each HashMap.insert
collect-ComesFrom [] m path target h = inr h
collect-ComesFrom ((k, v) ∷ l) m path target h =
    elim (collect-ComesFrom l (HashMap.insert m (strip_slash k) v) path target h) [
      | inl (j, there, e) ↦ inl (j, inr there, e)
      | inr (inl e) ↦ inl (k, inl cc, cc)
      | inr (inr there) ↦ inr (In-remove m (strip_slash k) (path, target) there)
    ]

abbrev Holds : Endpoints → String → Type 0
Holds m path = HashMap.get m path ≢ none

insert-Holds :
    (m : Endpoints) (k : String) (v : Target) (path : String)
    → Holds m path
    → Holds (HashMap.insert m k v) path
insert-Holds m k v path h = elim (Bool-cases (k == path)) [
  | inl same ↦ rw (HashMap.get-insert m k path v) (rw same λ e. cc)
  | inr other ↦ rw (HashMap.get-insert m k path v) (rw other h)
]

collect-Holds :
    (l m : Endpoints) (path : String) → Holds m path → Holds (for_each collect_endpoint l m) path
unfolding for_each
collect-Holds [] m path h = h
collect-Holds ((k, v) ∷ l) m path h =
    collect-Holds l (HashMap.insert m (strip_slash k) v) path
      (insert-Holds m (strip_slash k) v path h)

collect-In :
    (l m : Endpoints) (k : String) (v : Target)
    → In (k, v) l
    → Holds (for_each collect_endpoint l m) (strip_slash k)
unfolding for_each
collect-In [] m k v h = absurd h.lower
collect-In ((j, w) ∷ l) m k v (inl e) =
    let same : j ≡ k = cc in
    collect-Holds l (HashMap.insert m (strip_slash j) w) (strip_slash k) (
      subst (λ i. Holds (HashMap.insert m (strip_slash j) w) (strip_slash i)) same
        (rw (HashMap.get-insert_self m (strip_slash j) w) λ e. cc))
collect-In ((j, w) ∷ l) m k v (inr there) =
    collect-In l (HashMap.insert m (strip_slash j) w) k v there

-- Each endpoint that is deployed is one of the gateway's own, under its path without the slashes, and
-- under the path of each of the gateway's own one is deployed.
abbrev pub AreUnslashed : Endpoints → Endpoints → Type 0
AreUnslashed own deployed =
    ((path : String) (target : Target)
      → HashMap.get deployed path ≡ some target
      → (k : String) × In (k, target) own × Unslashed k path)
    × ((k : String) (target : Target)
        → In (k, target) own
        → (path : String) × Unslashed k path
          × ((other : Target) × (HashMap.get deployed path ≡ some other)))

both-AreUnslashed :
    (own : Endpoints)
    → AreUnslashed own (for_each collect_endpoint (for_each collect_endpoint own []) [])
both-AreUnslashed own =
    let once = for_each collect_endpoint own [] in
    let twice = for_each collect_endpoint once [] in
    (
      λ path target h. elim (collect-ComesFrom once [] path target (get-In twice path target h)) [
        | inr nowhere ↦ absurd nowhere.lower
        | inl (j, there, e) ↦ elim (collect-ComesFrom own [] j target there) [
          | inr nowhere ↦ absurd nowhere.lower
          | inl (k, first, e') ↦ (
            k,
            first,
            subst (λ p. Unslashed k p) e
                (subst (λ q. Unslashed k (strip_slash q)) e' (strip_slash_twice k)),
          )
        ]
      ],
      λ k target h.
          let kept = collect-In own [] k target h in
          elim (Option-cases (HashMap.get once (strip_slash k))) [
            | inl lost ↦ absurd (kept lost)
            | inr (mid, found) ↦
                let last =
                  collect-In once [] (strip_slash k) mid (get-In once (strip_slash k) mid found) in
                elim (Option-cases (HashMap.get twice (strip_slash (strip_slash k)))) [
                  | inl lost ↦ absurd (last lost)
                  | inr (other, there) ↦
                      (strip_slash (strip_slash k), strip_slash_twice k, (other, there))
                ]
          ],
    )

-- What stands at a name, if this gateway of the stack has the name, or none has.
abbrev pub IsDeployed : Option Gateway → Option Gateway → Type 0
IsDeployed none none = Unit
IsDeployed none (some there) = ⊥
IsDeployed (some own) none = ⊥
IsDeployed (some own) (some there) =
    (there.name ≡ own.name) × AreUnslashed own.endpoints there.endpoints

pub stripped-IsDeployed :
    (own : Option Gateway)
    → IsDeployed own (Option.map (λ gw. strip_endpoints (clone_normalized gw)) own)
unfolding clone_normalized strip_endpoints
stripped-IsDeployed none = tt
stripped-IsDeployed (some own) = (refl, both-AreUnslashed own.endpoints)
