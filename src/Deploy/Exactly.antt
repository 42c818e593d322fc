-- ===== src/Deploy/Exactly.antt =====
-- Which gateways are deployed after `deploy_gateways`.
use mathlib.Core.Option
use mu.Base.{
  ◌≡◌, ◌≢◌, refl, ap, sym, subst, ◌∙◌, inl, inr, true, false, not, Option, none, some, List, [],
  ◌∷◌, map, String, ◌==◌, ◌&&◌, if◌then◌else◌, nat_key, text_key, arith, for_each, eqb_iff,
  Bool-cases, Option-cases, ◌>>=◌,
}
use mu.Base.HashMap
use mu.Base.HashMap.{HashMap}
use mu.Base.HashSet
use mu.MuStack.{StackId, Gateway, Stack, gateways}
use mu.Gateway.{Gateways, deploy_gateway, strip_endpoints, or_empty}
use mu.Gateway
use mu.Deploy.Unslashed.{IsDeployed, stripped-IsDeployed}
use mu.Deploy.{
  gateway_manager, clone_normalized, names_to_remove, names_or_none, delete_others, after_deployed,
  deploy_gateways,
}

-- The last gateway that has the name.
abbrev pub last_named : String → List Gateway → Option Gateway
last_named name [] = none
last_named name (gw ∷ rest) = elim (last_named name rest) [
  | none ↦ if gw.name == name then some gw else none
  | some later ↦ some later
]

abbrev pub find_gateway : Gateways → StackId → String → Option Gateway
find_gateway g id name = HashMap.get g id >>= λ entry. HashMap.get entry name

abbrev replaced_by : Option Gateway → Option Gateway → Option Gateway
replaced_by none before = before
replaced_by (some gw) before = some (strip_endpoints gw)

get-deployed :
    (incoming : List Gateway) (entry : HashMap String Gateway) (name : String)
    → HashMap.get (for_each deploy_gateway incoming entry) name
      ≡ replaced_by (last_named name incoming) (HashMap.get entry name)
unfolding for_each
get-deployed [] entry name = refl
get-deployed (gw ∷ rest) entry name =
    get-deployed rest (deploy_gateway gw entry) name
    ∙ ground (arith, HashMap.get-insert entry gw.name name (strip_endpoints gw))

get-deleted :
    (names : List String) (entry : HashMap String Gateway) (name : String)
    → HashMap.get (for_each (λ name entry. HashMap.remove entry name) names entry) name
      ≡ (if HashSet.contains names name then none else HashMap.get entry name)
unfolding for_each HashSet.contains
get-deleted [] entry name = refl
get-deleted (x ∷ xs) entry name =
    get-deleted xs (HashMap.remove entry x) name ∙ ground (arith, HashMap.get-remove entry x name)

pub contains-names_to_remove :
    (wanted existing : List String) (name : String)
    → HashSet.contains (names_to_remove wanted existing) name
      ≡ (HashSet.contains existing name && not (HashSet.contains wanted name))
unfolding names_to_remove HashSet.contains
contains-names_to_remove wanted [] name = refl
contains-names_to_remove wanted (x ∷ xs) name =
    ground (arith, contains-names_to_remove wanted xs name, text_key.same_iff x name)

abbrev keys_of : HashMap String Gateway → List String
keys_of entry = map (λ (name, gateway). name) entry

contains-keys :
    (entry : HashMap String Gateway) (name : String)
    → HashSet.contains (keys_of entry) name ≡ HashMap.contains_key entry name
unfolding HashSet.contains HashMap.contains_key HashMap.get
contains-keys [] name = refl
contains-keys ((x, gw) ∷ rest) name = ground (arith, contains-keys rest name)

last_named-normalized :
    (name : String) (gws : List Gateway)
    → last_named name (map clone_normalized gws) ≡ Option.map clone_normalized (last_named name gws)
unfolding clone_normalized
last_named-normalized name [] = refl
last_named-normalized name (gw ∷ rest) = ground (arith, last_named-normalized name rest)

named-contains :
    (name : String) (gws : List Gateway)
    → HashSet.contains (map (λ (gw : Gateway). gw.name) gws) name
      ≡ elim (last_named name gws) [ none ↦ false | some gw ↦ true ]
unfolding HashSet.contains
named-contains name [] = refl
named-contains name (gw ∷ rest) = ground (arith, named-contains name rest)

-- What is at a name, once the stack's gateways are added and the others are deleted.
settled :
    (gws : List Gateway) (entry : HashMap String Gateway) (name : String)
    → HashMap.get
        (for_each
          (λ name entry. HashMap.remove entry name)
          (names_to_remove
            (map (λ (gw : Gateway). gw.name) gws)
            (keys_of (for_each deploy_gateway (map clone_normalized gws) entry)))
          (for_each deploy_gateway (map clone_normalized gws) entry))
        name
      ≡ Option.map (λ gw. strip_endpoints (clone_normalized gw)) (last_named name gws)
unfolding HashMap.contains_key
settled gws entry name =
    let wanted = map (λ (gw : Gateway). gw.name) gws in
    let deployed = for_each deploy_gateway (map clone_normalized gws) entry in
    let gone = get-deleted (names_to_remove wanted (keys_of deployed)) deployed name in
    let removed = contains-names_to_remove wanted (keys_of deployed) name in
    let keys = contains-keys deployed name in
    let named = named-contains name gws in
    let there = get-deployed (map clone_normalized gws) entry name in
    let normal = last_named-normalized name gws in
    gone ∙ elim (Option-cases (last_named name gws)) [
      | inl none_named ↦ ground (arith, removed, keys, named, none_named)
      | inr (gw, found) ↦ ground (arith, removed, named, found, there, normal)
    ]

elsewhere :
    (g : Gateways) (id : StackId) (entry entry' : HashMap String Gateway) (other : StackId)
    → id ≢ other
    → HashMap.get (HashMap.insert (HashMap.insert g id entry) id entry') other ≡ HashMap.get g other
elsewhere g id entry entry' other apart = elim (Bool-cases (id == other)) [
  | inl same ↦ absurd (apart ((eqb_iff id other).0 same))
  | inr off ↦
      HashMap.get-insert (HashMap.insert g id entry) id other entry'
      ∙ rw off (HashMap.get-insert g id other entry ∙ rw off refl)
]

abbrev pub DeploysExactly : StackId → Stack → Gateways → Type 0
DeploysExactly id stack g =
    ((deploy_gateways gateway_manager id stack g).0 ≡ true)
    × ((name : String)
        → IsDeployed (last_named name (gateways stack))
            (find_gateway (deploy_gateways gateway_manager id stack g).1 id name))
    × ((other : StackId)
        → id ≢ other
        → HashMap.get (deploy_gateways gateway_manager id stack g).1 other ≡ HashMap.get g other)

delete_present :
    (g : Gateways) (id : StackId) (names : List String) (entry : HashMap String Gateway)
    → HashMap.get g id ≡ some entry
    → mu.Gateway.delete_gateways g id names
      ≡ HashMap.insert g id (for_each (λ name entry. HashMap.remove entry name) names entry)
unfolding mu.Gateway.delete_gateways
delete_present g id names entry there = rw (mu.Gateway.delete_gateways, there) refl

-- The two calls that change the manager's state.
both_calls :
    (id : StackId) (stack : Stack) (g : Gateways)
    → (deploy_gateways gateway_manager id stack g).1 ≡ (
        let entry =
          for_each deploy_gateway
            (map clone_normalized (gateways stack))
            (or_empty (HashMap.get g id)) in
        HashMap.insert (HashMap.insert g id entry) id (
          for_each
            (λ name entry. HashMap.remove entry name)
            (names_to_remove (map (λ (gw : Gateway). gw.name) (gateways stack)) (keys_of entry))
            entry))
unfolding deploy_gateways after_deployed delete_others mu.Gateway.deploy_gateways
    mu.Gateway.delete_gateways mu.Gateway.get_deployed_gateway_names
both_calls id stack g =
    let entry =
      for_each deploy_gateway (map clone_normalized (gateways stack))
        (or_empty (HashMap.get g id)) in
    let there = HashMap.get-insert_self g id entry in
    let wanted = map (λ (gw : Gateway). gw.name) (gateways stack) in
    ap
      (λ o. mu.Gateway.delete_gateways (HashMap.insert g id entry) id (
        names_to_remove wanted
          (names_or_none (some (Option.map (map (λ (name, gateway). name)) o)))))
      there
    ∙ delete_present (HashMap.insert g id entry) id (names_to_remove wanted (keys_of entry)) entry
        there

-- Whatever was deployed before, after deploying a stack a name has a gateway exactly if the stack has one
-- of that name, the later of two. It has the name and the endpoints of the stack's own: each that is
-- deployed is one of its own, under its path without up to two leading slashes, and for each of its own
-- there is one under the path that remains. Nothing changes for other stacks.
pub deploy_gateways_lem : (id : StackId) (stack : Stack) (g : Gateways) → DeploysExactly id stack g
unfolding deploy_gateways after_deployed delete_others
deploy_gateways_lem id stack g =
    let entry =
      for_each deploy_gateway (map clone_normalized (gateways stack))
        (or_empty (HashMap.get g id)) in
    let calls = both_calls id stack g in
    (
      refl,
      (λ name.
          let there =
            ap (λ g. find_gateway g id name) calls
            ∙ rw (HashMap.get-insert_self (HashMap.insert g id entry) id _)
                (settled (gateways stack) (or_empty (HashMap.get g id)) name) in
          subst (IsDeployed (last_named name (gateways stack))) (sym there)
            (stripped-IsDeployed (last_named name (gateways stack)))),
      (λ other apart. ap (λ g. HashMap.get g other) calls ∙ elsewhere g id entry _ other apart),
    )
