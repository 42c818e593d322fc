-- ===== src/Scheduler/Agreement.antt =====
-- What `get_closest_node` finds, on one node and on all nodes of a cluster.
use mu.Base.{
  ℕ, ◌≤◌, ◌<◌, ◌≡◌, ◌≢◌, refl, ap, ◌⊎◌, inl, inr, true, List, [], ◌∷◌, All, arith, ltb, ltb→lt,
  ltb-false→le, Bool-cases, nat_key,
}
use mu.Base.HashSet.{contains, All-contains}
use mu.MuStack.{StackId}
use mu.Scheduler.State.{NodeHash}
use mu.Scheduler.Closest.{GetClosestNodeResult, me, other, closest_loop, get_closest_node}

module _ (xor : ℕ → ℕ → ℕ) (id : StackId) where
  abbrev distance : NodeHash → ℕ
  distance node = xor id node

  -- The loop keeps its start, or ends with the nearest of the nodes, which is strictly nearer.
  abbrev Improves : List NodeHash → ℕ → GetClosestNodeResult → GetClosestNodeResult → Type 0
  Improves others bound start r =
      ((r ≡ start) × All (λ n. bound ≤ distance n) others)
      ⊎ ((n : NodeHash) × (r ≡ other n)
          × (contains others n ≡ true)
          × (distance n < bound)
          × All (λ m. distance n ≤ distance m) others)

  nearer-Improves :
      (n : NodeHash) (others : List NodeHash) (bound : ℕ) (start r : GetClosestNodeResult)
      → distance n < bound
      → Improves others (distance n) (other n) r
      → Improves (n ∷ others) bound start r
  unfolding contains
  nearer-Improves n others bound start r near (inl (e, all)) =
      inr (n, e, ground arith, near, (omega arith, all))
  nearer-Improves n others bound start r near (inr (m, e, found, less, all)) =
      inr (m, e, ground arith, omega arith, (omega arith, all))

  farther-Improves :
      (n : NodeHash) (others : List NodeHash) (bound : ℕ) (start r : GetClosestNodeResult)
      → bound ≤ distance n
      → Improves others bound start r
      → Improves (n ∷ others) bound start r
  unfolding contains
  farther-Improves n others bound start r far (inl (e, all)) = inl (e, (far, all))
  farther-Improves n others bound start r far (inr (m, e, found, less, all)) =
      inr (m, e, ground arith, less, (omega arith, all))

  closest_loop-Improves :
      (others : List NodeHash) (bound : ℕ) (start : GetClosestNodeResult)
      → Improves others bound start (closest_loop xor id others bound start)
  unfolding closest_loop
  closest_loop-Improves [] bound start = inl (refl, tt)
  closest_loop-Improves (n ∷ others) bound start = elim (Bool-cases (ltb (distance n) bound)) [
    | inl near ↦ rw near (
        nearer-Improves n others bound start _ (ltb→lt _ _ near)
          (closest_loop-Improves others (distance n) (other n)))
    | inr far ↦ rw far (
        farther-Improves n others bound start _ (ltb-false→le _ _ far)
          (closest_loop-Improves others bound start))
  ]

  -- What the result says of the node that asks and of the others.
  abbrev pub IsNearest : NodeHash → List NodeHash → GetClosestNodeResult → Type 0
  IsNearest my_hash others me = All (λ m. distance my_hash ≤ distance m) others
  IsNearest my_hash others (other n) =
      (contains others n ≡ true)
      × (distance n < distance my_hash)
      × All (λ m. distance n ≤ distance m) others

  Improves-IsNearest :
      (my_hash : NodeHash) (others : List NodeHash) (r : GetClosestNodeResult)
      → Improves others (distance my_hash) me r
      → IsNearest my_hash others r
  Improves-IsNearest my_hash others r (inl (e, all)) = rw e all
  Improves-IsNearest my_hash others r (inr (n, e, found, less, all)) = rw e (found, less, all)

  -- `get_closest_node` answers `Me` exactly if no other node is nearer to the stack than this one,
  -- and otherwise names one of the others that is strictly nearer, and no farther than any other.
  pub get_closest_node-IsNearest :
      (my_hash : NodeHash) (others : List NodeHash)
      → IsNearest my_hash others (get_closest_node xor id my_hash others)
  unfolding get_closest_node
  get_closest_node-IsNearest my_hash others =
      Improves-IsNearest my_hash others _ (closest_loop-Improves others (distance my_hash) me)

  abbrev the_node : NodeHash → GetClosestNodeResult → NodeHash
  the_node my_hash me = my_hash
  the_node my_hash (other n) = n

  -- The node `l` of the cluster takes the stack, and every other node leaves it to `l`.
  abbrev pub Leads : List NodeHash → NodeHash → Type 0
  Leads nodes l =
      (contains nodes l ≡ true)
      × (get_closest_node xor id l nodes ≡ me)
      × ((m : NodeHash)
          → contains nodes m ≡ true
          → m ≢ l
          → get_closest_node xor id m nodes ≡ other l)

  module _ (cancel : (a b c : ℕ) → xor a b ≡ xor a c → b ≡ c) (nodes : List NodeHash) where
    leads_self :
        (l : NodeHash) (r : GetClosestNodeResult)
        → All (λ m. distance l ≤ distance m) nodes
        → IsNearest l nodes r
        → r ≡ me
    leads_self l me all near = refl
    leads_self l (other n) all (found, less, near) =
        absurd (omega (arith, All-contains (λ m. distance l ≤ distance m) nodes n all found))

    follows :
        (l m : NodeHash) (r : GetClosestNodeResult)
        → contains nodes l ≡ true
        → All (λ n. distance l ≤ distance n) nodes
        → contains nodes m ≡ true
        → m ≢ l
        → IsNearest m nodes r
        → r ≡ other l
    follows l m me found all known ne near = absurd (
        ne (
          cancel id m l (
            omega (
              arith,
              All-contains (λ n. distance l ≤ distance n) nodes m all known,
              All-contains (λ n. distance m ≤ distance n) nodes l near found,
            ))))
    follows l m (other n) found all known ne (there, less, near) = ap other (
        cancel id n l (
          omega (
            arith,
            All-contains (λ k. distance l ≤ distance k) nodes n all there,
            All-contains (λ k. distance n ≤ distance k) nodes l near found,
          )))

    leader_Leads :
        (l : NodeHash)
        → contains nodes l ≡ true
        → All (λ m. distance l ≤ distance m) nodes
        → Leads nodes l
    leader_Leads l found all = (
      found,
      leads_self l _ all (get_closest_node-IsNearest l nodes),
      λ m known ne. follows l m _ found all known ne (get_closest_node-IsNearest m nodes),
    )

    elect :
        (n : NodeHash) (r : GetClosestNodeResult)
        → contains nodes n ≡ true
        → IsNearest n nodes r
        → (l : NodeHash) × Leads nodes l
    elect n me known near = (n, leader_Leads n known near)
    elect n (other l) known (found, less, near) = (l, leader_Leads l found near)

    -- In a cluster with a node in it, all of whose nodes know one another, there is a node that
    -- finds itself closest to the stack, and every other node finds that node closest: exactly one
    -- of them deploys the stack.
    pub one_leader : (n : NodeHash) → contains nodes n ≡ true → (l : NodeHash) × Leads nodes l
    one_leader n known = elect n _ known (get_closest_node-IsNearest n nodes)
