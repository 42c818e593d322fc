-- ===== src/Routing/Tests.antt =====
-- Requests for a stack that another node runs.
use mu.Base.{◌≡◌, refl, ℕ, true, Option, none, some, List, [], ◌∷◌, is_empty, nat_key, arith}
use mu.Base.HashMap
use mu.Base.HashSet
use mu.Scheduler.State.{NodeHash, SchedulerState}
use mu.Scheduler.Step.{run}
use mu.Scheduler.Start.{start}
use mu.Scheduler.WellFormed.Start.{run-start-IsWellFormed}
use mu.Scheduler.Tests.{services}
use mu.Membership.Update.Tests.{hash_of, two_nodes, known-IsInSync}
use mu.Routing.{get_route}
use mu.Routing.Reached.{Chooses, RouteOf, get_route_lem}

-- The first one.
abbrev first : List NodeHash → Option NodeHash
first [] = none
first (x ∷ xs) = some x

first_chosen :
    (nodes : List NodeHash) (hash : NodeHash)
    → first nodes ≡ some hash
    → HashSet.contains nodes hash ≡ true
unfolding HashSet.contains
first_chosen [] hash e = absurd cc
first_chosen (x ∷ xs) hash e = ground (arith, e)

first_chooses : (nodes : List NodeHash) → first nodes ≡ none → is_empty nodes ≡ true
first_chooses [] e = refl
first_chooses (x ∷ xs) e = absurd cc

first-Chooses : Chooses first
first-Chooses = record { chosen = first_chosen; chooses = first_chooses }

abbrev scheduler : SchedulerState ℕ
scheduler = run services [] (start 1 ((114, 40 ∷ []) ∷ []) [] 0)

get_route_lem_example :
    RouteOf hash_of first first-Chooses two_nodes known-IsInSync
      (HashMap.get scheduler.stacks 40)
      (get_route hash_of first 40 scheduler two_nodes)
get_route_lem_example =
    get_route_lem hash_of first first-Chooses two_nodes known-IsInSync 40 scheduler
      (run-start-IsWellFormed services 1 ((114, 40 ∷ []) ∷ []) [] 0 [])
