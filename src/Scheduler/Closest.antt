-- ===== src/Scheduler/Closest.antt =====
-- executor/src/stack/scheduler.rs: `get_closest_node` and
-- `check_stack_also_deployed_to_closer_remote`.
use mu.Base.{ℕ, Option, none, some, List, [], ◌∷◌, ltb, if◌then◌else◌, is_empty}
use mu.Base.HashSet.{HashSet}
use mu.MuStack.{StackId}
use mu.Scheduler.State.{NodeHash}

pub data GetClosestNodeResult : Type 0 where
  me : GetClosestNodeResult
  other : NodeHash → GetClosestNodeResult

-- The loop over `others`, with its two variables.
unfoldable pub closest_loop :
    (ℕ → ℕ → ℕ) → StackId → List NodeHash → ℕ → GetClosestNodeResult → GetClosestNodeResult
closest_loop xor id [] min_distance result = result
closest_loop xor id (hash ∷ others) min_distance result =
    let distance = xor id hash in
    let closer = ltb distance min_distance in
    closest_loop xor id others (if closer then distance else min_distance)
      (if closer then other hash else result)

unfoldable pub get_closest_node :
    (ℕ → ℕ → ℕ) → StackId → NodeHash → List NodeHash → GetClosestNodeResult
get_closest_node xor id my_hash others = closest_loop xor id others (xor id my_hash) me

as_other : GetClosestNodeResult → Option NodeHash
as_other me = none
as_other (other node) = some node

unfoldable pub check_stack_also_deployed_to_closer_remote :
    (ℕ → ℕ → ℕ) → StackId → NodeHash → HashSet NodeHash → Option NodeHash
unfolding as_other
check_stack_also_deployed_to_closer_remote xor id my_hash deployed_to_others =
    if is_empty deployed_to_others
    then none
    else as_other (get_closest_node xor id my_hash deployed_to_others)
