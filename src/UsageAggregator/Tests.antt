-- ===== src/UsageAggregator/Tests.antt =====
-- Two stacks report usages, with a reset in between.
use mu.Base.{◌≡◌, refl, ◌+◌, List, [], ◌∷◌, arith, nat_key}
use mu.UsageAggregator.{
  Usage, UsageCategory, Message, register_usage, get_and_reset_usages, run, into_category, number,
  category_key,
}
use mu.UsageAggregator.Conserves.{amount_in, registered, reported, run-conserves}

abbrev messages : List Message
messages =
    register_usage 1 (Usage.db_read 5 10 ∷ Usage.gateway_requests 1 ∷ [])
    ∷ register_usage 2 (Usage.db_read 1 0 ∷ [])
    ∷ get_and_reset_usages
    ∷ register_usage 1 (Usage.db_read 2 0 ∷ [])
    ∷ []

registered_run : registered 1 UsageCategory.db_reads messages ≡ 27
unfolding into_category number category_key
registered_run = refl

run-conserves_example :
    reported 1 UsageCategory.db_reads (run messages).replies
      + amount_in 1 UsageCategory.db_reads (run messages).usages
    ≡ registered 1 UsageCategory.db_reads messages
run-conserves_example =
    run-conserves 1 UsageCategory.db_reads messages (rw registered_run (omega arith))
