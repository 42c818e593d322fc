-- ===== src/UsageAggregator.antt =====
-- executor/src/stack/usage_aggregator.rs. The mailbox hands over one message at a time.
pub mod Conserves
pub mod Tests
use mu.Base.{
  ◌≡◌, refl, sym, ◌∙◌, ap, ℕ, ◌+◌, ◌*◌, ◌%◌, ◌^◌, Bool, true, Option, none, some, List, [], ◌∷◌,
  Key, ◌==◌, eqb, eqb_iff, if◌then◌else◌, nat_key, for_each,
}
use mu.Base.HashMap
use mu.Base.HashMap.{HashMap}
use mu.MuStack.{StackId}

pub data Usage : Type 0 where
  -- `memory_megabytes` and `instructions`
  function_mb_instructions : ℕ → ℕ → Usage
  -- `size_bytes` and `seconds`
  db_storage : ℕ → ℕ → Usage
  -- the weak and the strong ones
  db_read db_write : ℕ → ℕ → Usage
  gateway_requests gateway_traffic : ℕ → Usage

pub data UsageCategory : Type 0 where
  function_mb_instructions db_storage db_reads db_writes gateway_requests gateway_traffic :
      UsageCategory

number : UsageCategory → ℕ
number UsageCategory.function_mb_instructions = 0
number UsageCategory.db_storage = 1
number UsageCategory.db_reads = 2
number UsageCategory.db_writes = 3
number UsageCategory.gateway_requests = 4
number UsageCategory.gateway_traffic = 5

numbered : ℕ → UsageCategory
numbered n =
    if eqb n 0
    then UsageCategory.function_mb_instructions
    else if eqb n 1
    then UsageCategory.db_storage
    else if eqb n 2
    then UsageCategory.db_reads
    else if eqb n 3
    then UsageCategory.db_writes
    else if eqb n 4
    then UsageCategory.gateway_requests
    else UsageCategory.gateway_traffic

numbered-number : (c : UsageCategory) → numbered (number c) ≡ c
unfolding numbered number
numbered-number UsageCategory.function_mb_instructions = refl
numbered-number UsageCategory.db_storage = refl
numbered-number UsageCategory.db_reads = refl
numbered-number UsageCategory.db_writes = refl
numbered-number UsageCategory.gateway_requests = refl
numbered-number UsageCategory.gateway_traffic = refl

instance pub category_key : Key UsageCategory
category_key = record {
  same = λ a b. eqb (number a) (number b);
  same_iff = λ a b. (
    λ h.
        sym (numbered-number a)
        ∙ ap numbered ((eqb_iff (number a) (number b)).0 h)
        ∙ numbered-number b,
    λ e. (eqb_iff (number a) (number b)).1 (ap number e),
  );
}

abbrev pub u128 : ℕ
u128 = 2 ^ 128

-- The numbers are `u64`s and the amount is a `u128`.
unfoldable pub into_category : Usage → UsageCategory × ℕ
into_category (Usage.function_mb_instructions memory_megabytes instructions) =
    (UsageCategory.function_mb_instructions, memory_megabytes * instructions)
into_category (Usage.db_storage size_bytes seconds) =
    (UsageCategory.db_storage, size_bytes * seconds)
into_category (Usage.db_read weak_reads strong_reads) =
    (UsageCategory.db_reads, weak_reads + strong_reads * 2)
into_category (Usage.db_write weak_writes strong_writes) =
    (UsageCategory.db_writes, weak_writes + strong_writes * 2)
into_category (Usage.gateway_requests count) = (UsageCategory.gateway_requests, count)
into_category (Usage.gateway_traffic size_bytes) = (UsageCategory.gateway_traffic, size_bytes)

abbrev pub Usages : Type 0
Usages = HashMap StackId (HashMap UsageCategory ℕ)

pub data Message : Type 0 where
  register_usage : StackId → List Usage → Message
  get_and_reset_usages : Message

-- `State`, and what was replied, the newest first.
pub record State : Type 0 where
  pub usages : Usages
  pub replies : List Usages

abbrev pub or_zero : Option ℕ → ℕ
or_zero none = 0
or_zero (some n) = n

abbrev pub or_empty : Option (HashMap UsageCategory ℕ) → HashMap UsageCategory ℕ
or_empty none = []
or_empty (some m) = m

-- One round of the loop over the usages of a stack. A release build wraps around.
unfoldable pub add_usage : Usage → HashMap UsageCategory ℕ → HashMap UsageCategory ℕ
add_usage usage m =
    let (category, amount) = into_category usage in
    HashMap.insert m category ((or_zero (HashMap.get m category) + amount) % u128)

unfoldable pub mailbox_step : Message → State → State
mailbox_step (register_usage stack_id usage) state = record state {
  usages =
      HashMap.insert state.usages stack_id
        (for_each add_usage usage (or_empty (HashMap.get state.usages stack_id)));
}
mailbox_step get_and_reset_usages state = record {
  usages = [];
  replies = state.usages ∷ state.replies;
}

-- `start`, and then the messages in turn.
unfoldable pub run : List Message → State
run messages = for_each mailbox_step messages (record { usages = []; replies = [] })
