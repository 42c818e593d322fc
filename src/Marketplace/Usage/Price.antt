-- ===== src/Marketplace/Usage/Price.antt =====
-- The price of a usage against the exact one.
use mu.Base.{
  ◌≡◌, refl, ◌-◌, ap, ℕ, ◌+◌, ◌*◌, ◌/◌, ◌%◌, ◌≤◌, ◌<◌, Bool, Option, none, some, ◌>>=◌, arith,
}
use native.Mathlib.Nat.{
  mod-le, mod-eq_of_lt, mul-le-mul, le_refl, le-div_iff_mul-le, div-mul-le_self,
}
use mu.Marketplace.Arithmetic.{u64, u128, fit, fit-le, fit-small, subtract-le}
use mu.Marketplace.Usage.{
  ServiceRates, ServiceUsage, gigabyte_month, wide_price, price, add, calc_usage, shares,
  split_price,
}

-- Each part's price, rounded down, without a bound on the numbers.
abbrev pub exact_price : ServiceRates → ServiceUsage → ℕ
exact_price rates usage =
    rates.function_mb_tera_instructions * usage.function_mb_instructions / 1000000000000
    + rates.db_gigabyte_months * usage.db_bytes_seconds / gigabyte_month
    + rates.million_db_reads * usage.db_reads / 1000000
    + rates.million_db_writes * usage.db_writes / 1000000
    + rates.million_gateway_requests * usage.gateway_requests / 1000000
    + rates.gigabytes_gateway_traffic * usage.gateway_traffic_bytes / (1024 * 1024 * 1024)

abbrev AtMost : Option ℕ → ℕ → Type 0
AtMost r n = (m : ℕ) → r ≡ some m → m ≤ n

step-AtMost :
    (r : Option ℕ) (f : ℕ → ℕ) (n k : ℕ)
    → AtMost r n
    → ((p : ℕ) → p ≤ n → f p ≤ k)
    → AtMost (r >>= λ p. some (f p)) k
step-AtMost none f n k h g m e = cc
step-AtMost (some p) f n k h g m e = ground (arith, g p (h p refl))

div_mono : (p n unit : ℕ) → 0 < unit → p ≤ n → p / unit ≤ n / unit
div_mono p n unit pos h = (le-div_iff_mul-le pos).1 (grind (arith, div-mul-le_self p unit))

add-AtMost :
    (overflow_checks : Bool) (x y : Option ℕ) (n k : ℕ)
    → AtMost x n
    → AtMost y k
    → AtMost (add overflow_checks x y) (n + k)
unfolding add
add-AtMost overflow_checks none y n k hx hy m e = cc
add-AtMost overflow_checks (some a) none n k hx hy m e = cc
add-AtMost overflow_checks (some a) (some b) n k hx hy m e =
    grind (arith, hx a refl, hy b refl, fit-le overflow_checks u64 (a + b) m e)

module _ (overflow_checks : Bool) (rate used unit : ℕ) (pos : 0 < unit) where
  price-AtMost : AtMost (price overflow_checks rate used unit) (rate * used / unit)
  unfolding price
  price-AtMost =
      step-AtMost (fit overflow_checks u64 (rate * used)) (λ p. p / unit) (rate * used) _
        (fit-le overflow_checks u64 (rate * used)) λ p h. div_mono p (rate * used) unit pos h

  wide_price-AtMost : AtMost (wide_price overflow_checks rate used unit) (rate * used / unit)
  unfolding wide_price
  wide_price-AtMost =
      step-AtMost (fit overflow_checks u128 (rate * used)) (λ p. p / unit % u64) (rate * used) _
        (fit-le overflow_checks u128 (rate * used))
        λ p h. grind (arith, div_mono p (rate * used) unit pos h, mod-le (p / unit) u64)

-- Whether or not the build checks for overflows, a usage never costs more than its exact price.
pub never_overcharged :
    (overflow_checks : Bool) (rates : ServiceRates) (usage : ServiceUsage) (usage_tokens : ℕ)
    → calc_usage overflow_checks rates usage ≡ some usage_tokens
    → usage_tokens ≤ exact_price rates usage
unfolding calc_usage
never_overcharged c rates usage =
    add-AtMost c _ _ _ _
      (add-AtMost c _ _ _ _
        (add-AtMost c _ _ _ _
          (add-AtMost c _ _ _ _
            (add-AtMost c _ _ _ _ (wide_price-AtMost c _ _ _ (omega arith))
              (wide_price-AtMost c _ _ _ (omega arith)))
            (price-AtMost c _ _ _ (omega arith)))
          (price-AtMost c _ _ _ (omega arith)))
        (price-AtMost c _ _ _ (omega arith)))
      (price-AtMost c _ _ _ (omega arith))

-- No product leaves its type.
pub record Fits (rates : ServiceRates) (usage : ServiceUsage) : Type 0 where
  pub instructions : rates.function_mb_tera_instructions * usage.function_mb_instructions < u128
  pub storage : rates.db_gigabyte_months * usage.db_bytes_seconds < u128
  pub reads : rates.million_db_reads * usage.db_reads < u64
  pub writes : rates.million_db_writes * usage.db_writes < u64
  pub requests : rates.million_gateway_requests * usage.gateway_requests < u64
  pub traffic : rates.gigabytes_gateway_traffic * usage.gateway_traffic_bytes < u64

module _ (overflow_checks : Bool) where
  price-exact :
      (rate used unit : ℕ)
      → rate * used < u64
      → price overflow_checks rate used unit ≡ some (rate * used / unit)
  unfolding price
  price-exact rate used unit h = rw (fit-small overflow_checks u64 (rate * used) h) refl

  wide_price-exact :
      (rate used unit : ℕ)
      → rate * used < u128
      → rate * used / unit < u64
      → wide_price overflow_checks rate used unit ≡ some (rate * used / unit)
  unfolding wide_price
  wide_price-exact rate used unit h small =
      rw (fit-small overflow_checks u128 (rate * used) h) (ap some (mod-eq_of_lt small))

  add-exact :
      (x y : Option ℕ) (n k : ℕ)
      → x ≡ some n
      → y ≡ some k
      → n + k < u64
      → add overflow_checks x y ≡ some (n + k)
  unfolding add
  add-exact x y n k hx hy h = rw hx (rw hy (fit-small overflow_checks u64 (n + k) h))

-- If no product leaves its type and the exact price is a `u64`, `calc_usage` returns it.
pub calc_usage-exact :
    (overflow_checks : Bool) (rates : ServiceRates) (usage : ServiceUsage)
    → Fits rates usage
    → exact_price rates usage < u64
    → calc_usage overflow_checks rates usage ≡ some (exact_price rates usage)
unfolding calc_usage
calc_usage-exact c rates usage f h =
    add-exact c _ _ _ _
      (add-exact c _ _ _ _
        (add-exact c _ _ _ _
          (add-exact c _ _ _ _
            (add-exact c _ _ _ _ (wide_price-exact c _ _ _ f.instructions (omega arith))
              (wide_price-exact c _ _ _ f.storage (omega arith)) (omega arith))
            (price-exact c _ _ _ f.reads) (omega arith))
          (price-exact c _ _ _ f.writes) (omega arith))
        (price-exact c _ _ _ f.requests) (omega arith))
      (price-exact c _ _ _ f.traffic) (omega arith)

pair_parts :
    (a b a' b' : ℕ) → ◌≡◌ {A = Option (ℕ × ℕ)} (some (a, b)) (some (a', b')) → (a ≡ a') × (b ≡ b')
pair_parts a b a' b' e = (cc, cc)

shares-split :
    (overflow_checks : Bool) (u commission tokens share : ℕ)
    → commission ≤ u
    → shares overflow_checks u commission ≡ some (tokens, share)
    → (commission ≡ tokens) × (u - commission ≡ share)
unfolding shares
shares-split c u commission tokens share h e =
    pair_parts commission (u - commission) tokens share (rw (subtract-le c u64 u commission h) at e)

-- Whether or not the build checks for overflows, the commission and the provider's share add up to
-- the price, and the commission is at most its rate of the price.
pub split_price-conserves :
    (overflow_checks : Bool) (commission_rate_micros usage_tokens : ℕ)
    → commission_rate_micros ≤ 1000000
    → (commission_tokens provider_tokens : ℕ)
    → split_price overflow_checks commission_rate_micros usage_tokens
      ≡ some (commission_tokens, provider_tokens)
    → (commission_tokens + provider_tokens ≡ usage_tokens)
      × (commission_tokens * 1000000 ≤ usage_tokens * commission_rate_micros)
unfolding split_price
split_price-conserves c rate u bound tokens share e =
    split (fit c u64 (u * rate)) (fit-le c u64 (u * rate)) e
  where
    split :
        (r : Option ℕ)
        → AtMost r (u * rate)
        → (r >>= λ p. shares c u (p / 1000000)) ≡ some (tokens, share)
        → (tokens + share ≡ u) × (tokens * 1000000 ≤ u * rate)
    split none h e = cc
    split (some p) h e =
        let few : p ≤ u * rate = h p refl in
        let most : u * rate ≤ u * 1000000 = mul-le-mul (le_refl u) bound in
        let (commission, provider) = shares-split c u (p / 1000000) tokens share (omega arith) e in
        (omega arith, omega arith)
