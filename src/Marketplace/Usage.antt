-- ===== src/Marketplace/Usage.antt =====
-- What a stack's usage costs, and how the price is split (`calc_usage`, `update_usage`).
pub mod Price
use mu.Base.{ℕ, ◌+◌, ◌*◌, ◌/◌, ◌%◌, Bool, Option, none, some, ◌>>=◌}
use mu.Marketplace.Arithmetic.{u64, u128, fit, subtract}

pub record ServiceRates : Type 0 where
  pub function_mb_tera_instructions : ℕ
  pub db_gigabyte_months : ℕ
  pub million_db_reads : ℕ
  pub million_db_writes : ℕ
  pub million_gateway_requests : ℕ
  pub gigabytes_gateway_traffic : ℕ

pub record ServiceUsage : Type 0 where
  pub function_mb_instructions : ℕ
  pub db_bytes_seconds : ℕ
  pub db_reads : ℕ
  pub db_writes : ℕ
  pub gateway_requests : ℕ
  pub gateway_traffic_bytes : ℕ

abbrev pub gigabyte_month : ℕ
gigabyte_month = 1024 * 1024 * 1024 * 60 * 60 * 24 * 30

-- How the parts of a usage are priced: `rate * used / unit`.
module _ (overflow_checks : Bool) where
  -- In `u128`, and then `as u64`, which keeps the low 64 bits.
  unfoldable pub wide_price : ℕ → ℕ → ℕ → Option ℕ
  wide_price rate used unit = fit overflow_checks u128 (rate * used) >>= λ p. some (p / unit % u64)

  unfoldable pub price : ℕ → ℕ → ℕ → Option ℕ
  price rate used unit = fit overflow_checks u64 (rate * used) >>= λ p. some (p / unit)

  unfoldable pub add : Option ℕ → Option ℕ → Option ℕ
  add x y = x >>= λ a. y >>= λ b. fit overflow_checks u64 (a + b)

  unfoldable pub calc_usage : ServiceRates → ServiceUsage → Option ℕ
  calc_usage rates usage =
      add
        (add
          (add
            (add
              (add
                (wide_price rates.function_mb_tera_instructions usage.function_mb_instructions
                  1000000000000)
                (wide_price rates.db_gigabyte_months usage.db_bytes_seconds gigabyte_month))
              (price rates.million_db_reads usage.db_reads 1000000))
            (price rates.million_db_writes usage.db_writes 1000000))
          (price rates.million_gateway_requests usage.gateway_requests 1000000))
        (price rates.gigabytes_gateway_traffic usage.gateway_traffic_bytes (1024 * 1024 * 1024))

  -- The price's commission and the provider's share of it.
  unfoldable pub shares : ℕ → ℕ → Option (ℕ × ℕ)
  shares usage_tokens commission_tokens =
      subtract overflow_checks u64 usage_tokens commission_tokens >>= λ provider_tokens.
      some (commission_tokens, provider_tokens)

  unfoldable pub split_price : ℕ → ℕ → Option (ℕ × ℕ)
  split_price commission_rate_micros usage_tokens =
      fit overflow_checks u64 (usage_tokens * commission_rate_micros) >>= λ p.
      shares usage_tokens (p / 1000000)
