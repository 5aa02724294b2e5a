-- ===== src/Schedule.antt =====
-- crates/updater/src/updater/schedule.rs and crates/updater/src/policy.rs: when a tick is allowed to
-- check. Times are milliseconds since the epoch and not negative; a difference of two of them does
-- not leave 64 bits, so `now - last >= wait` is written without a subtraction.
pub mod Backoff
mod Examples
use retrovert.Common.{
  ℕ, ◌+◌, ◌-◌, ◌*◌, ◌^◌, Bool, true, Option, none, some, leb, ◌==◌, if◌then◌else◌, min, max,
}

abbrev pub i64_max : ℕ
i64_max = 9223372036854775807

abbrev pub u32_max : ℕ
u32_max = 4294967295

abbrev pub retry_base_delay_ms : ℕ
retry_base_delay_ms = 1000

abbrev pub max_retry_shift : ℕ
max_retry_shift = 30

-- A shift to the left in an `i64`, whose bits past the 64th are lost.
unfoldable pub retry_delay_ms : ℕ → ℕ
retry_delay_ms retry_count = retry_base_delay_ms * 2 ^ min retry_count max_retry_shift

pub record Schedule : Type 0 where
  pub interval_ms : ℕ
  pub last_attempt_ms : Option ℕ
  pub failures : ℕ

-- `Schedule::new`, of an interval in milliseconds
unfoldable pub new : ℕ → Schedule
new interval = record { interval_ms = min interval i64_max; last_attempt_ms = none; failures = 0 }

-- `self.failures.checked_sub(1)` is `none` at zero.
unfoldable pub wait_ms : Schedule → ℕ
unfolding retry_delay_ms
wait_ms s =
    if s.failures == 0 then s.interval_ms else max s.interval_ms (retry_delay_ms (s.failures - 1))

unfoldable pub due : Schedule → ℕ → Bool
unfolding wait_ms
due s now_ms = elim s.last_attempt_ms [ none ↦ true | some last ↦ leb (last + wait_ms s) now_ms ]

unfoldable pub attempted : ℕ → Schedule → Schedule
attempted now_ms s = record s { last_attempt_ms = some now_ms }

unfoldable pub succeeded : Schedule → Schedule
succeeded s = record s { failures = 0 }

-- The count saturates.
unfoldable pub failed : Schedule → Schedule
failed s = record s { failures = min (s.failures + 1) u32_max }
