-- ===== src/Schedule/Backoff.antt =====
-- crates/updater/src/updater/schedule.rs: how long failures hold off the next check.
use retrovert.Common.{
  ℕ, suc, ◌+◌, ◌-◌, ◌≤◌, ◌<◌, ◌≡◌, refl, ap, ◌∙◌, false, List, [], ◌∷◌, leb, ◌==◌, min, max, arith,
}
use retrovert.Schedule.{
  Schedule, u32_max, retry_delay_ms, wait_ms, due, attempted, succeeded, failed,
}

-- A check at each of the times in turn, all of which fail.
unfoldable pub failing : List ℕ → Schedule → Schedule
failing [] s = s
failing (t ∷ ts) s = failing ts (failed (attempted t s))

abbrev pub length : List ℕ → ℕ
length [] = 0
length (t ∷ ts) = suc (length ts)

failing-failures :
    (ts : List ℕ) (s : Schedule)
    → s.failures + length ts ≤ u32_max
    → ((failing ts s).failures ≡ s.failures + length ts)
      × ((failing ts s).interval_ms ≡ s.interval_ms)
unfolding failing failed attempted
failing-failures [] s l = (omega arith, refl)
failing-failures (t ∷ ts) s l =
    let (count, same) = failing-failures ts (failed (attempted t s)) (omega arith) in
    (omega (arith, count), same)

wait_ms-failed :
    (last : ℕ) (x : Schedule)
    → x.failures < u32_max
    → wait_ms (failed (attempted last x)) ≡ max x.interval_ms (retry_delay_ms x.failures)
unfolding wait_ms failed attempted
wait_ms-failed last x l =
    let count : min (x.failures + 1) u32_max ≡ x.failures + 1 = omega arith in
    let some_failed : (x.failures + 1 == 0) ≡ false = ground arith in
    let prior : (x.failures + 1) - 1 ≡ x.failures = omega arith in
    rw (wait_ms, count, some_failed, prior) refl

-- Of a schedule whose last checks were a success and then at least one failure, and which has not
-- counted 2^32 failures: with `n + 1` failures the next check is due exactly from the longer of the
-- interval and the `n`-th retry delay after the last attempt on.
pub due-failing :
    (ts : List ℕ) (last now : ℕ) (s : Schedule)
    → suc (length ts) ≤ u32_max
    → due (failed (attempted last (failing ts (succeeded s)))) now
      ≡ leb (last + max s.interval_ms (retry_delay_ms (length ts))) now
unfolding due failed attempted succeeded wait_ms
due-failing ts last now s l =
    let (count, same) = failing-failures ts (succeeded s) (omega arith) in
    ap (λ w. leb (last + w) now)
      (wait_ms-failed last (failing ts (succeeded s)) (omega (arith, count))
        ∙ rw (count, same) (ap (λ n. max s.interval_ms (retry_delay_ms n)) (omega arith)))
