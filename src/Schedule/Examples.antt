-- ===== src/Schedule/Examples.antt =====
-- An hourly schedule after three failures.
use retrovert.Common.{◌+◌, ◌≡◌, leb, max, [], ◌∷◌, arith}
use retrovert.Schedule.{retry_delay_ms, new, due, attempted, succeeded, failed}
use retrovert.Schedule.Backoff.{failing, due-failing}

due-failing_example :
    due (failed (attempted 9000 (failing (1000 ∷ 5000 ∷ []) (succeeded (new 3600000))))) 10000
    ≡ leb (9000 + max (new 3600000).interval_ms (retry_delay_ms 2)) 10000
due-failing_example = due-failing (1000 ∷ 5000 ∷ []) 9000 10000 (new 3600000) (omega arith)
