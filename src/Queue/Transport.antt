-- ===== src/Queue/Transport.antt =====
-- crates/updater/src/transport/download.rs: how a transfer stands, as the queue reads it.
use retrovert.Common.{ℕ, Bool, Option}

-- `transport::Status`
pub data Status : Type 0 where
  pending downloading paused complete cancelled failed : Status

-- `transport::Snapshot`
pub record Snapshot (T : Type 0) : Type 0 where
  pub downloaded : ℕ
  pub total : Option ℕ
  pub status : Status
  pub failure : Option T
  pub no_retry : Bool
