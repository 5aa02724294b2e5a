-- ===== src/Queue.antt =====
-- crates/updater/src/queue/entry.rs and crates/updater/src/queue/mod.rs: the data of the transfer
-- queue. A slot's atomics and its three locked fields are the fields of one record; an atomic that
-- holds the code of a state or a priority holds the value itself, which `from_code` of
-- Policy gives back. Times and byte counts are stored through `as_i64` of an unsigned number, so
-- they are not negative; the total's `UNKNOWN_TOTAL` is `none`.
pub mod Policy
pub mod Slots
pub mod Workers
pub mod Calls
pub mod Transport
pub mod Transfer
pub mod Choice
pub mod Scheduling
pub mod Validated
pub mod Evicted
pub mod Laws
pub mod Machine
pub mod Session
pub mod Steps
pub mod Claims
mod Examples
use retrovert.Common.{ℕ, zero, suc, String, Bool, false, Option, none, List, []}

pub data Priority : Type 0 where
  background user : Priority

pub data State : Type 0 where
  pending downloading paused preempted complete failed cancelled : State

-- The scheduling view of a slot.
pub record Entry : Type 0 where
  pub in_use : Bool
  pub priority : Priority
  pub state : State
  pub queue_time_ms : ℕ
  pub bytes_downloaded : ℕ
  pub bytes_total : Option ℕ

-- `validate::Failure`; a digest is its bytes, and what the transport reports is of any type.
pub data Failure (T : Type 0) : Type 0 where
  digest : List ℕ → Failure T
  disk_digest : List ℕ → Failure T
  size : (expected actual : ℕ) → Failure T
  oversize : (expected actual : ℕ) → Failure T
  unreadable : Failure T
  transfer : T → Failure T
  start : String → Failure T
  panicked : Failure T

pub record SlotRequest : Type 0 where
  pub url : String
  pub digest : List ℕ
  pub expected_size : Option ℕ

-- `Request`
pub record Request : Type 0 where
  pub wanted : SlotRequest
  pub priority : Priority

-- The path of a completed transfer is the cache's for a digest, so that digest stands for it.
pub record Slot (T : Type 0) : Type 0 where
  pub in_use : Bool
  pub priority : Priority
  pub state : State
  pub cancel_requested : Bool
  pub pause_requested : Bool
  pub queue_time_ms : ℕ
  pub bytes_downloaded : ℕ
  pub bytes_total : Option ℕ
  pub request : Option SlotRequest
  pub path : Option (List ℕ)
  pub failure : Option (Failure T)

-- A started transfer: what its two requests have asked of it.
pub record Handle : Type 0 where
  pub cancel_asked : Bool
  pub pause_asked : Bool

-- The slot that a worker holds, and the transfer running in it.
pub record Active : Type 0 where
  pub slot : Option ℕ
  pub download : Option Handle

-- `Shared` with the `WorkerState` that its lock guards; a thread's handle is not modelled.
pub record Shared (T : Type 0) : Type 0 where
  pub slots : List (Slot T)
  pub running : Bool
  pub armed : List Bool
  pub active : List Active

abbrev pub queue_max : ℕ
queue_max = 32

-- `Slot::default`
abbrev pub empty_slot : {T : Type 0} → Slot T
empty_slot = record {
  in_use = false;
  priority = Priority.background;
  state = State.pending;
  cancel_requested = false;
  pause_requested = false;
  queue_time_ms = 0;
  bytes_downloaded = 0;
  bytes_total = none;
  request = none;
  path = none;
  failure = none;
}

-- `Active::default`
abbrev pub no_claim : Active
no_claim = record { slot = none; download = none }
