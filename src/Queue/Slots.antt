-- ===== src/Queue/Slots.antt =====
-- crates/updater/src/queue/mod.rs: the methods of `Slot`, `WorkerState` and `Shared`.
use mathlib.Core.Option
use retrovert.Common.{
  ℕ, Bool, true, Option, none, some, List, [], ◌∷◌, map, opt_eq, is_none, if◌then◌else◌, modify,
  min,
}
use retrovert.Queue.{State, Entry, Failure, Slot, Handle, Active, Shared}
use retrovert.Queue.Policy.{any}

abbrev pub i64_max : ℕ
i64_max = 9223372036854775807

-- `i64::try_from(value).unwrap_or(i64::MAX)`
abbrev pub as_i64 : ℕ → ℕ
as_i64 n = min n i64_max

module _ {T : Type 0} where
  abbrev pub snapshot : Slot T → Entry
  snapshot s = record {
    in_use = s.in_use;
    priority = s.priority;
    state = s.state;
    queue_time_ms = s.queue_time_ms;
    bytes_downloaded = s.bytes_downloaded;
    bytes_total = s.bytes_total;
  }

  -- `Slot::apply`
  abbrev pub apply : Entry → Slot T → Slot T
  apply e s = record s { in_use = e.in_use; state = e.state }

  abbrev pub set_state : State → Slot T → Slot T
  set_state state s = record s { state = state }

  abbrev pub store_progress : ℕ → Option ℕ → Slot T → Slot T
  store_progress downloaded total s = record s {
    bytes_downloaded = as_i64 downloaded;
    bytes_total = Option.map as_i64 total;
  }

  -- The first failure of an attempt is kept.
  abbrev pub publish_failure : Failure T → Slot T → Slot T
  publish_failure f s = record s { failure = if is_none s.failure then some f else s.failure }

  unfoldable pub snapshot_all : List (Slot T) → List Entry
  snapshot_all slots = map snapshot slots

  -- A change of the slot at an index.
  abbrev pub at_slot : Shared T → ℕ → (Slot T → Slot T) → Shared T
  at_slot sh i f = record sh { slots = modify sh.slots i f }

-- `a.slot == Some(index)`
abbrev pub holds : ℕ → Active → Bool
holds index a = opt_eq a.slot (some index)

unfoldable pub claimed : List Active → List ℕ
claimed [] = []
claimed (a ∷ ws) = let rest = claimed ws in elim a.slot [ none ↦ rest | some i ↦ i ∷ rest ]

unfoldable pub is_active : List Active → ℕ → Bool
is_active ws index = any (holds index) ws

-- The first worker that holds the slot says what transfer it runs.
unfoldable pub download_for : List Active → ℕ → Option Handle
download_for [] index = none
download_for (a ∷ ws) index =
    let rest = download_for ws index in if holds index a then a.download else rest

unfoldable pub has_idle_worker : List Active → Bool
has_idle_worker ws = any (λ a. is_none a.slot) ws

-- `download.request_cancel()` and `download.request_pause()`; the workers of one slot share no
-- handle, so only that of the first is asked.
abbrev pub ask_cancel : Handle → Handle
ask_cancel h = record h { cancel_asked = true }

abbrev pub ask_pause : Handle → Handle
ask_pause h = record h { pause_asked = true }

unfoldable pub ask : (Handle → Handle) → ℕ → List Active → List Active
ask f index [] = []
ask f index (a ∷ ws) =
    let rest = ask f index ws in
    if holds index a then record a { download = Option.map f a.download } ∷ ws else a ∷ rest
