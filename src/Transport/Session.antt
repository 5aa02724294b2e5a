-- ===== src/Transport/Session.antt =====
-- crates/updater/src/transport: the life of a cache entry, as a sequence of the calls on it. The
-- queue starts its transfers with `allow_resume` set.
use retrovert.Common.{ℕ, true, Option, none, some, List, [], ◌∷◌}
use retrovert.Common.Results.{Result, ok, err}
use retrovert.Queue.Transfer.{Chunk}
use retrovert.Transport.Http.{Text, Get, Response}
use retrovert.Transport.Download.{Disk, Download, Error, Write, Opens, Io, removed, evict, start}
use retrovert.Transport.Reading.{read_chunk, request_pause, request_cancel, dropped}

-- The entry, and the transfer that is running into it.
pub record Entry : Type 0 where
  pub disk : Disk
  pub live : Option Download

abbrev pub untouched : Entry
untouched = record { disk = removed; live = none }

-- A process that is killed drops nothing.
pub data Event : Type 0 where
  starts : Opens → Text → Event
  reads : (Get → Option Response) → ℕ → Io → Event
  pauses cancels : Event
  drops : Write → Event
  killed evicts : Event

abbrev pub begun : Disk × Result Error Download → Entry
begun (d, ok x) = record { disk = d; live = some x }
begun (d, err e) = record { disk = d; live = none }

abbrev pub after_read : Chunk × Disk × Download → Entry
after_read (c, d, x) = record { disk = d; live = some x }

module _ (lossy : Text → Text) where
  -- What does not apply to the entry as it stands does not happen.
  abbrev pub idle_step : Disk → Event → Entry
  idle_step d (starts o url) = begun (start lossy d o url true)
  idle_step d evicts = record { disk = evict d; live = none }
  idle_step d _ = record { disk = d; live = none }

abbrev pub live_step : Disk → Download → Event → Entry
live_step d x (reads serve buf io) = after_read (read_chunk serve d x buf io)
live_step d x pauses = record { disk = d; live = some (request_pause x) }
live_step d x cancels = record { disk = d; live = some (request_cancel x) }
live_step d x (drops w) = record { disk = dropped d x w; live = none }
live_step d x killed = record { disk = d; live = none }
live_step d x _ = record { disk = d; live = some x }

module _ (lossy : Text → Text) where
  unfoldable pub step : Entry → Event → Entry
  step e event = elim e.live [
    | none ↦ idle_step lossy e.disk event
    | some x ↦ live_step e.disk x event
  ]

  unfoldable pub run : Entry → List Event → Entry
  unfolding step
  run e [] = e
  run e (event ∷ events) = run (step e event) events
