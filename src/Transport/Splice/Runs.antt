-- ===== src/Transport/Splice/Runs.antt =====
-- crates/updater/src/transport/download.rs: any calls on an entry keep what a splice relies on.
use retrovert.Common.{
  ℕ, ◌<◌, ◌≡◌, refl, sym, subst, Bool, true, ◌&&◌, Option, none, some, List, [], ◌∷◌, inl, inr, ltb,
  ◌==◌, arith, length, Bool-cases, Option-cases,
}
use retrovert.Queue.Transport.{Status}
use retrovert.Transport.Meta.{i64_limit}
use retrovert.Transport.Http.{Text, Get, Response}
use retrovert.Transport.Download.{Disk, Download, Write, Io, evict}
use retrovert.Transport.Reading.{
  read_chunk, read_cached, dropped, is_downloading, is_failed, request_pause, request_cancel,
}
use retrovert.Transport.Polled.{read_chunk-by_status, read_chunk-cached}
use retrovert.Transport.Session.{
  Entry, Event, starts, reads, pauses, cancels, drops, killed, evicts, after_read, idle_step,
  live_step, step, run,
}
use retrovert.Transport.Splice.{
  IsHonest, HonestEvent, HonestEvents, IsSound, Stands, LiveSound, IsKept,
}
use retrovert.Transport.Splice.Entries.{removed-IsSound}
use retrovert.Transport.Splice.Starts.{start-IsKept}
use retrovert.Transport.Splice.Polls.{save_meta-IsSound, by_status-IsKept}

is_downloading-eq : (s : Status) → is_downloading s ≡ true → s ≡ Status.downloading
is_downloading-eq Status.downloading h = refl
is_downloading-eq Status.pending h = cc
is_downloading-eq Status.paused h = cc
is_downloading-eq Status.complete h = cc
is_downloading-eq Status.cancelled h = cc
is_downloading-eq Status.failed h = cc

module _ (body : List ℕ) (small : length body < i64_limit) where
  -- A transfer that is served from a complete entry.
  Stands-cached :
      (d : Disk) (x : Download) (left : Option (List ℕ)) (s : Status)
      → Stands body d x s
      → Stands body d (record x { xfer = record x.xfer { cached_file = left } }) s
  Stands-cached d x left Status.pending h = h
  Stands-cached d x left Status.downloading h = h
  Stands-cached d x left Status.paused h = h
  Stands-cached d x left Status.complete h = h
  Stands-cached d x left Status.cancelled h = h
  Stands-cached d x left Status.failed h = h

  cached-IsKept :
      (d : Disk) (x : Download) (left : Option (List ℕ))
      → IsKept body (record { disk = d; live = some x })
      → IsKept body (record {
        disk = d;
        live = some (record x { xfer = record x.xfer { cached_file = left } });
      })
  cached-IsKept d x left v = record {
    disk = v.disk;
    live = (v.live.0, Stands-cached d x left x.status v.live.1);
  }

  Stands-flagged :
      (d : Disk) (x : Download) (cancel pause : Bool) (s : Status)
      → Stands body d x s
      → Stands body d (record x { cancel = cancel; pause = pause }) s
  Stands-flagged d x cancel pause Status.pending h = h
  Stands-flagged d x cancel pause Status.downloading h = h
  Stands-flagged d x cancel pause Status.paused h = h
  Stands-flagged d x cancel pause Status.complete h = h
  Stands-flagged d x cancel pause Status.cancelled h = h
  Stands-flagged d x cancel pause Status.failed h = h

  -- A request to stop only raises a flag.
  flagged-IsKept :
      (d : Disk) (x : Download) (cancel pause : Bool)
      → IsKept body (record { disk = d; live = some x })
      → IsKept body (record { disk = d; live = some (record x { cancel = cancel; pause = pause }) })
  flagged-IsKept d x cancel pause v = record {
    disk = v.disk;
    live = (v.live.0, Stands-flagged d x cancel pause x.status v.live.1);
  }

  read_left-IsKept :
      (d : Disk) (x : Download) (buf n : ℕ) (answers : Io) (left : List ℕ)
      → IsKept body (record { disk = d; live = some x })
      → x.xfer.cached_file ≡ some left
      → answers.read_len ≡ some n
      → IsKept body (after_read (read_cached d x buf answers))
  unfolding read_cached
  read_left-IsKept d x buf n answers [] v e h = rw e (rw h (cached-IsKept d x none v))
  read_left-IsKept d x buf n answers (b ∷ bs) v e h = rw e (rw h (cached-IsKept d x _ v))

  read_cached-IsKept :
      (d : Disk) (x : Download) (buf : ℕ) (answers : Io)
      → IsKept body (record { disk = d; live = some x })
      → IsKept body (after_read (read_cached d x buf answers))
  unfolding read_cached
  read_cached-IsKept d x buf answers v = elim (Option-cases x.xfer.cached_file) [
    | inl e ↦ rw e (cached-IsKept d x none v)
    | inr (left, e) ↦ elim (Option-cases answers.read_len) [
      | inl broken ↦ rw e (rw broken (cached-IsKept d x none v))
      | inr (n, h) ↦ read_left-IsKept d x buf n answers left v e h
    ]
  ]

  read_chunk-IsKept :
      (serve : Get → Option Response) (d : Disk) (x : Download) (buf : ℕ) (answers : Io)
      → IsKept body (record { disk = d; live = some x })
      → IsHonest body serve
      → IsKept body (after_read (read_chunk serve d x buf answers))
  unfolding read_chunk
  read_chunk-IsKept serve d x buf answers v honest = elim (Bool-cases (buf == 0)) [
    | inl no_room ↦ rw no_room v
    | inr room ↦ elim (Bool-cases x.xfer.is_cached) [
      | inl stored ↦
          subst (λ r. IsKept body (after_read r))
            (sym (read_chunk-cached serve d x buf answers room stored))
            (read_cached-IsKept d x buf answers v)
      | inr fetched ↦
          subst (λ r. IsKept body (after_read r))
            (sym (read_chunk-by_status serve d x buf answers room fetched))
            (by_status-IsKept body small serve d x buf answers x.status refl v.disk v.live.0
              v.live.1 honest)
    ]
  ]

  dropped-IsSound :
      (d : Disk) (x : Download) (w : Write)
      → IsKept body (record { disk = d; live = some x })
      → IsSound body (dropped d x w)
  unfolding dropped
  dropped-IsSound d x w v = elim (Bool-cases x.xfer.is_cached) [
    | inl stored ↦ rw stored v.disk
    | inr fetched ↦ elim (Bool-cases (is_downloading x.status && ltb 0 x.xfer.bytes_written)) [
      | inl active ↦
          let is = is_downloading-eq x.status (ground arith) in
          let stands : Stands body d x Status.downloading = subst (Stands body d x) is v.live.1 in
          rw (fetched, active) (save_meta-IsSound body small d x w v.disk v.live.0 stands.0)
      | inr inactive ↦ elim (Bool-cases (is_failed x.status && (x.xfer.bytes_written == 0))) [
        | inl unwritten ↦ rw (fetched, inactive, unwritten) (removed-IsSound body small)
        | inr written ↦ rw (fetched, inactive, written) v.disk
      ]
    ]
  ]

  idle_step-IsKept :
      (lossy : Text → Text) (d : Disk) (e : Event)
      → IsSound body d
      → HonestEvent body e
      → IsKept body (idle_step lossy d e)
  unfolding evict
  idle_step-IsKept lossy d (starts o url) v h = start-IsKept body small lossy d o url v h
  idle_step-IsKept lossy d evicts v h = record { disk = removed-IsSound body small; live = tt }
  idle_step-IsKept lossy d (reads serve buf answers) v h = record { disk = v; live = tt }
  idle_step-IsKept lossy d pauses v h = record { disk = v; live = tt }
  idle_step-IsKept lossy d cancels v h = record { disk = v; live = tt }
  idle_step-IsKept lossy d (drops w) v h = record { disk = v; live = tt }
  idle_step-IsKept lossy d killed v h = record { disk = v; live = tt }

  live_step-IsKept :
      (d : Disk) (x : Download) (e : Event)
      → IsKept body (record { disk = d; live = some x })
      → HonestEvent body e
      → IsKept body (live_step d x e)
  unfolding request_pause request_cancel
  live_step-IsKept d x (reads serve buf answers) v h = read_chunk-IsKept serve d x buf answers v h
  live_step-IsKept d x pauses v h = flagged-IsKept d x x.cancel true v
  live_step-IsKept d x cancels v h = flagged-IsKept d x true x.pause v
  live_step-IsKept d x (drops w) v h = record { disk = dropped-IsSound d x w v; live = tt }
  live_step-IsKept d x killed v h = record { disk = v.disk; live = tt }
  live_step-IsKept d x (starts o url) v h = v
  live_step-IsKept d x evicts v h = v

  step-IsKept :
      (lossy : Text → Text) (e : Entry) (event : Event)
      → IsKept body e
      → HonestEvent body event
      → IsKept body (step lossy e event)
  unfolding step
  step-IsKept lossy e event v h = elim (Option-cases e.live) [
    | inl no_one ↦ rw (no_one, step) (idle_step-IsKept lossy e.disk event v.disk h)
    | inr (x, is) ↦
        rw (is, step)
          (live_step-IsKept e.disk x event
            (record { disk = v.disk; live = subst (LiveSound body e.disk) is v.live }) h)
  ]

  pub run-IsKept :
      (lossy : Text → Text) (e : Entry) (events : List Event)
      → IsKept body e
      → HonestEvents body events
      → IsKept body (run lossy e events)
  unfolding run
  run-IsKept lossy e [] v h = v
  run-IsKept lossy e (event ∷ events) v h =
      run-IsKept lossy (step lossy e event) events (step-IsKept lossy e event v h.0) h.1
