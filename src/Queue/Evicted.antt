-- ===== src/Queue/Evicted.antt =====
-- crates/updater/src/queue/mod.rs: when `transfer` drops the cache entry.
use retrovert.Common.{
  ℕ, ◌≡◌, inl, inr, refl, ap, ◌∙◌, Bool, not, ◌&&◌, ◌||◌, none, List, is_none, arith, Option-cases,
}
use retrovert.Common.Results.{Result, ok, err}
use retrovert.Queue.{Failure, SlotRequest}
use retrovert.Queue.Transport.{Status}
use retrovert.Queue.Transfer.{
  World, same_bytes, Verdict, Streamed, validate, stream, validated, by_status, judge,
  resumed_bytes, transfer,
}
use retrovert.Queue.Validated.{
  within, sized, on_disk, is_complete, proven, is_ok, validate-ok, stream-bytes, stream-oversize,
}

either : (a b c : Bool) → (not a || (b && not c)) ≡ (not a || (b && not (b && (a && c))))
either a b c = ground arith

module _ (T : Type 0) where
  validated-evicted :
      (r : SlotRequest) (x : Result (Failure T) (Unit {0}))
      → Verdict.evicted (validated r x) ≡ not (is_ok x)
  validated-evicted r (ok a) = refl
  validated-evicted r (err e) = refl

  by_status-evicted :
      (sha : List ℕ → List ℕ) (r : SlotRequest) (w : World T) (bytes : List ℕ) (c : Status)
      → Verdict.evicted (by_status sha r w bytes c) ≡ (
          is_complete c
          && not (
              same_bytes (sha bytes) r.digest
              && (sized r.expected_size w.last.downloaded && on_disk sha w.file r.digest)))
  by_status-evicted sha r w bytes Status.complete =
      validated-evicted r (validate sha w.file r.digest r.expected_size bytes w.last.downloaded)
      ∙ ap not (validate-ok T sha w.file r.digest r.expected_size bytes w.last.downloaded)
  by_status-evicted sha r w bytes Status.cancelled = refl
  by_status-evicted sha r w bytes Status.paused = refl
  by_status-evicted sha r w bytes Status.pending = refl
  by_status-evicted sha r w bytes Status.downloading = refl
  by_status-evicted sha r w bytes Status.failed = refl

  judge-evicted :
      (sha : List ℕ → List ℕ) (r : SlotRequest) (w : World T) (s : Streamed T)
      → Verdict.evicted (judge sha r w s) ≡ (
          not (is_none s.oversize)
          || (is_complete w.last.status
              && not (
                  same_bytes (sha s.bytes) r.digest
                  && (sized r.expected_size w.last.downloaded && on_disk sha w.file r.digest))))
  unfolding judge
  judge-evicted sha r w s = elim (Option-cases s.oversize) [
    | inr (f, refused) ↦ rw (judge, refused) refl
    | inl none_yet ↦ rw (judge, none_yet) (by_status-evicted sha r w s.bytes w.last.status)
  ]

  -- The cache entry is dropped exactly if a partial file could not be read back, or a chunk went
  -- past the length that was named, or the transport reports completion of bytes that are not
  -- proven to be the ones requested: no complete entry with other bytes is left behind.
  pub transfer-evicted :
      (sha : List ℕ → List ℕ) (r : SlotRequest) (w : World T)
      → Verdict.evicted (transfer sha r w) ≡ (
          is_none (resumed_bytes w)
          || (not (within r.expected_size w.polls)
              || (is_complete w.last.status && not (proven sha r w))))
  unfolding transfer
  transfer-evicted sha r w = elim (Option-cases (resumed_bytes w)) [
    | inl unread ↦ rw (transfer, proven, unread) refl
    | inr (prefix, read_back) ↦
        let s : Streamed T = record { bytes = prefix; oversize = none } in
        rw (transfer, proven, read_back)
          (judge-evicted sha r w (stream r.expected_size s w.polls)
            ∙ rw
                (
                  stream-oversize T r.expected_size s w.polls,
                  stream-bytes T r.expected_size s w.polls,
                )
                (either (within r.expected_size w.polls) (is_complete w.last.status) _))
  ]
