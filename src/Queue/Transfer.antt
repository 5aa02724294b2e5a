-- ===== src/Queue/Transfer.antt =====
-- crates/updater/src/queue/validate.rs and `transfer` of crates/updater/src/queue/mod.rs. SHA-256 is a
-- parameter, and so is what the transport and the file system answer: the prefix that is on disk,
-- the chunks as they are polled, the snapshot after the last, and the file that is read back.
use mathlib.Core.Option
use retrovert.Common.{
  ℕ, Bool, true, false, ◌&&◌, Option, none, some, List, [], ◌∷◌, ◌++◌, ltb, ◌==◌, is_none,
  if◌then◌else◌, length,
}
use retrovert.Common.Results.{Result, ok, err}
use retrovert.Queue.{State, Failure, digest, disk_digest, size, oversize, unreadable, SlotRequest}
use retrovert.Queue.Transport.{Status, Snapshot}

-- `transport::Chunk`; the bytes that were read stand for their number.
pub data Chunk : Type 0 where
  read : List ℕ → Chunk
  idle failed : Chunk

-- One turn of the loop: the chunk, and the bytes on disk after it.
pub record Poll : Type 0 where
  pub chunk : Chunk
  pub downloaded : ℕ

-- What a transfer finds outside of the queue.
pub record World (T : Type 0) : Type 0 where
  pub resumed_from : ℕ
  pub prefix : Option (List ℕ)
  pub polls : List Poll
  pub last : Snapshot T
  pub file : Option (List ℕ)

abbrev pub same_bytes : List ℕ → List ℕ → Bool
same_bytes [] [] = true
same_bytes [] (y ∷ ys) = false
same_bytes (x ∷ xs) [] = false
same_bytes (x ∷ xs) (y ∷ ys) = (x == y) && same_bytes xs ys

-- `hash_prefix`: the bytes go into the digest if the file has that many.
unfoldable pub hash_prefix : Option (List ℕ) → ℕ → Option (List ℕ)
hash_prefix none len = none
hash_prefix (some bytes) len = if length bytes == len then some bytes else none

-- What a transfer settles with, and whether the cache entry is dropped.
pub record Verdict (T : Type 0) : Type 0 where
  pub digest : Option (List ℕ)
  pub state : State
  pub failure : Option (Failure T)
  pub evicted : Bool

-- The bytes that went into the digest, and the refusal of a body that ran past its length.
pub record Streamed (T : Type 0) : Type 0 where
  pub bytes : List ℕ
  pub oversize : Option (Failure T)

module _ {T : Type 0} (sha : List ℕ → List ℕ) where
  -- `hash_file` and `verify_on_disk`; a file that is not there or is empty has no digest.
  unfoldable pub verify_on_disk : Option (List ℕ) → List ℕ → Result (Failure T) (Unit {0})
  verify_on_disk none wanted = err unreadable
  verify_on_disk (some []) wanted = err unreadable
  verify_on_disk (some (b ∷ bs)) wanted =
      if same_bytes (sha (b ∷ bs)) wanted then ok tt else err (disk_digest (sha (b ∷ bs)))

  unfoldable pub validate :
      Option (List ℕ) → List ℕ → Option ℕ → List ℕ → ℕ → Result (Failure T) (Unit {0})
  unfolding verify_on_disk
  validate file wanted expected_size in_flight downloaded =
      if same_bytes (sha in_flight) wanted
      then elim expected_size [
        | none ↦ verify_on_disk file wanted
        | some expected ↦
            if downloaded == expected
            then verify_on_disk file wanted
            else err (size expected downloaded)
      ]
      else err (digest (sha in_flight))

module _ {T : Type 0} where
  -- Whether this poll is the first past the length that was named.
  abbrev pub oversized : Option ℕ → ℕ → Option (Failure T) → Option (Failure T)
  oversized none downloaded found = found
  oversized (some expected) downloaded found =
      if ltb expected downloaded && is_none found
      then some (oversize expected downloaded)
      else found

  -- The loop; the polls after one that reads nothing do not happen.
  unfoldable pub stream : Option ℕ → Streamed T → List Poll → Streamed T
  stream expected so_far [] = so_far
  stream expected so_far (p ∷ ps) = elim p.chunk [
    | read bytes ↦
        stream expected
          (record {
            bytes = so_far.bytes ++ bytes;
            oversize = oversized expected p.downloaded so_far.oversize;
          })
          ps
    | idle ↦ so_far
    | Chunk.failed ↦ so_far
  ]

  abbrev pub validated : SlotRequest → Result (Failure T) (Unit {0}) → Verdict T
  validated r (ok x) = record {
    digest = some r.digest;
    state = State.complete;
    failure = none;
    evicted = false;
  }
  validated r (err refused) = record {
    digest = some r.digest;
    state = State.failed;
    failure = some refused;
    evicted = true;
  }

  abbrev pub ended : SlotRequest → State → Option (Failure T) → Verdict T
  ended r state failure = record {
    digest = some r.digest;
    state = state;
    failure = failure;
    evicted = false;
  }

  -- What a status after the loop comes to.
  abbrev pub by_status : (List ℕ → List ℕ) → SlotRequest → World T → List ℕ → Status → Verdict T
  by_status sha r w bytes Status.complete =
      validated r (validate sha w.file r.digest r.expected_size bytes w.last.downloaded)
  by_status sha r w bytes Status.cancelled = ended r State.cancelled none
  by_status sha r w bytes Status.paused = ended r State.paused none
  by_status sha r w bytes _ = ended r State.failed (Option.map Failure.transfer w.last.failure)

  -- The verdict after the loop.
  unfoldable pub judge : (List ℕ → List ℕ) → SlotRequest → World T → Streamed T → Verdict T
  unfolding validate
  judge sha r w s = elim s.oversize [
    | some refused ↦ record {
      digest = some r.digest;
      state = State.failed;
      failure = some refused;
      evicted = true;
    }
    | none ↦ by_status sha r w s.bytes w.last.status
  ]

  -- The bytes of the digest before the loop, unless a resumed file cannot be read back.
  abbrev pub resumed_bytes : World T → Option (List ℕ)
  resumed_bytes w = if ltb 0 w.resumed_from then hash_prefix w.prefix w.resumed_from else some []

  unfoldable pub transfer : (List ℕ → List ℕ) → SlotRequest → World T → Verdict T
  unfolding stream judge hash_prefix
  transfer sha r w = elim (resumed_bytes w) [
    | none ↦ record {
      digest = none;
      state = State.failed;
      failure = some unreadable;
      evicted = true;
    }
    | some bytes ↦
        judge sha r w (stream r.expected_size (record { bytes = bytes; oversize = none }) w.polls)
  ]
