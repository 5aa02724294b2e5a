-- ===== src/Transport/Reading.antt =====
-- crates/updater/src/transport/download.rs: a poll of a transfer, its requests, and its end.
use mathlib.Core.Option
use retrovert.Common.{
  ℕ, ◌+◌, Bool, true, false, not, ◌&&◌, Option, none, some, List, [], ◌∷◌, ◌++◌, min, max, leb, ltb,
  ◌==◌, if◌then◌else◌, length,
}
use retrovert.Common.Slices.{take, drop}
use retrovert.Queue.Transport.{Status, Snapshot}
use retrovert.Queue.Transfer.{Chunk, read, idle}
use retrovert.Transport.Meta.{pack_etag}
use retrovert.Transport.Http.{
  Text, Get, Response, resume_response_is_valid, is_content_type_mismatch,
}
use retrovert.Transport.Download.{
  Failure, server, resume_restart, html_page, Disk, Transfer, Download, Write, whole, cut, refused,
  Io, unknown_total, removed, write_meta,
}

abbrev pub is_empty : Text → Bool
is_empty [] = true
is_empty (b ∷ bs) = false

-- `Download::progress`
unfoldable pub progress : Download → Snapshot Failure
progress x = record {
  downloaded = x.progress_bytes;
  total = if x.progress_total == unknown_total then none else some x.progress_total;
  status = x.status;
  failure = x.failure;
  no_retry = x.no_retry;
}

unfoldable pub request_pause : Download → Download
request_pause x = record x { pause = true }

unfoldable pub request_cancel : Download → Download
request_cancel x = record x { cancel = true }

abbrev pub fail : Download → Failure → Bool → Download
fail x failure no_retry = record x {
  failure = some failure;
  no_retry = no_retry;
  status = Status.failed;
}

abbrev pub close : Download → Download
close x = record x { xfer = record x.xfer { file_open = false } }

-- The partial file and its sidecar are removed.
unfoldable pub discard : Disk → Download → Disk × Download
discard d x = (removed, close x)

-- Only a body of known length, of which something was written, gets a sidecar.
unfoldable pub save_meta : Disk → Transfer → Write → Disk
unfolding write_meta
save_meta d t w = elim t.file_size [
  | none ↦ d
  | some file_size ↦
      if t.bytes_written == 0
      then d
      else write_meta d
          (record {
            file_size = file_size;
            bytes_written = t.resume_offset + t.bytes_written;
            etag = pack_etag t.etag;
          })
          w
]

-- The request of a transfer; only one that resumes has a range.
unfoldable pub get : Transfer → Get
get t = record {
  url = t.url;
  range = if ltb 0 t.resume_offset then some t.resume_offset else none;
  if_range = if ltb 0 t.resume_offset && not (is_empty t.etag) then some t.etag else none;
}

-- The transfer, the disk, and whether it goes on.
abbrev pub refuse : Disk × Download → Failure → Bool → Disk × Download × Bool
refuse (d, x) failure no_retry = (d, fail x failure no_retry, false)

abbrev pub with_etag : Download → Text → Download
with_etag x etag = if is_empty etag then x else record x { xfer = record x.xfer { etag = etag } }

-- What a response comes to.
unfoldable pub answered : Disk → Download → Response → Disk × Download × Bool
unfolding discard
answered d x r =
    if leb 400 r.status
    then refuse (discard d x) server (ltb r.status 500)
    else if not (resume_response_is_valid x.xfer.resume_offset r.status)
    then refuse (discard d x) resume_restart false
    else if is_content_type_mismatch r.content_type x.xfer.url
    then refuse (discard d x) html_page true
    else (
      d,
      record x {
        status = Status.downloading;
        xfer = record x.xfer { reader = some r.body; started = true };
      },
      true,
    )

unfoldable pub start_transfer : (Get → Option Response) → Disk → Download → Disk × Download × Bool
unfolding answered
start_transfer serve d x = elim (serve (get x.xfer)) [
  | none ↦ refuse (d, close x) Failure.transfer false
  | some r ↦ answered d (with_etag x r.etag) r
]

unfoldable pub finalize_complete : Disk → Download → Write → Disk × Download
unfolding write_meta
finalize_complete d x w =
    let total = x.xfer.resume_offset + x.xfer.bytes_written in
    (
      write_meta d
          (record { file_size = total; bytes_written = total; etag = pack_etag x.xfer.etag }) w,
      record (close x) { progress_bytes = total; progress_total = total; status = Status.complete },
    )

-- `write_all` to the end of an open file, and whether it failed.
abbrev pub append : Disk → List ℕ → Disk
append d bytes = record d { file = Option.map (λ f. f ++ bytes) d.file }

unfoldable pub write_all : Disk → Bool → List ℕ → Write → Disk × Bool
write_all d false bytes w = (d, false)
write_all d true bytes whole = (append d bytes, false)
write_all d true bytes (cut k) = (append d (take k bytes), true)
write_all d true bytes refused = (d, true)

abbrev pub wrote : Download → List ℕ → List ℕ → Disk × Bool → Chunk × Disk × Download
wrote x bytes rest (d, true) = (
  Chunk.failed,
  d,
  fail (record x { xfer = record x.xfer { reader = some rest; file_open = false } })
      Failure.transfer false,
)
wrote x bytes rest (d, false) = (
  read bytes,
  d,
  record x {
    xfer = record x.xfer {
      reader = some rest;
      bytes_written = x.xfer.bytes_written + length bytes;
    };
    progress_bytes = x.xfer.resume_offset + (x.xfer.bytes_written + length bytes);
  },
)

abbrev pub finished : Disk × Download → Chunk × Disk × Download
finished (d, x) = (idle, d, x)

-- A read of a body of which something is left gives at least one byte, and at most the buffer.
abbrev pub read_size : ℕ → ℕ → ℕ
read_size buf n = max 1 (min n buf)

-- One read of the body: it fails, it is over, or its bytes go to the file.
unfoldable pub read_body : Disk → Download → ℕ → Io → Chunk × Disk × Download
unfolding write_all finalize_complete
read_body d x buf io = elim x.xfer.reader [
  | none ↦ (Chunk.failed, d, x)
  | some body ↦ elim io.read_len [
    | none ↦ (Chunk.failed, d, fail (close x) Failure.transfer false)
    | some n ↦ elim body [
      | [] ↦ finished (finalize_complete d x io.sidecar_write)
      | b ∷ bs ↦
          let bytes = take (read_size buf n) (b ∷ bs) in
          wrote x bytes (drop (read_size buf n) (b ∷ bs))
            (write_all d x.xfer.file_open bytes io.file_write)
    ]
  ]
]

-- One read of a complete entry.
unfoldable pub read_cached : Disk → Download → ℕ → Io → Chunk × Disk × Download
read_cached d x buf io = elim x.xfer.cached_file [
  | none ↦ (idle, d, x)
  | some body ↦
      let over = record x { xfer = record x.xfer { cached_file = none } } in
      elim io.read_len [
        | none ↦ (idle, d, over)
        | some n ↦ elim body [
          | [] ↦ (idle, d, over)
          | b ∷ bs ↦ (
            read (take (read_size buf n) (b ∷ bs)),
            d,
            record x {
              xfer = record x.xfer { cached_file = some (drop (read_size buf n) (b ∷ bs)) };
            },
          )
        ]
      ]
]

abbrev pub started_then : ℕ → Io → Disk × Download × Bool → Chunk × Disk × Download
started_then buf io (d, x, true) = read_body d x buf io
started_then buf io (d, x, false) = (Chunk.failed, d, x)

abbrev pub cancelled : Disk × Download → Chunk × Disk × Download
cancelled (d, x) = (Chunk.failed, d, record x { status = Status.cancelled })

-- A poll of a transfer that is pending or downloading.
unfoldable pub poll : (Get → Option Response) → Disk → Download → ℕ → Io → Chunk × Disk × Download
unfolding discard save_meta start_transfer read_body
poll serve d x buf io =
    if x.cancel
    then cancelled (discard d x)
    else if x.pause
    then (idle, save_meta d x.xfer io.sidecar_write, record x { status = Status.paused })
    else if x.xfer.started
    then read_body d x buf io
    else started_then buf io (start_transfer serve d x)

abbrev pub by_status : Status → Disk → Download → Chunk × Disk × Download → Chunk × Disk × Download
by_status Status.failed d x polled = (Chunk.failed, d, x)
by_status Status.cancelled d x polled = (Chunk.failed, d, x)
by_status Status.complete d x polled = (idle, d, x)
by_status Status.paused d x polled = (idle, d, x)
by_status Status.pending d x polled = polled
by_status Status.downloading d x polled = polled

-- `Download::read_chunk` into a buffer of that length.
unfoldable pub read_chunk :
    (Get → Option Response) → Disk → Download → ℕ → Io → Chunk × Disk × Download
unfolding read_cached poll
read_chunk serve d x buf io =
    if buf == 0
    then (Chunk.failed, d, x)
    else if x.xfer.is_cached
    then read_cached d x buf io
    else by_status x.status d x (poll serve d x buf io)

-- What the end of a transfer's life does to the entry.
abbrev pub is_downloading : Status → Bool
is_downloading Status.downloading = true
is_downloading _ = false

abbrev pub is_failed : Status → Bool
is_failed Status.failed = true
is_failed _ = false

-- `Drop::drop`
unfoldable pub dropped : Disk → Download → Write → Disk
unfolding save_meta
dropped d x w =
    if x.xfer.is_cached
    then d
    else if is_downloading x.status && ltb 0 x.xfer.bytes_written
    then save_meta d x.xfer w
    else if is_failed x.status && x.xfer.bytes_written == 0
    then removed
    else d
