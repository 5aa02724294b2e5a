-- ===== src/Transport/Examples.antt =====
-- Transfers of a body of three bytes, stopped and resumed, where the theorems' hypotheses hold.
use retrovert.Common.{
  ℕ, ◌-◌, ◌<◌, ◌≤◌, ◌≡◌, refl, true, false, Option, none, some, List, [], ◌∷◌, inl, ltb, arith,
  length, if◌then◌else◌,
}
use retrovert.Common.Slices.{drop, take}
use retrovert.Queue.Transport.{Status}
use retrovert.Transport.Meta.{Meta, serialize, deserialize, pack_etag, unpack_etag, etag_len, size}
use retrovert.Transport.Meta.Codec.{serialize-read_back}
use retrovert.Transport.Http.{
  Text, Get, Response, is_content_type_mismatch, url_size, resume_response_is_valid,
}
use retrovert.Transport.Download
use retrovert.Transport.Download.{Disk, Download, Opens, Io, whole, cut}
use retrovert.Transport.Reading
use retrovert.Transport.Reading.{get}
use retrovert.Transport.Session.{Event, starts, reads, drops, killed, untouched, step, run}
use retrovert.Transport.Splice.{IsHonest, HonestEvents, Sized}
use retrovert.Transport.Unanswered.{run-unanswered}
use retrovert.Queue.Transfer.{Chunk}
use retrovert.Transport.Splice.Faithful.{run-whole, run-partial, run-get}

abbrev song : List ℕ
song = 1 ∷ 2 ∷ 3 ∷ []

-- "u"
abbrev url : Text
url = 117 ∷ []

abbrev reply : ℕ → List ℕ → Response
reply status body = record { status = status; content_type = []; etag = 34 ∷ 34 ∷ []; body = body }

abbrev serve : Get → Option Response
serve g = elim g.range [ none ↦ some (reply 200 song) | some n ↦ some (reply 206 (drop n song)) ]

serve-IsHonest : IsHonest song serve
serve-IsHonest = record {
  full = λ g r h good binary whole_body. ground (arith, h, whole_body);
  partial = λ g r n h is binary part. ground (arith, h, part);
}

abbrev opens : Opens
opens = record {
  cached_opens = true;
  resume_opens = true;
  created = true;
  head = some (record { status = 200; content_length = some (51 ∷ []) });
}

-- A poll that reads that many bytes.
abbrev reading : ℕ → Event
reading n = reads serve 8 (record { read_len = some n; file_write = whole; sidecar_write = whole })

-- Two bytes are read, and the transfer is dropped; then it is started again.
abbrev resumed : List Event
resumed = starts opens url ∷ reading 2 ∷ drops whole ∷ starts opens url ∷ []

abbrev no_change : Text → Text
no_change t = t

abbrev resuming : Download
resuming = record {
  progress_bytes = 2;
  progress_total = 3;
  status = Status.pending;
  failure = none;
  no_retry = false;
  cancel = false;
  pause = false;
  xfer = record {
    url = url;
    file_size = some 3;
    bytes_written = 0;
    resume_offset = 2;
    etag = 34 ∷ 34 ∷ [];
    started = false;
    is_cached = false;
    reader = none;
    file_open = true;
    cached_file = none;
  };
}

run-resumed : (run no_change untouched resumed).live ≡ some resuming
unfolding run Download.start Download.prepare Download.open_cached Download.open_resume
    Download.start_fresh Download.from_setup Reading.read_chunk Reading.start_transfer Reading.get
    Reading.dropped is_content_type_mismatch resume_response_is_valid pack_etag
run-resumed = refl

resumed-HonestEvents : HonestEvents song resumed
unfolding url_size
resumed-HonestEvents = (refl, (serve-IsHonest, (tt, (refl, tt))))

run-get_example :
    (f : List ℕ) × ((run no_change untouched resumed).disk.file ≡ some f)
    × (f ≡ take (length f) song)
    × ((get resuming.xfer).range ≡ (if ltb 0 (length f) then some (length f) else none))
run-get_example =
    run-get song (omega arith) no_change resumed resuming resumed-HonestEvents run-resumed refl

-- The rest is read and written, but the write fails, and the process is killed. The sidecar still
-- counts two bytes, so the third start begins anew.
abbrev finished : List Event
finished =
    starts opens url
    ∷ reading 2
    ∷ drops whole
    ∷ starts opens url
    ∷ reads serve 8 (record { read_len = some 1; file_write = cut 1; sidecar_write = whole })
    ∷ killed
    ∷ starts opens url
    ∷ reading 8
    ∷ reading 8
    ∷ []

finished-HonestEvents : HonestEvents song finished
unfolding url_size
finished-HonestEvents = (
  refl,
  (
    serve-IsHonest,
    (tt, (refl, (serve-IsHonest, (tt, (refl, (serve-IsHonest, (serve-IsHonest, tt))))))),
  ),
)

run-finished : Download.is_complete_at (run no_change untouched finished).disk ≡ true
unfolding run Download.is_complete_at Download.start Download.prepare Download.open_cached
    Download.open_resume Download.start_fresh Download.from_setup Reading.read_chunk
    Reading.start_transfer Reading.get Reading.dropped is_content_type_mismatch
    resume_response_is_valid pack_etag
run-finished = refl

run-whole_example : (run no_change untouched finished).disk.file ≡ some song
run-whole_example =
    run-whole song (omega arith) no_change finished finished-HonestEvents (inl run-finished)

abbrev half : List Event
half = starts opens url ∷ reading 2 ∷ []

abbrev half_read : Download
half_read = record resuming {
  status = Status.downloading;
  xfer = record resuming.xfer {
    bytes_written = 2;
    resume_offset = 0;
    started = true;
    reader = some (3 ∷ []);
  };
}

run-half : (run no_change untouched half).live ≡ some half_read
unfolding run Download.start Download.prepare Download.open_cached Download.open_resume
    Download.start_fresh Download.from_setup Reading.read_chunk Reading.start_transfer Reading.get
    is_content_type_mismatch resume_response_is_valid
run-half = refl

half-HonestEvents : HonestEvents song half
unfolding url_size
half-HonestEvents = (refl, (serve-IsHonest, tt))

run-partial_example :
    ((run no_change untouched half).disk.file ≡ some (take 2 song)) × (2 ≤ length song)
run-partial_example =
    run-partial song (omega arith) no_change half half_read half-HonestEvents run-half refl

abbrev quoted : Text
quoted = 34 ∷ 97 ∷ 34 ∷ []

abbrev stored : Meta
stored = record { file_size = 3; bytes_written = 2; etag = pack_etag quoted }

serialize-read_back_example :
    (m : Meta) × (deserialize (serialize stored) ≡ some m)
    × (m.file_size ≡ 3)
    × (m.bytes_written ≡ 2)
    × (unpack_etag no_change m.etag ≡ take (etag_len - 1) quoted)
    × ((k : ℕ) → k < size → deserialize (take k (serialize stored)) ≡ none)
serialize-read_back_example =
    serialize-read_back no_change 3 2 quoted (omega arith) (omega arith) refl

abbrev offline : Get → Option Response
offline g = none

abbrev polled : Io
polled = record { read_len = none; file_write = whole; sidecar_write = whole }

-- What the first transfer left, with its sidecar.
abbrev stopped : List Event
stopped = starts opens url ∷ reading 2 ∷ drops whole ∷ []

stopped-HonestEvents : HonestEvents song stopped
unfolding url_size
stopped-HonestEvents = (refl, (serve-IsHonest, (tt, tt)))

run-stopped : (run no_change untouched stopped).live ≡ none
unfolding run Download.start Download.prepare Download.open_cached Download.open_resume
    Download.start_fresh Download.from_setup Reading.read_chunk Reading.start_transfer Reading.get
    Reading.dropped is_content_type_mismatch resume_response_is_valid pack_etag
run-stopped = refl

stopped-Sized : Sized song (url_size opens.head)
unfolding url_size
stopped-Sized = refl

resuming-starts :
    (step no_change (run no_change untouched stopped) (starts opens url)).live ≡ some resuming
unfolding run Download.start Download.prepare Download.open_cached Download.open_resume
    Download.start_fresh Download.from_setup Reading.read_chunk Reading.start_transfer Reading.get
    Reading.dropped is_content_type_mismatch resume_response_is_valid pack_etag
resuming-starts = refl

run-unanswered_example :
    ((run no_change untouched stopped).disk.file ≡ some (take 2 song))
    × (2 ≤ length song)
    × ((run no_change (run no_change untouched stopped) (starts opens url ∷ drops whole ∷ [])).disk
        ≡ (run no_change untouched stopped).disk)
    × ((Reading.read_chunk offline (run no_change untouched stopped).disk resuming 8 polled).0
        ≡ Chunk.failed)
    × ((run no_change
          (run no_change untouched stopped)
          (starts opens url ∷ reads offline 8 polled ∷ [])).disk
        ≡ (run no_change untouched stopped).disk)
    × (run no_change
          (run no_change untouched stopped)
          (starts opens url ∷ reads offline 8 polled ∷ drops whole ∷ [])
        ≡ untouched)
run-unanswered_example =
    run-unanswered song (omega arith) no_change stopped opens url resuming offline 8 polled whole
      stopped-HonestEvents stopped-Sized run-stopped resuming-starts (omega arith) (omega arith)
      refl
