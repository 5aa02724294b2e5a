-- ===== src/Transport/Download.antt =====
-- crates/updater/src/transport/download.rs and crates/updater/src/transport/cache.rs: one transfer
-- into the cache entry of a digest. The entry is two files, and the functions return it. A body that
-- is being read is what is left of it. What the network and the file system answer are arguments; a
-- removal is taken to succeed. An atomic that holds the code of a status or of a failure holds the
-- value itself.
use mathlib.Core.Option
use retrovert.Common.{
  ℕ, ◌-◌, Bool, true, false, not, ◌&&◌, Option, none, some, List, [], ◌∷◌, ltb, ◌==◌, is_some,
  if◌then◌else◌, length, u64_max,
}
use retrovert.Common.Results.{Result, ok, err}
use retrovert.Common.Slices.{take}
use retrovert.Queue.Transport.{Status}
use retrovert.Transport.Meta.{Meta, serialize, deserialize, unpack_etag}
use retrovert.Transport.Http.{Text, Head, url_size, available_disk_space, check_disk_space}

pub data Failure : Type 0 where
  server resume_restart html_page transfer : Failure

-- `transport::Error`, as far as a transfer can start with it.
pub data Error : Type 0 where
  empty_url disk_space io : Error

-- The file of a cache entry and its sidecar.
pub record Disk : Type 0 where
  pub file : Option (List ℕ)
  pub sidecar : Option (List ℕ)

-- `Transfer`, less the path, which is the entry's.
pub record Transfer : Type 0 where
  pub url : Text
  pub file_size : Option ℕ
  pub bytes_written : ℕ
  pub resume_offset : ℕ
  pub etag : Text
  pub started : Bool
  pub is_cached : Bool
  pub reader : Option (List ℕ)
  pub file_open : Bool
  pub cached_file : Option (List ℕ)

pub record Download : Type 0 where
  pub progress_bytes : ℕ
  pub progress_total : ℕ
  pub status : Status
  pub failure : Option Failure
  pub no_retry : Bool
  pub cancel : Bool
  pub pause : Bool
  pub xfer : Transfer

-- What a partial file lets a transfer skip.
pub record Resume : Type 0 where
  pub offset : ℕ
  pub file_size : ℕ
  pub etag : Text

pub data Setup : Type 0 where
  cached : List ℕ → Setup
  resume : Resume → Setup
  fresh : Option ℕ → Setup

-- What a write leaves: all of it, a part, or nothing of it and what was there before.
pub data Write : Type 0 where
  whole : Write
  cut : ℕ → Write
  refused : Write

-- Which of the files that a start opens it can open, and what a HEAD is answered.
pub record Opens : Type 0 where
  pub cached_opens : Bool
  pub resume_opens : Bool
  pub created : Bool
  pub head : Option Head

-- How many bytes a read of the body gives, or that it fails; and what the writes of the call leave.
pub record Io : Type 0 where
  pub read_len : Option ℕ
  pub file_write : Write
  pub sidecar_write : Write

-- `UNKNOWN_TOTAL`
abbrev pub unknown_total : ℕ
unknown_total = u64_max

abbrev pub removed : Disk
removed = record { file = none; sidecar = none }

-- `meta::write`
unfoldable pub write_meta : Disk → Meta → Write → Disk
unfolding serialize
write_meta d m whole = record d { sidecar = some (serialize m) }
write_meta d m (cut k) = record d { sidecar = some (take k (serialize m)) }
write_meta d m refused = d

-- `meta::read`
unfoldable pub read_meta : Disk → Option Meta
unfolding deserialize
read_meta d = elim d.sidecar [ none ↦ none | some bytes ↦ deserialize bytes ]

-- `is_complete_at` and `Cache::is_complete`
unfoldable pub is_complete_at : Disk → Bool
unfolding read_meta
is_complete_at d = elim d.file [
  | none ↦ false
  | some bytes ↦
      not (length bytes == 0)
      && elim (read_meta d) [ none ↦ false | some m ↦ m.bytes_written == m.file_size ]
]

-- `Cache::has_partial`
unfoldable pub has_partial : Disk → Bool
unfolding read_meta
has_partial d = is_some (read_meta d)

-- `Cache::evict`
unfoldable pub evict : Disk → Disk
evict d = removed

unfoldable pub open_cached : Disk → Opens → Option Setup
unfolding is_complete_at
open_cached d o = if is_complete_at d && o.cached_opens then Option.map cached d.file else none

-- Whether the sidecar's count is that of a file that is neither empty nor complete.
unfoldable pub is_resumable : Meta → ℕ → Bool
unfolding check_disk_space
is_resumable m on_disk =
    on_disk == m.bytes_written
    && (not (m.bytes_written == 0)
        && (ltb m.bytes_written m.file_size
            && check_disk_space (some (m.file_size - m.bytes_written)) available_disk_space))

unfoldable pub plan_resume : (Text → Text) → Disk → Option Resume
unfolding read_meta is_resumable unpack_etag
plan_resume lossy d = elim (read_meta d) [
  | none ↦ none
  | some m ↦ elim d.file [
    | none ↦ none
    | some bytes ↦
        if is_resumable m (length bytes)
        then some (record {
          offset = m.bytes_written;
          file_size = m.file_size;
          etag = unpack_etag lossy m.etag;
        })
        else none
  ]
]

unfoldable pub open_resume : (Text → Text) → Disk → Opens → Option Setup
unfolding plan_resume
open_resume lossy d o = if o.resume_opens then Option.map resume (plan_resume lossy d) else none

-- A file that is created is empty, whatever was there.
unfoldable pub start_fresh : Disk → Opens → Disk × Result Error Setup
unfolding url_size check_disk_space
start_fresh d o =
    if check_disk_space (url_size o.head) available_disk_space
    then if o.created
      then (record d { file = some [] }, ok (fresh (url_size o.head)))
      else (d, err io)
    else (d, err disk_space)

unfoldable pub prepare : (Text → Text) → Disk → Opens → Bool → Disk × Result Error Setup
prepare lossy d o allow_resume = elim (open_cached d o) [
  | some setup ↦ (d, ok setup)
  | none ↦
      if allow_resume
      then elim (open_resume lossy d o) [
        | some setup ↦ (d, ok setup)
        | none ↦ start_fresh removed o
      ]
      else start_fresh d o
]

-- A transfer before its setup is known.
abbrev pub unset : Text → Transfer
unset url = record {
  url = url;
  file_size = none;
  bytes_written = 0;
  resume_offset = 0;
  etag = [];
  started = false;
  is_cached = false;
  reader = none;
  file_open = false;
  cached_file = none;
}

abbrev pub total_or_unknown : Option ℕ → ℕ
total_or_unknown none = unknown_total
total_or_unknown (some n) = n

abbrev pub set_up : Status → ℕ → Option ℕ → Transfer → Download
set_up status downloaded total xfer = record {
  progress_bytes = downloaded;
  progress_total = total_or_unknown total;
  status = status;
  failure = none;
  no_retry = false;
  cancel = false;
  pause = false;
  xfer = xfer;
}

unfoldable pub from_setup : Text → Setup → Download
from_setup url (cached bytes) =
    set_up Status.complete (length bytes) (some (length bytes)) (record (unset url) {
      cached_file = some bytes;
      file_size = some (length bytes);
      is_cached = true;
      started = true;
    })
from_setup url (resume r) = set_up Status.pending r.offset (some r.file_size) (record (unset url) {
  file_open = true;
  resume_offset = r.offset;
  file_size = some r.file_size;
  etag = r.etag;
})
from_setup url (fresh file_size) =
    set_up Status.pending 0 file_size
      (record (unset url) { file_open = true; file_size = file_size })

abbrev pub with_setup : Text → Disk × Result Error Setup → Disk × Result Error Download
with_setup url (d, ok setup) = (d, ok (from_setup url setup))
with_setup url (d, err e) = (d, err e)

-- `Download::start`
unfoldable pub start : (Text → Text) → Disk → Opens → Text → Bool → Disk × Result Error Download
start lossy d o [] allow_resume = (d, err empty_url)
start lossy d o (b ∷ bs) allow_resume = with_setup (b ∷ bs) (prepare lossy d o allow_resume)
