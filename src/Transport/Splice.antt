-- ===== src/Transport/Splice.antt =====
-- crates/updater/src/transport/download.rs: what a resumed transfer splices together.
pub mod Entries
pub mod Bodies
pub mod Requests
pub mod Polls
pub mod Runs
pub mod Starts
pub mod Faithful
use retrovert.Common.{
  ℕ, zero, suc, ◌+◌, ◌≤◌, ◌<◌, ◌≡◌, refl, Bool, true, false, Option, none, some, List, [], ◌∷◌,
  ◌++◌, arith, length,
}
use retrovert.Common.Slices.{take, drop, Begins}
use retrovert.Queue.Transport.{Status}
use retrovert.Transport.Meta.{Meta, i64_limit}
use retrovert.Transport.Http.{Text, Get, Response, Head, url_size, is_content_type_mismatch}
use retrovert.Transport.Download.{Disk, Download, Opens, read_meta}
use retrovert.Transport.Session.{
  Entry, Event, starts, reads, pauses, cancels, drops, killed, evicts,
}

-- The bytes of the file that a transfer knows of.
abbrev pub count : Download → ℕ
count x = x.xfer.resume_offset + x.xfer.bytes_written

abbrev pub HasLength : ℕ → Option (List ℕ) → Type 0
HasLength n none = ⊥
HasLength n (some f) = length f ≡ n

module _ (body : List ℕ) where
  -- A server of one body: what it answers below 400, and not as a page in its place, is the whole
  -- body, and under 206 the part of it that the request's range begins.
  pub record IsHonest (serve : Get → Option Response) : Type 0 where
    pub full :
        (g : Get) (r : Response)
        → serve g ≡ some r
        → r.status < 400
        → is_content_type_mismatch r.content_type g.url ≡ false
        → g.range ≡ none
        → r.body ≡ body
    pub partial :
        (g : Get) (r : Response) (n : ℕ)
        → serve g ≡ some r
        → r.status ≡ 206
        → is_content_type_mismatch r.content_type g.url ≡ false
        → g.range ≡ some n
        → r.body ≡ drop n body

  abbrev pub Sized : Option ℕ → Type 0
  Sized none = Unit
  Sized (some n) = n ≡ length body

  abbrev pub HonestEvent : Event → Type 0
  HonestEvent (starts o url) = Sized (url_size o.head)
  HonestEvent (reads serve buf io) = IsHonest serve
  HonestEvent _ = Unit

  abbrev pub HonestEvents : List Event → Type 0
  HonestEvents [] = Unit
  HonestEvents (e ∷ es) = HonestEvent e × HonestEvents es

  -- The file is the beginning of the body.
  abbrev pub IsPrefix : Option (List ℕ) → Type 0
  IsPrefix none = Unit
  IsPrefix (some f) = Begins f body

  -- Beside a sidecar that says complete, the file has the length of the body.
  abbrev pub Claims : Option (List ℕ) → Option Meta → Type 0
  Claims none m = Unit
  Claims (some f) none = Unit
  Claims (some f) (some m) = m.bytes_written ≡ m.file_size → length body ≤ length f

  abbrev pub Names : Option Meta → Type 0
  Names none = Unit
  Names (some m) = m.file_size ≡ length body

  -- What may be in the entry, whether or not a transfer is running into it.
  pub record IsSound (d : Disk) : Type 0 where
    pub total : Names (read_meta d)
    pub prefix : IsPrefix d.file
    pub claims : Claims d.file (read_meta d)

  abbrev pub HasRest : Download → Option (List ℕ) → Type 0
  HasRest x none = Unit
  HasRest x (some rest) = rest ≡ drop (count x) body

  abbrev pub IsWhole : Option (List ℕ) → Type 0
  IsWhole none = ⊥
  IsWhole (some f) = length body ≤ length f

  -- While a transfer has its file open, the file is as long as the count, and what is left to read is
  -- what the file lacks.
  abbrev pub IsOpen : Disk → Download → Type 0
  IsOpen d x =
      (x.xfer.file_open ≡ true)
      × HasLength (count x) d.file
      × (x.progress_bytes ≡ count x)
      × HasRest x x.xfer.reader

  abbrev pub Stands : Disk → Download → Status → Type 0
  Stands d x Status.pending = IsOpen d x × (x.xfer.started ≡ false) × (x.xfer.bytes_written ≡ 0)
  Stands d x Status.downloading = IsOpen d x × (x.xfer.started ≡ true)
  Stands d x Status.complete = IsWhole d.file
  Stands d x Status.paused = Unit
  Stands d x Status.cancelled = Unit
  Stands d x Status.failed = Unit

  abbrev pub LiveSound : Disk → Option Download → Type 0
  LiveSound d none = Unit
  LiveSound d (some x) = Sized x.xfer.file_size × Stands d x x.status

  -- The entry and the transfer that is running into it.
  pub record IsKept (e : Entry) : Type 0 where
    pub disk : IsSound e.disk
    pub live : LiveSound e.disk e.live
