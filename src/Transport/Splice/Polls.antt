-- ===== src/Transport/Splice/Polls.antt =====
-- crates/updater/src/transport/download.rs: every call on a transfer keeps what a splice relies on.
use retrovert.Common.{
  ℕ, ◌<◌, ◌≡◌, refl, sym, subst, Bool, true, false, Option, List, ◌⊎◌, inl, inr, ◌==◌, length,
  Bool-cases, Option-cases,
}
use retrovert.Queue.Transport.{Status}
use retrovert.Transport.Meta.{Meta, i64_limit, pack_etag}
use retrovert.Transport.Http.{Get, Response}
use retrovert.Transport.Download.{Disk, Download, Write, Io}
use retrovert.Transport.Reading.{save_meta, poll, start_transfer, started_then, by_status}
use retrovert.Transport.Polled.{poll-started, poll-starts}
use retrovert.Transport.Session.{after_read}
use retrovert.Transport.Splice.{IsHonest, IsSound, Sized, IsOpen, Stands, IsKept, count}
use retrovert.Transport.Splice.Entries.{removed-IsSound, write_meta-IsSound}
use retrovert.Transport.Splice.Bodies.{HasLength-some, read_body-IsKept}
use retrovert.Transport.Splice.Requests.{Ready, start_transfer-Ready}

module _ (body : List ℕ) (small : length body < i64_limit) where
  -- The sidecar of a transfer that is stopped counts the bytes of the file.
  pub save_meta-IsSound :
      (d : Disk) (x : Download) (w : Write)
      → IsSound body d
      → Sized body x.xfer.file_size
      → IsOpen body d x
      → IsSound body (save_meta d x.xfer w)
  unfolding save_meta
  save_meta-IsSound d x w v sized (is_open, long, told, rest_ok) =
      let (f, there, counted) = HasLength-some (count x) d.file long in
      elim (Option-cases x.xfer.file_size) [
        | inl unknown ↦ rw unknown v
        | inr (n, known) ↦ elim (Bool-cases (x.xfer.bytes_written == 0)) [
          | inl empty ↦ rw (known, empty) v
          | inr some_written ↦
              let m : Meta = record {
                file_size = n;
                bytes_written = count x;
                etag = pack_etag x.xfer.etag;
              } in
              rw (known, some_written)
                (write_meta-IsSound body small d m f x.xfer.etag w v there
                  (subst (Sized body) known sized) (sym counted) refl)
        ]
      ]

  started_then-IsKept :
      (buf : ℕ) (io : Io) (r : Disk × Download × Bool)
      → Ready body small r
      → IsKept body (after_read (started_then buf io r))
  started_then-IsKept buf io (d, x, true) (v, sized, going, opened, begun) =
      read_body-IsKept body small d x buf io v sized going begun opened
  started_then-IsKept buf io (d, x, false) kept = kept

  -- A poll by the two flags, and by whether the transfer was started.
  poll-cancelled :
      (serve : Get → Option Response) (d : Disk) (x : Download) (buf : ℕ) (io : Io)
      → x.cancel ≡ true
      → Sized body x.xfer.file_size
      → IsKept body (after_read (poll serve d x buf io))
  unfolding poll
  poll-cancelled serve d x buf io off sized =
      rw off (record { disk = removed-IsSound body small; live = (sized, tt) })

  poll-paused :
      (serve : Get → Option Response) (d : Disk) (x : Download) (buf : ℕ) (io : Io)
      → x.cancel ≡ false
      → x.pause ≡ true
      → Sized body x.xfer.file_size
      → IsSound body (save_meta d x.xfer io.sidecar_write)
      → IsKept body (after_read (poll serve d x buf io))
  unfolding poll
  poll-paused serve d x buf io go held sized v =
      rw (go, held) (record { disk = v; live = (sized, tt) })

  -- A transfer that is open is downloading, or has sent no request.
  abbrev Stage : Download → Type 0
  Stage x =
      ((x.xfer.started ≡ true) × (x.status ≡ Status.downloading))
      ⊎ ((x.xfer.started ≡ false) × (x.xfer.bytes_written ≡ 0))

  poll-IsKept :
      (serve : Get → Option Response) (d : Disk) (x : Download) (buf : ℕ) (io : Io)
      → IsSound body d
      → Sized body x.xfer.file_size
      → IsOpen body d x
      → Stage x
      → IsHonest body serve
      → IsKept body (after_read (poll serve d x buf io))
  poll-IsKept serve d x buf io v sized opened stage honest = elim (Bool-cases x.cancel) [
    | inl off ↦ poll-cancelled serve d x buf io off sized
    | inr go ↦ elim (Bool-cases x.pause) [
      | inl held ↦
          poll-paused serve d x buf io go held sized
            (save_meta-IsSound d x io.sidecar_write v sized opened)
      | inr on ↦ elim stage [
        | inl (begun, going) ↦
            subst (λ r. IsKept body (after_read r))
              (sym (poll-started serve d x buf io go on begun))
              (read_body-IsKept body small d x buf io v sized going begun opened)
        | inr (begun, unwritten) ↦
            subst (λ r. IsKept body (after_read r)) (sym (poll-starts serve d x buf io go on begun))
              (started_then-IsKept buf io (start_transfer serve d x)
                (start_transfer-Ready body small serve d x honest v sized opened unwritten))
      ]
    ]
  ]

  pub by_status-IsKept :
      (serve : Get → Option Response) (d : Disk) (x : Download) (buf : ℕ) (io : Io) (s : Status)
      → x.status ≡ s
      → IsSound body d
      → Sized body x.xfer.file_size
      → Stands body d x s
      → IsHonest body serve
      → IsKept body (after_read (by_status s d x (poll serve d x buf io)))
  by_status-IsKept serve d x buf io Status.pending is v sized (opened, begun, unwritten) honest =
      poll-IsKept serve d x buf io v sized opened (inr (begun, unwritten)) honest
  by_status-IsKept serve d x buf io Status.downloading is v sized (opened, begun) honest =
      poll-IsKept serve d x buf io v sized opened (inl (begun, is)) honest
  by_status-IsKept serve d x buf io Status.paused is v sized h honest = record {
    disk = v;
    live = (sized, rw is h);
  }
  by_status-IsKept serve d x buf io Status.complete is v sized h honest = record {
    disk = v;
    live = (sized, rw is h);
  }
  by_status-IsKept serve d x buf io Status.cancelled is v sized h honest = record {
    disk = v;
    live = (sized, rw is h);
  }
  by_status-IsKept serve d x buf io Status.failed is v sized h honest = record {
    disk = v;
    live = (sized, rw is h);
  }
