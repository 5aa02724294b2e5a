-- ===== src/Transport/Polled.antt =====
-- crates/updater/src/transport/download.rs: which branch a poll takes.
use retrovert.Common.{ℕ, ◌≡◌, true, false, Option, none, ◌==◌}
use retrovert.Transport.Http.{Get, Response}
use retrovert.Transport.Download.{Disk, Download, Failure, Io}
use retrovert.Transport.Reading.{
  get, fail, close, poll, read_body, start_transfer, started_then, by_status, read_chunk,
  read_cached,
}

pub poll-started :
    (serve : Get → Option Response) (d : Disk) (x : Download) (buf : ℕ) (io : Io)
    → x.cancel ≡ false
    → x.pause ≡ false
    → x.xfer.started ≡ true
    → poll serve d x buf io ≡ read_body d x buf io
unfolding poll
poll-started serve d x buf io go on begun = rw (go, on, begun)

pub poll-starts :
    (serve : Get → Option Response) (d : Disk) (x : Download) (buf : ℕ) (io : Io)
    → x.cancel ≡ false
    → x.pause ≡ false
    → x.xfer.started ≡ false
    → poll serve d x buf io ≡ started_then buf io (start_transfer serve d x)
unfolding poll
poll-starts serve d x buf io go on begun = rw (go, on, begun)

pub read_chunk-by_status :
    (serve : Get → Option Response) (d : Disk) (x : Download) (buf : ℕ) (answers : Io)
    → (buf == 0) ≡ false
    → x.xfer.is_cached ≡ false
    → read_chunk serve d x buf answers ≡ by_status x.status d x (poll serve d x buf answers)
unfolding read_chunk
read_chunk-by_status serve d x buf answers room fetched = rw (room, fetched)

pub read_chunk-cached :
    (serve : Get → Option Response) (d : Disk) (x : Download) (buf : ℕ) (answers : Io)
    → (buf == 0) ≡ false
    → x.xfer.is_cached ≡ true
    → read_chunk serve d x buf answers ≡ read_cached d x buf answers
unfolding read_chunk
read_chunk-cached serve d x buf answers room stored = rw (room, stored)

pub start_transfer-unanswered :
    (serve : Get → Option Response) (d : Disk) (x : Download)
    → serve (get x.xfer) ≡ none
    → start_transfer serve d x ≡ (d, fail (close x) Failure.transfer false, false)
unfolding start_transfer
start_transfer-unanswered serve d x unanswered = rw (unanswered, start_transfer)
