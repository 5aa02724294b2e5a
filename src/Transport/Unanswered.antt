-- ===== src/Transport/Unanswered.antt =====
-- crates/updater/src/transport/download.rs: a resume whose request is not answered.
use retrovert.Common.{
  ℕ, ◌≤◌, ◌<◌, ◌≡◌, refl, sym, ap, ◌∙◌, subst, true, false, Option, none, some, List, [], ◌∷◌, inl,
  inr, arith, length, Bool-cases, Option-cases,
}
use retrovert.Common.Results.{Result, ok, err}
use retrovert.Common.Slices.{Begins, Begins-length-le, take}
use retrovert.Queue.Transport.{Status}
use retrovert.Queue.Transfer.{Chunk}
use retrovert.Transport.Meta.{i64_limit}
use retrovert.Transport.Http.{Text, Get, Response, url_size, check_disk_space, available_disk_space}
use retrovert.Transport.Download.{
  Failure, Disk, Download, Setup, cached, resume, fresh, Error, Opens, Write, Io, removed,
  open_cached, open_resume, start_fresh, prepare, from_setup, with_setup, start,
}
use retrovert.Transport.Reading.{
  get, fail, close, poll, started_then, by_status, read_chunk, dropped,
}
use retrovert.Transport.Session.{
  Entry, Event, starts, reads, drops, untouched, begun, idle_step, step, run,
}
use retrovert.Transport.Splice.{HonestEvents, Sized, IsPrefix, Stands, LiveSound, IsKept, count}
use retrovert.Transport.Splice.Entries.{removed-IsSound}
use retrovert.Transport.Splice.Bodies.{HasLength-some}
use retrovert.Transport.Splice.Starts.{start-IsKept}
use retrovert.Transport.Splice.Runs.{run-IsKept}
use retrovert.Transport.Polled.{poll-starts, read_chunk-by_status, start_transfer-unanswered}

-- A transfer that has sent no request, and that nobody has asked to stop.
record IsUnsent (x : Download) : Type 0 where
  pub status : x.status ≡ Status.pending
  pub is_cached : x.xfer.is_cached ≡ false
  pub started : x.xfer.started ≡ false
  pub bytes_written : x.xfer.bytes_written ≡ 0
  pub cancel : x.cancel ≡ false
  pub pause : x.pause ≡ false

-- A setup that resumes leaves the entry as it is.
abbrev Keeps : Disk → Disk × Result Error Setup → Type 0
Keeps d (d', ok (resume r)) = d' ≡ d
Keeps d _ = Unit {0}

Keeps-same : (d : Disk) (setup : Setup) → Keeps d (d, ok setup)
Keeps-same d (cached bytes) = tt
Keeps-same d (resume r) = refl
Keeps-same d (fresh size) = tt

start_fresh-Keeps : (d d' : Disk) (o : Opens) → Keeps d (start_fresh d' o)
unfolding start_fresh
start_fresh-Keeps d d' o =
    elim (Bool-cases (check_disk_space (url_size o.head) available_disk_space)) [
      | inr full ↦ rw full tt
      | inl room ↦ elim (Bool-cases o.created) [
        | inr denied ↦ rw (room, denied) tt
        | inl created ↦ rw (room, created) tt
      ]
    ]

prepare-Keeps : (lossy : Text → Text) (d : Disk) (o : Opens) → Keeps d (prepare lossy d o true)
unfolding prepare
prepare-Keeps lossy d o = elim (Option-cases (open_cached d o)) [
  | inr (setup, e) ↦ rw (e, prepare) (Keeps-same d setup)
  | inl missing ↦ elim (Option-cases (open_resume lossy d o)) [
    | inr (setup, e) ↦ rw (missing, e, prepare) (Keeps-same d setup)
    | inl none_left ↦ rw (missing, none_left, prepare) (start_fresh-Keeps d removed o)
  ]
]

-- A start that resumes some bytes.
abbrev Resumes : Disk → Disk × Result Error Download → Type 0
Resumes d (d', ok x) = 0 < x.xfer.resume_offset → (d' ≡ d) × IsUnsent x
Resumes d (d', err e) = Unit {0}

with_setup-Resumes :
    (url : Text) (d : Disk) (p : Disk × Result Error Setup)
    → Keeps d p
    → Resumes d (with_setup url p)
unfolding from_setup
with_setup-Resumes url d (d', ok (cached bytes)) same = λ h. absurd (omega (arith, h))
with_setup-Resumes url d (d', ok (fresh size)) same = λ h. absurd (omega (arith, h))
with_setup-Resumes url d (d', ok (resume r)) same = λ h. (
  same,
  record {
    status = refl;
    is_cached = refl;
    started = refl;
    bytes_written = refl;
    cancel = refl;
    pause = refl;
  },
)
with_setup-Resumes url d (d', err e) same = tt

start-Resumes :
    (lossy : Text → Text) (d : Disk) (o : Opens) (url : Text) → Resumes d (start lossy d o url true)
unfolding start
start-Resumes lossy d o [] = tt
start-Resumes lossy d o (b ∷ bs) =
    with_setup-Resumes (b ∷ bs) d (prepare lossy d o true) (prepare-Keeps lossy d o)

begun-IsUnsent :
    (d : Disk) (r : Disk × Result Error Download) (x : Download)
    → Resumes d r
    → (begun r).live ≡ some x
    → 0 < x.xfer.resume_offset
    → ((begun r).disk ≡ d) × IsUnsent x
begun-IsUnsent d (d', ok y) x resumes live some_bytes =
    let same : y ≡ x = cc in
    let (kept, unsent) =
      resumes (subst (λ z. 0 < (Download.xfer z).resume_offset) (sym same) some_bytes) in
    (kept, subst IsUnsent same unsent)
begun-IsUnsent d (d', err e) x resumes live some_bytes = cc

Entry-eq :
    (e : Entry) (d : Disk) (x : Download)
    → e.disk ≡ d
    → e.live ≡ some x
    → e ≡ record { disk = d; live = some x }
Entry-eq e d x h k = cc

-- A drop before any poll leaves the entry as it is.
dropped-unsent : (d : Disk) (x : Download) (w : Write) → IsUnsent x → dropped d x w ≡ d
unfolding dropped
dropped-unsent d x w u = rw (u.is_cached, u.status) refl

dropped-failed :
    (d : Disk) (x : Download) (w : Write)
    → IsUnsent x
    → dropped d (fail (close x) Failure.transfer false) w ≡ removed
unfolding dropped
dropped-failed d x w u = rw (u.is_cached, u.bytes_written) refl

read_chunk-unanswered :
    (serve : Get → Option Response) (d : Disk) (x : Download) (buf : ℕ) (answers : Io)
    → 0 < buf
    → IsUnsent x
    → serve (get x.xfer) ≡ none
    → read_chunk serve d x buf answers ≡ (Chunk.failed, d, fail (close x) Failure.transfer false)
read_chunk-unanswered serve d x buf answers room u unanswered =
    read_chunk-by_status serve d x buf answers (ground arith) u.is_cached
    ∙ ap (λ s. by_status s d x (poll serve d x buf answers)) u.status
    ∙ poll-starts serve d x buf answers u.cancel u.pause u.started
    ∙ ap (started_then buf answers) (start_transfer-unanswered serve d x unanswered)

module _ (body : List ℕ) (small : length body < i64_limit) (lossy : Text → Text) where
  -- The bytes that a pending transfer resumes after.
  unsent-take :
      (e : Entry) (x : Download)
      → IsKept body e
      → e.live ≡ some x
      → IsUnsent x
      → (e.disk.file ≡ some (take x.xfer.resume_offset body)) × (x.xfer.resume_offset ≤ length body)
  unsent-take e x v live u =
      let sound : LiveSound body e.disk (some x) = subst (LiveSound body e.disk) live v.live in
      let stand : Stands body e.disk x Status.pending =
        subst (Stands body e.disk x) u.status sound.1 in
      let (f, there, counted) = HasLength-some (count x) e.disk.file stand.0.1 in
      let begins : Begins f body = subst (IsPrefix body) there v.disk.prefix in
      let offset : length f ≡ x.xfer.resume_offset = omega (arith, counted, stand.2) in
      (
        there ∙ ap some (subst (λ n. f ≡ take n body) offset begins),
        omega (arith, offset, Begins-length-le f body begins),
      )

  step-idle :
      (e : Entry) (event : Event)
      → e.live ≡ none
      → step lossy e event ≡ idle_step lossy e.disk event
  unfolding step
  step-idle e event idle = rw (idle, step) refl

  -- After any calls on an empty entry, where every answer that a transfer takes is of one body of
  -- less than 2^63 bytes, where no transfer runs and the next start, whose HEAD reports the body's
  -- length if any, resumes after some bytes: the file holds exactly those first bytes of the body,
  -- and a drop before any poll leaves the entry as it is. If its request is not answered, then the
  -- first poll, into a buffer that has room, fails and leaves the entry as it is, but the drop after
  -- it removes the file and its sidecar.
  pub run-unanswered :
      (events : List Event) (o : Opens) (url : Text) (x : Download) (serve : Get → Option Response)
      (buf : ℕ) (answers : Io) (w : Write)
      → HonestEvents body events
      → Sized body (url_size o.head)
      → (run lossy untouched events).live ≡ none
      → (step lossy (run lossy untouched events) (starts o url)).live ≡ some x
      → 0 < x.xfer.resume_offset
      → 0 < buf
      → serve (get x.xfer) ≡ none
      → ((run lossy untouched events).disk.file ≡ some (take x.xfer.resume_offset body))
        × (x.xfer.resume_offset ≤ length body)
        × ((run lossy (run lossy untouched events) (starts o url ∷ drops w ∷ [])).disk
            ≡ (run lossy untouched events).disk)
        × ((read_chunk serve (run lossy untouched events).disk x buf answers).0 ≡ Chunk.failed)
        × ((run lossy
              (run lossy untouched events)
              (starts o url ∷ reads serve buf answers ∷ [])).disk
            ≡ (run lossy untouched events).disk)
        × (run lossy
              (run lossy untouched events)
              (starts o url ∷ reads serve buf answers ∷ drops w ∷ [])
            ≡ untouched)
  unfolding run step
  run-unanswered events o url x serve buf answers w honest sized idle live some_bytes room
        unanswered =
      let e = run lossy untouched events in
      let r = start lossy e.disk o url true in
      let starting = step-idle e (starts o url) idle in
      let before : IsKept body e =
        run-IsKept body small lossy untouched events
          (record { disk = removed-IsSound body small; live = tt }) honest in
      let after = start-IsKept body small lossy e.disk o url before.disk sized in
      let lives : (begun r).live ≡ some x = ap Entry.live (sym starting) ∙ live in
      let (kept, u) =
        begun-IsUnsent e.disk r x (start-Resumes lossy e.disk o url) lives some_bytes in
      let (there, within) = unsent-take (begun r) x after lives u in
      let begins : step lossy e (starts o url) ≡ record { disk = e.disk; live = some x } =
        starting ∙ Entry-eq (begun r) e.disk x kept lives in
      let polled = read_chunk-unanswered serve e.disk x buf answers room u unanswered in
      (
        ap Disk.file (sym kept) ∙ there,
        within,
        ap (λ z. (step lossy z (drops w)).disk) begins ∙ dropped-unsent e.disk x w u,
        ap (λ r. r.0) polled,
        ap (λ z. (step lossy z (reads serve buf answers)).disk) begins ∙ ap (λ r. r.1) polled,
        ap (λ z. step lossy (step lossy z (reads serve buf answers)) (drops w)) begins
            ∙ ap (λ r. step lossy (record { disk = r.1; live = some r.2 }) (drops w)) polled
            ∙ ap (λ d. record { disk = d; live = none }) (dropped-failed e.disk x w u),
      )
