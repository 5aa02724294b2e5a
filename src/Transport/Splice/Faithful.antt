-- ===== src/Transport/Splice/Faithful.antt =====
-- crates/updater/src/transport/download.rs: a cache entry holds the body, or the beginning of it.
use retrovert.Common.{
  ℕ, ◌≤◌, ◌<◌, ◌≡◌, refl, sym, ◌∙◌, ap, subst, true, Option, none, some, List, ◌⊎◌, inl, inr, ltb,
  arith, length, if◌then◌else◌,
}
use retrovert.Common.Slices.{Begins, Begins-eq, Begins-length-le, take}
use retrovert.Queue.Transport.{Status}
use retrovert.Transport.Meta.{i64_limit}
use retrovert.Transport.Http.{Text}
use retrovert.Transport.Download.{Download, is_complete_at}
use retrovert.Transport.Reading.{get}
use retrovert.Transport.Session.{Entry, Event, untouched, run}
use retrovert.Transport.Splice.{HonestEvents, IsPrefix, IsWhole, Stands, LiveSound, IsKept, count}
use retrovert.Transport.Splice.Entries.{removed-IsSound, is_complete_at-eq}
use retrovert.Transport.Splice.Bodies.{HasLength-some}
use retrovert.Transport.Splice.Runs.{run-IsKept}

IsWhole-some :
    (body : List ℕ) (o : Option (List ℕ))
    → IsWhole body o
    → (f : List ℕ) × (o ≡ some f) × (length body ≤ length f)
IsWhole-some body none h = absurd h
IsWhole-some body (some f) h = (f, refl, h)

-- The cache takes the entry for complete, or its transfer does.
abbrev pub IsDone : Entry → Type 0
IsDone e =
    (is_complete_at e.disk ≡ true)
    ⊎ ((x : Download) × (e.live ≡ some x) × (x.status ≡ Status.complete))

module _ (body : List ℕ) (small : length body < i64_limit) (lossy : Text → Text) where
  after :
      (events : List Event) → HonestEvents body events → IsKept body (run lossy untouched events)
  after events honest =
      run-IsKept body small lossy untouched events
        (record { disk = removed-IsSound body small; live = tt }) honest

  stands :
      (e : Entry) (x : Download) (s : Status)
      → IsKept body e
      → e.live ≡ some x
      → x.status ≡ s
      → Stands body e.disk x s
  stands e x s v live is =
      let sound : LiveSound body e.disk (some x) = subst (LiveSound body e.disk) live v.live in
      subst (Stands body e.disk x) is sound.1

  -- After any calls on an empty entry, with any reads and writes that fail or stop short, pauses,
  -- cancels, restarts and kills in between, if every answer that a transfer takes is of one body of
  -- less than 2^63 bytes (a full answer is all of it, a 206 is the part that the request's range
  -- begins, a length that a HEAD reports is its length): where the cache takes the entry for
  -- complete, or a transfer has completed, the file is that body.
  pub run-whole :
      (events : List Event)
      → HonestEvents body events
      → IsDone (run lossy untouched events)
      → (run lossy untouched events).disk.file ≡ some body
  run-whole events honest (inl complete) =
      is_complete_at-eq body small _ (after events honest).disk complete
  run-whole events honest (inr (x, live, is)) =
      let e = run lossy untouched events in
      let v = after events honest in
      let (f, there, long) = IsWhole-some body e.disk.file (stands e x Status.complete v live is) in
      there ∙ ap some (Begins-eq f body (subst (IsPrefix body) there v.disk.prefix) long)

  -- After the same calls, while a transfer is downloading, the file is exactly the first bytes of
  -- the body, as many as its progress counts.
  pub run-partial :
      (events : List Event) (x : Download)
      → HonestEvents body events
      → (run lossy untouched events).live ≡ some x
      → x.status ≡ Status.downloading
      → ((run lossy untouched events).disk.file ≡ some (take x.progress_bytes body))
        × (x.progress_bytes ≤ length body)
  run-partial events x honest live is =
      let e = run lossy untouched events in
      let v = after events honest in
      let opened = (stands e x Status.downloading v live is).0 in
      let (f, there, counted) = HasLength-some (count x) e.disk.file opened.1 in
      let begins : Begins f body = subst (IsPrefix body) there v.disk.prefix in
      let all : length f ≡ x.progress_bytes = counted ∙ sym opened.2 in
      (
        there ∙ ap some (subst (λ n. f ≡ take n body) all begins),
        omega (arith, all, Begins-length-le f body begins),
      )

  -- After the same calls, a transfer that has sent no request finds in its file the first bytes of
  -- the body, and asks for a range exactly if there are any, beginning where they end.
  pub run-get :
      (events : List Event) (x : Download)
      → HonestEvents body events
      → (run lossy untouched events).live ≡ some x
      → x.status ≡ Status.pending
      → (f : List ℕ) × ((run lossy untouched events).disk.file ≡ some f)
        × (f ≡ take (length f) body)
        × ((get x.xfer).range ≡ (if ltb 0 (length f) then some (length f) else none))
  unfolding get
  run-get events x honest live is =
      let e = run lossy untouched events in
      let v = after events honest in
      let stand = stands e x Status.pending v live is in
      let (f, there, counted) = HasLength-some (count x) e.disk.file stand.0.1 in
      let offset : x.xfer.resume_offset ≡ length f = omega (arith, counted, stand.2) in
      (
        f,
        there,
        subst (IsPrefix body) there v.disk.prefix,
        ap (λ n. if ltb 0 n then some n else none) offset,
      )
