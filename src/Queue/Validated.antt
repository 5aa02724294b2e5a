-- ===== src/Queue/Validated.antt =====
-- crates/updater/src/queue/validate.rs: what a transfer that settles as complete has proved.
use mathlib.Core.List.{append-nil, append_assoc}
use retrovert.Common.{
  ℕ, ◌≡◌, inl, inr, refl, ap, sym, ◌∙◌, Bool, true, false, not, ◌&&◌, Option, none, some, List, [],
  ◌∷◌, ◌++◌, ltb, ◌==◌, is_none, arith, Option-cases,
}
use retrovert.Common.Results.{Result, ok, err}
use retrovert.Queue.{State, Failure, SlotRequest}
use retrovert.Queue.Transport.{Status}
use retrovert.Queue.Transfer.{
  Chunk, read, idle, Poll, World, same_bytes, Verdict, Streamed, verify_on_disk, validate,
  oversized, stream, validated, by_status, judge, resumed_bytes, transfer,
}

-- The bytes that the polls read, up to the first that reads nothing.
abbrev pub bytes_read : List Poll → List ℕ
bytes_read [] = []
bytes_read (p ∷ ps) = elim p.chunk [
  | read bytes ↦ bytes ++ bytes_read ps
  | idle ↦ []
  | Chunk.failed ↦ []
]

-- No poll that read something left more on disk than was named.
abbrev pub fits : Option ℕ → ℕ → Bool
fits none n = true
fits (some m) n = not (ltb m n)

abbrev pub within : Option ℕ → List Poll → Bool
within expected [] = true
within expected (p ∷ ps) =
    let rest = within expected ps in
    elim p.chunk [
      | read bytes ↦ fits expected p.downloaded && rest
      | idle ↦ true
      | Chunk.failed ↦ true
    ]

abbrev pub sized : Option ℕ → ℕ → Bool
sized none n = true
sized (some m) n = n == m

-- The file is there, is not empty, and hashes to the digest.
abbrev pub on_disk : (List ℕ → List ℕ) → Option (List ℕ) → List ℕ → Bool
on_disk sha none d = false
on_disk sha (some []) d = false
on_disk sha (some (b ∷ bs)) d = same_bytes (sha (b ∷ bs)) d

abbrev pub is_complete : Status → Bool
is_complete Status.complete = true
is_complete _ = false

-- All that has to hold of a transfer for its bytes to count.
abbrev pub proven : {T : Type 0} → (List ℕ → List ℕ) → SlotRequest → World T → Bool
proven sha r w = elim (resumed_bytes w) [
  | none ↦ false
  | some prefix ↦
      is_complete w.last.status
      && (within r.expected_size w.polls
          && (same_bytes (sha (prefix ++ bytes_read w.polls)) r.digest
              && (sized r.expected_size w.last.downloaded && on_disk sha w.file r.digest)))
]

abbrev pub is_complete_state : State → Bool
is_complete_state State.complete = true
is_complete_state _ = false

abbrev pub is_ok : {E : Type 0} → {A : Type 0} → Result E A → Bool
is_ok (ok a) = true
is_ok (err e) = false

and_assoc : (a b c : Bool) → ((a && b) && c) ≡ (a && (b && c))
and_assoc a b c = ground arith

and_swap : (a b c : Bool) → (a && (b && c)) ≡ (b && (a && c))
and_swap a b c = ground arith

and_true : (a : Bool) → a ≡ (a && true)
and_true a = ground arith

module _ (T : Type 0) where
  oversized-fits :
      (expected : Option ℕ) (n : ℕ) (o : Option (Failure T))
      → is_none (oversized expected n o) ≡ (is_none o && fits expected n)
  oversized-fits none n o = ground arith
  oversized-fits (some m) n o = ground arith

  verify_on_disk-ok :
      (sha : List ℕ → List ℕ) (file : Option (List ℕ)) (d : List ℕ)
      → is_ok (verify_on_disk {T = T} sha file d) ≡ on_disk sha file d
  unfolding verify_on_disk
  verify_on_disk-ok sha none d = refl
  verify_on_disk-ok sha (some []) d = refl
  verify_on_disk-ok sha (some (b ∷ bs)) d = ground arith

  pub validate-ok :
      (sha : List ℕ → List ℕ) (file : Option (List ℕ)) (d : List ℕ) (expected : Option ℕ)
      (bytes : List ℕ) (n : ℕ)
      → is_ok (validate {T = T} sha file d expected bytes n)
        ≡ (same_bytes (sha bytes) d && (sized expected n && on_disk sha file d))
  unfolding validate
  validate-ok sha file d none bytes n = ground (arith, verify_on_disk-ok sha file d)
  validate-ok sha file d (some m) bytes n = ground (arith, verify_on_disk-ok sha file d)

  pub stream-bytes :
      (expected : Option ℕ) (s : Streamed T) (ps : List Poll)
      → Streamed.bytes (stream expected s ps) ≡ s.bytes ++ bytes_read ps
  unfolding stream
  stream-bytes expected s [] = sym (append-nil s.bytes)
  stream-bytes expected s (p ∷ ps) = go (λ t. stream-bytes expected t ps) p.chunk refl
    where
      go :
          ((t : Streamed T) → Streamed.bytes (stream expected t ps) ≡ t.bytes ++ bytes_read ps)
          → (c : Chunk) → p.chunk ≡ c
          → Streamed.bytes (stream expected s (p ∷ ps)) ≡ s.bytes ++ bytes_read (p ∷ ps)
      go rest (read bytes) h =
          rw (stream, bytes_read, h)
            (rest (record {
              bytes = s.bytes ++ bytes;
              oversize = oversized expected p.downloaded s.oversize;
            })
              ∙ append_assoc s.bytes bytes (bytes_read ps))
      go rest idle h = rw (stream, bytes_read, h) (sym (append-nil s.bytes))
      go rest Chunk.failed h = rw (stream, bytes_read, h) (sym (append-nil s.bytes))

  pub stream-oversize :
      (expected : Option ℕ) (s : Streamed T) (ps : List Poll)
      → is_none (Streamed.oversize (stream expected s ps))
        ≡ (is_none s.oversize && within expected ps)
  unfolding stream
  stream-oversize expected s [] = ground arith
  stream-oversize expected s (p ∷ ps) = go (λ t. stream-oversize expected t ps) p.chunk refl
    where
      go :
          ((t : Streamed T)
            → is_none (Streamed.oversize (stream expected t ps))
              ≡ (is_none t.oversize && within expected ps))
          → (c : Chunk) → p.chunk ≡ c
          → is_none (Streamed.oversize (stream expected s (p ∷ ps)))
            ≡ (is_none s.oversize && within expected (p ∷ ps))
      go rest (read bytes) h =
          rw (stream, within, h)
            (rest (record {
              bytes = s.bytes ++ bytes;
              oversize = oversized expected p.downloaded s.oversize;
            })
              ∙ ap (λ b. b && within expected ps) (oversized-fits expected p.downloaded s.oversize)
              ∙ and_assoc (is_none s.oversize) (fits expected p.downloaded) (within expected ps))
      go rest idle h = rw (stream, within, h) (and_true (is_none s.oversize))
      go rest Chunk.failed h = rw (stream, within, h) (and_true (is_none s.oversize))

  validated-is_complete :
      (r : SlotRequest) (x : Result (Failure T) (Unit {0}))
      → is_complete_state (Verdict.state (validated r x)) ≡ is_ok x
  validated-is_complete r (ok a) = refl
  validated-is_complete r (err e) = refl

  by_status-is_complete :
      (sha : List ℕ → List ℕ) (r : SlotRequest) (w : World T) (bytes : List ℕ) (c : Status)
      → is_complete_state (Verdict.state (by_status sha r w bytes c)) ≡ (
          is_complete c
          && (same_bytes (sha bytes) r.digest
              && (sized r.expected_size w.last.downloaded && on_disk sha w.file r.digest)))
  by_status-is_complete sha r w bytes Status.complete =
      validated-is_complete r (validate sha w.file r.digest r.expected_size bytes w.last.downloaded)
      ∙ validate-ok sha w.file r.digest r.expected_size bytes w.last.downloaded
  by_status-is_complete sha r w bytes Status.cancelled = refl
  by_status-is_complete sha r w bytes Status.paused = refl
  by_status-is_complete sha r w bytes Status.pending = refl
  by_status-is_complete sha r w bytes Status.downloading = refl
  by_status-is_complete sha r w bytes Status.failed = refl

  judge-is_complete :
      (sha : List ℕ → List ℕ) (r : SlotRequest) (w : World T) (s : Streamed T)
      → is_complete_state (Verdict.state (judge sha r w s)) ≡ (
          is_none s.oversize
          && (is_complete w.last.status
              && (same_bytes (sha s.bytes) r.digest
                  && (sized r.expected_size w.last.downloaded && on_disk sha w.file r.digest))))
  unfolding judge
  judge-is_complete sha r w s = elim (Option-cases s.oversize) [
    | inr (f, refused) ↦ rw (judge, refused) refl
    | inl none_yet ↦ rw (judge, none_yet) (by_status-is_complete sha r w s.bytes w.last.status)
  ]

  -- A transfer settles as complete exactly if a partial file that it resumed was read back in full,
  -- the transport reports completion, no chunk went past the length that was named, the bytes that
  -- streamed past and the file that is read back both hash to the digest that was requested, the
  -- file is not empty, and the length is the one that was named, if one was.
  pub transfer-proven :
      (sha : List ℕ → List ℕ) (r : SlotRequest) (w : World T)
      → is_complete_state (Verdict.state (transfer sha r w)) ≡ proven sha r w
  unfolding transfer
  transfer-proven sha r w = elim (Option-cases (resumed_bytes w)) [
    | inl unread ↦ rw (transfer, proven, unread) refl
    | inr (prefix, read_back) ↦
        let s : Streamed T = record { bytes = prefix; oversize = none } in
        let bytes = stream-bytes r.expected_size s w.polls in
        let small = stream-oversize r.expected_size s w.polls in
        rw (transfer, proven, read_back)
          (judge-is_complete sha r w (stream r.expected_size s w.polls)
            ∙ rw (small, bytes)
                (and_swap (within r.expected_size w.polls) (is_complete w.last.status) _))
  ]
