-- ===== src/Queue/Claims/History.antt =====
-- crates/updater/src/queue/mod.rs: every event moves a slot along its life, and so what its steps
-- keep holds after any history.
use retrovert.Common.{
  opt_eq, Option, ℕ, ◌≡◌, refl, sym, subst, Bool, true, false, none, some, List, get_elem?, arith,
  ◌==◌, inl, inr, Bool-cases, Option-cases, if◌then◌else◌,
}
use retrovert.Common.Results.{Result, ok, err}
use retrovert.Queue.{Failure, SlotRequest, Slot, Active, Shared}
use retrovert.Queue.Workers.{held_by, process_show, drain}
use retrovert.Queue.Transport.{Status}
use retrovert.Queue.Transfer.{
  World, Streamed, Verdict, transfer, judge, by_status, validated, validate, resumed_bytes,
}
use retrovert.Queue.Session.{
  Event, queues, cancels, pauses, removes, resumes, drops, drains, begins, refuses, starts, shows,
  asks, progresses, settles, panics, crashes, is_idle, with_held, settle, step,
}
use retrovert.Queue.Machine.{Allowed, is_ending}
use retrovert.Queue.Claims.{Advances, Advances-still}
use retrovert.Queue.Claims.Callers.{
  pause-Advances, drop-Advances, resume-Advances, remove-Advances, cancel-Advances,
}
use retrovert.Queue.Claims.Queuing.{queue-Advances}
use retrovert.Queue.Claims.Draining.{drain-Advances}
use retrovert.Queue.Claims.Working.{
  finish-Advances, release_worker-Advances, progress-Advances, handle-Advances, ask_flags-Advances,
  process_started-Advances, process_begin-Advances,
}

module _ {T : Type 0} where
  -- A transfer only settles with an ending.
  by_status-is_ending :
      (sha : List ℕ → List ℕ) (r : SlotRequest) (w : World T) (bytes : List ℕ) (c : Status)
      → is_ending (Verdict.state (by_status sha r w bytes c)) ≡ true
  by_status-is_ending sha r w bytes Status.complete =
      both (validate sha w.file r.digest r.expected_size bytes w.last.downloaded)
    where
      both : (v : Result (Failure T) (Unit {0})) → is_ending (Verdict.state (validated r v)) ≡ true
      both (ok x) = refl
      both (err e) = refl
  by_status-is_ending sha r w bytes Status.cancelled = refl
  by_status-is_ending sha r w bytes Status.paused = refl
  by_status-is_ending sha r w bytes Status.pending = refl
  by_status-is_ending sha r w bytes Status.downloading = refl
  by_status-is_ending sha r w bytes Status.failed = refl

  judge-is_ending :
      (sha : List ℕ → List ℕ) (r : SlotRequest) (w : World T) (s : Streamed T)
      → is_ending (Verdict.state (judge sha r w s)) ≡ true
  unfolding judge
  judge-is_ending sha r w s = elim (Option-cases s.oversize) [
    | inr (f, refused) ↦ rw (judge, refused) refl
    | inl fine ↦ rw (judge, fine) (by_status-is_ending sha r w s.bytes w.last.status)
  ]

  transfer-is_ending :
      (sha : List ℕ → List ℕ) (r : SlotRequest) (w : World T)
      → is_ending (Verdict.state (transfer sha r w)) ≡ true
  unfolding transfer
  transfer-is_ending sha r w = elim (Option-cases (resumed_bytes w)) [
    | inl unread ↦ rw (transfer, unread) refl
    | inr (prefix, back) ↦ rw (transfer, back) (judge-is_ending sha r w _)
  ]

  settle-Advances :
      (f : Allowed) (sha : List ℕ → List ℕ) (sh : Shared T) (w k i : ℕ) (world : World T)
      (s : Slot T)
      → held_by sh w ≡ some k
      → get_elem? sh.slots i ≡ some s
      → Advances f sh (settle sha sh w k world) i s
  unfolding settle
  settle-Advances f sha sh w k i world s held h = elim (Option-cases (get_elem? sh.slots k)) [
    | inl outside ↦ rw (outside, settle) (Advances-still f sh sh i s refl refl h)
    | inr (x, at) ↦ elim (Option-cases x.request) [
      | inl unset ↦ rw (at, unset, settle) (Advances-still f sh sh i s refl refl h)
      | inr (r, wanted) ↦
          let v = transfer sha r world in
          rw (at, wanted, settle)
            (finish-Advances f sh w k i v.digest v.state v.failure s held
              (transfer-is_ending sha r world) h)
    ]
  ]

  -- What a worker that holds nothing does not do.
  held-Advances :
      (f : Allowed) (sh : Shared T) (w i : ℕ) (g : ℕ → Shared T) (s : Slot T)
      → get_elem? sh.slots i ≡ some s
      → ((k : ℕ) → held_by sh w ≡ some k → Advances f sh (g k) i s)
      → Advances f sh (with_held sh w g) i s
  held-Advances f sh w i g s h each = elim (Option-cases (held_by sh w)) [
    | inl free ↦
        subst (λ o. Advances f sh (elim o [ none ↦ sh | some k ↦ g k ]) i s) (sym free)
          (Advances-still f sh sh i s refl refl h)
    | inr (k, held) ↦
        subst (λ o. Advances f sh (elim o [ none ↦ sh | some j ↦ g j ]) i s) (sym held)
          (each k held)
  ]

  pub is_idle-active :
      (sh : Shared T) (w : ℕ)
      → is_idle sh w ≡ true
      → (a : Active) × (get_elem? sh.active w ≡ some a) × (a.slot ≡ none)
  is_idle-active sh w idle = elim (Option-cases (get_elem? sh.active w)) [
    | inl outside ↦ absurd (ground arith)
    | inr (a, at) ↦ (a, at, ground arith)
  ]

-- Whether the event frees the slot.
abbrev pub frees : {T : Type 0} → ℕ → Event T → Bool
frees i (removes id) = id == i
frees i _ = false

-- Whether a worker that holds the slot unwinds in the event.
abbrev pub dies : {T : Type 0} → Shared T → ℕ → Event T → Bool
dies sh i (crashes w) = opt_eq (held_by sh w) (some i)
dies sh i _ = false

abbrev pub allows : {T : Type 0} → Shared T → ℕ → Event T → Allowed
allows sh i e = record { freeing = frees i e; dying = dies sh i e }

abbrev neither : Allowed
neither = record { freeing = false; dying = false }

opt_eq-held : (o : Option ℕ) (i : ℕ) → o ≡ some i → opt_eq o (some i) ≡ true
opt_eq-held o i h = ground (arith, h)

module _ {T : Type 0} (sha : List ℕ → List ℕ) where
  pub step-Advances :
      (sh : Shared T) (e : Event T) (i : ℕ) (s : Slot T)
      → get_elem? sh.slots i ≡ some s
      → Advances (allows sh i e) sh (step sha sh e) i s
  unfolding step process_show
  step-Advances sh (queues now r spawned) i s h = queue-Advances neither spawned now sh r i s h
  step-Advances sh (cancels id) i s h = cancel-Advances neither sh id i s h
  step-Advances sh (pauses id) i s h = pause-Advances neither sh id i s h
  step-Advances sh (removes id) i s h =
      remove-Advances (record neither { freeing = id == i }) sh id i s (λ e. e) h
  step-Advances sh (resumes id spawned) i s h = resume-Advances neither spawned sh id i s h
  step-Advances sh drops i s h = drop-Advances neither sh i s h
  step-Advances sh (drains w spawned) i s h = elim (Bool-cases (is_idle sh w)) [
    | inr busy ↦
        subst (λ b. Advances neither sh (if b then (drain spawned sh w).0 else sh) i s) (sym busy)
          (Advances-still neither sh sh i s refl refl h)
    | inl idle ↦
        let (a, at, free) = is_idle-active sh w idle in
        subst (λ b. Advances neither sh (if b then (drain spawned sh w).0 else sh) i s) (sym idle)
          (drain-Advances neither spawned sh w i a s at free h)
  ]
  step-Advances sh (begins w cached) i s h =
      held-Advances neither sh w i _ s h
        (λ k held. process_begin-Advances neither cached sh w k i s held h)
  step-Advances sh (refuses w error) i s h =
      held-Advances neither sh w i _ s h
        (λ k held. finish-Advances neither sh w k i _ _ _ s held refl h)
  step-Advances sh (starts w) i s h =
      held-Advances neither sh w i _ s h
        (λ k held. process_started-Advances neither sh w k i s held h)
  step-Advances sh (shows w d) i s h =
      held-Advances neither sh w i _ s h
        (λ k held. handle-Advances neither sh (process_show sh w d) w i (λ o. some d) s refl h)
  step-Advances sh (asks w) i s h =
      held-Advances neither sh w i _ s h (λ k held. ask_flags-Advances neither sh w k i s h)
  step-Advances sh (progresses w n total) i s h =
      held-Advances neither sh w i _ s h
        (λ k held. progress-Advances neither sh w k i n total s held h)
  step-Advances sh (settles w world) i s h =
      held-Advances neither sh w i _ s h
        (λ k held. settle-Advances neither sha sh w k i world s held h)
  step-Advances sh (panics w) i s h =
      held-Advances neither sh w i _ s h
        (λ k held. finish-Advances neither sh w k i _ _ _ s held refl h)
  step-Advances sh (crashes w) i s h =
      release_worker-Advances (allows sh i (crashes w)) sh w i s (opt_eq-held (held_by sh w) i) h
