-- ===== src/Queue/Laws/Sized.antt =====
-- crates/updater/src/queue/mod.rs: the slots of a queue stay as many as they are.
pub mod Calls
use retrovert.Common.{
  ℕ, ◌<◌, ◌≡◌, refl, sym, ◌∙◌, subst, Bool, true, not, ◌||◌, none, some, List, [], ◌∷◌, get_elem?,
  modify, length, arith, Bool-cases, Option-cases, inl, inr, Option, position, if◌then◌else◌,
  is_none,
}
use retrovert.Common.Updates.{length-modify, get-lt}
use retrovert.Queue.{State, Priority, Request, Entry, Slot, Shared, Failure, SlotRequest, queue_max}
use retrovert.Queue.Policy
use retrovert.Queue.Policy.{auto_resume_preempted, next_pending}
use retrovert.Queue.Slots.{
  snapshot, snapshot_all, apply, at_slot, claimed, has_idle_worker, is_active,
}
use retrovert.Queue.Workers.{
  apply_all, arm_workers, all_armed, resume_preempted, claim, claim_next, drain, finish,
  release_worker, held_by, process_begin, process_started, process_show,
}
use retrovert.Queue.Transfer.{World}
use retrovert.Queue.Calls.{
  with_config, request_pause, preempt, queue, cancel, pause, resume, remove, drop, filled,
}
use retrovert.Queue.Session.{
  Event, queues, cancels, pauses, removes, resumes, drops, drains, begins, refuses, starts, shows,
  asks, progresses, settles, panics, crashes, is_idle, with_held, settle, ask_flags, step, run,
  begun, started,
}
use retrovert.Queue.Laws.Sized.Calls.{
  Same, at_slot-Same, arm_workers-Same, length-apply_all, queue-Same, cancel-Same, pause-Same,
  resume-Same, remove-Same,
}

module _ {T : Type 0} where
  resume_preempted-Same : (sh : Shared T) → Same sh (resume_preempted sh)
  unfolding resume_preempted
  resume_preempted-Same sh = length-apply_all sh.slots _

  drain-Same : (spawned : ℕ → Bool) (sh : Shared T) (w : ℕ) → Same sh (drain spawned sh w).0
  unfolding drain claim_next claim
  drain-Same spawned sh w = elim (Bool-cases sh.running) [
    | inr stopped ↦ rw (stopped, drain) refl
    | inl running ↦
        let swept = resume_preempted sh in
        elim (Option-cases (next_pending (snapshot_all swept.slots))) [
          | inl nothing ↦ rw (running, nothing, drain, claim_next) (resume_preempted-Same sh)
          | inr (k, next) ↦
              rw (running, next, drain, claim_next)
                (arm_workers-Same spawned (claim swept w k)
                  ∙ at_slot-Same swept k _
                  ∙ resume_preempted-Same sh)
        ]
  ]

  finish-Same :
      (sh : Shared T) (w k : ℕ) (digest : Option (List ℕ)) (state : State)
      (failure : Option (Failure T))
      → Same sh (finish sh w k digest state failure)
  unfolding finish
  finish-Same sh w k digest state failure = at_slot-Same sh k _

  release_worker-Same : (sh : Shared T) (w : ℕ) → Same sh (release_worker sh w)
  unfolding release_worker
  release_worker-Same sh w = elim (Option-cases (held_by sh w)) [
    | inl free ↦ rw (free, release_worker) refl
    | inr (k, held) ↦ rw (held, release_worker) (at_slot-Same sh k _)
  ]

  with_held-Same :
      (sh : Shared T) (w : ℕ) (g : ℕ → Shared T)
      → ((k : ℕ) → Same sh (g k))
      → Same sh (with_held sh w g)
  with_held-Same sh w g each = elim (Option-cases (held_by sh w)) [
    | inl free ↦ subst (λ o. Same sh (elim o [ none ↦ sh | some k ↦ g k ])) (sym free) refl
    | inr (k, held) ↦ subst (λ o. Same sh (elim o [ none ↦ sh | some j ↦ g j ])) (sym held) (each k)
  ]

  process_begin-Same :
      (cached : SlotRequest → Option ℕ) (sh : Shared T) (w k : ℕ)
      → Same sh (begun sh (process_begin cached sh w k))
  unfolding process_begin
  process_begin-Same cached sh w k = elim (Option-cases (get_elem? sh.slots k)) [
    | inl outside ↦ rw (outside, process_begin) refl
    | inr (s, at) ↦ elim (Option-cases s.request) [
      | inl unset ↦ rw (at, unset, process_begin) (finish-Same sh w k none State.failed none)
      | inr (r, wanted) ↦ elim (Bool-cases s.cancel_requested) [
        | inl off ↦
            rw (at, wanted, off, process_begin) (finish-Same sh w k none State.cancelled none)
        | inr on ↦ elim (Option-cases (cached r)) [
          | inl missing ↦ rw (at, wanted, on, missing, process_begin) refl
          | inr (n, there) ↦
              rw (at, wanted, on, there, process_begin)
                (finish-Same (at_slot sh k _) w k (some r.digest) State.complete none
                  ∙ at_slot-Same sh k _)
        ]
      ]
    ]
  ]

  process_started-Same : (sh : Shared T) (w k : ℕ) → Same sh (started sh (process_started sh w k))
  unfolding process_started
  process_started-Same sh w k = elim (Option-cases (get_elem? sh.slots k)) [
    | inl outside ↦ rw (outside, process_started) refl
    | inr (s, at) ↦ elim (Bool-cases s.cancel_requested) [
      | inl off ↦ rw (at, off, process_started) (finish-Same sh w k none State.cancelled none)
      | inr on ↦ rw (at, on, process_started) refl
    ]
  ]

  ask_flags-Same : (sh : Shared T) (w k : ℕ) → Same sh (ask_flags sh w k)
  unfolding ask_flags
  ask_flags-Same sh w k = elim (Option-cases (get_elem? sh.slots k)) [
    | inl outside ↦ rw (outside, ask_flags) refl
    | inr (s, at) ↦ rw (at, ask_flags) refl
  ]

  settle-Same :
      (sha : List ℕ → List ℕ) (sh : Shared T) (w k : ℕ) (world : World T)
      → Same sh (settle sha sh w k world)
  unfolding settle
  settle-Same sha sh w k world = elim (Option-cases (get_elem? sh.slots k)) [
    | inl outside ↦ rw (outside, settle) refl
    | inr (s, at) ↦ elim (Option-cases s.request) [
      | inl unset ↦ rw (at, unset, settle) refl
      | inr (r, wanted) ↦ rw (at, wanted, settle) (finish-Same sh w k _ _ _)
    ]
  ]

module _ {T : Type 0} (sha : List ℕ → List ℕ) where
  step-Same : (sh : Shared T) (e : Event T) → Same sh (step sha sh e)
  unfolding step process_show drop
  step-Same sh (queues now r spawned) = queue-Same spawned now sh r
  step-Same sh (cancels id) = cancel-Same sh id
  step-Same sh (pauses id) = pause-Same sh id
  step-Same sh (removes id) = remove-Same sh id
  step-Same sh (resumes id spawned) = resume-Same spawned sh id
  step-Same sh drops = refl
  step-Same sh (drains w spawned) = elim (Bool-cases (is_idle sh w)) [
    | inl idle ↦
        subst (λ b. Same sh (if b then (drain spawned sh w).0 else sh)) (sym idle)
          (drain-Same spawned sh w)
    | inr busy ↦ subst (λ b. Same sh (if b then (drain spawned sh w).0 else sh)) (sym busy) refl
  ]
  step-Same sh (begins w cached) = with_held-Same sh w _ (λ k. process_begin-Same cached sh w k)
  step-Same sh (refuses w error) = with_held-Same sh w _ (λ k. finish-Same sh w k _ _ _)
  step-Same sh (starts w) = with_held-Same sh w _ (λ k. process_started-Same sh w k)
  step-Same sh (shows w d) = with_held-Same sh w _ (λ k. refl)
  step-Same sh (asks w) = with_held-Same sh w _ (λ k. ask_flags-Same sh w k)
  step-Same sh (progresses w n total) = with_held-Same sh w _ (λ k. at_slot-Same sh k _)
  step-Same sh (settles w world) = with_held-Same sh w _ (λ k. settle-Same sha sh w k world)
  step-Same sh (panics w) = with_held-Same sh w _ (λ k. finish-Same sh w k _ _ _)
  step-Same sh (crashes w) = release_worker-Same sh w

  run-Same : (es : List (Event T)) (sh : Shared T) → Same sh (run sha sh es)
  unfolding run
  run-Same [] sh = refl
  run-Same (e ∷ es) sh = run-Same es (step sha sh e) ∙ step-Same sh e

  -- After any history each slot that there is is one of the first `queue_max`.
  pub run-with_config-lt :
      (workers : ℕ) (es : List (Event T)) (i : ℕ) (s : Slot T)
      → get_elem? (run sha (with_config workers) es).slots i ≡ some s
      → i < queue_max
  unfolding with_config
  run-with_config-lt workers es i s h =
      let all : length (run sha (with_config workers) es).slots ≡ queue_max =
        run-Same es (with_config workers) in
      omega (arith, all, get-lt (run sha (with_config workers) es).slots i s h)
