-- ===== src/Queue/Laws/Retired.antt =====
-- crates/updater/src/queue/mod.rs: what a worker that retires leaves behind.
use retrovert.Common.{
  ℕ, suc, ◌≡◌, ◌≢◌, refl, ap, sym, ◌∙◌, subst, Bool, true, false, ◌&&◌, none, some, List, [], ◌∷◌,
  get_elem?, arith, Bool-cases, Option-cases, inl, inr, opt_eq, Option,
}
use retrovert.Queue.{downloading, preempted, Entry, Slot, Active, Shared}
use retrovert.Queue.Policy.{
  any, same_state, is_user, is_pending, is_user_work_outstanding, next_pending,
}
use retrovert.Queue.Slots.{snapshot, snapshot_all, holds, is_active}
use retrovert.Queue.Workers.{resume_preempted, drain, disarm, held_by}
use retrovert.Queue.Machine.{sound}
use retrovert.Queue.Scheduling.{next_pending-best}
use retrovert.Queue.Calls.{with_config}
use retrovert.Queue.Session.{Event, is_idle, run}
use retrovert.Queue.Claims.History.{is_idle-active}
use retrovert.Queue.Laws.Held.{run-with_config-sound}
use retrovert.Queue.Laws.Sized.{run-with_config-lt}
use retrovert.Queue.Claims.Queuing.{snapshot_all-get}
use retrovert.Queue.Claims.Draining.{drain-running, claim_next-none, claim_next-some}
use retrovert.Queue.Laws.Swept.{
  snapshot_all-of, resume_preempted-waits, resume_preempted-downloading,
}

-- User work that is in flight.
abbrev pub is_user_running : Entry → Bool
is_user_running e = e.in_use && (is_user e.priority && same_state e.state downloading)

any-get :
    {A : Type 0} (q : A → Bool) (xs : List A)
    → any q xs ≡ true
    → (i : ℕ) × (x : A) × (get_elem? xs i ≡ some x) × (q x ≡ true)
any-get q [] h = absurd (ground arith)
any-get q (x ∷ xs) h = elim (Bool-cases (q x)) [
  | inl is ↦ (0, x, refl, is)
  | inr past ↦ let (i, y, at, is) = any-get q xs (ground (arith, h, past)) in (suc i, y, at, is)
]

opt_eq-some : (o : Option ℕ) (j : ℕ) → opt_eq o (some j) ≡ true → o ≡ some j
opt_eq-some none j h = absurd (ground arith)
opt_eq-some (some k) j h = ap some (ground arith)

any-running :
    (es : List Entry)
    → ((i : ℕ) (e : Entry) → get_elem? es i ≡ some e → is_pending e ≡ false)
    → any is_user_work_outstanding es ≡ true
    → any is_user_running es ≡ true
unfolding is_user_work_outstanding
any-running [] none_left h = absurd (ground arith)
any-running (e ∷ es) none_left h =
    let here = none_left 0 e refl in
    let rest = any-running es (λ i. none_left (suc i)) in
    elim (Bool-cases (is_user_work_outstanding e)) [
      | inl mine ↦ ground (arith, here)
      | inr past ↦ ground (arith, rest)
    ]

none-is_pending :
    (es : List Entry) (i : ℕ) (e : Entry)
    → next_pending es ≡ none
    → get_elem? es i ≡ some e
    → is_pending e ≡ false
none-is_pending es i e nothing at = elim (Bool-cases (is_pending e)) [
  | inr idle ↦ idle
  | inl waits ↦
      let (b, x, next, there, fits, unbeaten) = next_pending-best es i e at waits in
      absurd (ground (arith, sym next ∙ nothing))
]

module _ {T : Type 0} where
  not_free :
      (sh : Shared T) (v w j : ℕ) (a : Active)
      → get_elem? sh.active w ≡ some a
      → a.slot ≡ none
      → held_by sh v ≡ some j
      → v ≢ w
  not_free sh v w j a at free held same =
      let idle : held_by sh v ≡ none = rw (same, held_by, at) free in
      absurd (ground (arith, sym idle ∙ held))

  -- Of a slot that is held, a worker that holds it.
  is_active-held_by :
      (sh : Shared T) (j : ℕ) → is_active sh.active j ≡ true → (v : ℕ) × (held_by sh v ≡ some j)
  unfolding is_active
  is_active-held_by sh j h =
      let (v, a, at, holding) = any-get (holds j) sh.active h in
      (v, rw (held_by, at) (opt_eq-some a.slot j holding))

  running_held :
      (s : Slot T) (b : Bool) → sound b s ≡ true → same_state s.state downloading ≡ true → b ≡ true
  running_held s b v h = ground arith

  -- A user transfer that runs in the slot, with its worker.
  abbrev pub RunsFor : Shared T → (w j : ℕ) → Type 0
  RunsFor sh w j =
      (u : Slot T) × (get_elem? sh.slots j ≡ some u)
      × (is_user_running (snapshot u) ≡ true)
      × ((v : ℕ) × (v ≢ w) × (held_by sh v ≡ some j))

  retired :
      (sh : Shared T) (w i : ℕ) (a : Active) (t : Slot T)
      → ((j : ℕ) (s : Slot T)
          → get_elem? sh.slots j ≡ some s
          → sound (is_active sh.active j) s ≡ true)
      → get_elem? sh.active w ≡ some a
      → a.slot ≡ none
      → next_pending (snapshot_all (resume_preempted sh).slots) ≡ none
      → get_elem? (resume_preempted sh).slots i ≡ some t
      → (is_pending (snapshot t) ≡ false)
        × ((t.in_use && same_state t.state preempted) ≡ true
            → (j : ℕ) × RunsFor (disarm (resume_preempted sh) w) w j)
  unfolding resume_preempted
  retired sh w i a t all at_w free nothing at =
      let swept = resume_preempted sh in
      let es = snapshot_all swept.slots in
      (
        none-is_pending es i (snapshot t) nothing (snapshot_all-of swept.slots i t at),
        λ asleep.
            let (j, e, at_e, runs) = any-get is_user_running es (
              any-running es (λ k x at'. none-is_pending es k x nothing at')
                (resume_preempted-waits sh i t at asleep)) in
            let (u, at_u, same) = snapshot_all-get swept.slots j e at_e in
            let user_runs : is_user_running (snapshot u) ≡ true =
              subst (λ z. is_user_running z ≡ true) (sym same) runs in
            let (s, at_s, down) =
              resume_preempted-downloading sh j u at_u (ground (arith, user_runs)) in
            let (v, held) =
              is_active-held_by sh j (running_held s (is_active sh.active j) (all j s at_s) down) in
            (j, (u, at_u, user_runs, (v, not_free sh v w j a at_w free held, held))),
      )

  -- A worker holds every slot that is downloading.
  sound_all :
      (sha : List ℕ → List ℕ) (workers : ℕ) (es : List (Event T)) (j : ℕ) (s : Slot T)
      → get_elem? (run sha (with_config workers) es).slots j ≡ some s
      → sound (is_active (run sha (with_config workers) es).active j) s ≡ true
  sound_all sha workers es j s at =
      let sh = run sha (with_config workers) es in
      let (t, at', v) =
        run-with_config-sound sha workers es j (run-with_config-lt sha workers es j s at) in
      let same : t ≡ s = ground (arith, at, at') in
      subst (λ u. sound (is_active sh.active j) u ≡ true) same v

  -- After any history of a queue, when an idle worker of it retires while it runs, no in-use slot is
  -- pending; and if one that is in use is preempted, then a user transfer runs in some slot, and
  -- another worker holds that slot.
  pub drain-RunsFor :
      (sha : List ℕ → List ℕ) (workers : ℕ) (es : List (Event T)) (spawned : ℕ → Bool) (w i : ℕ)
      (t : Slot T)
      → (run sha (with_config workers) es).running ≡ true
      → is_idle (run sha (with_config workers) es) w ≡ true
      → (drain spawned (run sha (with_config workers) es) w).1 ≡ none
      → get_elem? (drain spawned (run sha (with_config workers) es) w).0.slots i ≡ some t
      → (is_pending (snapshot t) ≡ false)
        × ((t.in_use && same_state t.state preempted) ≡ true
            → (j : ℕ) × RunsFor (drain spawned (run sha (with_config workers) es) w).0 w j)
  drain-RunsFor sha workers es spawned w i t running idle retires at =
      let sh = run sha (with_config workers) es in
      elim (Option-cases (next_pending (snapshot_all (resume_preempted sh).slots))) [
        | inr (k, next) ↦ absurd (
            ground (
              arith,
              sym retires
                  ∙ ap (λ r. r.1)
                      (drain-running spawned sh w running ∙ claim_next-some spawned sh w k next),
            ))
        | inl nothing ↦
            let over =
              ap (λ r. r.0)
                (drain-running spawned sh w running ∙ claim_next-none spawned sh w nothing) in
            let (a, at_w, free) = is_idle-active sh w idle in
            let (calm, cared) =
              retired sh w i a t (sound_all sha workers es) at_w free nothing
                (ap (λ z. get_elem? (Shared.slots z) i) (sym over) ∙ at) in
            (calm, λ asleep. subst (λ z. (j : ℕ) × RunsFor z w j) (sym over) (cared asleep))
      ]
