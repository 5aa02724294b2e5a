-- ===== src/Queue/Claims/Working.antt =====
-- crates/updater/src/queue/mod.rs: what a worker does to the slot that it holds.
use mathlib.Core.Option
use retrovert.Common.{
  ℕ, ◌≡◌, refl, ap, sym, ◌∙◌, subst, true, false, Option, none, some, List, get_elem?, modify,
  arith, inl, inr, Bool-cases, Option-cases,
}
use retrovert.Queue.{State, Failure, panicked, SlotRequest, Slot, Handle, Active, Shared, no_claim}
use retrovert.Queue.Slots.{is_active, at_slot, store_progress, set_state, publish_failure}
use retrovert.Queue.Workers.{
  settled, finish, release_worker, held_by, process_begin, process_started, process_asks,
}
use retrovert.Queue.Session.{begun, started, ask_flags}
use retrovert.Queue.Machine.{Allowed, is_ending, settles, crashes, progresses, Moves, stays, moves}
use retrovert.Queue.Steps.{is_active-held, is_active-release, is_active-modify, is_active-unclaimed}
use retrovert.Queue.Claims.{Advances, Advances-still, Advances-each, Advances-then}

module _ {T : Type 0} where
  -- The record of the worker that holds a slot.
  held_by-active :
      (sh : Shared T) (w k : ℕ)
      → held_by sh w ≡ some k
      → (a : Active) × (get_elem? sh.active w ≡ some a) × (a.slot ≡ some k)
  held_by-active sh w k h = elim (Option-cases (get_elem? sh.active w)) [
    | inl outside ↦ absurd (ground arith)
    | inr (a, at) ↦ (a, at, ground arith)
  ]

  pub finish-Advances :
      (f : Allowed) (sh : Shared T) (w k i : ℕ) (digest : Option (List ℕ)) (state : State)
      (failure : Option (Failure T)) (s : Slot T)
      → held_by sh w ≡ some k
      → is_ending state ≡ true
      → get_elem? sh.slots i ≡ some s
      → Advances f sh (finish sh w k digest state failure) i s
  unfolding finish
  finish-Advances f sh w k i digest state failure s held ending h =
      let (a, at, own) = held_by-active sh w k held in
      Advances-each f sh (finish sh w k digest state failure) i k s (settled digest state failure)
        refl (λ other. is_active-release sh.active w k i a at own other)
        (λ here x.
          subst
            (λ b.
              Moves f b x (is_active (modify sh.active w (λ c. no_claim)) k)
                (settled digest state failure x))
            (sym (is_active-held sh.active w k a at own))
            (moves (settles _ digest state failure ending) stays))
        h

  unfoldable crash : Shared T → (worker index : ℕ) → Shared T
  crash sh w k =
      at_slot
        (record sh {
          armed = modify sh.armed w (λ b. false);
          active = modify sh.active w (λ a. no_claim);
        })
        k (λ x. set_state State.failed (publish_failure panicked x))

  release_worker-held :
      (sh : Shared T) (w k : ℕ) → held_by sh w ≡ some k → release_worker sh w ≡ crash sh w k
  unfolding release_worker crash
  release_worker-held sh w k held = rw (release_worker, held) refl

  release_worker-free :
      (sh : Shared T) (w : ℕ)
      → held_by sh w ≡ none
      → ((release_worker sh w).slots ≡ sh.slots)
        × ((release_worker sh w).active ≡ modify sh.active w (λ a. no_claim))
  unfolding release_worker
  release_worker-free sh w free = rw (release_worker, free) (refl, refl)

  pub release_worker-Advances :
      (f : Allowed) (sh : Shared T) (w i : ℕ) (s : Slot T)
      → (held_by sh w ≡ some i → f.dying ≡ true)
      → get_elem? sh.slots i ≡ some s
      → Advances f sh (release_worker sh w) i s
  unfolding release_worker crash
  release_worker-Advances f sh w i s dies h = elim (Option-cases (held_by sh w)) [
    | inl free ↦
        let (slots, active) = release_worker-free sh w free in
        Advances-still f sh (release_worker sh w) i s slots
          (ap (λ ws. is_active ws i) active ∙ is_active-unclaimed sh.active w i free) h
    | inr (k, held) ↦
        let (a, at, own) = held_by-active sh w k held in
        let crashed = λ (x : Slot T). set_state State.failed (publish_failure panicked x) in
        subst (λ r. Advances f sh r i s) (sym (release_worker-held sh w k held))
          (Advances-each f sh (crash sh w k) i k s crashed refl
            (λ other. is_active-release sh.active w k i a at own other)
            (λ here x.
              subst
                (λ b. Moves f b x (is_active (modify sh.active w (λ c. no_claim)) k) (crashed x))
                (sym (is_active-held sh.active w k a at own))
                (moves (crashes _ (dies (held ∙ ap some (sym here)))) stays))
            h)
  ]

  pub progress-Advances :
      (f : Allowed) (sh : Shared T) (w k i n : ℕ) (total : Option ℕ) (s : Slot T)
      → held_by sh w ≡ some k
      → get_elem? sh.slots i ≡ some s
      → Advances f sh (at_slot sh k (store_progress n total)) i s
  progress-Advances f sh w k i n total s held h =
      let (a, at, own) = held_by-active sh w k held in
      Advances-each f sh (at_slot sh k (store_progress n total)) i k s (store_progress n total) refl
        (λ other. refl)
        (λ here x.
          subst (λ b. Moves f b x b (store_progress n total x))
            (sym (is_active-held sh.active w k a at own)) (moves (progresses n total) stays))
        h

  -- A new handle, or a request to it, moves no slot.
  pub handle-Advances :
      (f : Allowed) (sh sh' : Shared T) (w i : ℕ) (g : Option Handle → Option Handle) (s : Slot T)
      → sh' ≡ record sh { active = modify sh.active w (λ a. record a { download = g a.download }) }
      → get_elem? sh.slots i ≡ some s
      → Advances f sh sh' i s
  handle-Advances f sh sh' w i g s is h =
      Advances-still f sh sh' i s (ap (λ r. Shared.slots r) is)
        (ap (λ r. is_active (Shared.active r) i) is
          ∙ is_active-modify (λ a. record a { download = g a.download }) (λ a. refl) sh.active w i)
        h

  pub ask_flags-Advances :
      (f : Allowed) (sh : Shared T) (w k i : ℕ) (s : Slot T)
      → get_elem? sh.slots i ≡ some s
      → Advances f sh (ask_flags sh w k) i s
  unfolding ask_flags
  ask_flags-Advances f sh w k i s h = elim (Option-cases (get_elem? sh.slots k)) [
    | inl outside ↦ rw (outside, ask_flags) (Advances-still f sh sh i s refl refl h)
    | inr (x, at) ↦
        handle-Advances f sh (ask_flags sh w k) w i (Option.map (process_asks x sh.running)) s
          (rw (ask_flags, at) refl) h
  ]

  process_started-cancelled :
      (sh : Shared T) (w k : ℕ) (x : Slot T)
      → get_elem? sh.slots k ≡ some x
      → x.cancel_requested ≡ true
      → process_started sh w k ≡ some (finish sh w k none State.cancelled none)
  unfolding process_started
  process_started-cancelled sh w k x at off = rw (process_started, at, off) refl

  pub process_started-Advances :
      (f : Allowed) (sh : Shared T) (w k i : ℕ) (s : Slot T)
      → held_by sh w ≡ some k
      → get_elem? sh.slots i ≡ some s
      → Advances f sh (started sh (process_started sh w k)) i s
  unfolding process_started
  process_started-Advances f sh w k i s held h = elim (Option-cases (get_elem? sh.slots k)) [
    | inl outside ↦ rw (outside, process_started) (Advances-still f sh sh i s refl refl h)
    | inr (x, at) ↦ elim (Bool-cases x.cancel_requested) [
      | inr go ↦ rw (at, go, process_started) (Advances-still f sh sh i s refl refl h)
      | inl off ↦
          subst (λ o. Advances f sh (started sh o) i s)
            (sym (process_started-cancelled sh w k x at off))
            (finish-Advances f sh w k i none State.cancelled none s held refl h)
    ]
  ]

  pub process_begin-Advances :
      (f : Allowed) (cached : SlotRequest → Option ℕ) (sh : Shared T) (w k i : ℕ) (s : Slot T)
      → held_by sh w ≡ some k
      → get_elem? sh.slots i ≡ some s
      → Advances f sh (begun sh (process_begin cached sh w k)) i s
  unfolding process_begin
  process_begin-Advances f cached sh w k i s held h = elim (Option-cases (get_elem? sh.slots k)) [
    | inl outside ↦ rw (outside, process_begin) (Advances-still f sh sh i s refl refl h)
    | inr (x, at) ↦ elim (Option-cases x.request) [
      | inl unset ↦
          rw (at, unset, process_begin)
            (finish-Advances f sh w k i none State.failed none s held refl h)
      | inr (r, wanted) ↦ elim (Bool-cases x.cancel_requested) [
        | inl off ↦
            rw (at, wanted, off, process_begin)
              (finish-Advances f sh w k i none State.cancelled none s held refl h)
        | inr on ↦ elim (Option-cases (cached r)) [
          | inl missing ↦
              rw (at, wanted, on, missing, process_begin) (Advances-still f sh sh i s refl refl h)
          | inr (n, hit) ↦
              let noted = at_slot sh k (store_progress n (some n)) in
              rw (at, wanted, on, hit, process_begin)
                (Advances-then f sh noted (finish noted w k (some r.digest) State.complete none) i s
                  (progress-Advances f sh w k i n (some n) s held h)
                  (λ t.
                    finish-Advances f noted w k i (some r.digest) State.complete none t held refl))
        ]
      ]
    ]
  ]
