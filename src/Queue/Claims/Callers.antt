-- ===== src/Queue/Claims/Callers.antt =====
-- crates/updater/src/queue/mod.rs: what the calls of `TransferQueue` do to a slot.
use retrovert.Common.{
  ℕ, zero, suc, ◌≡◌, refl, ap, sym, ◌∙◌, subst, Bool, true, false, ◌||◌, some, List, [], ◌∷◌,
  get_elem?, modify, arith, ◌==◌, Bool-cases, Option-cases, inl, inr,
}
use retrovert.Queue.{State, paused, downloading, Slot, Shared}
use retrovert.Queue.Policy
use retrovert.Queue.Policy.{can_yield, same_state, mark_preempted}
use retrovert.Queue.Slots.{snapshot, apply, is_active, at_slot, ask, ask_pause, ask_cancel}
use retrovert.Queue.Calls.{cancel, pause, resume, remove, drop, request_pause}
use retrovert.Queue.Machine.{
  Allowed, pauses, cancels, resumes, removes, Moves, stays, moves, cancelled_slot,
}
use retrovert.Queue.Steps.{is_active-ask, is_active-cancel_download}
use retrovert.Queue.Claims.{Advances, Advances-still, Advances-at, Advances-arm}

module _ {T : Type 0} where
  pub modify-modify :
      (f g : Slot T → Slot T) (xs : List (Slot T)) (i : ℕ)
      → modify (modify xs i f) i g ≡ modify xs i (λ s. g (f s))
  modify-modify f g [] i = refl
  modify-modify f g (x ∷ xs) zero = refl
  modify-modify f g (x ∷ xs) (suc i) = ap (λ ys. x ∷ ys) (modify-modify f g xs i)

  pub pause-Advances :
      (f : Allowed) (sh : Shared T) (id i : ℕ) (s : Slot T)
      → get_elem? sh.slots i ≡ some s
      → Advances f sh (pause sh id).0 i s
  unfolding pause request_pause
  pause-Advances f sh id i s h = elim (Option-cases (get_elem? sh.slots id)) [
    | inl outside ↦ rw (outside, pause) (Advances-still f sh sh i s refl refl h)
    | inr (x, at) ↦ elim (Bool-cases (Policy.pause (snapshot x) (is_active sh.active id))) [
      | inr refused ↦ rw (at, refused, pause) (Advances-still f sh sh i s refl refl h)
      | inl applies ↦
          rw (at, applies, pause, request_pause)
            (Advances-at f sh (request_pause sh id) i id s x
              (λ s. record s { pause_requested = true }) refl at
              (λ other. is_active-ask ask_pause id sh.active i)
              (λ same.
                subst
                  (λ b. Moves f (is_active sh.active id) x b (record x { pause_requested = true }))
                  (sym (is_active-ask ask_pause id sh.active id)) (moves pauses stays))
              h)
    ]
  ]

  pub drop-Advances :
      (f : Allowed) (sh : Shared T) (i : ℕ) (s : Slot T)
      → get_elem? sh.slots i ≡ some s
      → Advances f sh (drop sh) i s
  unfolding drop
  drop-Advances f sh i s h =
      Advances-still f sh (drop sh) i s refl (is_active-cancel_download sh.active i) h

  pub resume-Advances :
      (f : Allowed) (spawned : ℕ → Bool) (sh : Shared T) (id i : ℕ) (s : Slot T)
      → get_elem? sh.slots i ≡ some s
      → Advances f sh (resume spawned sh id).0 i s
  unfolding resume Policy.resume
  resume-Advances f spawned sh id i s h = elim (Option-cases (get_elem? sh.slots id)) [
    | inl outside ↦ rw (outside, resume) (Advances-still f sh sh i s refl refl h)
    | inr (x, at) ↦ elim (Bool-cases (same_state x.state paused)) [
      | inr refused ↦
          rw (at, refused, resume, Policy.resume) (Advances-still f sh sh i s refl refl h)
      | inl applies ↦
          let g = apply (record (snapshot x) { state = State.pending }) in
          rw (at, applies, resume, Policy.resume)
            (Advances-arm f spawned sh (at_slot sh id g) i s (
              Advances-at f sh (at_slot sh id g) i id s x g refl at (λ other. refl)
                (λ same. moves (resumes applies) stays) h))
    ]
  ]

  pub remove-Advances :
      (f : Allowed) (sh : Shared T) (id i : ℕ) (s : Slot T)
      → ((id == i) ≡ true → f.freeing ≡ true)
      → get_elem? sh.slots i ≡ some s
      → Advances f sh (remove sh id).0 i s
  unfolding remove Policy.remove
  remove-Advances f sh id i s free h = elim (Option-cases (get_elem? sh.slots id)) [
    | inl outside ↦ rw (outside, remove) (Advances-still f sh sh i s refl refl h)
    | inr (x, at) ↦ elim (Bool-cases (is_active sh.active id || same_state x.state downloading)) [
      | inl refused ↦
          rw (at, refused, remove, Policy.remove) (Advances-still f sh sh i s refl refl h)
      | inr applies ↦
          let held : is_active sh.active id ≡ false = ground arith in
          let idle : same_state x.state downloading ≡ false = ground arith in
          let g = apply (record (snapshot x) { in_use = false }) in
          rw (at, applies, remove, Policy.remove)
            (Advances-at f sh (at_slot sh id g) i id s x g refl at (λ other. refl)
              (λ same.
                subst (λ b. Moves f b x b (record x { in_use = false })) (sym held)
                  (moves (removes (free (ground arith)) idle) stays))
              h)
    ]
  ]

  -- The shared state after a cancel that a worker is told of.
  unfoldable pub cancelled_held : Shared T → ℕ → Slot T → Shared T
  unfolding ask
  cancelled_held sh id x =
      record (at_slot (at_slot sh id (apply (Policy.cancel (snapshot x) true).0)) id
        (λ y. record y { cancel_requested = true })) { active = ask ask_cancel id sh.active }

  pub cancel-held :
      (sh : Shared T) (id : ℕ) (x : Slot T)
      → get_elem? sh.slots id ≡ some x
      → (Policy.cancel (snapshot x) (is_active sh.active id)).1 ≡ true
      → is_active sh.active id ≡ true
      → (cancel sh id).0 ≡ cancelled_held sh id x
  unfolding cancel cancelled_held
  cancel-held sh id x at applies held = rw (cancel, at, applies, held) refl

  pub cancel-free :
      (sh : Shared T) (id : ℕ) (x : Slot T)
      → get_elem? sh.slots id ≡ some x
      → (Policy.cancel (snapshot x) (is_active sh.active id)).1 ≡ true
      → is_active sh.active id ≡ false
      → (cancel sh id).0 ≡ at_slot sh id (apply (Policy.cancel (snapshot x) false).0)
  unfolding cancel
  cancel-free sh id x at applies free = rw (cancel, at, applies, free) refl

  pub cancel-Advances :
      (f : Allowed) (sh : Shared T) (id i : ℕ) (s : Slot T)
      → get_elem? sh.slots i ≡ some s
      → Advances f sh (cancel sh id).0 i s
  unfolding cancel cancelled_held
  cancel-Advances f sh id i s h = elim (Option-cases (get_elem? sh.slots id)) [
    | inl outside ↦ rw (outside, cancel) (Advances-still f sh sh i s refl refl h)
    | inr (x, at) ↦ elim (Bool-cases (Policy.cancel (snapshot x) (is_active sh.active id)).1) [
      | inr refused ↦ rw (at, refused, cancel) (Advances-still f sh sh i s refl refl h)
      | inl applies ↦ elim (Bool-cases (is_active sh.active id)) [
        | inl held ↦
            subst (λ r. Advances f sh r i s) (sym (cancel-held sh id x at applies held))
              (Advances-at f sh (cancelled_held sh id x) i id s x
                (λ y. record (apply (Policy.cancel (snapshot x) true).0 y) {
                  cancel_requested = true;
                })
                (modify-modify (apply (Policy.cancel (snapshot x) true).0)
                  (λ y. record y { cancel_requested = true }) sh.slots id)
                at (λ other. is_active-ask ask_cancel id sh.active i)
                (λ same.
                  subst (λ b. Moves f (is_active sh.active id) x b (cancelled_slot true x))
                    (sym (is_active-ask ask_cancel id sh.active id))
                    (subst (λ b. Moves f b x b (cancelled_slot true x)) (sym held)
                      (moves
                        (cancels (ap (λ b. (Policy.cancel (snapshot x) b).1) (sym held) ∙ applies))
                        stays)))
                h)
        | inr free ↦
            subst (λ r. Advances f sh r i s) (sym (cancel-free sh id x at applies free))
              (Advances-at f sh (at_slot sh id (apply (Policy.cancel (snapshot x) false).0)) i id s
                x (apply (Policy.cancel (snapshot x) false).0) refl at (λ other. refl)
                (λ same.
                  subst (λ b. Moves f b x b (cancelled_slot false x)) (sym free)
                    (moves
                      (cancels (ap (λ b. (Policy.cancel (snapshot x) b).1) (sym free) ∙ applies))
                      stays))
                h)
      ]
    ]
  ]
