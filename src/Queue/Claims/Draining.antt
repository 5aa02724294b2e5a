-- ===== src/Queue/Claims/Draining.antt =====
-- crates/updater/src/queue/mod.rs: what a turn of `run_drain` does to a slot.
use retrovert.Common.{
  ℕ, zero, suc, ◌≡◌, refl, ap, sym, ◌∙◌, subst, Bool, true, false, not, ◌&&◌, none, some, List, [],
  ◌∷◌, map, get_elem?, arith, inl, inr, Bool-cases, Option-cases, if◌then◌else◌,
}
use retrovert.Queue.{downloading, preempted, Entry, Slot, Active, Shared}
use retrovert.Queue.Policy.{
  same_state, resumed, any, is_user_work_outstanding, auto_resume_preempted, next_pending,
  is_pending,
}
use retrovert.Queue.Slots.{snapshot, snapshot_all, apply, set_state, is_active}
use retrovert.Queue.Workers.{
  apply_all, resume_preempted, drain, claim, claim_next, disarm, arm_workers,
}
use retrovert.Queue.Scheduling.{next_pending-is_pending}
use retrovert.Queue.Machine.{Allowed, sweeps, claims, Moves, stays, moves}
use retrovert.Queue.Steps.{is_active-claim, is_active-claim_ne}
use retrovert.Queue.Claims.{Advances, Advances-still, Advances-at, Advances-then, Advances-arm}
use retrovert.Queue.Claims.Queuing.{snapshot_all-get}

otherwise : {A : Type 0} (b : Bool) (x y : A) → b ≡ true → (if not b then x else y) ≡ y
otherwise b x y h = rw h refl

module _ {T : Type 0} where
  resume_preempted-active :
      (sh : Shared T) (w : ℕ) (a : Active)
      → get_elem? sh.active w ≡ some a
      → get_elem? (resume_preempted sh).active w ≡ some a
  unfolding resume_preempted
  resume_preempted-active sh w a h = h

  -- Writing changed snapshots back changes every slot by its own.
  pub apply_all-get :
      (g : Entry → Entry) (ss : List (Slot T)) (i : ℕ) (s : Slot T)
      → get_elem? ss i ≡ some s
      → get_elem? (apply_all ss (map g (snapshot_all ss))) i ≡ some (apply (g (snapshot s)) s)
  unfolding snapshot_all
  apply_all-get g [] i s h = absurd (ground arith)
  apply_all-get g (x ∷ ss) zero s h = ground arith
  apply_all-get g (x ∷ ss) (suc i) s h = apply_all-get g ss i s h

  pub apply_all-snapshot_all : (ss : List (Slot T)) → apply_all ss (snapshot_all ss) ≡ ss
  unfolding snapshot_all
  apply_all-snapshot_all [] = refl
  apply_all-snapshot_all (s ∷ ss) = ap (λ xs. s ∷ xs) (apply_all-snapshot_all ss)

  pub resume_preempted-Advances :
      (f : Allowed) (sh : Shared T) (i : ℕ) (s : Slot T)
      → get_elem? sh.slots i ≡ some s
      → Advances f sh (resume_preempted sh) i s
  unfolding resume_preempted auto_resume_preempted
  resume_preempted-Advances f sh i s h =
      elim (Bool-cases (any is_user_work_outstanding (snapshot_all sh.slots))) [
        | inl wait ↦
            Advances-still f sh (resume_preempted sh) i s
              (rw (resume_preempted, auto_resume_preempted, wait) (apply_all-snapshot_all sh.slots))
              refl h
        | inr go ↦ (
          apply (resumed (snapshot s)) s,
          rw (resume_preempted, auto_resume_preempted, go) (apply_all-get resumed sh.slots i s h),
          elim (Bool-cases (s.in_use && same_state s.state preempted)) [
            | inl asleep ↦ rw (resumed, asleep) (moves (sweeps asleep) stays)
            | inr unmoved ↦ rw (resumed, unmoved) stays
          ],
        )
      ]

  claim-Advances :
      (f : Allowed) (sh : Shared T) (worker k i : ℕ) (a : Active) (s x : Slot T)
      → get_elem? sh.active worker ≡ some a
      → a.slot ≡ none
      → get_elem? sh.slots k ≡ some x
      → is_pending (snapshot x) ≡ true
      → get_elem? sh.slots i ≡ some s
      → Advances f sh (claim sh worker k) i s
  unfolding claim
  claim-Advances f sh worker k i a s x w free at ok h =
      Advances-at f sh (claim sh worker k) i k s x (set_state downloading) refl at
        (λ other. is_active-claim_ne sh.active worker k i a w free other)
        (λ same.
          subst (λ b. Moves f (is_active sh.active k) x b (set_state downloading x))
            (sym (is_active-claim sh.active worker k a w)) (moves (claims ok) stays))
        h

  drain-stopped :
      (spawned : ℕ → Bool) (sh : Shared T) (worker : ℕ)
      → sh.running ≡ false
      → ((drain spawned sh worker).0.slots ≡ sh.slots)
        × ((drain spawned sh worker).0.active ≡ sh.active)
  unfolding drain
  drain-stopped spawned sh worker stopped = rw (drain, stopped) (refl, refl)

  pub drain-running :
      (spawned : ℕ → Bool) (sh : Shared T) (worker : ℕ)
      → sh.running ≡ true
      → drain spawned sh worker ≡ claim_next spawned sh worker
  unfolding drain
  drain-running spawned sh worker running = otherwise sh.running _ _ running

  pub claim_next-some :
      (spawned : ℕ → Bool) (sh : Shared T) (worker k : ℕ)
      → next_pending (snapshot_all (resume_preempted sh).slots) ≡ some k
      → claim_next spawned sh worker
        ≡ (arm_workers spawned (claim (resume_preempted sh) worker k), some k)
  unfolding claim_next
  claim_next-some spawned sh worker k next = rw (claim_next, next) refl

  pub claim_next-none :
      (spawned : ℕ → Bool) (sh : Shared T) (worker : ℕ)
      → next_pending (snapshot_all (resume_preempted sh).slots) ≡ none
      → claim_next spawned sh worker ≡ (disarm (resume_preempted sh) worker, none)
  unfolding claim_next
  claim_next-none spawned sh worker next = rw (claim_next, next) refl

  claim_next-Advances :
      (f : Allowed) (spawned : ℕ → Bool) (sh : Shared T) (worker i : ℕ) (a : Active) (s : Slot T)
      → get_elem? sh.active worker ≡ some a
      → a.slot ≡ none
      → get_elem? sh.slots i ≡ some s
      → Advances f sh (claim_next spawned sh worker).0 i s
  claim_next-Advances f spawned sh worker i a s w free h =
      let swept = resume_preempted sh in
      let sweep = resume_preempted-Advances f sh i s h in
      elim (Option-cases (next_pending (snapshot_all swept.slots))) [
        | inl nothing ↦
            subst (λ r. Advances f sh (r.0) i s) (sym (claim_next-none spawned sh worker nothing))
              sweep
        | inr (k, next) ↦
            let (e, at, ok) = next_pending-is_pending (snapshot_all swept.slots) k next in
            let (x, there, same) = snapshot_all-get swept.slots k e at in
            subst (λ r. Advances f sh (r.0) i s) (sym (claim_next-some spawned sh worker k next))
              (Advances-arm f spawned sh (claim swept worker k) i s (
                Advances-then f sh swept (claim swept worker k) i s sweep (λ t.
                  claim-Advances f swept worker k i a t x (resume_preempted-active sh worker a w)
                    free there (ap is_pending same ∙ ok))))
      ]

  pub drain-Advances :
      (f : Allowed) (spawned : ℕ → Bool) (sh : Shared T) (worker i : ℕ) (a : Active) (s : Slot T)
      → get_elem? sh.active worker ≡ some a
      → a.slot ≡ none
      → get_elem? sh.slots i ≡ some s
      → Advances f sh (drain spawned sh worker).0 i s
  drain-Advances f spawned sh worker i a s w free h = elim (Bool-cases sh.running) [
    | inr stopped ↦
        let (slots, active) = drain-stopped spawned sh worker stopped in
        Advances-still f sh (drain spawned sh worker).0 i s slots (ap (λ ws. is_active ws i) active)
          h
    | inl running ↦
        subst (λ r. Advances f sh (r.0) i s) (sym (drain-running spawned sh worker running))
          (claim_next-Advances f spawned sh worker i a s w free h)
  ]
