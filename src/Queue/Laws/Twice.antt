-- ===== src/Queue/Laws/Twice.antt =====
-- crates/updater/src/queue/mod.rs: where the sweep hands out a slot that a worker still holds.
use retrovert.Common.{
  ℕ, zero, suc, ◌==◌, ◌≡◌, ◌≢◌, refl, ap, sym, subst, ◌∙◌, Bool, true, false, ◌&&◌, ◌||◌, none,
  some, Option, List, [], ◌∷◌, map, get_elem?, arith, Bool-cases, Option-cases, inl, inr,
}
use retrovert.Queue.{State, pending, preempted, Failure, Slot, Active, Shared, no_claim}
use retrovert.Queue.Policy
use retrovert.Queue.Policy.{
  any, same_state, is_pending, resumed, is_user_work_outstanding, next_pending,
}
use retrovert.Queue.Slots.{snapshot, snapshot_all, apply, holds, is_active}
use retrovert.Queue.Workers.{apply_all, resume_preempted, drain, claim, finish, held_by}
use retrovert.Queue.Calls.{remove}
use retrovert.Queue.Scheduling.{next_pending-best}
use retrovert.Common.Updates.{get-modify_self, get-modify_ne}
use retrovert.Queue.Claims.{arm_workers-slots}
use retrovert.Queue.Claims.Queuing.{snapshot_all-get}
use retrovert.Queue.Claims.Draining.{apply_all-get, drain-running, claim_next-some}
use retrovert.Queue.Laws.Swept.{snapshot_all-of, apply_all-of, swept-all}

any-true :
    (q : Active → Bool) (xs : List Active) (i : ℕ) (x : Active)
    → get_elem? xs i ≡ some x
    → q x ≡ true
    → any q xs ≡ true
any-true q [] i x h is = absurd (ground arith)
any-true q (y ∷ xs) zero x h is = ground arith
any-true q (y ∷ xs) (suc i) x h is = ground (arith, any-true q xs i x h is)

module _ {T : Type 0} where
  claim-held :
      (sh : Shared T) (w k : ℕ) (a : Active)
      → get_elem? sh.active w ≡ some a
      → held_by (claim sh w k) w ≡ some k
  unfolding claim
  claim-held sh w k a at =
      rw (held_by, get-modify_self (λ (b : Active). record b { slot = some k }) sh.active w a at)
        refl

  claim-held_other : (sh : Shared T) (v w k : ℕ) → v ≢ w → held_by (claim sh w k) v ≡ held_by sh v
  unfolding claim
  claim-held_other sh v w k ne =
      rw
        (
          held_by,
          get-modify_ne (λ (b : Active). record b { slot = some k }) sh.active v w (ground arith),
        )
        refl

  drain-claims :
      (spawned : ℕ → Bool) (sh : Shared T) (w k : ℕ)
      → sh.running ≡ true
      → next_pending (snapshot_all (resume_preempted sh).slots) ≡ some k
      → ((drain spawned sh w).0.active ≡ (claim (resume_preempted sh) w k).active)
        × ((drain spawned sh w).1 ≡ some k)
  drain-claims spawned sh w k running next =
      let is = drain-running spawned sh w running ∙ claim_next-some spawned sh w k next in
      let (slots, active) = arm_workers-slots spawned (claim (resume_preempted sh) w k) in
      (ap (λ r. Shared.active r.0) is ∙ active, ap (λ r. r.1) is)

  -- Of the slots, only the one at the index waits, preempted, and so no user work does.
  pub record WaitsAlone (sh : Shared T) (k : ℕ) (s : Slot T) : Type 0 where
    pub found : get_elem? sh.slots k ≡ some s
    pub used : s.in_use ≡ true
    pub asleep : same_state s.state preempted ≡ true
    pub calm : any is_user_work_outstanding (snapshot_all sh.slots) ≡ false
    pub alone :
        (j : ℕ) (t : Slot T)
        → get_elem? sh.slots j ≡ some t
        → (j == k) ≡ false
        → (t.in_use && (same_state t.state pending || same_state t.state preempted)) ≡ false

  woken :
      (s : Slot T)
      → s.in_use ≡ true
      → same_state s.state preempted ≡ true
      → is_pending (snapshot (apply (resumed (snapshot s)) s)) ≡ true
  woken s used asleep = rw (used, asleep) refl

  not_woken :
      (s : Slot T)
      → (s.in_use && (same_state s.state pending || same_state s.state preempted)) ≡ false
      → is_pending (snapshot (apply (resumed (snapshot s)) s)) ≡ false
  not_woken s h = ground arith

  -- The sweep wakes it, and it is next.
  WaitsAlone-next :
      (sh : Shared T) (k : ℕ) (s : Slot T)
      → WaitsAlone sh k s
      → next_pending (snapshot_all (resume_preempted sh).slots) ≡ some k
  unfolding resume_preempted
  WaitsAlone-next sh k s h =
      let swept = resume_preempted sh in
      let es = snapshot_all swept.slots in
      let slots : swept.slots ≡ apply_all sh.slots (map resumed (snapshot_all sh.slots)) =
        ap (apply_all sh.slots) (swept-all sh h.calm) in
      let at : get_elem? swept.slots k ≡ some (apply (resumed (snapshot s)) s) =
        ap (λ ss. get_elem? ss k) slots ∙ apply_all-get resumed sh.slots k s h.found in
      let (b, x, next, there, fits, _) =
        next_pending-best es k _ (snapshot_all-of swept.slots k _ at) (woken s h.used h.asleep) in
      let (u, at_u, same) = snapshot_all-get swept.slots b x there in
      let (t, at_t, is) =
        apply_all-of resumed sh.slots b u (ap (λ ss. get_elem? ss b) (sym slots) ∙ at_u) in
      elim (Bool-cases (b == k)) [
        | inl here ↦ next ∙ ap some (ground (arith, here))
        | inr other ↦
            let idle : is_pending (snapshot u) ≡ false =
              subst (λ z. is_pending (snapshot z) ≡ false) is
                (not_woken t (h.alone b t at_t other)) in
            absurd (ground (arith, sym idle ∙ ap is_pending same ∙ fits))
      ]

  held_by-is_active :
      (sh : Shared T) (w k : ℕ) → held_by sh w ≡ some k → is_active sh.active k ≡ true
  unfolding is_active
  held_by-is_active sh w k h = elim (Option-cases (get_elem? sh.active w)) [
    | inl outside ↦ absurd (ground (arith, h, outside))
    | inr (a, at) ↦ any-true (holds k) sh.active w a at (ground (arith, h, at))
  ]

  remove-held : (sh : Shared T) (k : ℕ) → is_active sh.active k ≡ true → (remove sh k).1 ≡ false
  unfolding remove Policy.remove
  remove-held sh k held = elim (Option-cases (get_elem? sh.slots k)) [
    | inl outside ↦ rw (outside, remove) refl
    | inr (s, at) ↦ rw (at, held, remove) refl
  ]

  finish-held_other :
      (sh : Shared T) (v w k : ℕ) (digest : Option (List ℕ)) (state : State)
      (failure : Option (Failure T))
      → v ≢ w
      → held_by (finish sh v k digest state failure) w ≡ held_by sh w
  unfolding finish
  finish-held_other sh v w k digest state failure ne =
      rw (held_by, get-modify_ne (λ (b : Active). no_claim) sh.active w v (ground arith)) refl

  -- If a worker of a running queue still holds a preempted slot, so that its pause has not settled,
  -- no user work is outstanding, and no other in-use slot is pending or preempted, then the turn of
  -- another worker claims that slot too: both of them hold it, and however the transfer of the first
  -- settles, the slot cannot be removed then.
  pub drain-held_twice :
      (spawned : ℕ → Bool) (sh : Shared T) (v w k : ℕ) (a : Active) (s : Slot T)
      → sh.running ≡ true
      → v ≢ w
      → held_by sh v ≡ some k
      → get_elem? sh.active w ≡ some a
      → WaitsAlone sh k s
      → ((drain spawned sh w).1 ≡ some k)
        × (held_by (drain spawned sh w).0 v ≡ some k)
        × (held_by (drain spawned sh w).0 w ≡ some k)
        × ((digest : Option (List ℕ)) (state : State) (failure : Option (Failure T))
            → (remove (finish (drain spawned sh w).0 v k digest state failure) k).1 ≡ false)
  unfolding resume_preempted
  drain-held_twice spawned sh v w k a s running ne held at waits =
      let swept = resume_preempted sh in
      let (active, claimed) = drain-claims spawned sh w k running (WaitsAlone-next sh k s waits) in
      let holder : (u : ℕ) → held_by (drain spawned sh w).0 u ≡ held_by (claim swept w k) u =
        λ u. ap (λ ws. elim (get_elem? ws u) [ none ↦ none | some b ↦ b.slot ]) active in
      let second = holder w ∙ claim-held swept w k a at in
      (
        claimed,
        holder v ∙ claim-held_other swept v w k ne ∙ held,
        second,
        λ digest state failure.
            let sh' = finish (drain spawned sh w).0 v k digest state failure in
            remove-held sh' k (
              held_by-is_active sh' w k
                (finish-held_other (drain spawned sh w).0 v w k digest state failure ne ∙ second)),
      )
