-- ===== src/Queue/Laws/Swept.antt =====
-- crates/updater/src/queue/mod.rs: what the sweep that begins a worker's turn does to a slot.
use retrovert.Common.{
  ℕ, zero, suc, ◌≡◌, refl, ap, sym, ◌∙◌, subst, true, false, ◌&&◌, some, List, [], ◌∷◌, map,
  get_elem?, arith, Bool-cases, inl, inr,
}
use retrovert.Queue.{downloading, preempted, Entry, Slot, Shared}
use retrovert.Queue.Policy.{
  any, same_state, resumed, is_user_work_outstanding, auto_resume_preempted,
}
use retrovert.Queue.Slots.{snapshot, snapshot_all, apply}
use retrovert.Queue.Workers.{apply_all, resume_preempted}
use retrovert.Queue.Claims.Draining.{apply_all-snapshot_all}

module _ {T : Type 0} where
  pub snapshot_all-of :
      (ss : List (Slot T)) (i : ℕ) (s : Slot T)
      → get_elem? ss i ≡ some s
      → get_elem? (snapshot_all ss) i ≡ some (snapshot s)
  unfolding snapshot_all
  snapshot_all-of [] i s h = absurd (ground arith)
  snapshot_all-of (x ∷ ss) zero s h = ground arith
  snapshot_all-of (x ∷ ss) (suc i) s h = snapshot_all-of ss i s h

  pub apply_all-of :
      (g : Entry → Entry) (ss : List (Slot T)) (i : ℕ) (t : Slot T)
      → get_elem? (apply_all ss (map g (snapshot_all ss))) i ≡ some t
      → (s : Slot T) × (get_elem? ss i ≡ some s) × (apply (g (snapshot s)) s ≡ t)
  unfolding snapshot_all
  apply_all-of g [] i t h = absurd (ground arith)
  apply_all-of g (x ∷ ss) zero t h = (x, refl, ground arith)
  apply_all-of g (x ∷ ss) (suc i) t h = apply_all-of g ss i t h

  pub swept-all :
      (sh : Shared T)
      → any is_user_work_outstanding (snapshot_all sh.slots) ≡ false
      → auto_resume_preempted (snapshot_all sh.slots) ≡ map resumed (snapshot_all sh.slots)
  unfolding auto_resume_preempted
  swept-all sh go = rw (auto_resume_preempted, go) refl

  awake :
      (s : Slot T)
      → ((apply (resumed (snapshot s)) s).in_use
          && same_state (apply (resumed (snapshot s)) s).state preempted)
        ≡ true
      → ⊥
  awake s h = ground arith

  -- The sweep leaves an entry preempted only for user work.
  pub resume_preempted-waits :
      (sh : Shared T) (i : ℕ) (t : Slot T)
      → get_elem? (resume_preempted sh).slots i ≡ some t
      → (t.in_use && same_state t.state preempted) ≡ true
      → any is_user_work_outstanding (snapshot_all (resume_preempted sh).slots) ≡ true
  unfolding resume_preempted auto_resume_preempted
  resume_preempted-waits sh i t h asleep =
      elim (Bool-cases (any is_user_work_outstanding (snapshot_all sh.slots))) [
        | inl wait ↦
            rw (resume_preempted, auto_resume_preempted, wait, apply_all-snapshot_all sh.slots) wait
        | inr go ↦
            let (s, _, is) =
              apply_all-of resumed sh.slots i t
                (ap (λ es. get_elem? (apply_all sh.slots es) i) (sym (swept-all sh go)) ∙ h) in
            absurd (
              awake s (
                subst (λ u. (Slot.in_use u && same_state (Slot.state u) preempted) ≡ true) (sym is)
                  asleep))
      ]

  still_downloading :
      (s : Slot T)
      → same_state (apply (resumed (snapshot s)) s).state downloading ≡ true
      → same_state s.state downloading ≡ true
  still_downloading s h = ground arith

  -- The sweep starts nothing.
  pub resume_preempted-downloading :
      (sh : Shared T) (j : ℕ) (u : Slot T)
      → get_elem? (resume_preempted sh).slots j ≡ some u
      → same_state u.state downloading ≡ true
      → (s : Slot T) × (get_elem? sh.slots j ≡ some s) × (same_state s.state downloading ≡ true)
  unfolding resume_preempted auto_resume_preempted
  resume_preempted-downloading sh j u h runs =
      elim (Bool-cases (any is_user_work_outstanding (snapshot_all sh.slots))) [
        | inl wait ↦
            let same : (resume_preempted sh).slots ≡ sh.slots =
              rw (resume_preempted, auto_resume_preempted, wait)
                (apply_all-snapshot_all sh.slots) in
            (u, ap (λ ss. get_elem? ss j) (sym same) ∙ h, runs)
        | inr go ↦
            let (s, at, is) =
              apply_all-of resumed sh.slots j u
                (ap (λ es. get_elem? (apply_all sh.slots es) j) (sym (swept-all sh go)) ∙ h) in
            (
              s,
              at,
              still_downloading s
                  (subst (λ z. same_state (Slot.state z) downloading ≡ true) (sym is) runs),
            )
      ]
