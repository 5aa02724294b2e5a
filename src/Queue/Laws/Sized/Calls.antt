-- ===== src/Queue/Laws/Sized/Calls.antt =====
-- crates/updater/src/queue/mod.rs: a call leaves as many slots as there were.
use retrovert.Common.{
  ℕ, ◌≡◌, refl, ◌∙◌, Bool, true, not, ◌||◌, List, [], ◌∷◌, get_elem?, modify, length, arith,
  Bool-cases, Option-cases, inl, inr, position, is_none,
}
use retrovert.Common.Updates.{length-modify}
use retrovert.Queue.{Priority, Request, Entry, Slot, Shared}
use retrovert.Queue.Policy
use retrovert.Queue.Policy.{auto_resume_preempted, next_pending}
use retrovert.Queue.Slots.{
  snapshot, snapshot_all, apply, at_slot, claimed, has_idle_worker, is_active,
}
use retrovert.Queue.Workers.{apply_all, arm_workers, all_armed}
use retrovert.Queue.Calls.{request_pause, preempt, queue, cancel, pause, resume, remove, filled}

module _ {T : Type 0} where
  abbrev pub Same : Shared T → Shared T → Type 0
  Same sh sh' = length sh'.slots ≡ length sh.slots

  pub at_slot-Same : (sh : Shared T) (i : ℕ) (f : Slot T → Slot T) → Same sh (at_slot sh i f)
  at_slot-Same sh i f = length-modify f sh.slots i

  Same-trans : (a b c : Shared T) → Same a b → Same b c → Same a c
  Same-trans a b c p q = q ∙ p

  pub arm_workers-Same : (spawned : ℕ → Bool) (sh : Shared T) → Same sh (arm_workers spawned sh)
  unfolding arm_workers
  arm_workers-Same spawned sh = elim (Bool-cases (all_armed sh.armed || not sh.running)) [
    | inl is ↦ rw (is, arm_workers) refl
    | inr is ↦ elim (Bool-cases (is_none (next_pending (snapshot_all sh.slots)))) [
      | inl nothing ↦ rw (is, nothing, arm_workers) refl
      | inr there ↦ rw (is, there, arm_workers) refl
    ]
  ]

  pub length-apply_all :
      (ss : List (Slot T)) (es : List Entry) → length (apply_all ss es) ≡ length ss
  length-apply_all [] es = refl
  length-apply_all (s ∷ ss) [] = refl
  length-apply_all (s ∷ ss) (e ∷ es) = omega (arith, length-apply_all ss es)

  preempt-Same : (sh : Shared T) (priority : Priority) → Same sh (preempt sh priority)
  unfolding preempt request_pause
  preempt-Same sh priority =
      let (es, target) =
        Policy.preempt_for_user (snapshot_all sh.slots) (claimed sh.active) priority
          (has_idle_worker sh.active) in
      elim (Option-cases target) [
        | inl nobody ↦ rw (nobody, preempt) refl
        | inr (t, at) ↦ elim (Option-cases (get_elem? es t)) [
          | inl outside ↦ rw (at, outside, preempt) refl
          | inr (e, there) ↦
              rw (at, there, preempt)
                (Same-trans sh (at_slot sh t (apply e)) (request_pause (at_slot sh t (apply e)) t)
                  (at_slot-Same sh t (apply e)) (at_slot-Same (at_slot sh t (apply e)) t _))
        ]
      ]

  pub queue-Same :
      (spawned : ℕ → Bool) (now : ℕ) (sh : Shared T) (r : Request)
      → Same sh (queue spawned now sh r).0
  unfolding queue
  queue-Same spawned now sh r = elim (Option-cases (position (λ s. not (Slot.in_use s)) sh.slots)) [
    | inl full ↦ rw (full, queue) refl
    | inr (i, free) ↦
        let sh1 = at_slot sh i (filled r now) in
        rw (free, queue)
          (arm_workers-Same spawned (preempt sh1 r.priority)
            ∙ preempt-Same sh1 r.priority
            ∙ at_slot-Same sh i (filled r now))
  ]

  pub cancel-Same : (sh : Shared T) (id : ℕ) → Same sh (cancel sh id).0
  unfolding cancel
  cancel-Same sh id = elim (Option-cases (get_elem? sh.slots id)) [
    | inl outside ↦ rw (outside, cancel) refl
    | inr (s, at) ↦
        let active = is_active sh.active id in
        elim (Bool-cases (Policy.cancel (snapshot s) active).1) [
          | inr denied ↦ rw (at, denied, cancel) refl
          | inl taken ↦ elim (Bool-cases active) [
            | inr idle ↦ rw (at, taken, idle, cancel) (at_slot-Same sh id _)
            | inl held ↦
                rw (at, taken, held, cancel)
                  (length-modify _ (modify sh.slots id (apply (Policy.cancel (snapshot s) true).0))
                      id
                    ∙ at_slot-Same sh id _)
          ]
        ]
  ]

  pub pause-Same : (sh : Shared T) (id : ℕ) → Same sh (pause sh id).0
  unfolding pause request_pause
  pause-Same sh id = elim (Option-cases (get_elem? sh.slots id)) [
    | inl outside ↦ rw (outside, pause) refl
    | inr (s, at) ↦ elim (Bool-cases (Policy.pause (snapshot s) (is_active sh.active id))) [
      | inl taken ↦ rw (at, taken, pause) (at_slot-Same sh id _)
      | inr denied ↦ rw (at, denied, pause) refl
    ]
  ]

  pub resume-Same : (spawned : ℕ → Bool) (sh : Shared T) (id : ℕ) → Same sh (resume spawned sh id).0
  unfolding resume
  resume-Same spawned sh id = elim (Option-cases (get_elem? sh.slots id)) [
    | inl outside ↦ rw (outside, resume) refl
    | inr (s, at) ↦ elim (Bool-cases (Policy.resume (snapshot s)).1) [
      | inl taken ↦
          rw (at, taken, resume)
            (arm_workers-Same spawned (at_slot sh id (apply (Policy.resume (snapshot s)).0))
              ∙ at_slot-Same sh id _)
      | inr denied ↦ rw (at, denied, resume) refl
    ]
  ]

  pub remove-Same : (sh : Shared T) (id : ℕ) → Same sh (remove sh id).0
  unfolding remove
  remove-Same sh id = elim (Option-cases (get_elem? sh.slots id)) [
    | inl outside ↦ rw (outside, remove) refl
    | inr (s, at) ↦ elim (Bool-cases (Policy.remove (snapshot s) (is_active sh.active id)).1) [
      | inl taken ↦ rw (at, taken, remove) (at_slot-Same sh id _)
      | inr denied ↦ rw (at, denied, remove) refl
    ]
  ]
