-- ===== src/Queue/Laws/Queued.antt =====
-- crates/updater/src/queue/mod.rs: when `queue` takes a request, and where it puts it.
use retrovert.Common.{
  ℕ, ◌<◌, ◌≡◌, ◌↔◌, refl, ap, sym, ◌∙◌, subst, Bool, true, false, not, ◌&&◌, none, some, List, [],
  ◌∷◌, get_elem?, position, arith, Option-cases, inl, inr,
}
use retrovert.Common.Positions.{position-some}
use retrovert.Queue.{Request, Slot, Shared, queue_max}
use retrovert.Queue.Slots.{is_active}
use retrovert.Queue.Session.{Event, run}
use retrovert.Queue.Laws.Held.{run-with_config-sound}
use retrovert.Queue.Calls.{with_config, queue}
use retrovert.Queue.Machine.{sound}

abbrev pub all_in_use : {T : Type 0} → List (Slot T) → Bool
all_in_use [] = true
all_in_use (s ∷ ss) = s.in_use && all_in_use ss

some_eq : {A : Type 0} {x y : A} → some x ≡ some y → x ≡ y
some_eq {x = x} h = ap (λ o. elim o [ none ↦ x | some z ↦ z ]) h

module _ {T : Type 0} where
  not_held : (a : Bool) (s : Slot T) → s.in_use ≡ false → sound a s ≡ true → a ≡ false
  not_held a s free v = ground arith

  position-all_in_use :
      (ss : List (Slot T))
      → (position (λ s. not (Slot.in_use s)) ss ≡ none) ↔ (all_in_use ss ≡ true)
  position-all_in_use [] = (λ h. refl, λ h. refl)
  position-all_in_use (s ∷ ss) =
      let (to, from) = position-all_in_use ss in
      (λ h. ground (arith, to), λ h. ground (arith, from))

  queue-taken :
      (spawned : ℕ → Bool) (now : ℕ) (sh : Shared T) (r : Request) (k : ℕ)
      → position (λ s. not (Slot.in_use s)) sh.slots ≡ some k
      → (queue spawned now sh r).1 ≡ some k
  unfolding queue
  queue-taken spawned now sh r k found = rw (queue, found) refl

  -- A request is refused exactly if every slot is in use.
  pub queue-none_iff :
      (spawned : ℕ → Bool) (now : ℕ) (sh : Shared T) (r : Request)
      → ((queue spawned now sh r).1 ≡ none) ↔ (all_in_use sh.slots ≡ true)
  unfolding queue
  queue-none_iff spawned now sh r =
      let (to, from) = position-all_in_use sh.slots in
      elim (Option-cases (position (λ s. not (Slot.in_use s)) sh.slots)) [
        | inl full ↦ rw (queue, full) (λ h. to full, λ h. refl)
        | inr (k, found) ↦ (
          λ h. absurd (ground (arith, sym (queue-taken spawned now sh r k found) ∙ h)),
          λ h. absurd (ground (arith, sym found ∙ from h)),
        )
      ]

  queue-free :
      (spawned : ℕ → Bool) (now : ℕ) (sh : Shared T) (r : Request) (k : ℕ)
      → (queue spawned now sh r).1 ≡ some k
      → (s : Slot T) × (get_elem? sh.slots k ≡ some s) × (s.in_use ≡ false)
  queue-free spawned now sh r k h =
      elim (Option-cases (position (λ s. not (Slot.in_use s)) sh.slots)) [
        | inl full ↦ absurd (
            ground (
              arith,
              sym h ∙ (queue-none_iff spawned now sh r).1 ((position-all_in_use sh.slots).0 full),
            ))
        | inr (i, found) ↦
            let (s, at, free, x) = position-some (λ s. not (Slot.in_use s)) sh.slots i found in
            let same : i ≡ k = some_eq (sym (queue-taken spawned now sh r i found) ∙ h) in
            (s, subst (λ j. get_elem? sh.slots j ≡ some s) same at, ground arith)
      ]

  -- After any history of a queue, the slot that a request is put into was not in use, and no worker
  -- holds it: a transfer that still runs is never overwritten.
  pub queue-unheld :
      (sha : List ℕ → List ℕ) (workers : ℕ) (es : List (Event T)) (spawned : ℕ → Bool) (now k : ℕ)
      (r : Request)
      → k < queue_max
      → (queue spawned now (run sha (with_config workers) es) r).1 ≡ some k
      → (s : Slot T) × (get_elem? (run sha (with_config workers) es).slots k ≡ some s)
        × (s.in_use ≡ false)
        × (is_active (run sha (with_config workers) es).active k ≡ false)
  queue-unheld sha workers es spawned now k r l h =
      let sh = run sha (with_config workers) es in
      let (s, at, free) = queue-free spawned now sh r k h in
      let (t, at', v) = run-with_config-sound sha workers es k l in
      let same : t ≡ s = some_eq (sym at' ∙ at) in
      (
        s,
        at,
        free,
        not_held (is_active sh.active k) s free
            (subst (λ u. sound (is_active sh.active k) u ≡ true) same v),
      )
