-- ===== src/Queue/Claims/Queuing.antt =====
-- crates/updater/src/queue/mod.rs: what `queue` does to a slot.
use retrovert.Common.{
  ℕ, zero, suc, ◌≡◌, refl, ap, sym, ◌∙◌, subst, Bool, true, not, none, some, List, [], ◌∷◌,
  get_elem?, modify, position, arith, Option-cases, inl, inr,
}
use retrovert.Common.Positions.{position-some}
use retrovert.Queue.{Priority, Entry, Request, Slot, Shared}
use retrovert.Queue.Policy
use retrovert.Queue.Policy.{can_yield, mark_preempted}
use retrovert.Queue.Slots.{
  snapshot, snapshot_all, apply, is_active, at_slot, claimed, has_idle_worker, ask_pause,
}
use retrovert.Queue.Calls.{filled, preempt, queue, request_pause}
use retrovert.Queue.Scheduling.{preempt_for_user-can_yield}
use retrovert.Queue.Machine.{Allowed, fills, yields, Moves, stays, moves}
use retrovert.Common.Updates.{get-modify_self}
use retrovert.Queue.Steps.{is_active-ask}
use retrovert.Queue.Claims.{Advances, Advances-still, Advances-at, Advances-then, Advances-arm}
use retrovert.Queue.Claims.Callers.{modify-modify}

module _ {T : Type 0} where
  -- An entry of the snapshots is that of a slot.
  pub snapshot_all-get :
      (ss : List (Slot T)) (i : ℕ) (e : Entry)
      → get_elem? (snapshot_all ss) i ≡ some e
      → (s : Slot T) × (get_elem? ss i ≡ some s) × (snapshot s ≡ e)
  unfolding snapshot_all
  snapshot_all-get [] i e h = absurd (ground arith)
  snapshot_all-get (s ∷ ss) zero e h = (s, refl, ground arith)
  snapshot_all-get (s ∷ ss) (suc i) e h = snapshot_all-get ss i e h

  -- The shared state after a transfer was asked to yield.
  unfoldable yielded : Shared T → ℕ → Entry → Shared T
  yielded sh t e = request_pause (at_slot sh t (apply (mark_preempted e))) t

  preempt-target :
      (sh : Shared T) (p : Priority) (t : ℕ) (e : Entry) (es : List Entry)
      → (Policy.preempt_for_user
          (snapshot_all sh.slots)
          (claimed sh.active)
          p
          (has_idle_worker sh.active)).1
        ≡ some t
      → (Policy.preempt_for_user
          (snapshot_all sh.slots)
          (claimed sh.active)
          p
          (has_idle_worker sh.active)).0
        ≡ es
      → get_elem? es t ≡ some (mark_preempted e)
      → preempt sh p ≡ yielded sh t e
  unfolding preempt yielded
  preempt-target sh p t e es target marked at = rw (preempt, target, marked, at) refl

  preempt-none :
      (sh : Shared T) (p : Priority)
      → (Policy.preempt_for_user
          (snapshot_all sh.slots)
          (claimed sh.active)
          p
          (has_idle_worker sh.active)).1
        ≡ none
      → preempt sh p ≡ sh
  unfolding preempt
  preempt-none sh p target = rw (preempt, target) refl

  yield-Moves :
      (f : Allowed) (a : Bool) (x : Slot T) (e : Entry) (b : Bool)
      → snapshot x ≡ e
      → can_yield e ≡ true
      → b ≡ a
      → Moves f a x b (record (apply (mark_preempted e) x) { pause_requested = true })
  yield-Moves f a x e b same ok held =
      subst (λ c. Moves f a x c (record (apply (mark_preempted e) x) { pause_requested = true }))
        (sym held)
        (subst (λ y. Moves f a x a (record (apply (mark_preempted y) x) { pause_requested = true }))
          same (moves (yields (ap can_yield same ∙ ok)) stays))

  preempt-Advances :
      (f : Allowed) (sh : Shared T) (p : Priority) (i : ℕ) (s : Slot T)
      → get_elem? sh.slots i ≡ some s
      → Advances f sh (preempt sh p) i s
  unfolding yielded request_pause
  preempt-Advances f sh p i s h =
      let entries = snapshot_all sh.slots in
      let decided =
        Policy.preempt_for_user entries (claimed sh.active) p (has_idle_worker sh.active) in
      elim (Option-cases decided.1) [
        | inl nobody ↦
            subst (λ r. Advances f sh r i s) (sym (preempt-none sh p nobody))
              (Advances-still f sh sh i s refl refl h)
        | inr (t, target) ↦
            let (e, at, yields_now, marked) =
              preempt_for_user-can_yield entries (claimed sh.active) p (has_idle_worker sh.active) t
                target in
            let (x, there, same) = snapshot_all-get sh.slots t e at in
            subst (λ r. Advances f sh r i s)
              (sym (
                preempt-target sh p t e (modify entries t mark_preempted) target marked
                  (get-modify_self mark_preempted entries t e at)))
              (Advances-at f sh (yielded sh t e) i t s x
                (λ y. record (apply (mark_preempted e) y) { pause_requested = true })
                (modify-modify (apply (mark_preempted e)) (λ y. record y { pause_requested = true })
                  sh.slots t)
                there (λ other. is_active-ask ask_pause t sh.active i)
                (λ here.
                  yield-Moves f (is_active sh.active t) x e _ same yields_now
                    (is_active-ask ask_pause t sh.active t))
                h)
      ]

  pub queue-Advances :
      (f : Allowed) (spawned : ℕ → Bool) (now : ℕ) (sh : Shared T) (r : Request) (i : ℕ)
      (s : Slot T)
      → get_elem? sh.slots i ≡ some s
      → Advances f sh (queue spawned now sh r).0 i s
  unfolding queue
  queue-Advances f spawned now sh r i s h =
      elim (Option-cases (position (λ s. not (Slot.in_use s)) sh.slots)) [
        | inl full ↦ rw (full, queue) (Advances-still f sh sh i s refl refl h)
        | inr (k, found) ↦
            let (x, at, free, y) = position-some (λ s. not (Slot.in_use s)) sh.slots k found in
            let filling = at_slot sh k (filled r now) in
            rw (found, queue)
              (Advances-arm f spawned sh (preempt filling r.priority) i s (
                Advances-then f sh filling (preempt filling r.priority) i s
                  (Advances-at f sh filling i k s x (filled r now) refl at (λ other. refl)
                    (λ same. moves (fills r now (ground arith)) stays) h)
                  (preempt-Advances f filling r.priority i)))
      ]
