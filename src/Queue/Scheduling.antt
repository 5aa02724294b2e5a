-- ===== src/Queue/Scheduling.antt =====
-- crates/updater/src/queue/entry.rs: which entry runs next, and which one yields.
use retrovert.Common.{
  ℕ, ◌≡◌, inl, inr, refl, ap, subst, Bool, true, false, not, ◌||◌, none, some, List, modify,
  get_elem?, arith, Bool-cases, Option-cases,
}
use retrovert.Queue.{Priority, user, Entry}
use retrovert.Queue.Policy.{
  is_user, is_pending, enumerate, best_of, outranks, next_pending, preempt_for_user, mark_preempted,
  can_yield, yields_before, held_entries,
}
use retrovert.Queue.Choice.{
  Among, Best, outranks-Order, yields_before-Order, best_of-Beats, best_of-eligible,
  entries-Coherent, enumerate-Among, held_entries-Coherent, held_entries-Among,
}

-- If some in-use entry is pending, the one that runs next is an in-use pending entry, and the given
-- one is neither of higher priority nor of the same priority and queued earlier.
pub next_pending-best :
    (es : List Entry) (j : ℕ) (y : Entry)
    → get_elem? es j ≡ some y
    → is_pending y ≡ true
    → (b : ℕ) × (x : Entry) × (next_pending es ≡ some b)
      × (get_elem? es b ≡ some x)
      × (is_pending x ≡ true)
      × (outranks y x ≡ false)
unfolding next_pending
next_pending-best es j y at fits =
    best_of-Beats is_pending outranks es outranks-Order (enumerate 0 es) none j y
      (entries-Coherent es) tt
      (subst (λ k. Among k y (enumerate 0 es)) (omega arith) (enumerate-Among 0 j y es at)) fits

-- The entry that runs next is in use and pending.
pub next_pending-is_pending :
    (es : List Entry) (b : ℕ)
    → next_pending es ≡ some b
    → (x : Entry) × (get_elem? es b ≡ some x) × (is_pending x ≡ true)
unfolding next_pending
next_pending-is_pending es b h =
    subst (Best is_pending outranks es) h
      (best_of-eligible is_pending outranks es (enumerate 0 es) none (entries-Coherent es) tt)

-- When a user entry is queued and every worker is busy, and one of them runs an in-use background
-- transfer, exactly one entry is preempted: it too was such a transfer, and the given one has
-- neither fewer bytes on disk nor as many and a later queue time. All other entries stay.
pub preempt_for_user-best :
    (es : List Entry) (active : List ℕ) (k j : ℕ) (y : Entry)
    → get_elem? active k ≡ some j
    → get_elem? es j ≡ some y
    → can_yield y ≡ true
    → (b : ℕ) × (x : Entry) × (preempt_for_user es active user false
        ≡ (modify es b mark_preempted, some b))
      × (get_elem? es b ≡ some x)
      × (can_yield x ≡ true)
      × (yields_before y x ≡ false)
unfolding preempt_for_user
preempt_for_user-best es active k j y held at fits =
    let (b, x, chosen, there, ok, unbeaten) =
      best_of-Beats can_yield yields_before es yields_before-Order (held_entries es active) none j y
        (held_entries-Coherent es active) tt (held_entries-Among es active k j y held at) fits in
    (b, x, rw chosen refl, there, ok, unbeaten)

pub preempt_for_user-can_yield :
    (es : List Entry) (active : List ℕ) (p : Priority) (idle : Bool) (b : ℕ)
    → (preempt_for_user es active p idle).1 ≡ some b
    → (x : Entry) × (get_elem? es b ≡ some x)
      × (can_yield x ≡ true)
      × ((preempt_for_user es active p idle).0 ≡ modify es b mark_preempted)
unfolding preempt_for_user
preempt_for_user-can_yield es active p idle b h = elim (Bool-cases (not (is_user p) || idle)) [
  | inl stays ↦ absurd (ground arith)
  | inr goes ↦
      elim (Option-cases (best_of can_yield yields_before es none (held_entries es active))) [
        | inl nobody ↦ absurd (ground arith)
        | inr (i, chosen) ↦
            let (x, at, ok) = subst (Best can_yield yields_before es) chosen (
              best_of-eligible can_yield yields_before es (held_entries es active) none
                (held_entries-Coherent es active) tt) in
            let same : i ≡ b = ground arith in
            (
              x,
              subst (λ k. get_elem? es k ≡ some x) same at,
              ok,
              rw (goes, chosen) (ap (λ k. modify es k mark_preempted) same),
            )
      ]
]
