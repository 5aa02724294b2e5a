-- ===== src/Queue/Claims.antt =====
-- Every event moves every slot along its life.
pub mod Callers
pub mod Queuing
pub mod Draining
pub mod Working
pub mod History
use mathlib.Core.Option
use retrovert.Common.{
  ℕ, zero, suc, ◌≡◌, refl, ap, sym, ◌∙◌, subst, Bool, true, false, Option, none, some, List,
  if◌then◌else◌, get_elem?, modify, arith, ◌==◌, ◌||◌, not, is_none, Bool-cases, inl, inr,
}
use retrovert.Queue.{Slot, Active, Shared}
use retrovert.Queue.Policy.{next_pending}
use retrovert.Queue.Slots.{is_active, snapshot_all}
use retrovert.Queue.Workers.{arm_workers, all_armed, arm_from}
use retrovert.Queue.Machine.{Allowed, Move, Moves, stays, moves, Moves-append}
use retrovert.Common.Updates.{get-modify_self, get-modify_ne}

module _ {T : Type 0} where
  -- The slot at the index, which was `s`, has moved.
  abbrev pub Advances : Allowed → (sh sh' : Shared T) → ℕ → Slot T → Type 0
  Advances f sh sh' i s =
      (t : Slot T) × (get_elem? sh'.slots i ≡ some t)
      × Moves f (is_active sh.active i) s (is_active sh'.active i) t

  -- Nothing happened to a slot.
  pub Advances-still :
      (f : Allowed) (sh sh' : Shared T) (i : ℕ) (s : Slot T)
      → sh'.slots ≡ sh.slots
      → is_active sh'.active i ≡ is_active sh.active i
      → get_elem? sh.slots i ≡ some s
      → Advances f sh sh' i s
  Advances-still f sh sh' i s same kept h = (
    s,
    ap (λ xs. get_elem? xs i) same ∙ h,
    subst (λ b. Moves f (is_active sh.active i) s b s) (sym kept) stays,
  )

  -- Two slots found at one index are one.
  found_same :
      (xs : List (Slot T)) (i k : ℕ) (s t : Slot T)
      → i ≡ k
      → get_elem? xs i ≡ some s
      → get_elem? xs k ≡ some t
      → t ≡ s
  found_same xs i k s t same h h' = ground arith

  -- One slot was changed, and the others are held as they were.
  pub Advances-at :
      (f : Allowed) (sh sh' : Shared T) (i k : ℕ) (s x : Slot T) (g : Slot T → Slot T)
      → sh'.slots ≡ modify sh.slots k g
      → get_elem? sh.slots k ≡ some x
      → ((i == k) ≡ false → is_active sh'.active i ≡ is_active sh.active i)
      → (i ≡ k → Moves f (is_active sh.active k) x (is_active sh'.active k) (g x))
      → get_elem? sh.slots i ≡ some s
      → Advances f sh sh' i s
  Advances-at f sh sh' i k s x g changed at kept m h = elim (Bool-cases (i == k)) [
    | inl here ↦
        let same : i ≡ k = ground arith in
        subst (λ j. Advances f sh sh' j s) (sym same)
          (subst (λ y. Advances f sh sh' k y) (found_same sh.slots i k s x same h at)
            (g x, ap (λ xs. get_elem? xs k) changed ∙ get-modify_self g sh.slots k x at, m same))
    | inr past ↦ (
      s,
      ap (λ xs. get_elem? xs i) changed ∙ get-modify_ne g sh.slots i k past ∙ h,
      subst (λ b. Moves f (is_active sh.active i) s b s) (sym (kept past)) stays,
    )
  ]

  -- The same for an index that may be out of bounds.
  pub Advances-each :
      (f : Allowed) (sh sh' : Shared T) (i k : ℕ) (s : Slot T) (g : Slot T → Slot T)
      → sh'.slots ≡ modify sh.slots k g
      → ((i == k) ≡ false → is_active sh'.active i ≡ is_active sh.active i)
      → (i ≡ k → (x : Slot T) → Moves f (is_active sh.active k) x (is_active sh'.active k) (g x))
      → get_elem? sh.slots i ≡ some s
      → Advances f sh sh' i s
  Advances-each f sh sh' i k s g changed kept m h = elim (Bool-cases (i == k)) [
    | inl here ↦
        let same : i ≡ k = ground arith in
        Advances-at f sh sh' i k s s g changed (ap (get_elem? sh.slots) (sym same) ∙ h) kept
          (λ e. m same s) h
    | inr past ↦ (
      s,
      ap (λ xs. get_elem? xs i) changed ∙ get-modify_ne g sh.slots i k past ∙ h,
      subst (λ b. Moves f (is_active sh.active i) s b s) (sym (kept past)) stays,
    )
  ]

  -- One event after another.
  pub Advances-then :
      (f : Allowed) (sh sh' sh'' : Shared T) (i : ℕ) (s : Slot T)
      → Advances f sh sh' i s
      → ((t : Slot T) → get_elem? sh'.slots i ≡ some t → Advances f sh' sh'' i t)
      → Advances f sh sh'' i s
  Advances-then f sh sh' sh'' i s (t, h, m) next =
      let (u, h', n) = next t h in (u, h', Moves-append m n)

  pub arm_workers-slots :
      (spawned : ℕ → Bool) (sh : Shared T)
      → ((arm_workers spawned sh).slots ≡ sh.slots) × ((arm_workers spawned sh).active ≡ sh.active)
  unfolding arm_workers
  arm_workers-slots spawned sh = elim (Bool-cases (all_armed sh.armed || not sh.running)) [
    | inl full ↦ rw (arm_workers, full) (refl, refl)
    | inr room ↦ elim (Bool-cases (is_none (next_pending (snapshot_all sh.slots)))) [
      | inl idle ↦ rw (arm_workers, room, idle) (refl, refl)
      | inr work ↦ rw (arm_workers, room, work) (refl, refl)
    ]
  ]

  -- Arming workers at the end of a call moves no slot.
  pub Advances-arm :
      (f : Allowed) (spawned : ℕ → Bool) (sh sh' : Shared T) (i : ℕ) (s : Slot T)
      → Advances f sh sh' i s
      → Advances f sh (arm_workers spawned sh') i s
  Advances-arm f spawned sh sh' i s (t, h, m) =
      let (slots, active) = arm_workers-slots spawned sh' in
      (
        t,
        ap (λ xs. get_elem? xs i) slots ∙ h,
        subst (λ ws. Moves f (is_active sh.active i) s (is_active ws i) t) (sym active) m,
      )
