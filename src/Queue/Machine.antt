-- ===== src/Queue/Machine.antt =====
-- crates/updater/src/queue/mod.rs: the life of one slot, as a step relation. A step is from whether
-- a worker holds the slot, and what it is, to the same after it.
use retrovert.Common.{
  ℕ, ◌≡◌, refl, Bool, true, false, not, ◌&&◌, ◌||◌, Option, none, some, List, if◌then◌else◌,
  is_some, arith, Bool-cases, inl, inr,
}
use retrovert.Queue.{
  State, pending, downloading, paused, preempted, complete, failed, cancelled, Failure, panicked,
  Request, Slot,
}
use retrovert.Queue.Policy
use retrovert.Queue.Policy.{same_state, is_pending, can_yield}
use retrovert.Queue.Slots.{snapshot, set_state, store_progress, publish_failure}
use retrovert.Queue.Workers.{report, publish, settled}
use retrovert.Queue.Calls.{filled}

-- A state that a transfer can settle with.
abbrev pub is_ending : State → Bool
is_ending complete = true
is_ending failed = true
is_ending cancelled = true
is_ending paused = true
is_ending _ = false

module _ {T : Type 0} where
  -- What a cancel that applies makes of a slot.
  abbrev pub cancelled_slot : Bool → Slot T → Slot T
  cancelled_slot active s =
      let (e, applies) = Policy.cancel (snapshot s) active in
      record s {
        in_use = e.in_use;
        state = e.state;
        cancel_requested = if active then true else s.cancel_requested;
      }

-- What may happen to the slot in a step: that it is freed, and that the worker that holds it dies.
pub record Allowed : Type 0 where
  pub freeing : Bool
  pub dying : Bool

pub data Move {T : Type 0} (allowed : Allowed) : Bool → Slot T → Bool → Slot T → Type 0 where
  fills :
      {a : Bool} {s : Slot T} (r : Request) (now : ℕ)
      → s.in_use ≡ false
      → Move allowed a s a (filled r now s)
  yields :
      {a : Bool} {s : Slot T}
      → can_yield (snapshot s) ≡ true
      → Move allowed a s a (record s { state = preempted; pause_requested = true })
  pauses : {a : Bool} {s : Slot T} → Move allowed a s a (record s { pause_requested = true })
  cancels :
      {a : Bool} {s : Slot T}
      → (Policy.cancel (snapshot s) a).1 ≡ true
      → Move allowed a s a (cancelled_slot a s)
  resumes :
      {a : Bool} {s : Slot T}
      → same_state s.state paused ≡ true
      → Move allowed a s a (set_state pending s)
  removes :
      {s : Slot T}
      → allowed.freeing ≡ true
      → same_state s.state downloading ≡ false
      → Move allowed false s false (record s { in_use = false })
  sweeps :
      {a : Bool} {s : Slot T}
      → (s.in_use && same_state s.state preempted) ≡ true
      → Move allowed a s a (set_state pending s)
  claims :
      {a : Bool} {s : Slot T}
      → is_pending (snapshot s) ≡ true
      → Move allowed a s true (set_state downloading s)
  progresses :
      {s : Slot T} (n : ℕ) (total : Option ℕ) → Move allowed true s true (store_progress n total s)
  settles :
      {s : Slot T} (b : Bool) (digest : Option (List ℕ)) (state : State)
      (failure : Option (Failure T))
      → is_ending state ≡ true
      → Move allowed true s b (settled digest state failure s)
  crashes :
      {s : Slot T} (b : Bool)
      → allowed.dying ≡ true
      → Move allowed true s b (set_state failed (publish_failure panicked s))

pub data Moves {T : Type 0} (allowed : Allowed) : Bool → Slot T → Bool → Slot T → Type 0 where
  stays : {a : Bool} {s : Slot T} → Moves allowed a s a s
  moves :
      {a b c : Bool} {s t u : Slot T}
      → Move allowed a s b t
      → Moves allowed b t c u
      → Moves allowed a s c u

module _ {T : Type 0} where
  pub Moves-append :
      {f : Allowed} {a b c : Bool} {s t u : Slot T}
      → Moves f a s b t
      → Moves f b t c u
      → Moves f a s c u
  Moves-append stays n = n
  Moves-append (moves m ms) n = moves m (Moves-append ms n)

  -- A slot that a worker holds is in use, and one that is downloading is held.
  abbrev pub sound : Bool → Slot T → Bool
  sound a s = (not a || s.in_use) && (not (same_state s.state downloading) || a)

  -- Called off: a worker that holds it is told so, and otherwise it is cancelled, or a worker that
  -- held it died and it failed.
  abbrev pub is_doomed : (died held : Bool) → Slot T → Bool
  is_doomed died held s =
      s.in_use
      && (if held
          then s.cancel_requested
          else same_state s.state cancelled || (died && same_state s.state failed))

  report-keeps :
      (o : Option (Failure T)) (s : Slot T)
      → ((report o s).state ≡ s.state)
        × ((report o s).in_use ≡ s.in_use)
        × ((report o s).cancel_requested ≡ s.cancel_requested)
  report-keeps none s = (refl, refl, refl)
  report-keeps (some f) s = (refl, refl, refl)

  publish-keeps :
      (final : State) (digest : Option (List ℕ)) (o : Option (Failure T)) (s : Slot T)
      → ((publish final digest o s).state ≡ s.state)
        × ((publish final digest o s).in_use ≡ s.in_use)
        × ((publish final digest o s).cancel_requested ≡ s.cancel_requested)
  publish-keeps final digest o s = elim (Bool-cases (same_state final complete && is_some digest)) [
    | inl good ↦ rw (publish, good) (refl, refl, refl)
    | inr bad ↦ rw (publish, bad) (report-keeps o s)
  ]

  -- The state that a slot settles with.
  abbrev pub final_state : State → Slot T → State
  final_state state s =
      let final = if s.cancel_requested then cancelled else state in
      if not (same_state s.state preempted) || not (same_state final paused) then final else s.state

  -- A settle keeps the slot in use and its cancel flag, and publishes the final state.
  settled-keeps :
      (digest : Option (List ℕ)) (state : State) (o : Option (Failure T)) (s : Slot T)
      → ((settled digest state o s).state ≡ final_state state s)
        × ((settled digest state o s).in_use ≡ s.in_use)
        × ((settled digest state o s).cancel_requested ≡ s.cancel_requested)
  unfolding settled
  settled-keeps digest state o s =
      let final = if s.cancel_requested then cancelled else state in
      let spent = record s { pause_requested = false } in
      let (st, used, flag) = publish-keeps final digest o spent in
      elim (Bool-cases (not (same_state s.state preempted) || not (same_state final paused))) [
        | inl set ↦ rw (settled, st, set) (refl, used, flag)
        | inr kept ↦ rw (settled, st, kept) (st, used, flag)
      ]

  settled-sound :
      (b : Bool) (digest : Option (List ℕ)) (state : State) (failure : Option (Failure T))
      (s : Slot T)
      → is_ending state ≡ true
      → sound true s ≡ true
      → sound b (settled digest state failure s) ≡ true
  unfolding settled
  settled-sound b digest state failure s e h =
      let (st, used, flag) = settled-keeps digest state failure s in rw (st, used) (ground arith)

  settled-is_doomed :
      (died b : Bool) (digest : Option (List ℕ)) (state : State) (failure : Option (Failure T))
      (s : Slot T)
      → is_doomed died true s ≡ true
      → is_doomed died b (settled digest state failure s) ≡ true
  unfolding settled
  settled-is_doomed died b digest state failure s h =
      let (st, used, flag) = settled-keeps digest state failure s in
      rw (st, used, flag) (ground arith)

  pub Move-sound :
      {f : Allowed} {a b : Bool} {s t : Slot T}
      → Move f a s b t
      → sound a s ≡ true
      → sound b t ≡ true
  unfolding filled Policy.cancel
  Move-sound (fills r now h) v = ground arith
  Move-sound (yields h) v = ground arith
  Move-sound pauses v = ground arith
  Move-sound (cancels h) v = ground arith
  Move-sound (resumes h) v = ground arith
  Move-sound (removes f h) v = ground arith
  Move-sound (sweeps h) v = ground arith
  Move-sound (claims h) v = ground arith
  Move-sound (progresses n total) v = ground arith
  Move-sound (settles b digest state failure e) v = settled-sound b digest state failure _ e v
  Move-sound (crashes b d) v = ground arith

  pub is_doomed_more :
      (died d held : Bool) (s : Slot T)
      → is_doomed died held s ≡ true
      → is_doomed (died || d) held s ≡ true
  is_doomed_more died d held s h = ground arith

  pub Move-is_doomed :
      {f : Allowed} (died : Bool) {a b : Bool} {s t : Slot T}
      → f.freeing ≡ false
      → Move f a s b t
      → is_doomed died a s ≡ true
      → is_doomed (died || f.dying) b t ≡ true
  unfolding filled Policy.cancel
  Move-is_doomed died kept (fills r now h) v = ground arith
  Move-is_doomed died kept (yields h) v = ground arith
  Move-is_doomed died kept pauses v = ground arith
  Move-is_doomed died kept (cancels h) v = ground arith
  Move-is_doomed died kept (resumes h) v = ground arith
  Move-is_doomed died kept (removes f h) v = ground arith
  Move-is_doomed died kept (sweeps h) v = ground arith
  Move-is_doomed died kept (claims h) v = ground arith
  Move-is_doomed died kept (progresses n total) v = ground arith
  Move-is_doomed {f = f} died kept (settles {s = s} b digest state failure e) v =
      is_doomed_more died f.dying b (settled digest state failure s)
        (settled-is_doomed died b digest state failure s v)
  Move-is_doomed died kept (crashes b d) v = ground arith
