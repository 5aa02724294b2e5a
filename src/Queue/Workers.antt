-- ===== src/Queue/Workers.antt =====
-- crates/updater/src/queue/mod.rs: what a worker does to the shared state. Each function is one
-- hold of the queue lock, or one access to a slot outside it; what happens between two of them is
-- the other threads'. Whether a thread could be spawned is an argument.
use retrovert.Common.{
  ℕ, suc, Bool, true, false, not, ◌&&◌, ◌||◌, Option, none, some, List, [], ◌∷◌, is_none, is_some,
  if◌then◌else◌, get_elem?, modify,
}
use retrovert.Queue.{
  State, downloading, paused, preempted, complete, failed, cancelled, Entry, Failure, panicked,
  SlotRequest, Slot, Handle, Shared, no_claim,
}
use retrovert.Queue.Policy.{same_state, next_pending, auto_resume_preempted}
use retrovert.Queue.Slots.{
  snapshot_all, apply, set_state, publish_failure, at_slot, as_i64, ask_cancel, ask_pause,
}

-- The loop that arms workers from an index on, up to the first that cannot be spawned.
unfoldable pub arm_from : (ℕ → Bool) → ℕ → List Bool → List Bool
arm_from spawned i [] = []
arm_from spawned i (true ∷ bs) = true ∷ arm_from spawned (suc i) bs
arm_from spawned i (false ∷ bs) =
    let rest = arm_from spawned (suc i) bs in if spawned i then true ∷ rest else false ∷ bs

abbrev pub all_armed : List Bool → Bool
all_armed [] = true
all_armed (b ∷ bs) = b && all_armed bs

-- How `process` begins: it settles, or has a request for the transport to start.
pub data Begun (T : Type 0) : Type 0 where
  over : Shared T → Begun T
  wants : SlotRequest → Begun T

module _ {T : Type 0} where
  unfoldable pub arm_workers : (ℕ → Bool) → Shared T → Shared T
  unfolding arm_from
  arm_workers spawned sh =
      if all_armed sh.armed || not sh.running
      then sh
      else if is_none (next_pending (snapshot_all sh.slots))
      then sh
      else record sh { armed = arm_from spawned 0 sh.armed }

  -- The loop that writes the entries back.
  abbrev pub apply_all : List (Slot T) → List Entry → List (Slot T)
  apply_all [] es = []
  apply_all (s ∷ ss) [] = s ∷ ss
  apply_all (s ∷ ss) (e ∷ es) = apply e s ∷ apply_all ss es

  unfoldable pub resume_preempted : Shared T → Shared T
  unfolding auto_resume_preempted snapshot_all
  resume_preempted sh = record sh {
    slots = apply_all sh.slots (auto_resume_preempted (snapshot_all sh.slots));
  }

  -- The claim of a slot by a worker.
  unfoldable pub claim : Shared T → (worker index : ℕ) → Shared T
  claim sh worker index = record (at_slot sh index (set_state downloading)) {
    active = modify sh.active worker (λ a. record a { slot = some index });
  }

  abbrev pub disarm : Shared T → ℕ → Shared T
  disarm sh worker = record sh { armed = modify sh.armed worker (λ b. false) }

  -- What a turn of `run_drain` does under the lock, if the queue is running.
  unfoldable pub claim_next : (ℕ → Bool) → Shared T → ℕ → Shared T × Option ℕ
  unfolding resume_preempted claim arm_workers
  claim_next spawned sh worker =
      let swept = resume_preempted sh in
      elim (next_pending (snapshot_all swept.slots)) [
        | none ↦ (disarm swept worker, none)
        | some i ↦ (arm_workers spawned (claim swept worker i), some i)
      ]

  -- One turn of `run_drain`: the worker retires, or claims the slot that is returned.
  unfoldable pub drain : (ℕ → Bool) → Shared T → ℕ → Shared T × Option ℕ
  unfolding claim_next
  drain spawned sh worker =
      if not sh.running then (disarm sh worker, none) else claim_next spawned sh worker

  abbrev pub report : Option (Failure T) → Slot T → Slot T
  report none s = s
  report (some f) s = publish_failure f s

  -- The cached path of a completed transfer, or else the failure.
  abbrev pub publish : State → Option (List ℕ) → Option (Failure T) → Slot T → Slot T
  publish final digest failure s =
      if same_state final complete && is_some digest
      then record s { path = digest }
      else report failure s

  -- What `finish` makes of the slot, the worker's claim aside.
  unfoldable pub settled : Option (List ℕ) → State → Option (Failure T) → Slot T → Slot T
  settled digest state failure s =
      let final = if s.cancel_requested then cancelled else state in
      let published = publish final digest failure (record s { pause_requested = false }) in
      if not (same_state published.state preempted) || not (same_state final paused)
      then set_state final published
      else published

  unfoldable pub finish :
      Shared T → (worker index : ℕ) → Option (List ℕ) → State → Option (Failure T) → Shared T
  unfolding settled
  finish sh worker index digest state failure =
      record (at_slot sh index (settled digest state failure)) {
        active = modify sh.active worker (λ a. no_claim);
      }

  -- The slot that a worker holds.
  abbrev pub held_by : Shared T → ℕ → Option ℕ
  held_by sh worker = elim (get_elem? sh.active worker) [ none ↦ none | some a ↦ a.slot ]

  unfoldable pub release_worker : Shared T → ℕ → Shared T
  release_worker sh worker =
      let freed = record sh {
        armed = modify sh.armed worker (λ b. false);
        active = modify sh.active worker (λ a. no_claim);
      } in
      elim (held_by sh worker) [
        | none ↦ freed
        | some i ↦ at_slot freed i (λ s. set_state failed (publish_failure panicked s))
      ]

  -- `process` up to the transfer's start; `cached` is the length of a complete cache entry.
  unfoldable pub process_begin : (SlotRequest → Option ℕ) → Shared T → (worker index : ℕ) → Begun T
  unfolding finish
  process_begin cached sh worker index = elim (get_elem? sh.slots index) [
    | none ↦ over sh
    | some s ↦ elim s.request [
      | none ↦ over (finish sh worker index none failed none)
      | some r ↦
          if s.cancel_requested
          then over (finish sh worker index none cancelled none)
          else elim (cached r) [
            | none ↦ wants r
            | some n ↦ over (
                finish
                  (at_slot sh index
                    (λ s. record s { bytes_downloaded = as_i64 n; bytes_total = some (as_i64 n) }))
                  worker index (some r.digest) complete none)
          ]
    ]
  ]

  -- `process` once the transport has started the transfer: a cancel that came meanwhile settles it.
  unfoldable pub process_started : Shared T → (worker index : ℕ) → Option (Shared T)
  unfolding finish
  process_started sh worker index = elim (get_elem? sh.slots index) [
    | none ↦ none
    | some s ↦
        if s.cancel_requested then some (finish sh worker index none cancelled none) else none
  ]

  -- The handle becomes visible.
  unfoldable pub process_show : Shared T → ℕ → Handle → Shared T
  process_show sh worker h = record sh {
    active = modify sh.active worker (λ a. record a { download = some h });
  }

  -- What the flags that are already up ask of the handle.
  unfoldable pub process_asks : Slot T → Bool → Handle → Handle
  process_asks s running h =
      let stopped = if s.cancel_requested || not running then ask_cancel h else h in
      if s.pause_requested then ask_pause stopped else stopped
