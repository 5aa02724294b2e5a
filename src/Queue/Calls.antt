-- ===== src/Queue/Calls.antt =====
-- crates/updater/src/queue/mod.rs: the methods of `TransferQueue`, each one hold of the queue lock.
use mathlib.Core.Option
use retrovert.Common.{
  ℕ, zero, suc, ◌+◌, Bool, true, false, not, Option, none, some, List, [], ◌∷◌, map, if◌then◌else◌,
  get_elem?, position, min, max,
}
use retrovert.Queue.{
  Priority, pending, Request, Slot, Active, Shared, queue_max, empty_slot, no_claim,
}
use retrovert.Queue.Policy
use retrovert.Queue.Slots.{
  snapshot, snapshot_all, apply, at_slot, claimed, is_active, has_idle_worker, ask_cancel,
  ask_pause, ask,
}
use retrovert.Queue.Workers.{arm_workers}

-- `vec![value; n]`
abbrev pub replicate : {A : Type 0} → ℕ → A → List A
replicate zero a = []
replicate (suc n) a = a ∷ replicate n a

abbrev pub cancel_download : Active → Active
cancel_download a = record a { download = Option.map ask_cancel a.download }

module _ {T : Type 0} where
  -- `TransferQueue::with_config`
  unfoldable pub with_config : ℕ → Shared T
  with_config workers =
      let n = max 1 (min workers queue_max) in
      record {
        slots = replicate queue_max empty_slot;
        running = true;
        armed = replicate n false;
        active = replicate n no_claim;
      }

  -- The flag, and the handle if there is one.
  unfoldable pub request_pause : Shared T → ℕ → Shared T
  unfolding ask
  request_pause sh index = record (at_slot sh index (λ s. record s { pause_requested = true })) {
    active = ask ask_pause index sh.active;
  }

  -- A slot as a request fills it.
  unfoldable pub filled : Request → ℕ → Slot T → Slot T
  filled r now s = record s {
    in_use = true;
    priority = r.priority;
    state = pending;
    cancel_requested = false;
    pause_requested = false;
    queue_time_ms = now;
    bytes_downloaded = 0;
    bytes_total = none;
    request = some r.wanted;
    path = none;
    failure = none;
  }

  -- The background transfer that is to yield is marked and asked to pause.
  unfoldable pub preempt : Shared T → Priority → Shared T
  unfolding claimed has_idle_worker Policy.preempt_for_user request_pause
  preempt sh priority =
      let (es, target) =
        Policy.preempt_for_user (snapshot_all sh.slots) (claimed sh.active) priority
          (has_idle_worker sh.active) in
      elim target [
        | none ↦ sh
        | some t ↦ elim (get_elem? es t) [
          | none ↦ sh
          | some e ↦ request_pause (at_slot sh t (apply e)) t
        ]
      ]

  unfoldable pub queue : (ℕ → Bool) → ℕ → Shared T → Request → Shared T × Option ℕ
  unfolding filled preempt arm_workers
  queue spawned now sh r = elim (position (λ s. not s.in_use) sh.slots) [
    | none ↦ (sh, none)
    | some i ↦ (arm_workers spawned (preempt (at_slot sh i (filled r now)) r.priority), some i)
  ]

  -- An index that no call of `queue` returned is out of bounds: the call would panic, and the model
  -- changes nothing.
  unfoldable pub cancel : Shared T → ℕ → Shared T × Bool
  unfolding Policy.cancel is_active ask
  cancel sh id = elim (get_elem? sh.slots id) [
    | none ↦ (sh, false)
    | some s ↦
        let active = is_active sh.active id in
        let (e, applies) = Policy.cancel (snapshot s) active in
        let written = at_slot sh id (apply e) in
        if not applies
        then (sh, false)
        else if active
        then (
          record (at_slot written id (λ s. record s { cancel_requested = true })) {
            active = ask ask_cancel id sh.active;
          },
          true,
        )
        else (written, true)
  ]

  unfoldable pub pause : Shared T → ℕ → Shared T × Bool
  unfolding Policy.pause is_active request_pause
  pause sh id = elim (get_elem? sh.slots id) [
    | none ↦ (sh, false)
    | some s ↦
        if Policy.pause (snapshot s) (is_active sh.active id)
        then (request_pause sh id, true)
        else (sh, false)
  ]

  unfoldable pub resume : (ℕ → Bool) → Shared T → ℕ → Shared T × Bool
  unfolding Policy.resume arm_workers
  resume spawned sh id = elim (get_elem? sh.slots id) [
    | none ↦ (sh, false)
    | some s ↦
        let (e, applies) = Policy.resume (snapshot s) in
        if applies then (arm_workers spawned (at_slot sh id (apply e)), true) else (sh, false)
  ]

  unfoldable pub remove : Shared T → ℕ → Shared T × Bool
  unfolding Policy.remove is_active
  remove sh id = elim (get_elem? sh.slots id) [
    | none ↦ (sh, false)
    | some s ↦
        let (e, applies) = Policy.remove (snapshot s) (is_active sh.active id) in
        if applies then (at_slot sh id (apply e), true) else (sh, false)
  ]

  -- A call at each index below the bound in turn, and how many took it.
  unfoldable pub each : (Shared T → ℕ → Shared T × Bool) → ℕ → ℕ → Shared T → Shared T × ℕ
  each call i zero sh = (sh, 0)
  each call i (suc n) sh =
      let (sh', took) = call sh i in
      let (sh'', count) = each call (suc i) n sh' in (sh'', if took then count + 1 else count)

  unfoldable pub cancel_all : Shared T → Shared T × ℕ
  unfolding each cancel
  cancel_all sh = each cancel 0 queue_max sh

  unfoldable pub pause_all : Shared T → Shared T × ℕ
  unfolding each pause
  pause_all sh = each pause 0 queue_max sh

  unfoldable pub resume_all : (ℕ → Bool) → Shared T → Shared T × ℕ
  unfolding each resume
  resume_all spawned sh = each (resume spawned) 0 queue_max sh

  -- `Drop`, up to the joins.
  unfoldable pub drop : Shared T → Shared T
  drop sh = record sh { running = false; active = map cancel_download sh.active }
