-- ===== src/Queue/Session.antt =====
-- crates/updater/src/queue/mod.rs: the callers and the workers of one queue, as a sequence of events
-- in the order in which they take the queue lock or reach a slot outside it.
use mathlib.Core.Option
use retrovert.Common.{
  ℕ, String, Bool, false, ◌&&◌, Option, none, some, List, [], ◌∷◌, is_none, if◌then◌else◌,
  get_elem?, modify,
}
use retrovert.Queue.{State, Failure, SlotRequest, Request, Handle, Active, Shared}
use retrovert.Queue.Slots.{store_progress, at_slot}
use retrovert.Queue.Workers.{
  drain, finish, release_worker, held_by, Begun, over, wants, process_begin, process_started,
  process_show, process_asks,
}
use retrovert.Queue.Transfer.{World, transfer}
use retrovert.Queue.Calls

-- What a caller does; then what the worker of an index does, with what the outside answers it.
pub data Event (T : Type 0) : Type 0 where
  queues : ℕ → Request → (ℕ → Bool) → Event T
  cancels pauses removes : ℕ → Event T
  resumes : ℕ → (ℕ → Bool) → Event T
  drops : Event T
  drains : ℕ → (ℕ → Bool) → Event T
  begins : ℕ → (SlotRequest → Option ℕ) → Event T
  refuses : ℕ → String → Event T
  starts : ℕ → Event T
  shows : ℕ → Handle → Event T
  asks : ℕ → Event T
  progresses : ℕ → ℕ → Option ℕ → Event T
  settles : ℕ → World T → Event T
  panics : ℕ → Event T
  crashes : ℕ → Event T

module _ {T : Type 0} where
  -- An armed worker without a slot drains.
  abbrev pub is_idle : Shared T → ℕ → Bool
  is_idle sh worker = is_set (get_elem? sh.armed worker) && is_free (get_elem? sh.active worker)
    where
      is_set : Option Bool → Bool
      is_set none = false
      is_set (some b) = b

      is_free : Option Active → Bool
      is_free none = false
      is_free (some a) = is_none a.slot

  -- What a worker does with the slot that it holds.
  abbrev pub with_held : Shared T → ℕ → (ℕ → Shared T) → Shared T
  with_held sh worker f = elim (held_by sh worker) [ none ↦ sh | some index ↦ f index ]

  abbrev pub begun : Shared T → Begun T → Shared T
  begun sh (over sh') = sh'
  begun sh (wants r) = sh

  abbrev pub started : Shared T → Option (Shared T) → Shared T
  started sh none = sh
  started sh (some sh') = sh'

  -- `process` reads the flags of its slot and asks them of the handle.
  unfoldable pub ask_flags : Shared T → (worker index : ℕ) → Shared T
  unfolding process_asks
  ask_flags sh worker index = elim (get_elem? sh.slots index) [
    | none ↦ sh
    | some s ↦ record sh {
      active =
          modify sh.active worker
            (λ a. record a { download = Option.map (process_asks s sh.running) a.download });
    }
  ]

  -- The end of `transfer`.
  unfoldable pub settle : (List ℕ → List ℕ) → Shared T → (worker index : ℕ) → World T → Shared T
  unfolding transfer finish
  settle sha sh worker index w = elim (get_elem? sh.slots index) [
    | none ↦ sh
    | some s ↦ elim s.request [
      | none ↦ sh
      | some r ↦ let v = transfer sha r w in finish sh worker index v.digest v.state v.failure
    ]
  ]

module _ {T : Type 0} (sha : List ℕ → List ℕ) where
  unfoldable pub step : Shared T → Event T → Shared T
  step sh (queues now r spawned) = (Calls.queue spawned now sh r).0
  step sh (cancels id) = (Calls.cancel sh id).0
  step sh (pauses id) = (Calls.pause sh id).0
  step sh (removes id) = (Calls.remove sh id).0
  step sh (resumes id spawned) = (Calls.resume spawned sh id).0
  step sh drops = Calls.drop sh
  step sh (drains w spawned) = if is_idle sh w then (drain spawned sh w).0 else sh
  step sh (begins w cached) = with_held sh w (λ i. begun sh (process_begin cached sh w i))
  step sh (refuses w error) =
      with_held sh w (λ i. finish sh w i none State.failed (some (Failure.start error)))
  step sh (starts w) = with_held sh w (λ i. started sh (process_started sh w i))
  step sh (shows w h) = with_held sh w (λ i. process_show sh w h)
  step sh (asks w) = with_held sh w (λ i. ask_flags sh w i)
  step sh (progresses w n total) = with_held sh w (λ i. at_slot sh i (store_progress n total))
  step sh (settles w world) = with_held sh w (λ i. settle sha sh w i world)
  step sh (panics w) = with_held sh w (λ i. finish sh w i none State.failed (some Failure.panicked))
  step sh (crashes w) = release_worker sh w

  unfoldable pub run : Shared T → List (Event T) → Shared T
  run sh [] = sh
  run sh (e ∷ es) = run (step sh e) es
