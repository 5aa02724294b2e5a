-- ===== src/Queue/Laws/Held.antt =====
-- crates/updater/src/queue/mod.rs: a worker holds the slot of every running transfer.
use retrovert.Common.{
  ℕ, zero, suc, ◌<◌, ◌≡◌, refl, Bool, true, false, some, List, [], ◌∷◌, get_elem?, arith, min, max,
}
use retrovert.Queue.{Slot, Shared, queue_max, empty_slot, no_claim}
use retrovert.Queue.Slots.{is_active}
use retrovert.Queue.Session.{Event, step, run}
use retrovert.Queue.Calls.{with_config, replicate}
use retrovert.Queue.Machine.{Allowed, Moves, stays, moves, sound, Move-sound}
use retrovert.Queue.Claims.History.{step-Advances}

replicate-is_active : (n i : ℕ) → is_active (replicate n no_claim) i ≡ false
unfolding is_active
replicate-is_active zero i = refl
replicate-is_active (suc n) i = replicate-is_active n i

module _ {T : Type 0} where
  pub Moves-sound :
      {f : Allowed} {a b : Bool} {s t : Slot T}
      → Moves f a s b t
      → sound a s ≡ true
      → sound b t ≡ true
  Moves-sound stays v = v
  Moves-sound (moves m ms) v = Moves-sound ms (Move-sound m v)

  replicate-get : (n i : ℕ) (x : Slot T) → i < n → get_elem? (replicate n x) i ≡ some x
  replicate-get zero i x l = absurd (omega arith)
  replicate-get (suc n) zero x l = refl
  replicate-get (suc n) (suc i) x l = replicate-get n i x (omega arith)

  module _ (sha : List ℕ → List ℕ) where
    run-sound :
        (es : List (Event T)) (sh : Shared T) (i : ℕ) (s : Slot T)
        → get_elem? sh.slots i ≡ some s
        → sound (is_active sh.active i) s ≡ true
        → (t : Slot T) × (get_elem? (run sha sh es).slots i ≡ some t)
          × (sound (is_active (run sha sh es).active i) t ≡ true)
    unfolding run
    run-sound [] sh i s h v = (s, h, v)
    run-sound (e ∷ es) sh i s h v =
        let (t, h', m) = step-Advances sha sh e i s h in
        run-sound es (step sha sh e) i t h' (Moves-sound m v)

    -- After any calls and any work on a new queue, with any number of workers and whatever the outside
    -- answers, each of its 32 slots is in use if a worker holds it, and held if it is downloading.
    pub run-with_config-sound :
        (workers : ℕ) (es : List (Event T)) (i : ℕ)
        → i < queue_max
        → (t : Slot T) × (get_elem? (run sha (with_config workers) es).slots i ≡ some t)
          × (sound (is_active (run sha (with_config workers) es).active i) t ≡ true)
    unfolding with_config
    run-with_config-sound workers es i l =
        run-sound es (with_config workers) i empty_slot (replicate-get queue_max i empty_slot l)
          (rw (replicate-is_active (max 1 (min workers queue_max)) i) refl)
