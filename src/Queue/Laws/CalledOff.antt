-- ===== src/Queue/Laws/CalledOff.antt =====
-- crates/updater/src/queue/mod.rs: a cancel that was promised is kept.
use retrovert.Common.{ℕ, ◌≡◌, Bool, true, false, ◌||◌, some, List, [], ◌∷◌, get_elem?}
use retrovert.Queue.{Slot, Shared}
use retrovert.Queue.Policy
use retrovert.Queue.Slots.{is_active}
use retrovert.Queue.Session.{Event, step}
use retrovert.Queue.Machine.{is_doomed}
use retrovert.Queue.Claims.History.{frees, dies}

-- No event of the list frees the slot.
abbrev pub Keeps : {T : Type 0} → ℕ → List (Event T) → Type 0
Keeps i [] = Unit
Keeps i (e ∷ es) = (frees i e ≡ false) × Keeps i es

-- Whether a worker that holds the slot unwinds in one of the events.
abbrev pub died : {T : Type 0} → (List ℕ → List ℕ) → ℕ → Shared T → List (Event T) → Bool
died sha i sh [] = false
died sha i sh (e ∷ es) = dies sh i e || died sha i (step sha sh e) es

module _ {T : Type 0} where
  abbrev Doomed : Shared T → ℕ → Type 0
  Doomed sh i =
      (t : Slot T) × (get_elem? sh.slots i ≡ some t)
      × (is_doomed false (is_active sh.active i) t ≡ true)
