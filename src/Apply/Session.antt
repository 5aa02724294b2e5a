-- ===== src/Apply/Session.antt =====
-- crates/updater/src/apply: the applies of a process and the collections of its install root, one after
-- another. An apply that is killed is one whose process ends; the next call is another process's.
use retrovert.Common.{ℕ, List, [], ◌∷◌}
use retrovert.Queue.{Priority}
use retrovert.Manifest.{Text}
use retrovert.Manifest.Plan.{Plan}
use retrovert.Apply.Install.{Json, Root, Removal, retain}
use retrovert.Apply.Publish.{Site, apply}

pub data Event (T : Type 0) : Type 0 where
  applies : Site T → Plan → Event T
  collects : (live : List Text) → (Text → Removal) → (ids : List Text) → Event T

module _ {B T : Type 0} (sha : List ℕ → List ℕ) (json : Json B) (base : Text)
    (priority : Priority) where
  unfoldable pub step : Root B → Event T → Root B
  unfolding apply retain
  step root (applies site p) = (apply sha json base priority site p root).0
  step root (collects live removals ids) = (retain {T = T} live removals [] ids root).0

  unfoldable pub run : Root B → List (Event T) → Root B
  unfolding step
  run root [] = root
  run root (e ∷ es) = run (step root e) es
