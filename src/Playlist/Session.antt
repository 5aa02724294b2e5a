-- ===== src/Playlist/Session.antt =====
-- crates/playlist/src/lib.rs: a history of calls on one engine.
use retrovert.Common.{ℕ, String, Option, List, [], ◌∷◌, Outcome, returned, panicked}
use retrovert.Common.Results.{Result, ok, err}
use retrovert.Playlist.{ItemSpec, Item, Mode, Engine}
use retrovert.Playlist.Store
use retrovert.Playlist.Items
use retrovert.Playlist.Transport
use retrovert.Playlist.Persist.{Document, PersistenceError, load}

-- Every public method that takes `&mut self`; `loads` is a `from_bytes` that could read its input.
pub data Call {ℓ} (P : Type ℓ) : Type ℓ where
  creates : Option String → Call P
  deletes : ℕ → Call P
  renames : ℕ → Option String → Call P
  touches : ℕ → Call P
  appends : ℕ → ItemSpec P → Call P
  edits : ℕ → ℕ → (Item P → Item P) → Call P
  removes : ℕ → ℕ → Call P
  moves : ℕ → ℕ → Option ℕ → Call P
  saves : ℕ → Call P
  saves_revision : ℕ → ℕ → Call P
  loads : Document P → Call P
  starts : ℕ → Option ℕ → Call P
  stops : Call P
  sets_mode : Mode → Call P
  polls : Call P
  finishes : Call P
  fails : Call P
  goes_next : Call P
  goes_back : Call P

module _ {ℓ} {P : Type ℓ} where
  abbrev pub loaded : Engine P → Result (PersistenceError (Unit {0})) (Engine P × ℕ) → Engine P
  loaded e (ok (e', id)) = e'
  loaded e (err x) = e

  abbrev pub polled : Outcome (Engine P × Option (Item P)) → Outcome (Engine P)
  polled (returned (e, i)) = returned e
  polled panicked = panicked

  unfoldable pub step : Engine P → Call P → Outcome (Engine P)
  step e (creates name) = returned (Store.create e name).0
  step e (deletes id) = returned (Store.delete e id).0
  step e (renames id name) = returned (Store.rename e id name).0
  step e (touches id) = returned (Store.touch_structure_preserving_dirty e id).0
  step e (appends id spec) = returned (Items.append e id spec).0
  step e (edits pid iid edit) = returned (Items.edit_item e pid iid edit).0
  step e (removes pid iid) = returned (Items.remove_item e pid iid).0
  step e (moves pid iid after) = returned (Items.move_item e pid iid after).0
  step e (saves id) = returned (Items.mark_saved e id).0
  step e (saves_revision id revision) = returned (Items.mark_revision_saved e id revision).0
  step e (loads d) = returned (loaded e (load e d))
  step e (starts pid from) = returned (Transport.start e pid from).0
  step e stops = returned (Transport.stop e)
  step e (sets_mode m) = returned (Transport.set_mode e m)
  step e polls = polled (Transport.poll e)
  step e finishes = returned (Transport.on_finished e)
  step e fails = returned (Transport.on_failed e)
  step e goes_next = returned (Transport.next e)
  step e goes_back = returned (Transport.previous e)

  -- The calls in turn, up to a panic.
  unfoldable pub run : Engine P → List (Call P) → Outcome (Engine P)
  run e [] = returned e
  run e (c ∷ cs) = elim (step e c) [ returned e' ↦ run e' cs | panicked ↦ panicked ]
