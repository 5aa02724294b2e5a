-- ===== src/Playlist/Playback.antt =====
-- crates/playlist/src/lib.rs: what a host hears that polls, plays and reports until nothing is left.
pub mod Through
pub mod Drains
pub mod Complete
pub mod Polls
pub mod Panics
use retrovert.Common.{ℕ, zero, suc, Option, none, some, List, [], ◌∷◌, Outcome, returned, panicked}
use retrovert.Playlist.{Item, Engine}
use retrovert.Playlist.Transport.{poll}

module _ {ℓ} {P : Type ℓ} where
  abbrev pub played :
      Item P → Outcome (List (Item P) × Engine P) → Outcome (List (Item P) × Engine P)
  played i (returned (is, e)) = returned (i ∷ is, e)
  played i panicked = panicked

  -- At most `fuel` polls; the host reports on each item by `report` before it polls again.
  pub drain : (Engine P → Engine P) → ℕ → Engine P → Outcome (List (Item P) × Engine P)
  drain report zero e = returned ([], e)
  drain report (suc fuel) e = elim (poll e) [
    | returned (e', some i) ↦ played i (drain report fuel (report e'))
    | returned (e', none) ↦ returned ([], e')
    | panicked ↦ panicked
  ]
