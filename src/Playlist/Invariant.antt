-- ===== src/Playlist/Invariant.antt =====
-- What holds of an engine between two calls, and what it takes to keep it.
pub mod Parts
pub mod Edits
pub mod Shifts
pub mod Saves
pub mod Removals
pub mod Moves
pub mod Outcomes
pub mod History
use mathlib.Core.Option
use retrovert.Common.{
  ℕ, zero, suc, ◌+◌, ◌≤◌, ◌<◌, ◌≡◌, ◌≢◌, refl, Bool, true, false, not, Option, none, some, List, [],
  ◌∷◌, ◌++◌, arith, ◌==◌, ==_iff, if◌then◌else◌, is_none, modify, erase_idx, find, inl, inr,
  u64_max, position,
}
use retrovert.Common.Positions.{absent, find-modify, find-append, find-some, position-modify}
use retrovert.Playlist.{Item, Playlist, Advance, Cursor, Engine, new}
use retrovert.Playlist.Store.{touch, change, playlist}
use retrovert.Playlist.Minted.{item_ids, Minted, Minted-mono}

module _ {ℓ} {P : Type ℓ} where
  -- The ids rise along the list, above `lo` and up to `hi`.
  abbrev pub Ascends : ℕ → List (Playlist P) → ℕ → Type 0
  Ascends lo [] hi = lo ≤ hi
  Ascends lo (p ∷ ps) hi = (lo < p.id) × Ascends p.id ps hi

  pub record RevisionsOk (p : Playlist P) : Type 0 where
    pub content_fits : p.content_revision ≤ u64_max
    pub structure_le : p.structure_revision ≤ p.content_revision
    pub saved_le : p.last_saved_revision ≤ p.content_revision

  abbrev pub AllRevisionsOk : List (Playlist P) → Type 0
  AllRevisionsOk [] = Unit
  AllRevisionsOk (p ∷ ps) = RevisionsOk p × AllRevisionsOk ps

  -- The item is not in the playlist.
  abbrev pub is_gone : ℕ → Playlist P → Bool
  is_gone iid p = absent (λ i. i.id == iid) p.items

  abbrev pub current_gone : Option ℕ → Playlist P → Bool
  current_gone none p = false
  current_gone (some iid) p = is_gone iid p

abbrev pub is_starting : Option Advance → Bool
is_starting (some Advance.start) = true
is_starting _ = false

abbrev pub FitsCurrent : ℕ → Option ℕ → Type 0
FitsCurrent n none = Unit
FitsCurrent n (some iid) = iid ≤ n

module _ {ℓ} {P : Type ℓ} where
  -- The cursor has no current item exactly until the first poll, and knows whether its current item
  -- was removed from the playlist that it plays.
  pub record Tracks (n : ℕ) (p : Playlist P) (c : Cursor) : Type 0 where
    pub waiting : is_starting c.pending ≡ is_none c.current
    pub removed : c.current_removed ≡ current_gone c.current p
    pub current_fits : FitsCurrent n c.current
    pub failures_fit : c.failures ≤ u64_max

  abbrev pub Plays : ℕ → List (Playlist P) → Option Cursor → Type ℓ
  Plays n ps none = Unit
  Plays n ps (some c) =
      (p : Playlist P) × (find (λ q. q.id == c.playlist) ps ≡ some p) × Tracks n p c

  pub record Inv (e : Engine P) : Type ℓ where
    pub ids_ascend : Ascends 0 e.playlists e.next_playlist_id
    pub ids_fit : e.next_playlist_id ≤ u64_max
    pub items_minted : Minted e.next_item_id (item_ids e.playlists)
    pub items_fit : e.next_item_id ≤ u64_max
    pub revision_fits : e.revision ≤ u64_max
    pub revisions : AllRevisionsOk e.playlists
    pub plays : Plays e.next_item_id e.playlists e.cursor

  -- A change of one playlist that the invariant allows, where the item ids up to `n` were minted.
  pub record Keeps (n : ℕ) (f : Playlist P → Playlist P) : Type ℓ where
    pub keeps_id : (p : Playlist P) → (f p).id ≡ p.id
    pub keeps_revisions : (p : Playlist P) → RevisionsOk p → RevisionsOk (f p)
    pub keeps_items : (p : Playlist P) (iid : ℕ) → iid ≤ n → is_gone iid (f p) ≡ is_gone iid p
