-- ===== src/Playlist.antt =====
-- crates/playlist/src/lib.rs: the data that the playlist engine keeps. The newtypes `PlaylistId`
-- and `ItemId` are the numbers that they wrap; a payload is of any type.
pub mod Cursors
pub mod Store
pub mod Items
pub mod Transport
pub mod Persist
pub mod Session
pub mod Minted
pub mod Invariant
pub mod Playback
pub mod Laws
mod Examples
use retrovert.Common.{ℕ, String, Bool, false, Option, none, List, []}

-- Fields that the caller owns, of an item to be appended.
pub record ItemSpec {ℓ} (P : Type ℓ) : Type ℓ where
  pub identity : String
  pub subsong : ℕ
  pub title : String
  pub artist : String
  pub duration_ms : ℕ
  pub payload : P

-- A stored item: the same fields with the id that the engine minted.
pub record Item {ℓ} (P : Type ℓ) : Type ℓ where
  pub id : ℕ
  pub identity : String
  pub subsong : ℕ
  pub title : String
  pub artist : String
  pub duration_ms : ℕ
  pub payload : P

pub record Playlist {ℓ} (P : Type ℓ) : Type ℓ where
  pub id : ℕ
  pub name : Option String
  pub items : List (Item P)
  pub content_revision : ℕ
  pub structure_revision : ℕ
  pub last_saved_revision : ℕ

pub data Mode : Type 0 where
  sequential loop : Mode

pub data Advance : Type 0 where
  start forward backward : Advance

pub record Cursor : Type 0 where
  pub playlist : ℕ
  pub current : Option ℕ
  pub position : ℕ
  pub pending : Option Advance
  pub failures : ℕ
  pub current_removed : Bool

pub record Engine {ℓ} (P : Type ℓ) : Type ℓ where
  pub playlists : List (Playlist P)
  pub next_playlist_id : ℕ
  pub next_item_id : ℕ
  pub revision : ℕ
  pub cursor : Option Cursor
  pub mode : Mode

-- `Engine::new`
unfoldable pub new {ℓ} : {P : Type ℓ} → Engine P
new = record {
  playlists = [];
  next_playlist_id = 0;
  next_item_id = 0;
  revision = 0;
  cursor = none;
  mode = Mode.sequential;
}

-- The item that a spec becomes under an id.
abbrev pub to_item {ℓ} : {P : Type ℓ} → ℕ → ItemSpec P → Item P
to_item id spec = record {
  id = id;
  identity = spec.identity;
  subsong = spec.subsong;
  title = spec.title;
  artist = spec.artist;
  duration_ms = spec.duration_ms;
  payload = spec.payload;
}
