-- ===== src/Playlist/Persist.antt =====
-- crates/playlist/src/lib.rs: saving a playlist and loading it. `serde_json` is not part of the
-- repository, so its three uses are a record of operations that every definition takes.
use retrovert.Common.{
  ℕ, ◌+◌, String, Option, none, some, List, [], ◌∷◌, ◌++◌, length, ◌==◌, if◌then◌else◌, checked_add,
}
use retrovert.Common.Results.{Result, ok, err, ◌>>=◌, map_err}
use retrovert.Playlist.{Item, Engine}
use retrovert.Playlist.Store.{playlist, touch, fresh}

abbrev pub format_version : ℕ
format_version = 2

pub data PersistenceError (J : Type 0) : Type 0 where
  json : J → PersistenceError J
  unsupported_version : ℕ → PersistenceError J
  unknown_playlist id_exhausted : PersistenceError J

pub record WireItem {ℓ} (P : Type ℓ) : Type ℓ where
  pub identity : String
  pub subsong : ℕ
  pub title : String
  pub artist : String
  pub duration_ms : ℕ
  pub payload : P

pub record Document {ℓ} (P : Type ℓ) : Type ℓ where
  pub name : Option String
  pub items : List (WireItem P)

-- `to_vec_pretty` of a `DocumentRef`, and `from_slice` at the two types that are read.
pub record Json {ℓ} (P : Type ℓ) (J : Type 0) : Type ℓ where
  pub write : ℕ → Option String → List (Item P) → Result J (List ℕ)
  pub read_version : List ℕ → Result J ℕ
  pub read_document : List ℕ → Result J (Document P)

module _ {ℓ} {P : Type ℓ} where
  -- A loaded item under the id that it gets.
  abbrev pub loaded_item : ℕ → WireItem P → Item P
  loaded_item id w = record {
    id = id;
    identity = w.identity;
    subsong = w.subsong;
    title = w.title;
    artist = w.artist;
    duration_ms = w.duration_ms;
    payload = w.payload;
  }

  -- The loop over the document's items; the counter is raised before each.
  unfoldable pub number_items : ℕ → List (WireItem P) → List (Item P)
  number_items item_id [] = []
  number_items item_id (w ∷ ws) = loaded_item (item_id + 1) w ∷ number_items (item_id + 1) ws

  -- The end of `from_bytes`: the document is stored as a new playlist.
  unfoldable pub store_document : Engine P → ℕ → ℕ → Document P → Engine P
  unfolding number_items touch
  store_document e next_playlist_id final_item_id d = touch (record e {
    next_playlist_id = next_playlist_id;
    next_item_id = final_item_id;
    playlists =
        e.playlists ++ fresh next_playlist_id d.name (number_items e.next_item_id d.items) ∷ [];
  })

module _ {J : Type 0} where
  abbrev pub ok_or {κ} :
      {A : Type κ} → Option A → PersistenceError J → Result (PersistenceError J) A
  ok_or none e = err e
  ok_or (some a) e = ok a

  unfoldable pub require_version : ℕ → Result (PersistenceError J) (Unit {0})
  require_version v = if v == format_version then ok tt else err (unsupported_version v)

module _ {ℓ} {P : Type ℓ} {J : Type 0} where
  -- `from_bytes` once the document is read: the ids are minted, or nothing changes.
  unfoldable pub load : Engine P → Document P → Result (PersistenceError J) (Engine P × ℕ)
  unfolding store_document
  load e d = do
    next_playlist_id ← ok_or (checked_add e.next_playlist_id 1) id_exhausted
    final_item_id ← ok_or (checked_add e.next_item_id (length d.items)) id_exhausted
    ok (store_document e next_playlist_id final_item_id d, next_playlist_id)

module _ {ℓ} {P : Type ℓ} {J : Type 0} (serde : Json P J) where
  unfoldable pub to_bytes : Engine P → ℕ → Result (PersistenceError J) (List ℕ)
  unfolding playlist
  to_bytes e id = do
    p ← ok_or (playlist e id) unknown_playlist
    map_err json (serde.write format_version p.name p.items)

  unfoldable pub try_from_bytes : Engine P → List ℕ → Result (PersistenceError J) (Engine P × ℕ)
  unfolding load require_version
  try_from_bytes e bytes = do
    version ← map_err json (serde.read_version bytes)
    _ ← require_version version
    document ← map_err json (serde.read_document bytes)
    load e document

  -- The engine after the call, which an error leaves as it was, and the result.
  unfoldable pub from_bytes : Engine P → List ℕ → Engine P × Result (PersistenceError J) ℕ
  unfolding try_from_bytes
  from_bytes e bytes = elim (try_from_bytes e bytes) [
    | ok (e', id) ↦ (e', ok id)
    | err x ↦ (e, err x)
  ]
