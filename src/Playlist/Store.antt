-- ===== src/Playlist/Store.antt =====
-- crates/playlist/src/lib.rs: reading and changing stored playlists. A method returns the engine
-- that it leaves beside its result.
use text.Mathlib.Text.{◌==◌ as str_eq}
use mathlib.Core.Option
use retrovert.Common.{
  ℕ, String, Bool, true, false, not, Option, none, some, List, [], ◌∷◌, ◌++◌, ◌==◌, opt_eq, is_none,
  if◌then◌else◌, get_elem?, modify, erase_idx, find, position, saturating_add, checked_add,
}
use retrovert.Playlist.{Item, Playlist, Engine}

-- `Option<String> == Option<String>`
abbrev pub name_eq : Option String → Option String → Bool
name_eq none none = true
name_eq none (some b) = false
name_eq (some a) none = false
name_eq (some a) (some b) = str_eq a b

module _ {ℓ} {P : Type ℓ} where
  -- `Playlist::item`
  unfoldable pub item_of : Playlist P → ℕ → Option (Item P)
  item_of p id = find (λ i. i.id == id) p.items

  unfoldable pub item_index : Playlist P → ℕ → Option ℕ
  item_index p id = position (λ i. i.id == id) p.items

  unfoldable pub is_dirty : Playlist P → Bool
  is_dirty p = not (p.content_revision == p.last_saved_revision)

  unfoldable pub is_anonymous : Playlist P → Bool
  is_anonymous p = is_none p.name

  unfoldable pub touch_content : Playlist P → Playlist P
  touch_content p = record p { content_revision = saturating_add p.content_revision 1 }

  unfoldable pub touch_structure : Playlist P → Playlist P
  unfolding touch_content
  touch_structure p = record (touch_content p) {
    structure_revision = saturating_add p.structure_revision 1;
  }

  -- `Engine::touch`
  unfoldable pub touch : Engine P → Engine P
  touch e = record e { revision = saturating_add e.revision 1 }

  unfoldable pub playlist : Engine P → ℕ → Option (Playlist P)
  playlist e id = find (λ p. p.id == id) e.playlists

  unfoldable pub playlist_index : Engine P → ℕ → Option ℕ
  playlist_index e id = position (λ p. p.id == id) e.playlists

  -- `Engine::item`
  unfoldable pub item : Engine P → ℕ → ℕ → Option (Item P)
  unfolding playlist item_of
  item e pid iid = elim (playlist e pid) [ none ↦ none | some p ↦ item_of p iid ]

  unfoldable pub playing_playlist : Engine P → Option ℕ
  playing_playlist e = Option.map (λ c. c.playlist) e.cursor

  -- `self.playlists[index]` changed in place, and `self.touch()`.
  abbrev pub change : Engine P → ℕ → (Playlist P → Playlist P) → Engine P
  change e index f = touch (record e { playlists = modify e.playlists index f })

  -- The counter only moves when the id fits.
  unfoldable pub mint_playlist_id : Engine P → Option (ℕ × Engine P)
  mint_playlist_id e =
      Option.map (λ n. (n, record e { next_playlist_id = n })) (checked_add e.next_playlist_id 1)

  unfoldable pub mint_item_id : Engine P → Option (ℕ × Engine P)
  mint_item_id e =
      Option.map (λ n. (n, record e { next_item_id = n })) (checked_add e.next_item_id 1)

  -- A playlist as it is first stored.
  abbrev pub fresh : ℕ → Option String → List (Item P) → Playlist P
  fresh id name items = record {
    id = id;
    name = name;
    items = items;
    content_revision = 0;
    structure_revision = 0;
    last_saved_revision = 0;
  }

  unfoldable pub create : Engine P → Option String → Engine P × Option ℕ
  unfolding mint_playlist_id touch
  create e name = elim (mint_playlist_id e) [
    | none ↦ (e, none)
    | some (id, e') ↦
        (touch (record e' { playlists = e'.playlists ++ fresh id name [] ∷ [] }), some id)
  ]

  unfoldable pub delete : Engine P → ℕ → Engine P × Bool
  unfolding playlist_index playing_playlist touch
  delete e id = elim (playlist_index e id) [
    | none ↦ (e, false)
    | some index ↦ (
      touch (record e {
        cursor = if opt_eq (playing_playlist e) (some id) then none else e.cursor;
        playlists = erase_idx e.playlists index;
      }),
      true,
    )
  ]

  -- The stored name of the playlist at an index that a search found.
  abbrev pub has_name : Engine P → ℕ → Option String → Bool
  has_name e index name = elim (get_elem? e.playlists index) [
    | none ↦ false
    | some p ↦ name_eq p.name name
  ]

  unfoldable pub rename : Engine P → ℕ → Option String → Engine P × Bool
  unfolding playlist_index touch_structure touch
  rename e id name = elim (playlist_index e id) [
    | none ↦ (e, false)
    | some index ↦
        if has_name e index name
        then (e, false)
        else (change e index (λ p. touch_structure (record p { name = name })), true)
  ]

  -- The playlist part of `touch_structure_preserving_dirty`.
  unfoldable pub touch_preserving : Playlist P → Playlist P
  unfolding is_dirty touch_structure
  touch_preserving p =
      let q = touch_structure p in
      if is_dirty p then q else record q { last_saved_revision = q.content_revision }

  unfoldable pub touch_structure_preserving_dirty : Engine P → ℕ → Engine P × Bool
  unfolding playlist_index touch_preserving touch
  touch_structure_preserving_dirty e id = elim (playlist_index e id) [
    | none ↦ (e, false)
    | some index ↦ (change e index touch_preserving, true)
  ]
