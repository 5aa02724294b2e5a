-- ===== src/Playlist/Items.antt =====
-- crates/playlist/src/lib.rs: the items of a stored playlist, and what was saved of it.
use mathlib.Core.Option
use retrovert.Common.{
  ℕ, ◌+◌, Bool, true, false, Option, none, some, List, [], ◌∷◌, ◌++◌, ltb, ◌==◌, opt_eq,
  if◌then◌else◌, get_elem?, modify, erase_idx, insert_idx, max,
}
use retrovert.Playlist.Cursors.{note_removed, adjusted}
use retrovert.Playlist.{ItemSpec, Item, Playlist, Engine, to_item}
use retrovert.Playlist.Store.{
  item_index, touch_content, touch_structure, touch, playlist_index, change, mint_item_id,
}

module _ {ℓ} {P : Type ℓ} where
  -- `items.push` and `touch_content`.
  unfoldable pub push_item : Item P → Playlist P → Playlist P
  unfolding touch_content
  push_item i p = touch_content (record p { items = p.items ++ i ∷ [] })

  unfoldable pub append : Engine P → ℕ → ItemSpec P → Engine P × Option ℕ
  unfolding playlist_index mint_item_id push_item touch
  append e id spec = elim (playlist_index e id) [
    | none ↦ (e, none)
    | some index ↦ elim (mint_item_id e) [
      | none ↦ (e, none)
      | some (iid, e') ↦ (change e' index (push_item (to_item iid spec)), some iid)
    ]
  ]

  -- The index of an item within the playlist at an index.
  unfoldable pub index_within : Engine P → ℕ → ℕ → Option ℕ
  unfolding item_index
  index_within e index iid = elim (get_elem? e.playlists index) [
    | none ↦ none
    | some p ↦ item_index p iid
  ]

  unfoldable pub edit_at : ℕ → (Item P → Item P) → Playlist P → Playlist P
  unfolding touch_structure
  edit_at i edit p = touch_structure (record p { items = modify p.items i edit })

  unfoldable pub edit_item : Engine P → ℕ → ℕ → (Item P → Item P) → Engine P × Bool
  unfolding playlist_index index_within edit_at touch
  edit_item e pid iid edit = elim (playlist_index e pid) [
    | none ↦ (e, false)
    | some index ↦ elim (index_within e index iid) [
      | none ↦ (e, false)
      | some i ↦ (change e index (edit_at i edit), true)
    ]
  ]

  unfoldable pub erase_at : ℕ → Playlist P → Playlist P
  unfolding touch_structure
  erase_at i p = touch_structure (record p { items = erase_idx p.items i })

  unfoldable pub remove_item : Engine P → ℕ → ℕ → Engine P × Bool
  unfolding playlist_index index_within note_removed erase_at touch
  remove_item e pid iid = elim (playlist_index e pid) [
    | none ↦ (e, false)
    | some index ↦ elim (index_within e index iid) [
      | none ↦ (e, false)
      | some i ↦ (
        change (record e { cursor = Option.map (note_removed pid iid i) e.cursor }) index
            (erase_at i),
        true,
      )
    ]
  ]

  -- `items.remove(from)` and `items.insert(to, moved)`.
  unfoldable pub shift : ℕ → ℕ → List (Item P) → List (Item P)
  shift from to items = elim (get_elem? items from) [
    | none ↦ items
    | some moved ↦ insert_idx (erase_idx items from) to moved
  ]

  unfoldable pub shift_at : ℕ → ℕ → Playlist P → Playlist P
  unfolding shift touch_structure
  shift_at from to p = touch_structure (record p { items = shift from to p.items })

  -- Where `move_item` is to put the item, counted before it is taken out.
  unfoldable pub destination : Engine P → ℕ → Option ℕ → Option ℕ
  unfolding index_within
  destination e index none = some 0
  destination e index (some after) = Option.map (λ i. i + 1) (index_within e index after)

  unfoldable pub move_item : Engine P → ℕ → ℕ → Option ℕ → Engine P × Bool
  unfolding playlist_index index_within destination shift_at touch
  move_item e pid iid after =
      if opt_eq after (some iid) then (e, false) else elim (playlist_index e pid) [
        | none ↦ (e, false)
        | some index ↦ elim (index_within e index iid) [
          | none ↦ (e, false)
          | some from ↦ elim (destination e index after) [
            | none ↦ (e, false)
            | some to ↦
                if adjusted from to == from
                then (e, false)
                else (change e index (shift_at from (adjusted from to)), true)
          ]
        ]
      ]

  unfoldable pub acknowledge : ℕ → Playlist P → Playlist P
  acknowledge revision p = record p { last_saved_revision = max p.last_saved_revision revision }

  abbrev pub revision_at : Engine P → ℕ → ℕ
  revision_at e index = elim (get_elem? e.playlists index) [
    | none ↦ 0
    | some p ↦ p.content_revision
  ]

  unfoldable pub mark_revision_saved : Engine P → ℕ → ℕ → Engine P × Bool
  unfolding playlist_index acknowledge
  mark_revision_saved e id revision = elim (playlist_index e id) [
    | none ↦ (e, false)
    | some index ↦
        if ltb (revision_at e index) revision
        then (e, false)
        else (record e { playlists = modify e.playlists index (acknowledge revision) }, true)
  ]

  unfoldable pub mark_saved : Engine P → ℕ → Engine P × Bool
  unfolding playlist_index
  mark_saved e id = elim (playlist_index e id) [
    | none ↦ (e, false)
    | some index ↦ mark_revision_saved e id (revision_at e index)
  ]
