-- ===== src/Playlist/Transport.antt =====
-- crates/playlist/src/lib.rs: the playback cursor, which the host polls for the next item.
use mathlib.Core.Option
use retrovert.Common.{
  ℕ, ◌+◌, Bool, true, false, ◌&&◌, ◌||◌, Option, none, some, ltb, leb, ◌==◌, is_some, is_none,
  if◌then◌else◌, get_elem?, erase_idx, length, saturating_add, Outcome, returned, panicked,
}
use retrovert.Playlist.Cursors.{start_cursor, is_loop, checked_pred, arrive, is_settled, go}
use retrovert.Playlist.{Item, Playlist, Mode, Advance, Cursor, Engine}
use retrovert.Playlist.Store.{item_index, touch, playlist, playlist_index, item}

module _ {ℓ} {P : Type ℓ} where
  unfoldable pub remove_playlist : Engine P → ℕ → Engine P
  unfolding playlist_index touch
  remove_playlist e id = elim (playlist_index e id) [
    | none ↦ e
    | some index ↦ touch (record e { playlists = erase_idx e.playlists index })
  ]

  abbrev pub any_anonymous : Option (Playlist P) → Bool
  any_anonymous none = false
  any_anonymous (some p) = is_none p.name

  unfoldable pub stop : Engine P → Engine P
  unfolding playlist remove_playlist
  stop e = elim e.cursor [
    | none ↦ e
    | some c ↦
        let e' = record e { cursor = none } in
        if any_anonymous (playlist e' c.playlist) then remove_playlist e' c.playlist else e'
  ]

  -- Where `start` begins in a stored playlist, if it can.
  unfoldable pub start_position : Playlist P → Option ℕ → Option ℕ
  unfolding item_index
  start_position p from =
      if length p.items == 0
      then none
      else elim from [ none ↦ some 0 | some iid ↦ item_index p iid ]

  unfoldable pub start : Engine P → ℕ → Option ℕ → Engine P × Bool
  unfolding stop playlist start_position
  start e pid from = elim (playlist (stop e) pid) [
    | none ↦ (stop e, false)
    | some p ↦ elim (start_position p from) [
      | none ↦ (stop e, false)
      | some position ↦ (
        record (stop e) { mode = Mode.sequential; cursor = some (start_cursor pid position) },
        true,
      )
    ]
  ]

  unfoldable pub set_mode : Engine P → Mode → Engine P
  set_mode e m = record e { mode = m }

  unfoldable pub is_playing : Engine P → Bool
  is_playing e = is_some e.cursor

  unfoldable pub current_item_id : Engine P → Option ℕ
  current_item_id e = elim e.cursor [ none ↦ none | some c ↦ c.current ]

  unfoldable pub current : Engine P → Option (Item P)
  unfolding item
  current e = elim e.cursor [
    | none ↦ none
    | some c ↦ elim c.current [ none ↦ none | some iid ↦ item e c.playlist iid ]
  ]

  -- The position after the current item, or the one that its removal left.
  unfoldable pub after_current : Playlist P → Cursor → ℕ
  unfolding item_index
  after_current p c = elim c.current [
    | none ↦ c.position
    | some iid ↦ elim (item_index p iid) [ none ↦ c.position | some i ↦ i + 1 ]
  ]

  -- `forward_position` in the stored playlist of the cursor.
  unfoldable pub forward_in : Mode → Playlist P → Cursor → Option ℕ
  unfolding after_current
  forward_in m p c =
      if length p.items == 0
      then none
      else if ltb (after_current p c) (length p.items)
      then some (after_current p c)
      else if is_loop m
      then some 0
      else none

  unfoldable pub forward_position : Engine P → Option ℕ
  unfolding playlist forward_in
  forward_position e = elim e.cursor [
    | none ↦ none
    | some c ↦ elim (playlist e c.playlist) [ none ↦ none | some p ↦ forward_in e.mode p c ]
  ]

  unfoldable pub at_current : Playlist P → Cursor → ℕ
  unfolding item_index
  at_current p c = elim c.current [
    | none ↦ c.position
    | some iid ↦ elim (item_index p iid) [ none ↦ c.position | some i ↦ i ]
  ]

  unfoldable pub previous_position : Engine P → Option ℕ
  unfolding playlist at_current
  previous_position e = elim e.cursor [
    | none ↦ none
    | some c ↦ elim (playlist e c.playlist) [ none ↦ none | some p ↦ checked_pred (at_current p c) ]
  ]

  unfoldable pub advance_in : Engine P → Playlist P → Cursor → Advance → Option ℕ
  unfolding forward_position previous_position
  advance_in e p c Advance.start = if ltb c.position (length p.items) then some c.position else none
  advance_in e p c Advance.forward = forward_position e
  advance_in e p c Advance.backward = previous_position e

  -- `target_position`, with the stored playlist in place of its index.
  unfoldable pub target_position : Engine P → Cursor → Advance → Option (Playlist P × ℕ)
  unfolding playlist advance_in
  target_position e c a = elim (playlist e c.playlist) [
    | none ↦ none
    | some p ↦ Option.map (λ position. (p, position)) (advance_in e p c a)
  ]

  -- The index into `items` panics where the position lies past the end.
  unfoldable pub poll : Engine P → Outcome (Engine P × Option (Item P))
  unfolding target_position stop
  poll e = elim e.cursor [
    | none ↦ returned (e, none)
    | some c ↦ elim c.pending [
      | none ↦ returned (e, none)
      | some a ↦ elim (target_position e c a) [
        | none ↦ returned (stop e, none)
        | some (p, position) ↦ elim (get_elem? p.items position) [
          | none ↦ panicked
          | some i ↦ returned (record e { cursor = some (arrive c position i.id) }, some i)
        ]
      ]
    ]
  ]

  unfoldable pub on_finished : Engine P → Engine P
  on_finished e = elim e.cursor [
    | none ↦ e
    | some c ↦ if is_settled c then record e { cursor = some (go Advance.forward c) } else e
  ]

  -- `next` does what `on_finished` does.
  unfoldable pub next : Engine P → Engine P
  next e = elim e.cursor [
    | none ↦ e
    | some c ↦ if is_settled c then record e { cursor = some (go Advance.forward c) } else e
  ]

  unfoldable pub item_count : Engine P → ℕ → ℕ
  unfolding playlist
  item_count e pid = elim (playlist e pid) [ none ↦ 0 | some p ↦ length p.items ]

  -- `on_failed` once the failure is counted.
  unfoldable pub fail_counted : Engine P → Cursor → Engine P
  unfolding item_count
  fail_counted e c =
      let e' = record e { cursor = some c } in
      if is_loop e.mode && leb (item_count e' c.playlist) c.failures
      then stop e'
      else record e { cursor = some (record c { pending = some Advance.forward }) }

  unfoldable pub on_failed : Engine P → Engine P
  on_failed e = elim e.cursor [
    | none ↦ e
    | some c ↦
        if is_none c.current || is_some c.pending
        then e
        else if c.current_removed
        then record e { cursor = some (go Advance.forward c) }
        else fail_counted e (record c { failures = saturating_add c.failures 1 })
  ]

  unfoldable pub previous : Engine P → Engine P
  unfolding previous_position
  previous e = elim (previous_position e) [
    | none ↦ e
    | some _ ↦ elim e.cursor [
      | none ↦ e
      | some c ↦ if is_none c.pending then record e { cursor = some (go Advance.backward c) } else e
    ]
  ]

  unfoldable pub peek_next : Engine P → Option (Item P)
  unfolding forward_position playlist
  peek_next e = elim (forward_position e) [
    | none ↦ none
    | some position ↦ elim e.cursor [
      | none ↦ none
      | some c ↦ elim (playlist e c.playlist) [ none ↦ none | some p ↦ get_elem? p.items position ]
    ]
  ]
