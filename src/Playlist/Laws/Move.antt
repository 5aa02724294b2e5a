-- ===== src/Playlist/Laws/Move.antt =====
-- crates/playlist/src/lib.rs: `move_item` puts an item at the front or right after another one.
use mathlib.Core.Option
use mathlib.Core.List.{Nodup, Perm}
use mathlib.Core.List.Perm
use retrovert.Common.{
  ℕ, ◌+◌, ◌-◌, ◌<◌, ◌≡◌, ◌≢◌, refl, ap, sym, subst, ◌∙◌, Bool, true, false, Option, none, some,
  List, arith, ◌==◌, ltb, if◌then◌else◌, opt_eq, get_elem?, modify, erase_idx, position, length,
  Bool-cases, Option-cases, inl, inr,
}
use retrovert.Common.Positions.{position-some, position-lt, find-modify_self}
use retrovert.Common.Moved.{
  position-insert, position-insert_ne, position-erase_ne, length-erase, insert-perm, erase-perm,
}
use retrovert.Playlist.{Item, Playlist, Engine}
use retrovert.Playlist.Cursors.{adjusted}
use retrovert.Playlist.Store.{item_index, playlist, playlist_index, touch}
use retrovert.Playlist.Items.{index_within, shift, shift_at, destination, move_item}
use retrovert.Playlist.Minted.{ids, absent-erase_self}
use retrovert.Playlist.Invariant.{Inv}
use retrovert.Playlist.Playback.Complete.{playlist-Nodup}

module _ {ℓ} {P : Type ℓ} where
  -- The item stands where it was asked to be.
  abbrev pub StandsAfter : Option ℕ → ℕ → Playlist P → Type 0
  StandsAfter none iid p = item_index p iid ≡ some 0
  StandsAfter (some after) iid p =
      (k : ℕ) × (item_index p after ≡ some k) × (item_index p iid ≡ some (k + 1))

  shift-perm_items : (from to : ℕ) (xs : List (Item P)) → Perm (shift from to xs) xs
  unfolding shift
  shift-perm_items from to xs = elim (Option-cases (get_elem? xs from)) [
    | inl none_there ↦ rw (none_there, shift) (Perm.refl xs)
    | inr (a, there) ↦
        rw (there, shift)
          (Perm.trans (insert-perm (erase_idx xs from) to a) (erase-perm xs from a there))
  ]

  abbrev by_id : ℕ → Item P → Bool
  by_id iid i = i.id == iid

  -- The moved item is found where it was put.
  position-shift_self :
      (xs : List (Item P)) (iid from to : ℕ)
      → Nodup (ids xs)
      → position (by_id iid) xs ≡ some from
      → to < length xs
      → position (by_id iid) (shift from to xs) ≡ some to
  unfolding shift
  position-shift_self xs iid from to d at h =
      let (a, there, own, _) = position-some (by_id iid) xs from at in
      let gone = absent-erase_self iid xs from d at in
      let size = length-erase xs from (position-lt (by_id iid) xs from at) in
      rw (there, shift)
        (position-insert (by_id iid) (erase_idx xs from) to a own gone (omega arith))

  -- The item that it was put after is found right before it.
  position-shift_after :
      (xs : List (Item P)) (iid after from k : ℕ)
      → iid ≢ after
      → position (by_id iid) xs ≡ some from
      → position (by_id after) xs ≡ some k
      → (j : ℕ) × (position (by_id after) (shift from (adjusted from (k + 1)) xs) ≡ some j)
        × (adjusted from (k + 1) ≡ j + 1)
  unfolding shift
  position-shift_after xs iid after from k other at at' =
      let (a, there, own, _) = position-some (by_id iid) xs from at in
      let (b, there', own', _) = position-some (by_id after) xs k at' in
      let miss : by_id after a ≡ false = ground arith in
      let apart : from ≢ k = λ e. other (ground arith) in
      let erased =
        position-erase_ne (by_id after) xs from k a there miss (λ e. apart (sym e)) at' in
      (
        if ltb k from then k else k - 1,
        rw (there, shift)
            (position-insert_ne (by_id after) (erase_idx xs from) (adjusted from (k + 1))
                (if ltb k from then k else k - 1) a miss erased
              ∙ ground arith),
        ground arith,
      )

  pub index_within-found :
      (e : Engine P) (i iid : ℕ) (p : Playlist P)
      → get_elem? e.playlists i ≡ some p
      → index_within e i iid ≡ item_index p iid
  unfolding index_within
  index_within-found e i iid p at = rw (at, index_within)

  pub playlist-change :
      (e : Engine P) (pid i : ℕ) (f : Playlist P → Playlist P)
      → ((p : Playlist P) → (f p).id ≡ p.id)
      → playlist_index e pid ≡ some i
      → (p : Playlist P) × (get_elem? e.playlists i ≡ some p)
        × (playlist e pid ≡ some p)
        × (playlist (touch (record e { playlists = modify e.playlists i f })) pid ≡ some (f p))
  unfolding playlist playlist_index touch
  playlist-change e pid i f same at =
      let (p, there, _, found) = position-some (λ (q : Playlist P). q.id == pid) e.playlists i at in
      (
        p,
        there,
        found,
        find-modify_self (λ (q : Playlist P). q.id == pid) f (λ a. ap (λ n. n == pid) (same a))
              e.playlists i at
            ∙ ap (Option.map f) found,
      )

  shift_at-stands :
      (after : Option ℕ) (iid from to : ℕ) (p : Playlist P)
      → Nodup (ids p.items)
      → opt_eq after (some iid) ≡ false
      → item_index p iid ≡ some from
      → elim after [ none ↦ some 0 | some aid ↦ Option.map (λ k. k + 1) (item_index p aid) ]
        ≡ some to
      → StandsAfter after iid (shift_at from (adjusted from to) p)
  unfolding shift_at item_index
  shift_at-stands none iid from to p d other at dest =
      let zero_there : adjusted from to ≡ 0 = ground arith in
      rw zero_there (
        position-shift_self p.items iid from 0 d at
          (omega (arith, position-lt (by_id iid) p.items from at)))
  shift_at-stands (some aid) iid from to p d other at dest =
      elim (Option-cases (position (by_id aid) p.items)) [
        | inl missing ↦ absurd (ground arith)
        | inr (k, at') ↦
            let apart : iid ≢ aid = ground arith in
            let to_k : to ≡ k + 1 = ground arith in
            let (j, before, there) = position-shift_after p.items iid aid from k apart at at' in
            let inside : adjusted from (k + 1) < length p.items = ground (
              arith,
              position-lt (by_id iid) p.items from at,
              position-lt (by_id aid) p.items k at',
            ) in
            rw to_k (
              j,
              before,
              position-shift_self p.items iid from (adjusted from (k + 1)) d at inside
                  ∙ ap some there,
            )
      ]

  shift_at-id : (from to : ℕ) (p : Playlist P) → (shift_at from to p).id ≡ p.id
  unfolding shift_at
  shift_at-id from to p = refl

  shift_at-perm : (from to : ℕ) (p : Playlist P) → Perm (shift_at from to p).items p.items
  unfolding shift_at
  shift_at-perm from to p = shift-perm_items from to p.items

  -- The indices that a successful call went by.
  move_item-true :
      (e e' : Engine P) (pid iid : ℕ) (after : Option ℕ)
      → move_item e pid iid after ≡ (e', true)
      → (opt_eq after (some iid) ≡ false)
        × (i : ℕ) × (from : ℕ) × (to : ℕ) × (playlist_index e pid ≡ some i)
        × (index_within e i iid ≡ some from)
        × (destination e i after ≡ some to)
        × (touch (record e { playlists = modify e.playlists i (shift_at from (adjusted from to)) })
            ≡ e')
  unfolding move_item
  move_item-true e e' pid iid after h = elim (Bool-cases (opt_eq after (some iid))) [
    | inl self ↦ absurd (ground arith)
    | inr other ↦ elim (Option-cases (playlist_index e pid)) [
      | inl missing ↦ absurd (ground arith)
      | inr (i, at) ↦ elim (Option-cases (index_within e i iid)) [
        | inl missing ↦ absurd (ground arith)
        | inr (from, within) ↦ elim (Option-cases (destination e i after)) [
          | inl missing ↦ absurd (ground arith)
          | inr (to, dest) ↦ (other, i, from, to, at, within, dest, ground arith)
        ]
      ]
    ]
  ]

  destination-after :
      (e : Engine P) (i : ℕ) (after : Option ℕ) (p : Playlist P)
      → get_elem? e.playlists i ≡ some p
      → destination e i after
        ≡ elim after [ none ↦ some 0 | some aid ↦ Option.map (λ k. k + 1) (item_index p aid) ]
  unfolding destination
  destination-after e i none p there = refl
  destination-after e i (some aid) p there =
      ap (Option.map (λ k. k + 1)) (index_within-found e i aid p there)

  -- A move in an engine with the invariant that reports success leaves the playlist with the same
  -- items, in an order in which the moved one is first, if it was to go to the front, and otherwise
  -- stands directly behind the one that was named.
  pub move_item-StandsAfter :
      (e e' : Engine P) (pid iid : ℕ) (after : Option ℕ)
      → Inv e
      → move_item e pid iid after ≡ (e', true)
      → (p : Playlist P) × (p' : Playlist P) × (playlist e pid ≡ some p)
        × (playlist e' pid ≡ some p')
        × Perm p'.items p.items
        × StandsAfter after iid p'
  move_item-StandsAfter e e' pid iid after v h =
      let (other, i, from, to, at, within, dest, result) = move_item-true e e' pid iid after h in
      let f = shift_at from (adjusted from to) in
      let (p, there, found, found') =
        playlist-change e pid i f (shift_at-id from (adjusted from to)) at in
      (
        p,
        f p,
        found,
        subst (λ s. playlist s pid ≡ some (f p)) result found',
        shift_at-perm from (adjusted from to) p,
        shift_at-stands after iid from to p (playlist-Nodup e pid p v found) other
            (sym (index_within-found e i iid p there) ∙ within)
            (sym (destination-after e i after p there) ∙ dest),
      )
