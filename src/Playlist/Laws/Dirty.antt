-- ===== src/Playlist/Laws/Dirty.antt =====
-- crates/playlist/src/lib.rs: an edit leaves its playlist with unsaved changes.
use mathlib.Core.Option
use retrovert.Common.{
  ℕ, ◌+◌, ◌<◌, ◌≡◌, refl, String, true, Option, some, arith, ◌==◌, Bool-cases, Option-cases, inl,
  inr, u64_max, is_some, opt_eq,
}
use retrovert.Playlist.{ItemSpec, Item, Playlist, Engine, to_item}
use retrovert.Playlist.Cursors.{note_removed, adjusted}
use retrovert.Playlist.Store.{is_dirty, playlist, playlist_index, rename, has_name, mint_item_id}
use retrovert.Playlist.Items.{
  push_item, append, edit_at, edit_item, index_within, erase_at, remove_item, shift_at, destination,
  move_item,
}
use retrovert.Playlist.Invariant.{RevisionsOk, Inv}
use retrovert.Playlist.Laws.Saved.{found-RevisionsOk}
use retrovert.Playlist.Laws.Raises.{
  Edit, adds, rewrites, drops, shifts, names, edited, push_item-Raises, edit_at-Raises,
  erase_at-Raises, shift_at-Raises, rename-Raises, Dirtied, change-Dirtied, changed-Dirtied,
  mint_item_id-playlists,
}

module _ {ℓ} {P : Type ℓ} where
  append-Dirtied :
      (e : Engine P) (id : ℕ) (spec : ItemSpec P) (p : Playlist P)
      → RevisionsOk p
      → p.content_revision < u64_max
      → playlist e id ≡ some p
      → is_some (append e id spec).1 ≡ true
      → Dirtied (append e id spec).0 id p
  unfolding append mint_item_id
  append-Dirtied e id spec p ok l h done = elim (Option-cases (playlist_index e id)) [
    | inl missing ↦ absurd (ground arith)
    | inr (i, at) ↦ elim (Option-cases (mint_item_id e)) [
      | inl full ↦ absurd (ground arith)
      | inr ((iid, e'), minted) ↦
          rw (at, minted, append)
            (changed-Dirtied e e' id i (push_item (to_item iid spec)) p
              (mint_item_id-playlists e e' iid minted) (push_item-Raises (to_item iid spec)) ok l h
              at)
    ]
  ]

  edit_item-Dirtied :
      (e : Engine P) (id iid : ℕ) (edit : Item P → Item P) (p : Playlist P)
      → RevisionsOk p
      → p.content_revision < u64_max
      → playlist e id ≡ some p
      → (edit_item e id iid edit).1 ≡ true
      → Dirtied (edit_item e id iid edit).0 id p
  unfolding edit_item
  edit_item-Dirtied e id iid edit p ok l h done = elim (Option-cases (playlist_index e id)) [
    | inl missing ↦ absurd (ground arith)
    | inr (i, at) ↦ elim (Option-cases (index_within e i iid)) [
      | inl gone ↦ absurd (ground arith)
      | inr (k, within) ↦
          rw (at, within, edit_item)
            (change-Dirtied e id i (edit_at k edit) p (edit_at-Raises k edit) ok l h at)
    ]
  ]

  remove_item-Dirtied :
      (e : Engine P) (id iid : ℕ) (p : Playlist P)
      → RevisionsOk p
      → p.content_revision < u64_max
      → playlist e id ≡ some p
      → (remove_item e id iid).1 ≡ true
      → Dirtied (remove_item e id iid).0 id p
  unfolding remove_item
  remove_item-Dirtied e id iid p ok l h done = elim (Option-cases (playlist_index e id)) [
    | inl missing ↦ absurd (ground arith)
    | inr (i, at) ↦ elim (Option-cases (index_within e i iid)) [
      | inl gone ↦ absurd (ground arith)
      | inr (k, within) ↦
          rw (at, within, remove_item)
            (changed-Dirtied e (record e { cursor = Option.map (note_removed id iid k) e.cursor })
              id i (erase_at k) p refl (erase_at-Raises k) ok l h at)
    ]
  ]

  rename-Dirtied :
      (e : Engine P) (id : ℕ) (name : Option String) (p : Playlist P)
      → RevisionsOk p
      → p.content_revision < u64_max
      → playlist e id ≡ some p
      → (rename e id name).1 ≡ true
      → Dirtied (rename e id name).0 id p
  unfolding rename
  rename-Dirtied e id name p ok l h done = elim (Option-cases (playlist_index e id)) [
    | inl missing ↦ absurd (ground arith)
    | inr (i, at) ↦ elim (Bool-cases (has_name e i name)) [
      | inl same ↦ absurd (ground arith)
      | inr other ↦
          rw (at, other, rename) (change-Dirtied e id i _ p (rename-Raises name) ok l h at)
    ]
  ]

  move_item-Dirtied :
      (e : Engine P) (id iid : ℕ) (after : Option ℕ) (p : Playlist P)
      → RevisionsOk p
      → p.content_revision < u64_max
      → playlist e id ≡ some p
      → (move_item e id iid after).1 ≡ true
      → Dirtied (move_item e id iid after).0 id p
  unfolding move_item
  move_item-Dirtied e id iid after p ok l h done = elim (Bool-cases (opt_eq after (some iid))) [
    | inl itself ↦ absurd (ground arith)
    | inr other ↦ elim (Option-cases (playlist_index e id)) [
      | inl missing ↦ absurd (ground arith)
      | inr (i, at) ↦ elim (Option-cases (index_within e i iid)) [
        | inl gone ↦ absurd (ground arith)
        | inr (from, within) ↦ elim (Option-cases (destination e i after)) [
          | inl nowhere ↦ absurd (ground arith)
          | inr (to, there) ↦ elim (Bool-cases (adjusted from to == from)) [
            | inl stays ↦ absurd (ground arith)
            | inr goes ↦
                rw (other, at, within, there, goes, move_item)
                  (change-Dirtied e id i (shift_at from (adjusted from to)) p
                    (shift_at-Raises from (adjusted from to)) ok l h at)
          ]
        ]
      ]
    ]
  ]

  -- An edit that a stored playlist takes, its content revision not yet at the end of the counter,
  -- raises that revision by one and leaves the playlist dirty, whatever was saved before.
  pub edited-is_dirty :
      (e : Engine P) (id : ℕ) (x : Edit P) (p : Playlist P)
      → Inv e
      → playlist e id ≡ some p
      → p.content_revision < u64_max
      → (edited e id x).1 ≡ true
      → (p' : Playlist P) × (playlist (edited e id x).0 id ≡ some p')
        × (p'.content_revision ≡ p.content_revision + 1)
        × (is_dirty p' ≡ true)
  unfolding playlist
  edited-is_dirty e id (adds spec) p v h l done =
      append-Dirtied e id spec p (found-RevisionsOk e.playlists id p v.revisions h) l h done
  edited-is_dirty e id (rewrites iid edit) p v h l done =
      edit_item-Dirtied e id iid edit p (found-RevisionsOk e.playlists id p v.revisions h) l h done
  edited-is_dirty e id (drops iid) p v h l done =
      remove_item-Dirtied e id iid p (found-RevisionsOk e.playlists id p v.revisions h) l h done
  edited-is_dirty e id (shifts iid after) p v h l done =
      move_item-Dirtied e id iid after p (found-RevisionsOk e.playlists id p v.revisions h) l h done
  edited-is_dirty e id (names name) p v h l done =
      rename-Dirtied e id name p (found-RevisionsOk e.playlists id p v.revisions h) l h done
