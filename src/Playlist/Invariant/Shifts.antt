-- ===== src/Playlist/Invariant/Shifts.antt =====
-- Moving an item keeps the engine's invariant.
use mathlib.Core.List.{Perm}
use mathlib.Core.List.Perm
use retrovert.Common.{
  ℕ, refl, Option, some, List, arith, ◌==◌, get_elem?, erase_idx, inl, inr, opt_eq, Bool-cases,
  Option-cases,
}
use retrovert.Common.Positions.{absent-insert, absent-erase}
use retrovert.Playlist.{Item, Playlist, Engine}
use retrovert.Playlist.Cursors.{adjusted}
use retrovert.Playlist.Store.{playlist_index}
use retrovert.Playlist.Items.{index_within, shift, shift_at, destination, move_item}
use retrovert.Playlist.Minted.{ids, ids-insert-perm, ids-erase-perm}
use retrovert.Playlist.Invariant.{Inv, Keeps}
use retrovert.Playlist.Invariant.Parts.{change-Inv}

module _ {ℓ} {P : Type ℓ} where
  shift_at-Keeps : (n from to : ℕ) → Keeps {P = P} n (shift_at from to)
  unfolding shift_at
  shift_at-Keeps n from to = record {
    keeps_id = λ p. refl;
    keeps_revisions = λ p r. omega arith;
    keeps_items = λ p iid h. elim (Option-cases (get_elem? p.items from)) [
      | inl none_there ↦ ground arith
      | inr (a, there) ↦ ground (
        arith,
        absent-insert (λ j. j.id == iid) (erase_idx p.items from) to a,
        absent-erase (λ j. j.id == iid) p.items from a there,
      )
    ];
  }

  shift-perm : (from to : ℕ) (xs : List (Item P)) → Perm (ids (shift from to xs)) (ids xs)
  unfolding shift
  shift-perm from to xs = elim (Option-cases (get_elem? xs from)) [
    | inl none_there ↦ rw (none_there, shift) (Perm.refl (ids xs))
    | inr (a, there) ↦
        rw (there, shift)
          (Perm.trans (ids-insert-perm (erase_idx xs from) to a) (ids-erase-perm xs from a there))
  ]

  shift_at-perm :
      (from to : ℕ) (p : Playlist P) → Perm (ids (shift_at from to p).items) (ids p.items)
  unfolding shift_at
  shift_at-perm from to p = shift-perm from to p.items

  pub move_item-Inv :
      (e : Engine P) (pid iid : ℕ) (after : Option ℕ) → Inv e → Inv (move_item e pid iid after).0
  unfolding move_item
  move_item-Inv e pid iid after v = elim (Bool-cases (opt_eq after (some iid))) [
    | inl self ↦ rw (self, move_item) v
    | inr other ↦ elim (Option-cases (playlist_index e pid)) [
      | inl missing ↦ rw (other, missing, move_item) v
      | inr (i, at) ↦ elim (Option-cases (index_within e i iid)) [
        | inl missing ↦ rw (other, at, missing, move_item) v
        | inr (from, within) ↦ elim (Option-cases (destination e i after)) [
          | inl missing ↦ rw (other, at, within, missing, move_item) v
          | inr (to, dest) ↦ elim (Bool-cases (adjusted from to == from)) [
            | inl there ↦ rw (other, at, within, dest, there, move_item) v
            | inr elsewhere ↦
                rw (other, at, within, dest, elsewhere, move_item)
                  (change-Inv e i _ (shift_at-Keeps e.next_item_id from (adjusted from to))
                    (shift_at-perm from (adjusted from to)) v)
          ]
        ]
      ]
    ]
  ]
