-- ===== src/Playlist/Examples/Changes.antt =====
-- Edits, moves and saves of the same playlist.
use mathlib.Core.List.{Perm}
use retrovert.Common.{
  ℕ, suc, get_elem?, none, returned, ◌+◌, ◌≡◌, refl, true, false, ◌&&◌, some, [], ◌∷◌, arith,
}
use retrovert.Playlist.{Playlist, Cursor, Engine, new}
use retrovert.Playlist.Store
use retrovert.Playlist.Transport
use retrovert.Playlist.Transport.{peek_next}
use retrovert.Playlist.Session.{creates, appends, starts, polls, run, step}
use retrovert.Playlist.Invariant.{Inv}
use retrovert.Playlist.Invariant.History.{run-new-Inv}
use retrovert.Playlist.Store.{playlist, item_index, is_dirty}
use retrovert.Playlist.Items
use retrovert.Playlist.Items.{move_item, remove_item, mark_revision_saved, mark_saved}
use retrovert.Playlist.Laws.Move.{StandsAfter, move_item-StandsAfter}
use retrovert.Playlist.Laws.Saved.{mark_revision_saved-is_dirty, mark_saved-is_dirty}
use retrovert.Playlist.Laws.Raises.{drops, edited}
use retrovert.Playlist.Laws.Dirty.{edited-is_dirty}
use retrovert.Playlist.Laws.Successor.{remove_item-peek_next}
use retrovert.Playlist.Examples.{track, stored, mix, at_second, filled, filled-Inv}

-- The first item goes behind the third.
abbrev moved : Engine ℕ
moved = record filled {
  playlists =
      record mix {
        items = stored 2 20 ∷ stored 3 30 ∷ stored 1 10 ∷ stored 4 40 ∷ [];
        content_revision = 5;
        structure_revision = 1;
      }
      ∷ [];
  revision = 6;
}

move-first : move_item filled 1 1 (some 3) ≡ (moved, true)
unfolding move_item
move-first = refl

move_item-StandsAfter_example :
    (p : Playlist ℕ) × (p' : Playlist ℕ) × (playlist filled 1 ≡ some p)
    × (playlist moved 1 ≡ some p')
    × Perm p'.items p.items
    × StandsAfter (some 3) 1 p'
move_item-StandsAfter_example =
    move_item-StandsAfter filled moved 1 1 (some 3) filled-Inv move-first

filled-found : playlist filled 1 ≡ some mix
unfolding playlist
filled-found = refl

two_one : ¬ (◌≡◌ {A = ℕ} 2 1)
two_one e = omega (arith, e)

drop-done : (edited filled 1 (drops 2)).1 ≡ true
unfolding remove_item
drop-done = refl

edited-is_dirty_example :
    (p' : Playlist ℕ) × (playlist (edited filled 1 (drops 2)).0 1 ≡ some p')
    × (p'.content_revision ≡ 4 + 1)
    × (is_dirty p' ≡ true)
edited-is_dirty_example =
    edited-is_dirty filled 1 (drops 2) mix filled-Inv filled-found (omega arith) drop-done

mark_revision_saved-is_dirty_example :
    (p' : Playlist ℕ) × ((mark_revision_saved filled 1 3).1 ≡ true)
    × (playlist (mark_revision_saved filled 1 3).0 1 ≡ some p')
    × (p'.items ≡ mix.items)
    × (is_dirty p' ≡ (is_dirty mix && true))
    × (playlist (mark_revision_saved filled 1 3).0 2 ≡ playlist filled 2)
mark_revision_saved-is_dirty_example =
    mark_revision_saved-is_dirty filled 1 2 3 mix filled-Inv filled-found two_one

mark_saved-is_dirty_example :
    (p' : Playlist ℕ) × ((mark_saved filled 1).1 ≡ true)
    × (playlist (mark_saved filled 1).0 1 ≡ some p')
    × (p'.items ≡ mix.items)
    × (is_dirty p' ≡ false)
    × (playlist (mark_saved filled 1).0 2 ≡ playlist filled 2)
mark_saved-is_dirty_example = mark_saved-is_dirty filled 1 2 mix filled-Inv filled-found two_one

-- The second item plays.
abbrev at_playing : Cursor
at_playing = record at_second { current = some 2; pending = none }

abbrev playing_second : Engine ℕ
playing_second = record filled { cursor = some at_playing }

run-playing_second :
    run new (
      creates (some "mix")
      ∷ appends 1 (track 10)
      ∷ appends 1 (track 20)
      ∷ appends 1 (track 30)
      ∷ appends 1 (track 40)
      ∷ starts 1 (some 2)
      ∷ polls
      ∷ [])
    ≡ returned playing_second
unfolding run step new Store.create Items.append Items.push_item Transport.start Transport.poll
run-playing_second = refl

playing_second-Inv : Inv playing_second
playing_second-Inv =
    run-new-Inv _ playing_second run-playing_second (tt, (tt, (tt, (tt, (tt, (tt, (tt, tt)))))))

-- It is removed, and the third is the next.
abbrev third_next : Engine ℕ
third_next = record filled {
  playlists =
      record mix {
        items = stored 1 10 ∷ stored 3 30 ∷ stored 4 40 ∷ [];
        content_revision = 5;
        structure_revision = 1;
      }
      ∷ [];
  revision = 6;
  cursor = some (record at_playing { current_removed = true });
}

remove-second : remove_item playing_second 1 2 ≡ (third_next, true)
unfolding remove_item Items.erase_at
remove-second = refl

remove_item-peek_next_example :
    (p : Playlist ℕ) × (k : ℕ) × (playlist playing_second 1 ≡ some p)
    × (item_index p 2 ≡ some k)
    × (peek_next third_next ≡ get_elem? p.items (suc k))
remove_item-peek_next_example =
    remove_item-peek_next playing_second third_next at_playing 2 playing_second-Inv refl refl refl
      remove-second

-- The first item is removed as well: the third now stands before the cursor, and is passed over.
third_skipped : peek_next (remove_item third_next 1 1).0 ≡ some (stored 4 40)
unfolding peek_next remove_item Items.erase_at
third_skipped = refl
