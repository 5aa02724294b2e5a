-- ===== src/Playlist/Examples.antt =====
-- Runs of the playlist engine on a small playlist, where the theorems' hypotheses hold.
mod Changes
mod Codec
use mathlib.Core.Option
use mathlib.Core.List.{Perm}
use retrovert.Common.{
  ℕ, zero, suc, ◌+◌, ◌≤◌, ◌<◌, ◌≡◌, ◌≢◌, ◌↔◌, refl, ap, sym, ◌∙◌, subst, String, Bool, true, false,
  not, ◌&&◌, Option, none, some, List, [], ◌∷◌, ◌++◌, map, length, leb, arith, Outcome, returned,
  panicked, u64_max,
}
use retrovert.Common.Results.{Result, ok, err}
use retrovert.Playlist.{ItemSpec, Item, Playlist, Mode, Advance, Cursor, Engine, new}
use retrovert.Playlist.Store
use retrovert.Playlist.Store.{playlist, is_dirty}
use retrovert.Playlist.Items
use retrovert.Playlist.Items.{mark_revision_saved, mark_saved, move_item}
use retrovert.Playlist.Transport
use retrovert.Playlist.Transport.{start, poll, on_finished, on_failed, set_mode, current, peek_next}
use retrovert.Playlist.Persist.{Json, Document, WireItem, to_bytes, from_bytes}
use retrovert.Playlist.Session.{
  Call, creates, appends, starts, polls, removes, goes_back, run, step,
}
use retrovert.Playlist.Invariant.{Inv}
use retrovert.Playlist.Invariant.History.{AllKeepIds, run-new-Inv}
use retrovert.Playlist.Playback.{drain}
use retrovert.Playlist.Playback.Drains.{Heard}
use retrovert.Playlist.Playback.Complete.{drain-start, drain-start-on_failed}
use retrovert.Playlist.Playback.Polls.{poll-on_finished, current-poll}
use retrovert.Playlist.Playback.Panics.{Stranded, poll-panicked_iff}

abbrev track : ℕ → ItemSpec ℕ
track n = record {
  identity = "file";
  subsong = 0;
  title = "title";
  artist = "artist";
  duration_ms = 1000;
  payload = n;
}

abbrev stored : ℕ → ℕ → Item ℕ
stored id n = record {
  id = id;
  identity = "file";
  subsong = 0;
  title = "title";
  artist = "artist";
  duration_ms = 1000;
  payload = n;
}

abbrev mix : Playlist ℕ
mix = record {
  id = 1;
  name = some "mix";
  items = stored 1 10 ∷ stored 2 20 ∷ stored 3 30 ∷ stored 4 40 ∷ [];
  content_revision = 4;
  structure_revision = 0;
  last_saved_revision = 0;
}

-- Four items were appended to one playlist.
abbrev filled : Engine ℕ
filled = record {
  playlists = mix ∷ [];
  next_playlist_id = 1;
  next_item_id = 4;
  revision = 5;
  cursor = none;
  mode = Mode.sequential;
}

abbrev filling : List (Call ℕ)
filling =
    creates (some "mix")
    ∷ appends 1 (track 10)
    ∷ appends 1 (track 20)
    ∷ appends 1 (track 30)
    ∷ appends 1 (track 40)
    ∷ []

run-filling : run new filling ≡ returned filled
unfolding run step new Store.create Items.append Items.push_item
run-filling = refl

filled-Inv : Inv filled
filled-Inv = run-new-Inv filling filled run-filling (tt, (tt, (tt, (tt, (tt, tt)))))

run-new-Inv_example : Inv filled
run-new-Inv_example = run-new-Inv filling filled run-filling (tt, (tt, (tt, (tt, (tt, tt)))))

abbrev at_second : Cursor
at_second = record {
  playlist = 1;
  current = none;
  position = 1;
  pending = some Advance.start;
  failures = 0;
  current_removed = false;
}

abbrev starting : Engine ℕ
starting = record filled { cursor = some at_second }

start-second : start filled 1 (some 2) ≡ (starting, true)
unfolding start
start-second = refl

mix-found : playlist starting 1 ≡ some mix
unfolding playlist
mix-found = refl

drain-start_example :
    Heard (stored 2 20 ∷ stored 3 30 ∷ stored 4 40 ∷ []) (drain on_finished 4 starting)
drain-start_example =
    drain-start filled starting 1 (some 2) mix (stored 1 10 ∷ []) (stored 2 20)
      (stored 3 30 ∷ stored 4 40 ∷ []) filled-Inv start-second mix-found refl refl

abbrev from_front : Engine ℕ
from_front = record filled { cursor = some (record at_second { position = 0 }) }

start-front : start filled 1 none ≡ (from_front, true)
unfolding start
start-front = refl

front-found : playlist from_front 1 ≡ some mix
unfolding playlist
front-found = refl

drain-start-on_failed_example :
    Heard
      (stored 1 10 ∷ stored 2 20 ∷ stored 3 30 ∷ stored 4 40 ∷ [])
      (drain on_failed 5 (set_mode from_front Mode.loop))
drain-start-on_failed_example =
    drain-start-on_failed filled from_front 1 mix Mode.loop filled-Inv start-front front-found
      (omega arith)

-- The last item is playing.
abbrev at_last : Cursor
at_last = record at_second { current = some 4; position = 3; pending = none }

abbrev playing_last : Engine ℕ
playing_last = record filled { cursor = some at_last }

run-playing_last :
    run new (
      creates (some "mix")
      ∷ appends 1 (track 10)
      ∷ appends 1 (track 20)
      ∷ appends 1 (track 30)
      ∷ appends 1 (track 40)
      ∷ starts 1 (some 4)
      ∷ polls
      ∷ [])
    ≡ returned playing_last
unfolding run step new Store.create Items.append Items.push_item Transport.start Transport.poll
run-playing_last = refl

playing_last-Inv : Inv playing_last
playing_last-Inv =
    run-new-Inv _ playing_last run-playing_last (tt, (tt, (tt, (tt, (tt, (tt, (tt, tt)))))))

poll-on_finished_example :
    (e' : Engine ℕ) × (poll (on_finished playing_last) ≡ returned (e', peek_next playing_last))
poll-on_finished_example = poll-on_finished playing_last at_last playing_last-Inv refl refl

starting-last :
    poll (record filled { cursor = some (record at_second { position = 3 }) })
    ≡ returned (playing_last, some (stored 4 40))
unfolding poll
starting-last = refl

run-starting_last :
    run new (
      creates (some "mix")
      ∷ appends 1 (track 10)
      ∷ appends 1 (track 20)
      ∷ appends 1 (track 30)
      ∷ appends 1 (track 40)
      ∷ starts 1 (some 4)
      ∷ [])
    ≡ returned (record filled { cursor = some (record at_second { position = 3 }) })
unfolding run step new Store.create Items.append Items.push_item Transport.start
run-starting_last = refl

current-poll_example :
    (current playing_last ≡ some (stored 4 40))
    × (poll playing_last ≡ returned (playing_last, none))
current-poll_example =
    current-poll (record filled { cursor = some (record at_second { position = 3 }) }) playing_last
      (stored 4 40) (run-new-Inv _ _ run-starting_last (tt, (tt, (tt, (tt, (tt, (tt, tt)))))))
      starting-last

-- The last item was playing when it and the two before it were removed; then the host goes back.
abbrev left_over : Playlist ℕ
left_over = record mix { items = stored 1 10 ∷ []; content_revision = 7; structure_revision = 3 }

abbrev stranded : Engine ℕ
stranded = record filled {
  playlists = left_over ∷ [];
  revision = 8;
  cursor = some (record at_last { pending = some Advance.backward; current_removed = true });
}

run-stranded :
    run new (
      creates (some "mix")
      ∷ appends 1 (track 10)
      ∷ appends 1 (track 20)
      ∷ appends 1 (track 30)
      ∷ appends 1 (track 40)
      ∷ starts 1 (some 4)
      ∷ polls
      ∷ removes 1 4
      ∷ removes 1 3
      ∷ removes 1 2
      ∷ goes_back
      ∷ [])
    ≡ returned stranded
unfolding run step new Store.create Items.append Items.push_item Items.remove_item Items.erase_at
    Transport.start Transport.poll Transport.previous
run-stranded = refl

stranded-Inv : Inv stranded
stranded-Inv =
    run-new-Inv _ stranded run-stranded
      (tt, (tt, (tt, (tt, (tt, (tt, (tt, (tt, (tt, (tt, (tt, tt)))))))))))

poll-panicked_iff_example : (poll stranded ≡ panicked) ↔ Stranded stranded
poll-panicked_iff_example = poll-panicked_iff stranded stranded-Inv

-- The poll panics.
poll-stranded : poll stranded ≡ panicked
unfolding poll
poll-stranded = refl
