-- ===== src/Playlist/Cursors.antt =====
-- crates/playlist/src/lib.rs: the changes of the cursor alone, and small tests.
use retrovert.Common.{
  ℕ, zero, suc, ◌-◌, Bool, true, false, ◌&&◌, Option, none, some, ltb, ◌==◌, opt_eq, is_some,
  is_none, if◌then◌else◌,
}
use retrovert.Playlist.{Mode, Advance, Cursor}

-- What `remove_item` notes in the cursor: the current item is gone from its position.
unfoldable pub note_removed : ℕ → ℕ → ℕ → Cursor → Cursor
note_removed pid iid i c =
    if c.playlist == pid && opt_eq c.current (some iid)
    then record c { position = i; failures = 0; current_removed = true }
    else c

abbrev pub adjusted : ℕ → ℕ → ℕ
adjusted from to = if ltb from to then to - 1 else to

-- The cursor that `start` sets, at the position of the first item to play.
abbrev pub start_cursor : ℕ → ℕ → Cursor
start_cursor pid position = record {
  playlist = pid;
  current = none;
  position = position;
  pending = some Advance.start;
  failures = 0;
  current_removed = false;
}

abbrev pub is_loop : Mode → Bool
is_loop Mode.sequential = false
is_loop Mode.loop = true

abbrev pub checked_pred : ℕ → Option ℕ
checked_pred zero = none
checked_pred (suc n) = some n

abbrev pub arrive : Cursor → ℕ → ℕ → Cursor
arrive c position iid = record c {
  pending = none;
  current = some iid;
  position = position;
  current_removed = false;
}

-- The cursor has played an item and waits.
abbrev pub is_settled : Cursor → Bool
is_settled c = is_some c.current && is_none c.pending

abbrev pub go : Advance → Cursor → Cursor
go a c = record c { failures = 0; pending = some a }
