-- ===== src/Playlist/Playback/Complete.antt =====
-- A started playlist is heard to its end, once, whether its items finish or fail.
use mathlib.Core.List.{Nodup}
use mathlib.Core.List.Nodup
use retrovert.Common.{
  ℕ, suc, ◌≤◌, ◌≡◌, refl, ap, sym, subst, true, Option, none, some, List, [], ◌∷◌, ◌++◌, arith,
  ◌==◌, length, position, u64_max,
}
use retrovert.Playlist.{Item, Playlist, Mode, Engine}
use retrovert.Playlist.Cursors.{start_cursor}
use retrovert.Playlist.Store.{playlist}
use retrovert.Playlist.Transport.{start, start_position, set_mode, on_finished, on_failed}
use retrovert.Playlist.Minted.{ids, ids-find-sublist, position-get}
use retrovert.Playlist.Invariant.{Inv}
use retrovert.Playlist.Invariant.Moves.{start-Inv}
use retrovert.Playlist.Playback.{drain}
use retrovert.Playlist.Playback.Through.{with_cursor, start-true, get-split}
use retrovert.Playlist.Playback.Drains.{Heard, drain-finishes, drain-fails}

module _ {ℓ} {P : Type ℓ} where
  -- The ids within a stored playlist are distinct.
  pub playlist-Nodup :
      (e : Engine P) (pid : ℕ) (p : Playlist P)
      → Inv e
      → playlist e pid ≡ some p
      → Nodup (ids p.items)
  unfolding playlist
  playlist-Nodup e pid p v found =
      Nodup.sublist (ids-find-sublist (λ q. q.id == pid) e.playlists p found)
        v.items_minted.distinct

  -- Where `start` is asked to begin: at the front, or at the item of an id.
  abbrev pub BeginsAt : Option ℕ → List (Item P) → Item P → Type 0
  BeginsAt none pre a = length pre ≡ 0
  BeginsAt (some iid) pre a = a.id ≡ iid

  start_position-begins :
      (p : Playlist P) (from : Option ℕ) (pre : List (Item P)) (a : Item P) (rest : List (Item P))
      (k : ℕ)
      → Nodup (ids p.items)
      → p.items ≡ pre ++ a ∷ rest
      → BeginsAt from pre a
      → start_position p from ≡ some k
      → k ≡ length pre
  unfolding start_position
  start_position-begins p none pre a rest k d split begins h = ground arith
  start_position-begins p (some iid) pre a rest k d split begins h =
      let at = position-get p.items (length pre) a d (rw split (get-split pre a rest)) in
      ground (arith, at)

  start_position-nonempty :
      (p : Playlist P) (k : ℕ)
      → start_position p none ≡ some k
      → (a : Item P) × (rest : List (Item P)) × (p.items ≡ a ∷ rest)
  unfolding start_position
  start_position-nonempty p k h = go p.items refl
    where
      go :
          (xs : List (Item P))
          → p.items ≡ xs
          → (a : Item P) × (rest : List (Item P)) × (p.items ≡ a ∷ rest)
      go [] e = absurd (ground arith)
      go (a ∷ rest) e = (a, rest, e)

  -- A playback that starts in an engine with the invariant, at the front of a playlist or at one of
  -- its items, and whose items are each reported finished, hands out exactly the items from there
  -- to the end, each once and in order, then no item, without a panic; and the engine then plays
  -- nothing. It takes one poll more than there are items.
  pub drain-start :
      (e e' : Engine P) (pid : ℕ) (from : Option ℕ) (p : Playlist P) (pre : List (Item P))
      (a : Item P) (rest : List (Item P))
      → Inv e
      → start e pid from ≡ (e', true)
      → playlist e' pid ≡ some p
      → p.items ≡ pre ++ a ∷ rest
      → BeginsAt from pre a
      → Heard (a ∷ rest) (drain on_finished (suc (suc (length rest))) e')
  drain-start e e' pid from p pre a rest v h found split begins =
      let v' : Inv e' = subst Inv (ap (λ r. r.0) h) (start-Inv e pid from v) in
      let d = playlist-Nodup e' pid p v' found in
      let (k, position, cursor, mode) = start-true e e' pid from p h found in
      let front = start_position-begins p from pre a rest k d split begins position in
      let same : with_cursor e' (start_cursor pid (length pre)) ≡ e' = ground arith in
      subst (λ s. Heard (a ∷ rest) (drain on_finished (suc (suc (length rest))) s)) same
        (drain-finishes e' pid p found d pre a rest split mode)

  -- A playback that starts at the front of a playlist of at most 2^64 - 1 items, in either mode, and
  -- whose items are each reported failed, hands out every item once and in order, then no item,
  -- without a panic; and the engine then plays nothing: a failing playlist does not loop for ever.
  pub drain-start-on_failed :
      (e e' : Engine P) (pid : ℕ) (p : Playlist P) (m : Mode)
      → Inv e
      → start e pid none ≡ (e', true)
      → playlist e' pid ≡ some p
      → length p.items ≤ u64_max
      → Heard p.items (drain on_failed (suc (length p.items)) (set_mode e' m))
  unfolding set_mode playlist
  drain-start-on_failed e e' pid p m v h found fits =
      let v' : Inv e' = subst Inv (ap (λ r. r.0) h) (start-Inv e pid none v) in
      let d = playlist-Nodup e' pid p v' found in
      let (k, position, cursor, mode) = start-true e e' pid none p h found in
      let (a, rest, split) = start_position-nonempty p k position in
      let front : k ≡ 0 = start_position-begins p none [] a rest k d split refl position in
      let same : with_cursor (set_mode e' m) (start_cursor pid 0) ≡ set_mode e' m = ground arith in
      subst (λ s. Heard p.items (drain on_failed (suc (length p.items)) s)) same
        (subst
          (λ xs.
            Heard xs (
              drain on_failed (suc (length xs)) (with_cursor (set_mode e' m) (start_cursor pid 0))))
          (sym split) (drain-fails (set_mode e' m) pid p found d a rest split fits))
