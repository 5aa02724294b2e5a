-- ===== src/Playlist/Invariant/Moves.antt =====
-- The playback calls keep the engine's invariant.
use mathlib.Core.List.Sublist
use retrovert.Common.{
  ℕ, ◌≤◌, ◌≡◌, refl, sym, subst, Option, none, some, arith, ◌==◌, get_elem?, find, inl, inr,
  u64_max, position, Bool-cases, Option-cases, returned,
}
use retrovert.Common.Positions.{absent_of_get}
use retrovert.Playlist.{Item, Playlist, Mode, Advance, Cursor, Engine}
use retrovert.Playlist.Cursors.{start_cursor, arrive}
use retrovert.Playlist.Store.{playlist, playlist_index}
use retrovert.Playlist.Transport.{
  remove_playlist, any_anonymous, stop, start_position, start, set_mode, target_position, poll,
}
use retrovert.Playlist.Minted.{mem-get, ids-find-sublist}
use retrovert.Playlist.Invariant.{Tracks, Plays, Inv}
use retrovert.Playlist.Invariant.Removals.{erased-Inv}

module _ {ℓ} {P : Type ℓ} where
  -- A change of the cursor and the mode.
  pub cursor-Inv :
      (e : Engine P) (o : Option Cursor) (m : Mode)
      → Plays e.next_item_id e.playlists o
      → Inv e
      → Inv (record e { cursor = o; mode = m })
  cursor-Inv e o m h v = record {
    ids_ascend = v.ids_ascend;
    ids_fit = v.ids_fit;
    items_minted = v.items_minted;
    items_fit = v.items_fit;
    revision_fits = v.revision_fits;
    revisions = v.revisions;
    plays = h;
  }

  remove_playlist-Inv :
      (e : Engine P) (id : ℕ) → e.cursor ≡ none → Inv e → Inv (remove_playlist e id)
  unfolding remove_playlist
  remove_playlist-Inv e id idle v = elim (Option-cases (playlist_index e id)) [
    | inl missing ↦ rw (missing, remove_playlist) v
    | inr (i, at) ↦ rw (at, remove_playlist) (erased-Inv e i e.cursor (rw idle tt) v)
  ]

  pub stop-Inv : (e : Engine P) → Inv e → Inv (stop e)
  unfolding stop
  stop-Inv e v = elim (Option-cases e.cursor) [
    | inl idle ↦ rw (idle, stop) v
    | inr (c, playing) ↦
        let e' = record e { cursor = none } in
        let v' : Inv e' = cursor-Inv e none e.mode tt v in
        elim (Bool-cases (any_anonymous (playlist e' c.playlist))) [
          | inl anonymous ↦
              rw (playing, anonymous, stop) (remove_playlist-Inv e' c.playlist refl v')
          | inr named ↦ rw (playing, named, stop) v'
        ]
  ]

  start_cursor-Tracks :
      (n pid position : ℕ) (p : Playlist P) → Tracks n p (start_cursor pid position)
  start_cursor-Tracks n pid position p = record {
    waiting = refl;
    removed = refl;
    current_fits = tt;
    failures_fit = omega arith;
  }

  pub start-Inv : (e : Engine P) (pid : ℕ) (from : Option ℕ) → Inv e → Inv (start e pid from).0
  unfolding start playlist
  start-Inv e pid from v = elim (Option-cases (playlist (stop e) pid)) [
    | inl missing ↦ rw (missing, start) (stop-Inv e v)
    | inr (p, found) ↦ elim (Option-cases (start_position p from)) [
      | inl nowhere ↦ rw (found, nowhere, start) (stop-Inv e v)
      | inr (position, at) ↦
          rw (found, at, start)
            (cursor-Inv (stop e) (some (start_cursor pid position)) Mode.sequential
              (p, found, start_cursor-Tracks (stop e).next_item_id pid position p) (stop-Inv e v))
    ]
  ]

  pub set_mode-Inv : (e : Engine P) (m : Mode) → Inv e → Inv (set_mode e m)
  unfolding set_mode
  set_mode-Inv e m v = cursor-Inv e e.cursor m v.plays v

  arrive-Tracks :
      (n position : ℕ) (p : Playlist P) (c : Cursor) (i : Item P)
      → get_elem? p.items position ≡ some i
      → i.id ≤ n
      → c.failures ≤ u64_max
      → Tracks n p (arrive c position i.id)
  arrive-Tracks n position p c i at fits few = record {
    waiting = refl;
    removed =
        sym (absent_of_get (λ (j : Item P). j.id == i.id) p.items position i at (ground arith));
    current_fits = fits;
    failures_fit = few;
  }

  target_position-found :
      (e : Engine P) (c : Cursor) (a : Advance) (p : Playlist P) (position : ℕ)
      → target_position e c a ≡ some (p, position)
      → find (λ q. q.id == c.playlist) e.playlists ≡ some p
  unfolding target_position
  target_position-found e c a p position h = ground arith

  -- The engine once the polled item is found.
  arrived-Inv :
      (e : Engine P) (c : Cursor) (p : Playlist P) (position : ℕ) (i : Item P)
      → e.cursor ≡ some c
      → find (λ q. q.id == c.playlist) e.playlists ≡ some p
      → get_elem? p.items position ≡ some i
      → Inv e
      → Inv (record e { cursor = some (arrive c position i.id) })
  arrived-Inv e c p position i playing found at v =
      let plays : Plays e.next_item_id e.playlists (some c) =
        subst (Plays e.next_item_id e.playlists) playing v.plays in
      let fits : i.id ≤ e.next_item_id = v.items_minted.bounded i.id (
        Sublist.subset (ids-find-sublist (λ q. q.id == c.playlist) e.playlists p found) i.id
          (mem-get p.items position i at)) in
      cursor-Inv e (some (arrive c position i.id)) e.mode
        (p, found, arrive-Tracks e.next_item_id position p c i at fits plays.2.failures_fit) v

  pub poll-Inv :
      (e e' : Engine P) (r : Option (Item P)) → poll e ≡ returned (e', r) → Inv e → Inv e'
  unfolding poll
  poll-Inv e e' r h v = elim (Option-cases e.cursor) [
    | inl idle ↦ subst Inv (ground arith) v
    | inr (c, playing) ↦ elim (Option-cases c.pending) [
      | inl settled ↦ subst Inv (ground arith) v
      | inr (a, pending) ↦ elim (Option-cases (target_position e c a)) [
        | inl nowhere ↦ subst Inv (ground arith) (stop-Inv e v)
        | inr ((p, position), target) ↦ elim (Option-cases (get_elem? p.items position)) [
          | inl outside ↦ absurd (ground arith)
          | inr (i, at) ↦ subst Inv (ground arith) (
              arrived-Inv e c p position i playing (target_position-found e c a p position target)
                at v)
        ]
      ]
    ]
  ]
