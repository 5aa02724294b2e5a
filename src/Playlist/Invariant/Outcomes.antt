-- ===== src/Playlist/Invariant/Outcomes.antt =====
-- What the host reports and asks of the playing item keeps the engine's invariant.
use retrovert.Common.{
  ℕ, ◌≤◌, ◌≡◌, refl, sym, subst, ◌∙◌, true, false, ◌&&◌, ◌||◌, some, List, arith, leb, is_none,
  is_some, inl, inr, u64_max, position, Bool-cases, Option-cases, saturating_add,
}
use retrovert.Playlist.{Playlist, Advance, Cursor, Engine}
use retrovert.Playlist.Cursors.{is_loop, is_settled, go}
use retrovert.Playlist.Transport.{
  on_finished, next, item_count, fail_counted, on_failed, previous_position, previous,
}
use retrovert.Playlist.Invariant.{is_starting, Plays, Inv}
use retrovert.Playlist.Invariant.Moves.{cursor-Inv, stop-Inv}

module _ {ℓ} {P : Type ℓ} where
  -- A cursor that has an item may be sent on, forward or back.
  go-Plays :
      (n : ℕ) (ps : List (Playlist P)) (c : Cursor) (a : Advance) (failures : ℕ)
      → is_none c.current ≡ false
      → is_starting (some a) ≡ false
      → failures ≤ u64_max
      → Plays n ps (some c)
      → Plays n ps (some (record c { failures = failures; pending = some a }))
  go-Plays n ps c a failures has moves few (p, found, t) = (
    p,
    found,
    record {
      waiting = moves ∙ sym has;
      removed = t.removed;
      current_fits = t.current_fits;
      failures_fit = few;
    },
  )

  sent-Inv :
      (e : Engine P) (c : Cursor) (a : Advance) (failures : ℕ)
      → e.cursor ≡ some c
      → is_none c.current ≡ false
      → is_starting (some a) ≡ false
      → failures ≤ u64_max
      → Inv e
      → Inv (record e { cursor = some (record c { failures = failures; pending = some a }) })
  sent-Inv e c a failures playing has moves few v =
      cursor-Inv e _ e.mode
        (go-Plays e.next_item_id e.playlists c a failures has moves few
          (subst (Plays e.next_item_id e.playlists) playing v.plays))
        v

  pub on_finished-Inv : (e : Engine P) → Inv e → Inv (on_finished e)
  unfolding on_finished
  on_finished-Inv e v = elim (Option-cases e.cursor) [
    | inl idle ↦ rw (idle, on_finished) v
    | inr (c, playing) ↦ elim (Bool-cases (is_settled c)) [
      | inl settled ↦
          rw (playing, settled, on_finished)
            (sent-Inv e c Advance.forward 0 playing (ground arith) refl (omega arith) v)
      | inr busy ↦ rw (playing, busy, on_finished) v
    ]
  ]

  pub next-Inv : (e : Engine P) → Inv e → Inv (next e)
  unfolding next
  next-Inv e v = elim (Option-cases e.cursor) [
    | inl idle ↦ rw (idle, next) v
    | inr (c, playing) ↦ elim (Bool-cases (is_settled c)) [
      | inl settled ↦
          rw (playing, settled, next)
            (sent-Inv e c Advance.forward 0 playing (ground arith) refl (omega arith) v)
      | inr busy ↦ rw (playing, busy, next) v
    ]
  ]

  -- A cursor that waits for no item has one.
  settled-current :
      (e : Engine P) (c : Cursor)
      → e.cursor ≡ some c
      → is_none c.pending ≡ true
      → Inv e
      → is_none c.current ≡ false
  settled-current e c playing settled v =
      let (p, found, t) = subst (Plays e.next_item_id e.playlists) playing v.plays in
      ground (arith, t.waiting)

  pub previous-Inv : (e : Engine P) → Inv e → Inv (previous e)
  unfolding previous
  previous-Inv e v = elim (Option-cases (previous_position e)) [
    | inl first ↦ rw (first, previous) v
    | inr (position, at) ↦ elim (Option-cases e.cursor) [
      | inl idle ↦ rw (at, idle, previous) v
      | inr (c, playing) ↦ elim (Bool-cases (is_none c.pending)) [
        | inl settled ↦
            rw (at, playing, settled, previous)
              (sent-Inv e c Advance.backward 0 playing (settled-current e c playing settled v) refl
                (omega arith) v)
        | inr busy ↦ rw (at, playing, busy, previous) v
      ]
    ]
  ]

  counted-Plays :
      (n : ℕ) (ps : List (Playlist P)) (c : Cursor)
      → Plays n ps (some c)
      → Plays n ps (some (record c { failures = saturating_add c.failures 1 }))
  counted-Plays n ps c (p, found, t) = (
    p,
    found,
    record {
      waiting = t.waiting;
      removed = t.removed;
      current_fits = t.current_fits;
      failures_fit = omega arith;
    },
  )

  fail_counted-Inv :
      (e : Engine P) (c : Cursor)
      → e.cursor ≡ some c
      → is_none c.current ≡ false
      → Inv e
      → Inv (fail_counted e (record c { failures = saturating_add c.failures 1 }))
  unfolding fail_counted
  fail_counted-Inv e c playing has v =
      let c' = record c { failures = saturating_add c.failures 1 } in
      let e' = record e { cursor = some c' } in
      let v' : Inv e' =
        cursor-Inv e (some c') e.mode
          (counted-Plays e.next_item_id e.playlists c
            (subst (Plays e.next_item_id e.playlists) playing v.plays))
          v in
      elim (Bool-cases (is_loop e.mode && leb (item_count e' c.playlist) c'.failures)) [
        | inl all_failed ↦ rw (all_failed, fail_counted) (stop-Inv e' v')
        | inr go_on ↦
            rw (go_on, fail_counted)
              (sent-Inv e c Advance.forward (saturating_add c.failures 1) playing has refl
                (omega arith) v)
      ]

  pub on_failed-Inv : (e : Engine P) → Inv e → Inv (on_failed e)
  unfolding on_failed
  on_failed-Inv e v = elim (Option-cases e.cursor) [
    | inl idle ↦ rw (idle, on_failed) v
    | inr (c, playing) ↦ elim (Bool-cases (is_none c.current || is_some c.pending)) [
      | inl busy ↦ rw (playing, busy, on_failed) v
      | inr settled ↦ elim (Bool-cases c.current_removed) [
        | inl removed ↦
            let sent : record e { cursor = some (go Advance.forward c) } ≡ on_failed e =
              ground arith in
            subst Inv sent
              (sent-Inv e c Advance.forward 0 playing (ground arith) refl (omega arith) v)
        | inr present ↦
            let counted : fail_counted e (record c { failures = saturating_add c.failures 1 })
                ≡ on_failed e =
              ground arith in
            subst Inv counted (fail_counted-Inv e c playing (ground arith) v)
      ]
    ]
  ]
