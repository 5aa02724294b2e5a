-- ===== src/Playlist/Playback/Polls.antt =====
-- crates/playlist/src/lib.rs: what one `poll` hands out, and when it panics.
use retrovert.Common.{
  ℕ, zero, suc, ◌<◌, ◌≡◌, inl, inr, refl, ap, sym, subst, ◌∙◌, Bool, true, Option, none, some, List,
  [], ◌∷◌, arith, ◌==◌, length, position, find, get_elem?, returned, Option-cases,
}
use retrovert.Common.Positions.{position-some}
use retrovert.Playlist.{Item, Playlist, Mode, Advance, Cursor, Engine}
use retrovert.Playlist.Cursors.{is_settled, go, arrive}
use retrovert.Playlist.Store.{playlist}
use retrovert.Playlist.Transport.{
  stop, poll, target_position, forward_position, forward_in, on_finished, peek_next, current,
}
use retrovert.Playlist.Minted.{position-get}
use retrovert.Playlist.Invariant.{Inv, Plays, Tracks}
use retrovert.Playlist.Playback.Complete.{playlist-Nodup}

pub get_of_lt {ℓ} :
    {A : Type ℓ} (xs : List A) (i : ℕ) → i < length xs → (a : A) × (get_elem? xs i ≡ some a)
get_of_lt [] i h = absurd (omega arith)
get_of_lt (x ∷ xs) zero h = (x, refl)
get_of_lt (x ∷ xs) (suc i) h = get_of_lt xs i (omega arith)

module _ {ℓ} {P : Type ℓ} where
  -- The playlist that a cursor of an engine with the invariant plays.
  pub cursor-playlist :
      (e : Engine P) (c : Cursor)
      → Inv e
      → e.cursor ≡ some c
      → (p : Playlist P) × (playlist e c.playlist ≡ some p) × Tracks e.next_item_id p c
  unfolding playlist
  cursor-playlist e c v playing = subst (Plays e.next_item_id e.playlists) playing v.plays

  pub forward_in-lt :
      (m : Mode) (p : Playlist P) (c : Cursor) (k : ℕ)
      → forward_in m p c ≡ some k
      → k < length p.items
  unfolding forward_in
  forward_in-lt m p c k h = ground arith

  -- A forward advance never leads out of bounds.
  poll-forward :
      (e : Engine P) (c : Cursor) (p : Playlist P)
      → e.cursor ≡ some c
      → playlist e c.playlist ≡ some p
      → c.pending ≡ some Advance.forward
      → (e' : Engine P) × (poll e
          ≡ returned
              (e', elim (forward_in e.mode p c) [ none ↦ none | some k ↦ get_elem? p.items k ]))
  unfolding poll forward_position
  poll-forward e c p playing found pending = elim (Option-cases (forward_in e.mode p c)) [
    | inl nowhere ↦ (stop e, ground (arith, found))
    | inr (k, at) ↦
        let (i, there) = get_of_lt p.items k (forward_in-lt e.mode p c k at) in
        (record e { cursor = some (arrive c k i.id) }, ground (arith, found, there))
  ]

  pub peek_next-forward :
      (e : Engine P) (c : Cursor) (p : Playlist P)
      → e.cursor ≡ some c
      → playlist e c.playlist ≡ some p
      → peek_next e ≡ elim (forward_in e.mode p c) [ none ↦ none | some k ↦ get_elem? p.items k ]
  unfolding peek_next forward_position
  peek_next-forward e c p playing found = ground (arith, found)

  forward_in-go :
      (m : Mode) (p : Playlist P) (c : Cursor)
      → forward_in m p (go Advance.forward c) ≡ forward_in m p c
  unfolding forward_in
  forward_in-go m p c = refl

  on_finished-settled :
      (e : Engine P) (c : Cursor)
      → e.cursor ≡ some c
      → is_settled c ≡ true
      → on_finished e ≡ record e { cursor = some (go Advance.forward c) }
  unfolding on_finished
  on_finished-settled e c playing settled = ground arith

  playlist-cursor :
      (e : Engine P) (o : Option Cursor) (pid : ℕ)
      → playlist (record e { cursor = o }) pid ≡ playlist e pid
  unfolding playlist
  playlist-cursor e o pid = refl

  -- In an engine with the invariant whose current item was handed out and is not yet reported, the
  -- poll after `on_finished` does not panic and hands out exactly what `peek_next` promised before:
  -- the same item, or none.
  pub poll-on_finished :
      (e : Engine P) (c : Cursor)
      → Inv e
      → e.cursor ≡ some c
      → is_settled c ≡ true
      → (e' : Engine P) × (poll (on_finished e) ≡ returned (e', peek_next e))
  poll-on_finished e c v playing settled =
      let (p, found, t) = cursor-playlist e c v playing in
      let s = record e { cursor = some (go Advance.forward c) } in
      let (e', polled) =
        poll-forward s (go Advance.forward c) p refl (playlist-cursor e _ c.playlist ∙ found)
          refl in
      (
        e',
        ap poll (on_finished-settled e c playing settled)
            ∙ polled
            ∙ ap (λ o. returned (e', elim o [ none ↦ none | some k ↦ get_elem? p.items k ]))
                (forward_in-go e.mode p c)
            ∙ ap (λ r. returned (e', r)) (sym (peek_next-forward e c p playing found)),
      )

  pub target_position-found :
      (e : Engine P) (c : Cursor) (a : Advance) (p : Playlist P) (k : ℕ)
      → target_position e c a ≡ some (p, k)
      → playlist e c.playlist ≡ some p
  unfolding target_position
  target_position-found e c a p k h = ground arith

  find-get :
      (xs : List (Item P)) (q : Item P → Bool) (i : ℕ) (a : Item P)
      → position q xs ≡ some i
      → get_elem? xs i ≡ some a
      → find q xs ≡ some a
  find-get xs q i a at there =
      let (b, there', _, found) = position-some q xs i at in
      let same : b ≡ a = ground arith in found ∙ ap some same

  current-arrive :
      (e : Engine P) (c : Cursor) (p : Playlist P) (k : ℕ) (i : Item P)
      → Inv e
      → playlist e c.playlist ≡ some p
      → get_elem? p.items k ≡ some i
      → current (record e { cursor = some (arrive c k i.id) }) ≡ some i
  unfolding current
  current-arrive e c p k i v found there =
      let at = position-get p.items k i (playlist-Nodup e c.playlist p v found) there in
      ground (arith, found, find-get p.items (λ j. j.id == i.id) k i at there)

  -- A poll of an engine with the invariant that hands out an item makes it the current one, and
  -- hands it out once: the next poll gives nothing and changes nothing.
  pub current-poll :
      (e e' : Engine P) (i : Item P)
      → Inv e
      → poll e ≡ returned (e', some i)
      → (current e' ≡ some i) × (poll e' ≡ returned (e', none))
  unfolding poll
  current-poll e e' i v h = elim (Option-cases e.cursor) [
    | inl idle ↦ absurd (ground arith)
    | inr (c, playing) ↦ elim (Option-cases c.pending) [
      | inl settled ↦ absurd (ground arith)
      | inr (a, pending) ↦ elim (Option-cases (target_position e c a)) [
        | inl nowhere ↦ absurd (ground arith)
        | inr ((p, k), target) ↦ elim (Option-cases (get_elem? p.items k)) [
          | inl outside ↦ absurd (ground arith)
          | inr (j, there) ↦
              let found = target_position-found e c a p k target in
              let same : j ≡ i = ground arith in
              let after : record e { cursor = some (arrive c k j.id) } ≡ e' = ground arith in
              (
                subst (λ s. current s ≡ some i) after
                    (current-arrive e c p k j v found there ∙ ap some same),
                ground arith,
              )
        ]
      ]
    ]
  ]
