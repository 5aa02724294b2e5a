-- ===== src/Playlist/Playback/Panics.antt =====
-- crates/playlist/src/lib.rs: where the position that a removal left goes stale.
use retrovert.Common.{
  ℕ, zero, suc, ◌-◌, ◌≤◌, ◌<◌, ◌≡◌, ◌↔◌, inl, inr, refl, ap, subst, ◌∙◌, true, Option, none, some,
  List, [], ◌∷◌, arith, ◌==◌, length, position, get_elem?, panicked, Option-cases,
}
use retrovert.Common.Positions.{position-lt}
use retrovert.Playlist.{Item, Playlist, Advance, Cursor, Engine}
use retrovert.Playlist.Store.{playlist}
use retrovert.Playlist.Transport.{
  poll, target_position, forward_position, previous_position, at_current,
}
use retrovert.Playlist.Invariant.{Inv, Tracks}
use retrovert.Playlist.Playback.Polls.{cursor-playlist, forward_in-lt, target_position-found}

-- The cursor is to go back from an item that was removed from a position past the end of what is
-- left of the playlist.
pub record Stranded {ℓ} {P : Type ℓ} (e : Engine P) : Type ℓ where
  pub cursor : Cursor
  pub list : Playlist P
  pub playing : e.cursor ≡ some cursor
  pub found : playlist e cursor.playlist ≡ some list
  pub going_back : cursor.pending ≡ some Advance.backward
  pub removed : cursor.current_removed ≡ true
  pub outside : length list.items < cursor.position

module _ {ℓ} {P : Type ℓ} where
  get_none-le : (xs : List (Item P)) (k : ℕ) → get_elem? xs k ≡ none → length xs ≤ k
  get_none-le [] k h = omega arith
  get_none-le (x ∷ xs) zero h = cc
  get_none-le (x ∷ xs) (suc k) h = omega (arith, get_none-le xs k h)

  at_current-outside :
      (n : ℕ) (p : Playlist P) (c : Cursor) (k : ℕ)
      → Tracks n p c
      → c.pending ≡ some Advance.backward
      → at_current p c ≡ suc k
      → length p.items ≤ k
      → (c.current_removed ≡ true) × (length p.items < c.position)
  unfolding at_current
  at_current-outside n p c k t back at past = go c.current refl
    where
      go :
          (o : Option ℕ)
          → c.current ≡ o
          → (c.current_removed ≡ true) × (length p.items < c.position)
      go none e = absurd (ground (arith, t.waiting))
      go (some iid) e = elim (Option-cases (position (λ (j : Item P). j.id == iid) p.items)) [
        | inl gone ↦ (ground (arith, t.removed), ground arith)
        | inr (i, there) ↦
            absurd (ground (arith, position-lt (λ (j : Item P). j.id == iid) p.items i there))
      ]

  advance-outside :
      (e : Engine P) (c : Cursor) (p : Playlist P) (a : Advance) (k : ℕ)
      → e.cursor ≡ some c
      → playlist e c.playlist ≡ some p
      → target_position e c a ≡ some (p, k)
      → length p.items ≤ k
      → (a ≡ Advance.backward) × (at_current p c ≡ suc k)
  unfolding target_position forward_position previous_position
  advance-outside e c p Advance.start k playing found h past = absurd (ground (arith, found))
  advance-outside e c p Advance.forward k playing found h past =
      absurd (ground (arith, found, forward_in-lt e.mode p c k))
  advance-outside e c p Advance.backward k playing found h past = (refl, ground (arith, found))

  get-outside : (xs : List (Item P)) (k : ℕ) → length xs ≤ k → get_elem? xs k ≡ none
  get-outside [] k h = refl
  get-outside (x ∷ xs) zero h = absurd (omega arith)
  get-outside (x ∷ xs) (suc k) h = get-outside xs k (omega arith)

  at_current-removed :
      (n : ℕ) (p : Playlist P) (c : Cursor)
      → Tracks n p c
      → c.current_removed ≡ true
      → at_current p c ≡ c.position
  unfolding at_current
  at_current-removed n p c t removed = go c.current refl
    where
      go : (o : Option ℕ) → c.current ≡ o → at_current p c ≡ c.position
      go none e = ground arith
      go (some iid) e = ground (arith, t.removed)

  poll-backward :
      (e : Engine P) (c : Cursor) (p : Playlist P) (k : ℕ)
      → e.cursor ≡ some c
      → playlist e c.playlist ≡ some p
      → c.pending ≡ some Advance.backward
      → at_current p c ≡ suc k
      → get_elem? p.items k ≡ none
      → poll e ≡ panicked
  unfolding poll previous_position
  poll-backward e c p k playing found back at outside = ground (arith, found)

  Stranded-panicked : (e : Engine P) → Inv e → Stranded e → poll e ≡ panicked
  Stranded-panicked e v s =
      let (p, found, t) = cursor-playlist e s.cursor v s.playing in
      let same : p ≡ s.list = ground (arith, found, s.found) in
      let k = s.cursor.position - 1 in
      let at : at_current s.list s.cursor ≡ suc k =
        subst (λ q. at_current q s.cursor ≡ s.cursor.position) same
          (at_current-removed e.next_item_id p s.cursor t s.removed)
        ∙ omega (arith, s.outside) in
      poll-backward e s.cursor s.list k s.playing s.found s.going_back at
        (get-outside s.list.items k (omega (arith, s.outside)))

  panicked-Stranded : (e : Engine P) → Inv e → poll e ≡ panicked → Stranded e
  unfolding poll
  panicked-Stranded e v h = elim (Option-cases e.cursor) [
    | inl idle ↦ absurd (ground arith)
    | inr (c, playing) ↦ elim (Option-cases c.pending) [
      | inl settled ↦ absurd (ground arith)
      | inr (a, pending) ↦ elim (Option-cases (target_position e c a)) [
        | inl nowhere ↦ absurd (ground arith)
        | inr ((p, k), target) ↦ elim (Option-cases (get_elem? p.items k)) [
          | inr (i, there) ↦ absurd (ground arith)
          | inl outside ↦
              let found = target_position-found e c a p k target in
              let (q, found', t) = cursor-playlist e c v playing in
              let same : q ≡ p = ground (arith, found, found') in
              let past = get_none-le p.items k outside in
              let (back, at) = advance-outside e c p a k playing found target past in
              let going : c.pending ≡ some Advance.backward = pending ∙ ap some back in
              let (removed, beyond) =
                at_current-outside e.next_item_id p c k
                  (subst (λ r. Tracks e.next_item_id r c) same t) going at past in
              record {
                cursor = c;
                list = p;
                playing = playing;
                found = found;
                going_back = going;
                removed = removed;
                outside = beyond;
              }
        ]
      ]
    ]
  ]

  -- In an engine with the invariant a poll panics exactly when the cursor is to go back from a
  -- current item that was removed, and the position that it had lies past the end of what is left
  -- of the playlist.
  pub poll-panicked_iff : (e : Engine P) → Inv e → (poll e ≡ panicked) ↔ Stranded e
  poll-panicked_iff e v = (panicked-Stranded e v, Stranded-panicked e v)
