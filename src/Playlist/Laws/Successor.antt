-- ===== src/Playlist/Laws/Successor.antt =====
-- crates/playlist/src/lib.rs: what plays after the current item is removed.
use mathlib.Core.Option
use retrovert.Common.{
  ℕ, zero, suc, ◌≤◌, ◌≡◌, refl, ap, sym, ◌∙◌, true, none, some, List, [], ◌∷◌, arith, ltb, ◌==◌,
  get_elem?, erase_idx, length, Option-cases, Bool-cases, inl, inr,
}
use retrovert.Common.Positions.{absent}
use retrovert.Playlist.{Item, Playlist, Mode, Cursor, Engine}
use retrovert.Playlist.Cursors.{note_removed}
use retrovert.Playlist.Store.{touch, change, item_index, playlist, playlist_index}
use retrovert.Playlist.Items.{index_within, erase_at, remove_item}
use retrovert.Playlist.Transport.{after_current, forward_in, peek_next}
use retrovert.Playlist.Minted.{absent-erase_self}
use retrovert.Playlist.Invariant.{Inv}
use retrovert.Playlist.Playback.Complete.{playlist-Nodup}
use retrovert.Playlist.Playback.Polls.{peek_next-forward}
use retrovert.Playlist.Laws.Move.{playlist-change, index_within-found}

note_removed-current :
    (c : Cursor) (iid k : ℕ)
    → c.current ≡ some iid
    → note_removed c.playlist iid k c
      ≡ record c { position = k; failures = 0; current_removed = true }
unfolding note_removed
note_removed-current c iid k playing = ground arith

module _ {ℓ} {P : Type ℓ} where
  get-erase : (xs : List (Item P)) (k : ℕ) → get_elem? (erase_idx xs k) k ≡ get_elem? xs (suc k)
  get-erase [] k = refl
  get-erase (x ∷ xs) zero = refl
  get-erase (x ∷ xs) (suc k) = get-erase xs k

  get-outside : (xs : List (Item P)) (k : ℕ) → length xs ≤ k → get_elem? xs k ≡ none
  get-outside [] k l = refl
  get-outside (x ∷ xs) zero l = absurd (omega arith)
  get-outside (x ∷ xs) (suc k) l = get-outside xs k (omega arith)

  -- In sequential mode, the item at the position that the cursor goes on from.
  get-forward_in :
      (p : Playlist P) (c : Cursor) (k : ℕ)
      → after_current p c ≡ k
      → (elim (forward_in Mode.sequential p c) [ none ↦ none | some j ↦ get_elem? p.items j ])
        ≡ get_elem? p.items k
  unfolding forward_in
  get-forward_in p c k next = elim (Bool-cases (length p.items == 0)) [
    | inl empty ↦ rw (forward_in, empty) (sym (get-outside p.items k (ground arith)))
    | inr some_left ↦ elim (Bool-cases (ltb k (length p.items))) [
      | inl inside ↦ rw (forward_in, some_left, next, inside) refl
      | inr outside ↦
          rw (forward_in, some_left, next, outside) (sym (get-outside p.items k (ground arith)))
    ]
  ]

  after_current-gone :
      (p : Playlist P) (c : Cursor) (iid : ℕ)
      → c.current ≡ some iid
      → absent (λ i. i.id == iid) p.items ≡ true
      → after_current p c ≡ c.position
  unfolding after_current item_index
  after_current-gone p c iid playing gone = ground arith

  remove_item-true :
      (e e' : Engine P) (pid iid : ℕ)
      → remove_item e pid iid ≡ (e', true)
      → (i : ℕ) × (k : ℕ) × (playlist_index e pid ≡ some i)
        × (index_within e i iid ≡ some k)
        × (change
              (record e { cursor = Option.map (note_removed pid iid k) e.cursor })
              i
              (erase_at k)
            ≡ e')
  unfolding remove_item
  remove_item-true e e' pid iid h = elim (Option-cases (playlist_index e pid)) [
    | inl nowhere ↦ absurd (ground arith)
    | inr (i, at) ↦ elim (Option-cases (index_within e i iid)) [
      | inl nowhere ↦ absurd (ground arith)
      | inr (k, within) ↦ (i, k, at, within, ground arith)
    ]
  ]

  peek_next-gone :
      (e : Engine P) (c : Cursor) (p : Playlist P) (iid k : ℕ)
      → e.mode ≡ Mode.sequential
      → e.cursor ≡ some (record c { position = k; failures = 0; current_removed = true })
      → playlist e c.playlist ≡ some p
      → c.current ≡ some iid
      → absent (λ i. i.id == iid) p.items ≡ true
      → peek_next e ≡ get_elem? p.items k
  peek_next-gone e c p iid k in_order at found playing gone =
      let c' = record c { position = k; failures = 0; current_removed = true } in
      peek_next-forward e c' p at found
      ∙ rw in_order (get-forward_in p c' k (after_current-gone p c' iid playing gone))

  -- Where the item that plays is removed in sequential mode, from an engine with the invariant, and
  -- the removal reports success, the item that was behind it in the playlist is the next to play,
  -- and none is where it was the last.
  pub remove_item-peek_next :
      (e e' : Engine P) (c : Cursor) (iid : ℕ)
      → Inv e
      → e.mode ≡ Mode.sequential
      → e.cursor ≡ some c
      → c.current ≡ some iid
      → remove_item e c.playlist iid ≡ (e', true)
      → (p : Playlist P) × (k : ℕ) × (playlist e c.playlist ≡ some p)
        × (item_index p iid ≡ some k)
        × (peek_next e' ≡ get_elem? p.items (suc k))
  unfolding item_index erase_at touch playlist_index playlist
  remove_item-peek_next e e' c iid v in_order at playing h =
      let (i, k, there, within, result) = remove_item-true e e' c.playlist iid h in
      let e1 = record e { cursor = Option.map (note_removed c.playlist iid k) e.cursor } in
      let (p, stored, found, found') =
        playlist-change e1 c.playlist i (erase_at k) (λ q. refl) there in
      let standing = sym (index_within-found e i iid p stored) ∙ within in
      let gone = absent-erase_self iid p.items k (playlist-Nodup e c.playlist p v found) standing in
      let next =
        peek_next-gone (change e1 i (erase_at k)) c (erase_at k p) iid k in_order
          (rw at (ap some (note_removed-current c iid k playing))) found' playing gone in
      (p, k, found, standing, ap peek_next (sym result) ∙ next ∙ get-erase p.items k)
