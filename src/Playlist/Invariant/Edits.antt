-- ===== src/Playlist/Invariant/Edits.antt =====
-- The calls on stored playlists keep the engine's invariant.
use mathlib.Core.List.{Perm, perm_append_singleton, map-append, append-nil}
use mathlib.Core.List.Perm
use retrovert.Common.{
  ℕ, zero, suc, ◌+◌, ◌≤◌, ◌<◌, ◌≡◌, refl, ap, subst, String, Option, List, [], ◌∷◌, ◌++◌, arith,
  ◌==◌, is_none, modify, inl, inr, u64_max, leb, Bool-cases, Option-cases,
}
use retrovert.Common.Positions.{absent-append_ne, position-lt, position-modify}
use retrovert.Playlist.{ItemSpec, Item, Playlist, Engine, new, to_item}
use retrovert.Playlist.Store.{
  touch, touch_structure, playlist_index, create, rename, touch_preserving,
  touch_structure_preserving_dirty, fresh, has_name,
}
use retrovert.Playlist.Items.{push_item, append, index_within, edit_at, edit_item}
use retrovert.Playlist.Minted.{
  ids, item_ids, item_ids-append, item_ids-modify-cons, Minted, Minted-perm, Minted-cons,
}
use retrovert.Playlist.Invariant.{RevisionsOk, Inv, Keeps}
use retrovert.Playlist.Invariant.Parts.{
  Ascends-append, RevisionsOk-append, Plays-mono, Plays-append, change-Inv, change_minting-Inv,
}

perm_of_eq {ℓ} : {A : Type ℓ} {xs ys : List A} → xs ≡ ys → Perm xs ys
perm_of_eq {xs} e = subst (Perm xs) e (Perm.refl xs)

module _ {ℓ} {P : Type ℓ} where
  -- A new playlist at the end, whose items are all new.
  pub store-Inv :
      (e : Engine P) (q : Playlist P) (n : ℕ)
      → q.id ≡ e.next_playlist_id + 1
      → e.next_playlist_id + 1 ≤ u64_max
      → e.next_item_id ≤ n
      → n ≤ u64_max
      → RevisionsOk q
      → Minted n (item_ids (e.playlists ++ q ∷ []))
      → Inv e
      → Inv (
          touch (record e {
            next_playlist_id = e.next_playlist_id + 1;
            next_item_id = n;
            playlists = e.playlists ++ q ∷ [];
          }))
  unfolding touch
  store-Inv e q n own room more fits r m v = record {
    ids_ascend = Ascends-append 0 e.next_playlist_id e.playlists q own v.ids_ascend;
    ids_fit = room;
    items_minted = m;
    items_fit = fits;
    revision_fits = omega arith;
    revisions = RevisionsOk-append e.playlists q v.revisions r;
    plays =
        Plays-append n e.playlists q e.cursor
          (Plays-mono e.next_item_id n e.playlists e.cursor more v.plays);
  }

  pub create-Inv : (e : Engine P) (name : Option String) → Inv e → Inv (create e name).0
  unfolding create
  create-Inv e name v = elim (Bool-cases (leb (e.next_playlist_id + 1) u64_max)) [
    | inl room ↦
        rw (room, create)
          (store-Inv e (fresh (e.next_playlist_id + 1) name []) e.next_item_id refl (ground arith)
            (omega arith) v.items_fit (omega arith)
            (rw
              (
                item_ids-append e.playlists (fresh (e.next_playlist_id + 1) name [] ∷ []),
                append-nil,
              )
              v.items_minted)
            v)
    | inr full ↦ rw (full, create) v
  ]

  rename-Keeps :
      (n : ℕ) (name : Option String)
      → Keeps {P = P} n (λ p. touch_structure (record p { name = name }))
  unfolding touch_structure
  rename-Keeps n name = record {
    keeps_id = λ p. refl;
    keeps_revisions = λ p r. omega arith;
    keeps_items = λ p iid h. refl;
  }

  pub rename-Inv : (e : Engine P) (id : ℕ) (name : Option String) → Inv e → Inv (rename e id name).0
  unfolding rename
  rename-Inv e id name v = elim (Option-cases (playlist_index e id)) [
    | inl missing ↦ rw (missing, rename) v
    | inr (i, at) ↦ elim (Bool-cases (has_name e i name)) [
      | inl same ↦ rw (at, same, rename) v
      | inr other ↦
          rw (at, other, rename)
            (change-Inv e i _ (rename-Keeps e.next_item_id name) (λ p. Perm.refl _) v)
    ]
  ]

  touch_preserving-Keeps : (n : ℕ) → Keeps {P = P} n touch_preserving
  unfolding touch_preserving
  touch_preserving-Keeps n = record {
    keeps_id = λ p. ground arith;
    keeps_revisions = λ p r. ground arith;
    keeps_items = λ p iid h. ground arith;
  }

  push_item-Keeps : (n : ℕ) (i : Item P) → n < i.id → Keeps n (push_item i)
  unfolding push_item
  push_item-Keeps n i new = record {
    keeps_id = λ p. refl;
    keeps_revisions = λ p r. omega arith;
    keeps_items = λ p iid h. absent-append_ne (λ j. j.id == iid) p.items i (ground arith);
  }

  edit_at-Keeps :
      (n k : ℕ) (edit : Item P → Item P)
      → ((i : Item P) → (edit i).id ≡ i.id)
      → Keeps n (edit_at k edit)
  unfolding edit_at
  edit_at-Keeps n k edit same = record {
    keeps_id = λ p. refl;
    keeps_revisions = λ p r. omega arith;
    keeps_items = λ p iid h.
        ap is_none
          (position-modify (λ j. j.id == iid) edit (λ a. ground (arith, same a)) p.items k);
  }

  touch_preserving-items : (p : Playlist P) → ids (touch_preserving p).items ≡ ids p.items
  unfolding touch_preserving
  touch_preserving-items p = ground arith

  pub touch_structure_preserving_dirty-Inv :
      (e : Engine P) (id : ℕ) → Inv e → Inv (touch_structure_preserving_dirty e id).0
  unfolding touch_structure_preserving_dirty
  touch_structure_preserving_dirty-Inv e id v = elim (Option-cases (playlist_index e id)) [
    | inl missing ↦ rw (missing, touch_structure_preserving_dirty) v
    | inr (i, at) ↦
        rw (at, touch_structure_preserving_dirty)
          (change-Inv e i _ (touch_preserving-Keeps e.next_item_id)
            (λ p. perm_of_eq (touch_preserving-items p)) v)
  ]

  push_item-perm :
      (i : Item P) (p : Playlist P) → Perm (ids (push_item i p).items) (i.id ∷ ids p.items)
  unfolding push_item
  push_item-perm i p = rw (map-append) (perm_append_singleton i.id (ids p.items))

  pub append-Inv : (e : Engine P) (id : ℕ) (spec : ItemSpec P) → Inv e → Inv (append e id spec).0
  unfolding append
  append-Inv e id spec v = elim (Option-cases (playlist_index e id)) [
    | inl missing ↦ rw (missing, append) v
    | inr (i, at) ↦ elim (Bool-cases (leb (e.next_item_id + 1) u64_max)) [
      | inl room ↦
          let new = to_item (e.next_item_id + 1) spec in
          rw (at, room, append)
            (change_minting-Inv e (e.next_item_id + 1) i _ (omega arith) (ground arith)
              (push_item-Keeps e.next_item_id new (omega arith))
              (Minted-perm
                (item_ids-modify-cons _ new.id (push_item-perm new) e.playlists i
                  (position-lt (λ p. p.id == id) e.playlists i at))
                (Minted-cons e.next_item_id (item_ids e.playlists) v.items_minted))
              v)
      | inr full ↦ rw (at, full, append) v
    ]
  ]

  ids-modify :
      (edit : Item P → Item P)
      → ((i : Item P) → (edit i).id ≡ i.id)
      → (xs : List (Item P)) (k : ℕ) → ids (modify xs k edit) ≡ ids xs
  ids-modify edit same [] k = refl
  ids-modify edit same (x ∷ xs) zero = ground (arith, same x)
  ids-modify edit same (x ∷ xs) (suc k) = ground (arith, ids-modify edit same xs k)

  edit_at-perm :
      (edit : Item P → Item P)
      → ((i : Item P) → (edit i).id ≡ i.id)
      → (k : ℕ) (p : Playlist P) → Perm (ids (edit_at k edit p).items) (ids p.items)
  unfolding edit_at
  edit_at-perm edit same k p = perm_of_eq (ids-modify edit same p.items k)

  pub edit_item-Inv :
      (e : Engine P) (pid iid : ℕ) (edit : Item P → Item P)
      → ((i : Item P) → (edit i).id ≡ i.id)
      → Inv e
      → Inv (edit_item e pid iid edit).0
  unfolding edit_item
  edit_item-Inv e pid iid edit same v = elim (Option-cases (playlist_index e pid)) [
    | inl missing ↦ rw (missing, edit_item) v
    | inr (i, at) ↦ elim (Option-cases (index_within e i iid)) [
      | inl missing ↦ rw (at, missing, edit_item) v
      | inr (k, within) ↦
          rw (at, within, edit_item)
            (change-Inv e i _ (edit_at-Keeps e.next_item_id k edit same) (edit_at-perm edit same k)
              v)
    ]
  ]
