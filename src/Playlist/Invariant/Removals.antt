-- ===== src/Playlist/Invariant/Removals.antt =====
-- Removals keep the engine's invariant.
use mathlib.Core.Option
use mathlib.Core.List.{Sublist, Nodup}
use mathlib.Core.List.Nodup
use retrovert.Common.{
  ℕ, ◌≡◌, refl, ap, sym, subst, ◌∙◌, true, false, Option, none, some, List, arith, ◌==◌, ==_iff,
  if◌then◌else◌, get_elem?, modify, erase_idx, find, inl, inr, position, opt_eq, Bool-cases,
  Option-cases,
}
use retrovert.Common.Positions.{
  absent-erase, position-some, find-modify_self, find-modify_ne, find-erase_ne,
}
use retrovert.Playlist.{Item, Playlist, Cursor, Engine}
use retrovert.Playlist.Cursors.{note_removed}
use retrovert.Playlist.Store.{touch, change, playlist_index, delete}
use retrovert.Playlist.Items.{index_within, erase_at, remove_item}
use retrovert.Playlist.Minted.{
  ids, item_ids, item_ids-erase, item_ids-modify-sublist, ids-erase, absent-erase_self,
  ids-find-sublist, Minted, Minted-sublist,
}
use retrovert.Playlist.Invariant.{RevisionsOk, current_gone, Tracks, Plays, Inv}
use retrovert.Playlist.Invariant.Parts.{
  Ascends-erase, Ascends-modify, RevisionsOk-modify, RevisionsOk-erase,
}

note_removed-playlist :
    (pid iid k : ℕ) (c : Cursor) → (note_removed pid iid k c).playlist ≡ c.playlist
unfolding note_removed
note_removed-playlist pid iid k c = ground arith

note_removed-other :
    (pid iid k : ℕ) (c : Cursor) → (c.playlist == pid) ≡ false → note_removed pid iid k c ≡ c
unfolding note_removed
note_removed-other pid iid k c h = rw (h, note_removed)

module _ {ℓ} {P : Type ℓ} where
  erase_at-id : (k : ℕ) (p : Playlist P) → (erase_at k p).id ≡ p.id
  unfolding erase_at
  erase_at-id k p = refl

  -- The search for an id sees the same of a playlist and of what a removal leaves.
  erase_at-test : (k a : ℕ) (p : Playlist P) → ((erase_at k p).id == a) ≡ (p.id == a)
  erase_at-test k a p = ap (λ n. n == a) (erase_at-id k p)

  -- The index that a search in the playlist at an index gave is one in the playlist found.
  index_within-found :
      (e : Engine P) (i iid k : ℕ) (p : Playlist P)
      → get_elem? e.playlists i ≡ some p
      → index_within e i iid ≡ some k
      → position (λ j. j.id == iid) p.items ≡ some k
  unfolding index_within
  index_within-found e i iid k p at h = rw (at, index_within) at h

  gone-erase :
      (iid k : ℕ) (p : Playlist P)
      → Nodup (ids p.items)
      → position (λ j. j.id == iid) p.items ≡ some k
      → (o : Option ℕ)
      → current_gone o (erase_at k p) ≡ (if opt_eq o (some iid) then true else current_gone o p)
  unfolding erase_at
  gone-erase iid k p d at none = refl
  gone-erase iid k p d at (some cid) =
      let (a, there, same, _) = position-some (λ (j : Item P). j.id == iid) p.items k at in
      elim (Bool-cases (cid == iid)) [
        | inl hit ↦
            let e : cid ≡ iid = ground arith in rw (hit, e) (absent-erase_self iid p.items k d at)
        | inr miss ↦ ground (arith, absent-erase (λ (j : Item P). j.id == cid) p.items k a there)
      ]

  erase-Tracks :
      (n pid iid k : ℕ) (p : Playlist P) (c : Cursor)
      → (c.playlist == pid) ≡ true
      → Nodup (ids p.items)
      → position (λ j. j.id == iid) p.items ≡ some k
      → Tracks n p c
      → Tracks n (erase_at k p) (note_removed pid iid k c)
  unfolding note_removed
  erase-Tracks n pid iid k p c here d at t =
      let gone = gone-erase iid k p d at c.current in
      elim (Bool-cases (opt_eq c.current (some iid))) [
        | inl hit ↦
            rw (here, hit, note_removed)
              (record {
                waiting = t.waiting;
                removed = ground (arith, gone);
                current_fits = t.current_fits;
                failures_fit = omega arith;
              })
        | inr miss ↦
            rw (here, miss, note_removed)
              (record {
                waiting = t.waiting;
                removed = ground (arith, gone, t.removed);
                current_fits = t.current_fits;
                failures_fit = t.failures_fit;
              })
      ]

  -- What the cursor plays after an item of one playlist was removed.
  remove-Plays :
      (e : Engine P) (pid iid i k : ℕ) (q : Playlist P)
      → get_elem? e.playlists i ≡ some q
      → (q.id == pid) ≡ true
      → position (λ p. p.id == pid) e.playlists ≡ some i
      → position (λ j. j.id == iid) q.items ≡ some k
      → Minted e.next_item_id (item_ids e.playlists)
      → (o : Option Cursor) → Plays e.next_item_id e.playlists o
      → Plays e.next_item_id
          (modify e.playlists i (erase_at k))
          (Option.map (note_removed pid iid k) o)
  remove-Plays e pid iid i k q there own at within m none h = tt
  remove-Plays e pid iid i k q there own at within m (some c) (p, found, t) =
      elim (Bool-cases (c.playlist == pid)) [
        | inl here ↦
            let same : c.playlist ≡ pid = (==_iff c.playlist pid).0 here in
            let at_pid : find (λ r. r.id == pid) e.playlists ≡ some p =
              subst (λ a. find (λ (r : Playlist P). r.id == a) e.playlists ≡ some p) same found in
            let (q', there', _, found') = position-some (λ r. r.id == pid) e.playlists i at in
            let eq : p ≡ q = ground arith in
            (
              erase_at k q,
              subst
                  (λ a.
                    find (λ (r : Playlist P). r.id == a) (modify e.playlists i (erase_at k))
                    ≡ some (erase_at k q))
                  (sym (note_removed-playlist pid iid k c ∙ same))
                  (find-modify_self (λ r. r.id == pid) (erase_at k) (erase_at-test k pid)
                      e.playlists i at
                    ∙ ap (Option.map (erase_at k)) (at_pid ∙ ap some eq)),
              erase-Tracks e.next_item_id pid iid k q c here
                  (Nodup.sublist
                    (ids-find-sublist (λ r. r.id == pid) e.playlists q (at_pid ∙ ap some eq))
                    m.distinct)
                  within (subst (λ r. Tracks e.next_item_id r c) eq t),
            )
        | inr other ↦ rw (note_removed-other pid iid k c other) (
          p,
          find-modify_ne (λ r. r.id == c.playlist) (erase_at k) e.playlists i q there (ground arith)
                (erase_at-test k c.playlist q ∙ ground arith)
              ∙ found,
          t,
        )
      ]

  RevisionsOk-erase_at : (k : ℕ) (p : Playlist P) → RevisionsOk p → RevisionsOk (erase_at k p)
  unfolding erase_at
  RevisionsOk-erase_at k p r = omega arith

  erase_at-sublist : (k : ℕ) (p : Playlist P) → Sublist (ids (erase_at k p).items) (ids p.items)
  unfolding erase_at
  erase_at-sublist k p = ids-erase p.items k

  -- The engine after a removal that found its item.
  removed-Inv :
      (e : Engine P) (pid iid i k : ℕ)
      → playlist_index e pid ≡ some i
      → index_within e i iid ≡ some k
      → Inv e
      → Inv (
          change
            (record e { cursor = Option.map (note_removed pid iid k) e.cursor })
            i
            (erase_at k))
  unfolding playlist_index touch
  removed-Inv e pid iid i k at within v =
      let (q, there, own, _) = position-some (λ r. r.id == pid) e.playlists i at in
      record {
        ids_ascend =
            Ascends-modify (erase_at k) (erase_at-id k) 0 e.next_playlist_id e.playlists i
              v.ids_ascend;
        ids_fit = v.ids_fit;
        items_minted =
            Minted-sublist (item_ids-modify-sublist (erase_at k) (erase_at-sublist k) e.playlists i)
              v.items_minted;
        items_fit = v.items_fit;
        revision_fits = omega arith;
        revisions =
            RevisionsOk-modify (erase_at k) (RevisionsOk-erase_at k) e.playlists i v.revisions;
        plays =
            remove-Plays e pid iid i k q there own at (index_within-found e i iid k q there within)
              v.items_minted e.cursor v.plays;
      }

  pub remove_item-Inv : (e : Engine P) (pid iid : ℕ) → Inv e → Inv (remove_item e pid iid).0
  unfolding remove_item
  remove_item-Inv e pid iid v = elim (Option-cases (playlist_index e pid)) [
    | inl missing ↦ rw (missing, remove_item) v
    | inr (i, at) ↦ elim (Option-cases (index_within e i iid)) [
      | inl missing ↦ rw (at, missing, remove_item) v
      | inr (k, within) ↦ rw (at, within, remove_item) (removed-Inv e pid iid i k at within v)
    ]
  ]

  -- A cursor on another playlist stays on it.
  erase-Plays :
      (n pid i : ℕ) (ps : List (Playlist P)) (q : Playlist P) (o : Option Cursor)
      → get_elem? ps i ≡ some q
      → (q.id == pid) ≡ true
      → opt_eq (Option.map (λ c. c.playlist) o) (some pid) ≡ false
      → Plays n ps o
      → Plays n (erase_idx ps i) o
  erase-Plays n pid i ps q none there own other h = tt
  erase-Plays n pid i ps q (some c) there own other (p, found, t) =
      (p, find-erase_ne (λ r. r.id == c.playlist) ps i q there (ground arith) ∙ found, t)

  deleted-Plays :
      (n pid i : ℕ) (ps : List (Playlist P)) (o : Option Cursor)
      → position (λ r. r.id == pid) ps ≡ some i
      → Plays n ps o
      → Plays n
          (erase_idx ps i)
          (if opt_eq (Option.map (λ c. c.playlist) o) (some pid) then none else o)
  deleted-Plays n pid i ps o at h =
      let (q, there, own, _) = position-some (λ r. r.id == pid) ps i at in
      elim (Bool-cases (opt_eq (Option.map (λ c. c.playlist) o) (some pid))) [
        | inl playing ↦ rw playing tt
        | inr other ↦ rw other (erase-Plays n pid i ps q o there own other h)
      ]

  -- The engine without the playlist at an index, under a cursor that does not need it.
  pub erased-Inv :
      (e : Engine P) (i : ℕ) (o : Option Cursor)
      → Plays e.next_item_id (erase_idx e.playlists i) o
      → Inv e
      → Inv (touch (record e { cursor = o; playlists = erase_idx e.playlists i }))
  unfolding touch
  erased-Inv e i o h v = record {
    ids_ascend = Ascends-erase 0 e.next_playlist_id e.playlists i v.ids_ascend;
    ids_fit = v.ids_fit;
    items_minted = Minted-sublist (item_ids-erase e.playlists i) v.items_minted;
    items_fit = v.items_fit;
    revision_fits = omega arith;
    revisions = RevisionsOk-erase e.playlists i v.revisions;
    plays = h;
  }

  pub delete-Inv : (e : Engine P) (id : ℕ) → Inv e → Inv (delete e id).0
  unfolding delete
  delete-Inv e id v = elim (Option-cases (playlist_index e id)) [
    | inl missing ↦ rw (missing, delete) v
    | inr (i, at) ↦
        rw (at, delete)
          (erased-Inv e i _ (deleted-Plays e.next_item_id id i e.playlists e.cursor at v.plays) v)
  ]
