-- ===== src/Playlist/Laws/Saved.antt =====
-- crates/playlist/src/lib.rs: what a playlist's revisions say about unsaved changes.
use mathlib.Core.Option
use retrovert.Common.{
  ℕ, ◌≤◌, ◌<◌, ◌≡◌, ◌≢◌, refl, ap, sym, subst, ◌∙◌, Bool, true, false, not, ◌&&◌, some, List, [],
  ◌∷◌, arith, ◌==◌, ltb, leb, get_elem?, modify, find, position, Bool-cases, Option-cases, inl, inr,
}
use retrovert.Common.Positions.{
  find-modify_self, find-modify_ne, position-none, find-some, position-some,
}
use retrovert.Playlist.{Playlist, Engine}
use retrovert.Playlist.Store.{is_dirty, playlist, playlist_index}
use retrovert.Playlist.Items.{acknowledge, revision_at, mark_revision_saved, mark_saved}
use retrovert.Playlist.Invariant.{RevisionsOk, AllRevisionsOk, Inv}

still_dirty : (d : Bool) (m n : ℕ) → m ≤ n → (d && ltb m n) ≡ (d && not (leb m n && leb n m))
still_dirty d m n l = ground arith

kept_dirty : (d : Bool) (m n : ℕ) → n < m → d ≡ (d && not (leb m n && leb n m))
kept_dirty d m n l = ground arith

module _ {ℓ} {P : Type ℓ} where
  found_here :
      (q : Playlist P) (ps : List (Playlist P)) (id : ℕ) (p : Playlist P)
      → (q.id == id) ≡ true
      → find (λ x. x.id == id) (q ∷ ps) ≡ some p
      → q ≡ p
  found_here q ps id p here h = ground arith

  pub found-RevisionsOk :
      (ps : List (Playlist P)) (id : ℕ) (p : Playlist P)
      → AllRevisionsOk ps
      → find (λ q. q.id == id) ps ≡ some p
      → RevisionsOk p
  found-RevisionsOk [] id p r h = absurd (ground arith)
  found-RevisionsOk (q ∷ ps) id p r h = elim (Bool-cases (q.id == id)) [
    | inl here ↦ subst RevisionsOk (found_here q ps id p here h) r.0
    | inr past ↦ found-RevisionsOk ps id p r.1 (ground arith)
  ]

  pub position-found :
      (ps : List (Playlist P)) (id : ℕ) (p : Playlist P)
      → find (λ q. q.id == id) ps ≡ some p
      → (i : ℕ) × (position (λ q. q.id == id) ps ≡ some i) × (get_elem? ps i ≡ some p)
  position-found ps id p h = elim (Option-cases (position (λ q. q.id == id) ps)) [
    | inl missing ↦ absurd (ground (arith, position-none (λ q. q.id == id) ps missing))
    | inr (i, at) ↦
        let (x, here, passes, found) = position-some (λ q. q.id == id) ps i at in
        (i, at, here ∙ sym found ∙ h)
  ]

  -- The clean part of a save: where the whole content was acknowledged.
  clean-acknowledge :
      (p : Playlist P) → RevisionsOk p → is_dirty (acknowledge p.content_revision p) ≡ false
  unfolding is_dirty acknowledge
  clean-acknowledge p r = ground (arith, r.saved_le)

  dirty-acknowledge :
      (p : Playlist P) (revision : ℕ)
      → RevisionsOk p
      → revision ≤ p.content_revision
      → is_dirty (acknowledge revision p) ≡ (is_dirty p && ltb revision p.content_revision)
  unfolding is_dirty acknowledge
  dirty-acknowledge p revision r l = ground (arith, r.saved_le)

  items-acknowledge : (revision : ℕ) (p : Playlist P) → (acknowledge revision p).items ≡ p.items
  unfolding acknowledge
  items-acknowledge revision p = refl

  own_id :
      (ps : List (Playlist P)) (id : ℕ) (p : Playlist P)
      → find (λ q. q.id == id) ps ≡ some p
      → p.id ≡ id
  own_id ps id p h = ground (arith, find-some (λ q. q.id == id) ps p h)

  revision_at-get :
      (e : Engine P) (i : ℕ) (p : Playlist P)
      → get_elem? e.playlists i ≡ some p
      → revision_at e i ≡ p.content_revision
  revision_at-get e i p here = rw (revision_at, here) refl

  reached-mark_revision_saved :
      (e : Engine P) (id i revision : ℕ) (p : Playlist P)
      → position (λ q. q.id == id) e.playlists ≡ some i
      → get_elem? e.playlists i ≡ some p
      → revision ≤ p.content_revision
      → mark_revision_saved e id revision
        ≡ (record e { playlists = modify e.playlists i (acknowledge revision) }, true)
  unfolding mark_revision_saved playlist_index
  reached-mark_revision_saved e id i revision p at here l =
      rw (mark_revision_saved, playlist_index, at, revision_at-get e i p here) (ground arith)

  refused-mark_revision_saved :
      (e : Engine P) (id i revision : ℕ) (p : Playlist P)
      → position (λ q. q.id == id) e.playlists ≡ some i
      → get_elem? e.playlists i ≡ some p
      → p.content_revision < revision
      → mark_revision_saved e id revision ≡ (e, false)
  unfolding mark_revision_saved playlist_index
  refused-mark_revision_saved e id i revision p at here l =
      rw (mark_revision_saved, playlist_index, at, revision_at-get e i p here) (ground arith)

  whole-mark_saved :
      (e : Engine P) (id i : ℕ) (p : Playlist P)
      → position (λ q. q.id == id) e.playlists ≡ some i
      → get_elem? e.playlists i ≡ some p
      → mark_saved e id ≡ mark_revision_saved e id p.content_revision
  unfolding mark_saved playlist_index
  whole-mark_saved e id i p at here =
      rw (mark_saved, playlist_index, at, revision_at-get e i p here) refl

  find-acknowledge :
      (ps : List (Playlist P)) (id i revision : ℕ) (p : Playlist P)
      → position (λ q. q.id == id) ps ≡ some i
      → find (λ q. q.id == id) ps ≡ some p
      → find (λ q. q.id == id) (modify ps i (acknowledge revision)) ≡ some (acknowledge revision p)
  unfolding acknowledge
  find-acknowledge ps id i revision p at found =
      find-modify_self (λ q. q.id == id) (acknowledge revision) (λ q. refl) ps i at
      ∙ ap (Option.map (acknowledge revision)) found

  find-acknowledge_other :
      (ps : List (Playlist P)) (id i j revision : ℕ) (p : Playlist P)
      → position (λ q. q.id == id) ps ≡ some i
      → get_elem? ps i ≡ some p
      → p.id ≡ id
      → j ≢ id
      → find (λ q. q.id == j) (modify ps i (acknowledge revision)) ≡ find (λ q. q.id == j) ps
  unfolding acknowledge
  find-acknowledge_other ps id i j revision p at here own other =
      find-modify_ne (λ q. q.id == j) (acknowledge revision) ps i p here (ground arith)
        (ground arith)

  -- Of a stored playlist, a revision is acknowledged exactly if the playlist reached it. The playlist
  -- then keeps its items and is dirty exactly if it was dirty and has changed since that revision;
  -- refused, it is as dirty as it was. No other playlist changes.
  pub mark_revision_saved-is_dirty :
      (e : Engine P) (id j revision : ℕ) (p : Playlist P)
      → Inv e
      → playlist e id ≡ some p
      → j ≢ id
      → (p' : Playlist P) × ((mark_revision_saved e id revision).1
          ≡ leb revision p.content_revision)
        × (playlist (mark_revision_saved e id revision).0 id ≡ some p')
        × (p'.items ≡ p.items)
        × (is_dirty p' ≡ (
            is_dirty p && not (leb revision p.content_revision && leb p.content_revision revision)))
        × (playlist (mark_revision_saved e id revision).0 j ≡ playlist e j)
  unfolding playlist
  mark_revision_saved-is_dirty e id j revision p v h other =
      let (i, at, here) = position-found e.playlists id p h in
      let own : p.id ≡ id = own_id e.playlists id p h in
      elim (Bool-cases (leb revision p.content_revision)) [
        | inl reached ↦
            let l : revision ≤ p.content_revision = ground arith in
            rw (reached-mark_revision_saved e id i revision p at here l) (
              acknowledge revision p,
              sym reached,
              find-acknowledge e.playlists id i revision p at h,
              items-acknowledge revision p,
              dirty-acknowledge p revision (found-RevisionsOk e.playlists id p v.revisions h) l
                  ∙ still_dirty (is_dirty p) revision p.content_revision l,
              find-acknowledge_other e.playlists id i j revision p at here own other,
            )
        | inr later ↦
            let l : p.content_revision < revision = ground arith in
            rw (refused-mark_revision_saved e id i revision p at here l)
              (p, sym later, h, refl, kept_dirty (is_dirty p) revision p.content_revision l, refl)
      ]

  -- After `mark_saved` a stored playlist is clean, with its items as they were, and no other playlist
  -- changes.
  pub mark_saved-is_dirty :
      (e : Engine P) (id j : ℕ) (p : Playlist P)
      → Inv e
      → playlist e id ≡ some p
      → j ≢ id
      → (p' : Playlist P) × ((mark_saved e id).1 ≡ true)
        × (playlist (mark_saved e id).0 id ≡ some p')
        × (p'.items ≡ p.items)
        × (is_dirty p' ≡ false)
        × (playlist (mark_saved e id).0 j ≡ playlist e j)
  unfolding playlist
  mark_saved-is_dirty e id j p v h other =
      let (i, at, here) = position-found e.playlists id p h in
      rw
        (
          whole-mark_saved e id i p at here,
          reached-mark_revision_saved e id i p.content_revision p at here (omega arith),
        )
        (
          acknowledge p.content_revision p,
          refl,
          find-acknowledge e.playlists id i p.content_revision p at h,
          items-acknowledge p.content_revision p,
          clean-acknowledge p (found-RevisionsOk e.playlists id p v.revisions h),
          find-acknowledge_other e.playlists id i j p.content_revision p at here
              (own_id e.playlists id p h) other,
        )
