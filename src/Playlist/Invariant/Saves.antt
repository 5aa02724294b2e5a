-- ===== src/Playlist/Invariant/Saves.antt =====
-- Acknowledged saves keep the engine's invariant.
use retrovert.Common.{
  ℕ, zero, suc, ◌≡◌, refl, false, Option, none, some, List, [], ◌∷◌, arith, get_elem?, modify, inl,
  inr, ltb, Bool-cases, Option-cases,
}
use retrovert.Playlist.{Playlist, Cursor, Engine}
use retrovert.Playlist.Store.{playlist_index}
use retrovert.Playlist.Items.{acknowledge, mark_revision_saved, mark_saved, revision_at}
use retrovert.Playlist.Minted.{item_ids}
use retrovert.Playlist.Invariant.{Ascends, AllRevisionsOk, Plays, Inv}
use retrovert.Playlist.Invariant.Parts.{Ascends-modify, Plays-modify}

module _ {ℓ} {P : Type ℓ} where
  -- An acknowledged revision is one that the playlist reached.
  RevisionsOk-acknowledge :
      (revision : ℕ) (ps : List (Playlist P)) (i : ℕ)
      → ltb (elim (get_elem? ps i) [ none ↦ 0 | some p ↦ p.content_revision ]) revision ≡ false
      → AllRevisionsOk ps
      → AllRevisionsOk (modify ps i (acknowledge revision))
  unfolding acknowledge
  RevisionsOk-acknowledge revision [] i h r = tt
  RevisionsOk-acknowledge revision (p ∷ ps) zero h r = (ground arith, r.1)
  RevisionsOk-acknowledge revision (p ∷ ps) (suc i) h r =
      (r.0, RevisionsOk-acknowledge revision ps i h r.1)

  -- All that a save changes of a playlist is what was saved of it.
  acknowledge-Plays :
      (n revision : ℕ) (ps : List (Playlist P)) (i : ℕ) (o : Option Cursor)
      → Plays n ps o
      → Plays n (modify ps i (acknowledge revision)) o
  unfolding acknowledge
  acknowledge-Plays n revision = Plays-modify n (acknowledge revision) (λ p. refl) (λ p iid h. refl)

  acknowledge-ids :
      (revision : ℕ) (ps : List (Playlist P)) (i : ℕ)
      → item_ids (modify ps i (acknowledge revision)) ≡ item_ids ps
  unfolding acknowledge
  acknowledge-ids revision [] i = refl
  acknowledge-ids revision (p ∷ ps) zero = refl
  acknowledge-ids revision (p ∷ ps) (suc i) = rw (acknowledge-ids revision ps i)

  acknowledge-Ascends :
      (revision lo hi : ℕ) (ps : List (Playlist P)) (i : ℕ)
      → Ascends lo ps hi
      → Ascends lo (modify ps i (acknowledge revision)) hi
  unfolding acknowledge
  acknowledge-Ascends revision lo hi ps i h =
      Ascends-modify (acknowledge revision) (λ p. refl) lo hi ps i h

  pub mark_revision_saved-Inv :
      (e : Engine P) (id revision : ℕ) → Inv e → Inv (mark_revision_saved e id revision).0
  unfolding mark_revision_saved
  mark_revision_saved-Inv e id revision v = elim (Option-cases (playlist_index e id)) [
    | inl missing ↦ rw (missing, mark_revision_saved) v
    | inr (i, at) ↦ elim (Bool-cases (ltb (revision_at e i) revision)) [
      | inl later ↦ rw (at, later, mark_revision_saved) v
      | inr reached ↦
          rw (at, reached, mark_revision_saved)
            (record {
              ids_ascend =
                  acknowledge-Ascends revision 0 e.next_playlist_id e.playlists i v.ids_ascend;
              ids_fit = v.ids_fit;
              items_minted = rw acknowledge-ids v.items_minted;
              items_fit = v.items_fit;
              revision_fits = v.revision_fits;
              revisions = RevisionsOk-acknowledge revision e.playlists i reached v.revisions;
              plays = acknowledge-Plays e.next_item_id revision e.playlists i e.cursor v.plays;
            })
    ]
  ]

  pub mark_saved-Inv : (e : Engine P) (id : ℕ) → Inv e → Inv (mark_saved e id).0
  unfolding mark_saved
  mark_saved-Inv e id v = elim (Option-cases (playlist_index e id)) [
    | inl missing ↦ rw (missing, mark_saved) v
    | inr (i, at) ↦ rw (at, mark_saved) (mark_revision_saved-Inv e id (revision_at e i) v)
  ]
