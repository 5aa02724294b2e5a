-- ===== src/Playlist/Invariant/Parts.antt =====
-- The parts of the engine's invariant under changes of the list of playlists.
use mathlib.Core.List.{Perm}
use retrovert.Common.{
  ℕ, zero, suc, ◌+◌, ◌≤◌, ◌≡◌, refl, Option, none, some, List, [], ◌∷◌, ◌++◌, arith, ◌==◌, modify,
  erase_idx, inl, inr, u64_max,
}
use retrovert.Common.Positions.{find-modify, find-append}
use retrovert.Playlist.{Playlist, Cursor, Engine}
use retrovert.Playlist.Store.{touch, change}
use retrovert.Playlist.Minted.{ids, item_ids, item_ids-modify-perm, Minted, Minted-perm}
use retrovert.Playlist.Invariant.{
  Ascends, RevisionsOk, AllRevisionsOk, is_gone, current_gone, FitsCurrent, Tracks, Plays, Inv,
  Keeps,
}

FitsCurrent-mono : (n k : ℕ) (o : Option ℕ) → n ≤ k → FitsCurrent n o → FitsCurrent k o
FitsCurrent-mono n k none l h = tt
FitsCurrent-mono n k (some iid) l h = omega arith

module _ {ℓ} {P : Type ℓ} where
  Ascends-bound : (lo hi : ℕ) (ps : List (Playlist P)) → Ascends lo ps hi → lo ≤ hi
  Ascends-bound lo hi [] h = h
  Ascends-bound lo hi (p ∷ ps) h = omega (arith, Ascends-bound p.id hi ps h.1)

  pub Ascends-modify :
      (f : Playlist P → Playlist P)
      → ((p : Playlist P) → (f p).id ≡ p.id)
      → (lo hi : ℕ) (ps : List (Playlist P)) (i : ℕ) → Ascends lo ps hi
      → Ascends lo (modify ps i f) hi
  Ascends-modify f keep lo hi [] i h = h
  Ascends-modify f keep lo hi (p ∷ ps) zero h = ground (arith, keep p)
  Ascends-modify f keep lo hi (p ∷ ps) (suc i) h = (h.0, Ascends-modify f keep p.id hi ps i h.1)

  Ascends-lower :
      (lo k hi : ℕ) (ps : List (Playlist P)) → lo ≤ k → Ascends k ps hi → Ascends lo ps hi
  Ascends-lower lo k hi [] l h = omega arith
  Ascends-lower lo k hi (p ∷ ps) l h = (omega arith, h.1)

  pub Ascends-erase :
      (lo hi : ℕ) (ps : List (Playlist P)) (i : ℕ)
      → Ascends lo ps hi
      → Ascends lo (erase_idx ps i) hi
  Ascends-erase lo hi [] i h = h
  Ascends-erase lo hi (p ∷ ps) zero h = Ascends-lower lo p.id hi ps (omega arith) h.1
  Ascends-erase lo hi (p ∷ ps) (suc i) h = (h.0, Ascends-erase p.id hi ps i h.1)

  pub Ascends-append :
      (lo hi : ℕ) (ps : List (Playlist P)) (q : Playlist P)
      → q.id ≡ hi + 1
      → Ascends lo ps hi
      → Ascends lo (ps ++ q ∷ []) (hi + 1)
  Ascends-append lo hi [] q e h = (omega arith, omega arith)
  Ascends-append lo hi (p ∷ ps) q e h = (h.0, Ascends-append p.id hi ps q e h.1)

  pub RevisionsOk-modify :
      (f : Playlist P → Playlist P)
      → ((p : Playlist P) → RevisionsOk p → RevisionsOk (f p))
      → (ps : List (Playlist P)) (i : ℕ) → AllRevisionsOk ps
      → AllRevisionsOk (modify ps i f)
  RevisionsOk-modify f keep [] i h = tt
  RevisionsOk-modify f keep (p ∷ ps) zero h = (keep p h.0, h.1)
  RevisionsOk-modify f keep (p ∷ ps) (suc i) h = (h.0, RevisionsOk-modify f keep ps i h.1)

  pub RevisionsOk-erase :
      (ps : List (Playlist P)) (i : ℕ) → AllRevisionsOk ps → AllRevisionsOk (erase_idx ps i)
  RevisionsOk-erase [] i h = tt
  RevisionsOk-erase (p ∷ ps) zero h = h.1
  RevisionsOk-erase (p ∷ ps) (suc i) h = (h.0, RevisionsOk-erase ps i h.1)

  pub RevisionsOk-append :
      (ps : List (Playlist P)) (q : Playlist P)
      → AllRevisionsOk ps
      → RevisionsOk q
      → AllRevisionsOk (ps ++ q ∷ [])
  RevisionsOk-append [] q h r = (r, tt)
  RevisionsOk-append (p ∷ ps) q h r = (h.0, RevisionsOk-append ps q h.1 r)

  pub Plays-mono :
      (n k : ℕ) (ps : List (Playlist P)) (o : Option Cursor) → n ≤ k → Plays n ps o → Plays k ps o
  Plays-mono n k ps none l h = tt
  Plays-mono n k ps (some c) l (p, at, t) = (
    p,
    at,
    record {
      waiting = t.waiting;
      removed = t.removed;
      current_fits = FitsCurrent-mono n k c.current l t.current_fits;
      failures_fit = t.failures_fit;
    },
  )

  module _ (n : ℕ) (f : Playlist P → Playlist P) (same_id : (p : Playlist P) → (f p).id ≡ p.id)
      (same_items : (p : Playlist P) (iid : ℕ) → iid ≤ n → is_gone iid (f p) ≡ is_gone iid p) where
    current_gone-keeps :
        (p : Playlist P) (o : Option ℕ) → FitsCurrent n o → current_gone o (f p) ≡ current_gone o p
    current_gone-keeps p none h = refl
    current_gone-keeps p (some iid) h = same_items p iid h

    Tracks-keeps : (p : Playlist P) (c : Cursor) → Tracks n p c → Tracks n (f p) c
    Tracks-keeps p c t = record {
      waiting = t.waiting;
      removed = ground (arith, current_gone-keeps p c.current t.current_fits, t.removed);
      current_fits = t.current_fits;
      failures_fit = t.failures_fit;
    }

    pub Plays-modify :
        (ps : List (Playlist P)) (i : ℕ) (o : Option Cursor)
        → Plays n ps o
        → Plays n (modify ps i f) o
    Plays-modify ps i none h = tt
    Plays-modify ps i (some c) (p, at, t) =
        elim (find-modify (λ q. q.id == c.playlist) f same_test ps i p at) [
          | inl same ↦ (p, same, t)
          | inr changed ↦ (f p, changed, Tracks-keeps p c t)
        ]
      where
        same_test : (a : Playlist P) → ((f a).id == c.playlist) ≡ (a.id == c.playlist)
        same_test a = ground (arith, same_id a)

  pub Plays-append :
      (n : ℕ) (ps : List (Playlist P)) (q : Playlist P) (o : Option Cursor)
      → Plays n ps o
      → Plays n (ps ++ q ∷ []) o
  Plays-append n ps q none h = tt
  Plays-append n ps q (some c) (p, at, t) = (p, find-append (λ r. r.id == c.playlist) ps q p at, t)

  -- The invariant after one playlist was changed, items up to `n` minted and the engine touched.
  pub change_minting-Inv :
      (e : Engine P) (n i : ℕ) (f : Playlist P → Playlist P)
      → e.next_item_id ≤ n
      → n ≤ u64_max
      → Keeps e.next_item_id f
      → Minted n (item_ids (modify e.playlists i f))
      → Inv e
      → Inv (change (record e { next_item_id = n }) i f)
  unfolding touch
  change_minting-Inv e n i f more fits k m v = record {
    ids_ascend = Ascends-modify f k.keeps_id 0 e.next_playlist_id e.playlists i v.ids_ascend;
    ids_fit = v.ids_fit;
    items_minted = m;
    items_fit = fits;
    revision_fits = omega arith;
    revisions = RevisionsOk-modify f k.keeps_revisions e.playlists i v.revisions;
    plays =
        Plays-mono e.next_item_id n (modify e.playlists i f) e.cursor more
          (Plays-modify e.next_item_id f k.keeps_id k.keeps_items e.playlists i e.cursor v.plays);
  }

  -- The same where no item is minted and the ids of the items stay, in some order.
  pub change-Inv :
      (e : Engine P) (i : ℕ) (f : Playlist P → Playlist P)
      → Keeps e.next_item_id f
      → ((p : Playlist P) → Perm (ids (f p).items) (ids p.items))
      → Inv e
      → Inv (change e i f)
  change-Inv e i f k same v =
      change_minting-Inv e e.next_item_id i f (omega arith) v.items_fit k
        (Minted-perm (item_ids-modify-perm f same e.playlists i) v.items_minted) v
