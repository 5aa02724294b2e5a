-- ===== src/Playlist/Invariant/History.antt =====
-- The invariant of the engine holds after every history of calls.
use mathlib.Core.List.{
  Mem, Nodup, not-mem-nil, mem-cons, Nodup-cons, Nodup-append, Nodup-nil, append-nil, mem-append,
}
use mathlib.Core.Logic.Or
use native.Mathlib.Bridge.{le_prop}
use retrovert.Common.{
  ℕ, ◌+◌, ◌≤◌, ◌<◌, ◌≡◌, refl, subst, true, Option, List, [], ◌∷◌, ◌++◌, arith, leb, inl, inr,
  u64_max, Bool-cases, length, Outcome, returned, panicked,
}
use retrovert.Playlist.{Item, Engine, new}
use retrovert.Playlist.Store.{fresh}
use retrovert.Playlist.Persist.{WireItem, Document, number_items, load, store_document}
use retrovert.Playlist.Transport.{poll}
use retrovert.Playlist.Minted.{ids, item_ids, item_ids-append, Minted}
use retrovert.Playlist.Session.{
  Call, creates, deletes, renames, touches, appends, edits, removes, moves, saves, saves_revision,
  loads, starts, stops, sets_mode, polls, finishes, fails, goes_next, goes_back, step, run, loaded,
  polled,
}
use retrovert.Playlist.Invariant.{Inv}
use retrovert.Playlist.Invariant.Edits.{
  store-Inv, create-Inv, rename-Inv, touch_structure_preserving_dirty-Inv, append-Inv,
  edit_item-Inv,
}
use retrovert.Playlist.Invariant.Shifts.{move_item-Inv}
use retrovert.Playlist.Invariant.Saves.{mark_saved-Inv, mark_revision_saved-Inv}
use retrovert.Playlist.Invariant.Removals.{remove_item-Inv, delete-Inv}
use retrovert.Playlist.Invariant.Moves.{start-Inv, stop-Inv, set_mode-Inv, poll-Inv}
use retrovert.Playlist.Invariant.Outcomes.{on_finished-Inv, next-Inv, on_failed-Inv, previous-Inv}

-- Loaded items follow the minted ones.
record Follows (n k : ℕ) (xs : List ℕ) : Type 0 where
  distinct : Nodup xs
  above : (a : ℕ) → Mem a xs → n < a
  below : (a : ℕ) → Mem a xs → a ≤ n + k

Minted-append :
    (n k : ℕ) (xs ys : List ℕ) → Minted n xs → Follows n k ys → Minted (n + k) (xs ++ ys)
Minted-append n k xs ys m f = record {
  distinct =
      Nodup-append.1 (m.distinct, f.distinct, λ a h t. omega (arith, m.bounded a h, f.above a t));
  bounded = λ a h.
      Or.elim le_prop (mem-append.0 h) (λ s. omega (arith, m.bounded a s)) (λ t. f.below a t);
}

module _ {ℓ} {P : Type ℓ} where
  number_items-Follows :
      (n : ℕ) (ws : List (WireItem P)) → Follows n (length ws) (ids (number_items n ws))
  unfolding number_items
  number_items-Follows n [] = record {
    distinct = Nodup-nil;
    above = λ a h. absurd (not-mem-nil h);
    below = λ a h. absurd (not-mem-nil h);
  }
  number_items-Follows n (w ∷ ws) =
      let rest = number_items-Follows (n + 1) ws in
      record {
        distinct = Nodup-cons.1 (λ h. absurd (omega (arith, rest.above (n + 1) h)), rest.distinct);
        above = λ a h.
            Or.elim le_prop (mem-cons.0 h) (λ e. omega arith) (λ t. omega (arith, rest.above a t));
        below = λ a h.
            Or.elim le_prop (mem-cons.0 h) (λ e. omega arith) (λ t. omega (arith, rest.below a t));
      }

  loaded-Inv :
      (e : Engine P) (d : Document P)
      → leb (e.next_playlist_id + 1) u64_max ≡ true
      → leb (e.next_item_id + length d.items) u64_max ≡ true
      → Inv e
      → Inv (store_document e (e.next_playlist_id + 1) (e.next_item_id + length d.items) d)
  unfolding store_document
  loaded-Inv e d room space v =
      let q = fresh (e.next_playlist_id + 1) d.name (number_items e.next_item_id d.items) in
      store-Inv e q (e.next_item_id + length d.items) refl (ground arith) (omega arith)
        (ground arith) (omega arith)
        (rw (item_ids-append e.playlists (q ∷ [])) (
          rw (append-nil (ids q.items)) (
            Minted-append e.next_item_id (length d.items) (item_ids e.playlists) (ids q.items)
              v.items_minted (number_items-Follows e.next_item_id d.items))))
        v

  load-Inv : (e : Engine P) (d : Document P) → Inv e → Inv (loaded e (load e d))
  unfolding load
  load-Inv e d v = elim (Bool-cases (leb (e.next_playlist_id + 1) u64_max)) [
    | inl room ↦ elim (Bool-cases (leb (e.next_item_id + length d.items) u64_max)) [
      | inl space ↦ rw (room, space, load) (loaded-Inv e d room space v)
      | inr full ↦ rw (room, full, load) v
    ]
    | inr full ↦ rw (full, load) v
  ]

  -- A change of an item that a caller makes leaves its id alone.
  abbrev pub KeepsIds : Call P → Type ℓ
  KeepsIds (edits pid iid edit) = (i : Item P) → (edit i).id ≡ i.id
  KeepsIds _ = Unit

  abbrev pub AllKeepIds : List (Call P) → Type ℓ
  AllKeepIds [] = Unit
  AllKeepIds (c ∷ cs) = KeepsIds c × AllKeepIds cs

  polled-Inv : (e e' : Engine P) → polled (poll e) ≡ returned e' → Inv e → Inv e'
  polled-Inv e e' h v = go (poll e) refl h
    where
      go : (o : Outcome (Engine P × Option (Item P))) → poll e ≡ o → polled o ≡ returned e' → Inv e'
      go (returned (s, r)) p q = subst Inv (ground arith) (poll-Inv e s r p v)
      go panicked p q = cc

  -- Every call keeps the invariant.
  pub step-Inv :
      (e e' : Engine P) (c : Call P) → step e c ≡ returned e' → KeepsIds c → Inv e → Inv e'
  unfolding step
  step-Inv e e' (creates name) h k v = subst Inv (ground arith) (create-Inv e name v)
  step-Inv e e' (deletes id) h k v = subst Inv (ground arith) (delete-Inv e id v)
  step-Inv e e' (renames id name) h k v = subst Inv (ground arith) (rename-Inv e id name v)
  step-Inv e e' (touches id) h k v =
      subst Inv (ground arith) (touch_structure_preserving_dirty-Inv e id v)
  step-Inv e e' (appends id spec) h k v = subst Inv (ground arith) (append-Inv e id spec v)
  step-Inv e e' (edits pid iid edit) h k v =
      subst Inv (ground arith) (edit_item-Inv e pid iid edit k v)
  step-Inv e e' (removes pid iid) h k v = subst Inv (ground arith) (remove_item-Inv e pid iid v)
  step-Inv e e' (moves pid iid after) h k v =
      subst Inv (ground arith) (move_item-Inv e pid iid after v)
  step-Inv e e' (saves id) h k v = subst Inv (ground arith) (mark_saved-Inv e id v)
  step-Inv e e' (saves_revision id revision) h k v =
      subst Inv (ground arith) (mark_revision_saved-Inv e id revision v)
  step-Inv e e' (loads d) h k v = subst Inv (ground arith) (load-Inv e d v)
  step-Inv e e' (starts pid from) h k v = subst Inv (ground arith) (start-Inv e pid from v)
  step-Inv e e' stops h k v = subst Inv (ground arith) (stop-Inv e v)
  step-Inv e e' (sets_mode m) h k v = subst Inv (ground arith) (set_mode-Inv e m v)
  step-Inv e e' polls h k v = polled-Inv e e' h v
  step-Inv e e' finishes h k v = subst Inv (ground arith) (on_finished-Inv e v)
  step-Inv e e' fails h k v = subst Inv (ground arith) (on_failed-Inv e v)
  step-Inv e e' goes_next h k v = subst Inv (ground arith) (next-Inv e v)
  step-Inv e e' goes_back h k v = subst Inv (ground arith) (previous-Inv e v)

  pub run-Inv :
      (e e' : Engine P) (cs : List (Call P))
      → run e cs ≡ returned e'
      → AllKeepIds cs
      → Inv e
      → Inv e'
  unfolding run
  run-Inv e e' [] h k v = subst Inv (ground arith) v
  run-Inv e e' (c ∷ cs) h k v = go (step e c) refl h (λ s r w. run-Inv s e' cs r k.1 w)
    where
      go :
          (o : Outcome (Engine P))
          → step e c ≡ o
          → elim o [ returned s ↦ run s cs | panicked ↦ panicked ] ≡ returned e'
          → ((s : Engine P) → run s cs ≡ returned e' → Inv s → Inv e')
          → Inv e'
      go (returned s) p q rest = rest s q (step-Inv e s c p k.0 v)
      go panicked p q rest = cc

  new-Inv : Inv (new {P = P})
  unfolding new
  new-Inv = record {
    ids_ascend = omega arith;
    ids_fit = omega arith;
    items_minted = record { distinct = Nodup-nil; bounded = λ a h. absurd (not-mem-nil h) };
    items_fit = omega arith;
    revision_fits = omega arith;
    revisions = tt;
    plays = tt;
  }

  -- After any calls on a new engine whose edits keep the ids of items, and up to a panic: the ids of
  -- playlists rise along the list and those of items are all different, none above its counter;
  -- counters and revisions fit in 64 bits, and no saved or structure revision is above the content
  -- revision; and the cursor is on a stored playlist, has no current item exactly until its first
  -- poll, and has `current_removed` set exactly when its current item is no longer there.
  pub run-new-Inv :
      (cs : List (Call P)) (e : Engine P) → run new cs ≡ returned e → AllKeepIds cs → Inv e
  run-new-Inv cs e h k = run-Inv new e cs h k new-Inv
