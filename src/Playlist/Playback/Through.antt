-- ===== src/Playlist/Playback/Through.antt =====
-- Playing a playlist from its first item to its last.
use mathlib.Core.List.{Nodup}
use retrovert.Common.{
  ℕ, suc, ◌+◌, ◌≡◌, refl, ap, sym, ◌∙◌, true, false, Option, none, some, List, [], ◌∷◌, ◌++◌, arith,
  ◌==◌, get_elem?, length, position, returned, length-append, Option-cases, inl, inr,
}
use retrovert.Playlist.{Item, Playlist, Mode, Advance, Cursor, Engine}
use retrovert.Playlist.Cursors.{arrive, start_cursor}
use retrovert.Playlist.Store.{playlist}
use retrovert.Playlist.Transport.{stop, start, start_position, poll}
use retrovert.Playlist.Minted.{ids, position-get}

pub get-split {ℓ} :
    {A : Type ℓ} (pre : List A) (a : A) (rest : List A)
    → get_elem? (pre ++ a ∷ rest) (length pre) ≡ some a
get-split [] a rest = refl
get-split (x ∷ pre) a rest = get-split pre a rest

get-split_next {ℓ} :
    {A : Type ℓ} (pre : List A) (a b : A) (rest : List A)
    → get_elem? (pre ++ a ∷ b ∷ rest) (length pre + 1) ≡ some b
get-split_next [] a b rest = ground arith
get-split_next (x ∷ pre) a b rest = ground (arith, get-split_next pre a b rest)

-- A cursor that has played the item and is to go on.
abbrev pub onward : ℕ → ℕ → ℕ → ℕ → Cursor
onward pid iid position failures = record {
  playlist = pid;
  current = some iid;
  position = position;
  pending = some Advance.forward;
  failures = failures;
  current_removed = false;
}

abbrev pub with_cursor {ℓ} : {P : Type ℓ} → Engine P → Cursor → Engine P
with_cursor e c = record e { cursor = some c }

module _ {ℓ} {P : Type ℓ} (e : Engine P) (pid : ℕ) (p : Playlist P)
    (found : playlist e pid ≡ some p) (distinct : Nodup (ids p.items)) where
  position-onward :
      (pre : List (Item P)) (a : Item P) (rest : List (Item P))
      → p.items ≡ pre ++ a ∷ rest
      → position (λ j. j.id == a.id) p.items ≡ some (length pre)
  position-onward pre a rest split =
      position-get p.items (length pre) a distinct (rw split (get-split pre a rest))

  pub poll-next :
      (pre : List (Item P)) (a b : Item P) (rest : List (Item P)) (failures : ℕ)
      → p.items ≡ pre ++ a ∷ b ∷ rest
      → poll (with_cursor e (onward pid a.id (length pre) failures))
        ≡ returned (
          with_cursor e (arrive (onward pid a.id (length pre) failures) (length pre + 1) b.id),
          some b,
        )
  unfolding poll
  poll-next pre a b rest failures split =
      let here = position-onward pre a (b ∷ rest) split in
      let there : get_elem? p.items (length pre + 1) ≡ some b =
        rw split (get-split_next pre a b rest) in
      let size : length p.items ≡ length pre + (length rest + 2) =
        ap length split ∙ length-append pre (a ∷ b ∷ rest) ∙ omega arith in
      ground (arith, found, here, there, size)

  -- Past the last item a sequential playback ends.
  pub poll-last :
      (pre : List (Item P)) (a : Item P) (failures : ℕ)
      → p.items ≡ pre ++ a ∷ []
      → e.mode ≡ Mode.sequential
      → poll (with_cursor e (onward pid a.id (length pre) failures))
        ≡ returned (stop (with_cursor e (onward pid a.id (length pre) failures)), none)
  unfolding poll
  poll-last pre a failures split mode =
      let here = position-onward pre a [] split in
      let size : length p.items ≡ length pre + 1 =
        ap length split ∙ length-append pre (a ∷ []) ∙ omega arith in
      ground (arith, found, here, size)

  -- Past the last item a playback in loop mode begins again.
  pub poll-wrap :
      (first : Item P) (pre : List (Item P)) (a : Item P) (failures : ℕ)
      → p.items ≡ pre ++ a ∷ []
      → get_elem? p.items 0 ≡ some first
      → e.mode ≡ Mode.loop
      → poll (with_cursor e (onward pid a.id (length pre) failures))
        ≡ returned
            (with_cursor e (arrive (onward pid a.id (length pre) failures) 0 first.id), some first)
  unfolding poll
  poll-wrap first pre a failures split head mode =
      let here = position-onward pre a [] split in
      let size : length p.items ≡ length pre + 1 =
        ap length split ∙ length-append pre (a ∷ []) ∙ omega arith in
      ground (arith, found, here, size, head)

  pub poll-first :
      (pre : List (Item P)) (a : Item P) (rest : List (Item P))
      → p.items ≡ pre ++ a ∷ rest
      → poll (with_cursor e (start_cursor pid (length pre)))
        ≡ returned
            (with_cursor e (arrive (start_cursor pid (length pre)) (length pre) a.id), some a)
  unfolding poll
  poll-first pre a rest split =
      let there : get_elem? p.items (length pre) ≡ some a = rw split (get-split pre a rest) in
      let size : length p.items ≡ length pre + suc (length rest) =
        ap length split ∙ length-append pre (a ∷ rest) in
      ground (arith, found, there, size)

pub cursor-stop {ℓ} : {P : Type ℓ} (e : Engine P) → (stop e).cursor ≡ none
unfolding stop
cursor-stop e = ground arith

-- A playback that began stands before its first item, in sequential mode.
pub start-true {ℓ} :
    {P : Type ℓ} (e e' : Engine P) (pid : ℕ) (from : Option ℕ) (p : Playlist P)
    → start e pid from ≡ (e', true)
    → playlist e' pid ≡ some p
    → (k : ℕ) × (start_position p from ≡ some k)
      × (e'.cursor ≡ some (start_cursor pid k))
      × (e'.mode ≡ Mode.sequential)
unfolding start playlist
start-true e e' pid from p h found = elim (Option-cases (playlist (stop e) pid)) [
  | inl missing ↦ absurd (ground arith)
  | inr (q, at) ↦ elim (Option-cases (start_position q from)) [
    | inl nowhere ↦ absurd (ground arith)
    | inr (k, position) ↦
        let same : q ≡ p = ground arith in
        (k, ap (λ r. start_position r from) (sym same) ∙ position, ground arith, ground arith)
  ]
]
