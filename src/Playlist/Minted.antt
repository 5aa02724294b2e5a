-- ===== src/Playlist/Minted.antt =====
-- Ids of items: all distinct, and none above the counter that mints them.
use mathlib.Core.List.{
  Mem, Nodup, Perm, Sublist, Nodup-cons, mem-cons, mem-cons_self, mem-cons_of_mem, append_assoc,
  perm_middle, sublist-append_left, sublist-append_right,
}
use mathlib.Core.List.Perm
use mathlib.Core.List.Sublist
use mathlib.Core.List.Nodup
use mathlib.Core.Logic.Or
use native.Mathlib.Bridge.{le_prop}
use retrovert.Common.{
  ℕ, zero, suc, ◌+◌, ◌≤◌, ◌<◌, ◌≡◌, refl, sym, ◌≢◌, subst, Bool, true, some, List, [], ◌∷◌, ◌++◌,
  map, arith, ◌==◌, length, get_elem?, modify, erase_idx, insert_idx, find, position, Bool-cases,
  inl, inr,
}
use retrovert.Common.Positions.{absent}
use retrovert.Playlist.{Item, Playlist}

module _ {ℓ} {P : Type ℓ} where
  abbrev pub ids : List (Item P) → List ℕ
  ids = map (λ i. i.id)

  -- The ids of all items of all playlists.
  abbrev pub item_ids : List (Playlist P) → List ℕ
  item_ids [] = []
  item_ids (p ∷ ps) = ids p.items ++ item_ids ps

pub record Minted (n : ℕ) (xs : List ℕ) : Type 0 where
  pub distinct : Nodup xs
  pub bounded : (a : ℕ) → Mem a xs → a ≤ n

pub Minted-perm : {n : ℕ} {xs ys : List ℕ} → Perm ys xs → Minted n xs → Minted n ys
Minted-perm p m = record {
  distinct = Perm.nodup (Perm.symm p) m.distinct;
  bounded = λ a h. m.bounded a (Perm.subset p a h);
}

pub Minted-sublist : {n : ℕ} {xs ys : List ℕ} → Sublist ys xs → Minted n xs → Minted n ys
Minted-sublist s m = record {
  distinct = Nodup.sublist s m.distinct;
  bounded = λ a h. m.bounded a (Sublist.subset s a h);
}

-- The next id is new.
pub Minted-cons : (n : ℕ) (xs : List ℕ) → Minted n xs → Minted (n + 1) ((n + 1) ∷ xs)
Minted-cons n xs m = record {
  distinct = Nodup-cons.1 (λ h. absurd (omega (arith, m.bounded (n + 1) h)), m.distinct);
  bounded =
      λ a h. Or.elim le_prop (mem-cons.0 h) (λ e. omega arith) (λ t. omega (arith, m.bounded a t));
}

pub Minted-mono : {n k : ℕ} {xs : List ℕ} → n ≤ k → Minted n xs → Minted k xs
Minted-mono h m = record { distinct = m.distinct; bounded = λ a t. omega (arith, m.bounded a t) }

module _ {ℓ} {P : Type ℓ} where
  pub item_ids-append :
      (ps qs : List (Playlist P)) → item_ids (ps ++ qs) ≡ item_ids ps ++ item_ids qs
  item_ids-append [] qs = refl
  item_ids-append (p ∷ ps) qs = rw (item_ids-append ps qs, append_assoc)

  pub item_ids-erase :
      (ps : List (Playlist P)) (i : ℕ) → Sublist (item_ids (erase_idx ps i)) (item_ids ps)
  item_ids-erase [] i = Sublist.refl []
  item_ids-erase (p ∷ ps) zero = sublist-append_right (ids p.items) (item_ids ps)
  item_ids-erase (p ∷ ps) (suc i) =
      Sublist.append (Sublist.refl (ids p.items)) (item_ids-erase ps i)

  pub item_ids-modify-perm :
      (f : Playlist P → Playlist P)
      → ((p : Playlist P) → Perm (ids (f p).items) (ids p.items))
      → (ps : List (Playlist P)) (i : ℕ) → Perm (item_ids (modify ps i f)) (item_ids ps)
  item_ids-modify-perm f keep [] i = Perm.refl []
  item_ids-modify-perm f keep (p ∷ ps) zero = Perm.append (keep p) (Perm.refl (item_ids ps))
  item_ids-modify-perm f keep (p ∷ ps) (suc i) =
      Perm.append (Perm.refl (ids p.items)) (item_ids-modify-perm f keep ps i)

  pub item_ids-modify-sublist :
      (f : Playlist P → Playlist P)
      → ((p : Playlist P) → Sublist (ids (f p).items) (ids p.items))
      → (ps : List (Playlist P)) (i : ℕ) → Sublist (item_ids (modify ps i f)) (item_ids ps)
  item_ids-modify-sublist f keep [] i = Sublist.refl []
  item_ids-modify-sublist f keep (p ∷ ps) zero =
      Sublist.append (keep p) (Sublist.refl (item_ids ps))
  item_ids-modify-sublist f keep (p ∷ ps) (suc i) =
      Sublist.append (Sublist.refl (ids p.items)) (item_ids-modify-sublist f keep ps i)

  pub item_ids-modify-cons :
      (f : Playlist P → Playlist P) (a : ℕ)
      → ((p : Playlist P) → Perm (ids (f p).items) (a ∷ ids p.items))
      → (ps : List (Playlist P)) (i : ℕ) → i < length ps
      → Perm (item_ids (modify ps i f)) (a ∷ item_ids ps)
  item_ids-modify-cons f a more [] i h = absurd (omega arith)
  item_ids-modify-cons f a more (p ∷ ps) zero h = Perm.append (more p) (Perm.refl (item_ids ps))
  item_ids-modify-cons f a more (p ∷ ps) (suc i) h =
      Perm.trans
        (Perm.append (Perm.refl (ids p.items)) (item_ids-modify-cons f a more ps i (omega arith)))
        (perm_middle (ids p.items) (item_ids ps))

  pub ids-find-sublist :
      (q : Playlist P → Bool) (ps : List (Playlist P)) (p : Playlist P)
      → find q ps ≡ some p
      → Sublist (ids p.items) (item_ids ps)
  ids-find-sublist q [] p h = cc
  ids-find-sublist q (r ∷ ps) p h = elim (Bool-cases (q r)) [
    | inl hit ↦
        let e : r ≡ p = ground arith in
        subst (λ (s : Playlist P). Sublist (ids s.items) (ids r.items ++ item_ids ps)) e
          (sublist-append_left (ids r.items) (item_ids ps))
    | inr miss ↦
        Sublist.trans (ids-find-sublist q ps p (ground arith))
          (sublist-append_right (ids r.items) (item_ids ps))
  ]

  pub ids-erase : (xs : List (Item P)) (i : ℕ) → Sublist (ids (erase_idx xs i)) (ids xs)
  ids-erase [] i = Sublist.refl []
  ids-erase (x ∷ xs) zero = Sublist.cons x.id (Sublist.refl (ids xs))
  ids-erase (x ∷ xs) (suc i) = Sublist.cons-cons x.id (ids-erase xs i)

  pub ids-insert-perm :
      (xs : List (Item P)) (i : ℕ) (a : Item P) → Perm (ids (insert_idx xs i a)) (a.id ∷ ids xs)
  ids-insert-perm xs zero a = Perm.refl (a.id ∷ ids xs)
  ids-insert-perm [] (suc i) a = Perm.refl (a.id ∷ [])
  ids-insert-perm (x ∷ xs) (suc i) a =
      Perm.trans (Perm.cons x.id (ids-insert-perm xs i a)) (Perm.swap a.id x.id (ids xs))

  pub ids-erase-perm :
      (xs : List (Item P)) (i : ℕ) (a : Item P)
      → get_elem? xs i ≡ some a
      → Perm (a.id ∷ ids (erase_idx xs i)) (ids xs)
  ids-erase-perm [] i a h = cc
  ids-erase-perm (x ∷ xs) zero a h =
      let e : x ≡ a = ground arith in
      subst (λ (b : Item P). Perm (b.id ∷ ids xs) (x.id ∷ ids xs)) e (Perm.refl (x.id ∷ ids xs))
  ids-erase-perm (x ∷ xs) (suc i) a h =
      Perm.trans (Perm.swap x.id a.id (ids (erase_idx xs i)))
        (Perm.cons x.id (ids-erase-perm xs i a h))

  -- An id that is in no list is at no position, and the other way round.
  pub absent_of_not-mem :
      (iid : ℕ) (xs : List (Item P)) → ¬ Mem iid (ids xs) → absent (λ i. i.id == iid) xs ≡ true
  absent_of_not-mem iid [] h = refl
  absent_of_not-mem iid (x ∷ xs) h = ground (
    arith,
    absent_of_not-mem iid xs (λ m. h (mem-cons.1 (Or.inr m))),
    λ (e : iid ≡ x.id). h (mem-cons.1 (Or.inl e)),
  )

  -- Where ids are distinct, the one that is erased is gone.
  pub absent-erase_self :
      (iid : ℕ) (xs : List (Item P)) (i : ℕ)
      → Nodup (ids xs)
      → position (λ i. i.id == iid) xs ≡ some i
      → absent (λ i. i.id == iid) (erase_idx xs i) ≡ true
  absent-erase_self iid [] i d h = cc
  absent-erase_self iid (x ∷ xs) zero d h =
      let e : iid ≡ x.id = ground arith in
      absent_of_not-mem iid xs (λ m. (Nodup-cons.0 d).0 (subst (λ a. Mem a (ids xs)) e m))
  absent-erase_self iid (x ∷ xs) (suc i) d h =
      ground (arith, absent-erase_self iid xs i (Nodup-cons.0 d).1)

  -- An id stands in the list where its item does.
  pub mem-get :
      (xs : List (Item P)) (i : ℕ) (a : Item P) → get_elem? xs i ≡ some a → Mem a.id (ids xs)
  mem-get [] i a h = cc
  mem-get (x ∷ xs) zero a h =
      let e : x ≡ a = ground arith in
      subst (λ (b : Item P). Mem b.id (ids (x ∷ xs))) e mem-cons_self
  mem-get (x ∷ xs) (suc i) a h = mem-cons_of_mem x.id (mem-get xs i a h)

  -- Where ids are distinct, a search for the id of an item finds the item's position.
  pub position-get :
      (xs : List (Item P)) (i : ℕ) (a : Item P)
      → Nodup (ids xs)
      → get_elem? xs i ≡ some a
      → position (λ j. j.id == a.id) xs ≡ some i
  position-get [] i a d h = cc
  position-get (x ∷ xs) zero a d h = let e : x.id ≡ a.id = ground arith in ground arith
  position-get (x ∷ xs) (suc i) a d h =
      let other : x.id ≢ a.id =
        λ e. (Nodup-cons.0 d).0 (subst (λ n. Mem n (ids xs)) (sym e) (mem-get xs i a h)) in
      ground (arith, position-get xs i a (Nodup-cons.0 d).1 h, other)
