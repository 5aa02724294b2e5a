-- ===== src/Common/Moved.antt =====
-- Where `position` finds an element after another one was taken out or put in.
use Prim.Native.Nat.{ℕ, zero, suc, ◌+◌, ◌-◌, ◌<◌, ◌≤◌}
use mathlib.Core.Bool.{Bool, true, false}
use mathlib.Core.Path.{◌≡◌, ap}
use mathlib.Core.Logic.{◌≢◌}
use mathlib.Core.Option.{some}
use mathlib.Core.List.{List, [], ◌∷◌, Perm}
use mathlib.Core.List.Perm
use native.Mathlib.Omega.{arith}
use retrovert.Common.Tests.{if◌then◌else◌, ltb}
use retrovert.Common.Lists.{length, get_elem?, erase_idx, insert_idx, position}
use retrovert.Common.Positions.{absent}

module _ {ℓ} {A : Type ℓ} (q : A → Bool) where
  pub position-insert :
      (xs : List A) (i : ℕ) (a : A)
      → q a ≡ true
      → absent q xs ≡ true
      → i ≤ length xs
      → position q (insert_idx xs i a) ≡ some i
  position-insert xs zero a p h l = ground arith
  position-insert [] (suc i) a p h l = absurd (omega arith)
  position-insert (x ∷ xs) (suc i) a p h l = ground (arith, position-insert xs i a)

  pub position-insert_ne :
      (xs : List A) (i k : ℕ) (a : A)
      → q a ≡ false
      → position q xs ≡ some k
      → position q (insert_idx xs i a) ≡ some (if ltb k i then k else k + 1)
  position-insert_ne [] i k a p h = cc
  position-insert_ne (x ∷ xs) zero k a p h = ground arith
  position-insert_ne (x ∷ xs) (suc i) zero a p h = ground arith
  position-insert_ne (x ∷ xs) (suc i) (suc k) a p h = ground (arith, position-insert_ne xs i k a)

  pub position-erase_ne :
      (xs : List A) (i k : ℕ) (a : A)
      → get_elem? xs i ≡ some a
      → q a ≡ false
      → k ≢ i
      → position q xs ≡ some k
      → position q (erase_idx xs i) ≡ some (if ltb k i then k else k - 1)
  position-erase_ne [] i k a h p ne at = cc
  position-erase_ne (x ∷ xs) zero k a h p ne at = ground arith
  position-erase_ne (x ∷ xs) (suc i) zero a h p ne at = ground arith
  position-erase_ne (x ∷ xs) (suc i) (suc k) a h p ne at =
      let apart : k ≢ i = λ e. ne (ap suc e) in ground (arith, position-erase_ne xs i k a h p apart)

module _ {ℓ} {A : Type ℓ} where
  pub length-erase : (xs : List A) (i : ℕ) → i < length xs → length (erase_idx xs i) + 1 ≡ length xs
  length-erase [] i h = absurd (omega arith)
  length-erase (x ∷ xs) zero h = omega arith
  length-erase (x ∷ xs) (suc i) h = omega (arith, length-erase xs i (omega arith))

  pub insert-perm : (xs : List A) (i : ℕ) (a : A) → Perm (insert_idx xs i a) (a ∷ xs)
  insert-perm xs zero a = Perm.refl (a ∷ xs)
  insert-perm [] (suc i) a = Perm.refl (a ∷ [])
  insert-perm (x ∷ xs) (suc i) a = Perm.trans (Perm.cons x (insert-perm xs i a)) (Perm.swap a x xs)

  pub erase-perm :
      (xs : List A) (i : ℕ) (a : A) → get_elem? xs i ≡ some a → Perm (a ∷ erase_idx xs i) xs
  erase-perm [] i a h = cc
  erase-perm (x ∷ xs) zero a h = Perm.cons' (ground arith) (Perm.refl xs)
  erase-perm (x ∷ xs) (suc i) a h =
      Perm.trans (Perm.swap x a (erase_idx xs i)) (Perm.cons x (erase-perm xs i a h))
