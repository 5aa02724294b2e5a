-- ===== src/Common/Positions.antt =====
-- How `find` and `position` see a list that was changed at an index.
use mathlib.Core.Option
use Prim.Native.Nat.{ℕ, zero, suc, ◌<◌}
use mathlib.Core.Bool.{Bool, true, false}
use mathlib.Core.Path.{◌≡◌, refl}
use mathlib.Core.Logic.{◌⊎◌}
use mathlib.Core.Option.{Option, none, some}
use mathlib.Core.List.{List, [], ◌∷◌, ◌++◌}
use native.Mathlib.Omega.{arith}
use retrovert.Common.Tests.{if◌then◌else◌, is_none}
use retrovert.Common.Lists.{length, get_elem?, modify, erase_idx, insert_idx, find, position}

module _ {ℓ} {A : Type ℓ} (q : A → Bool) where
  -- `find` returns the element at the position, which passes the test.
  pub position-some :
      (xs : List A) (i : ℕ)
      → position q xs ≡ some i
      → (x : A) × (get_elem? xs i ≡ some x) × (q x ≡ true) × (find q xs ≡ some x)
  position-some [] i h = cc
  position-some (x ∷ xs) zero h = (x, refl, ground arith, ground arith)
  position-some (x ∷ xs) (suc i) h =
      let (y, at, passes, found) = position-some xs i (ground arith) in
      (y, at, passes, ground arith)

  pub position-none : (xs : List A) → position q xs ≡ none → find q xs ≡ none
  position-none [] h = refl
  position-none (x ∷ xs) h = ground (arith, position-none xs)

  pub find-some : (xs : List A) (x : A) → find q xs ≡ some x → q x ≡ true
  find-some [] x h = cc
  find-some (y ∷ xs) x h = ground (arith, find-some xs x)

  pub find-none : (xs : List A) → find q xs ≡ none → position q xs ≡ none
  find-none [] h = refl
  find-none (x ∷ xs) h = ground (arith, find-none xs)

  pub position-lt : (xs : List A) (i : ℕ) → position q xs ≡ some i → i < length xs
  position-lt [] i h = cc
  position-lt (x ∷ xs) zero h = omega arith
  position-lt (x ∷ xs) (suc i) h = omega (arith, position-lt xs i (ground arith))

  -- A change that keeps the test keeps every position.
  pub position-modify :
      (f : A → A)
      → ((a : A) → q (f a) ≡ q a)
      → (xs : List A) (i : ℕ) → position q (modify xs i f) ≡ position q xs
  position-modify f keep [] i = refl
  position-modify f keep (x ∷ xs) zero = ground (arith, keep x)
  position-modify f keep (x ∷ xs) (suc i) = ground (arith, position-modify f keep xs i)

  -- What is found is as it was, or is the changed element.
  pub find-modify :
      (f : A → A)
      → ((a : A) → q (f a) ≡ q a)
      → (xs : List A) (i : ℕ) (x : A) → find q xs ≡ some x
      → ((find q (modify xs i f) ≡ some x) ⊎ (find q (modify xs i f) ≡ some (f x)))
  find-modify f keep [] i x h = cc
  find-modify f keep (y ∷ xs) zero x h = ground (arith, keep y)
  find-modify f keep (y ∷ xs) (suc i) x h = ground (arith, find-modify f keep xs i x)

  -- At the position that was searched for, it is the changed element.
  pub find-modify_self :
      (f : A → A)
      → ((a : A) → q (f a) ≡ q a)
      → (xs : List A) (i : ℕ) → position q xs ≡ some i
      → find q (modify xs i f) ≡ Option.map f (find q xs)
  find-modify_self f keep [] i h = cc
  find-modify_self f keep (y ∷ xs) zero h = ground (arith, keep y)
  find-modify_self f keep (y ∷ xs) (suc i) h = ground (arith, find-modify_self f keep xs i)

  pub find-append : (xs : List A) (y x : A) → find q xs ≡ some x → find q (xs ++ y ∷ []) ≡ some x
  find-append [] y x h = cc
  find-append (z ∷ xs) y x h = ground (arith, find-append xs y x)

  pub find-append_self :
      (xs : List A) (y : A) → find q xs ≡ none → q y ≡ true → find q (xs ++ y ∷ []) ≡ some y
  find-append_self [] y h p = ground arith
  find-append_self (z ∷ xs) y h p = ground (arith, find-append_self xs y)

  -- Whether some element passes the test.
  abbrev pub absent : List A → Bool
  absent xs = is_none (position q xs)

  pub absent-cons : (x : A) (xs : List A) → absent (x ∷ xs) ≡ (if q x then false else absent xs)
  absent-cons x xs = ground arith

  pub absent-append_ne : (xs : List A) (y : A) → q y ≡ false → absent (xs ++ y ∷ []) ≡ absent xs
  absent-append_ne [] y h = ground arith
  absent-append_ne (x ∷ xs) y h = ground (arith, absent-append_ne xs y)

  pub absent-insert :
      (xs : List A) (i : ℕ) (a : A)
      → absent (insert_idx xs i a) ≡ (if q a then false else absent xs)
  absent-insert [] zero a = ground arith
  absent-insert [] (suc i) a = ground arith
  absent-insert (x ∷ xs) zero a = ground arith
  absent-insert (x ∷ xs) (suc i) a = ground (arith, absent-insert xs i a)

  pub absent-erase :
      (xs : List A) (i : ℕ) (a : A)
      → get_elem? xs i ≡ some a
      → (if q a then false else absent (erase_idx xs i)) ≡ absent xs
  absent-erase [] i a h = cc
  absent-erase (x ∷ xs) zero a h = ground arith
  absent-erase (x ∷ xs) (suc i) a h = ground (arith, absent-erase xs i a)

  -- A change of an element that fails the test, before and after, is not seen.
  pub find-modify_ne :
      (f : A → A) (xs : List A) (i : ℕ) (a : A)
      → get_elem? xs i ≡ some a
      → q a ≡ false
      → q (f a) ≡ false
      → find q (modify xs i f) ≡ find q xs
  find-modify_ne f [] i a h p p' = cc
  find-modify_ne f (x ∷ xs) zero a h p p' = ground arith
  find-modify_ne f (x ∷ xs) (suc i) a h p p' = ground (arith, find-modify_ne f xs i a h p p')

  pub find-erase_ne :
      (xs : List A) (i : ℕ) (a : A)
      → get_elem? xs i ≡ some a
      → q a ≡ false
      → find q (erase_idx xs i) ≡ find q xs
  find-erase_ne [] i a h p = cc
  find-erase_ne (x ∷ xs) zero a h p = ground arith
  find-erase_ne (x ∷ xs) (suc i) a h p = ground (arith, find-erase_ne xs i a h p)

  -- An element that passes the test is at some position.
  pub absent_of_get :
      (xs : List A) (i : ℕ) (a : A) → get_elem? xs i ≡ some a → q a ≡ true → absent xs ≡ false
  absent_of_get [] i a h p = cc
  absent_of_get (x ∷ xs) zero a h p = ground arith
  absent_of_get (x ∷ xs) (suc i) a h p = ground (arith, absent_of_get xs i a h p)
