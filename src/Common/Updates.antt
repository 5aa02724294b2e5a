-- ===== src/Common/Updates.antt =====
-- How an index sees a list that was changed at an index.
use Prim.Native.Nat.{ℕ, zero, suc, ◌<◌}
use mathlib.Core.Bool.{false}
use mathlib.Core.Path.{◌≡◌, refl}
use mathlib.Core.Option.{some}
use mathlib.Core.List.{List, [], ◌∷◌}
use native.Mathlib.Omega.{arith}
use retrovert.Common.Tests.{◌==◌}
use retrovert.Common.Lists.{length, get_elem?, modify}

module _ {ℓ} {A : Type ℓ} where
  pub get-modify_self :
      (f : A → A) (xs : List A) (i : ℕ) (x : A)
      → get_elem? xs i ≡ some x
      → get_elem? (modify xs i f) i ≡ some (f x)
  get-modify_self f [] i x h = absurd (ground arith)
  get-modify_self f (y ∷ xs) zero x h = ground arith
  get-modify_self f (y ∷ xs) (suc i) x h = get-modify_self f xs i x h

  pub get-modify_ne :
      (f : A → A) (xs : List A) (i j : ℕ)
      → (i == j) ≡ false
      → get_elem? (modify xs j f) i ≡ get_elem? xs i
  get-modify_ne f [] i j h = refl
  get-modify_ne f (y ∷ xs) zero zero h = absurd (ground arith)
  get-modify_ne f (y ∷ xs) zero (suc j) h = refl
  get-modify_ne f (y ∷ xs) (suc i) zero h = refl
  get-modify_ne f (y ∷ xs) (suc i) (suc j) h = get-modify_ne f xs i j (ground arith)

  pub length-modify : (f : A → A) (xs : List A) (k : ℕ) → length (modify xs k f) ≡ length xs
  length-modify f [] k = refl
  length-modify f (x ∷ xs) zero = refl
  length-modify f (x ∷ xs) (suc k) = omega (arith, length-modify f xs k)

  pub get-lt : (xs : List A) (k : ℕ) (x : A) → get_elem? xs k ≡ some x → k < length xs
  get-lt [] k x h = cc
  get-lt (y ∷ xs) zero x h = omega arith
  get-lt (y ∷ xs) (suc k) x h = omega (arith, get-lt xs k x h)

  pub lt-get : (xs : List A) (k : ℕ) → k < length xs → (x : A) × (get_elem? xs k ≡ some x)
  lt-get [] k h = absurd (omega (arith, h))
  lt-get (x ∷ xs) zero h = (x, refl)
  lt-get (x ∷ xs) (suc k) h = lt-get xs k (omega (arith, h))
