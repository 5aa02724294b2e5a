-- ===== src/Common/Slices.antt =====
-- The slices `xs[..n]` and `xs[n..]`, and when one list begins another.
use Prim.Native.Nat.{ℕ, zero, suc, ◌+◌, ◌≤◌}
use mathlib.Core.Path.{◌≡◌, refl, ap}
use mathlib.Core.List.{List, [], ◌∷◌, ◌++◌}
use native.Mathlib.Omega.{arith}
use retrovert.Common.Lists.{length}

module _ {ℓ} {A : Type ℓ} where
  -- Of an `n` past the end, where the source would panic, all of it and nothing.
  abbrev pub take : ℕ → List A → List A
  take zero xs = []
  take (suc n) [] = []
  take (suc n) (x ∷ xs) = x ∷ take n xs

  abbrev pub drop : ℕ → List A → List A
  drop zero xs = xs
  drop (suc n) [] = []
  drop (suc n) (x ∷ xs) = drop n xs

  -- The first list begins the second.
  abbrev pub Begins : List A → List A → Type ℓ
  Begins xs ys = xs ≡ take (length xs) ys

  pub take-append : (xs ys : List A) → take (length xs) (xs ++ ys) ≡ xs
  take-append [] ys = refl
  take-append (x ∷ xs) ys = ap (λ t. x ∷ t) (take-append xs ys)

  pub length-take-le : (k : ℕ) (xs : List A) → length (take k xs) ≤ k
  length-take-le zero xs = omega arith
  length-take-le (suc k) [] = omega arith
  length-take-le (suc k) (x ∷ xs) = omega (arith, length-take-le k xs)

  pub length-take-le_self : (k : ℕ) (xs : List A) → length (take k xs) ≤ length xs
  length-take-le_self zero xs = omega arith
  length-take-le_self (suc k) [] = omega arith
  length-take-le_self (suc k) (x ∷ xs) = omega (arith, length-take-le_self k xs)

  pub take-all : (k : ℕ) (xs : List A) → length xs ≤ k → take k xs ≡ xs
  take-all zero [] h = refl
  take-all zero (x ∷ xs) h = absurd (omega arith)
  take-all (suc k) [] h = refl
  take-all (suc k) (x ∷ xs) h = ap (λ t. x ∷ t) (take-all k xs (omega arith))

  pub drop-drop : (n k : ℕ) (xs : List A) → drop n (drop k xs) ≡ drop (k + n) xs
  drop-drop n zero xs = let e : 0 + n ≡ n = omega arith in rw e
  drop-drop zero (suc k) [] = let e : suc k + 0 ≡ suc k = omega arith in rw e
  drop-drop (suc n) (suc k) [] = let e : suc k + suc n ≡ suc (k + suc n) = omega arith in rw e
  drop-drop n (suc k) (x ∷ xs) =
      let e : suc k + n ≡ suc (k + n) = omega arith in rw e (drop-drop n k xs)

  pub drop-length-take : (n : ℕ) (xs : List A) → drop (length (take n xs)) xs ≡ drop n xs
  drop-length-take zero xs = refl
  drop-length-take (suc n) [] = refl
  drop-length-take (suc n) (x ∷ xs) = drop-length-take n xs

  pub length-drop-nil : (k : ℕ) (xs : List A) → drop k xs ≡ [] → length xs ≤ k
  length-drop-nil zero xs h = rw h (omega arith)
  length-drop-nil (suc k) [] h = omega arith
  length-drop-nil (suc k) (x ∷ xs) h = omega (arith, length-drop-nil k xs h)

  pub take-Begins : (k : ℕ) (xs : List A) → Begins (take k xs) xs
  take-Begins zero xs = refl
  take-Begins (suc k) [] = refl
  take-Begins (suc k) (x ∷ xs) = ap (λ t. x ∷ t) (take-Begins k xs)

  pub take-take-Begins : (j k : ℕ) (xs : List A) → Begins (take j (take k xs)) xs
  take-take-Begins zero k xs = refl
  take-take-Begins (suc j) zero xs = refl
  take-take-Begins (suc j) (suc k) [] = refl
  take-take-Begins (suc j) (suc k) (x ∷ xs) = ap (λ t. x ∷ t) (take-take-Begins j k xs)

  -- A beginning goes on with a beginning of the rest.
  pub Begins-append :
      (xs zs ys : List A) → Begins xs ys → Begins zs (drop (length xs) ys) → Begins (xs ++ zs) ys
  Begins-append [] zs ys h r = r
  Begins-append (x ∷ xs) zs [] h r = cc
  Begins-append (x ∷ xs) zs (y ∷ ys) h r = ground (arith, Begins-append xs zs ys)

  pub Begins-length-le : (xs ys : List A) → Begins xs ys → length xs ≤ length ys
  Begins-length-le [] ys h = omega arith
  Begins-length-le (x ∷ xs) [] h = cc
  Begins-length-le (x ∷ xs) (y ∷ ys) h = ground (arith, Begins-length-le xs ys)

  -- A beginning that is as long is the whole.
  pub Begins-eq : (xs ys : List A) → Begins xs ys → length ys ≤ length xs → xs ≡ ys
  Begins-eq [] [] h l = refl
  Begins-eq [] (y ∷ ys) h l = absurd (omega arith)
  Begins-eq (x ∷ xs) [] h l = cc
  Begins-eq (x ∷ xs) (y ∷ ys) h l = ground (arith, Begins-eq xs ys)
