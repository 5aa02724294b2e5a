-- ===== src/Apply/Distinct.antt =====
-- crates/updater/src/apply/mod.rs: a plan that is not refused for a collision has one path for each of
-- its artifacts.
use retrovert.Common.{
  ℕ, zero, suc, ◌<◌, ◌≡◌, ◌≢◌, ◌⊎◌, refl, sym, Bool, true, false, none, some, List, [], ◌∷◌, arith,
  get_elem?, find, Option-cases, inl, inr,
}
use retrovert.Common.Results.{ok}
use retrovert.Queue.Transfer.{same_bytes}
use retrovert.Manifest.{Text, Artifact, text_eq}
use retrovert.Apply.{refuse_collisions}

pub text_eq-eq : (a b : Text) → text_eq a b ≡ true → a ≡ b
text_eq-eq [] [] h = refl
text_eq-eq [] (c ∷ cs) h = cc
text_eq-eq (b ∷ bs) [] h = cc
text_eq-eq (b ∷ bs) (c ∷ cs) h = ground (arith, text_eq-eq bs cs)

pub text_eq_refl : (a : Text) → text_eq a a ≡ true
text_eq_refl [] = refl
text_eq_refl (b ∷ bs) = ground (arith, text_eq_refl bs)

pub same_bytes-eq : (a b : List ℕ) → same_bytes a b ≡ true → a ≡ b
same_bytes-eq [] [] h = refl
same_bytes-eq [] (c ∷ cs) h = cc
same_bytes-eq (b ∷ bs) [] h = cc
same_bytes-eq (b ∷ bs) (c ∷ cs) h = ground (arith, same_bytes-eq bs cs)

get-find-none {ℓ} :
    {A : Type ℓ} (q : A → Bool) (xs : List A) (i : ℕ) (x : A)
    → find q xs ≡ none
    → get_elem? xs i ≡ some x
    → q x ≡ false
get-find-none q [] i x h at = cc
get-find-none q (y ∷ xs) zero x h at = ground arith
get-find-none q (y ∷ xs) (suc i) x h at = ground (arith, get-find-none q xs i x)

text_eq-sym : (a b : Text) → text_eq a b ≡ false → text_eq b a ≡ false
text_eq-sym [] [] h = h
text_eq-sym [] (c ∷ cs) h = refl
text_eq-sym (b ∷ bs) [] h = refl
text_eq-sym (b ∷ bs) (c ∷ cs) h = ground (arith, text_eq-sym bs cs)

module _ {T : Type 0} where
  -- What a step of the loop that passes has found.
  refuse_collisions_cons :
      (claimed : List Artifact) (a : Artifact) (rest : List Artifact)
      → refuse_collisions {T = T} claimed (a ∷ rest) ≡ ok tt
      → (find (λ b. text_eq b.path a.path) claimed ≡ none)
        × (refuse_collisions {T = T} (a ∷ claimed) rest ≡ ok tt)
  unfolding refuse_collisions
  refuse_collisions_cons claimed a rest h =
      elim (Option-cases (find (λ b. text_eq b.path a.path) claimed)) [
        | inl is ↦ (is, ground (arith, is))
        | inr (first, is) ↦ absurd (ground (arith, is))
      ]

  refuse_collisions_ne_claimed :
      (claimed xs : List Artifact) (m k : ℕ) (c b : Artifact)
      → refuse_collisions {T = T} claimed xs ≡ ok tt
      → get_elem? claimed m ≡ some c
      → get_elem? xs k ≡ some b
      → text_eq c.path b.path ≡ false
  refuse_collisions_ne_claimed claimed [] m k c b h at at' = cc
  refuse_collisions_ne_claimed claimed (a ∷ xs) m zero c b h at at' =
      let (clear, _) = refuse_collisions_cons claimed a xs h in
      let same : a ≡ b = cc in
      get-find-none (λ z. text_eq z.path b.path) claimed m c (rw (sym same) clear) at
  refuse_collisions_ne_claimed claimed (a ∷ xs) m (suc k) c b h at at' =
      let (_, later) = refuse_collisions_cons claimed a xs h in
      refuse_collisions_ne_claimed (a ∷ claimed) xs (suc m) k c b later at at'

  refuse_collisions_ne_before :
      (claimed xs : List Artifact) (i j : ℕ) (a b : Artifact)
      → refuse_collisions {T = T} claimed xs ≡ ok tt
      → i < j
      → get_elem? xs i ≡ some a
      → get_elem? xs j ≡ some b
      → text_eq a.path b.path ≡ false
  refuse_collisions_ne_before claimed [] i j a b h lt at at' = cc
  refuse_collisions_ne_before claimed (x ∷ xs) i zero a b h lt at at' = absurd (omega (arith, lt))
  refuse_collisions_ne_before claimed (x ∷ xs) zero (suc j) a b h lt at at' =
      let (_, later) = refuse_collisions_cons claimed x xs h in
      refuse_collisions_ne_claimed (x ∷ claimed) xs zero j a b later at at'
  refuse_collisions_ne_before claimed (x ∷ xs) (suc i) (suc j) a b h lt at at' =
      let (_, later) = refuse_collisions_cons claimed x xs h in
      refuse_collisions_ne_before (x ∷ claimed) xs i j a b later (omega (arith, lt)) at at'

  pub refuse_collisions_ne :
      (xs : List Artifact) (i j : ℕ) (a b : Artifact)
      → refuse_collisions {T = T} [] xs ≡ ok tt
      → i ≢ j
      → get_elem? xs i ≡ some a
      → get_elem? xs j ≡ some b
      → text_eq a.path b.path ≡ false
  refuse_collisions_ne xs i j a b h ne at at' =
      let split : (i < j) ⊎ (j < i) = omega (arith, ne) in
      elim split [
        | inl lt ↦ refuse_collisions_ne_before [] xs i j a b h lt at at'
        | inr lt ↦ text_eq-sym b.path a.path (refuse_collisions_ne_before [] xs j i b a h lt at' at)
      ]
