-- ===== src/Queue/Steps.antt =====
-- How the lists of the shared state look at one index after a change at another.
use retrovert.Common.{
  ℕ, zero, suc, ◌≡◌, refl, ap, true, false, ◌||◌, none, some, List, [], ◌∷◌, map, get_elem?, modify,
  arith, ◌==◌, Bool-cases, inl, inr,
}
use retrovert.Queue.{Handle, Active, no_claim}
use retrovert.Queue.Slots.{holds, is_active, ask}
use retrovert.Queue.Calls.{cancel_download}

-- The handle of a worker does not matter to who holds what.
pub is_active-ask :
    (f : Handle → Handle) (k : ℕ) (ws : List Active) (i : ℕ)
    → is_active (ask f k ws) i ≡ is_active ws i
unfolding is_active ask
is_active-ask f k [] i = refl
is_active-ask f k (a ∷ ws) i = elim (Bool-cases (holds k a)) [
  | inl here ↦ rw (here, ask) refl
  | inr past ↦ rw (past, ask) (ap (λ b. holds i a || b) (is_active-ask f k ws i))
]

pub is_active-cancel_download :
    (ws : List Active) (i : ℕ) → is_active (map cancel_download ws) i ≡ is_active ws i
unfolding is_active
is_active-cancel_download [] i = refl
is_active-cancel_download (a ∷ ws) i = ap (λ b. holds i a || b) (is_active-cancel_download ws i)

pub is_active-modify :
    (f : Active → Active)
    → ((a : Active) → (f a).slot ≡ a.slot)
    → (ws : List Active) (w i : ℕ) → is_active (modify ws w f) i ≡ is_active ws i
unfolding is_active
is_active-modify f keep [] w i = refl
is_active-modify f keep (a ∷ ws) zero i = rw (keep a) refl
is_active-modify f keep (a ∷ ws) (suc w) i =
    ap (λ b. holds i a || b) (is_active-modify f keep ws w i)

pub is_active-held :
    (ws : List Active) (w k : ℕ) (a : Active)
    → get_elem? ws w ≡ some a
    → a.slot ≡ some k
    → is_active ws k ≡ true
unfolding is_active
is_active-held [] w k a h s = absurd (ground arith)
is_active-held (b ∷ ws) zero k a h s = ground arith
is_active-held (b ∷ ws) (suc w) k a h s = ground (arith, is_active-held ws w k a h s)

pub is_active-release :
    (ws : List Active) (w k i : ℕ) (a : Active)
    → get_elem? ws w ≡ some a
    → a.slot ≡ some k
    → (i == k) ≡ false
    → is_active (modify ws w (λ b. no_claim)) i ≡ is_active ws i
unfolding is_active
is_active-release [] w k i a h s ne = absurd (ground arith)
is_active-release (b ∷ ws) zero k i a h s ne = ground arith
is_active-release (b ∷ ws) (suc w) k i a h s ne =
    ap (λ c. holds i b || c) (is_active-release ws w k i a h s ne)

pub is_active-claim_ne :
    (ws : List Active) (w k i : ℕ) (a : Active)
    → get_elem? ws w ≡ some a
    → a.slot ≡ none
    → (i == k) ≡ false
    → is_active (modify ws w (λ b. record b { slot = some k })) i ≡ is_active ws i
unfolding is_active
is_active-claim_ne [] w k i a h s ne = absurd (ground arith)
is_active-claim_ne (b ∷ ws) zero k i a h s ne = ground arith
is_active-claim_ne (b ∷ ws) (suc w) k i a h s ne =
    ap (λ c. holds i b || c) (is_active-claim_ne ws w k i a h s ne)

pub is_active-claim :
    (ws : List Active) (w k : ℕ) (a : Active)
    → get_elem? ws w ≡ some a
    → is_active (modify ws w (λ b. record b { slot = some k })) k ≡ true
unfolding is_active
is_active-claim [] w k a h = absurd (ground arith)
is_active-claim (b ∷ ws) zero k a h = ground arith
is_active-claim (b ∷ ws) (suc w) k a h = ground (arith, is_active-claim ws w k a h)

pub is_active-unclaimed :
    (ws : List Active) (w i : ℕ)
    → (elim (get_elem? ws w) [ none ↦ none | some a ↦ a.slot ]) ≡ none
    → is_active (modify ws w (λ b. no_claim)) i ≡ is_active ws i
unfolding is_active
is_active-unclaimed [] w i h = refl
is_active-unclaimed (b ∷ ws) zero i h = ground arith
is_active-unclaimed (b ∷ ws) (suc w) i h = ap (λ c. holds i b || c) (is_active-unclaimed ws w i h)
