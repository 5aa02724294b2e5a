-- ===== src/Queue/Choice.antt =====
-- crates/updater/src/queue/entry.rs: the loops that choose an entry choose a best one.
use retrovert.Common.{
  ℕ, zero, suc, ◌+◌, ◌≡◌, ◌⊎◌, inl, inr, refl, sym, ap, ◌∙◌, subst, Bool, true, false, ◌&&◌, Option,
  none, some, List, [], ◌∷◌, if◌then◌else◌, get_elem?, arith, Bool-cases, Option-cases,
}
use retrovert.Queue.{Entry}
use retrovert.Queue.Policy.{enumerate, takes, best_of, outranks, yields_before, held_entries}

-- Every candidate stands at its index.
abbrev pub Coherent : List Entry → List (ℕ × Entry) → Type 0
Coherent es [] = Unit
Coherent es ((i, e) ∷ cs) = (get_elem? es i ≡ some e) × Coherent es cs

-- A candidate.
abbrev pub Among : ℕ → Entry → List (ℕ × Entry) → Type 0
Among j y [] = ⊥
Among j y ((i, e) ∷ cs) = ((j ≡ i) × (y ≡ e)) ⊎ Among j y cs

-- The order that a loop chooses by.
pub record Order (better : Entry → Entry → Bool) : Type 0 where
  pub irreflexive : (x : Entry) → better x x ≡ false
  pub transitive : (x y z : Entry) → better x y ≡ true → better y z ≡ true → better x z ≡ true

pub outranks-Order : Order outranks
outranks-Order = record { irreflexive = λ x. ground arith; transitive = λ x y z h k. ground arith }

pub yields_before-Order : Order yields_before
yields_before-Order = record {
  irreflexive = λ x. ground arith;
  transitive = λ x y z h k. ground arith;
}

module _ (eligible : Entry → Bool) (better : Entry → Entry → Bool) (es : List Entry) where
  -- What is chosen is eligible, and `y` is not better.
  abbrev pub Beats : Option ℕ → Entry → Type 0
  Beats o y =
      (b : ℕ) × (x : Entry) × (o ≡ some b)
      × (get_elem? es b ≡ some x)
      × (eligible x ≡ true)
      × (better y x ≡ false)

  -- The best index so far, if any, is of an eligible entry.
  abbrev pub Best : Option ℕ → Type 0
  Best none = Unit
  Best (some b) = (x : Entry) × (get_elem? es b ≡ some x) × (eligible x ≡ true)

  Best-after :
      (e : Entry) (i : ℕ) (best : Option ℕ)
      → get_elem? es i ≡ some e
      → Best best
      → Best (if eligible e && takes better es best e then some i else best)
  Best-after e i best here good = elim (Bool-cases (eligible e)) [
    | inr skip ↦ rw skip good
    | inl fits ↦ elim (Bool-cases (takes better es best e)) [
      | inl taken ↦ rw (fits, taken) (e, here, fits)
      | inr left ↦ rw (fits, left) good
    ]
  ]

  takes-found :
      (b : ℕ) (x e : Entry) → get_elem? es b ≡ some x → takes better es (some b) e ≡ better e x
  takes-found b x e at = rw (takes, at) refl

  -- A candidate that the best one beats stays beaten.
  best_of-keeps :
      (order : Order better) (cs : List (ℕ × Entry)) (b : ℕ) (x y : Entry)
      → Coherent es cs
      → get_elem? es b ≡ some x
      → eligible x ≡ true
      → better y x ≡ false
      → Beats (best_of eligible better es (some b) cs) y
  unfolding best_of
  best_of-keeps order [] b x y h at ok unbeaten = (b, x, refl, at, ok, unbeaten)
  best_of-keeps order ((i, e) ∷ cs) b x y (here, h) at ok unbeaten =
      elim (Bool-cases (eligible e)) [
        | inr skip ↦ rw (skip, best_of) (best_of-keeps order cs b x y h at ok unbeaten)
        | inl fits ↦ elim (Bool-cases (takes better es (some b) e)) [
          | inr worse ↦ rw (fits, worse, best_of) (best_of-keeps order cs b x y h at ok unbeaten)
          | inl wins ↦
              rw (fits, wins, best_of)
                (best_of-keeps order cs i e y h here fits (elim (Bool-cases (better y e)) [
                  | inr less ↦ less
                  | inl more ↦ absurd (
                      ground
                        (arith, order.transitive y e x more (sym (takes-found b x e at) ∙ wins)))
                ]))
        ]
      ]

  -- A candidate that is eligible is beaten in the end, whatever was best before it.
  pub best_of-Beats :
      (order : Order better) (cs : List (ℕ × Entry)) (best : Option ℕ) (j : ℕ) (y : Entry)
      → Coherent es cs
      → Best best
      → Among j y cs
      → eligible y ≡ true
      → Beats (best_of eligible better es best cs) y
  unfolding best_of
  best_of-Beats order [] best j y h good among fits = absurd among
  best_of-Beats order ((i, e) ∷ cs) best j y (here, h) good (inl (same, it)) fits =
      let own : eligible e ≡ true = ap eligible (sym it) ∙ fits in
      elim (Bool-cases (takes better es best e)) [
        | inl taken ↦
            rw (own, taken, best_of)
              (best_of-keeps order cs i e y h here own
                (ap (λ z. better z e) it ∙ order.irreflexive e))
        | inr left ↦ rw (own, left, best_of) (kept best good left)
      ]
    where
      kept :
          (o : Option ℕ)
          → Best o
          → takes better es o e ≡ false
          → Beats (best_of eligible better es o cs) y
      kept none good left = absurd (ground arith)
      kept (some b) (x, at, ok) left =
          best_of-keeps order cs b x y h at ok (ap (λ z. better z x) it ∙ ground arith)
  best_of-Beats order ((i, e) ∷ cs) best j y (here, h) good (inr later) fits =
      best_of-Beats order cs (if eligible e && takes better es best e then some i else best) j y h
        (Best-after e i best here good) later fits

  -- What is chosen is eligible.
  pub best_of-eligible :
      (cs : List (ℕ × Entry)) (best : Option ℕ)
      → Coherent es cs
      → Best best
      → Best (best_of eligible better es best cs)
  unfolding best_of
  best_of-eligible [] best h good = good
  best_of-eligible ((i, e) ∷ cs) best (here, h) good =
      best_of-eligible cs (if eligible e && takes better es best e then some i else best) h
        (Best-after e i best here good)

enumerate-Coherent :
    (whole : List Entry) (n : ℕ) (es : List Entry)
    → ((k : ℕ) (x : Entry) → get_elem? es k ≡ some x → get_elem? whole (n + k) ≡ some x)
    → Coherent whole (enumerate n es)
enumerate-Coherent whole n [] h = tt
enumerate-Coherent whole n (e ∷ es) h = (
  subst (λ k. get_elem? whole k ≡ some e) (omega arith) (h 0 e refl),
  enumerate-Coherent whole (suc n) es
      (λ k x at. subst (λ m. get_elem? whole m ≡ some x) (omega arith) (h (suc k) x at)),
)

pub entries-Coherent : (es : List Entry) → Coherent es (enumerate 0 es)
entries-Coherent es =
    enumerate-Coherent es 0 es (λ k x at. subst (λ m. get_elem? es m ≡ some x) (omega arith) at)

pub enumerate-Among :
    (n j : ℕ) (y : Entry) (es : List Entry)
    → get_elem? es j ≡ some y
    → Among (n + j) y (enumerate n es)
enumerate-Among n j y [] h = absurd (ground arith)
enumerate-Among n zero y (e ∷ es) h = inl (omega arith, ground arith)
enumerate-Among n (suc j) y (e ∷ es) h =
    inr (
      subst (λ k. Among k y (enumerate (suc n) es)) (omega arith)
        (enumerate-Among (suc n) j y es h))

pub held_entries-Coherent : (es : List Entry) (is : List ℕ) → Coherent es (held_entries es is)
held_entries-Coherent es [] = tt
held_entries-Coherent es (i ∷ is) = elim (Option-cases (get_elem? es i)) [
  | inl outside ↦ rw (outside, Coherent, held_entries) (held_entries-Coherent es is)
  | inr (e, at) ↦ rw (at, Coherent, held_entries) (at, held_entries-Coherent es is)
]

pub held_entries-Among :
    (es : List Entry) (is : List ℕ) (k j : ℕ) (y : Entry)
    → get_elem? is k ≡ some j
    → get_elem? es j ≡ some y
    → Among j y (held_entries es is)
held_entries-Among es [] k j y m h = absurd (ground arith)
held_entries-Among es (i ∷ is) zero j y m h =
    let here : get_elem? es i ≡ some y = ground arith in
    rw (here, Among, held_entries) (inl (ground arith, refl))
held_entries-Among es (i ∷ is) (suc k) j y m h =
    let later = held_entries-Among es is k j y m h in
    elim (Option-cases (get_elem? es i)) [
      | inl outside ↦ rw (outside, Among, held_entries) later
      | inr (e, at) ↦ rw (at, Among, held_entries) (inr later)
    ]
