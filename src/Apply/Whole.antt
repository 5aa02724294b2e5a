-- ===== src/Apply/Whole.antt =====
-- crates/updater/src/apply/mod.rs: an acquisition that ends well has placed every artifact of its plan.
use retrovert.Common.{
  ℕ, zero, suc, ◌+◌, ◌≤◌, ◌<◌, ◌≡◌, refl, subst, true, Option, none, some, List, [], ◌∷◌, ◌++◌,
  arith, length, get_elem?, ltb, Option-cases, Bool-cases, inl, inr,
}
use retrovert.Common.Updates.{get-lt}
use retrovert.Common.Results.{ok}
use retrovert.Queue.{Priority}
use retrovert.Manifest.{Text, Artifact}
use retrovert.Manifest.Plan.{Plan}
use retrovert.Apply.{refuse_collisions}
use retrovert.Apply.Install.{Installed, Files}
use retrovert.Apply.Acquire.{World, Acquiring, unplaced, begin_acquiring, flatten, enter}
use retrovert.Apply.Landed.{
  IsLanded, Lands, Awaits, IsFair, landed-IsFair, Awaits-append-left, Awaits-append-right,
}
use retrovert.Apply.Rounds.{IsKept, turns_kept}
use retrovert.Apply.Publish.{
  End, killed, stopped, acquired, is_nil, is_acquired, drop_entries, turn, turns, left, acquire,
}

get-unplaced :
    (artifacts : List Artifact) (index : ℕ) (i : Installed)
    → ¬ (get_elem? (unplaced artifacts) index ≡ some (some i))
get-unplaced [] index i h = cc
get-unplaced (a ∷ rest) zero i h = ground (arith, h)
get-unplaced (a ∷ rest) (suc index) i h = get-unplaced rest index i h

length-unplaced : (artifacts : List Artifact) → length (unplaced artifacts) ≡ length artifacts
length-unplaced [] = refl
length-unplaced (a ∷ rest) = omega (arith, length-unplaced rest)

begin_acquiring-IsFair :
    (sha : List ℕ → List ℕ) (p : Plan) (files : Files)
    → IsFair sha p [] (begin_acquiring p.artifacts files)
begin_acquiring-IsFair sha p files = record {
  bound = omega arith;
  measured = length-unplaced p.artifacts;
  placed = λ index i there. absurd (get-unplaced p.artifacts index i there);
  waits = λ index lt. absurd (omega (arith, lt));
}

enter-IsFair :
    (sha : List ℕ → List ℕ) (p : Plan) (s : Acquiring) (id : ℕ) (a : Artifact)
    → get_elem? p.artifacts s.next ≡ some a
    → IsFair sha p s.active s
    → IsFair sha p (s.active ++ (id, s.next) ∷ []) (enter s id)
enter-IsFair sha p s id a at h = record {
  bound = omega (arith, get-lt p.artifacts s.next a at);
  measured = h.measured;
  placed = h.placed;
  waits = λ index lt. elim (Bool-cases (ltb index s.next)) [
    | inl before ↦ elim (h.waits index (ground (arith, before))) [
      | inl there ↦ inl there
      | inr held ↦ inr (Awaits-append-left index s.active ((id, s.next) ∷ []) held)
    ]
    | inr last ↦
        let same : s.next ≡ index = ground (arith, last, lt) in
        inr (Awaits-append-right index s.active ((id, s.next) ∷ []) (inl same))
  ];
}

IsFair-IsKept :
    {T : Type 0} (sha : List ℕ → List ℕ) (w : World T) (p : Plan)
    → refuse_collisions {T = T} [] p.artifacts ≡ ok tt
    → IsKept sha w p (IsFair sha p)
IsFair-IsKept sha w p distinct = record {
  holding = λ held xs s h. record {
    bound = h.bound;
    measured = h.measured;
    placed = h.placed;
    waits = h.waits;
  };
  evicting = λ held s ds h. record {
    bound = h.bound;
    measured = h.measured;
    placed = h.placed;
    waits = h.waits;
  };
  landing = landed-IsFair sha w p distinct;
  entering = enter-IsFair sha p;
}

-- Every artifact that is placed somewhere is installed, in order.
Lands-flatten :
    (sha : List ℕ → List ℕ) (files : Files) (artifacts : List Artifact)
    (placed : List (Option Installed))
    → length placed ≡ length artifacts
    → ((index : ℕ) (i : Installed)
        → get_elem? placed index ≡ some (some i)
        → (a : Artifact) × (get_elem? artifacts index ≡ some a) × IsLanded sha files a i)
    → ((index : ℕ)
        → index < length artifacts
        → (i : Installed) × (get_elem? placed index ≡ some (some i)))
    → Lands sha files artifacts (flatten placed)
Lands-flatten sha files [] [] measured landed all = tt
Lands-flatten sha files [] (o ∷ placed) measured landed all = absurd (omega (arith, measured))
Lands-flatten sha files (a ∷ rest) [] measured landed all = absurd (omega (arith, measured))
Lands-flatten sha files (a ∷ rest) (none ∷ placed) measured landed all =
    let (i, there) = all 0 (omega arith) in absurd (ground (arith, there))
Lands-flatten sha files (a ∷ rest) (some i ∷ placed) measured landed all =
    let (b, at, is) = landed 0 i refl in
    let same : b ≡ a = ground (arith, at) in
    (
      subst (λ z. IsLanded sha files z i) same is,
      Lands-flatten sha files rest placed (omega (arith, measured)) (λ index. landed (suc index))
          (λ index lt. all (suc index) (omega (arith, lt))),
    )

is_nil-eq : (xs : List (ℕ × ℕ)) → is_nil xs ≡ true → xs ≡ []
is_nil-eq [] h = refl
is_nil-eq (x ∷ xs) h = cc

module _ {T : Type 0} (sha : List ℕ → List ℕ) (w : World T) (p : Plan) (base : Text)
    (priority : Priority) where
  abbrev Ended : Acquiring × End T → Type 0
  Ended r = r.1 ≡ acquired → (length p.artifacts ≤ r.0.next) × (r.0.active ≡ [])

  is_acquired-eq :
      (s : Acquiring)
      → is_acquired sha w p base priority s ≡ true
      → (length p.artifacts ≤ s.next) × (s.active ≡ [])
  is_acquired-eq s h = elim (Bool-cases (ltb s.next (length p.artifacts))) [
    | inl short ↦ absurd (ground (arith, short, h))
    | inr long ↦ (ground (arith, long), is_nil-eq s.active (ground (arith, long, h)))
  ]

  turns-Ended :
      (rounds round : ℕ) (s : Acquiring) → Ended (turns sha w p base priority rounds round s)
  unfolding turns
  turns-Ended zero round s = elim (Bool-cases (is_acquired sha w p base priority s)) [
    | inl is ↦ rw (is, turns) (λ ends. is_acquired-eq s is)
    | inr is ↦ rw (is, turns) (λ ends. absurd (ground (arith, ends)))
  ]
  turns-Ended (suc rounds) round s = elim (Bool-cases (is_acquired sha w p base priority s)) [
    | inl is ↦ rw (is, turns) (λ ends. is_acquired-eq s is)
    | inr is ↦ elim (Option-cases (turn sha w p base priority round s).1) [
      | inr (e, stops) ↦ rw (is, stops, turns) (λ ends. absurd (ground (arith, ends)))
      | inl goes ↦
          rw (is, goes, turns)
            (turns-Ended rounds (round + 1) (turn sha w p base priority round s).0)
    ]
  ]

  left-Lands :
      (r : Acquiring × End T)
      → IsFair sha p r.0.active r.0
      → Ended r
      → (left sha w p base priority r).1 ≡ acquired
      → Lands sha
          (left sha w p base priority r).0.files
          p.artifacts
          (flatten (left sha w p base priority r).0.placed)
  unfolding drop_entries
  left-Lands (s, killed) fair ended h = cc
  left-Lands (s, stopped e) fair ended h = cc
  left-Lands (s, acquired) fair ended h =
      let (long, empty) = ended refl in
      Lands-flatten sha s.files p.artifacts s.placed fair.measured fair.placed (λ index lt.
        elim (fair.waits index (omega (arith, lt, long))) [
          | inl there ↦ there
          | inr held ↦ absurd (subst (Awaits index) empty held)
        ])

  -- A collision free plan's.
  pub acquire-Lands :
      (rounds : ℕ) (files : Files)
      → refuse_collisions {T = T} [] p.artifacts ≡ ok tt
      → (acquire sha w p base priority rounds files).1 ≡ acquired
      → Lands sha
          (acquire sha w p base priority rounds files).0.files
          p.artifacts
          (flatten (acquire sha w p base priority rounds files).0.placed)
  unfolding acquire
  acquire-Lands rounds files distinct h =
      let s = begin_acquiring p.artifacts files in
      left-Lands (turns sha w p base priority rounds 0 s)
        (turns_kept sha w p base priority (IsFair sha p) (IsFair-IsKept sha w p distinct) rounds 0 s
          (begin_acquiring-IsFair sha p files))
        (turns-Ended rounds 0 s) h
