-- ===== src/Apply/Bounds.antt =====
-- crates/updater/src/apply/mod.rs: an acquisition indexes the plan's artifacts only within their bounds.
use retrovert.Common.{
  ℕ, zero, suc, ◌+◌, ◌<◌, ◌≢◌, refl, subst, Option, none, some, List, [], ◌∷◌, ◌++◌, arith, length,
  Option-cases, Bool-cases, inl, inr,
}
use retrovert.Common.Slices.{drop}
use retrovert.Common.Updates.{get-lt, lt-get}
use retrovert.Common.Results.{Result-cases}
use retrovert.Queue.{Priority}
use retrovert.Manifest.{Text, Artifact}
use retrovert.Manifest.Plan.{Plan}
use retrovert.Apply.{request_for}
use retrovert.Apply.Install.{Files}
use retrovert.Apply.Acquire.{
  World, Acquiring, Stop, out_of_bounds, last_first, settle, sweep, fill, enter, keep_files, landed,
  begin_acquiring,
}
use retrovert.Apply.Slots.{List-cases}
use retrovert.Apply.Rounds.{IsKept, fill_kept, turn_kept}
use retrovert.Apply.Publish.{
  End, killed, acquired, stopped, is_acquired, swept, turn, turns, left, acquire,
}

module _ (p : Plan) where
  -- The artifact of each entry is one of the plan.
  abbrev InRange : List (ℕ × ℕ) → Type 0
  InRange [] = Unit {0}
  InRange (e ∷ held) = (e.1 < length p.artifacts) × InRange held

  append-InRange : (xs ys : List (ℕ × ℕ)) → InRange xs → InRange ys → InRange (xs ++ ys)
  append-InRange [] ys h k = k
  append-InRange (x ∷ xs) ys (lt, h) k = (lt, append-InRange xs ys h k)

  InRange-append : (xs ys : List (ℕ × ℕ)) → InRange (xs ++ ys) → InRange xs × InRange ys
  InRange-append [] ys h = (tt, h)
  InRange-append (x ∷ xs) ys (lt, h) = let (l, r) = InRange-append xs ys h in ((lt, l), r)

  InRange-last_first : (xs : List (ℕ × ℕ)) → InRange xs → InRange (last_first xs)
  InRange-last_first [] h = tt
  InRange-last_first (x ∷ xs) (lt, h) =
      let later = InRange-last_first xs h in
      elim (List-cases (last_first xs)) [
        | inl is ↦ rw is (lt, tt)
        | inr (y, ys, is) ↦
            let (first, others) = subst InRange is later in rw is (first, (lt, others))
      ]

  InRange-IsKept :
      {T : Type 0} (sha : List ℕ → List ℕ) (w : World T) → IsKept sha w p (λ held s. InRange held)
  InRange-IsKept sha w = record {
    holding = λ held xs s h. h;
    evicting = λ held s ds h. h;
    landing = λ kept rest s round id index a files i at landing placed h.
        let (l, r) = InRange-append kept ((id, index) ∷ rest) h in
        append-InRange kept (last_first rest) l (InRange-last_first rest r.1);
    entering = λ s id a at h.
        append-InRange s.active ((id, s.next) ∷ []) h (get-lt p.artifacts s.next a at, tt);
  }

module _ {T : Type 0} (sha : List ℕ → List ℕ) (w : World T) (p : Plan) where
  abbrev Within : Acquiring × Option (Stop T) → Type 0
  Within r = r.1 ≢ some out_of_bounds

  sweep-Within :
      (n : ℕ) (kept rest : List (ℕ × ℕ)) (round : ℕ) (s : Acquiring)
      → InRange p rest
      → Within (sweep sha w p n kept rest round s)
  unfolding sweep
  sweep-Within zero kept rest round s h = λ e. ground (arith, e)
  sweep-Within (suc n) kept [] round s h = λ e. ground (arith, e)
  sweep-Within (suc n) kept ((id, index) ∷ rest) round s (lt, h) =
      let (a, at) = lt-get p.artifacts index lt in
      let q = settle sha w round s.files a id in
      elim (Result-cases q.result) [
        | inr (e, is) ↦ rw (at, is, sweep) (λ k. ground (arith, k))
        | inl (none, is) ↦
            rw (at, is, sweep)
              (sweep-Within n (kept ++ (id, index) ∷ []) rest round (keep_files s q) h)
        | inl (some i, is) ↦
            rw (at, is, sweep)
              (sweep-Within n kept (last_first rest) round
                (landed (keep_files s q) id index (w.frees round id) i)
                (InRange-last_first p rest h))
      ]

module _ {T : Type 0} (sha : List ℕ → List ℕ) (w : World T) (p : Plan) (base : Text)
    (priority : Priority) where
  fill-Within :
      (artifacts : List Artifact) (round : ℕ) (s : Acquiring)
      → Within sha w p (fill w p base priority artifacts round s)
  unfolding fill
  fill-Within [] round s = λ e. ground (arith, e)
  fill-Within (a ∷ rest) round s =
      elim (Result-cases (request_for {T = T} base a p.release_version priority)) [
        | inr (e, is) ↦ rw (is, fill) (λ k. ground (arith, k))
        | inl (r, is) ↦ elim (Option-cases (w.room round s.next)) [
          | inl full ↦ rw (is, full, fill) (λ k. ground (arith, k))
          | inr (id, room) ↦ rw (is, room, fill) (fill-Within rest round (enter s id))
        ]
      ]

  swept-Within :
      (round : ℕ) (r : Acquiring × Option (Stop T))
      → InRange p r.0.active
      → Within sha w p r
      → Within sha w p (swept sha w p base priority round r)
  swept-Within round (s, some e) h k = k
  swept-Within round (s, none) h k = sweep-Within sha w p (length s.active) [] s.active round s h

  turn-Within :
      (round : ℕ) (s : Acquiring)
      → InRange p s.active
      → Within sha w p (turn sha w p base priority round s)
  unfolding turn
  turn-Within round s h =
      swept-Within round (fill w p base priority (drop s.next p.artifacts) round s)
        (fill_kept sha w p base priority (λ held s'. InRange p held) (InRange-IsKept p sha w)
          (drop s.next p.artifacts) round s refl h)
        (fill-Within (drop s.next p.artifacts) round s)

  turns-Within :
      (rounds round : ℕ) (s : Acquiring)
      → InRange p s.active
      → (turns sha w p base priority rounds round s).1 ≢ stopped out_of_bounds
  unfolding turns
  turns-Within zero round s h = elim (Bool-cases (is_acquired sha w p base priority s)) [
    | inl is ↦ rw (is, turns) (λ k. ground (arith, k))
    | inr is ↦ rw (is, turns) (λ k. ground (arith, k))
  ]
  turns-Within (suc rounds) round s h = elim (Bool-cases (is_acquired sha w p base priority s)) [
    | inl is ↦ rw (is, turns) (λ k. ground (arith, k))
    | inr is ↦
        let within = turn-Within round s h in
        elim (Option-cases (turn sha w p base priority round s).1) [
          | inr (e, ends) ↦ rw (is, ends, turns) (λ k. within (ground (arith, ends, k)))
          | inl goes ↦
              rw (is, goes, turns)
                (turns-Within rounds (round + 1) (turn sha w p base priority round s).0 (
                  turn_kept sha w p base priority (λ held s'. InRange p held)
                    (InRange-IsKept p sha w) round s h))
        ]
  ]

  left-Within :
      (r : Acquiring × End T)
      → r.1 ≢ stopped out_of_bounds
      → (left sha w p base priority r).1 ≢ stopped out_of_bounds
  left-Within (s, killed) h k = ground (arith, k)
  left-Within (s, acquired) h k = ground (arith, k)
  left-Within (s, stopped e) h k = h k

  pub acquire-Within :
      (rounds : ℕ) (files : Files)
      → (acquire sha w p base priority rounds files).1 ≢ stopped out_of_bounds
  unfolding acquire
  acquire-Within rounds files =
      left-Within (turns sha w p base priority rounds 0 (begin_acquiring p.artifacts files))
        (turns-Within rounds 0 (begin_acquiring p.artifacts files) tt)
