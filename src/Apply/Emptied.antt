-- ===== src/Apply/Emptied.antt =====
-- crates/updater/src/apply/mod.rs: a sweep of transfers that are over leaves none that is held.
use retrovert.Common.{
  ℕ, zero, suc, ◌≡◌, refl, ◌∙◌, Bool, true, false, Option, none, some, List, [], ◌∷◌, arith, length,
  get_elem?, Option-cases, inl, inr,
}
use retrovert.Common.Results.{Result, ok, err, Result-cases}
use retrovert.Queue.{State, complete, failed}
use retrovert.Manifest.{Artifact}
use retrovert.Manifest.Plan.{Plan}
use retrovert.Apply.{Error}
use retrovert.Apply.Install.{Installed, Files}
use retrovert.Apply.Acquire.{
  World, Acquiring, Stop, last_first, with_some, place, settle, settle_state, sweep, keep_files,
  landed,
}
use retrovert.Apply.Slots.{List-cases}

-- A terminal state.
abbrev pub is_over : State → Bool
is_over complete = true
is_over failed = true
is_over State.cancelled = true
is_over _ = false

length-last_first : (xs : List (ℕ × ℕ)) → length (last_first xs) ≡ length xs
length-last_first [] = refl
length-last_first (x ∷ xs) = elim (List-cases (last_first xs)) [
  | inl is ↦ ground (arith, is, length-last_first xs)
  | inr (y, ys, is) ↦ ground (arith, is, length-last_first xs)
]

module _ {T : Type 0} (sha : List ℕ → List ℕ) (w : World T) where
  with_some_ne :
      (r : Result (Error T) Installed) (files : Files) (es : List (List ℕ))
      → ¬ (
          (with_some {T = T} sha (record { files = files; evicted = es; result = r })).result
          ≡ ok none)
  with_some_ne (ok i) files es h = cc
  with_some_ne (err e) files es h = cc

  settle_state_ne :
      (round : ℕ) (files : Files) (a : Artifact) (id : ℕ) (st : State)
      → is_over st ≡ true
      → ¬ ((settle_state sha w round files a id st).result ≡ ok none)
  settle_state_ne round files a id complete over h =
      let q = place {T = T} sha files a (w.landing round id) in
      with_some_ne q.result q.files q.evicted h
  settle_state_ne round files a id failed over h = cc
  settle_state_ne round files a id State.cancelled over h = cc
  settle_state_ne round files a id State.pending over h = cc
  settle_state_ne round files a id State.downloading over h = cc
  settle_state_ne round files a id State.paused over h = cc
  settle_state_ne round files a id State.preempted over h = cc

module _ {T : Type 0} (sha : List ℕ → List ℕ) (w : World T) (p : Plan) (round : ℕ)
    (over : (id : ℕ) → is_over (w.state round id) ≡ true) where
  -- A sweep of transfers that are over goes through, or leaves nothing.
  abbrev pub Empties : Acquiring → Acquiring × Option (Stop T) → Type 0
  Empties s r = r.1 ≡ none → (r.0.active ≡ []) × (r.0.next ≡ s.next)

  pub sweep-Empties :
      (n : ℕ) (rest : List (ℕ × ℕ)) (s : Acquiring)
      → length rest ≡ n
      → Empties s (sweep sha w p n [] rest round s)
  unfolding sweep settle
  sweep-Empties zero [] s is = λ h. (refl, refl)
  sweep-Empties zero (e ∷ rest) s is = absurd (omega (arith, is))
  sweep-Empties (suc n) [] s is = λ h. (refl, refl)
  sweep-Empties (suc n) ((id, index) ∷ rest) s is =
      elim (Option-cases (get_elem? p.artifacts index)) [
        | inl out ↦ rw (out, sweep) (λ h. absurd (ground (arith, h)))
        | inr (a, at) ↦
            let q = settle sha w round s.files a id in
            elim (Result-cases q.result) [
              | inr (e, fails) ↦ rw (at, fails, sweep) (λ h. absurd (ground (arith, h)))
              | inl (none, waits) ↦
                  absurd
                    (settle_state_ne sha w round s.files a id (w.state round id) (over id) waits)
              | inl (some i, lands) ↦
                  rw (at, lands, sweep)
                    (sweep-Empties n (last_first rest)
                      (landed (keep_files s q) id index (w.frees round id) i)
                      (length-last_first rest ∙ omega (arith, is)))
            ]
      ]
