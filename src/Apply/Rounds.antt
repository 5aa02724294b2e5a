-- ===== src/Apply/Rounds.antt =====
-- crates/updater/src/apply/mod.rs: what every turn of the loop of an acquisition keeps.
use mathlib.Core.List.{append_assoc, append-nil}
use retrovert.Common.{
  ℕ, zero, suc, ◌+◌, ◌≡◌, refl, sym, subst, Option, none, some, List, [], ◌∷◌, ◌++◌, arith, length,
  get_elem?, Option-cases, Bool-cases, inl, inr,
}
use retrovert.Common.Slices.{drop}
use retrovert.Common.Results.{Result-cases}
use retrovert.Queue.{complete, Priority}
use retrovert.Manifest.{Text, Artifact}
use retrovert.Manifest.Plan.{Plan}
use retrovert.Apply.{request_for}
use retrovert.Apply.Install.{Installed, Files}
use retrovert.Apply.Acquire.{
  World, Placing, Acquiring, Stop, last_first, landed, keep_files, settle, sweep, enter, fill,
}
use retrovert.Apply.Publish.{is_acquired, swept, turn, turns}
use retrovert.Apply.Placed.{IsPlaced, SettlesOr, settle-Settles, settle-complete}

-- What holds of the entries that are held and of the state, and is kept by what a turn does to them.
pub record IsKept {T : Type 0} (sha : List ℕ → List ℕ) (w : World T) (p : Plan)
    (I : List (ℕ × ℕ) → Acquiring → Type 0) : Type 0 where
  pub holding :
      (held xs : List (ℕ × ℕ)) (s : Acquiring) → I held s → I held (record s { active = xs })
  pub evicting :
      (held : List (ℕ × ℕ)) (s : Acquiring) (ds : List (List ℕ))
      → I held s
      → I held (record s { evicted = ds })
  pub landing :
      (kept rest : List (ℕ × ℕ)) (s : Acquiring) (round id index : ℕ) (a : Artifact) (files : Files)
      (i : Installed)
      → get_elem? p.artifacts index ≡ some a
      → w.state round id ≡ complete
      → IsPlaced sha a s.files files i
      → I (kept ++ (id, index) ∷ rest) s
      → I
          (kept ++ last_first rest)
          (landed (record s { files = files }) id index (w.frees round id) i)
  pub entering :
      (s : Acquiring) (id : ℕ) (a : Artifact)
      → get_elem? p.artifacts s.next ≡ some a
      → I s.active s
      → I (s.active ++ (id, s.next) ∷ []) (enter s id)

module _ {T : Type 0} (sha : List ℕ → List ℕ) (w : World T) (p : Plan)
    (I : List (ℕ × ℕ) → Acquiring → Type 0) (k : IsKept sha w p I) where
  keep_files_same :
      (held : List (ℕ × ℕ)) (s : Acquiring) (q : Placing T (Option Installed))
      → q.files ≡ s.files
      → I held s
      → I held (keep_files s q)
  keep_files_same held s q same h =
      subst (λ f. I held (record s { files = f; evicted = s.evicted ++ q.evicted })) (sym same)
        (k.evicting held s (s.evicted ++ q.evicted) h)

  pub sweep_kept :
      (n : ℕ) (kept rest : List (ℕ × ℕ)) (round : ℕ) (s : Acquiring)
      → I (kept ++ rest) s
      → I (sweep sha w p n kept rest round s).0.active (sweep sha w p n kept rest round s).0
  unfolding sweep
  sweep_kept zero kept rest round s h = k.holding (kept ++ rest) (kept ++ rest) s h
  sweep_kept (suc n) kept [] round s h =
      k.holding kept kept s (subst (λ e. I e s) (append-nil kept) h)
  sweep_kept (suc n) kept ((id, index) ∷ rest) round s h =
      elim (Option-cases (get_elem? p.artifacts index)) [
        | inl out ↦ rw (out, sweep) (k.holding _ _ s h)
        | inr (a, at) ↦
            let q = settle sha w round s.files a id in
            let held = kept ++ (id, index) ∷ rest in
            let settled = settle-Settles sha w round s.files a id in
            elim (Result-cases q.result) [
              | inr (e, is) ↦
                  rw (at, is, sweep)
                    (k.holding held held (keep_files s q) (
                      keep_files_same held s q
                        (subst (SettlesOr {T = T} sha a s.files q.files) is settled) h))
              | inl (none, is) ↦
                  rw (at, is, sweep)
                    (sweep_kept n (kept ++ (id, index) ∷ []) rest round (keep_files s q) (
                      subst (λ e. I e (keep_files s q))
                        (sym (append_assoc kept ((id, index) ∷ []) rest))
                        (keep_files_same held s q
                          (subst (SettlesOr {T = T} sha a s.files q.files) is settled) h)))
              | inl (some i, is) ↦
                  rw (at, is, sweep)
                    (sweep_kept n kept (last_first rest) round
                      (landed (keep_files s q) id index (w.frees round id) i)
                      (k.evicting (kept ++ last_first rest) _ (s.evicted ++ q.evicted) (
                        k.landing kept rest s round id index a q.files i at
                          (settle-complete sha w round s.files a id i is)
                          (subst (SettlesOr {T = T} sha a s.files q.files) is settled) h)))
            ]
      ]

drop-suc_cons {ℓ} :
    {A : Type ℓ} (n : ℕ) (xs : List A) (a : A) (rest : List A)
    → drop n xs ≡ a ∷ rest
    → (get_elem? xs n ≡ some a) × (drop (suc n) xs ≡ rest)
drop-suc_cons zero [] a rest h = cc
drop-suc_cons zero (x ∷ xs) a rest h = ground arith
drop-suc_cons (suc n) [] a rest h = cc
drop-suc_cons (suc n) (x ∷ xs) a rest h = drop-suc_cons n xs a rest h

pub drop_cons {ℓ} :
    {A : Type ℓ} (n : ℕ) (xs : List A) (a : A) (rest : List A)
    → drop n xs ≡ a ∷ rest
    → (get_elem? xs n ≡ some a) × (drop (n + 1) xs ≡ rest)
drop_cons n xs a rest h =
    let (at, next) = drop-suc_cons n xs a rest h in
    let same : suc n ≡ n + 1 = omega arith in (at, subst (λ m. drop m xs ≡ rest) same next)

module _ {T : Type 0} (sha : List ℕ → List ℕ) (w : World T) (p : Plan) (base : Text)
    (priority : Priority) (I : List (ℕ × ℕ) → Acquiring → Type 0) (k : IsKept sha w p I) where
  pub fill_kept :
      (artifacts : List Artifact) (round : ℕ) (s : Acquiring)
      → drop s.next p.artifacts ≡ artifacts
      → I s.active s
      → I
          (fill w p base priority artifacts round s).0.active
          (fill w p base priority artifacts round s).0
  unfolding fill
  fill_kept [] round s here h = h
  fill_kept (a ∷ rest) round s here h =
      let (at, next) = drop_cons s.next p.artifacts a rest here in
      elim (Result-cases (request_for {T = T} base a p.release_version priority)) [
        | inr (e, is) ↦ rw (is, fill) h
        | inl (r, is) ↦ elim (Option-cases (w.room round s.next)) [
          | inl full ↦ rw (is, full, fill) h
          | inr (id, room) ↦
              rw (is, room, fill) (fill_kept rest round (enter s id) next (k.entering s id a at h))
        ]
      ]

  swept_kept :
      (round : ℕ) (r : Acquiring × Option (Stop T))
      → I r.0.active r.0
      → I (swept sha w p base priority round r).0.active (swept sha w p base priority round r).0
  swept_kept round (s, some e) h = h
  swept_kept round (s, none) h = sweep_kept sha w p I k (length s.active) [] s.active round s h

  pub turn_kept :
      (round : ℕ) (s : Acquiring)
      → I s.active s
      → I (turn sha w p base priority round s).0.active (turn sha w p base priority round s).0
  unfolding turn
  turn_kept round s h =
      swept_kept round (fill w p base priority (drop s.next p.artifacts) round s)
        (fill_kept (drop s.next p.artifacts) round s refl h)

  -- The loop ends in a state of which it holds, and where nothing is held if all was acquired.
  pub turns_kept :
      (rounds round : ℕ) (s : Acquiring)
      → I s.active s
      → I
          (turns sha w p base priority rounds round s).0.active
          (turns sha w p base priority rounds round s).0
  unfolding turns
  turns_kept zero round s h = elim (Bool-cases (is_acquired sha w p base priority s)) [
    | inl is ↦ rw (is, turns) h
    | inr is ↦ rw (is, turns) h
  ]
  turns_kept (suc rounds) round s h = elim (Bool-cases (is_acquired sha w p base priority s)) [
    | inl is ↦ rw (is, turns) h
    | inr is ↦ elim (Option-cases (turn sha w p base priority round s).1) [
      | inr (e, ends) ↦ rw (is, ends, turns) (turn_kept round s h)
      | inl goes ↦
          rw (is, goes, turns)
            (turns_kept rounds (round + 1) (turn sha w p base priority round s).0
              (turn_kept round s h))
    ]
  ]
