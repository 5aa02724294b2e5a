-- ===== src/Apply/Slots.antt =====
-- crates/updater/src/apply/mod.rs: an apply gives back every slot of the queue that it took.
use retrovert.Common.{
  ℕ, ◌+◌, ◌≡◌, ◌≢◌, ◌⊎◌, refl, List, [], ◌∷◌, ◌++◌, ◌==◌, map, arith, if◌then◌else◌, inl, inr, true,
}
use retrovert.Queue.{complete, Priority}
use retrovert.Manifest.{Text}
use retrovert.Manifest.Plan.{Plan}
use retrovert.Apply.Install.{Files}
use retrovert.Apply.Acquire.{World, Acquiring, last_first, begin_acquiring}
use retrovert.Apply.Rounds.{IsKept, turns_kept}
use retrovert.Apply.Publish.{End, killed, stopped, acquired, drop_entries, turns, left, acquire}

-- How often an id is among the ids.
abbrev pub count : ℕ → List ℕ → ℕ
count id [] = 0
count id (x ∷ xs) = (if x == id then 1 else 0) + count id xs

abbrev ids : List (ℕ × ℕ) → List ℕ
ids xs = map (λ e. e.0) xs

count-append : (id : ℕ) (xs ys : List ℕ) → count id (xs ++ ys) ≡ count id xs + count id ys
count-append id [] ys = omega arith
count-append id (x ∷ xs) ys = omega (arith, count-append id xs ys)

count-ids-append :
    (id : ℕ) (xs ys : List (ℕ × ℕ))
    → count id (ids (xs ++ ys)) ≡ count id (ids xs) + count id (ids ys)
count-ids-append id [] ys = omega arith
count-ids-append id (x ∷ xs) ys = omega (arith, count-ids-append id xs ys)

pub List-cases {ℓ} :
    {A : Type ℓ} (xs : List A) → (xs ≡ []) ⊎ ((y : A) × (ys : List A) × (xs ≡ y ∷ ys))
List-cases [] = inl refl
List-cases (y ∷ ys) = inr (y, ys, refl)

count-last_first : (id : ℕ) (xs : List (ℕ × ℕ)) → count id (ids (last_first xs)) ≡ count id (ids xs)
count-last_first id [] = refl
count-last_first id (x ∷ xs) = elim (List-cases (last_first xs)) [
  | inl is ↦ ground (arith, is, count-last_first id xs)
  | inr (y, ys, is) ↦ ground (arith, is, count-last_first id xs)
]

-- What was queued is what was freed and what is held.
abbrev Held : ℕ → List (ℕ × ℕ) → Acquiring → Type 0
Held id held s = count id s.queued ≡ count id s.released + count id (ids held)

-- The queue frees an entry that is complete: no worker holds it still.
abbrev pub FreesComplete : {T : Type 0} → World T → Type 0
FreesComplete w = (round id : ℕ) → w.state round id ≡ complete → w.frees round id ≡ true

Held-IsKept :
    {T : Type 0} (sha : List ℕ → List ℕ) (w : World T) (p : Plan) (id : ℕ)
    → FreesComplete w
    → IsKept sha w p (Held id)
Held-IsKept sha w p id frees = record {
  holding = λ held xs s h. h;
  evicting = λ held s ds h. h;
  landing = λ kept rest s round e index a files i at landing placed h. ground (
    arith,
    h,
    frees round e landing,
    count-append id s.released (e ∷ []),
    count-ids-append id kept ((e, index) ∷ rest),
    count-ids-append id kept (last_first rest),
    count-last_first id rest,
  );
  entering = λ s e a at h. omega (
    arith,
    h,
    count-append id s.queued (e ∷ []),
    count-ids-append id s.active ((e, s.next) ∷ []),
  );
}

left-Held :
    {T : Type 0} (sha : List ℕ → List ℕ) (w : World T) (p : Plan) (base : Text)
    (priority : Priority) (id : ℕ) (r : Acquiring × End T)
    → (left sha w p base priority r).1 ≢ killed
    → Held id r.0.active r.0
    → count id (left sha w p base priority r).0.queued
      ≡ count id (left sha w p base priority r).0.released
unfolding drop_entries
left-Held sha w p base priority id (s, killed) ends h = absurd (ends refl)
left-Held sha w p base priority id (s, acquired) ends h =
    omega (arith, h, count-append id s.released (ids s.active))
left-Held sha w p base priority id (s, stopped e) ends h =
    omega (arith, h, count-append id s.released (ids s.active))

-- If the queue frees every entry that is complete when an acquisition asks it to, then however an
-- acquisition ends, but by the end of its process, the queue has freed each entry as often as it
-- was queued: none of the slots stays claimed.
pub acquire-released :
    {T : Type 0} (sha : List ℕ → List ℕ) (w : World T) (p : Plan) (base : Text)
    (priority : Priority) (rounds : ℕ) (files : Files) (id : ℕ)
    → FreesComplete w
    → (acquire sha w p base priority rounds files).1 ≢ killed
    → count id (acquire sha w p base priority rounds files).0.queued
      ≡ count id (acquire sha w p base priority rounds files).0.released
unfolding acquire
acquire-released sha w p base priority rounds files id frees ends =
    let r = turns sha w p base priority rounds 0 (begin_acquiring p.artifacts files) in
    left-Held sha w p base priority id r ends (
      turns_kept sha w p base priority (Held id) (Held-IsKept sha w p id frees) rounds 0
        (begin_acquiring p.artifacts files) refl)
