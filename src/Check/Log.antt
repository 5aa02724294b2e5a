-- ===== src/Check/Log.antt =====
-- crates/updater/src/check/record.rs: what is in the log.
use mathlib.Core.List.{append_assoc, append-nil}
use retrovert.Common.{
  ℕ, zero, suc, ◌+◌, ◌-◌, ◌≤◌, ◌≡◌, refl, sym, ◌∙◌, ap, subst, true, Option, none, some, List, [],
  ◌∷◌, ◌++◌, ltb, arith, length, length-append, Bool-cases, inl, inr,
}
use retrovert.Common.Slices.{drop, drop-drop}
use retrovert.Common.Results.{ok}
use retrovert.Manifest.{Text}
use retrovert.Check.{
  Record, max_entries, entries, kept, append, Checker, Files, World, check, resolve, record_of,
  checks, records,
}

module _ {ℓ} {A : Type ℓ} where
  drop-append : (k : ℕ) (xs ys : List A) → k ≤ length xs → drop k (xs ++ ys) ≡ drop k xs ++ ys
  drop-append zero xs ys h = refl
  drop-append (suc k) [] ys h = absurd (omega arith)
  drop-append (suc k) (x ∷ xs) ys h = drop-append k xs ys (omega arith)

  length-drop : (k : ℕ) (xs : List A) → length (drop k xs) ≡ length xs - k
  length-drop zero xs = omega arith
  length-drop (suc k) [] = omega arith
  length-drop (suc k) (x ∷ xs) = omega (arith, length-drop k xs)

module _ {E : Type 0} where
  -- The last records, as many as are kept.
  kept-drop : (rs : List (Record E)) → kept rs ≡ drop (length rs - max_entries) rs
  kept-drop rs = elim (Bool-cases (ltb max_entries (length rs))) [
    | inl long ↦ rw long
    | inr short ↦ let e : length rs - max_entries ≡ 0 = ground arith in rw (short, e)
  ]

  -- What went before the last ones does not matter for the next.
  kept-kept : (rs : List (Record E)) (r : Record E) → kept (kept rs ++ r ∷ []) ≡ kept (rs ++ r ∷ [])
  kept-kept rs r = elim (Bool-cases (ltb max_entries (length rs))) [
    | inr short ↦ rw short
    | inl long ↦
        let k = length rs - max_entries in
        let e : kept rs ≡ drop k rs = kept-drop rs in
        let held : length (drop k rs) ≡ max_entries = ground (arith, length-drop k rs) in
        let one : length (drop k rs ++ r ∷ []) - max_entries ≡ 1 =
          omega (arith, length-append (drop k rs) (r ∷ []), held) in
        let all : length (rs ++ r ∷ []) - max_entries ≡ k + 1 =
          ground (arith, length-append rs (r ∷ [])) in
        ap (λ z. kept (z ++ r ∷ [])) e
        ∙ kept-drop (drop k rs ++ r ∷ [])
        ∙ ap (λ n. drop n (drop k rs ++ r ∷ [])) one
        ∙ ap (drop 1) (sym (drop-append k rs (r ∷ []) (omega arith)))
        ∙ drop-drop 1 k (rs ++ r ∷ [])
        ∙ ap (λ n. drop n (rs ++ r ∷ [])) (sym all)
        ∙ sym (kept-drop (rs ++ r ∷ []))
  ]

module _ {E : Type 0} where
  -- The log can be read and written at every check.
  abbrev pub Logs : List (World E × Option Text) → Type 0
  Logs [] = Unit
  Logs ((w, installed) ∷ rest) = (w.log_reads ≡ true) × (w.log_stored ≡ true) × Logs rest

module _ {E B : Type 0} (c : Checker E B) where
  -- `serde_json` reads back what it wrote.
  abbrev pub ReadsBack : Type 0
  ReadsBack = (rs : List (Record E)) → c.log_json.parse (c.log_json.print rs) ≡ some rs

  -- The log of a file that can be read.
  abbrev Holds : Option B → List (Record E) → Type 0
  Holds file rs = entries c.log_json file true ≡ ok rs

  entries-print :
      (reads_back : ReadsBack) (rs : List (Record E)) → Holds (some (c.log_json.print rs)) rs
  unfolding entries
  entries-print reads_back rs = rw (reads_back rs)

  append-Holds :
      (reads_back : ReadsBack) (file : Option B) (rs : List (Record E)) (r : Record E)
      → Holds file (kept rs)
      → Holds (append c.log_json file true true r).0 (kept (rs ++ r ∷ []))
  unfolding append
  append-Holds reads_back file rs r h =
      rw h (entries-print reads_back (kept (kept rs ++ r ∷ [])) ∙ ap ok (kept-kept rs r))

  check-Holds :
      (reads_back : ReadsBack) (files : Files B) (w : World E) (installed : Option Text)
      (rs : List (Record E))
      → w.log_reads ≡ true
      → w.log_stored ≡ true
      → Holds files.log (kept rs)
      → Holds
          (check c files w installed).0.log
          (kept (rs ++ record_of w.now (resolve c files w installed).1 ∷ []))
  unfolding check
  check-Holds reads_back files w installed rs reads stored h =
      let r = record_of w.now (resolve c files w installed).1 in
      let after = kept (rs ++ r ∷ []) in
      subst (λ b. Holds (append c.log_json files.log b w.log_stored r).0 after) (sym reads)
        (subst (λ b. Holds (append c.log_json files.log true b r).0 after) (sym stored)
          (append-Holds reads_back files.log rs r h))

  checks-Holds :
      (reads_back : ReadsBack) (files : Files B) (rs : List (Record E))
      (ws : List (World E × Option Text))
      → Logs ws
      → Holds files.log (kept rs)
      → Holds (checks c files ws).log (kept (rs ++ records c files ws))
  unfolding checks records
  checks-Holds reads_back files rs [] l h =
      subst (λ z. Holds files.log (kept z)) (sym (append-nil rs)) h
  checks-Holds reads_back files rs ((w, installed) ∷ rest) (reads, stored, l) h =
      let r = record_of w.now (resolve c files w installed).1 in
      let files' = (check c files w installed).0 in
      subst (λ z. Holds (checks c files' rest).log (kept z))
        (append_assoc rs (r ∷ []) (records c files' rest))
        (checks-Holds reads_back files' (rs ++ r ∷ []) rest l
          (check-Holds reads_back files w installed rs reads stored h))

  -- After any checks of a consumer whose log was not there and can be read and written, the log
  -- holds what each of them came to, in order, and of more than 64 the last 64; if a log is read
  -- back as it was written.
  pub entries-checks :
      (reads_back : ReadsBack) (files : Files B) (ws : List (World E × Option Text))
      → files.log ≡ none
      → Logs ws
      → entries c.log_json (checks c files ws).log true
        ≡ ok (drop (length (records c files ws) - max_entries) (records c files ws))
  unfolding entries
  entries-checks reads_back files ws absent l =
      checks-Holds reads_back files [] ws l (rw absent refl)
      ∙ ap ok (kept-drop (records c files ws))
