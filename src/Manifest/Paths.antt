-- ===== src/Manifest/Paths.antt =====
-- crates/tuf/src/manifest.rs: a clean relative path stays under its base.
use mathlib.Core.List.{append-nil, append_assoc}
use retrovert.Common.{
  ℕ, ◌≡◌, refl, ap, sym, ◌∙◌, true, ◌||◌, List, [], ◌∷◌, ◌++◌, arith, ◌==◌, if◌then◌else◌,
  Bool-cases, inl, inr,
}
use retrovert.Manifest.{
  Text, is_empty, text_eq, all, extend, split, is_clean_part, is_clean_relative_path,
}

-- All but the last component.
abbrev pub parent : List Text → List Text
parent [] = []
parent (p ∷ []) = []
parent (p ∷ q ∷ ps) = p ∷ parent (q ∷ ps)

-- How a resolver takes one component: an empty one and `.` stay, `..` goes up.
abbrev pub enter : List Text → Text → List Text
enter dir p =
    if is_empty p || text_eq p (46 ∷ [])
    then dir
    else if text_eq p (46 ∷ 46 ∷ [])
    then parent dir
    else dir ++ p ∷ []

unfoldable pub walk : List Text → List Text → List Text
walk dir [] = dir
walk dir (p ∷ ps) = walk (enter dir p) ps

enter-clean : (dir : List Text) (p : Text) → is_clean_part p ≡ true → enter dir p ≡ dir ++ p ∷ []
enter-clean dir p h = ground arith

walk-clean : (dir ps : List Text) → all is_clean_part ps ≡ true → walk dir ps ≡ dir ++ ps
unfolding walk
walk-clean dir [] h = sym (append-nil dir)
walk-clean dir (p ∷ ps) h =
    ap (λ d. walk d ps) (enter-clean dir p (ground arith))
    ∙ walk-clean (dir ++ p ∷ []) ps (ground arith)
    ∙ append_assoc dir (p ∷ []) ps

-- The components with a slash between each two.
abbrev pub join : List Text → Text
join [] = []
join (p ∷ []) = p
join (p ∷ q ∷ ps) = p ++ 47 ∷ join (q ∷ ps)

join-extend : (b : ℕ) (ps : List Text) → join (extend b ps) ≡ b ∷ join ps
join-extend b [] = refl
join-extend b (p ∷ []) = refl
join-extend b (p ∷ q ∷ ps) = refl

join-slash : (s : Text) → join ([] ∷ split s) ≡ 47 ∷ join (split s)
unfolding split
join-slash [] = refl
join-slash (b ∷ s) = elim (Bool-cases (b == 47)) [
  | inl slash ↦ rw (split, slash) refl
  | inr other ↦ rw (split, other) (go (split s))
]
  where
    go : (ps : List Text) → join ([] ∷ extend b ps) ≡ 47 ∷ join (extend b ps)
    go [] = refl
    go (p ∷ ps) = refl

join-split : (s : Text) → join (split s) ≡ s
unfolding split
join-split [] = refl
join-split (b ∷ s) = elim (Bool-cases (b == 47)) [
  | inl slash ↦
      rw (split, slash)
        (join-slash s ∙ ap (λ t. 47 ∷ t) (join-split s) ∙ ap (λ c. c ∷ s) (ground arith))
  | inr other ↦ rw (split, other) (join-extend b (split s) ∙ ap (λ t. b ∷ t) (join-split s))
]

-- A path that is accepted is made of the components that it is split into, and a resolver that
-- walks them from any directory ends below it, at those components: it never leaves the directory.
pub walk-is_clean_relative_path :
    (dir : List Text) (s : Text)
    → is_clean_relative_path s ≡ true
    → (walk dir (split s) ≡ dir ++ split s) × (join (split s) ≡ s)
unfolding is_clean_relative_path
walk-is_clean_relative_path dir s h = (walk-clean dir (split s) (ground arith), join-split s)
