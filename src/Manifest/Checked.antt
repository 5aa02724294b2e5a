-- ===== src/Manifest/Checked.antt =====
-- crates/tuf/src/manifest.rs: which manifests `parse` accepts.
use retrovert.Common.{
  ℕ, ◌≡◌, refl, ap, sym, ◌∙◌, Bool, true, false, not, ◌&&◌, ◌||◌, Option, none, some, List, [], ◌∷◌,
  arith, ◌==◌, is_none, if◌then◌else◌, Bool-cases, Option-cases, inl, inr,
}
use retrovert.Common.Results.{Result, ok, err}
use retrovert.Manifest.{
  Text, Artifact, Manifest, Refusal, schema_version, is_empty, all, is_hex_sha256,
  is_clean_relative_path, has_empty_target, same_key, contains, check_artifact, check_artifacts,
  check, Reader, unrefused, parse,
}

-- What is asked of an artifact by itself.
abbrev pub is_wellformed : Artifact → Bool
is_wellformed a =
    not (is_empty a.name)
    && (not (has_empty_target a)
        && (not (is_empty a.revision) && (is_hex_sha256 a.sha256 && is_clean_relative_path a.path)))

-- No two artifacts have the same name and target.
abbrev pub are_distinct : List Artifact → Bool
are_distinct [] = true
are_distinct (a ∷ rest) = all (λ b. not (same_key b a)) rest && are_distinct rest

abbrev pub is_acceptable : (Text → Bool) → Manifest → Bool
is_acceptable is_timestamp m =
    not (m.version == 0)
    && (not (is_empty m.source_revision)
        && (is_timestamp m.published
            && (all is_wellformed m.artifacts && are_distinct m.artifacts)))

-- A text that is read as a document of this schema that is acceptable.
abbrev pub accepted : Reader → List ℕ → Option Manifest
accepted reader bytes = elim (reader.read_schema bytes) [
  | none ↦ none
  | some v ↦
      if v == schema_version
      then elim (reader.read_manifest bytes) [
        | none ↦ none
        | some m ↦ if is_acceptable reader.is_timestamp m then some m else none
      ]
      else none
]

abbrev pub to_option : Result Refusal Manifest → Option Manifest
to_option (ok m) = some m
to_option (err r) = none

check_artifact-none :
    (seen : List Artifact) (a : Artifact)
    → is_none (check_artifact seen a) ≡ (is_wellformed a && not (contains a seen))
unfolding check_artifact
check_artifact-none seen a = ground arith

all-and :
    (q r : Artifact → Bool) (xs : List Artifact) → all (λ x. q x && r x) xs ≡ (all q xs && all r xs)
all-and q r [] = refl
all-and q r (x ∷ xs) = ground (arith, all-and q r xs)

all-or :
    (q r : Artifact → Bool) (xs : List Artifact)
    → all (λ x. not (q x || r x)) xs ≡ (all (λ x. not (q x)) xs && all (λ x. not (r x)) xs)
all-or q r [] = refl
all-or q r (x ∷ xs) = ground (arith, all-or q r xs)

combine_bad :
    (w c ws d k n : Bool) → false ≡ (w && not c) → false ≡ ((w && ws) && ((k && d) && (not c && n)))
combine_bad w c ws d k n h = ground arith

combine_good :
    (w c ws d k n : Bool)
    → true ≡ (w && not c)
    → (ws && (d && (k && n))) ≡ ((w && ws) && ((k && d) && (not c && n)))
combine_good w c ws d k n h = ground arith

check_artifacts-none :
    (seen rest : List Artifact)
    → is_none (check_artifacts seen rest)
      ≡ (all is_wellformed rest && (are_distinct rest && all (λ x. not (contains x seen)) rest))
unfolding check_artifacts
check_artifacts-none seen [] = refl
check_artifacts-none seen (a ∷ rest) = elim (Option-cases (check_artifact seen a)) [
  | inr (r, refused) ↦
      let none_here = ap is_none (sym refused) ∙ check_artifact-none seen a in
      rw (check_artifacts, refused)
        (combine_bad (is_wellformed a) (contains a seen) (all is_wellformed rest)
          (are_distinct rest) (all (λ x. not (same_key x a)) rest)
          (all (λ x. not (contains x seen)) rest) none_here)
  | inl fine ↦
      let none_here = ap is_none (sym fine) ∙ check_artifact-none seen a in
      rw (check_artifacts, fine)
        (check_artifacts-none (a ∷ seen) rest
          ∙ ap (λ b. all is_wellformed rest && (are_distinct rest && b))
              (all-or (λ x. same_key x a) (λ x. contains x seen) rest)
          ∙ combine_good (is_wellformed a) (contains a seen) (all is_wellformed rest)
              (are_distinct rest) (all (λ x. not (same_key x a)) rest)
              (all (λ x. not (contains x seen)) rest) none_here)
]

check-none :
    (is_timestamp : Text → Bool) (m : Manifest)
    → is_none (check is_timestamp m) ≡ is_acceptable is_timestamp m
unfolding check
check-none is_timestamp m =
    ground (arith, check_artifacts-none [] m.artifacts, all_true m.artifacts)
  where
    all_true : (xs : List Artifact) → all (λ x. not (contains x [])) xs ≡ true
    all_true [] = refl
    all_true (x ∷ xs) = all_true xs

unrefused-option :
    (m : Manifest) (o : Option Refusal)
    → to_option (unrefused m o) ≡ (if is_none o then some m else none)
unrefused-option m none = refl
unrefused-option m (some r) = refl

-- A text parses exactly to the manifest that is read from it, if its schema is the one that this
-- build reads, its version is not zero, its source revision is not empty, its date is a timestamp,
-- every artifact has a name, a revision, a target that is not empty if it has one, a lowercase hex
-- SHA-256 and a clean relative path, and no two artifacts have the same name and target.
pub parse-accepted :
    (reader : Reader) (bytes : List ℕ) → to_option (parse reader bytes) ≡ accepted reader bytes
unfolding parse
parse-accepted reader bytes = elim (Option-cases (reader.read_schema bytes)) [
  | inl unread ↦ rw (parse, accepted, unread) refl
  | inr (v, schema) ↦ elim (Bool-cases (v == schema_version)) [
    | inr other ↦ rw (parse, accepted, schema, other) refl
    | inl same ↦ elim (Option-cases (reader.read_manifest bytes)) [
      | inl unread ↦ rw (parse, accepted, schema, same, unread) refl
      | inr (m, document) ↦
          rw (parse, accepted, schema, same, document)
            (unrefused-option m (check reader.is_timestamp m)
              ∙ ap (λ b. if b then some m else none) (check-none reader.is_timestamp m))
    ]
  ]
]
