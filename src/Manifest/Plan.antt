-- ===== src/Manifest/Plan.antt =====
-- crates/updater/src/check/plan.rs: what a check decided would have to be fetched. Whether a digest
-- parses and its cache entry is complete is the cache's answer, and an argument.
use retrovert.Common.{
  ℕ, ◌+◌, ◌-◌, ◌≤◌, ◌≡◌, refl, ap, ◌∙◌, Bool, true, not, ◌&&◌, Option, none, some, List, [], ◌∷◌,
  length, saturating_add, u64_max, if◌then◌else◌, arith, Bool-cases, inl, inr,
}
use retrovert.Manifest.{Text, target_eq, Artifact, Manifest}

pub record Plan : Type 0 where
  pub generation_id : Text
  pub release_version : ℕ
  pub artifacts : List Artifact
  pub total_bytes : ℕ
  pub cached_bytes : ℕ

unfoldable pub artifact_count : Plan → ℕ
artifact_count p = length p.artifacts

-- A subtraction that stops at zero, as it does in the source.
unfoldable pub bytes_to_fetch : Plan → ℕ
bytes_to_fetch p = p.total_bytes - p.cached_bytes

unfoldable pub applies_to : Artifact → Option Text → Bool
applies_to a target = elim a.target [ none ↦ true | some named ↦ target_eq (some named) target ]

unfoldable pub applicable : Option Text → List Artifact → List Artifact
unfolding applies_to
applicable target [] = []
applicable target (a ∷ rest) =
    let later = applicable target rest in if applies_to a target then a ∷ later else later

abbrev pub is_cached : (Text → Bool) → Artifact → Bool
is_cached cache a = cache a.sha256

-- The loop that weighs the artifacts, from the totals so far.
unfoldable pub weigh : (Text → Bool) → List Artifact → ℕ → ℕ → ℕ × ℕ
weigh cache [] total_bytes cached_bytes = (total_bytes, cached_bytes)
weigh cache (a ∷ rest) total_bytes cached_bytes =
    weigh cache rest (saturating_add total_bytes a.size)
      (if is_cached cache a then saturating_add cached_bytes a.size else cached_bytes)

unfoldable pub select : Text → Manifest → Option Text → (Text → Bool) → Plan
unfolding applicable weigh
select generation_id m target cache =
    let artifacts = applicable target m.artifacts in
    let (total_bytes, cached_bytes) = weigh cache artifacts 0 0 in
    record {
      generation_id = generation_id;
      release_version = m.version;
      artifacts = artifacts;
      total_bytes = total_bytes;
      cached_bytes = cached_bytes;
    }

-- The sizes of the artifacts that are wanted for a target and pass a test, without a bound.
abbrev pub weight : (Artifact → Bool) → List Artifact → ℕ
weight q [] = 0
weight q (a ∷ rest) = let later = weight q rest in if q a then a.size + later else later

abbrev pub wanted : Option Text → (Artifact → Bool) → Artifact → Bool
wanted target q a = applies_to a target && q a

abbrev pub any_artifact : Artifact → Bool
any_artifact a = true

-- With totals that fit, the loop adds the sizes to them.
weigh-weight :
    (cache : Text → Bool) (xs : List Artifact) (t c : ℕ)
    → t + weight any_artifact xs ≤ u64_max
    → c ≤ t
    → ((weigh cache xs t c).0 ≡ t + weight any_artifact xs)
      × ((weigh cache xs t c).1 ≡ c + weight (is_cached cache) xs)
unfolding weigh
weigh-weight cache [] t c fits l = (omega arith, omega arith)
weigh-weight cache (a ∷ rest) t c fits l = elim (Bool-cases (is_cached cache a)) [
  | inl held ↦
      let (total, cached) =
        weigh-weight cache rest (saturating_add t a.size) (saturating_add c a.size) (omega arith)
          (omega arith) in
      rw (weigh, weight, held) (total ∙ omega arith, cached ∙ omega arith)
  | inr absent ↦
      let (total, cached) =
        weigh-weight cache rest (saturating_add t a.size) c (omega arith) (omega arith) in
      rw (weigh, weight, absent) (total ∙ omega arith, cached)
]

weight-applicable :
    (target : Option Text) (q : Artifact → Bool) (xs : List Artifact)
    → weight q (applicable target xs) ≡ weight (wanted target q) xs
unfolding applicable
weight-applicable target q [] = refl
weight-applicable target q (a ∷ rest) = elim (Bool-cases (applies_to a target)) [
  | inr other ↦ rw (applicable, weight, wanted, other) (weight-applicable target q rest)
  | inl mine ↦
      rw (applicable, weight, wanted, mine)
        (ap (λ n. if q a then a.size + n else n) (weight-applicable target q rest))
]

weight-split :
    (q : Artifact → Bool) (xs : List Artifact)
    → weight any_artifact xs ≡ weight q xs + weight (λ a. not (q a)) xs
weight-split q [] = omega arith
weight-split q (a ∷ rest) = ground (arith, weight-split q rest)

-- Of a selection whose artifacts weigh at most 2^64 - 1 bytes, what is to be fetched is the sum of the
-- sizes of the artifacts that apply to the target and are not in the cache; and its total and cached
-- bytes are the sums of the sizes of those that apply, and of those of them that are cached. Each
-- artifact counts, also several of one digest.
pub bytes_to_fetch-select :
    (id : Text) (m : Manifest) (target : Option Text) (cache : Text → Bool)
    → weight (wanted target any_artifact) m.artifacts ≤ u64_max
    → (bytes_to_fetch (select id m target cache)
        ≡ weight (wanted target (λ a. not (is_cached cache a))) m.artifacts)
      × ((select id m target cache).total_bytes ≡ weight (wanted target any_artifact) m.artifacts)
      × ((select id m target cache).cached_bytes
          ≡ weight (wanted target (is_cached cache)) m.artifacts)
unfolding bytes_to_fetch select
bytes_to_fetch-select id m target cache fits =
    let xs = applicable target m.artifacts in
    let whole = weight-applicable target any_artifact m.artifacts in
    let held = weight-applicable target (is_cached cache) m.artifacts in
    let missing = weight-applicable target (λ a. not (is_cached cache a)) m.artifacts in
    let parts = weight-split (is_cached cache) xs in
    let (total, cached) = weigh-weight cache xs 0 0 (omega (arith, whole)) (omega arith) in
    (
      omega (arith, total, cached, whole, held, missing, parts),
      omega (arith, total, whole),
      omega (arith, cached, held),
    )
