-- ===== src/Manifest/Examples.antt =====
-- A release set of two artifacts.
use retrovert.Common.{ℕ, ◌≤◌, ◌≡◌, refl, true, false, not, Option, none, some, [], ◌∷◌, ◌++◌, arith}
use retrovert.Manifest.{Text, Artifact, Manifest, is_clean_relative_path, split, Reader, parse}
use retrovert.Manifest.Paths.{walk, join, walk-is_clean_relative_path}
use retrovert.Manifest.Checked.{to_option, accepted, parse-accepted}
use retrovert.Manifest.Plan.{
  applies_to, select, bytes_to_fetch, weight, wanted, any_artifact, is_cached,
  bytes_to_fetch-select,
}

-- `a/b`
abbrev nested : Text
nested = 97 ∷ 47 ∷ 98 ∷ []

nested-clean : is_clean_relative_path nested ≡ true
unfolding is_clean_relative_path
nested-clean = refl

walk-is_clean_relative_path_example :
    (walk ((99 ∷ []) ∷ []) (split nested) ≡ ((99 ∷ []) ∷ []) ++ split nested)
    × (join (split nested) ≡ nested)
walk-is_clean_relative_path_example =
    walk-is_clean_relative_path ((99 ∷ []) ∷ []) nested nested-clean

abbrev artifact : Option Text → ℕ → Artifact
artifact target size = record {
  name = 117 ∷ [];
  target = target;
  path = nested;
  sha256 = 48 ∷ [];
  size = size;
  revision = 97 ∷ [];
  version = none;
}

-- One artifact is for every consumer and one for the target `l`.
abbrev manifest : Manifest
manifest = record {
  schema = 1;
  version = 1;
  source_revision = 97 ∷ [];
  published = 50 ∷ [];
  artifacts = artifact none 100 ∷ artifact (some (108 ∷ [])) 20 ∷ [];
}

wanted-fits :
    weight (wanted (some (108 ∷ [])) any_artifact) manifest.artifacts ≤ 18446744073709551615
unfolding applies_to
wanted-fits = omega arith

bytes_to_fetch-select_example :
    (bytes_to_fetch (select [] manifest (some (108 ∷ [])) (λ d. false))
      ≡ weight (wanted (some (108 ∷ [])) (λ a. not (is_cached (λ d. false) a))) manifest.artifacts)
    × ((select [] manifest (some (108 ∷ [])) (λ d. false)).total_bytes
        ≡ weight (wanted (some (108 ∷ [])) any_artifact) manifest.artifacts)
    × ((select [] manifest (some (108 ∷ [])) (λ d. false)).cached_bytes
        ≡ weight (wanted (some (108 ∷ [])) (is_cached (λ d. false))) manifest.artifacts)
bytes_to_fetch-select_example =
    bytes_to_fetch-select [] manifest (some (108 ∷ [])) (λ d. false) wanted-fits

abbrev reader : Reader
reader = record {
  read_schema = λ bytes. some 1;
  read_manifest = λ bytes. some manifest;
  is_timestamp = λ t. true;
}

parse-accepted_example : to_option (parse reader []) ≡ accepted reader []
parse-accepted_example = parse-accepted reader []
