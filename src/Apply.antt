-- ===== src/Apply.antt =====
-- crates/updater/src/apply/mod.rs: turning a plan into an installed generation. Apply/Install has the
-- install root, Apply/Acquire the fetching of a plan's artifacts, Apply/Publish a whole apply.
pub mod Install
pub mod Acquire
pub mod Publish
pub mod Distinct
pub mod Placed
pub mod Rounds
pub mod Slots
pub mod Landed
pub mod Whole
pub mod Session
pub mod Applied
pub mod Generations
pub mod History
pub mod Bounds
pub mod Emptied
pub mod Ends
pub mod Completions
mod Examples
use retrovert.Common.{
  ℕ, zero, suc, ◌+◌, ◌/◌, ◌%◌, Bool, true, false, not, ◌&&◌, Option, none, some, List, [], ◌∷◌,
  ◌++◌, ltb, ◌==◌, find, if◌then◌else◌,
}
use retrovert.Common.Results.{Result, ok, err, ◌>>=◌}
use retrovert.Queue.{Failure, Priority}
use retrovert.Manifest.{Text, Artifact, text_eq, is_hex_sha256, is_clean_relative_path}
use retrovert.Manifest.Plan.{Plan}
use retrovert.Transport.Digest.{from_hex}
use retrovert.Channel.Time.{starts_with}
use retrovert.Channel.Source.{base_of}

-- `apply::Error`
pub data Error (T : Type 0) : Type 0 where
  artifact : Text → Failure T → Error T
  cancelled : Text → Error T
  digest : (name digest : Text) → Error T
  unsafe_path : (name path : Text) → Error T
  generation_id : Text → Error T
  collision : (first second path : Text) → Error T
  install : Error T

-- `Request`, whose URL is a text here.
pub record Request : Type 0 where
  pub url : Text
  pub digest : List ℕ
  pub expected_size : Option ℕ
  pub priority : Priority

-- `{version}`
abbrev pub version_slot : Text
version_slot = 123 ∷ 118 ∷ 101 ∷ 114 ∷ 115 ∷ 105 ∷ 111 ∷ 110 ∷ 125 ∷ []

-- `base.replace(VERSION_SLOT, version)`, of which that many bytes are still of a slot before.
unfoldable pub replace : Text → ℕ → Text → Text
replace version (suc skip) [] = []
replace version (suc skip) (b ∷ bs) = replace version skip bs
replace version zero [] = []
replace version zero (b ∷ bs) =
    let after = replace version 8 bs in
    let next = replace version zero bs in
    if starts_with version_slot (b ∷ bs) then version ++ after else b ∷ next

-- The decimal digits of a `u64`, of which there are at most 20.
unfoldable pub decimal : ℕ → ℕ → Text
decimal zero n = []
decimal (suc places) n =
    let rest = decimal places (n / 10) in
    if ltb n 10 then (n + 48) ∷ [] else rest ++ (n % 10 + 48) ∷ []

-- The bases of the URLs that an applier fetches from.
unfoldable pub artifact_base : Text → Text
unfolding base_of
artifact_base artifact_base_url = base_of artifact_base_url

module _ {T : Type 0} where
  abbrev pub digest_of : Artifact → Result (Error T) (List ℕ)
  digest_of a = elim (from_hex a.sha256) [ none ↦ err (digest a.name a.sha256) | some d ↦ ok d ]

  unfoldable pub request_for : Text → Artifact → ℕ → Priority → Result (Error T) Request
  unfolding replace decimal
  request_for base a release_version priority = do
    d ← digest_of a
    ok (record {
      url = replace (decimal 20 release_version) zero base ++ a.path;
      digest = d;
      expected_size = some a.size;
      priority = priority;
    })

  abbrev pub refuse_unsafe_path : Artifact → Result (Error T) (Unit {0})
  refuse_unsafe_path a =
      if is_clean_relative_path a.path then ok tt else err (unsafe_path a.name a.path)

  abbrev pub refuse_unsafe_paths : List Artifact → Result (Error T) (Unit {0})
  refuse_unsafe_paths [] = ok tt
  refuse_unsafe_paths (a ∷ rest) = do _ ← refuse_unsafe_path a; refuse_unsafe_paths rest

  unfoldable pub refuse_unsafe_names : Plan → Result (Error T) (Unit {0})
  unfolding is_hex_sha256
  refuse_unsafe_names p =
      if is_hex_sha256 p.generation_id
      then refuse_unsafe_paths p.artifacts
      else err (generation_id p.generation_id)

  -- The map of the paths that are claimed, as the artifacts that claimed them.
  unfoldable pub refuse_collisions : List Artifact → List Artifact → Result (Error T) (Unit {0})
  refuse_collisions claimed [] = ok tt
  refuse_collisions claimed (a ∷ rest) = elim (find (λ b. text_eq b.path a.path) claimed) [
    | some first ↦ err (collision first.name a.name a.path)
    | none ↦ refuse_collisions (a ∷ claimed) rest
  ]
