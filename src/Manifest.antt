-- ===== src/Manifest.antt =====
-- crates/tuf/src/manifest.rs: the release-set manifest and what is checked of it. A text is its UTF-8
-- bytes. Reading JSON and timestamps is other packages' and an argument; an error carries what it
-- is about and not its message.
pub mod Paths
pub mod Checked
pub mod Plan
mod Examples
use retrovert.Common.{
  ℕ, Bool, true, false, not, ◌&&◌, ◌||◌, Option, none, some, List, [], ◌∷◌, leb, ltb, ◌==◌,
  if◌then◌else◌, length,
}
use retrovert.Common.Results.{Result, ok, err, ◌>>=◌}

abbrev pub Text : Type 0
Text = List ℕ

pub record Artifact : Type 0 where
  pub name : Text
  pub target : Option Text
  pub path : Text
  pub sha256 : Text
  pub size : ℕ
  pub revision : Text
  pub version : Option Text

pub record Manifest : Type 0 where
  pub schema : ℕ
  pub version : ℕ
  pub source_revision : Text
  pub published : Text
  pub artifacts : List Artifact

-- `Error::Manifest`, by the check that fails.
pub data Refusal : Type 0 where
  unreadable bad_version bad_source_revision : Refusal
  bad_schema : ℕ → Refusal
  bad_published : Text → Refusal
  no_name : Refusal
  duplicate empty_target bad_revision bad_sha256 bad_path : Artifact → Refusal

abbrev pub schema_version : ℕ
schema_version = 1

abbrev pub is_empty : Text → Bool
is_empty [] = true
is_empty (b ∷ bs) = false

abbrev pub text_eq : Text → Text → Bool
text_eq [] [] = true
text_eq [] (c ∷ cs) = false
text_eq (b ∷ bs) [] = false
text_eq (b ∷ bs) (c ∷ cs) = (b == c) && text_eq bs cs

abbrev pub target_eq : Option Text → Option Text → Bool
target_eq none none = true
target_eq none (some b) = false
target_eq (some a) none = false
target_eq (some a) (some b) = text_eq a b

abbrev pub all : {A : Type 0} → (A → Bool) → List A → Bool
all q [] = true
all q (x ∷ xs) = q x && all q xs

-- `0` to `9` and `a` to `f`
abbrev pub is_hex : ℕ → Bool
is_hex b = (leb 48 b && leb b 57) || (leb 97 b && leb b 102)

unfoldable pub is_hex_sha256 : Text → Bool
is_hex_sha256 s = (length s == 64) && all is_hex s

-- A control character, a backslash, `:`, `?`, `#` or `%`.
abbrev pub is_refused : ℕ → Bool
is_refused b =
    ltb b 32
    || ((b == 127) || ((b == 92) || ((b == 58) || ((b == 63) || ((b == 35) || (b == 37))))))

-- A byte in front of the first component.
abbrev pub extend : ℕ → List Text → List Text
extend b [] = (b ∷ []) ∷ []
extend b (p ∷ ps) = (b ∷ p) ∷ ps

-- `s.split('/')`
unfoldable pub split : Text → List Text
split [] = [] ∷ []
split (b ∷ bs) = let rest = split bs in if b == 47 then [] ∷ rest else extend b rest

-- Not empty, not `.` and not `..`.
abbrev pub is_clean_part : Text → Bool
is_clean_part p = not (is_empty p) && (not (text_eq p (46 ∷ [])) && not (text_eq p (46 ∷ 46 ∷ [])))

unfoldable pub is_clean_relative_path : Text → Bool
unfolding split
is_clean_relative_path s =
    not (is_empty s) && (all (λ b. not (is_refused b)) s && all is_clean_part (split s))

abbrev pub has_empty_target : Artifact → Bool
has_empty_target a = elim a.target [ none ↦ false | some t ↦ is_empty t ]

abbrev pub same_key : Artifact → Artifact → Bool
same_key a b = text_eq a.name b.name && target_eq a.target b.target

-- The set of the pairs of a name and a target that were seen, as the artifacts that had them.
abbrev pub contains : Artifact → List Artifact → Bool
contains a [] = false
contains a (b ∷ bs) = same_key a b || contains a bs

-- The checks on one artifact, where `seen` are those before it.
unfoldable pub check_artifact : List Artifact → Artifact → Option Refusal
unfolding is_hex_sha256 is_clean_relative_path
check_artifact seen a =
    if is_empty a.name
    then some no_name
    else if contains a seen
    then some (duplicate a)
    else if has_empty_target a
    then some (empty_target a)
    else if is_empty a.revision
    then some (bad_revision a)
    else if not (is_hex_sha256 a.sha256)
    then some (bad_sha256 a)
    else if not (is_clean_relative_path a.path)
    then some (bad_path a)
    else none

unfoldable pub check_artifacts : List Artifact → List Artifact → Option Refusal
unfolding check_artifact
check_artifacts seen [] = none
check_artifacts seen (a ∷ rest) =
    let later = check_artifacts (a ∷ seen) rest in
    elim (check_artifact seen a) [ some r ↦ some r | none ↦ later ]

unfoldable pub check : (Text → Bool) → Manifest → Option Refusal
unfolding check_artifacts
check is_timestamp m =
    if m.version == 0
    then some bad_version
    else if is_empty m.source_revision
    then some bad_source_revision
    else if not (is_timestamp m.published)
    then some (bad_published m.published)
    else check_artifacts [] m.artifacts

-- What `Manifest::parse` asks of other packages: the schema, the document, and the timestamp.
pub record Reader : Type 0 where
  pub read_schema : List ℕ → Option ℕ
  pub read_manifest : List ℕ → Option Manifest
  pub is_timestamp : Text → Bool

abbrev pub required : {A : Type 0} → Option A → Result Refusal A
required none = err unreadable
required (some a) = ok a

abbrev pub unrefused : Manifest → Option Refusal → Result Refusal Manifest
unrefused m none = ok m
unrefused m (some r) = err r

abbrev pub require_schema : ℕ → Result Refusal (Unit {0})
require_schema v = if v == schema_version then ok tt else err (bad_schema v)

unfoldable pub parse : Reader → List ℕ → Result Refusal Manifest
unfolding check
parse reader bytes = do
  schema ← required (reader.read_schema bytes)
  _ ← require_schema schema
  manifest ← required (reader.read_manifest bytes)
  unrefused manifest (check reader.is_timestamp manifest)
