-- ===== src/Apply/Install.antt =====
-- crates/updater/src/apply/install.rs: the root of the installed generations. A generation's directory is
-- the file of each path, and its record is beside it; `serde_json` at a record is an argument, and so
-- is whether the file system does what it is asked.
use retrovert.Common.{
  ℕ, ◌+◌, ◌-◌, Bool, true, false, not, ◌||◌, ◌&&◌, Option, none, some, List, [], ◌∷◌, ◌++◌, ◌==◌,
  if◌then◌else◌,
}
use retrovert.Common.Results.{Result, ok, err}
use retrovert.Manifest.{Text, text_eq}
use retrovert.Apply.{Error, install}

pub record Installed : Type 0 where
  pub name : Text
  pub target : Option Text
  pub version : Option Text
  pub revision : Text
  pub sha256 : Text
  pub size : ℕ
  pub path : Text

-- `Record`
pub record Record : Type 0 where
  pub schema : ℕ
  pub generation : Text
  pub artifacts : List Installed

-- Its directory is the root's for its id.
pub record Generation : Type 0 where
  pub id : Text
  pub artifacts : List Installed

abbrev pub record_schema : ℕ
record_schema = 1

-- `serde_json` at a record; the bytes are of any type.
pub record Json (B : Type 0) : Type 0 where
  pub print : Record → B
  pub parse : B → Option Record

-- The files of a directory, by their path in it.
abbrev pub Files : Type 0
Files = Text → Option (List ℕ)

abbrev pub put {ℓ} : {A : Type ℓ} → (Text → A) → Text → A → Text → A
put m key value k = if text_eq k key then value else m k

-- `InstallRoot`, with the claims of the applies that are publishing.
pub record Root (B : Type 0) : Type 0 where
  pub files : Text → Files
  pub records : Text → Option B
  pub publishing : Text → ℕ

module _ {B : Type 0} (json : Json B) where
  -- A record that was read, of the schema and of that id.
  abbrev pub generation_of : Text → Option Record → Option Generation
  generation_of id none = none
  generation_of id (some r) =
      if (r.schema == record_schema) && text_eq r.generation id
      then some (record { id = r.generation; artifacts = r.artifacts })
      else none

  abbrev pub read_generation : Text → Option B → Option Generation
  read_generation id none = none
  read_generation id (some bytes) = generation_of id (json.parse bytes)

  unfoldable pub resolve : Root B → Text → Option Generation
  resolve root id = read_generation id (root.records id)

  -- `InstallRoot::record`
  unfoldable pub record_generation :
      {T : Type 0} → Bool → Root B → Text → List Installed → Root B × Result (Error T) Generation
  record_generation stored root id artifacts =
      if stored
      then (
        record root {
          records = put root.records id (
              some (
                json.print
                  (record { schema = record_schema; generation = id; artifacts = artifacts })));
        },
        ok (record { id = id; artifacts = artifacts }),
      )
      else (root, err install)

module _ {B : Type 0} where
  unfoldable pub claim : Root B → Text → Root B
  claim root id = record root { publishing = put root.publishing id (root.publishing id + 1) }

  -- `Publishing::drop`
  unfoldable pub release : Root B → Text → Root B
  release root id = record root { publishing = put root.publishing id (root.publishing id - 1) }

  abbrev pub is_publishing : Root B → Text → Bool
  is_publishing root id = not (root.publishing id == 0)

abbrev pub names : Text → List Text → Bool
names id [] = false
names id (l ∷ live) = text_eq id l || names id live

abbrev pub no_files : Files
no_files path = none

-- The ids that were removed, with that of this turn.
abbrev pub noted : Text → Bool → List Text → List Text
noted id is_removed removed = if is_removed then removed ++ id ∷ [] else removed

-- What the removal of one generation comes to: its record goes or cannot, and then its directory,
-- of which some files may be left.
pub record Removal : Type 0 where
  pub record_gone : Bool
  pub directory : Option Files

module _ {B : Type 0} where
  abbrev pub without_record : Root B → Text → Root B
  without_record root id = record root { records = put root.records id none }

  -- One turn of the loop of `retain`, and whether it removed.
  unfoldable pub collect :
      {T : Type 0} → List Text → Root B → Text → Removal → Root B × Result (Error T) Bool
  collect live root id removal =
      if names id live || is_publishing root id
      then (root, ok false)
      else if not removal.record_gone
      then (root, err install)
      else elim removal.directory [
        | none ↦ (record (without_record root id) { files = put root.files id no_files }, ok true)
        | some left ↦
            (record (without_record root id) { files = put root.files id left }, err install)
      ]

  -- `retain` over the ids that the root holds, in the order that they are listed, from the ids that
  -- were removed so far.
  unfoldable pub retain :
      {T : Type 0}
      → List Text
      → (Text → Removal)
      → List Text
      → List Text
      → Root B
      → Root B × Result (Error T) (List Text)
  unfolding collect
  retain {T} live removals removed [] root = (root, ok removed)
  retain {T} live removals removed (id ∷ ids) root = elim (collect live root id (removals id)).1 [
    | err e ↦ ((collect {T = T} live root id (removals id)).0, err e)
    | ok is_removed ↦
        retain live removals (noted id is_removed removed) ids
          (collect {T = T} live root id (removals id)).0
  ]
