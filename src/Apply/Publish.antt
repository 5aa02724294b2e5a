-- ===== src/Apply/Publish.antt =====
-- crates/updater/src/apply/mod.rs: publishing a plan as a generation, and what an applier has published.
-- The rounds that an apply is given are those until its process ends, if it does not end first.
use retrovert.Common.{
  ℕ, zero, suc, ◌+◌, Bool, true, false, not, ◌||◌, Option, none, some, List, [], ◌∷◌, ◌++◌, map,
  length, ltb, if◌then◌else◌,
}
use retrovert.Common.Slices.{drop}
use retrovert.Common.Results.{Result, ok, err}
use retrovert.Queue.{Priority}
use retrovert.Manifest.{Text}
use retrovert.Manifest.Plan.{Plan}
use retrovert.Apply.{Error, install, refuse_collisions, refuse_unsafe_names}
use retrovert.Apply.Install.{
  Json, Root, Generation, Files, put, resolve, record_generation, claim, release,
}
use retrovert.Apply.Acquire.{World, Acquiring, Stop, refused, begin_acquiring, flatten, sweep, fill}

-- How the loop ends.
pub data End (T : Type 0) : Type 0 where
  killed acquired : End T
  stopped : Stop T → End T

abbrev pub is_nil : List (ℕ × ℕ) → Bool
is_nil [] = true
is_nil (x ∷ xs) = false

-- `Acquisition::drop`: every entry that is held is cancelled, and then freed.
unfoldable pub drop_entries : Acquiring → Acquiring
drop_entries s = record s { active = []; released = s.released ++ map (λ e. e.0) s.active }

module _ {T : Type 0} (sha : List ℕ → List ℕ) (w : World T) (p : Plan) (base : Text)
    (priority : Priority) where
  abbrev pub is_acquired : Acquiring → Bool
  is_acquired s = not (ltb s.next (length p.artifacts) || not (is_nil s.active))

  abbrev pub swept : ℕ → Acquiring × Option (Stop T) → Acquiring × Option (Stop T)
  swept round (s, some e) = (s, some e)
  swept round (s, none) = sweep sha w p (length s.active) [] s.active round s

  -- One turn of the loop of `acquire`.
  unfoldable pub turn : ℕ → Acquiring → Acquiring × Option (Stop T)
  unfolding fill
  turn round s = swept round (fill w p base priority (drop s.next p.artifacts) round s)

  unfoldable pub turns : ℕ → ℕ → Acquiring → Acquiring × End T
  turns zero round s = elim (is_acquired s) [ true ↦ (s, acquired) | false ↦ (s, killed) ]
  turns (suc rounds) round s = elim (is_acquired s) [
    | true ↦ (s, acquired)
    | false ↦ elim (turn round s).1 [
      | some e ↦ ((turn round s).0, stopped e)
      | none ↦ turns rounds (round + 1) (turn round s).0
    ]
  ]

  -- An acquisition that is left drops its entries, but not if the process ends.
  abbrev pub left : Acquiring × End T → Acquiring × End T
  left (s, killed) = (s, killed)
  left (s, acquired) = (drop_entries s, acquired)
  left (s, stopped e) = (drop_entries s, stopped e)

  -- `Applier::acquire`
  unfoldable pub acquire : ℕ → Files → Acquiring × End T
  acquire rounds files = left (turns rounds 0 (begin_acquiring p.artifacts files))

pub data Outcome (T : Type 0) : Type 0 where
  killed : Outcome T
  stopped : Stop T → Outcome T
  published : Generation → Outcome T

-- What an apply finds: the world of its rounds, whether the directory could be made and the record
-- stored, and how many rounds it has.
pub record Site (T : Type 0) : Type 0 where
  pub world : World T
  pub directory_made : Bool
  pub stored : Bool
  pub rounds : ℕ

module _ {B : Type 0} where
  abbrev pub with_files : Root B → Text → Files → Root B
  with_files root id files = record root { files = put root.files id files }

  -- The claims are the process's.
  abbrev pub restarted : Root B → Root B
  restarted root = record root { publishing = λ id. 0 }

abbrev pub of_result : {T : Type 0} → Result (Error T) Generation → Outcome T
of_result (ok g) = published g
of_result (err e) = stopped (refused e)

module _ {B T : Type 0} (sha : List ℕ → List ℕ) (json : Json B) (base : Text)
    (priority : Priority) where
  -- After the artifacts were acquired or were not, under the claim.
  abbrev pub recorded : Site T → Plan → Root B → Acquiring × End T → Root B × Outcome T
  recorded site p root (s, killed) = (restarted (with_files root p.generation_id s.files), killed)
  recorded site p root (s, stopped e) =
      (release (with_files root p.generation_id s.files) p.generation_id, stopped e)
  recorded site p root (s, acquired) =
      let placed = with_files root p.generation_id s.files in
      let (root', result) =
        record_generation json site.stored placed p.generation_id (flatten s.placed) in
      (release root' p.generation_id, of_result result)

  abbrev pub publish_claimed :
      Site T → Plan → Root B → Result (Error T) (Unit {0}) → Root B × Outcome T
  publish_claimed site p root (err e) = (release root p.generation_id, stopped (refused e))
  publish_claimed site p root (ok x) =
      if site.directory_made
      then recorded site p root
          (acquire sha site.world p base priority site.rounds (root.files p.generation_id))
      else (release root p.generation_id, stopped (refused install))

  -- `Applier::publish`
  unfoldable pub publish : Site T → Plan → Root B → Root B × Outcome T
  unfolding claim refuse_collisions
  publish site p root =
      publish_claimed site p (claim root p.generation_id) (refuse_collisions [] p.artifacts)

  abbrev pub apply_resolved : Site T → Plan → Root B → Option Generation → Root B × Outcome T
  apply_resolved site p root none = publish site p root
  apply_resolved site p root (some g) = (root, published g)

  abbrev pub apply_named : Site T → Plan → Root B → Result (Error T) (Unit {0}) → Root B × Outcome T
  apply_named site p root (err e) = (root, stopped (refused e))
  apply_named site p root (ok x) = apply_resolved site p root (resolve json root p.generation_id)

  -- `Applier::apply`, up to the completion that it records.
  unfoldable pub apply : Site T → Plan → Root B → Root B × Outcome T
  unfolding refuse_unsafe_names
  apply site p root = apply_named site p root (refuse_unsafe_names p)
