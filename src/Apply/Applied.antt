-- ===== src/Apply/Applied.antt =====
-- crates/updater/src/apply/mod.rs: what an apply makes of the install root, on each of its branches.
use retrovert.Common.{ℕ, ◌≡◌, refl, Option, none, some, List, [], Bool-cases, inl, inr, arith}
use retrovert.Common.Results.{Result, ok, err}
use retrovert.Queue.{Priority}
use retrovert.Manifest.{Text}
use retrovert.Manifest.Plan.{Plan}
use retrovert.Apply.{Error, refuse_collisions, refuse_unsafe_names}
use retrovert.Apply.Install.{
  Installed, Generation, Json, Root, Files, put, record_schema, resolve, record_generation, claim,
  release,
}
use retrovert.Apply.Acquire.{Acquiring, flatten}
use retrovert.Apply.Landed.{Lands}
use retrovert.Apply.Whole.{acquire-Lands}
use retrovert.Apply.Publish.{
  End, killed, stopped, acquired, Outcome, published, Site, acquire, recorded, publish_claimed,
  publish, apply_resolved, apply_named, apply,
}

-- The record of a generation, as it is stored.
abbrev pub stored_record : {B : Type 0} → Json B → Text → List Installed → B
stored_record json id artifacts =
    json.print (record { schema = record_schema; generation = id; artifacts = artifacts })

module _ {B T : Type 0} (sha : List ℕ → List ℕ) (json : Json B) (p : Plan) (root : Root B) where
  -- An apply leaves the root as it was; or it leaves files in the directory of a generation that does
  -- not resolve, without its record; or it has placed all of them and then recorded them.
  pub data IsApplied (x : Root B × Outcome T) : Type 0 where
    untouched :
        x.0.records ≡ root.records
        → x.0.files ≡ root.files
        → ((g : Generation) → x.1 ≡ published g → resolve json root p.generation_id ≡ some g)
        → IsApplied x
    partly :
        (files : Files)
        → resolve json root p.generation_id ≡ none
        → x.0.records ≡ root.records
        → x.0.files ≡ put root.files p.generation_id files
        → ((g : Generation) → ¬ (x.1 ≡ published g))
        → IsApplied x
    done :
        (files : Files) (artifacts : List Installed)
        → resolve json root p.generation_id ≡ none
        → x.0.records
          ≡ put root.records p.generation_id (some (stored_record json p.generation_id artifacts))
        → x.0.files ≡ put root.files p.generation_id files
        → Lands sha files p.artifacts artifacts
        → x.1 ≡ published (record { id = p.generation_id; artifacts = artifacts })
        → IsApplied x

module _ {B T : Type 0} (sha : List ℕ → List ℕ) (json : Json B) (base : Text) (priority : Priority)
    (site : Site T) (p : Plan) where
  recorded-IsApplied :
      (root : Root B) (r : Acquiring × End T)
      → resolve json root p.generation_id ≡ none
      → (r.1 ≡ acquired → Lands sha r.0.files p.artifacts (flatten r.0.placed))
      → IsApplied sha json p root (recorded sha json base priority site p root r)
  unfolding record_generation release
  recorded-IsApplied root (s, killed) new lands = partly s.files new refl refl (λ g h. cc)
  recorded-IsApplied root (s, stopped e) new lands = partly s.files new refl refl (λ g h. cc)
  recorded-IsApplied root (s, acquired) new lands = elim (Bool-cases site.stored) [
    | inl is ↦ rw is (done s.files (flatten s.placed) new refl refl (lands refl) refl)
    | inr lost ↦ rw lost (partly s.files new refl refl (λ g h. cc))
  ]

  publish_claimed-IsApplied :
      (root : Root B) (r : Result (Error T) (Unit {0}))
      → resolve json root p.generation_id ≡ none
      → refuse_collisions {T = T} [] p.artifacts ≡ r
      → IsApplied sha json p root (publish_claimed sha json base priority site p root r)
  unfolding release
  publish_claimed-IsApplied root (err e) new is = untouched refl refl (λ g h. cc)
  publish_claimed-IsApplied root (ok x) new is = elim (Bool-cases site.directory_made) [
    | inr lost ↦ rw lost (untouched refl refl (λ g h. cc))
    | inl made ↦
        let files = root.files p.generation_id in
        rw made (
          recorded-IsApplied root (acquire sha site.world p base priority site.rounds files) new
            (acquire-Lands sha site.world p base priority site.rounds files is))
  ]

  -- The claim does not matter to what resolves.
  claimed-IsApplied :
      (root : Root B) (x : Root B × Outcome T)
      → IsApplied sha json p (claim root p.generation_id) x
      → IsApplied sha json p root x
  unfolding claim resolve
  claimed-IsApplied root x (untouched rs fs r) = untouched rs fs r
  claimed-IsApplied root x (partly f new rs fs r) = partly f new rs fs r
  claimed-IsApplied root x (done f is new rs fs l r) = done f is new rs fs l r

  apply_resolved-IsApplied :
      (root : Root B) (o : Option Generation)
      → resolve json root p.generation_id ≡ o
      → IsApplied sha json p root (apply_resolved sha json base priority site p root o)
  unfolding publish claim resolve
  apply_resolved-IsApplied root none is = claimed-IsApplied root _ (
      publish_claimed-IsApplied (claim root p.generation_id) (refuse_collisions [] p.artifacts) is
        refl)
  apply_resolved-IsApplied root (some g) is = untouched refl refl (λ g' h. ground (arith, is, h))

  apply_named-IsApplied :
      (root : Root B) (r : Result (Error T) (Unit {0}))
      → IsApplied sha json p root (apply_named sha json base priority site p root r)
  apply_named-IsApplied root (err e) = untouched refl refl (λ g h. cc)
  apply_named-IsApplied root (ok x) =
      apply_resolved-IsApplied root (resolve json root p.generation_id) refl

  pub apply-IsApplied :
      (root : Root B) → IsApplied sha json p root (apply sha json base priority site p root)
  unfolding apply
  apply-IsApplied root = apply_named-IsApplied root (refuse_unsafe_names p)
