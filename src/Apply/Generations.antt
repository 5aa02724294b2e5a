-- ===== src/Apply/Generations.antt =====
-- crates/updater/src/apply: every generation that resolves is whole.
use retrovert.Common.{
  ℕ, ◌≡◌, refl, sym, ap, ◌∙◌, subst, false, none, some, List, [], ◌∷◌, Bool-cases, inl, inr, arith,
}
use retrovert.Manifest.{Text, Artifact, text_eq}
use retrovert.Manifest.Plan.{Plan}
use retrovert.Transport.Digest.{to_hex}
use retrovert.Apply.Distinct.{text_eq-eq, text_eq_refl}
use retrovert.Apply.Install.{
  Installed, Record, Generation, Json, Root, Files, put, record_schema, read_generation, resolve,
}
use retrovert.Apply.Landed.{Lands}
use retrovert.Apply.Publish.{Outcome}
use retrovert.Apply.Applied.{stored_record, IsApplied, untouched, partly, done}

-- Every artifact that a generation installed is there, and has its digest.
abbrev pub Whole : (List ℕ → List ℕ) → Files → List Installed → Type 0
Whole sha files [] = Unit {0}
Whole sha files (i ∷ rest) =
    ((bytes : List ℕ) × (files i.path ≡ some bytes) × (to_hex (sha bytes) ≡ i.sha256))
    × Whole sha files rest

-- `serde_json` reads back what it wrote.
abbrev pub ReadsBack : {B : Type 0} → Json B → Type 0
ReadsBack json = (r : Record) → json.parse (json.print r) ≡ some r

Lands-Whole :
    (sha : List ℕ → List ℕ) (files : Files) (artifacts : List Artifact) (installed : List Installed)
    → Lands sha files artifacts installed
    → Whole sha files installed
Lands-Whole sha files [] [] h = tt
Lands-Whole sha files [] (i ∷ rest) h = absurd h
Lands-Whole sha files (a ∷ artifacts) [] h = absurd h
Lands-Whole sha files (a ∷ artifacts) (i ∷ rest) (is, h) = (
  (
    is.bytes,
    ap (λ z. files z.path) is.installed ∙ is.on_disk,
    ap to_hex is.verified ∙ sym (ap (λ z. z.sha256) is.installed),
  ),
  Lands-Whole sha files artifacts rest h,
)

pub put_other :
    {A : Type 0} (m m' : Text → A) (id key : Text) (a : A)
    → m' ≡ put m key a
    → text_eq id key ≡ false
    → m' id ≡ m id
put_other m m' id key a same other = ap (λ z. z id) same ∙ rw other refl

pub put_self : {A : Type 0} (m m' : Text → A) (key : Text) (a : A) → m' ≡ put m key a → m' key ≡ a
put_self m m' key a same = ap (λ z. z key) same ∙ rw (text_eq_refl key) refl

module _ {B : Type 0} (json : Json B) (root root' : Root B) where
  pub resolve_same :
      (id : Text)
      → root'.records id ≡ root.records id
      → resolve json root' id ≡ resolve json root id
  unfolding resolve
  resolve_same id same = ap (read_generation json id) same

  pub resolve-stored_record :
      (reads_back : ReadsBack json) (id : Text) (artifacts : List Installed)
      → root'.records ≡ put root.records id (some (stored_record json id artifacts))
      → resolve json root' id ≡ some (record { id = id; artifacts = artifacts })
  unfolding resolve
  resolve-stored_record reads_back id artifacts same =
      ap (read_generation json id) (put_self root.records root'.records id _ same)
      ∙ rw
          (
            reads_back (record { schema = record_schema; generation = id; artifacts = artifacts }),
            text_eq_refl id,
          )
          refl

  resolve_removed :
      (id : Text) → root'.records ≡ put root.records id none → resolve json root' id ≡ none
  unfolding resolve
  resolve_removed id same =
      ap (read_generation json id) (put_self root.records root'.records id none same)

module _ {B : Type 0} (sha : List ℕ → List ℕ) (json : Json B) where
  abbrev pub Sound : Root B → Type 0
  Sound root =
      (id : Text) (g : Generation)
      → resolve json root id ≡ some g
      → Whole sha (root.files id) g.artifacts

  -- A root whose change is to a generation that is whole after it, or does not resolve.
  Sound-put :
      (root root' : Root B) (key : Text) (files : Files)
      → ((id : Text) → text_eq id key ≡ false → root'.records id ≡ root.records id)
      → root'.files ≡ put root.files key files
      → ((g : Generation) → resolve json root' key ≡ some g → Whole sha files g.artifacts)
      → Sound root
      → Sound root'
  Sound-put root root' key files same same_files whole h id g is =
      elim (Bool-cases (text_eq id key)) [
        | inl here ↦
            let equal = text_eq-eq id key here in
            subst (λ f. Whole sha f g.artifacts)
              (sym (ap root'.files equal ∙ put_self root.files root'.files key files same_files))
              (whole g (ap (resolve json root') (sym equal) ∙ is))
        | inr other ↦
            subst (λ f. Whole sha f g.artifacts)
              (sym (put_other root.files root'.files id key files same_files other))
              (h id g (sym (resolve_same json root root' id (same id other)) ∙ is))
      ]

  pub Sound-removed :
      (root root' : Root B) (key : Text) (files : Files)
      → root'.records ≡ put root.records key none
      → root'.files ≡ put root.files key files
      → Sound root
      → Sound root'
  Sound-removed root root' key files same same_files =
      Sound-put root root' key files (λ id. put_other root.records root'.records id key none same)
        same_files (λ g is. absurd (ground (arith, is, resolve_removed json root root' key same)))

  pub applied-Sound :
      {T : Type 0} (reads_back : ReadsBack json) (p : Plan) (root : Root B) (x : Root B × Outcome T)
      → IsApplied sha json p root x
      → Sound root
      → Sound x.0
  applied-Sound reads_back p root x (untouched rs fs r) h = λ id g is.
      subst (λ f. Whole sha f g.artifacts) (sym (ap (λ m. m id) fs))
        (h id g (sym (resolve_same json root x.0 id (ap (λ m. m id) rs)) ∙ is))
  applied-Sound reads_back p root x (partly files new rs fs r) h =
      Sound-put root x.0 p.generation_id files (λ id other. ap (λ m. m id) rs) fs
        (λ g is. absurd (
          ground (
            arith,
            is,
            new,
            resolve_same json root x.0 p.generation_id (ap (λ m. m p.generation_id) rs),
          )))
        h
  applied-Sound reads_back p root x (done files artifacts new rs fs l r) h =
      Sound-put root x.0 p.generation_id files
        (λ id. put_other root.records x.0.records id p.generation_id _ rs) fs
        (λ g is.
          let same : artifacts ≡ g.artifacts = ground (
            arith,
            is,
            resolve-stored_record json root x.0 reads_back p.generation_id artifacts rs,
          ) in
          subst (Whole sha files) same (Lands-Whole sha files p.artifacts artifacts l))
        h
