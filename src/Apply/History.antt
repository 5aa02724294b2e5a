-- ===== src/Apply/History.antt =====
-- crates/updater/src/apply: what holds after any applies and collections.
use retrovert.Common.{
  ℕ, ◌≡◌, ◌⊎◌, refl, sym, ap, ◌∙◌, subst, false, ◌||◌, none, some, List, [], ◌∷◌, Option-cases,
  Bool-cases, inl, inr, arith,
}
use retrovert.Common.Results.{Result-cases}
use retrovert.Queue.{Priority}
use retrovert.Manifest.{Text, text_eq}
use retrovert.Manifest.Plan.{Plan}
use retrovert.Apply.Distinct.{text_eq-eq}
use retrovert.Apply.Install.{
  Generation, Json, Root, read_generation, resolve, names, is_publishing, collect, retain, Removal,
}
use retrovert.Apply.Landed.{Lands}
use retrovert.Apply.Publish.{Outcome, published, Site, apply}
use retrovert.Apply.Applied.{IsApplied, untouched, partly, done, apply-IsApplied}
use retrovert.Apply.Session.{Event, applies, collects, step, run}
use retrovert.Apply.Generations.{
  Whole, ReadsBack, Sound, Sound-removed, applied-Sound, resolve_same, resolve-stored_record,
  put_other, put_self,
}

module _ (B T : Type 0) (sha : List ℕ → List ℕ) (json : Json B) where
  collect-Sound :
      (live : List Text) (root : Root B) (id : Text) (removal : Removal)
      → Sound sha json root
      → Sound sha json (collect {T = T} live root id removal).0
  unfolding collect
  collect-Sound live root id removal h =
      elim (Bool-cases (names id live || is_publishing root id)) [
        | inl kept ↦ rw kept h
        | inr loose ↦ elim (Bool-cases removal.record_gone) [
          | inr lost ↦ rw (loose, lost) h
          | inl gone ↦ elim (Option-cases removal.directory) [
            | inl empty ↦ rw (loose, gone, empty) (Sound-removed sha json root _ id _ refl refl h)
            | inr (left, some_left) ↦
                rw (loose, gone, some_left) (Sound-removed sha json root _ id left refl refl h)
          ]
        ]
      ]

  retain-Sound :
      (live : List Text) (removals : Text → Removal) (removed ids : List Text) (root : Root B)
      → Sound sha json root
      → Sound sha json (retain {T = T} live removals removed ids root).0
  unfolding retain
  retain-Sound live removals removed [] root h = h
  retain-Sound live removals removed (id ∷ ids) root h =
      let h' = collect-Sound live root id (removals id) h in
      elim (Result-cases (collect {T = T} live root id (removals id)).1) [
        | inr (e, is) ↦ rw (is, retain) h'
        | inl (b, is) ↦
            rw (is, retain)
              (retain-Sound live removals _ ids (collect {T = T} live root id (removals id)).0 h')
      ]

  step-Sound :
      (reads_back : ReadsBack json) (base : Text) (priority : Priority) (root : Root B)
      (e : Event T)
      → Sound sha json root
      → Sound sha json (step sha json base priority root e)
  unfolding step
  step-Sound reads_back base priority root (applies site p) h =
      applied-Sound sha json reads_back p root (apply sha json base priority site p root)
        (apply-IsApplied sha json base priority site p root) h
  step-Sound reads_back base priority root (collects live removals ids) h =
      retain-Sound live removals [] ids root h

  run-Sound :
      (reads_back : ReadsBack json) (base : Text) (priority : Priority) (root : Root B)
      (es : List (Event T))
      → Sound sha json root
      → Sound sha json (run sha json base priority root es)
  unfolding run
  run-Sound reads_back base priority root [] h = h
  run-Sound reads_back base priority root (e ∷ es) h =
      run-Sound reads_back base priority (step sha json base priority root e) es
        (step-Sound reads_back base priority root e h)

module _ {B : Type 0} (json : Json B) where
  text_eq_of_resolve :
      (root : Root B) (id key : Text) (g : Generation)
      → resolve json root id ≡ some g
      → resolve json root key ≡ none
      → text_eq id key ≡ false
  text_eq_of_resolve root id key g is new = elim (Bool-cases (text_eq id key)) [
    | inl here ↦ absurd (ground (arith, is, new, ap (resolve json root) (text_eq-eq id key here)))
    | inr other ↦ other
  ]

module _ {B T : Type 0} (sha : List ℕ → List ℕ) (json : Json B) (reads_back : ReadsBack json)
    (base : Text) (priority : Priority) where
  -- After any applies and collections of an install root that was empty, each of which may fail or be
  -- killed anywhere, every generation that resolves is whole: each artifact that it installed is in
  -- its directory and has the digest that is recorded of it; if a record is read back as it was
  -- written.
  pub run-Whole :
      (root : Root B) (es : List (Event T)) (id : Text) (g : Generation)
      → ((key : Text) → root.records key ≡ none)
      → resolve json (run sha json base priority root es) id ≡ some g
      → Whole sha ((run sha json base priority root es).files id) g.artifacts
  unfolding resolve
  run-Whole root es id g empty =
      run-Sound B T sha json reads_back base priority root es
        (λ key g' is. absurd (ground (arith, is, ap (read_generation json key) (empty key)))) id g

  applied-keeps :
      (p : Plan) (root : Root B) (id : Text) (g : Generation) (x : Root B × Outcome T)
      → IsApplied sha json p root x
      → resolve json root id ≡ some g
      → (resolve json x.0 id ≡ some g) × (x.0.files id ≡ root.files id)
  applied-keeps p root id g x (untouched rs fs r) is =
      (resolve_same json root x.0 id (ap (λ m. m id) rs) ∙ is, ap (λ m. m id) fs)
  applied-keeps p root id g x (partly files new rs fs r) is = (
    resolve_same json root x.0 id (ap (λ m. m id) rs) ∙ is,
    put_other root.files x.0.files id p.generation_id files fs
        (text_eq_of_resolve json root id p.generation_id g is new),
  )
  applied-keeps p root id g x (done files artifacts new rs fs l r) is =
      let other = text_eq_of_resolve json root id p.generation_id g is new in
      (
        resolve_same json root x.0 id
              (put_other root.records x.0.records id p.generation_id _ rs other)
            ∙ is,
        put_other root.files x.0.files id p.generation_id files fs other,
      )

  applied-published :
      (p : Plan) (root : Root B) (x : Root B × Outcome T) (g : Generation)
      → IsApplied sha json p root x
      → x.1 ≡ published g
      → (resolve json x.0 p.generation_id ≡ some g)
        × ((resolve json root p.generation_id ≡ some g)
            ⊎ Lands sha (x.0.files p.generation_id) p.artifacts g.artifacts)
  applied-published p root x g (untouched rs fs r) is =
      let was = r g is in
      (resolve_same json root x.0 p.generation_id (ap (λ m. m p.generation_id) rs) ∙ was, inl was)
  applied-published p root x g (partly files new rs fs r) is = absurd (r g is)
  applied-published p root x g (done files artifacts new rs fs l r) is =
      let same : record { id = p.generation_id; artifacts = artifacts } ≡ g = cc in
      (
        resolve-stored_record json root x.0 reads_back p.generation_id artifacts rs ∙ ap some same,
        inr (
            subst (λ f. Lands sha f p.artifacts g.artifacts)
              (sym (put_self root.files x.0.files p.generation_id files fs))
              (subst (λ z. Lands sha files p.artifacts z.artifacts) same l)),
      )

  -- An apply, however it ends, keeps every generation that resolved, with its files.
  pub apply-keeps :
      (site : Site T) (p : Plan) (root : Root B) (id : Text) (g : Generation)
      → resolve json root id ≡ some g
      → (resolve json (apply sha json base priority site p root).0 id ≡ some g)
        × ((apply sha json base priority site p root).0.files id ≡ root.files id)
  apply-keeps site p root id g is =
      applied-keeps p root id g (apply sha json base priority site p root)
        (apply-IsApplied sha json base priority site p root) is

  -- The generation that an apply publishes resolves after it, under the id of the plan; and if none
  -- did before, its artifacts are those of the plan, in order, each with a file of its digest.
  pub apply-published :
      (site : Site T) (p : Plan) (root root' : Root B) (g : Generation)
      → apply sha json base priority site p root ≡ (root', published g)
      → (resolve json root' p.generation_id ≡ some g)
        × ((resolve json root p.generation_id ≡ some g)
            ⊎ Lands sha (root'.files p.generation_id) p.artifacts g.artifacts)
  apply-published site p root root' g is =
      applied-published p root (root', published g) g
        (subst (IsApplied sha json p root) is (apply-IsApplied sha json base priority site p root))
        refl
