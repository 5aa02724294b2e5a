-- ===== src/Transport/Splice/Starts.antt =====
-- crates/updater/src/transport/download.rs: what a transfer starts from.
use retrovert.Common.{
  ℕ, ◌+◌, ◌<◌, ◌≡◌, refl, sym, ◌∙◌, ap, subst, true, ◌&&◌, some, List, [], ◌∷◌, inl, inr, arith,
  length, Bool-cases, Option-cases,
}
use retrovert.Common.Results.{Result, ok, err}
use retrovert.Transport.Meta.{Meta, i64_limit}
use retrovert.Transport.Http.{Text, url_size, check_disk_space, available_disk_space}
use retrovert.Transport.Download.{
  Disk, Setup, cached, resume, fresh, Resume, Error, Opens, removed, read_meta, is_complete_at,
  is_resumable, plan_resume, open_cached, open_resume, start_fresh, prepare, from_setup, with_setup,
  start,
}
use retrovert.Transport.Session.{begun}
use retrovert.Transport.Splice.{IsSound, Sized, Names, HasLength, IsKept}
use retrovert.Transport.Splice.Entries.{removed-IsSound, is_complete_at-eq}

module _ (body : List ℕ) (small : length body < i64_limit) where
  -- What a setup says of the entry that it was found in.
  abbrev Fits : Disk → Setup → Type 0
  Fits d (cached bytes) = (d.file ≡ some body) × (bytes ≡ body)
  Fits d (resume r) = HasLength r.offset d.file × (r.file_size ≡ length body)
  Fits d (fresh size) = (d.file ≡ some []) × Sized body size

  abbrev Prepared : Disk × Result Error Setup → Type 0
  Prepared (d, ok setup) = IsSound body d × Fits d setup
  Prepared (d, err e) = IsSound body d

  open_cached-Fits :
      (d : Disk) (o : Opens) (setup : Setup)
      → IsSound body d
      → open_cached d o ≡ some setup
      → Fits d setup
  unfolding open_cached
  open_cached-Fits d o setup v h = elim (Bool-cases (is_complete_at d && o.cached_opens)) [
    | inr shut ↦ absurd (ground (arith, shut))
    | inl complete ↦
        let there = is_complete_at-eq body small d v (ground (arith, complete)) in
        let e : cached body ≡ setup = ground (arith, complete, there) in
        subst (Fits d) e (there, refl)
  ]

  is_resumable-length : (m : Meta) (n : ℕ) → is_resumable m n ≡ true → n ≡ m.bytes_written
  unfolding is_resumable
  is_resumable-length m n h = ground arith

  plan_resume-Fits :
      (lossy : Text → Text) (d : Disk) (r : Resume)
      → IsSound body d
      → plan_resume lossy d ≡ some r
      → Fits d (resume r)
  unfolding plan_resume
  plan_resume-Fits lossy d r v h = elim (Option-cases (read_meta d)) [
    | inl unread ↦ absurd (ground (arith, unread))
    | inr (m, is) ↦ elim (Option-cases d.file) [
      | inl gone ↦ absurd (ground (arith, is, gone))
      | inr (f, there) ↦ elim (Bool-cases (is_resumable m (length f))) [
        | inr misfit ↦ absurd (ground (arith, is, there, misfit))
        | inl fit ↦
            let total : m.file_size ≡ length body = subst (Names body) is v.total in
            let counted = is_resumable-length m (length f) fit in
            let offset : r.offset ≡ m.bytes_written = ground (arith, is, there, fit) in
            let size : r.file_size ≡ m.file_size = ground (arith, is, there, fit) in
            (rw there (counted ∙ sym offset), size ∙ total)
      ]
    ]
  ]

  open_resume-Fits :
      (lossy : Text → Text) (d : Disk) (o : Opens) (setup : Setup)
      → IsSound body d
      → open_resume lossy d o ≡ some setup
      → Fits d setup
  unfolding open_resume
  open_resume-Fits lossy d o setup v h = elim (Option-cases (plan_resume lossy d)) [
    | inl no_plan ↦ absurd (ground (arith, no_plan))
    | inr (r, plan) ↦
        let e : resume r ≡ setup = ground (arith, plan) in
        subst (Fits d) e (plan_resume-Fits lossy d r v plan)
  ]

  start_fresh-Prepared :
      (d : Disk) (o : Opens)
      → IsSound body d
      → IsSound body (record d { file = some [] })
      → Sized body (url_size o.head)
      → Prepared (start_fresh d o)
  unfolding start_fresh
  start_fresh-Prepared d o v v' honest =
      elim (Bool-cases (check_disk_space (url_size o.head) available_disk_space)) [
        | inr full ↦ rw full v
        | inl room ↦ elim (Bool-cases o.created) [
          | inr refused ↦ rw (room, refused) v
          | inl created ↦ rw (room, created) (v', (refl, honest))
        ]
      ]

  from_setup-IsKept :
      (d : Disk) (url : Text) (setup : Setup)
      → IsSound body d
      → Fits d setup
      → IsKept body (record { disk = d; live = some (from_setup url setup) })
  unfolding from_setup
  from_setup-IsKept d url (cached bytes) v (there, e) = record {
    disk = v;
    live = (ap length e, rw there (omega arith));
  }
  from_setup-IsKept d url (resume r) v (long, size) = record {
    disk = v;
    live = (
      size,
      (
        (refl, let e : r.offset + 0 ≡ r.offset = omega arith in rw e long, omega arith, tt),
        refl,
        refl,
      ),
    );
  }
  from_setup-IsKept d url (fresh size) v (there, sized) = record {
    disk = v;
    live = (sized, ((refl, rw there refl, refl, tt), refl, refl));
  }

  empty-IsSound : IsSound body (record removed { file = some [] })
  unfolding read_meta
  empty-IsSound = record { total = tt; prefix = refl; claims = tt }

  prepare-Prepared :
      (lossy : Text → Text) (d : Disk) (o : Opens)
      → IsSound body d
      → Sized body (url_size o.head)
      → Prepared (prepare lossy d o true)
  unfolding prepare
  prepare-Prepared lossy d o v honest = elim (Option-cases (open_cached d o)) [
    | inr (setup, e) ↦ rw (e, prepare) (v, open_cached-Fits d o setup v e)
    | inl missing ↦ elim (Option-cases (open_resume lossy d o)) [
      | inr (setup, e) ↦ rw (missing, e, prepare) (v, open_resume-Fits lossy d o setup v e)
      | inl none_left ↦
          rw (missing, none_left, prepare)
            (start_fresh-Prepared removed o (removed-IsSound body small) empty-IsSound honest)
    ]
  ]

  with_setup-IsKept :
      (url : Text) (p : Disk × Result Error Setup)
      → Prepared p
      → IsKept body (begun (with_setup url p))
  with_setup-IsKept url (d, ok setup) (v, h) = from_setup-IsKept d url setup v h
  with_setup-IsKept url (d, err e) v = record { disk = v; live = tt }

  pub start-IsKept :
      (lossy : Text → Text) (d : Disk) (o : Opens) (url : Text)
      → IsSound body d
      → Sized body (url_size o.head)
      → IsKept body (begun (start lossy d o url true))
  unfolding start
  start-IsKept lossy d o [] v honest = record { disk = v; live = tt }
  start-IsKept lossy d o (b ∷ bs) v honest =
      with_setup-IsKept (b ∷ bs) (prepare lossy d o true) (prepare-Prepared lossy d o v honest)
