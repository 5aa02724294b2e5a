-- ===== src/Channel/Rising.antt =====
-- crates/updater/src/channel: no check goes back behind one that verified.
use retrovert.Common.{
  ℕ, ◌≤◌, ◌≡◌, refl, sym, ◌∙◌, subst, Bool, true, false, Option, none, some, List, [], ◌∷◌, arith,
  Bool-cases, inl, inr,
}
use retrovert.Common.Results.{Result, ok, err, map_err, >>=-eq-ok, map_err-eq-ok}
use retrovert.Common.Signed.{ℤ, ◌≤ℤ◌}
use retrovert.Manifest.{Text, Reader, parse}
use retrovert.Channel.{
  Answers, authenticated, Authenticated, verify, resolve, recorded, timed, authenticate, checks,
}
use retrovert.Channel.Trust.{
  Floor, Trusted, Error, Crates, floor_of, admit_time, admit, raised_to, floor, tuf, manifest,
}

-- No version and no second of the first is above that of the second.
pub record IsBelow (f g : Floor) : Type 0 where
  pub root : f.root ≤ g.root
  pub timestamp : f.timestamp ≤ g.timestamp
  pub snapshot : f.snapshot ≤ g.snapshot
  pub targets : f.targets ≤ g.targets
  pub verified_at : f.verified_at ≤ℤ g.verified_at

IsBelow-refl : (f : Floor) → IsBelow f f
IsBelow-refl f = ground arith

IsBelow-trans : (f g h : Floor) → IsBelow f g → IsBelow g h → IsBelow f h
IsBelow-trans f g h p q = omega arith

IsBelow-raised_to : (f g : Floor) → IsBelow f (raised_to f g) × IsBelow g (raised_to f g)
unfolding raised_to
IsBelow-raised_to f g = ground arith

module _ {E : Type 0} where
  admit-IsBelow :
      (as_second : ℤ → ℤ) (f offered : Floor) (at : ℤ)
      → offered.verified_at ≡ as_second at
      → admit_time {E = E} as_second f at ≡ ok tt
      → admit {E = E} f offered ≡ ok tt
      → IsBelow f offered
  unfolding admit_time admit
  admit-IsBelow as_second f offered at dated h k = ground arith

  floor_of-verified_at :
      (as_second : ℤ → ℤ) (t : Trusted) (at : ℤ) (f : Floor)
      → floor_of {E = E} as_second t at ≡ ok f
      → f.verified_at ≡ as_second at
  unfolding floor_of
  floor_of-verified_at as_second t at f h = ground arith

module _ {E : Type 0} where
  -- The versions that a check which authenticated was answered, with the second of its time.
  abbrev pub Verified : (ℤ → ℤ) → Answers E → Authenticated → Floor → Type 0
  Verified as_second a out f =
      (t : Trusted) × (a.refresh ≡ ok t) × (floor_of {E = E} as_second t out.verified_at ≡ ok f)

module _ {E : Type 0} (crates : Crates) where
  -- What a check that verifies has seen.
  verify-ok :
      (file : Option (List ℕ)) (a : Answers E) (at : ℤ) (f' : Floor)
      → verify crates file a at ≡ ok f'
      → (f : Floor) × (t : Trusted) × (offered : Floor) × (floor {E = E} crates file a.floor_reads
          ≡ ok f)
        × (a.refresh ≡ ok t)
        × (floor_of {E = E} crates.as_second t at ≡ ok offered)
        × IsBelow f offered
        × (f' ≡ raised_to f offered)
  unfolding verify
  verify-ok file a at f' h =
      let (f, stored, h1) = >>=-eq-ok (floor crates file a.floor_reads) _ f' h in
      let (_, in_time, h2) = >>=-eq-ok (admit_time crates.as_second f at) _ f' h1 in
      let (_, _, h3) = >>=-eq-ok (map_err tuf a.updater) _ f' h2 in
      let (t, refreshed, h4) = >>=-eq-ok (map_err tuf a.refresh) _ f' h3 in
      let (offered, is, h5) = >>=-eq-ok (floor_of crates.as_second t at) _ f' h4 in
      let (_, admitted, h6) = >>=-eq-ok (admit f offered) _ f' h5 in
      let dated = floor_of-verified_at crates.as_second t at offered is in
      (
        f,
        t,
        offered,
        stored,
        map_err-eq-ok tuf a.refresh t refreshed,
        is,
        admit-IsBelow crates.as_second f offered at dated in_time admitted,
        cc,
      )

-- A floor that can be read from the trust directory, also the one of before any check.
abbrev pub Holds : (E : Type 0) → Crates → Option (List ℕ) → Floor → Type 0
Holds E crates file f = floor {E = E} crates file true ≡ ok f

-- `serde_json` reads back what it wrote.
abbrev pub ReadsBack : Crates → Type 0
ReadsBack crates = (f : Floor) → crates.parse (crates.print f) ≡ some f

module _ {E : Type 0} (crates : Crates) (reads_back : ReadsBack crates) (reader : Reader)
    (generation_id : List ℕ → Text) where
  ok-inj : {f g : Floor} → ◌≡◌ {A = Result (Error E) Floor} (ok f) (ok g) → f ≡ g
  ok-inj h = cc

  floor-print : (f : Floor) → floor {E = E} crates (some (crates.print f)) true ≡ ok f
  unfolding floor
  floor-print f = rw (reads_back f)

  floor-ok :
      (file : Option (List ℕ)) (reads : Bool) (f : Floor)
      → floor {E = E} crates file reads ≡ ok f
      → Holds E crates file f
  unfolding floor
  floor-ok file true f h = h
  floor-ok file false f h = cc

  -- A floor that can be read is only raised.
  recorded-keeps :
      (file : Option (List ℕ)) (a : Answers E) (at : ℤ) (f : Floor) (r : Result (Error E) Floor)
      → Holds E crates file f
      → verify crates file a at ≡ r
      → (f' : Floor) × Holds E crates (recorded crates reader generation_id file a at r).0 f'
        × IsBelow f f'
  recorded-keeps file a at f (err e) h is = (f, h, IsBelow-refl f)
  recorded-keeps file a at f (ok g) h is = elim (Bool-cases a.floor_stored) [
    | inr lost ↦ rw lost (f, h, IsBelow-refl f)
    | inl stored ↦
        let (f0, t, offered, read, _, _, below, raised) = verify-ok crates file a at g is in
        let same : f ≡ f0 = ok-inj (sym h ∙ floor-ok file a.floor_reads f0 read) in
        rw stored (
          g,
          floor-print g,
          subst (λ k. IsBelow f k) (sym raised)
              (subst (λ k. IsBelow k (raised_to f0 offered)) (sym same)
                (IsBelow-raised_to f0 offered).0),
        )
  ]

  timed-keeps :
      (file : Option (List ℕ)) (a : Answers E) (f : Floor) (o : Option ℤ)
      → Holds E crates file f
      → (f' : Floor) × Holds E crates (timed crates reader generation_id file a o).0 f'
        × IsBelow f f'
  timed-keeps file a f none h = (f, h, IsBelow-refl f)
  timed-keeps file a f (some at) h = recorded-keeps file a at f (verify crates file a at) h refl

  authenticate-keeps :
      (file : Option (List ℕ)) (a : Answers E) (f : Floor)
      → Holds E crates file f
      → (f' : Floor) × Holds E crates (authenticate crates reader generation_id file a).0 f'
        × IsBelow f f'
  unfolding authenticate
  authenticate-keeps file a f h = timed-keeps file a f a.network_time h

  checks-keeps :
      (file : Option (List ℕ)) (rest : List (Answers E)) (f : Floor)
      → Holds E crates file f
      → (f' : Floor) × Holds E crates (checks crates reader generation_id file rest) f'
        × IsBelow f f'
  unfolding checks
  checks-keeps file [] f h = (f, h, IsBelow-refl f)
  checks-keeps file (a ∷ rest) f h =
      let (f1, h1, below1) = authenticate-keeps file a f h in
      let (f2, h2, below2) =
        checks-keeps (authenticate crates reader generation_id file a).0 rest f1 h1 in
      (f2, h2, IsBelow-trans f f1 f2 below1 below2)

  recorded-authenticated :
      (file file' : Option (List ℕ)) (a : Answers E) (at : ℤ) (out : Authenticated)
      (r : Result (Error E) Floor)
      → recorded crates reader generation_id file a at r ≡ (file', ok (authenticated out))
      → (g : Floor) × (r ≡ ok g)
        × (file' ≡ some (crates.print g))
        × (resolve reader generation_id a at ≡ ok (authenticated out))
  recorded-authenticated file file' a at out (err e) h = cc
  recorded-authenticated file file' a at out (ok g) h = elim (Bool-cases a.floor_stored) [
    | inr lost ↦ absurd (ground (arith, lost))
    | inl stored ↦ (g, refl, ground (arith, stored), ground (arith, stored))
  ]

  timed-authenticated :
      (file file' : Option (List ℕ)) (a : Answers E) (out : Authenticated) (o : Option ℤ)
      → timed crates reader generation_id file a o ≡ (file', ok (authenticated out))
      → (at : ℤ) × (g : Floor) × (o ≡ some at)
        × (verify crates file a at ≡ ok g)
        × (file' ≡ some (crates.print g))
        × (resolve reader generation_id a at ≡ ok (authenticated out))
  timed-authenticated file file' a out none h = cc
  timed-authenticated file file' a out (some at) h =
      let (g, verified, stored, resolved) =
        recorded-authenticated file file' a at out (verify crates file a at) h in
      (at, g, refl, verified, stored, resolved)

  resolve-verified_at :
      (a : Answers E) (at : ℤ) (out : Authenticated)
      → resolve reader generation_id a at ≡ ok (authenticated out)
      → out.verified_at ≡ at
  unfolding resolve
  resolve-verified_at a at out h =
      let (bytes, _, h1) = >>=-eq-ok (map_err tuf a.target) _ (authenticated out) h in
      let (m, _, h2) = >>=-eq-ok (map_err manifest (parse reader bytes)) _ (authenticated out) h1 in
      cc

  -- A check that authenticates was answered versions that are not below the floor of before, and
  -- leaves a floor that is not below them.
  authenticated-between :
      (file file' : Option (List ℕ)) (a : Answers E) (out : Authenticated)
      → authenticate crates reader generation_id file a ≡ (file', ok (authenticated out))
      → (f : Floor) × (offered : Floor) × (g : Floor) × Holds E crates file f
        × Verified crates.as_second a out offered
        × IsBelow f offered
        × IsBelow offered g
        × Holds E crates file' g
  unfolding authenticate
  authenticated-between file file' a out h =
      let (at, g, _, verified, stored, resolved) =
        timed-authenticated file file' a out a.network_time h in
      let (f, t, offered, read, refreshed, is, below, raised) =
        verify-ok crates file a at g verified in
      let dated = resolve-verified_at a at out resolved in
      (
        f,
        offered,
        g,
        floor-ok file a.floor_reads f read,
        (
          t,
          refreshed,
          subst (λ z. floor_of {E = E} crates.as_second t z ≡ ok offered) (sym dated) is,
        ),
        below,
        subst (IsBelow offered) (sym raised) (IsBelow-raised_to f offered).1,
        subst (λ o. Holds E crates o g) (sym stored) (floor-print g),
      )

  -- Of two checks of a trust directory that authenticate, with any checks in between that may be
  -- skipped, fail, or lose the floor that they would write, the later verified a chain of which no
  -- role's version is below that of the earlier, at a network time whose second is not before that
  -- of the earlier; if a floor is read back as it was written.
  pub checks-rise :
      (file file1 file2 : Option (List ℕ)) (a b : Answers E) (rest : List (Answers E))
      (first second : Authenticated)
      → authenticate crates reader generation_id file a ≡ (file1, ok (authenticated first))
      → authenticate crates reader generation_id (checks crates reader generation_id file1 rest) b
        ≡ (file2, ok (authenticated second))
      → (f : Floor) × (g : Floor) × Verified crates.as_second a first f
        × Verified crates.as_second b second g
        × IsBelow f g
  checks-rise file file1 file2 a b rest first second h k =
      let (_, f, f1, _, seen, _, below1, held1) = authenticated-between file file1 a first h in
      let (f2, held2, below2) = checks-keeps file1 rest f1 held1 in
      let (f3, g, _, held3, seen', below3, _, _) =
        authenticated-between (checks crates reader generation_id file1 rest) file2 b second k in
      let same : f2 ≡ f3 = ok-inj (sym held2 ∙ held3) in
      let below4 : IsBelow f2 g = subst (λ z. IsBelow z g) (sym same) below3 in
      (f, g, seen, seen', IsBelow-trans f f1 g below1 (IsBelow-trans f1 f2 g below2 below4))
