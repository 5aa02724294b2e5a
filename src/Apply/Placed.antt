-- ===== src/Apply/Placed.antt =====
-- crates/updater/src/apply/mod.rs: the files change where an artifact is placed.
use retrovert.Common.{
  not, if◌then◌else◌, ℕ, ◌≡◌, refl, Bool, true, false, Option, none, some, List, [], ◌∷◌, arith,
  Bool-cases, inl, inr,
}
use retrovert.Common.Results.{Result, ok, err}
use retrovert.Queue.{State, Failure}
use retrovert.Queue.Transfer.{verify_on_disk, same_bytes}
use retrovert.Manifest.{Artifact}
use retrovert.Transport.Digest.{from_hex}
use retrovert.Apply.Distinct.{same_bytes-eq}
use retrovert.Apply.{Error, digest_of}
use retrovert.Apply.Install.{Installed, Files, put}
use retrovert.Apply.Acquire.{
  World, Landing, Placing, installed_of, persist, copy, place_digest, place, settle, settle_state,
  with_some,
}

-- An artifact that was placed: the digest that it names, and the bytes that were proved.
pub record IsPlaced (sha : List ℕ → List ℕ) (a : Artifact) (files files' : Files) (i : Installed)
    : Type 0 where
  pub digest : List ℕ
  pub bytes : List ℕ
  pub named : from_hex a.sha256 ≡ some digest
  pub verified : sha bytes ≡ digest
  pub installed : i ≡ installed_of a digest
  pub written : files' ≡ put files a.path (some bytes)

-- The files change where an artifact is placed, and not otherwise.
abbrev pub PlacesOr :
    {T : Type 0}
    → (List ℕ → List ℕ)
    → Artifact
    → Files
    → Files
    → Result (Error T) Installed
    → Type 0
PlacesOr sha a files files' (err e) = files' ≡ files
PlacesOr sha a files files' (ok i) = IsPlaced sha a files files' i

abbrev pub SettlesOr :
    {T : Type 0}
    → (List ℕ → List ℕ)
    → Artifact
    → Files
    → Files
    → Result (Error T) (Option Installed)
    → Type 0
SettlesOr sha a files files' (err e) = files' ≡ files
SettlesOr sha a files files' (ok none) = files' ≡ files
SettlesOr sha a files files' (ok (some i)) = IsPlaced sha a files files' i

module _ (T : Type 0) (sha : List ℕ → List ℕ) (files : Files) (a : Artifact) (l : Landing) where
  abbrev Places : Placing T Installed → Type 0
  Places q = PlacesOr {T = T} sha a files q.files q.result

  Places-if :
      (b : Bool) (q r : Placing T Installed) → Places q → Places r → Places (if b then q else r)
  Places-if true q r h k = h
  Places-if false q r h k = k

  verify_on_disk-eq :
      (bytes d : List ℕ) → verify_on_disk {T = T} sha (some bytes) d ≡ ok tt → sha bytes ≡ d
  unfolding verify_on_disk
  verify_on_disk-eq [] d h = cc
  verify_on_disk-eq (b ∷ bs) d h = elim (Bool-cases (same_bytes (sha (b ∷ bs)) d)) [
    | inl is ↦ same_bytes-eq (sha (b ∷ bs)) d is
    | inr is ↦ absurd (ground (arith, is))
  ]

  persist-Places :
      (d bytes : List ℕ) (r : Result (Failure T) (Unit {0}))
      → from_hex a.sha256 ≡ some d
      → verify_on_disk {T = T} sha (some bytes) d ≡ r
      → Places (persist {T = T} sha files a d l bytes r)
  persist-Places d bytes (err e) named is = refl
  persist-Places d bytes (ok x) named is =
      Places-if l.persisted _ _
        (record {
          digest = d;
          bytes = bytes;
          named = named;
          verified = verify_on_disk-eq bytes d is;
          installed = refl;
          written = refl;
        })
        refl

  copy-Places :
      (d : List ℕ) (o : Option (List ℕ))
      → from_hex a.sha256 ≡ some d
      → Places (copy {T = T} sha files a d l o)
  copy-Places d none named = refl
  copy-Places d (some bytes) named =
      persist-Places d bytes (verify_on_disk {T = T} sha (some bytes) d) named refl

  place_digest-Places :
      (r : Result (Error T) (List ℕ))
      → digest_of {T = T} a ≡ r
      → Places (place_digest {T = T} sha files a l r)
  place_digest-Places (err e) is = refl
  place_digest-Places (ok d) is =
      let named : from_hex a.sha256 ≡ some d = ground arith in
      Places-if (not l.parent_made) _ _ refl
        (Places-if (not l.has_path) _ _ refl (copy-Places d l.copied named))

  place-Places : Places (place {T = T} sha files a l)
  unfolding place
  place-Places = place_digest-Places (digest_of {T = T} a) refl

module _ {T : Type 0} (sha : List ℕ → List ℕ) (w : World T) (round : ℕ) (files : Files)
    (a : Artifact) (id : ℕ) where
  with_some-Settles :
      (files' : Files) (es : List (List ℕ)) (r : Result (Error T) Installed)
      → PlacesOr {T = T} sha a files files' r
      → SettlesOr {T = T} sha a files files'
          (with_some {T = T} sha (record { files = files'; evicted = es; result = r })).result
  with_some-Settles files' es (err e) h = h
  with_some-Settles files' es (ok i) h = h

  settle_state-Settles :
      (st : State)
      → SettlesOr {T = T} sha a files
          (settle_state sha w round files a id st).files
          (settle_state sha w round files a id st).result
  settle_state-Settles State.complete =
      let q = place {T = T} sha files a (w.landing round id) in
      with_some-Settles q.files q.evicted q.result (place-Places T sha files a (w.landing round id))
  settle_state-Settles State.failed = refl
  settle_state-Settles State.cancelled = refl
  settle_state-Settles State.pending = refl
  settle_state-Settles State.downloading = refl
  settle_state-Settles State.paused = refl
  settle_state-Settles State.preempted = refl

  pub settle-Settles :
      SettlesOr {T = T} sha a files
        (settle sha w round files a id).files
        (settle sha w round files a id).result
  unfolding settle
  settle-Settles = settle_state-Settles (w.state round id)

  settle_state-complete :
      (st : State) (i : Installed)
      → (settle_state sha w round files a id st).result ≡ ok (some i)
      → st ≡ State.complete
  settle_state-complete State.complete i h = refl
  settle_state-complete State.failed i h = cc
  settle_state-complete State.cancelled i h = cc
  settle_state-complete State.pending i h = cc
  settle_state-complete State.downloading i h = cc
  settle_state-complete State.paused i h = cc
  settle_state-complete State.preempted i h = cc

  -- Only a complete transfer is installed.
  pub settle-complete :
      (i : Installed)
      → (settle sha w round files a id).result ≡ ok (some i)
      → w.state round id ≡ State.complete
  unfolding settle
  settle-complete i h = settle_state-complete (w.state round id) i h
