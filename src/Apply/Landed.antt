-- ===== src/Apply/Landed.antt =====
-- crates/updater/src/apply/mod.rs: what an acquisition that ends well has placed.
use retrovert.Common.{
  ℕ, ◌≤◌, ◌<◌, ◌≡◌, ◌≢◌, ◌⊎◌, refl, sym, ap, ◌∙◌, subst, false, Option, some, List, [], ◌∷◌, ◌++◌,
  ◌==◌, arith, length, get_elem?, modify, Bool-cases, inl, inr,
}
use retrovert.Common.Updates.{get-modify_self, get-modify_ne, length-modify, get-lt, lt-get}
use retrovert.Common.Results.{ok}
use retrovert.Queue.{complete}
use retrovert.Manifest.{Artifact, text_eq}
use retrovert.Manifest.Plan.{Plan}
use retrovert.Transport.Digest.{from_hex}
use retrovert.Apply.{refuse_collisions}
use retrovert.Apply.Install.{Installed, Files}
use retrovert.Apply.Acquire.{World, Acquiring, last_first, installed_of, landed}
use retrovert.Apply.Slots.{List-cases}
use retrovert.Apply.Distinct.{refuse_collisions_ne, text_eq_refl}
use retrovert.Apply.Placed.{IsPlaced}

-- An artifact is installed so, and its file has the digest that it names.
pub record IsLanded (sha : List ℕ → List ℕ) (files : Files) (a : Artifact) (i : Installed)
    : Type 0 where
  pub digest : List ℕ
  pub bytes : List ℕ
  pub named : from_hex a.sha256 ≡ some digest
  pub installed : i ≡ installed_of a digest
  pub on_disk : files a.path ≡ some bytes
  pub verified : sha bytes ≡ digest

-- All artifacts, in order.
abbrev pub Lands : (List ℕ → List ℕ) → Files → List Artifact → List Installed → Type 0
Lands sha files [] [] = Unit {0}
Lands sha files [] (i ∷ is) = ⊥
Lands sha files (a ∷ rest) [] = ⊥
Lands sha files (a ∷ rest) (i ∷ is) = IsLanded sha files a i × Lands sha files rest is

abbrev pub Awaits : ℕ → List (ℕ × ℕ) → Type 0
Awaits index [] = ⊥
Awaits index (e ∷ held) = (e.1 ≡ index) ⊎ Awaits index held

IsLanded-written :
    (sha : List ℕ → List ℕ) (files files' : Files) (a : Artifact) (i : Installed)
    → IsPlaced sha a files files' i
    → IsLanded sha files' a i
IsLanded-written sha files files' a i h = record {
  digest = h.digest;
  bytes = h.bytes;
  named = h.named;
  installed = h.installed;
  on_disk = rw (h.written, text_eq_refl a.path) refl;
  verified = h.verified;
}

-- The artifacts of other paths stay.
IsLanded-put :
    (sha : List ℕ → List ℕ) (files files' : Files) (a b : Artifact) (i j : Installed)
    → text_eq a.path b.path ≡ false
    → IsPlaced sha b files files' j
    → IsLanded sha files a i
    → IsLanded sha files' a i
IsLanded-put sha files files' a b i j ne h l = record {
  digest = l.digest;
  bytes = l.bytes;
  named = l.named;
  installed = l.installed;
  on_disk = rw (h.written, ne) l.on_disk;
  verified = l.verified;
}

pub Awaits-append-left :
    (index : ℕ) (xs ys : List (ℕ × ℕ)) → Awaits index xs → Awaits index (xs ++ ys)
Awaits-append-left index [] ys h = absurd h
Awaits-append-left index (x ∷ xs) ys (inl h) = inl h
Awaits-append-left index (x ∷ xs) ys (inr h) = inr (Awaits-append-left index xs ys h)

pub Awaits-append-right :
    (index : ℕ) (xs ys : List (ℕ × ℕ)) → Awaits index ys → Awaits index (xs ++ ys)
Awaits-append-right index [] ys h = h
Awaits-append-right index (x ∷ xs) ys h = inr (Awaits-append-right index xs ys h)

Awaits-append :
    (index : ℕ) (xs ys : List (ℕ × ℕ)) → Awaits index (xs ++ ys) → Awaits index xs ⊎ Awaits index ys
Awaits-append index [] ys h = inr h
Awaits-append index (x ∷ xs) ys (inl h) = inl (inl h)
Awaits-append index (x ∷ xs) ys (inr h) = elim (Awaits-append index xs ys h) [
  | inl l ↦ inl (inr l)
  | inr r ↦ inr r
]

Awaits-last_first : (index : ℕ) (xs : List (ℕ × ℕ)) → Awaits index xs → Awaits index (last_first xs)
Awaits-last_first index [] h = h
Awaits-last_first index (x ∷ xs) (inl h) = elim (List-cases (last_first xs)) [
  | inl is ↦ rw is (inl h)
  | inr (y, ys, is) ↦ rw is (inr (inl h))
]
Awaits-last_first index (x ∷ xs) (inr h) =
    let later = Awaits-last_first index xs h in
    elim (List-cases (last_first xs)) [
      | inl is ↦ absurd (subst (Awaits index) is later)
      | inr (y, ys, is) ↦
          rw is (elim (subst (Awaits index) is later) [ inl e ↦ inl e | inr r ↦ inr (inr r) ])
    ]

-- What is placed has landed, and the artifacts that were queued are placed or held.
pub record IsFair (sha : List ℕ → List ℕ) (p : Plan) (held : List (ℕ × ℕ)) (s : Acquiring)
    : Type 0 where
  pub bound : s.next ≤ length p.artifacts
  pub measured : length s.placed ≡ length p.artifacts
  pub placed :
      (index : ℕ) (i : Installed)
      → get_elem? s.placed index ≡ some (some i)
      → (a : Artifact) × (get_elem? p.artifacts index ≡ some a) × IsLanded sha s.files a i
  pub waits :
      (index : ℕ)
      → index < s.next
      → ((i : Installed) × (get_elem? s.placed index ≡ some (some i))) ⊎ Awaits index held

module _ {T : Type 0} (sha : List ℕ → List ℕ) (w : World T) (p : Plan)
    (distinct : refuse_collisions {T = T} [] p.artifacts ≡ ok tt) where
  pub landed-IsFair :
      (kept rest : List (ℕ × ℕ)) (s : Acquiring) (round id index : ℕ) (a : Artifact) (files : Files)
      (i : Installed)
      → get_elem? p.artifacts index ≡ some a
      → w.state round id ≡ complete
      → IsPlaced sha a s.files files i
      → IsFair sha p (kept ++ (id, index) ∷ rest) s
      → IsFair sha p
          (kept ++ last_first rest)
          (landed (record s { files = files }) id index (w.frees round id) i)
  landed-IsFair kept rest s round id index a files i at landing is h =
      let f = λ (z : Option Installed). some i in
      let (_, was) =
        lt-get s.placed index (omega (arith, get-lt p.artifacts index a at, h.measured)) in
      let here = get-modify_self f s.placed index _ was in
      record {
        bound = h.bound;
        measured = length-modify f s.placed index ∙ h.measured;
        placed = λ index' j there. elim (Bool-cases (index' == index)) [
          | inl same ↦
              let equal : index' ≡ index = ground arith in
              let installed : j ≡ i = cc in
              (
                a,
                ap (get_elem? p.artifacts) equal ∙ at,
                subst (IsLanded sha files a) (sym installed)
                    (IsLanded-written sha s.files files a i is),
              )
          | inr other ↦
              let (b, at', landed') =
                h.placed index' j (sym (get-modify_ne f s.placed index' index other) ∙ there) in
              let ne : index' ≢ index = ground arith in
              (
                b,
                at',
                IsLanded-put sha s.files files b a j i
                    (refuse_collisions_ne p.artifacts index' index b a distinct ne at' at) is
                    landed',
              )
        ];
        waits = λ index' lt. elim (Bool-cases (index' == index)) [
          | inl same ↦
              let equal : index' ≡ index = ground arith in
              inl (i, ap (get_elem? (modify s.placed index f)) equal ∙ here)
          | inr other ↦ elim (h.waits index' lt) [
            | inl (j, there) ↦ inl (j, get-modify_ne f s.placed index' index other ∙ there)
            | inr held ↦ elim (Awaits-append index' kept ((id, index) ∷ rest) held) [
              | inl l ↦ inr (Awaits-append-left index' kept (last_first rest) l)
              | inr (inl e) ↦ absurd (ground (arith, e, other))
              | inr (inr r) ↦ inr (
                  Awaits-append-right index' kept (last_first rest)
                    (Awaits-last_first index' rest r))
            ]
          ]
        ];
      }
