-- ===== src/Transport/Splice/Entries.antt =====
-- crates/updater/src/transport: the writes to a cache entry keep what a splice relies on.
use mathlib.Core.List.{append-nil}
use retrovert.Common.{
  ℕ, ◌≤◌, ◌<◌, ◌≡◌, refl, sym, ◌∙◌, ap, subst, true, none, some, List, [], ◌⊎◌, inl, inr, ltb,
  arith, length, Bool-cases, Option-cases,
}
use retrovert.Common.Slices.{take, Begins, length-take-le, take-all, Begins-length-le, Begins-eq}
use retrovert.Transport.Meta.{Meta, size, etag_len, i64_limit, serialize, deserialize, pack_etag}
use retrovert.Transport.Meta.Codec.{
  deserialize-serialize, deserialize-short, length-serialize, pack_etag-length,
}
use retrovert.Transport.Download.{
  Disk, Write, whole, cut, refused, removed, write_meta, read_meta, is_complete_at,
}
use retrovert.Transport.Splice.{IsPrefix, Claims, IsSound}

-- The sidecar after a write is the one that was written, that of before, or unreadable.
pub read_meta-write_meta :
    (d : Disk) (m : Meta) (w : Write)
    → m.file_size < i64_limit
    → m.bytes_written < i64_limit
    → length m.etag ≡ etag_len
    → ((read_meta (write_meta d m w) ≡ some m)
        ⊎ ((read_meta (write_meta d m w) ≡ none) ⊎ (read_meta (write_meta d m w) ≡ read_meta d)))
unfolding read_meta write_meta
read_meta-write_meta d m whole f b e =
    inl (ap deserialize (sym (append-nil (serialize m))) ∙ deserialize-serialize m [] f b e)
read_meta-write_meta d m (cut k) f b e = elim (Bool-cases (ltb k size)) [
  | inl short ↦ inr (
      inl
        (deserialize-short (take k (serialize m)) (ground (arith, length-take-le k (serialize m)))))
  | inr long ↦ inl (
      ap deserialize (
        take-all k (serialize m) (ground (arith, length-serialize m))
        ∙ sym (append-nil (serialize m)))
      ∙ deserialize-serialize m [] f b e)
]
read_meta-write_meta d m refused f b e = inr (inr refl)

pub write_meta-file : (d : Disk) (m : Meta) (w : Write) → (write_meta d m w).file ≡ d.file
unfolding write_meta
write_meta-file d m whole = refl
write_meta-file d m (cut k) = refl
write_meta-file d m refused = refl

module _ (body : List ℕ) (small : length body < i64_limit) where
  pub removed-IsSound : IsSound body removed
  unfolding read_meta
  removed-IsSound = record { total = tt; prefix = tt; claims = tt }

  -- A disk whose sidecar was written anew, or lost, or not touched.
  resided-IsSound :
      (d d' : Disk) (m : Meta) (f : List ℕ)
      → IsSound body d
      → d.file ≡ some f
      → m.file_size ≡ length body
      → m.bytes_written ≡ length f
      → d'.file ≡ d.file
      → ((read_meta d' ≡ some m) ⊎ ((read_meta d' ≡ none) ⊎ (read_meta d' ≡ read_meta d)))
      → IsSound body d'
  resided-IsSound d d' m f v there sized counted same (inl e) = record {
    total = rw e sized;
    prefix = rw same v.prefix;
    claims = rw (e, same, there) (λ h. omega arith);
  }
  resided-IsSound d d' m f v there sized counted same (inr (inl e)) = record {
    total = rw e tt;
    prefix = rw same v.prefix;
    claims = rw (e, same, there) tt;
  }
  resided-IsSound d d' m f v there sized counted same (inr (inr e)) = record {
    total = rw e v.total;
    prefix = rw same v.prefix;
    claims = rw (e, same) v.claims;
  }

  -- A sidecar that counts the bytes of the file may be written, and may fail to be.
  pub write_meta-IsSound :
      (d : Disk) (m : Meta) (f etag : List ℕ) (w : Write)
      → IsSound body d
      → d.file ≡ some f
      → m.file_size ≡ length body
      → m.bytes_written ≡ length f
      → m.etag ≡ pack_etag etag
      → IsSound body (write_meta d m w)
  write_meta-IsSound d m f etag w v there sized counted packed =
      let short = Begins-length-le f body (subst (IsPrefix body) there v.prefix) in
      resided-IsSound d (write_meta d m w) m f v there sized counted (write_meta-file d m w) (
        read_meta-write_meta d m w (omega arith) (omega arith)
          (ap length packed ∙ pack_etag-length etag))

  -- A complete entry holds the body.
  pub is_complete_at-eq : (d : Disk) → IsSound body d → is_complete_at d ≡ true → d.file ≡ some body
  unfolding is_complete_at
  is_complete_at-eq d v h = elim (Option-cases d.file) [
    | inl gone ↦ absurd (ground (arith, gone))
    | inr (f, there) ↦ elim (Option-cases (read_meta d)) [
      | inl none_read ↦ absurd (ground (arith, there, none_read))
      | inr (m, e) ↦
          let claim : m.bytes_written ≡ m.file_size → length body ≤ length f =
            subst (Claims body (some f)) e
              (subst (λ o. Claims body o (read_meta d)) there v.claims) in
          let begins : Begins f body = subst (IsPrefix body) there v.prefix in
          there ∙ ap some (Begins-eq f body begins (claim (ground (arith, there, e))))
    ]
  ]
