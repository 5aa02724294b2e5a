-- ===== src/Transport/Meta/Codec.antt =====
-- crates/updater/src/transport/meta.rs: what comes back from the bytes of a sidecar.
use mathlib.Core.List.{append-nil}
use retrovert.Common.{
  ℕ, zero, suc, ◌+◌, ◌-◌, ◌<◌, ◌≡◌, refl, sym, ◌∙◌, ap, subst, Bool, true, false, not, ◌&&◌, none,
  some, List, [], ◌∷◌, ◌++◌, min, ltb, ◌==◌, arith, length, length-append,
}
use retrovert.Common.Slices.{take, take-append, length-take-le}
use retrovert.Queue.Transfer.{same_bytes}
use retrovert.Transport.Meta.{
  Meta, magic, version, size, etag_len, i64_limit, slice, to_le_bytes, from_le_bytes, zeroes,
  serialize, read_size, deserialize, pack_etag, before_nul, unpack_etag,
}

from_le_bytes-to_le_bytes : (n : ℕ) → n < i64_limit → from_le_bytes (to_le_bytes 8 n) ≡ n
from_le_bytes-to_le_bytes n h = omega arith

read_size-to_le_bytes : (n : ℕ) → n < i64_limit → read_size (to_le_bytes 8 n) ≡ some n
unfolding read_size
read_size-to_le_bytes n h = rw (from_le_bytes-to_le_bytes n h) (ground arith)

long :
    (m : Meta) (rest : List ℕ)
    → length m.etag ≡ etag_len
    → ltb (length (serialize m ++ rest)) size ≡ false
unfolding serialize
long m rest e = ground (arith, length-append m.etag rest)

decoded :
    (bytes : List ℕ) (f b : ℕ)
    → ltb (length bytes) size ≡ false
    → same_bytes (take 4 bytes) magic ≡ true
    → (from_le_bytes (slice 4 4 bytes) == version) ≡ true
    → read_size (slice 8 8 bytes) ≡ some f
    → read_size (slice 16 8 bytes) ≡ some b
    → deserialize bytes
      ≡ some (record { file_size = f; bytes_written = b; etag = slice 24 etag_len bytes })
unfolding deserialize
decoded bytes f b long is_magic is_version first second =
    rw (long, is_magic, is_version, first, second, deserialize)

-- A record whose sizes fit in an `i64` and whose etag fills its field is read back from its bytes,
-- whatever follows them.
pub deserialize-serialize :
    (m : Meta) (rest : List ℕ)
    → m.file_size < i64_limit
    → m.bytes_written < i64_limit
    → length m.etag ≡ etag_len
    → deserialize (serialize m ++ rest) ≡ some m
unfolding serialize
deserialize-serialize m rest f b e =
    decoded (serialize m ++ rest) m.file_size m.bytes_written (long m rest e) refl refl
      (read_size-to_le_bytes m.file_size f) (read_size-to_le_bytes m.bytes_written b)
    ∙ ap (λ t. some (record { file_size = m.file_size; bytes_written = m.bytes_written; etag = t }))
        (subst (λ n. take n (m.etag ++ rest) ≡ m.etag) e (take-append m.etag rest))

pub length-serialize : (m : Meta) → length (serialize m) ≡ 24 + length m.etag
unfolding serialize
length-serialize m = omega arith

-- What is shorter than a record is not one.
pub deserialize-short : (bytes : List ℕ) → length bytes < size → deserialize bytes ≡ none
unfolding deserialize
deserialize-short bytes h = ground arith

length-zeroes : (n : ℕ) → length (zeroes n) ≡ n
length-zeroes zero = refl
length-zeroes (suc n) = omega (arith, length-zeroes n)

length-take-min : (n : ℕ) (xs : List ℕ) → length (take n xs) ≡ min (length xs) n
length-take-min zero xs = omega arith
length-take-min (suc n) [] = omega arith
length-take-min (suc n) (x ∷ xs) = omega (arith, length-take-min n xs)

take-min : (n : ℕ) (xs : List ℕ) → take (min (length xs) n) xs ≡ take n xs
take-min zero xs = let e : min (length xs) 0 ≡ 0 = omega arith in rw e
take-min (suc n) [] = let e : min 0 (suc n) ≡ 0 = omega arith in rw e
take-min (suc n) (x ∷ xs) =
    let e : min (suc (length xs)) (suc n) ≡ suc (min (length xs) n) = omega arith in
    rw e (ap (λ t. x ∷ t) (take-min n xs))

pub pack_etag-length : (s : List ℕ) → length (pack_etag s) ≡ etag_len
unfolding pack_etag
pack_etag-length s = omega (
  arith,
  length-append (take (min (length s) (etag_len - 1)) s)
      (zeroes (etag_len - min (length s) (etag_len - 1))),
  length-take-min (min (length s) (etag_len - 1)) s,
  length-zeroes (etag_len - min (length s) (etag_len - 1)),
)

-- No byte of it is a NUL.
abbrev pub no_nul : List ℕ → Bool
no_nul [] = true
no_nul (b ∷ bs) = not (b == 0) && no_nul bs

before_nul-zeroes : (n : ℕ) → before_nul (zeroes n) ≡ []
before_nul-zeroes zero = refl
before_nul-zeroes (suc n) = refl

before_nul-take :
    (n : ℕ) (s : List ℕ) (k : ℕ) → no_nul s ≡ true → before_nul (take n s ++ zeroes k) ≡ take n s
before_nul-take zero s k h = before_nul-zeroes k
before_nul-take (suc n) [] k h = before_nul-zeroes k
before_nul-take (suc n) (b ∷ s) k h = ground (arith, before_nul-take n s k)

unpack_etag-pack_etag :
    (lossy : List ℕ → List ℕ) (s : List ℕ)
    → no_nul s ≡ true
    → unpack_etag lossy (pack_etag s) ≡ lossy (take (etag_len - 1) s)
unfolding unpack_etag pack_etag
unpack_etag-pack_etag lossy s h =
    ap lossy (before_nul-take (min (length s) (etag_len - 1)) s _ h ∙ take-min (etag_len - 1) s)

-- The sidecar that is written for sizes that fit in an `i64` and an etag without a NUL is read back
-- with the same sizes, and with the etag cut to the 255 bytes that its field holds; and any part of
-- it that is shorter than the whole is not read at all.
pub serialize-read_back :
    (lossy : List ℕ → List ℕ) (f b : ℕ) (s : List ℕ)
    → f < i64_limit
    → b < i64_limit
    → no_nul s ≡ true
    → let written = serialize (record { file_size = f; bytes_written = b; etag = pack_etag s }) in
      (m : Meta) × (deserialize written ≡ some m)
      × (m.file_size ≡ f)
      × (m.bytes_written ≡ b)
      × (unpack_etag lossy m.etag ≡ lossy (take (etag_len - 1) s))
      × ((k : ℕ) → k < size → deserialize (take k written) ≡ none)
serialize-read_back lossy f b s f_fits b_fits h =
    let m : Meta = record { file_size = f; bytes_written = b; etag = pack_etag s } in
    (
      m,
      ap deserialize (sym (append-nil (serialize m)))
          ∙ deserialize-serialize m [] f_fits b_fits (pack_etag-length s),
      refl,
      refl,
      unpack_etag-pack_etag lossy s h,
      λ k short.
          deserialize-short (take k (serialize m)) (omega (arith, length-take-le k (serialize m))),
    )
