-- ===== src/Transport/Meta.antt =====
-- crates/updater/src/transport/meta.rs: the sidecar of a partial file, as the bytes on disk.
pub mod Codec
use mathlib.Core.Option
use retrovert.Common.{
  ℕ, zero, suc, ◌+◌, ◌-◌, ◌*◌, ◌/◌, ◌%◌, Bool, not, ◌||◌, Option, none, some, List, [], ◌∷◌, ◌++◌,
  min, ltb, ◌==◌, if◌then◌else◌, length,
}
use retrovert.Common.Slices.{take, drop}
use retrovert.Queue.Transfer.{same_bytes}

-- `Meta`; a byte is a number below 256.
pub record Meta : Type 0 where
  pub file_size : ℕ
  pub bytes_written : ℕ
  pub etag : List ℕ

-- The bytes of "DLMT".
abbrev pub magic : List ℕ
magic = 68 ∷ 76 ∷ 77 ∷ 84 ∷ []

abbrev pub version : ℕ
version = 1

abbrev pub size : ℕ
size = 280

abbrev pub etag_len : ℕ
etag_len = 256

abbrev pub i64_limit : ℕ
i64_limit = 9_223_372_036_854_775_808

abbrev pub slice : ℕ → ℕ → List ℕ → List ℕ
slice from n xs = take n (drop from xs)

-- `to_le_bytes` of a word of that many bytes.
abbrev pub to_le_bytes : ℕ → ℕ → List ℕ
to_le_bytes zero n = []
to_le_bytes (suc k) n = (n % 256) ∷ to_le_bytes k (n / 256)

abbrev pub from_le_bytes : List ℕ → ℕ
from_le_bytes [] = 0
from_le_bytes (b ∷ bs) = b + 256 * from_le_bytes bs

abbrev pub zeroes : ℕ → List ℕ
zeroes zero = []
zeroes (suc n) = 0 ∷ zeroes n

unfoldable pub serialize : Meta → List ℕ
serialize m =
    magic
    ++ (to_le_bytes 4 version
        ++ (to_le_bytes 8 m.file_size ++ (to_le_bytes 8 m.bytes_written ++ m.etag)))

-- An `i64` whose sign bit is set is negative.
unfoldable pub read_size : List ℕ → Option ℕ
read_size field = if ltb (from_le_bytes field) i64_limit then some (from_le_bytes field) else none

unfoldable pub deserialize : List ℕ → Option Meta
unfolding read_size
deserialize bytes =
    if ltb (length bytes) size || not (same_bytes (take 4 bytes) magic)
    then none
    else if from_le_bytes (slice 4 4 bytes) == version
    then elim (read_size (slice 8 8 bytes)) [
      | none ↦ none
      | some file_size ↦ elim (read_size (slice 16 8 bytes)) [
        | none ↦ none
        | some bytes_written ↦ some (record {
          file_size = file_size;
          bytes_written = bytes_written;
          etag = slice 24 etag_len bytes;
        })
      ]
    ]
    else none

-- A text is its bytes.
unfoldable pub pack_etag : List ℕ → List ℕ
pack_etag etag = let n = min (length etag) (etag_len - 1) in take n etag ++ zeroes (etag_len - n)

-- The bytes before the first NUL; `lossy` is `String::from_utf8_lossy`.
abbrev pub before_nul : List ℕ → List ℕ
before_nul [] = []
before_nul (b ∷ bs) = if b == 0 then [] else b ∷ before_nul bs

unfoldable pub unpack_etag : (List ℕ → List ℕ) → List ℕ → List ℕ
unpack_etag lossy etag = lossy (before_nul etag)
