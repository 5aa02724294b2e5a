-- ===== src/Transport/Digest.antt =====
-- crates/updater/src/transport/digest.rs: a digest and its hexadecimal form.
use retrovert.Common.{
  ℕ, ◌+◌, ◌-◌, ◌*◌, ◌/◌, ◌%◌, ◌&&◌, Option, none, some, List, [], ◌∷◌, leb, ltb, ◌==◌, length,
  if◌then◌else◌,
}

abbrev pub digest_len : ℕ
digest_len = 32

-- A digit of either case.
abbrev pub digit : ℕ → Option ℕ
digit c =
    if leb 48 c && leb c 57
    then some (c - 48)
    else if leb 97 c && leb c 102
    then some (c - 87)
    else if leb 65 c && leb c 70
    then some (c - 55)
    else none

abbrev pub pair : Option ℕ → Option ℕ → Option (List ℕ) → Option (List ℕ)
pair (some a) (some b) (some rest) = some ((a * 16 + b) ∷ rest)
pair _ _ _ = none

-- `hex::decode`
abbrev pub decode : List ℕ → Option (List ℕ)
decode [] = some []
decode (a ∷ []) = none
decode (a ∷ b ∷ rest) = pair (digit a) (digit b) (decode rest)

-- `ArtifactDigest::from_hex`
unfoldable pub from_hex : List ℕ → Option (List ℕ)
from_hex text = if length text == 2 * digest_len then decode text else none

-- `{byte:02x}` of each byte.
abbrev pub hex_digit : ℕ → ℕ
hex_digit n = if ltb n 10 then n + 48 else n + 87

unfoldable pub to_hex : List ℕ → List ℕ
to_hex [] = []
to_hex (b ∷ bs) = hex_digit (b / 16) ∷ hex_digit (b % 16) ∷ to_hex bs
