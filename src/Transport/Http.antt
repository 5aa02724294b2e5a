-- ===== src/Transport/Http.antt =====
-- crates/updater/src/transport/mod.rs and the checks of a response in
-- crates/updater/src/transport/download.rs. A text is its UTF-8 bytes. What a server answers is an
-- argument: the agent, its redirects and its timeouts are another package's.
use retrovert.Common.{
  ℕ, ◌+◌, ◌-◌, ◌*◌, ◌/◌, Bool, true, false, not, ◌&&◌, ◌||◌, Option, none, some, List, [], ◌∷◌, max,
  leb, ltb, ◌==◌, if◌then◌else◌, u64_max, saturating_add,
}

abbrev pub Text : Type 0
Text = List ℕ

-- A GET with the headers that a transfer sets.
pub record Get : Type 0 where
  pub url : Text
  pub range : Option ℕ
  pub if_range : Option Text

-- The status and the headers that are read of a response, and its body. A header that is not there
-- is empty.
pub record Response : Type 0 where
  pub status : ℕ
  pub content_type : Text
  pub etag : Text
  pub body : List ℕ

-- What is read of the response to a HEAD.
pub record Head : Type 0 where
  pub status : ℕ
  pub content_length : Option Text

unfoldable pub is_success : ℕ → Bool
is_success status = leb 200 status && ltb status 300

-- `str::parse::<u64>`: digits, behind an optional `+`; an overflow is an error.
abbrev pub digit : ℕ → Option ℕ
digit c = if leb 48 c && leb c 57 then some (c - 48) else none

unfoldable pub parse_digits : ℕ → Text → Option ℕ
parse_digits acc [] = some acc
parse_digits acc (c ∷ cs) = elim (digit c) [
  | none ↦ none
  | some d ↦
      let rest = parse_digits (acc * 10 + d) cs in if leb (acc * 10 + d) u64_max then rest else none
]

unfoldable pub parse_u64 : Text → Option ℕ
unfolding parse_digits
parse_u64 [] = none
parse_u64 (c ∷ []) = parse_digits 0 (c ∷ [])
parse_u64 (c ∷ d ∷ cs) = if c == 43 then parse_digits 0 (d ∷ cs) else parse_digits 0 (c ∷ d ∷ cs)

-- The length that a HEAD reports; no answer is `none`.
unfoldable pub url_size : Option Head → Option ℕ
unfolding is_success parse_u64
url_size none = none
url_size (some r) =
    if is_success r.status
    then elim r.content_length [ none ↦ none | some text ↦ parse_u64 text ]
    else none

abbrev pub partial_content : ℕ
partial_content = 206

unfoldable pub resume_response_is_valid : ℕ → ℕ → Bool
resume_response_is_valid resume_offset status = resume_offset == 0 || status == partial_content

-- `to_ascii_lowercase` of a byte.
abbrev pub to_lower : ℕ → ℕ
to_lower c = if leb 65 c && leb c 90 then c + 32 else c

abbrev pub eq_ignore_ascii_case : Text → Text → Bool
eq_ignore_ascii_case [] [] = true
eq_ignore_ascii_case [] (c ∷ cs) = false
eq_ignore_ascii_case (b ∷ bs) [] = false
eq_ignore_ascii_case (b ∷ bs) (c ∷ cs) = to_lower b == to_lower c && eq_ignore_ascii_case bs cs

-- Whether the text begins with the other, in either case.
abbrev pub has_prefix : Text → Text → Bool
has_prefix [] text = true
has_prefix (p ∷ ps) [] = false
has_prefix (p ∷ ps) (b ∷ bs) = to_lower p == to_lower b && has_prefix ps bs

-- `url.split(['?', '#']).next()`
abbrev pub before_query : Text → Text
before_query [] = []
before_query (b ∷ bs) = if b == 63 || b == 35 then [] else b ∷ before_query bs

-- The last part of a split at a byte, if the byte is there at all.
abbrev pub after_last : ℕ → Text → Option Text
after_last sep [] = none
after_last sep (b ∷ bs) = elim (after_last sep bs) [
  | some rest ↦ some rest
  | none ↦ if b == sep then some bs else none
]

-- `path.rsplit('/').next()`
abbrev pub file_name : Text → Text
file_name path = elim (after_last 47 path) [ none ↦ path | some name ↦ name ]

-- A name whose only dot stands first has no extension.
abbrev pub extension : Text → Option Text
extension [] = none
extension (b ∷ bs) = after_last 46 bs

unfoldable pub url_has_extension : Text → Text → Bool
url_has_extension url ext = elim (extension (file_name (before_query url))) [
  | none ↦ false
  | some e ↦ eq_ignore_ascii_case e ext
]

-- `text/html`, `html`, `htm` and `xhtml`.
abbrev pub text_html : Text
text_html = 116 ∷ 101 ∷ 120 ∷ 116 ∷ 47 ∷ 104 ∷ 116 ∷ 109 ∷ 108 ∷ []

abbrev pub html : Text
html = 104 ∷ 116 ∷ 109 ∷ 108 ∷ []

abbrev pub htm : Text
htm = 104 ∷ 116 ∷ 109 ∷ []

unfoldable pub is_content_type_mismatch : Text → Text → Bool
unfolding url_has_extension
is_content_type_mismatch content_type url =
    has_prefix text_html content_type
    && not (
        url_has_extension url html
        || (url_has_extension url htm || url_has_extension url (120 ∷ html)))

-- Ten percent more than the size, and 1 MiB at least.
unfoldable pub has_enough_disk_space : ℕ → ℕ → Bool
has_enough_disk_space required available =
    if required == 0
    then true
    else leb (saturating_add required (max (required / 10) 1_048_576)) available

-- `available_disk_space`
abbrev pub available_disk_space : Option ℕ
available_disk_space = none

-- Whether a transfer of the length may go on.
unfoldable pub check_disk_space : Option ℕ → Option ℕ → Bool
unfolding has_enough_disk_space
check_disk_space none available = true
check_disk_space (some required) none = true
check_disk_space (some required) (some available) = has_enough_disk_space required available
