-- ===== src/Channel/Source.antt =====
-- crates/updater/src/channel/source.rs: the names and URLs of a flat channel.
use retrovert.Common.{
  ℕ, Bool, not, ◌&&◌, ◌||◌, Option, none, some, [], ◌∷◌, ◌++◌, ◌==◌, if◌then◌else◌,
}
use retrovert.Common.Results.{Result, ok, err}
use retrovert.Manifest.{Text, is_empty, text_eq, all}
use retrovert.Channel.Trust.{Error, insecure}
use retrovert.Channel.Time.{starts_with, https, trim_end}

-- The base of a channel's URLs; a `HostDate` of a base that is not TLS is refused.
unfoldable pub base_of : Text → Text
base_of base_url = trim_end base_url ++ 47 ∷ []

unfoldable pub host_date : {E : Type 0} → Text → Result (Error E) Text
unfolding base_of
host_date base_url =
    if starts_with https base_url then ok (base_of base_url) else err (insecure base_url)

-- `/`, `\`, `?` and `#`.
abbrev pub is_separator : ℕ → Bool
is_separator b = (b == 47) || ((b == 92) || ((b == 63) || (b == 35)))

-- Not empty, without a separator, and not of dots alone.
unfoldable pub flat_name : Text → Bool
flat_name name =
    not (is_empty name) && (all (λ b. not (is_separator b)) name && not (all (λ b. b == 46) name))

-- `timestamp.json` and `root.json`, whose URLs get a key from the clock.
unfoldable pub cache_key : Text → Text → Text → Text → Text
cache_key timestamp_name root_name stamp name =
    if text_eq name timestamp_name || text_eq name root_name then 63 ∷ 116 ∷ 61 ∷ stamp else []

-- The URL of a name, or its refusal; and what a response is read as, where 404 is no file.
unfoldable pub fetch_url : Text → Text → Text → Text → Text → Option Text
unfolding flat_name cache_key
fetch_url timestamp_name root_name stamp base name =
    if flat_name name
    then some (base ++ (name ++ cache_key timestamp_name root_name stamp name))
    else none
