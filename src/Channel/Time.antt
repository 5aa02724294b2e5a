-- ===== src/Channel/Time.antt =====
-- crates/updater/src/channel/time.rs: the time of a check, from the metadata host and the local clock.
use mathlib.Core.Option
use retrovert.Common.{
  ℕ, Bool, true, false, ◌&&◌, Option, none, some, List, [], ◌∷◌, ◌==◌, if◌then◌else◌,
}
use retrovert.Common.Signed.{ℤ, max_ℤ}

abbrev pub starts_with : List ℕ → List ℕ → Bool
starts_with [] text = true
starts_with (p ∷ ps) [] = false
starts_with (p ∷ ps) (b ∷ bs) = (p == b) && starts_with ps bs

-- `https://`
abbrev pub https : List ℕ
https = 104 ∷ 116 ∷ 116 ∷ 112 ∷ 115 ∷ 58 ∷ 47 ∷ 47 ∷ []

-- `trim_end_matches('/')`
abbrev pub trim_end : List ℕ → List ℕ
trim_end [] = []
trim_end (b ∷ bs) = elim (trim_end bs) [
  | [] ↦ if b == 47 then [] else b ∷ []
  | c ∷ cs ↦ b ∷ (c ∷ cs)
]

unfoldable pub verification_time : ℤ → ℤ → ℤ
verification_time reported local = max_ℤ reported local

-- What the request of the host's `Date` header comes to: none if the request fails.
unfoldable pub network_time : (List ℕ → Option ℤ) → Option (Option (List ℕ)) → ℤ → Option ℤ
unfolding verification_time
network_time parse_http_date none local = none
network_time parse_http_date (some none) local = none
network_time parse_http_date (some (some date)) local =
    Option.map (λ reported. verification_time reported local) (parse_http_date date)
