-- ===== src/Channel/Trust.antt =====
-- crates/updater/src/channel/trust.rs: the versions and the time below which a client does not go.
use retrovert.Common.{ℕ, Bool, Option, none, some, List, max, ltb, if◌then◌else◌}
use retrovert.Common.Results.{Result, ok, err, ◌>>=◌}
use retrovert.Common.Signed.{ℤ, pos, ltb_ℤ, max_ℤ}
use retrovert.Manifest.{Refusal}

pub record Floor : Type 0 where
  pub root : ℕ
  pub timestamp : ℕ
  pub snapshot : ℕ
  pub targets : ℕ
  pub verified_at : ℤ

pub data Role : Type 0 where
  root timestamp snapshot targets : Role

-- `channel::Error`; what the TUF client reports is of any type.
pub data Error (E : Type 0) : Type 0 where
  tuf : E → Error E
  manifest : Refusal → Error E
  rollback : Role → (floor offered : ℕ) → Error E
  time_rollback : (floor offered : ℤ) → Error E
  trust : Error E
  incomplete_refresh : Role → Error E
  insecure : List ℕ → Error E

-- The versions of a `TrustedMetadataSet`.
pub record Trusted : Type 0 where
  pub root : ℕ
  pub timestamp : Option ℕ
  pub snapshot : Option ℕ
  pub targets : Option ℕ

-- `Floor::default`
abbrev pub no_floor : Floor
no_floor = record { root = 0; timestamp = 0; snapshot = 0; targets = 0; verified_at = pos 0 }

-- What other crates do: `serde_json` at a floor, and `Timestamp::as_second` at an instant.
pub record Crates : Type 0 where
  pub print : Floor → List ℕ
  pub parse : List ℕ → Option Floor
  pub as_second : ℤ → ℤ

module _ {E : Type 0} where
  abbrev pub trusted_version : Role → Option ℕ → Result (Error E) ℕ
  trusted_version role none = err (incomplete_refresh role)
  trusted_version role (some version) = ok version

  -- `Floor::of`
  unfoldable pub floor_of : (ℤ → ℤ) → Trusted → ℤ → Result (Error E) Floor
  floor_of as_second t at = do
    timestamp_version ← trusted_version Role.timestamp t.timestamp
    snapshot_version ← trusted_version Role.snapshot t.snapshot
    targets_version ← trusted_version Role.targets t.targets
    ok (record {
      root = t.root;
      timestamp = timestamp_version;
      snapshot = snapshot_version;
      targets = targets_version;
      verified_at = as_second at;
    })

  unfoldable pub admit_time : (ℤ → ℤ) → Floor → ℤ → Result (Error E) (Unit {0})
  admit_time as_second f offered =
      if ltb_ℤ (as_second offered) f.verified_at
      then err (time_rollback f.verified_at (as_second offered))
      else ok tt

  abbrev pub admit_role : Role → ℕ → ℕ → Result (Error E) (Unit {0})
  admit_role role floor offered =
      if ltb offered floor then err (rollback role floor offered) else ok tt

  unfoldable pub admit : Floor → Floor → Result (Error E) (Unit {0})
  admit f offered = do
    _ ← admit_role Role.root f.root offered.root
    _ ← admit_role Role.timestamp f.timestamp offered.timestamp
    _ ← admit_role Role.snapshot f.snapshot offered.snapshot
    admit_role Role.targets f.targets offered.targets

  -- `TrustStore::floor`: the file that is not there, or read, or cannot be read.
  unfoldable pub floor : Crates → Option (List ℕ) → Bool → Result (Error E) Floor
  floor crates file reads =
      if reads
      then elim file [
        | none ↦ ok no_floor
        | some bytes ↦ elim (crates.parse bytes) [ none ↦ err trust | some f ↦ ok f ]
      ]
      else err trust

unfoldable pub raised_to : Floor → Floor → Floor
raised_to f offered = record {
  root = max f.root offered.root;
  timestamp = max f.timestamp offered.timestamp;
  snapshot = max f.snapshot offered.snapshot;
  targets = max f.targets offered.targets;
  verified_at = max_ℤ f.verified_at offered.verified_at;
}
