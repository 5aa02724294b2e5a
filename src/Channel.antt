-- ===== src/Channel.antt =====
-- crates/updater/src/channel/mod.rs: authenticating a channel. The TUF client is another package's:
-- what its refresh and its target come to are arguments, as are the network time and whether the
-- trust directory could be read and written.
pub mod Trust
pub mod Time
pub mod Source
pub mod Rising
mod Examples
use retrovert.Common.{ℕ, Bool, Option, none, some, List, [], ◌∷◌, if◌then◌else◌}
use retrovert.Common.Results.{Result, ok, err, ◌>>=◌, map_err}
use retrovert.Common.Signed.{ℤ}
use retrovert.Manifest.{Text, Manifest, Reader, parse}
use retrovert.Channel.Trust.{
  Floor, Trusted, Error, Crates, tuf, manifest, trust, floor_of, admit_time, admit, raised_to,
  floor,
}

pub record Authenticated : Type 0 where
  pub manifest : Manifest
  pub generation_id : Text
  pub verified_at : ℤ

pub data Attempt : Type 0 where
  skipped : Attempt
  authenticated : Authenticated → Attempt

-- What one check finds outside: `Updater::new`, its `refresh` and its `get_target`.
pub record Answers (E : Type 0) : Type 0 where
  pub network_time : Option ℤ
  pub floor_reads : Bool
  pub updater : Result E (Unit {0})
  pub refresh : Result E Trusted
  pub floor_stored : Bool
  pub target : Result E (List ℕ)

module _ {E : Type 0} (crates : Crates) where
  -- The part that verifies, up to the floor that it records.
  unfoldable pub verify : Option (List ℕ) → Answers E → ℤ → Result (Error E) Floor
  verify file a at = do
    trusted_floor ← floor crates file a.floor_reads
    _ ← admit_time crates.as_second trusted_floor at
    _ ← map_err tuf a.updater
    trusted ← map_err tuf a.refresh
    offered ← floor_of crates.as_second trusted at
    _ ← admit trusted_floor offered
    ok (raised_to trusted_floor offered)

module _ {E : Type 0} (reader : Reader) (generation_id : List ℕ → Text) where
  -- The part after it, which moves no trust state.
  unfoldable pub resolve : Answers E → ℤ → Result (Error E) Attempt
  unfolding parse
  resolve a at = do
    bytes ← map_err tuf a.target
    m ← map_err manifest (parse reader bytes)
    ok (
        authenticated
          (record { manifest = m; generation_id = generation_id bytes; verified_at = at }))

module _ {E : Type 0} (crates : Crates) (reader : Reader) (generation_id : List ℕ → Text) where
  -- The floor's file after a check, and its result: once the chain is verified or refused, and
  -- once the time is known or not.
  abbrev pub recorded :
      Option (List ℕ)
      → Answers E
      → ℤ
      → Result (Error E) Floor
      → Option (List ℕ) × Result (Error E) Attempt
  recorded file a at (err e) = (file, err e)
  recorded file a at (ok f) =
      if a.floor_stored
      then (some (crates.print f), resolve reader generation_id a at)
      else (file, err trust)

  abbrev pub timed :
      Option (List ℕ) → Answers E → Option ℤ → Option (List ℕ) × Result (Error E) Attempt
  timed file a none = (file, ok skipped)
  timed file a (some at) = recorded file a at (verify crates file a at)

  -- `Channel::authenticate`
  unfoldable pub authenticate :
      Option (List ℕ) → Answers E → Option (List ℕ) × Result (Error E) Attempt
  authenticate file a = timed file a a.network_time

  -- Checks one after another.
  unfoldable pub checks : Option (List ℕ) → List (Answers E) → Option (List ℕ)
  checks file [] = file
  checks file (a ∷ rest) = checks (authenticate file a).0 rest
