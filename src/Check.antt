-- ===== src/Check.antt =====
-- crates/updater/src/check/mod.rs and crates/updater/src/check/record.rs: one check of a channel, and
-- the log of the checks.
pub mod Log
mod Examples
use retrovert.Common.{
  ℕ, ◌-◌, Bool, Option, none, some, List, [], ◌∷◌, ◌++◌, length, ltb, if◌then◌else◌,
}
use retrovert.Common.Slices.{drop}
use retrovert.Common.Results.{Result, ok, err}
use retrovert.Common.Signed.{ℤ}
use retrovert.Manifest.{Text, Manifest, Reader, text_eq, target_eq}
use retrovert.Manifest.Plan.{Plan, select}
use retrovert.Channel.{Answers, Attempt, authenticated, authenticate}
use retrovert.Channel.Trust

-- `check::Error`
pub data Error (E : Type 0) : Type 0 where
  channel : Trust.Error E → Error E
  unrecorded : Error E

pub data Outcome : Type 0 where
  skipped : Outcome
  up_to_date : Text → Outcome
  update_available : Plan → Outcome

pub data Conclusion : Type 0 where
  skipped up_to_date update_available failed : Conclusion

-- `Record`; how a check failed is its error and not its message.
pub record Record (E : Type 0) : Type 0 where
  pub at : ℤ
  pub conclusion : Conclusion
  pub error : Option (Error E)

abbrev pub max_entries : ℕ
max_entries = 64

-- `serde_json` at a log. Nothing else reads the bytes of the file, which are of any type.
pub record LogJson (E B : Type 0) : Type 0 where
  pub print : List (Record E) → B
  pub parse : B → Option (List (Record E))

module _ {E : Type 0} where
  abbrev pub or_empty : Result (Error E) (List (Record E)) → List (Record E)
  or_empty (ok rs) = rs
  or_empty (err e) = []

  -- The oldest go, past the number that is kept.
  abbrev pub kept : List (Record E) → List (Record E)
  kept rs = if ltb max_entries (length rs) then drop (length rs - max_entries) rs else rs

module _ {E B : Type 0} (json : LogJson E B) where
  -- `CheckLog::entries` of the file, if it is there and can be read.
  unfoldable pub entries : Option B → Bool → Result (Error E) (List (Record E))
  entries file reads =
      if reads
      then elim file [
        | none ↦ ok []
        | some bytes ↦ elim (json.parse bytes) [ none ↦ err unrecorded | some rs ↦ ok rs ]
      ]
      else err unrecorded

  -- `CheckLog::append`: the file after it, and whether it was written.
  unfoldable pub append : Option B → Bool → Bool → Record E → Option B × Result (Error E) (Unit {0})
  append file reads stored r =
      let rs = kept (or_empty (entries file reads) ++ r ∷ []) in
      if stored then (some (json.print rs), ok tt) else (file, err unrecorded)

module _ {E : Type 0} where
  unfoldable pub record_of : ℤ → Result (Error E) Outcome → Record E
  record_of at (ok Outcome.skipped) = record {
    at = at;
    conclusion = Conclusion.skipped;
    error = none;
  }
  record_of at (ok (Outcome.up_to_date id)) = record {
    at = at;
    conclusion = Conclusion.up_to_date;
    error = none;
  }
  record_of at (ok (Outcome.update_available p)) = record {
    at = at;
    conclusion = Conclusion.update_available;
    error = none;
  }
  record_of at (err e) = record { at = at; conclusion = failed; error = some e }

  -- What an attempt comes to for a consumer of that target that has that generation.
  unfoldable pub resolved :
      Option Text
      → (Text → Bool)
      → Option Text
      → Result (Trust.Error E) Attempt
      → Result (Error E) Outcome
  unfolding select
  resolved target cache installed (err e) = err (channel e)
  resolved target cache installed (ok Attempt.skipped) = ok Outcome.skipped
  resolved target cache installed (ok (authenticated a)) =
      if target_eq installed (some a.generation_id)
      then ok (Outcome.up_to_date a.generation_id)
      else ok (Outcome.update_available (select a.generation_id a.manifest target cache))

  -- The result of a check, by that of its record.
  abbrev pub reported :
      Result (Error E) Outcome → Result (Error E) (Unit {0}) → Result (Error E) Outcome
  reported (err e) appended = err e
  reported (ok o) (ok x) = ok o
  reported (ok o) (err e) = err e

-- A `Checker`, less its directories.
pub record Checker (E B : Type 0) : Type 0 where
  pub crates : Trust.Crates
  pub reader : Reader
  pub generation_id : List ℕ → Text
  pub log_json : LogJson E B
  pub target : Option Text
  pub cache : Text → Bool

-- The files of the trust and state directories.
pub record Files (B : Type 0) : Type 0 where
  pub floor : Option (List ℕ)
  pub log : Option B

-- What a check finds outside, with the local time, and whether the log is read and written.
pub record World (E : Type 0) : Type 0 where
  pub channel : Answers E
  pub now : ℤ
  pub log_reads : Bool
  pub log_stored : Bool

module _ {E B : Type 0} (c : Checker E B) where
  -- `Checker::resolve`
  unfoldable pub resolve :
      Files B → World E → Option Text → Option (List ℕ) × Result (Error E) Outcome
  unfolding resolved
  resolve files w installed =
      let (floor, attempt) = authenticate c.crates c.reader c.generation_id files.floor w.channel in
      (floor, resolved c.target c.cache installed attempt)

  -- `Checker::check`
  unfoldable pub check : Files B → World E → Option Text → Files B × Result (Error E) Outcome
  check files w installed =
      let (floor, outcome) = resolve files w installed in
      let (log, appended) =
        append c.log_json files.log w.log_reads w.log_stored (record_of w.now outcome) in
      (record { floor = floor; log = log }, reported outcome appended)

  -- One check after another, each of a consumer that has that generation.
  unfoldable pub checks : Files B → List (World E × Option Text) → Files B
  checks files [] = files
  checks files ((w, installed) ∷ rest) = checks (check files w installed).0 rest

  -- The records of the same checks.
  unfoldable pub records : Files B → List (World E × Option Text) → List (Record E)
  records files [] = []
  records files ((w, installed) ∷ rest) =
      record_of w.now (resolve files w installed).1 ∷ records (check files w installed).0 rest
