-- ===== src/Check/Examples.antt =====
-- Two checks of a channel that cannot be asked for the time.
use retrovert.Common.{
  ℕ, ◌-◌, ◌≡◌, refl, Bool, true, false, Option, none, some, List, [], ◌∷◌, length, if◌then◌else◌,
}
use retrovert.Common.Slices.{drop}
use retrovert.Common.Results.{ok, err}
use retrovert.Common.Signed.{pos}
use retrovert.Manifest.{Text}
use retrovert.Check.{Record, LogJson, max_entries, entries, Checker, Files, World, checks, records}
use retrovert.Check.Log.{entries-checks}

-- The log's file is the log.
abbrev plain : LogJson ℕ (List (Record ℕ))
plain = record { print = λ rs. rs; parse = λ rs. some rs }

abbrev checker : Checker ℕ (List (Record ℕ))
checker = record {
  crates = record { print = λ f. []; parse = λ bytes. none; as_second = λ at. at };
  reader = record {
    read_schema = λ bytes. none;
    read_manifest = λ bytes. none;
    is_timestamp = λ text. false;
  };
  generation_id = λ bytes. bytes;
  log_json = plain;
  target = none;
  cache = λ digest. false;
}

-- A check at that local time, with the network's time or without it.
abbrev checking : ℕ → Bool → World ℕ
checking now online = record {
  channel = record {
    network_time = if online then some (pos now) else none;
    floor_reads = true;
    updater = err 9;
    refresh = err 9;
    floor_stored = true;
    target = err 9;
  };
  now = pos now;
  log_reads = true;
  log_stored = true;
}

abbrev empty : Files (List (Record ℕ))
empty = record { floor = none; log = none }

abbrev twice : List (World ℕ × Option Text)
twice = (checking 10 false, none) ∷ (checking 20 true, none) ∷ []

entries-checks_example :
    entries plain (checks checker empty twice).log true
    ≡ ok (drop (length (records checker empty twice) - max_entries) (records checker empty twice))
entries-checks_example =
    entries-checks checker (λ rs. refl) empty twice refl (refl, refl, (refl, refl, tt))
