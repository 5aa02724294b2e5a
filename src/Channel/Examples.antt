-- ===== src/Channel/Examples.antt =====
-- Two checks of one channel, the second after two that are refused, and at an earlier instant of the
-- second of the first.
use mathlib.Core.Option
use retrovert.Common.{ℕ, zero, suc, ◌/◌, ◌≡◌, refl, true, Option, none, some, List, [], ◌∷◌}
use retrovert.Common.Results.{ok}
use retrovert.Common.Signed.{ℤ, pos, negsuc}
use retrovert.Manifest.{Text, Manifest, Reader}
use retrovert.Channel.{Answers, Authenticated, authenticated, verify, resolve, authenticate, checks}
use retrovert.Channel.Trust.{Floor, Crates, floor, floor_of, admit, admit_time, raised_to}
use retrovert.Channel.Rising.{IsBelow, ReadsBack, Verified, checks-rise}

-- A floor as a list of its five numbers, the last with its sign.
abbrev print_time : ℤ → List ℕ
print_time (pos n) = 0 ∷ n ∷ []
print_time (negsuc n) = 1 ∷ n ∷ []

abbrev parse_time : List ℕ → Option ℤ
parse_time (zero ∷ n ∷ []) = some (pos n)
parse_time (suc sign ∷ n ∷ []) = some (negsuc n)
parse_time _ = none

abbrev parse_floor : List ℕ → Option Floor
parse_floor (root ∷ timestamp ∷ snapshot ∷ targets ∷ at) =
    Option.map
      (λ t. record {
        root = root;
        timestamp = timestamp;
        snapshot = snapshot;
        targets = targets;
        verified_at = t;
      })
      (parse_time at)
parse_floor _ = none

-- The second of an instant in milliseconds.
abbrev second_of : ℤ → ℤ
second_of (pos n) = pos (n / 1000)
second_of (negsuc n) = negsuc (n / 1000)

abbrev numbers : Crates
numbers = record {
  print = λ f. f.root ∷ f.timestamp ∷ f.snapshot ∷ f.targets ∷ print_time f.verified_at;
  parse = parse_floor;
  as_second = second_of;
}

parse_time-print_time : (t : ℤ) → parse_time (print_time t) ≡ some t
parse_time-print_time (pos n) = refl
parse_time-print_time (negsuc n) = refl

numbers-ReadsBack : ReadsBack numbers
numbers-ReadsBack f = rw (parse_time-print_time f.verified_at)

abbrev release : Manifest
release = record {
  schema = 1;
  version = 7;
  source_revision = 97 ∷ [];
  published = [];
  artifacts = [];
}

abbrev reader : Reader
reader = record {
  read_schema = λ bytes. some 1;
  read_manifest = λ bytes. some release;
  is_timestamp = λ text. true;
}

abbrev id_of : List ℕ → Text
id_of bytes = bytes

-- A check that is answered those versions of the online roles, at that time.
abbrev answered : ℕ → ℕ → Answers ℕ
answered version at = record {
  network_time = some (pos at);
  floor_reads = true;
  updater = ok tt;
  refresh = ok (record {
    root = 1;
    timestamp = some version;
    snapshot = some version;
    targets = some version;
  });
  floor_stored = true;
  target = ok (5 ∷ []);
}

abbrev result : ℕ → Authenticated
result at = record { manifest = release; generation_id = 5 ∷ []; verified_at = pos at }

-- A frozen host in between, and a host that dates itself back.
abbrev refused : List (Answers ℕ)
refused = answered 2 300000 ∷ answered 4 200000 ∷ []

first-authenticated :
    authenticate numbers reader id_of none (answered 3 250700)
    ≡ (some (1 ∷ 3 ∷ 3 ∷ 3 ∷ 0 ∷ 250 ∷ []), ok (authenticated (result 250700)))
unfolding authenticate verify resolve floor floor_of admit_time admit raised_to
first-authenticated = refl

second-authenticated :
    authenticate numbers reader id_of
      (checks numbers reader id_of (some (1 ∷ 3 ∷ 3 ∷ 3 ∷ 0 ∷ 250 ∷ [])) refused)
      (answered 4 250300)
    ≡ (some (1 ∷ 4 ∷ 4 ∷ 4 ∷ 0 ∷ 250 ∷ []), ok (authenticated (result 250300)))
unfolding checks authenticate verify resolve floor floor_of admit_time admit raised_to
second-authenticated = refl

checks-rise_example :
    (f : Floor) × (g : Floor) × Verified second_of (answered 3 250700) (result 250700) f
    × Verified second_of (answered 4 250300) (result 250300) g
    × IsBelow f g
checks-rise_example =
    checks-rise numbers numbers-ReadsBack reader id_of none _ _ (answered 3 250700)
      (answered 4 250300) refused (result 250700) (result 250300) first-authenticated
      second-authenticated
