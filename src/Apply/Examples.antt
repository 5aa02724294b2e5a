-- ===== src/Apply/Examples.antt =====
-- Two artifacts that are installed in two rounds, where the theorems' hypotheses hold.
use retrovert.Common.{
  ℕ, zero, suc, ◌+◌, ◌≡◌, ◌≢◌, ◌⊎◌, refl, true, none, some, List, [], ◌∷◌, ◌==◌, ◌||◌, leb, arith,
  if◌then◌else◌,
}
use retrovert.Queue.{complete, downloading, failed, user}
use retrovert.Queue.Transfer.{verify_on_disk}
use retrovert.Manifest.{Text, Artifact, is_clean_relative_path}
use retrovert.Manifest.Plan.{Plan}
use retrovert.Transport.Digest.{from_hex}
use retrovert.Common.Results.{ok}
use retrovert.Apply.{Error, refuse_collisions}
use retrovert.Apply.Install.{
  Record, Generation, Json, Root, resolve, record_generation, release, retain, no_files,
}
use retrovert.Apply.Acquire.{World, Landing, installed_of, refused, flatten}
use retrovert.Apply.Slots.{count, acquire-released}
use retrovert.Apply.Landed.{Lands}
use retrovert.Apply.Publish.{End, Site, Outcome, published, acquire, apply}
use retrovert.Apply.Publish
use retrovert.Apply.Acquire
use retrovert.Apply.Completions
use retrovert.Apply.Session.{Event, applies, collects, run}
use retrovert.Apply.Generations.{Whole}
use retrovert.Apply.History.{run-Whole, apply-keeps, apply-published}
use retrovert.Apply.Ends.{Settled, acquire-ends}

abbrev repeat : ℕ → ℕ → List ℕ
repeat zero b = []
repeat (suc n) b = b ∷ repeat n b

abbrev sha : List ℕ → List ℕ
sha [] = repeat 32 0
sha (b ∷ bs) = b ∷ repeat 31 0

-- An artifact of that name and path, whose digest begins with that digit.
abbrev part : ℕ → ℕ → Artifact
part name digit = record {
  name = name ∷ [];
  target = none;
  path = name ∷ [];
  sha256 = 48 ∷ digit ∷ repeat 62 48;
  size = 1;
  revision = 114 ∷ [];
  version = none;
}

abbrev plan : ℕ → Plan
plan digit = record {
  generation_id = repeat 64 digit;
  release_version = 1;
  artifacts = part 97 55 ∷ part 98 56 ∷ [];
  total_bytes = 2;
  cached_bytes = 0;
}

-- The second transfer takes a round longer; the entry's id is the index and 10.
abbrev world : World ℕ
world = record {
  room = λ round index. some (index + 10);
  state = λ round id. if leb 1 round || (id == 10) then complete else downloading;
  failure = λ round id. none;
  landing = λ round id. record {
    parent_made = true;
    has_path = true;
    copied = some ((if id == 10 then 7 else 8) ∷ []);
    persisted = true;
  };
  frees = λ round id. true;
}

abbrev site : Site ℕ
site = record { world = world; directory_made = true; stored = true; rounds = 2 }

abbrev json : Json Record
json = record { print = λ r. r; parse = λ r. some r }

abbrev empty_root : Root Record
empty_root = record { files = λ id path. none; records = λ id. none; publishing = λ id. 0 }

abbrev base : Text
base = 117 ∷ 47 ∷ []

abbrev generation : Generation
generation = record {
  id = repeat 64 48;
  artifacts =
      installed_of (part 97 55) (7 ∷ repeat 31 0)
      ∷ installed_of (part 98 56) (8 ∷ repeat 31 0)
      ∷ [];
}

abbrev applied : Root Record
applied = (apply sha json base user site (plan 48) empty_root).0

apply-plan : apply sha json base user site (plan 48) empty_root ≡ (applied, published generation)
unfolding apply is_clean_relative_path resolve Publish.publish acquire Publish.turns Publish.turn
    from_hex Acquire.sweep Acquire.place verify_on_disk record_generation release
    Publish.drop_entries
apply-plan = refl

apply-published_example :
    (resolve json applied (repeat 64 48) ≡ some generation)
    × ((resolve json empty_root (repeat 64 48) ≡ some generation)
        ⊎ Lands sha (applied.files (repeat 64 48)) (plan 48).artifacts generation.artifacts)
apply-published_example =
    apply-published sha json (λ r. refl) base user site (plan 48) empty_root applied generation
      apply-plan

applied-resolves : resolve json applied (repeat 64 48) ≡ some generation
unfolding apply is_clean_relative_path resolve Publish.publish acquire Publish.turns Publish.turn
    from_hex Acquire.sweep Acquire.place verify_on_disk record_generation release
    Publish.drop_entries
applied-resolves = refl

-- Another plan, whose second transfer fails.
abbrev failing_world : World ℕ
failing_world = record world { state = λ round id. if id == 10 then complete else failed }

abbrev failing : Site ℕ
failing = record site { world = failing_world }

apply-keeps_example :
    (resolve json (apply sha json base user failing (plan 49) applied).0 (repeat 64 48)
      ≡ some generation)
    × ((apply sha json base user failing (plan 49) applied).0.files (repeat 64 48)
        ≡ applied.files (repeat 64 48))
apply-keeps_example =
    apply-keeps sha json (λ r. refl) base user failing (plan 49) applied (repeat 64 48) generation
      applied-resolves

-- The first plan is killed in its first round, applied again, and kept by a collection.
abbrev events : List (Event ℕ)
events =
    applies (record site { rounds = 1 }) (plan 48)
    ∷ applies site (plan 48)
    ∷ applies failing (plan 49)
    ∷ collects (repeat 64 48 ∷ []) (λ id. record { record_gone = true; directory = none })
        (repeat 64 48 ∷ repeat 64 49 ∷ [])
    ∷ []

run-resolves :
    resolve json (run sha json base user empty_root events) (repeat 64 48) ≡ some generation
unfolding run apply retain is_clean_relative_path resolve Publish.publish acquire Publish.turns
    Publish.turn from_hex Acquire.sweep Acquire.place verify_on_disk record_generation release
    Publish.drop_entries
run-resolves = refl

run-Whole_example :
    Whole sha ((run sha json base user empty_root events).files (repeat 64 48)) generation.artifacts
run-Whole_example =
    run-Whole sha json (λ r. refl) base user empty_root events (repeat 64 48) generation
      (λ key. refl) run-resolves

acquire-stopped : (acquire sha failing_world (plan 48) base user 2 no_files).1 ≢ End.killed
unfolding acquire Publish.turns Publish.turn from_hex Acquire.sweep Acquire.place verify_on_disk
    Publish.drop_entries
acquire-stopped h = ground (arith, h)

acquire-released_example :
    count 11 (acquire sha failing_world (plan 48) base user 2 no_files).0.queued
    ≡ count 11 (acquire sha failing_world (plan 48) base user 2 no_files).0.released
acquire-released_example =
    acquire-released sha failing_world (plan 48) base user 2 no_files 11 (λ round id landing. refl)
      acquire-stopped

-- From the second round on.
world-Settled : Settled sha world (plan 48) base user 1
world-Settled = (λ round index late. refl, λ round id late. ground (arith, late))

plan-distinct : refuse_collisions {T = ℕ} [] (plan 48).artifacts ≡ ok tt
unfolding refuse_collisions
plan-distinct = refl

acquire-ends_example :
    (((acquire sha world (plan 48) base user 2 no_files).1 ≡ End.acquired)
      × Lands sha
          (acquire sha world (plan 48) base user 2 no_files).0.files
          (plan 48).artifacts
          (flatten (acquire sha world (plan 48) base user 2 no_files).0.placed))
    ⊎ ((e : Error ℕ) × ((acquire sha world (plan 48) base user 2 no_files).1
          ≡ End.stopped (refused e)))
acquire-ends_example =
    acquire-ends sha world (plan 48) base user 1 no_files world-Settled plan-distinct

-- Two applies that return one generation, with a reader after each.
abbrev calls : List (Completions.Call ℕ)
calls =
    Completions.applied (published generation)
    ∷ Completions.asks
    ∷ Completions.applied (published generation)
    ∷ Completions.asks
    ∷ []

count-offers_example :
    Completions.count (repeat 64 48) (Completions.offers Completions.unreported calls).0
      + Completions.count (repeat 64 48) (Completions.offers Completions.unreported calls).1.pending
    ≡ Completions.one_if (Completions.returns (repeat 64 48) calls)
count-offers_example = Completions.count-offers (repeat 64 48) calls
