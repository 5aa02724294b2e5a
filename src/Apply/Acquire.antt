-- ===== src/Apply/Acquire.antt =====
-- crates/updater/src/apply/mod.rs: fetching every artifact of a plan through the queue and placing it in
-- the generation's directory. What the queue and the file system answer is a world, by the round
-- of the loop; SHA-256 is a parameter. An entry that is freed is in the order of `released`.
use retrovert.Common.{
  ℕ, zero, suc, ◌+◌, Bool, not, Option, none, some, List, [], ◌∷◌, ◌++◌, map, get_elem?, modify,
  if◌then◌else◌,
}
use retrovert.Common.Results.{Result, ok, err}
use retrovert.Queue.{State, complete, failed, Failure, unreadable, Priority, panicked}
use retrovert.Queue.Transfer.{verify_on_disk}
use retrovert.Manifest.{Text, Artifact}
use retrovert.Manifest.Plan.{Plan}
use retrovert.Transport.Digest.{to_hex}
use retrovert.Apply.{Error, artifact, cancelled, install, digest_of, request_for}
use retrovert.Apply.Install.{Installed, Files, put}

-- What placing an artifact finds: whether its directory could be made, the queue's path for it, the
-- bytes that were copied from there, and whether the copy could be renamed.
pub record Landing : Type 0 where
  pub parent_made : Bool
  pub has_path : Bool
  pub copied : Option (List ℕ)
  pub persisted : Bool

-- By the round, and by the index of an artifact or the id of an entry; `frees` is the answer of the
-- queue's `remove`.
pub record World (T : Type 0) : Type 0 where
  pub room : ℕ → ℕ → Option ℕ
  pub state : ℕ → ℕ → State
  pub failure : ℕ → ℕ → Option (Failure T)
  pub landing : ℕ → ℕ → Landing
  pub frees : ℕ → ℕ → Bool

-- The files after an artifact was placed, the digests whose cache entries were dropped, and the result.
pub record Placing (T A : Type 0) : Type 0 where
  pub files : Files
  pub evicted : List (List ℕ)
  pub result : Result (Error T) A

abbrev pub installed_of : Artifact → List ℕ → Installed
installed_of a d = record {
  name = a.name;
  target = a.target;
  version = a.version;
  revision = a.revision;
  sha256 = to_hex d;
  size = a.size;
  path = a.path;
}

-- The state of `acquire`; an entry is its id with the index of its artifact.
pub record Acquiring : Type 0 where
  pub next : ℕ
  pub active : List (ℕ × ℕ)
  pub placed : List (Option Installed)
  pub files : Files
  pub evicted : List (List ℕ)
  pub queued : List ℕ
  pub released : List ℕ

-- How an apply stops early.
pub data Stop (T : Type 0) : Type 0 where
  refused : Error T → Stop T
  out_of_bounds : Stop T

-- `None` of each artifact.
abbrev pub unplaced : List Artifact → List (Option Installed)
unplaced artifacts = map (λ a. none) artifacts

abbrev pub begin_acquiring : List Artifact → Files → Acquiring
begin_acquiring artifacts files = record {
  next = 0;
  active = [];
  placed = unplaced artifacts;
  files = files;
  evicted = [];
  queued = [];
  released = [];
}

-- The last in front, as `swap_remove` leaves the entries behind the one that it removes.
abbrev pub last_first : List (ℕ × ℕ) → List (ℕ × ℕ)
last_first [] = []
last_first (x ∷ xs) = elim (last_first xs) [ [] ↦ x ∷ [] | y ∷ ys ↦ y ∷ (x ∷ ys) ]

-- `into_iter().flatten().collect()`
abbrev pub flatten : List (Option Installed) → List Installed
flatten [] = []
flatten (none ∷ rest) = flatten rest
flatten (some i ∷ rest) = i ∷ flatten rest

module _ {T : Type 0} (sha : List ℕ → List ℕ) where
  -- A copy that was proved or refused.
  abbrev pub persist :
      Files
      → Artifact
      → List ℕ
      → Landing
      → List ℕ
      → Result (Failure T) (Unit {0})
      → Placing T Installed
  persist files a d l bytes (err e) = record {
    files = files;
    evicted = d ∷ [];
    result = err (artifact a.name e);
  }
  persist files a d l bytes (ok x) =
      if l.persisted
      then record {
        files = put files a.path (some bytes);
        evicted = [];
        result = ok (installed_of a d);
      }
      else record { files = files; evicted = []; result = err install }

  abbrev pub copy : Files → Artifact → List ℕ → Landing → Option (List ℕ) → Placing T Installed
  copy files a d l none = record { files = files; evicted = []; result = err install }
  copy files a d l (some bytes) = persist files a d l bytes (verify_on_disk sha (some bytes) d)

  abbrev pub place_digest :
      Files → Artifact → Landing → Result (Error T) (List ℕ) → Placing T Installed
  place_digest files a l (err e) = record { files = files; evicted = []; result = err e }
  place_digest files a l (ok d) =
      if not l.parent_made
      then record { files = files; evicted = []; result = err install }
      else if not l.has_path
      then record { files = files; evicted = d ∷ []; result = err (artifact a.name unreadable) }
      else copy files a d l l.copied

  unfoldable pub place : Files → Artifact → Landing → Placing T Installed
  place files a l = place_digest files a l (digest_of a)

  abbrev pub with_some : Placing T Installed → Placing T (Option Installed)
  with_some p = record {
    files = p.files;
    evicted = p.evicted;
    result = elim p.result [ err e ↦ err e | ok i ↦ ok (some i) ];
  }

  abbrev pub unchanged : {A : Type 0} → Files → Result (Error T) A → Placing T A
  unchanged files result = record { files = files; evicted = []; result = result }

  abbrev pub failure_or_panicked : Option (Failure T) → Failure T
  failure_or_panicked none = panicked
  failure_or_panicked (some f) = f

  -- By the state of the transfer.
  abbrev pub settle_state :
      World T → ℕ → Files → Artifact → ℕ → State → Placing T (Option Installed)
  settle_state w round files a id complete = with_some (place files a (w.landing round id))
  settle_state w round files a id failed =
      unchanged files (err (artifact a.name (failure_or_panicked (w.failure round id))))
  settle_state w round files a id State.cancelled = unchanged files (err (cancelled a.name))
  settle_state w round files a id _ = unchanged files (ok none)

  unfoldable pub settle : World T → ℕ → Files → Artifact → ℕ → Placing T (Option Installed)
  settle w round files a id = settle_state w round files a id (w.state round id)

-- The answer of `remove` is not looked at: an entry that it refuses to free is forgotten.
abbrev pub landed : Acquiring → ℕ → ℕ → Bool → Installed → Acquiring
landed s id index freed i = record s {
  placed = modify s.placed index (λ z. some i);
  released = if freed then s.released ++ id ∷ [] else s.released;
}

module _ {T : Type 0} where
  -- What a placing leaves.
  abbrev pub keep_files : Acquiring → Placing T (Option Installed) → Acquiring
  keep_files s q = record s { files = q.files; evicted = s.evicted ++ q.evicted }

module _ {T : Type 0} (sha : List ℕ → List ℕ) (w : World T) (p : Plan) where
  -- The sweep over that many entries, of which `kept` were passed over; the entries that are held
  -- are those and the rest.
  unfoldable pub sweep :
      ℕ → List (ℕ × ℕ) → List (ℕ × ℕ) → ℕ → Acquiring → Acquiring × Option (Stop T)
  unfolding settle
  sweep zero kept rest round s = (record s { active = kept ++ rest }, none)
  sweep (suc n) kept [] round s = (record s { active = kept }, none)
  sweep (suc n) kept ((id, index) ∷ rest) round s = elim (get_elem? p.artifacts index) [
    | none ↦ (record s { active = kept ++ (id, index) ∷ rest }, some out_of_bounds)
    | some a ↦
        let q = settle sha w round s.files a id in
        elim q.result [
          | err e ↦
              (record (keep_files s q) { active = kept ++ (id, index) ∷ rest }, some (refused e))
          | ok none ↦ sweep n (kept ++ (id, index) ∷ []) rest round (keep_files s q)
          | ok (some i) ↦
              sweep n kept (last_first rest) round
                (landed (keep_files s q) id index (w.frees round id) i)
        ]
  ]

abbrev pub enter : Acquiring → ℕ → Acquiring
enter s id = record s {
  next = s.next + 1;
  active = s.active ++ (id, s.next) ∷ [];
  queued = s.queued ++ id ∷ [];
}

module _ {T : Type 0} (w : World T) (p : Plan) where
  -- The loop that queues what the queue has room for, of the artifacts that are left.
  unfoldable pub fill :
      Text → Priority → List Artifact → ℕ → Acquiring → Acquiring × Option (Stop T)
  unfolding request_for
  fill base priority [] round s = (s, none)
  fill base priority (a ∷ rest) round s = elim (request_for base a p.release_version priority) [
    | err e ↦ (s, some (refused e))
    | ok r ↦ elim (w.room round s.next) [
      | none ↦ (s, none)
      | some id ↦ fill base priority rest round (enter s id)
    ]
  ]
