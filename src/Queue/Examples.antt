-- ===== src/Queue/Examples.antt =====
-- A queue with two workers, where the theorems' hypotheses hold.
mod Turns
use retrovert.Common.{
  ℕ, zero, suc, ◌==◌, Option, ◌≡◌, ◌↔◌, refl, Bool, true, false, not, ◌&&◌, ◌||◌, none, some, List,
  [], ◌∷◌, get_elem?, modify, arith, is_none,
}
use retrovert.Queue.{
  Priority, background, user, State, pending, downloading, preempted, Entry, Failure, SlotRequest,
  Request, Slot, Handle, Shared, no_claim,
}
use retrovert.Queue.Policy.{
  any, is_user_work_outstanding, same_state, next_pending, is_pending, outranks, can_yield,
  yields_before, mark_preempted, preempt_for_user,
}
use retrovert.Queue.Slots.{snapshot, snapshot_all, is_active}
use retrovert.Queue.Workers.{drain, finish, held_by, process_show}
use retrovert.Queue.Transport.{Status}
use retrovert.Queue.Transfer.{read, idle, World, Verdict, transfer, resumed_bytes}
use retrovert.Queue.Session.{Event, queues, drains, shows, is_idle, settle, step, run}
use retrovert.Queue.Calls.{with_config, queue, cancel, remove}
use retrovert.Queue.Scheduling.{next_pending-best, preempt_for_user-best}
use retrovert.Queue.Validated.{proven, within, is_complete, is_complete_state, transfer-proven}
use retrovert.Queue.Evicted.{transfer-evicted}
use retrovert.Queue.Machine.{sound}
use retrovert.Queue.Laws.Held.{run-with_config-sound}
use retrovert.Queue.Laws.Queued.{all_in_use, queue-none_iff, queue-unheld}
use retrovert.Queue.Laws.Twice.{WaitsAlone, drain-held_twice}
use retrovert.Queue.Laws.Retired.{RunsFor, drain-RunsFor}

-- In place of SHA-256, the bytes themselves.
abbrev pub sha : List ℕ → List ℕ
sha bytes = bytes

abbrev pub wanted : SlotRequest
wanted = record { url = "http://host/file"; digest = 1 ∷ 2 ∷ []; expected_size = some 2 }

abbrev pub request : Priority → Request
request p = record { wanted = wanted; priority = p }

abbrev pub spawned : ℕ → Bool
spawned i = true

abbrev pub handle : Handle
handle = record { cancel_asked = false; pause_asked = false }

-- The two bytes arrive.
abbrev pub arrives : World (Unit {0})
arrives = record {
  resumed_from = 0;
  prefix = none;
  polls =
      record { chunk = read (1 ∷ 2 ∷ []); downloaded = 2 }
      ∷ record { chunk = idle; downloaded = 2 }
      ∷ [];
  last = record {
    downloaded = 2;
    total = some 2;
    status = Status.complete;
    failure = none;
    no_retry = false;
  };
  file = some (1 ∷ 2 ∷ []);
}

-- Two background transfers run.
abbrev busy : List (Event (Unit {0}))
busy =
    queues 0 (request background) spawned
    ∷ drains 0 spawned
    ∷ queues 1 (request background) spawned
    ∷ drains 1 spawned
    ∷ shows 0 handle
    ∷ shows 1 handle
    ∷ []

abbrev pub after : List (Event (Unit {0})) → Shared (Unit {0})
after es = run sha (with_config 2) es

run-with_config-sound_example :
    (t : Slot (Unit {0})) × (get_elem? (after busy).slots 1 ≡ some t)
    × (sound (is_active (after busy).active 1) t ≡ true)
run-with_config-sound_example = run-with_config-sound sha 2 busy 1 (omega arith)

-- The first slot as its worker runs it.
abbrev pub running_slot : Slot (Unit {0})
running_slot = record {
  in_use = true;
  priority = background;
  state = downloading;
  cancel_requested = false;
  pause_requested = false;
  queue_time_ms = 0;
  bytes_downloaded = 0;
  bytes_total = none;
  request = some wanted;
  path = none;
  failure = none;
}

abbrev called_off : Shared (Unit {0})
called_off = (cancel (after busy) 0).0

transfer-proven_example :
    is_complete_state (Verdict.state (transfer sha wanted arrives)) ≡ proven sha wanted arrives
transfer-proven_example = transfer-proven (Unit {0}) sha wanted arrives

-- The bytes that arrived are the ones that were wanted.
arrives-proven : proven sha wanted arrives ≡ true
arrives-proven = refl

-- Three bytes come in place of two.
abbrev runs_over : World (Unit {0})
runs_over = record arrives { polls = record { chunk = read (1 ∷ 2 ∷ 3 ∷ []); downloaded = 3 } ∷ [] }

transfer-evicted_example : Verdict.evicted (transfer sha wanted runs_over) ≡ (
    is_none (resumed_bytes runs_over)
    || (not (within wanted.expected_size runs_over.polls)
        || (is_complete runs_over.last.status && not (proven sha wanted runs_over))))
transfer-evicted_example = transfer-evicted (Unit {0}) sha wanted runs_over

abbrev entry : Priority → State → ℕ → Entry
entry p s bytes = record {
  in_use = true;
  priority = p;
  state = s;
  queue_time_ms = 0;
  bytes_downloaded = bytes;
  bytes_total = none;
}

abbrev entries : List Entry
entries =
    entry background downloading 10
    ∷ entry background downloading 5
    ∷ entry background pending 0
    ∷ entry user pending 0
    ∷ []

next_pending-best_example :
    (b : ℕ) × (x : Entry) × (next_pending entries ≡ some b)
    × (get_elem? entries b ≡ some x)
    × (is_pending x ≡ true)
    × (outranks (entry background pending 0) x ≡ false)
next_pending-best_example = next_pending-best entries 2 (entry background pending 0) refl refl

preempt_for_user-best_example :
    (b : ℕ) × (x : Entry) × (preempt_for_user entries (0 ∷ 1 ∷ []) user false
      ≡ (modify entries b mark_preempted, some b))
    × (get_elem? entries b ≡ some x)
    × (can_yield x ≡ true)
    × (yields_before (entry background downloading 10) x ≡ false)
preempt_for_user-best_example =
    preempt_for_user-best entries (0 ∷ 1 ∷ []) 0 0 (entry background downloading 10) refl refl refl

queue-none_iff_example :
    ((queue spawned 3 (after busy) (request user)).1 ≡ none)
    ↔ (all_in_use (after busy).slots ≡ true)
queue-none_iff_example = queue-none_iff spawned 3 (after busy) (request user)

queued-third : (queue spawned 3 (after busy) (request user)).1 ≡ some 2
unfolding run step with_config queue drain process_show settle next_pending
queued-third = refl

queue-unheld_example :
    (s : Slot (Unit {0})) × (get_elem? (after busy).slots 2 ≡ some s)
    × (s.in_use ≡ false)
    × (is_active (after busy).active 2 ≡ false)
queue-unheld_example = queue-unheld sha 2 busy spawned 3 2 (request user) (omega arith) queued-third
