-- ===== src/Queue/Examples/Turns.antt =====
-- Turns of the two workers, in which a user transfer preempts a background one.
use retrovert.Common.{
  ℕ, zero, suc, ◌==◌, Option, ◌≡◌, refl, Bool, true, false, not, ◌&&◌, ◌||◌, none, some, List, [],
  ◌∷◌, get_elem?, arith,
}
use retrovert.Queue.{background, user, State, pending, preempted, Failure, Slot, no_claim}
use retrovert.Queue.Policy.{any, is_user_work_outstanding, same_state, next_pending, is_pending}
use retrovert.Queue.Slots.{snapshot, snapshot_all}
use retrovert.Queue.Workers.{drain, finish, held_by, process_show}
use retrovert.Queue.Transport.{Status}
use retrovert.Queue.Transfer.{idle, World}
use retrovert.Queue.Session.{Event, queues, drains, shows, settles, is_idle, settle, step, run}
use retrovert.Queue.Calls.{with_config, queue, remove}
use retrovert.Queue.Laws.Twice.{WaitsAlone, drain-held_twice}
use retrovert.Queue.Laws.Retired.{RunsFor, drain-RunsFor}
use retrovert.Queue.Examples.{sha, wanted, request, spawned, handle, arrives, after, running_slot}

-- The user's request preempts the second, the first completes, and so does the user's.
abbrev preempting : List (Event (Unit {0}))
preempting =
    queues 0 (request background) spawned
    ∷ drains 0 spawned
    ∷ queues 1 (request background) spawned
    ∷ drains 1 spawned
    ∷ shows 0 handle
    ∷ shows 1 handle
    ∷ queues 2 (request user) spawned
    ∷ settles 0 arrives
    ∷ drains 0 spawned
    ∷ settles 0 arrives
    ∷ []

after-running : (after preempting).running ≡ true
unfolding run step with_config queue drain process_show settle next_pending
after-running = refl

second-holds : held_by (after preempting) 1 ≡ some 1
unfolding run step with_config queue drain process_show settle next_pending
second-holds = refl

first-idle : get_elem? (after preempting).active 0 ≡ some no_claim
unfolding run step with_config queue drain process_show settle next_pending
first-idle = refl

one_zero : ¬ (◌≡◌ {A = ℕ} 1 0)
one_zero e = omega (arith, e)

abbrev waits : Slot (Unit {0}) → Bool
waits t = t.in_use && (same_state t.state pending || same_state t.state preempted)

abbrev all_rest : List (Slot (Unit {0})) → Bool
all_rest [] = true
all_rest (t ∷ ts) = not (waits t) && all_rest ts

-- None but the one at the index waits.
abbrev others_rest : ℕ → List (Slot (Unit {0})) → Bool
others_rest k [] = true
others_rest zero (t ∷ ts) = all_rest ts
others_rest (suc k) (t ∷ ts) = not (waits t) && others_rest k ts

all_rest-get :
    (ts : List (Slot (Unit {0}))) (j : ℕ) (t : Slot (Unit {0}))
    → all_rest ts ≡ true
    → get_elem? ts j ≡ some t
    → waits t ≡ false
all_rest-get [] j t h at = absurd (ground arith)
all_rest-get (x ∷ ts) zero t h at = ground arith
all_rest-get (x ∷ ts) (suc j) t h at = all_rest-get ts j t (ground arith) at

others_rest-get :
    (ts : List (Slot (Unit {0}))) (k j : ℕ) (t : Slot (Unit {0}))
    → others_rest k ts ≡ true
    → get_elem? ts j ≡ some t
    → (j == k) ≡ false
    → waits t ≡ false
others_rest-get [] k j t h at ne = absurd (ground arith)
others_rest-get (x ∷ ts) zero zero t h at ne = absurd (ground arith)
others_rest-get (x ∷ ts) zero (suc j) t h at ne = all_rest-get ts j t h at
others_rest-get (x ∷ ts) (suc k) zero t h at ne = ground arith
others_rest-get (x ∷ ts) (suc k) (suc j) t h at ne =
    others_rest-get ts k j t (ground arith) at (ground arith)

abbrev asleep : Slot (Unit {0})
asleep = record {
  in_use = true;
  priority = background;
  state = preempted;
  cancel_requested = false;
  pause_requested = true;
  queue_time_ms = 1;
  bytes_downloaded = 0;
  bytes_total = none;
  request = some wanted;
  path = none;
  failure = none;
}

second-preempted : get_elem? (after preempting).slots 1 ≡ some asleep
unfolding run step with_config queue drain process_show settle next_pending
second-preempted = refl

no_user_work : any is_user_work_outstanding (snapshot_all (after preempting).slots) ≡ false
unfolding run step with_config queue drain process_show settle next_pending is_user_work_outstanding
no_user_work = refl

others-rest : others_rest 1 (after preempting).slots ≡ true
unfolding run step with_config queue drain process_show settle next_pending
others-rest = refl

second-WaitsAlone : WaitsAlone (after preempting) 1 asleep
second-WaitsAlone = record {
  found = second-preempted;
  used = refl;
  asleep = refl;
  calm = no_user_work;
  alone = λ j t. others_rest-get (after preempting).slots 1 j t others-rest;
}

drain-held_twice_example :
    ((drain spawned (after preempting) 0).1 ≡ some 1)
    × (held_by (drain spawned (after preempting) 0).0 1 ≡ some 1)
    × (held_by (drain spawned (after preempting) 0).0 0 ≡ some 1)
    × ((digest : Option (List ℕ)) (state : State) (failure : Option (Failure (Unit {0})))
        → (remove (finish (drain spawned (after preempting) 0).0 1 1 digest state failure) 1).1
          ≡ false)
drain-held_twice_example =
    drain-held_twice spawned (after preempting) 1 0 1 no_claim asleep after-running one_zero
      second-holds first-idle second-WaitsAlone

-- The transfer stops at its request.
abbrev yields_now : World (Unit {0})
yields_now = record arrives {
  polls = record { chunk = idle; downloaded = 0 } ∷ [];
  last = record arrives.last { downloaded = 0; status = Status.paused };
}

-- The second yields and has settled, its worker runs the user's request, and the first is done.
abbrev yielding : List (Event (Unit {0}))
yielding =
    queues 0 (request background) spawned
    ∷ drains 0 spawned
    ∷ queues 1 (request background) spawned
    ∷ drains 1 spawned
    ∷ shows 0 handle
    ∷ shows 1 handle
    ∷ queues 2 (request user) spawned
    ∷ settles 1 yields_now
    ∷ drains 1 spawned
    ∷ settles 0 arrives
    ∷ []

abbrev yielded_slot : Slot (Unit {0})
yielded_slot = record running_slot { state = preempted; queue_time_ms = 1 }

yielding-retires : (drain spawned (after yielding) 0).1 ≡ none
unfolding run step with_config queue drain process_show settle next_pending
yielding-retires = refl

yielding-running : (after yielding).running ≡ true
unfolding run step with_config queue drain process_show settle next_pending
yielding-running = refl

yielding-idle : is_idle (after yielding) 0 ≡ true
unfolding run step with_config queue drain process_show settle next_pending
yielding-idle = refl

yielding-second : get_elem? (drain spawned (after yielding) 0).0.slots 1 ≡ some yielded_slot
unfolding run step with_config queue drain process_show settle next_pending
yielding-second = refl

drain-RunsFor_example :
    (is_pending (snapshot yielded_slot) ≡ false)
    × ((yielded_slot.in_use && same_state yielded_slot.state preempted) ≡ true
        → (j : ℕ) × RunsFor (drain spawned (after yielding) 0).0 0 j)
drain-RunsFor_example =
    drain-RunsFor sha 2 yielding spawned 0 1 yielded_slot yielding-running yielding-idle
      yielding-retires yielding-second
