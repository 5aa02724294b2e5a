-- ===== src/Queue/Policy.antt =====
-- crates/updater/src/queue/entry.rs: the scheduling policy over snapshots of the slots.
use retrovert.Common.{
  ℕ, suc, Bool, true, false, not, ◌&&◌, ◌||◌, Option, none, some, List, [], ◌∷◌, map, ltb, ◌==◌,
  if◌then◌else◌, get_elem?, modify,
}
use retrovert.Queue.{
  Priority, background, user, State, pending, downloading, paused, preempted, complete, failed,
  cancelled, Entry,
}

-- The stored form of a priority, which is also its rank.
abbrev pub rank : Priority → ℕ
rank background = 0
rank user = 1

unfoldable pub of_rank : ℕ → Priority
of_rank n = if n == 1 then user else background

abbrev pub code : State → ℕ
code pending = 0
code downloading = 1
code paused = 2
code preempted = 3
code complete = 4
code failed = 5
code cancelled = 6

unfoldable pub from_code : ℕ → State
from_code n =
    if n == 1
    then downloading
    else if n == 2
    then paused
    else if n == 3
    then preempted
    else if n == 4
    then complete
    else if n == 5
    then failed
    else if n == 6
    then cancelled
    else pending

abbrev pub same_state : State → State → Bool
same_state a b = code a == code b

abbrev pub is_user : Priority → Bool
is_user p = rank p == rank user

-- An in-use entry that is still pending.
abbrev pub is_pending : Entry → Bool
is_pending e = e.in_use && same_state e.state pending

-- `Iterator::any`
abbrev pub any : {A : Type 0} → (A → Bool) → List A → Bool
any q [] = false
any q (x ∷ xs) = q x || any q xs

unfoldable pub has_user_pending : List Entry → Bool
has_user_pending es = any (λ e. e.in_use && (is_user e.priority && same_state e.state pending)) es

-- `Iterator::enumerate`, counting from a number.
abbrev pub enumerate : ℕ → List Entry → List (ℕ × Entry)
enumerate n [] = []
enumerate n (e ∷ es) = (n, e) ∷ enumerate (suc n) es

-- Whether a candidate is to replace the best index so far.
abbrev pub takes : (Entry → Entry → Bool) → List Entry → Option ℕ → Entry → Bool
takes better entries none e = true
takes better entries (some b) e = elim (get_elem? entries b) [ none ↦ true | some x ↦ better e x ]

-- The loop over candidates that skips those which are not `eligible` and keeps the best index.
unfoldable pub best_of :
    (Entry → Bool) → (Entry → Entry → Bool) → List Entry → Option ℕ → List (ℕ × Entry) → Option ℕ
best_of eligible better entries best [] = best
best_of eligible better entries best ((i, e) ∷ cs) =
    best_of eligible better entries
      (if eligible e && takes better entries best e then some i else best) cs

-- Higher priority, or the same and queued earlier.
abbrev pub outranks : Entry → Entry → Bool
outranks e b =
    ltb (rank b.priority) (rank e.priority)
    || (rank e.priority == rank b.priority && ltb e.queue_time_ms b.queue_time_ms)

unfoldable pub next_pending : List Entry → Option ℕ
unfolding best_of
next_pending es = best_of is_pending outranks es none (enumerate 0 es)

unfoldable pub cancel : Entry → Bool → Entry × Bool
cancel e is_active = elim e.state [
  | downloading ↦ (e, is_active)
  | preempted ↦ if is_active then (e, true) else (record e { state = cancelled }, true)
  | pending ↦ (record e { state = cancelled }, true)
  | paused ↦ (record e { state = cancelled }, true)
  | complete ↦ (e, false)
  | failed ↦ (e, false)
  | cancelled ↦ (e, false)
]

unfoldable pub pause : Entry → Bool → Bool
pause e is_active = same_state e.state downloading && is_active

unfoldable pub resume : Entry → Entry × Bool
resume e = if same_state e.state paused then (record e { state = pending }, true) else (e, false)

unfoldable pub remove : Entry → Bool → Entry × Bool
remove e is_active =
    if is_active || same_state e.state downloading
    then (e, false)
    else (record e { in_use = false }, true)

-- An in-use background transfer that is running.
abbrev pub can_yield : Entry → Bool
can_yield e = e.in_use && (same_state e.state downloading && not (is_user e.priority))

-- Fewer bytes on disk, or as many and queued later.
abbrev pub yields_before : Entry → Entry → Bool
yields_before e b =
    ltb e.bytes_downloaded b.bytes_downloaded
    || (e.bytes_downloaded == b.bytes_downloaded && ltb b.queue_time_ms e.queue_time_ms)

-- The entries at the indices that are within bounds.
abbrev pub held_entries : List Entry → List ℕ → List (ℕ × Entry)
held_entries es [] = []
held_entries es (i ∷ is) =
    let rest = held_entries es is in elim (get_elem? es i) [ none ↦ rest | some e ↦ (i, e) ∷ rest ]

abbrev pub mark_preempted : Entry → Entry
mark_preempted e = record e { state = preempted }

unfoldable pub preempt_for_user : List Entry → List ℕ → Priority → Bool → List Entry × Option ℕ
unfolding best_of
preempt_for_user es active queued_priority idle_worker =
    if not (is_user queued_priority) || idle_worker
    then (es, none)
    else elim (best_of can_yield yields_before es none (held_entries es active)) [
      | none ↦ (es, none)
      | some i ↦ (modify es i mark_preempted, some i)
    ]

unfoldable pub is_user_work_outstanding : Entry → Bool
is_user_work_outstanding e =
    e.in_use
    && (is_user e.priority && (same_state e.state pending || same_state e.state downloading))

-- What the sweep makes of one entry.
abbrev pub resumed : Entry → Entry
resumed e = if e.in_use && same_state e.state preempted then record e { state = pending } else e

unfoldable pub auto_resume_preempted : List Entry → List Entry
unfolding is_user_work_outstanding
auto_resume_preempted es = if any is_user_work_outstanding es then es else map resumed es
