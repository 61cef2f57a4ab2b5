-- ===== src/Robomp/Pool.antt =====
-- src/robomp/queue.py: the worker pool, over the table of events and the slots. The hooks that stop a
-- running agent are the delivery ids they are armed for; `fired` is the history of their calls.
pub mod Cancel
pub mod Exclusive
pub mod Outcome
use oh_my_robot.Prelude.{
  ℕ, zero, suc, ◌+◌, ◌-◌, ◌*◌, ◌/◌, min, max, Text, codes, text_eq, Bool, true, false, not, ◌&&◌,
  ◌||◌, Option, none, some, List, [], ◌∷◌, ◌++◌, leb, ltb, if◌then◌else◌, any, select, find, length,
}
use oh_my_robot.Robomp.Events.{
  EventRow, EventState, running, done, failed, has_id, claim_next_event, mark_event, requeue_event,
  reset_stuck_running, schedule_retry,
}
use oh_my_robot.Robomp.Slots.{SlotPool, release}

pub record PoolSettings : Type 0 where
  pub event_max_retries : ℕ
  pub event_retry_delays : List ℕ

pub record Pool : Type 0 where
  pub events : List EventRow
  pub slots : Option SlotPool
  pub inflight : List Text
  pub cancel_hooks : List Text
  pub cancelled : List Text
  pub shutdown_cancelled : List Text
  pub fired : List Text

abbrev pub is_id : Text → Text → Bool
is_id id x = text_eq x id

-- Sets and dictionaries of texts: `add`, `discard` or `pop`, and `in`.
abbrev pub holds : Text → List Text → Bool
holds id ids = any (is_id id) ids

abbrev pub discard : Text → List Text → List Text
discard id ids = select (λ x. not (text_eq x id)) ids

abbrev pub add : Text → List Text → List Text
add id ids = if holds id ids then ids else id ∷ ids

-- `row.issue_key or row.delivery_id`
abbrev key_or : Text → Option Text → Text
key_or id none = id
key_or id (some []) = id
key_or id (some (c ∷ key)) = c ∷ key

abbrev pub inflight_key : EventRow → Text
inflight_key row = key_or row.delivery_id row.issue_key

unfoldable pub admit : EventRow → Pool → Pool × Option EventRow
unfolding requeue_event
admit row p =
    if holds (inflight_key row) p.inflight
    then (
      record p { events = (requeue_event row.delivery_id (some (running ∷ [])) p.events).0 },
      none,
    )
    else (record p { inflight = inflight_key row ∷ p.inflight }, some row)

abbrev admitted : Pool → List EventRow × Option EventRow → Pool × Option EventRow
admitted p (events, none) = (record p { events = events }, none)
admitted p (events, some row) = admit row (record p { events = events })

-- `_claim_next_unique`
unfoldable pub claim_next_unique : ℕ → Pool → Pool × Option EventRow
unfolding claim_next_event admit
claim_next_unique now p = admitted p (claim_next_event now p.events)

-- `_release`
unfoldable pub release_key : EventRow → Pool → Pool
release_key row p = record p { inflight = discard (inflight_key row) p.inflight }

unfoldable pub arm_cancel : Text → Pool → Pool
arm_cancel id p =
    if holds id p.cancelled
    then record p { fired = id ∷ p.fired }
    else record p { cancel_hooks = add id p.cancel_hooks }

unfoldable pub disarm_cancel : Text → Pool → Pool
disarm_cancel id p = record p { cancel_hooks = discard id p.cancel_hooks }

-- The hook of an id, if it is armed, is taken out and called.
unfoldable pub fire : Text → Pool → Pool × Bool
fire id p =
    if holds id p.cancel_hooks
    then (record p { cancel_hooks = discard id p.cancel_hooks; fired = id ∷ p.fired }, true)
    else (p, false)

unfoldable pub cancel_event : Text → Pool → Pool × Bool
unfolding fire
cancel_event id p = fire id (record p { cancelled = add id p.cancelled })

-- What `stop` does with a task that is still running; without a hook the task is cancelled.
unfoldable pub interrupt : Text → Pool → Pool × Bool
unfolding fire
interrupt id p = fire id (record p { shutdown_cancelled = add id p.shutdown_cancelled })

-- `retry_delay_seconds`, with the random factor in thousandths; `none` is the IndexError of no delays.
abbrev pub nth : ℕ → List ℕ → Option ℕ
nth n [] = none
nth zero (x ∷ xs) = some x
nth (suc n) (x ∷ xs) = nth n xs

abbrev jittered : ℕ → Option ℕ → Option ℕ
jittered factor none = none
jittered factor (some delay) = some (delay * factor / 1000)

unfoldable pub retry_delay_seconds : List ℕ → ℕ → ℕ → Option ℕ
retry_delay_seconds delays factor retry_index =
    jittered factor (nth (min (max retry_index 1) (length delays) - 1) delays)

-- How the awaited dispatch of an event ends: it returns, raises an Exception with this text, or its
-- task is cancelled.
pub data Ending : Type 0 where
  returned : Ending
  raised : Text → Ending
  task_cancelled : Ending

abbrev pub by_operator : Text
by_operator = codes "cancelled by operator"

-- The `else` branch of the handler; an IndexError leaves the row.
abbrev retried : ℕ → Text → Text → List EventRow → List EventRow × Bool → List EventRow
retried now id err rows (after, true) = after
retried now id err rows (after, false) = mark_event now id failed (some err) rows

abbrev retry_or_fail : PoolSettings → ℕ → EventRow → Text → Option ℕ → List EventRow → List EventRow
retry_or_fail s now row err none rows = rows
retry_or_fail s now row err (some delay) rows =
    if ltb 0 row.attempts && leb row.attempts s.event_max_retries
    then retried now row.delivery_id err rows
        (schedule_retry row.delivery_id (now + delay) (some err) rows)
    else mark_event now row.delivery_id failed (some err) rows

-- `_dispatch_and_mark` after the dispatch, and the handler of its exceptions, on the table.
unfoldable pub write_ending : PoolSettings → ℕ → ℕ → EventRow → Ending → Pool → List EventRow
unfolding mark_event schedule_retry retry_delay_seconds
write_ending s now factor row returned p =
    if holds row.delivery_id p.cancelled
    then mark_event now row.delivery_id failed (some by_operator) p.events
    else mark_event now row.delivery_id done none p.events
write_ending s now factor row (raised err) p =
    if holds row.delivery_id p.shutdown_cancelled
    then p.events
    else if holds row.delivery_id p.cancelled
    then mark_event now row.delivery_id failed (some by_operator) p.events
    else retry_or_fail s now row err (retry_delay_seconds s.event_retry_delays factor row.attempts)
        p.events
write_ending s now factor row task_cancelled p = p.events

abbrev put_slot : Option ℕ → Option SlotPool → Option (Option SlotPool)
put_slot uid none = some none
put_slot uid (some slots) = kept (release uid slots)
  where
    kept : Option SlotPool → Option (Option SlotPool)
    kept none = none
    kept (some after) = some (some after)

abbrev released : EventRow → Pool → Option (Option SlotPool) → Pool
released row p none = p
released row p (some slots) = release_key row (record p { slots = slots })

-- The `finally` block; a slot that cannot be put back raises before the key is released. The slot is
-- the one that was acquired, or `none` when the task ended before.
abbrev slot_back : Option (Option ℕ) → Option SlotPool → Option (Option SlotPool)
slot_back none slots = some slots
slot_back (some uid) slots = put_slot uid slots

unfoldable pub finish_event : EventRow → Option (Option ℕ) → Pool → Pool
unfolding release_key release
finish_event row slot p =
    let id = row.delivery_id in
    released row
      (record p {
        cancelled = discard id p.cancelled;
        shutdown_cancelled = discard id p.shutdown_cancelled;
        cancel_hooks = discard id p.cancel_hooks;
      })
      (slot_back slot p.slots)

-- `_run_event` from the end of the dispatch on.
unfoldable pub end_event :
    PoolSettings → ℕ → ℕ → EventRow → Option (Option ℕ) → Ending → Pool → Pool
unfolding write_ending finish_event
end_event s now factor row slot ending p =
    finish_event row slot (record p { events = write_ending s now factor row ending p })

-- The recovery of `start`.
unfoldable pub recover : Pool → Pool × ℕ
unfolding reset_stuck_running
recover p = let (events, n) = reset_stuck_running p.events in (record p { events = events }, n)
