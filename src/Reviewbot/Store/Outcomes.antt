-- ===== src/Reviewbot/Store/Outcomes.antt =====
-- src/reviewbot/storage.py: what becomes of a claimed event: the methods that end it or put it
-- back, and the recovery of `initialize`.
use oh_my_robot.Prelude.{
  ℕ, ◌+◌, ◌/◌, min, Text, Bool, true, false, Option, none, some, ◌==◌, count_if, update,
}
use oh_my_robot.Prelude.Int.{ℤ, pos_part}
use oh_my_robot.Reviewbot.Models.{
  EventState, queued, succeeded, failed, skipped, superseded, EventRecord, is_running,
}
use oh_my_robot.Reviewbot.Store.{Store}
use oh_my_robot.Reviewbot.Store.Queue.{has_id, running_id}

abbrev pub with_state : ℕ → EventState → Option Text → EventRecord → EventRecord
with_state now state error e = record e {
  state = state;
  last_error = error;
  error_type = none;
  finished_at = some now;
  updated_at = now;
}

unfoldable pub set_event_state : ℕ → Text → EventState → Option Text → Store → Store
set_event_state now delivery_id state error s = record s {
  events = update (has_id delivery_id) (with_state now state error) s.events;
}

unfoldable pub mark_succeeded : ℕ → Text → Store → Store
unfolding set_event_state
mark_succeeded now delivery_id = set_event_state now delivery_id succeeded none

unfoldable pub mark_skipped : ℕ → Text → Text → Store → Store
unfolding set_event_state
mark_skipped now delivery_id reason = set_event_state now delivery_id skipped (some reason)

unfoldable pub mark_superseded : ℕ → Text → Text → Store → Store
unfolding set_event_state
mark_superseded now delivery_id reason = set_event_state now delivery_id superseded (some reason)

-- The row that goes back to the queue, to be claimed from `available_at` on.
abbrev pub requeued : ℕ → ℕ → Text → Option Text → EventRecord → EventRecord
requeued now available_at error error_type e = record e {
  state = queued;
  last_error = some error;
  error_type = error_type;
  available_at = available_at;
  started_at = none;
  finished_at = none;
  updated_at = now;
}

abbrev pub ended_failed : ℕ → Text → Option Text → EventRecord → EventRecord
ended_failed now error error_type e = record e {
  state = failed;
  last_error = some error;
  error_type = error_type;
  finished_at = some now;
  updated_at = now;
}

-- datetime(CURRENT_TIMESTAMP, '+delay seconds'), the delay held between 0 and an hour. The
-- argument is in milliseconds, and the time that SQLite writes has whole seconds.
unfoldable pub retry_time : ℕ → Option ℤ → ℕ
retry_time now none = now
retry_time now (some retry_after) = now + min (pos_part retry_after) 3600000 / 1000

unfoldable pub failed_row : ℕ → Text → Bool → Option ℤ → Option Text → EventRecord → EventRecord
unfolding retry_time
failed_row now error true retry_after error_type =
    requeued now (retry_time now retry_after) error error_type
failed_row now error false retry_after error_type = ended_failed now error error_type

unfoldable pub mark_failed : ℕ → Text → Text → Bool → Option ℤ → Option Text → Store → Store
unfolding failed_row
mark_failed now delivery_id error retry retry_after error_type s = record s {
  events = update (has_id delivery_id) (failed_row now error retry retry_after error_type) s.events;
}

unfoldable pub requeue_if_running : ℕ → Text → Text → Text → Store → Store × Bool
requeue_if_running now delivery_id error error_type s = (
  record s {
    events = update (running_id delivery_id) (requeued now now error (some error_type)) s.events;
  },
  count_if (running_id delivery_id) s.events == 1,
)

abbrev pub recovered : ℕ → EventRecord → EventRecord
recovered now e = record e {
  state = queued;
  available_at = now;
  started_at = none;
  updated_at = now;
}

-- `initialize` on a database whose schema is up to date.
unfoldable pub initialize : ℕ → Store → Store
initialize now s = record s { events = update (λ e. is_running e.state) (recovered now) s.events }
