-- ===== src/Robomp/Events.antt =====
-- src/robomp/db.py: the table `events` of the bot, its queue of webhook deliveries.
-- A timestamp is a number of seconds; a payload is its JSON text.
pub mod Claims
pub mod Exclusive
use oh_my_robot.Prelude.{
  ℕ, ◌+◌, Text, text_eq, Bool, true, false, not, ◌&&◌, ◌||◌, Option, none, some, List, [], ◌∷◌,
  ◌++◌, leb, ltb, if◌then◌else◌, any, select, find, update, count_if, first_by,
}

pub data EventState : Type 0 where
  queued running done failed skipped : EventState

abbrev pub same_state : EventState → EventState → Bool
same_state queued queued = true
same_state running running = true
same_state done done = true
same_state failed failed = true
same_state skipped skipped = true
same_state _ _ = false

-- A row of the table.
pub record EventRow : Type 0 where
  pub delivery_id : Text
  pub event_type : Text
  pub repo : Option Text
  pub issue_key : Option Text
  pub payload : Text
  pub received_at : ℕ
  pub state : EventState
  pub attempts : ℕ
  pub last_error : Option Text
  pub started_at : Option ℕ
  pub finished_at : Option ℕ
  pub model : Option Text
  pub available_at : Option ℕ

-- The arguments that describe a delivery.
pub record Delivery : Type 0 where
  pub delivery_id : Text
  pub event_type : Text
  pub repo : Option Text
  pub issue_key : Option Text
  pub payload : Text

abbrev pub has_id : Text → EventRow → Bool
has_id id e = text_eq e.delivery_id id

abbrev pub is_running : EventRow → Bool
is_running e = same_state e.state running

-- `issue_key = key`, which does not hold of NULL.
abbrev pub on_key : Text → Option Text → Bool
on_key key none = false
on_key key (some k) = text_eq k key

abbrev pub running_on : Text → EventRow → Bool
running_on key e = is_running e && on_key key e.issue_key

abbrev pub new_row : ℕ → Delivery → EventState → Option Text → EventRow
new_row now d state error = record {
  delivery_id = d.delivery_id;
  event_type = d.event_type;
  repo = d.repo;
  issue_key = d.issue_key;
  payload = d.payload;
  received_at = now;
  state = state;
  attempts = 0;
  last_error = error;
  started_at = none;
  finished_at = none;
  model = none;
  available_at = none;
}

unfoldable pub record_event :
    ℕ → Delivery → EventState → Option Text → List EventRow → List EventRow × Bool
record_event now d state error rows =
    if any (has_id d.delivery_id) rows
    then (rows, false)
    else (rows ++ new_row now d state error ∷ [], true)

abbrev due_at : ℕ → Option ℕ → Bool
due_at now none = true
due_at now (some t) = leb t now

abbrev pub blocked : List EventRow → Option Text → Bool
blocked rows none = false
blocked rows (some key) = any (running_on key) rows

-- The WHERE clause of `claim_next_event`.
unfoldable pub claimable : ℕ → List EventRow → EventRow → Bool
claimable now rows e =
    same_state e.state queued && due_at now e.available_at && not (blocked rows e.issue_key)

abbrev pub received_before : EventRow → EventRow → Bool
received_before a b = leb a.received_at b.received_at

abbrev pub started : ℕ → EventRow → EventRow
started now e = record e { state = running; attempts = e.attempts + 1; started_at = some now }

unfoldable pub next_event : ℕ → List EventRow → Option EventRow
unfolding claimable
next_event now rows = first_by received_before (select (claimable now rows) rows)

unfoldable pub claim_row : ℕ → Option EventRow → List EventRow → List EventRow × Option EventRow
claim_row now none rows = (rows, none)
claim_row now (some c) rows = (
  update (has_id c.delivery_id) (started now) rows,
  some (record c { state = running; attempts = c.attempts + 1 }),
)

unfoldable pub claim_next_event : ℕ → List EventRow → List EventRow × Option EventRow
unfolding next_event claim_row
claim_next_event now rows = claim_row now (next_event now rows) rows

unfoldable pub mark_event : ℕ → Text → EventState → Option Text → List EventRow → List EventRow
mark_event now id state error =
    update (has_id id) (λ e. record e { state = state; last_error = error; finished_at = some now })

unfoldable pub set_event_model : Text → Text → List EventRow → List EventRow
set_event_model id model = update (has_id id) (λ e. record e { model = some model })

abbrev pub requeued : EventRow → EventRow
requeued e = record e { state = queued; available_at = none }

unfoldable pub reset_stuck_running : List EventRow → List EventRow × ℕ
reset_stuck_running rows = (update is_running requeued rows, count_if is_running rows)

unfoldable pub remove_event : Text → List EventRow → List EventRow
remove_event id = select (λ e. not (has_id id e))

abbrev pub state_in : List EventState → EventRow → Bool
state_in states e = any (same_state e.state) states

unfoldable pub replace_row :
    ℕ
    → Delivery
    → EventState
    → List EventState
    → Option EventRow
    → List EventRow
    → List EventRow × Bool
unfolding remove_event
replace_row now d state allowed none rows = (rows ++ new_row now d state none ∷ [], true)
replace_row now d state allowed (some e) rows =
    if state_in allowed e
    then (remove_event d.delivery_id rows ++ new_row now d state none ∷ [], true)
    else (rows, false)

unfoldable pub replace_event_if_state_in :
    ℕ → Delivery → EventState → List EventState → List EventRow → List EventRow × Bool
unfolding replace_row
replace_event_if_state_in now d state allowed rows =
    replace_row now d state allowed (find (has_id d.delivery_id) rows) rows

-- `from_states` absent is no test of the state.
abbrev pub from_state : Option (List EventState) → EventRow → Bool
from_state none e = true
from_state (some states) e = state_in states e

abbrev pub requeueable : Text → Option (List EventState) → EventRow → Bool
requeueable id from_states e = has_id id e && from_state from_states e

unfoldable pub requeue_event :
    Text → Option (List EventState) → List EventRow → List EventRow × Bool
requeue_event id from_states rows = (
  update (requeueable id from_states) requeued rows,
  ltb 0 (count_if (requeueable id from_states) rows),
)

abbrev pub retryable_row : Text → EventRow → Bool
retryable_row id e = has_id id e && (is_running e || same_state e.state failed)

-- `available_at` is the time of the call and the delay.
unfoldable pub schedule_retry : Text → ℕ → Option Text → List EventRow → List EventRow × Bool
schedule_retry id available_at error rows = (
  update (retryable_row id)
      (λ e. record e {
        state = queued;
        last_error = error;
        available_at = some available_at;
        finished_at = none;
      })
      rows,
  ltb 0 (count_if (retryable_row id) rows),
)
