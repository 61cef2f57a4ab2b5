-- ===== src/Reviewbot/Store/Queue.antt =====
-- src/reviewbot/storage.py: the event queue of `QueueStore`. `now` is CURRENT_TIMESTAMP; every
-- method is one transaction, and an exception rolls it back.
pub mod Claim
pub mod Due
pub mod Serve
use oh_my_robot.Prelude.{
  ℕ, ◌+◌, Text, text_eq, text_leb, lower, Bool, true, false, not, ◌&&◌, ◌||◌, Option, none, some,
  List, [], ◌∷◌, ◌++◌, ltb, leb, ◌==◌, if◌then◌else◌, any, select, find, count_if, update, first_by,
}
use oh_my_robot.Reviewbot.Models.{
  queued, running, superseded, EventSource, refresh, EventRecord, ReviewRecord, ReviewJob,
  is_queued, is_running,
}
use oh_my_robot.Reviewbot.Store.{Store}

abbrev pub has_id : Text → EventRecord → Bool
has_id id e = text_eq e.delivery_id id

-- The row that `_insert_event` writes, with the defaults of the schema.
abbrev pub new_event : ℕ → ReviewJob → EventSource → Option Text → EventRecord
new_event now job source source_delivery_id = record {
  delivery_id = job.delivery_id;
  event_type = job.event_type;
  action = job.action;
  repository = lower job.repository;
  pull_request_number = job.pull_request_number;
  webhook_head_sha = job.webhook_head_sha;
  state = queued;
  attempts = 0;
  last_error = none;
  error_type = none;
  source = source;
  source_delivery_id = source_delivery_id;
  available_at = now;
  started_at = none;
  finished_at = none;
  created_at = now;
  updated_at = now;
}

-- INSERT OR IGNORE: nothing is written if the delivery id is there. The test that the source is
-- one of the four is the type.
unfoldable pub insert_event : ℕ → ReviewJob → EventSource → Option Text → Store → Store × Bool
insert_event now job source source_delivery_id s =
    if any (has_id job.delivery_id) s.events
    then (s, false)
    else (record s { events = s.events ++ new_event now job source source_delivery_id ∷ [] }, true)

unfoldable pub enqueue : ℕ → ReviewJob → EventSource → Option Text → Store → Store × Bool
unfolding insert_event
enqueue = insert_event

unfoldable pub reviewed_at : Text → ℕ → Text → ReviewRecord → Bool
reviewed_at repository number head_sha r =
    text_eq r.repository repository
    && r.pull_request_number == number
    && text_eq r.head_sha head_sha

unfoldable pub has_review : Text → ℕ → Text → Store → Bool
unfolding reviewed_at
has_review repository number head_sha s =
    any (reviewed_at (lower repository) number head_sha) s.reviews

-- The UPDATE that turns a finished event into a fresh refresh of the same delivery id.
abbrev pub refreshed : ℕ → ReviewJob → Text → EventRecord → EventRecord
refreshed now job source_delivery_id e = record e {
  event_type = job.event_type;
  action = job.action;
  repository = lower job.repository;
  pull_request_number = job.pull_request_number;
  webhook_head_sha = job.webhook_head_sha;
  state = queued;
  attempts = 0;
  last_error = none;
  source = refresh;
  source_delivery_id = some source_delivery_id;
  available_at = now;
  started_at = none;
  finished_at = none;
  updated_at = now;
}

-- The tests of `_enqueue_refresh_event` on the row that is there.
unfoldable pub refresh_existing : ℕ → ReviewJob → Text → Option EventRecord → Store → Store × Bool
unfolding insert_event
refresh_existing now job source_delivery_id none s =
    insert_event now job refresh (some source_delivery_id) s
refresh_existing now job source_delivery_id (some e) s =
    if is_queued e.state || is_running e.state then (s, false) else (
      record s {
        events = update (has_id job.delivery_id) (refreshed now job source_delivery_id) s.events;
      },
      true,
    )

unfoldable pub enqueue_refresh_event : ℕ → ReviewJob → Text → Store → Store × Bool
unfolding refresh_existing has_review
enqueue_refresh_event now job source_delivery_id s =
    if has_review job.repository job.pull_request_number job.webhook_head_sha s
    then (s, false)
    else refresh_existing now job source_delivery_id (find (has_id job.delivery_id) s.events) s

abbrev pub running_id : Text → EventRecord → Bool
running_id id e = has_id id e && is_running e.state

abbrev pub supersede : ℕ → Text → EventRecord → EventRecord
supersede now reason e = record e {
  state = superseded;
  last_error = some reason;
  finished_at = some now;
  updated_at = now;
}

-- `none` is the RuntimeError, after which the transaction is rolled back.
unfoldable pub supersede_and_enqueue : ℕ → Text → Text → ReviewJob → Store → Option (Store × Bool)
unfolding enqueue_refresh_event
supersede_and_enqueue now delivery_id reason job s =
    if count_if (running_id delivery_id) s.events == 1
    then some (
        enqueue_refresh_event now job delivery_id
          (record s { events = update (running_id delivery_id) (supersede now reason) s.events }))
    else none

abbrev pub same_pr : EventRecord → EventRecord → Bool
same_pr a b = text_eq a.repository b.repository && a.pull_request_number == b.pull_request_number

-- The WHERE clause of `claim_next`.
unfoldable pub claimable : ℕ → List EventRecord → EventRecord → Bool
claimable now events e =
    is_queued e.state
    && leb e.available_at now
    && not (any (λ r. is_running r.state && same_pr r e) events)

-- ORDER BY available_at, created_at, delivery_id.
unfoldable pub claim_order : EventRecord → EventRecord → Bool
claim_order a b =
    if a.available_at == b.available_at
    then (if a.created_at == b.created_at
        then text_leb a.delivery_id b.delivery_id
        else ltb a.created_at b.created_at)
    else ltb a.available_at b.available_at

abbrev pub started : ℕ → ℕ → EventRecord → EventRecord
started now attempts e = record e {
  state = running;
  attempts = attempts;
  started_at = some now;
  finished_at = none;
  updated_at = now;
}

abbrev pub job_of : EventRecord → ReviewJob
job_of e = record {
  delivery_id = e.delivery_id;
  event_type = e.event_type;
  action = e.action;
  repository = e.repository;
  pull_request_number = e.pull_request_number;
  webhook_head_sha = e.webhook_head_sha;
}

abbrev pub queued_id : Text → EventRecord → Bool
queued_id id e = has_id id e && is_queued e.state

unfoldable pub claim_row : ℕ → Option EventRecord → Store → Store × Option (ReviewJob × ℕ)
claim_row now none s = (s, none)
claim_row now (some c) s = (
  record s { events = update (queued_id c.delivery_id) (started now (c.attempts + 1)) s.events },
  some (job_of c, c.attempts + 1),
)

unfoldable pub next_claim : ℕ → List EventRecord → Option EventRecord
unfolding claimable claim_order
next_claim now events = first_by claim_order (select (claimable now events) events)

unfoldable pub claim_next : ℕ → Store → Store × Option (ReviewJob × ℕ)
unfolding next_claim claim_row
claim_next now s = claim_row now (next_claim now s.events) s
