-- ===== src/Reviewbot/Store/Lifecycle.antt =====
-- src/reviewbot/storage.py: what the methods that end, retry, recover or supersede an event do.
use oh_my_robot.Prelude.{
  ℕ, ◌+◌, ◌≤◌, Text, text_eq_refl, true, false, Option, none, some, List, [], ◌∷◌, ◌≡◌, refl, ap,
  ◌∙◌, arith, Bool-cases, any-append, In, update, inl, inr,
}
use oh_my_robot.Prelude.Int.{ℤ}
use oh_my_robot.Reviewbot.Models.{EventRecord, EventSource, ReviewJob, queued, running, is_running}
use oh_my_robot.Reviewbot.Store.{Store}
use oh_my_robot.Reviewbot.Store.Queue.{has_id, insert_event, enqueue, new_event}
use oh_my_robot.Reviewbot.Store.Queue.Due.{IsDue, SamePr, is_running-true}
use oh_my_robot.Reviewbot.Store.Outcomes.{
  mark_failed, failed_row, retry_time, initialize, recovered,
}

-- Enqueueing a delivery id again, at any time and with any source, reports a duplicate and
-- changes nothing.
pub enqueue_twice :
    (now now' : ℕ) (job job' : ReviewJob) (source source' : EventSource) (from from' : Option Text)
    (s : Store)
    → job'.delivery_id ≡ job.delivery_id
    → enqueue now' job' source' from' (enqueue now job source from s).0
      ≡ ((enqueue now job source from s).0, false)
unfolding enqueue insert_event
enqueue_twice now now' job job' source source' from from' s same = ground (
  arith,
  any-append (has_id job.delivery_id) s.events (new_event now job source from ∷ []),
  text_eq_refl job.delivery_id,
)

In-update_idle :
    (now : ℕ) (events : List EventRecord) (r : EventRecord)
    → In r (update (λ e. is_running e.state) (recovered now) events)
    → is_running r.state ≡ false
In-update_idle now [] r i = elim i [ ]
In-update_idle now (x ∷ events) r (inl q) = rw q (ground arith)
In-update_idle now (x ∷ events) r (inr i) = In-update_idle now events r i

In-recovered :
    (now : ℕ) (events : List EventRecord) (e : EventRecord)
    → In e events
    → e.state ≡ running
    → In (recovered now e) (update (λ x. is_running x.state) (recovered now) events)
In-recovered now [] e i h = i
In-recovered now (x ∷ events) e (inl q) h = inl (ground arith)
In-recovered now (x ∷ events) e (inr i) h = inr (In-recovered now events e i h)

In-others :
    (now : ℕ) (events : List EventRecord) (e : EventRecord)
    → In e events
    → ¬ (e.state ≡ running)
    → In e (update (λ x. is_running x.state) (recovered now) events)
In-others now [] e i h = i
In-others now (x ∷ events) e (inl q) h = elim (Bool-cases (is_running x.state)) [
  | inl t ↦ absurd (h (ap (λ r. r.state) q ∙ is_running-true x.state t))
  | inr f ↦ rw f (inl q)
]
In-others now (x ∷ events) e (inr i) h = inr (In-others now events e i h)

-- The events after a restart, those before it being given.
pub record IsRestarted (now : ℕ) (before after : List EventRecord) : Type 0 where
  pub quiet : (r : EventRecord) → In r after → ¬ (r.state ≡ running)
  pub requeued :
      (e : EventRecord)
      → In e before
      → e.state ≡ running
      → (r : EventRecord) × In r after
        × (r.delivery_id ≡ e.delivery_id)
        × SamePr r e
        × (r.webhook_head_sha ≡ e.webhook_head_sha)
        × (r.attempts ≡ e.attempts)
        × IsDue now after r
  pub kept : (e : EventRecord) → In e before → ¬ (e.state ≡ running) → In e after

-- After `initialize` no event is running; each that was running before is there again under its
-- delivery id, for the same Pull Request and head and with the attempts that it had, and is due at
-- once; and the events that were not running are kept as they were.
pub initialize-recovers : (now : ℕ) (s : Store) → IsRestarted now s.events (initialize now s).events
unfolding initialize
initialize-recovers now s = record {
  quiet = λ r i h. ground (arith, In-update_idle now s.events r i);
  requeued = λ e i h. (
    recovered now e,
    In-recovered now s.events e i h,
    refl,
    (refl, refl),
    refl,
    refl,
    record {
      waiting = refl;
      due = omega arith;
      idle = λ r ir st same. ground (arith, In-update_idle now s.events r ir);
    },
  );
  kept = λ e i h. In-others now s.events e i h;
}

retry_time-bounds :
    (now : ℕ) (after : Option ℤ)
    → (now ≤ retry_time now after) × (retry_time now after ≤ now + 3600)
unfolding retry_time
retry_time-bounds now none = omega arith
retry_time-bounds now (some z) = omega arith

In-failed :
    (now : ℕ) (id error : Text) (after : Option ℤ) (kind : Option Text) (events : List EventRecord)
    (e : EventRecord)
    → In e events
    → e.delivery_id ≡ id
    → In
        (failed_row now error true after kind e)
        (update (has_id id) (failed_row now error true after kind) events)
In-failed now id error after kind [] e i h = i
In-failed now id error after kind (x ∷ events) e (inl q) h =
    let t : has_id id x ≡ true = rw (← q, h) (text_eq_refl id) in inl (rw (t, q) refl)
In-failed now id error after kind (x ∷ events) e (inr i) h =
    inr (In-failed now id error after kind events e i h)

-- A failure that is to be retried puts the event back into the queue with its attempts and its
-- error, to become available within an hour, whatever delay was asked for.
pub mark_failed-retries :
    (now : ℕ) (id error : Text) (after : Option ℤ) (kind : Option Text) (s : Store)
    (e : EventRecord)
    → In e s.events
    → e.delivery_id ≡ id
    → (r : EventRecord) × In r (mark_failed now id error true after kind s).events
      × (r.delivery_id ≡ id)
      × (r.state ≡ queued)
      × (r.attempts ≡ e.attempts)
      × (r.last_error ≡ some error)
      × (now ≤ r.available_at)
      × (r.available_at ≤ now + 3600)
unfolding mark_failed failed_row
mark_failed-retries now id error after kind s e i h = (
  failed_row now error true after kind e,
  In-failed now id error after kind s.events e i h,
  h,
  refl,
  refl,
  refl,
  (retry_time-bounds now after).0,
  (retry_time-bounds now after).1,
)
