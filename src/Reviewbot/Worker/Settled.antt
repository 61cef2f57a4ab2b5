-- ===== src/Reviewbot/Worker/Settled.antt =====
-- src/reviewbot/worker.py: what a task leaves behind of its event.
use oh_my_robot.Prelude.{
  ℕ, ◌≤◌, ◌<◌, Text, Bool, true, false, Option, ◌≡◌, ◌⊎◌, inl, inr, refl, arith, Bool-cases, In,
}
use oh_my_robot.Prelude.Int.{ℤ}
use oh_my_robot.Reviewbot.Models.{ReviewJob, EventRecord, queued, failed, is_running}
use oh_my_robot.Reviewbot.Store.Outcomes.{mark_failed, failed_row, requeue_if_running}
use oh_my_robot.Reviewbot.Store.Reviewed.{In-updated}
use oh_my_robot.Reviewbot.Service.{
  Error, Outcome, returned, raised, cancelled, Client, Engine, Service, World, is_retryable,
}
use oh_my_robot.Reviewbot.Service.Process.{process}
use oh_my_robot.Reviewbot.Service.Ended.{Idle, EndsIdle, stopped, stopped_running, process-EndsIdle}
use oh_my_robot.Reviewbot.Worker.{settle, run_claimed, will_retry}

failed_row-idle :
    (now : ℕ) (error : Text) (retry : Bool) (after : Option ℤ) (kind : Option Text)
    (e : EventRecord)
    → ((failed_row now error retry after kind e).delivery_id ≡ e.delivery_id)
      × (is_running (failed_row now error retry after kind e).state ≡ false)
unfolding failed_row
failed_row-idle now error true after kind e = (refl, refl)
failed_row-idle now error false after kind e = (refl, refl)

module _ (service : Service) (client : Client) (engine : Engine) (redact : Text → Text)
    (max_retries : ℕ) (now later : ℕ) (job : ReviewJob) (attempts : ℕ) where
  settle-Idle :
      (r : World × Outcome Unit)
      → EndsIdle job.delivery_id r
      → Idle job.delivery_id
          (settle service client engine redact max_retries now later job attempts r).0.store
  unfolding settle EndsIdle mark_failed requeue_if_running
  settle-Idle (w, returned x) h = h
  settle-Idle (w, raised e) h =
      stopped job.delivery_id _ w.store.events (λ x. (failed_row-idle later _ _ _ _ x).0)
        (λ x. (failed_row-idle later _ _ _ _ x).1)
  settle-Idle (w, cancelled) h = stopped_running job.delivery_id _ w.store.events (λ e. refl)

  -- However the review of a claimed event ends, by returning, by an exception or by cancellation,
  -- the worker leaves no event of its delivery running.
  pub run_claimed-Idle :
      (w : World)
      → Idle job.delivery_id
          (run_claimed service client engine redact max_retries now later job attempts w).0.store
  unfolding run_claimed
  run_claimed-Idle w =
      settle-Idle (process service client engine now job w)
        (process-EndsIdle service client engine now job w)

  -- What becomes of the row `x` of the delivery when the review raised `e`.
  abbrev pub Retried : Error → EventRecord → EventRecord → Type 0
  Retried e x y =
      (y.delivery_id ≡ x.delivery_id)
      × (y.attempts ≡ x.attempts)
      × (((attempts ≤ max_retries) × (is_retryable e.kind ≡ true) × (y.state ≡ queued))
          ⊎ (((max_retries < attempts) ⊎ (is_retryable e.kind ≡ false)) × (y.state ≡ failed)))

  failed_row-Retried :
      (e : Error) (error : Text) (after : Option ℤ) (kind : Option Text) (x : EventRecord)
      (b : Bool)
      → will_retry service client engine redact max_retries now later job attempts e ≡ b
      → Retried e x (failed_row later error b after kind x)
  unfolding failed_row will_retry
  failed_row-Retried e error after kind x true h =
      (refl, refl, inl (ground arith, ground arith, refl))
  failed_row-Retried e error after kind x false h = (
    refl,
    refl,
    inr (
      elim (Bool-cases (is_retryable e.kind)) [ inl t ↦ inl (ground arith) | inr f ↦ inr f ],
      refl,
    ),
  )

  settle-Retried :
      (r : World × Outcome Unit) (e : Error)
      → r.1 ≡ raised e
      → (x : EventRecord) → In x r.0.store.events
      → x.delivery_id ≡ job.delivery_id
      → (y : EventRecord) × In y
          (settle service client engine redact max_retries now later job attempts r).0.store.events
        × Retried e x y
  unfolding settle mark_failed
  settle-Retried (w, returned u) e h x i d = absurd (ground arith)
  settle-Retried (w, cancelled) e h x i d = absurd (ground arith)
  settle-Retried (w, raised e') e h x i d =
      let q : e' ≡ e = ground arith in
      (
        _,
        In-updated _ job.delivery_id w.store.events x i d,
        rw (← q) (failed_row-Retried e' _ _ _ x _ refl),
      )

  -- If the review of an event raises an exception, the worker puts a row of its delivery back in the
  -- queue exactly if the attempts do not exceed the retries and the exception is one to retry;
  -- otherwise the row ends as failed. The count of attempts is kept.
  pub run_claimed-Retried :
      (w : World) (e : Error)
      → (process service client engine now job w).1 ≡ raised e
      → (x : EventRecord) → In x (process service client engine now job w).0.store.events
      → x.delivery_id ≡ job.delivery_id
      → (y : EventRecord) × In y
          (run_claimed service client engine redact max_retries now later job attempts
            w).0.store.events
        × Retried e x y
  unfolding run_claimed
  run_claimed-Retried w e h x i d =
      settle-Retried (process service client engine now job w) e h x i d
