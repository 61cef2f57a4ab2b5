-- ===== src/Robomp/Pool/Outcome.antt =====
-- src/robomp/queue.py: what becomes of the row of an event when its task ends.
use oh_my_robot.Prelude.{
  ℕ, ◌+◌, ◌≤◌, Text, true, ◌&&◌, Option, none, some, List, ◌≡◌, refl, sym, subst, arith, inl, inr,
  leb, ltb, if◌then◌else◌, In, update, update-In, count_if, count_if-pos_of_In, one_In, Bool-cases,
  Option-cases,
}
use oh_my_robot.Robomp.Events.{
  EventRow, EventState, queued, done, failed, has_id, is_running, mark_event, retryable_row,
  schedule_retry,
}
use oh_my_robot.Robomp.Pool.{
  PoolSettings, Pool, holds, Ending, returned, raised, task_cancelled, by_operator,
  retry_delay_seconds, retried, retry_or_fail, write_ending, slot_back, release_key, finish_event,
  end_event,
}

-- What the end of a task decides for its event.
pub data Verdict : Type 0 where
  left_running : Verdict
  succeeds : Verdict
  fails : Text → Verdict
  retries_at : ℕ → Text → Verdict

abbrev retry_verdict : PoolSettings → ℕ → EventRow → Text → Option ℕ → Verdict
retry_verdict s now row err none = left_running
retry_verdict s now row err (some delay) =
    if ltb 0 row.attempts && leb row.attempts s.event_max_retries
    then retries_at (now + delay) err
    else fails err

-- A cancellation by an operator fails the event, however it ended; a shutdown leaves one that raised
-- for the next start; an error is retried while there are attempts left.
unfoldable pub verdict : PoolSettings → ℕ → ℕ → EventRow → Ending → Pool → Verdict
unfolding retry_delay_seconds
verdict s now factor row returned p =
    if holds row.delivery_id p.cancelled then fails by_operator else succeeds
verdict s now factor row (raised err) p =
    if holds row.delivery_id p.shutdown_cancelled
    then left_running
    else if holds row.delivery_id p.cancelled
    then fails by_operator
    else retry_verdict s now row err (retry_delay_seconds s.event_retry_delays factor row.attempts)
verdict s now factor row task_cancelled p = left_running

abbrev pub ended_as : ℕ → Verdict → EventRow → EventRow
ended_as now left_running e = e
ended_as now succeeds e = record e { state = done; last_error = none; finished_at = some now }
ended_as now (fails err) e = record e {
  state = failed;
  last_error = some err;
  finished_at = some now;
}
ended_as now (retries_at at err) e = record e {
  state = queued;
  last_error = some err;
  available_at = some at;
  finished_at = none;
}

-- The row of the event is written, and another is not.
abbrev pub after_end : ℕ → Text → Verdict → EventRow → EventRow
after_end now id v e = if has_id id e then ended_as now v e else e

marked-In :
    (now : ℕ) (id : Text) (state : EventState) (error : Option Text) (e : EventRow)
    (rows : List EventRow)
    → In e rows
    → In
        (if has_id id e
          then record e { state = state; last_error = error; finished_at = some now }
          else e)
        (mark_event now id state error rows)
unfolding mark_event
marked-In now id state error e rows i =
    update-In (has_id id)
      (λ x. record x { state = state; last_error = error; finished_at = some now }) e rows i

left-In :
    (now : ℕ) (id : Text) (e : EventRow) (rows : List EventRow)
    → In e rows
    → In (after_end now id left_running e) rows
left-In now id e rows i = elim (Bool-cases (has_id id e)) [ inl t ↦ rw t i | inr f ↦ rw f i ]

module _ (id : Text) (own : EventRow) (rows : List EventRow) (j : In own rows)
    (h : has_id id own ≡ true) (k : is_running own ≡ true)
    (one : count_if (has_id id) rows ≤ 1) where
  same_test : (e : EventRow) → In e rows → retryable_row id e ≡ has_id id e
  same_test e i = elim (Bool-cases (has_id id e)) [
    | inr f ↦ ground (arith, f)
    | inl t ↦
        let q : own ≡ e = one_In (has_id id) own e rows one j i h t in
        let r : is_running e ≡ true = subst (λ x. is_running x ≡ true) q k in ground (arith, t, r)
  ]

  -- There is a row to retry, so the retry is written.
  retried-In :
      (now at : ℕ) (err : Text) (e : EventRow)
      → In e rows
      → In
          (after_end now id (retries_at at err) e)
          (retried now id err rows (schedule_retry id at (some err) rows))
  unfolding schedule_retry
  retried-In now at err e i =
      let some_row = count_if-pos_of_In (retryable_row id) own rows j (ground (arith, h, k)) in
      let hit : ltb 0 (count_if (retryable_row id) rows) ≡ true = ground (arith, some_row) in
      let write : EventRow → EventRow = λ x. record x {
        state = queued;
        last_error = some err;
        available_at = some at;
        finished_at = none;
      } in
      rw hit (
        subst (λ b. In (if b then write e else e) (update (retryable_row id) write rows))
          (same_test e i) (update-In (retryable_row id) write e rows i))

-- The end of the task of `row`, whose event is the running row `own` of the table.
module _ (row own : EventRow) (p : Pool) (j : In own p.events)
    (h : has_id row.delivery_id own ≡ true) (k : is_running own ≡ true)
    (one : count_if (has_id row.delivery_id) p.events ≤ 1) where
  abbrev Ends : ℕ → Verdict → EventRow → List EventRow → Type 0
  Ends now v e after = In (after_end now row.delivery_id v e) after

  retry-In :
      (s : PoolSettings) (now : ℕ) (err : Text) (delay : Option ℕ) (e : EventRow)
      → In e p.events
      → Ends now (retry_verdict s now row err delay) e (retry_or_fail s now row err delay p.events)
  retry-In s now err none e i = left-In now row.delivery_id e p.events i
  retry-In s now err (some delay) e i =
      elim (Bool-cases (ltb 0 row.attempts && leb row.attempts s.event_max_retries)) [
        | inl t ↦ rw t (retried-In row.delivery_id own p.events j h k one now (now + delay) err e i)
        | inr f ↦ rw f (marked-In now row.delivery_id failed (some err) e p.events i)
      ]

  raised-In :
      (s : PoolSettings) (now factor : ℕ) (err : Text) (e : EventRow)
      → In e p.events
      → Ends now
          (verdict s now factor row (raised err) p)
          e
          (write_ending s now factor row (raised err) p)
  unfolding write_ending verdict
  raised-In s now factor err e i = elim (Bool-cases (holds row.delivery_id p.shutdown_cancelled)) [
    | inl t ↦ rw t (left-In now row.delivery_id e p.events i)
    | inr f ↦ rw f (elim (Bool-cases (holds row.delivery_id p.cancelled)) [
      | inl t ↦ rw t (marked-In now row.delivery_id failed (some by_operator) e p.events i)
      | inr g ↦
          rw g
            (retry-In s now err (retry_delay_seconds s.event_retry_delays factor row.attempts) e i)
    ])
  ]

  write_ending-In :
      (s : PoolSettings) (now factor : ℕ) (ending : Ending) (e : EventRow)
      → In e p.events
      → Ends now (verdict s now factor row ending p) e (write_ending s now factor row ending p)
  unfolding write_ending verdict
  write_ending-In s now factor returned e i =
      elim (Bool-cases (holds row.delivery_id p.cancelled)) [
        | inl t ↦ rw t (marked-In now row.delivery_id failed (some by_operator) e p.events i)
        | inr f ↦ rw f (marked-In now row.delivery_id done none e p.events i)
      ]
  write_ending-In s now factor (raised err) e i = raised-In s now factor err e i
  write_ending-In s now factor task_cancelled e i = left-In now row.delivery_id e p.events i

finish_event-events :
    (row : EventRow) (slot : Option (Option ℕ)) (p : Pool)
    → (finish_event row slot p).events ≡ p.events
unfolding finish_event release_key
finish_event-events row slot p = elim (Option-cases (slot_back slot p.slots)) [
  | inl e ↦ rw e refl
  | inr (slots, e) ↦ rw e refl
]

-- When the task of a claimed event ends, and its row is running in a table that has it once, every row
-- of the table is left as `after_end` says: another row as it was, and the event's own row left
-- running, done, failed, or queued again at a time, as the verdict on the ending decides.
pub end_event-In :
    (row own : EventRow) (p : Pool) (s : PoolSettings) (now factor : ℕ) (slot : Option (Option ℕ))
    (ending : Ending) (e : EventRow)
    → In own p.events
    → has_id row.delivery_id own ≡ true
    → is_running own ≡ true
    → count_if (has_id row.delivery_id) p.events ≤ 1
    → In e p.events
    → In
        (after_end now row.delivery_id (verdict s now factor row ending p) e)
        (end_event s now factor row slot ending p).events
unfolding end_event
end_event-In row own p s now factor slot ending e j h k one i =
    subst (In (after_end now row.delivery_id (verdict s now factor row ending p) e))
      (sym (
        finish_event-events row slot
          (record p { events = write_ending s now factor row ending p })))
      (write_ending-In row own p j h k one s now factor ending e i)
