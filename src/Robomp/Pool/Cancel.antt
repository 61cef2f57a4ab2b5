-- ===== src/Robomp/Pool/Cancel.antt =====
-- src/robomp/queue.py: a cancellation that an operator asked for is not lost.
use oh_my_robot.Prelude.{
  ℕ, ◌≤◌, Text, text_eq, text_eq_iff, text_eq_refl, text_eq_swap, Bool, true, false, ◌||◌, Option,
  none, some, List, [], ◌∷◌, ◌≡◌, refl, sym, subst, ◌∙◌, arith, inl, inr, if◌then◌else◌, In,
  count_if, Bool-cases, Option-cases,
}
use oh_my_robot.Robomp.Events.{EventRow, failed, has_id, is_running, claim_next_event}
use oh_my_robot.Robomp.Pool.{
  PoolSettings, Pool, holds, add, inflight_key, admit, admitted, claim_next_unique, release_key,
  arm_cancel, disarm_cancel, fire, cancel_event, interrupt, Ending, returned, by_operator,
  write_ending, slot_back, finish_event, end_event,
}
use oh_my_robot.Robomp.Pool.Exclusive.{
  Workers, PoolOp, claim_op, arm_op, disarm_op, cancel_op, interrupt_op, end_op, with_task,
  task_of_id, ended, pool_step, pool_run, discard_other,
}
use oh_my_robot.Robomp.Pool.Outcome.{after_end, fails, verdict, end_event-In}

abbrev ends_task : Text → PoolOp → Bool
ends_task id (end_op i slot factor ending) = text_eq i id
ends_task id _ = false

unfoldable pub any_ends : Text → List (ℕ × PoolOp) → Bool
any_ends id [] = false
any_ends id ((now, op) ∷ ops) = ends_task id op || any_ends id ops

holds-add : (id : Text) (ids : List Text) → holds id (add id ids) ≡ true
holds-add id ids = ground (arith, text_eq_refl id)

holds-add-keep :
    (id other : Text) (ids : List Text) → holds id ids ≡ true → holds id (add other ids) ≡ true
holds-add-keep id other ids h = ground (arith, h)

abbrev Asked : Text → Pool → Type 0
Asked id p = holds id p.cancelled ≡ true

fire-cancelled : (id : Text) (p : Pool) → (fire id p).0.cancelled ≡ p.cancelled
unfolding fire
fire-cancelled id p = ground arith

arm-cancelled : (id : Text) (p : Pool) → (arm_cancel id p).cancelled ≡ p.cancelled
unfolding arm_cancel
arm-cancelled id p = ground arith

keep : (id : Text) (ids ids' : List Text) → ids' ≡ ids → holds id ids ≡ true → holds id ids' ≡ true
keep id ids ids' e h = subst (λ l. holds id l ≡ true) (sym e) h

admit-Asked :
    (id : Text) (row : EventRow) (w : Workers)
    → Asked id w.pool
    → Asked id (with_task w.active (admit row w.pool)).pool
unfolding admit
admit-Asked id row w h = elim (Bool-cases (holds (inflight_key row) w.pool.inflight)) [
  | inl t ↦ rw t h
  | inr f ↦ rw f h
]

admitted-Asked :
    (id : Text) (claim : List EventRow × Option EventRow) (w : Workers)
    → Asked id w.pool
    → Asked id (with_task w.active (admitted w.pool claim)).pool
admitted-Asked id (events, none) w h = h
admitted-Asked id (events, some row) w h =
    admit-Asked id row (record w { pool = record w.pool { events = events } }) h

task_of_id-has_id :
    (id : Text) (rows rest : List EventRow) (row : EventRow)
    → task_of_id id rows ≡ some (row, rest)
    → has_id id row ≡ true
task_of_id-has_id id [] rest row h = absurd (ground arith)
task_of_id-has_id id (x ∷ rows) rest row h = elim (Bool-cases (has_id id x)) [
  | inl t ↦ let e : x ≡ row = ground (arith, h, t) in subst (λ y. has_id id y ≡ true) e t
  | inr f ↦ elim (Option-cases (task_of_id id rows)) [
    | inl e ↦ absurd (ground (arith, h, f, e))
    | inr ((found, left), e) ↦
        let q : found ≡ row = ground (arith, h, f, e) in
        subst (λ y. has_id id y ≡ true) q (task_of_id-has_id id rows left found e)
  ]
]

finish_event-Asked :
    (id : Text) (row : EventRow) (slot : Option (Option ℕ)) (p : Pool)
    → text_eq id row.delivery_id ≡ false
    → Asked id p
    → Asked id (finish_event row slot p)
unfolding finish_event release_key
finish_event-Asked id row slot p f h = elim (Option-cases (slot_back slot p.slots)) [
  | inl e ↦ rw e (discard_other row.delivery_id id p.cancelled f ∙ h)
  | inr (slots, e) ↦ rw e (discard_other row.delivery_id id p.cancelled f ∙ h)
]

end-Asked :
    (s : PoolSettings) (now : ℕ) (id i : Text) (w : Workers) (slot : Option (Option ℕ)) (factor : ℕ)
    (ending : Ending) (o : Option (EventRow × List EventRow))
    → text_eq i id ≡ false
    → task_of_id i w.active ≡ o
    → Asked id w.pool
    → Asked id (ended s now w slot factor ending o).pool
unfolding end_event
end-Asked s now id i w slot factor ending none f e h = h
end-Asked s now id i w slot factor ending (some (row, rest)) f e h =
    let q = (text_eq_iff row.delivery_id i).0 (task_of_id-has_id i w.active rest row e) in
    let g : text_eq id row.delivery_id ≡ false = rw q (text_eq_swap i id f) in
    finish_event-Asked id row slot
      (record w.pool { events = write_ending s now factor row ending w.pool }) g h

pool_step-Asked :
    (s : PoolSettings) (now : ℕ) (id : Text) (op : PoolOp) (w : Workers)
    → ends_task id op ≡ false
    → Asked id w.pool
    → Asked id (pool_step s now op w).pool
unfolding pool_step claim_next_unique disarm_cancel cancel_event interrupt
pool_step-Asked s now id claim_op w f h = admitted-Asked id (claim_next_event now w.pool.events) w h
pool_step-Asked s now id (arm_op i) w f h =
    keep id w.pool.cancelled (arm_cancel i w.pool).cancelled (arm-cancelled i w.pool) h
pool_step-Asked s now id (disarm_op i) w f h = h
pool_step-Asked s now id (cancel_op i) w f h =
    let p = record w.pool { cancelled = add i w.pool.cancelled } in
    keep id p.cancelled (fire i p).0.cancelled (fire-cancelled i p)
      (holds-add-keep id i w.pool.cancelled h)
pool_step-Asked s now id (interrupt_op i) w f h =
    let p = record w.pool { shutdown_cancelled = add i w.pool.shutdown_cancelled } in
    keep id p.cancelled (fire i p).0.cancelled (fire-cancelled i p) h
pool_step-Asked s now id (end_op i slot factor ending) w f h =
    end-Asked s now id i w slot factor ending (task_of_id i w.active) f refl h

pool_run-Asked :
    (s : PoolSettings) (id : Text) (ops : List (ℕ × PoolOp)) (w : Workers)
    → any_ends id ops ≡ false
    → Asked id w.pool
    → Asked id (pool_run s ops w).pool
unfolding pool_run any_ends
pool_run-Asked s id [] w f h = h
pool_run-Asked s id ((now, op) ∷ ops) w f h =
    pool_run-Asked s id ops (pool_step s now op w) (ground arith)
      (pool_step-Asked s now id op w (ground arith) h)

cancel_event-Asked : (id : Text) (p : Pool) → Asked id (cancel_event id p).0
unfolding cancel_event
cancel_event-Asked id p =
    let q = record p { cancelled = add id p.cancelled } in
    keep id q.cancelled (fire id q).0.cancelled (fire-cancelled id q) (holds-add id p.cancelled)

-- The workers after `cancel_event` and what happens then.
abbrev pub cancelled_run : PoolSettings → Text → List (ℕ × PoolOp) → Workers → Workers
cancelled_run s id ops w = pool_run s ops (record w { pool = (cancel_event id w.pool).0 })

arm_cancel-fires : (id : Text) (p : Pool) → Asked id p → (arm_cancel id p).fired ≡ id ∷ p.fired
unfolding arm_cancel
arm_cancel-fires id p h = rw h refl

verdict-cancelled :
    (s : PoolSettings) (now factor : ℕ) (row : EventRow) (p : Pool)
    → Asked row.delivery_id p
    → verdict s now factor row returned p ≡ fails by_operator
unfolding verdict
verdict-cancelled s now factor row p h = rw h refl

-- After `cancel_event`, whatever is done to the pool until the task of the delivery ends: a hook that
-- is armed for it is called at once, and when the dispatch returns although it was cancelled, its
-- row, running and once in the table, is marked failed as cancelled by the operator, not done.
pub cancel_event-lasts :
    (s : PoolSettings) (now factor : ℕ) (slot : Option (Option ℕ)) (row own : EventRow)
    (ops : List (ℕ × PoolOp)) (w : Workers)
    → any_ends row.delivery_id ops ≡ false
    → In own (cancelled_run s row.delivery_id ops w).pool.events
    → has_id row.delivery_id own ≡ true
    → is_running own ≡ true
    → count_if (has_id row.delivery_id) (cancelled_run s row.delivery_id ops w).pool.events ≤ 1
    → ((arm_cancel row.delivery_id (cancelled_run s row.delivery_id ops w).pool).fired
        ≡ row.delivery_id ∷ (cancelled_run s row.delivery_id ops w).pool.fired)
      × In
          (record own { state = failed; last_error = some by_operator; finished_at = some now })
          (end_event s now factor row slot returned
            (cancelled_run s row.delivery_id ops w).pool).events
cancel_event-lasts s now factor slot row own ops w f i h k one =
    let p = (cancelled_run s row.delivery_id ops w).pool in
    let after = (end_event s now factor row slot returned p).events in
    let a =
      pool_run-Asked s row.delivery_id ops
        (record w { pool = (cancel_event row.delivery_id w.pool).0 }) f
        (cancel_event-Asked row.delivery_id w.pool) in
    let ending = end_event-In row own p s now factor slot returned own i h k one i in
    (
      arm_cancel-fires row.delivery_id p a,
      subst
          (λ b.
            In
              (if b
                then record own {
                  state = failed;
                  last_error = some by_operator;
                  finished_at = some now;
                }
                else own)
              after)
          h
          (subst (λ v. In (after_end now row.delivery_id v own) after)
            (verdict-cancelled s now factor row p a) ending),
    )
