-- ===== src/Robomp/Pool/Exclusive.antt =====
-- src/robomp/queue.py: no two tasks of the pool work on one issue, and a cancellation is not lost.
use oh_my_robot.Prelude.{
  ℕ, ◌+◌, ◌≤◌, Text, text_eq, text_eq_iff, text_eq_swap, Bool, false, Option, none, some, List, [],
  ◌∷◌, ◌≡◌, refl, sym, subst, ◌∙◌, arith, inl, inr, if◌then◌else◌, count_if, Bool-cases,
  Option-cases,
}
use oh_my_robot.Robomp.Events.{EventRow, has_id, claim_next_event}
use oh_my_robot.Robomp.Pool.{
  PoolSettings, Pool, holds, discard, add, inflight_key, admit, admitted, claim_next_unique,
  release_key, arm_cancel, disarm_cancel, fire, cancel_event, interrupt, Ending, write_ending,
  slot_back, finish_event, end_event,
}

-- The pool, and the rows whose tasks have not ended.
pub record Workers : Type 0 where
  pub pool : Pool
  pub active : List EventRow

-- What the dispatcher, the tasks, the API and `stop` do, in the order of their effects.
pub data PoolOp : Type 0 where
  claim_op : PoolOp
  arm_op : Text → PoolOp
  disarm_op : Text → PoolOp
  cancel_op : Text → PoolOp
  interrupt_op : Text → PoolOp
  end_op : Text → Option (Option ℕ) → ℕ → Ending → PoolOp

abbrev pub with_task : List EventRow → Pool × Option EventRow → Workers
with_task active (p, none) = record { pool = p; active = active }
with_task active (p, some row) = record { pool = p; active = row ∷ active }

abbrev pub skipping :
    EventRow → Option (EventRow × List EventRow) → Option (EventRow × List EventRow)
skipping row none = none
skipping row (some (found, rest)) = some (found, row ∷ rest)

-- The first task of the delivery, and the tasks without it.
abbrev pub task_of_id : Text → List EventRow → Option (EventRow × List EventRow)
task_of_id id [] = none
task_of_id id (row ∷ rows) =
    let later = skipping row (task_of_id id rows) in
    if has_id id row then some (row, rows) else later

-- A slot that cannot be put back keeps the key of its event; the slots' own theorems exclude it.
abbrev pub ended :
    PoolSettings
    → ℕ
    → Workers
    → Option (Option ℕ)
    → ℕ
    → Ending
    → Option (EventRow × List EventRow)
    → Workers
ended s now w slot factor ending none = w
ended s now w slot factor ending (some (row, rest)) = record {
  pool = end_event s now factor row slot ending w.pool;
  active = rest;
}

unfoldable pub pool_step : PoolSettings → ℕ → PoolOp → Workers → Workers
unfolding claim_next_unique arm_cancel disarm_cancel cancel_event interrupt end_event
pool_step s now claim_op w = with_task w.active (claim_next_unique now w.pool)
pool_step s now (arm_op id) w = record w { pool = arm_cancel id w.pool }
pool_step s now (disarm_op id) w = record w { pool = disarm_cancel id w.pool }
pool_step s now (cancel_op id) w = record w { pool = (cancel_event id w.pool).0 }
pool_step s now (interrupt_op id) w = record w { pool = (interrupt id w.pool).0 }
pool_step s now (end_op id slot factor ending) w =
    ended s now w slot factor ending (task_of_id id w.active)

unfoldable pub pool_run : PoolSettings → List (ℕ × PoolOp) → Workers → Workers
unfolding pool_step
pool_run s [] w = w
pool_run s ((now, op) ∷ ops) w = pool_run s ops (pool_step s now op w)

abbrev pub works_on : Text → EventRow → Bool
works_on key row = text_eq (inflight_key row) key

-- The keys of the tasks are held, and no key has two tasks.
pub record IsExclusive (w : Workers) : Type 0 where
  pub held : (key : Text) → holds key w.pool.inflight ≡ false → count_if (works_on key) w.active ≡ 0
  pub exclusive : (key : Text) → count_if (works_on key) w.active ≤ 1

same_keys :
    (w w' : Workers)
    → w.pool.inflight ≡ w'.pool.inflight
    → w.active ≡ w'.active
    → IsExclusive w
    → IsExclusive w'
same_keys w w' e f v = record {
  held = λ key h.
      subst (λ l. count_if (works_on key) l ≡ 0) f
        (v.held key (subst (λ l. holds key l ≡ false) (sym e) h));
  exclusive = λ key. subst (λ l. count_if (works_on key) l ≤ 1) f (v.exclusive key);
}

pub discard_other :
    (key other : Text) (keys : List Text)
    → text_eq other key ≡ false
    → holds other (discard key keys) ≡ holds other keys
discard_other key other [] f = refl
discard_other key other (k ∷ keys) f = elim (Bool-cases (text_eq k key)) [
  | inl t ↦
      let g : text_eq k other ≡ false = rw ((text_eq_iff k key).0 t) (text_eq_swap other key f) in
      ground (arith, t, g, discard_other key other keys f)
  | inr g ↦ ground (arith, g, discard_other key other keys f)
]

-- A claim adds a task only for a key that is not held.
admit-IsExclusive :
    (row : EventRow) (w : Workers)
    → IsExclusive w
    → IsExclusive (with_task w.active (admit row w.pool))
unfolding admit
admit-IsExclusive row w v = elim (Bool-cases (holds (inflight_key row) w.pool.inflight)) [
  | inl t ↦ rw t (record { held = v.held; exclusive = v.exclusive })
  | inr f ↦ rw f (record {
    held = λ key h. ground (arith, h, v.held key);
    exclusive = λ key. elim (Bool-cases (text_eq (inflight_key row) key)) [
      | inl t ↦
          let free : holds key w.pool.inflight ≡ false =
            subst (λ x. holds x w.pool.inflight ≡ false) ((text_eq_iff (inflight_key row) key).0 t)
              f in
          ground (arith, t, v.held key free)
      | inr g ↦ ground (arith, g, v.exclusive key)
    ];
  })
]

admitted-IsExclusive :
    (claim : List EventRow × Option EventRow) (w : Workers)
    → IsExclusive w
    → IsExclusive (with_task w.active (admitted w.pool claim))
admitted-IsExclusive (events, none) w v = record { held = v.held; exclusive = v.exclusive }
admitted-IsExclusive (events, some row) w v =
    admit-IsExclusive row (record w { pool = record w.pool { events = events } })
      (record { held = v.held; exclusive = v.exclusive })

abbrev task_is : EventRow × List EventRow → Option (EventRow × List EventRow)
task_is found = some found

count_same :
    (p : EventRow → Bool) (a b : EventRow) (xs ys : List EventRow)
    → task_is (a, xs) ≡ task_is (b, ys)
    → (if p a then 1 else 0) + count_if p xs ≡ (if p b then 1 else 0) + count_if p ys
count_same p a b xs ys h =
    let e : a ≡ b = ground arith in let f : xs ≡ ys = ground arith in rw e (rw f refl)

task_of_id-count :
    (p : EventRow → Bool) (id : Text) (rows rest : List EventRow) (row : EventRow)
    → task_of_id id rows ≡ some (row, rest)
    → count_if p rows ≡ (if p row then 1 else 0) + count_if p rest
task_of_id-count p id [] rest row h = absurd (ground arith)
task_of_id-count p id (x ∷ rows) rest row h = elim (Bool-cases (has_id id x)) [
  | inl t ↦ count_same p x row rows rest (ground (arith, h, t))
  | inr f ↦ elim (Option-cases (task_of_id id rows)) [
    | inl e ↦ absurd (ground (arith, h, f, e))
    | inr ((found, left), e) ↦
        let q : task_is (found, x ∷ left) ≡ task_is (row, rest) = ground (arith, h, f, e) in
        omega
          (arith, task_of_id-count p id rows left found e, count_same p found row (x ∷ left) rest q)
  ]
]

finish_event-IsExclusive :
    (row : EventRow) (rest : List EventRow) (slot : Option (Option ℕ)) (w : Workers)
    → ((p : EventRow → Bool) → count_if p w.active ≡ (if p row then 1 else 0) + count_if p rest)
    → IsExclusive w
    → IsExclusive (record { pool = finish_event row slot w.pool; active = rest })
unfolding finish_event release_key
finish_event-IsExclusive row rest slot w split v =
    elim (Option-cases (slot_back slot w.pool.slots)) [
      | inl e ↦ rw e (record {
        held = λ key h. ground (arith, split (works_on key), v.held key h);
        exclusive = λ key. ground (arith, split (works_on key), v.exclusive key);
      })
      | inr (slots, e) ↦ rw e (record {
        held = λ key h. elim (Bool-cases (text_eq (inflight_key row) key)) [
          | inl t ↦ ground (arith, t, split (works_on key), v.exclusive key)
          | inr f ↦
              let kept =
                discard_other (inflight_key row) key w.pool.inflight
                  (text_eq_swap (inflight_key row) key f) in
              ground (arith, split (works_on key), v.held key (sym kept ∙ h))
        ];
        exclusive = λ key. ground (arith, split (works_on key), v.exclusive key);
      })
    ]

end-IsExclusive :
    (s : PoolSettings) (now : ℕ) (w : Workers) (slot : Option (Option ℕ)) (factor : ℕ)
    (ending : Ending) (o : Option (EventRow × List EventRow)) (id : Text)
    → task_of_id id w.active ≡ o
    → IsExclusive w
    → IsExclusive (ended s now w slot factor ending o)
unfolding end_event
end-IsExclusive s now w slot factor ending none id h v = v
end-IsExclusive s now w slot factor ending (some (row, rest)) id h v =
    let events = write_ending s now factor row ending w.pool in
    finish_event-IsExclusive row rest slot (record w { pool = record w.pool { events = events } })
      (λ p. task_of_id-count p id w.active rest row h)
      (record { held = v.held; exclusive = v.exclusive })

fire-inflight : (id : Text) (p : Pool) → (fire id p).0.inflight ≡ p.inflight
unfolding fire
fire-inflight id p = ground arith

arm-inflight : (id : Text) (p : Pool) → (arm_cancel id p).inflight ≡ p.inflight
unfolding arm_cancel
arm-inflight id p = ground arith

pool_step-IsExclusive :
    (s : PoolSettings) (now : ℕ) (op : PoolOp) (w : Workers)
    → IsExclusive w
    → IsExclusive (pool_step s now op w)
unfolding pool_step claim_next_unique disarm_cancel cancel_event interrupt
pool_step-IsExclusive s now claim_op w v =
    admitted-IsExclusive (claim_next_event now w.pool.events) w v
pool_step-IsExclusive s now (arm_op id) w v =
    same_keys w (record w { pool = arm_cancel id w.pool }) (sym (arm-inflight id w.pool)) refl v
pool_step-IsExclusive s now (disarm_op id) w v = record { held = v.held; exclusive = v.exclusive }
pool_step-IsExclusive s now (cancel_op id) w v =
    let p = record w.pool { cancelled = add id w.pool.cancelled } in
    same_keys w (record w { pool = (fire id p).0 }) (sym (fire-inflight id p)) refl v
pool_step-IsExclusive s now (interrupt_op id) w v =
    let p = record w.pool { shutdown_cancelled = add id w.pool.shutdown_cancelled } in
    same_keys w (record w { pool = (fire id p).0 }) (sym (fire-inflight id p)) refl v
pool_step-IsExclusive s now (end_op id slot factor ending) w v =
    end-IsExclusive s now w slot factor ending (task_of_id id w.active) id refl v

-- Whatever the dispatcher, the tasks, the API and the shutdown do, in any order: from a pool whose
-- tasks have different keys and hold them, the tasks that have not ended have different keys, the issue
-- or else the delivery, and each of the keys is held in `_inflight`.
pub pool_run-IsExclusive :
    (s : PoolSettings) (ops : List (ℕ × PoolOp)) (w : Workers)
    → IsExclusive w
    → IsExclusive (pool_run s ops w)
unfolding pool_run
pool_run-IsExclusive s [] w v = v
pool_run-IsExclusive s ((now, op) ∷ ops) w v =
    pool_run-IsExclusive s ops (pool_step s now op w) (pool_step-IsExclusive s now op w v)
