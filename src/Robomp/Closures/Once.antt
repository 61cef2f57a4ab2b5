-- ===== src/Robomp/Closures/Once.antt =====
-- src/robomp/db.py: which rows of `pending_closures` a claim hands out, and when again.
use oh_my_robot.Prelude.{
  ℕ, ◌≤◌, Text, text_eq, text_eq_iff, Bool, true, false, ◌||◌, Option, none, some, List, [], ◌∷◌,
  ◌≡◌, refl, arith, inl, inr, leb, In, any, select, update, count_if, count_if-append,
  count_if-pos_of_In, In-select, In-take, any-In, count_if-update-zero, In-map, Bool-cases,
}
use oh_my_robot.Robomp.Closures.{
  ClosureState, cancelled, PendingClosure, Answered, has_key, scheduled, rescheduled,
  upsert_pending_closure, is_due, insert_by_time, order_by_time, due_rows, among, claimed_at,
  claim_rows, claim_due_closures, finalized, is_terminal, finalize_closure, claimed_on, put_back,
  requeue_claimed_closure, pending_on, cancel_pending_closure,
}

-- The methods that write.
pub data ClosureOp : Type 0 where
  schedule_op : Answered → ClosureOp
  claim_op : ℕ → ClosureOp
  finalize_op : Text → ClosureState → Option Text → ClosureOp
  requeue_op : Text → ClosureOp
  cancel_op : Text → Text → ClosureOp

-- The table after a call that may have raised.
abbrev or_rows : List PendingClosure → Option (List PendingClosure) → List PendingClosure
or_rows rows none = rows
or_rows rows (some after) = after

unfoldable pub closure_step : ℕ → ClosureOp → List PendingClosure → List PendingClosure
unfolding upsert_pending_closure claim_due_closures finalize_closure requeue_claimed_closure
    cancel_pending_closure
closure_step now (schedule_op a) rows = upsert_pending_closure now a rows
closure_step now (claim_op limit) rows = (claim_due_closures now limit rows).0
closure_step now (finalize_op key state reason) rows =
    or_rows rows (finalize_closure now key state reason rows)
closure_step now (requeue_op key) rows = (requeue_claimed_closure now key rows).0
closure_step now (cancel_op key reason) rows = (cancel_pending_closure now key reason rows).0

unfoldable pub closure_run : List (ℕ × ClosureOp) → List PendingClosure → List PendingClosure
unfolding closure_step
closure_run [] rows = rows
closure_run ((now, op) ∷ ops) rows = closure_run ops (closure_step now op rows)

-- The two calls that make a row of the key pending.
abbrev revives : Text → ClosureOp → Bool
revives key (schedule_op a) = text_eq a.issue_key key
revives key (requeue_op k) = text_eq k key
revives key _ = false

unfoldable pub any_revives : Text → List (ℕ × ClosureOp) → Bool
any_revives key [] = false
any_revives key ((now, op) ∷ ops) = revives key op || any_revives key ops

-- The rows that the inner SELECT chose were due.
insert-In :
    (c r : PendingClosure) (rows : List PendingClosure)
    → In c (insert_by_time r rows)
    → In c (r ∷ rows)
insert-In c r [] i = i
insert-In c r (s ∷ rows) i = elim (Bool-cases (leb r.close_at s.close_at)) [
  | inl t ↦ rw t at i
  | inr f ↦ elim (let j : In c (s ∷ insert_by_time r rows) = rw f at i in j) [
    | inl e ↦ inr (inl e)
    | inr j ↦ elim (insert-In c r rows j) [ inl e ↦ inl e | inr k ↦ inr (inr k) ]
  ]
]

order-In : (c : PendingClosure) (rows : List PendingClosure) → In c (order_by_time rows) → In c rows
order-In c [] i = i
order-In c (r ∷ rows) i = elim (insert-In c r (order_by_time rows) i) [
  | inl e ↦ inl e
  | inr j ↦ inr (order-In c rows j)
]

pub due_rows-In :
    (now limit : ℕ) (c : PendingClosure) (rows : List PendingClosure)
    → In c (due_rows now limit rows)
    → In c rows × (is_due now c ≡ true)
unfolding due_rows
due_rows-In now limit c rows i = In-select (is_due now) c rows (
    order-In c (select (is_due now) rows)
      (In-take limit c (order_by_time (select (is_due now) rows)) i))

-- Rows that a claim returns, as rows of the table before it.
pub claim-In :
    (now limit : ℕ) (row : PendingClosure) (rows : List PendingClosure)
    → In row (claim_due_closures now limit rows).1
    → (r : PendingClosure) × In r rows
      × (among (due_rows now limit rows) r ≡ true)
      × (row ≡ claimed_at now r)
unfolding claim_due_closures claim_rows
claim-In now limit row rows i =
    let (r, j, e) = In-map (claimed_at now) row (select (among (due_rows now limit rows)) rows) i in
    let s = In-select (among (due_rows now limit rows)) r rows j in (r, s.0, s.1, e)

-- A row that a claim returns has the key of a row that was due.
claim-pending :
    (now limit : ℕ) (row : PendingClosure) (rows : List PendingClosure)
    → In row (claim_due_closures now limit rows).1
    → 1 ≤ count_if (pending_on row.issue_key) rows
claim-pending now limit row rows i =
    let (r, _, m, e) = claim-In now limit row rows i in
    let (c, j, k) = any-In (has_key r.issue_key) (due_rows now limit rows) m in
    let (l, d) = due_rows-In now limit c rows j in
    count_if-pos_of_In (pending_on row.issue_key) c rows l (rw e (ground (arith, k, d)))

claimed-none :
    (now limit : ℕ) (row : PendingClosure) (rows : List PendingClosure)
    → In row (claim_due_closures now limit rows).1
    → count_if (pending_on row.issue_key) (claim_due_closures now limit rows).0 ≡ 0
unfolding claim_due_closures claim_rows
claimed-none now limit row rows i =
    let chosen = due_rows now limit rows in
    let (r, _, m, e) = claim-In now limit row rows i in
    let m' : any (has_key row.issue_key) chosen ≡ true = rw e m in
    count_if-update-zero (pending_on row.issue_key) (among chosen) (claimed_at now)
      (λ x. elim (Bool-cases (text_eq x.issue_key row.issue_key)) [
        | inl t ↦
            let n : among chosen x ≡ true = rw ((text_eq_iff x.issue_key row.issue_key).0 t) m' in
            ground arith
        | inr f ↦ ground arith
      ])
      rows

-- A write that makes no row of the key pending keeps the key without pending rows.
idle-update :
    (key : Text) (p : PendingClosure → Bool) (f : PendingClosure → PendingClosure)
    (rows : List PendingClosure)
    → ((r : PendingClosure) → p r ≡ true → pending_on key (f r) ≡ true → pending_on key r ≡ true)
    → count_if (pending_on key) rows ≡ 0
    → count_if (pending_on key) (update p f rows) ≡ 0
idle-update key p f [] calm z = refl
idle-update key p f (r ∷ rows) calm z = ground (arith, calm r, idle-update key p f rows calm)

idle-upsert :
    (now : ℕ) (key : Text) (a : Answered) (rows : List PendingClosure)
    → text_eq a.issue_key key ≡ false
    → count_if (pending_on key) rows ≡ 0
    → count_if (pending_on key) (upsert_pending_closure now a rows) ≡ 0
unfolding upsert_pending_closure
idle-upsert now key a rows other z = elim (Bool-cases (any (has_key a.issue_key) rows)) [
  | inl t ↦ rw t (
      idle-update key (has_key a.issue_key) (rescheduled now a) rows
        (λ r h k.
          let e = (text_eq_iff r.issue_key a.issue_key).0 h in
          let o : text_eq r.issue_key key ≡ false = rw e other in absurd (ground arith))
        z)
  | inr f ↦
      rw f (ground (arith, other, count_if-append (pending_on key) rows (scheduled now a ∷ [])))
]

idle-finalize :
    (now : ℕ) (key k : Text) (state : ClosureState) (reason : Option Text)
    (rows : List PendingClosure)
    → count_if (pending_on key) rows ≡ 0
    → count_if (pending_on key) (or_rows rows (finalize_closure now k state reason rows)) ≡ 0
unfolding finalize_closure
idle-finalize now key k state reason rows z = elim (Bool-cases (is_terminal state)) [
  | inl t ↦ rw t (
      idle-update key (has_key k) (finalized now state reason) rows (λ r h q. absurd (ground arith))
        z)
  | inr f ↦ rw f z
]

closure_step-idle :
    (now : ℕ) (key : Text) (op : ClosureOp) (rows : List PendingClosure)
    → revives key op ≡ false
    → count_if (pending_on key) rows ≡ 0
    → count_if (pending_on key) (closure_step now op rows) ≡ 0
unfolding closure_step claim_due_closures claim_rows requeue_claimed_closure cancel_pending_closure
closure_step-idle now key (schedule_op a) rows h z = idle-upsert now key a rows h z
closure_step-idle now key (claim_op limit) rows h z =
    idle-update key (among (due_rows now limit rows)) (claimed_at now) rows
      (λ r p q. absurd (ground arith)) z
closure_step-idle now key (finalize_op k state reason) rows h z =
    idle-finalize now key k state reason rows z
closure_step-idle now key (requeue_op k) rows h z =
    idle-update key (claimed_on k) (put_back now) rows
      (λ r p q.
        let e = (text_eq_iff r.issue_key k).0 (ground arith) in
        let o : text_eq r.issue_key key ≡ false = rw e h in absurd (ground arith))
      z
closure_step-idle now key (cancel_op k reason) rows h z =
    idle-update key (pending_on k) (finalized now cancelled (some reason)) rows
      (λ r p q. absurd (ground arith)) z

closure_run-idle :
    (key : Text) (ops : List (ℕ × ClosureOp)) (rows : List PendingClosure)
    → any_revives key ops ≡ false
    → count_if (pending_on key) rows ≡ 0
    → count_if (pending_on key) (closure_run ops rows) ≡ 0
unfolding closure_run any_revives
closure_run-idle key [] rows h z = z
closure_run-idle key ((now, op) ∷ ops) rows h z =
    closure_run-idle key ops (closure_step now op rows) (ground arith)
      (closure_step-idle now key op rows (ground arith) z)

-- After a claim returned a row, no later claim returns a row of its issue, whatever calls were made in
-- between, unless one of them schedules the issue again or requeues it.
pub claim_due_closures-once :
    (now limit later limit' : ℕ) (row row' : PendingClosure) (ops : List (ℕ × ClosureOp))
    (rows : List PendingClosure)
    → In row (claim_due_closures now limit rows).1
    → any_revives row.issue_key ops ≡ false
    → In row'
        (claim_due_closures later limit' (closure_run ops (claim_due_closures now limit rows).0)).1
    → text_eq row'.issue_key row.issue_key ≡ false
claim_due_closures-once now limit later limit' row row' ops rows i calm j =
    let between = closure_run ops (claim_due_closures now limit rows).0 in
    let z =
      closure_run-idle row.issue_key ops (claim_due_closures now limit rows).0 calm
        (claimed-none now limit row rows i) in
    let one = claim-pending later limit' row' between j in
    elim (Bool-cases (text_eq row'.issue_key row.issue_key)) [
      | inl t ↦
          let one' : 1 ≤ count_if (pending_on row.issue_key) between =
            rw ((text_eq_iff row'.issue_key row.issue_key).0 t) at one in
          absurd (ground (arith, z, one'))
      | inr f ↦ f
    ]
