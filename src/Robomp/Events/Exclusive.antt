-- ===== src/Robomp/Events/Exclusive.antt =====
-- src/robomp/db.py: whatever calls are made on the table, an issue has at most one running event.
use oh_my_robot.Prelude.{
  ℕ, ◌+◌, ◌≤◌, Text, text_eq, text_eq_iff, text_eq_refl, true, false, Bool, ◌&&◌, not, Option, none,
  some, List, [], ◌∷◌, ◌++◌, ◌≡◌, refl, arith, inl, inr, In, any, find, select, update, count_if,
  count_if-append, any-count_if, count_if-update-le, count_if-pos_of_In, Bool-cases,
}
use oh_my_robot.Robomp.Events.{
  EventRow, EventState, running, Delivery, has_id, is_running, on_key, running_on, new_row,
  record_event, blocked, started, claim_row, claim_next_event, next_event, mark_event,
  set_event_model, requeued, reset_stuck_running, remove_event, state_in, replace_row,
  replace_event_if_state_in, requeueable, requeue_event, retryable_row, schedule_retry, same_state,
}
use oh_my_robot.Robomp.Events.Claims.{next_event-In}

-- Delivery ids are unique, and no issue has two running events.
pub record IsSound (rows : List EventRow) : Type 0 where
  pub unique : (id : Text) → count_if (has_id id) rows ≤ 1
  pub exclusive : (key : Text) → count_if (running_on key) rows ≤ 1

-- The methods that write.
pub data Op : Type 0 where
  record_op : Delivery → EventState → Option Text → Op
  claim_op : Op
  mark_op : Text → EventState → Option Text → Op
  model_op : Text → Text → Op
  reset_op : Op
  remove_op : Text → Op
  replace_op : Delivery → EventState → List EventState → Op
  requeue_op : Text → Option (List EventState) → Op
  retry_op : Text → ℕ → Option Text → Op

unfoldable pub step : ℕ → Op → List EventRow → List EventRow
unfolding record_event claim_next_event mark_event set_event_model reset_stuck_running remove_event
    replace_event_if_state_in requeue_event schedule_retry
step now (record_op d state error) rows = (record_event now d state error rows).0
step now claim_op rows = (claim_next_event now rows).0
step now (mark_op id state error) rows = mark_event now id state error rows
step now (model_op id model) rows = set_event_model id model rows
step now reset_op rows = (reset_stuck_running rows).0
step now (remove_op id) rows = remove_event id rows
step now (replace_op d state allowed) rows = (replace_event_if_state_in now d state allowed rows).0
step now (requeue_op id from_states) rows = (requeue_event id from_states rows).0
step now (retry_op id at error) rows = (schedule_retry id at error rows).0

unfoldable pub run : List (ℕ × Op) → List EventRow → List EventRow
unfolding step
run [] rows = rows
run ((now, op) ∷ ops) rows = run ops (step now op rows)

-- The state that a call is told to write, if any, is not running; only `claim_next_event` starts one.
abbrev pub asks_running : Op → Bool
asks_running (record_op d state error) = same_state state running
asks_running (mark_op id state error) = same_state state running
asks_running (replace_op d state allowed) = same_state state running
asks_running _ = false

update-IsSound :
    (p : EventRow → Bool) (f : EventRow → EventRow) (rows : List EventRow)
    → ((e : EventRow) → (f e).delivery_id ≡ e.delivery_id)
    → ((key : Text) (e : EventRow) → running_on key (f e) ≡ true → running_on key e ≡ true)
    → IsSound rows
    → IsSound (update p f rows)
update-IsSound p f rows same calm v = record {
  unique = λ id. omega (
    arith,
    v.unique id,
    count_if-update-le (has_id id) p f (λ e h. let h' : has_id id e ≡ true = rw (same e) at h in h')
        rows,
  );
  exclusive = λ key.
      omega (arith, v.exclusive key, count_if-update-le (running_on key) p f (calm key) rows);
}

append-IsSound :
    (now : ℕ) (d : Delivery) (state : EventState) (error : Option Text) (rows : List EventRow)
    → same_state state running ≡ false
    → count_if (has_id d.delivery_id) rows ≡ 0
    → IsSound rows
    → IsSound (rows ++ new_row now d state error ∷ [])
append-IsSound now d state error rows calm fresh v = record {
  unique = λ id. elim (Bool-cases (text_eq d.delivery_id id)) [
    | inl t ↦
        let z : count_if (has_id id) rows ≡ 0 = rw (← (text_eq_iff d.delivery_id id).0 t) fresh in
        ground (arith, z, count_if-append (has_id id) rows (new_row now d state error ∷ []))
    | inr f ↦
        ground
          (arith, v.unique id, count_if-append (has_id id) rows (new_row now d state error ∷ []))
  ];
  exclusive = λ key. ground (
    arith,
    v.exclusive key,
    count_if-append (running_on key) rows (new_row now d state error ∷ []),
  );
}

count_if-select-le :
    (q p : EventRow → Bool) (rows : List EventRow) → count_if q (select p rows) ≤ count_if q rows
count_if-select-le q p [] = omega arith
count_if-select-le q p (e ∷ rows) = ground (arith, count_if-select-le q p rows)

removed : (id : Text) (rows : List EventRow) → count_if (has_id id) (remove_event id rows) ≡ 0
unfolding remove_event
removed id [] = refl
removed id (e ∷ rows) = ground (arith, removed id rows)

remove_event-IsSound :
    (id : Text) (rows : List EventRow) → IsSound rows → IsSound (remove_event id rows)
unfolding remove_event
remove_event-IsSound id rows v = record {
  unique =
      λ i. omega (arith, v.unique i, count_if-select-le (has_id i) (λ e. not (has_id id e)) rows);
  exclusive = λ key.
      omega
        (arith, v.exclusive key, count_if-select-le (running_on key) (λ e. not (has_id id e)) rows);
}

find-none : (p : EventRow → Bool) (rows : List EventRow) → find p rows ≡ none → count_if p rows ≡ 0
find-none p [] h = refl
find-none p (e ∷ rows) h = ground (arith, find-none p rows)

replace_row-IsSound :
    (now : ℕ) (d : Delivery) (state : EventState) (allowed : List EventState) (o : Option EventRow)
    (rows : List EventRow)
    → same_state state running ≡ false
    → find (has_id d.delivery_id) rows ≡ o
    → IsSound rows
    → IsSound (replace_row now d state allowed o rows).0
unfolding replace_row
replace_row-IsSound now d state allowed none rows calm h v =
    append-IsSound now d state none rows calm (find-none (has_id d.delivery_id) rows h) v
replace_row-IsSound now d state allowed (some e) rows calm h v =
    elim (Bool-cases (state_in allowed e)) [
      | inl t ↦ rw t (
          append-IsSound now d state none (remove_event d.delivery_id rows) calm
            (removed d.delivery_id rows) (remove_event-IsSound d.delivery_id rows v))
      | inr f ↦ rw f v
    ]

record_event-IsSound :
    (now : ℕ) (d : Delivery) (state : EventState) (error : Option Text) (rows : List EventRow)
    → same_state state running ≡ false
    → IsSound rows
    → IsSound (record_event now d state error rows).0
unfolding record_event
record_event-IsSound now d state error rows calm v =
    elim (Bool-cases (any (has_id d.delivery_id) rows)) [
      | inl t ↦ rw t v
      | inr f ↦ rw f (
          append-IsSound now d state error rows calm (any-count_if (has_id d.delivery_id) rows f) v)
    ]

-- A test that fails on the one row of an id fails on every row of it.
count_if-split :
    (p r : EventRow → Bool) (rows : List EventRow)
    → count_if p rows ≡ count_if (λ e. p e && r e) rows + count_if (λ e. p e && not (r e)) rows
count_if-split p r [] = refl
count_if-split p r (e ∷ rows) = ground (arith, count_if-split p r rows)

only_row :
    (p r : EventRow → Bool) (c : EventRow) (rows : List EventRow)
    → count_if p rows ≤ 1
    → In c rows
    → p c ≡ true
    → r c ≡ false
    → count_if (λ e. p e && r e) rows ≡ 0
only_row p r c rows one i h f = omega (
  arith,
  count_if-split p r rows,
  count_if-pos_of_In (λ e. p e && not (r e)) c rows i (ground (arith, h, f)),
)

-- Starting rows adds at most the rows started on the key.
started-count :
    (now : ℕ) (key : Text) (p : EventRow → Bool) (rows : List EventRow)
    → count_if (running_on key) (update p (started now) rows)
      ≤ count_if (running_on key) rows + count_if (λ e. p e && on_key key e.issue_key) rows
started-count now key p [] = omega arith
started-count now key p (e ∷ rows) = ground (arith, started-count now key p rows)

started-count-p :
    (now : ℕ) (key : Text) (p : EventRow → Bool) (rows : List EventRow)
    → count_if (running_on key) (update p (started now) rows)
      ≤ count_if (running_on key) rows + count_if p rows
started-count-p now key p [] = omega arith
started-count-p now key p (e ∷ rows) = ground (arith, started-count-p now key p rows)

unblocked-idle :
    (rows : List EventRow) (o : Option Text) (key : Text)
    → blocked rows o ≡ false
    → on_key key o ≡ true
    → count_if (running_on key) rows ≡ 0
unblocked-idle rows none key h k = absurd (ground arith)
unblocked-idle rows (some s) key h k =
    rw (← (text_eq_iff s key).0 k) (any-count_if (running_on s) rows h)

claim_row-IsSound :
    (now : ℕ) (o : Option EventRow) (rows : List EventRow)
    → next_event now rows ≡ o
    → IsSound rows
    → IsSound (claim_row now o rows).0
unfolding claim_row
claim_row-IsSound now none rows h v = v
claim_row-IsSound now (some c) rows h v =
    let (i, k) = next_event-In now rows c h in
    record {
      unique = λ id. omega (
        arith,
        v.unique id,
        count_if-update-le (has_id id) (has_id c.delivery_id) (started now) (λ e q. q) rows,
      );
      exclusive = λ key. elim (Bool-cases (on_key key c.issue_key)) [
        | inl t ↦ omega (
          arith,
          unblocked-idle rows c.issue_key key k.unblocked t,
          v.unique c.delivery_id,
          started-count-p now key (has_id c.delivery_id) rows,
        )
        | inr f ↦ omega (
          arith,
          v.exclusive key,
          only_row (has_id c.delivery_id) (λ e. on_key key e.issue_key) c rows
              (v.unique c.delivery_id) i (text_eq_refl c.delivery_id) f,
          started-count now key (has_id c.delivery_id) rows,
        )
      ];
    }

mark-calm :
    (now : ℕ) (state : EventState) (error : Option Text) (key : Text) (e : EventRow)
    → same_state state running ≡ false
    → running_on key (record e { state = state; last_error = error; finished_at = some now }) ≡ true
    → running_on key e ≡ true
mark-calm now state error key e calm h = absurd (ground arith)

step-IsSound :
    (now : ℕ) (op : Op) (rows : List EventRow)
    → asks_running op ≡ false
    → IsSound rows
    → IsSound (step now op rows)
unfolding step
step-IsSound now (record_op d state error) rows calm v =
    record_event-IsSound now d state error rows calm v
step-IsSound now claim_op rows calm v = claim_row-IsSound now (next_event now rows) rows refl v
step-IsSound now (mark_op id state error) rows calm v =
    update-IsSound (has_id id) _ rows (λ e. refl) (λ key e. mark-calm now state error key e calm) v
step-IsSound now (model_op id model) rows calm v =
    update-IsSound (has_id id) _ rows (λ e. refl) (λ key e h. h) v
step-IsSound now reset_op rows calm v =
    update-IsSound is_running requeued rows (λ e. refl) (λ key e h. absurd (ground arith)) v
step-IsSound now (remove_op id) rows calm v = remove_event-IsSound id rows v
step-IsSound now (replace_op d state allowed) rows calm v =
    replace_row-IsSound now d state allowed (find (has_id d.delivery_id) rows) rows calm refl v
step-IsSound now (requeue_op id from_states) rows calm v =
    update-IsSound (requeueable id from_states) requeued rows (λ e. refl)
      (λ key e h. absurd (ground arith)) v
step-IsSound now (retry_op id at error) rows calm v =
    update-IsSound (retryable_row id) _ rows (λ e. refl) (λ key e h. absurd (ground arith)) v

-- Each call of a sequence is told to write a state other than running, if it is told one.
unfoldable pub AllCalm : List (ℕ × Op) → Type 0
AllCalm [] = Unit
AllCalm ((now, op) ∷ ops) = (asks_running op ≡ false) × AllCalm ops

-- Any calls of the methods, at any times, none of them told to write the state running, keep delivery
-- ids unique and no issue with two running events.
pub run-IsSound :
    (ops : List (ℕ × Op)) (rows : List EventRow)
    → AllCalm ops
    → IsSound rows
    → IsSound (run ops rows)
unfolding run AllCalm
run-IsSound [] rows c v = v
run-IsSound ((now, op) ∷ ops) rows c v =
    run-IsSound ops (step now op rows) c.1 (step-IsSound now op rows c.0 v)
