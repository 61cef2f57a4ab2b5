-- ===== src/Robomp/ManualTriage/Guard.antt =====
-- src/robomp/manual_triage.py: an enqueue by hand leaves an event that waits or runs as it is.
use oh_my_robot.Prelude.{
  ℕ, ◌≤◌, Text, codes, Bool, true, false, not, ◌||◌, Option, none, some, List, ◌≡◌, ◌⊎◌, refl, sym,
  subst, arith, inl, inr, find, find-In, In, In-append-left, select, select-In, count_if, one_In,
  Bool-cases,
}
use oh_my_robot.Robomp.Closures.{Reply}
use oh_my_robot.Robomp.Dispatch.{dispatch, runs}
use oh_my_robot.Robomp.Events.{
  EventRow, queued, Delivery, has_id, remove_event, state_in, replace_row,
  replace_event_if_state_in,
}
use oh_my_robot.Robomp.Json.{Json, Members}
use oh_my_robot.Robomp.ManualTriage.{
  IssueInfo, RepoInfo, opened_payload, manual_delivery_id, Enqueued, fetched, is_active,
  inactive_states, answered, manual_delivery, replace_by, is_busy, enqueue_manual_triage,
}
use oh_my_robot.Robomp.Routing.{triage_issue}

-- The row is that of another delivery, or waits or runs.
abbrev pub stays : Text → EventRow → Bool
stays id e = not (has_id id e) || is_active e

inactive : (x : EventRow) → is_active x ≡ true → state_in inactive_states x ≡ false
inactive x h = ground (arith, h)

replace_row-keeps :
    (now : ℕ) (d : Delivery) (o : Option EventRow) (e : EventRow) (rows : List EventRow)
    → find (has_id d.delivery_id) rows ≡ o
    → count_if (has_id d.delivery_id) rows ≤ 1
    → stays d.delivery_id e ≡ true
    → In e rows
    → In e (replace_row now d queued inactive_states o rows).0
unfolding replace_row remove_event
replace_row-keeps now d none e rows h one s i = In-append-left e rows _ i
replace_row-keeps now d (some x) e rows h one s i = elim (Bool-cases (state_in inactive_states x)) [
  | inr f ↦ rw f i
  | inl t ↦ elim (Bool-cases (has_id d.delivery_id e)) [
    | inr g ↦ rw t (
        In-append-left e (select (λ r. not (has_id d.delivery_id r)) rows) _
          (select-In (λ r. not (has_id d.delivery_id r)) e rows i (ground (arith, g))))
    | inl k ↦
        let (j, l) = find-In (has_id d.delivery_id) x rows h in
        let q : x ≡ e = one_In (has_id d.delivery_id) x e rows one j i l k in
        let a : is_active e ≡ true = ground (arith, s, k) in
        let b : state_in inactive_states x ≡ false =
          inactive x (subst (λ y. is_active y ≡ true) (sym q) a) in
        absurd (ground (arith, t, b))
  ]
]

answered-rows : (id : Text) (r : List EventRow × Bool) → (answered id r).0 ≡ r.0
answered-rows id (rows, true) = refl
answered-rows id (rows, false) = refl

replace_by-keeps :
    (dumps : Members → Text) (now : ℕ) (repo_full : Text) (number : ℕ) (f : Members ⊎ Enqueued)
    (e : EventRow) (rows : List EventRow)
    → count_if (has_id (manual_delivery_id repo_full number)) rows ≤ 1
    → stays (manual_delivery_id repo_full number) e ≡ true
    → In e rows
    → In e (replace_by dumps now repo_full number f rows).0
unfolding replace_event_if_state_in
replace_by-keeps dumps now repo_full number (inr failure) e rows one s i = i
replace_by-keeps dumps now repo_full number (inl payload) e rows one s i =
    let id = manual_delivery_id repo_full number in
    let d = manual_delivery dumps repo_full number payload in
    subst (In e)
      (sym (answered-rows id (replace_event_if_state_in now d queued inactive_states rows)))
      (replace_row-keeps now d (find (has_id id) rows) e rows refl one s i)

-- Whatever GitHub answers and whatever other tasks do to the table meanwhile, `enqueue_manual_triage`
-- leaves a row that is in the table before and after that as it is, if it is of another delivery or
-- queued or running, and if the table has the delivery at most once when GitHub has answered.
pub enqueue_manual_triage-keeps :
    (dumps : Members → Text) (now : ℕ) (repo_full : Text) (number : ℕ) (issue : Reply IssueInfo)
    (repo : Reply RepoInfo) (during : List EventRow → List EventRow) (e : EventRow)
    (rows : List EventRow)
    → count_if (has_id (manual_delivery_id repo_full number)) (during rows) ≤ 1
    → stays (manual_delivery_id repo_full number) e ≡ true
    → In e rows
    → In e (during rows)
    → In e (enqueue_manual_triage dumps now repo_full number issue repo during rows).0
unfolding enqueue_manual_triage
enqueue_manual_triage-keeps dumps now repo_full number issue repo during e rows one s i j =
    let id = manual_delivery_id repo_full number in
    elim (Bool-cases (is_busy (find (has_id id) rows))) [
      | inl t ↦ rw t i
      | inr f ↦
          rw f (
            replace_by-keeps dumps now repo_full number (fetched issue repo) e (during rows) one s
              j)
    ]

-- The payload that is enqueued by hand is dispatched to `triage_issue`.
opened_payload-dispatch :
    (py_str : Json → Text) (issue : IssueInfo) (repo : RepoInfo)
    → dispatch py_str (codes "issues") (opened_payload issue repo) ≡ some (runs triage_issue)
unfolding dispatch opened_payload
opened_payload-dispatch py_str issue repo = refl
