-- ===== src/Robomp/Witnesses/Limits.antt =====
-- Submissions, manual triage and issues at concrete inputs.
use oh_my_robot.Prelude.{
  ℕ, ◌+◌, Text, codes, text_eq, decimal, false, none, some, List, [], ◌∷◌, ◌≡◌, refl, inl, arith,
  In,
}
use oh_my_robot.Robomp.Closures.{reply}
use oh_my_robot.Robomp.Events.{EventRow, queued, new_row}
use oh_my_robot.Robomp.Tracking.{
  IssueUpsert, IssueRow, reproducing, new_issue, inserted_issue, get_issue,
}
use oh_my_robot.Robomp.Tracking.Lookup.{IssueOp, upsert_op, state_op, pr_op}
use oh_my_robot.Robomp.Tracking.History.{issue_run, IsLatest, starting_row, issue_run-IsLatest}
use oh_my_robot.Robomp.ManualTriage.Await.{IsSeen, await_terminal_state-Ends}
use oh_my_robot.Robomp.ManualTriage.Guard.{enqueue_manual_triage-keeps}
use oh_my_robot.Robomp.ManualTriage.{
  IssueInfo, RepoInfo, manual_delivery_id, enqueue_manual_triage, Awaited, Polls,
  await_terminal_state,
}
use oh_my_robot.Robomp.Submissions.{AdmissionRequest, admit_all, IsCapped, admit_all-IsCapped}

abbrev request : Text → ℕ → AdmissionRequest
request id since = record {
  delivery_id = id;
  login = codes "Ann";
  repo = none;
  since = since;
  now = since + 60;
}

abbrev requests : List AdmissionRequest
requests = request (codes "d1") 10 ∷ request (codes "d2") 20 ∷ request (codes "d3") 30 ∷ []

admit_all-IsCapped_example : IsCapped (λ login. some 2) 30 (admit_all (λ login. some 2) requests [])
admit_all-IsCapped_example =
    admit_all-IsCapped (λ login. some 2) 5 requests []
      (omega arith, (omega arith, (omega arith, tt))) (λ login limit e. omega arith)

abbrev waiting_row : EventRow
waiting_row =
    new_row 5
      (record {
        delivery_id = codes "manual-o__r-1";
        event_type = codes "issues";
        repo = some (codes "o/r");
        issue_key = some (codes "o/r#1");
        payload = codes "{}";
      })
      queued none

abbrev polls : Polls
polls = record { seen = λ i. some waiting_row; late = λ i. 3 }

await_terminal_state-Ends_example :
    (out : Awaited) × (await_terminal_state polls 2000 (some 5) 6 100 ≡ some out) × IsSeen polls out
await_terminal_state-Ends_example =
    await_terminal_state-Ends polls 2000 5 100 6 (omega arith) (omega arith)

abbrev issue : IssueInfo
issue = record {
  number = 1;
  title = codes "t";
  body = codes "b";
  state = codes "open";
  author = codes "ann";
  labels = codes "bug" ∷ [];
  is_pull_request = false;
}

abbrev repository : RepoInfo
repository = record {
  full_name = codes "o/r";
  default_branch = codes "main";
  clone_url = codes "u";
  private_repo = false;
}

enqueue_manual_triage-keeps_example :
    In waiting_row
      (enqueue_manual_triage
        (λ payload. codes "{}")
        9
        (codes "o/r")
        1
        (reply issue)
        (reply repository)
        (λ rows. rows)
        (waiting_row ∷ [])).0
unfolding manual_delivery_id decimal text_eq
enqueue_manual_triage-keeps_example =
    enqueue_manual_triage-keeps (λ payload. codes "{}") 9 (codes "o/r") 1 (reply issue)
      (reply repository) (λ rows. rows) waiting_row (waiting_row ∷ []) (omega arith) refl (inl refl)
      (inl refl)

abbrev first_upsert : IssueUpsert
first_upsert = record {
  key = codes "o/r#1";
  repo = codes "o/r";
  number = 1;
  state = new_issue;
  branch = some (codes "b1");
  session_dir = none;
  pr_number = none;
}

abbrev second_upsert : IssueUpsert
second_upsert = record first_upsert { state = reproducing; branch = none; pr_number = some 4 }

-- Calls after a second upsert of the issue, one of them on another issue.
abbrev calls : List (ℕ × IssueOp)
calls =
    (10, pr_op (codes "o/r#2") 9)
    ∷ (11, upsert_op (record second_upsert { pr_number = none }))
    ∷ (12, state_op (codes "o/r#1") reproducing)
    ∷ []

issue_run-IsLatest_example :
    (r : IssueRow) × (get_issue
        (codes "o/r#1")
        (issue_run ((9, upsert_op second_upsert) ∷ calls) (inserted_issue 5 first_upsert ∷ []))
      ≡ some r)
    × IsLatest
        (codes "o/r#1")
        ((9, upsert_op second_upsert) ∷ calls)
        (starting_row second_upsert
          (get_issue (codes "o/r#1") (inserted_issue 5 first_upsert ∷ [])))
        r
issue_run-IsLatest_example =
    issue_run-IsLatest 9 second_upsert calls (inserted_issue 5 first_upsert ∷ [])
