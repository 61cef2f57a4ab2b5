-- ===== src/Robomp/Dispatch.antt =====
-- src/robomp/queue.py, `_dispatch`: the function of tasks.py that a claimed event is handed to.
use oh_my_robot.Prelude.{
  Text, codes, text_eq, Bool, true, false, ◌&&◌, Option, none, some, [], ◌∷◌, if◌then◌else◌,
}
use oh_my_robot.Robomp.Json.{
  Json, Members, get, has_member, truthy, object_or_empty, in_or_empty, str_or_empty,
}
use oh_my_robot.Robomp.Routing.{
  Task, triage_issue, handle_release_ci, handle_pr_conversation, handle_comment, review_pr,
  handle_review, cleanup_workspace, one_of,
}

-- A call of tasks.py; `cleanup_workspace` also gets the state of the issue or Pull Request.
pub data Dispatched : Type 0 where
  runs : Task → Dispatched
  cleans_up : Text → Dispatched
  no_op : Dispatched

abbrev pub conversation : Option Bool → Option Dispatched
conversation none = none
conversation (some true) = some (runs handle_pr_conversation)
conversation (some false) = some (runs handle_comment)

abbrev pub merged_state : Option Members → Option Dispatched
merged_state none = none
merged_state (some pr) =
    some (cleans_up (if truthy (get (codes "merged") pr) then codes "merged" else codes "closed"))

-- `none` is an exception for a payload of another form.
unfoldable pub dispatch : (Json → Text) → Text → Members → Option Dispatched
unfolding get text_eq has_member
dispatch py_str event payload =
    let action = str_or_empty py_str (get (codes "action") payload) in
    if text_eq event (codes "issues") && one_of action (codes "opened" ∷ codes "reopened" ∷ [])
    then some (runs triage_issue)
    else if text_eq event (codes "workflow_run") && text_eq action (codes "completed")
    then some (runs handle_release_ci)
    else if text_eq event (codes "issue_comment") && text_eq action (codes "created")
    then conversation (in_or_empty (codes "pull_request") (get (codes "issue") payload))
    else if text_eq event (codes "pull_request")
        && one_of action
            (codes "opened" ∷ codes "reopened" ∷ codes "ready_for_review" ∷ codes "labeled" ∷ [])
    then some (runs review_pr)
    else if text_eq event (codes "pull_request_review_comment") && text_eq action (codes "created")
    then some (runs handle_review)
    else if text_eq event (codes "issues") && text_eq action (codes "closed")
    then some (cleans_up (codes "closed"))
    else if text_eq event (codes "pull_request") && text_eq action (codes "closed")
    then merged_state (object_or_empty (get (codes "pull_request") payload))
    else some no_op

abbrev pub task_of : Option Dispatched → Option Task
task_of none = none
task_of (some (runs task)) = some task
task_of (some (cleans_up state)) = some cleanup_workspace
task_of (some no_op) = none
