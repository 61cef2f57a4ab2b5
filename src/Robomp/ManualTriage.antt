-- ===== src/Robomp/ManualTriage.antt =====
-- src/robomp/manual_triage.py: an issue is enqueued by hand, and its event awaited. GitHub and
-- `json.dumps` are parameters; times are in milliseconds.
pub mod Await
pub mod Guard
use oh_my_robot.Prelude.{
  ℕ, zero, suc, ◌+◌, ◌-◌, ◌≤◌, ◌<◌, min, Text, codes, text_eq, decimal, Bool, true, false, not,
  ◌||◌, Option, none, some, List, [], ◌∷◌, ◌++◌, ◌≡◌, ◌⊎◌, refl, subst, arith, inl, inr, leb, ltb,
  ◌==◌, if◌then◌else◌, any, find, Bool-cases, Option-cases,
}
use oh_my_robot.Prelude.Int.{pos}
use oh_my_robot.Robomp.Closures.{Reply, reply, github_error, raised}
use oh_my_robot.Robomp.Events.{
  EventRow, EventState, queued, running, done, failed, skipped, same_state, Delivery, has_id,
  replace_event_if_state_in, state_in,
}
use oh_my_robot.Robomp.Json.{
  Json, boolean, integer, text, array, object, Items, no_item, item, Members, no_member, member,
  get,
}

pub record IssueInfo : Type 0 where
  pub number : ℕ
  pub title : Text
  pub body : Text
  pub state : Text
  pub author : Text
  pub labels : List Text
  pub is_pull_request : Bool

pub record RepoInfo : Type 0 where
  pub full_name : Text
  pub default_branch : Text
  pub clone_url : Text
  pub private_repo : Bool

abbrev slashes_out : Text → Text
slashes_out [] = []
slashes_out (c ∷ s) = if c == b'/' then codes "__" ++ slashes_out s else c ∷ slashes_out s

unfoldable pub manual_delivery_id : Text → ℕ → Text
unfolding decimal
manual_delivery_id repo_full number =
    codes "manual-" ++ slashes_out repo_full ++ b'-' ∷ decimal number

abbrev label_items : List Text → Items
label_items [] = no_item
label_items (name ∷ labels) =
    item (object (member (codes "name") (text name) no_member)) (label_items labels)

-- The payload of `build_issues_opened_payload`, once GitHub has answered.
unfoldable pub opened_payload : IssueInfo → RepoInfo → Members
opened_payload issue repo = member (codes "action") (text (codes "opened")) (
    member (codes "issue")
      (object (
        member (codes "number") (integer (pos issue.number)) (
          member (codes "title") (text issue.title) (
            member (codes "body") (text issue.body) (
              member (codes "state") (text issue.state) (
                member (codes "user")
                  (object (member (codes "login") (text issue.author) no_member))
                  (member (codes "labels") (array (label_items issue.labels)) no_member)))))))
      (member (codes "repository")
        (object (
          member (codes "full_name") (text repo.full_name) (
            member (codes "default_branch") (text repo.default_branch) (
              member (codes "clone_url") (text repo.clone_url)
                (member (codes "private") (boolean repo.private_repo) no_member)))))
        no_member))

-- How an enqueue ends; a conflict names the state of the event that is there.
pub data Enqueued : Type 0 where
  enqueued : Text → Enqueued
  conflict : Text → Option EventState → Enqueued
  not_an_issue : Enqueued
  fetch_failed : Enqueued

-- The payload, or how the fetch ended.
abbrev fetched : Reply IssueInfo → Reply RepoInfo → Members ⊎ Enqueued
fetched (reply issue) repo = if issue.is_pull_request then inr not_an_issue else with_repo repo
  where
    with_repo : Reply RepoInfo → Members ⊎ Enqueued
    with_repo (reply info) = inl (opened_payload issue info)
    with_repo (github_error status) = inr fetch_failed
    with_repo raised = inr fetch_failed
fetched (github_error status) repo = inr fetch_failed
fetched raised repo = inr fetch_failed

abbrev is_active : EventRow → Bool
is_active e = any (same_state e.state) (queued ∷ running ∷ [])

abbrev inactive_states : List EventState
inactive_states = done ∷ failed ∷ skipped ∷ []

abbrev state_of : Option EventRow → Option EventState
state_of none = none
state_of (some e) = some e.state

abbrev pub Enqueue : Type 0
Enqueue = List EventRow × Enqueued

abbrev answered : Text → List EventRow × Bool → Enqueue
answered id (rows, true) = (rows, enqueued id)
answered id (rows, false) = (rows, conflict id (state_of (find (has_id id) rows)))

abbrev manual_delivery : (Members → Text) → Text → ℕ → Members → Delivery
manual_delivery dumps repo_full number payload = record {
  delivery_id = manual_delivery_id repo_full number;
  event_type = codes "issues";
  repo = some repo_full;
  issue_key = some (repo_full ++ b'#' ∷ decimal number);
  payload = dumps payload;
}

abbrev replace_by : (Members → Text) → ℕ → Text → ℕ → Members ⊎ Enqueued → List EventRow → Enqueue
replace_by dumps now repo_full number (inr failure) rows = (rows, failure)
replace_by dumps now repo_full number (inl payload) rows =
    answered (manual_delivery_id repo_full number) (
      replace_event_if_state_in now (manual_delivery dumps repo_full number payload) queued
        inactive_states rows)

abbrev is_busy : Option EventRow → Bool
is_busy none = false
is_busy (some e) = is_active e

-- `during` is what other tasks do to the table while GitHub is asked.
unfoldable pub enqueue_manual_triage :
    (Members → Text)
    → ℕ
    → Text
    → ℕ
    → Reply IssueInfo
    → Reply RepoInfo
    → (List EventRow → List EventRow)
    → List EventRow
    → Enqueue
unfolding manual_delivery_id opened_payload replace_event_if_state_in decimal
enqueue_manual_triage dumps now repo_full number issue repo during rows =
    let id = manual_delivery_id repo_full number in
    let existing = find (has_id id) rows in
    if is_busy existing
    then (rows, conflict id (state_of existing))
    else replace_by dumps now repo_full number (fetched issue repo) (during rows)

abbrev pub is_terminal_event : EventRow → Bool
is_terminal_event e = any (same_state e.state) inactive_states

pub data Awaited : Type 0 where
  deleted : Awaited
  ended_with : EventRow → Awaited
  timed_out : EventState → Awaited

-- The row that the poll number `i` reads, and how much later than asked the sleep after it ends.
pub record Polls : Type 0 where
  pub seen : ℕ → Option EventRow
  pub late : ℕ → ℕ

abbrev pub sleep_for : ℕ → ℕ → Option ℕ → ℕ
sleep_for poll now none = poll
sleep_for poll now (some deadline) = min poll (deadline - now)

abbrev pub is_over : ℕ → Option ℕ → Bool
is_over now none = false
is_over now (some deadline) = leb deadline now

-- What follows a poll; `rest` is the loop after the sleep.
abbrev pub after_poll : ℕ → Option ℕ → Option Awaited → Option EventRow → Option Awaited
after_poll now deadline rest none = some deleted
after_poll now deadline rest (some e) =
    if is_terminal_event e
    then some (ended_with e)
    else if is_over now deadline
    then some (timed_out e.state)
    else rest

-- The loop on fuel; `none` is a loop that is not finished.
unfoldable pub await_polls : Polls → ℕ → Option ℕ → ℕ → ℕ → ℕ → Option Awaited
await_polls p poll deadline zero now i = none
await_polls p poll deadline (suc fuel) now i =
    let rest =
      await_polls p poll deadline fuel (now + sleep_for poll now deadline + p.late i) (suc i) in
    after_poll now deadline rest (p.seen i)

abbrev deadline_of : ℕ → Option ℕ → Option ℕ
deadline_of now none = none
deadline_of now (some timeout) = some (now + timeout)

unfoldable pub await_terminal_state : Polls → ℕ → Option ℕ → ℕ → ℕ → Option Awaited
unfolding await_polls
await_terminal_state p poll timeout fuel now =
    await_polls p poll (deadline_of now timeout) fuel now 0
