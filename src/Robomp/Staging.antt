-- ===== src/Robomp/Staging.antt =====
-- src/robomp/db.py: the tables `pr_review_comments` and `tool_calls`. An `id` is AUTOINCREMENT: one
-- more than the greatest the table has given, so the rows stand in the order of their ids.
pub mod Listing
use oh_my_robot.Prelude.{
  ℕ, ◌+◌, Text, text_eq, Bool, true, false, not, ◌&&◌, Option, none, some, List, [], ◌∷◌, ◌++◌, any,
  select, count_if,
}

pub record StagedReviewComment : Type 0 where
  pub id : ℕ
  pub issue_key : Text
  pub path : Text
  pub line : ℕ
  pub side : Text
  pub body : Text
  pub created_at : ℕ
  pub start_line : Option ℕ
  pub start_side : Option Text

-- The arguments of `stage_review_comment`.
pub record CommentDraft : Type 0 where
  pub issue_key : Text
  pub path : Text
  pub line : ℕ
  pub body : Text
  pub side : Text
  pub start_line : Option ℕ
  pub start_side : Option Text

pub record StagedComments : Type 0 where
  pub last_id : ℕ
  pub rows : List StagedReviewComment

abbrev pub staged_as : ℕ → ℕ → CommentDraft → StagedReviewComment
staged_as now id draft = record {
  id = id;
  issue_key = draft.issue_key;
  path = draft.path;
  line = draft.line;
  side = draft.side;
  body = draft.body;
  created_at = now;
  start_line = draft.start_line;
  start_side = draft.start_side;
}

unfoldable pub stage_review_comment :
    ℕ → CommentDraft → StagedComments → StagedReviewComment × StagedComments
stage_review_comment now draft t =
    let id = t.last_id + 1 in
    let row = staged_as now id draft in (row, record { last_id = id; rows = t.rows ++ row ∷ [] })

abbrev pub staged_on : Text → StagedReviewComment → Bool
staged_on issue_key c = text_eq c.issue_key issue_key

unfoldable pub list_staged_review_comments : Text → StagedComments → List StagedReviewComment
list_staged_review_comments issue_key t = select (staged_on issue_key) t.rows

unfoldable pub clear_staged_review_comments : Text → StagedComments → ℕ × StagedComments
clear_staged_review_comments issue_key t = (
  count_if (staged_on issue_key) t.rows,
  record t { rows = select (λ c. not (staged_on issue_key c)) t.rows },
)

-- A row of `tool_calls`; the arguments and the result are the texts that `json.dumps` gives.
pub record ToolCall : Type 0 where
  pub id : ℕ
  pub issue_key : Text
  pub tool : Text
  pub args_json : Text
  pub result_json : Option Text
  pub error : Option Text
  pub ts : ℕ

pub record ToolCalls : Type 0 where
  pub last_id : ℕ
  pub rows : List ToolCall

unfoldable pub log_tool_call :
    ℕ → Text → Text → Text → Option Text → Option Text → ToolCalls → ℕ × ToolCalls
log_tool_call now issue_key tool args_json result_json error t =
    let id = t.last_id + 1 in
    let call : ToolCall = record {
      id = id;
      issue_key = issue_key;
      tool = tool;
      args_json = args_json;
      result_json = result_json;
      error = error;
      ts = now;
    } in
    (id, record { last_id = id; rows = t.rows ++ call ∷ [] })

abbrev is_null : Option Text → Bool
is_null none = true
is_null (some e) = false

abbrev pub succeeded : Text → Text → ToolCall → Bool
succeeded issue_key tool call =
    text_eq call.issue_key issue_key && text_eq call.tool tool && is_null call.error

unfoldable pub has_successful_tool_call : Text → Text → ToolCalls → Bool
has_successful_tool_call issue_key tool t = any (succeeded issue_key tool) t.rows
