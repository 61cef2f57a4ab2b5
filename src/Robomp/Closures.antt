-- ===== src/Robomp/Closures.antt =====
-- src/robomp/db.py, the table `pending_closures`, and src/robomp/autoclose.py, the scheduler that
-- closes the questions that are due. A timestamp is a number of seconds.
pub mod Due
pub mod Keyed
pub mod Once
pub mod Ordering
pub mod Settle
use oh_my_robot.Prelude.{
  ℕ, zero, suc, ◌+◌, Text, codes, text_eq, lower, Bool, true, false, ◌&&◌, Option, none, some, List,
  [], ◌∷◌, ◌++◌, ◌==◌, leb, ltb, if◌then◌else◌, any, map, take, select, update, count_if,
}

pub data ClosureState : Type 0 where
  pending claimed closed cancelled : ClosureState

abbrev pub same_closure : ClosureState → ClosureState → Bool
same_closure pending pending = true
same_closure claimed claimed = true
same_closure closed closed = true
same_closure cancelled cancelled = true
same_closure _ _ = false

-- A row of the table, whose primary key is `issue_key`.
pub record PendingClosure : Type 0 where
  pub issue_key : Text
  pub repo : Text
  pub number : ℕ
  pub comment_id : ℕ
  pub issue_author : Text
  pub close_at : ℕ
  pub state : ClosureState
  pub cancel_reason : Option Text
  pub created_at : ℕ
  pub updated_at : ℕ

-- The arguments of `upsert_pending_closure`.
pub record Answered : Type 0 where
  pub issue_key : Text
  pub repo : Text
  pub number : ℕ
  pub comment_id : ℕ
  pub issue_author : Text
  pub close_at : ℕ

abbrev pub has_key : Text → PendingClosure → Bool
has_key key r = text_eq r.issue_key key

abbrev pub is_pending : PendingClosure → Bool
is_pending r = same_closure r.state pending

abbrev pub is_claimed : PendingClosure → Bool
is_claimed r = same_closure r.state claimed

abbrev pub scheduled : ℕ → Answered → PendingClosure
scheduled now a = record {
  issue_key = a.issue_key;
  repo = a.repo;
  number = a.number;
  comment_id = a.comment_id;
  issue_author = lower a.issue_author;
  close_at = a.close_at;
  state = pending;
  cancel_reason = none;
  created_at = now;
  updated_at = now;
}

-- `ON CONFLICT(issue_key) DO UPDATE`, which leaves the key and `created_at`.
abbrev pub rescheduled : ℕ → Answered → PendingClosure → PendingClosure
rescheduled now a r = record r {
  repo = a.repo;
  number = a.number;
  comment_id = a.comment_id;
  issue_author = lower a.issue_author;
  close_at = a.close_at;
  state = pending;
  cancel_reason = none;
  updated_at = now;
}

unfoldable pub upsert_pending_closure : ℕ → Answered → List PendingClosure → List PendingClosure
upsert_pending_closure now a rows =
    if any (has_key a.issue_key) rows
    then update (has_key a.issue_key) (rescheduled now a) rows
    else rows ++ scheduled now a ∷ []

abbrev pub is_due : ℕ → PendingClosure → Bool
is_due now r = is_pending r && leb r.close_at now

-- `ORDER BY close_at`, rows with the same time in the order of the table.
abbrev pub insert_by_time : PendingClosure → List PendingClosure → List PendingClosure
insert_by_time r [] = r ∷ []
insert_by_time r (s ∷ rows) =
    let later = s ∷ insert_by_time r rows in
    if leb r.close_at s.close_at then r ∷ s ∷ rows else later

abbrev pub order_by_time : List PendingClosure → List PendingClosure
order_by_time [] = []
order_by_time (r ∷ rows) = insert_by_time r (order_by_time rows)

-- The rows of the inner SELECT.
unfoldable pub due_rows : ℕ → ℕ → List PendingClosure → List PendingClosure
due_rows now limit rows = take limit (order_by_time (select (is_due now) rows))

-- `issue_key IN (…)` of rows chosen.
abbrev pub among : List PendingClosure → PendingClosure → Bool
among chosen r = any (has_key r.issue_key) chosen

abbrev pub claimed_at : ℕ → PendingClosure → PendingClosure
claimed_at now r = record r { state = claimed; updated_at = now }

-- The statement of `claim_due_closures`; the rows returned are those it wrote.
unfoldable pub claim_rows :
    ℕ → List PendingClosure → List PendingClosure → List PendingClosure × List PendingClosure
claim_rows now chosen rows =
    (update (among chosen) (claimed_at now) rows, map (claimed_at now) (select (among chosen) rows))

unfoldable pub claim_due_closures :
    ℕ → ℕ → List PendingClosure → List PendingClosure × List PendingClosure
unfolding due_rows claim_rows
claim_due_closures now limit rows = claim_rows now (due_rows now limit rows) rows

abbrev pub finalized : ℕ → ClosureState → Option Text → PendingClosure → PendingClosure
finalized now state reason r = record r { state = state; cancel_reason = reason; updated_at = now }

abbrev pub is_terminal : ClosureState → Bool
is_terminal state = any (same_closure state) (closed ∷ cancelled ∷ [])

-- `none` is the ValueError for a state that is not terminal.
unfoldable pub finalize_closure :
    ℕ → Text → ClosureState → Option Text → List PendingClosure → Option (List PendingClosure)
finalize_closure now key state reason rows =
    if is_terminal state
    then some (update (has_key key) (finalized now state reason) rows)
    else none

abbrev pub claimed_on : Text → PendingClosure → Bool
claimed_on key r = has_key key r && is_claimed r

abbrev pub put_back : ℕ → PendingClosure → PendingClosure
put_back now r = record r { state = pending; updated_at = now }

unfoldable pub requeue_claimed_closure : ℕ → Text → List PendingClosure → List PendingClosure × Bool
requeue_claimed_closure now key rows =
    (update (claimed_on key) (put_back now) rows, ltb 0 (count_if (claimed_on key) rows))

abbrev pub pending_on : Text → PendingClosure → Bool
pending_on key r = has_key key r && is_pending r

unfoldable pub cancel_pending_closure :
    ℕ → Text → Text → List PendingClosure → List PendingClosure × Bool
cancel_pending_closure now key reason rows = (
  update (pending_on key) (finalized now cancelled (some reason)) rows,
  ltb 0 (count_if (pending_on key) rows),
)

-- What a call to GitHub gives: a value, a GitHubError with its status, or another exception.
pub data Reply {ℓ} (A : Type ℓ) : Type ℓ where
  reply : A → Reply A
  github_error : ℕ → Reply A
  raised : Reply A

pub record Reaction : Type 0 where
  pub content : Text
  pub user_login : Text

-- The calls of GitHub that the scheduler makes, by what they answer during a tick.
pub record GitHub : Type 0 where
  pub list_comment_reactions : Text → ℕ → Reply (List Reaction)
  pub close_issue : Text → ℕ → Text → Reply {0} Unit

pub data Outcome : Type 0 where
  was_closed was_cancelled was_retried : Outcome

abbrev pub downvote_of : Text → Reaction → Bool
downvote_of author r = text_eq r.content (codes "-1") && text_eq (lower r.user_login) author

-- The table after a call, and what `_process_row` returns; `none` is an exception.
abbrev pub Step : Type 0
Step = List PendingClosure × Option Outcome

abbrev settled : Outcome → List PendingClosure → Option (List PendingClosure) → Step
settled out rows none = (rows, none)
settled out rows (some after) = (after, some out)

unfoldable pub process_closed : ℕ → PendingClosure → List PendingClosure → Reply {0} Unit → Step
unfolding finalize_closure requeue_claimed_closure
process_closed now row rows (reply _) =
    settled was_closed rows (finalize_closure now row.issue_key closed none rows)
process_closed now row rows (github_error status) =
    if status == 404
    then settled was_cancelled rows
        (finalize_closure now row.issue_key cancelled (some (codes "already_closed")) rows)
    else ((requeue_claimed_closure now row.issue_key rows).0, some was_retried)
process_closed now row rows raised = (rows, none)

unfoldable pub process_reactions :
    GitHub → ℕ → PendingClosure → List PendingClosure → Reply (List Reaction) → Step
unfolding process_closed finalize_closure requeue_claimed_closure
process_reactions github now row rows (reply reactions) =
    if any (downvote_of (lower row.issue_author)) reactions
    then settled was_cancelled rows
        (finalize_closure now row.issue_key cancelled (some (codes "author_downvoted")) rows)
    else process_closed now row rows (github.close_issue row.repo row.number (codes "completed"))
process_reactions github now row rows (github_error status) =
    ((requeue_claimed_closure now row.issue_key rows).0, some was_retried)
process_reactions github now row rows raised = (rows, none)

unfoldable pub process_row : GitHub → ℕ → PendingClosure → List PendingClosure → Step
unfolding process_reactions
process_row github now row rows =
    process_reactions github now row rows (github.list_comment_reactions row.repo row.comment_id)

pub record Counts : Type 0 where
  pub n_closed : ℕ
  pub n_cancelled : ℕ
  pub n_retried : ℕ

abbrev pub counted : Outcome → Counts → Counts
counted was_closed c = record c { n_closed = c.n_closed + 1 }
counted was_cancelled c = record c { n_cancelled = c.n_cancelled + 1 }
counted was_retried c = record c { n_retried = c.n_retried + 1 }

-- The loop of `tick`. `clock i` is the time that the write for the i-th row reads; the second
-- component is `none` when an exception ended the tick.
abbrev pub Ticked : Type 0
Ticked = List PendingClosure × Option Counts

abbrev pub after_row : (Counts → List PendingClosure → Ticked) → Counts → Step → Ticked
after_row continue counts (rows, none) = (rows, none)
after_row continue counts (rows, some out) = continue (counted out counts) rows

unfoldable pub process_rows :
    GitHub → (ℕ → ℕ) → List PendingClosure → Counts → List PendingClosure → Ticked
unfolding process_row
process_rows github clock [] counts rows = (rows, some counts)
process_rows github clock (row ∷ claims) counts rows =
    after_row (process_rows github (λ i. clock (suc i)) claims) counts
      (process_row github (clock 0) row rows)

abbrev pub no_counts : Counts
no_counts = record { n_closed = 0; n_cancelled = 0; n_retried = 0 }

-- `tick`, with the default limit of the claim.
unfoldable pub tick : GitHub → ℕ → (ℕ → ℕ) → List PendingClosure → Ticked
unfolding claim_due_closures process_rows
tick github now clock rows =
    let (rows', claims) = claim_due_closures now 50 rows in
    process_rows github clock claims no_counts rows'
