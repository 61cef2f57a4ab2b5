-- ===== src/Robomp/Tracking/History.antt =====
-- src/robomp/db.py: what a row of `issues` holds after any calls of the methods that write it.
use oh_my_robot.Prelude.{
  ℕ, Text, text_eq, text_eq_refl, Option, none, some, List, [], ◌∷◌, ◌≡◌, refl, ap, ◌∙◌, arith,
  if◌then◌else◌,
}
use oh_my_robot.Robomp.Tracking.{
  IssueState, IssueRow, IssueUpsert, coalesce, merged_issue, inserted_issue, with_issue_state,
  with_issue_pr, with_classification, with_branch, get_issue,
}
use oh_my_robot.Robomp.Tracking.Lookup.{
  IssueOp, upsert_op, state_op, pr_op, classify_op, branch_op, IssueMap, issue_step, issue_effect,
  get_issue-issue_step,
}

-- Calls, each with its time.
unfoldable pub issue_run : List (ℕ × IssueOp) → List IssueRow → List IssueRow
unfolding issue_step
issue_run [] rows = rows
issue_run ((now, op) ∷ ops) rows = issue_run ops (issue_step now op rows)

abbrev key_of : IssueOp → Text
key_of (upsert_op a) = a.key
key_of (state_op key state) = key
key_of (pr_op key pr_number) = key
key_of (classify_op key name) = key
key_of (branch_op key branch) = key

-- What a call says about each column; `none` is that it says nothing.
abbrev pub branch_given : IssueOp → Option Text
branch_given (upsert_op a) = a.branch
branch_given (branch_op key branch) = some branch
branch_given _ = none

abbrev pub session_dir_given : IssueOp → Option Text
session_dir_given (upsert_op a) = a.session_dir
session_dir_given _ = none

abbrev pub pr_given : IssueOp → Option ℕ
pr_given (upsert_op a) = a.pr_number
pr_given (pr_op key pr_number) = some pr_number
pr_given _ = none

abbrev pub state_given : IssueOp → Option IssueState
state_given (upsert_op a) = some a.state
state_given (state_op key state) = some state
state_given _ = none

abbrev pub classification_given : IssueOp → Option Text
classification_given (classify_op key name) = some name
classification_given _ = none

abbrev newer {ℓ} : {A : Type ℓ} → A → Option A → A
newer old none = old
newer old (some a) = a

abbrev newer_column {ℓ} : {A : Type ℓ} → Option A → Option A → Option A
newer_column old none = old
newer_column old (some a) = some a

-- The last value that calls on the key give to a column, or what it held before.
abbrev pub last_column {ℓ} :
    {A : Type ℓ} → Text → (IssueOp → Option A) → Option A → List (ℕ × IssueOp) → Option A
last_column k given old [] = old
last_column k given old ((now, op) ∷ ops) =
    last_column k given (if text_eq (key_of op) k then newer_column old (given op) else old) ops

abbrev pub last_value {ℓ} : {A : Type ℓ} → Text → (IssueOp → Option A) → A → List (ℕ × IssueOp) → A
last_value k given old [] = old
last_value k given old ((now, op) ∷ ops) =
    last_value k given (if text_eq (key_of op) k then newer old (given op) else old) ops

-- The time of the last call on the key.
abbrev pub last_time : Text → ℕ → List (ℕ × IssueOp) → ℕ
last_time k old [] = old
last_time k old ((now, op) ∷ ops) = last_time k (if text_eq (key_of op) k then now else old) ops

-- The row that a row of the key has become after the calls.
pub record IsLatest (k : Text) (ops : List (ℕ × IssueOp)) (r r' : IssueRow) : Type 0 where
  pub same_key : r'.key ≡ r.key
  pub same_repo : r'.repo ≡ r.repo
  pub same_number : r'.number ≡ r.number
  pub branch : r'.branch ≡ last_column k branch_given r.branch ops
  pub session_dir : r'.session_dir ≡ last_column k session_dir_given r.session_dir ops
  pub pr_number : r'.pr_number ≡ last_column k pr_given r.pr_number ops
  pub state : r'.state ≡ last_value k state_given r.state ops
  pub classification : r'.classification ≡ last_column k classification_given r.classification ops
  pub updated_at : r'.updated_at ≡ last_time k r.updated_at ops

coalesce-newer {ℓ} : {A : Type ℓ} (new old : Option A) → coalesce new old ≡ newer_column old new
coalesce-newer none old = refl
coalesce-newer (some a) old = refl

abbrev written : ℕ → IssueOp → IssueRow → IssueRow
written now (upsert_op a) r = merged_issue now a r
written now (state_op key state) r = with_issue_state now state r
written now (pr_op key pr_number) r = with_issue_pr now pr_number r
written now (classify_op key name) r = with_classification now name r
written now (branch_op key branch) r = with_branch now branch r

-- One call, on a row that is there.
present-effect :
    (k : Text) (now : ℕ) (op : IssueOp) (issues : IssueMap) (r : IssueRow)
    → issues k ≡ some r
    → issue_effect now op issues k ≡ some (if text_eq (key_of op) k then written now op r else r)
present-effect k now (upsert_op a) issues r h = ground arith
present-effect k now (state_op key state) issues r h = ground arith
present-effect k now (pr_op key pr_number) issues r h = ground arith
present-effect k now (classify_op key name) issues r h = ground arith
present-effect k now (branch_op key branch) issues r h = ground arith

written-IsLatest :
    (k : Text) (now : ℕ) (op : IssueOp) (r : IssueRow)
    → IsLatest k ((now, op) ∷ []) r (if text_eq (key_of op) k then written now op r else r)
written-IsLatest k now (upsert_op a) r = ground (
  arith,
  coalesce-newer a.branch r.branch,
  coalesce-newer a.session_dir r.session_dir,
  coalesce-newer a.pr_number r.pr_number,
)
written-IsLatest k now (state_op key state) r = ground arith
written-IsLatest k now (pr_op key pr_number) r = ground arith
written-IsLatest k now (classify_op key name) r = ground arith
written-IsLatest k now (branch_op key branch) r = ground arith

-- What a first call and the calls after it do together.
IsLatest-trans :
    (k : Text) (now : ℕ) (op : IssueOp) (ops : List (ℕ × IssueOp)) (r r' r'' : IssueRow)
    → IsLatest k ((now, op) ∷ []) r r'
    → IsLatest k ops r' r''
    → IsLatest k ((now, op) ∷ ops) r r''
IsLatest-trans k now op ops r r' r'' first rest = record {
  same_key = rest.same_key ∙ first.same_key;
  same_repo = rest.same_repo ∙ first.same_repo;
  same_number = rest.same_number ∙ first.same_number;
  branch = rest.branch ∙ ap (λ old. last_column k branch_given old ops) first.branch;
  session_dir =
      rest.session_dir ∙ ap (λ old. last_column k session_dir_given old ops) first.session_dir;
  pr_number = rest.pr_number ∙ ap (λ old. last_column k pr_given old ops) first.pr_number;
  state = rest.state ∙ ap (λ old. last_value k state_given old ops) first.state;
  classification =
      rest.classification
      ∙ ap (λ old. last_column k classification_given old ops) first.classification;
  updated_at = rest.updated_at ∙ ap (λ old. last_time k old ops) first.updated_at;
}

issue_run-present :
    (k : Text) (ops : List (ℕ × IssueOp)) (rows : List IssueRow) (r : IssueRow)
    → get_issue k rows ≡ some r
    → (r' : IssueRow) × (get_issue k (issue_run ops rows) ≡ some r') × IsLatest k ops r r'
unfolding issue_run
issue_run-present k [] rows r h = (r, h, ground arith)
issue_run-present k ((now, op) ∷ ops) rows r h =
    let r₁ : IssueRow = if text_eq (key_of op) k then written now op r else r in
    let e : get_issue k (issue_step now op rows) ≡ some r₁ =
      get_issue-issue_step k now op rows ∙ present-effect k now op (λ k'. get_issue k' rows) r h in
    let (r', e', l) = issue_run-present k ops (issue_step now op rows) r₁ e in
    (r', e', IsLatest-trans k now op ops r r₁ r' (written-IsLatest k now op r) l)

-- The row that an upsert starts from: the one there, or one with no optional column.
abbrev pub starting_row : IssueUpsert → Option IssueRow → IssueRow
starting_row a (some r) = r
starting_row a none = record {
  key = a.key;
  repo = a.repo;
  number = a.number;
  branch = none;
  session_dir = none;
  pr_number = none;
  state = a.state;
  updated_at = 0;
  classification = none;
}

first_upsert :
    (now : ℕ) (a : IssueUpsert) (rows : List IssueRow) (o : Option IssueRow)
    → get_issue a.key rows ≡ o
    → (r : IssueRow) × (get_issue a.key (issue_step now (upsert_op a) rows) ≡ some r)
      × IsLatest a.key ((now, upsert_op a) ∷ []) (starting_row a o) r
first_upsert now a rows (some r) h = (
  if text_eq a.key a.key then merged_issue now a r else r,
  get_issue-issue_step a.key now (upsert_op a) rows
      ∙ present-effect a.key now (upsert_op a) (λ k. get_issue k rows) r h,
  written-IsLatest a.key now (upsert_op a) r,
)
first_upsert now a rows none h =
    let t = text_eq_refl a.key in
    let e = get_issue-issue_step a.key now (upsert_op a) rows in
    (
      inserted_issue now a,
      ground (arith, e, t, h),
      ground (
        arith,
        t,
        coalesce-newer a.branch none,
        coalesce-newer a.session_dir none,
        coalesce-newer a.pr_number none,
      ),
    )

-- Once an issue is upserted it has a row, whatever calls of the methods that write issues follow,
-- on any keys. The row keeps the key, the repository and the number of the row that was there, or
-- has the upsert's if none was;
-- its branch, session directory, Pull Request, state and classification are each the last value
-- that a call on the key gave, or what the row had before, where a call that gives no value
-- takes none away; and its time is that of the last call on the key.
pub issue_run-IsLatest :
    (now : ℕ) (a : IssueUpsert) (ops : List (ℕ × IssueOp)) (rows : List IssueRow)
    → (r : IssueRow) × (get_issue a.key (issue_run ((now, upsert_op a) ∷ ops) rows) ≡ some r)
      × IsLatest a.key ((now, upsert_op a) ∷ ops) (starting_row a (get_issue a.key rows)) r
unfolding issue_run
issue_run-IsLatest now a ops rows =
    let (r₁, e, first) = first_upsert now a rows (get_issue a.key rows) refl in
    let (r, e', rest) = issue_run-present a.key ops (issue_step now (upsert_op a) rows) r₁ e in
    (
      r,
      e',
      IsLatest-trans a.key now (upsert_op a) ops (starting_row a (get_issue a.key rows)) r₁ r first
          rest,
    )
