-- ===== src/Robomp/Tracking.antt =====
-- src/robomp/db.py: the tables `issues` and `releases`. A timestamp is a number of seconds.
-- The methods that return the row they write read it back by `get_issue` or `get_release`.
pub mod History
pub mod Lookup
use oh_my_robot.Prelude.{
  ℕ, ◌+◌, Text, text_eq, sql_eq, Bool, true, false, not, ◌&&◌, ◌||◌, Option, none, some, List, [],
  ◌∷◌, ◌++◌, leb, ltb, ◌==◌, if◌then◌else◌, any, find, select, update, first_by,
}

pub data IssueState : Type 0 where
  new_issue reproducing fixing_issue reviewing opened merged : IssueState
  closed_issue needs_info abandoned : IssueState

pub record IssueRow : Type 0 where
  pub key : Text
  pub repo : Text
  pub number : ℕ
  pub branch : Option Text
  pub session_dir : Option Text
  pub pr_number : Option ℕ
  pub state : IssueState
  pub updated_at : ℕ
  pub classification : Option Text

-- The arguments of `upsert_issue`.
pub record IssueUpsert : Type 0 where
  pub key : Text
  pub repo : Text
  pub number : ℕ
  pub state : IssueState
  pub branch : Option Text
  pub session_dir : Option Text
  pub pr_number : Option ℕ

abbrev pub has_issue_key : Text → IssueRow → Bool
has_issue_key key r = text_eq r.key key

abbrev pub coalesce {ℓ} : {A : Type ℓ} → Option A → Option A → Option A
coalesce none other = other
coalesce (some a) other = some a

abbrev pub inserted_issue : ℕ → IssueUpsert → IssueRow
inserted_issue now a = record {
  key = a.key;
  repo = a.repo;
  number = a.number;
  branch = a.branch;
  session_dir = a.session_dir;
  pr_number = a.pr_number;
  state = a.state;
  updated_at = now;
  classification = none;
}

abbrev pub merged_issue : ℕ → IssueUpsert → IssueRow → IssueRow
merged_issue now a r = record r {
  branch = coalesce a.branch r.branch;
  session_dir = coalesce a.session_dir r.session_dir;
  pr_number = coalesce a.pr_number r.pr_number;
  state = a.state;
  updated_at = now;
}

unfoldable pub upsert_issue : ℕ → IssueUpsert → List IssueRow → List IssueRow
upsert_issue now a rows =
    if any (has_issue_key a.key) rows
    then update (has_issue_key a.key) (merged_issue now a) rows
    else rows ++ inserted_issue now a ∷ []

-- `UPDATE issues SET … WHERE key=?` of the setters.
abbrev pub set_issue : (IssueRow → IssueRow) → Text → List IssueRow → List IssueRow
set_issue change key rows = update (has_issue_key key) change rows

abbrev pub with_issue_state : ℕ → IssueState → IssueRow → IssueRow
with_issue_state now state r = record r { state = state; updated_at = now }

abbrev pub with_issue_pr : ℕ → ℕ → IssueRow → IssueRow
with_issue_pr now pr_number r = record r { pr_number = some pr_number; updated_at = now }

abbrev pub with_classification : ℕ → Text → IssueRow → IssueRow
with_classification now classification r = record r {
  classification = some classification;
  updated_at = now;
}

abbrev pub with_branch : ℕ → Text → IssueRow → IssueRow
with_branch now branch r = record r { branch = some branch; updated_at = now }

unfoldable pub set_issue_state : ℕ → Text → IssueState → List IssueRow → List IssueRow
set_issue_state now key state rows = set_issue (with_issue_state now state) key rows

unfoldable pub set_issue_pr : ℕ → Text → ℕ → List IssueRow → List IssueRow
set_issue_pr now key pr_number rows = set_issue (with_issue_pr now pr_number) key rows

unfoldable pub set_issue_classification : ℕ → Text → Text → List IssueRow → List IssueRow
set_issue_classification now key classification rows =
    set_issue (with_classification now classification) key rows

unfoldable pub set_issue_branch : ℕ → Text → Text → List IssueRow → List IssueRow
set_issue_branch now key branch rows = set_issue (with_branch now branch) key rows

unfoldable pub get_issue : Text → List IssueRow → Option IssueRow
get_issue key rows = find (has_issue_key key) rows

abbrev same_number : ℕ → Option ℕ → Bool
same_number n none = false
same_number n (some m) = m == n

unfoldable pub find_issue_by_pr : Text → ℕ → List IssueRow → Option IssueRow
find_issue_by_pr repo pr_number rows =
    find (λ r. text_eq r.repo repo && same_number pr_number r.pr_number) rows

abbrev newer_issue : IssueRow → IssueRow → Bool
newer_issue a b = leb b.updated_at a.updated_at

unfoldable pub find_issue_by_branch : Text → Text → List IssueRow → Option IssueRow
unfolding sql_eq
find_issue_by_branch repo branch rows =
    first_by newer_issue (select (λ r. text_eq r.repo repo && sql_eq r.branch (some branch)) rows)

pub data ReleaseState : Type 0 where
  awaiting_ci fixing green failed superseded : ReleaseState

pub record ReleaseRow : Type 0 where
  pub key : Text
  pub repo : Text
  pub tag : Text
  pub version : Text
  pub state : ReleaseState
  pub current_sha : Text
  pub last_failed_sha : Option Text
  pub rounds : ℕ
  pub last_error : Option Text
  pub session_dir : Option Text
  pub created_at : ℕ
  pub updated_at : ℕ

abbrev pub has_release_key : Text → ReleaseRow → Bool
has_release_key key r = text_eq r.key key

-- The row that `upsert_release` inserts; one that is there is left.
unfoldable pub upsert_release :
    ℕ → Text → Text → Text → Text → Option Text → List ReleaseRow → List ReleaseRow
upsert_release now repo tag version current_sha session_dir rows =
    let key = repo ++ b'#' ∷ tag in
    if any (has_release_key key) rows
    then rows
    else rows
      ++ record {
        key = key;
        repo = repo;
        tag = tag;
        version = version;
        state = awaiting_ci;
        current_sha = current_sha;
        last_failed_sha = none;
        rounds = 0;
        last_error = none;
        session_dir = session_dir;
        created_at = now;
        updated_at = now;
      }
        ∷ []

unfoldable pub get_release : Text → List ReleaseRow → Option ReleaseRow
get_release key rows = find (has_release_key key) rows

abbrev is_active_release : ReleaseState → Bool
is_active_release awaiting_ci = true
is_active_release fixing = true
is_active_release _ = false

-- `ORDER BY updated_at DESC, rowid DESC`: of rows of one time the last of the table.
abbrev strictly_newer : ReleaseRow → ReleaseRow → Bool
strictly_newer a b = ltb b.updated_at a.updated_at

unfoldable pub get_active_release : Text → List ReleaseRow → Option ReleaseRow
get_active_release repo rows =
    first_by strictly_newer (select (λ r. text_eq r.repo repo && is_active_release r.state) rows)

unfoldable pub set_release_state :
    ℕ → Text → ReleaseState → Option Text → List ReleaseRow → List ReleaseRow
set_release_state now key state error rows =
    update (has_release_key key)
      (λ r. record r { state = state; last_error = error; updated_at = now }) rows

unfoldable pub set_release_sha : ℕ → Text → Text → List ReleaseRow → List ReleaseRow
set_release_sha now key sha rows =
    update (has_release_key key) (λ r. record r { current_sha = sha; updated_at = now }) rows

unfoldable pub bump_release_round : ℕ → Text → Text → List ReleaseRow → List ReleaseRow
bump_release_round now key failed_sha rows =
    update (has_release_key key)
      (λ r. record r {
        rounds = r.rounds + 1;
        last_failed_sha = some failed_sha;
        state = fixing;
        last_error = none;
        updated_at = now;
      })
      rows
