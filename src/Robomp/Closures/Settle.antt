-- ===== src/Robomp/Closures/Settle.antt =====
-- src/robomp/autoclose.py: what a tick of the scheduler leaves in the table.
pub mod Tick
use oh_my_robot.Prelude.{
  ℕ, zero, suc, ◌+◌, ◌≤◌, Text, codes, text_eq, text_eq_iff, text_eq_refl, lower, Bool, true, false,
  ◌&&◌, Option, none, some, List, [], ◌∷◌, ◌++◌, ◌≡◌, refl, sym, ◌∙◌, ap, arith, inl, inr, ◌==◌,
  if◌then◌else◌, In, All, any, map, length, length-append, select, update, count_if, map-In, In-map,
  is_some, Bool-cases, Option-cases,
}
use oh_my_robot.Robomp.Closures.{
  ClosureState, pending, claimed, closed, cancelled, PendingClosure, has_key, claimed_at,
  is_claimed, finalized, finalize_closure, claimed_on, put_back, requeue_claimed_closure, Reply,
  reply, github_error, raised, Reaction, GitHub, Outcome, was_closed, was_cancelled, was_retried,
  downvote_of, Step, process_closed, process_reactions, process_row, Counts, counted, Ticked,
  after_row, process_rows, no_counts, claim_due_closures, claim_rows, due_rows, among, tick,
}

-- What the answers of GitHub decide for a row: to close it, to cancel it for a reason, or to retry.
pub data Fate : Type 0 where
  closes : Fate
  cancels : Text → Fate
  retries : Fate

unfoldable pub fate_of_close : Reply {0} Unit → Option Fate
fate_of_close (reply _) = some closes
fate_of_close (github_error status) =
    some (if status == 404 then cancels (codes "already_closed") else retries)
fate_of_close raised = none

unfoldable pub fate_of : GitHub → PendingClosure → Reply (List Reaction) → Option Fate
unfolding fate_of_close
fate_of github row (reply reactions) =
    if any (downvote_of (lower row.issue_author)) reactions
    then some (cancels (codes "author_downvoted"))
    else fate_of_close (github.close_issue row.repo row.number (codes "completed"))
fate_of github row (github_error status) = some retries
fate_of github row raised = none

-- `none` when a call raises an exception that is not a GitHubError.
unfoldable pub fate : GitHub → PendingClosure → Option Fate
unfolding fate_of
fate github row = fate_of github row (github.list_comment_reactions row.repo row.comment_id)

-- The claimed row with its fate.
abbrev pub settled_as : Fate → ℕ → PendingClosure → PendingClosure
settled_as closes now row = finalized now closed none row
settled_as (cancels reason) now row = finalized now cancelled (some reason) row
settled_as retries now row = put_back now row

abbrev outcome_of : Fate → Outcome
outcome_of closes = was_closed
outcome_of (cancels reason) = was_cancelled
outcome_of retries = was_retried

-- The write for a row, on one row of the table.
abbrev pub touch : Fate → ℕ → Text → PendingClosure → PendingClosure
touch closes now key r = if has_key key r then finalized now closed none r else r
touch (cancels reason) now key r =
    if has_key key r then finalized now cancelled (some reason) r else r
touch retries now key r = if claimed_on key r then put_back now r else r

update-map :
    (p : PendingClosure → Bool) (f : PendingClosure → PendingClosure) (rows : List PendingClosure)
    → update p f rows ≡ map (λ r. if p r then f r else r) rows
update-map p f [] = refl
update-map p f (r ∷ rows) = ap (◌∷◌ (if p r then f r else r)) (update-map p f rows)

process_closed-touch :
    (now : ℕ) (row : PendingClosure) (rows : List PendingClosure) (answer : Reply {0} Unit)
    (f : Fate)
    → fate_of_close answer ≡ some f
    → process_closed now row rows answer
      ≡ (map (touch f now row.issue_key) rows, some (outcome_of f))
unfolding process_closed fate_of_close finalize_closure requeue_claimed_closure
process_closed-touch now row rows (reply _) f h =
    let e : closes ≡ f = ground arith in
    rw (← e) (rw (update-map (has_key row.issue_key) (finalized now closed none) rows) refl)
process_closed-touch now row rows (github_error status) f h = elim (Bool-cases (status == 404)) [
  | inl t ↦
      let e : cancels (codes "already_closed") ≡ f = ground arith in
      rw (← e) (
        rw t (
          rw
            (update-map (has_key row.issue_key)
              (finalized now cancelled (some (codes "already_closed"))) rows)
            refl))
  | inr n ↦
      let e : retries ≡ f = ground arith in
      rw (← e) (rw n (rw (update-map (claimed_on row.issue_key) (put_back now) rows) refl))
]
process_closed-touch now row rows raised f h = absurd (ground arith)

process_reactions-touch :
    (github : GitHub) (now : ℕ) (row : PendingClosure) (rows : List PendingClosure)
    (answer : Reply (List Reaction)) (f : Fate)
    → fate_of github row answer ≡ some f
    → process_reactions github now row rows answer
      ≡ (map (touch f now row.issue_key) rows, some (outcome_of f))
unfolding process_reactions fate_of finalize_closure requeue_claimed_closure
process_reactions-touch github now row rows (reply reactions) f h =
    elim (Bool-cases (any (downvote_of (lower row.issue_author)) reactions)) [
      | inl t ↦
          let e : cancels (codes "author_downvoted") ≡ f = ground arith in
          rw (← e) (
            rw t (
              rw
                (update-map (has_key row.issue_key)
                  (finalized now cancelled (some (codes "author_downvoted"))) rows)
                refl))
      | inr n ↦ rw n (
          process_closed-touch now row rows
            (github.close_issue row.repo row.number (codes "completed")) f (ground arith))
    ]
process_reactions-touch github now row rows (github_error status) f h =
    let e : retries ≡ f = ground arith in
    rw (← e) (rw (update-map (claimed_on row.issue_key) (put_back now) rows) refl)
process_reactions-touch github now row rows raised f h = absurd (ground arith)

process_row-touch :
    (github : GitHub) (now : ℕ) (row : PendingClosure) (rows : List PendingClosure) (f : Fate)
    → fate github row ≡ some f
    → process_row github now row rows ≡ (map (touch f now row.issue_key) rows, some (outcome_of f))
unfolding process_row fate
process_row-touch github now row rows f h =
    process_reactions-touch github now row rows
      (github.list_comment_reactions row.repo row.comment_id) f h

process_row-raised :
    (github : GitHub) (now : ℕ) (row : PendingClosure) (rows : List PendingClosure)
    → fate github row ≡ none
    → process_row github now row rows ≡ (rows, none)
unfolding process_row fate fate_of fate_of_close process_reactions process_closed
process_row-raised github now row rows h =
    ground (arith, github.list_comment_reactions row.repo row.comment_id)

-- The write for a row, by its fate, on one row of the table.
abbrev pub touch_by : Option Fate → ℕ → Text → PendingClosure → PendingClosure
touch_by none now key r = r
touch_by (some f) now key r = touch f now key r

process_row-touch_by :
    (github : GitHub) (now : ℕ) (row : PendingClosure) (rows : List PendingClosure) (f : Fate)
    → fate github row ≡ some f
    → process_row github now row rows
      ≡ (map (touch_by (fate github row) now row.issue_key) rows, some (outcome_of f))
process_row-touch_by github now row rows f e =
    process_row-touch github now row rows f e
    ∙ ap (λ o. (map (touch_by o now row.issue_key) rows, some (outcome_of f))) (sym e)

-- The writes for the rows claimed, on one row of the table.
abbrev pub touch_all : GitHub → (ℕ → ℕ) → List PendingClosure → PendingClosure → PendingClosure
touch_all github clock [] r = r
touch_all github clock (row ∷ claims) r =
    touch_all github (λ i. clock (suc i)) claims
      (touch_by (fate github row) (clock 0) row.issue_key r)

abbrev pub Decided : GitHub → PendingClosure → Type 0
Decided github row = is_some (fate github row) ≡ true

abbrev pub total : Counts → ℕ
total c = c.n_closed + c.n_cancelled + c.n_retried

map-map :
    (f g : PendingClosure → PendingClosure) (rows : List PendingClosure)
    → map g (map f rows) ≡ map (λ r. g (f r)) rows
map-map f g [] = refl
map-map f g (r ∷ rows) = ap (◌∷◌ (g (f r))) (map-map f g rows)

map_same : (rows : List PendingClosure) → map (λ r. r) rows ≡ rows
map_same [] = refl
map_same (r ∷ rows) = ap (◌∷◌ r) (map_same rows)

counted-total : (f : Fate) (c : Counts) → total (counted (outcome_of f) c) ≡ total c + 1
counted-total closes c = omega arith
counted-total (cancels reason) c = omega arith
counted-total retries c = omega arith

-- A loop whose calls are all answered writes each row, and counts it.
pub record IsLooped (github : GitHub) (clock : ℕ → ℕ) (claims : List PendingClosure)
    (counts : Counts) (rows : List PendingClosure) : Type 0 where
  pub final : Counts
  pub loops :
      process_rows github clock claims counts rows
      ≡ (map (touch_all github clock claims) rows, some final)
  pub adds : total final ≡ total counts + length claims

pub process_rows-IsLooped :
    (github : GitHub) (clock : ℕ → ℕ) (claims : List PendingClosure) (counts : Counts)
    (rows : List PendingClosure)
    → All (Decided github) claims
    → IsLooped github clock claims counts rows
unfolding process_rows
process_rows-IsLooped github clock [] counts rows d = record {
  final = counts;
  loops = rw map_same refl;
  adds = omega arith;
}
process_rows-IsLooped github clock (row ∷ claims) counts rows (d, ds) =
    elim (Option-cases (fate github row)) [
      | inl n ↦ absurd (ground arith)
      | inr (f, e) ↦
          let rest =
            process_rows-IsLooped github (λ i. clock (suc i)) claims (counted (outcome_of f) counts)
              (map (touch_by (fate github row) (clock 0) row.issue_key) rows) ds in
          record {
            final = rest.final;
            loops =
                ap (after_row (process_rows github (λ i. clock (suc i)) claims) counts)
                  (process_row-touch_by github (clock 0) row rows f e)
                ∙ rest.loops
                ∙ ap (λ l. (l, some rest.final))
                    (map-map (touch_by (fate github row) (clock 0) row.issue_key)
                      (touch_all github (λ i. clock (suc i)) claims) rows);
            adds = omega (arith, rest.adds, counted-total f counts);
          }
    ]

-- The loop stops at the first row with a call that raises.
pub process_rows-raised :
    (github : GitHub) (clock : ℕ → ℕ) (before after : List PendingClosure) (row : PendingClosure)
    (counts : Counts) (rows : List PendingClosure)
    → All (Decided github) before
    → fate github row ≡ none
    → process_rows github clock (before ++ row ∷ after) counts rows
      ≡ (map (touch_all github clock before) rows, none)
unfolding process_rows
process_rows-raised github clock [] after row counts rows d n =
    rw (process_row-raised github (clock 0) row rows n) (rw map_same refl)
process_rows-raised github clock (r ∷ before) after row counts rows (d, ds) n =
    elim (Option-cases (fate github r)) [
      | inl z ↦ absurd (ground arith)
      | inr (f, e) ↦
          ap (after_row (process_rows github (λ i. clock (suc i)) (before ++ row ∷ after)) counts)
            (process_row-touch_by github (clock 0) r rows f e)
          ∙ process_rows-raised github (λ i. clock (suc i)) before after row
              (counted (outcome_of f) counts)
              (map (touch_by (fate github r) (clock 0) r.issue_key) rows) ds n
          ∙ ap (λ l. (l, none))
              (map-map (touch_by (fate github r) (clock 0) r.issue_key)
                (touch_all github (λ i. clock (suc i)) before) rows)
    ]
