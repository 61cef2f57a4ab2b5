-- ===== src/Robomp/Closures/Settle/Tick.antt =====
-- src/robomp/autoclose.py: the rows of the table after a tick.
use oh_my_robot.Prelude.{
  ℕ, suc, ◌≤◌, Text, text_eq, text_eq_refl, text_eq_swap, Bool, true, false, Option, none, some,
  List, [], ◌∷◌, ◌++◌, ◌≡◌, refl, sym, subst, ◌∙◌, ap, arith, if◌then◌else◌, In, All, any, map,
  length, In-append, select, update, count_if, count_if-append, map-In, In-map, In-select,
  update-In, zero-any, count_if-pos_of_In,
}
use oh_my_robot.Robomp.Closures.{
  PendingClosure, has_key, claimed_at, is_claimed, GitHub, Counts, process_rows, no_counts,
  claim_due_closures, claim_rows, due_rows, among, tick,
}
use oh_my_robot.Robomp.Closures.Keyed.{IsKeyed}
use oh_my_robot.Robomp.Closures.Settle.{
  Fate, closes, cancels, retries, fate, settled_as, touch_by, touch_all, Decided, total,
  process_rows-raised,
}

touch_by_other :
    (o : Option Fate) (now : ℕ) (key : Text) (r : PendingClosure)
    → text_eq r.issue_key key ≡ false
    → touch_by o now key r ≡ r
touch_by_other none now key r f = refl
touch_by_other (some closes) now key r f = ground arith
touch_by_other (some (cancels reason)) now key r f = ground arith
touch_by_other (some retries) now key r f = ground arith

-- A row that no row claimed has the key of is not written.
touch_all_other :
    (github : GitHub) (clock : ℕ → ℕ) (claims : List PendingClosure) (r : PendingClosure)
    → any (has_key r.issue_key) claims ≡ false
    → touch_all github clock claims r ≡ r
touch_all_other github clock [] r f = refl
touch_all_other github clock (row ∷ claims) r f =
    rw
      (touch_by_other (fate github row) (clock 0) row.issue_key r
        (text_eq_swap row.issue_key r.issue_key (ground arith)))
      (touch_all_other github (λ i. clock (suc i)) claims r (ground arith))

count-claims :
    (key : Text) (p : PendingClosure → Bool) (rows : List PendingClosure) (now : ℕ)
    → count_if (has_key key) (map (claimed_at now) (select p rows)) ≤ count_if (has_key key) rows
count-claims key p [] now = omega arith
count-claims key p (r ∷ rows) now = ground (arith, count-claims key p rows now)

-- A row ends a tick as GitHub's answers decide, written at one of its times.
pub record IsSettled (github : GitHub) (clock : ℕ → ℕ) (row : PendingClosure)
    (rows : List PendingClosure) : Type 0 where
  pub verdict : Fate
  pub decides : fate github row ≡ some verdict
  pub turn : ℕ
  pub written : In (settled_as verdict (clock turn) row) rows

record IsTouched (github : GitHub) (clock : ℕ → ℕ) (row : PendingClosure)
    (claims : List PendingClosure) : Type 0 where
  verdict : Fate
  decides : fate github row ≡ some verdict
  turn : ℕ
  touched : touch_all github clock claims row ≡ settled_as verdict (clock turn) row

-- The claim that a tick begins with.
module _ (now : ℕ) (rows : List PendingClosure) where
  claims-IsKeyed :
      IsKeyed rows → (key : Text) → count_if (has_key key) (claim_due_closures now 50 rows).1 ≤ 1
  unfolding claim_due_closures claim_rows
  claims-IsKeyed one key =
      omega (arith, one key, count-claims key (among (due_rows now 50 rows)) rows now)

  claims-In :
      (row : PendingClosure)
      → In row (claim_due_closures now 50 rows).1
      → In row (claim_due_closures now 50 rows).0 × (is_claimed row ≡ true)
  unfolding claim_due_closures claim_rows
  claims-In row i =
      let p = among (due_rows now 50 rows) in
      let (r, j, e) = In-map (claimed_at now) row (select p rows) i in
      let (k, t) = In-select p r rows j in
      let kept =
        subst (λ b. In (if b then claimed_at now r else r) (update p (claimed_at now) rows)) t
          (update-In p (claimed_at now) r rows k) in
      (subst (λ x. In x (update p (claimed_at now) rows)) (sym e) kept, rw e refl)

-- The rows after a tick whose calls are all answered, and the counts that it returns.
pub record IsTicked (github : GitHub) (now : ℕ) (clock : ℕ → ℕ) (rows : List PendingClosure)
    : Type 0 where
  pub counts : Counts
  pub returns : (tick github now clock rows).1 ≡ some counts
  pub adds : total counts ≡ length (claim_due_closures now 50 rows).1
  pub settles :
      (row : PendingClosure)
      → In row (claim_due_closures now 50 rows).1
      → IsSettled github clock row (tick github now clock rows).0
  pub keeps :
      (r : PendingClosure)
      → In r rows
      → any (has_key r.issue_key) (claim_due_closures now 50 rows).1 ≡ false
      → In r (tick github now clock rows).0
  pub size : length (tick github now clock rows).0 ≡ length rows

module _ (github : GitHub) (now : ℕ) (clock : ℕ → ℕ) (rows : List PendingClosure)
    (one : IsKeyed rows) where
  later-none :
      (before rest : List PendingClosure) (r : PendingClosure)
      → ((key : Text) → count_if (has_key key) (before ++ rest) ≤ 1)
      → In r rest
      → any (has_key r.issue_key) before ≡ false
  later-none before rest r one' i =
      let here = count_if-pos_of_In (has_key r.issue_key) r rest i (text_eq_refl r.issue_key) in
      zero-any (has_key r.issue_key) before
        (omega (arith, here, one' r.issue_key, count_if-append (has_key r.issue_key) before rest))

  -- On a table with at most one row for an issue, when a call for one of the rows claimed raises
  -- something that is not a GitHubError, the tick returns no counts, and that row and the rows
  -- claimed after it stay in the table as the claim wrote them, in the state `claimed`.
  pub tick-raised :
      (before after : List PendingClosure) (row : PendingClosure)
      → (claim_due_closures now 50 rows).1 ≡ before ++ row ∷ after
      → All (Decided github) before
      → fate github row ≡ none
      → ((tick github now clock rows).1 ≡ none)
        × ((r : PendingClosure)
            → In r (row ∷ after)
            → In r (tick github now clock rows).0 × (is_claimed r ≡ true))
  unfolding tick
  tick-raised before after row split d n =
      let table = (claim_due_closures now 50 rows).0 in
      let stop : process_rows github clock (claim_due_closures now 50 rows).1 no_counts table
          ≡ (map (touch_all github clock before) table, none) =
        ap (λ claims. process_rows github clock claims no_counts table) split
        ∙ process_rows-raised github clock before after row no_counts table d n in
      let keyed : (key : Text) → count_if (has_key key) (before ++ row ∷ after) ≤ 1 = λ key.
        subst (λ claims. count_if (has_key key) claims ≤ 1) split
          (claims-IsKeyed now rows one key) in
      (
        ap (λ x. x.1) stop,
        λ r i.
            let (j, c) =
              claims-In now rows r
                (subst (In r) (sym split) (In-append r before (row ∷ after) i)) in
            (
              subst (In r) (sym (ap (λ x. x.0) stop)) (
                  subst (λ x. In x (map (touch_all github clock before) table))
                    (touch_all_other github clock before r
                      (later-none before (row ∷ after) r keyed i))
                    (map-In (touch_all github clock before) r table j)),
              c,
            ),
      )
