-- ===== src/Robomp/Closures/Due.antt =====
-- src/robomp/db.py: which rows `claim_due_closures` returns.
use oh_my_robot.Prelude.{
  ℕ, ◌≤◌, text_eq_refl, true, false, List, ◌≡◌, ◌⊎◌, refl, arith, inl, inr, In, All, any, map,
  length, length-take-le, select, select-In, any-In, In-any, one_In, map-In, ◌↔◌, ◌∙◌,
}
use oh_my_robot.Robomp.Closures.{
  ClosureState, pending, same_closure, PendingClosure, has_key, is_due, order_by_time, due_rows,
  among, claimed_at, claim_rows, claim_due_closures,
}
use oh_my_robot.Robomp.Closures.Once.{due_rows-In, claim-In}
use oh_my_robot.Robomp.Closures.Ordering.{order-IsOrdered, In-order, take-oldest, All-at}
use oh_my_robot.Robomp.Closures.Keyed.{
  IsKeyed, length-select, count-among, length-le-among, count_if-order, count_if-select-le,
  count_if-take-le,
}

-- A question that waits for an answer and whose time has come.
pub record IsDueClosure (now : ℕ) (r : PendingClosure) : Type 0 where
  pub waiting : r.state ≡ pending
  pub reached : r.close_at ≤ now

is_pending_state : (st : ClosureState) → same_closure st pending ≡ true → st ≡ pending
is_pending_state pending h = refl
is_pending_state _ h = ground arith

is_due_iff : (now : ℕ) (r : PendingClosure) → (is_due now r ≡ true) ↔ IsDueClosure now r
is_due_iff now r = (
  λ h. record { waiting = is_pending_state r.state (ground arith); reached = ground arith },
  λ d. let w = d.waiting in let l = d.reached in ground arith,
)

-- What a claim took: each row it returns was due in the table and comes back claimed; a row that was
-- due and is not returned waits because `limit` rows no later than it are.
pub record IsClaimOf (now limit : ℕ) (rows claims : List PendingClosure) : Type 0 where
  pub bounded : length claims ≤ limit
  pub due :
      (row : PendingClosure)
      → In row claims
      → (r : PendingClosure) × In r rows × IsDueClosure now r × (row ≡ claimed_at now r)
  pub oldest :
      (r : PendingClosure)
      → In r rows
      → IsDueClosure now r
      → any (has_key r.issue_key) claims ≡ false
      → (length claims ≡ limit)
        × ((row : PendingClosure) → In row claims → row.close_at ≤ r.close_at)

module _ (now limit : ℕ) (rows : List PendingClosure) (one : IsKeyed rows) where
  -- With one row for a key, a row of a chosen key is a chosen row.
  chosen-In :
      (r : PendingClosure)
      → In r rows
      → among (due_rows now limit rows) r ≡ true
      → In r (due_rows now limit rows) × (is_due now r ≡ true)
  chosen-In r i m =
      let (c, j, k) = any-In (has_key r.issue_key) (due_rows now limit rows) m in
      let (l, d) = due_rows-In now limit c rows j in
      let e : c ≡ r =
        one_In (has_key r.issue_key) c r rows (one r.issue_key) l i k (text_eq_refl r.issue_key) in
      (rw (← e) j, rw (← e) d)

  returned :
      (row : PendingClosure)
      → In row (claim_due_closures now limit rows).1
      → (r : PendingClosure) × In r rows
        × In r (due_rows now limit rows)
        × (is_due now r ≡ true)
        × (row ≡ claimed_at now r)
  returned row i =
      let (r, j, m, e) = claim-In now limit row rows i in
      let (k, d) = chosen-In r j m in (r, j, k, d, e)

  -- A chosen row is returned.
  chosen-any :
      (r : PendingClosure)
      → In r rows
      → In r (due_rows now limit rows)
      → any (has_key r.issue_key) (claim_due_closures now limit rows).1 ≡ true
  unfolding claim_due_closures claim_rows
  chosen-any r i j =
      let chosen = due_rows now limit rows in
      let m = In-any (has_key r.issue_key) r chosen j (text_eq_refl r.issue_key) in
      In-any (has_key r.issue_key) (claimed_at now r)
        (map (claimed_at now) (select (among chosen) rows))
        (map-In (claimed_at now) r (select (among chosen) rows)
          (select-In (among chosen) r rows i m))
        (text_eq_refl r.issue_key)

  due_rows-oldest :
      (r : PendingClosure)
      → In r rows
      → is_due now r ≡ true
      → In r (due_rows now limit rows)
        ⊎ ((length (due_rows now limit rows) ≡ limit)
            × All (λ c. c.close_at ≤ r.close_at) (due_rows now limit rows))
  unfolding due_rows
  due_rows-oldest r i d =
      let due = select (is_due now) rows in
      take-oldest limit r (order_by_time due) (order-IsOrdered due)
        (In-order r due (select-In (is_due now) r rows i d))

  due_rows-IsKeyed : IsKeyed (due_rows now limit rows)
  unfolding due_rows
  due_rows-IsKeyed key =
      let due = select (is_due now) rows in
      omega (
        arith,
        count_if-take-le (has_key key) limit (order_by_time due),
        count_if-order (has_key key) due,
        count_if-select-le (has_key key) (is_due now) rows,
        one key,
      )

  length-claims : length (claim_due_closures now limit rows).1 ≡ length (due_rows now limit rows)
  unfolding claim_due_closures claim_rows
  length-claims =
      let chosen = due_rows now limit rows in
      omega (
        arith,
        length-select (among chosen) now rows,
        count-among chosen rows one,
        length-le-among chosen rows due_rows-IsKeyed (λ c i. (due_rows-In now limit c rows i).0),
      )

  left_out :
      (r : PendingClosure)
      → In r rows
      → is_due now r ≡ true
      → any (has_key r.issue_key) (claim_due_closures now limit rows).1 ≡ false
      → (length (claim_due_closures now limit rows).1 ≡ limit)
        × ((row : PendingClosure)
            → In row (claim_due_closures now limit rows).1
            → row.close_at ≤ r.close_at)
  left_out r i d f = elim (due_rows-oldest r i d) [
    | inl k ↦ absurd (ground (arith, f, chosen-any r i k))
    | inr (l, all) ↦ (
      length-claims ∙ l,
      λ row j.
          let (x, _, k, _, e) = returned row j in rw e (All-at r x (due_rows now limit rows) all k),
    )
  ]

  claimed-le : length (claim_due_closures now limit rows).1 ≤ limit
  unfolding due_rows
  claimed-le =
      omega (arith, length-claims, length-take-le limit (order_by_time (select (is_due now) rows)))

  -- Of a table with at most one row for an issue, `claim_due_closures` returns at most `limit` rows;
  -- each was pending and due and comes back claimed; and if a row that was pending and due is not
  -- returned, then `limit` rows are, and none of them is due later than it.
  pub claim_due_closures-IsClaimOf : IsClaimOf now limit rows (claim_due_closures now limit rows).1
  claim_due_closures-IsClaimOf = record {
    bounded = claimed-le;
    due = λ row i. let (r, j, _, d, e) = returned row i in (r, j, (is_due_iff now r).0 d, e);
    oldest = λ r i d. left_out r i ((is_due_iff now r).1 d);
  }
