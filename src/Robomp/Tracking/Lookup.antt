-- ===== src/Robomp/Tracking/Lookup.antt =====
-- src/robomp/db.py: the table `issues` is a map from keys to rows.
use oh_my_robot.Prelude.{
  ℕ, Text, text_eq, text_eq_iff, true, false, Option, none, some, List, [], ◌∷◌, ◌++◌, ◌≡◌, refl,
  sym, subst, ap, arith, inl, inr, if◌then◌else◌, any, find, update, Bool-cases, Option-cases,
}
use oh_my_robot.Robomp.Tracking.{
  IssueState, IssueRow, IssueUpsert, has_issue_key, inserted_issue, merged_issue, upsert_issue,
  set_issue, with_issue_state, with_issue_pr, with_classification, with_branch, set_issue_state,
  set_issue_pr, set_issue_classification, set_issue_branch, get_issue,
}

-- The methods that write.
pub data IssueOp : Type 0 where
  upsert_op : IssueUpsert → IssueOp
  state_op : Text → IssueState → IssueOp
  pr_op : Text → ℕ → IssueOp
  classify_op : Text → Text → IssueOp
  branch_op : Text → Text → IssueOp

unfoldable pub issue_step : ℕ → IssueOp → List IssueRow → List IssueRow
unfolding upsert_issue set_issue_state set_issue_pr set_issue_classification set_issue_branch
issue_step now (upsert_op a) rows = upsert_issue now a rows
issue_step now (state_op key state) rows = set_issue_state now key state rows
issue_step now (pr_op key pr_number) rows = set_issue_pr now key pr_number rows
issue_step now (classify_op key name) rows = set_issue_classification now key name rows
issue_step now (branch_op key branch) rows = set_issue_branch now key branch rows

-- The abstract table: what each key holds.
abbrev pub IssueMap : Type 0
IssueMap = Text → Option IssueRow

abbrev changed : (IssueRow → IssueRow) → Option IssueRow → Option IssueRow
changed change none = none
changed change (some r) = some (change r)

abbrev stored : ℕ → IssueUpsert → Option IssueRow → Option IssueRow
stored now a none = some (inserted_issue now a)
stored now a (some r) = some (merged_issue now a r)

abbrev at_key : Text → (Option IssueRow → Option IssueRow) → IssueMap → IssueMap
at_key key write issues k = if text_eq key k then write (issues k) else issues k

-- What a method does to the map.
abbrev pub issue_effect : ℕ → IssueOp → IssueMap → IssueMap
issue_effect now (upsert_op a) = at_key a.key (stored now a)
issue_effect now (state_op key state) = at_key key (changed (with_issue_state now state))
issue_effect now (pr_op key pr_number) = at_key key (changed (with_issue_pr now pr_number))
issue_effect now (classify_op key name) = at_key key (changed (with_classification now name))
issue_effect now (branch_op key branch) = at_key key (changed (with_branch now branch))

abbrev or_row : Option IssueRow → Option IssueRow → Option IssueRow
or_row none other = other
or_row (some r) _ = some r

or_row-none : (o : Option IssueRow) → or_row o none ≡ o
or_row-none none = refl
or_row-none (some r) = refl

text_eq-left : (a b c : Text) → text_eq a b ≡ true → text_eq a c ≡ text_eq b c
text_eq-left a b c e = ap (λ t. text_eq t c) ((text_eq_iff a b).0 e)

text_eq-right : (a b c : Text) → text_eq b c ≡ true → text_eq a b ≡ text_eq a c
text_eq-right a b c e = ap (text_eq a) ((text_eq_iff b c).0 e)

find-update :
    (key k : Text) (change : IssueRow → IssueRow) (rows : List IssueRow)
    → ((r : IssueRow) → (change r).key ≡ r.key)
    → find (has_issue_key k) (update (has_issue_key key) change rows) ≡ (
        if text_eq key k
        then changed change (find (has_issue_key k) rows)
        else find (has_issue_key k) rows)
find-update key k change [] same = ground arith
find-update key k change (r ∷ rows) same =
    let ih = find-update key k change rows same in
    let l = text_eq-left r.key key k in
    let m = text_eq-right r.key key k in
    let n = ap (λ t. text_eq t k) (same r) in
    elim (Bool-cases (text_eq r.key key)) [
      | inl t ↦ rw t (rw n (rw (l t) (ground (arith, ih))))
      | inr f ↦ rw f (ground (arith, ih, f, m))
    ]

find-append :
    (k : Text) (r : IssueRow) (rows : List IssueRow)
    → find (has_issue_key k) (rows ++ r ∷ [])
      ≡ or_row (find (has_issue_key k) rows) (if has_issue_key k r then some r else none)
find-append k r [] = ground arith
find-append k r (x ∷ rows) = ground (arith, find-append k r rows)

find-absent :
    (k : Text) (rows : List IssueRow)
    → any (has_issue_key k) rows ≡ false
    → find (has_issue_key k) rows ≡ none
find-absent k [] absent = refl
find-absent k (r ∷ rows) absent = ground (arith, find-absent k rows)

find-present :
    (k : Text) (rows : List IssueRow)
    → any (has_issue_key k) rows ≡ true
    → find (has_issue_key k) rows ≡ none
    → true ≡ false
find-present k [] present e = sym present
find-present k (r ∷ rows) present e = ground (arith, find-present k rows)

get_issue-set :
    (k key : Text) (change : IssueRow → IssueRow) (rows : List IssueRow)
    → ((r : IssueRow) → (change r).key ≡ r.key)
    → get_issue k (set_issue change key rows)
      ≡ at_key key (changed change) (λ k'. get_issue k' rows) k
unfolding get_issue
get_issue-set k key change rows same = find-update key k change rows same

some-merged :
    (a : IssueUpsert) (rows : List IssueRow) (now : ℕ)
    → any (has_issue_key a.key) rows ≡ true
    → changed (merged_issue now a) (find (has_issue_key a.key) rows)
      ≡ stored now a (find (has_issue_key a.key) rows)
some-merged a rows now present = elim (Option-cases (find (has_issue_key a.key) rows)) [
  | inl e ↦ absurd (ground (arith, find-present a.key rows present e))
  | inr (r, e) ↦ rw e refl
]

get_issue-upsert :
    (k : Text) (now : ℕ) (a : IssueUpsert) (rows : List IssueRow)
    → get_issue k (upsert_issue now a rows)
      ≡ at_key a.key (stored now a) (λ k'. get_issue k' rows) k
unfolding get_issue upsert_issue
get_issue-upsert k now a rows = elim (Bool-cases (any (has_issue_key a.key) rows)) [
  | inl p ↦ elim (Bool-cases (text_eq a.key k)) [
    | inl t ↦
        let e : a.key ≡ k = (text_eq_iff a.key k).0 t in
        let m = some-merged a rows now p in
        ground (
          arith,
          p,
          t,
          find-update a.key k (merged_issue now a) rows (λ r. refl),
          subst
              (λ x.
                changed (merged_issue now a) (find (has_issue_key x) rows)
                ≡ stored now a (find (has_issue_key x) rows))
              e m,
        )
    | inr f ↦ ground (arith, p, f, find-update a.key k (merged_issue now a) rows (λ r. refl))
  ]
  | inr q ↦ elim (Bool-cases (text_eq a.key k)) [
    | inl t ↦
        let e : a.key ≡ k = (text_eq_iff a.key k).0 t in
        let z = find-absent k rows (subst (λ x. any (has_issue_key x) rows ≡ false) e q) in
        rw q (rw t (rw z (ground (arith, z, t, find-append k (inserted_issue now a) rows))))
    | inr f ↦
        let o = or_row-none (find (has_issue_key k) rows) in
        rw q (rw f (ground (arith, f, o, find-append k (inserted_issue now a) rows)))
  ]
]

-- After a method that writes issues, looking up any key gives what the map of the rows before it
-- holds there once the method's effect at its own key is applied.
pub get_issue-issue_step :
    (k : Text) (now : ℕ) (op : IssueOp) (rows : List IssueRow)
    → get_issue k (issue_step now op rows) ≡ issue_effect now op (λ k'. get_issue k' rows) k
unfolding issue_step
get_issue-issue_step k now (upsert_op a) rows = get_issue-upsert k now a rows
get_issue-issue_step k now (state_op key state) rows =
    get_issue-set k key (with_issue_state now state) rows (λ r. refl)
get_issue-issue_step k now (pr_op key n) rows =
    get_issue-set k key (with_issue_pr now n) rows (λ r. refl)
get_issue-issue_step k now (classify_op key name) rows =
    get_issue-set k key (with_classification now name) rows (λ r. refl)
get_issue-issue_step k now (branch_op key branch) rows =
    get_issue-set k key (with_branch now branch) rows (λ r. refl)
