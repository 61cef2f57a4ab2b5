-- ===== src/Robomp/Closures/Ordering.antt =====
-- src/robomp/db.py: `ORDER BY close_at LIMIT` on the rows of `pending_closures`.
use oh_my_robot.Prelude.{
  ℕ, zero, suc, ◌≤◌, List, [], ◌∷◌, ◌≡◌, ◌⊎◌, refl, arith, inl, inr, leb, In, All, take, length,
  Bool-cases,
}
use oh_my_robot.Robomp.Closures.{PendingClosure, insert_by_time, order_by_time}

abbrev pub IsOrdered : List PendingClosure → Type 0
IsOrdered [] = Unit
IsOrdered (r ∷ rows) = All (λ s. r.close_at ≤ s.close_at) rows × IsOrdered rows

All-In :
    (c : ℕ) (rows : List PendingClosure)
    → ((s : PendingClosure) → In s rows → c ≤ s.close_at)
    → All (λ s. c ≤ s.close_at) rows
All-In c [] h = tt
All-In c (s ∷ rows) h = (h s (inl refl), All-In c rows (λ x i. h x (inr i)))

In-All :
    (c : ℕ) (r : PendingClosure) (rows : List PendingClosure)
    → All (λ s. c ≤ s.close_at) rows
    → In r rows
    → c ≤ r.close_at
In-All c r [] all i = elim i [ ]
In-All c r (s ∷ rows) (here, there) (inl e) = rw e here
In-All c r (s ∷ rows) (here, there) (inr i) = In-All c r rows there i

insert-All :
    (c : ℕ) (r : PendingClosure) (rows : List PendingClosure)
    → c ≤ r.close_at
    → All (λ s. c ≤ s.close_at) rows
    → All (λ s. c ≤ s.close_at) (insert_by_time r rows)
insert-All c r [] h all = (h, tt)
insert-All c r (s ∷ rows) h (here, there) = elim (Bool-cases (leb r.close_at s.close_at)) [
  | inl t ↦ rw t (h, (here, there))
  | inr f ↦ rw f (here, insert-All c r rows h there)
]

insert-IsOrdered :
    (r : PendingClosure) (rows : List PendingClosure)
    → IsOrdered rows
    → IsOrdered (insert_by_time r rows)
insert-IsOrdered r [] o = (tt, tt)
insert-IsOrdered r (s ∷ rows) (first, rest) = elim (Bool-cases (leb r.close_at s.close_at)) [
  | inl t ↦
      let le : r.close_at ≤ s.close_at = ground arith in
      rw t (
        (le, All-In r.close_at rows (λ x i. omega (arith, le, In-All s.close_at x rows first i))),
        (first, rest),
      )
  | inr f ↦ rw f (insert-All s.close_at r rows (ground arith) first, insert-IsOrdered r rows rest)
]

pub order-IsOrdered : (rows : List PendingClosure) → IsOrdered (order_by_time rows)
order-IsOrdered [] = tt
order-IsOrdered (r ∷ rows) = insert-IsOrdered r (order_by_time rows) (order-IsOrdered rows)

In-insert :
    (c r : PendingClosure) (rows : List PendingClosure)
    → In c (r ∷ rows)
    → In c (insert_by_time r rows)
In-insert c r [] i = i
In-insert c r (s ∷ rows) i = elim (Bool-cases (leb r.close_at s.close_at)) [
  | inl t ↦ rw t i
  | inr f ↦ rw f (elim i [
    | inl e ↦ inr (In-insert c r rows (inl e))
    | inr (inl e) ↦ inl e
    | inr (inr j) ↦ inr (In-insert c r rows (inr j))
  ])
]

pub In-order :
    (c : PendingClosure) (rows : List PendingClosure) → In c rows → In c (order_by_time rows)
In-order c [] i = i
In-order c (r ∷ rows) (inl e) = In-insert c r (order_by_time rows) (inl e)
In-order c (r ∷ rows) (inr i) = In-insert c r (order_by_time rows) (inr (In-order c rows i))

-- What a cut of an ordered list leaves out is not older than what it keeps.
pub take-oldest :
    (n : ℕ) (r : PendingClosure) (rows : List PendingClosure)
    → IsOrdered rows
    → In r rows
    → In r (take n rows)
      ⊎ ((length (take n rows) ≡ n) × All (λ c. c.close_at ≤ r.close_at) (take n rows))
take-oldest zero r rows o i = inr (refl, tt)
take-oldest (suc n) r [] o i = elim i [ ]
take-oldest (suc n) r (s ∷ rows) (first, rest) (inl e) = inl (inl e)
take-oldest (suc n) r (s ∷ rows) (first, rest) (inr i) = elim (take-oldest n r rows rest i) [
  | inl j ↦ inl (inr j)
  | inr (l, all) ↦ inr (omega (arith, l), (In-All s.close_at r rows first i, all))
]

pub All-at :
    (r c : PendingClosure) (rows : List PendingClosure)
    → All (λ x. x.close_at ≤ r.close_at) rows
    → In c rows
    → c.close_at ≤ r.close_at
All-at r c [] all i = elim i [ ]
All-at r c (x ∷ rows) (here, there) (inl e) = rw e here
All-at r c (x ∷ rows) (here, there) (inr i) = All-at r c rows there i
