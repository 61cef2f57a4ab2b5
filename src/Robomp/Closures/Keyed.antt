-- ===== src/Robomp/Closures/Keyed.antt =====
-- src/robomp/db.py: rows of `pending_closures` that are chosen by their keys.
use oh_my_robot.Prelude.{
  ℕ, zero, suc, ◌+◌, ◌≤◌, Text, text_eq, text_eq_iff, text_eq_refl, Bool, true, false, ◌||◌, List,
  [], ◌∷◌, ◌≡◌, refl, arith, inl, inr, In, any, map, take, length, select, count_if, count_if-le_of,
  count_if-zero, any-In, Bool-cases, count_if-pos_of_In, subst,
}
use oh_my_robot.Robomp.Closures.{
  PendingClosure, has_key, insert_by_time, order_by_time, among, claimed_at,
}

-- The primary key: an issue has at most one row.
abbrev pub IsKeyed : List PendingClosure → Type 0
IsKeyed rows = (key : Text) → count_if (has_key key) rows ≤ 1

pub length-select :
    (p : PendingClosure → Bool) (now : ℕ) (rows : List PendingClosure)
    → length (map (claimed_at now) (select p rows)) ≡ count_if p rows
length-select p now [] = refl
length-select p now (r ∷ rows) = ground (arith, length-select p now rows)

has_key_sym : (a b : Text) → text_eq a b ≡ true → text_eq b a ≡ true
has_key_sym a b t = rw ((text_eq_iff a b).0 t) (text_eq_refl b)

count_if-or :
    (p q : PendingClosure → Bool) (rows : List PendingClosure)
    → count_if (λ r. p r || q r) rows ≤ count_if p rows + count_if q rows
count_if-or p q [] = omega arith
count_if-or p q (r ∷ rows) = ground (arith, count_if-or p q rows)

pub count-among :
    (chosen rows : List PendingClosure)
    → IsKeyed rows
    → count_if (among chosen) rows ≤ length chosen
count-among [] rows one = omega (arith, count_if-zero (among []) rows (λ r. refl))
count-among (c ∷ chosen) rows one = omega (
  arith,
  count_if-or (λ r. text_eq c.issue_key r.issue_key) (among chosen) rows,
  count_if-le_of (λ r. text_eq c.issue_key r.issue_key) (has_key c.issue_key)
      (λ r. has_key_sym c.issue_key r.issue_key) rows,
  one c.issue_key,
  count-among chosen rows one,
)

-- Distinct chosen rows of a keyed table are found again, each once, by their keys.
count_if-or_eq :
    (p q : PendingClosure → Bool) (rows : List PendingClosure)
    → ((r : PendingClosure) → p r ≡ true → q r ≡ false)
    → count_if (λ r. p r || q r) rows ≡ count_if p rows + count_if q rows
count_if-or_eq p q [] apart = refl
count_if-or_eq p q (r ∷ rows) apart = ground (arith, apart r, count_if-or_eq p q rows apart)

pub length-le-among :
    (chosen rows : List PendingClosure)
    → IsKeyed chosen
    → ((c : PendingClosure) → In c chosen → In c rows)
    → length chosen ≤ count_if (among chosen) rows
length-le-among [] rows one within = omega arith
length-le-among (c ∷ chosen) rows one within =
    let once : IsKeyed chosen = λ key. let o = one key in ground (arith, o) in
    let none_else : any (has_key c.issue_key) chosen ≡ false =
      elim (Bool-cases (any (has_key c.issue_key) chosen)) [
        | inr f ↦ f
        | inl t ↦
            let (d, i, k) = any-In (has_key c.issue_key) chosen t in
            absurd (
              ground (
                arith,
                one c.issue_key,
                text_eq_refl c.issue_key,
                count_if-pos_of_In (has_key c.issue_key) d chosen i k,
              ))
      ] in
    let apart : (r : PendingClosure)
        → text_eq c.issue_key r.issue_key ≡ true
        → among chosen r ≡ false =
      λ r t.
        subst (λ k. any (has_key k) chosen ≡ false) ((text_eq_iff c.issue_key r.issue_key).0 t)
          none_else in
    omega (
      arith,
      count_if-or_eq (λ r. text_eq c.issue_key r.issue_key) (among chosen) rows apart,
      count_if-pos_of_In (λ r. text_eq c.issue_key r.issue_key) c rows (within c (inl refl))
          (text_eq_refl c.issue_key),
      length-le-among chosen rows once (λ d i. within d (inr i)),
    )

count_if-insert :
    (p : PendingClosure → Bool) (r : PendingClosure) (rows : List PendingClosure)
    → count_if p (insert_by_time r rows) ≡ count_if p (r ∷ rows)
count_if-insert p r [] = refl
count_if-insert p r (s ∷ rows) = ground (arith, count_if-insert p r rows)

pub count_if-order :
    (p : PendingClosure → Bool) (rows : List PendingClosure)
    → count_if p (order_by_time rows) ≡ count_if p rows
count_if-order p [] = refl
count_if-order p (r ∷ rows) =
    ground (arith, count_if-insert p r (order_by_time rows), count_if-order p rows)

pub count_if-select-le :
    (p q : PendingClosure → Bool) (rows : List PendingClosure)
    → count_if p (select q rows) ≤ count_if p rows
count_if-select-le p q [] = omega arith
count_if-select-le p q (r ∷ rows) = ground (arith, count_if-select-le p q rows)

pub count_if-take-le :
    (p : PendingClosure → Bool) (n : ℕ) (rows : List PendingClosure)
    → count_if p (take n rows) ≤ count_if p rows
count_if-take-le p zero rows = omega arith
count_if-take-le p (suc n) [] = omega arith
count_if-take-le p (suc n) (r ∷ rows) = ground (arith, count_if-take-le p n rows)
