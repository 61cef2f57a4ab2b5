-- ===== src/Robomp/Submissions.antt =====
-- src/robomp/db.py: the table `submissions`, by which the webhook limits what a user may submit. A
-- timestamp is a number of seconds.
use oh_my_robot.Prelude.{
  ℕ, ◌+◌, ◌≤◌, Text, text_eq, text_eq_iff, lower, Bool, true, false, ◌&&◌, Option, none, some, List,
  [], ◌∷◌, ◌++◌, ◌≡◌, subst, arith, inl, inr, leb, if◌then◌else◌, any, count_if, count_if-append,
  count_if-le_of, Bool-cases,
}

pub record Submission : Type 0 where
  pub delivery_id : Text
  pub login : Text
  pub repo : Option Text
  pub ts : ℕ

pub record SubmissionAdmission : Type 0 where
  pub accepted : Bool
  pub duplicate : Bool
  pub used : ℕ

-- `login=? AND ts>=?`
abbrev pub submitted_since : Text → ℕ → Submission → Bool
submitted_since login since r = text_eq r.login login && leb since r.ts

abbrev of_delivery : Text → Submission → Bool
of_delivery id r = text_eq r.delivery_id id

abbrev new_submission : ℕ → Text → Text → Option Text → Submission
new_submission now id login repo = record { delivery_id = id; login = login; repo = repo; ts = now }

-- `cap is not None and used >= cap`
abbrev pub over_cap : Option ℕ → ℕ → Bool
over_cap none used = false
over_cap (some cap) used = leb cap used

unfoldable pub admit_submission :
    ℕ
    → Text
    → Text
    → Option Text
    → ℕ
    → Option ℕ
    → List Submission
    → List Submission × SubmissionAdmission
unfolding lower
admit_submission now id login repo since cap rows =
    let name = lower login in
    let used = count_if (submitted_since name since) rows in
    if any (of_delivery id) rows
    then (rows, record { accepted = true; duplicate = true; used = used })
    else if over_cap cap used
    then (rows, record { accepted = false; duplicate = false; used = used })
    else (
      rows ++ new_submission now id name repo ∷ [],
      record { accepted = true; duplicate = false; used = used + 1 },
    )

-- `INSERT OR IGNORE`; the answer is whether a row was inserted.
unfoldable pub record_submission :
    ℕ → Text → Text → Option Text → List Submission → List Submission × Bool
unfolding lower
record_submission now id login repo rows =
    if any (of_delivery id) rows
    then (rows, false)
    else (rows ++ new_submission now id (lower login) repo ∷ [], true)

unfoldable pub count_submissions_since : Text → ℕ → List Submission → ℕ
unfolding lower
count_submissions_since login since = count_if (submitted_since (lower login) since)

-- A webhook that asks for admission, with the start of its window.
pub record AdmissionRequest : Type 0 where
  pub delivery_id : Text
  pub login : Text
  pub repo : Option Text
  pub since : ℕ
  pub now : ℕ

-- The admissions one after the other, with the caps of the logins in lower case.
unfoldable pub admit_all :
    (Text → Option ℕ) → List AdmissionRequest → List Submission → List Submission
unfolding admit_submission
admit_all cap [] rows = rows
admit_all cap (a ∷ asked) rows =
    admit_all cap asked
      (admit_submission a.now a.delivery_id a.login a.repo a.since (cap (lower a.login)) rows).0

-- The windows start one after the other, from the given time on.
abbrev pub Advances : ℕ → List AdmissionRequest → Type 0
Advances since [] = Unit
Advances since (a ∷ asked) = (since ≤ a.since) × Advances a.since asked

-- The start of the last window.
abbrev pub last_since : ℕ → List AdmissionRequest → ℕ
last_since since [] = since
last_since since (a ∷ asked) = last_since a.since asked

-- Of each login with a cap, no more submissions than that are in the window.
abbrev pub IsCapped : (Text → Option ℕ) → ℕ → List Submission → Type 0
IsCapped cap since rows =
    (login : Text) (limit : ℕ)
    → cap login ≡ some limit
    → count_if (submitted_since login since) rows ≤ limit

later-IsCapped :
    (cap : Text → Option ℕ) (since later : ℕ) (rows : List Submission)
    → since ≤ later
    → IsCapped cap since rows
    → IsCapped cap later rows
later-IsCapped cap since later rows le h login limit e = omega (
  arith,
  h login limit e,
  count_if-le_of (submitted_since login later) (submitted_since login since)
      (λ r t. ground (arith, le, t)) rows,
)

added-IsCapped :
    (cap : Text → Option ℕ) (since now : ℕ) (id name : Text) (repo : Option Text)
    (rows : List Submission)
    → over_cap (cap name) (count_if (submitted_since name since) rows) ≡ false
    → IsCapped cap since rows
    → IsCapped cap since (rows ++ new_submission now id name repo ∷ [])
added-IsCapped cap since now id name repo rows free h login limit e =
    elim (Bool-cases (text_eq name login)) [
      | inr f ↦ ground (
        arith,
        f,
        h login limit e,
        count_if-append (submitted_since login since) rows (new_submission now id name repo ∷ []),
      )
      | inl t ↦
          let q = (text_eq_iff name login).0 t in
          let free' : over_cap (cap login) (count_if (submitted_since login since) rows) ≡ false =
            subst (λ n. over_cap (cap n) (count_if (submitted_since n since) rows) ≡ false) q
              free in
          let room : over_cap (some limit) (count_if (submitted_since login since) rows) ≡ false =
            subst (λ o. over_cap o (count_if (submitted_since login since) rows) ≡ false) e free' in
          ground (
            arith,
            room,
            count_if-append (submitted_since login since) rows
                (new_submission now id name repo ∷ []),
          )
    ]

admit_submission-IsCapped :
    (cap : Text → Option ℕ) (a : AdmissionRequest) (rows : List Submission)
    → IsCapped cap a.since rows
    → IsCapped cap a.since
        (admit_submission a.now a.delivery_id a.login a.repo a.since (cap (lower a.login)) rows).0
unfolding admit_submission
admit_submission-IsCapped cap a rows h = elim (Bool-cases (any (of_delivery a.delivery_id) rows)) [
  | inl t ↦ rw t h
  | inr f ↦
      rw f
        (elim (Bool-cases (
          over_cap (cap (lower a.login))
            (count_if (submitted_since (lower a.login) a.since) rows))) [
              | inl t ↦ rw t h
              | inr g ↦
                  rw g
                    (added-IsCapped cap a.since a.now a.delivery_id (lower a.login) a.repo rows g h)
            ])
]

-- Whatever webhooks ask for admission, each with a window that starts no earlier than the one before
-- and with the cap of its login: if no login is over its cap in the window at the start, then none is
-- in the last window, so with a cap of n no more than n submissions of a window are accepted.
pub admit_all-IsCapped :
    (cap : Text → Option ℕ) (since : ℕ) (asked : List AdmissionRequest) (rows : List Submission)
    → Advances since asked
    → IsCapped cap since rows
    → IsCapped cap (last_since since asked) (admit_all cap asked rows)
unfolding admit_all
admit_all-IsCapped cap since [] rows order h = h
admit_all-IsCapped cap since (a ∷ asked) rows (le, order) h =
    admit_all-IsCapped cap a.since asked
      (admit_submission a.now a.delivery_id a.login a.repo a.since (cap (lower a.login)) rows).0
      order (admit_submission-IsCapped cap a rows (later-IsCapped cap since a.since rows le h))
