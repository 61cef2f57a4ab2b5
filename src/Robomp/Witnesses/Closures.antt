-- ===== src/Robomp/Witnesses/Closures.antt =====
-- The table `pending_closures` at concrete rows.
use oh_my_robot.Prelude.{
  ℕ, ◌+◌, Text, codes, text_eq, text_eq_iff, text_eq_swap, true, false, none, List, [], ◌∷◌, ◌≡◌,
  refl, subst, arith, inl, inr, ◌==◌, if◌then◌else◌, In, Bool-cases,
}
use oh_my_robot.Robomp.Closures.{
  pending, PendingClosure, claimed_at, claim_rows, due_rows, claim_due_closures, is_claimed, reply,
  raised, GitHub, tick,
}
use oh_my_robot.Robomp.Closures.Due.{IsClaimOf, claim_due_closures-IsClaimOf}
use oh_my_robot.Robomp.Closures.Keyed.{IsKeyed}
use oh_my_robot.Robomp.Closures.Once.{cancel_op, closure_run, any_revives, claim_due_closures-once}
use oh_my_robot.Robomp.Closures.Settle.{fate}
use oh_my_robot.Robomp.Closures.Settle.Tick.{tick-raised}

abbrev question : Text → ℕ → ℕ → PendingClosure
question key number close_at = record {
  issue_key = key;
  repo = codes "o/r";
  number = number;
  comment_id = 70 + number;
  issue_author = codes "ann";
  close_at = close_at;
  state = pending;
  cancel_reason = none;
  created_at = 1;
  updated_at = 1;
}

abbrev first : PendingClosure
first = question (codes "o/r#1") 1 20

abbrev second : PendingClosure
second = question (codes "o/r#2") 2 10

abbrev questions : List PendingClosure
questions = first ∷ second ∷ []

two-IsKeyed :
    (a b : PendingClosure) → text_eq a.issue_key b.issue_key ≡ false → IsKeyed (a ∷ b ∷ [])
two-IsKeyed a b f key = elim (Bool-cases (text_eq a.issue_key key)) [
  | inr g ↦ ground (arith, g)
  | inl t ↦
      let g : text_eq b.issue_key key ≡ false =
        subst (λ k. text_eq b.issue_key k ≡ false) ((text_eq_iff a.issue_key key).0 t)
          (text_eq_swap a.issue_key b.issue_key f) in
      ground (arith, t, g)
]

questions-IsKeyed : IsKeyed questions
unfolding text_eq
questions-IsKeyed = two-IsKeyed first second refl

-- The first question's author voted it down; the second is closed.
abbrev answers : GitHub
answers = record {
  list_comment_reactions = λ repo id.
      reply
        (if id == 71 then record { content = codes "-1"; user_login = codes "Ann" } ∷ [] else []);
  close_issue = λ repo number reason. reply tt;
}

abbrev broken : GitHub
broken = record {
  list_comment_reactions = λ repo id. raised;
  close_issue = λ repo number reason. reply tt;
}

claim_due_closures-once_example : text_eq (codes "o/r#1") (codes "o/r#2") ≡ false
unfolding claim_due_closures claim_rows due_rows closure_run any_revives text_eq
claim_due_closures-once_example =
    claim_due_closures-once 30 1 31 9 (claimed_at 30 second) (claimed_at 31 first)
      ((30, cancel_op (codes "o/r#9") (codes "reply")) ∷ []) questions (inl refl) refl (inl refl)

claim_due_closures-IsClaimOf_example :
    IsClaimOf 30 1 questions (claim_due_closures 30 1 questions).1
claim_due_closures-IsClaimOf_example = claim_due_closures-IsClaimOf 30 1 questions questions-IsKeyed

tick-raised_example :
    ((tick broken 30 (λ i. 31) questions).1 ≡ none)
    × ((r : PendingClosure)
        → In r (claimed_at 30 first ∷ claimed_at 30 second ∷ [])
        → In r (tick broken 30 (λ i. 31) questions).0 × (is_claimed r ≡ true))
unfolding claim_due_closures claim_rows due_rows text_eq fate
tick-raised_example =
    tick-raised broken 30 (λ i. 31) questions questions-IsKeyed [] (claimed_at 30 second ∷ [])
      (claimed_at 30 first) refl tt refl
