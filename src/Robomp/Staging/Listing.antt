-- ===== src/Robomp/Staging/Listing.antt =====
-- src/robomp/db.py: what the methods on `pr_review_comments` do to the listing of an issue.
use oh_my_robot.Prelude.{
  ℕ, Text, text_eq, text_eq_iff, Bool, true, not, List, [], ◌∷◌, ◌++◌, ◌≡◌, ap, arith,
  if◌then◌else◌, select,
}
use oh_my_robot.Robomp.Staging.{
  StagedReviewComment, CommentDraft, StagedComments, stage_review_comment, staged_on,
  list_staged_review_comments, clear_staged_review_comments,
}

select-append :
    (p : StagedReviewComment → Bool) (c : StagedReviewComment) (rows : List StagedReviewComment)
    → select p (rows ++ c ∷ []) ≡ select p rows ++ (if p c then c ∷ [] else [])
select-append p c [] = ground arith
select-append p c (x ∷ rows) = ground (arith, select-append p c rows)

-- Staging a comment appends it to the listing of its issue and leaves every other listing.
list_staged_review_comments-stage_review_comment :
    (now : ℕ) (draft : CommentDraft) (key : Text) (t : StagedComments)
    → list_staged_review_comments key (stage_review_comment now draft t).1
      ≡ list_staged_review_comments key t
        ++ (if text_eq draft.issue_key key then (stage_review_comment now draft t).0 ∷ [] else [])
unfolding list_staged_review_comments stage_review_comment
list_staged_review_comments-stage_review_comment now draft key t =
    select-append (staged_on key) (stage_review_comment now draft t).0 t.rows

select-not :
    (key k : Text) (rows : List StagedReviewComment)
    → select (staged_on k) (select (λ c. not (staged_on key c)) rows)
      ≡ (if text_eq key k then [] else select (staged_on k) rows)
select-not key k [] = ground arith
select-not key k (c ∷ rows) =
    let l : text_eq c.issue_key key ≡ true → text_eq c.issue_key k ≡ text_eq key k =
      λ e. ap (λ t. text_eq t k) ((text_eq_iff c.issue_key key).0 e) in
    let r : text_eq key k ≡ true → text_eq c.issue_key key ≡ text_eq c.issue_key k =
      λ e. ap (text_eq c.issue_key) ((text_eq_iff key k).0 e) in
    ground (arith, l, r, select-not key k rows)

-- Clearing an issue empties its listing and leaves every other listing.
list_staged_review_comments-clear_staged_review_comments :
    (key k : Text) (t : StagedComments)
    → list_staged_review_comments k (clear_staged_review_comments key t).1
      ≡ (if text_eq key k then [] else list_staged_review_comments k t)
unfolding list_staged_review_comments clear_staged_review_comments
list_staged_review_comments-clear_staged_review_comments key k t = select-not key k t.rows
