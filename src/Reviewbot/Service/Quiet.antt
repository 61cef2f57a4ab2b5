-- ===== src/Reviewbot/Service/Quiet.antt =====
-- src/reviewbot/service.py: publishing the outputs of a review writes no comment of its own.
use oh_my_robot.Prelude.{
  ℕ, Text, Option, none, some, List, [], ◌∷◌, ◌≡◌, ◌⊎◌, inl, inr, refl, Bool-cases,
}
use oh_my_robot.Reviewbot.Models.{PullRequest, ReviewResult, ReviewJob, ReviewFinding}
use oh_my_robot.Reviewbot.Diff.{DiffReviewPlan}
use oh_my_robot.Reviewbot.Service.{
  Error, Outcome, returned, raised, cancelled, Changes, ReviewExecution, InlineComment, CheckRun,
  Client, Engine, Service, World,
}
use oh_my_robot.Reviewbot.Service.Stages.{
  then_do, publish_review_outputs, post_inline, post_all_inline, post_check, after_inline,
  after_check, inline_of, finding_is_locatable,
}
use oh_my_robot.Reviewbot.Service.Process.{finish}

-- No comment was written.
abbrev pub Quiet : World → World × Outcome Unit → Type 0
Quiet w r = r.0.comments ≡ w.comments

pub Outcome-cases :
    {A : Type 0} (o : Outcome A)
    → ((a : A) × (o ≡ returned a)) ⊎ (((e : Error) × (o ≡ raised e)) ⊎ (o ≡ cancelled))
Outcome-cases (returned a) = inl (a, refl)
Outcome-cases (raised e) = inr (inl (e, refl))
Outcome-cases cancelled = inr (inr refl)

module _ (service : Service) (client : Client) (engine : Engine) (now : ℕ) (job : ReviewJob) where
  after_inline-Quiet :
      (v : World) (c : InlineComment) (o : Outcome Unit) (w : World)
      (k : World → World × Outcome Unit)
      → w.comments ≡ v.comments
      → ((u : World) → u.comments ≡ v.comments → Quiet v (k u))
      → Quiet v (after_inline service client engine now job c o w k)
  after_inline-Quiet v c (returned x) w k e h = h _ e
  after_inline-Quiet v c (raised x) w k e h = h w e
  after_inline-Quiet v c cancelled w k e h = e

  post_inline-Quiet :
      (v : World) (create : InlineComment → Outcome Unit) (pr : PullRequest) (plan : DiffReviewPlan)
      (fs : List ReviewFinding) (w : World)
      → w.comments ≡ v.comments
      → Quiet v (post_inline service client engine now job create pr plan fs w)
  unfolding post_inline
  post_inline-Quiet v create pr plan [] w e = e
  post_inline-Quiet v create pr plan (f ∷ fs) w e =
      elim (Bool-cases (finding_is_locatable plan f)) [
        | inl t ↦ rw t (
            after_inline-Quiet v _ (create (inline_of service client engine now job pr f)) w _ e
              (λ u q. post_inline-Quiet v create pr plan fs u q))
        | inr t ↦ rw t (post_inline-Quiet v create pr plan fs w e)
      ]

  post_all_inline-Quiet :
      (v : World) (create : Option (InlineComment → Outcome Unit)) (pr : PullRequest)
      (plan : DiffReviewPlan) (fs : List ReviewFinding) (w : World)
      → w.comments ≡ v.comments
      → Quiet v (post_all_inline service client engine now job create pr plan fs w)
  unfolding post_all_inline
  post_all_inline-Quiet v none pr plan fs w e = e
  post_all_inline-Quiet v (some create) pr plan fs w e = post_inline-Quiet v create pr plan fs w e

  after_check-Quiet :
      (v : World) (c : CheckRun) (o : Outcome Unit) (w : World)
      → w.comments ≡ v.comments
      → Quiet v (after_check service client engine now job c o w)
  after_check-Quiet v c (returned x) w e = e
  after_check-Quiet v c (raised x) w e = e
  after_check-Quiet v c cancelled w e = e

  post_check-Quiet :
      (v : World) (create : Option (CheckRun → Outcome Unit)) (c : CheckRun) (w : World)
      → w.comments ≡ v.comments
      → Quiet v (post_check service client engine now job create c w)
  unfolding post_check
  post_check-Quiet v none c w e = e
  post_check-Quiet v (some create) c w e = after_check-Quiet v c (create c) w e

  then_do-Quiet :
      (v : World) (r : World × Outcome Unit) (k : World → World × Outcome Unit)
      → Quiet v r
      → ((u : World) → u.comments ≡ v.comments → Quiet v (k u))
      → Quiet v (then_do service client engine now job r k)
  unfolding then_do
  then_do-Quiet v (w, returned x) k e h = h w e
  then_do-Quiet v (w, raised x) k e h = e
  then_do-Quiet v (w, cancelled) k e h = e

  publish_review_outputs-Quiet :
      (pr : PullRequest) (result : ReviewResult) (plan : DiffReviewPlan) (summary : Text)
      (w : World)
      → Quiet w (publish_review_outputs service client engine now job pr result plan summary w)
  unfolding publish_review_outputs
  publish_review_outputs-Quiet pr result plan summary w =
      then_do-Quiet w
        (post_all_inline service client engine now job client.create_pull_request_review_comment pr
          plan result.findings w)
        _
        (post_all_inline-Quiet w client.create_pull_request_review_comment pr plan result.findings w
          refl)
        (λ u e. post_check-Quiet w client.create_check_run _ u e)

  pub finish-Quiet :
      (pr : PullRequest) (ch : Changes) (x : ReviewExecution) (ms : ℕ) (c : Text) (w : World)
      (r : Option ℕ × ℕ)
      → Quiet w (finish service client engine now job pr ch x ms c w r)
  unfolding finish
  finish-Quiet pr ch x ms c w (id, t) =
      then_do-Quiet w
        (publish_review_outputs service client engine now job pr x.result ch.diff_plan c w) _
        (publish_review_outputs-Quiet pr x.result ch.diff_plan c w) (λ u e. e)
