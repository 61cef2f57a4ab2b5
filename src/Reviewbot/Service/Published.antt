-- ===== src/Reviewbot/Service/Published.antt =====
-- src/reviewbot/service.py: when `process` writes a comment, and how many.
use oh_my_robot.Prelude.{
  ℕ, Text, codes, text_eq, lower, Bool, true, false, not, Option, none, some, List, [], ◌∷◌, ◌++◌,
  ◌+◌, ◌≡◌, ◌⊎◌, inl, inr, refl, arith, if◌then◌else◌, text_eq_refl, ==_refl, any, find, Bool-cases,
}
use oh_my_robot.Reviewbot.Models.{PullRequest, PullRequestComment, ReviewJob, ReviewFinding}
use oh_my_robot.Reviewbot.Store.{Store, ReviewMetrics}
use oh_my_robot.Reviewbot.Store.Queue.{has_review}
use oh_my_robot.Reviewbot.Store.Reviews.{complete_review}
use oh_my_robot.Reviewbot.Store.Reviewed.{complete_review_lem}
use oh_my_robot.Reviewbot.Diff.{DiffContext}
use oh_my_robot.Reviewbot.Service.{
  Error, Outcome, returned, raised, cancelled, Changes, ReviewExecution, Comment, Client, Engine,
  Service, World, await,
}
use oh_my_robot.Reviewbot.Service.Stages.{then_do, skip_event, is_review_action, has_marker}
use oh_my_robot.Reviewbot.Service.Process.{
  finish, publish, with_latest, with_execution, deep_mode, with_changes, with_comments,
  with_pull_request, process, comment_of, superseded_to, executed,
}
use oh_my_robot.Reviewbot.Service.Quiet.{Quiet, Outcome-cases, finish-Quiet}

module _ (service : Service) (client : Client) (engine : Engine) (now : ℕ) (job : ReviewJob) where
  -- Unless the run failed after the comment, the head is in the database as reviewed.
  abbrev pub Recorded : PullRequest → World × Outcome Unit → Type 0
  Recorded pr r =
      r.1 ≡ returned tt → has_review pr.repository pr.number pr.head_sha r.0.store ≡ true

  not_returned : (e : Error) → ¬ (raised e ≡ returned tt)
  not_returned e h = ground arith

  then_do-Recorded :
      (pr : PullRequest) (r : World × Outcome Unit) (k : World → World × Outcome Unit)
      → ((u : World) → Recorded pr (k u))
      → Recorded pr (then_do service client engine now job r k)
  unfolding then_do
  then_do-Recorded pr (w, returned x) k h = h w
  then_do-Recorded pr (w, raised x) k h = λ e. absurd (not_returned x e)
  then_do-Recorded pr (w, cancelled) k h = λ e. absurd (ground arith)

  complete-reviewed :
      (pr : PullRequest) (id : Option ℕ) (m : ReviewMetrics) (fs : List ReviewFinding)
      (paths : List Text) (s : Store)
      → has_review pr.repository pr.number pr.head_sha (
          complete_review service.digest now pr.repository pr.number pr.head_sha id m
            (some fs)
            (some paths)
            s)
        ≡ true
  complete-reviewed pr id m fs paths s =
      let e =
        (complete_review_lem service.digest now pr.repository pr.number pr.head_sha id m (some fs)
            (some paths) s).3
          pr.repository pr.number pr.head_sha in
      rw (e, text_eq_refl (lower pr.repository), text_eq_refl pr.head_sha, ==_refl pr.number) refl

  finish-Recorded :
      (pr : PullRequest) (ch : Changes) (x : ReviewExecution) (ms : ℕ) (c : Text) (w : World)
      (r : Option ℕ × ℕ)
      → Recorded pr (finish service client engine now job pr ch x ms c w r)
  unfolding finish
  finish-Recorded pr ch x ms c w (id, t) =
      then_do-Recorded pr _ _
        (λ u e. complete-reviewed pr id _ x.result.findings ch.diff_plan.reviewed_files u.store)

  -- The one comment is written on `pr`.
  abbrev pub Posted : PullRequest → World → World × Outcome Unit → Type 0
  Posted pr w r =
      (c : Comment) × (r.0.comments ≡ w.comments ++ c ∷ [])
      × (c.repository ≡ pr.repository)
      × (c.number ≡ pr.number)
      × Recorded pr r

  -- Read again after the review, the Pull Request is open, ready and at the same head.
  abbrev pub OnHead : PullRequest → PullRequest → Type 0
  OnHead pr latest =
      (text_eq (lower latest.state) (codes "open") ≡ true)
      × (latest.draft ≡ false)
      × (text_eq latest.head_sha pr.head_sha ≡ true)

  superseded_to-Quiet :
      (w : World) (o : Option (Store × Bool))
      → Quiet w (superseded_to service client engine now job w o)
  superseded_to-Quiet w none = refl
  superseded_to-Quiet w (some (s, b)) = refl

  publish-Posted :
      (pr : PullRequest) (ch : Changes) (x : ReviewExecution) (ms t : ℕ) (w : World)
      → Quiet w (publish service client engine now job pr ch x ms t w)
        ⊎ Posted pr w (publish service client engine now job pr ch x ms t w)
  unfolding publish
  publish-Posted pr ch x ms t w =
      let c = comment_of service client engine now job pr ch x in
      elim (Outcome-cases (client.create_pull_request_comment c)) [
        | inl ((id, ms'), e) ↦ rw e (
            inr (
              c,
              finish-Quiet service client engine now job pr ch x ms _ _ (id, t + ms'),
              refl,
              refl,
              finish-Recorded pr ch x ms _ _ (id, t + ms'),
            ))
        | inr (inl (err, e)) ↦ rw e (inl refl)
        | inr (inr e) ↦ rw e (inl refl)
      ]

  with_latest-Posted :
      (pr : PullRequest) (ch : Changes) (x : ReviewExecution) (ms t : ℕ) (w : World)
      (latest : PullRequest)
      → Quiet w (with_latest service client engine now job pr ch x ms t w latest)
        ⊎ (OnHead pr latest
            × Posted pr w (with_latest service client engine now job pr ch x ms t w latest))
  unfolding with_latest
  with_latest-Posted pr ch x ms t w latest =
      elim (Bool-cases (text_eq (lower latest.state) (codes "open"))) [
        | inr f ↦ rw f (inl refl)
        | inl live ↦ elim (Bool-cases latest.draft) [
          | inl t ↦ rw (live, t) (inl refl)
          | inr ready ↦ elim (Bool-cases (text_eq latest.head_sha pr.head_sha)) [
            | inr f ↦ rw (live, ready, f) (inl (superseded_to-Quiet w _))
            | inl same ↦
                rw (live, ready, same)
                  (elim (publish-Posted pr ch x ms t w) [
                    | inl q ↦ inl q
                    | inr p ↦ inr ((refl, refl, refl), p)
                  ])
          ]
        ]
      ]

  -- As it was first read, the Pull Request is open, ready, and has no review of its head, neither
  -- in the database nor among its comments.
  abbrev pub Due : World → PullRequest → Type 0
  Due w pr =
      (text_eq (lower pr.state) (codes "open") ≡ true)
      × (pr.draft ≡ false)
      × (has_review pr.repository pr.number pr.head_sha w.store ≡ false)
      × ((comments : List PullRequestComment) × (ms : ℕ) × (client.list_pull_request_comments
              pr.repository pr.number
            ≡ returned (comments, ms))
          × (find (has_marker pr.head_sha) comments ≡ none))

  -- Nothing is written, or one comment on a Pull Request that was read again at the same head.
  abbrev pub Confirmed : PullRequest → World → World × Outcome Unit → Type 0
  Confirmed pr w r =
      Quiet w r
      ⊎ ((latest : PullRequest) × (ms : ℕ) × (client.get_pull_request_latest job.repository
              job.pull_request_number
            ≡ returned (latest, ms))
          × OnHead pr latest
          × Posted pr w r)

  if-Confirmed :
      (pr : PullRequest) (w : World) (b : Bool) (x y : World × Outcome Unit)
      → Confirmed pr w x
      → Confirmed pr w y
      → Confirmed pr w (if b then x else y)
  if-Confirmed pr w true x y h k = h
  if-Confirmed pr w false x y h k = k

  with_execution-Confirmed :
      (pr : PullRequest) (ch : Changes) (t : ℕ) (w : World) (r : Outcome ReviewExecution × ℕ)
      → Confirmed pr w (with_execution service client engine now job pr ch t w r)
  unfolding with_execution
  with_execution-Confirmed pr ch t w (raised e, ms) = inl refl
  with_execution-Confirmed pr ch t w (cancelled, ms) = inl refl
  with_execution-Confirmed pr ch t w (returned x, ms) =
      elim (Outcome-cases (client.get_pull_request_latest job.repository job.pull_request_number)) [
        | inl ((latest, ms'), e) ↦
            rw e
              (elim (with_latest-Posted pr ch x ms (t + ms')
                (executed service client engine now job pr ch x ms t w) latest) [
                  | inl q ↦ inl q
                  | inr (h, p) ↦ inr (latest, ms', refl, h, p)
                ])
        | inr (inl (err, e)) ↦ rw e (inl refl)
        | inr (inr e) ↦ rw e (inl refl)
      ]

  deep_mode-Confirmed :
      (pr : PullRequest) (ch : Changes) (t : ℕ) (w : World)
      (review : Option
        (PullRequest → DiffContext → Text → Option (List ℕ) → Outcome ReviewExecution × ℕ))
      (download : Option (Text → Text → Outcome (List ℕ × ℕ)))
      → Confirmed pr w (deep_mode service client engine now job pr ch t w review download)
  unfolding deep_mode
  deep_mode-Confirmed pr ch t w none download = inl refl
  deep_mode-Confirmed pr ch t w (some review) none = inl refl
  deep_mode-Confirmed pr ch t w (some review) (some download) =
      elim (Outcome-cases (download pr.repository pr.head_sha)) [
        | inl ((archive, ms), e) ↦ rw e (with_execution-Confirmed pr ch (t + ms) w _)
        | inr (inl (err, e)) ↦ rw e (inl refl)
        | inr (inr e) ↦ rw e (inl refl)
      ]

  with_changes-Confirmed :
      (pr : PullRequest) (t : ℕ) (w : World) (o : Option Changes)
      → Confirmed pr w (with_changes service client engine now job pr t w o)
  unfolding with_changes
  with_changes-Confirmed pr t w none = inl refl
  with_changes-Confirmed pr t w (some ch) =
      if-Confirmed pr w service.deep_mode _ _
        (deep_mode-Confirmed pr ch t w engine.deep_review client.download_pull_request_archive)
        (with_execution-Confirmed pr ch t w
          (engine.review_plan pr ch.diff_plan (service.load_rules ch.files)))

  with_comments-Confirmed :
      (pr : PullRequest) (t : ℕ) (w : World) (o : Option PullRequestComment)
      → Quiet w (with_comments service client engine now job pr t w o)
        ⊎ ((o ≡ none) × Confirmed pr w (with_comments service client engine now job pr t w o))
  unfolding with_comments
  with_comments-Confirmed pr t w (some c) = inl refl
  with_comments-Confirmed pr t w none = inr (
    refl,
    elim (Outcome-cases (client.list_pull_request_files pr.repository pr.number)) [
      | inl ((files, ms), e) ↦ rw e (with_changes-Confirmed pr (t + ms) w _)
      | inr (inl (err, e)) ↦ rw e (inl refl)
      | inr (inr e) ↦ rw e (inl refl)
    ],
  )

  -- A comment is written past a guard only if the guard does not hold.
  past_guard :
      (G : World × Outcome Unit → Type 0) (w : World) (b : Bool) (x y : World × Outcome Unit)
      → Quiet w x
      → Quiet w y ⊎ G y
      → Quiet w (if b then x else y) ⊎ ((b ≡ false) × G (if b then x else y))
  past_guard G w true x y q h = inl q
  past_guard G w false x y q (inl p) = inl p
  past_guard G w false x y q (inr g) = inr (refl, g)

  listed : World → PullRequest → ℕ → World × Outcome Unit
  listed w pr t =
      await (client.list_pull_request_comments pr.repository pr.number) w (λ (comments, ms).
        with_comments service client engine now job pr (t + ms) w
          (find (has_marker pr.head_sha) comments))

  Unmarked : PullRequest → Type 0
  Unmarked pr =
      (comments : List PullRequestComment) × (ms : ℕ) × (client.list_pull_request_comments
          pr.repository pr.number
        ≡ returned (comments, ms))
      × (find (has_marker pr.head_sha) comments ≡ none)

  listed-Confirmed :
      (w : World) (pr : PullRequest) (t : ℕ)
      → Quiet w (listed w pr t) ⊎ (Unmarked pr × Confirmed pr w (listed w pr t))
  unfolding listed Unmarked await
  listed-Confirmed w pr t =
      elim (Outcome-cases (client.list_pull_request_comments pr.repository pr.number)) [
        | inl ((comments, ms), e) ↦
            rw e
              (elim (with_comments-Confirmed pr (t + ms) w
                (find (has_marker pr.head_sha) comments)) [
                  | inl q ↦ inl q
                  | inr (free, c) ↦ inr ((comments, ms, refl, free), c)
                ])
        | inr (inl (err, e)) ↦ rw e (inl refl)
        | inr (inr e) ↦ rw e (inl refl)
      ]

  with_pull_request-Due :
      (w : World) (pr : PullRequest) (t : ℕ)
      → Quiet w (with_pull_request service client engine now job w (pr, t))
        ⊎ (Due w pr × Confirmed pr w (with_pull_request service client engine now job w (pr, t)))
  unfolding with_pull_request listed Unmarked
  with_pull_request-Due w pr t =
      elim (past_guard
        (λ r.
          (pr.draft ≡ false)
          × ((has_review pr.repository pr.number pr.head_sha w.store ≡ false)
              × (Unmarked pr × Confirmed pr w r)))
        w (not (text_eq (lower pr.state) (codes "open"))) _ _ refl
        (past_guard
          (λ r.
            (has_review pr.repository pr.number pr.head_sha w.store ≡ false)
            × (Unmarked pr × Confirmed pr w r))
          w pr.draft _ _ refl
          (past_guard (λ r. Unmarked pr × Confirmed pr w r) w
            (has_review pr.repository pr.number pr.head_sha w.store)
            (skip_event now job (codes "head SHA already reviewed") w) (listed w pr t) refl
            (listed-Confirmed w pr t)))) [
              | inl q ↦ inl q
              | inr (live, (ready, (fresh, (free, c)))) ↦
                  inr ((ground (arith, live), ready, fresh, free), c)
            ]

  -- The settings and the event ask for a review, and GitHub answered with `pr`.
  abbrev pub Asked : Type 0
  Asked =
      (service.enabled ≡ true)
      × (any (text_eq (lower job.repository)) service.allowlist ≡ true)
      × (is_review_action job.action ≡ true)

  -- The reasons that stand behind the one comment of a run.
  abbrev pub Justified : World → World × Outcome Unit → Type 0
  Justified w r =
      Asked
      × ((pr : PullRequest) × (t : ℕ) × (client.get_pull_request job.repository
              job.pull_request_number
            ≡ returned (pr, t))
          × Due w pr
          × ((latest : PullRequest) × (ms : ℕ) × (client.get_pull_request_latest job.repository
                  job.pull_request_number
                ≡ returned (latest, ms))
              × OnHead pr latest
              × Posted pr w r))

  fetched : World → World × Outcome Unit
  fetched w =
      await (client.get_pull_request job.repository job.pull_request_number) w
        (with_pull_request service client engine now job w)

  Seen : World → World × Outcome Unit → Type 0
  Seen w r =
      (pr : PullRequest) × (t : ℕ) × (client.get_pull_request job.repository job.pull_request_number
        ≡ returned (pr, t))
      × Due w pr
      × ((latest : PullRequest) × (ms : ℕ) × (client.get_pull_request_latest job.repository
              job.pull_request_number
            ≡ returned (latest, ms))
          × OnHead pr latest
          × Posted pr w r)

  fetched-Seen : (w : World) → Quiet w (fetched w) ⊎ Seen w (fetched w)
  unfolding fetched Seen await
  fetched-Seen w =
      elim (Outcome-cases (client.get_pull_request job.repository job.pull_request_number)) [
        | inl ((pr, t), e) ↦ rw e (elim (with_pull_request-Due w pr t) [
          | inl q ↦ inl q
          | inr (due, inl q) ↦ inl q
          | inr (due, inr c) ↦ inr (pr, t, refl, due, c)
        ])
        | inr (inl (err, e)) ↦ rw e (inl refl)
        | inr (inr e) ↦ rw e (inl refl)
      ]

  -- A run of `process` writes no comment, or exactly one: reviews are enabled, the repository is
  -- allowed, the action asks for a review, the Pull Request was open, ready and without a review of
  -- its head in the database and in its comments, and read again after the review it was open, ready
  -- and at the same head; the comment is on that Pull Request, and if the run returned then its head
  -- is in the database as reviewed.
  pub process-Justified :
      (w : World) → let r = process service client engine now job w in Quiet w r ⊎ Justified w r
  unfolding process fetched Seen
  process-Justified w =
      elim (past_guard
        (λ r.
          (not (any (text_eq (lower job.repository)) service.allowlist) ≡ false)
          × ((not (is_review_action job.action) ≡ false) × Seen w r))
        w (not service.enabled) _ _ refl
        (past_guard (λ r. (not (is_review_action job.action) ≡ false) × Seen w r) w
          (not (any (text_eq (lower job.repository)) service.allowlist)) _ _ refl
          (past_guard (Seen w) w (not (is_review_action job.action))
            (skip_event now job (codes "event action ignored") w) (fetched w) refl
            (fetched-Seen w)))) [
              | inl q ↦ inl q
              | inr (on, (listed, (asked, seen))) ↦
                  inr ((ground (arith, on), ground (arith, listed), ground (arith, asked)), seen)
            ]
