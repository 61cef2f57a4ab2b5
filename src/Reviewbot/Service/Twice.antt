-- ===== src/Reviewbot/Service/Twice.antt =====
-- src/reviewbot/service.py: two runs for one head write at most one comment.
use oh_my_robot.Prelude.{ℕ, true, false, ◌≡◌, ◌⊎◌, inl, inr, arith, sym, ◌∙◌, ap}
use oh_my_robot.Reviewbot.Models.{PullRequest, ReviewJob}
use oh_my_robot.Reviewbot.Store.Queue.{has_review}
use oh_my_robot.Reviewbot.Service.{returned, Client, Engine, Service, World}
use oh_my_robot.Reviewbot.Service.Process.{process}
use oh_my_robot.Reviewbot.Service.Published.{process-Justified}
use oh_my_robot.Reviewbot.Service.Quiet.{Quiet}

returned_same : {A : Type 0} (a b : A) → returned a ≡ returned b → a ≡ b
returned_same a b e = ground arith

module _ (service : Service) (client : Client) (engine : Engine) (now : ℕ) (job : ReviewJob) where
  -- A run that returned and wrote a comment left the head that it had read recorded as reviewed.
  run-recorded :
      (w : World) (pr : PullRequest) (t : ℕ)
      → client.get_pull_request job.repository job.pull_request_number ≡ returned (pr, t)
      → let r = process service client engine now job w in
        r.1 ≡ returned tt
        → Quiet w r ⊎ (has_review pr.repository pr.number pr.head_sha r.0.store ≡ true)
  run-recorded w pr t e done = elim (process-Justified service client engine now job w) [
    | inl q ↦ inl q
    | inr (asked, (pr', t', e', due, (latest, ms, e'', head, (c, at, repo, number, recorded)))) ↦
        let q : pr' ≡ pr = ap (λ p. p.0) (returned_same (pr', t') (pr, t) (sym e' ∙ e)) in
        inr (rw (← q) (recorded done))
  ]

  -- A run that reads a head which is recorded as reviewed writes nothing.
  reviewed-Quiet :
      (w : World) (pr : PullRequest) (t : ℕ)
      → client.get_pull_request job.repository job.pull_request_number ≡ returned (pr, t)
      → has_review pr.repository pr.number pr.head_sha w.store ≡ true
      → Quiet w (process service client engine now job w)
  reviewed-Quiet w pr t e h = elim (process-Justified service client engine now job w) [
    | inl q ↦ q
    | inr (asked, (pr', t', e', (live, ready, fresh, unmarked), rest)) ↦
        let q : pr' ≡ pr = ap (λ p. p.0) (returned_same (pr', t') (pr, t) (sym e' ∙ e)) in
        let f : has_review pr.repository pr.number pr.head_sha w.store ≡ false = rw (← q) fresh in
        absurd (ground (arith, h, f))
  ]

-- Two runs, of any events, with any answers of GitHub and the reviewers: if the first returned, and
-- both read a Pull Request with the same repository, number and head, then at least one of them
-- wrote no comment.
pub process_twice :
    (service : Service) (client client' : Client) (engine engine' : Engine) (now now' : ℕ)
    (job job' : ReviewJob) (w : World) (pr pr' : PullRequest) (t t' : ℕ)
    → client.get_pull_request job.repository job.pull_request_number ≡ returned (pr, t)
    → client'.get_pull_request job'.repository job'.pull_request_number ≡ returned (pr', t')
    → pr'.repository ≡ pr.repository
    → pr'.number ≡ pr.number
    → pr'.head_sha ≡ pr.head_sha
    → (process service client engine now job w).1 ≡ returned tt
    → Quiet w (process service client engine now job w)
      ⊎ Quiet
          (process service client engine now job w).0
          (process service client' engine' now' job' (process service client engine now job w).0)
process_twice service client client' engine engine' now now' job job' w pr pr' t t' e e' same number
      head done =
    let r = process service client engine now job w in
    elim (run-recorded service client engine now job w pr t e done) [
      | inl q ↦ inl q
      | inr h ↦
          let h' : has_review pr'.repository pr'.number pr'.head_sha r.0.store ≡ true =
            rw (same, number, head) h in
          inr (reviewed-Quiet service client' engine' now' job' r.0 pr' t' e' h')
    ]
