-- ===== src/Reviewbot/Service/Process.antt =====
-- src/reviewbot/service.py: `process`, cut where it awaits GitHub or the reviewer.
use oh_my_robot.Prelude.{
  ℕ, ◌+◌, Text, codes, text_eq, lower, Bool, not, Option, none, some, List, [], ◌∷◌, ◌++◌,
  if◌then◌else◌, any, find, length, byte_len,
}
use oh_my_robot.Reviewbot.Models.{PullRequest, PullRequestComment, ChangedFile, ReviewJob}
use oh_my_robot.Reviewbot.Store.{Store}
use oh_my_robot.Reviewbot.Store.Queue.{has_review, supersede_and_enqueue}
use oh_my_robot.Reviewbot.Store.Reviews.{
  record_review_attempt_metrics, record_omp_execution, complete_review,
}
use oh_my_robot.Reviewbot.Diff.{DiffContext, DiffReviewPlan, build_diff_batches, build_diff_context}
use oh_my_robot.Reviewbot.Service.{
  Outcome, Changes, returned, raised, cancelled, ReviewExecution, Comment, Client, Engine, Service,
  World, await,
}
use oh_my_robot.Reviewbot.Service.Stages.{
  refresh_delivery_id, is_review_action, has_marker, skip_event, runtime_error, value_error,
  publish_review_outputs, then_do,
}

module _ (service : Service) (client : Client) (engine : Engine) (now : ℕ) (job : ReviewJob) where
  -- `none` is the ValueError for a bound that is not positive.
  abbrev with_diff : List ChangedFile → DiffReviewPlan → Option DiffContext → Option Changes
  with_diff files plan none = none
  with_diff files plan (some diff) = some (record { files = files; diff_plan = plan; diff = diff })

  abbrev with_plan : List ChangedFile → Option DiffReviewPlan → Option Changes
  with_plan files none = none
  with_plan files (some plan) =
      with_diff files plan (build_diff_context files service.max_diff_bytes)

  unfoldable pub changes_of : List ChangedFile → Option Changes
  changes_of files = with_plan files (build_diff_batches files service.max_diff_bytes)

  abbrev pub attempt_metrics : Changes → Option ℕ → Option ℕ → ℕ → ℕ → World → World
  attempt_metrics changes input output model_ms github_ms w = record w {
    store =
        record_review_attempt_metrics
          (record {
            delivery_id = job.delivery_id;
            diff_file_count = length changes.files;
            diff_bytes = byte_len changes.diff.text;
            omitted_file_count = length changes.diff.omitted_files;
            model_input_tokens = input;
            model_output_tokens = output;
            model_duration_ms = some model_ms;
            github_duration_ms = some github_ms;
          })
          w.store;
  }

  -- The comment is posted; the outputs and the end of the event.
  unfoldable pub finish :
      PullRequest
      → Changes
      → ReviewExecution
      → ℕ
      → Text
      → World
      → Option ℕ × ℕ
      → World × Outcome Unit
  finish pr changes execution model_ms comment w (comment_id, github_ms) =
      then_do service client engine now job
        (publish_review_outputs service client engine now job pr execution.result changes.diff_plan
          comment w)
        (λ w. (
          record w {
            store =
                complete_review service.digest now pr.repository pr.number pr.head_sha comment_id
                  (record {
                    delivery_id = job.delivery_id;
                    diff_file_count = length changes.files;
                    diff_bytes = byte_len changes.diff.text;
                    omitted_file_count = length changes.diff.omitted_files;
                    model_input_tokens = execution.input_tokens;
                    model_output_tokens = execution.output_tokens;
                    finding_count = length execution.result.findings;
                    review_rank = some execution.result.rank;
                    model_duration_ms = some model_ms;
                    github_duration_ms = some github_ms;
                  })
                  (some execution.result.findings) (some changes.diff_plan.reviewed_files) w.store;
          },
          returned tt,
        ))

  abbrev pub comment_of : PullRequest → Changes → ReviewExecution → Comment
  comment_of pr changes execution = record {
    repository = pr.repository;
    number = pr.number;
    body = service.render_review pr execution.result changes.diff_plan;
  }

  abbrev add_comment : Comment → World → World
  add_comment c w = record w { comments = w.comments ++ c ∷ [] }

  unfoldable pub publish :
      PullRequest → Changes → ReviewExecution → ℕ → ℕ → World → World × Outcome Unit
  unfolding finish await
  publish pr changes execution model_ms github_ms w =
      let c = comment_of pr changes execution in
      await (client.create_pull_request_comment c) w (λ (id, ms).
        finish pr changes execution model_ms c.body (add_comment c w) (id, github_ms + ms))

  -- `none` of the store is the RuntimeError of `supersede_and_enqueue`.
  abbrev pub superseded_to : World → Option (Store × Bool) → World × Outcome Unit
  superseded_to w none = (w, runtime_error (codes "running event not found: " ++ job.delivery_id))
  superseded_to w (some (s, _)) = (record w { store = s }, returned tt)

  abbrev pub refresh_job : PullRequest → ReviewJob
  refresh_job latest = record {
    delivery_id = refresh_delivery_id latest.repository latest.number latest.head_sha;
    event_type = codes "pull_request";
    action = codes "synchronize";
    repository = latest.repository;
    pull_request_number = latest.number;
    webhook_head_sha = latest.head_sha;
  }

  unfoldable pub with_latest :
      PullRequest → Changes → ReviewExecution → ℕ → ℕ → World → PullRequest → World × Outcome Unit
  unfolding publish
  with_latest pr changes execution model_ms github_ms w latest =
      if not (text_eq (lower latest.state) (codes "open"))
      then skip_event now job (codes "Pull Request is no longer open") w
      else if latest.draft
      then skip_event now job (codes "Pull Request became a draft") w
      else if not (text_eq latest.head_sha pr.head_sha)
      then superseded_to w (
          supersede_and_enqueue now job.delivery_id
            (codes "head SHA changed from " ++ pr.head_sha ++ codes " to " ++ latest.head_sha)
            (refresh_job latest) w.store)
      else publish pr changes execution model_ms github_ms w

  abbrev pub omp_recorded : PullRequest → ReviewExecution → Option Text → Store → Store
  omp_recorded pr execution none s = s
  omp_recorded pr execution (some session_id) s =
      record_omp_execution job.delivery_id pr.repository pr.number pr.head_sha session_id
        execution.tool_audit s

  abbrev pub executed : PullRequest → Changes → ReviewExecution → ℕ → ℕ → World → World
  executed pr changes execution model_ms github_ms w =
      attempt_metrics changes execution.input_tokens execution.output_tokens model_ms github_ms
        (record w { store = omp_recorded pr execution execution.session_id w.store })

  -- The reviewer has answered or raised.
  unfoldable pub with_execution :
      PullRequest → Changes → ℕ → World → Outcome ReviewExecution × ℕ → World × Outcome Unit
  unfolding await with_latest
  with_execution pr changes github_ms w (returned execution, model_ms) =
      let w₁ = executed pr changes execution model_ms github_ms w in
      await (client.get_pull_request_latest job.repository job.pull_request_number) w₁
        (λ (latest, ms). with_latest pr changes execution model_ms (github_ms + ms) w₁ latest)
  with_execution pr changes github_ms w (raised e, model_ms) =
      (attempt_metrics changes e.input_tokens e.output_tokens model_ms github_ms w, raised e)
  with_execution pr changes github_ms w (cancelled, model_ms) = (w, cancelled)

  -- Deep mode: the reviewer and the archive must be there.
  unfoldable pub deep_mode :
      PullRequest
      → Changes
      → ℕ
      → World
      → Option (PullRequest → DiffContext → Text → Option (List ℕ) → Outcome ReviewExecution × ℕ)
      → Option (Text → Text → Outcome (List ℕ × ℕ))
      → World × Outcome Unit
  unfolding await with_execution
  deep_mode pr changes github_ms w none download =
      (w, runtime_error (codes "deep review mode is not configured"))
  deep_mode pr changes github_ms w (some review) none =
      (w, runtime_error (codes "GitHub client does not support PR archives"))
  deep_mode pr changes github_ms w (some review) (some download) =
      await (download pr.repository pr.head_sha) w (λ (archive, ms).
        with_execution pr changes (github_ms + ms) w
          (review pr changes.diff (service.load_rules changes.files) (some archive)))

  unfoldable pub with_changes : PullRequest → ℕ → World → Option Changes → World × Outcome Unit
  unfolding deep_mode with_execution
  with_changes pr github_ms w none = (w, value_error (codes "max_bytes must be positive"))
  with_changes pr github_ms w (some changes) =
      if service.deep_mode
      then deep_mode pr changes github_ms w engine.deep_review client.download_pull_request_archive
      else with_execution pr changes github_ms w
          (engine.review_plan pr changes.diff_plan (service.load_rules changes.files))

  -- A comment with the marker of this head is there already: the event is completed with it.
  unfoldable pub with_comments :
      PullRequest → ℕ → World → Option PullRequestComment → World × Outcome Unit
  unfolding await changes_of with_changes
  with_comments pr github_ms w (some existing) = (
    record w {
      store =
          complete_review service.digest now pr.repository pr.number pr.head_sha (some existing.id)
            (record {
              delivery_id = job.delivery_id;
              diff_file_count = 0;
              diff_bytes = 0;
              omitted_file_count = 0;
              model_input_tokens = none;
              model_output_tokens = none;
              finding_count = 0;
              review_rank = none;
              model_duration_ms = some 0;
              github_duration_ms = some github_ms;
            })
            none none w.store;
    },
    returned tt,
  )
  with_comments pr github_ms w none =
      await (client.list_pull_request_files pr.repository pr.number) w
        (λ (files, ms). with_changes pr (github_ms + ms) w (changes_of files))

  unfoldable pub with_pull_request : World → PullRequest × ℕ → World × Outcome Unit
  unfolding await with_comments
  with_pull_request w (pr, github_ms) =
      if not (text_eq (lower pr.state) (codes "open"))
      then skip_event now job (codes "Pull Request is not open") w
      else if pr.draft
      then skip_event now job (codes "draft Pull Request") w
      else if has_review pr.repository pr.number pr.head_sha w.store
      then skip_event now job (codes "head SHA already reviewed") w
      else await (client.list_pull_request_comments pr.repository pr.number) w (λ (comments, ms).
        with_comments pr (github_ms + ms) w (find (has_marker pr.head_sha) comments))

  unfoldable pub process : World → World × Outcome Unit
  unfolding await with_pull_request
  process w =
      if not service.enabled
      then skip_event now job (codes "review disabled") w
      else if not (any (text_eq (lower job.repository)) service.allowlist)
      then skip_event now job (codes "repository not allowlisted") w
      else if not (is_review_action job.action)
      then skip_event now job (codes "event action ignored") w
      else await (client.get_pull_request job.repository job.pull_request_number) w
          (with_pull_request w)
