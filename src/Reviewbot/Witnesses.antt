-- ===== src/Reviewbot/Witnesses.antt =====
-- The theorems on the review service, each at a concrete input.
use oh_my_robot.Prelude.{
  ℕ, ◌+◌, ◌≤◌, Text, codes, text_eq, lower, strip, Bool, true, ◌&&◌, ◌||◌, none, some, List, [],
  ◌∷◌, ◌≡◌, ◌≢◌, ◌↔◌, ◌⊎◌, inl, refl, arith, In, all, map, ◌==◌, splitlines,
}
use oh_my_robot.Prelude.Int.{pos}
use oh_my_robot.Reviewbot.Models.{
  EventRecord, ReviewResult, FindingRecord, new, ReviewJob, queued, running, webhook, p0, p1,
}
use oh_my_robot.Reviewbot.Samples.{
  sample_job, sample_event, store_with, sample_pr, sample_file, finding_at, result_with,
  sample_digest, sample_service, sample_client, sample_error, failing_client, sample_engine,
  sample_world,
}
use oh_my_robot.Reviewbot.Store.{Store, ReviewMetrics}
use oh_my_robot.Reviewbot.Store.Queue.{claim_next, has_review, supersede_and_enqueue}
use oh_my_robot.Reviewbot.Store.Queue.Due.{IsDue, UniqueIds}
use oh_my_robot.Reviewbot.Store.Queue.Serve.{claim_next-none}
use oh_my_robot.Reviewbot.Store.Runs.{Op, submit, claim, run, empty}
use oh_my_robot.Reviewbot.Store.Sound.{IsSound}
use oh_my_robot.Reviewbot.Store.Reachable.{run-empty-IsSound}
use oh_my_robot.Reviewbot.Store.Lifecycle.{IsRestarted, initialize-recovers, mark_failed-retries}
use oh_my_robot.Reviewbot.Store.Superseding.{WillReview, supersede_and_enqueue-WillReview}
use oh_my_robot.Reviewbot.Store.Reviewed.{IsSucceeded, complete_review_lem}
use oh_my_robot.Reviewbot.Store.Outcomes.{initialize, mark_failed}
use oh_my_robot.Reviewbot.Store.Reviews.{complete_review}
use oh_my_robot.Reviewbot.Store.Findings.{sync_rows}
use oh_my_robot.Reviewbot.Store.Findings.Upsert.{row_of}
use oh_my_robot.Reviewbot.Store.Findings.History.{sync_rows-keeps_history}
use oh_my_robot.Reviewbot.Diff.{DiffContext, DiffReviewPlan, build_diff_batches, build_diff_context}
use oh_my_robot.Reviewbot.Service.Stages.{then_do, publish_review_outputs}
use oh_my_robot.Reviewbot.Diff.Batches.{IsPlan, build_diff_batches-IsPlan}
use oh_my_robot.Reviewbot.Diff.Patch.{parse_changed_lines}
use oh_my_robot.Reviewbot.Diff.Lines.{AddedAt, parse_changed_lines-AddedAt}
use oh_my_robot.Reviewbot.Reviewer.{is_blank, normalize_result, merge_review_results, merged_result}
use oh_my_robot.Reviewbot.Reviewer.Normal.{IsNormal, normalize_result-IsNormal}
use oh_my_robot.Reviewbot.Reviewer.Merge.{
  IsMerge, merge_review_results-IsMerge, merge_review_results-fails_iff,
}
use oh_my_robot.Reviewbot.Service.Process.{process}
use oh_my_robot.Reviewbot.Service.Published.{Justified, process-Justified}
use oh_my_robot.Reviewbot.Service.Quiet.{Quiet}
use oh_my_robot.Reviewbot.Service.Twice.{process_twice}
use oh_my_robot.Reviewbot.Service.Ended.{Idle}
use oh_my_robot.Reviewbot.Worker.{run_claimed}
use oh_my_robot.Reviewbot.Worker.Settled.{Retried, run_claimed-Idle, run_claimed-Retried}

abbrev calls : List (ℕ × Op)
calls = (5, submit sample_job webhook none) ∷ (6, claim) ∷ []

run-empty-IsSound_example : IsSound (run sample_digest calls empty).events
run-empty-IsSound_example = run-empty-IsSound sample_digest calls

process-Justified_example :
    let r = process sample_service sample_client sample_engine 9 sample_job sample_world in
    Quiet sample_world r
    ⊎ Justified sample_service sample_client sample_engine 9 sample_job sample_world r
process-Justified_example =
    process-Justified sample_service sample_client sample_engine 9 sample_job sample_world

process_twice_example :
    let r = process sample_service sample_client sample_engine 9 sample_job sample_world in
    Quiet sample_world r
    ⊎ Quiet r.0 (process sample_service sample_client sample_engine 10 sample_job r.0)
unfolding process text_eq lower has_review build_diff_batches build_diff_context then_do
    publish_review_outputs
process_twice_example =
    process_twice sample_service sample_client sample_client sample_engine sample_engine 9 10
      sample_job sample_job sample_world sample_pr sample_pr 1 1 refl refl refl refl refl refl

run_claimed-Idle_example :
    Idle
      (codes "d1")
      (run_claimed sample_service sample_client sample_engine
        (λ t. t)
        2
        9
        10
        sample_job
        1
        sample_world).0.store
run_claimed-Idle_example =
    run_claimed-Idle sample_service sample_client sample_engine (λ t. t) 2 9 10 sample_job 1
      sample_world

run_claimed-Retried_example :
    (y : EventRecord) × In y
      (run_claimed sample_service failing_client sample_engine
        (λ t. t)
        2
        9
        10
        sample_job
        1
        sample_world).0.store.events
    × Retried sample_service failing_client sample_engine
        (λ t. t)
        2
        9
        10
        sample_job
        1
        sample_error
        (sample_event running)
        y
unfolding process text_eq lower
run_claimed-Retried_example =
    run_claimed-Retried sample_service failing_client sample_engine (λ t. t) 2 9 10 sample_job 1
      sample_world sample_error refl (sample_event running) (inl refl) refl

claim_next-none_example :
    ((e : EventRecord) → In e (store_with queued).events → ¬ IsDue 4 (store_with queued).events e)
    × ((claim_next 4 (store_with queued)).0 ≡ store_with queued)
unfolding claim_next
claim_next-none_example = claim_next-none 4 (store_with queued) refl

build_diff_batches-IsPlan_example :
    (plan : DiffReviewPlan) × (build_diff_batches (sample_file ∷ []) (pos 1000) ≡ some plan)
    × IsPlan 1000 (sample_file ∷ []) plan
build_diff_batches-IsPlan_example = build_diff_batches-IsPlan (sample_file ∷ []) 1000 (omega arith)

parse_changed_lines-AddedAt_example :
    In 2 (parse_changed_lines sample_file.patch) ↔ AddedAt (splitlines sample_file.patch) 2
parse_changed_lines-AddedAt_example = parse_changed_lines-AddedAt sample_file.patch 2

abbrev sample_diff : DiffContext
sample_diff = record {
  text = [];
  files = codes "a.py" ∷ [];
  changed_lines = (codes "a.py", 2 ∷ []) ∷ [];
  omitted_files = [];
}

normalize_result-IsNormal_example :
    IsNormal sample_diff
      (result_with (finding_at p1 2 ∷ finding_at p1 9 ∷ []))
      (normalize_result (result_with (finding_at p1 2 ∷ finding_at p1 9 ∷ [])) sample_diff)
normalize_result-IsNormal_example =
    normalize_result-IsNormal (result_with (finding_at p1 2 ∷ finding_at p1 9 ∷ [])) sample_diff

merge_review_results-fails_iff_example : (merge_review_results (result_with [] ∷ []) ≡ none) ↔ (
    (result_with [] ∷ [] ≢ [])
    × (all is_blank (map (λ r. strip r.summary) (result_with [] ∷ [])) ≡ true))
merge_review_results-fails_iff_example = merge_review_results-fails_iff (result_with [] ∷ [])

abbrev batch_results : List ReviewResult
batch_results = result_with (finding_at p0 2 ∷ []) ∷ []

merge_review_results-IsMerge_example :
    IsMerge
      (result_with (finding_at p1 2 ∷ []) ∷ batch_results)
      (merged_result (result_with (finding_at p1 2 ∷ [])) batch_results)
unfolding merge_review_results strip
merge_review_results-IsMerge_example =
    merge_review_results-IsMerge (result_with (finding_at p1 2 ∷ [])) batch_results
      (merged_result (result_with (finding_at p1 2 ∷ [])) batch_results) refl

abbrev next_job : ReviewJob
next_job = record sample_job {
  delivery_id = codes "refresh:o/r:7:def";
  webhook_head_sha = codes "def";
}

one_row : UniqueIds (store_with running).events
one_row id = ground arith

supersede_and_enqueue-WillReview_example :
    (r : Store × Bool) × (supersede_and_enqueue 9
        (codes "d1")
        (codes "new head")
        next_job
        (store_with running)
      ≡ some r)
    × WillReview 9 next_job (store_with running).events r.0
supersede_and_enqueue-WillReview_example =
    supersede_and_enqueue-WillReview 9 (codes "d1") (codes "new head") next_job (store_with running)
      (sample_event running) one_row (inl refl) refl refl

initialize-recovers_example :
    IsRestarted 9 (store_with running).events (initialize 9 (store_with running)).events
initialize-recovers_example = initialize-recovers 9 (store_with running)

mark_failed-retries_example :
    (r : EventRecord) × In r
      (mark_failed 9
        (codes "d1")
        (codes "down")
        true
        (some (pos 5000))
        none
        (store_with running)).events
    × (r.delivery_id ≡ codes "d1")
    × (r.state ≡ queued)
    × (r.attempts ≡ 0)
    × (r.last_error ≡ some (codes "down"))
    × (9 ≤ r.available_at)
    × (r.available_at ≤ 9 + 3600)
mark_failed-retries_example =
    mark_failed-retries 9 (codes "d1") (codes "down") (some (pos 5000)) none (store_with running)
      (sample_event running) (inl refl) refl

abbrev sample_metrics : ReviewMetrics
sample_metrics = record {
  delivery_id = codes "d1";
  diff_file_count = 1;
  diff_bytes = 40;
  omitted_file_count = 0;
  model_input_tokens = none;
  model_output_tokens = none;
  finding_count = 0;
  review_rank = none;
  model_duration_ms = none;
  github_duration_ms = none;
}

complete_review_lem_example :
    let s =
      complete_review sample_digest 9
        (codes "o/r")
        7
        (codes "abc")
        (some 41)
        sample_metrics
        none
        none
        (store_with running) in
    ((e : EventRecord)
      → In e (store_with running).events
      → e.delivery_id ≡ codes "d1"
      → (r : EventRecord) × In r s.events × IsSucceeded 9 e r)
    × ((e : EventRecord)
        → In e (store_with running).events
        → ¬ (e.delivery_id ≡ codes "d1")
        → In e s.events)
    × ((r : EventRecord)
        → In r s.events
        → (e : EventRecord) × In e (store_with running).events
          × (((e.delivery_id ≡ codes "d1") × IsSucceeded 9 e r)
              ⊎ ((¬ (e.delivery_id ≡ codes "d1")) × (r ≡ e))))
    × ((repo' : Text) (number' : ℕ) (sha' : Text)
        → has_review repo' number' sha' s ≡ (
            (text_eq (lower (codes "o/r")) (lower repo')
              && 7 == number'
              && text_eq (codes "abc") sha')
            || has_review repo' number' sha' (store_with running)))
complete_review_lem_example =
    complete_review_lem sample_digest 9 (codes "o/r") 7 (codes "abc") (some 41) sample_metrics none
      none (store_with running)

abbrev no_rows : List FindingRecord
no_rows = []

abbrev old_row : FindingRecord
old_row = record {
  fingerprint = codes "f";
  repository = codes "o/r";
  pull_request_number = 7;
  head_sha = codes "old";
  path = codes "a.py";
  line = 2;
  end_line = none;
  priority = p1;
  title = codes "T";
  status = new;
  first_seen_sha = codes "old";
  last_seen_sha = codes "old";
  created_at = 1;
  updated_at = 1;
}

sync_rows-keeps_history_example :
    (r : FindingRecord) × (row_of
        (codes "o/r")
        7
        (codes "f")
        (sync_rows sample_digest 9 (codes "o/r") 7 (codes "abc") [] none (old_row ∷ []))
      ≡ some r)
    × (r.first_seen_sha ≡ codes "old")
    × (r.created_at ≡ 1)
unfolding text_eq
sync_rows-keeps_history_example =
    sync_rows-keeps_history sample_digest 9 (codes "o/r") 7 (codes "abc") none [] (old_row ∷ [])
      (codes "f") old_row (omega arith) refl
