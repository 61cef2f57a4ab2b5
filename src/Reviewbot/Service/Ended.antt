-- ===== src/Reviewbot/Service/Ended.antt =====
-- src/reviewbot/service.py: when `process` returns, its event no longer runs.
use oh_my_robot.Prelude.{
  ℕ, Text, codes, text_eq, lower, Bool, true, false, not, Option, none, some, List, [], ◌∷◌, ◌++◌,
  ◌+◌, ◌≡◌, refl, arith, if◌then◌else◌, any, find, update, count_if, count_if-update-le,
  count_if-append, ◌||◌, Bool-cases, inl, inr,
}
use oh_my_robot.Reviewbot.Models.{
  PullRequest, PullRequestComment, ReviewJob, EventRecord, EventSource, refresh, ReviewFinding,
  is_queued, skipped, succeeded, is_running,
}
use oh_my_robot.Reviewbot.Store.{Store, ReviewMetrics}
use oh_my_robot.Reviewbot.Store.Queue.{
  has_id, running_id, has_review, supersede_and_enqueue, insert_event, new_event, refresh_existing,
  refreshed, supersede, enqueue_refresh_event,
}
use oh_my_robot.Reviewbot.Store.Outcomes.{with_state, mark_skipped}
use oh_my_robot.Reviewbot.Store.Reviews.{complete_review}
use oh_my_robot.Reviewbot.Diff.{DiffContext}
use oh_my_robot.Reviewbot.Service.{
  Error, Outcome, returned, raised, cancelled, Changes, ReviewExecution, Client, Engine, Service,
  World, await,
}
use oh_my_robot.Reviewbot.Service.Stages.{then_do, is_review_action, skip_event}
use oh_my_robot.Reviewbot.Service.Process.{
  finish, publish, with_latest, with_execution, deep_mode, with_changes, comment_of, superseded_to,
  executed, refresh_job, with_comments, with_pull_request, process,
}

-- No event of this delivery runs.
abbrev pub Idle : Text → Store → Type 0
Idle id s = count_if (running_id id) s.events ≡ 0

-- If the part of the method returned, the event is idle.
unfoldable pub EndsIdle : Text → World × Outcome Unit → Type 0
EndsIdle id (w, returned _) = Idle id w.store
EndsIdle id (w, raised _) = Unit
EndsIdle id (w, cancelled) = Unit

raised-EndsIdle : (id : Text) (w : World) (e : Error) → EndsIdle id (w, raised e)
unfolding EndsIdle
raised-EndsIdle id w e = tt

cancelled-EndsIdle : (id : Text) (w : World) → EndsIdle id (w, cancelled)
unfolding EndsIdle
cancelled-EndsIdle id w = tt

await-EndsIdle :
    {A : Type 0} (id : Text) (o : Outcome A) (w : World) (k : A → World × Outcome Unit)
    → ((a : A) → EndsIdle id (k a))
    → EndsIdle id (await o w k)
unfolding await EndsIdle
await-EndsIdle id (returned a) w k h = h a
await-EndsIdle id (raised e) w k h = tt
await-EndsIdle id cancelled w k h = tt

if-EndsIdle :
    (id : Text) (b : Bool) (x y : World × Outcome Unit)
    → EndsIdle id x
    → EndsIdle id y
    → EndsIdle id (if b then x else y)
if-EndsIdle id true x y h k = h
if-EndsIdle id false x y h k = k

-- An update that stops every row of the delivery.
pub stopped :
    (id : Text) (f : EventRecord → EventRecord) (events : List EventRecord)
    → ((e : EventRecord) → (f e).delivery_id ≡ e.delivery_id)
    → ((e : EventRecord) → is_running (f e).state ≡ false)
    → count_if (running_id id) (update (has_id id) f events) ≡ 0
stopped id f [] same idle = refl
stopped id f (e ∷ events) same idle = ground (arith, idle e, stopped id f events same idle)

-- The same for an update of the rows that run.
pub stopped_running :
    (id : Text) (f : EventRecord → EventRecord) (events : List EventRecord)
    → ((e : EventRecord) → is_running (f e).state ≡ false)
    → count_if (running_id id) (update (running_id id) f events) ≡ 0
stopped_running id f [] idle = refl
stopped_running id f (e ∷ events) idle = ground (arith, idle e, stopped_running id f events idle)

insert_event-Idle :
    (now : ℕ) (job : ReviewJob) (source : EventSource) (from : Option Text) (id : Text) (s : Store)
    → Idle id s
    → Idle id (insert_event now job source from s).0
unfolding insert_event
insert_event-Idle now job source from id s h =
    elim (Bool-cases (any (has_id job.delivery_id) s.events)) [
      | inl t ↦ rw t h
      | inr f ↦ rw f (
          ground (
            arith,
            count_if-append (running_id id) s.events (new_event now job source from ∷ []),
            h,
          ))
    ]

refresh_existing-Idle :
    (now : ℕ) (job : ReviewJob) (from id : Text) (o : Option EventRecord) (s : Store)
    → Idle id s
    → Idle id (refresh_existing now job from o s).0
unfolding refresh_existing
refresh_existing-Idle now job from id none s h =
    insert_event-Idle now job refresh (some from) id s h
refresh_existing-Idle now job from id (some e) s h =
    elim (Bool-cases (is_queued e.state || is_running e.state)) [
      | inl t ↦ rw t h
      | inr f ↦ rw f (
          omega (
            arith,
            h,
            count_if-update-le (running_id id) (has_id job.delivery_id) (refreshed now job from)
                (λ x r. ground arith) s.events,
          ))
    ]

enqueue_refresh_event-Idle :
    (now : ℕ) (job : ReviewJob) (from id : Text) (s : Store)
    → Idle id s
    → Idle id (enqueue_refresh_event now job from s).0
unfolding enqueue_refresh_event
enqueue_refresh_event-Idle now job from id s h =
    elim (Bool-cases (has_review job.repository job.pull_request_number job.webhook_head_sha s)) [
      | inl t ↦ rw t h
      | inr f ↦
          rw f (refresh_existing-Idle now job from id (find (has_id job.delivery_id) s.events) s h)
    ]

superseded-Idle :
    (now : ℕ) (id reason : Text) (job : ReviewJob) (s : Store) (r : Store × Bool)
    → supersede_and_enqueue now id reason job s ≡ some r
    → Idle id r.0
unfolding supersede_and_enqueue
superseded-Idle now id reason job s r h =
    let s' : Store = record s { events = update (running_id id) (supersede now reason) s.events } in
    let q : enqueue_refresh_event now job id s' ≡ r = ground arith in
    rw (← q) (
      enqueue_refresh_event-Idle now job id id s'
        (stopped_running id (supersede now reason) s.events (λ e. refl)))

module _ (service : Service) (client : Client) (engine : Engine) (now : ℕ) (job : ReviewJob) where
  skip_event-EndsIdle :
      (reason : Text) (w : World) → EndsIdle job.delivery_id (skip_event now job reason w)
  unfolding EndsIdle mark_skipped
  skip_event-EndsIdle reason w =
      stopped job.delivery_id (with_state now skipped (some reason)) w.store.events (λ e. refl)
        (λ e. refl)

  then_do-EndsIdle :
      (r : World × Outcome Unit) (k : World → World × Outcome Unit)
      → ((w : World) → EndsIdle job.delivery_id (k w))
      → EndsIdle job.delivery_id (then_do service client engine now job r k)
  unfolding then_do EndsIdle
  then_do-EndsIdle (w, returned x) k h = h w
  then_do-EndsIdle (w, raised e) k h = tt
  then_do-EndsIdle (w, cancelled) k h = tt

  complete-EndsIdle :
      (repo : Text) (number : ℕ) (sha : Text) (comment : Option ℕ) (m : ReviewMetrics)
      (findings : Option (List ReviewFinding)) (paths : Option (List Text)) (w : World)
      → m.delivery_id ≡ job.delivery_id
      → EndsIdle job.delivery_id (
        record w {
          store =
              complete_review service.digest now repo number sha comment m findings paths w.store;
        },
        returned tt,
      )
  unfolding EndsIdle complete_review
  complete-EndsIdle repo number sha comment m findings paths w e =
      rw e (stopped job.delivery_id (with_state now succeeded none) _ (λ e. refl) (λ e. refl))

  finish-EndsIdle :
      (pr : PullRequest) (ch : Changes) (x : ReviewExecution) (ms : ℕ) (c : Text) (w : World)
      (r : Option ℕ × ℕ)
      → EndsIdle job.delivery_id (finish service client engine now job pr ch x ms c w r)
  unfolding finish
  finish-EndsIdle pr ch x ms c w (id, t) =
      then_do-EndsIdle _ _ (λ w. complete-EndsIdle _ _ _ _ _ _ _ w refl)

  publish-EndsIdle :
      (pr : PullRequest) (ch : Changes) (x : ReviewExecution) (ms t : ℕ) (w : World)
      → EndsIdle job.delivery_id (publish service client engine now job pr ch x ms t w)
  unfolding publish
  publish-EndsIdle pr ch x ms t w =
      await-EndsIdle job.delivery_id
        (client.create_pull_request_comment (comment_of service client engine now job pr ch x)) w _
        (λ (id, ms'). finish-EndsIdle pr ch x ms _ _ (id, t + ms'))

  superseded-EndsIdle :
      (reason : Text) (next : ReviewJob) (w : World) (o : Option (Store × Bool))
      → supersede_and_enqueue now job.delivery_id reason next w.store ≡ o
      → EndsIdle job.delivery_id (superseded_to service client engine now job w o)
  unfolding EndsIdle
  superseded-EndsIdle reason next w none h = tt
  superseded-EndsIdle reason next w (some r) h =
      superseded-Idle now job.delivery_id reason next w.store r h

  with_latest-EndsIdle :
      (pr : PullRequest) (ch : Changes) (x : ReviewExecution) (ms t : ℕ) (w : World)
      (latest : PullRequest)
      → EndsIdle job.delivery_id (with_latest service client engine now job pr ch x ms t w latest)
  unfolding with_latest
  with_latest-EndsIdle pr ch x ms t w latest =
      if-EndsIdle job.delivery_id (not (text_eq (lower latest.state) (codes "open"))) _ _
        (skip_event-EndsIdle (codes "Pull Request is no longer open") w)
        (if-EndsIdle job.delivery_id latest.draft _ _
          (skip_event-EndsIdle (codes "Pull Request became a draft") w)
          (if-EndsIdle job.delivery_id (not (text_eq latest.head_sha pr.head_sha)) _ _
            (superseded-EndsIdle
              (codes "head SHA changed from " ++ pr.head_sha ++ codes " to " ++ latest.head_sha)
              (refresh_job service client engine now job latest) w _ refl)
            (publish-EndsIdle pr ch x ms t w)))

  with_execution-EndsIdle :
      (pr : PullRequest) (ch : Changes) (t : ℕ) (w : World) (r : Outcome ReviewExecution × ℕ)
      → EndsIdle job.delivery_id (with_execution service client engine now job pr ch t w r)
  unfolding with_execution
  with_execution-EndsIdle pr ch t w (returned x, ms) =
      let w₁ = executed service client engine now job pr ch x ms t w in
      await-EndsIdle job.delivery_id
        (client.get_pull_request_latest job.repository job.pull_request_number) w₁ _
        (λ (latest, ms'). with_latest-EndsIdle pr ch x ms (t + ms') w₁ latest)
  with_execution-EndsIdle pr ch t w (raised e, ms) = raised-EndsIdle job.delivery_id _ e
  with_execution-EndsIdle pr ch t w (cancelled, ms) = cancelled-EndsIdle job.delivery_id w

  deep_mode-EndsIdle :
      (pr : PullRequest) (ch : Changes) (t : ℕ) (w : World)
      (review : Option
        (PullRequest → DiffContext → Text → Option (List ℕ) → Outcome ReviewExecution × ℕ))
      (download : Option (Text → Text → Outcome (List ℕ × ℕ)))
      → EndsIdle job.delivery_id (deep_mode service client engine now job pr ch t w review download)
  unfolding deep_mode
  deep_mode-EndsIdle pr ch t w none download = raised-EndsIdle job.delivery_id w _
  deep_mode-EndsIdle pr ch t w (some review) none = raised-EndsIdle job.delivery_id w _
  deep_mode-EndsIdle pr ch t w (some review) (some download) =
      await-EndsIdle job.delivery_id (download pr.repository pr.head_sha) w _
        (λ (archive, ms). with_execution-EndsIdle pr ch (t + ms) w _)

  with_changes-EndsIdle :
      (pr : PullRequest) (t : ℕ) (w : World) (o : Option Changes)
      → EndsIdle job.delivery_id (with_changes service client engine now job pr t w o)
  unfolding with_changes
  with_changes-EndsIdle pr t w none = raised-EndsIdle job.delivery_id w _
  with_changes-EndsIdle pr t w (some ch) =
      if-EndsIdle job.delivery_id service.deep_mode _ _
        (deep_mode-EndsIdle pr ch t w engine.deep_review client.download_pull_request_archive)
        (with_execution-EndsIdle pr ch t w
          (engine.review_plan pr ch.diff_plan (service.load_rules ch.files)))

  with_comments-EndsIdle :
      (pr : PullRequest) (t : ℕ) (w : World) (o : Option PullRequestComment)
      → EndsIdle job.delivery_id (with_comments service client engine now job pr t w o)
  unfolding with_comments
  with_comments-EndsIdle pr t w (some c) = complete-EndsIdle _ _ _ _ _ _ _ w refl
  with_comments-EndsIdle pr t w none =
      await-EndsIdle job.delivery_id (client.list_pull_request_files pr.repository pr.number) w _
        (λ (files, ms). with_changes-EndsIdle pr (t + ms) w _)

  with_pull_request-EndsIdle :
      (w : World) (r : PullRequest × ℕ)
      → EndsIdle job.delivery_id (with_pull_request service client engine now job w r)
  unfolding with_pull_request
  with_pull_request-EndsIdle w (pr, t) =
      if-EndsIdle job.delivery_id (not (text_eq (lower pr.state) (codes "open"))) _ _
        (skip_event-EndsIdle (codes "Pull Request is not open") w)
        (if-EndsIdle job.delivery_id pr.draft _ _
          (skip_event-EndsIdle (codes "draft Pull Request") w)
          (if-EndsIdle job.delivery_id (has_review pr.repository pr.number pr.head_sha w.store) _ _
            (skip_event-EndsIdle (codes "head SHA already reviewed") w)
            (await-EndsIdle job.delivery_id
              (client.list_pull_request_comments pr.repository pr.number) w _
              (λ (cs, ms). with_comments-EndsIdle pr (t + ms) w _))))

  -- If `process` returns, whatever GitHub and the reviewer answered, no event of the job's
  -- delivery is running any more.
  pub process-EndsIdle :
      (w : World) → EndsIdle job.delivery_id (process service client engine now job w)
  unfolding process
  process-EndsIdle w =
      if-EndsIdle job.delivery_id (not service.enabled) _ _
        (skip_event-EndsIdle (codes "review disabled") w)
        (if-EndsIdle job.delivery_id (not (any (text_eq (lower job.repository)) service.allowlist))
          _ _ (skip_event-EndsIdle (codes "repository not allowlisted") w)
          (if-EndsIdle job.delivery_id (not (is_review_action job.action)) _ _
            (skip_event-EndsIdle (codes "event action ignored") w)
            (await-EndsIdle job.delivery_id
              (client.get_pull_request job.repository job.pull_request_number) w _
              (with_pull_request-EndsIdle w))))
