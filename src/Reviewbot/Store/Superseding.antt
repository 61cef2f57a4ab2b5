-- ===== src/Reviewbot/Store/Superseding.antt =====
-- src/reviewbot/storage.py: `supersede_and_enqueue` and `_enqueue_refresh_event`.
use oh_my_robot.Prelude.{
  ℕ, Text, text_eq_refl, Bool, true, false, ◌||◌, Option, none, some, List, [], ◌∷◌, ◌≡◌, refl,
  arith, any, In, update, count_if, find, Bool-cases, inl, inr, ◌⊎◌, count_if-le_of,
  count_if-pos_of_In, lower, ◌≤◌, find-In, In-append, text_eq_iff,
}
use oh_my_robot.Reviewbot.Models.{
  EventRecord, refresh, ReviewJob, queued, running, is_queued, is_running,
}
use oh_my_robot.Reviewbot.Store.{Store}
use oh_my_robot.Reviewbot.Store.Queue.{
  has_id, insert_event, refresh_existing, refreshed, enqueue_refresh_event, running_id, supersede,
  supersede_and_enqueue, new_event, has_review,
}
use oh_my_robot.Reviewbot.Store.Queue.Due.{UniqueIds, is_queued-true, is_running-true}
use oh_my_robot.Reviewbot.Store.Reviewed.{In-updated}

find-none-any :
    (p : EventRecord → Bool) (events : List EventRecord)
    → find p events ≡ none
    → any p events ≡ false
find-none-any p [] h = refl
find-none-any p (x ∷ events) h = ground (arith, find-none-any p events)

running_id-count :
    (id : Text) (events : List EventRecord) (e : EventRecord)
    → UniqueIds events
    → In e events
    → e.delivery_id ≡ id
    → e.state ≡ running
    → count_if (running_id id) events ≡ 1
running_id-count id events e u i h st = omega (
  arith,
  u id,
  count_if-le_of (running_id id) (has_id id) (λ x t. ground arith) events,
  count_if-pos_of_In (running_id id) e events i (rw (h, st) (ground (arith, text_eq_refl id))),
)

-- An event that carries the job: its delivery id, Pull Request and head are the job's.
pub record IsFor (job : ReviewJob) (e : EventRecord) : Type 0 where
  pub same_id : e.delivery_id ≡ job.delivery_id
  pub same_repository : e.repository ≡ lower job.repository
  pub same_number : e.pull_request_number ≡ job.pull_request_number
  pub same_head : e.webhook_head_sha ≡ job.webhook_head_sha

abbrev pub IsActive : EventRecord → Type 0
IsActive e = (e.state ≡ queued) ⊎ (e.state ≡ running)

-- What superseding must leave behind: the new head is reviewed; or an event for it is queued, due
-- at once and with no attempt made; or the event of the job's delivery id that waited or ran before
-- still does.
abbrev pub WillReview : ℕ → ReviewJob → List EventRecord → Store → Type 0
WillReview now job before s =
    (has_review job.repository job.pull_request_number job.webhook_head_sha s ≡ true)
    ⊎ ((e : EventRecord) × In e s.events
        × IsFor job e
        × (e.state ≡ queued)
        × (e.available_at ≤ now)
        × (e.attempts ≡ 0))
    ⊎ ((e : EventRecord) × In e s.events
        × In e before
        × (e.delivery_id ≡ job.delivery_id)
        × IsActive e)

state-IsActive : (e : EventRecord) → (is_queued e.state || is_running e.state) ≡ true → IsActive e
state-IsActive e h = elim (Bool-cases (is_queued e.state)) [
  | inl t ↦ inl (is_queued-true e.state t)
  | inr f ↦ inr (is_running-true e.state (ground arith))
]

-- The update of a superseded event adds no active event.
active-In :
    (now : ℕ) (id reason : Text) (events : List EventRecord) (e : EventRecord)
    → In e (update (running_id id) (supersede now reason) events)
    → (is_queued e.state || is_running e.state) ≡ true
    → In e events
active-In now id reason [] e i h = i
active-In now id reason (x ∷ events) e (inl q) h = inl (ground arith)
active-In now id reason (x ∷ events) e (inr i) h = inr (active-In now id reason events e i h)

refresh_existing-WillReview :
    (now : ℕ) (job : ReviewJob) (id reason : Text) (s : Store) (o : Option EventRecord)
    → let s' : Store = record s {
      events = update (running_id id) (supersede now reason) s.events;
    } in
      find (has_id job.delivery_id) s'.events ≡ o
      → WillReview now job s.events (refresh_existing now job id o s').0
unfolding refresh_existing insert_event
refresh_existing-WillReview now job id reason s none h =
    let events = update (running_id id) (supersede now reason) s.events in
    let row = new_event now job refresh (some id) in
    rw (find-none-any (has_id job.delivery_id) events h) (
      inr (
        inl (
          row,
          In-append row events (row ∷ []) (inl refl),
          record { same_id = refl; same_repository = refl; same_number = refl; same_head = refl },
          refl,
          omega arith,
          refl,
        )))
refresh_existing-WillReview now job id reason s (some e) h =
    let events = update (running_id id) (supersede now reason) s.events in
    let (i, t) = find-In (has_id job.delivery_id) e events h in
    let same : e.delivery_id ≡ job.delivery_id = (text_eq_iff e.delivery_id job.delivery_id).0 t in
    elim (Bool-cases (is_queued e.state || is_running e.state)) [
      | inl a ↦
          rw a (inr (inr (e, i, active-In now id reason s.events e i a, same, state-IsActive e a)))
      | inr f ↦ rw f (
          inr (
            inl (
              refreshed now job id e,
              In-updated (refreshed now job id) job.delivery_id events e i same,
              record {
                same_id = same;
                same_repository = refl;
                same_number = refl;
                same_head = refl;
              },
              refl,
              omega arith,
              refl,
            )))
    ]

-- Superseding a running event succeeds, and afterwards the new head has its review; or an event
-- with the job's delivery id, Pull Request and head is queued, due at once and with no attempt made;
-- or an event that had the job's delivery id before, and waited or ran, is still there as it was.
pub supersede_and_enqueue-WillReview :
    (now : ℕ) (id reason : Text) (job : ReviewJob) (s : Store) (e : EventRecord)
    → UniqueIds s.events
    → In e s.events
    → e.delivery_id ≡ id
    → e.state ≡ running
    → (r : Store × Bool) × (supersede_and_enqueue now id reason job s ≡ some r)
      × WillReview now job s.events r.0
unfolding supersede_and_enqueue enqueue_refresh_event
supersede_and_enqueue-WillReview now id reason job s e u i h st =
    let c : count_if (running_id id) s.events ≡ 1 = running_id-count id s.events e u i h st in
    let s' : Store = record s { events = update (running_id id) (supersede now reason) s.events } in
    let reviewed = has_review job.repository job.pull_request_number job.webhook_head_sha s' in
    (
      enqueue_refresh_event now job id s',
      rw c refl,
      elim (Bool-cases reviewed) [
        | inl t ↦ rw t (inl t)
        | inr f ↦ rw f (
            refresh_existing-WillReview now job id reason s
              (find (has_id job.delivery_id) s'.events) refl)
      ],
    )
