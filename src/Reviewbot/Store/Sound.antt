-- ===== src/Reviewbot/Store/Sound.antt =====
-- The invariant of the event table: delivery ids are unique, and no Pull Request has two running
-- events. Each method of `QueueStore` keeps it.
use oh_my_robot.Prelude.{
  ℕ, ◌+◌, ◌≤◌, Text, text_eq, text_eq_iff, text_eq_refl, Bool, true, false, ◌&&◌, ◌||◌, Option,
  none, some, List, [], ◌∷◌, ◌++◌, ◌≡◌, refl, arith, ◌==◌, ==_iff, if◌then◌else◌, any, In, update,
  count_if, Bool-cases, inl, inr, count_if-append, any-count_if, count_if-update-eq,
  count_if-update-le, update_none, count_if-le_of, count_if-pos_of_In, find,
}
use oh_my_robot.Reviewbot.Models.{
  EventRecord, EventSource, ReviewJob, EventState, running, is_queued, is_running,
}
use oh_my_robot.Reviewbot.Store.{Store}
use oh_my_robot.Reviewbot.Store.Queue.{
  has_id, insert_event, refresh_existing, refreshed, enqueue_refresh_event, running_id, supersede,
  supersede_and_enqueue, claim_row, claim_next, next_claim, started, queued_id, new_event,
  has_review,
}
use oh_my_robot.Reviewbot.Store.Runs.{rolled_back}
use oh_my_robot.Reviewbot.Store.Queue.Claim.{next_claim-In}
use oh_my_robot.Reviewbot.Store.Queue.Due.{UniqueIds, IsDue, SamePr, claimable_iff}

-- A running event of the Pull Request.
abbrev pub running_on : Text → ℕ → EventRecord → Bool
running_on repository number e =
    is_running e.state && text_eq e.repository repository && e.pull_request_number == number

abbrev pub Exclusive : List EventRecord → Type 0
Exclusive events =
    (repository : Text) (number : ℕ) → count_if (running_on repository number) events ≤ 1

pub record IsSound (events : List EventRecord) : Type 0 where
  pub unique : UniqueIds events
  pub exclusive : Exclusive events

-- An update that keeps ids, and after which a row runs only if it ran before on the same Pull
-- Request, keeps the invariant.
pub update-IsSound :
    (p : EventRecord → Bool) (f : EventRecord → EventRecord) (events : List EventRecord)
    → ((e : EventRecord) → (f e).delivery_id ≡ e.delivery_id)
    → ((e : EventRecord) → is_running (f e).state ≡ false)
    → IsSound events
    → IsSound (update p f events)
update-IsSound p f events same idle v = record {
  unique = λ id.
      omega (arith, v.unique id, count_if-update-eq (has_id id) p f (λ x. rw (same x) refl) events);
  exclusive = λ r n. omega (
    arith,
    v.exclusive r n,
    count_if-update-le (running_on r n) p f
        (λ x h. absurd (let i : is_running (f x).state ≡ false = idle x in ground arith)) events,
  );
}

append-IsSound :
    (e : EventRecord) (events : List EventRecord)
    → any (has_id e.delivery_id) events ≡ false
    → is_running e.state ≡ false
    → IsSound events
    → IsSound (events ++ e ∷ [])
append-IsSound e events fresh idle v = record {
  unique = λ id. elim (Bool-cases (has_id id e)) [
    | inl t ↦
        let q : e.delivery_id ≡ id = (text_eq_iff e.delivery_id id).0 t in
        let z : count_if (has_id e.delivery_id) events ≡ 0 =
          any-count_if (has_id e.delivery_id) events fresh in
        let z' : count_if (has_id id) events ≡ 0 = rw q at z in
        ground (arith, count_if-append (has_id id) events (e ∷ []))
    | inr t ↦ ground (arith, count_if-append (has_id id) events (e ∷ []), v.unique id)
  ];
  exclusive =
      λ r n. ground (arith, count_if-append (running_on r n) events (e ∷ []), v.exclusive r n);
}

pub insert_event-IsSound :
    (now : ℕ) (job : ReviewJob) (source : EventSource) (from : Option Text) (s : Store)
    → IsSound s.events
    → IsSound (insert_event now job source from s).0.events
unfolding insert_event
insert_event-IsSound now job source from s v =
    elim (Bool-cases (any (has_id job.delivery_id) s.events)) [
      | inl t ↦ rw t v
      | inr f ↦ rw f (append-IsSound (new_event now job source from) s.events f refl v)
    ]

pub refresh_existing-IsSound :
    (now : ℕ) (job : ReviewJob) (from : Text) (o : Option EventRecord) (s : Store)
    → IsSound s.events
    → IsSound (refresh_existing now job from o s).0.events
unfolding refresh_existing
refresh_existing-IsSound now job from none s v = insert_event-IsSound now job _ _ s v
refresh_existing-IsSound now job from (some e) s v =
    elim (Bool-cases (is_queued e.state || is_running e.state)) [
      | inl t ↦ rw t v
      | inr f ↦ rw f (
          update-IsSound (has_id job.delivery_id) (refreshed now job from) s.events (λ x. refl)
            (λ x. refl) v)
    ]

pub enqueue_refresh_event-IsSound :
    (now : ℕ) (job : ReviewJob) (from : Text) (s : Store)
    → IsSound s.events
    → IsSound (enqueue_refresh_event now job from s).0.events
unfolding enqueue_refresh_event
enqueue_refresh_event-IsSound now job from s v =
    elim (Bool-cases (has_review job.repository job.pull_request_number job.webhook_head_sha s)) [
      | inl t ↦ rw t v
      | inr f ↦
          rw f (refresh_existing-IsSound now job from (find (has_id job.delivery_id) s.events) s v)
    ]

pub supersede_and_enqueue-IsSound :
    (now : ℕ) (id reason : Text) (job : ReviewJob) (s : Store)
    → IsSound s.events
    → IsSound (rolled_back s (supersede_and_enqueue now id reason job s)).events
unfolding supersede_and_enqueue
supersede_and_enqueue-IsSound now id reason job s v =
    elim (Bool-cases (count_if (running_id id) s.events == 1)) [
      | inl t ↦ rw t (
          enqueue_refresh_event-IsSound now job id
            (record s { events = update (running_id id) (supersede now reason) s.events })
            (update-IsSound (running_id id) (supersede now reason) s.events (λ x. refl) (λ x. refl)
              v))
      | inr f ↦ rw f v
    ]

running_state : (st : EventState) → is_running st ≡ true → st ≡ running
running_state running h = refl
running_state _ h = ground arith

-- The one row with the id of `c` is `c`, so starting it adds one running event to its Pull
-- Request and none to another.
started-running_on :
    (now n : ℕ) (c : EventRecord) (repository : Text) (number : ℕ) (events : List EventRecord)
    → In c events
    → count_if (has_id c.delivery_id) events ≤ 1
    → count_if
        (running_on repository number)
        (update (queued_id c.delivery_id) (started now n) events)
      ≤ count_if (running_on repository number) events
        + (if text_eq c.repository repository && c.pull_request_number == number then 1 else 0)
started-running_on now n c repository number [] i u = elim i [ ]
started-running_on now n c repository number (x ∷ events) (inl q) u =
    let t : has_id c.delivery_id x ≡ true = rw (← q) (text_eq_refl c.delivery_id) in
    let z : count_if (has_id c.delivery_id) events ≡ 0 = ground arith in
    let w : count_if (queued_id c.delivery_id) events ≡ 0 = omega (
      arith,
      count_if-le_of (queued_id c.delivery_id) (has_id c.delivery_id) (λ e h. ground arith) events,
    ) in
    rw (update_none (queued_id c.delivery_id) (started now n) events w) (rw q (ground arith))
started-running_on now n c repository number (x ∷ events) (inr i) u =
    let z : has_id c.delivery_id x ≡ false =
      ground (
        arith,
        count_if-pos_of_In (has_id c.delivery_id) c events i (text_eq_refl c.delivery_id),
      ) in
    ground (arith, started-running_on now n c repository number events i)

-- No running event of the Pull Request of a due row.
due-running_on :
    (c : EventRecord) (events : List EventRecord)
    → ((r : EventRecord) → In r events → r.state ≡ running → ¬ SamePr r c)
    → count_if (running_on c.repository c.pull_request_number) events ≡ 0
due-running_on c [] h = refl
due-running_on c (x ∷ events) h = ground (
  arith,
  h x (inl refl),
  running_state x.state,
  text_eq_iff x.repository c.repository,
  ==_iff x.pull_request_number c.pull_request_number,
  due-running_on c events (λ r i. h r (inr i)),
)

claim-IsSound :
    (now : ℕ) (c : EventRecord) (events : List EventRecord)
    → In c events
    → IsDue now events c
    → IsSound events
    → IsSound (update (queued_id c.delivery_id) (started now (c.attempts + 1)) events)
claim-IsSound now c events i d v = record {
  unique = λ id. omega (
    arith,
    v.unique id,
    count_if-update-eq (has_id id) (queued_id c.delivery_id) (started now (c.attempts + 1))
        (λ x. refl) events,
  );
  exclusive = λ r n. ground (
    arith,
    v.exclusive r n,
    started-running_on now (c.attempts + 1) c r n events i (v.unique c.delivery_id),
    due-running_on c events d.idle,
    text_eq_iff c.repository r,
    ==_iff c.pull_request_number n,
  );
}

claim_row-IsSound :
    (now : ℕ) (o : Option EventRecord) (s : Store)
    → next_claim now s.events ≡ o
    → IsSound s.events
    → IsSound (claim_row now o s).0.events
unfolding claim_row
claim_row-IsSound now none s h v = v
claim_row-IsSound now (some c) s h v =
    let (i, k) = next_claim-In now s.events c h in
    claim-IsSound now c s.events i ((claimable_iff now s.events c).0 k) v

pub claim_next-IsSound :
    (now : ℕ) (s : Store) → IsSound s.events → IsSound (claim_next now s).0.events
unfolding claim_next
claim_next-IsSound now s v = claim_row-IsSound now (next_claim now s.events) s refl v
