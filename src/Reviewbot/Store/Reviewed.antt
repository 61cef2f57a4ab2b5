-- ===== src/Reviewbot/Store/Reviewed.antt =====
-- src/reviewbot/storage.py: reviews by Pull Request and head, as a finite map.
use oh_my_robot.Prelude.{
  ℕ, Text, text_eq, text_eq_iff, text_eq_refl, lower, Bool, true, false, not, ◌&&◌, ◌||◌, Option,
  none, some, List, [], ◌∷◌, ◌≡◌, refl, arith, ◌==◌, ==_iff, any, any-append, In, update, select,
  inl, inr, ◌⊎◌, Bool-cases, ap, sym, subst, ◌∙◌,
}
use oh_my_robot.Reviewbot.Models.{EventRecord, ReviewRecord, succeeded, ReviewFinding}
use oh_my_robot.Reviewbot.Store.{Store, ReviewMetrics}
use oh_my_robot.Reviewbot.Store.Queue.{has_id, has_review, reviewed_at}
use oh_my_robot.Reviewbot.Store.Outcomes.{with_state}
use oh_my_robot.Reviewbot.Store.Reviews.{
  record_review, record_review_metrics, complete_review, sync_if,
}
use oh_my_robot.Reviewbot.Store.Findings.{sync_findings}

module _ (repo : Text) (number : ℕ) (sha : Text) (repo' : Text) (number' : ℕ) (sha' : Text) where
  same_review : Bool
  same_review = text_eq (lower repo) (lower repo') && number == number' && text_eq sha sha'

  any-select_ne :
      (reviews : List ReviewRecord)
      → same_review ≡ false
      → any
          (reviewed_at (lower repo') number' sha')
          (select (λ r. not (reviewed_at (lower repo) number sha r)) reviews)
        ≡ any (reviewed_at (lower repo') number' sha') reviews
  unfolding same_review reviewed_at
  any-select_ne [] h = refl
  any-select_ne (r ∷ reviews) h = ground (
    arith,
    any-select_ne reviews h,
    text_eq_iff r.repository (lower repo),
    text_eq_iff r.repository (lower repo'),
    text_eq_iff (lower repo) (lower repo'),
    ==_iff r.pull_request_number number,
    ==_iff r.pull_request_number number',
    ==_iff number number',
    text_eq_iff r.head_sha sha,
    text_eq_iff r.head_sha sha',
    text_eq_iff sha sha',
  )

  -- Recording a review makes that head reviewed, in any spelling of the repository, and no other.
  has_review-record_review :
      (now : ℕ) (comment : Option ℕ) (s : Store)
      → has_review repo' number' sha' (record_review now repo number sha comment s) ≡ (
          (text_eq (lower repo) (lower repo') && number == number' && text_eq sha sha')
          || has_review repo' number' sha' s)
  unfolding has_review record_review same_review
  has_review-record_review now comment s = elim (Bool-cases same_review) [
    | inl t ↦ ground (
      arith,
      any-append (reviewed_at (lower repo') number' sha')
          (select (λ r. not (reviewed_at (lower repo) number sha r)) s.reviews)
          (record {
            repository = lower repo;
            pull_request_number = number;
            head_sha = sha;
            comment_id = comment;
            created_at = now;
          }
            ∷ []),
    )
    | inr f ↦ ground (
      arith,
      any-select_ne s.reviews f,
      any-append (reviewed_at (lower repo') number' sha')
          (select (λ r. not (reviewed_at (lower repo) number sha r)) s.reviews)
          (record {
            repository = lower repo;
            pull_request_number = number;
            head_sha = sha;
            comment_id = comment;
            created_at = now;
          }
            ∷ []),
    )
  ]

pub has_review_cong :
    (repo : Text) (number : ℕ) (sha : Text) (s t : Store)
    → s.reviews ≡ t.reviews
    → has_review repo number sha s ≡ has_review repo number sha t
unfolding has_review
has_review_cong repo number sha s t e = ap (any (reviewed_at (lower repo) number sha)) e

pub In-updated :
    (f : EventRecord → EventRecord) (id : Text) (events : List EventRecord) (e : EventRecord)
    → In e events
    → e.delivery_id ≡ id
    → In (f e) (update (has_id id) f events)
In-updated f id [] e i h = i
In-updated f id (x ∷ events) e (inl q) h =
    let t : has_id id x ≡ true = rw (← q, h) (text_eq_refl id) in inl (rw (t, q) refl)
In-updated f id (x ∷ events) e (inr i) h = inr (In-updated f id events e i h)

In-other :
    (f : EventRecord → EventRecord) (id : Text) (events : List EventRecord) (e : EventRecord)
    → In e events
    → ¬ (e.delivery_id ≡ id)
    → In e (update (has_id id) f events)
In-other f id [] e i h = i
In-other f id (x ∷ events) e (inl q) h = elim (Bool-cases (has_id id x)) [
  | inl t ↦ absurd (h (ap (λ r. r.delivery_id) q ∙ (text_eq_iff x.delivery_id id).0 t))
  | inr n ↦ rw n (inl q)
]
In-other f id (x ∷ events) e (inr i) h = inr (In-other f id events e i h)

-- An event of the id has ended well: the state, the errors and the times are set, the rest is as it
-- was.
pub record IsSucceeded (now : ℕ) (e r : EventRecord) : Type 0 where
  pub ended : r.state ≡ succeeded
  pub no_error : (r.last_error ≡ none) × (r.error_type ≡ none)
  pub at : (r.finished_at ≡ some now) × (r.updated_at ≡ now)
  pub same_event :
      (r.delivery_id ≡ e.delivery_id)
      × (r.repository ≡ e.repository)
      × (r.pull_request_number ≡ e.pull_request_number)
      × (r.webhook_head_sha ≡ e.webhook_head_sha)
      × (r.attempts ≡ e.attempts)

succeeded_row : (now : ℕ) (e : EventRecord) → IsSucceeded now e (with_state now succeeded none e)
succeeded_row now e = ground arith

succeeded_or_same :
    (now : ℕ) (id : Text) (e r : EventRecord)
    → ((e.delivery_id ≡ id) × (r ≡ with_state now succeeded none e))
      ⊎ ((¬ (e.delivery_id ≡ id)) × (r ≡ e))
    → ((e.delivery_id ≡ id) × IsSucceeded now e r) ⊎ ((¬ (e.delivery_id ≡ id)) × (r ≡ e))
succeeded_or_same now id e r (inl (h, q)) =
    inl (h, subst (IsSucceeded now e) (sym q) (succeeded_row now e))
succeeded_or_same now id e r (inr c) = inr c

-- Every row after an update of an id is a row before it, changed if it has the id.
updated-In :
    (f : EventRecord → EventRecord) (id : Text) (events : List EventRecord) (r : EventRecord)
    → In r (update (has_id id) f events)
    → (e : EventRecord) × In e events
      × (((e.delivery_id ≡ id) × (r ≡ f e)) ⊎ ((¬ (e.delivery_id ≡ id)) × (r ≡ e)))
updated-In f id [] r i = elim i [ ]
updated-In f id (x ∷ events) r (inl q) = elim (Bool-cases (has_id id x)) [
  | inl t ↦ (x, inl refl, inl ((text_eq_iff x.delivery_id id).0 t, ground (arith, q, t)))
  | inr n ↦ (
    x,
    inl refl,
    inr (λ e. ground (arith, n, (text_eq_iff x.delivery_id id).1 e), ground (arith, q, n)),
  )
]
updated-In f id (x ∷ events) r (inr i) = let (e, j, c) = updated-In f id events r i in (e, inr j, c)

module _ (digest : Text × Text × Text × Text → Text) where
  sync_if-keeps :
      (now : ℕ) (repo : Text) (number : ℕ) (sha : Text) (findings : Option (List ReviewFinding))
      (paths : Option (List Text)) (s : Store)
      → ((sync_if digest now repo number sha findings paths s).events ≡ s.events)
        × ((sync_if digest now repo number sha findings paths s).reviews ≡ s.reviews)
  unfolding sync_if sync_findings
  sync_if-keeps now repo number sha none paths s = (refl, refl)
  sync_if-keeps now repo number sha (some f) paths s = (refl, refl)

  -- Completing a review ends the events of its delivery id as succeeded and keeps the events of
  -- every other delivery as they were, with no event beside these; and it makes its head reviewed,
  -- in any spelling of the repository, and no other head.
  pub complete_review_lem :
      (now : ℕ) (repo : Text) (number : ℕ) (sha : Text) (comment : Option ℕ) (m : ReviewMetrics)
      (findings : Option (List ReviewFinding)) (paths : Option (List Text)) (s : Store)
      → let s' = complete_review digest now repo number sha comment m findings paths s in
        ((e : EventRecord)
          → In e s.events
          → e.delivery_id ≡ m.delivery_id
          → (r : EventRecord) × In r s'.events × IsSucceeded now e r)
        × ((e : EventRecord) → In e s.events → ¬ (e.delivery_id ≡ m.delivery_id) → In e s'.events)
        × ((r : EventRecord)
            → In r s'.events
            → (e : EventRecord) × In e s.events
              × (((e.delivery_id ≡ m.delivery_id) × IsSucceeded now e r)
                  ⊎ ((¬ (e.delivery_id ≡ m.delivery_id)) × (r ≡ e))))
        × ((repo' : Text) (number' : ℕ) (sha' : Text)
            → has_review repo' number' sha' s' ≡ (
                (text_eq (lower repo) (lower repo') && number == number' && text_eq sha sha')
                || has_review repo' number' sha' s))
  unfolding complete_review record_review_metrics
  complete_review_lem now repo number sha comment m findings paths s =
      let synced = sync_if digest now repo number sha findings paths s in
      let kept = sync_if-keeps now repo number sha findings paths s in
      let f = with_state now succeeded none in
      (
        λ e i h. (f e, rw kept.0 (In-updated f m.delivery_id s.events e i h), succeeded_row now e),
        λ e i h. rw kept.0 (In-other f m.delivery_id s.events e i h),
        λ r i.
            (let i' : In r (update (has_id m.delivery_id) f s.events) = rw kept.0 at i in
              let (e, j, c) = updated-In f m.delivery_id s.events r i' in
              (e, j, succeeded_or_same now m.delivery_id e r c)),
        λ repo' number' sha'.
            has_review_cong repo' number' sha'
              (complete_review digest now repo number sha comment m findings paths s)
              (record_review now repo number sha comment synced) refl
            ∙ (has_review-record_review repo number sha repo' number' sha' now comment synced
                ∙ ap
                    (λ b.
                      text_eq (lower repo) (lower repo') && number == number' && text_eq sha sha'
                      || b)
                    (has_review_cong repo' number' sha' synced s kept.1)),
      )
