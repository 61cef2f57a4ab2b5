-- ===== src/Reviewbot/Store/Queue/Serve.antt =====
-- src/reviewbot/storage.py: `claim_next` serves the due row that comes first, and only that row.
use oh_my_robot.Prelude.{ℕ, ◌+◌, ◌≤◌, Option, none, some, ◌≡◌, ◌≢◌, refl, In}
use oh_my_robot.Reviewbot.Models.{EventRecord, ReviewJob}
use oh_my_robot.Reviewbot.Store.{Store}
use oh_my_robot.Reviewbot.Store.Queue.{claim_next, claim_row, next_claim, job_of, started}
use oh_my_robot.Reviewbot.Store.Queue.Claim.{next_claim-none}
use oh_my_robot.Reviewbot.Store.Queue.Due.{IsDue, claimable_iff}

-- Claimed at the latest with `e`: by availability first, then by age.
abbrev pub NotAfter : EventRecord → EventRecord → Type 0
NotAfter c e =
    (c.available_at ≤ e.available_at)
    × (c.available_at ≡ e.available_at → c.created_at ≤ e.created_at)

-- The row served, and what becomes of the table.
pub record Served (now : ℕ) (s : Store) (job : ReviewJob) (attempts : ℕ) (c : EventRecord)
    : Type 0 where
  pub present : In c s.events
  pub was_due : IsDue now s.events c
  pub first : (e : EventRecord) → In e s.events → IsDue now s.events e → NotAfter c e
  pub same_job : job ≡ job_of c
  pub counted : attempts ≡ c.attempts + 1
  pub running_now : In (started now attempts c) (claim_next now s).0.events
  pub others_kept :
      (e : EventRecord)
      → In e s.events
      → e.delivery_id ≢ c.delivery_id
      → In e (claim_next now s).0.events

claim_row-none :
    (now : ℕ) (o : Option EventRecord) (s : Store)
    → (claim_row now o s).1 ≡ none
    → (o ≡ none) × ((claim_row now o s).0 ≡ s)
unfolding claim_row
claim_row-none now none s h = (refl, refl)
claim_row-none now (some c) s h = cc

-- A claim comes back empty only if no row is due, and then it changes nothing.
pub claim_next-none :
    (now : ℕ) (s : Store)
    → (claim_next now s).1 ≡ none
    → ((e : EventRecord) → In e s.events → ¬ IsDue now s.events e) × ((claim_next now s).0 ≡ s)
unfolding claim_next
claim_next-none now s h =
    let (o, same) = claim_row-none now (next_claim now s.events) s h in
    (λ e i d. cc (next_claim-none now s.events o e i, (claimable_iff now s.events e).1 d), same)
