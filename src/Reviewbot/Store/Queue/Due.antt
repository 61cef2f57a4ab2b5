-- ===== src/Reviewbot/Store/Queue/Due.antt =====
-- The rows that `claim_next` may serve, described without the code's test, and what it does.
use oh_my_robot.Prelude.{
  ℕ, ◌≤◌, Text, text_eq_iff, true, false, ◌&&◌, List, [], ◌∷◌, ◌≡◌, refl, arith, ==_iff, any, In,
  count_if, inl, inr, ◌↔◌,
}
use oh_my_robot.Reviewbot.Models.{EventRecord, EventState, queued, running, is_queued, is_running}
use oh_my_robot.Reviewbot.Store.Queue.{has_id, claimable, same_pr}

-- Two events of one Pull Request.
abbrev pub SamePr : EventRecord → EventRecord → Type 0
SamePr a b = (a.repository ≡ b.repository) × (a.pull_request_number ≡ b.pull_request_number)

-- Queued, due, and no event of the same Pull Request is running.
pub record IsDue (now : ℕ) (events : List EventRecord) (e : EventRecord) : Type 0 where
  pub waiting : e.state ≡ queued
  pub due : e.available_at ≤ now
  pub idle : (r : EventRecord) → In r events → r.state ≡ running → ¬ SamePr r e

-- No two rows share a delivery id.
abbrev pub UniqueIds : List EventRecord → Type 0
UniqueIds events = (id : Text) → count_if (has_id id) events ≤ 1

pub is_running-true : (st : EventState) → is_running st ≡ true → st ≡ running
is_running-true running h = refl
is_running-true _ h = ground arith

pub is_queued-true : (st : EventState) → is_queued st ≡ true → st ≡ queued
is_queued-true queued h = refl
is_queued-true _ h = ground arith

any_running_sound :
    (e : EventRecord) (events : List EventRecord)
    → any (λ r. is_running r.state && same_pr r e) events ≡ false
    → (r : EventRecord) → In r events
    → r.state ≡ running
    → ¬ SamePr r e
any_running_sound e [] h r i st = elim i [ ]
any_running_sound e (x ∷ events) h r (inl p) st = λ same. ground (
  arith,
  text_eq_iff x.repository e.repository,
  ==_iff x.pull_request_number e.pull_request_number,
)
any_running_sound e (x ∷ events) h r (inr i) st = any_running_sound e events (ground arith) r i st

any_running_complete :
    (e : EventRecord) (events : List EventRecord)
    → ((r : EventRecord) → In r events → r.state ≡ running → ¬ SamePr r e)
    → any (λ r. is_running r.state && same_pr r e) events ≡ false
any_running_complete e [] h = refl
any_running_complete e (x ∷ events) h = ground (
  arith,
  h x (inl refl),
  is_running-true x.state,
  text_eq_iff x.repository e.repository,
  ==_iff x.pull_request_number e.pull_request_number,
  any_running_complete e events (λ r i. h r (inr i)),
)

pub claimable_iff :
    (now : ℕ) (events : List EventRecord) (e : EventRecord)
    → (claimable now events e ≡ true) ↔ IsDue now events e
unfolding claimable
claimable_iff now events e = (
  λ h. record {
    waiting = ground (arith, is_queued-true e.state);
    due = ground arith;
    idle = any_running_sound e events (ground arith);
  },
  λ d. ground (arith, any_running_complete e events d.idle, d.waiting, d.due),
)
