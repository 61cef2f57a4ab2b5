-- ===== src/Robomp/Events/Claims.antt =====
-- src/robomp/db.py: `claim_next_event` serves the oldest event that is due and not blocked.
use oh_my_robot.Prelude.{
  ℕ, ◌≤◌, true, false, Option, none, some, List, [], ◌≡◌, ◌↔◌, ◌⊎◌, inl, inr, refl, arith, In,
  select, first_by-In, first_by-none, In-select, select-In, Option-cases,
}
use oh_my_robot.Robomp.Events.{
  EventRow, EventState, queued, claimable, next_event, claim_row, claim_next_event, received_before,
  same_state, blocked, due_at,
}

-- A row that may be claimed: it waits, its delay is over, and its issue has no running event.
pub record IsClaimable (now : ℕ) (rows : List EventRow) (e : EventRow) : Type 0 where
  pub waits : e.state ≡ queued
  pub due : (e.available_at ≡ none) ⊎ ((t : ℕ) × (e.available_at ≡ some t) × (t ≤ now))
  pub unblocked : blocked rows e.issue_key ≡ false

state-queued : (s : EventState) → same_state s queued ≡ true → s ≡ queued
state-queued s h = ground arith

due_at_iff :
    (now : ℕ) (o : Option ℕ)
    → (due_at now o ≡ true) ↔ ((o ≡ none) ⊎ ((t : ℕ) × (o ≡ some t) × (t ≤ now)))
due_at_iff now none = (λ h. inl refl, λ h. refl)
due_at_iff now (some t) = (
  λ h. inr (t, refl, ground arith),
  λ h. elim h [ inl e ↦ absurd (ground arith) | inr (u, e, l) ↦ ground arith ],
)

pub claimable_iff :
    (now : ℕ) (rows : List EventRow) (e : EventRow)
    → (claimable now rows e ≡ true) ↔ IsClaimable now rows e
unfolding claimable
claimable_iff now rows e = (
  λ h. record {
    waits = state-queued e.state (ground arith);
    due = (due_at_iff now e.available_at).0 (ground arith);
    unblocked = ground arith;
  },
  λ c.
      let w : same_state e.state queued ≡ true = rw c.waits refl in
      ground (arith, w, (due_at_iff now e.available_at).1 c.due, c.unblocked),
)

pub next_event-In :
    (now : ℕ) (rows : List EventRow) (c : EventRow)
    → next_event now rows ≡ some c
    → In c rows × IsClaimable now rows c
unfolding next_event
next_event-In now rows c h =
    let i = In-select (claimable now rows) c rows (first_by-In received_before _ c h) in
    (i.0, (claimable_iff now rows c).0 i.1)

next_event-none :
    (now : ℕ) (rows : List EventRow)
    → next_event now rows ≡ none
    → (e : EventRow) → In e rows
    → ¬ IsClaimable now rows e
unfolding next_event
next_event-none now rows h e i k =
    let n = first_by-none received_before (select (claimable now rows) rows) h in
    let j : In e [] =
      rw n at (select-In (claimable now rows) e rows i ((claimable_iff now rows e).1 k)) in
    elim j [ ]

claim_row-none :
    (now : ℕ) (rows : List EventRow) (o : Option EventRow)
    → (claim_row now o rows).1 ≡ none
    → o ≡ none
unfolding claim_row
claim_row-none now rows none h = refl
claim_row-none now rows (some c) h = absurd (ground arith)

claim_row-of_none : (now : ℕ) (rows : List EventRow) → (claim_row now none rows).1 ≡ none
unfolding claim_row
claim_row-of_none now rows = refl

-- `claim_next_event` returns none exactly when no row can be claimed.
pub claim_next_event-none_iff :
    (now : ℕ) (rows : List EventRow)
    → ((claim_next_event now rows).1 ≡ none)
      ↔ ((e : EventRow) → In e rows → ¬ IsClaimable now rows e)
unfolding claim_next_event
claim_next_event-none_iff now rows = (
  λ h. next_event-none now rows (claim_row-none now rows (next_event now rows) h),
  λ k. elim (Option-cases (next_event now rows)) [
    | inl n ↦ rw n (claim_row-of_none now rows)
    | inr (c, e) ↦ absurd (k c (next_event-In now rows c e).0 (next_event-In now rows c e).1)
  ],
)
