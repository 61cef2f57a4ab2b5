-- ===== src/Robomp/ManualTriage/Await.antt =====
-- src/robomp/manual_triage.py: `await_terminal_state` with a timeout ends.
use oh_my_robot.Prelude.{
  ℕ, zero, suc, ◌+◌, ◌-◌, ◌≤◌, ◌<◌, min, true, false, Option, none, some, ◌≡◌, refl, ap, ◌∙◌, arith,
  inl, inr, leb, Bool-cases, Option-cases,
}
use oh_my_robot.Robomp.Events.{EventRow}
use oh_my_robot.Robomp.ManualTriage.{
  is_terminal_event, Awaited, deleted, ended_with, timed_out, Polls, after_poll, await_polls,
  await_terminal_state,
}

-- The outcome is that of what a poll read.
abbrev pub IsSeen : Polls → Awaited → Type 0
IsSeen p deleted = (i : ℕ) × (p.seen i ≡ none)
IsSeen p (ended_with e) = (i : ℕ) × (p.seen i ≡ some e) × (is_terminal_event e ≡ true)
IsSeen p (timed_out state) =
    (i : ℕ) × (e : EventRow) × (p.seen i ≡ some e)
    × (is_terminal_event e ≡ false)
    × (e.state ≡ state)

abbrev Ends : Polls → Option Awaited → Type 0
Ends p o = (out : Awaited) × (o ≡ some out) × IsSeen p out

module _ (p : Polls) (poll deadline : ℕ) (positive : 1 ≤ poll) where
  abbrev rest_of : ℕ → ℕ → ℕ → Option Awaited
  rest_of fuel now i =
      await_polls p poll (some deadline) fuel (now + min poll (deadline - now) + p.late i) (suc i)

  polled :
      (fuel now i : ℕ) (row : EventRow)
      → p.seen i ≡ some row
      → await_polls p poll (some deadline) (suc fuel) now i
        ≡ after_poll now (some deadline) (rest_of fuel now i) (some row)
  unfolding await_polls
  polled fuel now i row e = ap (after_poll now (some deadline) (rest_of fuel now i)) e

  await_polls-Ends :
      (fuel now i : ℕ)
      → deadline - now < fuel
      → Ends p (await_polls p poll (some deadline) fuel now i)
  unfolding await_polls
  await_polls-Ends zero now i h = absurd (omega (arith, h))
  await_polls-Ends (suc fuel) now i h = elim (Option-cases (p.seen i)) [
    | inl e ↦ (deleted, ap (after_poll now (some deadline) (rest_of fuel now i)) e, (i, e))
    | inr (row, e) ↦ elim (Bool-cases (is_terminal_event row)) [
      | inl t ↦ (ended_with row, polled fuel now i row e ∙ rw t refl, (i, e, t))
      | inr f ↦ elim (Bool-cases (leb deadline now)) [
        | inl t ↦
            (timed_out row.state, polled fuel now i row e ∙ rw f (rw t refl), (i, row, e, f, refl))
        | inr g ↦
            let later = now + min poll (deadline - now) + p.late i in
            let rest = await_polls-Ends fuel later (suc i) (ground (arith, h, g, positive)) in
            (rest.0, polled fuel now i row e ∙ rw f (rw g rest.1), rest.2)
      ]
    ]
  ]

-- With a timeout and a positive poll interval, and whatever the polls read and however late the sleeps
-- end, `await_terminal_state` ends within one poll more than the timeout has milliseconds: with the
-- row, deleted, in a terminal state, or not yet in one, as one of the polls read it.
pub await_terminal_state-Ends :
    (p : Polls) (poll timeout now fuel : ℕ)
    → 1 ≤ poll
    → timeout < fuel
    → Ends p (await_terminal_state p poll (some timeout) fuel now)
unfolding await_terminal_state
await_terminal_state-Ends p poll timeout now fuel positive h =
    await_polls-Ends p poll (now + timeout) positive fuel now 0 (omega (arith, h))
