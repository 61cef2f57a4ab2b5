-- ===== src/Robomp/Witnesses.antt =====
-- The theorems on the triage bot, each at a concrete input.
mod Closures
mod Limits
mod Pragmas
mod Routing
mod Pool
use oh_my_robot.Prelude.{
  ℕ, Text, codes, false, none, some, List, [], ◌∷◌, ◌≡◌, ◌↔◌, refl, arith, In, any,
}
use oh_my_robot.Robomp.Events.{EventRow, queued, done, Delivery, new_row, claim_next_event}
use oh_my_robot.Robomp.Events.Claims.{IsClaimable, claim_next_event-none_iff}
use oh_my_robot.Robomp.Events.Exclusive.{
  IsSound, Op, record_op, claim_op, mark_op, AllCalm, run, run-IsSound,
}
use oh_my_robot.Robomp.Slots.{
  SlotPool, new_pool, SlotOp, get_slot, put_slot, slot_run, is_slot, IsPool, slot_run_new-IsPool,
  slot_run-exclusive,
}

abbrev delivery : Text → Delivery
delivery id = record {
  delivery_id = id;
  event_type = codes "issues";
  repo = some (codes "o/r");
  issue_key = some (codes "o/r#1");
  payload = codes "{}";
}

abbrev first_row : EventRow
first_row = new_row 5 (delivery (codes "d1")) queued none

abbrev two_rows : List EventRow
two_rows = first_row ∷ new_row 6 (delivery (codes "d2")) queued none ∷ []

abbrev calls : List (ℕ × Op)
calls =
    (5, record_op (delivery (codes "d1")) queued none)
    ∷ (6, record_op (delivery (codes "d2")) queued none)
    ∷ (7, claim_op)
    ∷ (8, claim_op)
    ∷ (9, mark_op (codes "d1") done none)
    ∷ []

no_events : IsSound []
no_events = record { unique = λ id. omega arith; exclusive = λ key. omega arith }

run-IsSound_example : IsSound (run calls [])
unfolding AllCalm
run-IsSound_example = run-IsSound calls [] (refl, (refl, (refl, (refl, (refl, tt))))) no_events

claim_next_event-none_iff_example :
    ((claim_next_event 9 two_rows).1 ≡ none)
    ↔ ((e : EventRow) → In e two_rows → ¬ IsClaimable 9 two_rows e)
claim_next_event-none_iff_example = claim_next_event-none_iff 9 two_rows

abbrev pool : SlotPool
pool = record { slot_uids = 1001 ∷ 1002 ∷ []; available = 1001 ∷ 1002 ∷ []; checked_out = [] }

abbrev slot_calls : List SlotOp
slot_calls = get_slot ∷ get_slot ∷ put_slot (some 1001) ∷ []

slot_run_new-IsPool_example : IsPool (slot_run slot_calls pool)
unfolding new_pool
slot_run_new-IsPool_example = slot_run_new-IsPool (1001 ∷ 1002 ∷ []) pool slot_calls refl

slot_run-exclusive_example : any (is_slot 1001) (slot_run slot_calls pool).checked_out ≡ false
unfolding new_pool slot_run
slot_run-exclusive_example = slot_run-exclusive (1001 ∷ 1002 ∷ []) pool slot_calls 1001 refl refl
