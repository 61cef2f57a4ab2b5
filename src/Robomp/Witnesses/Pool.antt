-- ===== src/Robomp/Witnesses/Pool.antt =====
-- The worker pool at a concrete table.
use oh_my_robot.Prelude.{codes, text_eq, none, some, [], ◌∷◌, ◌≡◌, refl, inl, arith, In}
use oh_my_robot.Robomp.Events.{EventRow, queued, running, failed, new_row}
use oh_my_robot.Robomp.Pool.Cancel.{cancelled_run, any_ends, cancel_event-lasts}
use oh_my_robot.Robomp.Pool.Exclusive.{
  Workers, claim_op, arm_op, end_op, pool_run, IsExclusive, pool_run-IsExclusive,
}
use oh_my_robot.Robomp.Pool.Outcome.{after_end, verdict, end_event-In}
use oh_my_robot.Robomp.Pool.{
  PoolSettings, Pool, returned, raised, by_operator, arm_cancel, cancel_event, end_event,
}

abbrev settings : PoolSettings
settings = record { event_max_retries = 2; event_retry_delays = 30 ∷ 300 ∷ [] }

abbrev queued_row : EventRow
queued_row =
    new_row 5
      (record {
        delivery_id = codes "d1";
        event_type = codes "issues";
        repo = some (codes "o/r");
        issue_key = some (codes "o/r#1");
        payload = codes "{}";
      })
      queued none

abbrev running_row : EventRow
running_row = record queued_row { state = running; attempts = 1; started_at = some 6 }

abbrev pool_of : EventRow → Pool
pool_of row = record {
  events = row ∷ [];
  slots = none;
  inflight = [];
  cancel_hooks = [];
  cancelled = [];
  shutdown_cancelled = [];
  fired = [];
}

abbrev idle : Workers
idle = record { pool = pool_of queued_row; active = [] }

pool_run-IsExclusive_example : IsExclusive (
    pool_run settings
      ((6, claim_op) ∷ (7, claim_op) ∷ (8, end_op (codes "d1") none 1000 returned) ∷ [])
      idle)
pool_run-IsExclusive_example =
    pool_run-IsExclusive settings
      ((6, claim_op) ∷ (7, claim_op) ∷ (8, end_op (codes "d1") none 1000 returned) ∷ []) idle
      (record { held = λ key h. refl; exclusive = λ key. omega arith })

end_event-In_example :
    In
      (after_end 9
        (codes "d1")
        (verdict settings 9 1000 running_row (raised (codes "boom")) (pool_of running_row))
        running_row)
      (end_event settings 9 1000 running_row none
        (raised (codes "boom"))
        (pool_of running_row)).events
unfolding text_eq
end_event-In_example =
    end_event-In running_row running_row (pool_of running_row) settings 9 1000 none
      (raised (codes "boom")) running_row (inl refl) refl refl (omega arith) (inl refl)

abbrev working : Workers
working = record { pool = pool_of running_row; active = running_row ∷ [] }

cancel_event-lasts_example :
    ((arm_cancel
        (codes "d1")
        (cancelled_run settings (codes "d1") ((8, arm_op (codes "d1")) ∷ []) working).pool).fired
      ≡ codes "d1"
        ∷ (cancelled_run settings (codes "d1") ((8, arm_op (codes "d1")) ∷ []) working).pool.fired)
    × In
        (record running_row { state = failed; last_error = some by_operator; finished_at = some 9 })
        (end_event settings 9 1000 running_row none returned
          (cancelled_run settings (codes "d1") ((8, arm_op (codes "d1")) ∷ []) working).pool).events
unfolding pool_run cancel_event any_ends text_eq
cancel_event-lasts_example =
    cancel_event-lasts settings 9 1000 none running_row running_row ((8, arm_op (codes "d1")) ∷ [])
      working refl (inl refl) refl refl (omega arith)
