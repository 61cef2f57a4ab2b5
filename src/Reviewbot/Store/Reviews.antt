-- ===== src/Reviewbot/Store/Reviews.antt =====
-- src/reviewbot/storage.py: the reviews and their metrics.
use oh_my_robot.Prelude.{
  ℕ, Text, codes, text_eq, lower, Bool, false, not, ◌||◌, take, map, Option, none, some, List, [],
  ◌∷◌, ◌++◌, select, update,
}
use oh_my_robot.Reviewbot.Models.{ReviewFinding, succeeded, ToolAudit}
use oh_my_robot.Reviewbot.Store.{Store, ReviewMetrics, AttemptMetrics, OmpToolUse}
use oh_my_robot.Reviewbot.Store.Queue.{has_id, reviewed_at}
use oh_my_robot.Reviewbot.Store.Outcomes.{with_state}
use oh_my_robot.Reviewbot.Store.Findings.{sync_findings}

-- INSERT OR REPLACE INTO reviews: the row with the same key goes, and the new one is the last.
unfoldable pub record_review : ℕ → Text → ℕ → Text → Option ℕ → Store → Store
unfolding reviewed_at
record_review now repository number head_sha comment_id s = record s {
  reviews =
      select (λ r. not (reviewed_at (lower repository) number head_sha r)) s.reviews
      ++ record {
        repository = lower repository;
        pull_request_number = number;
        head_sha = head_sha;
        comment_id = comment_id;
        created_at = now;
      }
        ∷ [];
}

unfoldable pub record_review_metrics : ReviewMetrics → Store → Store
record_review_metrics m s = record s {
  review_metrics =
      select (λ r. not (text_eq r.delivery_id m.delivery_id)) s.review_metrics ++ m ∷ [];
}

unfoldable pub record_review_attempt_metrics : AttemptMetrics → Store → Store
record_review_attempt_metrics m s = record s { attempt_metrics = s.attempt_metrics ++ m ∷ [] }

-- `item.get(key, default)`.
abbrev text_or : Text → Option Text → Text
text_or t none = t
text_or t (some s) = s

abbrev flag_or : Option Bool → Bool
flag_or none = false
flag_or (some b) = b

abbrev is_start_or_end : ToolAudit → Bool
is_start_or_end item =
    let event = text_or (codes "unknown") item.event in
    text_eq event (codes "start") || text_eq event (codes "end")

abbrev tool_use : Text → Text → ToolAudit → OmpToolUse
tool_use delivery_id session_id item = record {
  delivery_id = delivery_id;
  session_id = session_id;
  event = text_or (codes "unknown") item.event;
  tool_name = take 200 (text_or (codes "unknown") item.tool);
  is_error = flag_or item.is_error;
}

unfoldable pub record_omp_execution : Text → Text → ℕ → Text → Text → List ToolAudit → Store → Store
record_omp_execution delivery_id repository number head_sha session_id tool_audit s =
    let bounded_session_id = take 200 session_id in
    record s {
      omp_sessions =
          select (λ r. not (text_eq r.delivery_id delivery_id)) s.omp_sessions
          ++ record {
            delivery_id = delivery_id;
            repository = lower repository;
            pull_request_number = number;
            head_sha = head_sha;
            session_id = bounded_session_id;
          }
            ∷ [];
      omp_tool_audit =
          s.omp_tool_audit
          ++ map (tool_use delivery_id bounded_session_id) (select is_start_or_end tool_audit);
    }

module _ (digest : Text × Text × Text × Text → Text) where
  unfoldable pub sync_if :
      ℕ → Text → ℕ → Text → Option (List ReviewFinding) → Option (List Text) → Store → Store
  sync_if now repository number head_sha none reviewed_paths s = s
  sync_if now repository number head_sha (some findings) reviewed_paths s =
      sync_findings digest now repository number head_sha findings reviewed_paths s

  -- The arguments that count the work stand in the record of the metrics, whose delivery id is
  -- the event's.
  unfoldable pub complete_review :
      ℕ
      → Text
      → ℕ
      → Text
      → Option ℕ
      → ReviewMetrics
      → Option (List ReviewFinding)
      → Option (List Text)
      → Store
      → Store
  unfolding sync_if record_review record_review_metrics
  complete_review now repository number head_sha comment_id m findings reviewed_paths s =
      let s₁ = sync_if now repository number head_sha findings reviewed_paths s in
      let s₂ = record_review now repository number head_sha comment_id s₁ in
      let s₃ = record_review_metrics m s₂ in
      record s₃ { events = update (has_id m.delivery_id) (with_state now succeeded none) s₃.events }
