-- ===== src/Reviewbot/Worker.antt =====
-- src/reviewbot/worker.py: `WorkerPool._run_claimed`, one claimed event from its start to its end.
-- `redact` is the replacement of secrets in a text.
pub mod Settled
use oh_my_robot.Prelude.{
  ℕ, ◌*◌, ◌^◌, min, Text, codes, Bool, true, false, Option, none, some, List, [], ◌∷◌, ◌&&◌, ◌||◌,
  ◌==◌, leb, if◌then◌else◌, map, take, strip,
}
use oh_my_robot.Prelude.Int.{ℤ, pos}
use oh_my_robot.Reviewbot.Models.{ReviewJob}
use oh_my_robot.Reviewbot.Store.Outcomes.{mark_failed, requeue_if_running}
use oh_my_robot.Reviewbot.Service.{
  ErrorKind, omp_review_error, review_format_error, github_api_error, deepseek_api_error,
  other_error, Error, Outcome, returned, raised, cancelled, Client, Engine, Service, World,
  is_retryable,
}
use oh_my_robot.Reviewbot.Service.Process.{process}

unfoldable pub error_type_of : Error → Text
error_type_of e = elim e.kind [
  | omp_review_error _ ↦ e.class_name
  | review_format_error ↦ codes "model"
  | github_api_error _ _ ↦ codes "github"
  | deepseek_api_error _ ↦ codes "model"
  | other_error ↦ e.class_name
]

abbrev or_else : Text → Text → Text
or_else [] t = t
or_else (c ∷ s) t = c ∷ s

-- `_safe_error`: one line, without secrets, of at most 500 characters.
unfoldable pub safe_error : (Text → Text) → Error → Text
safe_error redact e =
    or_else (take 500 (redact (strip (map (λ c. if c == 13 || c == 10 then 32 else c) e.message))))
      e.class_name

-- In milliseconds; at most 30 seconds where the server does not say.
unfoldable pub backoff : ℕ → Option ℤ → ℤ
backoff attempts (some server_retry_after) = server_retry_after
backoff attempts none = pos (min (1000 * 2 ^ attempts) 30000)

module _ (service : Service) (client : Client) (engine : Engine) (redact : Text → Text)
    (max_retries : ℕ) (now later : ℕ) (job : ReviewJob) (attempts : ℕ) where
  unfoldable pub will_retry : Error → Bool
  unfolding is_retryable
  will_retry e = leb attempts max_retries && is_retryable e.kind

  -- How the task ends; `later` is the time of its own call of the store.
  unfoldable pub settle : World × Outcome Unit → World × Outcome Unit
  unfolding will_retry safe_error error_type_of backoff
  settle (w, returned _) = (w, returned tt)
  settle (w, cancelled) = (
    record w {
      store =
          (requeue_if_running later job.delivery_id (codes "worker cancelled") (codes "worker")
            w.store).0;
    },
    cancelled,
  )
  settle (w, raised e) = (
    record w {
      store =
          mark_failed later job.delivery_id (safe_error redact e) (will_retry e)
            (if will_retry e then some (backoff attempts e.retry_after) else none)
            (some (error_type_of e)) w.store;
    },
    returned tt,
  )

  unfoldable pub run_claimed : World → World × Outcome Unit
  unfolding settle
  run_claimed w = settle (process service client engine now job w)
