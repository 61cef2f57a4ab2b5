-- ===== src/Reviewbot/Samples.antt =====
-- Small inputs for the tests: one Pull Request, its diff, and what GitHub and the model answer.
use oh_my_robot.Prelude.{ℕ, Text, codes, ◌++◌, true, false, none, some, List, [], ◌∷◌}
use oh_my_robot.Prelude.Int.{pos}
use oh_my_robot.Reviewbot.Models.{
  PullRequest, ChangedFile, Priority, p1, p2, clean, ReviewFinding, ReviewResult, EventState,
  running, webhook, EventRecord, ReviewJob,
}
use oh_my_robot.Reviewbot.Store.{Store}
use oh_my_robot.Reviewbot.Service.{
  Error, github_api_error, Outcome, returned, raised, Client, Engine, Service, World,
}

abbrev pub sample_job : ReviewJob
sample_job = record {
  delivery_id = codes "d1";
  event_type = codes "pull_request";
  action = codes "opened";
  repository = codes "o/r";
  pull_request_number = 7;
  webhook_head_sha = codes "abc";
}

abbrev pub sample_event : EventState → EventRecord
sample_event state = record {
  delivery_id = codes "d1";
  event_type = codes "pull_request";
  action = codes "opened";
  repository = codes "o/r";
  pull_request_number = 7;
  webhook_head_sha = codes "abc";
  state = state;
  attempts = 0;
  last_error = none;
  error_type = none;
  source = webhook;
  source_delivery_id = none;
  available_at = 5;
  started_at = none;
  finished_at = none;
  created_at = 5;
  updated_at = 5;
}

abbrev pub store_with : EventState → Store
store_with state = record {
  events = sample_event state ∷ [];
  reviews = [];
  findings = [];
  review_metrics = [];
  attempt_metrics = [];
  omp_sessions = [];
  omp_tool_audit = [];
}

abbrev pub sample_pr : PullRequest
sample_pr = record {
  repository = codes "o/r";
  number = 7;
  title = codes "t";
  body = [];
  state = codes "open";
  draft = false;
  author = codes "u";
  head_sha = codes "abc";
  head_ref = codes "h";
  base_sha = codes "b0";
  base_ref = codes "main";
  html_url = [];
}

abbrev pub sample_file : ChangedFile
sample_file = record {
  filename = codes "a.py";
  status = codes "modified";
  patch = codes "@@ -1 +1,2 @@\n a\n+b";
  additions = 1;
  deletions = 0;
}

abbrev pub finding_at : Priority → ℕ → ReviewFinding
finding_at priority line = record {
  priority = priority;
  path = codes "a.py";
  line = line;
  end_line = none;
  symbol = [];
  title = codes "T";
  problem = codes "p";
  impact = codes "i";
  suggestion = codes "s";
  confidence = 900;
}

abbrev pub result_with : List ReviewFinding → ReviewResult
result_with findings = record {
  summary = codes "fine";
  verdict = clean;
  rank = p2;
  findings = findings;
  test_suggestions = [];
}

abbrev pub sample_digest : Text × Text × Text × Text → Text
sample_digest (a, b, c, d) = a ++ b ++ c ++ d

abbrev pub sample_service : Service
sample_service = record {
  enabled = true;
  allowlist = codes "o/r" ∷ [];
  deep_mode = false;
  max_diff_bytes = pos 1000;
  digest = sample_digest;
  load_rules = λ files. [];
  render_review = λ pr result plan. codes "review";
  render_inline_finding = λ pr f print. print;
}

abbrev pub client_with : Outcome (PullRequest × ℕ) → Client
client_with answer = record {
  get_pull_request = λ repo number. answer;
  get_pull_request_latest = λ repo number. returned (sample_pr, 2);
  list_pull_request_comments = λ repo number. returned ([], 3);
  list_pull_request_files = λ repo number. returned (sample_file ∷ [], 4);
  download_pull_request_archive = none;
  create_pull_request_comment = λ c. returned (some 41, 5);
  create_pull_request_review_comment = none;
  create_check_run = none;
}

abbrev pub sample_client : Client
sample_client = client_with (returned (sample_pr, 1))

abbrev pub sample_error : Error
sample_error = record {
  kind = github_api_error 503 false;
  message = codes "down";
  class_name = codes "GitHubApiError";
  retry_after = none;
  input_tokens = none;
  output_tokens = none;
}

abbrev pub failing_client : Client
failing_client = client_with (raised sample_error)

abbrev pub sample_engine : Engine
sample_engine = record {
  review_plan = λ pr plan rules. (
    returned (record {
      result = result_with (finding_at p1 2 ∷ []);
      input_tokens = some 10;
      output_tokens = some 20;
      session_id = none;
      tool_audit = [];
    }),
    30,
  );
  deep_review = none;
}

abbrev pub sample_world : World
sample_world = record {
  store = store_with running;
  comments = [];
  inline_comments = [];
  check_runs = [];
}
