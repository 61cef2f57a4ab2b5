-- ===== src/Lib.antt =====
-- oh-my-robot: two services that act on GitHub webhooks.
--
-- src/reviewbot is the review service. A webhook or a refresh enqueues an event in the SQLite store
-- (storage.py); a worker (worker.py) claims it and runs the review (service.py), which reads the
-- Pull Request, cuts its diff into batches (diff.py), asks the model, checks and merges what it
-- answers (reviewer.py), writes a comment to GitHub and completes the event, with the life of the
-- findings under their fingerprints (findings.py). src/robomp is the triage bot: a
-- webhook is routed (github_events.py, with the slash commands of pragmas.py), its event is stored
-- (db.py), claimed by the worker pool (queue.py) and handed to a task under a slot of the sandboxes
-- (slot_pool.py); a scheduler (autoclose.py) closes the questions that are answered.
--
-- The files and the code, each file with its child modules:
--   Prelude.antt            texts as lists of code points, lists, tables, UTF-8 sizes, integers
--   Reviewbot/Models.antt   src/reviewbot/models.py, the classes as records
--   Reviewbot/Findings.antt src/reviewbot/findings.py, `finding_fingerprint`
--   Reviewbot/Diff.antt     src/reviewbot/diff.py; Diff/Patch.antt is `parse_changed_lines`
--   Reviewbot/Reviewer.antt src/reviewbot/reviewer.py, `normalize_result`, `merge_review_results`
--   Reviewbot/Store.antt    src/reviewbot/storage.py, the tables of `QueueStore`; Queue, Outcomes,
--                           Reviews and Findings are its methods, Runs the sequences of calls
--   Reviewbot/Service.antt  src/reviewbot/service.py, the interfaces; Stages and Process are the code
--   Reviewbot/Worker.antt   src/reviewbot/worker.py, `_run_claimed`
--   Robomp/Events.antt      src/robomp/db.py, the table `events`
--   Robomp/Slots.antt       src/robomp/slot_pool.py
--   Robomp/Json.antt        the values of a payload
--   Robomp/Accounts.antt    src/robomp/github_events.py, the logins, the associations, the signature
--   Robomp/Mentions.antt    src/robomp/github_events.py, `extract_mention`
--   Robomp/Pragmas.antt     src/robomp/pragmas.py
--   Robomp/Routing.antt     src/robomp/github_events.py, `route`; Handlers is one function for each event
--   Robomp/Dispatch.antt    src/robomp/queue.py, `_dispatch`
--   Robomp/Pool.antt        src/robomp/queue.py, `WorkerPool`, on the tables of Events and Slots
--   Robomp/Submissions.antt src/robomp/db.py, the table `submissions`
--   Robomp/Tracking.antt    src/robomp/db.py, the tables `issues` and `releases`
--   Robomp/Staging.antt     src/robomp/db.py, the tables `pr_review_comments` and `tool_calls`
--   Robomp/ManualTriage.antt src/robomp/manual_triage.py
--   Robomp/Closures.antt    src/robomp/db.py, the table `pending_closures`, and src/robomp/autoclose.py
--
-- State is passed explicitly. A table is the list of its rows in the order of their row ids, an
-- UPDATE is `update`, and a transaction is one step; a method that stamps rows takes the time, in
-- seconds, as an argument. A number of the source that is a float of seconds or milliseconds is a
-- whole number of milliseconds. An exception is a result. `process` is cut into one function for
-- what follows each awaited call, and calls of GitHub and of the reviewer are the interfaces `Client`
-- and `Engine`, whose answers are any values, exceptions or cancellation. In Robomp the coroutines of
-- the pool are a list of steps in any order, the answers of GitHub during a tick of the scheduler are
-- the interface `GitHub`, no other writer acts during a tick, and a payload whose form the code
-- does not expect gives no result where the code raises. Every loop is over a list or a text but that
-- of `await_terminal_state`, which is on fuel, with the theorem that enough of it is given.
--
-- Not modelled: HTTP, subprocesses, logging, prompts and the parser of the model's answer; SHA-256,
-- the renderers, the rules and the redaction of secrets are parameters; `lower` and `casefold` act on
-- ASCII; the lengths that pydantic checks are not carried by the records; the service is modelled for
-- an engine that has `review_plan`; of cancellation, that at an awaited call of GitHub or the
-- reviewer; HMAC, the random factor of a retry and `str` of a JSON value that is not a text are
-- parameters. The migrations and listings of the stores, the webhook and admin routes, and of src/robomp
-- the tasks, the host tools, the sandbox, git, the proxy and the servers are left out.
pub mod Prelude
pub mod Reviewbot
pub mod Robomp
