-- ===== src/Reviewbot/Store/Findings.antt =====
-- src/reviewbot/storage.py: `_sync_findings`, the life cycle of the findings of a Pull Request.
pub mod Upsert
pub mod Sync
pub mod History
use oh_my_robot.Prelude.{
  ℕ, Text, text_eq, lower, Bool, true, false, not, ◌&&◌, Option, none, some, List, [], ◌∷◌, ◌++◌,
  map, ◌==◌, if◌then◌else◌, any, select, find, update,
}
use oh_my_robot.Reviewbot.Models.{
  ReviewFinding, FindingRecord, FindingStatus, new, active, resolved, relocated, is_resolved,
}
use oh_my_robot.Reviewbot.Findings.{forward_slashes, finding_fingerprint}
use oh_my_robot.Reviewbot.Store.{Store}

abbrev pub of_pr : Text → ℕ → FindingRecord → Bool
of_pr repository number r = text_eq r.repository repository && r.pull_request_number == number

abbrev pub has_print : Text → FindingRecord → Bool
has_print fingerprint r = text_eq r.fingerprint fingerprint

-- The primary key.
abbrev pub keyed : Text → ℕ → Text → FindingRecord → Bool
keyed repository number fingerprint r = of_pr repository number r && has_print fingerprint r

unfoldable pub same_end : Option ℕ → Option ℕ → Bool
same_end none none = true
same_end (some a) (some b) = a == b
same_end _ _ = false

unfoldable pub same_location : FindingRecord → ReviewFinding → Bool
unfolding same_end
same_location previous f =
    text_eq previous.path (forward_slashes f.path)
    && previous.line == f.line
    && same_end previous.end_line f.end_line

unfoldable pub next_status : Option FindingRecord → ReviewFinding → FindingStatus
unfolding same_location
next_status none f = new
next_status (some previous) f = if same_location previous f then active else relocated

unfoldable pub first_seen : Option FindingRecord → Text → Text
first_seen none head_sha = head_sha
first_seen (some previous) head_sha = previous.first_seen_sha

-- The row of the INSERT.
unfoldable pub finding_row :
    ℕ → Text → ℕ → Text → Text → Option FindingRecord → ReviewFinding → FindingRecord
unfolding next_status first_seen
finding_row now repository number head_sha fingerprint previous f = record {
  fingerprint = fingerprint;
  repository = repository;
  pull_request_number = number;
  head_sha = head_sha;
  path = forward_slashes f.path;
  line = f.line;
  end_line = f.end_line;
  priority = f.priority;
  title = f.title;
  status = next_status previous f;
  first_seen_sha = first_seen previous head_sha;
  last_seen_sha = head_sha;
  created_at = now;
  updated_at = now;
}

-- INSERT … ON CONFLICT DO UPDATE: a row that is there keeps its place and its `created_at`.
unfoldable pub upsert_finding : Text → ℕ → FindingRecord → List FindingRecord → List FindingRecord
upsert_finding repository number row rows =
    if any (keyed repository number row.fingerprint) rows
    then update (keyed repository number row.fingerprint)
        (λ old. record row { created_at = old.created_at }) rows
    else rows ++ row ∷ []

abbrev pub resolve : ℕ → Text → FindingRecord → FindingRecord
resolve now head_sha r = record r {
  status = resolved;
  head_sha = head_sha;
  last_seen_sha = head_sha;
  updated_at = now;
}

unfoldable pub in_scope : Option (List Text) → FindingRecord → Bool
in_scope none r = true
in_scope (some reviewed_paths) r = any (text_eq r.path) (map forward_slashes reviewed_paths)

unfoldable pub is_gone : List Text → Option (List Text) → FindingRecord → Bool
unfolding in_scope
is_gone seen reviewed_paths previous =
    not (any (text_eq previous.fingerprint) seen)
    && not (is_resolved previous.status)
    && in_scope reviewed_paths previous

module _ (now : ℕ) (repository : Text) (number : ℕ) (head_sha : Text) where
  -- The first loop: `seen` has the fingerprints that were met, `existing` the rows at the start.
  unfoldable pub sync_loop :
      (Text × Text × Text × Text → Text)
      → List FindingRecord
      → List Text
      → List ReviewFinding
      → List FindingRecord
      → List Text × List FindingRecord
  unfolding finding_row upsert_finding
  sync_loop digest existing seen [] rows = (seen, rows)
  sync_loop digest existing seen (f ∷ findings) rows =
      let fingerprint = finding_fingerprint digest f in
      let skip = sync_loop digest existing seen findings rows in
      let previous = find (has_print fingerprint) existing in
      let row = finding_row now repository number head_sha fingerprint previous f in
      let go =
        sync_loop digest existing (fingerprint ∷ seen) findings
          (upsert_finding repository number row rows) in
      if any (text_eq fingerprint) seen then skip else go

  -- The second loop, over the rows at the start.
  unfoldable pub resolve_gone :
      List Text → Option (List Text) → List FindingRecord → List FindingRecord → List FindingRecord
  unfolding is_gone
  resolve_gone seen reviewed_paths [] rows = rows
  resolve_gone seen reviewed_paths (previous ∷ existing) rows =
      resolve_gone seen reviewed_paths existing (
        if is_gone seen reviewed_paths previous
        then update (keyed repository number previous.fingerprint) (resolve now head_sha) rows
        else rows)

unfoldable pub sync_rows :
    (Text × Text × Text × Text → Text)
    → ℕ
    → Text
    → ℕ
    → Text
    → List ReviewFinding
    → Option (List Text)
    → List FindingRecord
    → List FindingRecord
unfolding sync_loop resolve_gone
sync_rows digest now repository number head_sha findings reviewed_paths rows =
    let existing = select (of_pr repository number) rows in
    let (seen, synced) =
      sync_loop now repository number head_sha digest existing [] findings rows in
    resolve_gone now repository number head_sha seen reviewed_paths existing synced

unfoldable pub sync_findings :
    (Text × Text × Text × Text → Text)
    → ℕ
    → Text
    → ℕ
    → Text
    → List ReviewFinding
    → Option (List Text)
    → Store
    → Store
unfolding sync_rows
sync_findings digest now repository number head_sha findings reviewed_paths s = record s {
  findings =
      sync_rows digest now (lower repository) number head_sha findings reviewed_paths s.findings;
}
