-- ===== src/Reviewbot/Reviewer.antt =====
-- src/reviewbot/reviewer.py: the checks on what the model answers, and the merge of the batches.
-- pydantic's check of a merged result is the test that its summary is not empty.
pub mod Normal
pub mod Merging
pub mod Sorting
pub mod Merge
use oh_my_robot.Prelude.{
  ℕ, suc, ◌+◌, Text, codes, text_eq, text_leb, lower, strip, Bool, true, false, not, ◌&&◌, ◌||◌,
  Option, none, some, List, [], ◌∷◌, ◌++◌, map, foldl, ltb, leb, ◌==◌, if◌then◌else◌, any, all,
  select, length, take, decimal, length,
}
use oh_my_robot.Reviewbot.Models.{
  Priority, p0, p1, p2, p3, priority_order, ReviewVerdict, clean, needs_attention, ReviewFinding,
  ReviewResult,
}
use oh_my_robot.Reviewbot.Diff.{DiffContext, has_changed_line}

-- The components of a path between the slashes.
unfoldable pub components_from : Text → Text → List Text
components_from word [] = word ∷ []
components_from word (c ∷ s) =
    let next = word ∷ components_from [] s in
    let inside = components_from (word ++ c ∷ []) s in if c == 47 then next else inside

abbrev is_absolute : Text → Bool
is_absolute [] = false
is_absolute (c ∷ s) = c == 47

abbrev pub is_blank : Text → Bool
is_blank [] = true
is_blank (c ∷ s) = false

-- `_is_safe_path`; the parts of a PurePosixPath that are empty or "." are dropped, and ".." stays.
unfoldable pub is_safe_path : Text → Bool
unfolding components_from
is_safe_path path =
    if is_blank path || any (λ c. c == 92) path
    then false
    else not (is_absolute path)
      && not (any (λ part. text_eq part (codes "..")) (components_from [] path))

unfoldable pub is_valid : DiffContext → ReviewFinding → Bool
unfolding is_safe_path
is_valid diff f =
    is_safe_path f.path
    && not (any (text_eq f.path) diff.omitted_files)
    && has_changed_line diff f.path f.line

abbrev pub has_finding : List ReviewFinding → Bool
has_finding [] = false
has_finding (f ∷ findings) = true

abbrev pub is_clean : ReviewVerdict → Bool
is_clean clean = true
is_clean needs_attention = false

unfoldable pub dropped_notice : ℕ → Text
dropped_notice n =
    if n == 0 then [] else codes "\n\n（有 " ++ decimal n ++ codes " 条模型意见无法定位到本次 Diff，已忽略，避免误报。）"

unfoldable pub normalize_result : ReviewResult → DiffContext → ReviewResult
normalize_result result diff =
    let valid_findings = select (is_valid diff) result.findings in
    let invalid_count = length (select (λ f. not (is_valid diff f)) result.findings) in
    record result {
      summary = strip result.summary ++ dropped_notice invalid_count;
      verdict =
          if has_finding valid_findings && is_clean result.verdict
          then needs_attention
          else result.verdict;
      findings = valid_findings;
    }

-- The key of `findings_by_key`.
abbrev pub same_key : ReviewFinding → ReviewFinding → Bool
same_key f g =
    text_eq f.path g.path
    && f.line == g.line
    && text_eq (lower (strip f.title)) (lower (strip g.title))

abbrev pub more_urgent : ReviewFinding → ReviewFinding → Bool
more_urgent f g = ltb (priority_order f.priority) (priority_order g.priority)

-- `findings_by_key`, as the list of its values in the order of their keys' insertion.
unfoldable pub put_finding : ReviewFinding → List ReviewFinding → List ReviewFinding
put_finding f [] = f ∷ []
put_finding f (g ∷ kept) =
    let rest = put_finding f kept in
    if same_key g f then (if more_urgent f g then f ∷ kept else g ∷ kept) else g ∷ rest

unfoldable pub put_findings : List ReviewFinding → List ReviewFinding → List ReviewFinding
unfolding put_finding
put_findings [] kept = kept
put_findings (f ∷ findings) kept = put_findings findings (put_finding f kept)

unfoldable pub by_key : List ReviewResult → List ReviewFinding → List ReviewFinding
unfolding put_findings
by_key [] kept = kept
by_key (r ∷ results) kept = by_key results (put_findings r.findings kept)

-- (priority, path, line)
unfoldable pub finding_leb : ReviewFinding → ReviewFinding → Bool
finding_leb f g =
    if priority_order f.priority == priority_order g.priority
    then (if text_eq f.path g.path then leb f.line g.line else text_leb f.path g.path)
    else ltb (priority_order f.priority) (priority_order g.priority)

-- `findings.sort(key=…)`, a stable sort.
unfoldable pub insert_sorted : ReviewFinding → List ReviewFinding → List ReviewFinding
insert_sorted f [] = f ∷ []
insert_sorted f (g ∷ gs) =
    let rest = insert_sorted f gs in if finding_leb f g then f ∷ g ∷ gs else g ∷ rest

unfoldable pub sort_findings : List ReviewFinding → List ReviewFinding
unfolding insert_sorted
sort_findings [] = []
sort_findings (f ∷ fs) = insert_sorted f (sort_findings fs)

unfoldable pub put_suggestions : List Text → List Text → List Text
put_suggestions [] kept = kept
put_suggestions (s ∷ suggestions) kept =
    put_suggestions suggestions (if any (text_eq s) kept then kept else kept ++ s ∷ [])

unfoldable pub all_suggestions : List ReviewResult → List Text → List Text
unfolding put_suggestions
all_suggestions [] kept = kept
all_suggestions (r ∷ results) kept =
    all_suggestions results (put_suggestions r.test_suggestions kept)

-- The most urgent rank; `min` keeps the first of equals, which are the same value.
unfoldable pub best_rank : Priority → List ReviewResult → Priority
best_rank p [] = p
best_rank p (r ∷ results) =
    best_rank (if ltb (priority_order r.rank) (priority_order p) then r.rank else p) results

-- "\n\n".join of the summaries that are not blank.
unfoldable pub join_summaries : List Text → Text
join_summaries [] = []
join_summaries (s ∷ []) = s
join_summaries (s ∷ t ∷ parts) = s ++ 10 ∷ 10 ∷ join_summaries (t ∷ parts)

unfoldable pub merged_summary : List ReviewResult → Text
unfolding join_summaries
merged_summary results =
    take 4000 (join_summaries (select (λ s. not (is_blank s)) (map (λ r. strip r.summary) results)))

abbrev pub no_diff_result : ReviewResult
no_diff_result = record {
  summary = codes "本次 PR 没有可评审的文本 Diff。";
  verdict = clean;
  rank = p3;
  findings = [];
  test_suggestions = [];
}

-- `none` is the ValidationError for an empty summary.
unfoldable pub checked : ReviewResult → Option ReviewResult
checked r = if is_blank r.summary then none else some r

-- The arguments of the `ReviewResult` that a merge of one result or more returns.
unfoldable pub merged_result : ReviewResult → List ReviewResult → ReviewResult
unfolding by_key sort_findings all_suggestions best_rank merged_summary
merged_result r results = record {
  summary = merged_summary (r ∷ results);
  verdict = if any (λ x. not (is_clean x.verdict)) (r ∷ results) then needs_attention else clean;
  rank = best_rank r.rank results;
  findings = take 20 (sort_findings (by_key (r ∷ results) []));
  test_suggestions = take 10 (all_suggestions (r ∷ results) []);
}

unfoldable pub merge_review_results : List ReviewResult → Option ReviewResult
unfolding merged_result checked
merge_review_results [] = some no_diff_result
merge_review_results (r ∷ results) = checked (merged_result r results)
