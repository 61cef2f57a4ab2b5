-- ===== src/Reviewbot/Reviewer/Merge.antt =====
-- src/reviewbot/reviewer.py: the result of merging the batches of a review.
use oh_my_robot.Prelude.{
  ◌≤◌, Text, true, false, not, List, [], ◌∷◌, ◌≡◌, ◌≢◌, ◌↔◌, ◌⊎◌, arith, map, strip, any, all, In,
  inl, inr, select, refl, take, length, length-take-le, some, none,
}
use oh_my_robot.Reviewbot.Models.{ReviewFinding, ReviewResult, priority_order, needs_attention}
use oh_my_robot.Reviewbot.Reviewer.{
  is_blank, by_key, sort_findings, merge_review_results, merged_summary, join_summaries, checked,
  is_clean, merged_result,
}
use oh_my_robot.Reviewbot.Reviewer.Merging.{
  Covered, Distinct, by_key-covers, by_key-In, by_key-Distinct,
}
use oh_my_robot.Reviewbot.Reviewer.Sorting.{
  Sorted, sort-In, In-sort, sort-Sorted, sort-Distinct, take-In, take-Sorted, take-Distinct,
  take-most,
}

-- The merge `m` of the results `rs`: every finding of it is one of theirs; there are at most 20, in
-- the order of urgency, path and line, no two with the same path, line and title; each finding of
-- the results is kept, or stands behind one of its key as urgent, or is crowded out by 20 as urgent.
pub record IsMerge (rs : List ReviewResult) (m : ReviewResult) : Type 0 where
  pub given : (f : ReviewFinding) → In f m.findings → (r : ReviewResult) × In r rs × In f r.findings
  pub few : length m.findings ≤ 20
  pub sorted : Sorted m.findings
  pub distinct : Distinct m.findings
  pub complete :
      (r : ReviewResult) (f : ReviewFinding)
      → In r rs
      → In f r.findings
      → Covered f m.findings
        ⊎ ((length m.findings ≡ 20)
            × ((k : ReviewFinding)
                → In k m.findings
                → priority_order k.priority ≤ priority_order f.priority))
  pub alarming :
      (r : ReviewResult) → In r rs → r.verdict ≡ needs_attention → m.verdict ≡ needs_attention

-- The merged findings, before they are put in a result.
kept_of : List ReviewResult → List ReviewFinding
kept_of rs = take 20 (sort_findings (by_key rs []))

kept-given :
    (rs : List ReviewResult) (f : ReviewFinding)
    → In f (kept_of rs)
    → (r : ReviewResult) × In r rs × In f r.findings
unfolding kept_of
kept-given rs f i =
    elim (by_key-In rs f []
      (sort-In f (by_key rs []) (take-In 20 f (sort_findings (by_key rs [])) i))) [
        | inl found ↦ found
        | inr j ↦ elim j [ ]
      ]

kept_complete :
    (rs : List ReviewResult) (r : ReviewResult) (f : ReviewFinding)
    → In r rs
    → In f r.findings
    → Covered f (kept_of rs)
      ⊎ ((length (kept_of rs) ≡ 20)
          × ((k : ReviewFinding)
              → In k (kept_of rs)
              → priority_order k.priority ≤ priority_order f.priority))
unfolding kept_of
kept_complete rs r f i j =
    let (g, at, same, urgent) = by_key-covers rs r f [] i j in
    let sorted = sort_findings (by_key rs []) in
    elim (take-most 20 g sorted (sort-Sorted (by_key rs [])) (In-sort g (by_key rs []) at)) [
      | inl kept ↦ inl (g, kept, same, urgent)
      | inr (full, above) ↦ inr (full, λ k m. omega (arith, above k m, urgent))
    ]

alarm-any :
    (rs : List ReviewResult) (r : ReviewResult)
    → In r rs
    → r.verdict ≡ needs_attention
    → any (λ x. not (is_clean x.verdict)) rs ≡ true
alarm-any [] r i h = elim i [ ]
alarm-any (x ∷ rs) r (inl e) h =
    let h' : x.verdict ≡ needs_attention = rw e at h in ground (arith, h')
alarm-any (x ∷ rs) r (inr i) h = ground (arith, alarm-any rs r i h)

checked-some : (r m : ReviewResult) → checked r ≡ some m → m ≡ r
unfolding checked
checked-some r m h = ground arith

merged_result-IsMerge :
    (r : ReviewResult) (rs : List ReviewResult) → IsMerge (r ∷ rs) (merged_result r rs)
unfolding merged_result kept_of
merged_result-IsMerge r rs = record {
  given = kept-given (r ∷ rs);
  few = length-take-le 20 (sort_findings (by_key (r ∷ rs) []));
  sorted = take-Sorted 20 (sort_findings (by_key (r ∷ rs) [])) (sort-Sorted (by_key (r ∷ rs) []));
  distinct =
      take-Distinct 20 (sort_findings (by_key (r ∷ rs) []))
        (sort-Distinct (by_key (r ∷ rs) []) (by_key-Distinct (r ∷ rs) [] tt));
  complete = kept_complete (r ∷ rs);
  alarming = λ x i h. ground (arith, alarm-any (r ∷ rs) x i h);
}

-- If a merge of at least one result is accepted, its findings are findings of the results, at most
-- 20, sorted by urgency, path and line, no two with one path, line and title; a finding of the results
-- has one of its path, line and title kept that is as urgent, or 20 as urgent are kept; and the verdict
-- is needs_attention if one of the results has it.
pub merge_review_results-IsMerge :
    (r : ReviewResult) (rs : List ReviewResult) (m : ReviewResult)
    → merge_review_results (r ∷ rs) ≡ some m
    → IsMerge (r ∷ rs) m
unfolding merge_review_results
merge_review_results-IsMerge r rs m h =
    rw (checked-some (merged_result r rs) m h) (merged_result-IsMerge r rs)

-- The summaries that are not blank.
parts_of : List ReviewResult → List Text
parts_of rs = select (λ s. not (is_blank s)) (map (λ r. strip r.summary) rs)

join-blank :
    (ss : List Text)
    → is_blank (take 4000 (join_summaries (select (λ s. not (is_blank s)) ss))) ≡ all is_blank ss
unfolding join_summaries
join-blank [] = refl
join-blank ([] ∷ ss) = join-blank ss
join-blank ((c ∷ s) ∷ ss) = go (select (λ s. not (is_blank s)) ss)
  where
    go : (ts : List Text) → is_blank (take 4000 (join_summaries ((c ∷ s) ∷ ts))) ≡ false
    go [] = refl
    go (t ∷ ts) = refl

-- `merge_review_results` fails exactly when there is a result and every summary is blank.
pub merge_review_results-fails_iff :
    (rs : List ReviewResult)
    → (merge_review_results rs ≡ none)
      ↔ ((rs ≢ []) × (all is_blank (map (λ r. strip r.summary) rs) ≡ true))
unfolding merge_review_results checked merged_result merged_summary
merge_review_results-fails_iff [] = (λ h. absurd (ground arith), λ h. absurd (h.0 refl))
merge_review_results-fails_iff (r ∷ rs) =
    let e = join-blank (map (λ r. strip r.summary) (r ∷ rs)) in
    (λ h. ((λ q. absurd (ground arith)), ground (arith, e, h)), λ h. ground (arith, e, h))
