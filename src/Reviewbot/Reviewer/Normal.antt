-- ===== src/Reviewbot/Reviewer/Normal.antt =====
-- src/reviewbot/reviewer.py: only findings that can be located in the diff survive.
use oh_my_robot.Prelude.{
  ℕ, Text, text_eq, text_eq_iff, true, List, [], ◌∷◌, ◌≡◌, ◌↔◌, arith, ◌==◌, any, ◌&&◌,
  if◌then◌else◌, In, Bool-cases, inl, inr, select, In-select, select-In, refl,
}
use oh_my_robot.Reviewbot.Models.{
  ReviewFinding, ReviewResult, ReviewVerdict, clean, needs_attention,
}
use oh_my_robot.Reviewbot.Diff.{DiffContext, has_changed_line, lines_of}
use oh_my_robot.Reviewbot.Reviewer.{is_valid, is_safe_path, normalize_result, has_finding, is_clean}

any-text_eq_iff : (t : Text) (xs : List Text) → (any (text_eq t) xs ≡ true) ↔ In t xs
any-text_eq_iff t [] = (λ h. absurd (ground arith), λ i. elim i [ ])
any-text_eq_iff t (x ∷ xs) = (
  λ h. elim (Bool-cases (text_eq t x)) [
    | inl e ↦ inl ((text_eq_iff t x).0 e)
    | inr e ↦ inr ((any-text_eq_iff t xs).0 (ground arith))
  ],
  λ i. elim i [
    | inl e ↦ ground (arith, text_eq_iff t x)
    | inr j ↦ ground (arith, (any-text_eq_iff t xs).1 j)
  ],
)

any-eq_iff : (n : ℕ) (xs : List ℕ) → (any (λ m. m == n) xs ≡ true) ↔ In n xs
any-eq_iff n [] = (λ h. absurd (ground arith), λ i. elim i [ ])
any-eq_iff n (x ∷ xs) = (
  λ h. elim (Bool-cases (x == n)) [
    | inl e ↦ inl (ground arith)
    | inr e ↦ inr ((any-eq_iff n xs).0 (ground arith))
  ],
  λ i. elim i [ inl e ↦ ground arith | inr j ↦ ground (arith, (any-eq_iff n xs).1 j) ],
)

-- A finding that the diff can show: a safe path, a file that was not omitted, an added line.
pub record IsLocated (diff : DiffContext) (f : ReviewFinding) : Type 0 where
  pub safe : is_safe_path f.path ≡ true
  pub shown : ¬ In f.path diff.omitted_files
  pub added : In f.line (lines_of f.path diff.changed_lines)

pub is_valid_iff :
    (diff : DiffContext) (f : ReviewFinding) → (is_valid diff f ≡ true) ↔ IsLocated diff f
unfolding is_valid has_changed_line
is_valid_iff diff f = (
  λ h. record {
    safe = ground arith;
    shown = λ i. ground (arith, (any-text_eq_iff f.path diff.omitted_files).1 i);
    added = (any-eq_iff f.line (lines_of f.path diff.changed_lines)).0 (ground arith);
  },
  λ l. ground (
    arith,
    l.safe,
    l.shown,
    any-text_eq_iff f.path diff.omitted_files,
    (any-eq_iff f.line (lines_of f.path diff.changed_lines)).1 l.added,
  ),
)

-- What normalizing promises of its result: the findings are those of the model that the diff can
-- show, and a verdict of clean is left only where it was the model's and no finding is left.
pub record IsNormal (diff : DiffContext) (r : ReviewResult) (n : ReviewResult) : Type 0 where
  pub kept : (f : ReviewFinding) → In f n.findings ↔ (In f r.findings × IsLocated diff f)
  pub alarming : (f : ReviewFinding) → In f n.findings → n.verdict ≡ needs_attention
  pub lenient : n.findings ≡ [] → n.verdict ≡ r.verdict

has_finding-alarms :
    (f : ReviewFinding) (v : ReviewVerdict) (fs : List ReviewFinding)
    → In f fs
    → (if has_finding fs && is_clean v then needs_attention else v) ≡ needs_attention
has_finding-alarms f v [] i = elim i [ ]
has_finding-alarms f clean (g ∷ fs) i = refl
has_finding-alarms f needs_attention (g ∷ fs) i = refl

has_finding-lenient :
    (v : ReviewVerdict) (fs : List ReviewFinding)
    → fs ≡ []
    → (if has_finding fs && is_clean v then needs_attention else v) ≡ v
has_finding-lenient v [] e = refl
has_finding-lenient v (g ∷ fs) e = ground arith

-- `normalize_result` keeps exactly the findings of the model that have a safe path, lie in a file
-- that is not omitted and stand on an added line; the verdict is needs_attention whenever a finding
-- is kept, and is the model's when none is.
pub normalize_result-IsNormal :
    (r : ReviewResult) (diff : DiffContext) → IsNormal diff r (normalize_result r diff)
unfolding normalize_result
normalize_result-IsNormal r diff = record {
  kept = λ f. (
    λ i. (
      (In-select (is_valid diff) f r.findings i).0,
      (is_valid_iff diff f).0 (In-select (is_valid diff) f r.findings i).1,
    ),
    λ h. select-In (is_valid diff) f r.findings h.0 ((is_valid_iff diff f).1 h.1),
  );
  alarming = λ f. has_finding-alarms f r.verdict (select (is_valid diff) r.findings);
  lenient = has_finding-lenient r.verdict (select (is_valid diff) r.findings);
}
