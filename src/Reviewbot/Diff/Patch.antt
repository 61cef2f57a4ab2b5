-- ===== src/Reviewbot/Diff/Patch.antt =====
-- src/reviewbot/diff.py: `parse_changed_lines`. The digits that the expression reads are ASCII.
use oh_my_robot.Prelude.{
  ℕ, suc, Text, codes, Option, none, some, List, [], ◌∷◌, if◌then◌else◌, ◌++◌, starts_with,
  splitlines, is_digit, number_of, ◌==◌,
}

-- The text after a prefix.
unfoldable pub after : Text → Text → Option Text
after [] s = some s
after (p ∷ ps) [] = none
after (p ∷ ps) (c ∷ s) = let rest = after ps s in if c == p then rest else none

unfoldable pub span_digits : Text → Text × Text
span_digits [] = ([], [])
span_digits (c ∷ s) =
    let (ds, rest) = span_digits s in if is_digit c then (c ∷ ds, rest) else ([], c ∷ s)

-- \d+, with what follows.
unfoldable pub digits1 : Text → Option (Text × Text)
unfolding span_digits is_digit
digits1 s =
    let (ds, rest) = span_digits s in elim ds [ [] ↦ none | d ∷ more ↦ some (d ∷ more, rest) ]

-- (?:,\d+)?
unfoldable pub optional_count : Text → Text
unfolding digits1
optional_count [] = []
optional_count (c ∷ s) =
    if c == 44 then (elim (digits1 s) [ none ↦ c ∷ s | some (ds, rest) ↦ rest ]) else c ∷ s

infixl 5 ◌>>=◌
abbrev ◌>>=◌ : {A B : Type 0} → Option A → (A → Option B) → Option B
none >>= f = none
some a >>= f = f a

-- `_HUNK_RE`, with the number of its first group.
unfoldable pub hunk_start : Text → Option ℕ
unfolding after digits1 optional_count number_of
hunk_start line = do
  s₁ ← after (codes "@@ -") line
  (old, s₂) ← digits1 s₁
  s₃ ← after (codes " +") (optional_count s₂)
  (new, s₄) ← digits1 s₃
  s₅ ← after (codes " @@") (optional_count s₄)
  some (number_of 0 new)

-- The kinds of a line of the body, by the tests of the loop in their order.
pub data LineKind : Type 0 where
  note header added removed context : LineKind

unfoldable pub line_kind : Text → LineKind
line_kind line =
    if starts_with line (codes "\\")
    then note
    else if starts_with line (codes "+++")
    then header
    else if starts_with line (codes "+")
    then added
    else if starts_with line (codes "-")
    then removed
    else context

-- One line: the next line number of the new file, and the line that it adds.
unfoldable pub body_line : ℕ → LineKind → ℕ × List ℕ
body_line n note = (n, [])
body_line n header = (n, [])
body_line n added = (suc n, n ∷ [])
body_line n removed = (n, [])
body_line n context = (suc n, [])

unfoldable pub scan_line : Option ℕ → Text → Option ℕ × List ℕ
unfolding body_line
scan_line new_line line = elim (hunk_start line) [
  | some n ↦ (some n, [])
  | none ↦ elim new_line [
    | none ↦ (none, [])
    | some n ↦ (some (body_line n (line_kind line)).0, (body_line n (line_kind line)).1)
  ]
]

-- The loop, which returns the lines that it adds.
unfoldable pub scan : Option ℕ → List Text → List ℕ
unfolding scan_line
scan new_line [] = []
scan new_line (line ∷ lines) = (scan_line new_line line).1 ++ scan (scan_line new_line line).0 lines

unfoldable pub parse_changed_lines : Text → List ℕ
unfolding scan
parse_changed_lines patch = scan none (splitlines patch)
