-- ===== src/Reviewbot/Diff/Lines.antt =====
-- src/reviewbot/diff.py: the lines that a patch adds, numbered as in the new file.
use oh_my_robot.Prelude.{
  ℕ, ◌+◌, Text, splitlines, Bool, true, false, Option, none, some, List, [], ◌∷◌, ◌++◌, ◌≡◌, refl,
  arith, ap, ◌↔◌, ◌⊎◌, inl, inr, In, All, count_if, Option-cases,
}
use oh_my_robot.Reviewbot.Diff.Patch.{
  hunk_start, LineKind, note, header, added, removed, context, line_kind, parse_changed_lines,
  body_line, scan_line, scan,
}

-- A line of the body that stands in the new file.
abbrev pub in_new : LineKind → Bool
in_new note = false
in_new header = false
in_new added = true
in_new removed = false
in_new context = true

-- Line `i` is added by a line of `lines` that no hunk header precedes, from line `n` on.
pub record InBody (n : ℕ) (lines : List Text) (i : ℕ) : Type 0 where
  pub between : List Text
  pub line : Text
  pub rest : List Text
  pub split : lines ≡ between ++ line ∷ rest
  pub no_header : All (λ l. hunk_start l ≡ none) between
  pub body : hunk_start line ≡ none
  pub is_added : line_kind line ≡ added
  pub position : i ≡ n + count_if (λ l. in_new (line_kind l)) between

-- A hunk header gives the number of the line after it in the new file, and `i` is the number of a
-- line with `+` in that hunk: the header's number, and one more for each line of the hunk before
-- it that stands in the new file.
pub record AddedAt (lines : List Text) (i : ℕ) : Type 0 where
  pub before : List Text
  pub opening : Text
  pub start : ℕ
  pub hunk : List Text
  pub split : lines ≡ before ++ opening ∷ hunk
  pub opens : hunk_start opening ≡ some start
  pub within : InBody start hunk i

later_hunk : {lines : List Text} {i : ℕ} (l : Text) → AddedAt lines i → AddedAt (l ∷ lines) i
later_hunk l a = record {
  before = l ∷ a.before;
  opening = a.opening;
  start = a.start;
  hunk = a.hunk;
  split = ap (◌∷◌ l) a.split;
  opens = a.opens;
  within = a.within;
}

here_hunk :
    {lines : List Text} {i : ℕ} (l : Text) (m : ℕ)
    → hunk_start l ≡ some m
    → InBody m lines i
    → AddedAt (l ∷ lines) i
here_hunk {lines} l m h b = record {
  before = [];
  opening = l;
  start = m;
  hunk = lines;
  split = refl;
  opens = h;
  within = b;
}

later_line :
    {lines : List Text} {i n m : ℕ} (l : Text)
    → hunk_start l ≡ none
    → m ≡ (body_line n (line_kind l)).0
    → InBody m lines i
    → InBody n (l ∷ lines) i
unfolding body_line
later_line l h e b = record {
  between = l ∷ b.between;
  line = b.line;
  rest = b.rest;
  split = ap (◌∷◌ l) b.split;
  no_header = (h, b.no_header);
  body = b.body;
  is_added = b.is_added;
  position = ground (arith, b.position);
}

added_here : (n i : ℕ) (k : LineKind) → In i (body_line n k).1 → (k ≡ added) × (i ≡ n)
unfolding body_line
added_here n i note m = elim m [ ]
added_here n i header m = elim m [ ]
added_here n i added (inl e) = (refl, e)
added_here n i added (inr m) = elim m [ ]
added_here n i removed m = elim m [ ]
added_here n i context m = elim m [ ]

this_line :
    (n : ℕ) (l : Text) (lines : List Text) (i : ℕ)
    → hunk_start l ≡ none
    → In i (body_line n (line_kind l)).1
    → InBody n (l ∷ lines) i
this_line n l lines i h m =
    let (k, e) = added_here n i (line_kind l) m in
    record {
      between = [];
      line = l;
      rest = lines;
      split = refl;
      no_header = tt;
      body = h;
      is_added = k;
      position = omega arith;
    }

In-append : (i : ℕ) (xs ys : List ℕ) → In i (xs ++ ys) → In i xs ⊎ In i ys
In-append i [] ys m = inr m
In-append i (x ∷ xs) ys (inl e) = inl (inl e)
In-append i (x ∷ xs) ys (inr m) = elim (In-append i xs ys m) [ inl a ↦ inl (inr a) | inr b ↦ inr b ]

In-append_right : (i : ℕ) (xs ys : List ℕ) → In i ys → In i (xs ++ ys)
In-append_right i [] ys m = m
In-append_right i (x ∷ xs) ys m = inr (In-append_right i xs ys m)

In-append_left : (i : ℕ) (xs ys : List ℕ) → In i xs → In i (xs ++ ys)
In-append_left i [] ys m = elim m [ ]
In-append_left i (x ∷ xs) ys (inl e) = inl e
In-append_left i (x ∷ xs) ys (inr m) = inr (In-append_left i xs ys m)

-- What a line number stands for, from a state of the loop on.
abbrev Found : Option ℕ → List Text → ℕ → Type 0
Found none lines i = AddedAt lines i
Found (some n) lines i = InBody n lines i ⊎ AddedAt lines i

step_sound :
    (st : Option ℕ) (l : Text) (lines : List Text) (i : ℕ)
    → In i (scan_line st l).1 ⊎ Found (scan_line st l).0 lines i
    → Found st (l ∷ lines) i
unfolding scan_line
step_sound none l lines i f = elim (Option-cases (hunk_start l)) [
  | inl h ↦ later_hunk l (split_none (rw (h, scan_line) at f))
  | inr (m, h) ↦ split_some (rw (h, scan_line) at f) h
]
  where
    split_none : In i [] ⊎ AddedAt lines i → AddedAt lines i
    split_none (inl e) = elim e [ ]
    split_none (inr a) = a

    split_some :
        {m : ℕ}
        → In i [] ⊎ (InBody m lines i ⊎ AddedAt lines i)
        → hunk_start l ≡ some m
        → AddedAt (l ∷ lines) i
    split_some (inl e) h = elim e [ ]
    split_some (inr (inl b)) h = here_hunk l _ h b
    split_some (inr (inr a)) h = later_hunk l a
step_sound (some n) l lines i f = elim (Option-cases (hunk_start l)) [
  | inl h ↦ go_none (rw (h, scan_line) at f) h
  | inr (m, h) ↦ go_some (rw (h, scan_line) at f) h
]
  where
    go_none :
        In i (body_line n (line_kind l)).1
          ⊎ (InBody (body_line n (line_kind l)).0 lines i ⊎ AddedAt lines i)
        → hunk_start l ≡ none
        → InBody n (l ∷ lines) i ⊎ AddedAt (l ∷ lines) i
    go_none (inl m) h = inl (this_line n l lines i h m)
    go_none (inr (inl b)) h = inl (later_line l h refl b)
    go_none (inr (inr a)) h = inr (later_hunk l a)

    go_some :
        {m : ℕ}
        → In i [] ⊎ (InBody m lines i ⊎ AddedAt lines i)
        → hunk_start l ≡ some m
        → InBody n (l ∷ lines) i ⊎ AddedAt (l ∷ lines) i
    go_some (inl e) h = elim e [ ]
    go_some (inr (inl b)) h = inr (here_hunk l _ h b)
    go_some (inr (inr a)) h = inr (later_hunk l a)

scan_sound : (st : Option ℕ) (i : ℕ) (lines : List Text) → In i (scan st lines) → Found st lines i
unfolding scan
scan_sound none i [] m = elim m [ ]
scan_sound (some n) i [] m = elim m [ ]
scan_sound st i (l ∷ lines) m =
    elim (In-append i (scan_line st l).1 (scan (scan_line st l).0 lines) m) [
      | inl here ↦ step_sound st l lines i (inl here)
      | inr there ↦ step_sound st l lines i (inr (scan_sound (scan_line st l).0 i lines there))
    ]

body_complete :
    (n i : ℕ) (between : List Text) (line : Text) (rest : List Text)
    → All (λ l. hunk_start l ≡ none) between
    → hunk_start line ≡ none
    → line_kind line ≡ added
    → i ≡ n + count_if (λ l. in_new (line_kind l)) between
    → In i (scan (some n) (between ++ line ∷ rest))
unfolding scan body_line
body_complete n i [] line rest hs h k e = rw (h, scan_line, k) (inl (omega arith))
body_complete n i (l ∷ between) line rest hs h k e = In-append_right i (scan_line (some n) l).1 _ (
    rw (hs.0, scan_line)
      (body_complete (body_line n (line_kind l)).0 i between line rest hs.1 h k (ground arith)))

hunk_complete :
    (st : Option ℕ) (i start : ℕ) (before : List Text) (opening : Text) (hunk : List Text)
    → hunk_start opening ≡ some start
    → In i (scan (some start) hunk)
    → In i (scan st (before ++ opening ∷ hunk))
unfolding scan
hunk_complete st i start [] opening hunk h m =
    In-append_right i (scan_line st opening).1 _ (rw (h, scan_line) m)
hunk_complete st i start (l ∷ before) opening hunk h m =
    In-append_right i (scan_line st l).1 _
      (hunk_complete (scan_line st l).0 i start before opening hunk h m)

scan-AddedAt : (lines : List Text) (i : ℕ) → In i (scan none lines) ↔ AddedAt lines i
scan-AddedAt lines i = (
  scan_sound none i lines,
  λ a. rw a.split (
      hunk_complete none i a.start a.before a.opening a.hunk a.opens (
        rw a.within.split (
          body_complete a.start i a.within.between a.within.line a.within.rest a.within.no_header
            a.within.body a.within.is_added a.within.position))),
)

-- `parse_changed_lines` returns exactly the numbers, in the new file, of the lines of the patch that a
-- hunk adds; a line that begins with +++ is a header there, neither added nor counted.
pub parse_changed_lines-AddedAt :
    (patch : Text) (i : ℕ) → In i (parse_changed_lines patch) ↔ AddedAt (splitlines patch) i
unfolding parse_changed_lines
parse_changed_lines-AddedAt patch i = scan-AddedAt (splitlines patch) i
