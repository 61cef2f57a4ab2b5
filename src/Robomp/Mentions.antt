-- ===== src/Robomp/Mentions.antt =====
-- src/robomp/github_events.py, `extract_mention`: the bot's mentions, found by the pattern and cut out.
use oh_my_robot.Prelude.{
  ℕ, zero, suc, ◌+◌, Text, codes, lower, strip, Bool, true, false, not, ◌&&◌, ◌||◌, Option, none,
  some, [], ◌∷◌, length, ◌==◌, if◌then◌else◌,
}
use oh_my_robot.Robomp.Accounts.{normalize_bot_login, is_blank_text}
use oh_my_robot.Robomp.Pragmas.{is_key_code}

-- `[A-Za-z0-9_-]`; keys have the same code points.
unfoldable pub is_login_code : ℕ → Bool
unfolding is_key_code
is_login_code c = is_key_code c

-- The rest of a text after a prefix whose letters may have either case.
unfoldable pub after_prefix : Text → Text → Option Text
unfolding lower
after_prefix [] s = some s
after_prefix (p ∷ prefix) [] = none
after_prefix (p ∷ prefix) (c ∷ s) =
    let rest = after_prefix prefix s in
    if (elim (lower (c ∷ [])) [ [] ↦ c | x ∷ _ ↦ x ]) == p then rest else none

-- `(?![A-Za-z0-9_-])`
abbrev ends_here : Text → Bool
ends_here [] = true
ends_here (c ∷ s) = not (is_login_code c)

-- `(?![A-Za-z0-9_\[-])`
abbrev ends_bare : Text → Bool
ends_bare [] = true
ends_bare (c ∷ s) = not (is_login_code c) && not (c == b'[')

abbrev suffixed : ℕ → Text → Option Text → Option ℕ
suffixed n bare none = if ends_bare bare then some n else none
suffixed n bare (some rest) =
    if ends_here rest then some (n + 5) else if ends_bare bare then some n else none

abbrev mention_end : ℕ → Option Text → Option ℕ
mention_end n none = none
mention_end n (some rest) = suffixed n rest (after_prefix (codes "[bot]") rest)

-- The length of a mention of the login, in lower case, that starts here.
unfoldable pub mention_length : Text → Text → Option ℕ
unfolding after_prefix is_login_code
mention_length login s = mention_end (length login + 1) (after_prefix (b'@' ∷ login) s)

-- The texts without the mentions, and whether there was one: `inside` tells whether the code point
-- before can be part of a login, and `skip` is what is left of a mention being cut.
unfoldable pub cut_mentions : Text → Bool → ℕ → Text → Bool × Text
unfolding mention_length is_login_code
cut_mentions login inside skip [] = (false, [])
cut_mentions login inside (suc skip) (c ∷ s) = cut_mentions login (is_login_code c) skip s
cut_mentions login inside zero (c ∷ s) =
    let kept = cut_mentions login (is_login_code c) 0 s in
    elim (if inside then none else mention_length login (c ∷ s)) [
      | none ↦ (kept.0, c ∷ kept.1)
      | some zero ↦ (kept.0, c ∷ kept.1)
      | some (suc n) ↦ (true, (cut_mentions login (is_login_code c) n s).1)
    ]

abbrev is_tab_or_blank : ℕ → Bool
is_tab_or_blank c = c == b' ' || c == b'\t'

-- `re.sub(r"[ \t]+", " ", s)`
unfoldable pub collapse_blanks : Bool → Text → Text
collapse_blanks after [] = []
collapse_blanks after (c ∷ s) =
    let blank = collapse_blanks true s in
    let other = collapse_blanks false s in
    if is_tab_or_blank c then (if after then blank else b' ' ∷ blank) else c ∷ other

-- `re.sub(r"\n[ \t]+", "\n", s)`
unfoldable pub trim_line_starts : Bool → Text → Text
trim_line_starts after [] = []
trim_line_starts after (c ∷ s) =
    let start = trim_line_starts true s in
    let other = trim_line_starts false s in
    if is_tab_or_blank c && after then start else if c == 10 then c ∷ start else c ∷ other

abbrev mention_of : Bool × Text → Option Text
mention_of (found, s) =
    if found then some (strip (trim_line_starts false (collapse_blanks false s))) else none

unfoldable pub extract_mention : Text → Text → Option Text
unfolding normalize_bot_login cut_mentions collapse_blanks trim_line_starts strip
extract_mention body bot_login =
    let login = normalize_bot_login bot_login in
    if is_blank_text body || is_blank_text login
    then none
    else mention_of (cut_mentions login false 0 body)
