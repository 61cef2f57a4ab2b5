-- ===== src/Robomp/Pragmas.antt =====
-- src/robomp/pragmas.py: slash commands in a maintainer's comment.
pub mod Body
pub mod Lookup
pub mod Print
use oh_my_robot.Prelude.{
  ℕ, Text, codes, text_eq, lower, strip, strip_by, starts_with, Bool, true, false, not, ◌&&◌, ◌||◌,
  Option, none, some, List, [], ◌∷◌, ◌++◌, leb, ◌==◌, if◌then◌else◌, any, all, is_none, is_digit,
  contains, split_words, partition_at, after_last, lines_with_ends, concat,
}

-- `[a-z]` under `re.IGNORECASE`: the ASCII letters, and the four others that fold to them.
unfoldable pub is_key_letter : ℕ → Bool
is_key_letter c =
    (leb b'a' c && leb c b'z')
    || (leb b'A' c && leb c b'Z')
    || c == 0x130
    || c == 0x131
    || c == 0x17f
    || c == 0x212a

unfoldable pub is_key_code : ℕ → Bool
unfolding is_key_letter is_digit
is_key_code c = is_key_letter c || is_digit c || c == b'_' || c == b'-'

-- `_KEY_RE.match`, of a text with no line break.
unfoldable pub is_key : Text → Bool
unfolding is_key_code
is_key [] = false
is_key (c ∷ s) = is_key_letter c && all is_key_code s

abbrev pub Pragma : Type 0
Pragma = Text × Text

abbrev pub is_empty_text : Text → Bool
is_empty_text [] = true
is_empty_text (c ∷ s) = false

-- `tok.startswith("/")` and `len(tok) >= 2`
unfoldable pub is_command : Text → Bool
is_command [] = false
is_command (c ∷ []) = false
is_command (c ∷ d ∷ s) = c == b'/'

abbrev pub tail : Text → Text
tail [] = []
tail (c ∷ s) = s

abbrev pub has_equals : Text → Bool
has_equals tok = any (λ c. c == b'=') tok

-- The form `/key=value`.
unfoldable pub equals_pair : Text → Option Pragma
unfolding is_key partition_at
equals_pair tok =
    let (key, value) = partition_at b'=' (tail tok) in
    if not (is_key key) || is_empty_text value then none else some (lower key, value)

-- The form `/key value`.
unfoldable pub spaced_pair : Text → Text → Option Pragma
unfolding is_key starts_with
spaced_pair tok next =
    if not (is_key (tail tok))
    then none
    else if starts_with next (codes "/")
    then none
    else some (lower (tail tok), next)

abbrev pub with_pair : Option Pragma → Option (List Pragma) → Option (List Pragma)
with_pair none pairs = none
with_pair (some p) none = none
with_pair (some p) (some pairs) = some (p ∷ pairs)

-- The loop over the tokens; the second form takes two.
unfoldable pub parse_tokens : List Text → Option (List Pragma)
unfolding is_command equals_pair spaced_pair
parse_tokens [] = some []
parse_tokens (tok ∷ []) =
    if not (is_command tok)
    then none
    else if has_equals tok
    then with_pair (equals_pair tok) (some [])
    else none
parse_tokens (tok ∷ next ∷ tokens) =
    let after_one = parse_tokens (next ∷ tokens) in
    let after_two = parse_tokens tokens in
    if not (is_command tok)
    then none
    else if has_equals tok
    then with_pair (equals_pair tok) after_one
    else with_pair (spaced_pair tok next) after_two

abbrev pub or_nothing : Option (List Pragma) → Option (List Pragma)
or_nothing none = none
or_nothing (some []) = none
or_nothing (some (p ∷ pairs)) = some (p ∷ pairs)

unfoldable pub parse_command_line : Text → Option (List Pragma)
unfolding strip parse_tokens split_words starts_with
parse_command_line line =
    let stripped = strip line in
    if is_empty_text stripped || not (starts_with stripped (codes "/"))
    then none
    else or_nothing (parse_tokens (split_words stripped))

abbrev pub is_crlf : ℕ → Bool
is_crlf c = c == 10 || c == 13

-- `line.rstrip("\r\n")`
unfoldable pub rstrip_by : (ℕ → Bool) → Text → Text
rstrip_by p [] = []
rstrip_by p (c ∷ s) = let rest = rstrip_by p s in if p c && is_empty_text rest then [] else c ∷ rest

unfoldable pub commands_of : Text → Option (List Pragma)
unfolding parse_command_line rstrip_by
commands_of line = parse_command_line (rstrip_by is_crlf line)

-- The lines kept and the pragmas found.
abbrev pub Found : Type 0
Found = List Text × List Pragma

abbrev pub add_line : Text → Option (List Pragma) → Found → Found
add_line line none (kept, found) = (line ∷ kept, found)
add_line line (some commands) (kept, found) = (kept, commands ++ found)

unfoldable pub scan_lines : List Text → Found
unfolding commands_of
scan_lines [] = ([], [])
scan_lines (line ∷ lines) = add_line line (commands_of line) (scan_lines lines)

unfoldable pub parse_pragmas : Text → Text × List Pragma
unfolding scan_lines lines_with_ends strip_by
parse_pragmas [] = ([], [])
parse_pragmas (c ∷ s) =
    let (kept, found) = scan_lines (lines_with_ends (c ∷ s)) in
    (strip_by is_crlf (concat kept), found)

abbrev value_from : Text → Option Text → List Pragma → Option Text
value_from target result [] = result
value_from target result ((k, v) ∷ pragmas) =
    value_from target (if text_eq k target then some v else result) pragmas

unfoldable pub pragma_value : List Pragma → Text → Option Text
unfolding lower
pragma_value pragmas key = value_from (lower key) none pragmas

abbrev pub or_text : Option Text → Option Text → Option Text
or_text none other = other
or_text (some []) other = other
or_text (some (c ∷ s)) other = some (c ∷ s)

abbrev pub short_name : Text → Text
short_name = after_last b'/'

-- `if best is None and test: best = model`
abbrev pub keep_first : Option Text → Bool → Text → Option Text
keep_first none hit model = if hit then some model else none
keep_first (some best) hit model = some best

-- The loop over the pool.
unfoldable pub match_model : Text → Option Text → Option Text → List Text → Option Text
unfolding lower contains after_last
match_model needle exact partial [] = or_text exact partial
match_model needle exact partial (model ∷ pool) =
    let rest =
      match_model needle (keep_first exact (text_eq (short_name (lower model)) needle) model)
        (keep_first partial (contains needle (lower model)) model) pool in
    if text_eq (lower model) needle then some model else rest

unfoldable pub resolve_model_alias : Text → List Text → Option Text
unfolding match_model strip lower
resolve_model_alias alias pool =
    let needle = lower (strip alias) in
    if is_empty_text needle then none else match_model needle none none pool

pub data ThinkingLevel : Type 0 where
  off low medium high xhigh maximal : ThinkingLevel

abbrev thinking_aliases : List (Text × ThinkingLevel)
thinking_aliases =
    (codes "off", off)
    ∷ (codes "none", off)
    ∷ (codes "no", off)
    ∷ (codes "lo", low)
    ∷ (codes "low", low)
    ∷ (codes "med", medium)
    ∷ (codes "medium", medium)
    ∷ (codes "hi", high)
    ∷ (codes "high", high)
    ∷ (codes "xhi", xhigh)
    ∷ (codes "xhigh", xhigh)
    ∷ (codes "max", maximal)
    ∷ []

abbrev look_up : Text → List (Text × ThinkingLevel) → Option ThinkingLevel
look_up key [] = none
look_up key ((k, level) ∷ table) =
    let rest = look_up key table in if text_eq k key then some level else rest

unfoldable pub resolve_thinking_level : Text → Option ThinkingLevel
unfolding strip lower text_eq
resolve_thinking_level value = look_up (lower (strip value)) thinking_aliases
