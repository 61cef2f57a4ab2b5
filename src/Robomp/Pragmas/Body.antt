-- ===== src/Robomp/Pragmas/Body.antt =====
-- src/robomp/pragmas.py: what is left of a comment's body when its command lines are taken out.
use mathlib.Core.List.{
  reverse, reverse_aux, reverse-cons, reverse-reverse, append_assoc, append-nil,
}
use oh_my_robot.Prelude.{
  ℕ, Text, strip_by, is_space, is_line_break, Bool, true, false, not, none, some, List, [], ◌∷◌,
  ◌++◌, map, ◌≡◌, refl, sym, ap, ◌∙◌, arith, all, All, join_words, is_solid, IsWord,
  lines_with_ends, keep_from, close_word, concat,
}
use oh_my_robot.Robomp.Pragmas.{
  Pragma, is_crlf, rstrip_by, commands_of, Found, add_line, scan_lines, parse_pragmas,
  parse_command_line,
}
use oh_my_robot.Robomp.Pragmas.Print.{
  Command, all_tokens, print_commands, pragma_of, IsTyped, all_tokens-IsWord,
  parse_command_line-print_commands,
}

abbrev is_inner : ℕ → Bool
is_inner c = not (is_line_break c)

concat-close_word : (line : Text) → concat (close_word line []) ≡ reverse line
concat-close_word [] = refl
concat-close_word (c ∷ line) = append-nil (reverse (c ∷ line))

reverse-cons-append : (c : ℕ) (line s : Text) → reverse (c ∷ line) ++ s ≡ reverse line ++ c ∷ s
reverse-cons-append c line s =
    ap (λ x. x ++ s) (reverse-cons c line) ∙ append_assoc (reverse line) (c ∷ []) s

-- The lines with their ends are the text.
concat-keep_from :
    (after_cr : Bool) (line s : Text) → concat (keep_from after_cr line s) ≡ reverse line ++ s
unfolding keep_from
concat-keep_from after_cr line [] = concat-close_word line ∙ sym (append-nil (reverse line))
concat-keep_from true line (c ∷ s) = ground (
  arith,
  concat-keep_from true (c ∷ []) s,
  concat-keep_from false (c ∷ []) s,
  concat-keep_from false [] s,
  reverse-cons-append c line s,
)
concat-keep_from false line (c ∷ s) = ground (
  arith,
  concat-keep_from true (c ∷ line) s,
  concat-keep_from false (c ∷ line) s,
  concat-keep_from false [] s,
  reverse-cons-append c line s,
)

pub concat-lines_with_ends : (s : Text) → concat (lines_with_ends s) ≡ s
unfolding lines_with_ends
concat-lines_with_ends s = concat-keep_from false [] s

keep_from-inner :
    (line s rest : Text)
    → all is_inner s ≡ true
    → keep_from false line (s ++ 10 ∷ rest)
      ≡ reverse (10 ∷ reverse_aux s line) ∷ keep_from false [] rest
unfolding keep_from is_line_break
keep_from-inner line [] rest h = refl
keep_from-inner line (c ∷ s) rest h = ground (arith, keep_from-inner (c ∷ line) s rest)

-- A line without line breaks, and its newline, is the first line.
lines_with_ends-line :
    (line rest : Text)
    → all is_inner line ≡ true
    → lines_with_ends (line ++ 10 ∷ rest) ≡ (line ++ 10 ∷ []) ∷ lines_with_ends rest
unfolding lines_with_ends
lines_with_ends-line line rest h =
    keep_from-inner [] line rest h
    ∙ ap (λ x. x ∷ keep_from false [] rest)
        (reverse-cons 10 (reverse line) ∙ ap (λ x. x ++ 10 ∷ []) (reverse-reverse line))

rstrip_by-newline :
    (line : Text) → all is_inner line ≡ true → rstrip_by is_crlf (line ++ 10 ∷ []) ≡ line
unfolding rstrip_by is_line_break
rstrip_by-newline [] h = refl
rstrip_by-newline (c ∷ line) h = ground (arith, rstrip_by-newline line)

line_break-space : (c : ℕ) → is_line_break c ≡ true → is_space c ≡ true
unfolding is_space is_line_break
line_break-space c h = ground arith

solid-inner : (s : Text) → all is_solid s ≡ true → all is_inner s ≡ true
solid-inner [] h = refl
solid-inner (c ∷ s) h = ground (arith, line_break-space c, solid-inner s)

all-inner-append :
    (s t : Text) → all is_inner s ≡ true → all is_inner t ≡ true → all is_inner (s ++ t) ≡ true
all-inner-append [] t h k = k
all-inner-append (c ∷ s) t h k = ground (arith, all-inner-append s t)

join_words-inner : (words : List Text) → All IsWord words → all is_inner (join_words words) ≡ true
unfolding join_words is_line_break
join_words-inner [] h = refl
join_words-inner (w ∷ []) (h, _) = solid-inner w h.solid
join_words-inner (w ∷ v ∷ words) (h, hs) =
    all-inner-append w (b' ' ∷ join_words (v ∷ words)) (solid-inner w h.solid)
      (ground (arith, join_words-inner (v ∷ words) hs))

abbrev pub IsProse : Text → Type 0
IsProse line = commands_of line ≡ none

scan_lines-prose : (lines : List Text) → All IsProse lines → scan_lines lines ≡ (lines, [])
unfolding scan_lines
scan_lines-prose [] h = refl
scan_lines-prose (line ∷ lines) (h, hs) = rw h (rw (scan_lines-prose lines hs) refl)

abbrev cleaned : Found → Text × List Pragma
cleaned (kept, found) = (strip_by is_crlf (concat kept), found)

parse_pragmas-scan : (s : Text) → parse_pragmas s ≡ cleaned (scan_lines (lines_with_ends s))
unfolding parse_pragmas
parse_pragmas-scan [] = refl
parse_pragmas-scan (c ∷ s) = refl

scan-prose :
    (prose : Text)
    → All IsProse (lines_with_ends prose)
    → scan_lines (lines_with_ends prose) ≡ (lines_with_ends prose, [])
scan-prose prose h = scan_lines-prose (lines_with_ends prose) h

-- A body in which no line is a command line gives no pragma, and comes back without the line breaks
-- at its ends and otherwise as it was.
pub parse_pragmas-prose :
    (prose : Text)
    → All IsProse (lines_with_ends prose)
    → parse_pragmas prose ≡ (strip_by is_crlf prose, [])
parse_pragmas-prose prose h =
    parse_pragmas-scan prose
    ∙ ap cleaned (scan-prose prose h)
    ∙ ap (λ x. (strip_by is_crlf x, [])) (concat-lines_with_ends prose)

print_commands-inner :
    (commands : List Command) → All IsTyped commands → all is_inner (print_commands commands) ≡ true
unfolding print_commands
print_commands-inner commands h =
    join_words-inner (all_tokens commands) (all_tokens-IsWord commands h)

commands_of-print_commands :
    (c : Command) (commands : List Command)
    → All IsTyped (c ∷ commands)
    → commands_of (print_commands (c ∷ commands) ++ 10 ∷ []) ≡ some (map pragma_of (c ∷ commands))
unfolding commands_of
commands_of-print_commands c commands h =
    ap parse_command_line
      (rstrip_by-newline (print_commands (c ∷ commands)) (print_commands-inner (c ∷ commands) h))
    ∙ parse_command_line-print_commands c commands h

-- A command line before a text without command lines.
scan_lines-command :
    (line prose : Text) (pairs : List Pragma)
    → commands_of line ≡ some pairs
    → All IsProse (lines_with_ends prose)
    → scan_lines (line ∷ lines_with_ends prose) ≡ (lines_with_ends prose, pairs)
unfolding scan_lines
scan_lines-command line prose pairs e h =
    ap (λ o. add_line line o (scan_lines (lines_with_ends prose))) e
    ∙ ap (add_line line (some pairs)) (scan-prose prose h)
    ∙ ap (λ x. (lines_with_ends prose, x)) (append-nil pairs)

-- A body that is a line of commands, a newline and a text in which no line is a command line gives the
-- pairs of the commands in order, with the keys in lower case, and the text without the line breaks
-- at its ends.
pub parse_pragmas-print_commands :
    (c : Command) (commands : List Command) (prose : Text)
    → All IsTyped (c ∷ commands)
    → All IsProse (lines_with_ends prose)
    → parse_pragmas (print_commands (c ∷ commands) ++ 10 ∷ prose)
      ≡ (strip_by is_crlf prose, map pragma_of (c ∷ commands))
parse_pragmas-print_commands c commands prose h hs =
    let line = print_commands (c ∷ commands) in
    parse_pragmas-scan (line ++ 10 ∷ prose)
    ∙ ap (λ l. cleaned (scan_lines l))
        (lines_with_ends-line line prose (print_commands-inner (c ∷ commands) h))
    ∙ ap cleaned (
        scan_lines-command (line ++ 10 ∷ []) prose (map pragma_of (c ∷ commands))
          (commands_of-print_commands c commands h) hs)
    ∙ ap (λ x. (strip_by is_crlf x, map pragma_of (c ∷ commands))) (concat-lines_with_ends prose)
