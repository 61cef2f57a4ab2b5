-- ===== src/Prelude/Words.antt =====
-- `str.split`, `in`, `str.partition`, `str.rsplit` and `str.splitlines(keepends=True)`.
use Prim.Native.Nat.{ℕ}
use mathlib.Core.Bool.{Bool, true, false, ◌&&◌, ◌||◌}
use mathlib.Core.List.{List, [], ◌∷◌, ◌++◌, reverse}
use oh_my_robot.Prelude.Tests.{◌==◌, if◌then◌else◌}
use oh_my_robot.Prelude.Lists.{any}
use oh_my_robot.Prelude.Texts.{Text, is_space, starts_with}
use oh_my_robot.Prelude.Encoding.{is_line_break}

-- A word read so far, backwards, put before the words that follow.
abbrev pub close_word : Text → List Text → List Text
close_word [] words = words
close_word (c ∷ word) words = reverse (c ∷ word) ∷ words

unfoldable pub words_from : Text → Text → List Text
unfolding is_space
words_from word [] = close_word word []
words_from word (c ∷ s) =
    let ended = words_from [] s in
    let longer = words_from (c ∷ word) s in if is_space c then close_word word ended else longer

-- `s.split()`
unfoldable pub split_words : Text → List Text
unfolding words_from
split_words = words_from []

-- `needle in s`
unfoldable pub contains : Text → Text → Bool
unfolding starts_with
contains needle [] = starts_with [] needle
contains needle (c ∷ s) = starts_with (c ∷ s) needle || contains needle s

-- `s.partition(c)`, without the separator.
unfoldable pub partition_at : ℕ → Text → Text × Text
partition_at c [] = ([], [])
partition_at c (x ∷ s) =
    let (before, after) = partition_at c s in if x == c then ([], s) else (x ∷ before, after)

-- `s.rsplit(c, 1)[-1]`
unfoldable pub after_last : ℕ → Text → Text
after_last c [] = []
after_last c (x ∷ s) =
    let rest = after_last c s in if any (λ y. y == c) s then rest else if x == c then s else x ∷ s

-- The line read so far, backwards; after "\r" it waits for a "\n" that belongs to it.
abbrev fresh_line : Bool → Text → Text
fresh_line true line = []
fresh_line false line = line

abbrev waiting : Bool → Text → List Text
waiting true line = reverse line ∷ []
waiting false line = []

unfoldable pub keep_from : Bool → Text → Text → List Text
unfolding is_line_break
keep_from after_cr line [] = close_word line []
keep_from after_cr line (c ∷ s) =
    let held = keep_from true (c ∷ fresh_line after_cr line) s in
    let ended = keep_from false [] s in
    let inside = keep_from false (c ∷ fresh_line after_cr line) s in
    if c == 10 && after_cr
    then reverse (c ∷ line) ∷ ended
    else waiting after_cr line
      ++ (if c == 13
          then held
          else if is_line_break c
          then reverse (c ∷ fresh_line after_cr line) ∷ ended
          else inside)

-- `s.splitlines(keepends=True)`
unfoldable pub lines_with_ends : Text → List Text
unfolding keep_from
lines_with_ends = keep_from false []

-- `"".join(parts)`
abbrev pub concat : List Text → Text
concat [] = []
concat (s ∷ parts) = s ++ concat parts
