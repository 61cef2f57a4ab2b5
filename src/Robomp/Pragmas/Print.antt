-- ===== src/Robomp/Pragmas/Print.antt =====
-- src/robomp/pragmas.py: what a printed command line parses to.
use oh_my_robot.Prelude.{
  ℕ, Text, codes, lower, starts_with, is_space, is_digit, Bool, true, false, some, List, [], ◌∷◌,
  ◌++◌, map, ◌≡◌, refl, ap, ◌∙◌, arith, ◌==◌, any, all, any-append, All, All-append, partition_at,
  join_words, is_solid, IsWord, split_words-join_words, strip-join_words,
}
use oh_my_robot.Robomp.Pragmas.{
  Pragma, is_key_letter, is_key_code, is_key, is_empty_text, is_command, has_equals, equals_pair,
  spaced_pair, with_pair, parse_tokens, or_nothing, parse_command_line,
}

-- A command as a maintainer types it.
pub data Command : Type 0 where
  spaced : Text → Text → Command
  equals : Text → Text → Command

abbrev pub tokens_of : Command → List Text
tokens_of (spaced key value) = (b'/' ∷ key) ∷ value ∷ []
tokens_of (equals key value) = (b'/' ∷ key ++ b'=' ∷ value) ∷ []

abbrev pub all_tokens : List Command → List Text
all_tokens [] = []
all_tokens (c ∷ commands) = tokens_of c ++ all_tokens commands

-- The line with the commands, one blank between the words.
unfoldable pub print_commands : List Command → Text
unfolding join_words
print_commands commands = join_words (all_tokens commands)

abbrev pub pragma_of : Command → Pragma
pragma_of (spaced key value) = (lower key, value)
pragma_of (equals key value) = (lower key, value)

-- The key is a key and the value a word, which after a blank does not look like a command.
abbrev pub IsTyped : Command → Type 0
IsTyped (spaced key value) =
    (is_key key ≡ true) × IsWord value × (starts_with value (codes "/") ≡ false)
IsTyped (equals key value) = (is_key key ≡ true) × IsWord value

key_code-solid : (c : ℕ) → is_key_code c ≡ true → is_solid c ≡ true
unfolding is_key_code is_key_letter is_digit is_space
key_code-solid c h = ground arith

key_codes-solid : (s : Text) → all is_key_code s ≡ true → all is_solid s ≡ true
key_codes-solid [] h = refl
key_codes-solid (c ∷ s) h = ground (arith, key_code-solid c, key_codes-solid s)

key-codes : (s : Text) → is_key s ≡ true → all is_key_code s ≡ true
unfolding is_key is_key_code
key-codes [] h = absurd (ground arith)
key-codes (c ∷ s) h = ground arith

abbrev equals_sign : ℕ → Bool
equals_sign c = c == b'='

key_codes-plain : (s : Text) → all is_key_code s ≡ true → any equals_sign s ≡ false
unfolding is_key_code is_key_letter is_digit
key_codes-plain [] h = refl
key_codes-plain (c ∷ s) h = ground (arith, key_codes-plain s)

partition_at-plain :
    (key value : Text)
    → any equals_sign key ≡ false
    → partition_at b'=' (key ++ b'=' ∷ value) ≡ (key, value)
unfolding partition_at
partition_at-plain [] value h = refl
partition_at-plain (c ∷ key) value h =
    let rest = partition_at-plain key value (ground arith) in
    let other : (c == b'=') ≡ false = ground arith in rw other (ap (λ x. (c ∷ x.0, x.1)) rest)

key-is_command : (key rest : Text) → is_key key ≡ true → is_command (b'/' ∷ key ++ rest) ≡ true
unfolding is_key is_command
key-is_command [] rest h = absurd (ground arith)
key-is_command (c ∷ key) rest h = refl

word-full : (s : Text) → IsWord s → is_empty_text s ≡ false
word-full [] w = absurd (ground (arith, w.full))
word-full (c ∷ s) w = refl

equals_pair-typed :
    (key value : Text)
    → is_key key ≡ true
    → IsWord value
    → equals_pair (b'/' ∷ key ++ b'=' ∷ value) ≡ some (lower key, value)
unfolding equals_pair
equals_pair-typed key value k w =
    rw (partition_at-plain key value (key_codes-plain key (key-codes key k)))
      (rw k (rw (word-full value w) refl))

has_equals-typed : (key value : Text) → has_equals (b'/' ∷ key ++ b'=' ∷ value) ≡ true
has_equals-typed key value = ground (arith, any-append equals_sign key (b'=' ∷ value))

parse_tokens-equals :
    (key value : Text) (tokens : List Text)
    → is_key key ≡ true
    → IsWord value
    → parse_tokens ((b'/' ∷ key ++ b'=' ∷ value) ∷ tokens)
      ≡ with_pair (some (lower key, value)) (parse_tokens tokens)
unfolding parse_tokens
parse_tokens-equals key value [] k w =
    rw (key-is_command key (b'=' ∷ value) k)
      (rw (has_equals-typed key value) (rw (equals_pair-typed key value k w) refl))
parse_tokens-equals key value (next ∷ tokens) k w =
    rw (key-is_command key (b'=' ∷ value) k)
      (rw (has_equals-typed key value) (rw (equals_pair-typed key value k w) refl))

spaced_pair-typed :
    (key value : Text)
    → is_key key ≡ true
    → starts_with value (codes "/") ≡ false
    → spaced_pair (b'/' ∷ key) value ≡ some (lower key, value)
unfolding spaced_pair
spaced_pair-typed key value k f = rw k (rw f refl)

key-is_command' : (key : Text) → is_key key ≡ true → is_command (b'/' ∷ key) ≡ true
unfolding is_key is_command
key-is_command' [] h = absurd (ground arith)
key-is_command' (c ∷ key) h = refl

parse_tokens-spaced :
    (key value : Text) (tokens : List Text)
    → is_key key ≡ true
    → starts_with value (codes "/") ≡ false
    → parse_tokens ((b'/' ∷ key) ∷ value ∷ tokens)
      ≡ with_pair (some (lower key, value)) (parse_tokens tokens)
unfolding parse_tokens
parse_tokens-spaced key value tokens k f =
    let plain : any equals_sign key ≡ false = key_codes-plain key (key-codes key k) in
    rw (key-is_command' key k) (rw plain (rw (spaced_pair-typed key value k f) refl))

parse_tokens-typed :
    (commands : List Command)
    → All IsTyped commands
    → parse_tokens (all_tokens commands) ≡ some (map pragma_of commands)
unfolding parse_tokens
parse_tokens-typed [] h = refl
parse_tokens-typed (spaced key value ∷ commands) ((k, _, f), hs) =
    parse_tokens-spaced key value (all_tokens commands) k f
    ∙ ap (with_pair (some (lower key, value))) (parse_tokens-typed commands hs)
parse_tokens-typed (equals key value ∷ commands) ((k, w), hs) =
    parse_tokens-equals key value (all_tokens commands) k w
    ∙ ap (with_pair (some (lower key, value))) (parse_tokens-typed commands hs)

all-append : (p : ℕ → Bool) (s t : Text) → all p s ≡ true → all p t ≡ true → all p (s ++ t) ≡ true
all-append p [] t h k = k
all-append p (c ∷ s) t h k = ground (arith, all-append p s t)

slash-IsWord : (s : Text) → all is_solid s ≡ true → IsWord (b'/' ∷ s)
unfolding is_space
slash-IsWord s h = record { full = refl; solid = h }

tokens-IsWord : (c : Command) → IsTyped c → All IsWord (tokens_of c)
unfolding is_space
tokens-IsWord (spaced key value) (k, w, f) =
    (slash-IsWord key (key_codes-solid key (key-codes key k)), (w, tt))
tokens-IsWord (equals key value) (k, w) = (
  slash-IsWord (key ++ b'=' ∷ value)
      (all-append is_solid key (b'=' ∷ value) (key_codes-solid key (key-codes key k)) w.solid),
  tt,
)

pub all_tokens-IsWord :
    (commands : List Command) → All IsTyped commands → All IsWord (all_tokens commands)
all_tokens-IsWord [] h = tt
all_tokens-IsWord (c ∷ commands) (h, hs) =
    All-append IsWord (tokens_of c) (all_tokens commands) (tokens-IsWord c h)
      (all_tokens-IsWord commands hs)

slash_line :
    (w : Text) (words : List Text)
    → (is_empty_text (join_words ((b'/' ∷ w) ∷ words)) ≡ false)
      × (starts_with (join_words ((b'/' ∷ w) ∷ words)) (codes "/") ≡ true)
unfolding join_words starts_with
slash_line w [] = (refl, refl)
slash_line w (v ∷ words) = (refl, refl)

-- A line that starts with a slash and whose words are these.
parse_line :
    (w : Text) (words : List Text)
    → All IsWord ((b'/' ∷ w) ∷ words)
    → parse_command_line (join_words ((b'/' ∷ w) ∷ words))
      ≡ or_nothing (parse_tokens ((b'/' ∷ w) ∷ words))
unfolding parse_command_line
parse_line w words h = rw (strip-join_words (b'/' ∷ w) words h) (
    rw (slash_line w words).0 (
      rw (slash_line w words).1
        (ap (λ x. or_nothing (parse_tokens x)) (split_words-join_words ((b'/' ∷ w) ∷ words) h))))

-- A line of one or more commands, each typed as `/key value` or `/key=value` with a key of the
-- pattern, a value that is a word, and after a blank no value that starts with a slash, parses to their
-- pairs in order, with the keys in lower case.
pub parse_command_line-print_commands :
    (c : Command) (commands : List Command)
    → All IsTyped (c ∷ commands)
    → parse_command_line (print_commands (c ∷ commands)) ≡ some (map pragma_of (c ∷ commands))
unfolding print_commands
parse_command_line-print_commands (spaced key value) commands h =
    parse_line key (value ∷ all_tokens commands) (all_tokens-IsWord (spaced key value ∷ commands) h)
    ∙ ap or_nothing (parse_tokens-typed (spaced key value ∷ commands) h)
parse_command_line-print_commands (equals key value) commands h =
    parse_line (key ++ b'=' ∷ value) (all_tokens commands)
      (all_tokens-IsWord (equals key value ∷ commands) h)
    ∙ ap or_nothing (parse_tokens-typed (equals key value ∷ commands) h)
