-- ===== src/Prelude/Split.antt =====
-- Words joined by blanks, stripped and split again; lines with their ends.
use Prim.Native.Nat.{ℕ}
use mathlib.Core.Path.{◌≡◌, refl, sym, ap, subst, ◌∙◌}
use mathlib.Core.Bool.{Bool, true, false, not}
use mathlib.Core.List.{
  List, [], ◌∷◌, ◌++◌, reverse, reverse_aux, reverse-append, reverse-reverse, append-nil,
}
use native.Mathlib.Omega.{arith}
use oh_my_robot.Prelude.Lists.{all, All}
use oh_my_robot.Prelude.Texts.{Text, is_space, strip, strip_by, drop_while}
use oh_my_robot.Prelude.Words.{close_word, words_from, split_words}

abbrev pub is_solid : ℕ → Bool
is_solid c = not (is_space c)

-- The text starts with a code point that is not white space.
abbrev pub begins : Text → Bool
begins [] = false
begins (c ∷ s) = is_solid c

-- A text that `split` can return: not empty, and without white space.
pub record IsWord (s : Text) : Type 0 where
  pub full : begins s ≡ true
  pub solid : all is_solid s ≡ true

-- " ".join(words)
unfoldable pub join_words : List Text → Text
join_words [] = []
join_words (w ∷ []) = w
join_words (w ∷ v ∷ words) = w ++ b' ' ∷ join_words (v ∷ words)

words_from-word :
    (word s rest : Text)
    → all is_solid s ≡ true
    → words_from word (s ++ rest) ≡ words_from (reverse_aux s word) rest
unfolding words_from
words_from-word word [] rest h = refl
words_from-word word (c ∷ s) rest h =
    let solid : is_space c ≡ false = ground arith in
    rw solid (words_from-word (c ∷ word) s rest (ground arith))

begins-append : (s t : Text) → begins s ≡ true → begins (s ++ t) ≡ true
begins-append [] t h = absurd (ground arith)
begins-append (c ∷ s) t h = h

all-reverse_aux :
    (p : ℕ → Bool) (s t : Text) → all p s ≡ true → all p t ≡ true → all p (reverse_aux s t) ≡ true
all-reverse_aux p [] t h k = k
all-reverse_aux p (c ∷ s) t h k = all-reverse_aux p s (c ∷ t) (ground arith) (ground arith)

reverse_aux-begins :
    (c : ℕ) (s t : Text)
    → all is_solid s ≡ true
    → is_solid c ≡ true
    → begins (reverse_aux s (c ∷ t)) ≡ true
reverse_aux-begins c [] t h k = k
reverse_aux-begins c (d ∷ s) t h k = reverse_aux-begins d s (c ∷ t) (ground arith) (ground arith)

reverse-begins : (s : Text) → IsWord s → begins (reverse s) ≡ true
reverse-begins [] w = absurd (ground (arith, w.full))
reverse-begins (c ∷ s) w = reverse_aux-begins c s [] (ground (arith, w.solid)) w.full

close_word-begins :
    (word : Text) (words : List Text)
    → begins word ≡ true
    → close_word word words ≡ reverse word ∷ words
close_word-begins [] words h = absurd (ground arith)
close_word-begins (c ∷ s) words h = refl

close_word-reverse :
    (s : Text) (words : List Text) → IsWord s → close_word (reverse s) words ≡ s ∷ words
close_word-reverse s words w =
    close_word-begins (reverse s) words (reverse-begins s w)
    ∙ ap (λ x. x ∷ words) (reverse-reverse s)

pub split_words-join_words :
    (words : List Text) → All IsWord words → split_words (join_words words) ≡ words
unfolding split_words words_from join_words is_space
split_words-join_words [] h = refl
split_words-join_words (w ∷ []) (h, _) =
    ap (words_from []) (sym (append-nil w))
    ∙ words_from-word [] w [] h.solid
    ∙ close_word-reverse w [] h
split_words-join_words (w ∷ v ∷ words) (h, hs) =
    words_from-word [] w (b' ' ∷ join_words (v ∷ words)) h.solid
    ∙ close_word-reverse w (split_words (join_words (v ∷ words))) h
    ∙ ap (◌∷◌ w) (split_words-join_words (v ∷ words) hs)

join_words-begins :
    (w : Text) (words : List Text) → IsWord w → begins (join_words (w ∷ words)) ≡ true
unfolding join_words
join_words-begins w [] h = h.full
join_words-begins w (v ∷ words) h = begins-append w (b' ' ∷ join_words (v ∷ words)) h.full

reverse-begins-append : (s t : Text) → begins (reverse t) ≡ true → begins (reverse (s ++ t)) ≡ true
reverse-begins-append s t h =
    subst (λ x. begins x ≡ true) (sym (reverse-append s t))
      (begins-append (reverse t) (reverse s) h)

join_words-ends :
    (w : Text) (words : List Text)
    → All IsWord (w ∷ words)
    → begins (reverse (join_words (w ∷ words))) ≡ true
unfolding join_words
join_words-ends w [] (h, _) = reverse-begins w h
join_words-ends w (v ∷ words) (h, hs) =
    reverse-begins-append w (b' ' ∷ join_words (v ∷ words))
      (reverse-begins-append (b' ' ∷ []) (join_words (v ∷ words)) (join_words-ends v words hs))

drop_while-begins : (s : Text) → begins s ≡ true → drop_while is_space s ≡ s
unfolding drop_while
drop_while-begins [] h = refl
drop_while-begins (c ∷ s) h = ground arith

strip-begins : (s : Text) → begins s ≡ true → begins (reverse s) ≡ true → strip s ≡ s
unfolding strip strip_by
strip-begins s h k =
    ap (λ x. reverse (drop_while is_space (reverse x))) (drop_while-begins s h)
    ∙ ap reverse (drop_while-begins (reverse s) k)
    ∙ reverse-reverse s

pub strip-join_words :
    (w : Text) (words : List Text)
    → All IsWord (w ∷ words)
    → strip (join_words (w ∷ words)) ≡ join_words (w ∷ words)
strip-join_words w words h =
    strip-begins (join_words (w ∷ words)) (join_words-begins w words h.0)
      (join_words-ends w words h)
