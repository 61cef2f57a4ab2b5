-- ===== src/Prelude/Encoding.antt =====
-- Sizes of encoded text, `str.join`, `str.splitlines`, and `str` of a natural number.
use Prim.Native.Nat.{ℕ, zero, suc, ◌+◌, ◌-◌, ◌*◌, ◌/◌, ◌%◌, ◌≤◌}
use mathlib.Core.Path.{◌≡◌}
use mathlib.Core.Bool.{Bool, false, ◌&&◌, ◌||◌}
use mathlib.Core.List.{List, [], ◌∷◌, ◌++◌, reverse}
use native.Mathlib.Omega.{arith}
use oh_my_robot.Prelude.Tests.{ltb, leb, ◌==◌, if◌then◌else◌}
use oh_my_robot.Prelude.Texts.{Text}

-- The bytes of a code point in UTF-8.
unfoldable pub width : ℕ → ℕ
width c = if ltb c 0x80 then 1 else if ltb c 0x800 then 2 else if ltb c 0x10000 then 3 else 4

-- `len(s.encode("utf-8"))`.
unfoldable pub byte_len : Text → ℕ
unfolding width
byte_len [] = 0
byte_len (c ∷ s) = width c + byte_len s

pub byte_len-append : (s t : Text) → byte_len (s ++ t) ≡ byte_len s + byte_len t
unfolding byte_len
byte_len-append [] t = omega arith
byte_len-append (c ∷ s) t = omega (arith, byte_len-append s t)

-- `encoded[:n].decode("utf-8", errors="ignore")`: the longest prefix of whole code points that
-- fits in n bytes.
unfoldable pub cut_bytes : ℕ → Text → Text
unfolding width
cut_bytes n [] = []
cut_bytes n (c ∷ s) =
    let rest = cut_bytes (n - width c) s in if leb (width c) n then c ∷ rest else []

pub cut_bytes-le : (n : ℕ) (s : Text) → byte_len (cut_bytes n s) ≤ n
unfolding cut_bytes byte_len
cut_bytes-le n [] = omega arith
cut_bytes-le n (c ∷ s) = ground (arith, cut_bytes-le (n - width c) s)

-- "\n".join(parts)
unfoldable pub join_lines : List Text → Text
join_lines [] = []
join_lines (s ∷ []) = s
join_lines (s ∷ t ∷ parts) = s ++ 10 ∷ join_lines (t ∷ parts)

abbrev pub separator_bytes : List Text → ℕ
separator_bytes [] = 0
separator_bytes (s ∷ parts) = 1

pub join_lines-append :
    (parts : List Text) (s : Text)
    → byte_len (join_lines (parts ++ s ∷ []))
      ≡ byte_len (join_lines parts) + separator_bytes parts + byte_len s
unfolding join_lines byte_len
join_lines-append [] s = omega arith
join_lines-append (t ∷ []) s = omega (arith, byte_len-append t (10 ∷ s))
join_lines-append (t ∷ u ∷ parts) s = omega (
  arith,
  join_lines-append (u ∷ parts) s,
  byte_len-append t (10 ∷ join_lines (u ∷ parts ++ s ∷ [])),
  byte_len-append t (10 ∷ join_lines (u ∷ parts)),
)

-- The line boundaries of `str.splitlines`; "\r\n" is one boundary.
unfoldable pub is_line_break : ℕ → Bool
is_line_break c =
    (leb 10 c && leb c 13) || (leb 28 c && leb c 30) || c == 0x85 || c == 0x2028 || c == 0x2029

unfoldable pub lines_from : Bool → Text → Text → List Text
unfolding is_line_break
lines_from after_cr [] [] = []
lines_from after_cr (d ∷ line) [] = reverse (d ∷ line) ∷ []
lines_from after_cr line (c ∷ s) =
    let joined = lines_from false line s in
    let ended = reverse line ∷ lines_from (c == 13) [] s in
    let inside = lines_from false (c ∷ line) s in
    if c == 10 && after_cr then joined else if is_line_break c then ended else inside

-- `s.splitlines()`
unfoldable pub splitlines : Text → List Text
unfolding lines_from
splitlines = lines_from false []

unfoldable pub digits_from : ℕ → ℕ → Text → Text
digits_from zero n rest = rest
digits_from (suc fuel) n rest =
    let more = digits_from fuel (n / 10) ((48 + n % 10) ∷ rest) in
    if ltb n 10 then (48 + n) ∷ rest else more

-- `str(n)`; n + 1 rounds are enough, since a division by ten makes n smaller.
unfoldable pub decimal : ℕ → Text
unfolding digits_from
decimal n = digits_from (suc n) n []

unfoldable pub is_digit : ℕ → Bool
is_digit c = leb b'0' c && leb c b'9'

-- `int(s)` of a text of digits.
unfoldable pub number_of : ℕ → Text → ℕ
number_of acc [] = acc
number_of acc (c ∷ s) = number_of (acc * 10 + (c - 48)) s
