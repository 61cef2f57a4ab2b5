-- ===== src/Prelude.antt =====
-- The names that the other modules share: the libraries', passed on, and those of the children.
pub mod Int
mod Tests
mod Lists
mod Tables
mod Texts
mod Members
mod Words
mod Split
mod Encoding
pub use Tests.*
pub use Tables.*
unfoldable pub use Encoding.{
  byte_len, cut_bytes, join_lines, is_line_break, splitlines, decimal, is_digit, number_of,
}
pub use Encoding.{byte_len-append, cut_bytes-le, separator_bytes, join_lines-append}
unfoldable pub use Words.{
  split_words, contains, partition_at, after_last, lines_with_ends, words_from, keep_from,
}
pub use Words.{close_word, concat}
unfoldable pub use Split.{join_words}
pub use Split.{begins, is_solid, IsWord, split_words-join_words, strip-join_words}
pub use Lists.*
pub use Members.*
pub use Texts.{
  Text, codes, text_eq_iff, text_eq_refl, text_eq_swap, lower_idem, text_leb_refl, text_leb_total,
  text_leb_trans,
}
unfoldable pub use Texts.{
  text_eq, sql_eq, text_leb, lower, is_space, drop_while, strip_by, strip, starts_with,
}
pub use Prim.Native.Nat.{ℕ, zero, suc, ◌+◌, ◌-◌, ◌*◌, ◌/◌, ◌%◌, ◌^◌, ◌≤◌, ◌<◌, min, max}
pub use mathlib.Core.Path.{◌≡◌, refl, sym, ap, subst, ◌∙◌}
pub use mathlib.Core.Logic.{◌≢◌, ◌↔◌, ◌⊎◌, inl, inr}
pub use mathlib.Core.Bool.{Bool, true, false, not, ◌&&◌, ◌||◌}
pub use mathlib.Core.Option.{Option, none, some}
pub use mathlib.Core.List.{List, [], ◌∷◌, ◌++◌, map, foldl, reverse}
pub use native.Mathlib.Omega.{arith}
