-- ===== src/Robomp/Witnesses/Pragmas.antt =====
-- Slash commands at concrete texts.
use oh_my_robot.Prelude.{
  Text, codes, lower, strip, strip_by, List, [], ◌∷◌, ◌++◌, ◌≡◌, refl, is_space, starts_with,
  lines_with_ends,
}
use oh_my_robot.Robomp.Pragmas.{
  is_key, resolve_model_alias, is_crlf, parse_pragmas, commands_of, parse_command_line,
}
use oh_my_robot.Robomp.Pragmas.Body.{parse_pragmas-print_commands}
use oh_my_robot.Robomp.Pragmas.Lookup.{best_match, resolve_model_alias-best}
use oh_my_robot.Robomp.Pragmas.Print.{spaced, equals, print_commands}

abbrev models : List Text
models = codes "a/gpt-5" ∷ codes "b/GPT" ∷ []

resolve_model_alias-best_example :
    resolve_model_alias (codes " gpt ") models ≡ best_match (lower (strip (codes " gpt "))) models
unfolding lower strip is_space
resolve_model_alias-best_example = resolve_model_alias-best (codes " gpt ") models refl

parse_pragmas-print_commands_example :
    parse_pragmas (
      print_commands
        (spaced (codes "Model") (codes "gpt") ∷ equals (codes "thinking") (codes "low") ∷ [])
      ++ 10 ∷ codes "fix it\n")
    ≡ (
      strip_by is_crlf (codes "fix it\n"),
      (lower (codes "Model"), codes "gpt") ∷ (lower (codes "thinking"), codes "low") ∷ [],
    )
unfolding is_key is_space starts_with lines_with_ends commands_of parse_command_line
parse_pragmas-print_commands_example =
    parse_pragmas-print_commands (spaced (codes "Model") (codes "gpt"))
      (equals (codes "thinking") (codes "low") ∷ []) (codes "fix it\n")
      (
        (refl, record { full = refl; solid = refl }, refl),
        ((refl, record { full = refl; solid = refl }), tt),
      )
      (refl, tt)
