-- ===== src/Reviewbot/Diff/Tests.antt =====
-- Runs of the diff code on small inputs.
use oh_my_robot.Prelude.{Text, codes, [], ◌∷◌, ◌≡◌, refl, splitlines, starts_with, decimal}
use oh_my_robot.Reviewbot.Diff.Patch.{hunk_start, line_kind, parse_changed_lines}

abbrev patch : Text
patch = codes "@@ -1,3 +10,4 @@ def f\n a\n+b\n-c\n+++d\n\\ No newline\r\n+e\n@@ -9 +20 @@\n+x"

patch_lines : parse_changed_lines patch ≡ 11 ∷ 12 ∷ 20 ∷ []
unfolding parse_changed_lines splitlines hunk_start line_kind starts_with
patch_lines = refl

decimal_run : decimal 1203 ≡ codes "1203"
unfolding decimal
decimal_run = refl
