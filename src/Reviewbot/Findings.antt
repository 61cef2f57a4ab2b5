-- ===== src/Reviewbot/Findings.antt =====
-- src/reviewbot/findings.py: the identity of a finding. `digest` stands for the JSON encoding
-- and SHA-256; `casefold` is modelled on ASCII, as `lower` is.
use oh_my_robot.Prelude.{
  Text, lower, is_space, strip, Bool, false, [], ◌∷◌, map, ◌==◌, if◌then◌else◌,
}
use oh_my_robot.Reviewbot.Models.{ReviewFinding}

-- `path.replace("\\", "/")`.
unfoldable pub forward_slashes : Text → Text
forward_slashes = map (λ c. if c == 92 then 47 else c)

-- `_WHITESPACE_RE.sub(" ", s)`; the flag says that the last code point was white space.
unfoldable pub collapse : Bool → Text → Text
collapse after_space [] = []
collapse after_space (c ∷ s) =
    let rest = collapse (is_space c) s in
    if is_space c then (if after_space then rest else 32 ∷ rest) else c ∷ rest

unfoldable pub canonical_text : Text → Text
unfolding collapse is_space strip lower
canonical_text s = lower (collapse false (strip s))

-- The payload that is hashed: path, symbol, title and problem.
unfoldable pub fingerprint_payload : ReviewFinding → Text × Text × Text × Text
unfolding canonical_text forward_slashes
fingerprint_payload f = (
  forward_slashes f.path,
  canonical_text f.symbol,
  canonical_text f.title,
  canonical_text f.problem,
)

unfoldable pub finding_fingerprint : (Text × Text × Text × Text → Text) → ReviewFinding → Text
unfolding fingerprint_payload
finding_fingerprint digest f = digest (fingerprint_payload f)
