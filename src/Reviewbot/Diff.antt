-- ===== src/Reviewbot/Diff.antt =====
-- src/reviewbot/diff.py: the batches of diff text that are sent to the model, and the lines that a
-- patch adds. A set of lines is a list, read by membership; a dict is a list of pairs.
pub mod Patch
pub mod Batches
pub mod Lines
mod Tests
use oh_my_robot.Prelude.{
  ℕ, ◌+◌, Text, codes, text_eq, Bool, true, false, ◌&&◌, Option, none, some, List, [], ◌∷◌, ◌++◌,
  map, ltb, leb, ◌==◌, if◌then◌else◌, any, length, byte_len, cut_bytes, join_lines, decimal,
  separator_bytes,
}
use oh_my_robot.Prelude.Int.{ℤ, pos_part}
use oh_my_robot.Reviewbot.Models.{ChangedFile}
use oh_my_robot.Reviewbot.Diff.Patch.{parse_changed_lines}

pub record DiffContext : Type 0 where
  pub text : Text
  pub changed_lines : List (Text × List ℕ)
  pub omitted_files : List Text
  pub files : List Text

pub record DiffReviewPlan : Type 0 where
  pub batches : List DiffContext
  pub total_files : ℕ
  pub reviewed_files : List Text
  pub omitted_files : List Text
  pub patchless_files : List Text
  pub total_bytes : ℕ

-- `d.get(path, frozenset())`
unfoldable pub lines_of : Text → List (Text × List ℕ) → List ℕ
lines_of path [] = []
lines_of path ((k, v) ∷ d) = let rest = lines_of path d in if text_eq k path then v else rest

-- `d[path] = lines`
unfoldable pub put_lines : Text → List ℕ → List (Text × List ℕ) → List (Text × List ℕ)
put_lines path lines [] = (path, lines) ∷ []
put_lines path lines ((k, v) ∷ d) =
    let rest = put_lines path lines d in if text_eq k path then (k, lines) ∷ d else (k, v) ∷ rest

unfoldable pub has_changed_line : DiffContext → Text → ℕ → Bool
unfolding lines_of
has_changed_line d path line = any (λ n. n == line) (lines_of path d.changed_lines)

abbrev pub batch_count : DiffReviewPlan → ℕ
batch_count plan = length plan.batches

abbrev pub is_empty : Text → Bool
is_empty [] = true
is_empty (c ∷ s) = false

unfoldable pub patch_text : Text → Text
patch_text [] = codes "[No patch was supplied by GitHub for this file.]"
patch_text (c ∷ s) = c ∷ s

unfoldable pub render_file : ChangedFile → Text
unfolding patch_text
render_file f =
    codes "\ndiff -- "
    ++ f.filename
    ++ codes "\nstatus: "
    ++ f.status
    ++ codes "; additions: "
    ++ decimal f.additions
    ++ codes "; deletions: "
    ++ decimal f.deletions
    ++ codes "\n"
    ++ patch_text f.patch
    ++ codes "\n"

-- The variables of `build_diff_batches`.
pub record Build : Type 0 where
  pub all_changed_lines : List (Text × List ℕ)
  pub batches : List DiffContext
  pub sections : List Text
  pub batch_files : List Text
  pub reviewed : List Text
  pub omitted : List Text
  pub patchless : List Text
  pub used : ℕ
  pub total_bytes : ℕ

abbrev pub empty_build : Build
empty_build = record {
  all_changed_lines = [];
  batches = [];
  sections = [];
  batch_files = [];
  reviewed = [];
  omitted = [];
  patchless = [];
  used = 0;
  total_bytes = 0;
}

-- The batch that `flush` closes.
abbrev pub open_batch : Build → DiffContext
open_batch b = record {
  text = join_lines b.sections;
  changed_lines = map (λ path. (path, lines_of path b.all_changed_lines)) b.batch_files;
  omitted_files = [];
  files = b.batch_files;
}

abbrev pub flushed : Build → Build
flushed b = record b {
  batches = b.batches ++ open_batch b ∷ [];
  sections = [];
  batch_files = [];
  used = 0;
}

abbrev has_section : List Text → Bool
has_section [] = false
has_section (s ∷ parts) = true

unfoldable pub flush : Build → Build
flush b = if has_section b.sections then flushed b else b

-- The end of the loop's body, on the state after the conditional flush.
unfoldable pub add_section : Text → Text → Build → Build
add_section filename section b =
    let bytes = separator_bytes b.sections + byte_len section in
    record b {
      sections = b.sections ++ section ∷ [];
      batch_files = b.batch_files ++ filename ∷ [];
      reviewed = b.reviewed ++ filename ∷ [];
      used = b.used + bytes;
      total_bytes = b.total_bytes + bytes;
    }

-- Whether the section would pass the limit in the batch that is open.
unfoldable pub overflows : ℕ → Text → Build → Bool
overflows max_bytes section b =
    has_section b.sections && ltb max_bytes (b.used + separator_bytes b.sections + byte_len section)

unfoldable pub place_section : ℕ → Text → Text → Build → Build
unfolding flush add_section overflows
place_section max_bytes filename section b =
    add_section filename section (if overflows max_bytes section b then flush b else b)

unfoldable pub build_step : ℕ → Build → ChangedFile → Build
build_step max_bytes b f =
    let b₁ : Build = record b {
      all_changed_lines = put_lines f.filename (parse_changed_lines f.patch) b.all_changed_lines;
    } in
    if is_empty f.patch
    then record b₁ {
      omitted = b.omitted ++ f.filename ∷ [];
      patchless = b.patchless ++ f.filename ∷ [];
    }
    else if ltb max_bytes (byte_len (render_file f))
    then record b₁ { omitted = b.omitted ++ f.filename ∷ [] }
    else place_section max_bytes f.filename (render_file f) b₁

unfoldable pub build_loop : ℕ → Build → List ChangedFile → Build
build_loop max_bytes b [] = b
build_loop max_bytes b (f ∷ files) = build_loop max_bytes (build_step max_bytes b f) files

abbrev pub with_omitted : List Text → DiffContext → DiffContext
with_omitted omitted d = record d { omitted_files = omitted }

-- The tuple that is returned for the state after the last flush.
unfoldable pub plan_of : ℕ → Build → DiffReviewPlan
plan_of total_files b = record {
  batches = map (with_omitted b.omitted) b.batches;
  total_files = total_files;
  reviewed_files = b.reviewed;
  omitted_files = b.omitted;
  patchless_files = b.patchless;
  total_bytes = b.total_bytes;
}

-- `none` is the ValueError for a limit that is not positive.
unfoldable pub build_diff_batches : List ChangedFile → ℤ → Option DiffReviewPlan
build_diff_batches files max_bytes =
    if pos_part max_bytes == 0
    then none
    else some (plan_of (length files) (flush (build_loop (pos_part max_bytes) empty_build files)))

unfoldable pub omitted_notice : List Text → Text
omitted_notice [] = []
omitted_notice (p ∷ paths) =
    codes
      "\n[The following changed files were omitted or unavailable; do not invent findings for them.]\n"
    ++ join_lines (map (λ path. codes "- " ++ path) (p ∷ paths))

-- `_bounded_text`
unfoldable pub bounded_text : Text → ℕ → Text
bounded_text value max_bytes =
    if leb (byte_len value) max_bytes then value else cut_bytes max_bytes value

abbrev first_text : List DiffContext → Text
first_text [] = []
first_text (d ∷ batches) = d.text

abbrev first_files : List DiffContext → List Text
first_files [] = []
first_files (d ∷ batches) = d.files

abbrev pub flat_files : List DiffContext → List Text
flat_files [] = []
flat_files (d ∷ batches) = d.files ++ flat_files batches

abbrev later : List DiffContext → List DiffContext
later [] = []
later (d ∷ batches) = batches

-- The dict of every file's changed lines.
unfoldable pub all_lines : List ChangedFile → List (Text × List ℕ) → List (Text × List ℕ)
unfolding put_lines
all_lines [] d = d
all_lines (f ∷ files) d = all_lines files (put_lines f.filename (parse_changed_lines f.patch) d)

unfoldable pub context_of : List ChangedFile → ℕ → DiffReviewPlan → DiffContext
unfolding omitted_notice bounded_text all_lines
context_of files max_bytes plan =
    let legacy_omitted = plan.omitted_files ++ flat_files (later plan.batches) in
    record {
      text = bounded_text (first_text plan.batches ++ omitted_notice legacy_omitted) max_bytes;
      changed_lines = all_lines files [];
      omitted_files = legacy_omitted;
      files = first_files plan.batches;
    }

unfoldable pub build_diff_context : List ChangedFile → ℤ → Option DiffContext
unfolding build_diff_batches context_of
build_diff_context files max_bytes = elim (build_diff_batches files max_bytes) [
  | none ↦ none
  | some plan ↦ some (context_of files (pos_part max_bytes) plan)
]
