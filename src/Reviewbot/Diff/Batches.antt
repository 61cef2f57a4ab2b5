-- ===== src/Reviewbot/Diff/Batches.antt =====
-- src/reviewbot/diff.py: the batches fit the limit, and every file is in exactly one place.
use oh_my_robot.Prelude.{
  ℕ, ◌+◌, ◌≤◌, ◌<◌, Text, Bool, false, not, ◌&&◌, some, List, [], ◌∷◌, ◌++◌, map, ltb, ◌==◌, ◌≡◌,
  refl, arith, sym, ap, ◌∙◌, length, length-append, select, All, All-append, byte_len, join_lines,
  join_lines-append, separator_bytes, Bool-cases, inl, inr,
}
use mathlib.Core.List.{append_assoc, append-nil}
use oh_my_robot.Prelude.Int.{pos}
use oh_my_robot.Reviewbot.Models.{ChangedFile}
use oh_my_robot.Reviewbot.Diff.Patch.{parse_changed_lines}
use oh_my_robot.Reviewbot.Diff.{
  DiffContext, DiffReviewPlan, Build, empty_build, flush, flushed, open_batch, has_section,
  add_section, overflows, place_section, build_step, build_loop, plan_of, with_omitted,
  build_diff_batches, put_lines, render_file, flat_files, is_empty,
}

-- The names of the files that pass a test.
abbrev pub names : (ChangedFile → Bool) → List ChangedFile → List Text
names p files = map (λ f. f.filename) (select p files)

-- The bytes of all the batches.
pub sum_bytes : List DiffContext → ℕ
sum_bytes [] = 0
sum_bytes (d ∷ batches) = byte_len d.text + sum_bytes batches

sum_bytes-append : (bs cs : List DiffContext) → sum_bytes (bs ++ cs) ≡ sum_bytes bs + sum_bytes cs
unfolding sum_bytes
sum_bytes-append [] cs = omega arith
sum_bytes-append (b ∷ bs) cs = omega (arith, sum_bytes-append bs cs)

flat_files-append :
    (bs cs : List DiffContext) → flat_files (bs ++ cs) ≡ flat_files bs ++ flat_files cs
flat_files-append [] cs = refl
flat_files-append (b ∷ bs) cs = simp (flat_files-append bs cs, append_assoc)

module _ (max_bytes : ℕ) where
  abbrev pub Fits : DiffContext → Type 0
  Fits d = byte_len d.text ≤ max_bytes

  -- What holds of the variables between two files.
  record IsBuilt (b : Build) : Type 0 where
    used_exact : b.used ≡ byte_len (join_lines b.sections)
    used_fits : b.used ≤ max_bytes
    batches_fit : All Fits b.batches
    total_exact : b.total_bytes ≡ sum_bytes b.batches + b.used
    files_exact : flat_files b.batches ++ b.batch_files ≡ b.reviewed
    same_length : length b.sections ≡ length b.batch_files

  no_section :
      (sections files : List Text)
      → has_section sections ≡ false
      → length sections ≡ length files
      → (sections ≡ []) × (files ≡ [])
  no_section [] [] h l = (refl, refl)
  no_section [] (f ∷ files) h l = absurd (omega arith)
  no_section (s ∷ sections) files h l = cc

  flushed-IsBuilt : (b : Build) → IsBuilt b → IsBuilt (flushed b)
  unfolding byte_len join_lines sum_bytes
  flushed-IsBuilt b v = record {
    used_exact = refl;
    used_fits = omega arith;
    batches_fit =
        All-append Fits b.batches (open_batch b ∷ []) v.batches_fit
          (omega (arith, v.used_exact, v.used_fits), tt);
    total_exact =
        omega (arith, sum_bytes-append b.batches (open_batch b ∷ []), v.total_exact, v.used_exact);
    files_exact =
        append-nil (flat_files (flushed b).batches)
        ∙ (flat_files-append b.batches (open_batch b ∷ [])
            ∙ (ap (λ l. flat_files b.batches ++ l) (append-nil b.batch_files) ∙ v.files_exact));
    same_length = refl;
  }

  unused : (b : Build) → IsBuilt b → b.sections ≡ [] → b.used ≡ 0
  unfolding byte_len join_lines
  unused b v e = v.used_exact ∙ ap (λ l. byte_len (join_lines l)) e

  flush-IsBuilt :
      (b : Build)
      → IsBuilt b
      → IsBuilt (flush b)
        × ((flush b).used ≡ 0)
        × ((flush b).sections ≡ [])
        × ((flush b).batch_files ≡ [])
  unfolding flush
  flush-IsBuilt b v = elim (Bool-cases (has_section b.sections)) [
    | inl t ↦ rw t (flushed-IsBuilt b v, refl, refl, refl)
    | inr f ↦
        let (s, g) = no_section b.sections b.batch_files f v.same_length in
        rw f (v, unused b v s, s, g)
  ]

  add_section-IsBuilt :
      (filename section : Text) (b : Build)
      → b.used + separator_bytes b.sections + byte_len section ≤ max_bytes
      → IsBuilt b
      → IsBuilt (add_section filename section b)
  unfolding add_section
  add_section-IsBuilt filename section b fits v = record {
    used_exact = omega (arith, join_lines-append b.sections section, v.used_exact);
    used_fits = omega arith;
    batches_fit = v.batches_fit;
    total_exact = omega (arith, v.total_exact);
    files_exact =
        sym (append_assoc (flat_files b.batches) b.batch_files (filename ∷ []))
        ∙ ap (λ l. l ++ filename ∷ []) v.files_exact;
    same_length = omega (
      arith,
      length-append b.sections (section ∷ []),
      length-append b.batch_files (filename ∷ []),
      v.same_length,
    );
  }

  fits_open :
      (section : Text) (b : Build)
      → overflows max_bytes section b ≡ false
      → byte_len section ≤ max_bytes
      → IsBuilt b
      → b.used + separator_bytes b.sections + byte_len section ≤ max_bytes
  unfolding overflows
  fits_open section b f small v = elim (Bool-cases (has_section b.sections)) [
    | inl t ↦ ground arith
    | inr t ↦
        let s = (no_section b.sections b.batch_files t v.same_length).0 in
        rw (s, unused b v s) (omega arith)
  ]

  place_section-IsBuilt :
      (filename section : Text) (b : Build)
      → byte_len section ≤ max_bytes
      → IsBuilt b
      → IsBuilt (place_section max_bytes filename section b)
  unfolding place_section
  place_section-IsBuilt filename section b small v =
      elim (Bool-cases (overflows max_bytes section b)) [
        | inl t ↦
            let (w, u, s, g) = flush-IsBuilt b v in
            rw t (add_section-IsBuilt filename section (flush b) (rw (u, s) (omega arith)) w)
        | inr f ↦ rw f (add_section-IsBuilt filename section b (fits_open section b f small v) v)
      ]

  -- A file whose section can stand in a batch.
  abbrev pub reviewable : ChangedFile → Bool
  reviewable f = not (is_empty f.patch) && not (ltb max_bytes (byte_len (render_file f)))

  relabel :
      (b : Build) (d : List (Text × List ℕ)) (omitted patchless : List Text)
      → IsBuilt b
      → IsBuilt (record b { all_changed_lines = d; omitted = omitted; patchless = patchless })
  relabel b d omitted patchless v = record {
    used_exact = v.used_exact;
    used_fits = v.used_fits;
    batches_fit = v.batches_fit;
    total_exact = v.total_exact;
    files_exact = v.files_exact;
    same_length = v.same_length;
  }

  build_step-IsBuilt :
      (b : Build) (f : ChangedFile) → IsBuilt b → IsBuilt (build_step max_bytes b f)
  unfolding build_step
  build_step-IsBuilt b f v = elim (Bool-cases (is_empty f.patch)) [
    | inl t ↦ rw t (relabel b _ _ _ v)
    | inr t ↦ elim (Bool-cases (ltb max_bytes (byte_len (render_file f)))) [
      | inl l ↦ rw (t, l) (relabel b _ _ _ v)
      | inr l ↦
          rw (t, l)
            (place_section-IsBuilt f.filename (render_file f) _ (ground arith) (relabel b _ _ _ v))
    ]
  ]

  build_loop-IsBuilt :
      (files : List ChangedFile) (b : Build) → IsBuilt b → IsBuilt (build_loop max_bytes b files)
  unfolding build_loop
  build_loop-IsBuilt [] b v = v
  build_loop-IsBuilt (f ∷ files) b v =
      build_loop-IsBuilt files (build_step max_bytes b f) (build_step-IsBuilt b f v)

  -- Where the loop puts the name of each file.
  place_section-names :
      (filename section : Text) (b : Build)
      → ((place_section max_bytes filename section b).reviewed ≡ b.reviewed ++ filename ∷ [])
        × ((place_section max_bytes filename section b).omitted ≡ b.omitted)
        × ((place_section max_bytes filename section b).patchless ≡ b.patchless)
  unfolding place_section add_section flush
  place_section-names filename section b = elim (Bool-cases (overflows max_bytes section b)) [
    | inl t ↦ elim (Bool-cases (has_section b.sections)) [
      | inl h ↦ rw (t, h) (refl, refl, refl)
      | inr h ↦ rw (t, h) (refl, refl, refl)
    ]
    | inr t ↦ rw t (refl, refl, refl)
  ]

  names-cons :
      (p : ChangedFile → Bool) (f : ChangedFile) (files : List ChangedFile)
      → names p (f ∷ []) ++ names p files ≡ names p (f ∷ files)
  names-cons p f files = elim (Bool-cases (p f)) [ inl t ↦ rw t refl | inr t ↦ rw t refl ]

  -- Where one round of the loop puts the name of its file.
  build_step-names :
      (b : Build) (f : ChangedFile)
      → ((build_step max_bytes b f).reviewed ≡ b.reviewed ++ names reviewable (f ∷ []))
        × ((build_step max_bytes b f).omitted
            ≡ b.omitted ++ names (λ x. not (reviewable x)) (f ∷ []))
        × ((build_step max_bytes b f).patchless
            ≡ b.patchless ++ names (λ x. is_empty x.patch) (f ∷ []))
  unfolding build_step
  build_step-names b f = elim (Bool-cases (is_empty f.patch)) [
    | inl t ↦ rw t (sym (append-nil b.reviewed), refl, refl)
    | inr t ↦ elim (Bool-cases (ltb max_bytes (byte_len (render_file f)))) [
      | inl l ↦ rw (t, l) (sym (append-nil b.reviewed), refl, sym (append-nil b.patchless))
      | inr l ↦
          let (r, o, p) = place_section-names f.filename (render_file f) (record b {
            all_changed_lines =
                put_lines f.filename (parse_changed_lines f.patch) b.all_changed_lines;
          }) in
          rw (t, l) (r, o ∙ sym (append-nil b.omitted), p ∙ sym (append-nil b.patchless))
    ]
  ]

  chain :
      (p : ChangedFile → Bool) (f : ChangedFile) (files : List ChangedFile)
      (before middle after : List Text)
      → after ≡ middle ++ names p files
      → middle ≡ before ++ names p (f ∷ [])
      → after ≡ before ++ names p (f ∷ files)
  chain p f files before middle after h k =
      h
      ∙ (ap (λ l. l ++ names p files) k
          ∙ (append_assoc before (names p (f ∷ [])) (names p files)
              ∙ ap (λ l. before ++ l) (names-cons p f files)))

  build_loop-names :
      (files : List ChangedFile) (b : Build)
      → ((build_loop max_bytes b files).reviewed ≡ b.reviewed ++ names reviewable files)
        × ((build_loop max_bytes b files).omitted
            ≡ b.omitted ++ names (λ f. not (reviewable f)) files)
        × ((build_loop max_bytes b files).patchless
            ≡ b.patchless ++ names (λ f. is_empty f.patch) files)
  unfolding build_loop
  build_loop-names [] b =
      (sym (append-nil b.reviewed), sym (append-nil b.omitted), sym (append-nil b.patchless))
  build_loop-names (f ∷ files) b =
      let (r, o, p) = build_loop-names files (build_step max_bytes b f) in
      let (r', o', p') = build_step-names b f in
      (
        chain reviewable f files _ _ _ r r',
        chain (λ x. not (reviewable x)) f files _ _ _ o o',
        chain (λ x. is_empty x.patch) f files _ _ _ p p',
      )

flush-names :
    (b : Build)
    → ((flush b).reviewed ≡ b.reviewed)
      × ((flush b).omitted ≡ b.omitted)
      × ((flush b).patchless ≡ b.patchless)
unfolding flush
flush-names b = elim (Bool-cases (has_section b.sections)) [
  | inl t ↦ rw t (refl, refl, refl)
  | inr t ↦ rw t (refl, refl, refl)
]

module _ (omitted : List Text) where
  All-with_omitted :
      (n : ℕ) (bs : List DiffContext)
      → All (Fits n) bs
      → All (Fits n) (map (with_omitted omitted) bs)
  All-with_omitted n [] h = tt
  All-with_omitted n (b ∷ bs) h = (h.0, All-with_omitted n bs h.1)

  flat_files-with_omitted :
      (bs : List DiffContext) → flat_files (map (with_omitted omitted) bs) ≡ flat_files bs
  flat_files-with_omitted [] = refl
  flat_files-with_omitted (b ∷ bs) = ap (λ l. b.files ++ l) (flat_files-with_omitted bs)

  sum_bytes-with_omitted :
      (bs : List DiffContext) → sum_bytes (map (with_omitted omitted) bs) ≡ sum_bytes bs
  unfolding sum_bytes
  sum_bytes-with_omitted [] = refl
  sum_bytes-with_omitted (b ∷ bs) = ap (λ n. byte_len b.text + n) (sum_bytes-with_omitted bs)

-- What a review plan promises: each batch fits, the batches hold the reviewed files in order, a
-- file is reviewed if it has a patch whose section fits and omitted if not, and the bytes add up.
pub record IsPlan (max_bytes : ℕ) (files : List ChangedFile) (plan : DiffReviewPlan) : Type 0 where
  pub fits : All (λ d. byte_len d.text ≤ max_bytes) plan.batches
  pub covered : flat_files plan.batches ≡ plan.reviewed_files
  pub reviewed : plan.reviewed_files ≡ names (reviewable max_bytes) files
  pub omitted : plan.omitted_files ≡ names (λ f. not (reviewable max_bytes f)) files
  pub patchless : plan.patchless_files ≡ names (λ f. is_empty f.patch) files
  pub counted : plan.total_bytes ≡ sum_bytes plan.batches
  pub all_files : plan.total_files ≡ length files

empty-IsBuilt : (n : ℕ) → IsBuilt n empty_build
unfolding byte_len join_lines sum_bytes
empty-IsBuilt n = record {
  used_exact = refl;
  used_fits = omega arith;
  batches_fit = tt;
  total_exact = omega arith;
  files_exact = refl;
  same_length = refl;
}

plan_of-IsPlan :
    (n : ℕ) (files : List ChangedFile)
    → IsPlan n files (plan_of (length files) (flush (build_loop n empty_build files)))
unfolding plan_of
plan_of-IsPlan n files =
    let b = build_loop n empty_build files in
    let (v, used, s, g) =
      flush-IsBuilt n b (build_loop-IsBuilt n files empty_build (empty-IsBuilt n)) in
    let (r, o, p) = build_loop-names n files empty_build in
    let (r', o', p') = flush-names b in
    record {
      fits = All-with_omitted (flush b).omitted n (flush b).batches v.batches_fit;
      covered =
          flat_files-with_omitted (flush b).omitted (flush b).batches
          ∙ (sym (append-nil (flat_files (flush b).batches))
              ∙ (ap (λ l. flat_files (flush b).batches ++ l) (sym g) ∙ v.files_exact));
      reviewed = r' ∙ r;
      omitted = o' ∙ o;
      patchless = p' ∙ p;
      counted =
          omega (
            arith,
            v.total_exact,
            used,
            sum_bytes-with_omitted (flush b).omitted (flush b).batches,
          );
      all_files = refl;
    }

-- With a positive limit the batches are built: each text is within the limit, the batches hold the
-- reviewed files in their order, a file is reviewed if it has a patch whose section is within the
-- limit and omitted if not, those without a patch are listed, and the bytes and the files add up.
pub build_diff_batches-IsPlan :
    (files : List ChangedFile) (n : ℕ)
    → 0 < n
    → (plan : DiffReviewPlan) × (build_diff_batches files (pos n) ≡ some plan) × IsPlan n files plan
unfolding build_diff_batches
build_diff_batches-IsPlan files n h =
    let e : (n == 0) ≡ false = ground arith in
    (
      plan_of (length files) (flush (build_loop n empty_build files)),
      rw e refl,
      plan_of-IsPlan n files,
    )
