-- ===== src/Reviewbot/Store/Findings/History.antt =====
-- src/reviewbot/storage.py: the life of one finding across a review, and the rows that a review
-- does not touch.
use oh_my_robot.Prelude.{
  ℕ, ◌≤◌, Text, text_eq, text_eq_iff, text_eq_refl, true, false, not, ◌&&◌, Option, none, some,
  List, [], ◌∷◌, ◌++◌, ◌≡◌, refl, ◌∙◌, arith, if◌then◌else◌, any, find, select, update, Bool-cases,
  inl, inr, is_some, count_if,
}
use oh_my_robot.Reviewbot.Models.{FindingRecord, ReviewFinding, is_resolved}
use oh_my_robot.Reviewbot.Findings.{finding_fingerprint}
use oh_my_robot.Reviewbot.Store.Findings.{
  of_pr, has_print, keyed, finding_row, first_seen, upsert_finding, sync_loop, is_gone, in_scope,
  resolve_gone, resolve, sync_rows,
}
use oh_my_robot.Reviewbot.Store.Findings.Upsert.{stored, map_option, row_of}
use oh_my_robot.Reviewbot.Store.Findings.Sync.{
  reported, refreshed, sync_loop-row_of, sync_loop-seen, resolve_gone-row_of, select-print,
  select-gone, gone,
}

row_of-print :
    (repository : Text) (number : ℕ) (p : Text) (rows : List FindingRecord) (r : FindingRecord)
    → row_of repository number p rows ≡ some r
    → r.fingerprint ≡ p
row_of-print repository number p [] r h = cc
row_of-print repository number p (x ∷ rows) r h =
    ground (arith, row_of-print repository number p rows r, text_eq_iff x.fingerprint p)

module _ (digest : Text × Text × Text × Text → Text) (now : ℕ) (repository : Text) (number : ℕ)
    (head_sha : Text) (paths : Option (List Text)) where
  -- What a review leaves of one finding: the row stored before, and the finding if it was
  -- reported.
  abbrev pub life : Text → Option FindingRecord → Option ReviewFinding → Option FindingRecord
  life p previous (some f) =
      some (stored previous (finding_row now repository number head_sha p previous f))
  life p none none = none
  life p (some r) none =
      some (if not (is_resolved r.status) && in_scope paths r then resolve now head_sha r else r)

  life_lem :
      (seen : List Text) (p : Text) (previous : Option FindingRecord) (o : Option ReviewFinding)
      → ((r : FindingRecord) → previous ≡ some r → r.fingerprint ≡ p)
      → any (text_eq p) seen ≡ is_some o
      → (let row = refreshed digest now repository number head_sha p previous o previous in
          if gone now repository number head_sha seen paths previous
          then map_option (resolve now head_sha) row
          else row)
        ≡ life p previous o
  unfolding is_gone
  life_lem seen p none none q h = refl
  life_lem seen p none (some f) q h = refl
  life_lem seen p (some r) none q h =
      let e : any (text_eq r.fingerprint) seen ≡ false = rw (q r refl) h in rw e (ground arith)
  life_lem seen p (some r) (some f) q h =
      let e : any (text_eq r.fingerprint) seen ≡ true = rw (q r refl) h in rw e refl

  pub sync_rows-row_of :
      (findings : List ReviewFinding) (rows : List FindingRecord) (p : Text)
      → count_if (keyed repository number p) rows ≤ 1
      → row_of repository number p
          (sync_rows digest now repository number head_sha findings paths rows)
        ≡ life p (row_of repository number p rows) (reported digest p findings)
  unfolding sync_rows
  sync_rows-row_of findings rows p u =
      let existing = select (of_pr repository number) rows in
      let r = sync_loop now repository number head_sha digest existing [] findings rows in
      resolve_gone-row_of now repository number head_sha r.0 paths p existing r.1
      ∙ rw
          (
            select-gone now repository number head_sha r.0 paths p rows u,
            sync_loop-row_of digest now repository number head_sha existing p [] findings rows,
            select-print now repository number head_sha p rows,
          )
          (life_lem r.0 p (row_of repository number p rows) (reported digest p findings)
            (λ x. row_of-print repository number p rows x)
            (sync_loop-seen digest now repository number head_sha existing p [] findings rows))

  life-history :
      (p : Text) (r : FindingRecord) (o : Option ReviewFinding)
      → (r' : FindingRecord) × (life p (some r) o ≡ some r')
        × (r'.first_seen_sha ≡ r.first_seen_sha)
        × (r'.created_at ≡ r.created_at)
  unfolding finding_row first_seen
  life-history p r none = (_, refl, ground arith, ground arith)
  life-history p r (some f) = (_, refl, refl, refl)

  -- No review forgets a finding: its row stays, with the head that it was first seen at and the
  -- time of its creation.
  pub sync_rows-keeps_history :
      (findings : List ReviewFinding) (rows : List FindingRecord) (p : Text) (r : FindingRecord)
      → count_if (keyed repository number p) rows ≤ 1
      → row_of repository number p rows ≡ some r
      → (r' : FindingRecord) × (row_of repository number p
            (sync_rows digest now repository number head_sha findings paths rows)
          ≡ some r')
        × (r'.first_seen_sha ≡ r.first_seen_sha)
        × (r'.created_at ≡ r.created_at)
  sync_rows-keeps_history findings rows p r u h =
      let (r', e, a, b) = life-history p r (reported digest p findings) in
      (r', rw (sync_rows-row_of findings rows p u, h, e) refl, a, b)

  -- The rows of the other Pull Requests.
  abbrev pub others : List FindingRecord → List FindingRecord
  others = select (λ r. not (of_pr repository number r))

  others-update :
      (k : Text) (g : FindingRecord → FindingRecord) (rows : List FindingRecord)
      → ((r : FindingRecord)
          → of_pr repository number r ≡ true
          → of_pr repository number (g r) ≡ true)
      → others (update (keyed repository number k) g rows) ≡ others rows
  others-update k g [] keep = refl
  others-update k g (r ∷ rows) keep = ground (arith, keep r, others-update k g rows keep)

  others-append :
      (row : FindingRecord) (rows : List FindingRecord)
      → of_pr repository number row ≡ true
      → others (rows ++ row ∷ []) ≡ others rows
  others-append row [] h = rw h refl
  others-append row (r ∷ rows) h = ground (arith, others-append row rows h)

  others-sync_loop :
      (existing : List FindingRecord) (seen : List Text) (findings : List ReviewFinding)
      (rows : List FindingRecord)
      → others (sync_loop now repository number head_sha digest existing seen findings rows).1
        ≡ others rows
  unfolding sync_loop
  others-sync_loop existing seen [] rows = refl
  others-sync_loop existing seen (f ∷ findings) rows =
      let k = finding_fingerprint digest f in
      let row = finding_row now repository number head_sha k (find (has_print k) existing) f in
      let t : of_pr repository number row ≡ true = ground (arith, text_eq_refl repository) in
      elim (Bool-cases (any (text_eq k) seen)) [
        | inl s ↦ rw s (others-sync_loop existing seen findings rows)
        | inr s ↦ rw s (
            others-sync_loop existing (k ∷ seen) findings
              (upsert_finding repository number row rows)
            ∙ elim (Bool-cases (any (keyed repository number row.fingerprint) rows)) [
              | inl b ↦ rw b (others-update k _ rows (λ r h. t))
              | inr b ↦ rw b (others-append row rows t)
            ])
      ]

  others-resolve_gone :
      (seen : List Text) (existing rows : List FindingRecord)
      → others (resolve_gone now repository number head_sha seen paths existing rows) ≡ others rows
  unfolding resolve_gone
  others-resolve_gone seen [] rows = refl
  others-resolve_gone seen (r ∷ existing) rows = elim (Bool-cases (is_gone seen paths r)) [
    | inl t ↦ rw t (
        others-resolve_gone seen existing
          (update (keyed repository number r.fingerprint) (resolve now head_sha) rows)
        ∙ others-update r.fingerprint (resolve now head_sha) rows (λ x h. h))
    | inr f ↦ rw f (others-resolve_gone seen existing rows)
  ]

  -- A review leaves the findings of every other Pull Request as they were, in their order.
  pub sync_rows-others :
      (findings : List ReviewFinding) (rows : List FindingRecord)
      → others (sync_rows digest now repository number head_sha findings paths rows) ≡ others rows
  unfolding sync_rows
  sync_rows-others findings rows =
      let existing = select (of_pr repository number) rows in
      let r = sync_loop now repository number head_sha digest existing [] findings rows in
      others-resolve_gone r.0 existing r.1 ∙ others-sync_loop existing [] findings rows
