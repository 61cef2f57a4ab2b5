-- ===== src/Reviewbot/Store/Findings/Sync.antt =====
-- src/reviewbot/storage.py: `_sync_findings` against the life cycle that it keeps for each
-- finding of a Pull Request.
use oh_my_robot.Prelude.{
  ℕ, ◌≤◌, Text, text_eq, text_eq_iff, Bool, true, false, ◌&&◌, ◌||◌, Option, none, some, List, [],
  ◌∷◌, ◌≡◌, refl, sym, ◌∙◌, arith, if◌then◌else◌, any, find, select, update, Bool-cases, inl, inr,
  is_some, count_if,
}
use oh_my_robot.Reviewbot.Models.{FindingRecord, ReviewFinding}
use oh_my_robot.Reviewbot.Findings.{finding_fingerprint}
use oh_my_robot.Reviewbot.Store.Findings.{
  of_pr, has_print, keyed, finding_row, upsert_finding, sync_loop, is_gone, resolve_gone, resolve,
}
use oh_my_robot.Reviewbot.Store.Findings.Upsert.{
  stored, map_option, row_of, row_of-upsert_finding, row_of-resolve,
}

module _ (digest : Text × Text × Text × Text → Text) where
  -- The first finding of a review that has the fingerprint.
  abbrev pub reported : Text → List ReviewFinding → Option ReviewFinding
  reported p = find (λ f. text_eq (finding_fingerprint digest f) p)

  module _ (now : ℕ) (repository : Text) (number : ℕ) (head_sha : Text) where
    -- The row of a finding that was reported, or not, over the row that was there.
    abbrev pub refreshed :
        Text
        → Option FindingRecord
        → Option ReviewFinding
        → Option FindingRecord
        → Option FindingRecord
    refreshed p previous none row = row
    refreshed p previous (some f) row =
        some (stored row (finding_row now repository number head_sha p previous f))

    skipped :
        (k p : Text) (seen : List Text) (f : ReviewFinding) (findings : List ReviewFinding)
        (previous row : Option FindingRecord)
        → k ≡ finding_fingerprint digest f
        → any (text_eq k) seen ≡ true
        → (if any (text_eq p) seen then row else refreshed p previous (reported p findings) row) ≡ (
            if any (text_eq p) seen
            then row
            else refreshed p previous (reported p (f ∷ findings)) row)
    skipped k p seen f findings previous row q t = elim (Bool-cases (text_eq k p)) [
      | inl e ↦ let t' : any (text_eq p) seen ≡ true = rw ((text_eq_iff k p).0 e) at t in rw t' refl
      | inr e ↦ let e' : text_eq (finding_fingerprint digest f) p ≡ false = rw q at e in rw e' refl
    ]

    taken :
        (k p : Text) (seen : List Text) (f : ReviewFinding) (findings : List ReviewFinding)
        (existing : List FindingRecord) (row : Option FindingRecord)
        → k ≡ finding_fingerprint digest f
        → any (text_eq k) seen ≡ false
        → (let row' =
              (if text_eq k p
                then some (
                    stored row (
                      finding_row now repository number head_sha k (find (has_print k) existing) f))
                else row) in
            if text_eq p k || any (text_eq p) seen
            then row'
            else refreshed p (find (has_print p) existing) (reported p findings) row')
          ≡ (if any (text_eq p) seen
              then row
              else refreshed p (find (has_print p) existing) (reported p (f ∷ findings)) row)
    taken k p seen f findings existing row q t = elim (Bool-cases (text_eq k p)) [
      | inl e ↦
          let same : k ≡ p = (text_eq_iff k p).0 e in
          let t' : any (text_eq p) seen ≡ false = rw same at t in
          let e' : text_eq (finding_fingerprint digest f) p ≡ true = rw q at e in
          let r : text_eq p k ≡ true = (text_eq_iff p k).1 (sym same) in
          rw (e, r, t', e', same) refl
      | inr e ↦
          let e' : text_eq (finding_fingerprint digest f) p ≡ false = rw q at e in
          let r : text_eq p k ≡ false = ground (arith, text_eq_iff p k, text_eq_iff k p) in
          rw (e, r, e') refl
    ]

    pub sync_loop-row_of :
        (existing : List FindingRecord) (p : Text) (seen : List Text)
        (findings : List ReviewFinding) (rows : List FindingRecord)
        → row_of repository number p
            (sync_loop now repository number head_sha digest existing seen findings rows).1
          ≡ (if any (text_eq p) seen
              then row_of repository number p rows
              else refreshed p
                  (find (has_print p) existing)
                  (reported p findings)
                  (row_of repository number p rows))
    unfolding sync_loop
    sync_loop-row_of existing p seen [] rows = ground arith
    sync_loop-row_of existing p seen (f ∷ findings) rows =
        let k = finding_fingerprint digest f in
        let row = finding_row now repository number head_sha k (find (has_print k) existing) f in
        elim (Bool-cases (any (text_eq k) seen)) [
          | inl t ↦ rw t (
              sync_loop-row_of existing p seen findings rows
              ∙ skipped k p seen f findings (find (has_print p) existing)
                  (row_of repository number p rows) refl t)
          | inr t ↦ rw t (
              sync_loop-row_of existing p (k ∷ seen) findings
                (upsert_finding repository number row rows)
              ∙ (rw (row_of-upsert_finding repository number p row rows refl refl)
                  (taken k p seen f findings existing (row_of repository number p rows) refl t)))
        ]

    -- The fingerprints met are those of the findings reported.
    pub sync_loop-seen :
        (existing : List FindingRecord) (p : Text) (seen : List Text)
        (findings : List ReviewFinding) (rows : List FindingRecord)
        → any
            (text_eq p)
            (sync_loop now repository number head_sha digest existing seen findings rows).0
          ≡ (any (text_eq p) seen || is_some (reported p findings))
    unfolding sync_loop
    sync_loop-seen existing p seen [] rows = ground arith
    sync_loop-seen existing p seen (f ∷ findings) rows =
        let k = finding_fingerprint digest f in
        let row = finding_row now repository number head_sha k (find (has_print k) existing) f in
        elim (Bool-cases (any (text_eq k) seen)) [
          | inl t ↦ rw t (
              sync_loop-seen existing p seen findings rows
              ∙ skipped_seen k p seen f findings refl t)
          | inr t ↦ rw t (
              sync_loop-seen existing p (k ∷ seen) findings
                (upsert_finding repository number row rows)
              ∙ taken_seen k p seen f findings refl)
        ]
      where
        skipped_seen :
            (k p : Text) (seen : List Text) (f : ReviewFinding) (findings : List ReviewFinding)
            → k ≡ finding_fingerprint digest f
            → any (text_eq k) seen ≡ true
            → (any (text_eq p) seen || is_some (reported p findings))
              ≡ (any (text_eq p) seen || is_some (reported p (f ∷ findings)))
        skipped_seen k p seen f findings q t = elim (Bool-cases (text_eq k p)) [
          | inl e ↦
              let t' : any (text_eq p) seen ≡ true = rw ((text_eq_iff k p).0 e) at t in rw t' refl
          | inr e ↦
              let e' : text_eq (finding_fingerprint digest f) p ≡ false = rw q at e in rw e' refl
        ]

        taken_seen :
            (k p : Text) (seen : List Text) (f : ReviewFinding) (findings : List ReviewFinding)
            → k ≡ finding_fingerprint digest f
            → (text_eq p k || any (text_eq p) seen || is_some (reported p findings))
              ≡ (any (text_eq p) seen || is_some (reported p (f ∷ findings)))
        taken_seen k p seen f findings q = elim (Bool-cases (text_eq k p)) [
          | inl e ↦
              let e' : text_eq (finding_fingerprint digest f) p ≡ true = rw q at e in
              let r : text_eq p k ≡ true = (text_eq_iff p k).1 (sym ((text_eq_iff k p).0 e)) in
              rw (r, e') (ground arith)
          | inr e ↦
              let e' : text_eq (finding_fingerprint digest f) p ≡ false = rw q at e in
              let r : text_eq p k ≡ false = ground (arith, text_eq_iff p k, text_eq_iff k p) in
              rw (r, e') refl
        ]

-- The rows that are resolved.
module _ (now : ℕ) (repository : Text) (number : ℕ) (head_sha : Text) where
  resolve_twice :
      (o : Option FindingRecord)
      → map_option (resolve now head_sha) (map_option (resolve now head_sha) o)
        ≡ map_option (resolve now head_sha) o
  resolve_twice none = refl
  resolve_twice (some r) = refl

  pub resolve_gone-row_of :
      (seen : List Text) (paths : Option (List Text)) (p : Text)
      (existing rows : List FindingRecord)
      → row_of repository number p
          (resolve_gone now repository number head_sha seen paths existing rows)
        ≡ (if any (λ r. has_print p r && is_gone seen paths r) existing
            then map_option (resolve now head_sha) (row_of repository number p rows)
            else row_of repository number p rows)
  unfolding resolve_gone
  resolve_gone-row_of seen paths p [] rows = refl
  resolve_gone-row_of seen paths p (r ∷ existing) rows = elim (Bool-cases (is_gone seen paths r)) [
    | inl t ↦ rw t (
        resolve_gone-row_of seen paths p existing
          (update (keyed repository number r.fingerprint) (resolve now head_sha) rows)
        ∙ rw (row_of-resolve repository number now head_sha p r.fingerprint rows)
            (ground (arith, resolve_twice (row_of repository number p rows))))
    | inr f ↦ rw f (resolve_gone-row_of seen paths p existing rows ∙ ground arith)
  ]

  pub select-print :
      (p : Text) (rows : List FindingRecord)
      → find (has_print p) (select (of_pr repository number) rows) ≡ row_of repository number p rows
  select-print p [] = refl
  select-print p (r ∷ rows) = ground (arith, select-print p rows)

  abbrev pub gone : List Text → Option (List Text) → Option FindingRecord → Bool
  gone seen paths none = false
  gone seen paths (some r) = is_gone seen paths r

  none_keyed :
      (seen : List Text) (paths : Option (List Text)) (p : Text) (rows : List FindingRecord)
      → count_if (keyed repository number p) rows ≡ 0
      → any (λ r. has_print p r && is_gone seen paths r) (select (of_pr repository number) rows)
        ≡ false
  none_keyed seen paths p [] h = refl
  none_keyed seen paths p (r ∷ rows) h = ground (arith, none_keyed seen paths p rows)

  pub select-gone :
      (seen : List Text) (paths : Option (List Text)) (p : Text) (rows : List FindingRecord)
      → count_if (keyed repository number p) rows ≤ 1
      → any (λ r. has_print p r && is_gone seen paths r) (select (of_pr repository number) rows)
        ≡ gone seen paths (row_of repository number p rows)
  select-gone seen paths p [] h = refl
  select-gone seen paths p (r ∷ rows) h =
      ground (arith, select-gone seen paths p rows, none_keyed seen paths p rows)
