-- ===== src/Reviewbot/Store/Findings/Upsert.antt =====
-- src/reviewbot/storage.py: the INSERT … ON CONFLICT and the UPDATE of `_sync_findings`, as
-- operations on the map from fingerprints to rows of one Pull Request.
use oh_my_robot.Prelude.{
  ℕ, Text, text_eq, text_eq_iff, text_eq_refl, true, false, Option, none, some, List, [], ◌∷◌, ◌++◌,
  ◌≡◌, refl, arith, if◌then◌else◌, any, find, update, Bool-cases, inl, inr,
}
use oh_my_robot.Reviewbot.Models.{FindingRecord}
use oh_my_robot.Reviewbot.Store.Findings.{keyed, upsert_finding, resolve}

-- The row that an upsert leaves: an old row hands on its time of creation.
abbrev pub stored : Option FindingRecord → FindingRecord → FindingRecord
stored none row = row
stored (some old) row = record row { created_at = old.created_at }

abbrev pub map_option :
    (FindingRecord → FindingRecord) → Option FindingRecord → Option FindingRecord
map_option f none = none
map_option f (some r) = some (f r)

module _ (repository : Text) (number : ℕ) where
  abbrev pub row_of : Text → List FindingRecord → Option FindingRecord
  row_of p = find (keyed repository number p)

  any-false-row_of :
      (p : Text) (rows : List FindingRecord)
      → any (keyed repository number p) rows ≡ false
      → row_of p rows ≡ none
  any-false-row_of p [] h = refl
  any-false-row_of p (r ∷ rows) h = ground (arith, any-false-row_of p rows)

  any-true-row_of :
      (p : Text) (rows : List FindingRecord)
      → any (keyed repository number p) rows ≡ true
      → (r : FindingRecord) × (row_of p rows ≡ some r)
  any-true-row_of p [] h = absurd (ground arith)
  any-true-row_of p (r ∷ rows) h = elim (Bool-cases (keyed repository number p r)) [
    | inl t ↦ (r, rw t refl)
    | inr f ↦ rw f (any-true-row_of p rows (ground arith))
  ]

  -- A change to the rows of one key that keeps their key.
  row_of-update :
      (p k : Text) (g : FindingRecord → FindingRecord) (rows : List FindingRecord)
      → ((r : FindingRecord)
          → keyed repository number k r ≡ true
          → keyed repository number k (g r) ≡ true)
      → row_of p (update (keyed repository number k) g rows)
        ≡ (if text_eq k p then map_option g (row_of p rows) else row_of p rows)
  row_of-update p k g [] keep = ground arith
  row_of-update p k g (r ∷ rows) keep = ground (
    arith,
    keep r,
    row_of-update p k g rows keep,
    text_eq_iff k p,
    text_eq_iff r.fingerprint k,
    text_eq_iff r.fingerprint p,
    text_eq_iff (g r).fingerprint k,
    text_eq_iff (g r).fingerprint p,
  )

  row_of-append :
      (p : Text) (row : FindingRecord) (rows : List FindingRecord)
      → row_of p rows ≡ none
      → row_of p (rows ++ row ∷ []) ≡ row_of p (row ∷ [])
  row_of-append p row [] h = refl
  row_of-append p row (r ∷ rows) h = ground (arith, row_of-append p row rows)

  row_of-append_ne :
      (p : Text) (row : FindingRecord) (rows : List FindingRecord)
      → keyed repository number p row ≡ false
      → row_of p (rows ++ row ∷ []) ≡ row_of p rows
  row_of-append_ne p row [] h = ground arith
  row_of-append_ne p row (r ∷ rows) h = ground (arith, row_of-append_ne p row rows)

  -- After an upsert the key has the new row, and every other key what it had.
  pub row_of-upsert_finding :
      (p : Text) (row : FindingRecord) (rows : List FindingRecord)
      → row.repository ≡ repository
      → row.pull_request_number ≡ number
      → row_of p (upsert_finding repository number row rows)
        ≡ (if text_eq row.fingerprint p then some (stored (row_of p rows) row) else row_of p rows)
  unfolding upsert_finding
  row_of-upsert_finding p row rows hr hn =
      let keyed_row : keyed repository number row.fingerprint row ≡ true =
        rw (hr, hn) (ground (arith, text_eq_refl repository, text_eq_refl row.fingerprint)) in
      elim (Bool-cases (any (keyed repository number row.fingerprint) rows)) [
        | inl t ↦
            let (old, found) = any-true-row_of row.fingerprint rows t in
            rw t (
              ground (
                arith,
                found,
                row_of-update p row.fingerprint (λ old. record row { created_at = old.created_at })
                    rows (λ r h. keyed_row),
                text_eq_iff row.fingerprint p,
              ))
        | inr f ↦ rw f (elim (Bool-cases (text_eq row.fingerprint p)) [
          | inl e ↦ ground (
            arith,
            any-false-row_of row.fingerprint rows f,
            row_of-append p row rows,
            text_eq_iff row.fingerprint p,
            keyed_row,
          )
          | inr e ↦ ground (arith, row_of-append_ne p row rows)
        ])
      ]

  pub row_of-resolve :
      (now : ℕ) (head_sha p k : Text) (rows : List FindingRecord)
      → row_of p (update (keyed repository number k) (resolve now head_sha) rows)
        ≡ (if text_eq k p then map_option (resolve now head_sha) (row_of p rows) else row_of p rows)
  row_of-resolve now head_sha p k rows = row_of-update p k (resolve now head_sha) rows (λ r h. h)
