-- ===== src/Reviewbot/Reviewer/Merging.antt =====
-- src/reviewbot/reviewer.py: what a merge of the batches keeps of the findings of each.
use oh_my_robot.Prelude.{
  ◌≤◌, Text, text_eq, text_eq_iff, lower, strip, true, false, List, [], ◌∷◌, ◌≡◌, ◌⊎◌, arith, In,
  Bool-cases, inl, inr, refl,
}
use oh_my_robot.Reviewbot.Models.{ReviewFinding, ReviewResult, priority_order}
use oh_my_robot.Reviewbot.Reviewer.{same_key, more_urgent, put_finding, put_findings, by_key}

-- A finding of the same file, line and title that is at least as urgent stands in the list.
abbrev pub Covered : ReviewFinding → List ReviewFinding → Type 0
Covered f kept =
    (g : ReviewFinding) × In g kept
    × (same_key g f ≡ true)
    × (priority_order g.priority ≤ priority_order f.priority)

pub same_key_refl : (f : ReviewFinding) → same_key f f ≡ true
same_key_refl f =
    ground (
      arith,
      text_eq_iff f.path f.path,
      text_eq_iff (lower (strip f.title)) (lower (strip f.title)),
    )

text_eq_trans : (s t u : Text) → text_eq s t ≡ true → text_eq t u ≡ true → text_eq s u ≡ true
text_eq_trans s t u h k = ground (arith, text_eq_iff s t, text_eq_iff t u, text_eq_iff s u)

text_eq-sym : (s t : Text) → text_eq s t ≡ true → text_eq t s ≡ true
text_eq-sym s t h = ground (arith, text_eq_iff s t, text_eq_iff t s)

same_key_trans :
    (f g h : ReviewFinding) → same_key f g ≡ true → same_key g h ≡ true → same_key f h ≡ true
same_key_trans f g h a b = ground (
  arith,
  text_eq_trans f.path g.path h.path,
  text_eq_trans (lower (strip f.title)) (lower (strip g.title)) (lower (strip h.title)),
)

pub same_key-sym : (f g : ReviewFinding) → same_key f g ≡ true → same_key g f ≡ true
same_key-sym f g a =
    ground (
      arith,
      text_eq-sym f.path g.path,
      text_eq-sym (lower (strip f.title)) (lower (strip g.title)),
    )

Covered-more :
    (f g : ReviewFinding) (kept : List ReviewFinding) → Covered f kept → Covered f (g ∷ kept)
Covered-more f g kept (h, i, s, p) = (h, inr i, s, p)

-- The finding put is covered.
put_finding-covers :
    (f : ReviewFinding) (kept : List ReviewFinding) → Covered f (put_finding f kept)
unfolding put_finding
put_finding-covers f [] = (f, inl refl, same_key_refl f, omega arith)
put_finding-covers f (g ∷ kept) = elim (Bool-cases (same_key g f)) [
  | inl s ↦ elim (Bool-cases (more_urgent f g)) [
    | inl u ↦ rw (s, u) (f, inl refl, same_key_refl f, omega arith)
    | inr u ↦ rw (s, u) (g, inl refl, s, ground arith)
  ]
  | inr s ↦ rw s (Covered-more f g (put_finding f kept) (put_finding-covers f kept))
]

-- What was covered stays covered.
put_finding-keeps :
    (f h : ReviewFinding) (kept : List ReviewFinding)
    → Covered h kept
    → Covered h (put_finding f kept)
unfolding put_finding
put_finding-keeps f h [] (g, i, s, p) = elim i [ ]
put_finding-keeps f h (x ∷ kept) (g, inr i, s, p) = elim (Bool-cases (same_key x f)) [
  | inl t ↦ elim (Bool-cases (more_urgent f x)) [
    | inl u ↦ rw (t, u) (g, inr i, s, p)
    | inr u ↦ rw (t, u) (g, inr i, s, p)
  ]
  | inr t ↦ rw t (Covered-more h x (put_finding f kept) (put_finding-keeps f h kept (g, i, s, p)))
]
put_finding-keeps f h (x ∷ kept) (g, inl e, s, p) = elim (Bool-cases (same_key x f)) [
  | inl t ↦ elim (Bool-cases (more_urgent f x)) [
    | inl u ↦
        let s' : same_key x h ≡ true = rw e at s in
        let p' : priority_order x.priority ≤ priority_order h.priority = rw e at p in
        rw (t, u) (f, inl refl, same_key_trans f x h (same_key-sym x f t) s', ground arith)
    | inr u ↦ rw (t, u) (g, inl e, s, p)
  ]
  | inr t ↦ rw t (g, inl e, s, p)
]

put_findings-keeps :
    (fs : List ReviewFinding) (h : ReviewFinding) (kept : List ReviewFinding)
    → Covered h kept
    → Covered h (put_findings fs kept)
unfolding put_findings
put_findings-keeps [] h kept c = c
put_findings-keeps (f ∷ fs) h kept c =
    put_findings-keeps fs h (put_finding f kept) (put_finding-keeps f h kept c)

put_findings-covers :
    (fs : List ReviewFinding) (h : ReviewFinding) (kept : List ReviewFinding)
    → In h fs
    → Covered h (put_findings fs kept)
unfolding put_findings
put_findings-covers [] h kept i = elim i [ ]
put_findings-covers (f ∷ fs) h kept (inl e) =
    rw e (put_findings-keeps fs f (put_finding f kept) (put_finding-covers f kept))
put_findings-covers (f ∷ fs) h kept (inr i) = put_findings-covers fs h (put_finding f kept) i

by_key-keeps :
    (rs : List ReviewResult) (h : ReviewFinding) (kept : List ReviewFinding)
    → Covered h kept
    → Covered h (by_key rs kept)
unfolding by_key
by_key-keeps [] h kept c = c
by_key-keeps (r ∷ rs) h kept c =
    by_key-keeps rs h (put_findings r.findings kept) (put_findings-keeps r.findings h kept c)

pub by_key-covers :
    (rs : List ReviewResult) (r : ReviewResult) (h : ReviewFinding) (kept : List ReviewFinding)
    → In r rs
    → In h r.findings
    → Covered h (by_key rs kept)
unfolding by_key
by_key-covers [] r h kept i j = elim i [ ]
by_key-covers (x ∷ rs) r h kept (inl e) j =
    let j' : In h x.findings = rw e at j in
    by_key-keeps rs h (put_findings x.findings kept) (put_findings-covers x.findings h kept j')
by_key-covers (x ∷ rs) r h kept (inr i) j = by_key-covers rs r h (put_findings x.findings kept) i j

-- Nothing is invented.
put_finding-In :
    (f g : ReviewFinding) (kept : List ReviewFinding)
    → In g (put_finding f kept)
    → (g ≡ f) ⊎ In g kept
unfolding put_finding
put_finding-In f g [] i = i
put_finding-In f g (x ∷ kept) i = elim (Bool-cases (same_key x f)) [
  | inl t ↦ elim (Bool-cases (more_urgent f x)) [
    | inl u ↦ elim (let i' : In g (f ∷ kept) = rw (t, u) at i in i') [
      | inl e ↦ inl e
      | inr j ↦ inr (inr j)
    ]
    | inr u ↦ let i' : In g (x ∷ kept) = rw (t, u) at i in inr i'
  ]
  | inr t ↦ elim (let i' : In g (x ∷ put_finding f kept) = rw t at i in i') [
    | inl e ↦ inr (inl e)
    | inr j ↦ elim (put_finding-In f g kept j) [ inl e ↦ inl e | inr k ↦ inr (inr k) ]
  ]
]

put_findings-In :
    (fs : List ReviewFinding) (g : ReviewFinding) (kept : List ReviewFinding)
    → In g (put_findings fs kept)
    → In g fs ⊎ In g kept
unfolding put_findings
put_findings-In [] g kept i = inr i
put_findings-In (f ∷ fs) g kept i = elim (put_findings-In fs g (put_finding f kept) i) [
  | inl j ↦ inl (inr j)
  | inr j ↦ elim (put_finding-In f g kept j) [ inl e ↦ inl (inl e) | inr k ↦ inr k ]
]

pub by_key-In :
    (rs : List ReviewResult) (g : ReviewFinding) (kept : List ReviewFinding)
    → In g (by_key rs kept)
    → ((r : ReviewResult) × In r rs × In g r.findings) ⊎ In g kept
unfolding by_key
by_key-In [] g kept i = inr i
by_key-In (r ∷ rs) g kept i = elim (by_key-In rs g (put_findings r.findings kept) i) [
  | inl (q, j, k) ↦ inl (q, inr j, k)
  | inr j ↦ elim (put_findings-In r.findings g kept j) [
    | inl k ↦ inl (r, inl refl, k)
    | inr k ↦ inr k
  ]
]

-- No two findings of the list have the same key.
abbrev pub Distinct : List ReviewFinding → Type 0
Distinct [] = Unit
Distinct (f ∷ fs) = ((g : ReviewFinding) → In g fs → same_key f g ≡ false) × Distinct fs

put_finding-Distinct :
    (f : ReviewFinding) (kept : List ReviewFinding) → Distinct kept → Distinct (put_finding f kept)
unfolding put_finding
put_finding-Distinct f [] d = (λ g i. elim i [ ], tt)
put_finding-Distinct f (x ∷ kept) (a, d) = elim (Bool-cases (same_key x f)) [
  | inl t ↦ elim (Bool-cases (more_urgent f x)) [
    | inl u ↦ rw (t, u) (λ g i. ground (arith, a g i, same_key_trans x f g), d)
    | inr u ↦ rw (t, u) (a, d)
  ]
  | inr t ↦ rw t (
    λ g i. elim (put_finding-In f g kept i) [ inl e ↦ rw e t | inr j ↦ a g j ],
    put_finding-Distinct f kept d,
  )
]

put_findings-Distinct :
    (fs kept : List ReviewFinding) → Distinct kept → Distinct (put_findings fs kept)
unfolding put_findings
put_findings-Distinct [] kept d = d
put_findings-Distinct (f ∷ fs) kept d =
    put_findings-Distinct fs (put_finding f kept) (put_finding-Distinct f kept d)

pub by_key-Distinct :
    (rs : List ReviewResult) (kept : List ReviewFinding) → Distinct kept → Distinct (by_key rs kept)
unfolding by_key
by_key-Distinct [] kept d = d
by_key-Distinct (r ∷ rs) kept d =
    by_key-Distinct rs (put_findings r.findings kept) (put_findings-Distinct r.findings kept d)
