-- ===== src/Reviewbot/Reviewer/Sorting.antt =====
-- src/reviewbot/reviewer.py: the order of the merged findings, and what the cut at 20 drops.
use oh_my_robot.Prelude.{
  ℕ, suc, zero, ◌≤◌, Text, text_eq, text_eq_iff, text_leb, text_leb_total, text_leb_trans, Bool,
  true, false, List, [], ◌∷◌, ◌≡◌, ◌⊎◌, arith, sym, In, Bool-cases, inl, inr, refl, take, length,
  if◌then◌else◌, leb,
}
use oh_my_robot.Reviewbot.Models.{ReviewFinding, priority_order}
use oh_my_robot.Reviewbot.Reviewer.{finding_leb, insert_sorted, sort_findings, same_key}
use oh_my_robot.Reviewbot.Reviewer.Merging.{Distinct, same_key-sym}

finding_leb-total : (f g : ReviewFinding) → finding_leb f g ≡ false → finding_leb g f ≡ true
unfolding finding_leb
finding_leb-total f g h =
    ground
      (arith, text_leb_total f.path g.path, text_eq_iff f.path g.path, text_eq_iff g.path f.path)

finding_leb-urgent :
    (f g : ReviewFinding)
    → finding_leb f g ≡ true
    → priority_order f.priority ≤ priority_order g.priority
unfolding finding_leb
finding_leb-urgent f g h = ground arith

text_leb-antisym : (s t : Text) → text_leb s t ≡ true → text_leb t s ≡ true → s ≡ t
unfolding text_leb
text_leb-antisym [] [] h k = refl
text_leb-antisym [] (b ∷ t) h k = ground arith
text_leb-antisym (a ∷ s) [] h k = ground arith
text_leb-antisym (a ∷ s) (b ∷ t) h k = ground (arith, text_leb-antisym s t)

-- The order by path, then by line.
abbrev place_leb : Text → ℕ → Text → ℕ → Bool
place_leb s a t b = if text_eq s t then leb a b else text_leb s t

place_leb_trans :
    (s t u : Text) (a b c : ℕ)
    → place_leb s a t b ≡ true
    → place_leb t b u c ≡ true
    → place_leb s a u c ≡ true
place_leb_trans s t u a b c h k = elim (Bool-cases (text_eq s t)) [
  | inl p ↦
      let e : s ≡ t = (text_eq_iff s t).0 p in
      let h' : leb a b ≡ true = ground (arith, h, p) in rw e (ground (arith, k, h'))
  | inr p ↦ elim (Bool-cases (text_eq t u)) [
    | inl q ↦ let e : t ≡ u = (text_eq_iff t u).0 q in rw (sym e) (ground (arith, h, p))
    | inr q ↦
        let h' : text_leb s t ≡ true = ground (arith, h, p) in
        let k' : text_leb t u ≡ true = ground (arith, k, q) in
        elim (Bool-cases (text_eq s u)) [
          | inl r ↦
              let e : s ≡ u = (text_eq_iff s u).0 r in
              let k'' : text_leb t s ≡ true = rw (sym e) at k' in
              absurd (ground (arith, p, text_eq_iff s t, text_leb-antisym s t h' k''))
          | inr r ↦ ground (arith, text_leb_trans s t u h' k')
        ]
  ]
]

finding_leb_trans :
    (f g h : ReviewFinding)
    → finding_leb f g ≡ true
    → finding_leb g h ≡ true
    → finding_leb f h ≡ true
unfolding finding_leb
finding_leb_trans f g h a b =
    ground (arith, place_leb_trans f.path g.path h.path f.line g.line h.line)

-- Each finding is at or before those after it.
abbrev pub Sorted : List ReviewFinding → Type 0
Sorted [] = Unit
Sorted (f ∷ fs) = ((g : ReviewFinding) → In g fs → finding_leb f g ≡ true) × Sorted fs

insert-In :
    (f g : ReviewFinding) (fs : List ReviewFinding) → In g (insert_sorted f fs) → (g ≡ f) ⊎ In g fs
unfolding insert_sorted
insert-In f g [] i = i
insert-In f g (x ∷ fs) i = elim (Bool-cases (finding_leb f x)) [
  | inl t ↦ let i' : In g (f ∷ x ∷ fs) = rw t at i in i'
  | inr t ↦ elim (let i' : In g (x ∷ insert_sorted f fs) = rw t at i in i') [
    | inl e ↦ inr (inl e)
    | inr j ↦ elim (insert-In f g fs j) [ inl e ↦ inl e | inr k ↦ inr (inr k) ]
  ]
]

In-insert :
    (f g : ReviewFinding) (fs : List ReviewFinding) → (g ≡ f) ⊎ In g fs → In g (insert_sorted f fs)
unfolding insert_sorted
In-insert f g [] i = i
In-insert f g (x ∷ fs) i = elim (Bool-cases (finding_leb f x)) [
  | inl t ↦ rw t i
  | inr t ↦ rw t (elim i [
    | inl e ↦ inr (In-insert f g fs (inl e))
    | inr (inl e) ↦ inl e
    | inr (inr j) ↦ inr (In-insert f g fs (inr j))
  ])
]

pub sort-In : (g : ReviewFinding) (fs : List ReviewFinding) → In g (sort_findings fs) → In g fs
unfolding sort_findings
sort-In g [] i = i
sort-In g (f ∷ fs) i = elim (insert-In f g (sort_findings fs) i) [
  | inl e ↦ inl e
  | inr j ↦ inr (sort-In g fs j)
]

pub In-sort : (g : ReviewFinding) (fs : List ReviewFinding) → In g fs → In g (sort_findings fs)
unfolding sort_findings
In-sort g [] i = i
In-sort g (f ∷ fs) (inl e) = In-insert f g (sort_findings fs) (inl e)
In-sort g (f ∷ fs) (inr i) = In-insert f g (sort_findings fs) (inr (In-sort g fs i))

insert-Sorted :
    (f : ReviewFinding) (fs : List ReviewFinding) → Sorted fs → Sorted (insert_sorted f fs)
unfolding insert_sorted
insert-Sorted f [] s = (λ g i. elim i [ ], tt)
insert-Sorted f (x ∷ fs) (a, s) = elim (Bool-cases (finding_leb f x)) [
  | inl t ↦
      rw t (λ g i. elim i [ inl e ↦ rw e t | inr j ↦ finding_leb_trans f x g t (a g j) ], (a, s))
  | inr t ↦ rw t (
    λ g i. elim (insert-In f g fs i) [ inl e ↦ rw e (finding_leb-total f x t) | inr j ↦ a g j ],
    insert-Sorted f fs s,
  )
]

pub sort-Sorted : (fs : List ReviewFinding) → Sorted (sort_findings fs)
unfolding sort_findings
sort-Sorted [] = tt
sort-Sorted (f ∷ fs) = insert-Sorted f (sort_findings fs) (sort-Sorted fs)

insert-Distinct :
    (f : ReviewFinding) (fs : List ReviewFinding)
    → ((g : ReviewFinding) → In g fs → (same_key f g ≡ false) × (same_key g f ≡ false))
    → Distinct fs
    → Distinct (insert_sorted f fs)
unfolding insert_sorted
insert-Distinct f [] a d = (λ g i. elim i [ ], tt)
insert-Distinct f (x ∷ fs) a (b, d) = elim (Bool-cases (finding_leb f x)) [
  | inl t ↦ rw t (λ g i. (a g i).0, (b, d))
  | inr t ↦ rw t (
    λ g i. elim (insert-In f g fs i) [ inl e ↦ rw e (a x (inl refl)).1 | inr j ↦ b g j ],
    insert-Distinct f fs (λ g i. a g (inr i)) d,
  )
]

pub sort-Distinct : (fs : List ReviewFinding) → Distinct fs → Distinct (sort_findings fs)
unfolding sort_findings
sort-Distinct [] d = tt
sort-Distinct (f ∷ fs) (a, d) =
    insert-Distinct f (sort_findings fs)
      (λ g i. (a g (sort-In g fs i), ground (arith, a g (sort-In g fs i), same_key-sym g f)))
      (sort-Distinct fs d)

pub take-In : (n : ℕ) (g : ReviewFinding) (fs : List ReviewFinding) → In g (take n fs) → In g fs
take-In zero g fs i = elim i [ ]
take-In (suc n) g [] i = i
take-In (suc n) g (f ∷ fs) (inl e) = inl e
take-In (suc n) g (f ∷ fs) (inr i) = inr (take-In n g fs i)

pub take-Sorted : (n : ℕ) (fs : List ReviewFinding) → Sorted fs → Sorted (take n fs)
take-Sorted zero fs s = tt
take-Sorted (suc n) [] s = tt
take-Sorted (suc n) (f ∷ fs) (a, s) = (λ g i. a g (take-In n g fs i), take-Sorted n fs s)

pub take-Distinct : (n : ℕ) (fs : List ReviewFinding) → Distinct fs → Distinct (take n fs)
take-Distinct zero fs s = tt
take-Distinct (suc n) [] s = tt
take-Distinct (suc n) (f ∷ fs) (a, s) = (λ g i. a g (take-In n g fs i), take-Distinct n fs s)

-- What the cut drops comes after all that it keeps, and it drops only when it is full.
pub take-most :
    (n : ℕ) (g : ReviewFinding) (fs : List ReviewFinding)
    → Sorted fs
    → In g fs
    → In g (take n fs)
      ⊎ ((length (take n fs) ≡ n)
          × ((k : ReviewFinding)
              → In k (take n fs)
              → priority_order k.priority ≤ priority_order g.priority))
take-most zero g fs s i = inr (refl, λ k j. elim j [ ])
take-most (suc n) g [] s i = elim i [ ]
take-most (suc n) g (f ∷ fs) (a, s) (inl e) = inl (inl e)
take-most (suc n) g (f ∷ fs) (a, s) (inr i) = elim (take-most n g fs s i) [
  | inl j ↦ inl (inr j)
  | inr (e, b) ↦ inr (
    omega (arith, e),
    λ k j. elim j [ inl q ↦ rw q (finding_leb-urgent f g (a g i)) | inr m ↦ b k m ],
  )
]
