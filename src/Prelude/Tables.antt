-- ===== src/Prelude/Tables.antt =====
-- SQL statements over a table that is the list of its rows, in the order of their row ids.
use Prim.Native.Nat.{◌≤◌}
use mathlib.Core.Path.{◌≡◌, refl}
use mathlib.Core.Logic.{◌⊎◌, inl, inr}
use mathlib.Core.Bool.{Bool, true, false}
use mathlib.Core.List.{List, [], ◌∷◌}
use mathlib.Core.Option.{Option, none, some}
use native.Mathlib.Omega.{arith}
use oh_my_robot.Prelude.Tests.{if◌then◌else◌, Bool-cases, Option-cases}
use oh_my_robot.Prelude.Lists.{count_if, select, In}

module _ {ℓ} {A : Type ℓ} where
  -- `UPDATE … SET f WHERE p`; its row count is `count_if p`.
  abbrev pub update : (A → Bool) → (A → A) → List A → List A
  update p f [] = []
  update p f (x ∷ xs) = (if p x then f x else x) ∷ update p f xs

  -- An update counts a row only if the row counted before, or was one of the rows updated.
  pub count_if-update-le :
      (q p : A → Bool) (f : A → A)
      → ((x : A) → q (f x) ≡ true → q x ≡ true)
      → (xs : List A) → count_if q (update p f xs) ≤ count_if q xs
  count_if-update-le q p f keep [] = omega arith
  count_if-update-le q p f keep (x ∷ xs) = ground (arith, keep x, count_if-update-le q p f keep xs)

  -- An update that keeps the test on each row keeps the count.
  pub count_if-update-eq :
      (q p : A → Bool) (f : A → A)
      → ((x : A) → q (f x) ≡ q x)
      → (xs : List A) → count_if q (update p f xs) ≡ count_if q xs
  count_if-update-eq q p f keep [] = refl
  count_if-update-eq q p f keep (x ∷ xs) = ground (arith, keep x, count_if-update-eq q p f keep xs)

  pub update_none :
      (p : A → Bool) (f : A → A) (xs : List A) → count_if p xs ≡ 0 → update p f xs ≡ xs
  update_none p f [] h = refl
  update_none p f (x ∷ xs) h = ground (arith, update_none p f xs)

  pub count_if-le_of :
      (p q : A → Bool)
      → ((x : A) → p x ≡ true → q x ≡ true)
      → (xs : List A) → count_if p xs ≤ count_if q xs
  count_if-le_of p q imp [] = omega arith
  count_if-le_of p q imp (x ∷ xs) = ground (arith, imp x, count_if-le_of p q imp xs)

  pub count_if-pos_of_In :
      (p : A → Bool) (c : A) (xs : List A) → In c xs → p c ≡ true → 1 ≤ count_if p xs
  count_if-pos_of_In p c [] i h = elim i [ ]
  count_if-pos_of_In p c (x ∷ xs) (inl e) h = let h' : p x ≡ true = rw e at h in ground arith
  count_if-pos_of_In p c (x ∷ xs) (inr i) h = ground (arith, count_if-pos_of_In p c xs i h)

  pub not-In_of_zero :
      (p : A → Bool) (c : A) (xs : List A) → count_if p xs ≡ 0 → In c xs → p c ≡ false
  not-In_of_zero p c xs z i = elim (Bool-cases (p c)) [
    | inl t ↦ absurd (omega (arith, count_if-pos_of_In p c xs i t))
    | inr f ↦ f
  ]

  pub count_if-zero : (p : A → Bool) (xs : List A) → ((x : A) → p x ≡ false) → count_if p xs ≡ 0
  count_if-zero p [] h = refl
  count_if-zero p (x ∷ xs) h = ground (arith, h x, count_if-zero p xs h)

  pub In-select : (p : A → Bool) (c : A) (xs : List A) → In c (select p xs) → In c xs × (p c ≡ true)
  In-select p c [] i = elim i [ ]
  In-select p c (x ∷ xs) i = elim (Bool-cases (p x)) [
    | inl t ↦ elim (let i' : In c (x ∷ select p xs) = rw t at i in i') [
      | inl e ↦ (inl e, rw e t)
      | inr j ↦ (inr (In-select p c xs j).0, (In-select p c xs j).1)
    ]
    | inr f ↦
        let j : In c (select p xs) = rw f at i in
        (inr (In-select p c xs j).0, (In-select p c xs j).1)
  ]

  pub select-In : (p : A → Bool) (c : A) (xs : List A) → In c xs → p c ≡ true → In c (select p xs)
  select-In p c [] i h = i
  select-In p c (x ∷ xs) (inl e) h = let h' : p x ≡ true = rw e at h in rw h' (inl e)
  select-In p c (x ∷ xs) (inr i) h = elim (Bool-cases (p x)) [
    | inl t ↦ rw t (inr (select-In p c xs i h))
    | inr f ↦ rw f (select-In p c xs i h)
  ]

-- `SELECT … ORDER BY leb LIMIT 1`.
module _ {ℓ} {A : Type ℓ} (leb : A → A → Bool) where
  abbrev pub pick : A → Option A → Option A
  pick x none = some x
  pick x (some y) = if leb x y then some x else some y

  abbrev pub first_by : List A → Option A
  first_by [] = none
  first_by (x ∷ xs) = pick x (first_by xs)

  not-In_nil : (xs : List A) (e : A) → xs ≡ [] → In e xs → ⊥
  not-In_nil [] e h i = elim i [ ]
  not-In_nil (x ∷ xs) e h i = ground arith

  pub first_by-none : (xs : List A) → first_by xs ≡ none → xs ≡ []
  first_by-none [] h = refl
  first_by-none (x ∷ xs) h = ground arith

  pick-cases : (x : A) (o : Option A) (c : A) → pick x o ≡ some c → (c ≡ x) ⊎ (o ≡ some c)
  pick-cases x none c h = inl (ground arith)
  pick-cases x (some y) c h = elim (Bool-cases (leb x y)) [
    | inl t ↦ inl (ground arith)
    | inr f ↦ inr (ground arith)
  ]

  pub first_by-In : (xs : List A) (c : A) → first_by xs ≡ some c → In c xs
  first_by-In [] c h = absurd (ground arith)
  first_by-In (x ∷ xs) c h = elim (pick-cases x (first_by xs) c h) [
    | inl e ↦ inl e
    | inr e ↦ inr (first_by-In xs c e)
  ]

  module _ (total : (a b : A) → leb a b ≡ false → leb b a ≡ true)
      (trans : (a b c : A) → leb a b ≡ true → leb b c ≡ true → leb a c ≡ true)
      (reflexive : (a : A) → leb a a ≡ true) where
    pick-least :
        (x : A) (o : Option A) (c : A)
        → pick x o ≡ some c
        → (leb c x ≡ true) × ((y : A) → o ≡ some y → leb c y ≡ true)
    pick-least x none c h = (ground (arith, reflexive x), λ y e. cc)
    pick-least x (some z) c h = elim (Bool-cases (leb x z)) [
      | inl t ↦ (ground (arith, reflexive x), λ y e. ground arith)
      | inr f ↦ (ground (arith, total x z), λ y e. ground (arith, reflexive z))
    ]

    -- The row selected comes before every row of the table.
    pub first_by-least :
        (xs : List A) (c : A) → first_by xs ≡ some c → (e : A) → In e xs → leb c e ≡ true
    first_by-least [] c h e i = elim i [ ]
    first_by-least (x ∷ xs) c h e (inl p) = rw p (pick-least x (first_by xs) c h).0
    first_by-least (x ∷ xs) c h e (inr i) = elim (Option-cases (first_by xs)) [
      | inl q ↦ absurd (not-In_nil xs e (first_by-none xs q) i)
      | inr (y, q) ↦
          trans c y e ((pick-least x (first_by xs) c h).1 y q) (first_by-least xs y q e i)
    ]
