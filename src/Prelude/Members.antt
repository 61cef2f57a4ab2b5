-- ===== src/Prelude/Members.antt =====
-- Elements of lists that are mapped, cut, or found by a test.
use Prim.Native.Nat.{ℕ, zero, suc, ◌≤◌}
use mathlib.Core.Path.{◌≡◌, refl, sym, ap, subst, ◌∙◌}
use mathlib.Core.Logic.{inl, inr}
use mathlib.Core.Bool.{Bool, true, false}
use mathlib.Core.List.{List, [], ◌∷◌, ◌++◌, map}
use native.Mathlib.Omega.{arith}
use mathlib.Core.Option.{some}
use oh_my_robot.Prelude.Tests.{if◌then◌else◌, Bool-cases}
use oh_my_robot.Prelude.Lists.{In, find, any, take, count_if, length}
use oh_my_robot.Prelude.Tables.{update, count_if-pos_of_In}

module _ {ℓ} {A : Type ℓ} where
  pub In-take : (n : ℕ) (c : A) (xs : List A) → In c (take n xs) → In c xs
  In-take zero c xs i = elim i [ ]
  In-take (suc n) c [] i = i
  In-take (suc n) c (x ∷ xs) (inl e) = inl e
  In-take (suc n) c (x ∷ xs) (inr i) = inr (In-take n c xs i)

  pub any-In : (p : A → Bool) (xs : List A) → any p xs ≡ true → (c : A) × In c xs × (p c ≡ true)
  any-In p [] h = absurd (ground arith)
  any-In p (x ∷ xs) h = elim (Bool-cases (p x)) [
    | inl t ↦ (x, inl refl, t)
    | inr f ↦ let (c, i, t) = any-In p xs (ground arith) in (c, inr i, t)
  ]

  pub In-any : (p : A → Bool) (c : A) (xs : List A) → In c xs → p c ≡ true → any p xs ≡ true
  In-any p c [] i h = elim i [ ]
  In-any p c (x ∷ xs) (inl e) h = let h' : p x ≡ true = rw e at h in ground arith
  In-any p c (x ∷ xs) (inr i) h = ground (arith, In-any p c xs i h)

  -- Two elements that pass a test which at most one element passes are the same.
  pub one_In :
      (p : A → Bool) (a b : A) (xs : List A)
      → count_if p xs ≤ 1
      → In a xs
      → In b xs
      → p a ≡ true
      → p b ≡ true
      → a ≡ b
  one_In p a b [] one i j h k = elim i [ ]
  one_In p a b (x ∷ xs) one (inl e) (inl q) h k = e ∙ sym q
  one_In p a b (x ∷ xs) one (inl e) (inr j) h k =
      let h' : p x ≡ true = rw e at h in absurd (ground (arith, count_if-pos_of_In p b xs j k))
  one_In p a b (x ∷ xs) one (inr i) (inl q) h k =
      let k' : p x ≡ true = rw q at k in absurd (ground (arith, count_if-pos_of_In p a xs i h))
  one_In p a b (x ∷ xs) one (inr i) (inr j) h k = one_In p a b xs (ground (arith, one)) i j h k

  -- No row counts after an update when none does, whether it was updated or kept.
  pub count_if-update-zero :
      (q p : A → Bool) (f : A → A)
      → ((x : A) → q (if p x then f x else x) ≡ false)
      → (xs : List A) → count_if q (update p f xs) ≡ 0
  count_if-update-zero q p f h [] = refl
  count_if-update-zero q p f h (x ∷ xs) = ground (arith, h x, count_if-update-zero q p f h xs)

  pub find-In : (p : A → Bool) (c : A) (xs : List A) → find p xs ≡ some c → In c xs × (p c ≡ true)
  find-In p c [] h = absurd (ground arith)
  find-In p c (x ∷ xs) h = elim (Bool-cases (p x)) [
    | inl t ↦ let e : x ≡ c = ground (arith, h, t) in (inl (sym e), subst (λ y. p y ≡ true) e t)
    | inr f ↦ let (i, t) = find-In p c xs (ground (arith, h, f)) in (inr i, t)
  ]

  pub In-append-left : (c : A) (xs ys : List A) → In c xs → In c (xs ++ ys)
  In-append-left c [] ys i = elim i [ ]
  In-append-left c (x ∷ xs) ys (inl e) = inl e
  In-append-left c (x ∷ xs) ys (inr i) = inr (In-append-left c xs ys i)

  pub In-append : (c : A) (xs ys : List A) → In c ys → In c (xs ++ ys)
  In-append c [] ys i = i
  In-append c (x ∷ xs) ys i = inr (In-append c xs ys i)

  pub length-update : (p : A → Bool) (f : A → A) (xs : List A) → length (update p f xs) ≡ length xs
  length-update p f [] = refl
  length-update p f (x ∷ xs) = ap suc (length-update p f xs)

  pub zero-any : (p : A → Bool) (xs : List A) → count_if p xs ≡ 0 → any p xs ≡ false
  zero-any p [] h = refl
  zero-any p (x ∷ xs) h = ground (arith, zero-any p xs)

  pub update-In :
      (p : A → Bool) (f : A → A) (x : A) (xs : List A)
      → In x xs
      → In (if p x then f x else x) (update p f xs)
  update-In p f x [] i = i
  update-In p f x (y ∷ xs) (inl e) = inl (ap (λ z. if p z then f z else z) e)
  update-In p f x (y ∷ xs) (inr i) = inr (update-In p f x xs i)

module _ {ℓ κ} {A : Type ℓ} {B : Type κ} where
  pub In-map : (f : A → B) (y : B) (xs : List A) → In y (map f xs) → (x : A) × In x xs × (y ≡ f x)
  In-map f y [] i = elim i [ ]
  In-map f y (x ∷ xs) (inl e) = (x, inl refl, e)
  In-map f y (x ∷ xs) (inr i) = let (c, j, e) = In-map f y xs i in (c, inr j, e)

  pub map-In : (f : A → B) (x : A) (xs : List A) → In x xs → In (f x) (map f xs)
  map-In f x [] i = elim i [ ]
  map-In f x (y ∷ xs) (inl e) = inl (ap f e)
  map-In f x (y ∷ xs) (inr i) = inr (map-In f x xs i)
