-- ===== src/Robomp/Pragmas/Lookup.antt =====
-- src/robomp/pragmas.py: the value of a key among the pragmas, and the model that an alias names.
use oh_my_robot.Prelude.{
  Text, text_eq, text_eq_iff, lower, strip, Bool, true, false, Option, none, some, List, [], ◌∷◌,
  ◌++◌, ◌≡◌, ◌⊎◌, refl, sym, subst, ap, ◌∙◌, arith, inl, inr, if◌then◌else◌, any, find, contains,
  after_last, Bool-cases, Option-cases,
}
use oh_my_robot.Robomp.Pragmas.{
  Pragma, is_empty_text, value_from, pragma_value, or_text, short_name, keep_first, match_model,
  resolve_model_alias,
}

abbrev pub names : Text → Pragma → Bool
names key p = text_eq p.0 key

-- The pragmas hold the value under the key, and the key does not occur after it.
pub record IsLast (key value : Text) (pragmas : List Pragma) : Type 0 where
  pub before : List Pragma
  pub behind : List Pragma
  pub splits : pragmas ≡ before ++ (key, value) ∷ behind
  pub last : any (names key) behind ≡ false

abbrev pub ValueOf : Text → Option Text → List Pragma → Type 0
ValueOf key none pragmas = any (names key) pragmas ≡ false
ValueOf key (some value) pragmas = IsLast key value pragmas

-- The loop gives the last value of the key, or what it began with when there is none.
value_from-cases :
    (key : Text) (r : Option Text) (pragmas : List Pragma)
    → ((value_from key r pragmas ≡ r) × (any (names key) pragmas ≡ false))
      ⊎ ((value : Text) × (value_from key r pragmas ≡ some value) × IsLast key value pragmas)
value_from-cases key r [] = inl (refl, refl)
value_from-cases key r ((k, v) ∷ pragmas) =
    elim (value_from-cases key (if text_eq k key then some v else r) pragmas) [
      | inr (value, e, l) ↦ inr (
        value,
        e,
        record {
          before = (k, v) ∷ l.before;
          behind = l.behind;
          splits = ap (◌∷◌ (k, v)) l.splits;
          last = l.last;
        },
      )
      | inl (e, n) ↦ elim (Bool-cases (text_eq k key)) [
        | inr f ↦ inl (ground (arith, e, f), ground (arith, n, f))
        | inl t ↦ inr (
          v,
          ground (arith, e, t),
          record {
            before = [];
            behind = pragmas;
            splits = ap (λ x. (x, v) ∷ pragmas) ((text_eq_iff k key).0 t);
            last = n;
          },
        )
      ]
    ]

-- `pragma_value` returns the value of the last pragma whose key is the key asked for in lower case,
-- and nothing when no pragma has that key.
pub pragma_value-last :
    (pragmas : List Pragma) (key : Text) → ValueOf (lower key) (pragma_value pragmas key) pragmas
unfolding pragma_value
pragma_value-last pragmas key = elim (value_from-cases (lower key) none pragmas) [
  | inl (e, n) ↦ subst (λ o. ValueOf (lower key) o pragmas) (sym e) n
  | inr (value, e, l) ↦ subst (λ o. ValueOf (lower key) o pragmas) (sym e) l
]

abbrev pub first_of : Option Text → Option Text → Option Text
first_of none other = other
first_of (some x) other = some x

abbrev pub full_match : Text → Text → Bool
full_match needle model = text_eq (lower model) needle

abbrev pub short_match : Text → Text → Bool
short_match needle model = text_eq (short_name (lower model)) needle

abbrev pub part_match : Text → Text → Bool
part_match needle model = contains needle (lower model)

-- The first full match of the pool, else the first by the short name, else the first that contains it.
abbrev pub best_match : Text → List Text → Option Text
best_match needle pool =
    first_of (find (full_match needle) pool)
      (first_of (find (short_match needle) pool) (find (part_match needle) pool))

or_else_none : (o : Option Text) → first_of o none ≡ o
or_else_none none = refl
or_else_none (some x) = refl

keep_first-or_else :
    (e : Option Text) (hit : Bool) (model : Text) (o : Option Text)
    → first_of (keep_first e hit model) o ≡ first_of e (if hit then some model else o)
keep_first-or_else none true model o = refl
keep_first-or_else none false model o = refl
keep_first-or_else (some x) hit model o = refl

match_model-find :
    (needle : Text) (e p : Option Text) (pool : List Text)
    → match_model needle e p pool
      ≡ first_of (find (full_match needle) pool) (
          or_text
            (first_of e (find (short_match needle) pool))
            (first_of p (find (part_match needle) pool)))
unfolding match_model
match_model-find needle e p [] = rw or_else_none (rw or_else_none refl)
match_model-find needle e p (model ∷ pool) = elim (Bool-cases (full_match needle model)) [
  | inl t ↦ ground (arith, t)
  | inr f ↦ ground (
    arith,
    f,
    match_model-find needle (keep_first e (short_match needle model) model)
        (keep_first p (part_match needle model) model) pool,
    keep_first-or_else e (short_match needle model) model (find (short_match needle) pool),
    keep_first-or_else p (part_match needle model) model (find (part_match needle) pool),
  )
]

find-holds :
    (p : Text → Bool) (pool : List Text) (model : Text) → find p pool ≡ some model → p model ≡ true
find-holds p [] model h = absurd (ground arith)
find-holds p (x ∷ pool) model h = elim (Bool-cases (p x)) [
  | inl t ↦ let e : x ≡ model = ground arith in subst (λ y. p y ≡ true) e t
  | inr f ↦ find-holds p pool model (ground arith)
]

-- A model found by its short name has one, so `or` does not pass it over.
short_match-or_text :
    (needle : Text) (pool : List Text) (other : Option Text)
    → is_empty_text needle ≡ false
    → or_text (find (short_match needle) pool) other
      ≡ first_of (find (short_match needle) pool) other
unfolding lower after_last text_eq
short_match-or_text needle pool other n = elim (Option-cases (find (short_match needle) pool)) [
  | inl e ↦ rw e refl
  | inr ([], e) ↦
      let h : text_eq [] needle ≡ true = find-holds (short_match needle) pool [] e in
      let q : [] ≡ needle = (text_eq_iff [] needle).0 h in
      absurd (ground (arith, subst (λ x. is_empty_text x ≡ false) (sym q) n))
  | inr (c ∷ s, e) ↦ rw e refl
]

-- For an alias that is not blank, `resolve_model_alias` returns, with the alias stripped and in lower
-- case and each model in lower case: the first model of the pool that equals it; when there is none,
-- the first whose part after the last slash equals it; when there is none, the first that contains it.
pub resolve_model_alias-best :
    (alias : Text) (pool : List Text)
    → is_empty_text (lower (strip alias)) ≡ false
    → resolve_model_alias alias pool ≡ best_match (lower (strip alias)) pool
unfolding resolve_model_alias
resolve_model_alias-best alias pool n =
    let needle = lower (strip alias) in
    rw n (
      match_model-find needle none none pool
      ∙ ap (first_of (find (full_match needle) pool))
          (short_match-or_text needle pool (find (part_match needle) pool) n))
