-- ===== src/Robomp/Slots.antt =====
-- src/robomp/slot_pool.py: the pool of the user ids that the sandboxes run under.
use oh_my_robot.Prelude.{
  ℕ, ◌+◌, ◌≤◌, Bool, true, false, not, Option, none, some, List, [], ◌∷◌, ◌++◌, ◌≡◌, refl, arith,
  ◌==◌, if◌then◌else◌, any, select, count_if, count_if-append, Bool-cases, inl, inr,
}

pub record SlotPool : Type 0 where
  pub slot_uids : List ℕ
  pub available : List ℕ
  pub checked_out : List ℕ

abbrev pub is_slot : ℕ → ℕ → Bool
is_slot uid x = x == uid

abbrev has_duplicate : List ℕ → Bool
has_duplicate [] = false
has_duplicate (x ∷ xs) = if any (is_slot x) xs then true else has_duplicate xs

-- `none` is the ValueError for ids that are not unique.
unfoldable pub new_pool : List ℕ → Option SlotPool
new_pool uids =
    if has_duplicate uids
    then none
    else some (record { slot_uids = uids; available = uids; checked_out = [] })

-- What `acquire` does when it is scheduled: it returns, or waits for the queue.
pub data Acquired : Type 0 where
  unpooled : Acquired
  acquired : ℕ → Acquired
  waiting : Acquired

abbrev is_empty : List ℕ → Bool
is_empty [] = true
is_empty (x ∷ xs) = false

unfoldable pub take_slot : List ℕ → SlotPool → SlotPool × Acquired
take_slot [] p = (p, waiting)
take_slot (uid ∷ rest) p =
    (record p { available = rest; checked_out = p.checked_out ++ uid ∷ [] }, acquired uid)

unfoldable pub acquire : SlotPool → SlotPool × Acquired
unfolding take_slot
acquire p = if is_empty p.slot_uids then (p, unpooled) else take_slot p.available p

-- `none` is the ValueError for an id that was not acquired.
unfoldable pub release_uid : ℕ → SlotPool → Option SlotPool
release_uid uid p =
    if any (is_slot uid) p.checked_out
    then some (record p {
      available = p.available ++ uid ∷ [];
      checked_out = select (λ x. not (x == uid)) p.checked_out;
    })
    else none

unfoldable pub release : Option ℕ → SlotPool → Option SlotPool
unfolding release_uid
release none p = if is_empty p.slot_uids then some p else none
release (some uid) p = release_uid uid p

-- Each slot id is in one place, the queue or the set, once; nothing else is in either.
pub record IsPool (p : SlotPool) : Type 0 where
  pub kept :
      (uid : ℕ)
      → count_if (is_slot uid) p.available + count_if (is_slot uid) p.checked_out
        ≡ count_if (is_slot uid) p.slot_uids
  pub unique : (uid : ℕ) → count_if (is_slot uid) p.slot_uids ≤ 1

count_if-any :
    (uid : ℕ) (xs : List ℕ) → any (is_slot uid) xs ≡ false → count_if (is_slot uid) xs ≡ 0
count_if-any uid [] h = refl
count_if-any uid (x ∷ xs) h = ground (arith, count_if-any uid xs)

has_duplicate-count :
    (uids : List ℕ) → has_duplicate uids ≡ false → (uid : ℕ) → count_if (is_slot uid) uids ≤ 1
has_duplicate-count [] h uid = omega arith
has_duplicate-count (x ∷ xs) h uid = elim (Bool-cases (x == uid)) [
  | inl t ↦
      let e : x ≡ uid = ground arith in
      let f : any (is_slot x) xs ≡ false = ground arith in
      let z : count_if (is_slot uid) xs ≡ 0 = rw (← e) (count_if-any x xs f) in ground (arith, z)
  | inr f ↦
      let g : has_duplicate xs ≡ false = ground arith in
      ground (arith, f, has_duplicate-count xs g uid)
]

any-count : (uid : ℕ) (xs : List ℕ) → any (is_slot uid) xs ≡ true → 1 ≤ count_if (is_slot uid) xs
any-count uid [] h = absurd (ground arith)
any-count uid (x ∷ xs) h = ground (arith, any-count uid xs)

dropped : (uid : ℕ) (xs : List ℕ) → count_if (is_slot uid) (select (λ x. not (x == uid)) xs) ≡ 0
dropped uid [] = refl
dropped uid (x ∷ xs) = ground (arith, dropped uid xs)

dropped_other :
    (uid u : ℕ) (xs : List ℕ)
    → (u == uid) ≡ false
    → count_if (is_slot u) (select (λ x. not (x == uid)) xs) ≡ count_if (is_slot u) xs
dropped_other uid u [] h = refl
dropped_other uid u (x ∷ xs) h = ground (arith, dropped_other uid u xs h)

take_slot-IsPool :
    (free : List ℕ) (p : SlotPool) → p.available ≡ free → IsPool p → IsPool (take_slot free p).0
unfolding take_slot
take_slot-IsPool [] p e v = v
take_slot-IsPool (uid ∷ rest) p e v = record {
  kept = λ u.
      let k : count_if (is_slot u) (uid ∷ rest) + count_if (is_slot u) p.checked_out
          ≡ count_if (is_slot u) p.slot_uids =
        rw e at (v.kept u) in
      ground (arith, k, count_if-append (is_slot u) p.checked_out (uid ∷ []));
  unique = v.unique;
}

acquire-IsPool : (p : SlotPool) → IsPool p → IsPool (acquire p).0
unfolding acquire
acquire-IsPool p v = elim (Bool-cases (is_empty p.slot_uids)) [
  | inl t ↦ rw t v
  | inr f ↦ rw f (take_slot-IsPool p.available p refl v)
]

-- The pool after a call that may have raised.
abbrev pub or_same : SlotPool → Option SlotPool → SlotPool
or_same p none = p
or_same p (some q) = q

release_uid-IsPool : (uid : ℕ) (p : SlotPool) → IsPool p → IsPool (or_same p (release_uid uid p))
unfolding release_uid
release_uid-IsPool uid p v = elim (Bool-cases (any (is_slot uid) p.checked_out)) [
  | inr f ↦ rw f v
  | inl t ↦ rw t (record {
    kept = λ u. elim (Bool-cases (u == uid)) [
      | inl q ↦
          let e : uid ≡ u = ground arith in
          let t' : any (is_slot u) p.checked_out ≡ true = rw e at t in
          let z : count_if (is_slot u) (select (λ x. not (x == uid)) p.checked_out) ≡ 0 =
            rw e (dropped u p.checked_out) in
          ground (
            arith,
            z,
            v.kept u,
            v.unique u,
            any-count u p.checked_out t',
            count_if-append (is_slot u) p.available (uid ∷ []),
          )
      | inr q ↦ ground (
        arith,
        v.kept u,
        dropped_other uid u p.checked_out q,
        count_if-append (is_slot u) p.available (uid ∷ []),
      )
    ];
    unique = v.unique;
  })
]

release-IsPool : (uid : Option ℕ) (p : SlotPool) → IsPool p → IsPool (or_same p (release uid p))
unfolding release
release-IsPool none p v = elim (Bool-cases (is_empty p.slot_uids)) [
  | inl t ↦ rw t v
  | inr f ↦ rw f v
]
release-IsPool (some uid) p v = release_uid-IsPool uid p v

-- Calls of the pool by its tasks, in the order of their effects.
pub data SlotOp : Type 0 where
  get_slot : SlotOp
  put_slot : Option ℕ → SlotOp

unfoldable pub slot_step : SlotOp → SlotPool → SlotPool
unfolding acquire release
slot_step get_slot p = (acquire p).0
slot_step (put_slot uid) p = or_same p (release uid p)

unfoldable pub slot_run : List SlotOp → SlotPool → SlotPool
unfolding slot_step
slot_run [] p = p
slot_run (op ∷ ops) p = slot_run ops (slot_step op p)

slot_step-IsPool : (op : SlotOp) (p : SlotPool) → IsPool p → IsPool (slot_step op p)
unfolding slot_step
slot_step-IsPool get_slot p v = acquire-IsPool p v
slot_step-IsPool (put_slot uid) p v = release-IsPool uid p v

slot_run-IsPool : (ops : List SlotOp) (p : SlotPool) → IsPool p → IsPool (slot_run ops p)
unfolding slot_run
slot_run-IsPool [] p v = v
slot_run-IsPool (op ∷ ops) p v = slot_run-IsPool ops (slot_step op p) (slot_step-IsPool op p v)

new_pool-IsPool : (uids : List ℕ) (p : SlotPool) → new_pool uids ≡ some p → IsPool p
unfolding new_pool
new_pool-IsPool uids p h = elim (Bool-cases (has_duplicate uids)) [
  | inl t ↦ absurd (ground arith)
  | inr f ↦
      let e : record { slot_uids = uids; available = uids; checked_out = [] } ≡ p = ground arith in
      rw (← e) (record { kept = λ u. omega arith; unique = has_duplicate-count uids f })
]

take_slot-free :
    (free : List ℕ) (p : SlotPool) (uid : ℕ)
    → p.available ≡ free
    → (take_slot free p).1 ≡ acquired uid
    → IsPool p
    → any (is_slot uid) p.checked_out ≡ false
unfolding take_slot
take_slot-free [] p uid e h v = absurd (ground arith)
take_slot-free (x ∷ rest) p uid e h v = elim (Bool-cases (any (is_slot uid) p.checked_out)) [
  | inr f ↦ f
  | inl t ↦
      let k : count_if (is_slot uid) (x ∷ rest) + count_if (is_slot uid) p.checked_out
          ≡ count_if (is_slot uid) p.slot_uids =
        rw e at (v.kept uid) in
      let q : x ≡ uid = ground arith in
      absurd (ground (arith, k, q, v.unique uid, any-count uid p.checked_out t))
]

-- Whatever calls are made on a new pool, each slot id is in the queue or checked out, once in all.
pub slot_run_new-IsPool :
    (uids : List ℕ) (p : SlotPool) (ops : List SlotOp)
    → new_pool uids ≡ some p
    → IsPool (slot_run ops p)
slot_run_new-IsPool uids p ops h = slot_run-IsPool ops p (new_pool-IsPool uids p h)

-- Whatever calls were made on a new pool, a slot id that `acquire` then returns is not checked out by
-- another task.
pub slot_run-exclusive :
    (uids : List ℕ) (p : SlotPool) (ops : List SlotOp) (uid : ℕ)
    → new_pool uids ≡ some p
    → (acquire (slot_run ops p)).1 ≡ acquired uid
    → any (is_slot uid) (slot_run ops p).checked_out ≡ false
unfolding acquire
slot_run-exclusive uids p ops uid h a =
    let q = slot_run ops p in
    elim (Bool-cases (is_empty q.slot_uids)) [
      | inl t ↦ absurd (ground arith)
      | inr f ↦ take_slot-free q.available q uid refl (rw f at a) (slot_run_new-IsPool uids p ops h)
    ]
