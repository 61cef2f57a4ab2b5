-- ===== src/Reviewbot/Store/Queue/Claim.antt =====
-- src/reviewbot/storage.py: what `claim_next` chooses and writes.
use oh_my_robot.Prelude.{
  ℕ, text_leb_refl, text_leb_total, text_leb_trans, true, false, none, some, List, [], ◌≡◌, arith,
  select, In, first_by-In, first_by-least, first_by-none, In-select, select-In, Bool-cases, inl,
  inr,
}
use oh_my_robot.Reviewbot.Models.{EventRecord}
use oh_my_robot.Reviewbot.Store.Queue.{claimable, claim_order, next_claim}

claim_order_refl : (a : EventRecord) → claim_order a a ≡ true
unfolding claim_order
claim_order_refl a = ground (arith, text_leb_refl a.delivery_id)

claim_order_total : (a b : EventRecord) → claim_order a b ≡ false → claim_order b a ≡ true
unfolding claim_order
claim_order_total a b h = ground (arith, text_leb_total a.delivery_id b.delivery_id)

claim_order_trans :
    (a b c : EventRecord) → claim_order a b ≡ true → claim_order b c ≡ true → claim_order a c ≡ true
unfolding claim_order
claim_order_trans a b c h k =
    ground (arith, text_leb_trans a.delivery_id b.delivery_id c.delivery_id)

pub next_claim-In :
    (now : ℕ) (events : List EventRecord) (c : EventRecord)
    → next_claim now events ≡ some c
    → In c events × (claimable now events c ≡ true)
unfolding next_claim
next_claim-In now events c h =
    In-select (claimable now events) c events
      (first_by-In claim_order (select (claimable now events) events) c h)

pub next_claim-least :
    (now : ℕ) (events : List EventRecord) (c : EventRecord)
    → next_claim now events ≡ some c
    → (e : EventRecord) → In e events
    → claimable now events e ≡ true
    → claim_order c e ≡ true
unfolding next_claim
next_claim-least now events c h e i k =
    first_by-least claim_order claim_order_total claim_order_trans claim_order_refl
      (select (claimable now events) events) c h e (select-In (claimable now events) e events i k)

pub next_claim-none :
    (now : ℕ) (events : List EventRecord)
    → next_claim now events ≡ none
    → (e : EventRecord) → In e events
    → claimable now events e ≡ false
unfolding next_claim
next_claim-none now events h e i = elim (Bool-cases (claimable now events e)) [
  | inl t ↦ absurd (
      let j : In e (select (claimable now events) events) =
        select-In (claimable now events) e events i t in
      let k : In e [] =
        rw (first_by-none claim_order (select (claimable now events) events) h) at j in
      elim k [ ])
  | inr f ↦ f
]
