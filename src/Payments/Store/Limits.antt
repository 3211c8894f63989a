-- ===== src/Payments/Store/Limits.antt =====
-- The spending that counts against a policy: a reservation stays within the limits, and no later
-- method adds to it but the confirmation of a payment that had been released.
use autonomerce.Prelude.{
  ℕ, ◌+◌, ◌≤◌, String, true, string_eq, ◌≡◌, ◌≢◌, ◌⊎◌, inl, inr, none, some, [], ◌∷◌, arith,
  if◌then◌else◌,
}
use autonomerce.Prelude.Text.{Runtime}
use autonomerce.Prelude.Dict.{Dict, lookup, insert}
use autonomerce.Prelude.Results.{ok}
use autonomerce.Contracts.{created, confirmed, failed_retryable, payment_state_eq}
use autonomerce.Contracts.Receipt.{make_receipt_lem}
use autonomerce.Payments.Models.{PaymentIntent, PaymentPolicy}
use autonomerce.Payments.Gate.Bounds.{Authorizable, evaluate_iff}
use autonomerce.Payments.Store.{
  Store, Entry, PaymentReservation, counts, committed_usdc, committed_count, snapshot,
}
use autonomerce.Payments.Store.Reserve.{reserve, write, receipt_of, entry_of}
use autonomerce.Payments.Store.Reserved.{Creates, reserve-cases}
use autonomerce.Payments.Store.Updates.{Updates, Touches}
use autonomerce.Payments.Store.Consistency.{IsConsistent}

-- what one entry counts for
abbrev pub share : String → Entry → ℕ
share policy_id e = if counts policy_id e then e.receipt.amount_usdc else 0

abbrev one : String → Entry → ℕ
one policy_id e = if counts policy_id e then 1 else 0

module _ (pid key : String) where
  committed_usdc-insert_new :
      (e : Entry) (d : Dict Entry)
      → lookup key d ≡ none
      → committed_usdc pid (insert key e d) ≡ committed_usdc pid d + share pid e
  unfolding committed_usdc lookup insert
  committed_usdc-insert_new e [] h = omega arith
  committed_usdc-insert_new e ((k, f) ∷ d) h = ground (arith, committed_usdc-insert_new e d)

  committed_count-insert_new :
      (e : Entry) (d : Dict Entry)
      → lookup key d ≡ none
      → committed_count pid (insert key e d) ≡ committed_count pid d + one pid e
  unfolding committed_count lookup insert
  committed_count-insert_new e [] h = omega arith
  committed_count-insert_new e ((k, f) ∷ d) h = ground (arith, committed_count-insert_new e d)

  committed_usdc-insert :
      (old e : Entry) (d : Dict Entry)
      → lookup key d ≡ some old
      → committed_usdc pid (insert key e d) + share pid old ≡ committed_usdc pid d + share pid e
  unfolding committed_usdc lookup insert
  committed_usdc-insert old e [] h = cc
  committed_usdc-insert old e ((k, f) ∷ d) h = ground (arith, committed_usdc-insert old e d)

  committed_count-insert :
      (old e : Entry) (d : Dict Entry)
      → lookup key d ≡ some old
      → committed_count pid (insert key e d) + one pid old ≡ committed_count pid d + one pid e
  unfolding committed_count lookup insert
  committed_count-insert old e [] h = cc
  committed_count-insert old e ((k, f) ∷ d) h = ground (arith, committed_count-insert old e d)

module _ (py : Runtime) (i : PaymentIntent) (p : PaymentPolicy) (s s' : Store) where
  Creates-Authorizable :
      (r : PaymentReservation)
      → Creates py i p s r s'
      → Authorizable py i p (snapshot p.policy_id s)
  Creates-Authorizable r c =
      (evaluate_iff py i p (snapshot p.policy_id s)).0 (rw c.decided c.authorized)

  -- the new entry counts for its amount, and for one
  Creates-adds :
      (r : PaymentReservation)
      → Creates py i p s r s'
      → (committed_usdc p.policy_id s'.records
          ≡ committed_usdc p.policy_id s.records + i.amount_usdc)
        × (committed_count p.policy_id s'.records ≡ committed_count p.policy_id s.records + 1)
  unfolding write
  Creates-adds r c =
      let m = make_receipt_lem py (receipt_of py i) r.receipt c.made in
      let e = entry_of py i p r.receipt in
      let free = c.fresh.record_free in
      (
        ground (
          arith,
          c.written,
          m.state,
          m.amount_usdc,
          committed_usdc-insert_new p.policy_id i.idempotency_key e s.records free,
        ),
        ground (
          arith,
          c.written,
          m.state,
          committed_count-insert_new p.policy_id i.idempotency_key e s.records free,
        ),
      )

  -- A reservation that `reserve` creates adds its amount and itself to the spending of its policy,
  -- which then is within the total and the count that the policy allows; the intent has a key.
  pub reserve_within_limits :
      (r : PaymentReservation)
      → i.idempotency_key ≢ ""
      → reserve py i p s ≡ ok (r, s')
      → r.created ≡ true
      → let before = snapshot p.policy_id s in
        let after = snapshot p.policy_id s' in
        (after.committed_usdc ≡ before.committed_usdc + i.amount_usdc)
        × (after.committed_usdc ≤ p.maximum_total_usdc)
        × (after.committed_payment_count ≡ before.committed_payment_count + 1)
        × (after.committed_payment_count ≤ p.maximum_payment_count)
  unfolding snapshot
  reserve_within_limits r key h new = elim (reserve-cases py i p s r s' key h) [
    | inl old ↦ absurd (ground (arith, old.not_created))
    | inr c ↦
        let added = Creates-adds r c in
        let bounds = (Creates-Authorizable r c).amounts in
        (
          added.0,
          omega (arith, added.0, bounds.total),
          added.1,
          omega (arith, added.1, bounds.count),
        )
  ]

module _ (py : Runtime) (key : String) (e e' : Entry) (s s' : Store)
    (u : Updates py key e e' s s') where
  update_share :
      (pid : String)
      → committed_usdc pid s'.records + share pid e ≡ committed_usdc pid s.records + share pid e'
  update_share pid = rw u.records (committed_usdc-insert pid key e e' s.records u.old)

  Updates_spending :
      (pid : String)
      → e.receipt.state ≢ created
      → ((e.receipt.state ≡ failed_retryable)
          × (e'.receipt.state ≡ confirmed)
          × (e.policy_id ≡ pid)
          × (committed_usdc pid s'.records ≡ committed_usdc pid s.records + e.receipt.amount_usdc))
        ⊎ (committed_usdc pid s'.records ≤ committed_usdc pid s.records)
  Updates_spending pid started =
      ground (arith, update_share pid, u.moves, u.same_amount, u.same_policy)

-- how a method on a recorded payment may change what is spent under a policy
abbrev pub Spends : String → String → Store → Store → Type 0
Spends key pid s s' =
    ((e : Entry) × (lookup key s.records ≡ some e)
      × (e.receipt.state ≡ failed_retryable)
      × (e.policy_id ≡ pid)
      × (committed_usdc pid s'.records ≡ committed_usdc pid s.records + e.receipt.amount_usdc))
    ⊎ (committed_usdc pid s'.records ≤ committed_usdc pid s.records)

-- In a consistent store, a method on a recorded payment never adds to the spending of a policy,
-- unless the payment belongs to that policy and was `failed_retryable`: then it may add its amount,
-- once.
pub Touches-Spends :
    (py : Runtime) (key : String) (s s' : Store) (pid : String)
    → IsConsistent py s
    → Touches py key s s'
    → Spends key pid s s'
Touches-Spends py key s s' pid c (inl same) = inr (ground (arith, same))
Touches-Spends py key s s' pid c (inr (e, e', u)) =
    elim (Updates_spending py key e e' s s' u pid (c.at key e u.old).started) [
      | inl (released, _, own, added) ↦ inl (e, u.old, released, own, added)
      | inr kept ↦ inr kept
    ]
