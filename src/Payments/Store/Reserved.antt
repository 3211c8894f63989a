-- ===== src/Payments/Store/Reserved.antt =====
-- The two ways in which `reserve` returns, and that both keep the indexes consistent.
use autonomerce.Prelude.{
  true, false, string_eq, ◌≡◌, ◌≢◌, ◌⊎◌, inl, inr, none, some, arith, Option-cases,
}
use autonomerce.Prelude.Text.{Runtime}
use autonomerce.Prelude.Dict.{lookup}
use autonomerce.Prelude.Results.{ok}
use autonomerce.Contracts.Receipt.{make_receipt}
use autonomerce.Payments.Models.{PaymentIntent, PaymentPolicy}
use autonomerce.Payments.Models.Intent.{intent_fingerprint}
use autonomerce.Payments.Gate.{evaluate}
use autonomerce.Payments.Store.{Store, Entry, snapshot, PaymentReservation}
use autonomerce.Payments.Store.Reserve.{reserve, reserve_new, replayed, write, receipt_of}
use autonomerce.Payments.Store.Consistency.{IsConsistent, Fresh, write-IsConsistent}

module _ (py : Runtime) (i : PaymentIntent) (p : PaymentPolicy) (s : Store) where
  -- the reservation that was there is returned, and nothing is written
  pub record Replays (r : PaymentReservation) (s' : Store) : Type 0 where
    pub entry : Entry
    pub found : lookup i.idempotency_key s.records ≡ some entry
    pub same_intent : entry.fingerprint ≡ intent_fingerprint py i
    pub same_policy : entry.policy_id ≡ p.policy_id
    pub receipt : r.receipt ≡ entry.receipt
    pub not_created : r.created ≡ false
    pub unchanged : s' ≡ s

  -- a new reservation is made and written
  pub record Creates (r : PaymentReservation) (s' : Store) : Type 0 where
    pub fresh : Fresh py i p s
    pub decided : evaluate py i p (snapshot p.policy_id s) ≡ ok r.decision
    pub authorized : r.decision.authorized ≡ true
    pub made : make_receipt py (receipt_of py i) ≡ ok r.receipt
    pub created : r.created ≡ true
    pub written : s' ≡ write py i p r.receipt s

  replayed-Replays :
      (e : Entry) (r : PaymentReservation) (s' : Store)
      → lookup i.idempotency_key s.records ≡ some e
      → replayed py i p e s ≡ ok (r, s')
      → Replays r s'
  unfolding replayed
  replayed-Replays e r s' found h = record {
    entry = e;
    found = found;
    same_intent = ground arith;
    same_policy = ground arith;
    receipt = ground arith;
    not_created = ground arith;
    unchanged = ground arith;
  }

  reserve_new-Creates :
      (r : PaymentReservation) (s' : Store)
      → i.idempotency_key ≢ ""
      → lookup i.idempotency_key s.records ≡ none
      → reserve_new py i p s ≡ ok (r, s')
      → Creates r s'
  unfolding reserve_new
  reserve_new-Creates r s' key free h = record {
    fresh = record {
      key = key;
      record_free = free;
      payment_free = ground arith;
      proposal_free = ground arith;
      x402_free = ground arith;
    };
    decided = ground arith;
    authorized = ground arith;
    made = ground arith;
    created = ground arith;
    written = ground arith;
  }

  pub reserve-cases :
      (r : PaymentReservation) (s' : Store)
      → i.idempotency_key ≢ ""
      → reserve py i p s ≡ ok (r, s')
      → Replays r s' ⊎ Creates r s'
  unfolding reserve
  reserve-cases r s' key h = elim (Option-cases (lookup i.idempotency_key s.records)) [
    | inl absent ↦ inr (reserve_new-Creates r s' key absent (rw (absent, reserve) at h))
    | inr (e, there) ↦ inl (replayed-Replays e r s' there (rw (there, reserve) at h))
  ]

  -- If `reserve` returns, for an intent with a key, then a consistent store stays consistent: its
  -- indexes lead back to the key of each record.
  pub reserve-IsConsistent :
      (r : PaymentReservation) (s' : Store)
      → i.idempotency_key ≢ ""
      → IsConsistent py s
      → reserve py i p s ≡ ok (r, s')
      → IsConsistent py s'
  reserve-IsConsistent r s' key c h = elim (reserve-cases r s' key h) [
    | inl old ↦ rw old.unchanged c
    | inr new ↦ rw new.written (write-IsConsistent py i p s new.fresh new.made c)
  ]
