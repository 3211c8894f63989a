-- ===== src/Offers/Receipts/Tamper.antt =====
-- packages/offerrail/receipts.py: what a ledger that `verify` accepts cannot hide.
use autonomerce.Prelude.{
  ℕ, ◌+◌, ◌≡◌, String, true, string_eq, nat_eq, option_eq, Option, none, some, List, [], ◌∷◌,
  length, arith,
}
use autonomerce.Prelude.Text.{Runtime}
use autonomerce.Offers.Receipts.{Codec}
use autonomerce.Contracts.{stable_id}
use autonomerce.Offers.Receipts.Ledger.{
  CommercialReceipt, Ledger, last_hash, hash_of, receipt_body, verify, verify_from, decimal,
}
use autonomerce.Offers.Receipts.Chain.{chain, last_hash_lem}

module _ (py : Runtime) (c : Codec) where
  -- no two records that stand at the same place have different bodies with the same hash
  abbrev pub NoCollision : List CommercialReceipt → List CommercialReceipt → Type 0
  NoCollision [] ss = Unit
  NoCollision (r ∷ rs) [] = Unit
  NoCollision (r ∷ rs) (s ∷ ss) =
      (hash_of py c (receipt_body r) ≡ hash_of py c (receipt_body s)
        → receipt_body r ≡ receipt_body s)
      × NoCollision rs ss

  -- what a verified record shows of its fields
  record Verified (n : ℕ) (p : Option String) (r : CommercialReceipt) (rs : List CommercialReceipt)
      : Type 0 where
    pub sequence : r.sequence ≡ n
    pub previous : r.previous_hash ≡ p
    pub hash : r.receipt_hash ≡ hash_of py c (receipt_body r)
    pub id :
        r.receipt_id
        ≡ stable_id py "receipt"
            (r.proposal_id ∷ decimal r.sequence ∷ hash_of py c (receipt_body r) ∷ [])
    pub rest : verify_from py c (n + 1) (some r.receipt_hash) rs ≡ true

  verify_from_lem :
      (n : ℕ) (p : Option String) (r : CommercialReceipt) (rs : List CommercialReceipt)
      → verify_from py c n p (r ∷ rs) ≡ true
      → Verified n p r rs
  unfolding verify_from
  verify_from_lem n p r rs h = record {
    sequence = ground arith;
    previous = ground arith;
    hash = ground arith;
    id = ground arith;
    rest = ground arith;
  }

  same_record :
      (n : ℕ) (p q : Option String) (r s : CommercialReceipt) (rs ss : List CommercialReceipt)
      → Verified n p r rs
      → Verified n q s ss
      → receipt_body r ≡ receipt_body s
      → r ≡ s
  same_record n p q r s rs ss v w e =
      ground (arith, e, v.hash, w.hash, v.id, w.id, v.sequence, w.sequence)

  same_chain :
      (n : ℕ) (p q : Option String) (rs ss : List CommercialReceipt)
      → verify_from py c n p rs ≡ true
      → verify_from py c n q ss ≡ true
      → length rs ≡ length ss
      → chain p rs ≡ chain q ss
      → NoCollision rs ss
      → (p ≡ q) × (rs ≡ ss)
  same_chain n p q [] [] v w len e h = ground arith
  same_chain n p q [] (s ∷ ss) v w len e h = ground arith
  same_chain n p q (r ∷ rs) [] v w len e h = ground arith
  same_chain n p q (r ∷ rs) (s ∷ ss) v w len e h =
      let a : Verified n p r rs = verify_from_lem n p r rs v in
      let b : Verified n q s ss = verify_from_lem n q s ss w in
      let t =
        same_chain (n + 1) (some r.receipt_hash) (some s.receipt_hash) rs ss a.rest b.rest
          (ground arith) e h.1 in
      let body : receipt_body r ≡ receipt_body s = h.0 (ground (arith, a.hash, b.hash, t.0)) in
      let same : r ≡ s = same_record n p q r s rs ss a b body in
      (ground (arith, a.previous, b.previous, same), ground (arith, same, t.1))

  -- Two ledgers that verify, with as many records and the same last hash, hold the same records, if
  -- no two bodies at the same place collide: a record that was changed, its hash and its identifier
  -- with it, changes the hash of the last record.
  pub last_hash-identifies :
      (l m : Ledger)
      → verify py c l ≡ true
      → verify py c m ≡ true
      → length l.records ≡ length m.records
      → last_hash l.records ≡ last_hash m.records
      → NoCollision l.records m.records
      → l.records ≡ m.records
  last_hash-identifies l m v w len e h =
      (same_chain 1 none none l.records m.records v w len
        (ground (arith, e, last_hash_lem l.records, last_hash_lem m.records)) h).1
