-- ===== src/Offers/Receipts/Chain.antt =====
-- packages/offerrail/receipts.py: the chain of hashes that `append` keeps and `verify` reads.
use autonomerce.Prelude.{
  ℕ, ◌+◌, ◌≡◌, refl, ◌⊎◌, inl, inr, String, Bool, true, string_eq, nat_eq, option_eq, Option, none,
  some, List, [], ◌∷◌, ◌++◌, length, arith, Option-cases,
}
use autonomerce.Prelude.Text.{Runtime, strip}
use autonomerce.Prelude.Results.{ok, Result-cases}
use autonomerce.Offers.Receipts.{Fields, Codec, redact_fields}
use autonomerce.Offers.Receipts.Ledger.{
  CommercialReceipt, Ledger, Entry, last_hash, drafted, hash_of, make_receipt, write, append,
  verify_from, recorded, remember, intent, selected_key, timed,
}
use autonomerce.Offers.Time.{canonical_timestamp}

-- the hash that the record after these must name
abbrev pub chain : Option String → List CommercialReceipt → Option String
chain previous [] = previous
chain previous (r ∷ rs) = chain (some r.receipt_hash) rs

pub last_hash-chain :
    (p : Option String) (r : CommercialReceipt) (rs : List CommercialReceipt)
    → last_hash (r ∷ rs) ≡ chain p (r ∷ rs)
last_hash-chain p r [] = refl
last_hash-chain p r (s ∷ rs) = last_hash-chain (some r.receipt_hash) s rs

pub last_hash_lem : (rs : List CommercialReceipt) → last_hash rs ≡ chain none rs
last_hash_lem [] = refl
last_hash_lem (r ∷ rs) = last_hash-chain none r rs

pub make_receipt_lem :
    (py : Runtime) (c : Codec) (r made : CommercialReceipt)
    → make_receipt py c r ≡ ok made
    → made ≡ r
unfolding make_receipt
make_receipt_lem py c r made h = ground arith

module _ (py : Runtime) (c : Codec) where
  -- a longer chain verifies when its start does and its last record continues it
  pub verify_from-append :
      (n : ℕ) (p : Option String) (rs : List CommercialReceipt) (r : CommercialReceipt)
      → verify_from py c n p rs ≡ true
      → verify_from py c (n + length rs) (chain p rs) (r ∷ []) ≡ true
      → verify_from py c n p (rs ++ (r ∷ [])) ≡ true
  unfolding verify_from
  verify_from-append n p [] r g h = ground (arith, h)
  verify_from-append n p (x ∷ rs) r g h =
      ground (arith, verify_from-append (n + 1) (some x.receipt_hash) rs r)

  pub drafted_lem :
      (n : ℕ) (p : Option String) (event proposal : String) (payload : Fields) (at : String)
      (key : Option String) (consent : Bool)
      → verify_from py c n p (drafted py c n p event proposal payload at key consent ∷ []) ≡ true
  unfolding verify_from drafted
  drafted_lem n p event proposal payload at key consent = ground arith

  pub write-some :
      (event proposal : String) (payload : Fields) (at : String) (key : Option String)
      (consent : Bool) (found : String × CommercialReceipt) (l l' : Ledger) (r : CommercialReceipt)
      → write py c event proposal payload at key consent (some found) l ≡ ok (r, l')
      → (l' ≡ l) × (r ≡ found.1) × (found.0 ≡ hash_of py c (intent event proposal payload))
  unfolding write
  write-some event proposal payload at key consent found l l' r h = ground arith

  pub write-none :
      (event proposal : String) (payload : Fields) (at : String) (key : Option String)
      (consent : Bool) (l l' : Ledger) (r : CommercialReceipt)
      → write py c event proposal payload at key consent none l ≡ ok (r, l')
      → (l' ≡ record {
        records = l.records ++ (r ∷ []);
        by_key = remember key (hash_of py c (intent event proposal payload)) r l.by_key;
      })
        × (r
            ≡ drafted py c
                (length l.records + 1)
                (last_hash l.records)
                event
                proposal
                payload
                at
                key
                consent)
  unfolding write
  write-none event proposal payload at key consent l l' r h =
      elim (Result-cases (
        make_receipt py c (
          drafted py c (length l.records + 1) (last_hash l.records) event proposal payload at key
            consent))) [
              | inl (made, e) ↦ ground (
                arith,
                h,
                e,
                make_receipt_lem py c
                    (drafted py c (length l.records + 1) (last_hash l.records) event proposal
                      payload at key consent)
                    made e,
              )
              | inr (x, e) ↦ ground (arith, h, e)
            ]

  -- What an `append` that returned has checked and written.
  pub record Appended (e : Entry) (l l' : Ledger) (r : CommercialReceipt) : Type 0 where
    pub at : String
    pub key : Option String
    pub selected : selected_key e.idempotency_key ≡ ok key
    pub written :
        write py c
          (py.lower (strip e.event_type))
          (strip e.proposal_id)
          (redact_fields py c e.allow_customer_prompt e.payload)
          at
          key
          e.allow_customer_prompt
          (recorded key l)
          l
        ≡ ok (r, l')
    pub again :
        (m : Ledger)
        → append py c e m
          ≡ write py c
              (py.lower (strip e.event_type))
              (strip e.proposal_id)
              (redact_fields py c e.allow_customer_prompt e.payload)
              at
              key
              e.allow_customer_prompt
              (recorded key m)
              m

  pub append_lem :
      (e : Entry) (l l' : Ledger) (r : CommercialReceipt)
      → append py c e l ≡ ok (r, l')
      → Appended e l l' r
  unfolding append
  append_lem e l l' r h = elim (Result-cases (timed (canonical_timestamp py e.occurred_at))) [
    | inl (at, p) ↦ elim (Result-cases (selected_key e.idempotency_key)) [
      | inl (key, q) ↦ record {
        at = at;
        key = key;
        selected = q;
        written = ground arith;
        again = λ m. ground arith;
      }
      | inr (x, q) ↦ ground (arith, h, p, q)
    ]
    | inr (x, p) ↦ ground (arith, h, p)
  ]

  -- Every `append` that returns leaves the ledger as it was, with a receipt that the key had, or it
  -- adds one record at the end that continues the chain.
  pub append-cases :
      (e : Entry) (l l' : Ledger) (r : CommercialReceipt)
      → append py c e l ≡ ok (r, l')
      → (l' ≡ l)
        ⊎ ((l'.records ≡ l.records ++ (r ∷ []))
            × (verify_from py c (length l.records + 1) (last_hash l.records) (r ∷ []) ≡ true))
  append-cases e l l' r h =
      let a : Appended e l l' r = append_lem e l l' r h in
      elim (Option-cases (recorded a.key l)) [
        | inl none_found ↦
            let w =
              write-none (py.lower (strip e.event_type)) (strip e.proposal_id)
                (redact_fields py c e.allow_customer_prompt e.payload) a.at a.key
                e.allow_customer_prompt l l' r (ground arith) in
            inr (
              ground (arith, w.0),
              rw (w.1) (
                  drafted_lem (length l.records + 1) (last_hash l.records)
                    (py.lower (strip e.event_type)) (strip e.proposal_id)
                    (redact_fields py c e.allow_customer_prompt e.payload) a.at a.key
                    e.allow_customer_prompt),
            )
        | inr (found, is_found) ↦ inl (
            (write-some (py.lower (strip e.event_type)) (strip e.proposal_id)
              (redact_fields py c e.allow_customer_prompt e.payload) a.at a.key
              e.allow_customer_prompt found l l' r (ground arith)).0)
      ]
