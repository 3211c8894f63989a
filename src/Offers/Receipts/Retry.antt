-- ===== src/Offers/Receipts/Retry.antt =====
-- packages/offerrail/receipts.py: the idempotency keys of `append`.
use autonomerce.Prelude.{
  ◌≡◌, inl, inr, String, Option, none, some, List, [], ◌∷◌, arith, Option-cases, string_eq,
}
use autonomerce.Prelude.Text.{Runtime, strip}
use autonomerce.Prelude.Dict.{lookup, lookup-insert}
use autonomerce.Prelude.Results.{ok, Result-cases}
use autonomerce.Offers.Receipts.{Codec, redact_fields}
use autonomerce.Offers.Receipts.Ledger.{
  CommercialReceipt, Ledger, Entry, hash_of, intent, append, append_all, recorded, remember, write,
  selected_key,
}
use autonomerce.Offers.Receipts.Chain.{Appended, append_lem, write-some, write-none}

module _ (py : Runtime) (c : Codec) where
  -- the hash of what an entry means
  abbrev pub meaning : Entry → String
  meaning e = hash_of py c (
      intent (py.lower (strip e.event_type)) (strip e.proposal_id)
        (redact_fields py c e.allow_customer_prompt e.payload))

  remember-keeps :
      (key : Option String) (j h : String) (r : CommercialReceipt) (l : Ledger)
      (found : String × CommercialReceipt)
      → recorded key l ≡ none
      → lookup j l.by_key ≡ some found
      → lookup j (remember key h r l.by_key) ≡ some found
  remember-keeps none j h r l found n f = f
  remember-keeps (some k) j h r l found n f = ground (arith, lookup-insert k j (h, r) l.by_key)

  remember_self :
      (k h : String) (r : CommercialReceipt) (l : Ledger)
      → lookup k (remember (some k) h r l.by_key) ≡ some (h, r)
  remember_self k h r l = ground (arith, lookup-insert k k (h, r) l.by_key)

  append-keeps :
      (e : Entry) (l m : Ledger) (r : CommercialReceipt) (j : String)
      (found : String × CommercialReceipt)
      → append py c e l ≡ ok (r, m)
      → lookup j l.by_key ≡ some found
      → lookup j m.by_key ≡ some found
  append-keeps e l m r j found h f =
      let a : Appended py c e l m r = append_lem py c e l m r h in
      elim (Option-cases (recorded a.key l)) [
        | inl n ↦ ground (
          arith,
          (write-none py c (py.lower (strip e.event_type)) (strip e.proposal_id)
              (redact_fields py c e.allow_customer_prompt e.payload) a.at a.key
              e.allow_customer_prompt l m r (ground (arith, a.written, n))).0,
          remember-keeps a.key j (meaning e) r l found n f,
        )
        | inr (w, s) ↦ ground (
          arith,
          (write-some py c (py.lower (strip e.event_type)) (strip e.proposal_id)
              (redact_fields py c e.allow_customer_prompt e.payload) a.at a.key
              e.allow_customer_prompt w l m r (ground (arith, a.written, s))).0,
        )
      ]

  append_all-keeps :
      (es : List Entry) (l : Ledger) (j : String) (found : String × CommercialReceipt)
      → lookup j l.by_key ≡ some found
      → lookup j (append_all py c es l).by_key ≡ some found
  unfolding append_all
  append_all-keeps [] l j found f = f
  append_all-keeps (e ∷ es) l j found f = elim (Result-cases (append py c e l)) [
    | inl ((r, m), p) ↦
        ground (arith, append_all-keeps es m j found (append-keeps e l m r j found p f), p)
    | inr (x, p) ↦ ground (arith, append_all-keeps es l j found f, p)
  ]

  -- the entry that the key of a call has after it
  append-recorded :
      (e : Entry) (l m : Ledger) (r : CommercialReceipt) (k : String)
      → append py c e l ≡ ok (r, m)
      → selected_key e.idempotency_key ≡ ok (some k)
      → lookup k m.by_key ≡ some (meaning e, r)
  append-recorded e l m r k h s =
      let a : Appended py c e l m r = append_lem py c e l m r h in
      let same : a.key ≡ some k = ground (arith, a.selected, s) in
      elim (Option-cases (recorded a.key l)) [
        | inl n ↦ ground (
          arith,
          (write-none py c (py.lower (strip e.event_type)) (strip e.proposal_id)
              (redact_fields py c e.allow_customer_prompt e.payload) a.at a.key
              e.allow_customer_prompt l m r (ground (arith, a.written, n))).0,
          same,
          remember_self k (meaning e) r l,
        )
        | inr (w, q) ↦
            let t =
              write-some py c (py.lower (strip e.event_type)) (strip e.proposal_id)
                (redact_fields py c e.allow_customer_prompt e.payload) a.at a.key
                e.allow_customer_prompt w l m r (ground (arith, a.written, q)) in
            ground (arith, t.0, t.1, t.2, same, q)
      ]

  again-same :
      (e : Entry) (l m n : Ledger) (r : CommercialReceipt) (k : String)
      → append py c e l ≡ ok (r, m)
      → selected_key e.idempotency_key ≡ ok (some k)
      → lookup k n.by_key ≡ some (meaning e, r)
      → append py c e n ≡ ok (r, n)
  unfolding write
  again-same e l m n r k h s f =
      let a : Appended py c e l m r = append_lem py c e l m r h in
      ground (arith, a.again n, a.selected, s, f)

  -- An `append` with an idempotency key that returned is sent again after any requests, the refused
  -- ones among them: it returns the same receipt and leaves the ledger as it was.
  pub append-again :
      (e : Entry) (l m : Ledger) (r : CommercialReceipt) (k : String) (es : List Entry)
      → append py c e l ≡ ok (r, m)
      → selected_key e.idempotency_key ≡ ok (some k)
      → append py c e (append_all py c es m) ≡ ok (r, append_all py c es m)
  append-again e l m r k es h s =
      again-same e l m (append_all py c es m) r k h s
        (append_all-keeps es m k (meaning e, r) (append-recorded e l m r k h s))
