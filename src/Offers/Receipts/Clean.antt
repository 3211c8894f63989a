-- ===== src/Offers/Receipts/Clean.antt =====
-- packages/offerrail/receipts.py: what the payloads of a ledger no longer hold.
use autonomerce.Prelude.{
  ◌+◌, length, ◌≡◌, sym, subst, inl, inr, String, Bool, Option, List, [], ◌∷◌, ◌++◌, arith,
  Option-cases, Bool-cases, if◌then◌else◌,
}
use autonomerce.Prelude.Text.{Runtime, strip}
use autonomerce.Prelude.Results.{ok, Result-cases}
use autonomerce.Offers.Receipts.{
  Json, null, boolean, number, text, array, object, Items, no_item, item, Fields, no_field, field,
  Codec, redact, redact_items, redact_fields, is_hidden, redacted,
}
use autonomerce.Offers.Receipts.Hidden.{Hidden, is_hidden_iff, Scrubbed, redact_string-Scrubbed}
use autonomerce.Offers.Receipts.Ledger.{
  CommercialReceipt, Ledger, Entry, append, append_all, drafted, recorded, last_hash,
}
use autonomerce.Offers.Receipts.Chain.{Appended, append_lem, write-some, write-none}

module _ (py : Runtime) (c : Codec) (allow_prompt : Bool) where
  unfoldable mutual
    -- every text stands in place of another one, or is the mark of redaction
    pub IsClean : Json → Type 0
    IsClean null = Unit
    IsClean (boolean b) = Unit
    IsClean (number n) = Unit
    IsClean (text s) = (raw : String) × Scrubbed c raw s
    IsClean (array items) = AreClean items
    IsClean (object fields) = HasClean fields

    pub AreClean : Items → Type 0
    AreClean no_item = Unit
    AreClean (item j items) = IsClean j × AreClean items

    -- a hidden key stands with the mark only
    pub HasClean : Fields → Type 0
    HasClean no_field = Unit
    HasClean (field k j fields) =
        (Hidden py allow_prompt k → j ≡ text redacted)
        × (¬ Hidden py allow_prompt k → IsClean j)
        × HasClean fields

  -- a field whose key is hidden has the mark, and any other one has its clean value
  IsClean-field :
      (k : String) (j : Json)
      → IsClean j
      → (Hidden py allow_prompt k
          → (if is_hidden py allow_prompt k then text redacted else j) ≡ text redacted)
        × (¬ Hidden py allow_prompt k
            → IsClean (if is_hidden py allow_prompt k then text redacted else j))
  IsClean-field k j clean =
      let hidden = is_hidden_iff py allow_prompt k in
      (
        λ h. ground (arith, hidden.1 h),
        λ open_key. elim (Bool-cases (is_hidden py allow_prompt k)) [
          | inl h ↦ elim (open_key (hidden.0 h)) [ ]
          | inr h ↦ rw h clean
        ],
      )

  mutual
    unfolding redact IsClean

    redact-IsClean : (j : Json) → IsClean (redact py c allow_prompt j)
    redact-IsClean null = tt
    redact-IsClean (boolean b) = tt
    redact-IsClean (number n) = tt
    redact-IsClean (text s) = (s, redact_string-Scrubbed c s)
    redact-IsClean (array items) = redact_items-AreClean items
    redact-IsClean (object fields) = redact_fields-HasClean fields

    redact_items-AreClean : (items : Items) → AreClean (redact_items py c allow_prompt items)
    redact_items-AreClean no_item = tt
    redact_items-AreClean (item j items) = (redact-IsClean j, redact_items-AreClean items)

    pub redact_fields-HasClean :
        (fields : Fields) → HasClean (redact_fields py c allow_prompt fields)
    redact_fields-HasClean no_field = tt
    redact_fields-HasClean (field k j fields) =
        let here = IsClean-field k (redact py c allow_prompt j) (redact-IsClean j) in
        (here.0, here.1, redact_fields-HasClean fields)

module _ (py : Runtime) (c : Codec) where
  abbrev pub AllClean : List CommercialReceipt → Type 0
  AllClean [] = Unit
  AllClean (r ∷ rs) = HasClean py c r.customer_prompt_consented r.payload × AllClean rs

  AllClean-append :
      (rs : List CommercialReceipt) (r : CommercialReceipt)
      → AllClean rs
      → HasClean py c r.customer_prompt_consented r.payload
      → AllClean (rs ++ (r ∷ []))
  AllClean-append [] r h k = (k, tt)
  AllClean-append (x ∷ rs) r h k = (h.0, AllClean-append rs r h.1 k)

  drafted_clean :
      (e : Entry) (l : Ledger) (at : String) (key : Option String) (r : CommercialReceipt)
      → r
        ≡ drafted py c
            (length l.records + 1)
            (last_hash l.records)
            (py.lower (strip e.event_type))
            (strip e.proposal_id)
            (redact_fields py c e.allow_customer_prompt e.payload)
            at
            key
            e.allow_customer_prompt
      → HasClean py c r.customer_prompt_consented r.payload
  unfolding drafted
  drafted_clean e l at key r same =
      subst (λ v. HasClean py c v.customer_prompt_consented v.payload) (sym same)
        (redact_fields-HasClean py c e.allow_customer_prompt e.payload)

  append-AllClean :
      (e : Entry) (l m : Ledger) (r : CommercialReceipt)
      → append py c e l ≡ ok (r, m)
      → AllClean l.records
      → AllClean m.records
  append-AllClean e l m r h clean =
      let a : Appended py c e l m r = append_lem py c e l m r h in
      elim (Option-cases (recorded a.key l)) [
        | inl n ↦
            let w =
              write-none py c (py.lower (strip e.event_type)) (strip e.proposal_id)
                (redact_fields py c e.allow_customer_prompt e.payload) a.at a.key
                e.allow_customer_prompt l m r (ground (arith, a.written, n)) in
            rw (w.0) (AllClean-append l.records r clean (drafted_clean e l a.at a.key r (w.1)))
        | inr (found, s) ↦
            let t =
              write-some py c (py.lower (strip e.event_type)) (strip e.proposal_id)
                (redact_fields py c e.allow_customer_prompt e.payload) a.at a.key
                e.allow_customer_prompt found l m r (ground (arith, a.written, s)) in
            rw (t.0) clean
      ]

  -- Whatever is appended to a ledger whose payloads are clean, the payloads stay clean: under a key
  -- whose letters and digits name a secret or the customer, end in an access or session token, or,
  -- unless the customer agreed, name a prompt, a payload has only the mark of redaction; each other
  -- text is that mark in place of one with a private key, or a result of all three substitutions.
  pub append_all-AllClean :
      (es : List Entry) (l : Ledger) → AllClean l.records → AllClean (append_all py c es l).records
  unfolding append_all
  append_all-AllClean [] l clean = clean
  append_all-AllClean (e ∷ es) l clean = elim (Result-cases (append py c e l)) [
    | inl ((r, m), p) ↦
        rw (p, append_all, AllClean) (append_all-AllClean es m (append-AllClean e l m r p clean))
    | inr (x, p) ↦ rw (p, append_all, AllClean) (append_all-AllClean es l clean)
  ]
