-- ===== src/Payments/Processor/Once.antt =====
-- However payments are attempted, retried and reconciled, the executor is called at most once for
-- a key and at most once for a proposal.
use autonomerce.Prelude.{
  String, not, ◌≡◌, ◌≢◌, sym, subst, inl, inr, none, some, List, [], ◌∷◌, arith, if◌then◌else◌,
}
use autonomerce.Prelude.Text.{Runtime}
use autonomerce.Prelude.Dict.{lookup, lookup-insert, lookup-insert_self}
use autonomerce.Prelude.Results.{ok, err, Result-cases}
use autonomerce.Contracts.{submitting}
use autonomerce.Contracts.Receipt.{PaymentReceipt, make_receipt_lem}
use autonomerce.Payments.Errors.{PaymentError}
use autonomerce.Payments.Models.{PaymentIntent}
use autonomerce.Payments.Store.{Store, PaymentReservation}
use autonomerce.Payments.Store.Reserve.{reserve, write, receipt_of, entry_of}
use autonomerce.Payments.Store.Transition.{transition}
use autonomerce.Payments.Store.Methods.{transition-Touches}
use autonomerce.Payments.Store.Consistency.{IsConsistent, write-IsConsistent}
use autonomerce.Payments.Store.Reserved.{Creates, reserve-cases}
use autonomerce.Payments.Processor.{
  Outcome, Config, World, Action, ◌>>>=◌, on_store, lift, call, settle_outcome, proceed, pay,
}
use autonomerce.Payments.Processor.Growth.{
  Recorded, Grows, IsQuiet, IsQuiet-on_store, IsQuiet-settle_outcome, bind_ok, bind_err,
  on_store-ok, on_store-err,
}

-- no key and no proposal of the intent is among those executed
abbrev pub Absent : PaymentIntent → List PaymentIntent → Type 0
Absent i [] = Unit
Absent i (j ∷ js) =
    (i.idempotency_key ≢ j.idempotency_key) × (i.proposal_id ≢ j.proposal_id) × Absent i js

-- no two executions share a key or a proposal
abbrev pub AtMostOnce : List PaymentIntent → Type 0
AtMostOnce [] = Unit
AtMostOnce (i ∷ is) = Absent i is × AtMostOnce is

-- every execution is of a payment that the store records
abbrev pub AllRecorded : Store → List PaymentIntent → Type 0
AllRecorded s [] = Unit
AllRecorded s (i ∷ is) = Recorded i.idempotency_key i.proposal_id s × AllRecorded s is

pub record IsSafe (py : Runtime) (w : World) : Type 0 where
  pub consistent : IsConsistent py w.store
  pub recorded : AllRecorded w.store w.executions
  pub once : AtMostOnce w.executions

module _ (py : Runtime) where
  AllRecorded-Grows :
      {s s' : Store} (is : List PaymentIntent)
      → Grows py s s'
      → AllRecorded s is
      → AllRecorded s' is
  AllRecorded-Grows [] g h = tt
  AllRecorded-Grows (i ∷ is) g h = (g.recorded _ _ h.0, AllRecorded-Grows is g h.1)

  pub quiet-IsSafe :
      {A : Type 0} (m : Action A) (w : World) → IsQuiet py m → IsSafe py w → IsSafe py (m w).1
  quiet-IsSafe m w q h = record {
    consistent = (q.grows w).consistent h.consistent;
    recorded =
        subst (AllRecorded (m w).1.store) (sym (q.silent w))
          (AllRecorded-Grows w.executions (q.grows w) h.recorded);
    once = rw (q.silent w) h.once;
  }

  module _ (i : PaymentIntent) (cfg : Config) (s s' : Store) (r : PaymentReservation)
      (c : Creates py i cfg.policy s r s') where
    -- what was recorded differs from the new reservation in key and in proposal
    Recorded-differs :
        (key proposal : String)
        → IsConsistent py s
        → Recorded key proposal s
        → (i.idempotency_key ≢ key) × (i.proposal_id ≢ proposal)
    Recorded-differs key proposal ok_s r =
        let x = ok_s.at key r.entry r.found in
        (
          λ p. ground (arith, c.fresh.record_free, r.found),
          λ p. ground (
            arith, c.fresh.proposal_free, c.fresh.record_free, r.found, r.same, x.proposal,
            x.nonempty,
          ),
        )

    AllRecorded-Absent :
        (is : List PaymentIntent) → IsConsistent py s → AllRecorded s is → Absent i is
    AllRecorded-Absent [] ok_s h = tt
    AllRecorded-Absent (j ∷ js) ok_s h =
        let d = Recorded-differs j.idempotency_key j.proposal_id ok_s h.0 in
        (d.0, d.1, AllRecorded-Absent js ok_s h.1)

    Creates-Grows : Grows py s s'
    Creates-Grows = record {
      consistent = λ ok_s. rw c.written (write-IsConsistent py i cfg.policy s c.fresh c.made ok_s);
      recorded = λ k p q. record {
        entry = q.entry;
        found =
            subst (λ t. lookup k t.records ≡ some q.entry) (sym c.written)
              (unfold write in
                ground (
                  arith,
                  lookup-insert i.idempotency_key k (entry_of py i cfg.policy r.receipt) s.records,
                  q.found,
                  c.fresh.record_free,
                ));
        same = q.same;
      };
    }

    Creates-Recorded : Recorded i.idempotency_key i.proposal_id s'
    Creates-Recorded = record {
      entry = entry_of py i cfg.policy r.receipt;
      found =
          subst
            (λ t. lookup i.idempotency_key t.records ≡ some (entry_of py i cfg.policy r.receipt))
            (sym c.written) (unfold write in lookup-insert_self i.idempotency_key _ s.records);
      same = (make_receipt_lem py (receipt_of py i) r.receipt c.made).proposal_id;
    }

  module _ (now : String) (explain : String → String) (cfg : Config) (o : Outcome)
      (i : PaymentIntent) where
    -- after the call of the executor
    called-IsSafe :
        (receipt : PaymentReceipt) (w : World)
        → IsSafe py w
        → Recorded i.idempotency_key i.proposal_id w.store
        → Absent i w.executions
        → IsSafe py ((call i >>>= λ _. settle_outcome py now explain cfg i receipt o) w).1
    unfolding call
    called-IsSafe receipt w safe known absent =
        quiet-IsSafe (settle_outcome py now explain cfg i receipt o)
          (record w { executions = i ∷ w.executions })
          (IsQuiet-settle_outcome py now explain cfg i receipt o)
          (record {
            consistent = safe.consistent;
            recorded = (known, safe.recorded);
            once = (absent, safe.once);
          })

    proceed-IsSafe :
        (receipt : PaymentReceipt) (w : World)
        → IsSafe py w
        → Recorded i.idempotency_key i.proposal_id w.store
        → Absent i w.executions
        → IsSafe py (proceed py now explain cfg o i receipt w).1
    unfolding proceed
    proceed-IsSafe receipt w safe known absent =
        let start = on_store (transition py i.idempotency_key submitting none none none) in
        let rest =
          λ (_ : PaymentReceipt). call i >>>= λ _. settle_outcome py now explain cfg i receipt o in
        let quiet =
          IsQuiet-on_store py (transition py i.idempotency_key submitting none none none)
            i.idempotency_key
            (λ s. transition-Touches py now i.idempotency_key s submitting none none none) in
        elim (Result-cases (start w).0) [
          | inl (a, r) ↦ rw (bind_ok start rest w r) (
              called-IsSafe receipt (start w).1 (quiet-IsSafe start w quiet safe)
                ((quiet.grows w).recorded i.idempotency_key i.proposal_id known)
                (subst (Absent i) (sym (quiet.silent w)) absent))
          | inr (e, r) ↦ rw (bind_err start rest w r) (quiet-IsSafe start w quiet safe)
        ]

    pay_err :
        (w : World) {e : PaymentError}
        → reserve py i cfg.policy w.store ≡ err e
        → pay py now explain cfg o i w ≡ (err e, w)
    unfolding pay
    pay_err w r = let q = on_store-err (reserve py i cfg.policy) w r in rw (q, ◌>>>=◌) (rw q)

    pay_ok :
        (w : World) {res : PaymentReservation} {s' : Store}
        → reserve py i cfg.policy w.store ≡ ok (res, s')
        → pay py now explain cfg o i w
          ≡ (if not res.created
                then lift (ok res.receipt)
                else proceed py now explain cfg o i res.receipt)
              (record w { store = s' })
    unfolding pay
    pay_ok w r = let q = on_store-ok (reserve py i cfg.policy) w r in rw (q, ◌>>>=◌) (rw q)

    -- If a world is safe, that is, its store is consistent, the calls of the executor are recorded
    -- there and no two share a key or a proposal, then so is the world after `pay` for an intent
    -- with a key, whatever the executor does.
    pub pay-IsSafe :
        (w : World)
        → i.idempotency_key ≢ ""
        → IsSafe py w
        → IsSafe py (pay py now explain cfg o i w).1
    pay-IsSafe w key safe = elim (Result-cases (reserve py i cfg.policy w.store)) [
      | inr (e, r) ↦ rw (pay_err w r) safe
      | inl ((res, s'), r) ↦ elim (reserve-cases py i cfg.policy w.store res s' key r) [
        | inl old ↦ rw (pay_ok w r, old.not_created, old.unchanged) safe
        | inr new ↦
            let g = Creates-Grows i cfg w.store s' res new in
            rw (pay_ok w r, new.created)
              (proceed-IsSafe res.receipt (record w { store = s' })
                (record {
                  consistent = g.consistent safe.consistent;
                  recorded = AllRecorded-Grows w.executions g safe.recorded;
                  once = safe.once;
                })
                (Creates-Recorded i cfg w.store s' res new)
                (AllRecorded-Absent i cfg w.store s' res new w.executions safe.consistent
                  safe.recorded))
      ]
    ]
