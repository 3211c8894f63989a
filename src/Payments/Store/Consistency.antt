-- ===== src/Payments/Store/Consistency.antt =====
-- The indexes of the payment store agree with its records, whatever methods run.
use autonomerce.Prelude.{
  String, true, false, ◌&&◌, string_eq, ◌≡◌, ◌≢◌, sym, ◌∙◌, subst, inl, inr, none, some, arith,
}
use autonomerce.Prelude.Text.{Runtime, truthy}
use autonomerce.Prelude.Dict.{lookup, is_some, lookup-insert, lookup-insert_self, insert-cases}
use autonomerce.Prelude.Results.{ok}
use autonomerce.Contracts.{created, confirmed}
use autonomerce.Contracts.Receipt.{PaymentReceipt, make_receipt, make_receipt_lem}
use autonomerce.Payments.Models.{PaymentIntent, PaymentPolicy}
use autonomerce.Payments.Models.Intent.{payment_id}
use autonomerce.Payments.Models.Names.{get_or}
use autonomerce.Payments.Store.{Store, Entry, empty}
use autonomerce.Payments.Store.Reserve.{write, entry_of, receipt_of, taken}
use autonomerce.Payments.Store.Updates.{Updates, Touches, Owned}

module _ (py : Runtime) where
  -- what the indexes say of the entry at a key
  pub record IsIndexed (key : String) (e : Entry) (s : Store) : Type 0 where
    pub nonempty : key ≢ ""
    pub keyed : e.receipt.idempotency_key ≡ key
    pub payment : lookup e.receipt.payment_id s.payment_ids ≡ some key
    pub proposal : lookup e.receipt.proposal_id s.proposal_ids ≡ some key
    pub x402 :
        truthy e.x402_requirement_id ≡ true
        → lookup (get_or e.x402_requirement_id "") s.x402_ids ≡ some key
    pub hash : Owned py e.receipt.transaction_hash key s
    pub started : e.receipt.state ≢ created
    pub evidence : e.receipt.state ≡ confirmed → truthy e.receipt.transaction_hash ≡ true

  pub record IsConsistent (s : Store) : Type 0 where
    pub at : (key : String) (e : Entry) → lookup key s.records ≡ some e → IsIndexed key e s

  pub IsConsistent-empty : IsConsistent empty
  unfolding lookup
  IsConsistent-empty = record { at = λ key e h. cc }

  module _ {key : String} {e e' : Entry} {s s' : Store} (u : Updates py key e e' s s') where
    updated : IsConsistent s → IsIndexed key e' s'
    updated c =
        let i = c.at key e u.old in
        record {
          nonempty = i.nonempty;
          keyed = u.same_key ∙ i.keyed;
          payment = rw (u.payment_ids, u.same_payment) i.payment;
          proposal = rw (u.proposal_ids, u.same_proposal) i.proposal;
          x402 = rw (u.x402_ids, u.same_x402) i.x402;
          hash = u.owned i.hash;
          started = λ q. ground (arith, u.moves, i.started);
          evidence = u.evidence i.evidence;
        }

    untouched :
        (k : String) (f : Entry) → IsConsistent s → k ≢ key → IsIndexed k f s → IsIndexed k f s'
    untouched k f c ne i = record {
      nonempty = i.nonempty;
      keyed = i.keyed;
      payment = rw u.payment_ids i.payment;
      proposal = rw u.proposal_ids i.proposal;
      x402 = rw u.x402_ids i.x402;
      hash = λ t. u.others _ k i.nonempty ne (c.at key e u.old).hash (i.hash t);
      started = i.started;
      evidence = i.evidence;
    }

    pub Updates-IsConsistent : IsConsistent s → IsConsistent s'
    Updates-IsConsistent c = record {
      at = λ k f h.
          let found = subst (λ d. lookup k d ≡ some f) u.records h in
          elim (insert-cases key k e' f s.records found) [
            | inl (p, q) ↦
                subst (λ j. IsIndexed j f s') p (subst (λ g. IsIndexed key g s') q (updated c))
            | inr (ne, h') ↦ untouched k f c (λ p. ne (sym p)) (c.at k f h')
          ];
    }

  pub Touches-IsConsistent :
      {key : String} {s s' : Store} → Touches py key s s' → IsConsistent s → IsConsistent s'
  Touches-IsConsistent (inl same) c = rw same c
  Touches-IsConsistent (inr (e, e', u)) c = Updates-IsConsistent u c

  module _ (i : PaymentIntent) (p : PaymentPolicy) (s : Store) where
    -- what the guards of a new reservation have established
    pub record Fresh : Type 0 where
      pub key : i.idempotency_key ≢ ""
      pub record_free : lookup i.idempotency_key s.records ≡ none
      pub payment_free : is_some (lookup (payment_id py i) s.payment_ids) ≡ false
      pub proposal_free : taken (lookup i.proposal_id s.proposal_ids) i.idempotency_key ≡ false
      pub x402_free :
          (truthy i.x402_requirement_id
            && taken (lookup (get_or i.x402_requirement_id "") s.x402_ids) i.idempotency_key)
          ≡ false

    module _ (f : Fresh) {made : PaymentReceipt}
        (m : make_receipt py (receipt_of py i) ≡ ok made) where
      written : IsIndexed i.idempotency_key (entry_of py i p made) (write py i p made s)
      unfolding write
      written =
          let k = make_receipt_lem py (receipt_of py i) made m in
          record {
            nonempty = f.key;
            keyed = k.idempotency_key;
            payment = lookup-insert_self made.payment_id i.idempotency_key s.payment_ids;
            proposal = lookup-insert_self made.proposal_id i.idempotency_key s.proposal_ids;
            x402 = λ t. ground (
              arith,
              lookup-insert_self (get_or i.x402_requirement_id "") i.idempotency_key s.x402_ids,
            );
            hash = λ t. ground (arith, k.transaction_hash);
            started = λ t. ground (arith, k.state);
            evidence = λ t. ground (arith, k.state);
          }

      kept :
          (k : String) (e : Entry)
          → i.idempotency_key ≢ k
          → IsIndexed k e s
          → IsIndexed k e (write py i p made s)
      unfolding write
      kept k e ne x =
          let r = make_receipt_lem py (receipt_of py i) made m in
          record {
            nonempty = x.nonempty;
            keyed = x.keyed;
            payment = ground (
              arith,
              lookup-insert made.payment_id e.receipt.payment_id i.idempotency_key s.payment_ids,
              x.payment,
              f.payment_free,
              r.payment_id,
            );
            proposal = ground (
              arith,
              lookup-insert made.proposal_id e.receipt.proposal_id i.idempotency_key s.proposal_ids,
              x.proposal,
              x.nonempty,
              f.proposal_free,
              r.proposal_id,
            );
            x402 = λ t. ground (
              arith,
              lookup-insert (get_or i.x402_requirement_id "") (get_or e.x402_requirement_id "")
                  i.idempotency_key s.x402_ids,
              x.x402 t,
              x.nonempty,
              f.x402_free,
            );
            hash = x.hash;
            started = x.started;
            evidence = x.evidence;
          }

      pub write-IsConsistent : IsConsistent s → IsConsistent (write py i p made s)
      write-IsConsistent c = record {
        at = λ k e h.
            elim (insert-cases i.idempotency_key k (entry_of py i p made) e s.records
              (unfold write in h)) [
                | inl (q, r) ↦
                    subst (λ j. IsIndexed j e (write py i p made s)) q
                      (subst (λ g. IsIndexed i.idempotency_key g (write py i p made s)) r written)
                | inr (ne, h') ↦ kept k e ne (c.at k e h')
              ];
      }
