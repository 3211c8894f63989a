-- ===== src/Payments/Store/Settled.antt =====
-- Each change of a recorded payment replaces its entry as `Updates` says, or nothing.
use autonomerce.Prelude.{
  String, true, not, ◌||◌, ◌==◌, ◌≡◌, refl, inl, inr, Option, none, some, arith, Option-cases,
}
use autonomerce.Prelude.Text.{Runtime}
use autonomerce.Prelude.Dict.{Dict, lookup, insert, lookup-insert, lookup-insert_self}
use autonomerce.Prelude.Results.{ok}
use autonomerce.Contracts.{
  PaymentState, submitting, policy_approved, failed_retryable, failed_terminal, payment_state_eq,
}
use autonomerce.Contracts.Receipt.{PaymentReceipt, make_receipt}
use autonomerce.Payments.Errors.{
  validation, replay, not_submitting, not_cancellable, not_reconcilable, hash_bound, resolved,
}
use autonomerce.Payments.Store.{
  Store, Entry, PaymentReconciliation, Leaves, Leaves-bind, Leaves-if, Leaves-guard, Leaves-ok,
  ReconciliationState, pending, retryable, cancelled, reconciliation_state_eq,
}
use autonomerce.Payments.Store.Reserve.{taken, as_contract, as_contract-eq-ok}
use autonomerce.Payments.Store.Reconcile.{
  settle, mark_new, cancel_new, replay_resolution, record_on, mark_on, confirm_new, cancel_on,
}
use autonomerce.Payments.Store.Updates.{edge, Touches, Keeps, Follows, made-Updates}

module _ (py : Runtime) (key : String) (e : Entry) (s : Store) where
  settle-Touches :
      (receipt : PaymentReceipt) (rec : PaymentReconciliation) (hashes : Dict String)
      → Follows py key e s receipt hashes
      → Leaves
          (Touches py key s)
          (settle py key e receipt rec (record s { transaction_hashes = hashes }))
  unfolding settle
  settle-Touches receipt rec hashes f =
      Leaves-bind (Touches py key s) (as_contract (make_receipt py receipt)) _ λ made m.
        Leaves-ok (Touches py key s) _ _ (
          inr (
            e,
            record e { receipt = made; reconciliation = some rec },
            made-Updates py key e s receipt made (some rec) hashes f (as_contract-eq-ok _ m),
          ))

  Keeps-refl : Keeps py key e s s.transaction_hashes
  Keeps-refl h k nonempty other owned found = found

  pub record_on-Touches :
      (new : PaymentReconciliation)
      → lookup key s.records ≡ some e
      → Leaves (Touches py key s) (record_on key e new s)
  unfolding record_on
  record_on-Touches new old = elim (Option-cases e.reconciliation) [
    | inl absent ↦
        rw (absent, record_on)
          (Leaves-ok (Touches py key s) _ _ (
            inr (
              e,
              record e { reconciliation = some new },
              record {
                old = old;
                records = refl;
                payment_ids = refl;
                proposal_ids = refl;
                x402_ids = refl;
                same_payment = refl;
                same_proposal = refl;
                same_key = refl;
                same_amount = refl;
                same_policy = refl;
                same_fingerprint = refl;
                same_x402 = refl;
                moves = ground arith;
                evidence = λ ev. ev;
                owned = λ o. o;
                others = Keeps-refl;
              },
            )))
    | inr (r, there) ↦
        rw (there, record_on)
          (Leaves-guard (Touches py key s) (not (r.state == pending)) (replay resolved) (ok (r, s))
            (λ _. Leaves-ok (Touches py key s) r s (inl refl)))
  ]

  -- a change of state alone
  Follows-state :
      (t : PaymentState)
      → lookup key s.records ≡ some e
      → edge e.receipt.state t ≡ true
      → Follows py key e s (record e.receipt { state = t }) s.transaction_hashes
  Follows-state t old m = record {
    old = old;
    payment = refl;
    proposal = refl;
    idempotency = refl;
    amount = refl;
    moves = m;
    owns = λ o. o;
    keeps = Keeps-refl;
  }

  mark_new-Touches :
      (now : String) (values by : String × String) (returncode : Option String)
      → lookup key s.records ≡ some e
      → Leaves (Touches py key s) (mark_new py now key e values by returncode s)
  unfolding mark_new
  mark_new-Touches now values by returncode old =
      Leaves-guard (Touches py key s) (not (e.receipt.state == submitting))
        (validation not_submitting) _
        λ p.
          settle-Touches _ _ s.transaction_hashes
            (Follows-state failed_retryable old (ground arith))

  cancel_new-Touches :
      (now : String) (values by : String × String)
      → lookup key s.records ≡ some e
      → Leaves (Touches py key s) (cancel_new py now key e values by s)
  unfolding cancel_new
  cancel_new-Touches now values by old =
      Leaves-guard (Touches py key s)
        (not (
          e.receipt.state == policy_approved
          || e.receipt.state == submitting
          || e.receipt.state == failed_retryable))
        (validation not_cancellable) _
        λ p.
          settle-Touches _ _ s.transaction_hashes (Follows-state failed_terminal old (ground arith))

  -- a repeated resolution changes nothing
  pub replay-Touches :
      (old : PaymentReconciliation) (state : ReconciliationState) (values by : String × String)
      (hash : Option String)
      → Leaves (Touches py key s) (replay_resolution py e old state values by hash s)
  replay-Touches old state values by hash =
      Leaves-bind (Touches py key s) _ _ (λ _ _. Leaves-ok (Touches py key s) _ s (inl refl))

  pub mark_on-Touches :
      (now : String) (values by : String × String) (returncode : Option String)
      → lookup key s.records ≡ some e
      → Leaves (Touches py key s) (mark_on py now key e values by returncode s)
  unfolding mark_on
  mark_on-Touches now values by returncode old = elim (Option-cases e.reconciliation) [
    | inl absent ↦ rw (absent, mark_on) (mark_new-Touches now values by returncode old)
    | inr (r, there) ↦
        rw (there, mark_on)
          (Leaves-if (Touches py key s) (e.receipt.state == failed_retryable)
            (replay-Touches r retryable values by none)
            (mark_new-Touches now values by returncode old))
  ]

  pub cancel_on-Touches :
      (now : String) (values by : String × String)
      → lookup key s.records ≡ some e
      → Leaves (Touches py key s) (cancel_on py now key e values by s)
  unfolding cancel_on
  cancel_on-Touches now values by old = elim (Option-cases e.reconciliation) [
    | inl absent ↦ rw (absent, cancel_on) (cancel_new-Touches now values by old)
    | inr (r, there) ↦
        rw (there, cancel_on)
          (Leaves-if (Touches py key s) (e.receipt.state == failed_terminal)
            (replay-Touches r cancelled values by none) (cancel_new-Touches now values by old))
  ]

  pub confirm_new-Touches :
      (now hash : String) (url at : Option String) (by : String × String)
      → lookup key s.records ≡ some e
      → Leaves (Touches py key s) (confirm_new py now key e hash url at by s)
  unfolding confirm_new
  confirm_new-Touches now hash url at by old =
      Leaves-guard (Touches py key s)
        (not (e.receipt.state == submitting || e.receipt.state == failed_retryable))
        (validation not_reconcilable) _
        λ p.
          Leaves-guard (Touches py key s) (taken (lookup (py.lower hash) s.transaction_hashes) key)
            (replay hash_bound) _
            λ free. settle-Touches _ _ (insert (py.lower hash) key s.transaction_hashes) (record {
              old = old;
              payment = refl;
              proposal = refl;
              idempotency = refl;
              amount = refl;
              moves = ground arith;
              owns = λ _ t. lookup-insert_self (py.lower hash) key s.transaction_hashes;
              keeps = λ h k nonempty other _ found.
                  ground (arith, lookup-insert (py.lower hash) h key s.transaction_hashes);
            })
