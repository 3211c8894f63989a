-- ===== src/Payments/Store/Methods.antt =====
-- Every method on a recorded payment replaces its entry as `Updates` says, or changes nothing.
use autonomerce.Prelude.{
  String, true, false, ◌&&◌, ◌==◌, ◌≡◌, refl, sym, subst, inl, inr, Option, some, arith,
  Option-cases,
}
use autonomerce.Prelude.Text.{Runtime, truthy}
use autonomerce.Prelude.Dict.{lookup, lookup-insert, lookup-insert_self}
use autonomerce.Prelude.Results.{Result, ok, ◌>>=◌, or_raise, or_raise-eq-ok}
use autonomerce.Contracts.{PaymentState, payment_state_eq}
use autonomerce.Contracts.Receipt.{make_receipt, make_receipt_lem}
use autonomerce.Payments.Errors.{PaymentError, SubmissionStatus, replay, hash_bound}
use autonomerce.Payments.Models.Names.{get_or, normalize_transaction_hash}
use autonomerce.Payments.Store.{
  Store, Entry, Leaves, Leaves-bind, Leaves-if, Leaves-guard, Leaves-ok, ReconciliationState,
  reconciliation_state_eq,
}
use autonomerce.Payments.Store.Values.{check_transition, reconciliation_values, resolution_values}
use autonomerce.Payments.Store.Reserve.{taken, as_contract, as_contract-eq-ok}
use autonomerce.Payments.Store.Transition.{bind_hash, or_else, advanced, advance, transition}
use autonomerce.Payments.Store.Reconcile.{
  confirmed_values, record_reconciliation, mark_reconciliation_retryable, confirm_again,
  confirm_reconciliation, cancel_reconciliation,
}
use autonomerce.Payments.Store.Updates.{edge, Touches, Owns, Keeps, Follows, made-Updates}
use autonomerce.Payments.Store.Settled.{
  record_on-Touches, mark_on-Touches, cancel_on-Touches, confirm_new-Touches, replay-Touches,
}

module _ (py : Runtime) (key : String) (e : Entry) (s : Store) where
  -- the hash of the new receipt is bound to the key
  bind_hash-Owns :
      (hash : Option String) → Owns py hash key (bind_hash py hash key s.transaction_hashes)
  bind_hash-Owns hash t =
      ground (arith, lookup-insert_self (py.lower (get_or hash "")) key s.transaction_hashes)

  bind_hash-Keeps :
      (hash : Option String)
      → (truthy hash && taken (lookup (py.lower (get_or hash "")) s.transaction_hashes) key) ≡ false
      → Keeps py key e s
          (bind_hash py (or_else hash e.receipt.transaction_hash) key s.transaction_hashes)
  bind_hash-Keeps hash free h k nonempty other owned found = ground (
    arith,
    lookup-insert (py.lower (get_or (or_else hash e.receipt.transaction_hash) "")) h key
        s.transaction_hashes,
    owned,
  )

  check_transition-edge :
      (target : PaymentState) {u : Unit {0}}
      → check_transition e.receipt target ≡ ok u
      → edge e.receipt.state target ≡ true
  unfolding check_transition
  check_transition-edge target h = ground arith

  Follows-advanced :
      (target : PaymentState) (hash url at : Option String)
      → lookup key s.records ≡ some e
      → edge e.receipt.state target ≡ true
      → (truthy hash && taken (lookup (py.lower (get_or hash "")) s.transaction_hashes) key) ≡ false
      → Follows py key e s
          (advanced e.receipt target hash url at)
          (bind_hash py (or_else hash e.receipt.transaction_hash) key s.transaction_hashes)
  Follows-advanced target hash url at old legal free = record {
    old = old;
    payment = refl;
    proposal = refl;
    idempotency = refl;
    amount = refl;
    moves = legal;
    owns = λ _. bind_hash-Owns (or_else hash e.receipt.transaction_hash);
    keeps = bind_hash-Keeps hash free;
  }

  advance-Touches :
      (target : PaymentState) (hash url at : Option String)
      → lookup key s.records ≡ some e
      → Leaves (Touches py key s) (advance py key e target hash url at s)
  unfolding advance
  advance-Touches target hash url at old =
      let next = advanced e.receipt target hash url at in
      Leaves-bind (Touches py key s) (check_transition e.receipt target) _ λ _ legal.
        Leaves-guard (Touches py key s)
          (truthy hash && taken (lookup (py.lower (get_or hash "")) s.transaction_hashes) key)
          (replay hash_bound) _
          λ free. Leaves-bind (Touches py key s) (as_contract (make_receipt py next)) _ λ made m.
            let made_ok = as_contract-eq-ok (make_receipt py next) m in
            Leaves-ok (Touches py key s) _ _ (
              inr (
                e,
                record e { receipt = made },
                made-Updates py key e s next made e.reconciliation _
                    (subst (λ h. Follows py key e s next (bind_hash py h key s.transaction_hashes))
                      (sym (make_receipt_lem py next made made_ok).transaction_hash)
                      (Follows-advanced target hash url at old (check_transition-edge target legal)
                        free))
                    made_ok,
              ))

module _ (py : Runtime) (now key : String) (s : Store) where
  -- the methods look the key up first
  Leaves-lookup :
      {A : Type 0} (f : Entry → Result PaymentError (A × Store)) (x : PaymentError)
      → ((e : Entry) → lookup key s.records ≡ some e → Leaves (Touches py key s) (f e))
      → Leaves (Touches py key s) (or_raise (lookup key s.records) x >>= f)
  Leaves-lookup f x h =
      Leaves-bind (Touches py key s) (or_raise (lookup key s.records) x) f
        (λ e found. h e (or_raise-eq-ok (lookup key s.records) x found))

  confirm_again-Touches :
      (e : Entry) (hash : String) (by : String × String)
      → Leaves (Touches py key s) (confirm_again py e hash by s)
  unfolding confirm_again
  confirm_again-Touches e hash by = elim (Option-cases e.reconciliation) [
    | inl absent ↦ rw (absent, confirm_again) (record { at = λ a t p. cc })
    | inr (r, there) ↦
        rw (there, confirm_again)
          (replay-Touches py key e s r ReconciliationState.confirmed confirmed_values by
            (some hash))
  ]

  pub transition-Touches :
      (target : PaymentState) (hash url at : Option String)
      → Leaves (Touches py key s) (transition py key target hash url at s)
  unfolding transition
  transition-Touches target hash url at = Leaves-lookup _ _ λ e found.
      Leaves-bind (Touches py key s) _ _ λ same _.
        Leaves-if (Touches py key s) same (Leaves-ok (Touches py key s) e.receipt s (inl refl))
          (advance-Touches py key e s target hash url at found)

  pub record_reconciliation-Touches :
      (reason text : String) (returncode : Option String) (submission : SubmissionStatus)
      → Leaves
          (Touches py key s)
          (record_reconciliation py now key reason text returncode submission s)
  unfolding record_reconciliation
  record_reconciliation-Touches reason text returncode submission =
      Leaves-bind (Touches py key s) (reconciliation_values py reason text) _
        λ values _. Leaves-lookup _ _ (λ e found. record_on-Touches py key e s _ found)

  pub mark-Touches :
      (reason text evidence by : String) (returncode : Option String)
      → Leaves
          (Touches py key s)
          (mark_reconciliation_retryable py now key reason text evidence by returncode s)
  unfolding mark_reconciliation_retryable
  mark-Touches reason text evidence by returncode =
      Leaves-bind (Touches py key s) (reconciliation_values py reason text) _ λ values _.
        Leaves-bind (Touches py key s) (resolution_values evidence by) _ λ actors _.
          Leaves-lookup _ _
            (λ e found. mark_on-Touches py key e s now values actors returncode found)

  pub confirm-Touches :
      (given : String) (url at : Option String) (evidence by : String)
      → Leaves (Touches py key s) (confirm_reconciliation py now key given url at evidence by s)
  unfolding confirm_reconciliation
  confirm-Touches given url at evidence by =
      Leaves-bind (Touches py key s) (normalize_transaction_hash py given) _ λ hash _.
        Leaves-bind (Touches py key s) (resolution_values evidence by) _ λ actors _.
          Leaves-lookup _ _ λ e found.
            Leaves-if (Touches py key s) (e.receipt.state == PaymentState.confirmed)
              (confirm_again-Touches e hash actors)
              (confirm_new-Touches py key e s now hash url at actors found)

  pub cancel-Touches :
      (reason text evidence by : String)
      → Leaves (Touches py key s) (cancel_reconciliation py now key reason text evidence by s)
  unfolding cancel_reconciliation
  cancel-Touches reason text evidence by =
      Leaves-bind (Touches py key s) (reconciliation_values py reason text) _ λ values _.
        Leaves-bind (Touches py key s) (resolution_values evidence by) _ λ actors _.
          Leaves-lookup _ _ (λ e found. cancel_on-Touches py key e s now values actors found)
