-- ===== src/Payments/Reconciler/Confirmed.antt =====
-- apps/api/autonomerce/payments/reconciliation.py: what a confirmation has checked and recorded.
use autonomerce.Prelude.{
  String, ◌≡◌, ◌≢◌, refl, ◌==◌, string_eq, Option, none, some, arith, Option-cases, Bool-cases, inl,
  inr,
}
use autonomerce.Prelude.Text.{Runtime}
use autonomerce.Prelude.Dict.{lookup, insert, lookup-insert_self}
use autonomerce.Prelude.Results.{ok, Result-cases}
use autonomerce.Contracts.{PaymentState, failed_terminal, payment_state_eq}
use autonomerce.Contracts.Receipt.{PaymentReceipt, make_receipt, make_receipt_lem}
use autonomerce.Payments.Models.{ExecutionResult}
use autonomerce.Payments.Models.Names.{get_or, normalize_transaction_hash}
use autonomerce.Payments.Store.{Store, Status, Entry, PaymentReconciliation, get, confirmed}
use autonomerce.Payments.Store.Values.{resolution_values}
use autonomerce.Payments.Store.Reserve.{as_contract, as_contract-eq-ok}
use autonomerce.Payments.Store.Reconcile.{
  settle, confirm_new, confirm_again, confirm_reconciliation, get_reconciliation_status, resolution,
  confirmed_values, old_status,
}
use autonomerce.Payments.Reconciler.{
  PaymentReconciler, verify_reconciliation_evidence, confirm_from_verified_transaction,
}
use autonomerce.Payments.Reconciler.Evidence.{Proves, verify_reconciliation_evidence-Proves}

-- the payment is confirmed, and it is what the store has under the key
abbrev Confirmed : String → Status → Store → Type 0
Confirmed key a t = (a.receipt.state ≡ PaymentState.confirmed) × (get key t ≡ some a.receipt)

settle-Confirmed :
    (py : Runtime) (key : String) (e : Entry) (receipt : PaymentReceipt)
    (new : PaymentReconciliation) (s t : Store) (a : Status)
    → receipt.state ≡ PaymentState.confirmed
    → settle py key e receipt new s ≡ ok (a, t)
    → Confirmed key a t
unfolding settle get
settle-Confirmed py key e receipt new s t a c h =
    elim (Result-cases (as_contract (make_receipt py receipt))) [
      | inl (made, m) ↦
          let k =
            make_receipt_lem py receipt made (as_contract-eq-ok (make_receipt py receipt) m) in
          (
            ground (arith, h, m, k.state, c),
            ground (
              arith,
              h,
              m,
              lookup-insert_self key (record e { receipt = made; reconciliation = some new })
                  s.records,
            ),
          )
      | inr (x, m) ↦ ground (arith, h, m)
    ]

confirm_new-Confirmed :
    (py : Runtime) (now key : String) (e : Entry) (hash : String) (url at : Option String)
    (by : String × String) (s t : Store) (a : Status)
    → confirm_new py now key e hash url at by s ≡ ok (a, t)
    → Confirmed key a t
unfolding confirm_new
confirm_new-Confirmed py now key e hash url at by s t a h =
    settle-Confirmed py key e
      (record e.receipt {
        state = PaymentState.confirmed;
        transaction_hash = some hash;
        explorer_url = url;
        confirmed_at = at;
      })
      (resolution now key e confirmed confirmed_values by none (old_status e.reconciliation)
        (some hash))
      (record s { transaction_hashes = insert (py.lower hash) key s.transaction_hashes }) t a refl
      (ground (arith, h))

confirm_again-Confirmed :
    (py : Runtime) (key : String) (e : Entry) (hash : String) (by : String × String) (s t : Store)
    (a : Status)
    → e.receipt.state ≡ PaymentState.confirmed
    → lookup key s.records ≡ some e
    → confirm_again py e hash by s ≡ ok (a, t)
    → Confirmed key a t
unfolding confirm_again get
confirm_again-Confirmed py key e hash by s t a c f h = elim (Option-cases e.reconciliation) [
  | inl n ↦ ground (arith, h, n)
  | inr (old, n) ↦ (ground (arith, h, n, c), ground (arith, h, n, f))
]

confirm_reconciliation-Confirmed :
    (py : Runtime) (now key given : String) (url at : Option String) (evidence by : String)
    (s t : Store) (a : Status)
    → confirm_reconciliation py now key given url at evidence by s ≡ ok (a, t)
    → Confirmed key a t
unfolding confirm_reconciliation
confirm_reconciliation-Confirmed py now key given url at evidence by s t a h =
    elim (Result-cases (normalize_transaction_hash py given)) [
      | inr (x, m) ↦ ground (arith, h, m)
      | inl (hash, m) ↦ elim (Result-cases (resolution_values evidence by)) [
        | inr (x, n) ↦ ground (arith, h, m, n)
        | inl (actors, n) ↦ elim (Option-cases (lookup key s.records)) [
          | inl f ↦ ground (arith, h, m, n, f)
          | inr (e, f) ↦ elim (Bool-cases (e.receipt.state == PaymentState.confirmed)) [
            | inl c ↦
                confirm_again-Confirmed py key e hash actors s t a (ground (arith, c)) f
                  (ground (arith, h, m, n, f, c))
            | inr c ↦
                confirm_new-Confirmed py now key e hash url at actors s t a
                  (ground (arith, h, m, n, f, c))
          ]
        ]
      ]
    ]

-- What a confirmation rests on and leaves.
pub record Confirmation (py : Runtime) (p : PaymentReconciler) (key : String) (x : ExecutionResult)
    (s t : Store) (a : Status) : Type 0 where
  pub before : PaymentReceipt
  pub found : get key s ≡ some before
  pub alive : before.state ≢ failed_terminal
  pub proved : Proves py p before x
  pub state : a.receipt.state ≡ PaymentState.confirmed
  pub kept : get key t ≡ some a.receipt

-- A confirmation by an operator that returns was of a recorded payment that was not cancelled, and the
-- evidence proves the payment: every hook answered for the transaction, and it agrees with the
-- receipt. The store then has the payment as confirmed, as the answer says.
pub confirm_from_verified_transaction-Confirmation :
    (py : Runtime) (p : PaymentReconciler) (now key : String) (x : ExecutionResult)
    (evidence by : String) (s t : Store) (a : Status)
    → confirm_from_verified_transaction py p now key x evidence by s ≡ ok (a, t)
    → Confirmation py p key x s t a
unfolding confirm_from_verified_transaction get_reconciliation_status get
confirm_from_verified_transaction-Confirmation py p now key x evidence by s t a h =
    elim (Option-cases (lookup key s.records)) [
      | inl f ↦ ground (arith, h, f)
      | inr (e, f) ↦ elim (Result-cases (verify_reconciliation_evidence py p e.receipt x)) [
        | inr (z, v) ↦ ground (arith, h, f, v)
        | inl (tt, v) ↦
            let c =
              confirm_reconciliation-Confirmed py now key (get_or x.transaction_hash "")
                x.explorer_url x.confirmed_at evidence by s t a (ground (arith, h, f, v)) in
            record {
              before = e.receipt;
              found = ground (arith, f);
              alive = λ q. ground (arith, h, f, q);
              proved = (verify_reconciliation_evidence-Proves py p e.receipt x).0 v;
              state = c.0;
              kept = c.1;
            }
      ]
    ]
