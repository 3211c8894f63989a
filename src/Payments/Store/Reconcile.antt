-- ===== src/Payments/Store/Reconcile.antt =====
-- apps/api/autonomerce/payments/store.py: the four methods on a payment's reconciliation.
use autonomerce.Prelude.{String, not, ◌||◌, if◌then◌else◌, ◌==◌, string_eq, Option, none, some}
use autonomerce.Prelude.Text.{Runtime}
use autonomerce.Prelude.Dict.{lookup, insert}
use autonomerce.Prelude.Results.{Result, ok, err, ◌>>=◌, ◌>>◌, raise_if, or_raise}
use autonomerce.Contracts.{
  PaymentState, policy_approved, submitting, failed_retryable, failed_terminal, payment_state_eq,
}
use autonomerce.Contracts.Receipt.{PaymentReceipt, make_receipt}
use autonomerce.Payments.Errors.{
  PaymentError, SubmissionStatus, not_submitted, ambiguous, validation, replay, unknown_reservation,
  resolved, not_submitting, not_reconcilable, not_cancellable, no_resolution, hash_bound,
}
use autonomerce.Payments.Models.Names.{normalize_transaction_hash}
use autonomerce.Payments.Store.{
  Store, Entry, Method, Status, PaymentReconciliation, ReconciliationState, pending, retryable,
  confirmed, cancelled, reconciliation_state_eq,
}
use autonomerce.Payments.Store.Values.{
  reconciliation_values, resolution_values, assert_resolution_replay,
}
use autonomerce.Payments.Store.Reserve.{as_contract, taken}

-- `existing.returncode if existing else returncode`, and so for the other fields
abbrev old_returncode : Option PaymentReconciliation → Option String → Option String
old_returncode none given = given
old_returncode (some old) given = old.returncode

abbrev pub old_status : Option PaymentReconciliation → SubmissionStatus
old_status none = ambiguous
old_status (some old) = old.submission_status

abbrev old_created : Option PaymentReconciliation → String → Option String
old_created none now = some now
old_created (some old) now = old.created_at

abbrev pub status_of : Entry → Status
status_of e = record { receipt = e.receipt; reconciliation = e.reconciliation }

-- `record.receipt = replace(record.receipt, state=...)` and `record.reconciliation = ...`
unfoldable pub settle :
    Runtime → String → Entry → PaymentReceipt → PaymentReconciliation → Method Status
settle py key e receipt reconciliation s = do
  updated ← as_contract (make_receipt py receipt)
  let e' = record e { receipt = updated; reconciliation = some reconciliation }
  ok (status_of e', record s { records = insert key e' s.records })

-- `get_reconciliation_status`
unfoldable pub get_reconciliation_status : String → Store → Result PaymentError Status
unfolding lookup
get_reconciliation_status key s = do
  e ← or_raise (lookup key s.records) (validation unknown_reservation)
  ok (status_of e)

-- the branches of `record_reconciliation` on what is recorded
unfoldable pub record_on : String → Entry → PaymentReconciliation → Method PaymentReconciliation
record_on key e new s = elim e.reconciliation [
  | none ↦
      ok (new, record s { records = insert key (record e { reconciliation = some new }) s.records })
  | some old ↦ raise_if (not (old.state == pending)) (replay resolved) >> ok (old, s)
]

-- `record_reconciliation`
unfoldable pub record_reconciliation :
    Runtime
    → String
    → String
    → String
    → String
    → Option String
    → SubmissionStatus
    → Method PaymentReconciliation
record_reconciliation py now key reason text returncode submission s = do
  (code, told) ← reconciliation_values py reason text
  e ← or_raise (lookup key s.records) (validation unknown_reservation)
  record_on key e
      (record {
        idempotency_key = key;
        payment_id = e.receipt.payment_id;
        reason_code = code;
        explanation = told;
        returncode = returncode;
        state = pending;
        submission_status = submission;
        evidence_reference = none;
        transaction_hash = none;
        resolved_by = none;
        created_at = some now;
        updated_at = some now;
      })
      s

-- a repeated resolution: the durable one, or an exception
abbrev pub replay_resolution :
    Runtime
    → Entry
    → PaymentReconciliation
    → ReconciliationState
    → String × String
    → String × String
    → Option String
    → Method Status
replay_resolution py e old state (code, told) (reference, operator) hash s = do
  assert_resolution_replay py old state code told reference operator hash
  ok (status_of e, s)

-- the resolution that replaces what is recorded
abbrev pub resolution :
    String
    → String
    → Entry
    → ReconciliationState
    → String × String
    → String × String
    → Option String
    → SubmissionStatus
    → Option String
    → PaymentReconciliation
resolution now key e state (code, told) (reference, operator) returncode submission hash = record {
  idempotency_key = key;
  payment_id = e.receipt.payment_id;
  reason_code = code;
  explanation = told;
  returncode = old_returncode e.reconciliation returncode;
  state = state;
  submission_status = submission;
  evidence_reference = some reference;
  transaction_hash = hash;
  resolved_by = some operator;
  created_at = old_created e.reconciliation now;
  updated_at = some now;
}

-- `mark_reconciliation_retryable` on a payment that is not retryable with a resolution
unfoldable pub mark_new :
    Runtime
    → String
    → String
    → Entry
    → String × String
    → String × String
    → Option String
    → Method Status
mark_new py now key e values by returncode s = do
  raise_if (not (e.receipt.state == submitting)) (validation not_submitting)
  settle py key e (record e.receipt { state = failed_retryable })
      (resolution now key e retryable values by returncode not_submitted none) s

-- the locked part of `mark_reconciliation_retryable`
unfoldable pub mark_on :
    Runtime
    → String
    → String
    → Entry
    → String × String
    → String × String
    → Option String
    → Method Status
mark_on py now key e values by returncode s = elim e.reconciliation [
  | none ↦ mark_new py now key e values by returncode s
  | some old ↦
      if e.receipt.state == failed_retryable
      then replay_resolution py e old retryable values by none s
      else mark_new py now key e values by returncode s
]

-- `mark_reconciliation_retryable`
unfoldable pub mark_reconciliation_retryable :
    Runtime → String → String → String → String → String → String → Option String → Method Status
mark_reconciliation_retryable py now key reason text evidence by returncode s = do
  values ← reconciliation_values py reason text
  actors ← resolution_values evidence by
  e ← or_raise (lookup key s.records) (validation unknown_reservation)
  mark_on py now key e values actors returncode s

abbrev pub confirmed_values : String × String
confirmed_values = ("verified_transaction", "verified transaction evidence confirms settlement")

-- the locked part of `confirm_reconciliation`, on a payment that is not confirmed
unfoldable pub confirm_new :
    Runtime
    → String
    → String
    → Entry
    → String
    → Option String
    → Option String
    → String × String
    → Method Status
confirm_new py now key e hash url at by s = do
  raise_if (not (e.receipt.state == submitting || e.receipt.state == failed_retryable))
      (validation not_reconcilable)
  raise_if (taken (lookup (py.lower hash) s.transaction_hashes) key) (replay hash_bound)
  settle py key e
      (record e.receipt {
        state = PaymentState.confirmed;
        transaction_hash = some hash;
        explorer_url = url;
        confirmed_at = at;
      })
      (resolution now key e confirmed confirmed_values by none (old_status e.reconciliation)
        (some hash))
      (record s { transaction_hashes = insert (py.lower hash) key s.transaction_hashes })

-- the branch for a payment that is confirmed
unfoldable pub confirm_again : Runtime → Entry → String → String × String → Method Status
confirm_again py e hash by s = elim e.reconciliation [
  | none ↦ err (replay no_resolution)
  | some old ↦ replay_resolution py e old confirmed confirmed_values by (some hash) s
]

-- `confirm_reconciliation`
unfoldable pub confirm_reconciliation :
    Runtime
    → String
    → String
    → String
    → Option String
    → Option String
    → String
    → String
    → Method Status
confirm_reconciliation py now key given url at evidence by s = do
  hash ← normalize_transaction_hash py given
  actors ← resolution_values evidence by
  e ← or_raise (lookup key s.records) (validation unknown_reservation)
  (if e.receipt.state == PaymentState.confirmed
      then confirm_again py e hash actors s
      else confirm_new py now key e hash url at actors s)

-- `cancel_reconciliation` on a payment that is not cancelled with a resolution
unfoldable pub cancel_new :
    Runtime → String → String → Entry → String × String → String × String → Method Status
cancel_new py now key e values by s = do
  raise_if
      (not (
        e.receipt.state == policy_approved
        || e.receipt.state == submitting
        || e.receipt.state == failed_retryable))
      (validation not_cancellable)
  settle py key e (record e.receipt { state = failed_terminal })
      (resolution now key e cancelled values by none (old_status e.reconciliation) none) s

-- the locked part of `cancel_reconciliation`
unfoldable pub cancel_on :
    Runtime → String → String → Entry → String × String → String × String → Method Status
cancel_on py now key e values by s = elim e.reconciliation [
  | none ↦ cancel_new py now key e values by s
  | some old ↦
      if e.receipt.state == failed_terminal
      then replay_resolution py e old cancelled values by none s
      else cancel_new py now key e values by s
]

-- `cancel_reconciliation`
unfoldable pub cancel_reconciliation :
    Runtime → String → String → String → String → String → String → Method Status
cancel_reconciliation py now key reason text evidence by s = do
  values ← reconciliation_values py reason text
  actors ← resolution_values evidence by
  e ← or_raise (lookup key s.records) (validation unknown_reservation)
  cancel_on py now key e values actors s
