-- ===== src/Payments/Store/Values.antt =====
-- apps/api/autonomerce/payments/store.py: the checks that the methods share.
use autonomerce.Prelude.{
  String, Bool, true, false, not, ◌&&◌, ◌||◌, ltb, if◌then◌else◌, ◌==◌, string_eq, option_eq,
  Option, none, some,
}
use autonomerce.Prelude.Text.{Runtime, strip, len, take, without}
use autonomerce.Prelude.Results.{Result, ok, err, ◌>>◌, raise_if}
use autonomerce.Contracts.{
  PaymentState, created, policy_approved, submitting, confirmed, failed_retryable, failed_terminal,
  payment_state_eq,
}
use autonomerce.Contracts.Receipt.{PaymentReceipt}
use autonomerce.Payments.Errors.{
  PaymentError, validation, replay, reason_code, explanation, evidence_reference, actor,
  state_transition, added_evidence, rewritten_evidence, rewritten_resolution,
}
use autonomerce.Payments.Store.{ReconciliationState, reconciliation_state_eq, PaymentReconciliation}

-- `target in _TRANSITIONS[current]`
abbrev pub has_transition : PaymentState → PaymentState → Bool
has_transition policy_approved t = t == submitting || t == failed_terminal
has_transition submitting t = t == confirmed || t == failed_retryable || t == failed_terminal
has_transition failed_retryable t = t == failed_terminal
has_transition confirmed t = false
has_transition failed_terminal t = false
has_transition created t = t == policy_approved || t == failed_terminal

-- `_check_transition`
unfoldable pub check_transition : PaymentReceipt → PaymentState → Result PaymentError (Unit {0})
check_transition current target =
    raise_if (not (target == current.state) && not (has_transition current.state target))
      (validation state_transition)

-- one field of `_check_idempotent_transition`
unfoldable pub same_evidence :
    (String → String) → Option String → Option String → Result PaymentError (Unit {0})
same_evidence normal none existing = ok tt
same_evidence normal (some value) none = err (validation added_evidence)
same_evidence normal (some value) (some old) =
    raise_if (not (normal value == normal old)) (replay rewritten_evidence)

-- `_check_idempotent_transition`
unfoldable pub check_idempotent_transition :
    Runtime
    → PaymentReceipt
    → PaymentState
    → Option String
    → Option String
    → Option String
    → Result PaymentError Bool
unfolding same_evidence
check_idempotent_transition py current target hash url at =
    if not (target == current.state) then ok false else (do
      same_evidence py.lower hash current.transaction_hash
      same_evidence (λ v. v) url current.explorer_url
      same_evidence (λ v. v) at current.confirmed_at
      ok true)

-- `_reconciliation_values`
unfoldable pub reconciliation_values :
    Runtime → String → String → Result PaymentError (String × String)
unfolding strip len without take
reconciliation_values py reason text = do
  let code = py.lower (strip reason)
  raise_if (code == "" || ltb 96 (len code) || not (py.isalnum (without b'_' code)))
      (validation reason_code)
  let told = strip text
  raise_if (told == "") (validation explanation)
  ok (code, take 400 told)

-- `_resolution_values`
unfoldable pub resolution_values : String → String → Result PaymentError (String × String)
unfolding strip len
resolution_values evidence by = do
  let reference = strip evidence
  let operator = strip by
  raise_if (reference == "") (validation evidence_reference)
  raise_if (ltb 400 (len reference)) (validation evidence_reference)
  raise_if (operator == "" || ltb 160 (len operator)) (validation actor)
  ok (reference, operator)

-- `text.lower() if text else None`
abbrev pub lowered : Runtime → Option String → Option String
lowered py none = none
lowered py (some s) = if s == "" then none else some (py.lower s)

-- `_assert_resolution_replay`
unfoldable pub assert_resolution_replay :
    Runtime
    → PaymentReconciliation
    → ReconciliationState
    → String
    → String
    → String
    → String
    → Option String
    → Result PaymentError (Unit {0})
assert_resolution_replay py old state reason text evidence by hash =
    raise_if
      (not (
        old.state == state
        && old.reason_code == reason
        && old.explanation == text
        && old.evidence_reference == some evidence
        && old.resolved_by == some by
        && lowered py old.transaction_hash == lowered py hash))
      (replay rewritten_resolution)
