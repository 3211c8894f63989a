-- ===== src/Payments/Verification.antt =====
-- apps/api/autonomerce/payments/verification.py: `verify_receipt`, its guards in the order of the
-- code, in one function for each subject. Explanations are left out.
pub mod Sound
pub mod Honest
use autonomerce.Prelude.{
  ℕ, String, Bool, true, false, not, ◌&&◌, ◌||◌, if◌then◌else◌, ◌==◌, string_eq, nat_eq, option_eq,
  Option, none, some, List, [], ◌∷◌, any,
}
use autonomerce.Prelude.Text.{Runtime}
use autonomerce.Prelude.Results.{Result, ok, err, ◌>>=◌, ◌>>◌, raise_if}
use autonomerce.Contracts.{confirmed, payment_state_eq}
use autonomerce.Contracts.Receipt.{PaymentReceipt}
use autonomerce.Payments.Errors.{PaymentError}
use autonomerce.Payments.Models.{
  PaymentMode, offline, payment_mode_eq, is_live, PaymentIntent, ExecutionResult,
  ReceiptVerification,
}
use autonomerce.Payments.Models.Names.{
  canonical_chain, normalize_wallet_address, normalize_transaction_hash, get_or,
}
use autonomerce.Payments.Models.Intent.{payment_id}

-- what a hook returns: a verdict, `True`, `None`, `False`, anything else; or it raises
pub data HookResult : Type 0 where
  verdict : ReceiptVerification → HookResult
  is_true is_none is_false other raised : HookResult

pub record ReceiptHook : Type 0 where
  pub name : String
  -- the marker of an independent transaction lookup
  pub looks_up : Bool
  pub run : PaymentReceipt → PaymentIntent → ExecutionResult → HookResult

-- how a guard leaves: by a failed verdict with hook results of its own, or by an exception
pub data Stop : Type 0 where
  fail : ReceiptVerification → Stop
  raise : PaymentError → Stop

abbrev failure : String → Stop
failure reason = fail (record { verified = false; reason_code = reason; hook_results = [] })

abbrev pub Guard : Type 0
Guard = Result Stop (Unit {0})

abbrev fail_if : Bool → String → Guard
fail_if b reason = raise_if b (failure reason)

abbrev lift {ℓ} : {A : Type ℓ} → Result PaymentError A → Result Stop A
lift (ok a) = ok a
lift (err e) = err (raise e)

-- `try: ... except Exception: return fail(reason)`
abbrev or_fail {ℓ} : {A : Type ℓ} → Result PaymentError A → String → Result Stop A
or_fail (ok a) reason = ok a
or_fail (err e) reason = err (failure reason)

unfoldable pub check_identity : Runtime → PaymentReceipt → PaymentIntent → ExecutionResult → Guard
check_identity py r i x = do
  fail_if (not (r.state == confirmed)) "receipt_not_confirmed"
  fail_if (not x.is_confirmed) "execution_not_confirmed"
  fail_if (not (r.payment_id == payment_id py i)) "payment_id_mismatch"
  fail_if (not (r.proposal_id == i.proposal_id)) "proposal_id_mismatch"
  fail_if (not (r.idempotency_key == i.idempotency_key)) "idempotency_mismatch"
  fail_if (not (r.amount_usdc == i.amount_usdc) || not (x.amount_usdc == i.amount_usdc))
      "amount_mismatch"

unfoldable pub check_money :
    Runtime → PaymentMode → PaymentReceipt → PaymentIntent → ExecutionResult → Guard
check_money py mode r i x = do
  chain ← lift (canonical_chain py r.chain)
  fail_if (not (chain == i.chain) || not (x.chain == i.chain)) "chain_mismatch"
  fail_if (not (r.token == i.token) || not (x.token == i.token)) "token_mismatch"
  fail_if (not (x.asset == i.asset)) "asset_mismatch"
  fail_if (is_live mode && not (r.asset == i.asset)) "asset_mismatch"
  fail_if (mode == offline && not (r.asset == none || r.asset == i.asset)) "asset_mismatch"

unfoldable pub check_parties : Runtime → PaymentReceipt → PaymentIntent → ExecutionResult → Guard
check_parties py r i x = do
  payer ← or_fail (normalize_wallet_address py r.payer_wallet r.chain) "invalid_receipt_wallet"
  payee ← or_fail (normalize_wallet_address py r.payee_wallet r.chain) "invalid_receipt_wallet"
  fail_if
      (not (py.lower payer == py.lower i.payer_wallet)
        || not (py.lower x.payer_wallet == py.lower i.payer_wallet))
      "payer_mismatch"
  fail_if
      (not (py.lower payee == py.lower i.payee_wallet)
        || not (py.lower x.payee_wallet == py.lower i.payee_wallet))
      "payee_mismatch"

unfoldable pub check_evidence :
    Runtime → PaymentMode → PaymentReceipt → PaymentIntent → ExecutionResult → Guard
check_evidence py mode r i x = do
  hash ←
      or_fail (normalize_transaction_hash py (get_or r.transaction_hash ""))
        "invalid_transaction_hash"
  fail_if (not (py.lower hash == py.lower (get_or x.transaction_hash "")))
      "transaction_hash_mismatch"
  fail_if (mode == offline && not x.simulated) "offline_evidence_mismatch"
  fail_if (is_live mode && x.simulated) "live_evidence_mismatch"

unfoldable pub has_independent_transaction_lookup : List ReceiptHook → Bool
has_independent_transaction_lookup hooks = any (λ h. h.looks_up) hooks

unfoldable pub check_lookup : PaymentMode → PaymentIntent → List ReceiptHook → Guard
unfolding has_independent_transaction_lookup
check_lookup mode i hooks = do
  fail_if (is_live mode && (i.asset == none || i.asset == some i.token)) "canonical_asset_required"
  fail_if (is_live mode && not (has_independent_transaction_lookup hooks))
      "independent_lookup_required"

-- what one hook's result adds to `hook_results`, or the verdict that it ends with
unfoldable pub hook_verdict : ReceiptHook → HookResult → Result Stop String
hook_verdict h (verdict v) = if v.verified then ok v.reason_code else err (fail v)
hook_verdict h is_true = ok h.name
hook_verdict h is_none = ok h.name
hook_verdict h is_false = err (failure "verification_hook_denied")
hook_verdict h other = err (failure "verification_hook_invalid")
hook_verdict h raised = err (failure "verification_hook_error")

-- the loop over the hooks
unfoldable pub run_hooks :
    PaymentReceipt → PaymentIntent → ExecutionResult → List ReceiptHook → Result Stop (List String)
run_hooks r i x [] = ok []
run_hooks r i x (h ∷ hooks) =
    let rest = run_hooks r i x hooks in
    do first ← hook_verdict h (h.run r i x); more ← rest; ok (first ∷ more)

unfoldable pub check_receipt :
    Runtime
    → PaymentMode
    → List ReceiptHook
    → PaymentReceipt
    → PaymentIntent
    → ExecutionResult
    → Result Stop (List String)
check_receipt py mode hooks r i x = do
  check_identity py r i x
  check_money py mode r i x
  check_parties py r i x
  check_evidence py mode r i x
  check_lookup mode i hooks
  run_hooks r i x hooks

abbrev conclude : Result Stop (List String) → Result PaymentError ReceiptVerification
conclude (ok results) =
    ok (record { verified = true; reason_code = "verified"; hook_results = results })
conclude (err (fail v)) = ok v
conclude (err (raise e)) = err e

-- `verify_receipt`
unfoldable pub verify_receipt :
    Runtime
    → PaymentMode
    → List ReceiptHook
    → PaymentReceipt
    → PaymentIntent
    → ExecutionResult
    → Result PaymentError ReceiptVerification
verify_receipt py mode hooks r i x = conclude (check_receipt py mode hooks r i x)
