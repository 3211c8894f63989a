-- ===== src/Payments/Reconciler.antt =====
-- apps/api/autonomerce/payments/reconciliation.py: `PaymentReconciler` on the in-memory store.
pub mod Evidence
pub mod Confirmed
use Prim.Native.String.{◌++◌}
use autonomerce.Prelude.{
  String, Bool, true, false, not, ◌&&◌, ◌||◌, if◌then◌else◌, ◌==◌, string_eq, nat_eq, option_eq,
  Option, none, some, List, [], ◌∷◌, is_empty,
}
use autonomerce.Prelude.Text.{Runtime}
use autonomerce.Prelude.Results.{Result, ok, err, ◌>>=◌, ◌>>◌, raise_if}
use autonomerce.Contracts.{failed_terminal, payment_state_eq}
use autonomerce.Contracts.Receipt.{PaymentReceipt}
use autonomerce.Payments.Errors.{PaymentError, unverified}
use autonomerce.Payments.Models.{PaymentMode, offline, payment_mode_eq, is_live, ExecutionResult}
use autonomerce.Payments.Models.Names.{canonical_chain, get_or}
use autonomerce.Payments.Store.{Store, Status, Method}
use autonomerce.Payments.Store.Reconcile.{
  get_reconciliation_status, mark_reconciliation_retryable, confirm_reconciliation,
  cancel_reconciliation,
}
use autonomerce.Payments.Verification.{
  HookResult, verdict, is_true, is_none, is_false, other, raised,
}

-- a `TransactionEvidenceHook` and its name
pub record TransactionEvidenceHook : Type 0 where
  pub name : String
  pub run : PaymentReceipt → ExecutionResult → HookResult

pub record PaymentReconciler : Type 0 where
  pub mode : PaymentMode
  pub verification_hooks : List TransactionEvidenceHook

-- one hook's verdict on the evidence
unfoldable pub heed : TransactionEvidenceHook → HookResult → Result PaymentError (Unit {0})
heed h raised = err (unverified ("transaction evidence hook " ++ h.name ++ " raised an exception"))
heed h (verdict v) = raise_if (not v.verified) (unverified v.reason_code)
heed h is_true = ok tt
heed h is_none =
    err (unverified ("transaction evidence hook " ++ h.name ++ " did not verify the transaction"))
heed h is_false =
    err (unverified ("transaction evidence hook " ++ h.name ++ " did not verify the transaction"))
heed h other =
    err (unverified ("transaction evidence hook " ++ h.name ++ " did not verify the transaction"))

-- the loop over the hooks
unfoldable pub heed_all :
    PaymentReceipt → ExecutionResult → List TransactionEvidenceHook → Result PaymentError (Unit {0})
unfolding heed
heed_all r x [] = ok tt
heed_all r x (h ∷ hooks) = let rest = heed_all r x hooks in do heed h (h.run r x); rest

-- `_verify_reconciliation_evidence`
unfoldable pub verify_reconciliation_evidence :
    Runtime → PaymentReconciler → PaymentReceipt → ExecutionResult → Result PaymentError (Unit {0})
unfolding canonical_chain heed_all
verify_reconciliation_evidence py p r x = do
  raise_if (is_empty p.verification_hooks)
      (unverified "independent transaction evidence verification hook is required")
  raise_if (not x.is_confirmed || x.transaction_hash == none)
      (unverified "transaction evidence does not prove confirmation")
  chain ← canonical_chain py r.chain
  raise_if (not (chain == x.chain))
      (unverified "transaction evidence chain does not match the reserved payment")
  raise_if (not (r.token == x.token))
      (unverified "transaction evidence token does not match the reserved payment")
  raise_if (not (r.asset == x.asset))
      (unverified "transaction evidence asset does not match the reserved payment")
  raise_if (is_live p.mode && (r.asset == none || r.asset == some r.token))
      (unverified "live reconciliation requires a canonical USDC contract binding")
  raise_if (not (r.amount_usdc == x.amount_usdc))
      (unverified "transaction evidence amount does not match the reserved payment")
  raise_if (not (py.lower r.payer_wallet == py.lower x.payer_wallet))
      (unverified "transaction evidence payer does not match the reserved payment")
  raise_if (not (py.lower r.payee_wallet == py.lower x.payee_wallet))
      (unverified "transaction evidence payee does not match the reserved payment")
  raise_if (p.mode == offline && not x.simulated)
      (unverified "offline reconciliation requires simulated evidence")
  raise_if (is_live p.mode && x.simulated)
      (unverified "live reconciliation rejects simulated evidence")
  heed_all r x p.verification_hooks

-- `query_status`
abbrev pub query_status : String → Store → Result PaymentError Status
query_status key s = get_reconciliation_status key s

-- `mark_proven_not_submitted_retryable`, without a return code
abbrev pub mark_proven_not_submitted_retryable :
    Runtime → String → String → String → String → String → String → Method Status
mark_proven_not_submitted_retryable py now key reason text evidence by =
    mark_reconciliation_retryable py now key reason text evidence by none

-- `confirm_from_verified_transaction`
unfoldable pub confirm_from_verified_transaction :
    Runtime
    → PaymentReconciler
    → String
    → String
    → ExecutionResult
    → String
    → String
    → Method Status
unfolding get_reconciliation_status verify_reconciliation_evidence confirm_reconciliation
confirm_from_verified_transaction py p now key x evidence by s = do
  status ← get_reconciliation_status key s
  raise_if (status.receipt.state == failed_terminal)
      (unverified "terminally cancelled payment cannot be confirmed")
  verify_reconciliation_evidence py p status.receipt x
  confirm_reconciliation py now key (get_or x.transaction_hash "") x.explorer_url x.confirmed_at
      evidence by s

-- `cancel_terminal`
abbrev pub cancel_terminal :
    Runtime → String → String → String → String → String → String → Method Status
cancel_terminal = cancel_reconciliation
