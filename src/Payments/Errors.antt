-- ===== src/Payments/Errors.antt =====
-- apps/api/autonomerce/payments/errors.py, with the reasons that the payment modules raise for.
use autonomerce.Prelude.{String, Bool, not, ◌&&◌, Option, Eq, ◌==◌}
use autonomerce.Contracts.Receipt.{ContractError}

-- the stable denial codes of `PaymentPolicyGate`
pub data Reason : Type 0 where
  policy_disabled proposal_not_accepted proposal_amount_mismatch invalid_amount : Reason
  per_payment_limit payment_count_limit cumulative_limit chain_not_allowed : Reason
  mode_chain_mismatch mainnet_not_enabled token_mismatch scheme_not_allowed : Reason
  asset_not_allowlisted asset_mismatch payer_allowlist_missing payer_not_allowed : Reason
  payee_allowlist_missing payee_not_allowed self_payment x402_identifier_required : Reason
  x402_fingerprint_required invalid_resource_host resource_host_blocked : Reason
  resource_host_not_allowed authorized idempotent_existing : Reason

-- the reasons of a `PaymentValidationError`
pub data Invalid : Type 0 where
  chain_identifier wallet_family wallet_address transaction_hash idempotency_key : Invalid
  token proposal_id amount scheme fingerprint resource_url unknown_reservation : Invalid
  state_transition added_evidence reason_code explanation evidence_reference actor : Invalid
  not_submitting not_reconcilable not_cancellable : Invalid

-- the reasons of a `PaymentReplayError`
pub data Replay : Type 0 where
  other_intent other_policy payment_id_taken proposal_bound x402_reserved : Replay
  rewritten_evidence hash_bound resolved rewritten_resolution no_resolution : Replay

pub data SubmissionStatus : Type 0 where
  not_submitted ambiguous : SubmissionStatus

unfoldable pub SubmissionStatus-discrete : Discrete SubmissionStatus
SubmissionStatus-discrete = hlevel

instance abbrev pub submission_status_eq : Eq SubmissionStatus
submission_status_eq = record { discrete = SubmissionStatus-discrete }

-- `CircleExecutionError`; its return code, as a text, is `none` when the process did not start
pub record CircleError : Type 0 where
  pub terminal : Bool
  pub returncode : Option String
  pub reason_code : String
  pub message : String
  pub submission_status : SubmissionStatus

unfoldable pub proven_not_submitted : CircleError → Bool
proven_not_submitted e = e.submission_status == not_submitted

unfoldable pub reconciliation_required : CircleError → Bool
reconciliation_required e = not e.terminal && e.submission_status == ambiguous

pub data PaymentError : Type 0 where
  validation : Invalid → PaymentError
  contract : ContractError → PaymentError
  denied : Reason → PaymentError
  replay : Replay → PaymentError
  circle : CircleError → PaymentError
  -- `ReceiptVerificationError`, with the verdict's code
  unverified : String → PaymentError
  -- any other exception of an executor
  crashed : PaymentError
