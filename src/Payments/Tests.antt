-- ===== src/Payments/Tests.antt =====
-- Runs of the payment lane on concrete intents, policies and executors.
use autonomerce.Prelude.{
  true, false, ◌≡◌, ◌≢◌, refl, none, some, List, [], ◌∷◌, String-discrete, Option-discrete,
  ℕ_discrete, Bool-cases,
}
use autonomerce.Prelude.Text.{Runtime, strip, strip_left, strip_right, is_space, take, len, without}
use autonomerce.Prelude.Dict.{lookup, insert}
use autonomerce.Prelude.Results.{ok}
use autonomerce.Contracts.{accepted, PaymentState-discrete, ProposalState-discrete, stable_id}
use autonomerce.Contracts.Receipt.{
  PaymentReceipt, is_hex, repeated, hex_literal, bad_token, receipt_asset, bad_wallet, make_receipt,
}
use autonomerce.Payments.Models.{offline, PaymentIntent, PaymentPolicy}
use autonomerce.Payments.Models.Names.{resource_host}
use autonomerce.Payments.Models.Intent.{payment_id, intent_fingerprint}
use autonomerce.Payments.Gate.{
  check_amounts, check_mode, check_chain, check_asset, check_wallets, check_x402, check_host,
  check_all, decide_by, evaluate,
}
use autonomerce.Payments.Store.{
  Store, empty, snapshot, committed_usdc, committed_count, PaymentReservation,
}
use autonomerce.Payments.Store.Reserve.{reserve, reserve_new, write, receipt_of}
use autonomerce.Payments.Errors.{authorized}
use autonomerce.Prelude.{◌+◌, ◌≤◌, ◌↔◌}
use autonomerce.Payments.Models.{
  PaymentPolicyDecision, ExecutionResult, ReceiptVerification, PaymentMode-discrete,
}
use autonomerce.Contracts.{submitting}
use autonomerce.Payments.Models.Names.{
  canonical_chain, normalize_wallet_address, normalize_transaction_hash, dashes, safe_chain,
  chain_tail, is_chain_head,
}
use autonomerce.Payments.Models.Intent.{RawIntent}
use autonomerce.Payments.Gate.Bounds.{Authorizes, Authorizable, evaluate_iff}
use autonomerce.Payments.Store.Calls.{move, apply, apply-IsConsistent, apply-Spends}
use autonomerce.Payments.Store.Limits.{reserve_within_limits, Spends}
use autonomerce.Payments.Store.Reserve.{entry_of}
use autonomerce.Payments.Store.Reserved.{reserve-IsConsistent}
use autonomerce.Payments.Store.Consistency.{IsConsistent, IsConsistent-empty}
use autonomerce.Payments.Store.Values.{check_transition, check_idempotent_transition}
use autonomerce.Payments.Store.Transition.{transition, advance}
use autonomerce.Payments.Verification.{
  verify_receipt, check_receipt, check_identity, check_money, check_parties, check_evidence,
  check_lookup, run_hooks,
}
use autonomerce.Payments.Verification.Sound.{Verified}
use autonomerce.Payments.Verification.Honest.{verify_receipt-Verified}
use autonomerce.Payments.Processor.{Config, executed, broken, pay, candidate_of}
use autonomerce.Payments.Processor.Once.{IsSafe, AtMostOnce, AllRecorded, pay-IsSafe}
use autonomerce.Payments.Processor.History.{
  Command, pay_with, mark_retryable, run, new_world, executed-AtMostOnce,
}

-- a runtime library for texts that are already normalized
abbrev plain : Runtime
plain = record {
  lower = λ s. s;
  upper = λ s. s;
  casefold = λ s. s;
  isalnum = λ s. true;
  dumps_list = λ xs. elim xs [ [] ↦ "" | x ∷ rest ↦ x ];
  dumps_object = λ xs. elim xs [ [] ↦ "" | x ∷ rest ↦ x.0 ];
  sha256_hex = λ s. s;
  from_isoformat = λ s. none;
  isoformat = λ n. "";
  url_split = λ s. none;
  idna = λ s. some s;
}

abbrev intent : PaymentIntent
intent = record {
  proposal_id = "proposal_1";
  idempotency_key = "order-1";
  amount_usdc = 2500000;
  chain = "BASE";
  token = "USDC";
  payer_wallet = "0x1111111111111111111111111111111111111111";
  payee_wallet = "0x2222222222222222222222222222222222222222";
  proposal_state = accepted;
  expected_amount_usdc = 2500000;
  asset = none;
  scheme = "exact";
  x402_requirement_id = none;
  x402_requirement_fingerprint = none;
  resource_url = none;
}

abbrev policy : PaymentPolicy
policy = record {
  policy_id = "policy-1";
  mode = offline;
  maximum_per_payment_usdc = 5000000;
  maximum_total_usdc = 6000000;
  allowed_chains = "BASE" ∷ [];
  allowed_token = "USDC";
  allowed_payer_wallets = [];
  allowed_payee_wallets = "0x2222222222222222222222222222222222222222" ∷ [];
  maximum_payment_count = 2;
  allowed_schemes = "exact" ∷ [];
  allowed_assets_by_chain = [];
  allowed_resource_hosts = [];
  blocked_resource_hosts = [];
  require_payer_allowlist = false;
  require_payee_allowlist = true;
  require_x402_requirement_id = false;
  allow_self_payment = false;
  mainnet_enabled = false;
  enabled = true;
}

gate_approves : check_all plain intent policy (snapshot "policy-1" empty) ≡ ok tt
unfolding check_all check_amounts check_chain check_mode check_asset check_wallets check_x402
    check_host snapshot committed_usdc committed_count resource_host String-discrete ℕ_discrete
    ProposalState-discrete Bool-cases
gate_approves = refl

makes_receipt : make_receipt plain (receipt_of plain intent) ≡ ok (receipt_of plain intent)
unfolding make_receipt payment_id stable_id strip strip_left strip_right is_space take len
    hex_literal repeated is_hex bad_token bad_wallet receipt_asset without String-discrete
    ℕ_discrete PaymentState-discrete Bool-cases intent_fingerprint
makes_receipt = refl

abbrev decision_made : PaymentPolicyDecision
decision_made = record {
  authorized = true;
  reason_code = authorized;
  policy_id = "policy-1";
  payment_id = payment_id plain intent;
}

abbrev first_reservation : PaymentReservation
first_reservation = record {
  receipt = receipt_of plain intent;
  created = true;
  decision = decision_made;
}

abbrev one_payment : Store
one_payment = write plain intent policy (receipt_of plain intent) empty

key_given : intent.idempotency_key ≢ ""
key_given = λ p. cc

reserves : reserve plain intent policy empty ≡ ok (first_reservation, one_payment)
unfolding reserve reserve_new lookup evaluate decide_by
reserves = rw (gate_approves, makes_receipt) refl

evaluate_iff_example :
    Authorizes (evaluate plain intent policy (snapshot "policy-1" empty))
    ↔ Authorizable plain intent policy (snapshot "policy-1" empty)
evaluate_iff_example = evaluate_iff plain intent policy (snapshot "policy-1" empty)

reserve_within_limits_example :
    let before = snapshot "policy-1" empty in
    let after = snapshot "policy-1" one_payment in
    (after.committed_usdc ≡ before.committed_usdc + 2500000)
    × (after.committed_usdc ≤ 6000000)
    × (after.committed_payment_count ≡ before.committed_payment_count + 1)
    × (after.committed_payment_count ≤ 2)
reserve_within_limits_example =
    reserve_within_limits plain intent policy empty one_payment first_reservation key_given reserves
      refl

reserve-IsConsistent_again : IsConsistent plain one_payment
reserve-IsConsistent_again =
    reserve-IsConsistent plain intent policy empty first_reservation one_payment key_given
      (IsConsistent-empty plain) reserves

reserve-IsConsistent_example : IsConsistent plain one_payment
reserve-IsConsistent_example =
    reserve-IsConsistent plain intent policy empty first_reservation one_payment key_given
      (IsConsistent-empty plain) reserves

abbrev config : Config
config = record { policy = policy; hooks = [] }

abbrev evidence : ExecutionResult
evidence = record {
  is_confirmed = true;
  amount_usdc = 2500000;
  chain = "BASE";
  payer_wallet = "0x1111111111111111111111111111111111111111";
  payee_wallet = "0x2222222222222222222222222222222222222222";
  transaction_hash = some "0x3333333333333333333333333333333333333333333333333333333333333333";
  confirmed_at = some "2026-01-01T00:00:00Z";
  explorer_url = none;
  simulated = true;
  token = "USDC";
  asset = none;
}

pay-IsSafe_example :
    IsSafe plain (pay plain "" (λ s. s) config (executed evidence) intent new_world).1
pay-IsSafe_example =
    pay-IsSafe plain "" (λ s. s) config (executed evidence) intent new_world key_given
      (record { consistent = IsConsistent-empty plain; recorded = tt; once = tt })

abbrev raw : RawIntent
raw = record {
  proposal_id = "proposal_1";
  idempotency_key = "order-1";
  amount_usdc = 2500000;
  chain = "BASE";
  token = "USDC";
  payer_wallet = "0x1111111111111111111111111111111111111111";
  payee_wallet = "0x2222222222222222222222222222222222222222";
  proposal_state = accepted;
  expected_amount_usdc = none;
  asset = none;
  scheme = "exact";
  x402_requirement_id = none;
  x402_requirement_fingerprint = none;
  resource_url = none;
}

-- an interrupted payment, a second attempt under another key, and an operator's resolution
abbrev commands : List Command
commands =
    pay_with config broken raw
    ∷ pay_with config (executed evidence) (record raw { idempotency_key = "order-2" })
    ∷ mark_retryable "order-1" "not_submitted" "checked" "ticket-1" "operator"
    ∷ pay_with config (executed evidence) raw
    ∷ []

executed-AtMostOnce_example :
    let w = run plain "" (λ s. s) commands new_world in
    AtMostOnce w.executions × AllRecorded w.store w.executions
executed-AtMostOnce_example = executed-AtMostOnce plain "" (λ s. s) commands

abbrev confirmed_receipt : PaymentReceipt
confirmed_receipt = candidate_of (receipt_of plain intent) evidence

abbrev verified_verdict : ReceiptVerification
verified_verdict = record { verified = true; reason_code = "verified"; hook_results = [] }

verifies : verify_receipt plain offline [] confirmed_receipt intent evidence ≡ ok verified_verdict
unfolding verify_receipt check_receipt check_identity check_money check_parties check_evidence
    check_lookup run_hooks canonical_chain normalize_wallet_address normalize_transaction_hash
    dashes safe_chain chain_tail is_chain_head strip strip_left strip_right is_space len lookup
    hex_literal repeated is_hex String-discrete Option-discrete ℕ_discrete PaymentState-discrete
    PaymentMode-discrete Bool-cases payment_id take
verifies = refl

verify_receipt-Verified_example : Verified plain offline confirmed_receipt intent evidence []
verify_receipt-Verified_example =
    verify_receipt-Verified plain offline [] confirmed_receipt intent evidence verified_verdict
      verifies refl

abbrev submitted_receipt : PaymentReceipt
submitted_receipt = record (receipt_of plain intent) { state = submitting }

abbrev submitted_payment : Store
submitted_payment = record one_payment {
  records =
      insert "order-1"
        (record (entry_of plain intent policy (receipt_of plain intent)) {
          receipt = submitted_receipt;
        })
        one_payment.records;
}

submits :
    transition plain "order-1" submitting none none none one_payment
    ≡ ok (submitted_receipt, submitted_payment)
unfolding transition advance check_transition check_idempotent_transition lookup insert write
    make_receipt payment_id stable_id strip strip_left strip_right is_space take len hex_literal
    repeated is_hex bad_token bad_wallet receipt_asset without String-discrete ℕ_discrete
    PaymentState-discrete Bool-cases intent_fingerprint
submits = refl

apply-IsConsistent_example :
    IsConsistent plain (apply plain "" "order-1" (move submitting none none none) one_payment)
apply-IsConsistent_example =
    apply-IsConsistent plain "" "order-1" (move submitting none none none) one_payment
      reserve-IsConsistent_again

apply-Spends_example :
    Spends "order-1" "policy-1" one_payment
      (apply plain "" "order-1" (move submitting none none none) one_payment)
apply-Spends_example =
    apply-Spends plain "" "order-1" (move submitting none none none) one_payment "policy-1"
      reserve-IsConsistent_again

-- the call of these examples does change the state
move_submits :
    apply plain "" "order-1" (move submitting none none none) one_payment ≡ submitted_payment
unfolding apply
move_submits = rw submits refl
