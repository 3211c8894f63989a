-- ===== src/Tests.antt =====
-- Runs of the negotiations, the deals, the request limits and the reconciler.
mod Receipts
use autonomerce.Prelude.{
  string_eq, ◌≤◌, ◌≡◌, ◌↔◌, refl, true, false, none, some, List, [], ◌∷◌, length, String-discrete,
  Option-discrete, ℕ_discrete,
}
use autonomerce.Prelude.Text.{Runtime, no_port, len}
use autonomerce.Prelude.Dict.{insert}
use autonomerce.Prelude.Results.{ok}
use autonomerce.Contracts.{
  offered, confirmed, submitting, stable_id, ProposalState-discrete, PaymentState-discrete,
}
use autonomerce.Contracts.Offers.{CommercialPolicy, Proposal}
use autonomerce.Contracts.Receipt.{PaymentReceipt, repeated}
use autonomerce.Offers.Time.{Time, canonical_timestamp}
use autonomerce.Offers.Receipts.{
  field, no_field, text, Codec, redact_string, is_hidden, Json-discrete,
}
use autonomerce.Offers.Receipts.Ledger.{
  Ledger, Entry, CommercialReceipt, empty_ledger, append, append_all, verify_from, drafted,
  selected_key, hash_of,
}
use autonomerce.Offers.Receipts.Chain.{drafted_lem}
use autonomerce.Offers.Receipts.History.{Grown, append_all-Grown}
use autonomerce.Offers.Receipts.Tamper.{last_hash-identifies}
use autonomerce.Offers.Receipts.Retry.{append-again}
use autonomerce.Offers.Receipts.Clean.{AllClean, append_all-AllClean}
use autonomerce.Payments.Models.Names.{ends_with}
use autonomerce.Prelude.Text.{Moment}
use autonomerce.Prelude.Table.{find_or, pair_eq}
use autonomerce.Sales.Negotiation.{
  NegotiationOrchestrator, NegotiationSession, BuyerResponse, NegotiationAction, start,
  is_negotiable,
}
use autonomerce.Sales.Negotiation.Advance.{advance_all}
use autonomerce.Sales.Negotiation.Rounds.{advance_all-ends}
use autonomerce.Sales.Negotiation.Bounds.{Bargains, advance_all-Bargains}
use autonomerce.Api.Deals.{
  DealEvidence, DealClassification, FulfillmentReceipt, arms_length, customer_funded, classify_deal,
  classified, negsuc,
}
use autonomerce.Api.Deals.Metrics.{aggregate_deal_metrics}
use autonomerce.Api.Deals.Revenue.{Books, classify_deal-Books}
use autonomerce.Api.Deals.Totals.{Deal, Balanced, aggregate_deal_metrics-Balanced}
use autonomerce.Api.RateLimit.{RouteBudget, RateLimitPolicy, Key}
use autonomerce.Api.RateLimit.Served.{
  Event, request, finish, run, window_of, request_limit, slot_limit, held,
}
use autonomerce.Api.RateLimit.Window.{recent, times}
use autonomerce.Api.RateLimit.Limits.{limits_hold, new_world}
use autonomerce.Payments.Models.{mainnet, ExecutionResult}
use autonomerce.Payments.Store.{
  Store, Entry as PaymentEntry, PaymentReconciliation, ReconciliationState,
}
use autonomerce.Payments.Store.Reconcile.{resolution, confirmed_values, old_status}
use autonomerce.Payments.Verification.{is_true}
use autonomerce.Payments.Reconciler.{
  PaymentReconciler, verify_reconciliation_evidence, confirm_from_verified_transaction,
}
use autonomerce.Payments.Reconciler.Evidence.{Proves, verify_reconciliation_evidence-Proves}
use autonomerce.Payments.Reconciler.Confirmed.{
  Confirmation, confirm_from_verified_transaction-Confirmation,
}

-- a runtime library for texts that are already normalized, with one digest
abbrev plain : Runtime
plain = record {
  lower = λ s. s;
  upper = λ s. s;
  casefold = λ s. s;
  isalnum = λ s. true;
  dumps_list = λ xs. elim xs [ [] ↦ "" | x ∷ rest ↦ x ];
  dumps_object = λ xs. elim xs [ [] ↦ "" | x ∷ rest ↦ x.0 ];
  sha256_hex = λ s. "00112233445566778899aabbccddeeff00112233445566778899aabbccddeeff";
  from_isoformat = λ s. some (record { aware = true; instant = len s });
  isoformat = λ n. "2026-01-01T00:00:00+00:00";
  url_split = λ s. some (record {
    scheme = "https";
    hostname = some "buyer.example";
    username = none;
    password = none;
    port = no_port;
  });
  idna = λ s. some s;
}

abbrev policy : CommercialPolicy
policy = record {
  policy_id = "policy-1";
  owner_id = "owner";
  minimum_price_usdc = 1000000;
  maximum_price_usdc = 5000000;
  maximum_discount_fraction = record { units = 25; places = 2 };
  maximum_open_proposals = 3;
  maximum_tasks_per_hour = 20;
  allowed_buyer_hosts = "buyer.example" ∷ [];
  blocked_buyer_hosts = [];
  allowed_chains = "BASE" ∷ [];
  allowed_token = "USDC";
  unattended = true;
}

abbrev offer : Proposal
offer = record {
  proposal_id = "proposal_1";
  seller_agent_url = "https://seller.example";
  buyer_agent_url = "https://buyer.example";
  sku_id = "sku_1";
  problem_observed = "No review";
  offered_outcome = "A review";
  price_usdc = 2000000;
  delivery_seconds = 300;
  buyer_need_id = none;
  acceptance_criteria = "complete" ∷ [];
  expires_at = none;
  state = offered;
  revision = 2;
}

abbrev orchestrator : NegotiationOrchestrator
orchestrator = record { commercial_policy = policy; max_rounds = 1; advisor = none }

abbrev session : NegotiationSession
session = record { initial_proposal = offer; current_proposal = offer; rounds = 0; decisions = [] }

starts : start offer ≡ ok session
unfolding start ProposalState-discrete
starts = refl

-- a price below the floor, which is countered, and the same price with the buyer's acceptance
abbrev calls : List (BuyerResponse × Moment)
calls =
    (
      record { action = NegotiationAction.counter; price_usdc = some 1200000 },
      record { aware = true; instant = 5 },
    )
    ∷ (
      record { action = NegotiationAction.accept; price_usdc = none },
      record { aware = true; instant = 6 },
    )
    ∷ []

-- the floor is three quarters of the initial price, and it is what is agreed
agreed_price : (advance_all plain orchestrator calls session).current_proposal.price_usdc ≡ 1500000
unfolding advance_all autonomerce.Sales.Negotiation.Advance.stop_if ProposalState-discrete
    autonomerce.Sales.Negotiation.Advance.tried String-discrete
    autonomerce.Sales.Negotiation.NegotiationAction-discrete
    autonomerce.Contracts.Offers.make_proposal autonomerce.Contracts.Offers.need_reference
agreed_price = refl

advance_all-ends_example :
    (length (advance_all plain orchestrator calls session).decisions ≤ 2)
    × (length (advance_all plain orchestrator calls session).decisions ≡ 2
        → is_negotiable (advance_all plain orchestrator calls session).current_proposal ≡ false)
advance_all-ends_example = advance_all-ends plain orchestrator offer session calls starts

advance_all-Bargains_example :
    Bargains policy 2000000 (advance_all plain orchestrator calls session).decisions
advance_all-Bargains_example = advance_all-Bargains plain orchestrator offer session calls starts

abbrev evidence : DealEvidence
evidence = record {
  evidence_id = "evidence";
  proposal_id = "proposal_1";
  owner_id = "owner";
  customer_relationship = arms_length;
  funding_source = customer_funded;
  customer_id = some "customer_0000000000000000";
  user_id = some "user_0000000000000000";
  consent_reference = "consent_0000000000000000";
  evidence_reference = "evidence_0000000000000000";
  relationship_verified = true;
  verifier_reference = "verification_0000000000000000";
  refunds_usdc = 500000;
  refund_window_closed = true;
  refund_window_closed_at = "2026-01-03";
  variable_costs = record {
    network_fees_usdc = 1000;
    infrastructure_usdc = 2000000;
    fulfillment_usdc = 0;
    other_usdc = 0;
  };
  costs_measured = true;
  measured_at = "2026-01-04";
  recorded_at = "2026-01-04";
}

abbrev receipt : PaymentReceipt
receipt = record {
  payment_id = "payment_1";
  proposal_id = "proposal_1";
  idempotency_key = "order-1";
  state = confirmed;
  amount_usdc = 2000000;
  chain = "BASE";
  payer_wallet = "0x1111111111111111111111111111111111111111";
  payee_wallet = "0x2222222222222222222222222222222222222222";
  transaction_hash = some "0x0000000000000000000000000000000000000000000000000000000000000001";
  explorer_url = none;
  confirmed_at = some "2026-01-01";
  token = "USDC";
  asset = some "0x833589fcd6edb6e08f4c7c32d4f71b54bda02913";
}

abbrev delivery : FulfillmentReceipt
delivery = record {
  proposal_id = "proposal_1";
  payment_id = "payment_1";
  accepted = true;
  delivered_at = some "2026-01-02";
}

-- the dates are of one length, which is the instant that `plain` reads
deal_classified :
    classify_deal plain evidence (some receipt) false (some delivery)
    ≡ ok (classified plain evidence receipt false delivery)
unfolding classify_deal PaymentState-discrete String-discrete len ℕ_discrete
deal_classified = refl

abbrev deal : DealClassification
deal = classified plain evidence receipt false delivery

-- the deal counts as revenue, and loses money
deal_margin : deal.gross_margin_usdc ≡ negsuc 500999
unfolding classified autonomerce.Api.Deals.SettlementClass-discrete PaymentState-discrete
    String-discrete ℕ_discrete autonomerce.Api.Deals.CustomerRelationship-discrete
    autonomerce.Api.Deals.FundingSource-discrete
deal_margin = refl

classify_deal-Books_example : Books plain evidence receipt false delivery deal
classify_deal-Books_example =
    classify_deal-Books plain evidence receipt false delivery deal deal_classified

aggregate_deal_metrics-Balanced_example :
    Balanced (deal ∷ deal ∷ []) (aggregate_deal_metrics (deal ∷ deal ∷ []))
aggregate_deal_metrics-Balanced_example =
    let d : Deal plain deal = record {
      evidence = evidence;
      payment = receipt;
      mocked = false;
      fulfillment = delivery;
      classified = deal_classified;
    } in
    aggregate_deal_metrics-Balanced plain (deal ∷ deal ∷ []) (d, (d, tt))

abbrev budget : RouteBudget
budget = record {
  owner_requests = 2;
  ip_requests = 2;
  window = 60;
  owner_concurrency = 1;
  ip_concurrency = 1;
}

abbrev limits : RateLimitPolicy
limits = record { standard = budget; gemini = budget; payment = budget; fulfillment = budget }

-- three requests of one owner, the first of which ends before the second
abbrev requests : List Event
requests =
    request 1 (some "owner") none "GET" "/"
    ∷ finish 0
    ∷ request 1 (some "owner") none "GET" "/"
    ∷ request 1 (some "owner") none "GET" "/"
    ∷ []

limits_hold_example :
    let k : Key = ("owner", ("owner", "standard")) in
    let w = run plain limits 8 requests new_world in
    (recent (window_of limits k) w.now (times k w.log) ≤ request_limit limits k)
    × (find_or 0 k w.limiter.active ≡ held k w.leases)
    × (held k w.leases ≤ slot_limit limits k)
    × (length w.limiter.history ≤ 8)
limits_hold_example = limits_hold plain limits 8 requests ("owner", ("owner", "standard"))

abbrev interrupted : PaymentReceipt
interrupted = record receipt { state = submitting; transaction_hash = none; confirmed_at = none }

abbrev transaction : ExecutionResult
transaction = record {
  is_confirmed = true;
  amount_usdc = 2000000;
  chain = "BASE";
  payer_wallet = "0x1111111111111111111111111111111111111111";
  payee_wallet = "0x2222222222222222222222222222222222222222";
  transaction_hash = some "0x0000000000000000000000000000000000000000000000000000000000000001";
  confirmed_at = some "2026-01-01";
  explorer_url = none;
  simulated = false;
  token = "USDC";
  asset = some "0x833589fcd6edb6e08f4c7c32d4f71b54bda02913";
}

abbrev reconciler : PaymentReconciler
reconciler = record {
  mode = mainnet;
  verification_hooks = record { name = "lookup"; run = λ r x. is_true } ∷ [];
}

verify_reconciliation_evidence-Proves_example :
    (verify_reconciliation_evidence plain reconciler interrupted transaction ≡ ok tt)
    ↔ Proves plain reconciler interrupted transaction
verify_reconciliation_evidence-Proves_example =
    verify_reconciliation_evidence-Proves plain reconciler interrupted transaction

abbrev entry : PaymentEntry
entry = record {
  receipt = interrupted;
  fingerprint = "";
  policy_id = "policy-1";
  token = "USDC";
  asset = interrupted.asset;
  x402_requirement_id = none;
  reconciliation = none;
}

abbrev held_store : Store
held_store = record {
  records = ("order-1", entry) ∷ [];
  payment_ids = ("payment_1", "order-1") ∷ [];
  proposal_ids = ("proposal_1", "order-1") ∷ [];
  x402_ids = [];
  transaction_hashes = [];
}

abbrev resolved : PaymentReconciliation
resolved =
    resolution "" "order-1" entry ReconciliationState.confirmed confirmed_values
      ("ticket", "operator") none (old_status none) receipt.transaction_hash

abbrev done_store : Store
done_store = record held_store {
  records = ("order-1", record entry { receipt = receipt; reconciliation = some resolved }) ∷ [];
  transaction_hashes =
      ("0x0000000000000000000000000000000000000000000000000000000000000001", "order-1") ∷ [];
}

confirms :
    confirm_from_verified_transaction plain reconciler "" "order-1" transaction "ticket" "operator"
      held_store
    ≡ ok (record { receipt = receipt; reconciliation = some resolved }, done_store)
unfolding confirm_from_verified_transaction String-discrete PaymentState-discrete Option-discrete
    ℕ_discrete autonomerce.Payments.Models.PaymentMode-discrete
    autonomerce.Payments.Models.Names.normalize_transaction_hash
    autonomerce.Payments.Store.Values.resolution_values
    autonomerce.Payments.Store.Reconcile.confirm_new autonomerce.Payments.Store.Reconcile.settle
    autonomerce.Contracts.Receipt.make_receipt autonomerce.Contracts.Receipt.bad_token
    autonomerce.Contracts.Receipt.receipt_asset autonomerce.Contracts.Receipt.bad_wallet insert
confirms = refl

confirm_from_verified_transaction-Confirmation_example :
    Confirmation plain reconciler "order-1" transaction held_store done_store
      (record { receipt = receipt; reconciliation = some resolved })
confirm_from_verified_transaction-Confirmation_example =
    confirm_from_verified_transaction-Confirmation plain reconciler "" "order-1" transaction
      "ticket" "operator" held_store done_store
      (record { receipt = receipt; reconciliation = some resolved }) confirms
