-- ===== src/Lib.antt =====
-- Autonomerce lets agents sell services: OfferRail (packages/offerrail) makes proposals, negotiates
-- and evaluates the owner's commercial policy; the payment lane (apps/api/autonomerce/payments)
-- pays accepted proposals in USDC. Both stand on the shared contracts in
-- apps/api/autonomerce/contracts.py.
--
-- Parts:
--   Prelude: Python's texts, lists, dictionaries and exceptions; `Text.Runtime` is the part of the
--     runtime library that the source calls and this development takes as a parameter: case
--     conversion, `isalnum`, `json.dumps`, SHA-256, `urlsplit`, IDNA and ISO time stamps.
--   Contracts (contracts.py): the states, `stable_id`; Money has `usdc_text`, Receipt has
--     `PaymentReceipt.__post_init__`, Offers has services, needs, commercial policies and proposals.
--   Payments.Models (payments/models.py): the normalizers, `PaymentIntent` and its identifiers.
--   Payments.Gate (payments/policy.py): `PaymentPolicyGate.evaluate`.
--   Payments.Store (payments/store.py): `InMemoryPaymentStore`: Reserve has `reserve`, Transition
--     `transition`, Reconcile the reconciliation methods, Values the helpers,
--     Calls any of the methods on a recorded payment.
--   Payments.Verification (payments/verification.py): `verify_receipt` and its hooks.
--   Payments.Processor (payments/service.py): `PaymentProcessor.pay`. Its world is the store and
--     the intents that the executor was called with; History puts commands in sequence.
--   Offers.Time, Hosts, Policy (offerrail/_canonical.py and policy.py): time stamps, host rules and
--     `evaluate_commercial_policy`, with the bounds of a policy in Policy.Permitted and its violations,
--     each with its reason code, in Policy.Violations. Offers.Proposals (proposals.py):
--     `create_proposal` and `transition_proposal`, whose moves are listed in Proposals.Transition. Offers.Negotiation (negotiation.py): `negotiate_counteroffer`.
--     Offers.Idempotency (idempotency.py): `IdempotencyStore` with `run_once`. Offers.Receipts
--     (receipts.py): redaction; its Ledger has `append` and `verify` of the chain of receipts.
--   Payments.Reconciler (payments/reconciliation.py): an operator's commands on the store, and the
--     check of the evidence of a transaction.
--   Sales.Negotiation (apps/api/autonomerce/sales/negotiation.py): `NegotiationOrchestrator`, whose
--     `advance` stands in Advance.
--   Api.RateLimit (apps/api/autonomerce/api/rate_limit.py): `RequestLimiter`; Served puts requests
--     and releases in sequence. Api.Deals (api/deal_classification.py): the classification of deals;
--     Metrics has `aggregate_deal_metrics`. Api.Repository (api/repository.py):
--     `monotonic_proposal` and settlement authorizations; Saves has `save_proposal`,
--     `accept_proposal` and `save_payment` of `InMemoryRepository`, whose `public` flag of a receipt
--     stands beside it.
--   Tests and the Tests of Payments, Offers and Api: runs at concrete values.
--
-- How the code is read: an exception is the error of a `Result`, and a method that raises leaves
-- its store as it was; a lock makes a method one step. A USDC amount is a whole number of
-- millionths, since `usdc` refuses finer and negative amounts; `Decimal` rounds a result of more
-- than 28 digits, which is not modelled. A discount is a decimal `units / 10 ^ places`, and both
-- sides of its comparison are multiplied by the power. Type tests of arguments hold by the types
-- here, save where a count, a price or a list of criteria may be invalid. The executor of a
-- payment, the operation of `run_once` and the hooks are arguments: any outcome is possible. The
-- clock is an argument too, and the advisor of a negotiation. The payload of a commercial receipt is
-- the JSON value that `canonical_value` gives. A negotiation's session is left with a round used when
-- the proposal of a counter-offer is refused, as in the code. A call of the limiter is a step at a time in
-- whole microseconds. Requests and responses of the idempotency store are their canonical
-- JSON texts. `usdc_text` writes the digits of a number with one more unit of fuel than the number,
-- of which each round takes one while it divides by ten.
--
-- Left out: explanations in decisions and verdicts (`explain` stands for the one that is stored),
-- metadata and raw executor output, schemas and payloads, `PaymentReceipt.public`, the SQLite
-- stores, network clients and executors, the routes of the web service, the records of fulfilments and
-- publications and the metrics of its repository, pitching,
-- prospects and delivery, the printed forms of receipts and deals, and the catalog.
pub mod Prelude
pub mod Contracts
pub mod Payments
pub mod Offers
pub mod Api
pub mod Sales
mod Tests
