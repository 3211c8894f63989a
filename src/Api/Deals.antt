-- ===== src/Api/Deals.antt =====
-- apps/api/autonomerce/api/deal_classification.py: the evidence of a deal and its classification.
-- Amounts are millionths of a USDC; a margin is a whole number of them that may be negative.
pub mod Metrics
pub mod Revenue
pub mod Totals
use Prim.Native.String.{◌++◌}
use autonomerce.Prelude.{
  ℕ, ◌+◌, ◌-◌, max, String, Bool, true, false, not, ◌&&◌, ◌||◌, ltb, leb, if◌then◌else◌, ◌==◌,
  string_eq, Eq, Option, none, some, List, [], ◌∷◌, contains, any,
}
use autonomerce.Prelude.Text.{Runtime, Moment, strip, len, truthy, replace_zone}
use autonomerce.Prelude.Results.{Result, ok, err, ◌>>=◌, ◌>>◌, raise_if, or_raise}
use autonomerce.Contracts.{PaymentState, confirmed, payment_state_eq}
use autonomerce.Contracts.Receipt.{PaymentReceipt, repeated}
use autonomerce.Offers.Hosts.{starts_with, drop}
use autonomerce.Payments.Models.Intent.{is_lower_hex}
use autonomerce.Payments.Models.Names.{dashes, get_or}

pub data CustomerRelationship : Type 0 where
  arms_length related_party self : CustomerRelationship

pub data FundingSource : Type 0 where
  customer_funded founder_sponsored reimbursed unknown : FundingSource

pub data SettlementClass : Type 0 where
  unsettled offline_mock testnet mainnet unsupported : SettlementClass

unfoldable pub CustomerRelationship-discrete : Discrete CustomerRelationship
CustomerRelationship-discrete = hlevel

unfoldable pub FundingSource-discrete : Discrete FundingSource
FundingSource-discrete = hlevel

unfoldable pub SettlementClass-discrete : Discrete SettlementClass
SettlementClass-discrete = hlevel

instance abbrev pub relationship_eq : Eq CustomerRelationship
relationship_eq = record { discrete = CustomerRelationship-discrete }

instance abbrev pub funding_eq : Eq FundingSource
funding_eq = record { discrete = FundingSource-discrete }

instance abbrev pub settlement_eq : Eq SettlementClass
settlement_eq = record { discrete = SettlementClass-discrete }

-- `ValueError`
pub data DealError : Type 0 where
  invalid : String → DealError

abbrev pub supported_mainnet_chains : List String
supported_mainnet_chains = "BASE" ∷ []

abbrev pub supported_testnet_chains : List String
supported_testnet_chains =
    "ARC-TESTNET" ∷ "ARBITRUM-SEPOLIA" ∷ "BASE-SEPOLIA" ∷ "ETHEREUM-SEPOLIA" ∷ "SEPOLIA" ∷ []

pub record VariableCosts : Type 0 where
  pub network_fees_usdc : ℕ
  pub infrastructure_usdc : ℕ
  pub fulfillment_usdc : ℕ
  pub other_usdc : ℕ

-- `total_usdc`
abbrev pub total_usdc : VariableCosts → ℕ
total_usdc c = c.network_fees_usdc + c.infrastructure_usdc + c.fulfillment_usdc + c.other_usdc

pub record DealEvidence : Type 0 where
  pub evidence_id : String
  pub proposal_id : String
  pub owner_id : String
  pub customer_relationship : CustomerRelationship
  pub funding_source : FundingSource
  pub customer_id : Option String
  pub user_id : Option String
  pub consent_reference : String
  pub evidence_reference : String
  pub relationship_verified : Bool
  pub verifier_reference : String
  pub refunds_usdc : ℕ
  pub refund_window_closed : Bool
  pub refund_window_closed_at : String
  pub variable_costs : VariableCosts
  pub costs_measured : Bool
  pub measured_at : String
  pub recorded_at : String

-- the parts of a `FulfillmentReceipt` that a classification reads
pub record FulfillmentReceipt : Type 0 where
  pub proposal_id : String
  pub payment_id : String
  pub accepted : Bool
  pub delivered_at : Option String

-- `_timestamp`
unfoldable pub timestamp : Runtime → String → String → Result DealError ℕ
unfolding replace_zone
timestamp py value label = do
  parsed ←
      or_raise (py.from_isoformat (replace_zone value)) (invalid (label ++ " must be ISO-8601"))
  raise_if (not parsed.aware) (invalid (label ++ " requires a UTC offset"))
  ok parsed.instant

-- `^prefix[0-9a-f]{16,64}$` on a full match
unfoldable pub typed_format : String → String → Bool
unfolding starts_with drop repeated is_lower_hex len
typed_format prefix value =
    let digits = drop (len prefix) value in
    starts_with prefix value
    && leb 16 (len digits)
    && leb (len digits) 64
    && repeated is_lower_hex (len digits) digits

-- an identifier that is given has its format
unfoldable pub bad_identifier : String → Option String → Bool
unfolding typed_format
bad_identifier prefix none = false
bad_identifier prefix (some identifier) = not (typed_format prefix identifier)

-- `DealEvidence.__post_init__`
unfoldable pub make_evidence : Runtime → DealEvidence → Result DealError DealEvidence
unfolding strip bad_identifier typed_format timestamp
make_evidence py e = do
  raise_if
      (any (λ text. strip text == "")
        (e.evidence_id ∷ e.proposal_id ∷ e.owner_id ∷ e.consent_reference ∷ e.evidence_reference
          ∷ e.verifier_reference ∷ e.refund_window_closed_at ∷ e.measured_at ∷ e.recorded_at ∷ []))
      (invalid "deal evidence requires complete immutable references")
  raise_if (not e.relationship_verified)
      (invalid "deal evidence requires independent relationship verification")
  raise_if (not e.costs_measured)
      (invalid "deal evidence requires explicit measured variable costs")
  raise_if (not e.refund_window_closed)
      (invalid "deal evidence requires a closed refund measurement window")
  raise_if (e.customer_relationship == arms_length && not (truthy e.customer_id))
      (invalid "arms-length deal evidence requires a customer identifier")
  raise_if (bad_identifier "customer_" e.customer_id)
      (invalid "customer identifier must use its hash-shaped typed format")
  raise_if (bad_identifier "user_" e.user_id)
      (invalid "user identifier must use its hash-shaped typed format")
  raise_if (not (typed_format "consent_" e.consent_reference))
      (invalid "consent reference must use its hash-shaped typed format")
  raise_if (not (typed_format "evidence_" e.evidence_reference))
      (invalid "evidence reference must use its hash-shaped typed format")
  raise_if (not (typed_format "verification_" e.verifier_reference))
      (invalid "verifier reference must use its hash-shaped typed format")
  closed ← timestamp py e.refund_window_closed_at "deal evidence refund_window_closed_at"
  measured ← timestamp py e.measured_at "deal evidence measured_at"
  recorded ← timestamp py e.recorded_at "deal evidence recorded_at"
  ok e

-- `payment.chain.strip().upper().replace("_", "-")`
abbrev pub chain_name : Runtime → PaymentReceipt → String
chain_name py payment = dashes (py.upper (strip payment.chain))

-- `settlement_class_for_payment`
unfoldable pub settlement_class_for_payment :
    Runtime → Option PaymentReceipt → Bool → SettlementClass
unfolding strip dashes
settlement_class_for_payment py none mocked = unsettled
settlement_class_for_payment py (some payment) mocked =
    if not (payment.state == confirmed)
    then unsettled
    else if mocked
    then offline_mock
    else if contains (chain_name py payment) supported_testnet_chains
    then testnet
    else if contains (chain_name py payment) supported_mainnet_chains
    then mainnet
    else unsupported

-- a whole number of either sign, and the difference of two natural numbers
pub data ℤ : Type 0 where
  pos negsuc : ℕ → ℤ

unfoldable pub minus : ℕ → ℕ → ℤ
minus a b = if leb b a then pos (a - b) else negsuc (b - a - 1)

pub record DealClassification : Type 0 where
  pub evidence : DealEvidence
  pub settlement_class : SettlementClass
  pub payment_confirmed : Bool
  pub accepted_fulfillment : Bool
  pub external_customer : Bool
  pub counts_as_revenue : Bool
  pub user_acquired : Bool
  pub paid_user : Bool
  pub paid_task : Bool
  pub paid_external_task : Bool
  pub accepted_paid_external_task : Bool
  pub payment_amount_usdc : ℕ
  pub gross_external_revenue_usdc : ℕ
  pub refunds_usdc : ℕ
  pub net_external_revenue_usdc : ℕ
  pub variable_costs_usdc : ℕ
  pub excluded_pilot_spend_usdc : ℕ
  pub gross_margin_usdc : ℤ

-- the classification of a bound, timed deal; no refund is more than its payment here
unfoldable pub classified :
    Runtime → DealEvidence → PaymentReceipt → Bool → FulfillmentReceipt → DealClassification
unfolding settlement_class_for_payment minus
classified py e payment mocked f =
    let settlement = settlement_class_for_payment py (some payment) mocked in
    let external = e.relationship_verified && e.customer_relationship == arms_length in
    let revenue =
      settlement == mainnet && external && e.funding_source == customer_funded && f.accepted in
    let acquired = external && f.accepted && truthy e.user_id in
    let gross = if revenue then payment.amount_usdc else 0 in
    let refunds = if revenue then e.refunds_usdc else 0 in
    let net = gross - refunds in
    let costs = if revenue then total_usdc e.variable_costs else 0 in
    record {
      evidence = e;
      settlement_class = settlement;
      payment_confirmed = true;
      accepted_fulfillment = f.accepted;
      external_customer = external;
      counts_as_revenue = revenue;
      user_acquired = acquired;
      paid_user = acquired && revenue;
      paid_task = true;
      paid_external_task = revenue;
      accepted_paid_external_task = revenue && f.accepted;
      payment_amount_usdc = payment.amount_usdc;
      gross_external_revenue_usdc = gross;
      refunds_usdc = refunds;
      net_external_revenue_usdc = net;
      variable_costs_usdc = costs;
      excluded_pilot_spend_usdc = if revenue then 0 else total_usdc e.variable_costs;
      gross_margin_usdc = minus net costs;
    }

-- the payment of a complete deal, which is confirmed
unfoldable pub confirmed_payment : Option PaymentReceipt → Result DealError PaymentReceipt
confirmed_payment none = err (invalid "complete deal evidence requires a confirmed payment")
confirmed_payment (some payment) = do
  raise_if (not (payment.state == confirmed))
      (invalid "complete deal evidence requires a confirmed payment")
  ok payment

-- `classify_deal`
unfoldable pub classify_deal :
    Runtime
    → DealEvidence
    → Option PaymentReceipt
    → Bool
    → Option FulfillmentReceipt
    → Result DealError DealClassification
unfolding confirmed_payment timestamp classified
classify_deal py e paid mocked fulfilled = do
  payment ← confirmed_payment paid
  f ← or_raise fulfilled (invalid "complete deal evidence requires a fulfillment record")
  raise_if
      (not (payment.proposal_id == e.proposal_id)
        || not (f.proposal_id == e.proposal_id)
        || not (f.payment_id == payment.payment_id))
      (invalid "deal evidence, payment, and fulfillment are not identity-bound")
  raise_if (not (truthy payment.confirmed_at))
      (invalid "complete deal evidence requires payment confirmation time")
  raise_if (not (truthy f.delivered_at))
      (invalid "complete deal evidence requires fulfillment delivery time")
  confirmed_at ← timestamp py (get_or payment.confirmed_at "") "payment confirmed_at"
  delivered_at ← timestamp py (get_or f.delivered_at "") "fulfillment delivered_at"
  closed_at ← timestamp py e.refund_window_closed_at "deal evidence refund_window_closed_at"
  measured_at ← timestamp py e.measured_at "deal evidence measured_at"
  raise_if (ltb closed_at delivered_at)
      (invalid "refund measurement window cannot close before delivery")
  raise_if (ltb measured_at (max (max confirmed_at delivered_at) closed_at))
      (invalid "financial measurement must follow payment, delivery, and refund cutoff")
  raise_if (ltb payment.amount_usdc e.refunds_usdc)
      (invalid "refunds cannot exceed the confirmed payment amount")
  ok (classified py e payment mocked f)
