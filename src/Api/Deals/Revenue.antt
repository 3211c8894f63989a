-- ===== src/Api/Deals/Revenue.antt =====
-- apps/api/autonomerce/api/deal_classification.py: what a classified deal may claim.
use autonomerce.Prelude.{
  ◌+◌, ◌≤◌, ◌≡◌, ◌↔◌, refl, sym, subst, Bool, true, false, arith, contains, String-discrete, some,
  string_eq,
}
use autonomerce.Prelude.Text.{Runtime}
use autonomerce.Prelude.Results.{ok}
use autonomerce.Contracts.{confirmed, payment_state_eq}
use autonomerce.Contracts.Receipt.{PaymentReceipt}
use autonomerce.Api.Deals.{
  DealEvidence, DealClassification, FulfillmentReceipt, arms_length, customer_funded, mainnet,
  settlement_class_for_payment, chain_name, total_usdc, minus, classified, classify_deal,
  confirmed_payment, supported_testnet_chains, settlement_eq, relationship_eq, funding_eq,
}

-- Revenue, read off the records of a deal and not off its classification.
pub record Earns (py : Runtime) (e : DealEvidence) (payment : PaymentReceipt) (mocked : Bool)
    (f : FulfillmentReceipt) : Type 0 where
  pub state : payment.state ≡ confirmed
  pub real : mocked ≡ false
  pub chain : chain_name py payment ≡ "BASE"
  pub verified : e.relationship_verified ≡ true
  pub arms_length : e.customer_relationship ≡ arms_length
  pub funded : e.funding_source ≡ customer_funded
  pub fulfilled : f.accepted ≡ true

-- The books of a classified deal.
pub record Books (py : Runtime) (e : DealEvidence) (payment : PaymentReceipt) (mocked : Bool)
    (f : FulfillmentReceipt) (c : DealClassification) : Type 0 where
  pub bound :
      (payment.proposal_id ≡ e.proposal_id)
      × (f.proposal_id ≡ e.proposal_id)
      × (f.payment_id ≡ payment.payment_id)
  pub earns : (c.counts_as_revenue ≡ true) ↔ Earns py e payment mocked f
  pub gross : c.counts_as_revenue ≡ true → c.gross_external_revenue_usdc ≡ payment.amount_usdc
  pub kept :
      c.counts_as_revenue ≡ true
      → c.net_external_revenue_usdc + e.refunds_usdc ≡ payment.amount_usdc
  pub refunds : c.counts_as_revenue ≡ true → c.refunds_usdc ≡ e.refunds_usdc
  pub net : c.gross_external_revenue_usdc ≡ c.net_external_revenue_usdc + c.refunds_usdc
  pub nothing :
      c.counts_as_revenue ≡ false
      → (c.gross_external_revenue_usdc ≡ 0)
        × (c.net_external_revenue_usdc ≡ 0)
        × (c.refunds_usdc ≡ 0)
        × (c.variable_costs_usdc ≡ 0)
  pub costs : c.variable_costs_usdc + c.excluded_pilot_spend_usdc ≡ total_usdc e.variable_costs
  pub margin : c.gross_margin_usdc ≡ minus c.net_external_revenue_usdc c.variable_costs_usdc
  pub tasks :
      (c.evidence ≡ e)
      × (c.paid_task ≡ true)
      × (c.paid_external_task ≡ c.counts_as_revenue)
      × (c.accepted_paid_external_task ≡ c.counts_as_revenue)
  pub paid_user : c.paid_user ≡ true → (c.user_acquired ≡ true) × (c.counts_as_revenue ≡ true)

-- only a confirmed payment of a supported chain, that is not mocked, settles on the main network
Base_not_testnet : contains "BASE" supported_testnet_chains ≡ false
unfolding String-discrete
Base_not_testnet = refl

mainnet_iff :
    (py : Runtime) (payment : PaymentReceipt) (mocked : Bool)
    → (settlement_class_for_payment py (some payment) mocked ≡ mainnet)
      ↔ ((payment.state ≡ confirmed) × (mocked ≡ false) × (chain_name py payment ≡ "BASE"))
unfolding settlement_class_for_payment
mainnet_iff py payment mocked = (
  λ h. (ground arith, ground arith, ground arith),
  λ (state, real, base). ground (
    arith,
    state,
    real,
    base,
    subst (λ v. contains v supported_testnet_chains ≡ false) (sym base) Base_not_testnet,
  ),
)

classified-Books :
    (py : Runtime) (e : DealEvidence) (payment : PaymentReceipt) (mocked : Bool)
    (f : FulfillmentReceipt)
    → (payment.proposal_id ≡ e.proposal_id)
      × (f.proposal_id ≡ e.proposal_id)
      × (f.payment_id ≡ payment.payment_id)
    → e.refunds_usdc ≤ payment.amount_usdc
    → Books py e payment mocked f (classified py e payment mocked f)
unfolding classified
classified-Books py e payment mocked f b r = record {
  bound = b;
  earns = (
    λ h.
        let m = (mainnet_iff py payment mocked).0 (ground (arith, h)) in
        record {
          state = m.0;
          real = m.1;
          chain = m.2;
          verified = ground (arith, h);
          arms_length = ground (arith, h);
          funded = ground (arith, h);
          fulfilled = ground (arith, h);
        },
    λ w.
        let m = (mainnet_iff py payment mocked).1 (w.state, w.real, w.chain) in
        ground (arith, m, w.verified, w.arms_length, w.funded, w.fulfilled),
  );
  kept = λ h. ground (arith, h, r);
  refunds = λ h. ground (arith, h);
  gross = λ h. ground (arith, h);
  net = ground (arith, r);
  nothing = λ h. (ground (arith, h), ground (arith, h), ground (arith, h), ground (arith, h));
  costs = ground arith;
  margin = refl;
  tasks = (refl, refl, refl, ground arith);
  paid_user = λ h. (ground (arith, h), ground (arith, h));
}

classify_deal_lem :
    (py : Runtime) (e : DealEvidence) (payment : PaymentReceipt) (mocked : Bool)
    (f : FulfillmentReceipt) (c : DealClassification)
    → classify_deal py e (some payment) mocked (some f) ≡ ok c
    → (c ≡ classified py e payment mocked f)
      × (e.refunds_usdc ≤ payment.amount_usdc)
      × (payment.proposal_id ≡ e.proposal_id)
      × (f.proposal_id ≡ e.proposal_id)
      × (f.payment_id ≡ payment.payment_id)
unfolding classify_deal confirmed_payment
classify_deal_lem py e payment mocked f c h =
    (ground arith, ground arith, ground arith, ground arith, ground arith)

-- A deal that is classified has consistent books: its records are about one proposal; it counts as
-- revenue exactly when its payment is confirmed, not mocked and on Base, and a verified arms-length
-- customer paid for an accepted delivery; the gross revenue is then the whole payment, and the net
-- revenue is that less the refunds of the evidence; without revenue nothing is booked; and each cost is booked once.
pub classify_deal-Books :
    (py : Runtime) (e : DealEvidence) (payment : PaymentReceipt) (mocked : Bool)
    (f : FulfillmentReceipt) (c : DealClassification)
    → classify_deal py e (some payment) mocked (some f) ≡ ok c
    → Books py e payment mocked f c
classify_deal-Books py e payment mocked f c h =
    let l = classify_deal_lem py e payment mocked f c h in
    subst (λ v. Books py e payment mocked f v) (sym l.0)
      (classified-Books py e payment mocked f (l.2, l.3, l.4) l.1)
