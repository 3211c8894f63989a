-- ===== src/Api/Deals/Totals.antt =====
-- apps/api/autonomerce/api/deal_classification.py: the totals of deals that were classified.
use autonomerce.Prelude.{ℕ, ◌+◌, ◌≤◌, ◌≡◌, refl, Bool, arith, some, List, [], ◌∷◌, length}
use autonomerce.Prelude.Text.{Runtime}
use autonomerce.Prelude.Results.{ok}
use autonomerce.Contracts.Receipt.{PaymentReceipt}
use autonomerce.Api.Deals.{
  DealEvidence, DealClassification, FulfillmentReceipt, ℤ, pos, negsuc, minus, classify_deal,
  total_usdc,
}
use autonomerce.Api.Deals.Metrics.{Metrics, aggregate_deal_metrics, sum, count}
use autonomerce.Api.Deals.Revenue.{classify_deal-Books}

infixl 60 ◌+ℤ◌
-- the sum of two whole numbers
unfoldable pub ◌+ℤ◌ : ℤ → ℤ → ℤ
unfolding minus
pos a +ℤ pos b = pos (a + b)
pos a +ℤ negsuc b = minus a (b + 1)
negsuc a +ℤ pos b = minus b (a + 1)
negsuc a +ℤ negsuc b = negsuc (a + b + 1)

-- the difference of two totals
minus-add : (a b c d : ℕ) → minus (a + c) (b + d) ≡ minus a b +ℤ minus c d
unfolding minus ◌+ℤ◌
minus-add a b c d = ground arith

-- the deals of a list and the records from which each was classified
pub record Deal (py : Runtime) (c : DealClassification) : Type 0 where
  pub evidence : DealEvidence
  pub payment : PaymentReceipt
  pub mocked : Bool
  pub fulfillment : FulfillmentReceipt
  pub classified : classify_deal py evidence (some payment) mocked (some fulfillment) ≡ ok c

abbrev pub Deals : Runtime → List DealClassification → Type 0
Deals py [] = Unit
Deals py (c ∷ cs) = Deal py c × Deals py cs

abbrev pub sum_margins : List DealClassification → ℤ
sum_margins [] = pos 0
sum_margins (c ∷ cs) = c.gross_margin_usdc +ℤ sum_margins cs

-- the variable costs of all the deals, as they were measured
abbrev pub all_costs : List DealClassification → ℕ
all_costs cs = sum (λ c. total_usdc c.evidence.variable_costs) cs

-- what the totals of classified deals keep of them
pub record Balanced (cs : List DealClassification) (m : Metrics) : Type 0 where
  pub gross : m.gross_external_revenue_usdc ≡ m.net_external_revenue_usdc + m.refunds_usdc
  pub costs : m.variable_costs_usdc + m.excluded_pilot_spend_usdc ≡ all_costs cs
  pub margin : m.gross_margin_usdc ≡ sum_margins cs
  pub tasks : m.paid_tasks ≡ length cs
  pub external : m.accepted_paid_external_tasks ≡ m.paid_external_tasks
  pub fewer : m.paid_external_tasks ≤ m.paid_tasks

sums_lem :
    (py : Runtime) (cs : List DealClassification)
    → Deals py cs
    → (sum (λ c. c.gross_external_revenue_usdc) cs
        ≡ sum (λ c. c.net_external_revenue_usdc) cs + sum (λ c. c.refunds_usdc) cs)
      × (sum (λ c. c.variable_costs_usdc) cs + sum (λ c. c.excluded_pilot_spend_usdc) cs
          ≡ all_costs cs)
      × (minus (sum (λ c. c.net_external_revenue_usdc) cs) (sum (λ c. c.variable_costs_usdc) cs)
          ≡ sum_margins cs)
unfolding minus
sums_lem py [] ds = (refl, refl, refl)
sums_lem py (c ∷ cs) ds =
    let i = sums_lem py cs ds.1 in
    let b =
      classify_deal-Books py ds.0.evidence ds.0.payment ds.0.mocked ds.0.fulfillment c
        ds.0.classified in
    (
      omega (arith, b.net, i.0),
      ground (arith, b.costs, b.tasks.0, i.1),
      ground (
        arith,
        minus-add c.net_external_revenue_usdc c.variable_costs_usdc
            (sum (λ x. x.net_external_revenue_usdc) cs) (sum (λ x. x.variable_costs_usdc) cs),
        b.margin,
        i.2,
      ),
    )

counts_lem :
    (py : Runtime) (cs : List DealClassification)
    → Deals py cs
    → (count (λ c. c.paid_task) cs ≡ length cs)
      × (count (λ c. c.accepted_paid_external_task) cs ≡ count (λ c. c.paid_external_task) cs)
      × (count (λ c. c.paid_external_task) cs ≤ count (λ c. c.paid_task) cs)
counts_lem py [] ds = (refl, refl, omega arith)
counts_lem py (c ∷ cs) ds =
    let i = counts_lem py cs ds.1 in
    let b =
      classify_deal-Books py ds.0.evidence ds.0.payment ds.0.mocked ds.0.fulfillment c
        ds.0.classified in
    (
      ground (arith, b.tasks.1, i.0),
      ground (arith, b.tasks.2, b.tasks.3, i.1),
      ground (arith, b.tasks.1, i.2),
    )

-- The totals of deals that were each classified are balanced: the gross revenue is the net revenue and
-- the refunds, the costs that count and the spend that is left out are the measured costs of all deals,
-- the margin is the sum of the margins of the deals, of either sign, and the tasks of external
-- customers are as many as their accepted ones and no more than all that are paid.
pub aggregate_deal_metrics-Balanced :
    (py : Runtime) (cs : List DealClassification)
    → Deals py cs
    → Balanced cs (aggregate_deal_metrics cs)
unfolding aggregate_deal_metrics
aggregate_deal_metrics-Balanced py cs ds =
    let s = sums_lem py cs ds in
    let n = counts_lem py cs ds in
    record { gross = s.0; costs = s.1; margin = s.2; tasks = n.0; external = n.1; fewer = n.2 }
