-- ===== src/Api/Deals/Metrics.antt =====
-- apps/api/autonomerce/api/deal_classification.py: `aggregate_deal_metrics`. A ratio is given by its
-- two terms, since `Decimal` rounds the quotient.
use autonomerce.Prelude.{
  ℕ, ◌+◌, String, Bool, not, ◌&&◌, ltb, leb, if◌then◌else◌, ◌==◌, string_eq, nat_eq, Option, none,
  some, List, [], ◌∷◌, contains, length,
}
use autonomerce.Prelude.Text.{truthy}
use autonomerce.Prelude.Dict.{Dict, lookup, insert}
use autonomerce.Payments.Models.Names.{get_or}
use autonomerce.Api.Deals.{DealClassification, ℤ, minus}

abbrev pub sum : {A : Type 0} → (A → ℕ) → List A → ℕ
sum f [] = 0
sum f (x ∷ xs) = f x + sum f xs

-- `sum(1 for item in values if p(item))`
abbrev pub count : {A : Type 0} → (A → Bool) → List A → ℕ
count p [] = 0
count p (x ∷ xs) = (if p x then 1 else 0) + count p xs

-- the set of the texts that are given, among those of the items that pass a test
abbrev pub text_set :
    (DealClassification → Bool)
    → (DealClassification → Option String)
    → List DealClassification
    → List String
text_set p f [] = []
text_set p f (c ∷ cs) =
    let rest = text_set p f cs in
    let text = get_or (f c) "" in
    if p c && truthy (f c) && not (contains text rest) then text ∷ rest else rest

abbrev one_more : String → Dict ℕ → Dict ℕ
one_more k d = insert k (get_or (lookup k d) 0 + 1) d

-- the `Counter` of the customers whose deals count as revenue
unfoldable pub paying_customer_counts : Dict ℕ → List DealClassification → Dict ℕ
unfolding lookup insert
paying_customer_counts d [] = d
paying_customer_counts d (c ∷ cs) =
    paying_customer_counts
      (if c.counts_as_revenue && truthy c.evidence.customer_id
        then one_more (get_or c.evidence.customer_id "") d
        else d)
      cs

pub record Metrics : Type 0 where
  pub deal_evidence_count : ℕ
  pub users_acquired : ℕ
  pub paying_users : ℕ
  pub accepted_external_fulfillments : ℕ
  pub paid_tasks : ℕ
  pub paid_external_tasks : ℕ
  pub accepted_paid_external_tasks : ℕ
  pub gross_external_revenue_usdc : ℕ
  pub refunds_usdc : ℕ
  pub net_external_revenue_usdc : ℕ
  pub variable_costs_usdc : ℕ
  pub excluded_pilot_spend_usdc : ℕ
  pub gross_margin_usdc : ℤ
  pub gross_margin_percent : Option (ℤ × ℕ)
  pub repeat_purchase_rate : Option (ℕ × ℕ)

-- `aggregate_deal_metrics`
unfoldable pub aggregate_deal_metrics : List DealClassification → Metrics
unfolding paying_customer_counts minus
aggregate_deal_metrics values =
    let customers = paying_customer_counts [] values in
    let net = sum (λ c. c.net_external_revenue_usdc) values in
    let costs = sum (λ c. c.variable_costs_usdc) values in
    let margin = minus net costs in
    record {
      deal_evidence_count = length values;
      users_acquired = length (text_set (λ c. c.user_acquired) (λ c. c.evidence.user_id) values);
      paying_users = length (text_set (λ c. c.paid_user) (λ c. c.evidence.user_id) values);
      accepted_external_fulfillments =
          count (λ c. c.external_customer && c.accepted_fulfillment) values;
      paid_tasks = count (λ c. c.paid_task) values;
      paid_external_tasks = count (λ c. c.paid_external_task) values;
      accepted_paid_external_tasks = count (λ c. c.accepted_paid_external_task) values;
      gross_external_revenue_usdc = sum (λ c. c.gross_external_revenue_usdc) values;
      refunds_usdc = sum (λ c. c.refunds_usdc) values;
      net_external_revenue_usdc = net;
      variable_costs_usdc = costs;
      excluded_pilot_spend_usdc = sum (λ c. c.excluded_pilot_spend_usdc) values;
      gross_margin_usdc = margin;
      gross_margin_percent = if ltb 0 net then some (margin, net) else none;
      repeat_purchase_rate =
          if length customers == 0
          then none
          else some (count (λ entry. leb 2 entry.1) customers, length customers);
    }
