-- ===== src/Offers/Negotiation.antt =====
-- packages/offerrail/negotiation.py: `negotiate_counteroffer`. Explanations are left out.
pub mod Counter
use autonomerce.Prelude.{
  ℕ, ◌+◌, String, Bool, true, false, not, ◌&&◌, ◌||◌, ltb, if◌then◌else◌, ◌==◌, string_eq, Option,
  none, some, List, [], ◌∷◌, ◌++◌, contains, all,
}
use autonomerce.Prelude.Text.{Runtime, strip}
use autonomerce.Prelude.Results.{Result, ok, err, ◌>>=◌, ◌>>◌, raise_if, or_raise}
use autonomerce.Contracts.{offered, countered, proposal_state_eq}
use autonomerce.Contracts.Offers.{
  OfferError, ServiceSku, CommercialPolicy, Proposal, NegotiationDecision, make_proposal,
}
use autonomerce.Payments.Models.Names.{get_or}
use autonomerce.Offers.Policy.{Count, count, invalid, PolicyContext, evaluate_commercial_policy}
use autonomerce.Offers.Proposals.{default_context}

-- a price that `usdc` reads, or refuses
pub data Price : Type 0 where
  amount : ℕ → Price
  not_amount : Price

-- requested acceptance criteria: texts, or values that are not
pub data Criteria : Type 0 where
  texts : List String → Criteria
  not_texts : Criteria

-- the keyword arguments of `negotiate_counteroffer`
pub record Request : Type 0 where
  pub price_usdc : Option Price
  pub delivery_seconds : Option Count
  pub outcome : Option String
  pub acceptance_criteria : Option Criteria
  pub buyer_maximum_price_usdc : Option Price
  pub context : Option PolicyContext

-- how the function leaves early: by a rejection with a reason code, or by an exception
pub data Stop : Type 0 where
  reject : String → Stop
  raise : OfferError → Stop

-- the loop of `_criteria`, which appends to `normalized`
unfoldable pub add_criteria : List String → List String → List String
add_criteria normalized [] = normalized
add_criteria normalized (value ∷ values) =
    let next =
      if strip value == "" || contains (strip value) normalized
      then normalized
      else normalized ++ strip value ∷ [] in
    add_criteria next values

-- `_criteria`
abbrev pub criteria_of : Criteria → Option (List String)
criteria_of (texts values) = some (add_criteria [] values)
criteria_of not_texts = none

abbrev pub read_price : Price → Option ℕ
read_price (amount n) = some n
read_price not_amount = none

unfoldable pub chosen_price : Proposal → Option Price → Result Stop ℕ
chosen_price o none = ok o.price_usdc
chosen_price o (some p) = or_raise (read_price p) (reject "invalid_price")

-- the buyer's limit on the price
unfoldable pub check_maximum : ℕ → Option Price → Result Stop (Unit {0})
check_maximum price none = ok tt
check_maximum price (some p) = do
  maximum ← or_raise (read_price p) (reject "invalid_buyer_price_limit")
  raise_if (ltb maximum price) (reject "buyer_price_limit_exceeded")

-- the requested delivery, which is a positive integer
unfoldable pub chosen_delivery : Proposal → Option Count → Result Stop ℕ
chosen_delivery o none = do
  raise_if (ltb o.delivery_seconds 1) (reject "invalid_delivery_seconds")
  ok o.delivery_seconds
chosen_delivery o (some invalid) = err (reject "invalid_delivery_seconds")
chosen_delivery o (some (count n)) = do raise_if (ltb n 1) (reject "invalid_delivery_seconds"); ok n

abbrev pub asked_outcome : Proposal → Option String → String
asked_outcome o none = o.offered_outcome
asked_outcome o (some value) = strip value

unfoldable pub chosen_outcome : Proposal → ServiceSku → Option String → Result Stop String
chosen_outcome o sku requested = do
  let outcome = asked_outcome o requested
  raise_if (outcome == "" || not (outcome == o.offered_outcome || outcome == sku.outcome))
      (reject "scope_change_not_authorized")
  ok outcome

unfoldable pub chosen_criteria : Proposal → Option Criteria → Result Stop (List String)
unfolding add_criteria
chosen_criteria o none = ok o.acceptance_criteria
chosen_criteria o (some values) =
    or_raise (criteria_of values) (reject "invalid_acceptance_criteria")

-- `required_criteria.issubset(criteria)`
unfoldable pub criteria_kept : Proposal → ServiceSku → List String → Bool
criteria_kept o sku criteria =
    all (λ c. contains c criteria) (o.acceptance_criteria ++ sku.acceptance_criteria)

-- the arguments of `replace`
abbrev pub countered_with : Proposal → ℕ → ℕ → String → List String → Proposal
countered_with o price delivery outcome criteria = record o {
  price_usdc = price;
  delivery_seconds = delivery;
  offered_outcome = outcome;
  acceptance_criteria = criteria;
  state = countered;
  revision = o.revision + 1;
}

-- an exception of `replace`
abbrev pub raised {ℓ} : {A : Type ℓ} → Result OfferError A → Result Stop A
raised (ok a) = ok a
raised (err e) = err (raise e)

-- `evaluation.reason_code` of an evaluation that denies
abbrev pub first_reason : List String → String
first_reason [] = ""
first_reason (r ∷ rs) = r

-- the candidate, if every bound is kept
unfoldable pub counter_candidate :
    Runtime → ℕ → Proposal → ServiceSku → CommercialPolicy → Request → Result Stop Proposal
counter_candidate py clock o sku policy r = do
  raise_if (not (o.state == offered || o.state == countered)) (reject "proposal_not_negotiable")
  price ← chosen_price o r.price_usdc
  check_maximum price r.buyer_maximum_price_usdc
  delivery ← chosen_delivery o r.delivery_seconds
  outcome ← chosen_outcome o sku r.outcome
  criteria ← chosen_criteria o r.acceptance_criteria
  raise_if (not (criteria_kept o sku criteria)) (reject "acceptance_criteria_weakened")
  candidate ← raised (make_proposal (countered_with o price delivery outcome criteria))
  let evaluation =
      evaluate_commercial_policy py clock policy sku candidate
        (get_or r.context (default_context false)) (some false)
  raise_if (not evaluation.allowed) (reject (first_reason evaluation.reason_codes))
  ok candidate

-- the decision on a candidate
abbrev pub decision_on :
    Proposal → CommercialPolicy → Result Stop Proposal → Result OfferError NegotiationDecision
decision_on o policy (ok candidate) = ok (record {
  accepted = true;
  reason_code = "within_policy";
  proposal = candidate;
  policy_id = policy.policy_id;
})
decision_on o policy (err (reject reason)) =
    ok (record {
      accepted = false;
      reason_code = reason;
      proposal = o;
      policy_id = policy.policy_id;
    })
decision_on o policy (err (raise e)) = err e

-- `negotiate_counteroffer`
unfoldable pub negotiate_counteroffer :
    Runtime
    → ℕ
    → Proposal
    → ServiceSku
    → CommercialPolicy
    → Request
    → Result OfferError NegotiationDecision
negotiate_counteroffer py clock o sku policy r =
    decision_on o policy (counter_candidate py clock o sku policy r)
