-- ===== src/Contracts/Offers.antt =====
-- apps/api/autonomerce/contracts.py: services, buyers' needs, commercial policies and proposals.
-- Schemas and free-form payloads, which no modelled code reads, are left out.
pub mod Kept
use autonomerce.Prelude.{
  ℕ, String, Bool, not, ◌||◌, ltb, leb, if◌then◌else◌, ◌==◌, string_eq, Option, none, some, List,
  [], ◌∷◌, any, ◌-◌, ◌*◌, ◌^◌,
}
use autonomerce.Prelude.Text.{strip}
use autonomerce.Prelude.Results.{Result, ok, err, ◌>>=◌, ◌>>◌, raise_if}
use autonomerce.Contracts.{ProposalState}

-- `ContractError`, `PolicyDenied` with its reason codes, and `ProposalTransitionError`
pub data OfferError : Type 0 where
  contract : String → OfferError
  denied : List String → OfferError
  transition_error : String → OfferError

-- `_tuple_strings`
unfoldable pub tuple_strings : List String → List String
tuple_strings [] = []
tuple_strings (value ∷ values) =
    let rest = tuple_strings values in if strip value == "" then rest else strip value ∷ rest

pub record ServiceSku : Type 0 where
  pub sku_id : String
  pub capability_id : String
  pub name : String
  pub outcome : String
  pub base_price_usdc : ℕ
  pub acceptance_criteria : List String
  pub maximum_latency_seconds : ℕ
  pub capacity_per_hour : ℕ

-- `ServiceSKU.__post_init__`
unfoldable pub make_sku : ServiceSku → Result OfferError ServiceSku
unfolding tuple_strings
make_sku s = do
  raise_if (s.sku_id == "" || s.capability_id == "" || s.name == "" || s.outcome == "")
      (contract "SKU identity and outcome are required")
  raise_if (ltb s.maximum_latency_seconds 1 || ltb s.capacity_per_hour 1)
      (contract "latency and capacity must be positive")
  ok (record s { acceptance_criteria = tuple_strings s.acceptance_criteria })

pub record BuyerNeed : Type 0 where
  pub need_id : String
  pub buyer_agent_url : String
  pub desired_outcome : String
  pub maximum_price_usdc : ℕ
  pub required_tags : List String
  pub expires_at : Option String

-- `BuyerNeed.__post_init__`
unfoldable pub make_need : BuyerNeed → Result OfferError BuyerNeed
unfolding tuple_strings
make_need n = do
  raise_if (n.need_id == "" || n.buyer_agent_url == "" || n.desired_outcome == "")
      (contract "buyer need identity, URL, and outcome are required")
  ok (record n { required_tags = tuple_strings n.required_tags })

-- a non-negative decimal number: `units / 10 ^ places`
pub record Fraction : Type 0 where
  pub units : ℕ
  pub places : ℕ

pub record CommercialPolicy : Type 0 where
  pub policy_id : String
  pub owner_id : String
  pub minimum_price_usdc : ℕ
  pub maximum_price_usdc : ℕ
  pub maximum_discount_fraction : Fraction
  pub maximum_open_proposals : ℕ
  pub maximum_tasks_per_hour : ℕ
  pub allowed_buyer_hosts : List String
  pub blocked_buyer_hosts : List String
  pub allowed_chains : List String
  pub allowed_token : String
  pub unattended : Bool

-- `CommercialPolicy.__post_init__`
unfoldable pub make_policy : CommercialPolicy → Result OfferError CommercialPolicy
unfolding tuple_strings
make_policy p = do
  raise_if (ltb p.maximum_price_usdc p.minimum_price_usdc)
      (contract "minimum price exceeds maximum price")
  raise_if (ltb (10 ^ p.maximum_discount_fraction.places) p.maximum_discount_fraction.units)
      (contract "maximum_discount_fraction must be between 0 and 1")
  raise_if (ltb p.maximum_open_proposals 1 || ltb p.maximum_tasks_per_hour 1)
      (contract "policy capacities must be positive")
  ok (record p {
    allowed_buyer_hosts = tuple_strings p.allowed_buyer_hosts;
    blocked_buyer_hosts = tuple_strings p.blocked_buyer_hosts;
    allowed_chains = tuple_strings p.allowed_chains;
  })

pub record Proposal : Type 0 where
  pub proposal_id : String
  pub seller_agent_url : String
  pub buyer_agent_url : String
  pub sku_id : String
  pub problem_observed : String
  pub offered_outcome : String
  pub price_usdc : ℕ
  pub delivery_seconds : ℕ
  pub buyer_need_id : Option String
  pub acceptance_criteria : List String
  pub expires_at : Option String
  pub state : ProposalState
  pub revision : ℕ

-- the normalized `buyer_need_id`
unfoldable pub need_reference : Option String → Result OfferError (Option String)
need_reference none = ok none
need_reference (some value) = do
  raise_if (strip value == "") (contract "buyer_need_id cannot be blank")
  ok (some (strip value))

-- `Proposal.__post_init__`
unfoldable pub make_proposal : Proposal → Result OfferError Proposal
make_proposal p = do
  reference ← need_reference p.buyer_need_id
  raise_if
      (p.proposal_id == ""
        || p.seller_agent_url == ""
        || p.buyer_agent_url == ""
        || p.sku_id == ""
        || p.offered_outcome == "")
      (contract "proposal identity and parties are required")
  raise_if (ltb p.delivery_seconds 1 || ltb p.revision 1)
      (contract "delivery_seconds and revision must be positive")
  ok (record p {
    buyer_need_id = reference;
    acceptance_criteria = tuple_strings p.acceptance_criteria;
  })

pub record NegotiationDecision : Type 0 where
  pub accepted : Bool
  pub reason_code : String
  pub proposal : Proposal
  pub policy_id : String
