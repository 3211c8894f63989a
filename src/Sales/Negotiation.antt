-- ===== src/Sales/Negotiation.antt =====
-- apps/api/autonomerce/sales/negotiation.py: `NegotiationOrchestrator`. A call returns a decision or
-- raises, and leaves a session behind in both cases. Prices are millionths of a USDC, and a product of
-- a price and a discount is exact. Explanations are left out.
pub mod Bounds
pub mod Advance
pub mod Steps
pub mod Guards
pub mod Rounds
use Prim.Native.Char.{code}
use Prim.Native.String.{[] as nil, ◌∷◌ as cons, ◌++◌}
use autonomerce.Prelude.{
  ℕ, ◌+◌, ◌-◌, ◌*◌, ◌/◌, ◌^◌, max, String, Bool, true, false, not, ◌&&◌, ◌||◌, ltb, leb,
  if◌then◌else◌, ◌==◌, string_eq, nat_eq, Eq, Option, none, some, List, [], ◌∷◌, ◌++◌ as ◌+++◌,
  contains, is_empty, map,
}
use autonomerce.Prelude.Text.{Runtime, Moment, truthy, replace_zone}
use autonomerce.Prelude.Results.{Result, ok, err, ◌>>=◌, ◌>>◌, raise_if, or_raise}
use autonomerce.Contracts.{
  ProposalState, offered, countered, accepted, declined, expired, proposal_state_eq,
}
use autonomerce.Contracts.Offers.{
  OfferError, CommercialPolicy, Fraction, Proposal, NegotiationDecision, make_proposal,
}
use autonomerce.Payments.Models.Names.{get_or}

-- `NegotiationError`, a `ContractError` of a proposal, and the `ValueError` of `urlsplit`
pub data NegotiationError : Type 0 where
  invalid : String → NegotiationError
  contract : OfferError → NegotiationError
  bad_url : NegotiationError

pub data NegotiationAction : Type 0 where
  accept counter decline : NegotiationAction

pub record BuyerResponse : Type 0 where
  pub action : NegotiationAction
  pub price_usdc : Option ℕ

pub record NegotiationRecommendation : Type 0 where
  pub action : NegotiationAction
  pub price_usdc : Option ℕ

unfoldable pub NegotiationAction-discrete : Discrete NegotiationAction
NegotiationAction-discrete = hlevel

instance abbrev pub negotiation_action_eq : Eq NegotiationAction
negotiation_action_eq = record { discrete = NegotiationAction-discrete }

abbrev is_none : Option ℕ → Bool
is_none none = true
is_none (some n) = false

-- `BuyerResponse.__post_init__`
unfoldable pub make_response : BuyerResponse → Result NegotiationError BuyerResponse
make_response r = do
  raise_if (r.action == counter && is_none r.price_usdc)
      (invalid "counter responses require a price")
  ok r

pub record NegotiationSession : Type 0 where
  pub initial_proposal : Proposal
  pub current_proposal : Proposal
  pub rounds : ℕ
  pub decisions : List NegotiationDecision

-- a `NegotiationAdvisor`, which may raise
abbrev pub Advisor : Type 0
Advisor = NegotiationSession → BuyerResponse → Result NegotiationError NegotiationRecommendation

pub record NegotiationOrchestrator : Type 0 where
  pub commercial_policy : CommercialPolicy
  pub max_rounds : ℕ
  pub advisor : Option Advisor

-- `NegotiationOrchestrator.__init__`
unfoldable pub make_orchestrator :
    NegotiationOrchestrator → Result NegotiationError NegotiationOrchestrator
make_orchestrator o = do raise_if (ltb o.max_rounds 1) (invalid "max_rounds must be positive"); ok o

-- `_utc`
abbrev pub utc : Moment → Result NegotiationError ℕ
utc m = do raise_if (not m.aware) (invalid "timestamps must be timezone-aware"); ok m.instant

-- `_expired`
unfoldable pub is_expired : Runtime → Proposal → ℕ → Result NegotiationError Bool
unfolding replace_zone
is_expired py p now = if not (truthy p.expires_at) then ok false else do
  expiry ←
      or_raise (py.from_isoformat (replace_zone (get_or p.expires_at "")))
        (invalid "proposal expiry is invalid")
  at ← utc expiry
  ok (leb at now)

abbrev pub is_negotiable : Proposal → Bool
is_negotiable p = p.state == offered || p.state == countered

-- `start`
unfoldable pub start : Proposal → Result NegotiationError NegotiationSession
start p = do
  raise_if (not (is_negotiable p)) (invalid "negotiation requires an offered proposal")
  ok (record { initial_proposal = p; current_proposal = p; rounds = 0; decisions = [] })

-- what a call of the orchestrator answers, and the session after it
abbrev pub Answer : Type 0
Answer = Result NegotiationError NegotiationDecision × NegotiationSession

abbrev pub raises : NegotiationError → NegotiationSession → Answer
raises e s = (err e, s)

-- `_decision`, on a proposal that `replace` made
abbrev pub decision :
    CommercialPolicy → NegotiationSession → Bool → String → Result OfferError Proposal → Answer
decision policy s agreed reason (err e) = (err (contract e), s)
decision policy s agreed reason (ok p) =
    let d : NegotiationDecision = record {
      accepted = agreed;
      reason_code = reason;
      proposal = p;
      policy_id = policy.policy_id;
    } in
    (ok d, record s { current_proposal = p; decisions = s.decisions +++ (d ∷ []) })

-- a decision that closes the proposal as it stands
abbrev pub closes : CommercialPolicy → NegotiationSession → Bool → String → ProposalState → Answer
closes policy s agreed reason state =
    decision policy s agreed reason (make_proposal (record s.current_proposal { state = state }))

-- `_buyer_host_allowed`
unfoldable pub buyer_host_allowed :
    Runtime → CommercialPolicy → Proposal → Result NegotiationError Bool
buyer_host_allowed py policy p = do
  parsed ← or_raise (py.url_split p.buyer_agent_url) bad_url
  let host = py.casefold (get_or parsed.hostname "")
  let allowed = map py.casefold policy.allowed_buyer_hosts
  let blocked = map py.casefold policy.blocked_buyer_hosts
  ok (
      not (host == "")
      && not (contains host blocked)
      && (is_empty allowed || contains host allowed))

-- the discounted price, rounded up to a millionth
unfoldable pub discounted : Fraction → ℕ → ℕ
discounted f price = (price * (10 ^ f.places - f.units) + (10 ^ f.places - 1)) / 10 ^ f.places

-- `_floor`
unfoldable pub floor_price : CommercialPolicy → NegotiationSession → ℕ
unfolding discounted
floor_price policy s =
    max policy.minimum_price_usdc
      (discounted policy.maximum_discount_fraction s.initial_proposal.price_usdc)

abbrev pub recommended :
    Option Advisor
    → NegotiationSession
    → BuyerResponse
    → Result NegotiationError (Option NegotiationRecommendation)
recommended none s r = ok none
recommended (some advise) s r = do advice ← advise s r; ok (some advice)

abbrev pub advises : NegotiationAction → Option NegotiationRecommendation → Bool
advises action none = false
advises action (some r) = r.action == action

-- the price of a counter-offer: the advised one if it is within the bounds
unfoldable pub counter_price : ℕ → ℕ → Option NegotiationRecommendation → ℕ
counter_price floor current none = floor
counter_price floor current (some r) =
    let price = get_or r.price_usdc floor in
    if r.action == counter && leb floor price && leb price current then price else floor
