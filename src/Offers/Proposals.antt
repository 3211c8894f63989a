-- ===== src/Offers/Proposals.antt =====
-- packages/offerrail/proposals.py: how proposals are made and how their state moves.
pub mod Lifecycle
pub mod Transition
pub mod Drafted
use autonomerce.Prelude.{
  ℕ, suc, ◌+◌, String, Bool, true, false, not, ◌&&◌, ◌||◌, ltb, leb, if◌then◌else◌, ◌==◌, string_eq,
  nat_eq, Option, none, some, List, [], ◌∷◌, contains,
}
use autonomerce.Prelude.Text.{Runtime, strip}
use autonomerce.Prelude.Results.{Result, ok, err, ◌>>=◌, ◌>>◌, raise_if, or_raise}
use autonomerce.Contracts.{
  ProposalState, draft, offered, countered, accepted, declined, expired, paid, fulfilling,
  delivered, failed, proposal_state_eq, stable_id,
}
use autonomerce.Contracts.Money.{usdc_text, whole_text}
use autonomerce.Contracts.Offers.{
  OfferError, contract, transition_error, ServiceSku, BuyerNeed, CommercialPolicy, Proposal,
  make_proposal,
}
use autonomerce.Payments.Models.Names.{get_or}
use autonomerce.Offers.Time.{Time, text, parse_timestamp, canonical_timestamp}
use autonomerce.Offers.Hosts.{safe_url}
use autonomerce.Offers.Policy.{PolicyContext, count, require_policy_approval, instant_of, is_past}

-- `ALLOWED_PROPOSAL_TRANSITIONS`
abbrev pub allowed_transitions : ProposalState → List ProposalState
allowed_transitions draft = offered ∷ expired ∷ failed ∷ []
allowed_transitions offered = countered ∷ accepted ∷ declined ∷ expired ∷ failed ∷ []
allowed_transitions countered = countered ∷ accepted ∷ declined ∷ expired ∷ failed ∷ []
allowed_transitions accepted = paid ∷ failed ∷ []
allowed_transitions paid = fulfilling ∷ failed ∷ []
allowed_transitions fulfilling = delivered ∷ failed ∷ []
allowed_transitions declined = []
allowed_transitions expired = []
allowed_transitions delivered = []
allowed_transitions failed = []

-- `_proposal_is_expired`
unfoldable pub proposal_is_expired :
    Runtime → ℕ → Option Time → Option String → Result OfferError Bool
proposal_is_expired py clock now none = ok false
proposal_is_expired py clock now (some expiry) = is_past py clock now expiry

-- `can_transition_proposal`, on known states
abbrev pub can_transition_proposal : ProposalState → ProposalState → Bool
can_transition_proposal current target =
    current == target || contains target (allowed_transitions current)

-- how `transition_proposal` reads the result of `_proposal_is_expired`
abbrev pub refuse_expired : Result OfferError Bool → Result OfferError (Unit {0})
refuse_expired (ok true) = err (transition_error "expired proposal cannot advance")
refuse_expired (ok false) = ok tt
refuse_expired (err e) = err (transition_error "invalid proposal expiry")

-- `expected_revision is not None and expected_revision != proposal.revision`
abbrev pub is_stale : Option ℕ → ℕ → Bool
is_stale none revision = false
is_stale (some expected) revision = not (expected == revision)

-- the guard of the expiry
abbrev pub fresh_enough :
    Runtime → ℕ → Option Time → Proposal → ProposalState → Result OfferError (Unit {0})
fresh_enough py clock now o target =
    if target == offered || target == accepted
    then refuse_expired (proposal_is_expired py clock now o.expires_at)
    else ok tt

-- the branch that changes the state
unfoldable pub move_proposal :
    Runtime → ℕ → Proposal → ProposalState → Option Time → Result OfferError Proposal
move_proposal py clock o target now = do
  raise_if (not (contains target (allowed_transitions o.state)))
      (transition_error "cannot transition proposal")
  fresh_enough py clock now o target
  make_proposal (record o { state = target; revision = o.revision + 1 })

-- `transition_proposal`
unfoldable pub transition_proposal :
    Runtime → ℕ → Proposal → ProposalState → Option ℕ → Option Time → Result OfferError Proposal
transition_proposal py clock o target expected now = do
  raise_if (is_stale expected o.revision) (transition_error "proposal revision conflict")
  (if target == o.state then ok o else move_proposal py clock o target now)

-- `PolicyContext(reserving_new_proposal=...)`
abbrev pub default_context : Bool → PolicyContext
default_context reserving = record {
  chain = "BASE";
  token = "USDC";
  current_open_proposals = count 0;
  current_tasks_last_hour = count 0;
  current_sku_tasks_last_hour = count 0;
  reserving_new_proposal = some reserving;
  now = none;
}

-- the keyword arguments of `create_proposal`
pub record Draft : Type 0 where
  pub seller_agent_url : String
  pub problem_observed : String
  pub price_usdc : Option ℕ
  pub delivery_seconds : Option ℕ
  pub offered_outcome : Option String
  pub expires_at : Option Time
  pub context : Option PolicyContext

-- `expires_at if expires_at is not None else buyer_need.expires_at`, in canonical form
unfoldable pub expiry_text :
    Runtime → Option Time → Option String → Result OfferError (Option String)
expiry_text py (some t) need = do chosen ← canonical_timestamp py t; ok (some chosen)
expiry_text py none none = ok none
expiry_text py none (some need) = do chosen ← canonical_timestamp py (text need); ok (some chosen)

-- the expiry of a proposal is not after that of the need
unfoldable pub check_expiry : Runtime → Option String → Option String → Result OfferError (Unit {0})
check_expiry py (some own) (some need) = do
  mine ← parse_timestamp py (text own)
  theirs ← parse_timestamp py (text need)
  raise_if (ltb theirs mine) (contract "proposal expiry exceeds buyer need expiry")
check_expiry py none need = ok tt
check_expiry py (some own) none = ok tt

-- the checks of the seller's URL
unfoldable pub check_seller : Runtime → String → Result OfferError (Unit {0})
check_seller py url = do
  parsed ← or_raise (py.url_split url) (contract "invalid seller agent URL")
  raise_if (not (safe_url py parsed)) (contract "seller agent URL must be absolute safe HTTP(S)")

-- the proposal that `create_proposal` makes of its normalized parts
abbrev pub drafted :
    Runtime → ServiceSku → BuyerNeed → String → String → String → ℕ → ℕ → Option String → Proposal
drafted py sku need seller problem outcome price delivery expiry = record {
  proposal_id = stable_id py "proposal" (
      seller
      ∷ need.buyer_agent_url
      ∷ need.need_id
      ∷ sku.sku_id
      ∷ problem
      ∷ outcome
      ∷ usdc_text price
      ∷ whole_text (suc delivery) delivery
      ∷ py.dumps_list sku.acceptance_criteria
      ∷ get_or expiry ""
      ∷ []);
  seller_agent_url = seller;
  buyer_agent_url = need.buyer_agent_url;
  sku_id = sku.sku_id;
  problem_observed = problem;
  offered_outcome = outcome;
  price_usdc = price;
  delivery_seconds = delivery;
  buyer_need_id = some need.need_id;
  acceptance_criteria = sku.acceptance_criteria;
  expires_at = expiry;
  state = draft;
  revision = 1;
}

-- `create_proposal`
unfoldable pub create_proposal :
    Runtime → ℕ → ServiceSku → CommercialPolicy → BuyerNeed → Draft → Result OfferError Proposal
create_proposal py clock sku policy need d = do
  let seller = strip d.seller_agent_url
  let problem = strip d.problem_observed
  let outcome = strip (get_or d.offered_outcome sku.outcome)
  raise_if (seller == "" || problem == "" || outcome == "")
      (contract "seller URL, observed problem, and outcome are required")
  check_seller py seller
  raise_if (not (outcome == sku.outcome))
      (contract "proposal outcome must match the authorized SKU outcome")
  let price = get_or d.price_usdc sku.base_price_usdc
  raise_if (ltb need.maximum_price_usdc price) (contract "proposal exceeds buyer maximum price")
  let delivery = get_or d.delivery_seconds sku.maximum_latency_seconds
  expiry ← expiry_text py d.expires_at need.expires_at
  check_expiry py expiry need.expires_at
  proposal ← make_proposal (drafted py sku need seller problem outcome price delivery expiry)
  approved ←
      require_policy_approval py clock policy sku proposal (get_or d.context (default_context true))
        (some true)
  ok proposal
