-- ===== src/Api/Repository.antt =====
-- apps/api/autonomerce/api/repository.py: the proposals, settlement authorizations and payments of
-- `InMemoryRepository`. The lock makes each method one step, and one that raises has changed nothing.
pub mod Saves
pub mod Moves
pub mod Settled
pub mod Kept
pub mod History
pub mod Paid
use autonomerce.Prelude.{
  ℕ, ◌+◌, String, Bool, true, false, not, ◌&&◌, ◌||◌, ltb, leb, if◌then◌else◌, ◌==◌, string_eq,
  nat_eq, option_eq, Eq, Option, none, some, List, [], ◌∷◌, contains, String-discrete, ℕ_discrete,
  Bool-cases, any,
}
use autonomerce.Prelude.Text.{Runtime, strip, len, truthy}
use autonomerce.Prelude.Dict.{Dict, lookup, insert}
use autonomerce.Prelude.Results.{Result, ok, err, ◌>>=◌, ◌>>◌, raise_if, or_raise}
use autonomerce.Contracts.{
  ProposalState, draft, offered, countered, accepted, declined, expired, paid, fulfilling,
  delivered, failed, proposal_state_eq, PaymentState, confirmed, payment_state_eq,
  ProposalState-discrete, PaymentState-discrete,
}
use autonomerce.Contracts.Receipt.{PaymentReceipt, repeated}
use autonomerce.Contracts.Offers.{OfferError, Proposal, make_proposal}
use autonomerce.Offers.Hosts.{starts_with, drop}
use autonomerce.Payments.Models.Intent.{is_lower_hex}

-- `ValueError`, and the `ContractError` of a proposal
pub data RepositoryError : Type 0 where
  invalid : String → RepositoryError
  contract : OfferError → RepositoryError

-- `_PROPOSAL_STATE_RANK`
unfoldable pub state_rank : ProposalState → ℕ
state_rank draft = 0
state_rank offered = 1
state_rank countered = 2
state_rank accepted = 3
state_rank paid = 4
state_rank fulfilling = 5
state_rank declined = 6
state_rank expired = 6
state_rank delivered = 6
state_rank failed = 6

-- `_POST_ACCEPTANCE_STATES`
unfoldable pub is_post_acceptance : ProposalState → Bool
is_post_acceptance s = contains s (accepted ∷ paid ∷ fulfilling ∷ delivered ∷ failed ∷ [])

-- `_ALLOWED_PROPOSAL_TRANSITIONS`
unfoldable pub allowed_targets : ProposalState → List ProposalState
allowed_targets draft = offered ∷ expired ∷ failed ∷ []
allowed_targets offered = countered ∷ accepted ∷ declined ∷ expired ∷ failed ∷ []
allowed_targets countered = countered ∷ accepted ∷ declined ∷ expired ∷ failed ∷ []
allowed_targets accepted = paid ∷ failed ∷ []
allowed_targets paid = fulfilling ∷ failed ∷ []
allowed_targets fulfilling = delivered ∷ failed ∷ []
allowed_targets declined = []
allowed_targets expired = []
allowed_targets delivered = []
allowed_targets failed = []

-- what an accepted proposal is about
pub record ContractBinding : Type 0 where
  pub seller_agent_url : String
  pub buyer_agent_url : String
  pub buyer_need_id : Option String
  pub sku_id : String
  pub problem_observed : String
  pub offered_outcome : String
  pub price_usdc : ℕ
  pub delivery_seconds : ℕ
  pub acceptance_criteria : List String
  pub expires_at : Option String

unfoldable pub ContractBinding-discrete : Discrete ContractBinding
ContractBinding-discrete = hlevel (String-discrete, ℕ_discrete)

unfoldable pub Proposal-discrete : Discrete Proposal
Proposal-discrete = hlevel (String-discrete, ℕ_discrete, ProposalState-discrete)

unfoldable pub PaymentReceipt-discrete : Discrete PaymentReceipt
PaymentReceipt-discrete = hlevel (String-discrete, ℕ_discrete, PaymentState-discrete)

instance abbrev pub binding_eq : Eq ContractBinding
binding_eq = record { discrete = ContractBinding-discrete }

instance abbrev pub proposal_eq : Eq Proposal
proposal_eq = record { discrete = Proposal-discrete }

instance abbrev pub receipt_eq : Eq PaymentReceipt
receipt_eq = record { discrete = PaymentReceipt-discrete }

-- `_proposal_contract_binding`
abbrev pub contract_binding : Proposal → ContractBinding
contract_binding p = record {
  seller_agent_url = p.seller_agent_url;
  buyer_agent_url = p.buyer_agent_url;
  buyer_need_id = p.buyer_need_id;
  sku_id = p.sku_id;
  problem_observed = p.problem_observed;
  offered_outcome = p.offered_outcome;
  price_usdc = p.price_usdc;
  delivery_seconds = p.delivery_seconds;
  acceptance_criteria = p.acceptance_criteria;
  expires_at = p.expires_at;
}

-- whether `monotonic_proposal` returns the proposal that is stored, or the incoming one
unfoldable pub keeps_existing : Proposal → Proposal → Result RepositoryError Bool
unfolding state_rank is_post_acceptance allowed_targets
keeps_existing old new =
    if ltb new.revision old.revision || ltb (state_rank new.state) (state_rank old.state)
    then ok true
    else if new.state == old.state && new.revision == old.revision
    then (do
      raise_if (not (new == old))
          (invalid "same-revision proposal replay conflicts with durable content")
      ok true)
    else do
      raise_if (not (contains new.state (allowed_targets old.state)))
          (invalid "proposal state transition is not allowed")
      raise_if (not (new.revision == old.revision || new.revision == old.revision + 1))
          (invalid "proposal revision transition is not allowed")
      raise_if (is_post_acceptance old.state && not (contract_binding new == contract_binding old))
          (invalid "accepted proposal contract cannot be changed")
      ok false

-- `monotonic_proposal`, with whether its result is the stored proposal
unfoldable pub monotonic_proposal :
    Option Proposal → Proposal → Result RepositoryError (Proposal × Bool)
unfolding keeps_existing
monotonic_proposal none new = ok (new, false)
monotonic_proposal (some old) new = do
  raise_if (not (old.proposal_id == new.proposal_id))
      (invalid "proposal identity cannot be changed")
  keep ← keeps_existing old new
  ok (if keep then old else new, keep)

pub record SettlementAuthorization : Type 0 where
  pub authorization_id : String
  pub proposal_id : String
  pub proposal_revision : ℕ
  pub proposal_contract_hash : String
  pub amount_usdc : ℕ
  pub payer_wallet : String
  pub payee_wallet : String
  pub chain : String
  pub token : String
  pub asset : String
  pub commercial_policy_id : String
  pub commercial_policy_version : String
  pub seller_configuration_id : String
  pub seller_configuration_version : String
  pub expires_at : String
  pub created_at : String

unfoldable pub SettlementAuthorization-discrete : Discrete SettlementAuthorization
SettlementAuthorization-discrete = hlevel (String-discrete, ℕ_discrete)

instance abbrev pub authorization_eq : Eq SettlementAuthorization
authorization_eq = record { discrete = SettlementAuthorization-discrete }

-- `SettlementAuthorization.__post_init__`
unfoldable pub make_authorization :
    Runtime → SettlementAuthorization → Result RepositoryError SettlementAuthorization
unfolding strip len starts_with repeated is_lower_hex drop
make_authorization py a = do
  let asset = py.lower (strip a.asset)
  raise_if
      (not (len asset == 42)
        || not (starts_with "0x" asset)
        || not (repeated is_lower_hex 40 (drop 2 asset)))
      (invalid "settlement authorization requires a canonical asset contract")
  let made = record a { chain = py.upper a.chain; token = py.upper a.token; asset = asset }
  raise_if
      (any (λ text. text == "")
          (made.authorization_id ∷ made.proposal_id ∷ made.proposal_contract_hash
            ∷ made.payer_wallet ∷ made.payee_wallet ∷ made.chain ∷ made.token ∷ made.asset
            ∷ made.commercial_policy_id ∷ made.commercial_policy_version
            ∷ made.seller_configuration_id ∷ made.seller_configuration_version ∷ made.expires_at
            ∷ made.created_at ∷ [])
        || ltb made.proposal_revision 1)
      (invalid "settlement authorization requires complete immutable bindings")
  ok made

-- a payment receipt and its `public` field
abbrev pub Payment : Type 0
Payment = PaymentReceipt × Bool

-- `payment_matches_settlement_authorization`
unfoldable pub payment_matches : Runtime → Payment → SettlementAuthorization → Bool
payment_matches py (r, public) a =
    r.proposal_id == a.proposal_id
    && r.amount_usdc == a.amount_usdc
    && py.upper r.chain == a.chain
    && py.upper r.token == a.token
    && r.asset == some a.asset
    && py.lower r.payer_wallet == py.lower a.payer_wallet
    && py.lower r.payee_wallet == py.lower a.payee_wallet
    && r.state == confirmed
    && not public

pub record Repository : Type 0 where
  pub proposals : Dict Proposal
  pub proposal_owners : Dict String
  pub contract_hashes : Dict String
  pub authorizations : Dict SettlementAuthorization
  pub payments : Dict Payment
  pub by_proposal : Dict String
  pub by_idempotency : Dict String
  pub by_transaction : Dict String
  pub mocked : Dict Bool
  pub accepted_ids : List String

abbrev pub Method : Type 0 → Type 0
Method A = Repository → Result RepositoryError (A × Repository)
