-- ===== src/Contracts/Offers/Kept.antt =====
-- What `Proposal.__post_init__` keeps of its arguments.
use autonomerce.Prelude.{◌≤◌, ◌≡◌, arith}
use autonomerce.Prelude.Results.{ok}
use autonomerce.Contracts.Offers.{Proposal, make_proposal, tuple_strings}

pub record Keeps (o made : Proposal) : Type 0 where
  pub proposal_id : made.proposal_id ≡ o.proposal_id
  pub seller_agent_url : made.seller_agent_url ≡ o.seller_agent_url
  pub buyer_agent_url : made.buyer_agent_url ≡ o.buyer_agent_url
  pub sku_id : made.sku_id ≡ o.sku_id
  pub offered_outcome : made.offered_outcome ≡ o.offered_outcome
  pub price_usdc : made.price_usdc ≡ o.price_usdc
  pub delivery_seconds : made.delivery_seconds ≡ o.delivery_seconds
  pub acceptance_criteria : made.acceptance_criteria ≡ tuple_strings o.acceptance_criteria
  pub expires_at : made.expires_at ≡ o.expires_at
  pub state : made.state ≡ o.state
  pub revision : made.revision ≡ o.revision
  pub delivery_positive : 1 ≤ made.delivery_seconds
  pub revision_positive : 1 ≤ made.revision

pub make_proposal_lem : (o made : Proposal) → make_proposal o ≡ ok made → Keeps o made
unfolding make_proposal
make_proposal_lem o made h = ground arith
