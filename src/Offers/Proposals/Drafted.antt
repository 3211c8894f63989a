-- ===== src/Offers/Proposals/Drafted.antt =====
-- What a proposal that `create_proposal` returns satisfies.
use autonomerce.Prelude.{ℕ, ◌≤◌, String, true, ◌≡◌, inl, inr, Option, none, some, arith, Bool}
use autonomerce.Prelude.Text.{Runtime, strip}
use autonomerce.Prelude.Results.{ok, Result-cases}
use autonomerce.Contracts.{draft}
use autonomerce.Contracts.Offers.{ServiceSku, BuyerNeed, CommercialPolicy, Proposal}
use autonomerce.Contracts.Offers.Kept.{make_proposal_lem}
use autonomerce.Payments.Models.Names.{get_or}
use autonomerce.Offers.Time.{Time, text, parse_timestamp}
use autonomerce.Offers.Policy.{PolicyContext, PolicyEvaluation, require_policy_approval}
use autonomerce.Offers.Policy.Permitted.{Permits, evaluate-Permits}
use autonomerce.Offers.Proposals.{
  Draft, create_proposal, drafted, default_context, expiry_text, check_expiry,
}

-- the expiry of the proposal is not after that of the need
abbrev pub ExpiresWithin : Runtime → Option String → Option String → Type 0
ExpiresWithin py (some own) (some need) =
    (mine : ℕ) × (theirs : ℕ) × (parse_timestamp py (text own) ≡ ok mine)
    × (parse_timestamp py (text need) ≡ ok theirs)
    × (mine ≤ theirs)
ExpiresWithin py (some own) none = Unit
ExpiresWithin py none (some need) = ⊥
ExpiresWithin py none none = Unit

pub record Created (py : Runtime) (clock : ℕ) (sku : ServiceSku) (policy : CommercialPolicy)
    (need : BuyerNeed) (d : Draft) (o : Proposal) : Type 0 where
  pub state : o.state ≡ draft
  pub revision : o.revision ≡ 1
  pub service : o.sku_id ≡ sku.sku_id
  pub outcome : o.offered_outcome ≡ sku.outcome
  pub buyer : o.buyer_agent_url ≡ need.buyer_agent_url
  pub price : o.price_usdc ≡ get_or d.price_usdc sku.base_price_usdc
  pub within_need : o.price_usdc ≤ need.maximum_price_usdc
  pub expiry : ExpiresWithin py o.expires_at need.expires_at
  pub permitted :
      Permits py clock policy sku o (get_or d.context (default_context true)) (some true)

approval-Permits :
    (py : Runtime) (clock : ℕ) (p : CommercialPolicy) (sku : ServiceSku) (o : Proposal)
    (c : PolicyContext) (reserving : Option Bool) {e : PolicyEvaluation}
    → require_policy_approval py clock p sku o c reserving ≡ ok e
    → Permits py clock p sku o c reserving
unfolding require_policy_approval
approval-Permits py clock p sku o c reserving h =
    (evaluate-Permits py clock p sku o c reserving).0 (ground arith)

expiry-ExpiresWithin :
    (py : Runtime) (chosen : Option Time) (need own : Option String)
    → expiry_text py chosen need ≡ ok own
    → check_expiry py own need ≡ ok tt
    → ExpiresWithin py own need
unfolding expiry_text check_expiry
expiry-ExpiresWithin py chosen none none h c = tt
expiry-ExpiresWithin py none (some need) none h c = absurd (ground arith)
expiry-ExpiresWithin py (some t) (some need) none h c = absurd (ground arith)
expiry-ExpiresWithin py chosen none (some own) h c = tt
expiry-ExpiresWithin py chosen (some need) (some own) h c =
    elim (Result-cases (parse_timestamp py (text own))) [
      | inr (e, bad) ↦ absurd (ground arith)
      | inl (mine, read) ↦ elim (Result-cases (parse_timestamp py (text need))) [
        | inr (e, bad) ↦ absurd (ground arith)
        | inl (theirs, read') ↦ (mine, theirs, read, read', ground arith)
      ]
    ]

-- If `create_proposal` returns a proposal, then it is a draft in its first revision, it offers the
-- service's own outcome to the buyer of the need, at the price asked for or else the service's base
-- price, its price and expiry are within the need, and the policy permits it, counted as a new reservation.
pub create_proposal-Created :
    (py : Runtime) (clock : ℕ) (sku : ServiceSku) (policy : CommercialPolicy) (need : BuyerNeed)
    (d : Draft) (o : Proposal)
    → create_proposal py clock sku policy need d ≡ ok o
    → Created py clock sku policy need d o
unfolding create_proposal
create_proposal-Created py clock sku policy need d o h =
    elim (Result-cases (expiry_text py d.expires_at need.expires_at)) [
      | inr (e, bad) ↦ absurd (ground arith)
      | inl (expiry, chosen) ↦
          let price = get_or d.price_usdc sku.base_price_usdc in
          let delivery = get_or d.delivery_seconds sku.maximum_latency_seconds in
          let raw =
            drafted py sku need (strip d.seller_agent_url) (strip d.problem_observed)
              (strip (get_or d.offered_outcome sku.outcome)) price delivery expiry in
          let kept = make_proposal_lem raw o (ground arith) in
          elim (Result-cases (
            require_policy_approval py clock policy sku o (get_or d.context (default_context true))
              (some true))) [
                | inr (e, bad) ↦ absurd (ground (arith, chosen, bad))
                | inl (e, approved) ↦ record {
                  state = kept.state;
                  revision = kept.revision;
                  service = kept.sku_id;
                  outcome = ground (arith, kept.offered_outcome);
                  buyer = kept.buyer_agent_url;
                  price = kept.price_usdc;
                  within_need = ground (arith, kept.price_usdc);
                  expiry = rw kept.expires_at (
                      expiry-ExpiresWithin py d.expires_at need.expires_at expiry chosen
                        (ground arith));
                  permitted = approval-Permits py clock policy sku o _ _ approved;
                }
              ]
    ]
