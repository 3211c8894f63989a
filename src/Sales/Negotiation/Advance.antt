-- ===== src/Sales/Negotiation/Advance.antt =====
-- apps/api/autonomerce/sales/negotiation.py: `NegotiationOrchestrator.advance`, and any sequence of its
-- calls on one session.
use autonomerce.Prelude.{
  ℕ, ◌+◌, Bool, true, false, not, ◌&&◌, leb, if◌then◌else◌, ◌==◌, Option, none, some, List, [], ◌∷◌,
}
use autonomerce.Prelude.Text.{Runtime, Moment}
use autonomerce.Prelude.Results.{Result, ok, err, ◌>>=◌}
use autonomerce.Contracts.{declined, expired, accepted, countered}
use autonomerce.Contracts.Offers.{Proposal, NegotiationDecision, make_proposal}
use autonomerce.Sales.Negotiation.{
  NegotiationError, invalid, accept, decline, negotiation_action_eq, BuyerResponse,
  NegotiationRecommendation, NegotiationSession, NegotiationOrchestrator, Answer, raises, decision,
  closes, utc, is_expired, is_negotiable, buyer_host_allowed, floor_price, recommended, advises,
  counter_price, start,
}

-- goes on with a value, or raises
unfoldable pub tried {ℓ} :
    {A : Type ℓ} → NegotiationSession → Result NegotiationError A → (A → Answer) → Answer
tried s (ok a) k = k a
tried s (err e) k = raises e s

-- `if b: return early`, or raise
unfoldable pub stop_if : Bool → Answer → Answer → Answer
stop_if true early rest = early
stop_if false early rest = rest

-- the buyer accepts
unfoldable pub on_accept :
    NegotiationOrchestrator → NegotiationSession → Option NegotiationRecommendation → Answer
on_accept o s advice =
    if advises decline advice
    then closes o.commercial_policy s false "advisor_decline_policy_safe" declined
    else closes o.commercial_policy s true "accepted_at_offered_price" accepted

-- the buyer asks for a price
unfoldable pub on_price :
    NegotiationOrchestrator → NegotiationSession → Option NegotiationRecommendation → ℕ → Answer
unfolding floor_price counter_price
on_price o s advice price =
    let p = s.current_proposal in
    let policy = o.commercial_policy in
    let floor = floor_price policy s in
    if leb p.price_usdc price
    then closes policy s true "accepted_at_offered_price" accepted
    else if leb floor price
    then decision policy s true "accepted_bounded_counter" (
        make_proposal
          (record p { price_usdc = price; state = accepted; revision = p.revision + 1 }))
    else if leb o.max_rounds s.rounds
    then closes policy s false "negotiation_round_limit" declined
    else decision policy (record s { rounds = s.rounds + 1 }) false "seller_countered"
        (make_proposal (record p {
          price_usdc = counter_price floor p.price_usdc advice;
          state = countered;
          revision = p.revision + 1;
        }))

-- the buyer counters
abbrev pub on_counter :
    NegotiationOrchestrator
    → NegotiationSession
    → Option NegotiationRecommendation
    → Option ℕ
    → Answer
on_counter o s advice none = raises (invalid "counter response requires a price") s
on_counter o s advice (some price) = on_price o s advice price

-- `advance`
unfoldable pub advance :
    Runtime → NegotiationOrchestrator → BuyerResponse → Moment → NegotiationSession → Answer
unfolding is_expired buyer_host_allowed on_accept on_price
advance py o r now s =
    let p = s.current_proposal in
    let policy = o.commercial_policy in
    stop_if (not (is_negotiable p)) (raises (invalid "proposal is no longer negotiable") s) (
      stop_if (not policy.unattended) (closes policy s false "unattended_sales_disabled" declined) (
        tried s (utc now) (λ at. tried s (is_expired py p at) (λ late.
          stop_if late (closes policy s false "proposal_expired" expired) (
            tried s (buyer_host_allowed py policy p) (λ known.
              stop_if (not known) (closes policy s false "buyer_host_not_authorized" declined) (
                stop_if
                  (not (
                    leb policy.minimum_price_usdc p.price_usdc
                    && leb p.price_usdc policy.maximum_price_usdc))
                  (closes policy s false "current_price_outside_policy" declined)
                  (stop_if (r.action == decline) (closes policy s false "buyer_declined" declined) (
                    tried s (recommended o.advisor s r) (λ advice.
                      if r.action == accept
                      then on_accept o s advice
                      else on_counter o s advice r.price_usdc))))))))))

-- `evaluate`
unfoldable pub evaluate :
    Runtime
    → NegotiationOrchestrator
    → Proposal
    → BuyerResponse
    → Moment
    → Result NegotiationError NegotiationDecision
unfolding advance start
evaluate py o p r now = do s ← start p; (advance py o r now s).0

-- the calls of `advance` on a session, one after another, those that raise among them
unfoldable pub advance_all :
    Runtime
    → NegotiationOrchestrator
    → List (BuyerResponse × Moment)
    → NegotiationSession
    → NegotiationSession
unfolding advance
advance_all py o [] s = s
advance_all py o ((r, now) ∷ calls) s = advance_all py o calls (advance py o r now s).1
