-- ===== src/Sales/Negotiation/Guards.antt =====
-- apps/api/autonomerce/sales/negotiation.py: the tests that a decision of `advance` has passed.
use autonomerce.Prelude.{String, ◌≤◌, ◌≡◌, refl, Bool, true, false, arith, ◌⊎◌, inl, inr}
use autonomerce.Prelude.Text.{Runtime, Moment}
use autonomerce.Prelude.Results.{Result, ok, err}
use autonomerce.Contracts.{ProposalState, declined, expired, proposal_state_eq}
use autonomerce.Contracts.Offers.{Proposal, OfferError, make_proposal}
use autonomerce.Contracts.Offers.Kept.{Keeps, make_proposal_lem}
use autonomerce.Sales.Negotiation.{
  NegotiationError, BuyerResponse, NegotiationSession, NegotiationOrchestrator, Answer,
  is_negotiable, decision, closes,
}
use autonomerce.Sales.Negotiation.Advance.{advance, tried, stop_if}

module _ (o : NegotiationOrchestrator) (s : NegotiationSession) where
  -- the tests that stand before an acceptance and before a counter-offer
  pub record Permitted : Type 0 where
    pub unattended : o.commercial_policy.unattended ≡ true
    pub least : o.commercial_policy.minimum_price_usdc ≤ s.current_proposal.price_usdc
    pub most : s.current_proposal.price_usdc ≤ o.commercial_policy.maximum_price_usdc

  unfoldable pub Guarded : Answer → Type 0
  Guarded (err e, t) = Unit
  Guarded (ok d, t) =
      (is_negotiable s.current_proposal ≡ true)
      × ((d.accepted ≡ true) ⊎ (is_negotiable d.proposal ≡ true) → Permitted)

  raises_Guarded : (e : NegotiationError) (t : NegotiationSession) → Guarded (err e, t)
  unfolding Guarded
  raises_Guarded e t = tt

  Permitted-Guarded : is_negotiable s.current_proposal ≡ true → Permitted → (a : Answer) → Guarded a
  unfolding Guarded
  Permitted-Guarded n p (ok d, t) = (n, λ _. p)
  Permitted-Guarded n p (err e, t) = tt

  decision-Guarded :
      (reason : String) (p : Proposal) (made : Result OfferError Proposal)
      → is_negotiable s.current_proposal ≡ true
      → is_negotiable p ≡ false
      → make_proposal p ≡ made
      → Guarded (decision o.commercial_policy s false reason made)
  unfolding Guarded
  decision-Guarded reason p (err e) n c m = tt
  decision-Guarded reason p (ok made) n c m =
      let k : Keeps p made = make_proposal_lem p made m in
      (n, λ h. elim h [ inl a ↦ ground arith | inr b ↦ ground (arith, k.state, c, b) ])

  closes-Guarded :
      (reason : String) (state : ProposalState)
      → is_negotiable s.current_proposal ≡ true
      → is_negotiable (record s.current_proposal { state = state }) ≡ false
      → Guarded (closes o.commercial_policy s false reason state)
  closes-Guarded reason state n c =
      decision-Guarded reason (record s.current_proposal { state = state })
        (make_proposal (record s.current_proposal { state = state })) n c refl

  tried-Guarded {ℓ} :
      {A : Type ℓ} (x : Result NegotiationError A) (k : A → Answer)
      → ((a : A) → Guarded (k a))
      → Guarded (tried s x k)
  unfolding tried Guarded
  tried-Guarded (err e) k h = tt
  tried-Guarded (ok a) k h = h a

  stop_if-Guarded :
      (b : Bool) (early rest : Answer)
      → Guarded early
      → (b ≡ false → Guarded rest)
      → Guarded (stop_if b early rest)
  unfolding stop_if
  stop_if-Guarded true early rest f g = f
  stop_if-Guarded false early rest f g = g refl

-- A decision is made on an open proposal, and it accepts or counters only when sales are unattended
-- and the current price is within the policy.
pub advance-Guarded :
    (py : Runtime) (o : NegotiationOrchestrator) (r : BuyerResponse) (now : Moment)
    (s : NegotiationSession)
    → Guarded o s (advance py o r now s)
unfolding advance
advance-Guarded py o r now s = stop_if-Guarded o s _ _ _ (raises_Guarded o s _ _) (λ n.
    let open_now : is_negotiable s.current_proposal ≡ true = ground (arith, n) in
    stop_if-Guarded o s _ _ _
      (closes-Guarded o s "unattended_sales_disabled" declined open_now (ground arith))
      (λ u. tried-Guarded o s _ _ (λ at. tried-Guarded o s _ _ (λ late.
        stop_if-Guarded o s _ _ _
          (closes-Guarded o s "proposal_expired" expired open_now (ground arith))
          (λ _. tried-Guarded o s _ _ (λ known.
            stop_if-Guarded o s _ _ _
              (closes-Guarded o s "buyer_host_not_authorized" declined open_now (ground arith))
              (λ _.
                stop_if-Guarded o s _ _ _
                  (closes-Guarded o s "current_price_outside_policy" declined open_now
                    (ground arith))
                  (λ w.
                    stop_if-Guarded o s _ _ _
                      (closes-Guarded o s "buyer_declined" declined open_now (ground arith))
                      (λ _. tried-Guarded o s _ _ (λ advice.
                        Permitted-Guarded o s open_now
                          (record {
                            unattended = ground (arith, u);
                            least = ground (arith, w);
                            most = ground (arith, w);
                          })
                          _))))))))))
