-- ===== src/Sales/Negotiation/Steps.antt =====
-- apps/api/autonomerce/sales/negotiation.py: what one call of `advance` does to a session.
use autonomerce.Prelude.{
  String, ℕ, ◌+◌, ◌≤◌, ◌<◌, ◌≡◌, refl, Bool, true, false, ◌∷◌, [], ◌++◌, Option, none, some, arith,
  if◌then◌else◌, Bool-cases, inl, inr, leb,
}
use autonomerce.Prelude.Text.{Runtime, Moment}
use autonomerce.Prelude.Results.{Result, ok, err}
use autonomerce.Contracts.{ProposalState, countered, accepted, declined, expired, proposal_state_eq}
use autonomerce.Contracts.Offers.{Proposal, NegotiationDecision, OfferError, make_proposal}
use autonomerce.Contracts.Offers.Kept.{Keeps, make_proposal_lem}
use autonomerce.Sales.Negotiation.{
  NegotiationError, invalid, BuyerResponse, NegotiationRecommendation, NegotiationSession,
  NegotiationOrchestrator, Answer, is_negotiable, floor_price, counter_price, decision, closes,
  advises, decline,
}
use autonomerce.Sales.Negotiation.Advance.{advance, on_accept, on_price, on_counter, tried, stop_if}

-- What a call leaves behind when it raises: at most a round is used.
pub record Raised (o : NegotiationOrchestrator) (s t : NegotiationSession) : Type 0 where
  pub initial : t.initial_proposal ≡ s.initial_proposal
  pub current : t.current_proposal ≡ s.current_proposal
  pub decisions : t.decisions ≡ s.decisions
  pub used : s.rounds ≤ t.rounds
  pub bounded : s.rounds ≤ o.max_rounds → t.rounds ≤ o.max_rounds

-- What a call decides.
pub record Decided (o : NegotiationOrchestrator) (s t : NegotiationSession)
    (d : NegotiationDecision) : Type 0 where
  pub initial : t.initial_proposal ≡ s.initial_proposal
  pub current : t.current_proposal ≡ d.proposal
  pub decisions : t.decisions ≡ s.decisions ++ (d ∷ [])
  pub used : is_negotiable d.proposal ≡ true → s.rounds + 1 ≡ t.rounds
  pub kept : is_negotiable d.proposal ≡ false → s.rounds ≡ t.rounds
  pub bounded : s.rounds ≤ o.max_rounds → t.rounds ≤ o.max_rounds
  pub least :
      is_negotiable d.proposal ≡ true
      → floor_price o.commercial_policy s ≤ s.current_proposal.price_usdc
      → floor_price o.commercial_policy s ≤ d.proposal.price_usdc
  pub most :
      floor_price o.commercial_policy s ≤ s.current_proposal.price_usdc
      → d.proposal.price_usdc ≤ s.current_proposal.price_usdc
  pub least_accepted :
      d.accepted ≡ true
      → floor_price o.commercial_policy s ≤ s.current_proposal.price_usdc
      → floor_price o.commercial_policy s ≤ d.proposal.price_usdc
  pub closed : d.accepted ≡ true → d.proposal.state ≡ accepted

module _ (o : NegotiationOrchestrator) (s : NegotiationSession) where
  unfoldable pub Deciding : Answer → Type 0
  Deciding (err e, t) = Raised o s t
  Deciding (ok d, t) = Decided o s t d

  -- a call that raises and changes nothing
  raises_lem : (e : NegotiationError) → Deciding (err e, s)
  unfolding Deciding
  raises_lem e = record {
    initial = refl;
    current = refl;
    decisions = refl;
    used = omega arith;
    bounded = λ h. h;
  }

  decision-closes :
      (agreed : Bool) (reason : String) (p : Proposal) (made : Result OfferError Proposal)
      → make_proposal p ≡ made
      → is_negotiable p ≡ false
      → (agreed ≡ true → p.state ≡ accepted)
      → (floor_price o.commercial_policy s ≤ s.current_proposal.price_usdc
          → p.price_usdc ≤ s.current_proposal.price_usdc)
      → (agreed ≡ true
          → floor_price o.commercial_policy s ≤ s.current_proposal.price_usdc
          → floor_price o.commercial_policy s ≤ p.price_usdc)
      → Deciding (decision o.commercial_policy s agreed reason made)
  unfolding Deciding
  decision-closes agreed reason p (err e) m n a f g = raises_lem (NegotiationError.contract e)
  decision-closes agreed reason p (ok made) m n a f g =
      let k : Keeps p made = make_proposal_lem p made m in
      record {
        initial = refl;
        current = refl;
        decisions = refl;
        used = λ h. ground (arith, k.state);
        kept = λ h. refl;
        bounded = λ h. h;
        least = λ h i. ground (arith, k.state, k.price_usdc, g);
        most = λ h. ground (arith, k.price_usdc, f h);
        least_accepted = λ h i. ground (arith, k.price_usdc, g h i);
        closed = λ h. ground (arith, k.state, a);
      }

  closes_lem :
      (agreed : Bool) (reason : String) (state : ProposalState)
      → is_negotiable (record s.current_proposal { state = state }) ≡ false
      → (agreed ≡ true → state ≡ accepted)
      → Deciding (closes o.commercial_policy s agreed reason state)
  closes_lem agreed reason state n a =
      decision-closes agreed reason (record s.current_proposal { state = state })
        (make_proposal (record s.current_proposal { state = state })) refl n a (λ h. omega arith)
        (λ h i. i)

  decision-counters :
      (p : Proposal) (made : Result OfferError Proposal)
      → make_proposal p ≡ made
      → p.state ≡ countered
      → s.rounds < o.max_rounds
      → (floor_price o.commercial_policy s ≤ s.current_proposal.price_usdc
          → p.price_usdc ≤ s.current_proposal.price_usdc)
      → floor_price o.commercial_policy s ≤ p.price_usdc
      → Deciding (
          decision o.commercial_policy
            (record s { rounds = s.rounds + 1 })
            false
            "seller_countered"
            made)
  unfolding Deciding
  decision-counters p (err e) m n r f g = record {
    initial = refl;
    current = refl;
    decisions = refl;
    used = omega arith;
    bounded = λ h. omega (arith, r);
  }
  decision-counters p (ok made) m n r f g =
      let k : Keeps p made = make_proposal_lem p made m in
      record {
        initial = refl;
        current = refl;
        decisions = refl;
        used = λ h. refl;
        kept = λ h. ground (arith, k.state, n);
        bounded = λ h. omega (arith, r);
        least = λ h i. ground (arith, k.price_usdc, g);
        most = λ h. ground (arith, k.price_usdc, f h);
        least_accepted = λ h i. ground arith;
        closed = λ h. ground arith;
      }

  counter_price-bounds :
      (floor current : ℕ) (advice : Option NegotiationRecommendation)
      → (floor ≤ counter_price floor current advice)
        × (floor ≤ current → counter_price floor current advice ≤ current)
  unfolding counter_price
  counter_price-bounds floor current none = (omega arith, λ h. h)
  counter_price-bounds floor current (some r) = (ground arith, λ h. ground arith)

  on_price_lem :
      (advice : Option NegotiationRecommendation) (price : ℕ) → Deciding (on_price o s advice price)
  unfolding on_price
  on_price_lem advice price = elim (Bool-cases (leb s.current_proposal.price_usdc price)) [
    | inl h ↦ rw h (closes_lem true "accepted_at_offered_price" accepted (ground arith) (λ e. refl))
    | inr h ↦ elim (Bool-cases (leb (floor_price o.commercial_policy s) price)) [
      | inl g ↦
          rw (h, g)
            (decision-closes true "accepted_bounded_counter"
              (record s.current_proposal {
                price_usdc = price;
                state = accepted;
                revision = s.current_proposal.revision + 1;
              })
              _ refl (ground arith) (λ e. refl) (λ i. ground arith) (λ i j. ground arith))
      | inr g ↦ elim (Bool-cases (leb o.max_rounds s.rounds)) [
        | inl m ↦
            rw (h, g, m)
              (closes_lem false "negotiation_round_limit" declined (ground arith) (λ e. cc))
        | inr m ↦
            rw (h, g, m)
              (decision-counters
                (record s.current_proposal {
                  price_usdc =
                      counter_price (floor_price o.commercial_policy s)
                        s.current_proposal.price_usdc advice;
                  state = countered;
                  revision = s.current_proposal.revision + 1;
                })
                _ refl refl (ground arith)
                (λ i.
                  (counter_price-bounds (floor_price o.commercial_policy s)
                      s.current_proposal.price_usdc advice).1
                    i)
                (counter_price-bounds (floor_price o.commercial_policy s)
                  s.current_proposal.price_usdc advice).0)
      ]
    ]
  ]

  on_accept_lem : (advice : Option NegotiationRecommendation) → Deciding (on_accept o s advice)
  unfolding on_accept
  on_accept_lem advice = elim (Bool-cases (advises decline advice)) [
    | inl h ↦
        rw h (closes_lem false "advisor_decline_policy_safe" declined (ground arith) (λ e. cc))
    | inr h ↦ rw h (closes_lem true "accepted_at_offered_price" accepted (ground arith) (λ e. refl))
  ]

  on_counter_lem :
      (advice : Option NegotiationRecommendation) (price : Option ℕ)
      → Deciding (on_counter o s advice price)
  on_counter_lem advice none = raises_lem (invalid "counter response requires a price")
  on_counter_lem advice (some price) = on_price_lem advice price

  tried_lem {ℓ} :
      {A : Type ℓ} (x : Result NegotiationError A) (k : A → Answer)
      → ((a : A) → x ≡ ok a → Deciding (k a))
      → Deciding (tried s x k)
  unfolding tried
  tried_lem (err e) k h = raises_lem e
  tried_lem (ok a) k h = h a refl

  stop_if_lem :
      (b : Bool) (early rest : Answer)
      → Deciding early
      → (b ≡ false → Deciding rest)
      → Deciding (stop_if b early rest)
  unfolding stop_if
  stop_if_lem true early rest f g = f
  stop_if_lem false early rest f g = g refl

  closes_not :
      (reason : String) (state : ProposalState)
      → is_negotiable (record s.current_proposal { state = state }) ≡ false
      → Deciding (closes o.commercial_policy s false reason state)
  closes_not reason state n = closes_lem false reason state n (λ e. cc)

  answer_lem :
      (b : Bool) (advice : Option NegotiationRecommendation) (price : Option ℕ)
      → Deciding (if b then on_accept o s advice else on_counter o s advice price)
  answer_lem true advice price = on_accept_lem advice
  answer_lem false advice price = on_counter_lem advice price

-- Every call of `advance` raises, and uses at most a round, or it decides within the bounds.
pub advance-decides :
    (py : Runtime) (o : NegotiationOrchestrator) (r : BuyerResponse) (now : Moment)
    (s : NegotiationSession)
    → Deciding o s (advance py o r now s)
unfolding advance
advance-decides py o r now s =
    stop_if_lem o s _ _ _ (raises_lem o s (invalid "proposal is no longer negotiable")) (λ _.
      stop_if_lem o s _ _ _ (closes_not o s "unattended_sales_disabled" declined (ground arith))
        (λ _. tried_lem o s _ _ (λ at _. tried_lem o s _ _ (λ late _.
          stop_if_lem o s _ _ _ (closes_not o s "proposal_expired" expired (ground arith)) (λ _.
            tried_lem o s _ _ (λ known _.
              stop_if_lem o s _ _ _
                (closes_not o s "buyer_host_not_authorized" declined (ground arith))
                (λ _.
                  stop_if_lem o s _ _ _
                    (closes_not o s "current_price_outside_policy" declined (ground arith))
                    (λ _.
                      stop_if_lem o s _ _ _
                        (closes_not o s "buyer_declined" declined (ground arith))
                        (λ _.
                          tried_lem o s _ _
                            (λ advice _. answer_lem o s _ advice r.price_usdc))))))))))
