-- ===== src/Sales/Negotiation/Bounds.antt =====
-- apps/api/autonomerce/sales/negotiation.py: the prices that a session can agree on.
use native.Mathlib.Nat.{
  div-lt_iff_lt-mul, lt-div-mul-add, mul-le-mul_left, mul-le-mul_right, one-le-pow,
}
use autonomerce.Prelude.{
  ℕ, ◌+◌, ◌-◌, ◌*◌, ◌/◌, ◌^◌, ◌≤◌, ◌≡◌, sym, subst, true, List, [], ◌∷◌, ◌++◌, arith, inl, inr,
}
use autonomerce.Prelude.Text.{Runtime, Moment}
use autonomerce.Prelude.Results.{ok, err}
use autonomerce.Contracts.{accepted}
use autonomerce.Contracts.Offers.{NegotiationDecision, Proposal, Fraction, CommercialPolicy}
use autonomerce.Sales.Negotiation.{
  BuyerResponse, NegotiationSession, NegotiationOrchestrator, Answer, is_negotiable, start,
  discounted, floor_price,
}
use autonomerce.Sales.Negotiation.Advance.{advance, advance_all}
use autonomerce.Sales.Negotiation.Steps.{Decided, Deciding, advance-decides}
use autonomerce.Sales.Negotiation.Guards.{Guarded, Permitted, advance-Guarded}

-- rounding up: the quotient is the least number whose product is enough
ceiling-le : (n d p : ℕ) → 1 ≤ d → n ≤ p * d → (n + (d - 1)) / d ≤ p
ceiling-le n d p h k = omega (
  arith,
  (div-lt_iff_lt-mul {k = d} {x = n + (d - 1)} {y = p + 1} (omega (arith, h))).1
      (ground (arith, h, k)),
)

ceiling-enough : (n d : ℕ) → 1 ≤ d → n ≤ ((n + (d - 1)) / d) * d
ceiling-enough n d h = omega (arith, lt-div-mul-add {a = n + (d - 1)} {b = d} (omega (arith, h)))

-- the discounted price is the least whole price that keeps the discount within the fraction
pub discounted-enough :
    (f : Fraction) (price : ℕ)
    → price * (10 ^ f.places - f.units) ≤ discounted f price * 10 ^ f.places
unfolding discounted
discounted-enough f price =
    ceiling-enough (price * (10 ^ f.places - f.units)) (10 ^ f.places)
      (one-le-pow f.places 10 (omega arith))

pub discounted-le : (f : Fraction) (price : ℕ) → discounted f price ≤ price
unfolding discounted
discounted-le f price =
    ceiling-le (price * (10 ^ f.places - f.units)) (10 ^ f.places) price
      (one-le-pow f.places 10 (omega arith)) (mul-le-mul_left price (omega arith))

-- What the owner can count on, of an accepted proposal that began at a price.
pub record Bargain (policy : CommercialPolicy) (initial : ℕ) (d : NegotiationDecision)
    : Type 0 where
  pub state : d.proposal.state ≡ accepted
  pub unattended : policy.unattended ≡ true
  pub least : policy.minimum_price_usdc ≤ d.proposal.price_usdc
  pub most : d.proposal.price_usdc ≤ policy.maximum_price_usdc
  pub no_more : d.proposal.price_usdc ≤ initial
  pub discount :
      initial
        * (10 ^ policy.maximum_discount_fraction.places - policy.maximum_discount_fraction.units)
      ≤ d.proposal.price_usdc * 10 ^ policy.maximum_discount_fraction.places

abbrev pub Bargains : CommercialPolicy → ℕ → List NegotiationDecision → Type 0
Bargains policy initial [] = Unit
Bargains policy initial (d ∷ ds) =
    (d.accepted ≡ true → Bargain policy initial d) × Bargains policy initial ds

Bargains-append :
    (policy : CommercialPolicy) (initial : ℕ) (ds : List NegotiationDecision)
    (d : NegotiationDecision)
    → Bargains policy initial ds
    → (d.accepted ≡ true → Bargain policy initial d)
    → Bargains policy initial (ds ++ (d ∷ []))
Bargains-append policy initial [] d h k = (k, tt)
Bargains-append policy initial (x ∷ ds) d h k = (h.0, Bargains-append policy initial ds d h.1 k)

-- a session whose price has not left the range that the initial price allows
pub record Ranged (o : NegotiationOrchestrator) (initial : ℕ) (s : NegotiationSession)
    : Type 0 where
  pub first : s.initial_proposal.price_usdc ≡ initial
  pub most : is_negotiable s.current_proposal ≡ true → s.current_proposal.price_usdc ≤ initial
  pub least :
      is_negotiable s.current_proposal ≡ true
      → discounted o.commercial_policy.maximum_discount_fraction initial
        ≤ s.current_proposal.price_usdc
  pub bargains : Bargains o.commercial_policy initial s.decisions

module _ (o : NegotiationOrchestrator) (initial : ℕ) where
  floor-le :
      (s : NegotiationSession)
      → Ranged o initial s
      → Permitted o s
      → is_negotiable s.current_proposal ≡ true
      → floor_price o.commercial_policy s ≤ s.current_proposal.price_usdc
  unfolding floor_price
  floor-le s c p n = ground (arith, c.first, c.least n, p.least)

  floor-above :
      (s : NegotiationSession) (n : ℕ)
      → Ranged o initial s
      → floor_price o.commercial_policy s ≤ n
      → (o.commercial_policy.minimum_price_usdc ≤ n)
        × (discounted o.commercial_policy.maximum_discount_fraction initial ≤ n)
  unfolding floor_price
  floor-above s n c h = (ground (arith, h), ground (arith, c.first, h))

  -- an acceptance within the range
  bargain :
      (s t : NegotiationSession) (d : NegotiationDecision)
      → Ranged o initial s
      → Decided o s t d
      → Permitted o s
      → is_negotiable s.current_proposal ≡ true
      → d.accepted ≡ true
      → Bargain o.commercial_policy initial d
  bargain s t d c r p n a =
      let floor = floor-le s c p n in
      let above = floor-above s d.proposal.price_usdc c (r.least_accepted a floor) in
      record {
        state = r.closed a;
        unattended = p.unattended;
        least = above.0;
        most = omega (arith, r.most floor, p.most);
        no_more = omega (arith, r.most floor, c.most n);
        discount = omega (
          arith,
          discounted-enough o.commercial_policy.maximum_discount_fraction initial,
          mul-le-mul_right (10 ^ o.commercial_policy.maximum_discount_fraction.places) above.1,
        );
      }

  answer-Ranged :
      (s : NegotiationSession) (a : Answer)
      → Ranged o initial s
      → Deciding o s a
      → Guarded o s a
      → Ranged o initial a.1
  unfolding Deciding Guarded
  answer-Ranged s (err e, t) c r g = record {
    first = ground (arith, r.initial, c.first);
    most = λ n. ground (arith, r.current, c.most);
    least = λ n. ground (arith, r.current, c.least);
    bargains = ground (arith, r.decisions, c.bargains);
  }
  answer-Ranged s (ok d, t) c r g = record {
    first = ground (arith, r.initial, c.first);
    most = λ n. ground (
      arith,
      r.current,
      c.most g.0,
      r.most (floor-le s c (g.1 (inr (ground (arith, n, r.current)))) g.0),
    );
    least = λ n. ground (
      arith,
      r.current,
      (floor-above s d.proposal.price_usdc c (
          r.least (ground (arith, n, r.current))
            (floor-le s c (g.1 (inr (ground (arith, n, r.current)))) g.0))).1,
    );
    bargains =
        subst (λ ds. Bargains o.commercial_policy initial ds) (sym r.decisions)
          (Bargains-append o.commercial_policy initial s.decisions d c.bargains
            (λ a. bargain s t d c r (g.1 (inl a)) g.0 a));
  }

  advance_all-Ranged :
      (py : Runtime) (calls : List (BuyerResponse × Moment)) (s : NegotiationSession)
      → Ranged o initial s
      → Ranged o initial (advance_all py o calls s)
  unfolding advance_all
  advance_all-Ranged py [] s c = c
  advance_all-Ranged py ((r, now) ∷ calls) s c =
      advance_all-Ranged py calls (advance py o r now s).1 (
        answer-Ranged s (advance py o r now s) c (advance-decides py o r now s)
          (advance-Guarded py o r now s))

start-Ranged :
    (o : NegotiationOrchestrator) (p : Proposal) (s : NegotiationSession)
    → start p ≡ ok s
    → Ranged o p.price_usdc s
unfolding start
start-Ranged o p s h = record {
  first = ground arith;
  most = λ n. ground arith;
  least =
      λ n. ground (arith, discounted-le o.commercial_policy.maximum_discount_fraction p.price_usdc);
  bargains = ground arith;
}

-- Every acceptance of a negotiation that starts, whatever the buyer and the advisor answered and
-- however often it was advanced, is a bargain for the owner: sales are unattended, the price is within
-- the policy's minimum and maximum, no more than the initial price, and no less than the initial price
-- with the greatest discount.
pub advance_all-Bargains :
    (py : Runtime) (o : NegotiationOrchestrator) (p : Proposal) (s : NegotiationSession)
    (calls : List (BuyerResponse × Moment))
    → start p ≡ ok s
    → Bargains o.commercial_policy p.price_usdc (advance_all py o calls s).decisions
advance_all-Bargains py o p s calls h =
    (advance_all-Ranged o p.price_usdc py calls s (start-Ranged o p s h)).bargains
