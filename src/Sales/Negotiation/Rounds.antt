-- ===== src/Sales/Negotiation/Rounds.antt =====
-- apps/api/autonomerce/sales/negotiation.py: a session under any calls of `advance`: it ends.
use autonomerce.Prelude.{
  ℕ, ◌+◌, ◌≤◌, ◌≡◌, Bool, true, false, length, length-append, List, [], ◌∷◌, arith, Bool-cases, inl,
  inr,
}
use autonomerce.Prelude.Text.{Runtime, Moment}
use autonomerce.Prelude.Results.{ok, err}
use autonomerce.Contracts.Offers.{Proposal}
use autonomerce.Sales.Negotiation.{
  BuyerResponse, NegotiationSession, NegotiationOrchestrator, Answer, is_negotiable, start,
}
use autonomerce.Sales.Negotiation.Advance.{advance, advance_all}
use autonomerce.Sales.Negotiation.Steps.{Deciding, advance-decides}
use autonomerce.Sales.Negotiation.Guards.{Guarded, advance-Guarded}

abbrev pub one_if : Bool → ℕ
one_if true = 1
one_if false = 0

-- the decisions that are possible and those made are no more than the rounds and one
pub record Counted (o : NegotiationOrchestrator) (s : NegotiationSession) : Type 0 where
  pub rounds : s.rounds ≤ o.max_rounds
  pub decisions : length s.decisions + one_if (is_negotiable s.current_proposal) ≤ s.rounds + 1

module _ (o : NegotiationOrchestrator) where
  answer-Counted :
      (s : NegotiationSession) (a : Answer)
      → Counted o s
      → Deciding o s a
      → Guarded o s a
      → Counted o a.1
  unfolding Deciding Guarded
  answer-Counted s (err e, t) c r g = record {
    rounds = ground (arith, r.bounded c.rounds);
    decisions = ground (arith, r.current, r.decisions, r.used, c.decisions);
  }
  answer-Counted s (ok d, t) c r g = record {
    rounds = ground (arith, r.bounded c.rounds);
    decisions = elim (Bool-cases (is_negotiable d.proposal)) [
      | inl n ↦ ground (
        arith,
        r.current,
        r.decisions,
        length-append s.decisions (d ∷ []),
        r.used n,
        g.0,
        c.decisions,
      )
      | inr n ↦ ground (
        arith,
        r.current,
        r.decisions,
        length-append s.decisions (d ∷ []),
        r.kept n,
        g.0,
        c.decisions,
      )
    ];
  }

  advance_all-Counted :
      (py : Runtime) (calls : List (BuyerResponse × Moment)) (s : NegotiationSession)
      → Counted o s
      → Counted o (advance_all py o calls s)
  unfolding advance_all
  advance_all-Counted py [] s c = c
  advance_all-Counted py ((r, now) ∷ calls) s c =
      advance_all-Counted py calls (advance py o r now s).1 (
        answer-Counted s (advance py o r now s) c (advance-decides py o r now s)
          (advance-Guarded py o r now s))

  start-Counted : (p : Proposal) (s : NegotiationSession) → start p ≡ ok s → Counted o s
  unfolding start
  start-Counted p s h = record { rounds = ground arith; decisions = ground arith }

-- A negotiation that starts ends: however many times it is advanced, whatever the buyer and the
-- advisor answer, at most `max_rounds + 1` decisions are made, and with that many the proposal is no
-- longer negotiable.
pub advance_all-ends :
    (py : Runtime) (o : NegotiationOrchestrator) (p : Proposal) (s : NegotiationSession)
    (calls : List (BuyerResponse × Moment))
    → start p ≡ ok s
    → (length (advance_all py o calls s).decisions ≤ o.max_rounds + 1)
      × (length (advance_all py o calls s).decisions ≡ o.max_rounds + 1
          → is_negotiable (advance_all py o calls s).current_proposal ≡ false)
advance_all-ends py o p s calls h =
    let c : Counted o (advance_all py o calls s) =
      advance_all-Counted o py calls s (start-Counted o p s h) in
    (
      ground (arith, c.rounds, c.decisions),
      λ e. elim (Bool-cases (is_negotiable (advance_all py o calls s).current_proposal)) [
        | inl n ↦ ground (arith, c.rounds, c.decisions, n, e)
        | inr n ↦ n
      ],
    )
