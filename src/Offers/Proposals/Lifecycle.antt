-- ===== src/Offers/Proposals/Lifecycle.antt =====
-- The life of a proposal under `transition_proposal`: a state machine whose moves go forward.
use autonomerce.Prelude.{
  ℕ, ◌+◌, ◌≤◌, ◌||◌, ◌==◌, ◌≡◌, ◌≢◌, refl, ◌⊎◌, inl, inr, Option, arith, Bool-cases, Bool,
}
use autonomerce.Prelude.Text.{Runtime}
use autonomerce.Prelude.Results.{ok}
use autonomerce.Contracts.{
  ProposalState, draft, offered, countered, accepted, declined, expired, paid, fulfilling,
  delivered, failed, proposal_state_eq,
}
use autonomerce.Contracts.Offers.{Proposal}
use autonomerce.Contracts.Offers.Kept.{Keeps, make_proposal_lem}
use autonomerce.Offers.Time.{Time}
use autonomerce.Offers.Proposals.{transition_proposal, move_proposal}
use autonomerce.Offers.Proposals.Transition.{Leads, OpenAt, allowed_iff, open_iff}

-- how far a state is in the life of a proposal
abbrev pub stage : ProposalState → ℕ
stage draft = 0
stage offered = 1
stage countered = 2
stage accepted = 3
stage paid = 4
stage fulfilling = 5
stage delivered = 6
stage declined = 6
stage expired = 6
stage failed = 6

-- a proposal that was moved to a new state
pub record Moves (py : Runtime) (clock : ℕ) (now : Option Time) (o : Proposal)
    (target : ProposalState) (o' : Proposal) : Type 0 where
  leads : Leads o.state target
  pub fresh : (target ≡ offered) ⊎ (target ≡ accepted) → OpenAt py clock now o.expires_at
  pub kept : Keeps (record o { state = target; revision = o.revision + 1 }) o'

move_proposal-Moves :
    (py : Runtime) (clock : ℕ) (o : Proposal) (target : ProposalState) (now : Option Time)
    (o' : Proposal)
    → move_proposal py clock o target now ≡ ok o'
    → Moves py clock now o target o'
unfolding move_proposal
move_proposal-Moves py clock o target now o' h = record {
  leads = (allowed_iff o.state target).0 (ground arith);
  fresh = λ t. (open_iff py clock now o.expires_at).0 (ground arith);
  kept = make_proposal_lem _ o' (ground arith);
}

-- what a call of `transition_proposal` that returns did
transition_proposal_lem :
    (py : Runtime) (clock : ℕ) (o : Proposal) (target : ProposalState) (expected : Option ℕ)
    (now : Option Time) (o' : Proposal)
    → transition_proposal py clock o target expected now ≡ ok o'
    → ((target ≡ o.state) × (o' ≡ o)) ⊎ ((target ≢ o.state) × Moves py clock now o target o')
unfolding transition_proposal
transition_proposal_lem py clock o target expected now o' h =
    elim (Bool-cases (target == o.state)) [
      | inl same ↦ inl (ground arith, ground arith)
      | inr other ↦ inr (ground arith, move_proposal-Moves py clock o target now o' (ground arith))
    ]

-- a proposal that calls of `transition_proposal`, at any times, turned into another one
pub data Reaches (py : Runtime) (o : Proposal) : Proposal → Type 0 where
  here : Reaches py o o
  step :
      {m n : Proposal} (clock : ℕ) (target : ProposalState) (expected : Option ℕ)
      (now : Option Time)
      → Reaches py o m
      → transition_proposal py clock m target expected now ≡ ok n
      → Reaches py o n

Leads-stage : (s t : ProposalState) → Leads s t → t ≢ s → stage s + 1 ≤ stage t
Leads-stage s draft h other = elim h [ ]
Leads-stage s offered h other = ground arith
Leads-stage s countered h other = ground arith
Leads-stage s accepted h other = ground arith
Leads-stage s declined h other = ground arith
Leads-stage s expired h other = ground arith
Leads-stage s paid h other = ground arith
Leads-stage s fulfilling h other = ground arith
Leads-stage s delivered h other = ground arith
Leads-stage s failed h other = ground arith

Moves-stage :
    (py : Runtime) (clock : ℕ) (now : Option Time) (o : Proposal) (target : ProposalState)
    (o' : Proposal)
    → Moves py clock now o target o'
    → target ≢ o.state
    → stage o.state + 1 ≤ stage o'.state
Moves-stage py clock now o target o' m other =
    rw m.kept.state (Leads-stage o.state target m.leads other)

-- Whatever calls of `transition_proposal` a proposal went through, its identifier, price, delivery
-- time, outcome and expiry are those it began with, and its revision has not gone down, and has
-- grown by at most the stages that its state moved ahead.
pub Reaches_lem :
    (py : Runtime) (o o' : Proposal)
    → Reaches py o o'
    → (o'.proposal_id ≡ o.proposal_id)
      × (o'.price_usdc ≡ o.price_usdc)
      × (o'.delivery_seconds ≡ o.delivery_seconds)
      × (o'.offered_outcome ≡ o.offered_outcome)
      × (o'.expires_at ≡ o.expires_at)
      × (o.revision ≤ o'.revision)
      × (o'.revision + stage o.state ≤ o.revision + stage o'.state)
Reaches_lem py o _ here = (refl, refl, refl, refl, refl, omega arith, omega arith)
Reaches_lem py o n (step {m} clock target expected now r h) =
    let before = Reaches_lem py o m r in
    elim (transition_proposal_lem py clock m target expected now n h) [
      | inl (_, same) ↦ rw same before
      | inr (other, moved) ↦
          let ahead = Moves-stage py clock now m target n moved other in
          ground (arith, before, moved.kept, ahead)
    ]

-- an acceptance, at a time when the proposal was not expired, in the life of a proposal
pub record Acceptance (py : Runtime) (o o' : Proposal) : Type 0 where
  pub before : Proposal
  pub after : Proposal
  pub clock : ℕ
  pub now : Option Time
  pub reached : Reaches py o before
  pub from : (before.state ≡ offered) ⊎ (before.state ≡ countered)
  pub open_then : OpenAt py clock now before.expires_at
  pub changed : Keeps (record before { state = accepted; revision = before.revision + 1 }) after
  pub later : Reaches py after o'

-- the states from the acceptance on, but for failures
abbrev pub is_won : ProposalState → Bool
is_won s = s == accepted || s == paid || s == fulfilling || s == delivered
