-- ===== src/Offers/Proposals/Transition.antt =====
-- packages/offerrail/proposals.py: `transition_proposal`, against a list of its moves.
use autonomerce.Prelude.{
  ℕ, ◌+◌, ◌<◌, String, true, false, ◌||◌, ◌==◌, string_eq, ◌≡◌, ◌≢◌, refl, ◌↔◌, ◌⊎◌, inl, inr,
  Option, none, some, contains, arith, Bool-cases,
}
use autonomerce.Prelude.Text.{Runtime}
use autonomerce.Prelude.Results.{ok, Result-cases}
use autonomerce.Contracts.{
  ProposalState, draft, offered, countered, accepted, declined, expired, paid, fulfilling,
  delivered, failed, proposal_state_eq,
}
use autonomerce.Contracts.Offers.{Proposal, make_proposal, need_reference}
use autonomerce.Offers.Time.{Time, text, parse_timestamp}
use autonomerce.Offers.Policy.{instant_of, is_past}
use autonomerce.Offers.Proposals.{
  allowed_transitions, transition_proposal, move_proposal, proposal_is_expired, refuse_expired,
  is_stale,
}

-- the states that lead to a new state, by the new state
abbrev pub Leads : ProposalState → ProposalState → Type 0
Leads s draft = ⊥
Leads s offered = s ≡ draft
Leads s countered = (s ≡ offered) ⊎ (s ≡ countered)
Leads s accepted = (s ≡ offered) ⊎ (s ≡ countered)
Leads s declined = (s ≡ offered) ⊎ (s ≡ countered)
Leads s expired = (s ≡ draft) ⊎ ((s ≡ offered) ⊎ (s ≡ countered))
Leads s paid = s ≡ accepted
Leads s fulfilling = s ≡ paid
Leads s delivered = s ≡ fulfilling
Leads s failed = (s ≢ declined) × (s ≢ expired) × (s ≢ delivered) × (s ≢ failed)

pub allowed_iff : (s t : ProposalState) → (contains t (allowed_transitions s) ≡ true) ↔ Leads s t
allowed_iff s draft = (λ h. ground arith, λ h. ground arith)
allowed_iff s offered = (λ h. ground arith, λ h. ground arith)
allowed_iff s countered = (λ h. ground arith, λ h. ground arith)
allowed_iff s accepted = (λ h. ground arith, λ h. ground arith)
allowed_iff s declined = (λ h. ground arith, λ h. ground arith)
allowed_iff s expired = (λ h. ground arith, λ h. ground arith)
allowed_iff s paid = (λ h. ground arith, λ h. ground arith)
allowed_iff s fulfilling = (λ h. ground arith, λ h. ground arith)
allowed_iff s delivered = (λ h. ground arith, λ h. ground arith)
allowed_iff s failed = (λ h. ground arith, λ h. ground arith)

-- an expiry, if there is one, can be read and is after the time of the call
abbrev pub OpenAt : Runtime → ℕ → Option Time → Option String → Type 0
OpenAt py clock now none = Unit
OpenAt py clock now (some expiry) =
    (expires_at : ℕ) × (current : ℕ) × (parse_timestamp py (text expiry) ≡ ok expires_at)
    × (instant_of py clock now ≡ ok current)
    × (current < expires_at)

pub open_iff :
    (py : Runtime) (clock : ℕ) (now : Option Time) (expires : Option String)
    → (refuse_expired (proposal_is_expired py clock now expires) ≡ ok tt)
      ↔ OpenAt py clock now expires
unfolding proposal_is_expired is_past
open_iff py clock now none = (λ h. tt, λ h. refl)
open_iff py clock now (some expiry) = (
  λ h. elim (Result-cases (parse_timestamp py (text expiry))) [
    | inr (e, bad) ↦ absurd (ground arith)
    | inl (expires_at, read) ↦ elim (Result-cases (instant_of py clock now)) [
      | inr (e, bad) ↦ absurd (ground arith)
      | inl (current, clocked) ↦ (expires_at, current, read, clocked, ground arith)
    ]
  ],
  λ (expires_at, current, read, clocked, before). ground arith,
)

-- the revision that a caller expects, if it expects one
abbrev pub Expects : Option ℕ → ℕ → Type 0
Expects none revision = Unit
Expects (some expected) revision = expected ≡ revision

stale_iff :
    (expected : Option ℕ) (revision : ℕ)
    → (is_stale expected revision ≡ false) ↔ Expects expected revision
stale_iff none revision = (λ h. tt, λ h. refl)
stale_iff (some expected) revision = (λ h. ground arith, λ h. ground arith)

-- a proposal that was moved to another state and has one revision more
pub record Advances (py : Runtime) (clock : ℕ) (now : Option Time) (o : Proposal)
    (target : ProposalState) (o' : Proposal) : Type 0 where
  pub other : target ≢ o.state
  pub leads : Leads o.state target
  pub fresh : (target ≡ offered) ⊎ (target ≡ accepted) → OpenAt py clock now o.expires_at
  pub result : o' ≡ record o { state = target; revision = o.revision + 1 }

-- a proposal that was made can be made again with another state and a later revision
remake :
    (o : Proposal) (target : ProposalState)
    → make_proposal o ≡ ok o
    → make_proposal (record o { state = target; revision = o.revision + 1 })
      ≡ ok (record o { state = target; revision = o.revision + 1 })
unfolding make_proposal need_reference
remake o target made = ground arith

move_proposal_iff :
    (py : Runtime) (clock : ℕ) (o : Proposal) (target : ProposalState) (now : Option Time)
    (o' : Proposal)
    → make_proposal o ≡ ok o
    → target ≢ o.state
    → (move_proposal py clock o target now ≡ ok o') ↔ Advances py clock now o target o'
unfolding move_proposal
move_proposal_iff py clock o target now o' made other =
    let again = remake o target made in
    let leads = allowed_iff o.state target in
    let open_now = open_iff py clock now o.expires_at in
    (
      λ h. record {
        other = other;
        leads = leads.0 (ground arith);
        fresh = λ t. open_now.0 (ground arith);
        result = ground (arith, again);
      },
      λ a. elim (Bool-cases (target == offered || target == accepted)) [
        | inl t ↦
            let w = open_now.1 (a.fresh (ground arith)) in
            ground (arith, again, leads.1 a.leads, w, a.result)
        | inr t ↦ ground (arith, again, leads.1 a.leads, a.result)
      ],
    )

-- For a proposal that was made, at any time, `transition_proposal` returns exactly when the expected
-- revision, if there is one, is the revision of the proposal, and either the proposal is in the
-- target state and is returned as it is, or its state leads to the target state, the proposal has
-- not expired if it is to be offered or accepted, and the result is the proposal with the target state
-- and one revision more.
pub transition_proposal_iff :
    (py : Runtime) (clock : ℕ) (o : Proposal) (target : ProposalState) (expected : Option ℕ)
    (now : Option Time) (o' : Proposal)
    → make_proposal o ≡ ok o
    → (transition_proposal py clock o target expected now ≡ ok o') ↔ (
        Expects expected o.revision
        × (((target ≡ o.state) × (o' ≡ o)) ⊎ Advances py clock now o target o'))
unfolding transition_proposal
transition_proposal_iff py clock o target expected now o' made =
    let stale = stale_iff expected o.revision in
    elim (Bool-cases (target == o.state)) [
      | inl same ↦ (
        λ h. (stale.0 (ground arith), inl (ground arith, ground arith)),
        λ (e, w). elim w [
          | inl (s, r) ↦ ground (arith, stale.1 e)
          | inr a ↦ absurd (ground (arith, a.other))
        ],
      )
      | inr differs ↦
          let moves = move_proposal_iff py clock o target now o' made (ground arith) in
          (
            λ h. (stale.0 (ground arith), inr (moves.0 (ground arith))),
            λ (e, w). elim w [
              | inl (s, r) ↦ absurd (ground arith)
              | inr a ↦ ground (arith, stale.1 e, moves.1 a)
            ],
          )
    ]
