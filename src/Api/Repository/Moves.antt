-- ===== src/Api/Repository/Moves.antt =====
-- apps/api/autonomerce/api/repository.py: the proposals that may replace one another.
use autonomerce.Prelude.{
  ◌+◌, ◌≤◌, ◌≡◌, refl, ◌⊎◌, inl, inr, Bool, true, false, string_eq, nat_eq, some, contains, arith,
}
use autonomerce.Prelude.Results.{ok, Result-cases}
use autonomerce.Contracts.{
  ProposalState, draft, offered, countered, accepted, declined, expired, paid, fulfilling,
  delivered, failed, proposal_state_eq,
}
use autonomerce.Contracts.Offers.{Proposal}
use autonomerce.Api.Repository.{
  state_rank, is_post_acceptance, allowed_targets, contract_binding, binding_eq, proposal_eq,
  keeps_existing, monotonic_proposal,
}

-- A proposal that may stand where another stood.
pub record Forward (old new : Proposal) : Type 0 where
  pub proposal_id : new.proposal_id ≡ old.proposal_id
  pub rank : state_rank old.state ≤ state_rank new.state
  pub revision : old.revision ≤ new.revision
  pub next : new.revision ≤ old.revision + 1
  pub agreed :
      is_post_acceptance old.state ≡ true
      → (is_post_acceptance new.state ≡ true) × (contract_binding new ≡ contract_binding old)

Forward-refl : (p : Proposal) → Forward p p
Forward-refl p = record {
  proposal_id = refl;
  rank = omega arith;
  revision = omega arith;
  next = omega arith;
  agreed = λ h. (h, refl);
}

-- what is accepted stays accepted
post_acceptance_lem :
    (old new : ProposalState)
    → is_post_acceptance old ≡ true
    → contains new (allowed_targets old) ≡ true
    → is_post_acceptance new ≡ true
unfolding is_post_acceptance allowed_targets
post_acceptance_lem draft new h k = ground arith
post_acceptance_lem offered new h k = ground arith
post_acceptance_lem countered new h k = ground arith
post_acceptance_lem accepted new h k = ground arith
post_acceptance_lem paid new h k = ground arith
post_acceptance_lem fulfilling new h k = ground arith
post_acceptance_lem declined new h k = ground arith
post_acceptance_lem expired new h k = ground arith
post_acceptance_lem delivered new h k = ground arith
post_acceptance_lem failed new h k = ground arith

keeps_existing-Forward :
    (old new : Proposal)
    → old.proposal_id ≡ new.proposal_id
    → keeps_existing old new ≡ ok false
    → Forward old new
unfolding keeps_existing
keeps_existing-Forward old new i h = record {
  proposal_id = ground (arith, i);
  rank = ground (arith, h);
  revision = ground (arith, h);
  next = ground (arith, h);
  agreed =
      λ p. (post_acceptance_lem old.state new.state p (ground (arith, h)), ground (arith, h, p));
}

keeps_existing_self : (p : Proposal) → keeps_existing p p ≡ ok true
unfolding keeps_existing
keeps_existing_self p = ground arith

-- The proposal that a repository keeps of a stored and an incoming one is one of the two; it moves
-- forward from the stored one: the rank of its state and its revision do not decrease, the revision by
-- one at most, and after acceptance it stays accepted with the same contract. To send the incoming
-- proposal again changes nothing.
pub monotonic_proposal-Forward :
    (old new kept : Proposal) (existing : Bool)
    → monotonic_proposal (some old) new ≡ ok (kept, existing)
    → ((kept ≡ old) ⊎ (kept ≡ new))
      × Forward old kept
      × (monotonic_proposal (some kept) new ≡ ok (kept, true))
unfolding monotonic_proposal
monotonic_proposal-Forward old new kept existing h = elim (Result-cases (keeps_existing old new)) [
  | inr (e, k) ↦ ground (arith, h, k)
  | inl (true, k) ↦
      let same : kept ≡ old = ground (arith, h, k) in
      (inl same, rw same (Forward-refl old), ground (arith, h, k, same))
  | inl (false, k) ↦
      let same : kept ≡ new = ground (arith, h, k) in
      let i : old.proposal_id ≡ new.proposal_id = ground (arith, h, k) in
      (
        inr same,
        rw same (keeps_existing-Forward old new i k),
        ground (arith, h, k, same, keeps_existing_self new),
      )
]
