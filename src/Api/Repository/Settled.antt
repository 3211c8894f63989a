-- ===== src/Api/Repository/Settled.antt =====
-- apps/api/autonomerce/api/repository.py: authorizations and payments agree with what is stored.
use autonomerce.Prelude.{
  ◌≡◌, subst, inl, inr, String, Bool, true, string_eq, nat_eq, option_eq, some, arith, Option-cases,
  String-discrete,
}
use autonomerce.Prelude.Text.{Runtime}
use autonomerce.Prelude.Dict.{lookup, insert, lookup-insert}
use autonomerce.Prelude.Results.{ok}
use autonomerce.Contracts.{proposal_state_eq, payment_state_eq}
use autonomerce.Contracts.Offers.{Proposal}
use autonomerce.Api.Repository.{
  SettlementAuthorization, authorization_eq, Payment, payment_matches, Repository,
  monotonic_proposal, is_post_acceptance,
}
use autonomerce.Api.Repository.Moves.{Forward, monotonic_proposal-Forward}

-- The proposal that an authorization is about, as it is stored.
pub record Accepted (s : Repository) (id : String) (a : SettlementAuthorization) : Type 0 where
  pub stored : Proposal
  pub found : lookup id s.proposals ≡ some stored
  pub named : stored.proposal_id ≡ id
  pub state : is_post_acceptance stored.state ≡ true
  pub price : stored.price_usdc ≡ a.amount_usdc
  pub hash : lookup id s.contract_hashes ≡ some a.proposal_contract_hash

pub record IsSettled (py : Runtime) (s : Repository) : Type 0 where
  pub named : (k : String) (p : Proposal) → lookup k s.proposals ≡ some p → p.proposal_id ≡ k
  pub authorized :
      (k : String) (a : SettlementAuthorization)
      → lookup k s.authorizations ≡ some a
      → Accepted s k a
  pub matched :
      (k : String) (r : Payment)
      → lookup k s.payments ≡ some r
      → (a : SettlementAuthorization) × ((lookup r.0.proposal_id s.authorizations ≡ some a)
          × (payment_matches py r a ≡ true))

-- what a saved proposal is
pub record Selected (s : Repository) (p kept : Proposal) : Type 0 where
  pub named : kept.proposal_id ≡ p.proposal_id
  pub forward : (old : Proposal) → lookup p.proposal_id s.proposals ≡ some old → Forward old kept

pub selected_lem :
    (py : Runtime) (s : Repository) (p kept : Proposal) (b : Bool)
    → IsSettled py s
    → monotonic_proposal (lookup p.proposal_id s.proposals) p ≡ ok (kept, b)
    → Selected s p kept
unfolding monotonic_proposal
selected_lem py s p kept b i h = elim (Option-cases (lookup p.proposal_id s.proposals)) [
  | inl n ↦ record { named = ground (arith, h, n); forward = λ old f. ground (arith, n, f) }
  | inr (old, f) ↦
      let m = monotonic_proposal-Forward old p kept b (ground (arith, h, f)) in
      record {
        named = ground (arith, m.1.proposal_id, i.named p.proposal_id old f);
        forward = λ other g. subst (λ v. Forward v kept) (ground (arith, f, g)) m.1;
      }
]

-- a repository whose proposal under one key is replaced by one that moved forward
pub Forward-Accepted :
    (s t : Repository) (id k : String) (kept : Proposal) (a : SettlementAuthorization)
    → t.proposals ≡ insert id kept s.proposals
    → kept.proposal_id ≡ id
    → ((old : Proposal) → lookup id s.proposals ≡ some old → Forward old kept)
    → lookup k t.contract_hashes ≡ some a.proposal_contract_hash
    → Accepted s k a
    → Accepted t k a
Forward-Accepted s t id k kept a ins n f hash c = elim (String-discrete id k) [
  | yes e ↦
      let g = f c.stored (ground (arith, c.found, e)) in
      let d = g.agreed c.state in
      record {
        stored = kept;
        found = ground (arith, ins, lookup-insert id k kept s.proposals, e);
        named = ground (arith, n, e);
        state = d.0;
        price = ground (arith, d.1, c.price);
        hash = hash;
      }
  | no e ↦ record {
    stored = c.stored;
    found = ground (arith, ins, lookup-insert id k kept s.proposals, e, c.found);
    named = c.named;
    state = c.state;
    price = c.price;
    hash = hash;
  }
]

pub insert-named :
    (py : Runtime) (s : Repository) (id : String) (kept : Proposal)
    → IsSettled py s
    → kept.proposal_id ≡ id
    → (k : String) (p : Proposal) → lookup k (insert id kept s.proposals) ≡ some p
    → p.proposal_id ≡ k
insert-named py s id kept i n k p h = elim (String-discrete id k) [
  | yes e ↦ ground (arith, h, n, e, lookup-insert id k kept s.proposals)
  | no e ↦ i.named k p (ground (arith, h, e, lookup-insert id k kept s.proposals))
]
