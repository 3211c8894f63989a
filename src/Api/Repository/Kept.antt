-- ===== src/Api/Repository/Kept.antt =====
-- apps/api/autonomerce/api/repository.py: every save keeps authorizations and payments in agreement.
use autonomerce.Prelude.{
  ◌≡◌, sym, ap, ◌∙◌, inl, inr, String, Bool, true, false, string_eq, nat_eq, option_eq, Option,
  none, some, arith, Option-cases, String-discrete,
}
use autonomerce.Prelude.Text.{Runtime}
use autonomerce.Prelude.Dict.{lookup, insert, lookup-insert}
use autonomerce.Prelude.Results.{ok, Result-cases}
use autonomerce.Contracts.{proposal_state_eq, payment_state_eq}
use autonomerce.Contracts.Offers.{Proposal}
use autonomerce.Api.Repository.{
  SettlementAuthorization, authorization_eq, Repository, monotonic_proposal, is_post_acceptance,
}
use autonomerce.Api.Repository.Saves.{
  save_proposal, accept_proposal, insert_some, hash_conflicts, authorization_conflicts,
  selected_hash, mismatches, with_acceptance, accept_selected,
}
use autonomerce.Api.Repository.Settled.{
  Accepted, IsSettled, Selected, selected_lem, Forward-Accepted, insert-named,
}

-- what `save_proposal` does when it returns
record Saved (s t : Repository) (p : Proposal) : Type 0 where
  pub kept : Proposal
  pub existing : Bool
  pub hash : Option String
  pub chosen : monotonic_proposal (lookup p.proposal_id s.proposals) p ≡ ok (kept, existing)
  pub safe : hash_conflicts (lookup p.proposal_id s.authorizations) hash ≡ false
  pub proposals : t.proposals ≡ insert p.proposal_id kept s.proposals
  pub hashes : t.contract_hashes ≡ insert_some p.proposal_id hash s.contract_hashes
  pub authorizations : t.authorizations ≡ s.authorizations
  pub payments : t.payments ≡ s.payments

save_proposal_lem :
    (p : Proposal) (owner_id given : Option String) (s t : Repository) (x : Proposal)
    → save_proposal p owner_id given s ≡ ok (x, t)
    → Saved s t p
unfolding save_proposal
save_proposal_lem p owner_id given s t x h =
    elim (Result-cases (monotonic_proposal (lookup p.proposal_id s.proposals) p)) [
      | inr (e, m) ↦ ground (arith, h, m)
      | inl ((kept, existing), m) ↦ record {
        kept = kept;
        existing = existing;
        hash = selected_hash existing given (lookup p.proposal_id s.contract_hashes);
        chosen = m;
        safe = ground (arith, h, m);
        proposals = ground (arith, h, m);
        hashes = ground (arith, h, m);
        authorizations = ground (arith, h, m);
        payments = ground (arith, h, m);
      }
    ]

-- the hash of an authorized proposal is not changed
pub hash_kept :
    (s : Repository) (id k : String) (hash : Option String) (a : SettlementAuthorization)
    → lookup k s.authorizations ≡ some a
    → hash_conflicts (lookup id s.authorizations) hash ≡ false
    → lookup k s.contract_hashes ≡ some a.proposal_contract_hash
    → lookup k (insert_some id hash s.contract_hashes) ≡ some a.proposal_contract_hash
hash_kept s id k none a f c h = h
hash_kept s id k (some v) a f c h = elim (String-discrete id k) [
  | yes e ↦ ground (arith, c, f, e, lookup-insert id k v s.contract_hashes)
  | no e ↦ ground (arith, h, e, lookup-insert id k v s.contract_hashes)
]

pub save_proposal-IsSettled :
    (py : Runtime) (p : Proposal) (owner_id given : Option String) (s t : Repository) (x : Proposal)
    → IsSettled py s
    → save_proposal p owner_id given s ≡ ok (x, t)
    → IsSettled py t
save_proposal-IsSettled py p owner_id given s t x i h =
    let v : Saved s t p = save_proposal_lem p owner_id given s t x h in
    let c : Selected s p v.kept = selected_lem py s p v.kept v.existing i v.chosen in
    record {
      named = λ k q f.
          insert-named py s p.proposal_id v.kept i c.named k q (ground (arith, f, v.proposals));
      authorized = λ k a f.
          let g : lookup k s.authorizations ≡ some a = ground (arith, f, v.authorizations) in
          let d : Accepted s k a = i.authorized k a g in
          Forward-Accepted s t p.proposal_id k v.kept a v.proposals c.named c.forward
            (ground (arith, v.hashes, hash_kept s p.proposal_id k v.hash a g v.safe d.hash)) d;
      matched = λ k r f.
          let m = i.matched k r (ground (arith, f, v.payments)) in
          (m.0, (ground (arith, m.1.0, v.authorizations), m.1.1));
    }

-- what `accept_proposal` does when it returns
pub record Bound (s t : Repository) (p : Proposal) (a : SettlementAuthorization) : Type 0 where
  pub kept : Proposal
  pub existing : Bool
  pub chosen : monotonic_proposal (lookup p.proposal_id s.proposals) p ≡ ok (kept, existing)
  pub state : is_post_acceptance kept.state ≡ true
  pub price : a.amount_usdc ≡ kept.price_usdc
  pub same : authorization_conflicts (lookup p.proposal_id s.authorizations) a ≡ false
  pub proposals : t.proposals ≡ insert p.proposal_id kept s.proposals
  pub hashes : t.contract_hashes ≡ insert p.proposal_id a.proposal_contract_hash s.contract_hashes
  pub authorizations : t.authorizations ≡ insert p.proposal_id a s.authorizations
  pub payments : t.payments ≡ s.payments

accept_selected-ok :
    (id : String) (kept : Proposal) (a : SettlementAuthorization) (given : String)
    (s t : Repository) (x : Proposal × SettlementAuthorization)
    → accept_selected id kept a given s ≡ ok (x, t)
    → (t ≡ with_acceptance id kept a given s)
      × (is_post_acceptance kept.state ≡ true)
      × (mismatches a kept given ≡ false)
      × (authorization_conflicts (lookup id s.authorizations) a ≡ false)
unfolding accept_selected
accept_selected-ok id kept a given s t x h =
    (ground (arith, h), ground (arith, h), ground (arith, h), ground (arith, h))

mismatches_lem :
    (a : SettlementAuthorization) (p : Proposal) (given : String)
    → mismatches a p given ≡ false
    → (a.proposal_contract_hash ≡ given) × (a.amount_usdc ≡ p.price_usdc)
unfolding mismatches
mismatches_lem a p given h = (ground (arith, h), ground (arith, h))

pub accept_proposal_lem :
    (p : Proposal) (a : SettlementAuthorization) (owner_id given : String) (s t : Repository)
    (x : Proposal × SettlementAuthorization)
    → accept_proposal p a owner_id given s ≡ ok (x, t)
    → Bound s t p a
unfolding accept_proposal with_acceptance
accept_proposal_lem p a owner_id given s t x h =
    elim (Option-cases (lookup p.proposal_id s.proposals)) [
      | inl n ↦ ground (arith, h, n)
      | inr (old, n) ↦ elim (Result-cases (monotonic_proposal (some old) p)) [
        | inr (e, m) ↦ ground (arith, h, n, m)
        | inl ((kept, existing), m) ↦
            let k = accept_selected-ok p.proposal_id kept a given s t x (ground (arith, h, n, m)) in
            let e = mismatches_lem a kept given k.2 in
            record {
              kept = kept;
              existing = existing;
              chosen = ap (λ o. monotonic_proposal o p) n ∙ m;
              state = k.1;
              price = e.1;
              same = k.3;
              proposals = ap (λ r. r.proposals) k.0;
              hashes =
                  ap (λ r. r.contract_hashes) k.0
                  ∙ ap (λ v. insert p.proposal_id v s.contract_hashes) (sym e.0);
              authorizations = ap (λ r. r.authorizations) k.0;
              payments = ap (λ r. r.payments) k.0;
            }
      ]
    ]
