-- ===== src/Api/Repository/History.antt =====
-- apps/api/autonomerce/api/repository.py: a repository under any saves.
use autonomerce.Prelude.{
  ◌≡◌, refl, subst, inl, inr, Eq, String, Bool, true, false, not, if◌then◌else◌, ◌==◌, string_eq,
  nat_eq, option_eq, Option, none, some, arith, Bool-cases, Option-cases, String-discrete,
}
use autonomerce.Prelude.Text.{Runtime}
use autonomerce.Prelude.Dict.{lookup, insert, lookup-insert}
use autonomerce.Prelude.Results.{ok, Result-cases}
use autonomerce.Contracts.{ProposalState, accepted, paid, proposal_state_eq, payment_state_eq}
use autonomerce.Contracts.Offers.{Proposal, make_proposal}
use autonomerce.Contracts.Offers.Kept.{Keeps, make_proposal_lem}
use autonomerce.Api.Repository.{
  SettlementAuthorization, authorization_eq, Payment, payment_matches, Repository,
  is_post_acceptance,
}
use autonomerce.Api.Repository.Saves.{
  accept_proposal, save_new, paid_proposal, authorization_conflicts,
}
use autonomerce.Api.Repository.Settled.{
  Accepted, IsSettled, Selected, selected_lem, Forward-Accepted, insert-named,
}
use autonomerce.Api.Repository.Kept.{Bound, accept_proposal_lem}

same_lem : {A : Type 0} ⦃e : Eq A⦄ (a b : A) → not (a == b) ≡ false → a ≡ b
same_lem a b h = ground arith

-- an authorization is not replaced by another
conflicts_lem :
    (o : Option SettlementAuthorization) (old a : SettlementAuthorization)
    → o ≡ some old
    → authorization_conflicts o a ≡ false
    → old ≡ a
unfolding authorization_conflicts
conflicts_lem none old a e h = cc
conflicts_lem (some b) old a e h = let same : b ≡ a = same_lem b a h in ground (arith, e, same)

pub accept_proposal-IsSettled :
    (py : Runtime) (p : Proposal) (a : SettlementAuthorization) (owner_id given : String)
    (s t : Repository) (x : Proposal × SettlementAuthorization)
    → IsSettled py s
    → accept_proposal p a owner_id given s ≡ ok (x, t)
    → IsSettled py t
accept_proposal-IsSettled py p a owner_id given s t x i h =
    let v : Bound s t p a = accept_proposal_lem p a owner_id given s t x h in
    let c : Selected s p v.kept = selected_lem py s p v.kept v.existing i v.chosen in
    record {
      named = λ k q f.
          insert-named py s p.proposal_id v.kept i c.named k q (ground (arith, f, v.proposals));
      authorized = λ k b f. elim (String-discrete p.proposal_id k) [
        | yes e ↦
            let same : a ≡ b =
              ground
                (arith, f, e, v.authorizations, lookup-insert p.proposal_id k a s.authorizations) in
            record {
              stored = v.kept;
              found =
                  ground (arith, v.proposals, lookup-insert p.proposal_id k v.kept s.proposals, e);
              named = ground (arith, c.named, e);
              state = v.state;
              price = ground (arith, v.price, same);
              hash = ground (
                arith,
                v.hashes,
                e,
                same,
                lookup-insert p.proposal_id k a.proposal_contract_hash s.contract_hashes,
              );
            }
        | no e ↦
            let g : lookup k s.authorizations ≡ some b =
              ground
                (arith, f, e, v.authorizations, lookup-insert p.proposal_id k a s.authorizations) in
            let d : Accepted s k b = i.authorized k b g in
            Forward-Accepted s t p.proposal_id k v.kept b v.proposals c.named c.forward
              (ground (
                arith,
                v.hashes,
                e,
                d.hash,
                lookup-insert p.proposal_id k a.proposal_contract_hash s.contract_hashes,
              ))
              d
      ];
      matched = λ k r f.
          let m = i.matched k r (ground (arith, f, v.payments)) in
          elim (String-discrete p.proposal_id r.0.proposal_id) [
            | yes e ↦ (
              a,
              (
                ground (
                  arith,
                  e,
                  v.authorizations,
                  lookup-insert p.proposal_id r.0.proposal_id a s.authorizations,
                ),
                subst (λ b. payment_matches py r b ≡ true)
                    (conflicts_lem (lookup p.proposal_id s.authorizations) m.0 a
                      (ground (arith, m.1.0, e)) v.same)
                    m.1.1,
              ),
            )
            | no e ↦ (
              m.0,
              (
                ground (
                  arith,
                  m.1.0,
                  e,
                  v.authorizations,
                  lookup-insert p.proposal_id r.0.proposal_id a s.authorizations,
                ),
                m.1.1,
              ),
            )
          ];
    }

-- what a stored proposal keeps when it is paid
pub record Pays (p q : Proposal) : Type 0 where
  pub proposal_id : q.proposal_id ≡ p.proposal_id
  pub price : q.price_usdc ≡ p.price_usdc
  pub state : is_post_acceptance p.state ≡ true → is_post_acceptance q.state ≡ true

paid_state : (s : ProposalState) → s ≡ paid → is_post_acceptance s ≡ true
unfolding is_post_acceptance
paid_state s e = ground (arith, e)

paid_proposal-Pays : (p q : Proposal) → paid_proposal p ≡ ok q → Pays p q
unfolding paid_proposal
paid_proposal-Pays p q h = elim (Bool-cases (p.state == accepted)) [
  | inr c ↦ record {
    proposal_id = ground (arith, h, c);
    price = ground (arith, h, c);
    state = λ i. ground (arith, h, c);
  }
  | inl c ↦ elim (Result-cases (make_proposal (record p { state = paid }))) [
    | inr (e, m) ↦ ground (arith, h, c, m)
    | inl (made, m) ↦
        let k : Keeps (record p { state = paid }) made =
          make_proposal_lem (record p { state = paid }) made m in
        let same : q ≡ made = ground (arith, h, c, m) in
        record {
          proposal_id = ground (arith, same, k.proposal_id);
          price = ground (arith, same, k.price_usdc);
          state = λ i. paid_state q.state (ground (arith, same, k.state));
        }
  ]
]

-- what `save_new` does when it returns
pub record Recorded (py : Runtime) (s t : Repository) (r : Payment) : Type 0 where
  pub old : Proposal
  pub new : Proposal
  pub by : SettlementAuthorization
  pub found : lookup r.0.proposal_id s.proposals ≡ some old
  pub authorized : lookup r.0.proposal_id s.authorizations ≡ some by
  pub matches : payment_matches py r by ≡ true
  pub paid : Pays old new
  pub proposals :
      (k : String)
      → old.proposal_id ≡ r.0.proposal_id
      → lookup k t.proposals ≡ lookup k (insert old.proposal_id new s.proposals)
  pub hashes : t.contract_hashes ≡ s.contract_hashes
  pub authorizations : t.authorizations ≡ s.authorizations
  pub payments : t.payments ≡ insert r.0.payment_id r s.payments

-- the proposals after a payment, by key: nothing is written if the proposal is paid already
paid_lookup :
    (s : Repository) (p new : Proposal) (k id : String)
    → lookup id s.proposals ≡ some p
    → p.proposal_id ≡ id
    → paid_proposal p ≡ ok new
    → lookup k (if p.state == accepted then insert p.proposal_id new s.proposals else s.proposals)
      ≡ lookup k (insert p.proposal_id new s.proposals)
unfolding paid_proposal
paid_lookup s p new k id n e q = elim (Bool-cases (p.state == accepted)) [
  | inl c ↦ rw c refl
  | inr c ↦ elim (String-discrete p.proposal_id k) [
    | yes d ↦ ground (arith, n, e, q, c, d, lookup-insert p.proposal_id k new s.proposals)
    | no d ↦ ground (arith, c, d, lookup-insert p.proposal_id k new s.proposals)
  ]
]

pub save_new_lem :
    (py : Runtime) (r : Payment) (mocked : Bool) (s t : Repository) (x : Payment)
    → save_new py r mocked s ≡ ok (x, t)
    → Recorded py s t r
unfolding save_new
save_new_lem py (r, public) mocked s t x h =
    elim (Option-cases (lookup r.proposal_id s.proposals)) [
      | inl n ↦ ground (arith, h, n)
      | inr (p, n) ↦ elim (Option-cases (lookup r.proposal_id s.authorizations)) [
        | inl m ↦ ground (arith, h, n, m)
        | inr (a, m) ↦ elim (Result-cases (paid_proposal p)) [
          | inr (e, q) ↦ ground (arith, h, n, m, q)
          | inl (new, q) ↦ record {
            old = p;
            new = new;
            by = a;
            found = n;
            authorized = m;
            matches = ground (arith, h, n, m, q);
            paid = paid_proposal-Pays p new q;
            proposals =
                λ k e. ground (arith, h, n, m, q, paid_lookup s p new k r.proposal_id n e q);
            hashes = ground (arith, h, n, m, q);
            authorizations = ground (arith, h, n, m, q);
            payments = ground (arith, h, n, m, q);
          }
        ]
      ]
    ]
