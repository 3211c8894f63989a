-- ===== src/Api/Repository/Paid.antt =====
-- apps/api/autonomerce/api/repository.py: the payments of a repository under any saves.
use autonomerce.Prelude.{
  ◌≡◌, sym, subst, inl, inr, String, Bool, true, string_eq, nat_eq, option_eq, some, List, [], ◌∷◌,
  arith, Option-cases, String-discrete,
}
use autonomerce.Prelude.Text.{Runtime}
use autonomerce.Prelude.Dict.{lookup, lookup-insert}
use autonomerce.Prelude.Results.{ok, Result-cases}
use autonomerce.Contracts.{confirmed, proposal_state_eq, payment_state_eq}
use autonomerce.Api.Repository.{
  SettlementAuthorization, authorization_eq, Payment, payment_matches, Repository,
}
use autonomerce.Api.Repository.Saves.{
  save_proposal, accept_proposal, save_payment, save_new, Save, proposal, acceptance, payment, save,
  save_all, empty_repository,
}
use autonomerce.Api.Repository.Settled.{Accepted, IsSettled, insert-named}
use autonomerce.Api.Repository.Kept.{save_proposal-IsSettled}
use autonomerce.Api.Repository.History.{Recorded, save_new_lem, accept_proposal-IsSettled}

save_new-IsSettled :
    (py : Runtime) (r : Payment) (mocked : Bool) (s t : Repository) (x : Payment)
    → IsSettled py s
    → save_new py r mocked s ≡ ok (x, t)
    → IsSettled py t
save_new-IsSettled py r mocked s t x i h =
    let v : Recorded py s t r = save_new_lem py r mocked s t x h in
    let id : v.old.proposal_id ≡ r.0.proposal_id = i.named r.0.proposal_id v.old v.found in
    record {
      named = λ k q f.
          insert-named py s v.old.proposal_id v.new i v.paid.proposal_id k q
            (ground (arith, f, v.proposals k id));
      authorized = λ k a f.
          let d : Accepted s k a = i.authorized k a (ground (arith, f, v.authorizations)) in
          elim (String-discrete v.old.proposal_id k) [
            | yes e ↦
                let same : d.stored ≡ v.old = ground (arith, d.found, v.found, id, e) in
                record {
                  stored = v.new;
                  found = ground (
                    arith,
                    v.proposals k id,
                    e,
                    lookup-insert v.old.proposal_id k v.new s.proposals,
                  );
                  named = ground (arith, v.paid.proposal_id, e);
                  state = v.paid.state (ground (arith, d.state, same));
                  price = ground (arith, v.paid.price, d.price, same);
                  hash = ground (arith, d.hash, v.hashes);
                }
            | no e ↦ record {
              stored = d.stored;
              found = ground (
                arith,
                v.proposals k id,
                e,
                d.found,
                lookup-insert v.old.proposal_id k v.new s.proposals,
              );
              named = d.named;
              state = d.state;
              price = d.price;
              hash = ground (arith, d.hash, v.hashes);
            }
          ];
      matched = λ k q f. elim (String-discrete r.0.payment_id k) [
        | yes e ↦
            let same : q ≡ r =
              ground (arith, f, v.payments, e, lookup-insert r.0.payment_id k r s.payments) in
            (
              v.by,
              (
                ground (arith, same, v.authorized, v.authorizations),
                ground (arith, same, v.matches),
              ),
            )
        | no e ↦
            let m =
              i.matched k q
                (ground (arith, f, v.payments, e, lookup-insert r.0.payment_id k r s.payments)) in
            (m.0, (ground (arith, m.1.0, v.authorizations), m.1.1))
      ];
    }

save_payment-IsSettled :
    (py : Runtime) (r : Payment) (mocked : Bool) (s t : Repository) (x : Payment)
    → IsSettled py s
    → save_payment py r mocked s ≡ ok (x, t)
    → IsSettled py t
unfolding save_payment
save_payment-IsSettled py (r, public) mocked s t x i h =
    elim (Option-cases (lookup r.payment_id s.payments)) [
      | inl n ↦ save_new-IsSettled py (r, public) mocked s t x i (ground (arith, h, n))
      | inr (old, n) ↦
          let same : t ≡ s = ground (arith, h, n) in subst (λ v. IsSettled py v) (sym same) i
    ]

save-IsSettled :
    (py : Runtime) (c : Save) (s : Repository) → IsSettled py s → IsSettled py (save py c s)
unfolding save
save-IsSettled py (proposal p owner_id hash) s i =
    elim (Result-cases (save_proposal p owner_id hash s)) [
      | inl ((x, t), m) ↦ rw m (save_proposal-IsSettled py p owner_id hash s t x i m)
      | inr (e, m) ↦ rw m i
    ]
save-IsSettled py (acceptance p a owner_id hash) s i =
    elim (Result-cases (accept_proposal p a owner_id hash s)) [
      | inl ((x, t), m) ↦ rw m (accept_proposal-IsSettled py p a owner_id hash s t x i m)
      | inr (e, m) ↦ rw m i
    ]
save-IsSettled py (payment r mocked) s i = elim (Result-cases (save_payment py r mocked s)) [
  | inl ((x, t), m) ↦ rw m (save_payment-IsSettled py r mocked s t x i m)
  | inr (e, m) ↦ rw m i
]

save_all-IsSettled :
    (py : Runtime) (cs : List Save) (s : Repository)
    → IsSettled py s
    → IsSettled py (save_all py cs s)
unfolding save_all
save_all-IsSettled py [] s i = i
save_all-IsSettled py (c ∷ cs) s i =
    save_all-IsSettled py cs (save py c s) (save-IsSettled py c s i)

IsSettled-empty : (py : Runtime) → IsSettled py empty_repository
unfolding lookup
IsSettled-empty py = record { named = λ k p h. cc; authorized = λ k a h. cc; matched = λ k r h. cc }

-- A payment that is stored, the acceptance that authorized it, and the proposal as it is stored.
pub record Paid (py : Runtime) (s : Repository) (r : Payment) : Type 0 where
  pub by : SettlementAuthorization
  pub authorized : lookup r.0.proposal_id s.authorizations ≡ some by
  pub matches : payment_matches py r by ≡ true
  pub accepted : Accepted s r.0.proposal_id by
  pub confirmed : r.0.state ≡ confirmed
  pub price : r.0.amount_usdc ≡ accepted.stored.price_usdc

matches_lem :
    (py : Runtime) (r : Payment) (a : SettlementAuthorization)
    → payment_matches py r a ≡ true
    → (r.0.state ≡ confirmed) × (r.0.amount_usdc ≡ a.amount_usdc)
unfolding payment_matches
matches_lem py (r, public) a h = (ground (arith, h), ground (arith, h))

-- After any saves of proposals, acceptances and payments, the refused ones among them, every stored
-- payment is confirmed and matches the settlement authorization of its proposal, which is stored as
-- accepted or later, with the authorized contract hash and at a price that is the amount paid.
pub save_all-Paid :
    (py : Runtime) (cs : List Save) (k : String) (r : Payment)
    → let s = save_all py cs empty_repository in lookup k s.payments ≡ some r → Paid py s r
save_all-Paid py cs k r h =
    let i : IsSettled py (save_all py cs empty_repository) =
      save_all-IsSettled py cs empty_repository (IsSettled-empty py) in
    let m = i.matched k r h in
    let c : Accepted (save_all py cs empty_repository) r.0.proposal_id m.0 =
      i.authorized r.0.proposal_id m.0 m.1.0 in
    let f = matches_lem py r m.0 m.1.1 in
    record {
      by = m.0;
      authorized = m.1.0;
      matches = m.1.1;
      accepted = c;
      confirmed = f.0;
      price = ground (arith, f.1, c.price);
    }
