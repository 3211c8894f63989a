-- ===== src/Api/Repository/Saves.antt =====
-- apps/api/autonomerce/api/repository.py: `save_proposal`, `accept_proposal` and `save_payment`.
-- `save_payment` writes before it replaces the proposal by its paid form, which does not raise: the
-- proposal was made by its constructor, and the state is no part of its checks.
use autonomerce.Prelude.{
  String, Bool, true, false, not, ◌&&◌, ◌||◌, if◌then◌else◌, ◌==◌, string_eq, nat_eq, option_eq,
  Option, none, some, List, [], ◌∷◌,
}
use autonomerce.Prelude.Text.{Runtime, truthy}
use autonomerce.Prelude.Dict.{Dict, lookup, insert, is_some}
use autonomerce.Prelude.Table.{pair_eq}
use autonomerce.Prelude.Results.{Result, ok, err, ◌>>=◌, ◌>>◌, raise_if, or_raise}
use autonomerce.Contracts.{accepted, paid, proposal_state_eq}
use autonomerce.Contracts.Receipt.{PaymentReceipt}
use autonomerce.Contracts.Offers.{OfferError, Proposal, make_proposal}
use autonomerce.Payments.Models.Names.{get_or}
use autonomerce.Api.Repository.{
  RepositoryError, invalid, contract, SettlementAuthorization, authorization_eq, receipt_eq,
  Payment, payment_matches, Repository, Method, monotonic_proposal, is_post_acceptance,
}

-- `a or b` of two optional texts
abbrev or_text : Option String → Option String → Option String
or_text a b = if truthy a then a else b

abbrev or_there {ℓ} : {A : Type ℓ} → Option A → Option A → Option A
or_there none b = b
or_there (some a) b = some a

-- `d[k] = v` if there is a value
abbrev pub insert_some : String → Option String → Dict String → Dict String
insert_some k none d = d
insert_some k (some v) d = insert k v d

-- the hash that is stored with a saved proposal
abbrev pub selected_hash : Bool → Option String → Option String → Option String
selected_hash true given old = old
selected_hash false given old = or_there given old

-- an authorization that another hash would leave behind
abbrev pub hash_conflicts : Option SettlementAuthorization → Option String → Bool
hash_conflicts none hash = false
hash_conflicts (some a) hash = not (hash == some a.proposal_contract_hash)

-- `save_proposal`
unfoldable pub save_proposal : Proposal → Option String → Option String → Method Proposal
unfolding lookup insert monotonic_proposal
save_proposal p owner_id contract_hash s = do
  let old_owner = lookup p.proposal_id s.proposal_owners
  owner ← or_raise (or_text owner_id old_owner) (invalid "proposal owner is required")
  raise_if (is_some old_owner && not (old_owner == some owner))
      (invalid "proposal owner cannot be changed")
  selected ← monotonic_proposal (lookup p.proposal_id s.proposals) p
  let hash = selected_hash selected.1 contract_hash (lookup p.proposal_id s.contract_hashes)
  raise_if (hash_conflicts (lookup p.proposal_id s.authorizations) hash)
      (invalid "accepted proposal contract hash cannot be changed")
  ok (
    selected.0,
    record s {
      proposals = insert p.proposal_id selected.0 s.proposals;
      proposal_owners = insert p.proposal_id owner s.proposal_owners;
      contract_hashes = insert_some p.proposal_id hash s.contract_hashes;
    },
  )

-- an authorization that differs from the one that is stored
unfoldable pub authorization_conflicts :
    Option SettlementAuthorization → SettlementAuthorization → Bool
authorization_conflicts none a = false
authorization_conflicts (some old) a = not (old == a)

-- an authorization that is not about the accepted proposal
unfoldable pub mismatches : SettlementAuthorization → Proposal → String → Bool
mismatches a p contract_hash =
    not (a.proposal_id == p.proposal_id)
    || not (a.proposal_revision == p.revision)
    || not (a.proposal_contract_hash == contract_hash)
    || not (a.amount_usdc == p.price_usdc)

-- the writes of an acceptance
unfoldable pub with_acceptance :
    String → Proposal → SettlementAuthorization → String → Repository → Repository
unfolding insert
with_acceptance id p a contract_hash s = record s {
  proposals = insert id p s.proposals;
  contract_hashes = insert id contract_hash s.contract_hashes;
  authorizations = insert id a s.authorizations;
  accepted_ids = id ∷ s.accepted_ids;
}

-- `accept_proposal` on the selected proposal
unfoldable pub accept_selected :
    String
    → Proposal
    → SettlementAuthorization
    → String
    → Method (Proposal × SettlementAuthorization)
unfolding lookup is_post_acceptance mismatches authorization_conflicts with_acceptance
accept_selected id p a contract_hash s = do
  raise_if (not (is_post_acceptance p.state))
      (invalid "proposal acceptance did not reach an accepted state")
  raise_if (mismatches a p contract_hash)
      (invalid "settlement authorization does not match accepted proposal")
  raise_if (authorization_conflicts (lookup id s.authorizations) a)
      (invalid "settlement authorization is immutable once accepted")
  ok ((p, a), with_acceptance id p a contract_hash s)

-- `accept_proposal`
unfoldable pub accept_proposal :
    Proposal
    → SettlementAuthorization
    → String
    → String
    → Method (Proposal × SettlementAuthorization)
unfolding lookup monotonic_proposal accept_selected
accept_proposal p a owner_id contract_hash s = do
  existing ← or_raise (lookup p.proposal_id s.proposals) (invalid "proposal does not exist")
  raise_if (not (lookup p.proposal_id s.proposal_owners == some owner_id))
      (invalid "proposal owner cannot be changed")
  selected ← monotonic_proposal (some existing) p
  accept_selected p.proposal_id selected.0 a contract_hash s

-- `existing and existing != payment_id`
abbrev pub bound_elsewhere : Option String → String → Bool
bound_elsewhere none id = false
bound_elsewhere (some other) id = not (other == "") && not (other == id)

abbrev pub lowered_hash : Runtime → PaymentReceipt → Option String
lowered_hash py r = elim r.transaction_hash [ none ↦ none | some h ↦ some (py.lower h) ]

abbrev by_hash : Option String → Dict String → Option String
by_hash none d = none
by_hash (some h) d = lookup h d

abbrev same_mocked : Option Bool → Bool → Bool
same_mocked none b = false
same_mocked (some true) b = b
same_mocked (some false) b = not b

abbrev pub raised {ℓ} : {A : Type ℓ} → Result OfferError A → Result RepositoryError A
raised (ok a) = ok a
raised (err e) = err (contract e)

-- the proposal after its payment
unfoldable pub paid_proposal : Proposal → Result RepositoryError Proposal
paid_proposal p =
    if p.state == accepted then raised (make_proposal (record p { state = paid })) else ok p

-- a payment that is not stored yet
unfoldable pub save_new : Runtime → Payment → Bool → Method Payment
unfolding lookup insert payment_matches paid_proposal
save_new py (r, public) mocked s = do
  p ← or_raise (lookup r.proposal_id s.proposals) (invalid "payment proposal does not exist")
  a ←
      or_raise (lookup r.proposal_id s.authorizations)
        (invalid "payment does not match immutable settlement authorization")
  raise_if (not (payment_matches py (r, public) a))
      (invalid "payment does not match immutable settlement authorization")
  after ← paid_proposal p
  ok (
    (r, public),
    record s {
      payments = insert r.payment_id (r, public) s.payments;
      by_proposal = insert r.proposal_id r.payment_id s.by_proposal;
      by_idempotency = insert r.idempotency_key r.payment_id s.by_idempotency;
      by_transaction =
          insert_some (get_or (lowered_hash py r) "")
            (elim r.transaction_hash [ none ↦ none | some h ↦ some r.payment_id ]) s.by_transaction;
      mocked = insert r.payment_id mocked s.mocked;
      proposals =
          if p.state == accepted then insert p.proposal_id after s.proposals else s.proposals;
    },
  )

abbrev pub save_known :
    Option Payment
    → Payment
    → Bool
    → Option Bool
    → Repository
    → Result RepositoryError (Payment × Repository)
    → Result RepositoryError (Payment × Repository)
save_known none payment mocked old_mocked s new = new
save_known (some old) payment mocked old_mocked s new = do
  raise_if
      (not (old.0 == payment.0)
        || not (same_mocked (some old.1) payment.1)
        || not (same_mocked old_mocked mocked))
      (invalid "existing payment evidence cannot be rewritten")
  ok (old, s)

-- `save_payment`
unfoldable pub save_payment : Runtime → Payment → Bool → Method Payment
unfolding lookup save_new
save_payment py (r, public) mocked s = do
  raise_if (bound_elsewhere (lookup r.proposal_id s.by_proposal) r.payment_id)
      (invalid "proposal already has a different payment")
  raise_if (bound_elsewhere (lookup r.idempotency_key s.by_idempotency) r.payment_id)
      (invalid "idempotency key already has a different payment")
  raise_if (bound_elsewhere (by_hash (lowered_hash py r) s.by_transaction) r.payment_id)
      (invalid "transaction hash already has a different payment")
  save_known (lookup r.payment_id s.payments) (r, public) mocked (lookup r.payment_id s.mocked) s
      (save_new py (r, public) mocked s)

-- a call of one of the three methods
pub data Save : Type 0 where
  proposal : (p : Proposal) (owner_id contract_hash : Option String) → Save
  acceptance : (p : Proposal) (a : SettlementAuthorization) (owner_id contract_hash : String) → Save
  payment : (r : Payment) (mocked : Bool) → Save

abbrev pub after : {A : Type 0} → Repository → Result RepositoryError (A × Repository) → Repository
after s (ok (a, t)) = t
after s (err e) = s

unfoldable pub save : Runtime → Save → Repository → Repository
unfolding save_proposal accept_proposal save_payment
save py (proposal p owner_id hash) s = after s (save_proposal p owner_id hash s)
save py (acceptance p a owner_id hash) s = after s (accept_proposal p a owner_id hash s)
save py (payment r mocked) s = after s (save_payment py r mocked s)

unfoldable pub save_all : Runtime → List Save → Repository → Repository
unfolding save
save_all py [] s = s
save_all py (c ∷ cs) s = save_all py cs (save py c s)

abbrev pub empty_repository : Repository
empty_repository = record {
  proposals = [];
  proposal_owners = [];
  contract_hashes = [];
  authorizations = [];
  payments = [];
  by_proposal = [];
  by_idempotency = [];
  by_transaction = [];
  mocked = [];
  accepted_ids = [];
}
