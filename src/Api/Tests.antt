-- ===== src/Api/Tests.antt =====
-- Runs of the repository on a proposal that is offered, accepted and paid.
use autonomerce.Prelude.{
  ◌≡◌, ◌⊎◌, refl, true, false, none, some, List, [], ◌∷◌, string_eq, String-discrete, ℕ_discrete,
  Option-discrete,
}
use autonomerce.Prelude.Text.{Runtime}
use autonomerce.Prelude.Dict.{lookup}
use autonomerce.Prelude.Results.{ok}
use autonomerce.Contracts.{
  offered, accepted, confirmed, ProposalState-discrete, PaymentState-discrete,
}
use autonomerce.Contracts.Offers.{Proposal}
use autonomerce.Contracts.Receipt.{PaymentReceipt}
use autonomerce.Api.Repository.{SettlementAuthorization, monotonic_proposal}
use autonomerce.Api.Repository.Moves.{Forward, monotonic_proposal-Forward}
use autonomerce.Api.Repository.Saves.{
  Save, proposal, acceptance, payment, save_all, empty_repository,
}
use autonomerce.Api.Repository.Paid.{Paid, save_all-Paid}

-- a runtime library for texts that are already normalized
abbrev plain : Runtime
plain = record {
  lower = λ s. s;
  upper = λ s. s;
  casefold = λ s. s;
  isalnum = λ s. true;
  dumps_list = λ xs. "";
  dumps_object = λ xs. "";
  sha256_hex = λ s. s;
  from_isoformat = λ s. none;
  isoformat = λ n. "";
  url_split = λ s. none;
  idna = λ s. some s;
}

abbrev offer : Proposal
offer = record {
  proposal_id = "proposal_1";
  seller_agent_url = "https://seller.example";
  buyer_agent_url = "https://buyer.example";
  sku_id = "sku_1";
  problem_observed = "No review";
  offered_outcome = "A review";
  price_usdc = 2000000;
  delivery_seconds = 300;
  buyer_need_id = none;
  acceptance_criteria = [];
  expires_at = none;
  state = offered;
  revision = 2;
}

abbrev agreed : Proposal
agreed = record offer { state = accepted; revision = 3; price_usdc = 1500000 }

moves : monotonic_proposal (some offer) agreed ≡ ok (agreed, false)
unfolding monotonic_proposal String-discrete ProposalState-discrete ℕ_discrete
moves = refl

monotonic_proposal-Forward_example :
    ((agreed ≡ offer) ⊎ (agreed ≡ agreed))
    × Forward offer agreed
    × (monotonic_proposal (some agreed) agreed ≡ ok (agreed, true))
monotonic_proposal-Forward_example = monotonic_proposal-Forward offer agreed agreed false moves

abbrev authorization : SettlementAuthorization
authorization = record {
  authorization_id = "authorization_1";
  proposal_id = "proposal_1";
  proposal_revision = 3;
  proposal_contract_hash = "hash";
  amount_usdc = 1500000;
  payer_wallet = "0x11";
  payee_wallet = "0x22";
  chain = "BASE";
  token = "USDC";
  asset = "0x33";
  commercial_policy_id = "policy-1";
  commercial_policy_version = "1";
  seller_configuration_id = "seller";
  seller_configuration_version = "1";
  expires_at = "2026-01-02";
  created_at = "2026-01-01";
}

abbrev receipt : PaymentReceipt
receipt = record {
  payment_id = "payment_1";
  proposal_id = "proposal_1";
  idempotency_key = "order-1";
  state = confirmed;
  amount_usdc = 1500000;
  chain = "BASE";
  payer_wallet = "0x11";
  payee_wallet = "0x22";
  transaction_hash = some "0x01";
  explorer_url = none;
  confirmed_at = none;
  token = "USDC";
  asset = some "0x33";
}

abbrev saves : List Save
saves =
    proposal offer (some "owner") none
    ∷ acceptance agreed authorization "owner" "hash"
    ∷ payment (receipt, false) false
    ∷ []

is_stored :
    lookup "payment_1" (save_all plain saves empty_repository).payments ≡ some (receipt, false)
unfolding save_all String-discrete Option-discrete ProposalState-discrete ℕ_discrete
    PaymentState-discrete autonomerce.Contracts.Offers.make_proposal
    autonomerce.Contracts.Offers.need_reference
is_stored = refl

save_all-Paid_example : Paid plain (save_all plain saves empty_repository) (receipt, false)
save_all-Paid_example = save_all-Paid plain saves "payment_1" (receipt, false) is_stored
