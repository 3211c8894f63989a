-- ===== src/Payments/Store/Reserve.antt =====
-- apps/api/autonomerce/payments/store.py: `InMemoryPaymentStore.reserve`.
use autonomerce.Prelude.{
  String, Bool, true, false, not, ◌&&◌, if◌then◌else◌, ◌==◌, string_eq, option_eq, Option, none,
  some, ◌≡◌, arith,
}
use autonomerce.Prelude.Text.{Runtime, truthy}
use autonomerce.Prelude.Dict.{lookup, insert, is_some}
use autonomerce.Prelude.Results.{Result, ok, err, ◌>>=◌, ◌>>◌, raise_if}
use autonomerce.Contracts.{policy_approved}
use autonomerce.Contracts.Receipt.{PaymentReceipt, ContractError, make_receipt}
use autonomerce.Payments.Errors.{
  PaymentError, contract, denied, replay, other_intent, other_policy, payment_id_taken,
  proposal_bound, x402_reserved, idempotent_existing,
}
use autonomerce.Payments.Models.{PaymentIntent, PaymentPolicy, PaymentPolicyDecision}
use autonomerce.Payments.Models.Intent.{payment_id, intent_fingerprint}
use autonomerce.Payments.Models.Names.{get_or}
use autonomerce.Payments.Gate.{evaluate}
use autonomerce.Payments.Store.{Store, Entry, PaymentReservation, Method, snapshot}

-- a `ContractError` of `PaymentReceipt`, as an exception of the payment methods
abbrev pub as_contract {ℓ} : {A : Type ℓ} → Result ContractError A → Result PaymentError A
as_contract (ok a) = ok a
as_contract (err e) = err (contract e)

pub as_contract-eq-ok {ℓ} :
    {A : Type ℓ} (r : Result ContractError A) {a : A} → as_contract r ≡ ok a → r ≡ ok a
as_contract-eq-ok (ok b) h = ground arith
as_contract-eq-ok (err e) h = cc

-- the arguments of `_new_receipt`
abbrev pub receipt_of : Runtime → PaymentIntent → PaymentReceipt
receipt_of py i = record {
  payment_id = payment_id py i;
  proposal_id = i.proposal_id;
  idempotency_key = i.idempotency_key;
  state = policy_approved;
  amount_usdc = i.amount_usdc;
  chain = i.chain;
  payer_wallet = i.payer_wallet;
  payee_wallet = i.payee_wallet;
  transaction_hash = none;
  explorer_url = none;
  confirmed_at = none;
  token = i.token;
  asset = i.asset;
}

-- `_idempotent_decision`
abbrev pub idempotent_decision : Runtime → PaymentIntent → PaymentPolicy → PaymentPolicyDecision
idempotent_decision py i p = record {
  authorized = true;
  reason_code = idempotent_existing;
  policy_id = p.policy_id;
  payment_id = payment_id py i;
}

-- `prior and prior != key`
abbrev pub taken : Option String → String → Bool
taken none key = false
taken (some prior) key = not (prior == "") && not (prior == key)

-- the branch for a key that is there
unfoldable pub replayed :
    Runtime → PaymentIntent → PaymentPolicy → Entry → Method PaymentReservation
replayed py i p e s = do
  raise_if (not (e.fingerprint == intent_fingerprint py i)) (replay other_intent)
  raise_if (not (e.policy_id == p.policy_id)) (replay other_policy)
  ok (record { receipt = e.receipt; created = false; decision = idempotent_decision py i p }, s)

abbrev pub entry_of : Runtime → PaymentIntent → PaymentPolicy → PaymentReceipt → Entry
entry_of py i p receipt = record {
  receipt = receipt;
  fingerprint = intent_fingerprint py i;
  policy_id = p.policy_id;
  token = i.token;
  asset = i.asset;
  x402_requirement_id = i.x402_requirement_id;
  reconciliation = none;
}

-- the writes of a new reservation
unfoldable pub write : Runtime → PaymentIntent → PaymentPolicy → PaymentReceipt → Store → Store
write py i p receipt s = record {
  records = insert i.idempotency_key (entry_of py i p receipt) s.records;
  payment_ids = insert receipt.payment_id i.idempotency_key s.payment_ids;
  proposal_ids = insert receipt.proposal_id i.idempotency_key s.proposal_ids;
  x402_ids =
      if truthy i.x402_requirement_id
      then insert (get_or i.x402_requirement_id "") i.idempotency_key s.x402_ids
      else s.x402_ids;
  transaction_hashes = s.transaction_hashes;
}

-- the branch for a new key
unfoldable pub reserve_new : Runtime → PaymentIntent → PaymentPolicy → Method PaymentReservation
reserve_new py i p s = do
  raise_if (is_some (lookup (payment_id py i) s.payment_ids)) (replay payment_id_taken)
  raise_if (taken (lookup i.proposal_id s.proposal_ids) i.idempotency_key) (replay proposal_bound)
  raise_if
      (truthy i.x402_requirement_id
        && taken (lookup (get_or i.x402_requirement_id "") s.x402_ids) i.idempotency_key)
      (replay x402_reserved)
  decision ← evaluate py i p (snapshot p.policy_id s)
  raise_if (not decision.authorized) (denied decision.reason_code)
  receipt ← as_contract (make_receipt py (receipt_of py i))
  ok (record { receipt = receipt; created = true; decision = decision }, write py i p receipt s)

-- `reserve`
unfoldable pub reserve : Runtime → PaymentIntent → PaymentPolicy → Method PaymentReservation
reserve py i p s = elim (lookup i.idempotency_key s.records) [
  | some e ↦ replayed py i p e s
  | none ↦ reserve_new py i p s
]
