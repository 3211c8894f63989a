-- ===== src/Payments/Models/Intent.antt =====
-- apps/api/autonomerce/payments/models.py: how a `PaymentIntent` is made, and what identifies it.
use autonomerce.Prelude.{
  ℕ, String, Bool, not, ◌&&◌, ◌||◌, leb, if◌then◌else◌, ◌==◌, string_eq, nat_eq, Option, none, some,
  [], ◌∷◌,
}
use autonomerce.Prelude.Text.{Runtime, strip, truthy}
use autonomerce.Prelude.Dict.{lookup}
use autonomerce.Prelude.Results.{Result, ok, err, ◌>>=◌, ◌>>◌, raise_if}
use autonomerce.Contracts.{
  ProposalState, draft, offered, countered, accepted, declined, expired, paid, fulfilling,
  delivered, failed, stable_id,
}
use autonomerce.Contracts.Receipt.{repeated, bad_token}
use autonomerce.Contracts.Money.{usdc_text}
use autonomerce.Payments.Errors.{
  PaymentError, validation, proposal_id, amount, scheme, fingerprint, resource_url,
}
use autonomerce.Payments.Models.{PaymentIntent}
use autonomerce.Payments.Models.Names.{
  canonical_chain, normalize_wallet_address, normalize_idempotency_key, normalize_token,
  normalize_asset_contract, known_usdc_assets, get_or,
}

-- the arguments of the constructor; amounts are behind `usdc`
pub record RawIntent : Type 0 where
  pub proposal_id : String
  pub idempotency_key : String
  pub amount_usdc : ℕ
  pub chain : String
  pub token : String
  pub payer_wallet : String
  pub payee_wallet : String
  pub proposal_state : ProposalState
  pub expected_amount_usdc : Option ℕ
  pub asset : Option String
  pub scheme : String
  pub x402_requirement_id : Option String
  pub x402_requirement_fingerprint : Option String
  pub resource_url : Option String

-- `normalize_idempotency_key(value) if value is not None else None`
unfoldable pub requirement_id : Option String → Result PaymentError (Option String)
unfolding normalize_idempotency_key
requirement_id none = ok none
requirement_id (some value) = do key ← normalize_idempotency_key value; ok (some key)

-- `[a-f0-9]`
unfoldable pub is_lower_hex : ℕ → Bool
is_lower_hex c = (leb 48 c && leb c 57) || (leb 97 c && leb c 102)

-- the check of `x402_requirement_fingerprint`, on the lowered text
unfoldable pub requirement_fingerprint :
    Runtime → Option String → Result PaymentError (Option String)
unfolding strip repeated is_lower_hex
requirement_fingerprint py none = ok none
requirement_fingerprint py (some value) = do
  let text = py.lower (strip value)
  raise_if (not (repeated is_lower_hex 64 text)) (validation fingerprint)
  ok (some text)

-- the check of `resource_url`
unfoldable pub checked_url : Runtime → Option String → Result PaymentError (Option String)
unfolding strip
checked_url py none = ok none
checked_url py (some value) =
    let url = strip value in
    if value == "" then ok none else if url == "" then ok (some url) else (elim (py.url_split url) [
      | none ↦ err (validation resource_url)
      | some parsed ↦ do
        raise_if
            (not (parsed.scheme == "https" || parsed.scheme == "http")
              || not (truthy parsed.hostname))
            (validation resource_url)
        raise_if (truthy parsed.username || truthy parsed.password) (validation resource_url)
        ok (some url)
    ])

-- the asset that an intent on a known chain is bound to when none was given
unfoldable pub default_asset : Option String → String → String → Option String
unfolding lookup
default_asset (some asset) chain token = some asset
default_asset none chain token =
    if token == "USDC"
    then (elim (get_or (lookup chain known_usdc_assets) []) [ [] ↦ none | a ∷ rest ↦ some a ])
    else none

-- `PaymentIntent.__post_init__`
unfoldable pub make_intent : Runtime → RawIntent → Result PaymentError PaymentIntent
make_intent py raw = do
  raise_if (strip raw.proposal_id == "") (validation proposal_id)
  raise_if (raw.amount_usdc == 0) (validation amount)
  chain ← canonical_chain py raw.chain
  token ← normalize_token py raw.token
  payer ← normalize_wallet_address py raw.payer_wallet chain
  payee ← normalize_wallet_address py raw.payee_wallet chain
  let scheme_name = py.lower (strip raw.scheme)
  raise_if (bad_token py scheme_name) (validation scheme)
  requirement ← requirement_id raw.x402_requirement_id
  print ← requirement_fingerprint py raw.x402_requirement_fingerprint
  url ← checked_url py raw.resource_url
  key ← normalize_idempotency_key raw.idempotency_key
  asset ← normalize_asset_contract py raw.asset chain token
  ok (record {
    proposal_id = raw.proposal_id;
    idempotency_key = key;
    amount_usdc = raw.amount_usdc;
    chain = chain;
    token = token;
    payer_wallet = payer;
    payee_wallet = payee;
    proposal_state = raw.proposal_state;
    expected_amount_usdc = get_or raw.expected_amount_usdc raw.amount_usdc;
    asset = default_asset asset chain token;
    scheme = scheme_name;
    x402_requirement_id = requirement;
    x402_requirement_fingerprint = print;
    resource_url = url;
  })

-- `ProposalState.value`
abbrev pub state_value : ProposalState → String
state_value draft = "draft"
state_value offered = "offered"
state_value countered = "countered"
state_value accepted = "accepted"
state_value declined = "declined"
state_value expired = "expired"
state_value paid = "paid"
state_value fulfilling = "fulfilling"
state_value delivered = "delivered"
state_value failed = "failed"

-- `PaymentIntent.fingerprint`
unfoldable pub intent_fingerprint : Runtime → PaymentIntent → String
intent_fingerprint py i = py.sha256_hex (
    py.dumps_object (
      ("proposalId", some i.proposal_id)
      ∷ ("amountUsdc", some (usdc_text i.amount_usdc))
      ∷ ("expectedAmountUsdc", some (usdc_text i.expected_amount_usdc))
      ∷ ("proposalState", some (state_value i.proposal_state))
      ∷ ("chain", some i.chain)
      ∷ ("token", some i.token)
      ∷ ("asset", if truthy i.asset then some (py.lower (get_or i.asset "")) else none)
      ∷ ("payerWallet", some (py.lower i.payer_wallet))
      ∷ ("payeeWallet", some (py.lower i.payee_wallet))
      ∷ ("scheme", some i.scheme)
      ∷ ("x402RequirementId", i.x402_requirement_id)
      ∷ ("x402RequirementFingerprint", i.x402_requirement_fingerprint)
      ∷ ("resourceUrl", i.resource_url)
      ∷ []))

-- `PaymentIntent.payment_id`
unfoldable pub payment_id : Runtime → PaymentIntent → String
unfolding stable_id
payment_id py i = stable_id py "payment" (i.idempotency_key ∷ intent_fingerprint py i ∷ [])
