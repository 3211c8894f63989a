-- ===== src/Contracts/Receipt.antt =====
-- apps/api/autonomerce/contracts.py: `PaymentReceipt` and the checks of its `__post_init__`, which
-- `dataclasses.replace` runs again on every change.
use Prim.Native.Char.{code}
use Prim.Native.String.{[], ◌∷◌}
use autonomerce.Prelude.{
  ℕ, zero, suc, String, Bool, true, false, not, ◌&&◌, ◌||◌, ltb, leb, if◌then◌else◌, ◌==◌,
  string_eq, nat_eq, Option, none, some, ◌≡◌, arith,
}
use autonomerce.Prelude.Text.{Runtime, strip, len, without, truthy}
use autonomerce.Prelude.Results.{Result, ok, err, ◌>>=◌, ◌>>◌, raise_if}
use autonomerce.Contracts.{PaymentState, confirmed, payment_state_eq}

-- the reasons for which `__post_init__` raises a `ContractError`
pub data ContractError : Type 0 where
  identity_required invalid_token invalid_asset invalid_base_wallet hash_required : ContractError

pub record PaymentReceipt : Type 0 where
  pub payment_id : String
  pub proposal_id : String
  pub idempotency_key : String
  pub state : PaymentState
  pub amount_usdc : ℕ
  pub chain : String
  pub payer_wallet : String
  pub payee_wallet : String
  pub transaction_hash : Option String
  pub explorer_url : Option String
  pub confirmed_at : Option String
  pub token : String
  pub asset : Option String

-- `[a-fA-F0-9]`
unfoldable pub is_hex : ℕ → Bool
is_hex c = (leb 48 c && leb c 57) || (leb 65 c && leb c 70) || (leb 97 c && leb c 102)

-- `n` characters of one class and nothing else
unfoldable pub repeated : (ℕ → Bool) → ℕ → String → Bool
repeated class zero [] = true
repeated class zero (c ∷ s) = false
repeated class (suc n) [] = false
repeated class (suc n) (c ∷ s) = class (code c) && repeated class n s

-- `^0x[a-fA-F0-9]{n}$` on a full match
unfoldable pub hex_literal : ℕ → String → Bool
unfolding repeated is_hex
hex_literal n (z ∷ x ∷ s) = code z == b'0' && code x == b'x' && repeated is_hex n s
hex_literal n s = false

-- `not token or len(token) > 32 or not token.replace("-", "").isalnum()`
unfoldable pub bad_token : Runtime → String → Bool
unfolding len without
bad_token py token = token == "" || ltb 32 (len token) || not (py.isalnum (without b'-' token))

-- the asset of the receipt, as `__post_init__` rewrites it
unfoldable pub receipt_asset :
    Runtime → String → Option String → Result ContractError (Option String)
unfolding strip hex_literal
receipt_asset py token none = ok none
receipt_asset py token (some raw) =
    let asset = strip raw in
    if raw == ""
    then ok none
    else if asset == ""
    then ok (some asset)
    else if py.upper asset == token
    then ok (some token)
    else if hex_literal 40 asset
    then ok (some (py.lower asset))
    else err invalid_asset

-- `if wallet and not _HEX_ADDRESS.fullmatch(wallet)`
unfoldable pub bad_wallet : String → Bool
unfolding hex_literal
bad_wallet wallet = not (wallet == "") && not (hex_literal 40 wallet)

-- `PaymentReceipt.__post_init__`
unfoldable pub make_receipt : Runtime → PaymentReceipt → Result ContractError PaymentReceipt
make_receipt py r = do
  raise_if (r.payment_id == "" || r.proposal_id == "" || r.idempotency_key == "") identity_required
  let token = py.upper (strip r.token)
  raise_if (bad_token py token) invalid_token
  asset ← receipt_asset py token r.asset
  raise_if (py.upper r.chain == "BASE" && (bad_wallet r.payer_wallet || bad_wallet r.payee_wallet))
      invalid_base_wallet
  raise_if (r.state == confirmed && not (truthy r.transaction_hash)) hash_required
  ok (record r { token = token; asset = asset })

-- What a receipt that was made keeps of what it was made from.
pub record Makes (r made : PaymentReceipt) : Type 0 where
  pub payment_id : made.payment_id ≡ r.payment_id
  pub proposal_id : made.proposal_id ≡ r.proposal_id
  pub idempotency_key : made.idempotency_key ≡ r.idempotency_key
  pub state : made.state ≡ r.state
  pub amount_usdc : made.amount_usdc ≡ r.amount_usdc
  pub transaction_hash : made.transaction_hash ≡ r.transaction_hash
  pub evidence : made.state ≡ confirmed → truthy made.transaction_hash ≡ true

pub make_receipt_lem :
    (py : Runtime) (r made : PaymentReceipt) → make_receipt py r ≡ ok made → Makes r made
unfolding make_receipt
make_receipt_lem py r made h = ground arith
