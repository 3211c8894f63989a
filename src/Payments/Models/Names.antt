-- ===== src/Payments/Models/Names.antt =====
-- apps/api/autonomerce/payments/models.py: the normalizers of chains, wallets, hashes and keys.
use Prim.Native.Char.{Char, code}
use Prim.Native.String.{[] as nil, ◌∷◌ as cons}
use autonomerce.Prelude.{
  ℕ, String, Bool, true, false, not, ◌&&◌, ◌||◌, leb, if◌then◌else◌, ◌==◌, string_eq, nat_eq,
  Option, none, some, List, [], ◌∷◌,
}
use autonomerce.Prelude.Text.{Runtime, strip, len}
use autonomerce.Prelude.Dict.{Dict, lookup}
use autonomerce.Prelude.Results.{Result, ok, ◌>>=◌, ◌>>◌, raise_if}
use autonomerce.Contracts.Receipt.{hex_literal, bad_token}
use autonomerce.Payments.Errors.{
  PaymentError, validation, chain_identifier, wallet_family, wallet_address, transaction_hash,
  idempotency_key, token,
}

abbrev dash : Char
dash = "-"

-- `text.replace("_", "-")`
unfoldable pub dashes : String → String
dashes nil = ""
dashes (cons c s) = cons (if code c == b'_' then dash else c) (dashes s)

abbrev pub chain_aliases : Dict String
chain_aliases =
    ("BASE", "BASE")
    ∷ ("BASE-MAINNET", "BASE")
    ∷ ("BASE-SEPOLIA", "BASE-SEPOLIA")
    ∷ ("ARC-TESTNET", "ARC-TESTNET")
    ∷ ("EIP155:8453", "BASE")
    ∷ ("EIP155:84532", "BASE-SEPOLIA")
    ∷ []

abbrev pub known_usdc_assets : Dict (List String)
known_usdc_assets =
    ("BASE", "0x833589fcd6edb6e08f4c7c32d4f71b54bda02913" ∷ [])
    ∷ ("BASE-SEPOLIA", "0x036cbd53842c5426634e7929541ec2318f3dcf7e" ∷ [])
    ∷ ("ARC-TESTNET", "0x3600000000000000000000000000000000000000" ∷ [])
    ∷ []

-- `d.get(k, default)`
abbrev pub get_or {ℓ} : {A : Type ℓ} → Option A → A → A
get_or none a = a
get_or (some b) a = b

-- `[A-Z0-9]`
unfoldable pub is_chain_head : ℕ → Bool
is_chain_head c = (leb 65 c && leb c 90) || (leb 48 c && leb c 57)

-- every character in `[A-Z0-9:-]`
unfoldable pub chain_tail : String → Bool
unfolding is_chain_head
chain_tail nil = true
chain_tail (cons c s) = (is_chain_head (code c) || code c == b':' || code c == b'-') && chain_tail s

-- `_SAFE_CHAIN.fullmatch`
unfoldable pub safe_chain : String → Bool
unfolding chain_tail len
safe_chain nil = false
safe_chain (cons c s) = is_chain_head (code c) && leb 1 (len s) && leb (len s) 63 && chain_tail s

unfoldable pub canonical_chain : Runtime → String → Result PaymentError String
unfolding dashes strip lookup safe_chain
canonical_chain py value = do
  let spelled = dashes (py.upper (strip value))
  let chain = get_or (lookup spelled chain_aliases) spelled
  raise_if (not (safe_chain chain)) (validation chain_identifier)
  ok chain

-- `text.endswith(suffix)`
unfoldable pub ends_with : String → String → Bool
ends_with suffix nil = suffix == ""
ends_with suffix (cons c s) = cons c s == suffix || ends_with suffix s

unfoldable pub is_testnet_chain : Runtime → String → Result PaymentError Bool
unfolding canonical_chain ends_with
is_testnet_chain py chain = do
  normalized ← canonical_chain py chain
  ok (ends_with "-TESTNET" normalized || ends_with "-SEPOLIA" normalized)

unfoldable pub is_mainnet_chain : Runtime → String → Result PaymentError Bool
unfolding is_testnet_chain
is_mainnet_chain py chain = do testnet ← is_testnet_chain py chain; ok (not testnet)

unfoldable pub normalize_wallet_address : Runtime → String → String → Result PaymentError String
unfolding canonical_chain strip hex_literal
normalize_wallet_address py value chain = do
  normalized ← canonical_chain py chain
  raise_if
      (not (normalized == "BASE" || normalized == "BASE-SEPOLIA" || normalized == "ARC-TESTNET"))
      (validation wallet_family)
  let wallet = strip value
  raise_if
      (not (hex_literal 40 wallet)
        || py.lower wallet == "0x0000000000000000000000000000000000000000")
      (validation wallet_address)
  ok wallet

unfoldable pub normalize_transaction_hash : Runtime → String → Result PaymentError String
unfolding strip hex_literal
normalize_transaction_hash py value = do
  let hash = strip value
  raise_if
      (not (hex_literal 64 hash)
        || py.lower hash == "0x0000000000000000000000000000000000000000000000000000000000000000")
      (validation transaction_hash)
  ok hash

-- every character in `[\x21-\x7e]`
unfoldable pub visible : String → Bool
visible nil = true
visible (cons c s) = leb 0x21 (code c) && leb (code c) 0x7e && visible s

unfoldable pub normalize_idempotency_key : String → Result PaymentError String
unfolding strip
normalize_idempotency_key value = do
  let key = strip value
  raise_if (not (leb 1 (len key) && leb (len key) 128 && visible key)) (validation idempotency_key)
  ok key

unfoldable pub normalize_token : Runtime → String → Result PaymentError String
unfolding strip bad_token
normalize_token py value = do
  let name = py.upper (strip value)
  raise_if (bad_token py name) (validation token)
  ok name

unfoldable pub normalize_asset_contract :
    Runtime → Option String → String → String → Result PaymentError (Option String)
unfolding strip normalize_token normalize_wallet_address
normalize_asset_contract py none chain token_name = ok none
normalize_asset_contract py (some value) chain token_name =
    let asset = strip value in
    if asset == "" then ok none else do
      normalized ← normalize_token py token_name
      (if py.upper asset == normalized
          then ok (some normalized)
          else do wallet ← normalize_wallet_address py asset chain; ok (some (py.lower wallet)))

-- `text.rstrip(".")`
unfoldable pub strip_dots : String → String
strip_dots nil = ""
strip_dots (cons c s) =
    let rest = strip_dots s in if code c == b'.' && rest == "" then "" else cons c rest

-- `resource_host`, which gives `none` wherever the parser raises
unfoldable pub resource_host : Runtime → Option String → Option String
unfolding strip_dots
resource_host py none = none
resource_host py (some url) = if url == "" then none else (elim (py.url_split url) [
  | none ↦ none
  | some parsed ↦ elim parsed.hostname [
    | none ↦ none
    | some host ↦ some (strip_dots (py.lower host))
  ]
])
