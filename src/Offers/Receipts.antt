-- ===== src/Offers/Receipts.antt =====
-- packages/offerrail/receipts.py: redaction and `CommercialReceiptLedger`. A payload is the JSON
-- value that `canonical_value` gives, with its keys in order; freezing and cloning keep it.
pub mod Ledger
pub mod Chain
pub mod History
pub mod Tamper
pub mod Retry
pub mod Hidden
pub mod Clean
use Prim.Native.Char.{code}
use Prim.Native.String.{[] as nil, ◌∷◌ as cons, ◌++◌}
use autonomerce.Prelude.{
  ℕ, suc, ◌+◌, String, Bool, true, false, not, ◌&&◌, ◌||◌, ltb, leb, if◌then◌else◌, ◌==◌, string_eq,
  nat_eq, option_eq, String-discrete, Bool-cases, Eq, Option, none, some, List, [], ◌∷◌,
  ◌++◌ as ◌+++◌, length, contains, get_last?,
}
use autonomerce.Prelude.Text.{Runtime, strip, len}
use autonomerce.Prelude.Dict.{Dict, lookup, insert}
use autonomerce.Prelude.Results.{Result, ok, err, ◌>>=◌, ◌>>◌, raise_if, or_raise}
use autonomerce.Contracts.{stable_id}
use autonomerce.Contracts.Receipt.{repeated}
use autonomerce.Contracts.Money.{whole_text}
use autonomerce.Contracts.Offers.{OfferError}
use autonomerce.Payments.Models.Names.{ends_with}
use autonomerce.Payments.Models.Intent.{is_lower_hex}
use autonomerce.Offers.Time.{Time, canonical_timestamp}
use autonomerce.Offers.Hosts.{starts_with, includes, drop}

mutual
  -- a JSON value; a number is its text
  pub data Json : Type 0 where
    null : Json
    boolean : Bool → Json
    number : String → Json
    text : String → Json
    array : Items → Json
    object : Fields → Json

  pub data Items : Type 0 where
    no_item : Items
    item : Json → Items → Items

  pub data Fields : Type 0 where
    no_field : Fields
    field : String → Json → Fields → Fields

-- what the module takes from `re` and `json`: its three substitutions, and `json.dumps`
pub record Codec : Type 0 where
  pub sub_auth : String → String
  pub sub_query : String → String
  pub sub_key : String → String
  pub dumps : Json → String

abbrev redacted : String
redacted = "[REDACTED]"

abbrev secret_keys : List String
secret_keys =
    "apikey" ∷ "authorization" ∷ "authorizationheader" ∷ "authorizationheaders" ∷ "clientsecret"
    ∷ "credential" ∷ "credentials" ∷ "googleapplicationcredentials" ∷ "googlecredentials"
    ∷ "mnemonic" ∷ "onetimepassword" ∷ "otp" ∷ "password" ∷ "privatekey" ∷ "recoverycode"
    ∷ "recoverymaterial" ∷ "refreshtoken" ∷ "seedphrase" ∷ "secret" ∷ "sessiontoken" ∷ "token"
    ∷ "idtoken" ∷ []

abbrev private_identity_keys : List String
private_identity_keys =
    "buyeragenturl" ∷ "buyeremail" ∷ "buyerid" ∷ "buyeridentity" ∷ "buyername" ∷ "customeremail"
    ∷ "customerid" ∷ "customeridentity" ∷ "customername" ∷ "email" ∷ []

abbrev prompt_keys : List String
prompt_keys =
    "buyerprompt" ∷ "customerprompt" ∷ "inputpayload" ∷ "prompt" ∷ "rawprompt" ∷ "userprompt" ∷ []

-- the characters of a text for which `isalnum` holds
unfoldable pub keep_alnum : Runtime → String → String
keep_alnum py nil = ""
keep_alnum py (cons c s) =
    let rest = keep_alnum py s in if py.isalnum (cons c "") then cons c rest else rest

-- `_normalized_key`
abbrev pub normalized_key : Runtime → String → String
normalized_key py value = keep_alnum py (py.lower value)

-- `_redact_string`
unfoldable pub redact_string : Codec → String → String
unfolding includes
redact_string c value =
    if includes "-----BEGIN" value && includes "PRIVATE KEY-----" value
    then redacted
    else c.sub_key (c.sub_query (c.sub_auth value))

-- a key whose value is replaced
unfoldable pub is_hidden : Runtime → Bool → String → Bool
unfolding keep_alnum ends_with
is_hidden py allow_prompt key =
    let name = normalized_key py key in
    contains name secret_keys
    || ends_with "accesstoken" name
    || ends_with "sessiontoken" name
    || contains name private_identity_keys
    || (contains name prompt_keys && not allow_prompt)

module _ (py : Runtime) (c : Codec) (allow_prompt : Bool) where
  unfoldable mutual
    -- `redact_commercial_data`
    pub redact : Json → Json
    redact null = null
    redact (boolean b) = boolean b
    redact (number n) = number n
    redact (text s) = text (redact_string c s)
    redact (array items) = array (redact_items items)
    redact (object fields) = object (redact_fields fields)

    pub redact_items : Items → Items
    redact_items no_item = no_item
    redact_items (item j items) = item (redact j) (redact_items items)

    pub redact_fields : Fields → Fields
    redact_fields no_field = no_field
    redact_fields (field k j fields) =
        field k (if is_hidden py allow_prompt k then text redacted else redact j)
          (redact_fields fields)

unfoldable pub Json-discrete : Discrete Json
Json-discrete = hlevel (String-discrete)
