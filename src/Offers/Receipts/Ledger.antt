-- ===== src/Offers/Receipts/Ledger.antt =====
-- packages/offerrail/receipts.py: `CommercialReceipt` and `CommercialReceiptLedger`. The lock makes
-- each method one step, and a method that raises has changed nothing.
use Prim.Native.Char.{code}
use Prim.Native.String.{[] as nil, ◌∷◌ as cons, ◌++◌}
use autonomerce.Prelude.{
  ℕ, suc, ◌+◌, String, Bool, true, false, not, ◌&&◌, ◌||◌, ltb, leb, ◌==◌, string_eq, nat_eq,
  option_eq, Eq, Option, none, some, List, [], ◌∷◌, ◌++◌ as ◌+++◌, length, get_last?,
}
use autonomerce.Prelude.Text.{Runtime, strip, len}
use autonomerce.Prelude.Dict.{Dict, lookup, insert}
use autonomerce.Prelude.Results.{Result, ok, err, ◌>>=◌, ◌>>◌, raise_if}
use autonomerce.Contracts.{stable_id}
use autonomerce.Contracts.Receipt.{repeated}
use autonomerce.Contracts.Money.{whole_text}
use autonomerce.Contracts.Offers.{OfferError}
use autonomerce.Payments.Models.Intent.{is_lower_hex}
use autonomerce.Offers.Time.{Time, canonical_timestamp}
use autonomerce.Offers.Hosts.{starts_with, drop}
use autonomerce.Offers.Receipts.{
  Json, null, boolean, number, text, object, Fields, no_field, field, Codec, redact, redact_fields,
  Json-discrete,
}

-- `ContractError` from a time stamp, `ReceiptError`, and `ReceiptConflict`
pub data ReceiptError : Type 0 where
  contract : OfferError → ReceiptError
  invalid : String → ReceiptError
  conflict : ReceiptError

-- the schema of a receipt is one constant, which `receipt_body` writes; a payload is a mapping
pub record CommercialReceipt : Type 0 where
  pub receipt_id : String
  pub sequence : ℕ
  pub event_type : String
  pub occurred_at : String
  pub proposal_id : String
  pub payload : Fields
  pub previous_hash : Option String
  pub receipt_hash : String
  pub idempotency_key : Option String
  pub customer_prompt_consented : Bool

-- `[a-z0-9_.-]`
unfoldable pub is_event_character : ℕ → Bool
is_event_character c =
    (leb 97 c && leb c 122) || (leb 48 c && leb c 57) || c == b'_' || c == b'.' || c == b'-'

unfoldable pub event_characters : String → Bool
unfolding is_event_character
event_characters nil = true
event_characters (cons c s) = is_event_character (code c) && event_characters s

-- `_EVENT_TYPE.fullmatch`
unfoldable pub is_event_type : String → Bool
unfolding event_characters len
is_event_type nil = false
is_event_type (cons c s) =
    leb 97 (code c) && leb (code c) 122 && leb 1 (len s) && leb (len s) 63 && event_characters s

-- `re.fullmatch(r"sha256:[a-f0-9]{64}", value)`
unfoldable pub is_hash : String → Bool
unfolding starts_with drop repeated is_lower_hex
is_hash value = starts_with "sha256:" value && repeated is_lower_hex 64 (drop 7 value)

unfoldable pub bad_previous : Option String → Bool
unfolding is_hash
bad_previous none = false
bad_previous (some hash) = not (is_hash hash)

instance abbrev pub json_eq : Eq Json
json_eq = record { discrete = Json-discrete }

abbrev pub timed : {A : Type 0} → Result OfferError A → Result ReceiptError A
timed (ok a) = ok a
timed (err e) = err (contract e)

-- `CommercialReceipt.__post_init__`
unfoldable pub make_receipt :
    Runtime → Codec → CommercialReceipt → Result ReceiptError CommercialReceipt
unfolding is_event_type is_hash bad_previous redact
make_receipt py c r = do
  raise_if (r.receipt_id == "" || ltb r.sequence 1)
      (invalid "receipt identity and positive sequence are required")
  raise_if (not (is_event_type r.event_type)) (invalid "invalid commercial receipt event type")
  at ← timed (canonical_timestamp py (Time.text r.occurred_at))
  raise_if (r.proposal_id == "") (invalid "proposal_id is required")
  raise_if (not (redact py c r.customer_prompt_consented (object r.payload) == object r.payload))
      (invalid "commercial receipt payload is not safely redacted")
  raise_if (bad_previous r.previous_hash) (invalid "invalid previous receipt hash")
  raise_if (not (is_hash r.receipt_hash)) (invalid "invalid receipt hash")
  ok r

-- an optional text of a JSON object
abbrev pub optional : Option String → Json
optional none = null
optional (some s) = text s

-- the decimal text of a number, and of the number in an identifier
unfoldable pub decimal : ℕ → String
unfolding whole_text
decimal n = whole_text (suc n) n

-- `_receipt_body`, with the keys in the order in which they are written
abbrev pub receipt_body : CommercialReceipt → Json
receipt_body r = object (
    field "customerPromptConsented" (boolean r.customer_prompt_consented) (
      field "eventType" (text r.event_type) (
        field "idempotencyKey" (optional r.idempotency_key) (
          field "occurredAt" (text r.occurred_at) (
            field "payload" (object r.payload) (
              field "previousHash" (optional r.previous_hash) (
                field "proposalId" (text r.proposal_id) (
                  field "schema" (text "offerrail.commercial_receipt.v1")
                    (field "sequence" (number (decimal r.sequence)) no_field)))))))))

-- `f"sha256:{sha256_text(value)}"`
abbrev pub hash_of : Runtime → Codec → Json → String
hash_of py c value = "sha256:" ++ py.sha256_hex (c.dumps value)

-- what a request to append means, which the key must keep
abbrev pub intent : String → String → Fields → Json
intent event proposal payload = object (
    field "eventType" (text event)
      (field "payload" (object payload) (field "proposalId" (text proposal) no_field)))

-- `_records` and `_by_idempotency_key`
pub record Ledger : Type 0 where
  pub records : List CommercialReceipt
  pub by_key : Dict (String × CommercialReceipt)

abbrev pub empty_ledger : Ledger
empty_ledger = record { records = []; by_key = [] }

-- the arguments of `append`; the caller's clock stands in `occurred_at` when it gives no time
pub record Entry : Type 0 where
  pub event_type : String
  pub proposal_id : String
  pub payload : Fields
  pub occurred_at : Time
  pub idempotency_key : Option String
  pub allow_customer_prompt : Bool

-- the hash of the last record
abbrev pub last_hash : List CommercialReceipt → Option String
last_hash rs = elim (get_last? rs) [ none ↦ none | some r ↦ some r.receipt_hash ]

-- the receipt of a new record, with its hash and its identifier
unfoldable pub drafted :
    Runtime
    → Codec
    → ℕ
    → Option String
    → String
    → String
    → Fields
    → String
    → Option String
    → Bool
    → CommercialReceipt
drafted py c sequence previous event proposal payload at key consent =
    let base : CommercialReceipt = record {
      receipt_id = "";
      sequence = sequence;
      event_type = event;
      occurred_at = at;
      proposal_id = proposal;
      payload = payload;
      previous_hash = previous;
      receipt_hash = "";
      idempotency_key = key;
      customer_prompt_consented = consent;
    } in
    let hash = hash_of py c (receipt_body base) in
    record base {
      receipt_id = stable_id py "receipt" (proposal ∷ decimal sequence ∷ hash ∷ []);
      receipt_hash = hash;
    }

-- the table of keys after a new record
abbrev pub remember :
    Option String
    → String
    → CommercialReceipt
    → Dict (String × CommercialReceipt)
    → Dict (String × CommercialReceipt)
remember none intent_hash r d = d
remember (some key) intent_hash r d = insert key (intent_hash, r) d

abbrev pub recorded : Option String → Ledger → Option (String × CommercialReceipt)
recorded none l = none
recorded (some key) l = lookup key l.by_key

-- the part of `append` under the lock
unfoldable pub write :
    Runtime
    → Codec
    → String
    → String
    → Fields
    → String
    → Option String
    → Bool
    → Option (String × CommercialReceipt)
    → Ledger
    → Result ReceiptError (CommercialReceipt × Ledger)
unfolding make_receipt drafted insert
write py c event proposal payload at key consent (some found) l = do
  raise_if (not (found.0 == hash_of py c (intent event proposal payload))) conflict
  ok (found.1, l)
write py c event proposal payload at key consent none l = do
  receipt ← make_receipt py c (
      drafted py c (length l.records + 1) (last_hash l.records) event proposal payload at key
        consent)
  ok (
    receipt,
    record {
      records = l.records +++ (receipt ∷ []);
      by_key = remember key (hash_of py c (intent event proposal payload)) receipt l.by_key;
    },
  )

unfoldable pub selected_key : Option String → Result ReceiptError (Option String)
unfolding strip
selected_key none = ok none
selected_key (some key) = do
  raise_if (strip key == "") (invalid "idempotency_key cannot be empty")
  ok (some (strip key))

-- `CommercialReceiptLedger.append`
unfoldable pub append :
    Runtime → Codec → Entry → Ledger → Result ReceiptError (CommercialReceipt × Ledger)
unfolding write selected_key strip is_event_type redact_fields lookup
append py c e l = do
  let event = py.lower (strip e.event_type)
  let proposal = strip e.proposal_id
  raise_if (not (is_event_type event)) (invalid "invalid commercial receipt event type")
  raise_if (proposal == "") (invalid "proposal_id is required")
  at ← timed (canonical_timestamp py e.occurred_at)
  key ← selected_key e.idempotency_key
  let payload = redact_fields py c e.allow_customer_prompt e.payload
  write py c event proposal payload at key e.allow_customer_prompt (recorded key l) l

-- the body of the loop of `verify`, from a sequence number and the hash before it
unfoldable pub verify_from : Runtime → Codec → ℕ → Option String → List CommercialReceipt → Bool
verify_from py c n previous [] = true
verify_from py c n previous (r ∷ rs) =
    let hash = hash_of py c (receipt_body r) in
    let id = stable_id py "receipt" (r.proposal_id ∷ decimal r.sequence ∷ hash ∷ []) in
    r.sequence == n
    && r.previous_hash == previous
    && r.receipt_hash == hash
    && r.receipt_id == id
    && verify_from py c (n + 1) (some r.receipt_hash) rs

-- `CommercialReceiptLedger.verify`
abbrev pub verify : Runtime → Codec → Ledger → Bool
verify py c l = verify_from py c 1 none l.records

-- a caller's requests, one after another, the refused ones among them
unfoldable pub append_all : Runtime → Codec → List Entry → Ledger → Ledger
unfolding append
append_all py c [] l = l
append_all py c (e ∷ es) l =
    append_all py c es (elim (append py c e l) [ ok made ↦ made.1 | err _ ↦ l ])
