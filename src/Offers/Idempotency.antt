-- ===== src/Offers/Idempotency.antt =====
-- packages/offerrail/idempotency.py: `IdempotencyStore`. A request or a response is its canonical
-- JSON text, which is what the store compares and copies. The lock makes each method one step.
pub mod Writes
pub mod Once
pub mod Answers
use Prim.Native.String.{◌++◌}
use autonomerce.Prelude.{
  ℕ, String, Bool, true, false, not, ◌&&◌, ◌||◌, ltb, if◌then◌else◌, ◌==◌, string_eq, option_eq,
  Option, none, some, List, [], ◌∷◌,
}
use autonomerce.Prelude.Text.{Runtime, strip, len}
use autonomerce.Prelude.Dict.{Dict, lookup, insert}
use autonomerce.Prelude.Results.{Result, ok, err, ◌>>=◌, ◌>>◌, raise_if, or_raise}
use autonomerce.Payments.Models.Names.{get_or}

pub data IdempotencyStatus : Type 0 where
  pending succeeded failed : IdempotencyStatus

pub record IdempotencyRecord : Type 0 where
  pub key : String
  pub request_fingerprint : String
  pub status : IdempotencyStatus
  pub response : Option String
  pub response_fingerprint : Option String
  pub error_code : Option String

pub record IdempotencyReservation : Type 0 where
  pub acquired : Bool
  pub record_found : IdempotencyRecord

-- `ContractError`, the errors of the module, and the exception of an operation
pub data IdempotencyError : Type 0 where
  contract : String → IdempotencyError
  not_reserved conflict in_progress : IdempotencyError
  blocked : Option String → IdempotencyError
  operation_raised : IdempotencyError

abbrev pub Registry : Type 0
Registry = Dict IdempotencyRecord

abbrev pub Method : Type 0 → Type 0
Method A = Registry → Result IdempotencyError (A × Registry)

-- `request_fingerprint`
abbrev pub request_fingerprint : Runtime → String → String
request_fingerprint py request = "sha256:" ++ py.sha256_hex request

-- `_key`
unfoldable pub key_of : String → Result IdempotencyError String
unfolding strip len
key_of value = do
  let key = strip value
  raise_if (key == "" || ltb 256 (len key))
      (contract "idempotency key must contain 1 to 256 characters")
  ok key

-- the record of a new reservation
abbrev pub new_record : Runtime → String → String → IdempotencyRecord
new_record py key request = record {
  key = key;
  request_fingerprint = request_fingerprint py request;
  status = pending;
  response = none;
  response_fingerprint = none;
  error_code = none;
}

-- a reservation under a normalized key
unfoldable pub reserve_at :
    Runtime → String → String → Option IdempotencyRecord → Method IdempotencyReservation
reserve_at py key request (some existing) s = do
  raise_if (not (existing.request_fingerprint == request_fingerprint py request)) conflict
  ok (record { acquired = false; record_found = existing }, s)
reserve_at py key request none s =
    let fresh = new_record py key request in
    ok (record { acquired = true; record_found = fresh }, insert key fresh s)

-- `reserve`
unfoldable pub reserve : Runtime → String → String → Method IdempotencyReservation
reserve py key request s = do
  selected ← key_of key
  reserve_at py selected request (lookup selected s) s

-- the record that a request was reserved with
unfoldable pub reserved_for :
    Runtime → String → String → Registry → Result IdempotencyError IdempotencyRecord
reserved_for py key request s = do
  existing ← or_raise (lookup key s) not_reserved
  raise_if (not (existing.request_fingerprint == request_fingerprint py request)) conflict
  ok existing

-- the end of `complete`, by the status of the record
unfoldable pub complete_record :
    Runtime → String → String → IdempotencyRecord → IdempotencyStatus → Method IdempotencyRecord
complete_record py key response existing succeeded s = do
  raise_if (not (existing.response_fingerprint == some (request_fingerprint py response))) conflict
  ok (existing, s)
complete_record py key response existing failed s = err (blocked existing.error_code)
complete_record py key response existing pending s =
    let completed = record existing {
      status = succeeded;
      response = some response;
      response_fingerprint = some (request_fingerprint py response);
    } in
    ok (completed, insert key completed s)

-- `complete`
unfoldable pub complete : Runtime → String → String → String → Method IdempotencyRecord
complete py key request response s = do
  selected ← key_of key
  existing ← reserved_for py selected request s
  complete_record py selected response existing existing.status s

-- the end of `fail`, by the status of the record
unfoldable pub fail_record :
    String → String → IdempotencyRecord → IdempotencyStatus → Method IdempotencyRecord
fail_record key code existing succeeded s = err conflict
fail_record key code existing failed s = do
  raise_if (not (existing.error_code == some code)) conflict
  ok (existing, s)
fail_record key code existing pending s =
    let ended = record existing { status = failed; error_code = some code } in
    ok (ended, insert key ended s)

-- `fail`
unfoldable pub fail : Runtime → String → String → String → Method IdempotencyRecord
fail py key request code s = do
  selected ← key_of key
  raise_if (strip code == "") (contract "error_code is required")
  existing ← reserved_for py selected request s
  fail_record selected (strip code) existing existing.status s

-- `get`
unfoldable pub get : String → Registry → Result IdempotencyError (Option IdempotencyRecord)
get key s = do selected ← key_of key; ok (lookup selected s)

-- how an operation ends: with a value, with one that has no canonical form, or by raising
pub data Outcome : Type 0 where
  returned : String → Outcome
  uncopied raised : Outcome

-- the registry, and the keys under which operations were called, the latest first
pub record World : Type 0 where
  pub records : Registry
  pub calls : List String

-- `self.fail(...)` and `raise`, where an exception of `fail` takes the place of the first one
unfoldable pub fail_and_raise :
    Runtime
    → String
    → String
    → String
    → IdempotencyError
    → World
    → Result IdempotencyError String × World
fail_and_raise py key request code e w = elim (fail py key request code w.records) [
  | ok (r, s) ↦ (err e, record w { records = s })
  | err other ↦ (err other, w)
]

-- what a reservation that was not acquired gives
unfoldable pub replay : IdempotencyRecord → IdempotencyStatus → Result IdempotencyError String
replay r succeeded = ok (get_or r.response "null")
replay r pending = err in_progress
replay r failed = err (blocked r.error_code)

-- `run_once`, from the end of the operation on
unfoldable pub settle :
    Runtime → String → String → String → Outcome → World → Result IdempotencyError String × World
settle py key request code raised w = fail_and_raise py key request code operation_raised w
settle py key request code uncopied w =
    fail_and_raise py key request code (contract "unsupported canonical value type") w
settle py key request code (returned response) w =
    elim (complete py key request response w.records) [
      | ok (completed, s) ↦ (ok (get_or completed.response "null"), record w { records = s })
      | err e ↦ fail_and_raise py key request code e w
    ]

-- `run_once`, from the reservation on
unfoldable pub run_reserved :
    Runtime
    → String
    → String
    → String
    → Outcome
    → IdempotencyReservation
    → World
    → Result IdempotencyError String × World
run_reserved py key request code outcome r w =
    if not r.acquired
    then (replay r.record_found r.record_found.status, w)
    else settle py key request code outcome (record w { calls = r.record_found.key ∷ w.calls })

-- `run_once`
unfoldable pub run_once :
    Runtime → String → String → String → Outcome → World → Result IdempotencyError String × World
run_once py key request code outcome w = elim (reserve py key request w.records) [
  | ok (r, s) ↦ run_reserved py key request code outcome r (record w { records = s })
  | err e ↦ (err e, w)
]
