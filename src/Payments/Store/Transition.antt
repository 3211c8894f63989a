-- ===== src/Payments/Store/Transition.antt =====
-- apps/api/autonomerce/payments/store.py: `transition`.
use autonomerce.Prelude.{String, ◌&&◌, if◌then◌else◌, string_eq, Option}
use autonomerce.Prelude.Text.{Runtime, truthy}
use autonomerce.Prelude.Dict.{Dict, lookup, insert}
use autonomerce.Prelude.Results.{ok, ◌>>=◌, ◌>>◌, raise_if, or_raise}
use autonomerce.Contracts.{PaymentState}
use autonomerce.Contracts.Receipt.{PaymentReceipt, make_receipt}
use autonomerce.Payments.Errors.{validation, replay, unknown_reservation, hash_bound}
use autonomerce.Payments.Models.Names.{get_or}
use autonomerce.Payments.Store.{Entry, Method}
use autonomerce.Payments.Store.Values.{check_transition, check_idempotent_transition}
use autonomerce.Payments.Store.Reserve.{as_contract, taken}

-- `a or b` on optional texts
abbrev pub or_else : Option String → Option String → Option String
or_else a b = if truthy a then a else b

-- `self._transaction_hashes[hash.lower()] = key`, if there is a hash
abbrev pub bind_hash : Runtime → Option String → String → Dict String → Dict String
bind_hash py hash key hashes =
    if truthy hash then insert (py.lower (get_or hash "")) key hashes else hashes

-- the new receipt, before its checks
abbrev pub advanced :
    PaymentReceipt → PaymentState → Option String → Option String → Option String → PaymentReceipt
advanced old target hash url at = record old {
  state = target;
  transaction_hash = or_else hash old.transaction_hash;
  explorer_url = or_else url old.explorer_url;
  confirmed_at = or_else at old.confirmed_at;
}

-- the branch that changes the state
unfoldable pub advance :
    Runtime
    → String
    → Entry
    → PaymentState
    → Option String
    → Option String
    → Option String
    → Method PaymentReceipt
advance py key e target hash url at s = do
  check_transition e.receipt target
  raise_if (truthy hash && taken (lookup (py.lower (get_or hash "")) s.transaction_hashes) key)
      (replay hash_bound)
  updated ← as_contract (make_receipt py (advanced e.receipt target hash url at))
  ok (
    updated,
    record s {
      records = insert key (record e { receipt = updated }) s.records;
      transaction_hashes = bind_hash py updated.transaction_hash key s.transaction_hashes;
    },
  )

-- `transition`
unfoldable pub transition :
    Runtime
    → String
    → PaymentState
    → Option String
    → Option String
    → Option String
    → Method PaymentReceipt
transition py key target hash url at s = do
  e ← or_raise (lookup key s.records) (validation unknown_reservation)
  same ← check_idempotent_transition py e.receipt target hash url at
  (if same then ok (e.receipt, s) else advance py key e target hash url at s)
