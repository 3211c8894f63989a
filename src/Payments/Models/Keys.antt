-- ===== src/Payments/Models/Keys.antt =====
-- What a `PaymentIntent` that could be made satisfies.
use autonomerce.Prelude.{◌≤◌, String, ◌≡◌, ◌≢◌, refl, ap, true, arith}
use autonomerce.Prelude.Text.{Runtime, len}
use autonomerce.Prelude.Results.{ok}
use autonomerce.Payments.Models.{PaymentIntent}
use autonomerce.Payments.Models.Names.{normalize_idempotency_key, visible}
use autonomerce.Payments.Models.Intent.{RawIntent, make_intent}

normalize_idempotency_key_lem :
    (value key : String)
    → normalize_idempotency_key value ≡ ok key
    → (1 ≤ len key) × (len key ≤ 128) × (visible key ≡ true)
unfolding normalize_idempotency_key
normalize_idempotency_key_lem value key h = ground arith

len_empty : len "" ≡ 0
unfolding len
len_empty = refl

key_non_empty : (value key : String) → normalize_idempotency_key value ≡ ok key → key ≢ ""
key_non_empty value key h p =
    let bounds = normalize_idempotency_key_lem value key h in
    let size = ap len p in omega (arith, bounds.0, size, len_empty)

pub make_intent_key :
    (py : Runtime) (raw : RawIntent) (i : PaymentIntent)
    → make_intent py raw ≡ ok i
    → i.idempotency_key ≢ ""
unfolding make_intent
make_intent_key py raw i h = ground (arith, key_non_empty raw.idempotency_key i.idempotency_key)
