-- ===== src/Tests/Receipts.antt =====
-- Runs of the ledger of commercial receipts.
use autonomerce.Prelude.{
  string_eq, ◌≡◌, refl, false, none, some, [], ◌∷◌, String-discrete, ℕ_discrete,
}
use autonomerce.Prelude.Results.{ok}
use autonomerce.Contracts.{stable_id}
use autonomerce.Offers.Time.{Time, canonical_timestamp}
use autonomerce.Offers.Receipts.{
  field, no_field, text, Codec, redact_string, is_hidden, Json-discrete,
}
use autonomerce.Offers.Receipts.Ledger.{
  Ledger, Entry, CommercialReceipt, empty_ledger, append, append_all, verify_from, drafted,
  selected_key, hash_of,
}
use autonomerce.Offers.Receipts.Chain.{drafted_lem}
use autonomerce.Offers.Receipts.History.{Grown, append_all-Grown}
use autonomerce.Offers.Receipts.Tamper.{last_hash-identifies}
use autonomerce.Offers.Receipts.Retry.{append-again}
use autonomerce.Offers.Receipts.Clean.{AllClean, append_all-AllClean}
use autonomerce.Prelude.Table.{pair_eq}
use autonomerce.Tests.{plain}

abbrev codec : Codec
codec = record { sub_auth = λ s. s; sub_query = λ s. s; sub_key = λ s. s; dumps = λ j. "{}" }

abbrev offer_sent : Entry
offer_sent = record {
  event_type = "proposal.offered";
  proposal_id = "proposal_1";
  payload = field "email" (text "a@b.example") (field "price" (text "2") no_field);
  occurred_at = Time.text "2026-01-01T00:00:00Z";
  idempotency_key = some "offer-1";
  allow_customer_prompt = false;
}

abbrev offer_taken : Entry
offer_taken = record offer_sent {
  event_type = "proposal.accepted";
  idempotency_key = some "offer-2";
}

append_all-Grown_example :
    Grown plain codec empty_ledger
      (append_all plain codec (offer_sent ∷ offer_taken ∷ offer_sent ∷ []) empty_ledger)
unfolding verify_from
append_all-Grown_example =
    append_all-Grown plain codec (offer_sent ∷ offer_taken ∷ offer_sent ∷ []) empty_ledger refl

append_all-AllClean_example :
    AllClean plain codec
      (append_all plain codec (offer_sent ∷ offer_taken ∷ []) empty_ledger).records
append_all-AllClean_example =
    append_all-AllClean plain codec (offer_sent ∷ offer_taken ∷ []) empty_ledger tt

abbrev first_receipt : CommercialReceipt
first_receipt =
    drafted plain codec 1 none "proposal.offered" "proposal_1"
      (field "email" (text "[REDACTED]") (field "price" (text "2") no_field)) "2026-01-01T00:00:00Z"
      (some "offer-1") false

abbrev first_ledger : Ledger
first_ledger = record {
  records = first_receipt ∷ [];
  by_key = ("offer-1", (hash_of plain codec (text ""), first_receipt)) ∷ [];
}

first_append : append plain codec offer_sent empty_ledger ≡ ok (first_receipt, first_ledger)
unfolding append ℕ_discrete String-discrete canonical_timestamp stable_id Json-discrete is_hidden
    redact_string
first_append = refl

first_key : selected_key (some "offer-1") ≡ ok (some "offer-1")
unfolding selected_key String-discrete ℕ_discrete
first_key = refl

append-again_example :
    append plain codec offer_sent (append_all plain codec (offer_taken ∷ []) first_ledger)
    ≡ ok (first_receipt, append_all plain codec (offer_taken ∷ []) first_ledger)
append-again_example =
    append-again plain codec offer_sent empty_ledger first_ledger first_receipt "offer-1"
      (offer_taken ∷ []) first_append first_key

last_hash-identifies_example : first_ledger.records ≡ first_ledger.records
last_hash-identifies_example =
    last_hash-identifies plain codec first_ledger first_ledger
      (drafted_lem plain codec 1 none "proposal.offered" "proposal_1"
        (field "email" (text "[REDACTED]") (field "price" (text "2") no_field))
        "2026-01-01T00:00:00Z" (some "offer-1") false)
      (drafted_lem plain codec 1 none "proposal.offered" "proposal_1"
        (field "email" (text "[REDACTED]") (field "price" (text "2") no_field))
        "2026-01-01T00:00:00Z" (some "offer-1") false)
      refl refl (λ e. refl, tt)
