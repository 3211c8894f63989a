-- ===== src/Payments/Store/Updates.antt =====
-- What a method of the payment store can change: one entry, along an edge of its state machine, with
-- its identity and amount as they were. Each method is shown to do this or nothing.
use autonomerce.Prelude.{
  String, Bool, true, ◌&&◌, ◌||◌, ◌==◌, ◌≡◌, ◌≢◌, refl, ◌∙◌, ◌⊎◌, Option, some,
}
use autonomerce.Prelude.Text.{Runtime, truthy}
use autonomerce.Prelude.Dict.{Dict, lookup, insert}
use autonomerce.Prelude.Results.{ok}
use autonomerce.Contracts.{PaymentState, confirmed, failed_retryable, payment_state_eq}
use autonomerce.Contracts.Receipt.{PaymentReceipt, make_receipt, make_receipt_lem}
use autonomerce.Payments.Models.Names.{get_or}
use autonomerce.Payments.Store.{Store, Entry, PaymentReconciliation, reconciliation_state_eq}
use autonomerce.Payments.Store.Values.{has_transition}

-- the changes of state that any method makes
abbrev pub edge : PaymentState → PaymentState → Bool
edge s t = s == t || has_transition s t || (s == failed_retryable && t == confirmed)

-- the owner of a transaction hash, which is no owner if it is the empty text
abbrev pub Owned : Runtime → Option String → String → Store → Type 0
Owned py hash key s =
    truthy hash ≡ true → lookup (py.lower (get_or hash "")) s.transaction_hashes ≡ some key

pub record Updates (py : Runtime) (key : String) (e e' : Entry) (s s' : Store) : Type 0 where
  pub old : lookup key s.records ≡ some e
  pub records : s'.records ≡ insert key e' s.records
  pub payment_ids : s'.payment_ids ≡ s.payment_ids
  pub proposal_ids : s'.proposal_ids ≡ s.proposal_ids
  pub x402_ids : s'.x402_ids ≡ s.x402_ids
  pub same_payment : e'.receipt.payment_id ≡ e.receipt.payment_id
  pub same_proposal : e'.receipt.proposal_id ≡ e.receipt.proposal_id
  pub same_key : e'.receipt.idempotency_key ≡ e.receipt.idempotency_key
  pub same_amount : e'.receipt.amount_usdc ≡ e.receipt.amount_usdc
  pub same_policy : e'.policy_id ≡ e.policy_id
  pub same_fingerprint : e'.fingerprint ≡ e.fingerprint
  pub same_x402 : e'.x402_requirement_id ≡ e.x402_requirement_id
  pub moves : edge e.receipt.state e'.receipt.state ≡ true
  pub evidence :
      (e.receipt.state ≡ confirmed → truthy e.receipt.transaction_hash ≡ true)
      → e'.receipt.state ≡ confirmed
      → truthy e'.receipt.transaction_hash ≡ true
  pub owned :
      Owned py e.receipt.transaction_hash key s → Owned py e'.receipt.transaction_hash key s'
  pub others :
      (h k : String)
      → k ≢ ""
      → k ≢ key
      → Owned py e.receipt.transaction_hash key s
      → lookup h s.transaction_hashes ≡ some k
      → lookup h s'.transaction_hashes ≡ some k

-- what a method on one key has done
abbrev pub Touches : Runtime → String → Store → Store → Type 0
Touches py key s s' = (s' ≡ s) ⊎ ((e : Entry) × (e' : Entry) × Updates py key e e' s s')

-- the two facts about transaction hashes, over the hashes after the change
abbrev pub Owns : Runtime → Option String → String → Dict String → Type 0
Owns py hash key hashes = truthy hash ≡ true → lookup (py.lower (get_or hash "")) hashes ≡ some key

abbrev pub Keeps : Runtime → String → Entry → Store → Dict String → Type 0
Keeps py key e s hashes =
    (h k : String)
    → k ≢ ""
    → k ≢ key
    → Owned py e.receipt.transaction_hash key s
    → lookup h s.transaction_hashes ≡ some k
    → lookup h hashes ≡ some k

module _ (py : Runtime) (key : String) (e : Entry) (s : Store) where
  -- what `replace` may change of a receipt
  pub record Follows (receipt : PaymentReceipt) (hashes : Dict String) : Type 0 where
    pub old : lookup key s.records ≡ some e
    pub payment : receipt.payment_id ≡ e.receipt.payment_id
    pub proposal : receipt.proposal_id ≡ e.receipt.proposal_id
    pub idempotency : receipt.idempotency_key ≡ e.receipt.idempotency_key
    pub amount : receipt.amount_usdc ≡ e.receipt.amount_usdc
    pub moves : edge e.receipt.state receipt.state ≡ true
    pub owns :
        Owned py e.receipt.transaction_hash key s → Owns py receipt.transaction_hash key hashes
    pub keeps : Keeps py key e s hashes

  -- a receipt that is made and written follows from the old one
  pub made-Updates :
      (receipt made : PaymentReceipt) (rec : Option PaymentReconciliation) (hashes : Dict String)
      → Follows receipt hashes
      → make_receipt py receipt ≡ ok made
      → let e' = record e { receipt = made; reconciliation = rec } in
        Updates py key e e' s
          (record s { records = insert key e' s.records; transaction_hashes = hashes })
  made-Updates receipt made rec hashes f h =
      let m = make_receipt_lem py receipt made h in
      record {
        old = f.old;
        records = refl;
        payment_ids = refl;
        proposal_ids = refl;
        x402_ids = refl;
        same_payment = m.payment_id ∙ f.payment;
        same_proposal = m.proposal_id ∙ f.proposal;
        same_key = m.idempotency_key ∙ f.idempotency;
        same_amount = m.amount_usdc ∙ f.amount;
        same_policy = refl;
        same_fingerprint = refl;
        same_x402 = refl;
        moves = rw m.state f.moves;
        evidence = λ _. m.evidence;
        owned = λ o. rw m.transaction_hash (f.owns o);
        others = f.keeps;
      }
