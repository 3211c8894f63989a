-- ===== src/Payments/Store.antt =====
-- apps/api/autonomerce/payments/store.py: `InMemoryPaymentStore`. A method takes the store and
-- raises, with the store as it was, or gives its result and the new store; `now` is the text of the
-- clock. The lock makes each method one step.
pub mod Values
pub mod Reserve
pub mod Transition
pub mod Reconcile
pub mod Updates
pub mod Settled
pub mod Methods
pub mod Consistency
pub mod Reserved
pub mod Limits
pub mod Calls
use autonomerce.Prelude.{
  ℕ, ◌+◌, String, Bool, true, false, Option, none, some, List, [], ◌∷◌, Eq, ◌==◌, string_eq, ◌&&◌,
  ◌||◌, if◌then◌else◌, ◌≡◌, refl, arith,
}
use autonomerce.Prelude.Dict.{Dict, lookup}
use autonomerce.Prelude.Results.{Result, ok, err, ◌>>=◌, ◌>>◌, raise_if}
use autonomerce.Contracts.{PaymentState, policy_approved, submitting, payment_state_eq}
use autonomerce.Contracts.Receipt.{PaymentReceipt}
use autonomerce.Payments.Errors.{PaymentError, SubmissionStatus}
use autonomerce.Payments.Models.{PaymentPolicyDecision, SpendingSnapshot}

pub data ReconciliationState : Type 0 where
  pending retryable confirmed cancelled : ReconciliationState

unfoldable pub ReconciliationState-discrete : Discrete ReconciliationState
ReconciliationState-discrete = hlevel

instance abbrev pub reconciliation_state_eq : Eq ReconciliationState
reconciliation_state_eq = record { discrete = ReconciliationState-discrete }

pub record PaymentReservation : Type 0 where
  pub receipt : PaymentReceipt
  pub created : Bool
  pub decision : PaymentPolicyDecision

pub record PaymentReconciliation : Type 0 where
  pub idempotency_key : String
  pub payment_id : String
  pub reason_code : String
  pub explanation : String
  pub returncode : Option String
  pub state : ReconciliationState
  pub submission_status : SubmissionStatus
  pub evidence_reference : Option String
  pub transaction_hash : Option String
  pub resolved_by : Option String
  pub created_at : Option String
  pub updated_at : Option String

-- `PaymentReconciliationStatus`
pub record Status : Type 0 where
  pub receipt : PaymentReceipt
  pub reconciliation : Option PaymentReconciliation

-- `_Record`
pub record Entry : Type 0 where
  pub receipt : PaymentReceipt
  pub fingerprint : String
  pub policy_id : String
  pub token : String
  pub asset : Option String
  pub x402_requirement_id : Option String
  pub reconciliation : Option PaymentReconciliation

pub record Store : Type 0 where
  pub records : Dict Entry
  pub payment_ids : Dict String
  pub proposal_ids : Dict String
  pub x402_ids : Dict String
  pub transaction_hashes : Dict String

abbrev pub empty : Store
empty = record {
  records = [];
  payment_ids = [];
  proposal_ids = [];
  x402_ids = [];
  transaction_hashes = [];
}

abbrev pub Method : Type 0 → Type 0
Method A = Store → Result PaymentError (A × Store)

-- what holds of the store that a call leaves, if it does not raise
pub record Leaves {A : Type 0} (P : Store → Type 0) (r : Result PaymentError (A × Store))
    : Type 0 where
  pub at : (a : A) (s : Store) → r ≡ ok (a, s) → P s

module _ {A : Type 0} (P : Store → Type 0) where
  pub Leaves-ok : (a : A) (s : Store) → P s → Leaves P (ok (a, s))
  Leaves-ok a s h = record { at = λ b t p. ground arith }

  pub Leaves-bind :
      {B : Type 0} (m : Result PaymentError B) (f : B → Result PaymentError (A × Store))
      → ((b : B) → m ≡ ok b → Leaves P (f b))
      → Leaves P (m >>= f)
  Leaves-bind (ok b) f h = h b refl
  Leaves-bind (err e) f h = record { at = λ a s p. cc }

  pub Leaves-guard :
      (b : Bool) (e : PaymentError) (k : Result PaymentError (A × Store))
      → (b ≡ false → Leaves P k)
      → Leaves P (raise_if b e >> k)
  Leaves-guard true e k h = record { at = λ a s p. cc }
  Leaves-guard false e k h = h refl

  pub Leaves-if :
      (b : Bool) {m n : Result PaymentError (A × Store)}
      → Leaves P m
      → Leaves P n
      → Leaves P (if b then m else n)
  Leaves-if true hm hn = hm
  Leaves-if false hm hn = hn

-- `state in _COMMITTED_STATES`
abbrev pub is_committed : PaymentState → Bool
is_committed s = s == policy_approved || s == submitting || s == PaymentState.confirmed

-- `record.policy_id == policy_id and record.receipt.state in _COMMITTED_STATES`
abbrev pub counts : String → Entry → Bool
counts policy_id e = e.policy_id == policy_id && is_committed e.receipt.state

unfoldable pub committed_usdc : String → Dict Entry → ℕ
committed_usdc policy_id [] = 0
committed_usdc policy_id ((k, e) ∷ d) =
    (if counts policy_id e then e.receipt.amount_usdc else 0) + committed_usdc policy_id d

unfoldable pub committed_count : String → Dict Entry → ℕ
committed_count policy_id [] = 0
committed_count policy_id ((k, e) ∷ d) =
    (if counts policy_id e then 1 else 0) + committed_count policy_id d

-- `_snapshot_unlocked`
unfoldable pub snapshot : String → Store → SpendingSnapshot
snapshot policy_id s = record {
  committed_usdc = committed_usdc policy_id s.records;
  committed_payment_count = committed_count policy_id s.records;
}

-- `get`
unfoldable pub get : String → Store → Option PaymentReceipt
unfolding lookup
get key s = elim (lookup key s.records) [ none ↦ none | some e ↦ some e.receipt ]
