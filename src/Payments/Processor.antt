-- ===== src/Payments/Processor.antt =====
-- apps/api/autonomerce/payments/service.py: `PaymentProcessor.pay`. The world is the payment store
-- and the calls of the executor so far; exceptions leave it as it is when they are raised.
pub mod Growth
pub mod Once
pub mod History
use Prim.Native.String.{◌++◌}
use autonomerce.Prelude.{
  ℕ, String, Bool, true, false, not, ◌&&◌, if◌then◌else◌, ◌==◌, Option, none, some, List, [], ◌∷◌,
}
use autonomerce.Prelude.Text.{Runtime}
use autonomerce.Prelude.Results.{Result, ok, err, ◌>>=◌, ◌>>◌}
use autonomerce.Contracts.{PaymentState, submitting, confirmed, failed_terminal}
use autonomerce.Contracts.Receipt.{PaymentReceipt, make_receipt}
use autonomerce.Payments.Errors.{
  PaymentError, CircleError, ambiguous, circle, unverified, crashed, proven_not_submitted,
}
use autonomerce.Payments.Models.{PaymentIntent, PaymentPolicy, ExecutionResult, ReceiptVerification}
use autonomerce.Payments.Store.{Store, Method, PaymentReservation}
use autonomerce.Payments.Store.Reserve.{reserve, as_contract}
use autonomerce.Payments.Store.Transition.{transition}
use autonomerce.Payments.Store.Reconcile.{record_reconciliation, mark_reconciliation_retryable}
use autonomerce.Payments.Verification.{ReceiptHook, verify_receipt}

-- how the executor ends: with evidence, with a `CircleExecutionError`, or with another exception
pub data Outcome : Type 0 where
  executed : ExecutionResult → Outcome
  refused : CircleError → Outcome
  broken : Outcome

-- the configuration of a processor; its executor and clock are in the arguments of `pay`
pub record Config : Type 0 where
  pub policy : PaymentPolicy
  pub hooks : List ReceiptHook

pub record World : Type 0 where
  pub store : Store
  -- the intents that the executor was called with, the latest first
  pub executions : List PaymentIntent

abbrev pub Action : Type 0 → Type 0
Action A = World → Result PaymentError A × World

infixl 5 ◌>>>=◌
-- one action after another
abbrev pub ◌>>>=◌ : {A B : Type 0} → Action A → (A → Action B) → Action B
◌>>>=◌ m f w = let (r, w') = m w in elim r [ ok a ↦ f a w' | err e ↦ (err e, w') ]

abbrev pub throw : {A : Type 0} → PaymentError → Action A
throw e w = (err e, w)

-- a method of the store
unfoldable pub on_store : {A : Type 0} → Method A → Action A
on_store m w = elim (m w.store) [ ok (a, s) ↦ (ok a, record w { store = s }) | err e ↦ (err e, w) ]

-- `f"circle-cli:returncode:{...}"`
abbrev evidence_text : Option String → String
evidence_text none = "circle-cli:returncode:not-started"
evidence_text (some code) = "circle-cli:returncode:" ++ code

abbrev pub done : {A : Type 0} → A → Action (Unit {0})
done a w = (ok tt, w)

-- the handler of `CircleExecutionError`, before it raises again
unfoldable pub handle : Runtime → String → PaymentIntent → CircleError → Action (Unit {0})
handle py now i e =
    if proven_not_submitted e
    then on_store (
        mark_reconciliation_retryable py now i.idempotency_key e.reason_code e.message
          (evidence_text e.returncode) "system:circle-cli" e.returncode)
      >>>= done
    else if e.terminal
    then on_store (transition py i.idempotency_key failed_terminal none none none) >>>= done
    else on_store (
        record_reconciliation py now i.idempotency_key e.reason_code e.message e.returncode
          e.submission_status)
      >>>= done

-- `replace(reservation.receipt, state=PaymentState.CONFIRMED, ...)`, before its checks
abbrev pub candidate_of : PaymentReceipt → ExecutionResult → PaymentReceipt
candidate_of r x = record r {
  state = confirmed;
  transaction_hash = x.transaction_hash;
  explorer_url = x.explorer_url;
  confirmed_at = x.confirmed_at;
}

abbrev pub lift : {A : Type 0} → Result PaymentError A → Action A
lift r w = (r, w)

-- the end of `pay`, from the verdict on; its explanation is a parameter, `explain`
unfoldable pub conclude :
    Runtime
    → String
    → (String → String)
    → PaymentIntent
    → PaymentReceipt
    → ReceiptVerification
    → Action PaymentReceipt
conclude py now explain i candidate v =
    if not v.verified
    then on_store (
        record_reconciliation py now i.idempotency_key v.reason_code (explain v.reason_code) none
          ambiguous)
      >>>= (λ _. throw (unverified v.reason_code))
    else on_store (
        transition py i.idempotency_key confirmed candidate.transaction_hash candidate.explorer_url
          candidate.confirmed_at)

-- what follows the call of the executor
unfoldable pub settle_outcome :
    Runtime
    → String
    → (String → String)
    → Config
    → PaymentIntent
    → PaymentReceipt
    → Outcome
    → Action PaymentReceipt
settle_outcome py now explain cfg i receipt (refused e) =
    handle py now i e >>>= λ _. throw (circle e)
settle_outcome py now explain cfg i receipt broken = throw crashed
settle_outcome py now explain cfg i receipt (executed x) =
    lift (as_contract (make_receipt py (candidate_of receipt x))) >>>= λ candidate.
    lift (verify_receipt py cfg.policy.mode cfg.hooks candidate i x) >>>= λ v.
    conclude py now explain i candidate v

-- `self.executor.execute(intent)`, as the world sees it
unfoldable pub call : PaymentIntent → Action (Unit {0})
call i w = (ok tt, record w { executions = i ∷ w.executions })

-- `pay`, from a new reservation on
unfoldable pub proceed :
    Runtime
    → String
    → (String → String)
    → Config
    → Outcome
    → PaymentIntent
    → PaymentReceipt
    → Action PaymentReceipt
proceed py now explain cfg outcome i receipt =
    on_store (transition py i.idempotency_key submitting none none none) >>>= λ _.
    call i >>>= λ _. settle_outcome py now explain cfg i receipt outcome

-- `pay`
unfoldable pub pay :
    Runtime → String → (String → String) → Config → Outcome → PaymentIntent → Action PaymentReceipt
pay py now explain cfg outcome i = on_store (reserve py i cfg.policy) >>>= λ reservation.
    if not reservation.created
    then lift (ok reservation.receipt)
    else proceed py now explain cfg outcome i reservation.receipt
