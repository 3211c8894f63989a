-- ===== src/Payments/Store/Calls.antt =====
-- The five methods that change a recorded payment, as calls that may come in any order.
use autonomerce.Prelude.{String, Option, inl, refl}
use autonomerce.Prelude.Text.{Runtime}
use autonomerce.Prelude.Results.{Result, ok, err}
use autonomerce.Contracts.{PaymentState}
use autonomerce.Payments.Errors.{PaymentError, SubmissionStatus}
use autonomerce.Payments.Store.{Store, Leaves}
use autonomerce.Payments.Store.Transition.{transition}
use autonomerce.Payments.Store.Reconcile.{
  record_reconciliation, mark_reconciliation_retryable, confirm_reconciliation,
  cancel_reconciliation,
}
use autonomerce.Payments.Store.Updates.{Touches}
use autonomerce.Payments.Store.Methods.{
  transition-Touches, record_reconciliation-Touches, mark-Touches, confirm-Touches, cancel-Touches,
}
use autonomerce.Payments.Store.Consistency.{IsConsistent, Touches-IsConsistent}
use autonomerce.Payments.Store.Limits.{Spends, Touches-Spends}

-- the arguments of a method, but for the key
pub data Call : Type 0 where
  move : (target : PaymentState) (hash url at : Option String) → Call
  record_ambiguous :
      (reason text : String) (returncode : Option String) (submission : SubmissionStatus) → Call
  mark : (reason text evidence by : String) (returncode : Option String) → Call
  confirm : (hash : String) (url at : Option String) (evidence by : String) → Call
  cancel : (reason text evidence by : String) → Call

-- the store after a method, which is as before if the method raises
abbrev pub after : {A : Type 0} → Store → Result PaymentError (A × Store) → Store
after s (ok (a, t)) = t
after s (err e) = s

unfoldable pub apply : Runtime → String → String → Call → Store → Store
apply py now key (move target hash url at) s = after s (transition py key target hash url at s)
apply py now key (record_ambiguous reason text returncode submission) s =
    after s (record_reconciliation py now key reason text returncode submission s)
apply py now key (mark reason text evidence by returncode) s =
    after s (mark_reconciliation_retryable py now key reason text evidence by returncode s)
apply py now key (confirm hash url at evidence by) s =
    after s (confirm_reconciliation py now key hash url at evidence by s)
apply py now key (cancel reason text evidence by) s =
    after s (cancel_reconciliation py now key reason text evidence by s)

Leaves-after :
    {A : Type 0} (py : Runtime) (key : String) (s : Store) (r : Result PaymentError (A × Store))
    → Leaves (Touches py key s) r
    → Touches py key s (after s r)
Leaves-after py key s (ok (a, t)) l = l.at a t refl
Leaves-after py key s (err e) l = inl refl

apply-Touches :
    (py : Runtime) (now key : String) (c : Call) (s : Store)
    → Touches py key s (apply py now key c s)
unfolding apply
apply-Touches py now key (move target hash url at) s =
    Leaves-after py key s _ (transition-Touches py now key s target hash url at)
apply-Touches py now key (record_ambiguous reason text returncode submission) s =
    Leaves-after py key s _
      (record_reconciliation-Touches py now key s reason text returncode submission)
apply-Touches py now key (mark reason text evidence by returncode) s =
    Leaves-after py key s _ (mark-Touches py now key s reason text evidence by returncode)
apply-Touches py now key (confirm hash url at evidence by) s =
    Leaves-after py key s _ (confirm-Touches py now key s hash url at evidence by)
apply-Touches py now key (cancel reason text evidence by) s =
    Leaves-after py key s _ (cancel-Touches py now key s reason text evidence by)

-- After `transition` or any of the four reconciliation methods, with any arguments and whether it
-- raises or not, a consistent store is still consistent.
pub apply-IsConsistent :
    (py : Runtime) (now key : String) (c : Call) (s : Store)
    → IsConsistent py s
    → IsConsistent py (apply py now key c s)
apply-IsConsistent py now key c s h = Touches-IsConsistent py (apply-Touches py now key c s) h

-- In a consistent store, `transition` and the four reconciliation methods never add to what is
-- spent under a policy, unless the payment belongs to that policy and was `failed_retryable`: then
-- they may add its amount, once.
pub apply-Spends :
    (py : Runtime) (now key : String) (c : Call) (s : Store) (pid : String)
    → IsConsistent py s
    → Spends key pid s (apply py now key c s)
apply-Spends py now key c s pid h =
    Touches-Spends py key s (apply py now key c s) pid h (apply-Touches py now key c s)
