-- ===== src/Payments/Processor/History.antt =====
-- Histories of the payment lane: payments and operators' resolutions, in any order.
use autonomerce.Prelude.{String, Option, none, List, [], ◌∷◌, inl, inr}
use autonomerce.Prelude.Text.{Runtime}
use autonomerce.Prelude.Results.{Result, ok, err, Result-cases}
use autonomerce.Payments.Errors.{PaymentError}
use autonomerce.Payments.Models.{PaymentIntent}
use autonomerce.Payments.Models.Intent.{RawIntent, make_intent}
use autonomerce.Payments.Models.Keys.{make_intent_key}
use autonomerce.Payments.Store.{empty}
use autonomerce.Payments.Store.Reconcile.{
  mark_reconciliation_retryable, confirm_reconciliation, cancel_reconciliation,
}
use autonomerce.Payments.Store.Methods.{mark-Touches, confirm-Touches, cancel-Touches}
use autonomerce.Payments.Store.Consistency.{IsConsistent-empty}
use autonomerce.Payments.Processor.{Outcome, Config, World, on_store, pay}
use autonomerce.Payments.Processor.Growth.{IsQuiet-on_store}
use autonomerce.Payments.Processor.Once.{AtMostOnce, AllRecorded, IsSafe, quiet-IsSafe, pay-IsSafe}

-- a call of the payment lane: a payment, whose executor ends in the given way, or an operator's
-- resolution of an interrupted one
pub data Command : Type 0 where
  pay_with : Config → Outcome → RawIntent → Command
  mark_retryable : (key reason text evidence by : String) → Command
  confirm : (key hash : String) (url at : Option String) (evidence by : String) → Command
  cancel : (key reason text evidence by : String) → Command

module _ (py : Runtime) (now : String) (explain : String → String) where
  -- an intent that cannot be made is not paid
  unfoldable pub pay_made : Config → Outcome → Result PaymentError PaymentIntent → World → World
  pay_made cfg o (ok i) w = (pay py now explain cfg o i w).1
  pay_made cfg o (err e) w = w

  unfoldable pub step : Command → World → World
  step (pay_with cfg o raw) w = pay_made cfg o (make_intent py raw) w
  step (mark_retryable key reason text evidence by) w =
      (on_store (mark_reconciliation_retryable py now key reason text evidence by none) w).1
  step (confirm key hash url at evidence by) w =
      (on_store (confirm_reconciliation py now key hash url at evidence by) w).1
  step (cancel key reason text evidence by) w =
      (on_store (cancel_reconciliation py now key reason text evidence by) w).1

  unfoldable pub run : List Command → World → World
  run [] w = w
  run (c ∷ cs) w = run cs (step c w)

  step-IsSafe : (c : Command) (w : World) → IsSafe py w → IsSafe py (step c w)
  unfolding step
  step-IsSafe (pay_with cfg o raw) w h = elim (Result-cases (make_intent py raw)) [
    | inl (i, made) ↦
        rw made
          (unfold pay_made in pay-IsSafe py now explain cfg o i w (make_intent_key py raw i made) h)
    | inr (e, refused) ↦ rw refused (unfold pay_made in h)
  ]
  step-IsSafe (mark_retryable key reason text evidence by) w h =
      quiet-IsSafe py _ w
        (IsQuiet-on_store py _ key (λ s. mark-Touches py now key s reason text evidence by none)) h
  step-IsSafe (confirm key hash url at evidence by) w h =
      quiet-IsSafe py _ w
        (IsQuiet-on_store py _ key (λ s. confirm-Touches py now key s hash url at evidence by)) h
  step-IsSafe (cancel key reason text evidence by) w h =
      quiet-IsSafe py _ w
        (IsQuiet-on_store py _ key (λ s. cancel-Touches py now key s reason text evidence by)) h

  run-IsSafe : (cs : List Command) (w : World) → IsSafe py w → IsSafe py (run cs w)
  unfolding run
  run-IsSafe [] w h = h
  run-IsSafe (c ∷ cs) w h = run-IsSafe cs (step c w) (step-IsSafe c w h)

abbrev pub new_world : World
new_world = record { store = empty; executions = [] }

-- From an empty store, after any commands, no two calls of the executor were for one key or for one
-- proposal, whatever the executor did, and every call was for a payment that the store records.
pub executed-AtMostOnce :
    (py : Runtime) (now : String) (explain : String → String) (cs : List Command)
    → let w = run py now explain cs new_world in
      AtMostOnce w.executions × AllRecorded w.store w.executions
executed-AtMostOnce py now explain cs =
    let safe =
      run-IsSafe py now explain cs new_world
        (record { consistent = IsConsistent-empty py; recorded = tt; once = tt }) in
    (safe.once, safe.recorded)
