-- ===== src/Payments/Verification/Honest.antt =====
-- A receipt is reported as verified only when every check and every hook has passed.
use autonomerce.Prelude.{true, false, ◌≡◌, ◌≢◌, List, [], ◌∷◌, arith, inl, inr}
use autonomerce.Prelude.Text.{Runtime}
use autonomerce.Prelude.Results.{Result, ok, err, ◌>>=◌, Result-cases}
use autonomerce.Contracts.Receipt.{PaymentReceipt}
use autonomerce.Payments.Models.{PaymentMode, PaymentIntent, ExecutionResult, ReceiptVerification}
use autonomerce.Payments.Verification.{
  ReceiptHook, Stop, fail, raise, check_identity, check_money, check_parties, check_evidence,
  check_lookup, hook_verdict, run_hooks, check_receipt, verify_receipt,
}
use autonomerce.Payments.Verification.Sound.{Verified, check_receipt-Verified}

-- no verdict that ends the checks early is a verified one
record IsHonest {ℓ} {A : Type ℓ} (m : Result Stop A) : Type ℓ where
  at : (v : ReceiptVerification) → m ≡ err (fail v) → v.verified ≡ false

IsHonest-bind {ℓ} :
    {A B : Type ℓ} (m : Result Stop A) (f : A → Result Stop B)
    → IsHonest m
    → ((a : A) → IsHonest (f a))
    → IsHonest (m >>= f)
IsHonest-bind (ok a) f hm hf = hf a
IsHonest-bind (err e) f hm hf = record { at = λ v h. hm.at v (ground arith) }

run_hooks-IsHonest :
    (r : PaymentReceipt) (i : PaymentIntent) (x : ExecutionResult) (hooks : List ReceiptHook)
    → IsHonest (run_hooks r i x hooks)
unfolding run_hooks hook_verdict
run_hooks-IsHonest r i x [] = record { at = λ v h. cc }
run_hooks-IsHonest r i x (k ∷ hooks) =
    IsHonest-bind (hook_verdict k (k.run r i x)) _ (record { at = λ v h. ground arith })
      λ first.
        IsHonest-bind (run_hooks r i x hooks) _ (run_hooks-IsHonest r i x hooks)
          (λ more. record { at = λ v h. cc })

module _ (py : Runtime) (mode : PaymentMode) (hooks : List ReceiptHook) (r : PaymentReceipt)
    (i : PaymentIntent) (x : ExecutionResult) where
  check_receipt-IsHonest : IsHonest (check_receipt py mode hooks r i x)
  unfolding check_receipt
  check_receipt-IsHonest =
      IsHonest-bind (check_identity py r i x) _
        (record { at = λ v h. unfold check_identity in ground arith })
        λ _.
          IsHonest-bind (check_money py mode r i x) _
            (record { at = λ v h. unfold check_money in ground arith })
            λ _.
              IsHonest-bind (check_parties py r i x) _
                (record { at = λ v h. unfold check_parties in ground arith })
                λ _.
                  IsHonest-bind (check_evidence py mode r i x) _
                    (record { at = λ v h. unfold check_evidence in ground arith })
                    λ _.
                      IsHonest-bind (check_lookup mode i hooks) _
                        (record { at = λ v h. unfold check_lookup in ground arith })
                        (λ _. run_hooks-IsHonest r i x hooks)

  not_verified :
      (e : Stop) (v : ReceiptVerification)
      → check_receipt py mode hooks r i x ≡ err e
      → verify_receipt py mode hooks r i x ≡ ok v
      → v.verified ≢ true
  unfolding verify_receipt
  not_verified (fail w) v stopped h = ground (arith, check_receipt-IsHonest.at w stopped)
  not_verified (raise e) v stopped h = ground arith

  -- If `verify_receipt` returns a verified verdict, then the receipt, the intent and the execution
  -- agree on identity, amount, chain, token, asset and both parties, the transaction hash is valid and
  -- the executor's own, simulated evidence is for the offline mode alone, every hook has passed,
  -- and in a live mode one of the hooks looks transactions up.
  pub verify_receipt-Verified :
      (v : ReceiptVerification)
      → verify_receipt py mode hooks r i x ≡ ok v
      → v.verified ≡ true
      → Verified py mode r i x hooks
  unfolding verify_receipt
  verify_receipt-Verified v h t = elim (Result-cases (check_receipt py mode hooks r i x)) [
    | inl (results, passed) ↦ check_receipt-Verified py mode r i x hooks passed
    | inr (e, stopped) ↦ absurd (not_verified e v stopped h t)
  ]
