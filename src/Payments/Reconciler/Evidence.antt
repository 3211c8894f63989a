-- ===== src/Payments/Reconciler/Evidence.antt =====
-- apps/api/autonomerce/payments/reconciliation.py: the evidence that is accepted.
use autonomerce.Prelude.{
  ◌≡◌, ◌≢◌, refl, ◌↔◌, true, false, string_eq, nat_eq, option_eq, none, some, List, [], ◌∷◌, arith,
  inl, inr, Bool-cases,
}
use autonomerce.Prelude.Text.{Runtime}
use autonomerce.Prelude.Results.{ok}
use autonomerce.Contracts.Receipt.{PaymentReceipt}
use autonomerce.Payments.Models.{
  offline, payment_mode_eq, is_live, ExecutionResult, ReceiptVerification,
}
use autonomerce.Payments.Models.Names.{canonical_chain}
use autonomerce.Payments.Verification.{
  HookResult, verdict, is_true, is_none, is_false, other, raised,
}
use autonomerce.Payments.Reconciler.{
  TransactionEvidenceHook, PaymentReconciler, heed, heed_all, verify_reconciliation_evidence,
}

-- a hook answers for the transaction
pub data Approves : HookResult → Type 0 where
  by_truth : Approves is_true
  by_verdict : (v : ReceiptVerification) → v.verified ≡ true → Approves (verdict v)

abbrev pub AllApprove : PaymentReceipt → ExecutionResult → List TransactionEvidenceHook → Type 0
AllApprove r x [] = Unit
AllApprove r x (h ∷ hooks) = Approves (h.run r x) × AllApprove r x hooks

-- Evidence that proves a payment.
pub record Proves (py : Runtime) (p : PaymentReconciler) (r : PaymentReceipt) (x : ExecutionResult)
    : Type 0 where
  pub hooked : p.verification_hooks ≢ []
  pub state : x.is_confirmed ≡ true
  pub hash : x.transaction_hash ≢ none
  pub chain : canonical_chain py r.chain ≡ ok x.chain
  pub token : r.token ≡ x.token
  pub asset : r.asset ≡ x.asset
  pub bound : is_live p.mode ≡ true → (r.asset ≢ none) × (r.asset ≢ some r.token)
  pub amount : r.amount_usdc ≡ x.amount_usdc
  pub payer : py.lower r.payer_wallet ≡ py.lower x.payer_wallet
  pub payee : py.lower r.payee_wallet ≡ py.lower x.payee_wallet
  pub real : is_live p.mode ≡ true → x.simulated ≡ false
  pub simulated : p.mode ≡ offline → x.simulated ≡ true
  pub approved : AllApprove r x p.verification_hooks

heed-Approves : (h : TransactionEvidenceHook) (v : HookResult) → heed h v ≡ ok tt → Approves v
unfolding heed
heed-Approves h raised e = cc
heed-Approves h (verdict v) e = by_verdict v (ground arith)
heed-Approves h is_true e = by_truth
heed-Approves h is_none e = cc
heed-Approves h is_false e = cc
heed-Approves h other e = cc

Approves-heed : (h : TransactionEvidenceHook) (v : HookResult) → Approves v → heed h v ≡ ok tt
unfolding heed
Approves-heed h _ by_truth = refl
Approves-heed h _ (by_verdict v e) = ground (arith, e)

heed_all_sound :
    (r : PaymentReceipt) (x : ExecutionResult) (hooks : List TransactionEvidenceHook)
    → heed_all r x hooks ≡ ok tt
    → AllApprove r x hooks
unfolding heed_all
heed_all_sound r x [] e = tt
heed_all_sound r x (h ∷ hooks) e =
    (heed-Approves h (h.run r x) (ground arith), heed_all_sound r x hooks (ground arith))

heed_all_complete :
    (r : PaymentReceipt) (x : ExecutionResult) (hooks : List TransactionEvidenceHook)
    → AllApprove r x hooks
    → heed_all r x hooks ≡ ok tt
unfolding heed_all
heed_all_complete r x [] a = refl
heed_all_complete r x (h ∷ hooks) a =
    ground (arith, Approves-heed h (h.run r x) a.0, heed_all_complete r x hooks a.1)

-- Evidence is accepted exactly when it proves the payment: there is a hook and every hook answers for
-- the transaction, it is confirmed with a hash, it agrees with the receipt in chain, token, asset,
-- amount and both parties, a live payment is bound to a token contract and is not simulated, and an
-- offline one is.
pub verify_reconciliation_evidence-Proves :
    (py : Runtime) (p : PaymentReconciler) (r : PaymentReceipt) (x : ExecutionResult)
    → (verify_reconciliation_evidence py p r x ≡ ok tt) ↔ Proves py p r x
unfolding verify_reconciliation_evidence
verify_reconciliation_evidence-Proves py p r x = (sound, complete)
  where
    sound : verify_reconciliation_evidence py p r x ≡ ok tt → Proves py p r x
    sound e = record {
      hooked = λ q. ground (arith, e, q);
      state = ground (arith, e);
      hash = λ q. ground (arith, e, q);
      chain = ground (arith, e);
      token = ground (arith, e);
      asset = ground (arith, e);
      bound = λ q. (λ n. ground (arith, e, q, n), λ n. ground (arith, e, q, n));
      amount = ground (arith, e);
      payer = ground (arith, e);
      payee = ground (arith, e);
      real = λ q. ground (arith, e, q);
      simulated = λ q. ground (arith, e, q);
      approved = heed_all_sound r x p.verification_hooks (ground (arith, e));
    }

    complete : Proves py p r x → verify_reconciliation_evidence py p r x ≡ ok tt
    complete v = elim (Bool-cases (is_live p.mode)) [
      | inl live ↦ ground (
        arith,
        v.hooked,
        v.state,
        v.hash,
        v.chain,
        v.token,
        v.asset,
        (v.bound live).0,
        (v.bound live).1,
        v.amount,
        v.payer,
        v.payee,
        v.real live,
        v.simulated,
        live,
        heed_all_complete r x p.verification_hooks v.approved,
      )
      | inr tried ↦ ground (
        arith,
        v.hooked,
        v.state,
        v.hash,
        v.chain,
        v.token,
        v.asset,
        v.amount,
        v.payer,
        v.payee,
        v.simulated,
        tried,
        heed_all_complete r x p.verification_hooks v.approved,
      )
    ]
