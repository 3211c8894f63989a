-- ===== src/Payments/Processor/Growth.antt =====
-- No method of the payment store forgets a payment, nor does any part of `pay`.
use autonomerce.Prelude.{
  String, Bool, true, false, not, ◌≡◌, refl, ◌∙◌, inl, inr, none, some, arith, if◌then◌else◌,
  String-discrete,
}
use autonomerce.Prelude.Text.{Runtime}
use autonomerce.Prelude.Dict.{lookup, lookup-insert}
use autonomerce.Prelude.Results.{Result, ok, err, Result-cases}
use autonomerce.Contracts.Receipt.{PaymentReceipt, make_receipt}
use autonomerce.Payments.Errors.{PaymentError, CircleError, proven_not_submitted}
use autonomerce.Payments.Models.{PaymentIntent, ReceiptVerification}
use autonomerce.Payments.Store.{Store, Entry, Method, Leaves}
use autonomerce.Payments.Store.Updates.{Updates, Touches}
use autonomerce.Payments.Store.Methods.{
  transition-Touches, record_reconciliation-Touches, mark-Touches,
}
use autonomerce.Payments.Store.Consistency.{IsConsistent, Touches-IsConsistent}
use autonomerce.Payments.Processor.{
  Outcome, executed, refused, broken, Config, World, Action, ◌>>>=◌, on_store, lift, done, handle,
  conclude, settle_outcome, candidate_of,
}
use autonomerce.Payments.Store.Reserve.{as_contract}
use autonomerce.Payments.Verification.{verify_receipt}

-- a payment for the proposal is recorded at the key
pub record Recorded (key proposal : String) (s : Store) : Type 0 where
  pub entry : Entry
  pub found : lookup key s.records ≡ some entry
  pub same : entry.receipt.proposal_id ≡ proposal

-- what is recorded stays recorded, and the indexes stay consistent
pub record Grows (py : Runtime) (s s' : Store) : Type 0 where
  pub consistent : IsConsistent py s → IsConsistent py s'
  pub recorded : (key proposal : String) → Recorded key proposal s → Recorded key proposal s'

module _ {A B : Type 0} (m : Action A) (f : A → Action B) (w : World) where
  pub bind_ok : {a : A} → (m w).0 ≡ ok a → (m >>>= f) w ≡ f a (m w).1
  bind_ok r = rw (r, ◌>>>=◌)

  pub bind_err : {e : PaymentError} → (m w).0 ≡ err e → (m >>>= f) w ≡ (err e, (m w).1)
  bind_err r = rw (r, ◌>>>=◌)

-- a method of the store, run in the world
pub on_store-ok :
    {A : Type 0} (m : Method A) (w : World) {a : A} {s : Store}
    → m w.store ≡ ok (a, s)
    → on_store m w ≡ (ok a, record w { store = s })
unfolding on_store
on_store-ok m w h = rw (h, on_store)

pub on_store-err :
    {A : Type 0} (m : Method A) (w : World) {e : PaymentError}
    → m w.store ≡ err e
    → on_store m w ≡ (err e, w)
unfolding on_store
on_store-err m w h = rw (h, on_store)

module _ (py : Runtime) where
  pub Grows-refl : (s : Store) → Grows py s s
  Grows-refl s = record { consistent = λ c. c; recorded = λ k p r. r }

  pub Grows-trans : {s t u : Store} → Grows py s t → Grows py t u → Grows py s u
  Grows-trans a b = record {
    consistent = λ c. b.consistent (a.consistent c);
    recorded = λ k p r. b.recorded k p (a.recorded k p r);
  }

  Updates-Recorded :
      {key : String} {e e' : Entry} {s s' : Store} (u : Updates py key e e' s s') (k p : String)
      → Recorded k p s
      → Recorded k p s'
  Updates-Recorded {key} {e} {e'} {s} {s'} u k p r = elim (String-discrete key k) [
    | yes q ↦ record {
      entry = e';
      found = ground (arith, u.records, lookup-insert key k e' s.records);
      same = ground (arith, u.same_proposal, u.old, r.found, r.same);
    }
    | no q ↦ record {
      entry = r.entry;
      found = ground (arith, u.records, lookup-insert key k e' s.records, r.found);
      same = r.same;
    }
  ]

  pub Touches-Grows : {key : String} {s s' : Store} → Touches py key s s' → Grows py s s'
  Touches-Grows (inl same) = rw same (Grows-refl _)
  Touches-Grows (inr (e, e', u)) = record {
    consistent = Touches-IsConsistent py (inr (e, e', u));
    recorded = Updates-Recorded u;
  }

  -- an action that calls no executor and forgets no payment
  pub record IsQuiet {A : Type 0} (m : Action A) : Type 0 where
    pub grows : (w : World) → Grows py w.store (m w).1.store
    pub silent : (w : World) → (m w).1.executions ≡ w.executions

  pub IsQuiet-lift : {A : Type 0} (r : Result PaymentError A) → IsQuiet (lift r)
  IsQuiet-lift r = record { grows = λ w. Grows-refl w.store; silent = λ w. refl }

  pub IsQuiet-bind :
      {A B : Type 0} (m : Action A) (f : A → Action B)
      → IsQuiet m
      → ((a : A) → IsQuiet (f a))
      → IsQuiet (m >>>= f)
  IsQuiet-bind m f hm hf = record {
    grows = λ w. elim (Result-cases (m w).0) [
      | inl (a, r) ↦ rw (bind_ok m f w r) (Grows-trans (hm.grows w) ((hf a).grows (m w).1))
      | inr (e, r) ↦ rw (bind_err m f w r) (hm.grows w)
    ];
    silent = λ w. elim (Result-cases (m w).0) [
      | inl (a, r) ↦ rw (bind_ok m f w r) ((hf a).silent (m w).1 ∙ hm.silent w)
      | inr (e, r) ↦ rw (bind_err m f w r) (hm.silent w)
    ];
  }

  pub IsQuiet-on_store :
      {A : Type 0} (m : Method A) (key : String)
      → ((s : Store) → Leaves (Touches py key s) (m s))
      → IsQuiet (on_store m)
  IsQuiet-on_store m key h = record {
    grows = λ w. elim (Result-cases (m w.store)) [
      | inl ((a, s), r) ↦ rw (on_store-ok m w r) (Touches-Grows ((h w.store).at a s r))
      | inr (e, r) ↦ rw (on_store-err m w r) (Grows-refl w.store)
    ];
    silent = λ w. elim (Result-cases (m w.store)) [
      | inl ((a, s), r) ↦ rw (on_store-ok m w r)
      | inr (e, r) ↦ rw (on_store-err m w r)
    ];
  }

  IsQuiet-if :
      {A : Type 0} (b : Bool) {m n : Action A}
      → IsQuiet m
      → IsQuiet n
      → IsQuiet (if b then m else n)
  IsQuiet-if true hm hn = hm
  IsQuiet-if false hm hn = hn

  IsQuiet-handle :
      (now : String) (i : PaymentIntent) (e : CircleError) → IsQuiet (handle py now i e)
  unfolding handle
  IsQuiet-handle now i e =
      let k = i.idempotency_key in
      IsQuiet-if (proven_not_submitted e)
        (IsQuiet-bind _ done
          (IsQuiet-on_store _ k
            (λ s. mark-Touches py now k s e.reason_code e.message _ _ e.returncode))
          (λ a. IsQuiet-lift (ok tt)))
        (IsQuiet-if e.terminal
          (IsQuiet-bind _ done
            (IsQuiet-on_store _ k (λ s. transition-Touches py now k s _ none none none))
            (λ a. IsQuiet-lift (ok tt)))
          (IsQuiet-bind _ done
            (IsQuiet-on_store _ k (λ s.
              record_reconciliation-Touches py now k s e.reason_code e.message e.returncode _))
            (λ a. IsQuiet-lift (ok tt))))

  IsQuiet-conclude :
      (now : String) (explain : String → String) (i : PaymentIntent) (c : PaymentReceipt)
      (v : ReceiptVerification)
      → IsQuiet (conclude py now explain i c v)
  unfolding conclude
  IsQuiet-conclude now explain i c v =
      let k = i.idempotency_key in
      IsQuiet-if (not v.verified)
        (IsQuiet-bind _ _
          (IsQuiet-on_store _ k (λ s. record_reconciliation-Touches py now k s _ _ none _))
          (λ a. IsQuiet-lift (err _)))
        (IsQuiet-on_store _ k (λ s. transition-Touches py now k s _ _ _ _))

  -- nothing that `pay` does after the executor's call is another call
  pub IsQuiet-settle_outcome :
      (now : String) (explain : String → String) (cfg : Config) (i : PaymentIntent)
      (receipt : PaymentReceipt) (o : Outcome)
      → IsQuiet (settle_outcome py now explain cfg i receipt o)
  unfolding settle_outcome
  IsQuiet-settle_outcome now explain cfg i receipt (refused e) =
      IsQuiet-bind (handle py now i e) _ (IsQuiet-handle now i e) (λ _. IsQuiet-lift (err _))
  IsQuiet-settle_outcome now explain cfg i receipt broken = IsQuiet-lift (err _)
  IsQuiet-settle_outcome now explain cfg i receipt (executed x) =
      IsQuiet-bind _ _ (IsQuiet-lift (as_contract (make_receipt py (candidate_of receipt x)))) λ c.
        IsQuiet-bind _ _ (IsQuiet-lift (verify_receipt py cfg.policy.mode cfg.hooks c i x))
          (λ v. IsQuiet-conclude now explain i c v)
