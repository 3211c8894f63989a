-- ===== src/Payments/Verification/Sound.antt =====
-- What a verified receipt proves of the intent, of the execution and of every hook.
use autonomerce.Prelude.{
  String, true, false, ◌≡◌, ◌≢◌, ◌⊎◌, inl, inr, none, some, List, [], ◌∷◌, arith, Bool-cases,
}
use autonomerce.Prelude.Text.{Runtime}
use autonomerce.Prelude.Results.{ok, Result-cases}
use autonomerce.Contracts.{confirmed}
use autonomerce.Contracts.Receipt.{PaymentReceipt}
use autonomerce.Payments.Models.{PaymentMode, offline, PaymentIntent, ExecutionResult}
use autonomerce.Payments.Models.Names.{
  canonical_chain, normalize_wallet_address, normalize_transaction_hash, get_or,
}
use autonomerce.Payments.Models.Intent.{payment_id}
use autonomerce.Payments.Verification.{
  HookResult, verdict, is_true, is_none, is_false, other, raised, ReceiptHook, check_identity,
  check_money, check_parties, check_evidence, check_lookup, has_independent_transaction_lookup,
  hook_verdict, run_hooks, check_receipt,
}

-- a hook that passes: a verified verdict, `True` or `None`
abbrev pub Passes : HookResult → Type 0
Passes (verdict v) = v.verified ≡ true
Passes is_true = Unit
Passes is_none = Unit
Passes is_false = ⊥
Passes other = ⊥
Passes raised = ⊥

abbrev pub AllPass : PaymentReceipt → PaymentIntent → ExecutionResult → List ReceiptHook → Type 0
AllPass r i x [] = Unit
AllPass r i x (h ∷ hooks) = Passes (h.run r i x) × AllPass r i x hooks

abbrev pub SomeLooksUp : List ReceiptHook → Type 0
SomeLooksUp [] = ⊥
SomeLooksUp (h ∷ hooks) = (h.looks_up ≡ true) ⊎ SomeLooksUp hooks

-- a text is a wallet of a chain, and it is this one but for the case of its letters
abbrev pub NamesWallet : Runtime → String → String → String → Type 0
NamesWallet py given chain wallet =
    (named : String) × (normalize_wallet_address py given chain ≡ ok named)
    × (py.lower named ≡ py.lower wallet)

-- the receipt, the intent and the execution tell of one payment
pub record Agrees (py : Runtime) (mode : PaymentMode) (r : PaymentReceipt) (i : PaymentIntent)
    (x : ExecutionResult) : Type 0 where
  pub state : r.state ≡ confirmed
  pub executed : x.is_confirmed ≡ true
  pub payment : r.payment_id ≡ payment_id py i
  pub proposal : r.proposal_id ≡ i.proposal_id
  pub idempotency : r.idempotency_key ≡ i.idempotency_key
  pub receipt_amount : r.amount_usdc ≡ i.amount_usdc
  pub executed_amount : x.amount_usdc ≡ i.amount_usdc
  pub receipt_chain : canonical_chain py r.chain ≡ ok i.chain
  pub executed_chain : x.chain ≡ i.chain
  pub receipt_token : r.token ≡ i.token
  pub executed_token : x.token ≡ i.token
  pub executed_asset : x.asset ≡ i.asset
  pub receipt_asset : (r.asset ≡ i.asset) ⊎ ((mode ≡ offline) × (r.asset ≡ none))
  pub receipt_payer : NamesWallet py r.payer_wallet r.chain i.payer_wallet
  pub receipt_payee : NamesWallet py r.payee_wallet r.chain i.payee_wallet
  pub executed_payer : py.lower x.payer_wallet ≡ py.lower i.payer_wallet
  pub executed_payee : py.lower x.payee_wallet ≡ py.lower i.payee_wallet
  pub simulated_offline : mode ≡ offline → x.simulated ≡ true
  pub real_live : mode ≢ offline → x.simulated ≡ false
  pub bound_live : mode ≢ offline → (i.asset ≢ none) × (i.asset ≢ some i.token)

pub record Evidence (py : Runtime) (r : PaymentReceipt) (x : ExecutionResult) : Type 0 where
  pub hash : String
  pub valid : normalize_transaction_hash py (get_or r.transaction_hash "") ≡ ok hash
  pub same : py.lower hash ≡ py.lower (get_or x.transaction_hash "")

hook_verdict-Passes :
    (k : ReceiptHook) (v : HookResult) {name : String} → hook_verdict k v ≡ ok name → Passes v
unfolding hook_verdict
hook_verdict-Passes k (verdict v) h = ground arith
hook_verdict-Passes k is_true h = tt
hook_verdict-Passes k is_none h = tt
hook_verdict-Passes k is_false h = cc
hook_verdict-Passes k other h = cc
hook_verdict-Passes k raised h = cc

run_hooks-AllPass :
    (r : PaymentReceipt) (i : PaymentIntent) (x : ExecutionResult) (hooks : List ReceiptHook)
    {results : List String}
    → run_hooks r i x hooks ≡ ok results
    → AllPass r i x hooks
unfolding run_hooks
run_hooks-AllPass r i x [] h = tt
run_hooks-AllPass r i x (k ∷ hooks) h = elim (Result-cases (hook_verdict k (k.run r i x))) [
  | inr (e, stopped) ↦ absurd (ground arith)
  | inl (first, passed) ↦ elim (Result-cases (run_hooks r i x hooks)) [
    | inr (e, stopped) ↦ absurd (ground arith)
    | inl (more, rest) ↦
        (hook_verdict-Passes k (k.run r i x) passed, run_hooks-AllPass r i x hooks rest)
  ]
]

any-SomeLooksUp :
    (hooks : List ReceiptHook) → has_independent_transaction_lookup hooks ≡ true → SomeLooksUp hooks
unfolding has_independent_transaction_lookup
any-SomeLooksUp [] h = cc
any-SomeLooksUp (k ∷ hooks) h = elim (Bool-cases k.looks_up) [
  | inl p ↦ inl p
  | inr p ↦ inr (any-SomeLooksUp hooks (ground arith))
]

module _ (py : Runtime) (mode : PaymentMode) (r : PaymentReceipt) (i : PaymentIntent)
    (x : ExecutionResult) where
  money :
      check_money py mode r i x ≡ ok tt
      → (canonical_chain py r.chain ≡ ok i.chain)
        × (x.chain ≡ i.chain)
        × (r.token ≡ i.token)
        × (x.token ≡ i.token)
        × (x.asset ≡ i.asset)
        × ((r.asset ≡ i.asset) ⊎ ((mode ≡ offline) × (r.asset ≡ none)))
  unfolding check_money
  money h = (ground arith, ground arith, ground arith, ground arith, ground arith, ground arith)

  parties :
      check_parties py r i x ≡ ok tt
      → (py.lower x.payer_wallet ≡ py.lower i.payer_wallet)
        × (py.lower x.payee_wallet ≡ py.lower i.payee_wallet)
        × NamesWallet py r.payer_wallet r.chain i.payer_wallet
        × NamesWallet py r.payee_wallet r.chain i.payee_wallet
  unfolding check_parties
  parties h = elim (Result-cases (normalize_wallet_address py r.payer_wallet r.chain)) [
    | inr (e, bad) ↦ absurd (ground arith)
    | inl (payer, is_payer) ↦
        elim (Result-cases (normalize_wallet_address py r.payee_wallet r.chain)) [
          | inr (e, bad) ↦ absurd (ground arith)
          | inl (payee, is_payee) ↦ (
            ground arith,
            ground arith,
            (payer, is_payer, ground arith),
            (payee, is_payee, ground arith),
          )
        ]
  ]

  evidence :
      check_evidence py mode r i x ≡ ok tt
      → Evidence py r x
        × (mode ≡ offline → x.simulated ≡ true)
        × (mode ≢ offline → x.simulated ≡ false)
  unfolding check_evidence
  evidence h = elim (Result-cases (normalize_transaction_hash py (get_or r.transaction_hash ""))) [
    | inl (hash, valid) ↦ (
      record { hash = hash; valid = valid; same = ground arith },
      λ m. ground arith,
      λ m. ground arith,
    )
    | inr (e, invalid) ↦ absurd (ground arith)
  ]

  lookups :
      (hooks : List ReceiptHook)
      → check_lookup mode i hooks ≡ ok tt
      → mode ≢ offline
      → (has_independent_transaction_lookup hooks ≡ true)
        × ((i.asset ≢ none) × (i.asset ≢ some i.token))
  unfolding check_lookup
  lookups hooks h m = (ground arith, (λ p. ground arith, λ p. ground arith))

  identity :
      check_identity py r i x ≡ ok tt
      → (r.state ≡ confirmed)
        × (x.is_confirmed ≡ true)
        × (r.payment_id ≡ payment_id py i)
        × (r.proposal_id ≡ i.proposal_id)
        × (r.idempotency_key ≡ i.idempotency_key)
        × (r.amount_usdc ≡ i.amount_usdc)
        × (x.amount_usdc ≡ i.amount_usdc)
  unfolding check_identity
  identity h = (
    ground arith,
    ground arith,
    ground arith,
    ground arith,
    ground arith,
    ground arith,
    ground arith,
  )

  -- what a verified receipt proves
  pub record Verified (hooks : List ReceiptHook) : Type 0 where
    pub agrees : Agrees py mode r i x
    pub proof : Evidence py r x
    pub passed : AllPass r i x hooks
    pub looked_up : mode ≢ offline → SomeLooksUp hooks

  pub check_receipt-Verified :
      (hooks : List ReceiptHook) {results : List String}
      → check_receipt py mode hooks r i x ≡ ok results
      → Verified hooks
  unfolding check_receipt
  check_receipt-Verified hooks {results} h =
      let a = identity (ground arith) in
      let b = money (ground arith) in
      let c = parties (ground arith) in
      let d = evidence (ground arith) in
      let looked = lookups hooks (ground arith) in
      record {
        agrees = record {
          state = a.0;
          executed = a.1;
          payment = a.2;
          proposal = a.3;
          idempotency = a.4;
          receipt_amount = a.5;
          executed_amount = a.6;
          receipt_chain = b.0;
          executed_chain = b.1;
          receipt_token = b.2;
          executed_token = b.3;
          executed_asset = b.4;
          receipt_asset = b.5;
          receipt_payer = c.2;
          receipt_payee = c.3;
          executed_payer = c.0;
          executed_payee = c.1;
          simulated_offline = d.1;
          real_live = d.2;
          bound_live = λ m. (looked m).1;
        };
        proof = d.0;
        passed = run_hooks-AllPass r i x hooks {results = results} (ground arith);
        looked_up = λ m. any-SomeLooksUp hooks (looked m).0;
      }
