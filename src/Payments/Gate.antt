-- ===== src/Payments/Gate.antt =====
-- apps/api/autonomerce/payments/policy.py: `PaymentPolicyGate.evaluate`, its guards in the order of
-- the code, in one function for each subject.
pub mod Bounds
use autonomerce.Prelude.{
  ℕ, ◌+◌, String, Bool, true, false, not, ◌&&◌, ◌||◌, ltb, leb, if◌then◌else◌, ◌==◌, string_eq,
  nat_eq, Option, none, some, List, [], ◌∷◌, is_empty, contains,
}
use autonomerce.Prelude.Text.{Runtime, truthy}
use autonomerce.Prelude.Dict.{lookup}
use autonomerce.Prelude.Results.{Result, ok, err, ◌>>=◌, ◌>>◌, raise_if}
use autonomerce.Contracts.{accepted, proposal_state_eq}
use autonomerce.Payments.Errors.{
  PaymentError, Reason, policy_disabled, proposal_not_accepted, proposal_amount_mismatch,
  invalid_amount, per_payment_limit, payment_count_limit, cumulative_limit, chain_not_allowed,
  mode_chain_mismatch, mainnet_not_enabled, token_mismatch, scheme_not_allowed,
  asset_not_allowlisted, asset_mismatch, payer_allowlist_missing, payer_not_allowed,
  payee_allowlist_missing, payee_not_allowed, self_payment, x402_identifier_required,
  x402_fingerprint_required, invalid_resource_host, resource_host_blocked,
  resource_host_not_allowed, authorized,
}
use autonomerce.Payments.Models.{
  PaymentMode, offline, testnet, mainnet, PaymentIntent, PaymentPolicy, SpendingSnapshot,
  PaymentPolicyDecision,
}
use autonomerce.Payments.Models.Names.{
  is_testnet_chain, is_mainnet_chain, known_usdc_assets, get_or, resource_host,
}
use autonomerce.Payments.Models.Intent.{payment_id}

-- how a guard leaves the function: by a denial, or by an exception of a helper
pub data Stop : Type 0 where
  deny : Reason → Stop
  raise : PaymentError → Stop

abbrev pub Guard : Type 0
Guard = Result Stop (Unit {0})

abbrev pub deny_if : Bool → Reason → Guard
deny_if b r = raise_if b (deny r)

-- a helper that may raise
abbrev pub lift {ℓ} : {A : Type ℓ} → Result PaymentError A → Result Stop A
lift (ok a) = ok a
lift (err e) = err (raise e)

unfoldable pub check_amounts : PaymentIntent → PaymentPolicy → SpendingSnapshot → Guard
check_amounts i p s = do
  deny_if (not p.enabled) policy_disabled
  deny_if (not (i.proposal_state == accepted)) proposal_not_accepted
  deny_if (not (i.amount_usdc == i.expected_amount_usdc)) proposal_amount_mismatch
  deny_if (leb i.amount_usdc 0) invalid_amount
  deny_if (ltb p.maximum_per_payment_usdc i.amount_usdc) per_payment_limit
  deny_if (leb p.maximum_payment_count s.committed_payment_count) payment_count_limit
  deny_if (ltb p.maximum_total_usdc (s.committed_usdc + i.amount_usdc)) cumulative_limit

-- the tests of the mode
unfoldable pub check_mode : Runtime → PaymentMode → Bool → String → Guard
check_mode py offline mainnet_enabled chain = ok tt
check_mode py testnet mainnet_enabled chain = do
  on_testnet ← lift (is_testnet_chain py chain)
  deny_if (not on_testnet) mode_chain_mismatch
check_mode py mainnet mainnet_enabled chain = do
  deny_if (not mainnet_enabled) mainnet_not_enabled
  on_mainnet ← lift (is_mainnet_chain py chain)
  deny_if (not on_mainnet) mode_chain_mismatch

unfoldable pub check_chain : Runtime → PaymentIntent → PaymentPolicy → Guard
check_chain py i p = do
  deny_if (not (contains i.chain p.allowed_chains)) chain_not_allowed
  check_mode py p.mode p.mainnet_enabled i.chain
  deny_if (not (i.token == p.allowed_token)) token_mismatch
  deny_if (not (contains i.scheme p.allowed_schemes)) scheme_not_allowed

-- `allowed_assets`, where an empty tuple and `None` are alike
unfoldable pub allowed_assets : Runtime → String → String → PaymentPolicy → List String
unfolding lookup
allowed_assets py asset chain p =
    if py.upper asset == p.allowed_token
    then py.lower asset ∷ []
    else (elim (lookup chain p.allowed_assets_by_chain) [
      | some listed ↦ listed
      | none ↦ get_or (lookup chain known_usdc_assets) []
    ])

unfoldable pub check_asset : Runtime → PaymentIntent → PaymentPolicy → Guard
check_asset py i p =
    let asset = get_or i.asset "" in
    let listed = allowed_assets py asset i.chain p in
    if truthy i.asset
    then (do
      deny_if (is_empty listed) asset_not_allowlisted
      deny_if (not (contains (py.lower asset) listed)) asset_mismatch)
    else ok tt

unfoldable pub check_wallets : Runtime → PaymentIntent → PaymentPolicy → Guard
check_wallets py i p = do
  let payer = py.lower i.payer_wallet
  let payee = py.lower i.payee_wallet
  deny_if (p.require_payer_allowlist && is_empty p.allowed_payer_wallets) payer_allowlist_missing
  deny_if (not (is_empty p.allowed_payer_wallets) && not (contains payer p.allowed_payer_wallets))
      payer_not_allowed
  deny_if (p.require_payee_allowlist && is_empty p.allowed_payee_wallets) payee_allowlist_missing
  deny_if (not (is_empty p.allowed_payee_wallets) && not (contains payee p.allowed_payee_wallets))
      payee_not_allowed
  deny_if (payer == payee && not p.allow_self_payment) self_payment

unfoldable pub check_x402 : PaymentIntent → PaymentPolicy → Guard
check_x402 i p = do
  let identified = truthy i.x402_requirement_id
  let printed = truthy i.x402_requirement_fingerprint
  deny_if (p.require_x402_requirement_id && not identified) x402_identifier_required
  deny_if (identified && not printed) x402_fingerprint_required
  deny_if (printed && not identified) x402_identifier_required

-- the tests of the host that `resource_host` gave
unfoldable pub check_host : Bool → Option String → PaymentPolicy → Guard
check_host has_url none p = do
  deny_if has_url invalid_resource_host
  deny_if (not (is_empty p.allowed_resource_hosts)) resource_host_not_allowed
check_host has_url (some host) p = do
  deny_if (not (host == "") && contains host p.blocked_resource_hosts) resource_host_blocked
  deny_if (not (is_empty p.allowed_resource_hosts) && not (contains host p.allowed_resource_hosts))
      resource_host_not_allowed

unfoldable pub check_all : Runtime → PaymentIntent → PaymentPolicy → SpendingSnapshot → Guard
check_all py i p s = do
  check_amounts i p s
  check_chain py i p
  check_asset py i p
  check_wallets py i p
  check_x402 i p
  check_host (truthy i.resource_url) (resource_host py i.resource_url) p

unfoldable pub decide_by :
    Guard → PaymentPolicy → String → Result PaymentError PaymentPolicyDecision
decide_by (ok _) p id = ok (record {
  authorized = true;
  reason_code = authorized;
  policy_id = p.policy_id;
  payment_id = id;
})
decide_by (err (deny r)) p id =
    ok (record { authorized = false; reason_code = r; policy_id = p.policy_id; payment_id = id })
decide_by (err (raise e)) p id = err e

-- `PaymentPolicyGate.evaluate`
unfoldable pub evaluate :
    Runtime
    → PaymentIntent
    → PaymentPolicy
    → SpendingSnapshot
    → Result PaymentError PaymentPolicyDecision
unfolding decide_by
evaluate py i p s = decide_by (check_all py i p s) p (payment_id py i)
