-- ===== src/Payments/Models.antt =====
-- apps/api/autonomerce/payments/models.py: chains, wallets, intents, policies and executor evidence.
pub mod Names
pub mod Intent
pub mod Keys
use autonomerce.Prelude.{ℕ, String, Bool, true, false, Option, List, Eq}
use autonomerce.Prelude.Dict.{Dict}
use autonomerce.Contracts.{ProposalState}
use autonomerce.Payments.Errors.{Reason}

pub data PaymentMode : Type 0 where
  offline testnet mainnet : PaymentMode

unfoldable pub PaymentMode-discrete : Discrete PaymentMode
PaymentMode-discrete = hlevel

instance abbrev pub payment_mode_eq : Eq PaymentMode
payment_mode_eq = record { discrete = PaymentMode-discrete }

abbrev pub is_live : PaymentMode → Bool
is_live offline = false
is_live testnet = true
is_live mainnet = true

-- `PaymentIntent` behind its `__post_init__`, without the metadata that nothing reads
pub record PaymentIntent : Type 0 where
  pub proposal_id : String
  pub idempotency_key : String
  pub amount_usdc : ℕ
  pub chain : String
  pub token : String
  pub payer_wallet : String
  pub payee_wallet : String
  pub proposal_state : ProposalState
  pub expected_amount_usdc : ℕ
  pub asset : Option String
  pub scheme : String
  pub x402_requirement_id : Option String
  pub x402_requirement_fingerprint : Option String
  pub resource_url : Option String

pub record PaymentPolicy : Type 0 where
  pub policy_id : String
  pub mode : PaymentMode
  pub maximum_per_payment_usdc : ℕ
  pub maximum_total_usdc : ℕ
  pub allowed_chains : List String
  pub allowed_token : String
  pub allowed_payer_wallets : List String
  pub allowed_payee_wallets : List String
  pub maximum_payment_count : ℕ
  pub allowed_schemes : List String
  pub allowed_assets_by_chain : Dict (List String)
  pub allowed_resource_hosts : List String
  pub blocked_resource_hosts : List String
  pub require_payer_allowlist : Bool
  pub require_payee_allowlist : Bool
  pub require_x402_requirement_id : Bool
  pub allow_self_payment : Bool
  pub mainnet_enabled : Bool
  pub enabled : Bool

pub record SpendingSnapshot : Type 0 where
  pub committed_usdc : ℕ
  pub committed_payment_count : ℕ

pub record PaymentPolicyDecision : Type 0 where
  pub authorized : Bool
  pub reason_code : Reason
  pub policy_id : String
  pub payment_id : String

-- `ExecutionResult` behind its `__post_init__`; `is_confirmed` is its state
pub record ExecutionResult : Type 0 where
  pub is_confirmed : Bool
  pub amount_usdc : ℕ
  pub chain : String
  pub payer_wallet : String
  pub payee_wallet : String
  pub transaction_hash : Option String
  pub confirmed_at : Option String
  pub explorer_url : Option String
  pub simulated : Bool
  pub token : String
  pub asset : Option String

pub record ReceiptVerification : Type 0 where
  pub verified : Bool
  pub reason_code : String
  pub hook_results : List String
