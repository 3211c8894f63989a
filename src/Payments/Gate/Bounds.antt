-- ===== src/Payments/Gate/Bounds.antt =====
-- What an authorized payment intent satisfies, and that nothing else is asked of it.
use autonomerce.Prelude.{
  ◌+◌, ◌≤◌, ◌<◌, String, true, false, not, ◌≡◌, ◌≢◌, refl, ◌↔◌, ◌⊎◌, inl, inr, Option, none, some,
  List, [], ◌∷◌, arith, Among, contains, is_empty, Bool, ◌&&◌, Bool-cases, contains_sound,
  contains_complete, string_eq,
}
use autonomerce.Prelude.Text.{Runtime, truthy}
use autonomerce.Prelude.Results.{Result, ok, err}
use autonomerce.Contracts.{accepted}
use autonomerce.Payments.Errors.{PaymentError}
use autonomerce.Payments.Models.{
  testnet, mainnet, PaymentIntent, PaymentPolicy, SpendingSnapshot, PaymentPolicyDecision,
}
use autonomerce.Payments.Models.Names.{is_testnet_chain, is_mainnet_chain, get_or, resource_host}
use autonomerce.Payments.Gate.{
  check_amounts, check_mode, check_chain, allowed_assets, check_asset, check_wallets, check_x402,
  check_host, check_all, evaluate, decide_by, Guard, deny, raise,
}
use autonomerce.Payments.Models.Intent.{payment_id}

pub record AmountsWithin (i : PaymentIntent) (p : PaymentPolicy) (s : SpendingSnapshot)
    : Type 0 where
  pub enabled : p.enabled ≡ true
  pub accepted_proposal : i.proposal_state ≡ accepted
  pub exact : i.amount_usdc ≡ i.expected_amount_usdc
  pub positive : 0 < i.amount_usdc
  pub per_payment : i.amount_usdc ≤ p.maximum_per_payment_usdc
  pub count : s.committed_payment_count < p.maximum_payment_count
  pub total : s.committed_usdc + i.amount_usdc ≤ p.maximum_total_usdc

check_amounts_iff :
    (i : PaymentIntent) (p : PaymentPolicy) (s : SpendingSnapshot)
    → (check_amounts i p s ≡ ok tt) ↔ AmountsWithin i p s
unfolding check_amounts
check_amounts_iff i p s = (λ h. ground arith, λ h. ground arith)

-- the network of the intent fits the mode of the policy
abbrev pub NetworkFits : Runtime → PaymentPolicy → String → Type 0
NetworkFits py p chain =
    (p.mode ≡ testnet → is_testnet_chain py chain ≡ ok true)
    × (p.mode ≡ mainnet → (p.mainnet_enabled ≡ true) × (is_mainnet_chain py chain ≡ ok true))

pub record ChainWithin (py : Runtime) (i : PaymentIntent) (p : PaymentPolicy) : Type 0 where
  pub chain : Among i.chain p.allowed_chains
  pub network : NetworkFits py p i.chain
  pub token : i.token ≡ p.allowed_token
  pub scheme : Among i.scheme p.allowed_schemes

check_mode_iff :
    (py : Runtime) (p : PaymentPolicy) (chain : String)
    → (check_mode py p.mode p.mainnet_enabled chain ≡ ok tt) ↔ NetworkFits py p chain
unfolding check_mode
check_mode_iff py p chain = (λ h. (λ m. ground arith, λ m. ground arith), λ h. ground arith)

check_chain_iff :
    (py : Runtime) (i : PaymentIntent) (p : PaymentPolicy)
    → (check_chain py i p ≡ ok tt) ↔ ChainWithin py i p
unfolding check_chain
check_chain_iff py i p = (
  λ h. record {
    chain = contains_sound i.chain p.allowed_chains (ground arith);
    network = (check_mode_iff py p i.chain).0 (ground arith);
    token = ground arith;
    scheme = contains_sound i.scheme p.allowed_schemes (ground arith);
  },
  λ h. ground (
    arith,
    contains_complete i.chain p.allowed_chains h.chain,
    (check_mode_iff py p i.chain).1 h.network,
    contains_complete i.scheme p.allowed_schemes h.scheme,
    h.token,
  ),
)

-- the two tests of an allowlist, which may be required, from the fact that they test
passes_allowlist :
    (a : String) (xs : List String) (required : Bool)
    → ((xs ≢ []) ⊎ (required ≡ true) → Among a xs)
    → ((required && is_empty xs) ≡ false) × ((not (is_empty xs) && not (contains a xs)) ≡ false)
passes_allowlist a [] false h = (refl, refl)
passes_allowlist a [] true h = elim (h (inr refl)) [ ]
passes_allowlist a (x ∷ xs) required h =
    ground (arith, contains_complete a (x ∷ xs) (h (inl (λ e. cc))))

-- an asset that is named is one that the policy, or else the table of known assets, lists
abbrev pub AssetWithin : Runtime → PaymentIntent → PaymentPolicy → Type 0
AssetWithin py i p =
    truthy i.asset ≡ true
    → Among (py.lower (get_or i.asset "")) (allowed_assets py (get_or i.asset "") i.chain p)

check_asset_iff :
    (py : Runtime) (i : PaymentIntent) (p : PaymentPolicy)
    → (check_asset py i p ≡ ok tt) ↔ AssetWithin py i p
unfolding check_asset
check_asset_iff py i p = (
  λ h t. contains_sound _ (allowed_assets py (get_or i.asset "") i.chain p) (ground arith),
  λ h. elim (Bool-cases (truthy i.asset)) [
    | inl named ↦ ground (
      arith,
      passes_allowlist (py.lower (get_or i.asset ""))
          (allowed_assets py (get_or i.asset "") i.chain p) true (λ _. h named),
    )
    | inr unnamed ↦ ground arith
  ],
)

pub record WalletsWithin (py : Runtime) (i : PaymentIntent) (p : PaymentPolicy) : Type 0 where
  pub payer_listed :
      (p.allowed_payer_wallets ≢ []) ⊎ (p.require_payer_allowlist ≡ true)
      → Among (py.lower i.payer_wallet) p.allowed_payer_wallets
  pub payee_listed :
      (p.allowed_payee_wallets ≢ []) ⊎ (p.require_payee_allowlist ≡ true)
      → Among (py.lower i.payee_wallet) p.allowed_payee_wallets
  pub parties_differ :
      p.allow_self_payment ≡ false → py.lower i.payer_wallet ≢ py.lower i.payee_wallet

check_wallets_iff :
    (py : Runtime) (i : PaymentIntent) (p : PaymentPolicy)
    → (check_wallets py i p ≡ ok tt) ↔ WalletsWithin py i p
unfolding check_wallets
check_wallets_iff py i p = (
  λ h. record {
    payer_listed = λ l. contains_sound _ p.allowed_payer_wallets (ground arith);
    payee_listed = λ l. contains_sound _ p.allowed_payee_wallets (ground arith);
    parties_differ = λ q. ground arith;
  },
  λ h. ground (
    arith,
    passes_allowlist _ p.allowed_payer_wallets p.require_payer_allowlist h.payer_listed,
    passes_allowlist _ p.allowed_payee_wallets p.require_payee_allowlist h.payee_listed,
    h.parties_differ,
  ),
)

-- an x402 identifier and its fingerprint come together, and where they are required they are there
abbrev pub X402Within : PaymentIntent → PaymentPolicy → Type 0
X402Within i p =
    (truthy i.x402_requirement_id ≡ truthy i.x402_requirement_fingerprint)
    × (p.require_x402_requirement_id ≡ true → truthy i.x402_requirement_id ≡ true)

check_x402_iff : (i : PaymentIntent) (p : PaymentPolicy) → (check_x402 i p ≡ ok tt) ↔ X402Within i p
unfolding check_x402
check_x402_iff i p = (λ h. (ground arith, λ q. ground arith), λ h. ground arith)

-- the tests of an allowlist that is never required
listed :
    (a : String) (xs : List String)
    → (xs ≢ [] → Among a xs)
    → (not (is_empty xs) && not (contains a xs)) ≡ false
listed a [] h = refl
listed a (x ∷ xs) h = ground (arith, contains_complete a (x ∷ xs) (h (λ e. cc)))

-- the host of the resource: none only without a URL or an allowlist, never blocked, and listed
-- where there is an allowlist
abbrev pub HostWithin : Option String → PaymentIntent → PaymentPolicy → Type 0
HostWithin none i p = (truthy i.resource_url ≡ false) × (p.allowed_resource_hosts ≡ [])
HostWithin (some host) i p =
    (host ≢ "" → ¬ (Among host p.blocked_resource_hosts))
    × (p.allowed_resource_hosts ≢ [] → Among host p.allowed_resource_hosts)

check_host_iff :
    (host : Option String) (i : PaymentIntent) (p : PaymentPolicy)
    → (check_host (truthy i.resource_url) host p ≡ ok tt) ↔ HostWithin host i p
unfolding check_host
check_host_iff none i p = (λ h. (ground arith, ground arith), λ h. ground arith)
check_host_iff (some host) i p = (
  λ h. (
    λ e b. ground (arith, contains_complete host p.blocked_resource_hosts b),
    λ e. contains_sound host p.allowed_resource_hosts (ground arith),
  ),
  λ h. elim (Bool-cases (contains host p.blocked_resource_hosts)) [
    | inl blocked ↦ ground (
      arith,
      contains_sound host p.blocked_resource_hosts blocked,
      listed host p.allowed_resource_hosts h.1,
      h.0,
    )
    | inr free ↦ ground (arith, listed host p.allowed_resource_hosts h.1)
  ],
)

-- the bounds of a policy, together
pub record Authorizable (py : Runtime) (i : PaymentIntent) (p : PaymentPolicy)
    (s : SpendingSnapshot) : Type 0 where
  pub amounts : AmountsWithin i p s
  pub chain : ChainWithin py i p
  pub asset : AssetWithin py i p
  pub wallets : WalletsWithin py i p
  pub x402 : X402Within i p
  pub host : HostWithin (resource_host py i.resource_url) i p

check_all_iff :
    (py : Runtime) (i : PaymentIntent) (p : PaymentPolicy) (s : SpendingSnapshot)
    → (check_all py i p s ≡ ok tt) ↔ Authorizable py i p s
unfolding check_all
check_all_iff py i p s = (
  λ h. record {
    amounts = (check_amounts_iff i p s).0 (ground arith);
    chain = (check_chain_iff py i p).0 (ground arith);
    asset = (check_asset_iff py i p).0 (ground arith);
    wallets = (check_wallets_iff py i p).0 (ground arith);
    x402 = (check_x402_iff i p).0 (ground arith);
    host = (check_host_iff (resource_host py i.resource_url) i p).0 (ground arith);
  },
  λ h. ground (
    arith,
    (check_amounts_iff i p s).1 h.amounts,
    (check_chain_iff py i p).1 h.chain,
    (check_asset_iff py i p).1 h.asset,
    (check_wallets_iff py i p).1 h.wallets,
    (check_x402_iff i p).1 h.x402,
    (check_host_iff (resource_host py i.resource_url) i p).1 h.host,
  ),
)

-- the gate returned a decision to authorize
abbrev pub Authorizes : Result PaymentError PaymentPolicyDecision → Type 0
Authorizes (ok d) = d.authorized ≡ true
Authorizes (err e) = ⊥

Authorizes-decide_by :
    (g : Guard) (p : PaymentPolicy) (id : String) → Authorizes (decide_by g p id) → g ≡ ok tt
unfolding decide_by
Authorizes-decide_by (ok _) p id h = refl
Authorizes-decide_by (err (deny r)) p id h = cc
Authorizes-decide_by (err (raise e)) p id h = elim h [ ]

-- For every intent, policy and spending snapshot, the gate returns a decision to authorize
-- exactly when all bounds of `Authorizable` hold.
pub evaluate_iff :
    (py : Runtime) (i : PaymentIntent) (p : PaymentPolicy) (s : SpendingSnapshot)
    → Authorizes (evaluate py i p s) ↔ Authorizable py i p s
unfolding evaluate
evaluate_iff py i p s = (
  λ h. (check_all_iff py i p s).0 (Authorizes-decide_by (check_all py i p s) p (payment_id py i) h),
  λ h. rw ((check_all_iff py i p s).1 h) refl,
)
