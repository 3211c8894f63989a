-- ===== src/Offers/Policy.antt =====
-- packages/offerrail/policy.py: `evaluate_commercial_policy`. Its tests are listed in the order of
-- the code, each with the reason code that it adds when it is true.
pub mod Violations
pub mod Decided
pub mod Matches
pub mod Reasons
pub mod Permitted
use autonomerce.Prelude.{
  ℕ, ◌-◌, ◌*◌, ◌^◌, String, Bool, true, false, not, ◌&&◌, ◌||◌, ltb, leb, if◌then◌else◌, ◌==◌,
  string_eq, Option, none, some, List, [], ◌∷◌, ◌++◌, contains, any, is_empty,
}
use autonomerce.Prelude.Text.{Runtime, strip}
use autonomerce.Prelude.Results.{Result, ok, err, ◌>>=◌, ◌>>◌, raise_if}
use autonomerce.Contracts.{
  ProposalState, draft, declined, expired, paid, fulfilling, delivered, failed, proposal_state_eq,
}
use autonomerce.Contracts.Offers.{
  OfferError, denied, ServiceSku, CommercialPolicy, Fraction, Proposal,
}
use autonomerce.Payments.Models.Names.{get_or}
use autonomerce.Offers.Time.{Time, text, parse_timestamp}
use autonomerce.Offers.Hosts.{hostname_from_url, normalize_rules, matches_host}

-- a count of the context; `invalid` when it is not a non-negative integer
pub data Count : Type 0 where
  count : ℕ → Count
  invalid : Count

-- `PolicyContext`
pub record PolicyContext : Type 0 where
  pub chain : String
  pub token : String
  pub current_open_proposals : Count
  pub current_tasks_last_hour : Count
  pub current_sku_tasks_last_hour : Count
  pub reserving_new_proposal : Option Bool
  pub now : Option Time

pub record PolicyEvaluation : Type 0 where
  pub allowed : Bool
  pub policy_id : String
  pub proposal_id : String
  pub reason_codes : List String

-- `_append_once`
unfoldable pub append_once : List String → String → List String
append_once reasons reason = if contains reason reasons then reasons else reasons ++ reason ∷ []

-- the tests one after another, each of which appends its reason when it is true
unfoldable pub collect : List (Bool × String) → List String → List String
collect [] reasons = reasons
collect ((test, reason) ∷ tests) reasons =
    collect tests (if test then append_once reasons reason else reasons)

-- `_normalized_upper`
unfoldable pub normalized_upper : Runtime → List String → List String
normalized_upper py [] = []
normalized_upper py (value ∷ values) =
    let rest = normalized_upper py values in
    if strip value == "" then rest else py.upper (strip value) ∷ rest

-- the states in which a proposal is no longer negotiated or awaiting its payment
abbrev pub is_inactive : ProposalState → Bool
is_inactive s =
    s == declined || s == expired || s == paid || s == fulfilling || s == delivered || s == failed

-- `price < base * (1 - fraction)`, both sides times `10 ^ places`
abbrev pub below_discount_floor : ℕ → ℕ → Fraction → Bool
below_discount_floor price base f = ltb (price * 10 ^ f.places) (base * (10 ^ f.places - f.units))

abbrev pub proposal_tests : CommercialPolicy → ServiceSku → Proposal → List (Bool × String)
proposal_tests p sku o =
    (not p.unattended, "policy_unattended_disabled")
    ∷ (not (o.sku_id == sku.sku_id), "sku_mismatch")
    ∷ (is_inactive o.state, "proposal_state_not_commercially_active")
    ∷ (ltb o.price_usdc p.minimum_price_usdc, "price_below_policy_minimum")
    ∷ (ltb p.maximum_price_usdc o.price_usdc, "price_above_policy_maximum")
    ∷ (
      below_discount_floor o.price_usdc sku.base_price_usdc p.maximum_discount_fraction,
      "discount_exceeds_policy",
    )
    ∷ (ltb sku.maximum_latency_seconds o.delivery_seconds, "delivery_exceeds_sku_latency")
    ∷ []

unfoldable pub chain_allowed : Runtime → String → CommercialPolicy → Bool
unfolding normalized_upper
chain_allowed py chain p = contains (py.upper (strip chain)) (normalized_upper py p.allowed_chains)

abbrev pub money_tests : Runtime → String → String → CommercialPolicy → List (Bool × String)
money_tests py chain token p =
    let no_chain = strip chain == "" in
    let no_token = strip token == "" || strip p.allowed_token == "" in
    (no_chain, "invalid_chain")
    ∷ (not no_chain && not (chain_allowed py chain p), "chain_not_allowed")
    ∷ (no_token, "invalid_token")
    ∷ (
      not no_token && not (py.upper (strip token) == py.upper (strip p.allowed_token)),
      "token_not_allowed",
    )
    ∷ []

abbrev pub failed_with {ℓ} : {E : Type 0} {A : Type ℓ} → Result E A → Bool
failed_with (ok a) = false
failed_with (err e) = true

abbrev pub ok_or {ℓ} : {E : Type 0} {A : Type ℓ} → Result E A → A → A
ok_or (ok a) b = a
ok_or (err e) b = b

-- the normalized rules of a policy: those that block, and those that allow
unfoldable pub host_rules :
    Runtime → CommercialPolicy → Result OfferError (List (String × Bool) × List (String × Bool))
unfolding normalize_rules
host_rules py p = do
  blocked ← normalize_rules py p.blocked_buyer_hosts
  allowed ← normalize_rules py p.allowed_buyer_hosts
  ok (blocked, allowed)

abbrev pub host_tests : Runtime → CommercialPolicy → Proposal → List (Bool × String)
host_tests py p o =
    let found = hostname_from_url py o.buyer_agent_url in
    let host = ok_or found "" in
    let rules = ok_or (host_rules py p) ([], []) in
    (failed_with found, "invalid_buyer_url")
    ∷ (failed_with (host_rules py p), "invalid_policy_host_rule")
    ∷ (not (host == "") && any (matches_host host) rules.0, "buyer_blocked")
    ∷ (
      not (host == "") && not (is_empty rules.1) && not (any (matches_host host) rules.1),
      "buyer_not_allowlisted",
    )
    ∷ []

-- `_nonnegative_count(value) is None`
abbrev pub is_invalid : Count → Bool
is_invalid (count n) = false
is_invalid invalid = true

-- `value >= limit` for a valid count
abbrev pub reaches : Count → ℕ → Bool
reaches (count n) limit = leb limit n
reaches invalid limit = false

abbrev pub capacity_tests :
    CommercialPolicy → ServiceSku → PolicyContext → Bool → List (Bool × String)
capacity_tests p sku c reserving =
    let bad =
      is_invalid c.current_open_proposals
      || is_invalid c.current_tasks_last_hour
      || is_invalid c.current_sku_tasks_last_hour in
    (bad, "invalid_capacity_context")
    ∷ (
      not bad && reserving && reaches c.current_open_proposals p.maximum_open_proposals,
      "open_proposal_capacity_exceeded",
    )
    ∷ (
      not bad && reaches c.current_tasks_last_hour p.maximum_tasks_per_hour,
      "hourly_task_capacity_exceeded",
    )
    ∷ (
      not bad && reaches c.current_sku_tasks_last_hour sku.capacity_per_hour,
      "sku_capacity_exceeded",
    )
    ∷ []

-- the instant of `now`, or that of the clock
abbrev pub instant_of : Runtime → ℕ → Option Time → Result OfferError ℕ
instant_of py clock none = ok clock
instant_of py clock (some t) = parse_timestamp py t

-- `current >= expires_at`, where either may fail to parse
unfoldable pub is_past : Runtime → ℕ → Option Time → String → Result OfferError Bool
is_past py clock now expiry = do
  expires_at ← parse_timestamp py (text expiry)
  current ← instant_of py clock now
  ok (leb expires_at current)

abbrev pub time_tests : Runtime → ℕ → Option Time → Option String → List (Bool × String)
time_tests py clock now (some expiry) =
    let past = is_past py clock now expiry in
    (ok_or past false, "proposal_expired") ∷ (failed_with past, "invalid_proposal_expiry") ∷ []
time_tests py clock (some t) none = (failed_with (parse_timestamp py t), "invalid_policy_now") ∷ []
time_tests py clock none none = []

-- `selected_reserving`
abbrev pub selected_reserving : Proposal → PolicyContext → Option Bool → Bool
selected_reserving o c (some b) = b
selected_reserving o c none = get_or c.reserving_new_proposal (o.state == draft)

-- all tests, for the context of a call and its `reserving_new_proposal`
unfoldable pub policy_tests :
    Runtime
    → ℕ
    → CommercialPolicy
    → ServiceSku
    → Proposal
    → PolicyContext
    → Option Bool
    → List (Bool × String)
policy_tests py clock p sku o c reserving =
    proposal_tests p sku o
    ++ money_tests py c.chain c.token p
    ++ host_tests py p o
    ++ capacity_tests p sku c (selected_reserving o c reserving)
    ++ time_tests py clock c.now o.expires_at

-- `evaluate_commercial_policy`, called with a context and `reserving_new_proposal`
unfoldable pub evaluate_commercial_policy :
    Runtime
    → ℕ
    → CommercialPolicy
    → ServiceSku
    → Proposal
    → PolicyContext
    → Option Bool
    → PolicyEvaluation
unfolding collect
evaluate_commercial_policy py clock p sku o c reserving =
    let reasons = collect (policy_tests py clock p sku o c reserving) [] in
    record {
      allowed = is_empty reasons;
      policy_id = p.policy_id;
      proposal_id = o.proposal_id;
      reason_codes = reasons;
    }

-- `require_policy_approval`
unfoldable pub require_policy_approval :
    Runtime
    → ℕ
    → CommercialPolicy
    → ServiceSku
    → Proposal
    → PolicyContext
    → Option Bool
    → Result OfferError PolicyEvaluation
require_policy_approval py clock p sku o c reserving = do
  let evaluation = evaluate_commercial_policy py clock p sku o c reserving
  raise_if (not evaluation.allowed) (denied evaluation.reason_codes)
  ok evaluation
