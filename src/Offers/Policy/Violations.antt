-- ===== src/Offers/Policy/Violations.antt =====
-- packages/offerrail/policy.py: the ways in which an offer violates a policy, in the order in which
-- they are reported, each with its reason code.
use autonomerce.Prelude.{
  ℕ, ◌*◌, ◌^◌, ◌-◌, ◌≤◌, ◌<◌, String, Bool, true, false, string_eq, ◌≡◌, ◌≢◌, ◌⊎◌, Option, none,
  some, List, [], ◌∷◌, ◌++◌, any,
}
use autonomerce.Prelude.Text.{Runtime, strip}
use autonomerce.Prelude.Results.{Result, ok, err}
use autonomerce.Contracts.{draft, offered, countered, accepted, proposal_state_eq}
use autonomerce.Contracts.Offers.{ServiceSku, CommercialPolicy, Proposal}
use autonomerce.Offers.Hosts.{hostname_from_url, matches_host}
use autonomerce.Offers.Time.{Time, text, parse_timestamp}
use autonomerce.Offers.Policy.{
  count, invalid, PolicyContext, host_rules, selected_reserving, instant_of,
}

abbrev pub offer_violations : CommercialPolicy → ServiceSku → Proposal → List (Type 0 × String)
offer_violations p sku o =
    (p.unattended ≡ false, "policy_unattended_disabled")
    ∷ (o.sku_id ≢ sku.sku_id, "sku_mismatch")
    ∷ (
      (o.state ≢ draft) × (o.state ≢ offered) × (o.state ≢ countered) × (o.state ≢ accepted),
      "proposal_state_not_commercially_active",
    )
    ∷ (o.price_usdc < p.minimum_price_usdc, "price_below_policy_minimum")
    ∷ (p.maximum_price_usdc < o.price_usdc, "price_above_policy_maximum")
    ∷ (
      o.price_usdc * 10 ^ p.maximum_discount_fraction.places
          < sku.base_price_usdc
            * (10 ^ p.maximum_discount_fraction.places - p.maximum_discount_fraction.units),
      "discount_exceeds_policy",
    )
    ∷ (sku.maximum_latency_seconds < o.delivery_seconds, "delivery_exceeds_sku_latency")
    ∷ []

-- a chain of the policy's list that is not blank is the given one, up to case and blanks around it
abbrev pub Lists : Runtime → String → List String → Type 0
Lists py chain [] = ⊥
Lists py chain (listed ∷ rest) =
    ((strip listed ≢ "") × (py.upper (strip listed) ≡ py.upper (strip chain))) ⊎ Lists py chain rest

abbrev pub money_violations : Runtime → String → String → CommercialPolicy → List (Type 0 × String)
money_violations py chain token p =
    (strip chain ≡ "", "invalid_chain")
    ∷ ((strip chain ≢ "") × ¬ Lists py chain p.allowed_chains, "chain_not_allowed")
    ∷ ((strip token ≡ "") ⊎ (strip p.allowed_token ≡ ""), "invalid_token")
    ∷ (
      (strip token ≢ "")
          × (strip p.allowed_token ≢ "")
          × (py.upper (strip token) ≢ py.upper (strip p.allowed_token)),
      "token_not_allowed",
    )
    ∷ []

abbrev pub Fails {ℓ} : {E : Type 0} {A : Type ℓ} → Result E A → Type ℓ
Fails {E = E} r = (e : E) × (r ≡ err e)

-- the host of the buyer, where its URL has one, and the rules of the policy
pub record Hosted (py : Runtime) (p : CommercialPolicy) (o : Proposal) (host : String)
    (blocked allowed : List (String × Bool)) : Type 0 where
  pub found : hostname_from_url py o.buyer_agent_url ≡ ok host
  pub named : host ≢ ""
  pub rules : host_rules py p ≡ ok (blocked, allowed)

abbrev pub host_violations : Runtime → CommercialPolicy → Proposal → List (Type 0 × String)
host_violations py p o =
    (Fails (hostname_from_url py o.buyer_agent_url), "invalid_buyer_url")
    ∷ (Fails (host_rules py p), "invalid_policy_host_rule")
    ∷ (
      (host : String) × (blocked : List (String × Bool)) × (allowed : List (String × Bool)) × Hosted
            py p o host blocked allowed
          × (any (matches_host host) blocked ≡ true),
      "buyer_blocked",
    )
    ∷ (
      (host : String) × (blocked : List (String × Bool)) × (allowed : List (String × Bool)) × Hosted
            py p o host blocked allowed
          × (allowed ≢ [])
          × (any (matches_host host) allowed ≡ false),
      "buyer_not_allowlisted",
    )
    ∷ []

-- the counts of a context, when all three are valid
pub record Counted (c : PolicyContext) (open_now tasks sku_tasks : ℕ) : Type 0 where
  pub proposals : c.current_open_proposals ≡ count open_now
  pub hourly : c.current_tasks_last_hour ≡ count tasks
  pub of_sku : c.current_sku_tasks_last_hour ≡ count sku_tasks

abbrev pub capacity_violations :
    CommercialPolicy → ServiceSku → PolicyContext → Bool → List (Type 0 × String)
capacity_violations p sku c reserving =
    (
      (c.current_open_proposals ≡ invalid)
          ⊎ ((c.current_tasks_last_hour ≡ invalid) ⊎ (c.current_sku_tasks_last_hour ≡ invalid)),
      "invalid_capacity_context",
    )
    ∷ (
      (reserving ≡ true)
          × (n : ℕ) × (m : ℕ) × (k : ℕ) × Counted c n m k
          × (p.maximum_open_proposals ≤ n),
      "open_proposal_capacity_exceeded",
    )
    ∷ (
      (n : ℕ) × (m : ℕ) × (k : ℕ) × Counted c n m k × (p.maximum_tasks_per_hour ≤ m),
      "hourly_task_capacity_exceeded",
    )
    ∷ (
      (n : ℕ) × (m : ℕ) × (k : ℕ) × Counted c n m k × (sku.capacity_per_hour ≤ k),
      "sku_capacity_exceeded",
    )
    ∷ []

abbrev pub time_violations : Runtime → ℕ → Option Time → Option String → List (Type 0 × String)
time_violations py clock now (some expiry) =
    (
      (expires_at : ℕ) × (current : ℕ) × (parse_timestamp py (text expiry) ≡ ok expires_at)
          × (instant_of py clock now ≡ ok current)
          × (expires_at ≤ current),
      "proposal_expired",
    )
    ∷ (
      Fails (parse_timestamp py (text expiry)) ⊎ Fails (instant_of py clock now),
      "invalid_proposal_expiry",
    )
    ∷ []
time_violations py clock (some t) none = (Fails (parse_timestamp py t), "invalid_policy_now") ∷ []
time_violations py clock none none = []

-- all violations, for the context of a call and its `reserving_new_proposal`
abbrev pub violations :
    Runtime
    → ℕ
    → CommercialPolicy
    → ServiceSku
    → Proposal
    → PolicyContext
    → Option Bool
    → List (Type 0 × String)
violations py clock p sku o c reserving =
    offer_violations p sku o
    ++ money_violations py c.chain c.token p
    ++ host_violations py p o
    ++ capacity_violations p sku c (selected_reserving o c reserving)
    ++ time_violations py clock c.now o.expires_at
