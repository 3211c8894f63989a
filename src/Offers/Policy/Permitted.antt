-- ===== src/Offers/Policy/Permitted.antt =====
-- What a commercial policy permits, and that its evaluation allows nothing else and nothing less.
use autonomerce.Prelude.{
  ℕ, ◌*◌, ◌^◌, ◌-◌, ◌≤◌, ◌<◌, String, Bool, true, false, ◌==◌, string_eq, ◌≡◌, ◌≢◌, refl, ◌↔◌, ◌⊎◌,
  inl, inr, Option, none, some, List, [], ◌∷◌, ◌++◌, arith, any, is_empty, Bool-cases,
}
use autonomerce.Prelude.Text.{Runtime, strip}
use autonomerce.Prelude.Results.{ok, Result-cases}
use autonomerce.Contracts.Offers.{ServiceSku, CommercialPolicy, Proposal}
use autonomerce.Offers.Hosts.{hostname_from_url, matches_host}
use autonomerce.Offers.Time.{Time, text, parse_timestamp}
use autonomerce.Offers.Policy.{
  Count, count, invalid, PolicyContext, append_once, collect, proposal_tests, money_tests,
  host_tests, capacity_tests, time_tests, policy_tests, is_inactive, chain_allowed, host_rules,
  is_past, selected_reserving, evaluate_commercial_policy, is_invalid, instant_of,
}

abbrev AllFalse : List (Bool × String) → Type 0
AllFalse [] = Unit
AllFalse ((test, reason) ∷ tests) = (test ≡ false) × AllFalse tests

AllFalse-append : (ts us : List (Bool × String)) → AllFalse (ts ++ us) ↔ (AllFalse ts × AllFalse us)
AllFalse-append [] us = (λ h. (tt, h), λ h. h.1)
AllFalse-append (t ∷ ts) us =
    let rest = AllFalse-append ts us in
    (λ h. ((h.0, (rest.0 h.1).0), (rest.0 h.1).1), λ h. (h.0.0, rest.1 (h.0.1, h.1)))

append_once-nonempty :
    (rs : List String) (reason : String) → is_empty (append_once rs reason) ≡ false
unfolding append_once
append_once-nonempty [] reason = refl
append_once-nonempty (r ∷ rs) reason = ground arith

collect-empty :
    (ts : List (Bool × String)) (rs : List String)
    → (is_empty (collect ts rs) ≡ true) ↔ ((is_empty rs ≡ true) × AllFalse ts)
unfolding collect
collect-empty [] rs = (λ h. (h, tt), λ h. h.0)
collect-empty ((false, reason) ∷ ts) rs =
    let rest = collect-empty ts rs in
    (λ h. ((rest.0 h).0, (refl, (rest.0 h).1)), λ h. rest.1 (h.0, h.1.1))
collect-empty ((true, reason) ∷ ts) rs =
    let rest = collect-empty ts (append_once rs reason) in
    (
      λ h. absurd (ground (arith, (rest.0 h).0, append_once-nonempty rs reason)),
      λ h. ground (arith, h.1.0),
    )

-- the bounds on the offer itself; amounts of a discount are compared times `10 ^ places`
pub record OfferWithin (p : CommercialPolicy) (sku : ServiceSku) (o : Proposal) : Type 0 where
  pub unattended : p.unattended ≡ true
  pub service : o.sku_id ≡ sku.sku_id
  pub active : is_inactive o.state ≡ false
  pub minimum : p.minimum_price_usdc ≤ o.price_usdc
  pub maximum : o.price_usdc ≤ p.maximum_price_usdc
  pub discount :
      sku.base_price_usdc
        * (10 ^ p.maximum_discount_fraction.places - p.maximum_discount_fraction.units)
      ≤ o.price_usdc * 10 ^ p.maximum_discount_fraction.places
  pub latency : o.delivery_seconds ≤ sku.maximum_latency_seconds

proposal_tests_iff :
    (p : CommercialPolicy) (sku : ServiceSku) (o : Proposal)
    → AllFalse (proposal_tests p sku o) ↔ OfferWithin p sku o
proposal_tests_iff p sku o = (λ h. ground arith, λ h. ground arith)

pub record MoneyWithin (py : Runtime) (chain token : String) (p : CommercialPolicy) : Type 0 where
  pub chain_given : strip chain ≢ ""
  pub chain_listed : chain_allowed py chain p ≡ true
  pub token_given : strip token ≢ ""
  pub token_set : strip p.allowed_token ≢ ""
  pub same_token : py.upper (strip token) ≡ py.upper (strip p.allowed_token)

money_tests_iff :
    (py : Runtime) (chain token : String) (p : CommercialPolicy)
    → AllFalse (money_tests py chain token p) ↔ MoneyWithin py chain token p
money_tests_iff py chain token p = (λ h. ground arith, λ h. ground arith)

pub record HostWithin (py : Runtime) (p : CommercialPolicy) (o : Proposal) : Type 0 where
  pub host : String
  pub found : hostname_from_url py o.buyer_agent_url ≡ ok host
  pub blocked : List (String × Bool)
  pub allowed : List (String × Bool)
  pub rules : host_rules py p ≡ ok (blocked, allowed)
  pub not_blocked : host ≢ "" → any (matches_host host) blocked ≡ false
  pub listed : host ≢ "" → (allowed ≡ []) ⊎ (any (matches_host host) allowed ≡ true)

-- a count that is known and below a limit
pub record Below (c : Count) (limit : ℕ) : Type 0 where
  pub size : ℕ
  pub known : c ≡ count size
  pub below : size < limit

host_tests_iff :
    (py : Runtime) (p : CommercialPolicy) (o : Proposal)
    → AllFalse (host_tests py p o) ↔ HostWithin py p o
host_tests_iff py p o = (
  λ h. elim (Result-cases (hostname_from_url py o.buyer_agent_url)) [
    | inr (e, bad) ↦ absurd (ground arith)
    | inl (host, found) ↦ elim (Result-cases (host_rules py p)) [
      | inr (e, bad) ↦ absurd (ground arith)
      | inl ((blocked, allowed), rules) ↦ record {
        host = host;
        found = found;
        blocked = blocked;
        allowed = allowed;
        rules = rules;
        not_blocked = λ named. ground arith;
        listed = λ named. ground arith;
      }
    ]
  ],
  λ h. elim (Bool-cases (h.host == "")) [
    | inl empty ↦ ground (arith, h.found, h.rules)
    | inr named ↦ elim (h.listed (ground arith)) [
      | inl no_list ↦ ground (arith, h.found, h.rules, h.not_blocked (ground arith))
      | inr listed ↦ ground (arith, h.found, h.rules, h.not_blocked (ground arith))
    ]
  ],
)

pub record CapacityWithin (p : CommercialPolicy) (sku : ServiceSku) (c : PolicyContext)
    (reserving : Bool) : Type 0 where
  pub open_proposals : ℕ
  pub open_known : c.current_open_proposals ≡ count open_proposals
  pub open_below : reserving ≡ true → open_proposals < p.maximum_open_proposals
  pub tasks : Below c.current_tasks_last_hour p.maximum_tasks_per_hour
  pub sku_tasks : Below c.current_sku_tasks_last_hour sku.capacity_per_hour

Count-cases : (c : Count) → ((n : ℕ) × (c ≡ count n)) ⊎ (is_invalid c ≡ true)
Count-cases (count n) = inl (n, refl)
Count-cases invalid = inr refl

capacity_tests_iff :
    (p : CommercialPolicy) (sku : ServiceSku) (c : PolicyContext) (reserving : Bool)
    → AllFalse (capacity_tests p sku c reserving) ↔ CapacityWithin p sku c reserving
capacity_tests_iff p sku c reserving = (
  λ h. elim (Count-cases c.current_open_proposals) [
    | inr bad ↦ absurd (ground arith)
    | inl (n, known) ↦ record {
      open_proposals = n;
      open_known = known;
      open_below = λ r. ground arith;
      tasks = ground arith;
      sku_tasks = ground arith;
    }
  ],
  λ h. ground (
    arith, h.open_known, h.open_below, h.tasks.known, h.tasks.below, h.sku_tasks.known,
    h.sku_tasks.below,
  ),
)

-- a proposal that expires does so after the time of the call; a given time can be read
abbrev pub TimeWithin : Runtime → ℕ → Option Time → Option String → Type 0
TimeWithin py clock now (some expiry) =
    (expires_at : ℕ) × (current : ℕ) × (parse_timestamp py (text expiry) ≡ ok expires_at)
    × (instant_of py clock now ≡ ok current)
    × (current < expires_at)
TimeWithin py clock now none = (n : ℕ) × (instant_of py clock now ≡ ok n)

time_tests_iff :
    (py : Runtime) (clock : ℕ) (now : Option Time) (expires : Option String)
    → AllFalse (time_tests py clock now expires) ↔ TimeWithin py clock now expires
unfolding is_past
time_tests_iff py clock now (some expiry) = (
  λ h. elim (Result-cases (parse_timestamp py (text expiry))) [
    | inr (e, bad) ↦ absurd (ground arith)
    | inl (expires_at, read) ↦ elim (Result-cases (instant_of py clock now)) [
      | inr (e, bad) ↦ absurd (ground arith)
      | inl (current, clocked) ↦ (expires_at, current, read, clocked, ground arith)
    ]
  ],
  λ (expires_at, current, read, clocked, before). ground arith,
)
time_tests_iff py clock none none = (λ h. (clock, refl), λ h. tt)
time_tests_iff py clock (some t) none = (
  λ h. elim (Result-cases (parse_timestamp py t)) [
    | inr (e, bad) ↦ absurd (ground arith)
    | inl (n, read) ↦ (n, read)
  ],
  λ (n, read). ground arith,
)

pub record Permits (py : Runtime) (clock : ℕ) (p : CommercialPolicy) (sku : ServiceSku)
    (o : Proposal) (c : PolicyContext) (reserving : Option Bool) : Type 0 where
  pub offer : OfferWithin p sku o
  pub money : MoneyWithin py c.chain c.token p
  pub host : HostWithin py p o
  pub capacity : CapacityWithin p sku c (selected_reserving o c reserving)
  pub time : TimeWithin py clock c.now o.expires_at

-- For every policy, service, proposal and context, an evaluation allows exactly when all bounds of
-- `Permits` hold: those on the offer, on chain and token, on hosts, on capacity and on time.
pub evaluate-Permits :
    (py : Runtime) (clock : ℕ) (p : CommercialPolicy) (sku : ServiceSku) (o : Proposal)
    (c : PolicyContext) (reserving : Option Bool)
    → ((evaluate_commercial_policy py clock p sku o c reserving).allowed ≡ true)
      ↔ Permits py clock p sku o c reserving
unfolding evaluate_commercial_policy policy_tests
evaluate-Permits py clock p sku o c reserving =
    let reserves = selected_reserving o c reserving in
    let offers = proposal_tests p sku o in
    let money = money_tests py c.chain c.token p in
    let hosts = host_tests py p o in
    let capacity = capacity_tests p sku c reserves in
    let times = time_tests py clock c.now o.expires_at in
    let rest = AllFalse-append offers (money ++ hosts ++ capacity ++ times) in
    let rest2 = AllFalse-append money (hosts ++ capacity ++ times) in
    let rest3 = AllFalse-append hosts (capacity ++ times) in
    let rest4 = AllFalse-append capacity times in
    let whole = collect-empty (offers ++ money ++ hosts ++ capacity ++ times) [] in
    (
      λ h.
          let a = rest.0 (whole.0 h).1 in
          let b = rest2.0 a.1 in
          let d = rest3.0 b.1 in
          let e = rest4.0 d.1 in
          record {
            offer = (proposal_tests_iff p sku o).0 a.0;
            money = (money_tests_iff py c.chain c.token p).0 b.0;
            host = (host_tests_iff py p o).0 d.0;
            capacity = (capacity_tests_iff p sku c reserves).0 e.0;
            time = (time_tests_iff py clock c.now o.expires_at).0 e.1;
          },
      λ h. whole.1 (
        refl,
        rest.1 (
          (proposal_tests_iff p sku o).1 h.offer,
          rest2.1 (
            (money_tests_iff py c.chain c.token p).1 h.money,
            rest3.1 (
              (host_tests_iff py p o).1 h.host,
              rest4.1 (
                (capacity_tests_iff p sku c reserves).1 h.capacity,
                (time_tests_iff py clock c.now o.expires_at).1 h.time,
              ),
            ),
          ),
        ),
      ),
    )
