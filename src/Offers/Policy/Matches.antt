-- ===== src/Offers/Policy/Matches.antt =====
-- packages/offerrail/policy.py: the tests on hosts, capacity and time, and so all tests, decide the
-- violations.
use autonomerce.Prelude.{
  ℕ, ◌≤◌, String, Bool, true, false, not, ◌&&◌, is_empty, ◌||◌, ◌==◌, string_eq, ◌≡◌, ◌≢◌, refl,
  ◌↔◌, ◌⊎◌, inl, inr, Option, none, some, List, [], arith, any,
}
use autonomerce.Prelude.Text.{Runtime}
use autonomerce.Prelude.Results.{Result, ok, err, Result-cases}
use autonomerce.Contracts.{proposal_state_eq}
use autonomerce.Contracts.Offers.{ServiceSku, CommercialPolicy, Proposal}
use autonomerce.Offers.Hosts.{hostname_from_url, matches_host}
use autonomerce.Offers.Time.{Time, text, parse_timestamp}
use autonomerce.Offers.Policy.{
  Count, count, invalid, PolicyContext, host_tests, capacity_tests, time_tests, policy_tests,
  host_rules, is_past, selected_reserving, instant_of, failed_with, is_invalid, ok_or, reaches,
}
use autonomerce.Offers.Policy.Violations.{
  Fails, Hosted, host_violations, Counted, capacity_violations, time_violations, violations,
}
use autonomerce.Offers.Policy.Decided.{
  Decides, end, ◌∷∷◌, Decides-append, offer_decided, money_decided,
}

failed_iff {ℓ} : {E : Type 0} {A : Type ℓ} (r : Result E A) → (failed_with r ≡ true) ↔ Fails r
failed_iff (ok a) = (λ h. absurd (ground arith), λ (e, h). absurd (ground arith))
failed_iff (err e) = (λ h. (e, refl), λ h. refl)

-- a host that is not empty, and rules that are not, were read
hosts_known :
    (py : Runtime) (p : CommercialPolicy) (o : Proposal)
    → ok_or (hostname_from_url py o.buyer_agent_url) "" ≢ ""
    → failed_with (host_rules py p) ≡ false
    → (host : String) × (blocked : List (String × Bool)) × (allowed : List (String × Bool)) × Hosted
        py p o host blocked allowed
hosts_known py p o named read = elim (Result-cases (hostname_from_url py o.buyer_agent_url)) [
  | inr (e, bad) ↦ absurd (ground arith)
  | inl (host, found) ↦ elim (Result-cases (host_rules py p)) [
    | inr (e, bad) ↦ absurd (ground arith)
    | inl ((blocked, allowed), rules) ↦
        (host, blocked, allowed, record { found = found; named = ground arith; rules = rules })
  ]
]

blocked_iff :
    (py : Runtime) (p : CommercialPolicy) (o : Proposal)
    → (not (ok_or (hostname_from_url py o.buyer_agent_url) "" == "")
          && any
              (matches_host (ok_or (hostname_from_url py o.buyer_agent_url) ""))
              (ok_or (host_rules py p) ([], [])).0
        ≡ true)
      ↔ ((host : String) × (blocked : List (String × Bool)) × (allowed : List (String × Bool))
          × Hosted py p o host blocked allowed
          × (any (matches_host host) blocked ≡ true))
blocked_iff py p o = (
  λ h.
      let (host, blocked, allowed, w) = hosts_known py p o (ground arith) (ground arith) in
      (host, blocked, allowed, w, ground (arith, w.found, w.rules)),
  λ (host, blocked, allowed, w, matched). ground (arith, w.found, w.named, w.rules),
)

unlisted_iff :
    (py : Runtime) (p : CommercialPolicy) (o : Proposal)
    → (not (ok_or (hostname_from_url py o.buyer_agent_url) "" == "")
          && not (is_empty (ok_or (host_rules py p) ([], [])).1)
          && not (
              any
                (matches_host (ok_or (hostname_from_url py o.buyer_agent_url) ""))
                (ok_or (host_rules py p) ([], [])).1)
        ≡ true)
      ↔ ((host : String) × (blocked : List (String × Bool)) × (allowed : List (String × Bool))
          × Hosted py p o host blocked allowed
          × (allowed ≢ [])
          × (any (matches_host host) allowed ≡ false))
unlisted_iff py p o = (
  λ h.
      let (host, blocked, allowed, w) = hosts_known py p o (ground arith) (ground arith) in
      (
        host,
        blocked,
        allowed,
        w,
        ground (arith, w.found, w.rules),
        ground (arith, w.found, w.rules),
      ),
  λ (host, blocked, allowed, w, given, matched). ground (arith, w.found, w.named, w.rules),
)

host_decided :
    (py : Runtime) (p : CommercialPolicy) (o : Proposal)
    → Decides (host_tests py p o) (host_violations py p o)
host_decided py p o =
    failed_iff (hostname_from_url py o.buyer_agent_url)
    ∷∷ failed_iff (host_rules py p)
    ∷∷ blocked_iff py p o
    ∷∷ unlisted_iff py p o
    ∷∷ end

Count-cases : (c : Count) → ((n : ℕ) × (c ≡ count n)) ⊎ (c ≡ invalid)
Count-cases (count n) = inl (n, refl)
Count-cases invalid = inr refl

counted :
    (c : PolicyContext)
    → (is_invalid c.current_open_proposals
        || is_invalid c.current_tasks_last_hour
        || is_invalid c.current_sku_tasks_last_hour)
      ≡ false
    → (n : ℕ) × (m : ℕ) × (k : ℕ) × Counted c n m k
counted c h = elim (Count-cases c.current_open_proposals) [
  | inr bad ↦ absurd (ground arith)
  | inl (n, open_now) ↦ elim (Count-cases c.current_tasks_last_hour) [
    | inr bad ↦ absurd (ground arith)
    | inl (m, tasks) ↦ elim (Count-cases c.current_sku_tasks_last_hour) [
      | inr bad ↦ absurd (ground arith)
      | inl (k, sku_tasks) ↦
          (n, m, k, record { proposals = open_now; hourly = tasks; of_sku = sku_tasks })
    ]
  ]
]

-- a test that is made when the three counts are valid
test_when_valid :
    (c : PolicyContext) (test : Bool) (P : ℕ → ℕ → ℕ → Type 0)
    → ((n m k : ℕ) → Counted c n m k → (test ≡ true) ↔ P n m k)
    → (not (
            is_invalid c.current_open_proposals
            || is_invalid c.current_tasks_last_hour
            || is_invalid c.current_sku_tasks_last_hour)
          && test
        ≡ true)
      ↔ ((n : ℕ) × (m : ℕ) × (k : ℕ) × Counted c n m k × P n m k)
test_when_valid c test P f = (
  λ h. let (n, m, k, w) = counted c (ground arith) in (n, m, k, w, (f n m k w).0 (ground arith)),
  λ (n, m, k, w, full). ground (arith, w.proposals, w.hourly, w.of_sku, (f n m k w).1 full),
)

reserved_iff :
    (p : CommercialPolicy) (c : PolicyContext) (reserving : Bool)
    → (not (
            is_invalid c.current_open_proposals
            || is_invalid c.current_tasks_last_hour
            || is_invalid c.current_sku_tasks_last_hour)
          && reserving
          && reaches c.current_open_proposals p.maximum_open_proposals
        ≡ true)
      ↔ ((reserving ≡ true)
          × (n : ℕ) × (m : ℕ) × (k : ℕ) × Counted c n m k
          × (p.maximum_open_proposals ≤ n))
reserved_iff p c reserving = (
  λ h.
      let (n, m, k, w) = counted c (ground arith) in
      (ground arith, n, m, k, w, ground (arith, w.proposals)),
  λ (r, n, m, k, w, full). ground (arith, w.proposals, w.hourly, w.of_sku),
)

capacity_decided :
    (p : CommercialPolicy) (sku : ServiceSku) (c : PolicyContext) (reserving : Bool)
    → Decides (capacity_tests p sku c reserving) (capacity_violations p sku c reserving)
capacity_decided p sku c reserving =
    (λ h. ground arith, λ h. ground arith)
    ∷∷ reserved_iff p c reserving
    ∷∷ test_when_valid c (reaches c.current_tasks_last_hour p.maximum_tasks_per_hour)
        (λ n m k. p.maximum_tasks_per_hour ≤ m)
        (λ n m k w. (λ h. ground (arith, w.hourly), λ h. ground (arith, w.hourly)))
    ∷∷ test_when_valid c (reaches c.current_sku_tasks_last_hour sku.capacity_per_hour)
        (λ n m k. sku.capacity_per_hour ≤ k)
        (λ n m k w. (λ h. ground (arith, w.of_sku), λ h. ground (arith, w.of_sku)))
    ∷∷ end

time_decided :
    (py : Runtime) (clock : ℕ) (now : Option Time) (expires : Option String)
    → Decides (time_tests py clock now expires) (time_violations py clock now expires)
unfolding is_past
time_decided py clock now (some expiry) = elim (Result-cases (parse_timestamp py (text expiry))) [
  | inr (e, bad) ↦
      (λ h. absurd (ground arith), λ (a, b, c, d, f). absurd (ground arith))
      ∷∷ (λ h. inl (e, bad), λ h. ground arith)
      ∷∷ end
  | inl (expires_at, read) ↦ elim (Result-cases (instant_of py clock now)) [
    | inr (e, bad) ↦
        (λ h. absurd (ground arith), λ (a, b, c, d, f). absurd (ground arith))
        ∷∷ (λ h. inr (e, bad), λ h. ground arith)
        ∷∷ end
    | inl (current, clocked) ↦
        (λ h. (expires_at, current, read, clocked, ground arith), λ (a, b, c, d, f). ground arith)
        ∷∷ (λ h. absurd (ground arith), λ h. absurd (ground arith))
        ∷∷ end
  ]
]
time_decided py clock (some t) none = failed_iff (parse_timestamp py t) ∷∷ end
time_decided py clock none none = end

pub policy_decided :
    (py : Runtime) (clock : ℕ) (p : CommercialPolicy) (sku : ServiceSku) (o : Proposal)
    (c : PolicyContext) (reserving : Option Bool)
    → Decides (policy_tests py clock p sku o c reserving) (violations py clock p sku o c reserving)
unfolding policy_tests
policy_decided py clock p sku o c reserving = Decides-append (offer_decided p sku o) (
    Decides-append (money_decided py c.chain c.token p) (
      Decides-append (host_decided py p o) (
        Decides-append (capacity_decided p sku c (selected_reserving o c reserving))
          (time_decided py clock c.now o.expires_at))))
