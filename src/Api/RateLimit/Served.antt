-- ===== src/Api/RateLimit/Served.antt =====
-- A limiter in service: requests at times that go on, and leases that are given back.
use autonomerce.Prelude.{
  ℕ, zero, suc, ◌+◌, ◌≤◌, String, String-discrete, if◌then◌else◌, ◌==◌, string_eq, nat_eq, Option,
  List, [], ◌∷◌, length, ◌≡◌, refl, arith, Bool-cases, ◌⊎◌,
}
use autonomerce.Prelude.Text.{Runtime}
use autonomerce.Prelude.Table.{find_or, pair_eq}
use autonomerce.Prelude.Results.{Result, ok, err}
use autonomerce.Api.RateLimit.{
  RouteBudget, RateLimitPolicy, Exceeded, Key, Limiter, classify, Lease, acquire, release,
  maximum_window,
}
use autonomerce.Api.RateLimit.Window.{recent, times, Covers}

pub record World : Type 0 where
  pub limiter : Limiter
  pub now : ℕ
  -- the granted requests by key, the latest first
  pub log : List (Key × ℕ)
  pub leases : List Lease

-- a request some time after the last event, or the end of the n-th lease
pub data Event : Type 0 where
  request : (elapsed : ℕ) (owner_id ip_address : Option String) (method path : String) → Event
  finish : ℕ → Event

-- `lease.release()` for the n-th lease
unfoldable pub release_at : ℕ → List Lease → Limiter → List Lease × Limiter
release_at n [] l = ([], l)
release_at zero (x ∷ xs) l = ((release x l).0 ∷ xs, (release x l).1)
release_at (suc n) (x ∷ xs) l = let rest = release_at n xs l in (x ∷ rest.0, rest.1)

-- the world after a request was answered
abbrev pub answered : ℕ → Result Exceeded Lease × Limiter → World → World
answered now (ok lease, l) w = record {
  limiter = l;
  now = now;
  log = (lease.peer, now) ∷ (lease.owner, now) ∷ w.log;
  leases = lease ∷ w.leases;
}
answered now (err e, l) w = record w { limiter = l; now = now }

module _ (py : Runtime) (p : RateLimitPolicy) (maximum : ℕ) where
  unfoldable pub step : Event → World → World
  step (request elapsed owner ip method path) w =
      let now = w.now + elapsed in
      answered now (acquire py p maximum now owner ip method path w.limiter) w
  step (finish n) w =
      let done = release_at n w.leases w.limiter in record w { leases = done.0; limiter = done.1 }

  unfoldable pub run : List Event → World → World
  run [] w = w
  run (e ∷ es) w = run es (step e w)

-- the budget of a route class, and the limits of a key
unfoldable pub budget_of : RateLimitPolicy → String → RouteBudget
budget_of p class =
    if class == "payment"
    then p.payment
    else if class == "fulfillment"
    then p.fulfillment
    else if class == "gemini"
    then p.gemini
    else p.standard

abbrev pub request_limit : RateLimitPolicy → Key → ℕ
request_limit p (scope, (name, class)) =
    if scope == "owner" then (budget_of p class).owner_requests else (budget_of p class).ip_requests

abbrev pub slot_limit : RateLimitPolicy → Key → ℕ
slot_limit p (scope, (name, class)) =
    if scope == "owner"
    then (budget_of p class).owner_concurrency
    else (budget_of p class).ip_concurrency

abbrev pub window_of : RateLimitPolicy → Key → ℕ
window_of p (scope, (name, class)) = (budget_of p class).window

-- how many leases that were not released hold a key
unfoldable pub held : Key → List Lease → ℕ
held k [] = 0
held k (x ∷ xs) =
    (if x.released then 0 else (if x.owner == k then 1 else 0) + (if x.peer == k then 1 else 0))
    + held k xs

pub record IsServed (p : RateLimitPolicy) (maximum : ℕ) (w : World) : Type 0 where
  pub covers : Covers (window_of p) w.now w.log w.limiter.history
  pub rate : (k : Key) → recent (window_of p k) w.now (times k w.log) ≤ request_limit p k
  pub in_flight : (k : Key) → find_or 0 k w.limiter.active ≡ held k w.leases
  pub slots : (k : Key) → held k w.leases ≤ slot_limit p k
  pub tracked : length w.limiter.history ≤ maximum

pub window_widest : (p : RateLimitPolicy) (k : Key) → window_of p k ≤ maximum_window p
unfolding budget_of maximum_window
window_widest p k = ground arith

-- the route classes, as `classify` names them
pub budget_named :
    (p : RateLimitPolicy)
    → (budget_of p "payment" ≡ p.payment)
      × (budget_of p "fulfillment" ≡ p.fulfillment)
      × (budget_of p "gemini" ≡ p.gemini)
      × (budget_of p "standard" ≡ p.standard)
unfolding budget_of String-discrete Bool-cases
budget_named p = (refl, refl, refl, refl)

classify-cases :
    (py : Runtime) (p : RateLimitPolicy) (method path : String)
    → (classify py p method path ≡ ("payment", p.payment))
      ⊎ (classify py p method path ≡ ("fulfillment", p.fulfillment))
      ⊎ (classify py p method path ≡ ("gemini", p.gemini))
      ⊎ (classify py p method path ≡ ("standard", p.standard))
unfolding classify
classify-cases py p method path = ground arith

pub classify_budget :
    (py : Runtime) (p : RateLimitPolicy) (method path : String)
    → (classify py p method path).1 ≡ budget_of p (classify py p method path).0
classify_budget py p method path = ground (arith, classify-cases py p method path, budget_named p)
