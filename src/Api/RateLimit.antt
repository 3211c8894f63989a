-- ===== src/Api/RateLimit.antt =====
-- apps/api/autonomerce/api/rate_limit.py: `RequestLimiter`. Times are whole microseconds of the
-- clock; `x <= now - window` is written `x + window <= now`. The lock makes each call one step.
pub mod Window
pub mod Slots
pub mod Served
pub mod Kept
pub mod Limits
use Prim.Native.Char.{code}
use Prim.Native.String.{[] as nil, ◌∷◌ as cons, ◌++◌}
use autonomerce.Prelude.{
  ℕ, ◌+◌, ◌-◌, ◌/◌, String, Bool, true, false, not, ◌&&◌, ◌||◌, ltb, leb, if◌then◌else◌, ◌==◌,
  string_eq, nat_eq, Option, none, some, List, [], ◌∷◌, ◌++◌ as ◌+++◌, length, is_empty, max,
}
use autonomerce.Prelude.Text.{Runtime, strip, truthy}
use autonomerce.Prelude.Table.{Table, find, find_or, put, drop_key, pair_eq}
use autonomerce.Prelude.Dict.{is_some}
use autonomerce.Prelude.Results.{Result, ok, err}
use autonomerce.Payments.Models.Names.{ends_with, get_or}

pub record RouteBudget : Type 0 where
  pub owner_requests : ℕ
  pub ip_requests : ℕ
  pub window : ℕ
  pub owner_concurrency : ℕ
  pub ip_concurrency : ℕ

pub record RateLimitPolicy : Type 0 where
  pub standard : RouteBudget
  pub gemini : RouteBudget
  pub payment : RouteBudget
  pub fulfillment : RouteBudget

-- `RateLimitExceeded`
pub record Exceeded : Type 0 where
  pub detail : String
  pub retry_after : ℕ

-- the scope, the identity and the route class
abbrev pub Key : Type 0
Key = String × (String × String)

-- the parts of a path that are not empty; `word` is the part that is being read
unfoldable pub split_path : String → String → List String
split_path word nil = if word == "" then [] else word ∷ []
split_path word (cons c s) =
    let fresh = split_path "" s in
    let more = split_path (word ++ cons c "") s in
    if code c == b'/' then (if word == "" then fresh else word ∷ fresh) else more

-- `POST /sellers/<id>/skus/preview`
abbrev pub is_preview : List String → Bool
is_preview (a ∷ b ∷ c ∷ d ∷ []) = a == "sellers" && c == "skus" && d == "preview"
is_preview _ = false

-- `RateLimitPolicy.classify`
unfoldable pub classify : Runtime → RateLimitPolicy → String → String → String × RouteBudget
unfolding ends_with split_path
classify py p method path =
    let post = py.upper method == "POST" in
    if post && ends_with "/pay" path
    then ("payment", p.payment)
    else if post && ends_with "/fulfill" path
    then ("fulfillment", p.fulfillment)
    else if post && is_preview (split_path "" path)
    then ("gemini", p.gemini)
    else ("standard", p.standard)

pub record Limiter : Type 0 where
  pub history : Table Key (List ℕ)
  pub active : Table Key ℕ

-- `while history and history[0] <= cutoff: history.popleft()`
unfoldable pub trim : ℕ → ℕ → List ℕ → List ℕ
trim window now [] = []
trim window now (t ∷ ts) =
    let rest = trim window now ts in if leb (t + window) now then rest else t ∷ ts

-- `_maximum_window_seconds`
unfoldable pub maximum_window : RateLimitPolicy → ℕ
maximum_window p =
    max p.standard.window (max p.gemini.window (max p.payment.window p.fulfillment.window))

-- `_sweep_expired_histories`
unfoldable pub sweep : ℕ → ℕ → Table Key ℕ → Table Key (List ℕ) → Table Key (List ℕ)
unfolding trim find_or
sweep window now active [] = []
sweep window now active ((k, ts) ∷ d) =
    let rest = sweep window now active d in
    let left = trim window now ts in
    if is_empty left && find_or 0 k active == 0 then rest else (k, left) ∷ rest

-- whole seconds, rounded up, and at least one
unfoldable pub retry_seconds : ℕ → ℕ
retry_seconds ticks = max 1 ((ticks + 999999) / 1000000)

abbrev pub first_of : List ℕ → ℕ
first_of [] = 0
first_of (t ∷ ts) = t

-- one turn of the loop over the request limits
unfoldable pub touch :
    ℕ → ℕ → Key → ℕ → Table Key (List ℕ) → Result Exceeded (Unit {0}) × Table Key (List ℕ)
touch window now key limit history =
    let ts = trim window now (find_or [] key history) in
    (
      if leb limit (length ts)
          then err (record {
            detail = "request rate limit exceeded";
            retry_after = retry_seconds (first_of ts + window - now);
          })
          else ok tt,
      put key ts history,
    )

-- `self._active[key] = self._active.get(key, 0) + 1`
abbrev pub enter : Key → Table Key ℕ → Table Key ℕ
enter key active = put key (find_or 0 key active + 1) active

-- `history.append(now)`
abbrev pub stamp : ℕ → Key → Table Key (List ℕ) → Table Key (List ℕ)
stamp now key history = put key (find_or [] key history +++ now ∷ []) history

-- the keys that are not tracked yet, counted
abbrev pub untracked : Key → Table Key (List ℕ) → ℕ
untracked key history = if is_some (find key history) then 0 else 1

-- `(given or default).strip() or default`
unfoldable pub identity : String → Option String → String
unfolding strip
identity default given =
    let text = strip (if truthy given then get_or given "" else default) in
    if text == "" then default else text

-- the guards and writes of `acquire` after the sweep, for the two keys and their limits
unfoldable pub admit : ℕ → RouteBudget → Key → Key → Limiter → Result Exceeded (Unit {0}) × Limiter
admit now b owner peer l =
    let (first, h1) = touch b.window now owner b.owner_requests l.history in
    elim first [
      | err e ↦ (err e, record l { history = h1 })
      | ok _ ↦
          let (second, h2) = touch b.window now peer b.ip_requests h1 in
          elim second [
            | err e ↦ (err e, record l { history = h2 })
            | ok _ ↦
                if leb b.owner_concurrency (find_or 0 owner l.active)
                  || leb b.ip_concurrency (find_or 0 peer l.active)
                then (
                  err (record { detail = "request concurrency limit exceeded"; retry_after = 1 }),
                  record l { history = h2 },
                )
                else (
                  ok tt,
                  record {
                    history = stamp now peer (stamp now owner h2);
                    active = enter peer (enter owner l.active);
                  },
                )
          ]
    ]

-- `RateLimitLease`
pub record Lease : Type 0 where
  pub owner : Key
  pub peer : Key
  pub released : Bool

-- `acquire`, once the keys and the budget are chosen
unfoldable pub acquire_keys :
    RateLimitPolicy
    → ℕ
    → ℕ
    → RouteBudget
    → Key
    → Key
    → Limiter
    → Result Exceeded (Unit {0}) × Limiter
acquire_keys p maximum now b owner peer l =
    let swept = sweep (maximum_window p) now l.active l.history in
    if ltb maximum (length swept + untracked owner swept + untracked peer swept)
    then (
      err (record {
        detail = "request identity tracking limit exceeded";
        retry_after = retry_seconds (maximum_window p);
      }),
      record l { history = swept },
    )
    else admit now b owner peer (record l { history = swept })

-- the lease on the keys of a request that was granted
abbrev pub leased :
    Key → Key → Result Exceeded (Unit {0}) × Limiter → Result Exceeded Lease × Limiter
leased owner peer (ok _, l) = (ok (record { owner = owner; peer = peer; released = false }), l)
leased owner peer (err e, l) = (err e, l)

-- `acquire`
unfoldable pub acquire :
    Runtime
    → RateLimitPolicy
    → ℕ
    → ℕ
    → Option String
    → Option String
    → String
    → String
    → Limiter
    → Result Exceeded Lease × Limiter
unfolding classify identity
acquire py p maximum now owner_id ip_address method path l =
    let (class, b) = classify py p method path in
    let owner : Key = ("owner", (identity "anonymous" owner_id, class)) in
    let peer : Key = ("ip", (identity "unknown" ip_address, class)) in
    leased owner peer (acquire_keys p maximum now b owner peer l)

-- one turn of the loop of `_release`
unfoldable pub leave : Key → Table Key ℕ → Table Key ℕ
unfolding find_or
leave key active =
    let count = find_or 0 key active in
    if ltb 1 count then put key (count - 1) active else drop_key key active

-- `RateLimitLease.release`
unfoldable pub release : Lease → Limiter → Lease × Limiter
unfolding leave
release lease l = if lease.released then (lease, l) else (
  record lease { released = true },
  record l { active = leave lease.peer (leave lease.owner l.active) },
)
