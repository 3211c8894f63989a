-- ===== src/Api/RateLimit/Limits.antt =====
-- The limits hold in every history of requests and releases.
use autonomerce.Prelude.{
  ℕ, zero, suc, ◌+◌, ◌-◌, ◌≤◌, String, true, if◌then◌else◌, ◌==◌, string_eq, nat_eq, Option, List,
  [], ◌∷◌, length, ◌≡◌, refl, sym, subst, arith, inl, inr,
}
use autonomerce.Prelude.Text.{Runtime}
use autonomerce.Prelude.Table.{Table, find, find_or, pair_eq, find_or-put, find_or-drop_key}
use autonomerce.Prelude.Results.{Result, ok, err}
use autonomerce.Api.RateLimit.{
  RateLimitPolicy, Exceeded, Key, Limiter, classify, identity, Lease, acquire_keys, acquire, leased,
  leave, release, maximum_window,
}
use autonomerce.Api.RateLimit.Slots.{sweep-length}
use autonomerce.Api.RateLimit.Window.{recent, times}
use autonomerce.Api.RateLimit.Served.{
  World, Event, request, finish, release_at, answered, step, run, budget_of, request_limit,
  slot_limit, window_of, held, IsServed, classify_budget,
}
use autonomerce.Api.RateLimit.Kept.{
  granted, refused, covered, before, grant-IsServed, refuse-IsServed, held-cons,
}

find_or-leave :
    (k j : Key) (active : Table Key ℕ)
    → find_or 0 j (leave k active) ≡ (if k == j then find_or 0 j active - 1 else find_or 0 j active)
unfolding leave
find_or-leave k j active =
    ground (arith, find_or-put 0 k j (find_or 0 k active - 1) active, find_or-drop_key 0 k j active)

-- a release gives back the slots that its lease held
release-slots :
    (x : Lease) (l : Limiter) (k : Key)
    → held k (x ∷ []) ≤ find_or 0 k l.active
    → find_or 0 k (release x l).1.active + held k (x ∷ [])
      ≡ find_or 0 k l.active + held k ((release x l).0 ∷ [])
unfolding release held
release-slots x l k h =
    ground
      (arith, find_or-leave x.owner k l.active, find_or-leave x.peer k (leave x.owner l.active))

held-nil : (k : Key) → held k [] ≡ 0
unfolding held
held-nil k = refl

release_at-slots :
    (n : ℕ) (xs : List Lease) (l : Limiter) (k : Key)
    → held k xs ≤ find_or 0 k l.active
    → find_or 0 k (release_at n xs l).1.active + held k xs
      ≡ find_or 0 k l.active + held k (release_at n xs l).0
unfolding release_at
release_at-slots n [] l k h = refl
release_at-slots zero (x ∷ xs) l k h = ground (
  arith,
  release-slots x l k,
  held-nil k,
  held-cons k x xs,
  held-cons k x [],
  held-cons k (release x l).0 xs,
  held-cons k (release x l).0 [],
)
release_at-slots (suc n) (x ∷ xs) l k h =
    ground (arith, release_at-slots n xs l k, held-cons k x xs, held-cons k x (release_at n xs l).0)

release_at-history :
    (n : ℕ) (xs : List Lease) (l : Limiter) → (release_at n xs l).1.history ≡ l.history
unfolding release_at release
release_at-history n [] l = refl
release_at-history zero (x ∷ xs) l = ground arith
release_at-history (suc n) (x ∷ xs) l = release_at-history n xs l

release_at-held :
    (n : ℕ) (xs : List Lease) (l : Limiter) (k : Key) → held k (release_at n xs l).0 ≤ held k xs
unfolding release_at release
release_at-held n [] l k = omega arith
release_at-held zero (x ∷ xs) l k =
    ground (arith, held-cons k x xs, held-cons k (record x { released = true }) xs)
release_at-held (suc n) (x ∷ xs) l k =
    ground (arith, release_at-held n xs l k, held-cons k x xs, held-cons k x (release_at n xs l).0)

module _ (py : Runtime) (p : RateLimitPolicy) (maximum : ℕ) where
  finish-IsServed :
      (n : ℕ) (w : World)
      → IsServed p maximum w
      → IsServed p maximum (step py p maximum (finish n) w)
  unfolding step
  finish-IsServed n w h = record {
    covers = rw (release_at-history n w.leases w.limiter) h.covers;
    rate = h.rate;
    in_flight = λ k. omega (
      arith,
      h.in_flight k,
      release_at-slots n w.leases w.limiter k (omega (arith, h.in_flight k)),
    );
    slots = λ k. omega (arith, h.slots k, release_at-held n w.leases w.limiter k);
    tracked = rw (release_at-history n w.leases w.limiter) h.tracked;
  }

  -- the answer of `acquire_keys` under the budget of a class
  answered-IsServed :
      (elapsed : ℕ) (class owner peer : String) (w : World) (r : Result Exceeded (Unit {0}))
      (l' : Limiter)
      → IsServed p maximum w
      → let first : Key = ("owner", (owner, class)) in
        let second : Key = ("ip", (peer, class)) in
        acquire_keys p maximum (w.now + elapsed) (budget_of p class) first second w.limiter
          ≡ (r, l')
        → IsServed p maximum (answered (w.now + elapsed) (leased first second (r, l')) w)
  answered-IsServed elapsed class owner peer w (ok tt) l' h a =
      let first : Key = ("owner", (owner, class)) in
      let second : Key = ("ip", (peer, class)) in
      let g = granted p maximum (w.now + elapsed) (budget_of p class) first second w.limiter l' a in
      grant-IsServed py p maximum w h elapsed class owner peer l' g.0 g.1
  answered-IsServed elapsed class owner peer w (err e) l' h a =
      let first : Key = ("owner", (owner, class)) in
      let second : Key = ("ip", (peer, class)) in
      let b = budget_of p class in
      let now = w.now + elapsed in
      let c =
        covered p maximum now b first second w.limiter l' w.log refl refl
          (before py p maximum w h elapsed class owner peer) in
      elim (refused p maximum now b first second w.limiter l' e a) [
        | inl (same, active) ↦
            refuse-IsServed py p maximum w h elapsed class owner peer l' e (rw same c.0) active (
              rw same (
                omega (
                  arith,
                  h.tracked,
                  sweep-length (maximum_window p) now w.limiter.active w.limiter.history,
                )))
        | inr (r, room) ↦
            refuse-IsServed py p maximum w h elapsed class owner peer l' e
              (elim r.history [ inl q ↦ rw q c.1 | inr q ↦ rw q c.2 ]) r.active room
      ]

  request-IsServed :
      (elapsed : ℕ) (owner ip : Option String) (method path : String) (w : World)
      → IsServed p maximum w
      → IsServed p maximum (step py p maximum (request elapsed owner ip method path) w)
  unfolding step acquire
  request-IsServed elapsed owner ip method path w h =
      let class = (classify py p method path).0 in
      let name = identity "anonymous" owner in
      let peer = identity "unknown" ip in
      let first : Key = ("owner", (name, class)) in
      let second : Key = ("ip", (peer, class)) in
      let now = w.now + elapsed in
      let b = budget_of p class in
      subst
        (λ v. IsServed p maximum (
          answered now (leased first second (acquire_keys p maximum now v first second w.limiter))
            w))
        (sym (classify_budget py p method path))
        (answered-IsServed elapsed class name peer w
          (acquire_keys p maximum now b first second w.limiter).0
          (acquire_keys p maximum now b first second w.limiter).1 h refl)

  step-IsServed :
      (e : Event) (w : World) → IsServed p maximum w → IsServed p maximum (step py p maximum e w)
  step-IsServed (request elapsed owner ip method path) w h =
      request-IsServed elapsed owner ip method path w h
  step-IsServed (finish n) w h = finish-IsServed n w h

  run-IsServed :
      (es : List Event) (w : World)
      → IsServed p maximum w
      → IsServed p maximum (run py p maximum es w)
  unfolding run
  run-IsServed [] w h = h
  run-IsServed (e ∷ es) w h = run-IsServed es (step py p maximum e w) (step-IsServed e w h)

abbrev pub new_world : World
new_world = record {
  limiter = record { history = []; active = [] };
  now = 0;
  log = [];
  leases = [];
}

new-IsServed : (p : RateLimitPolicy) (maximum : ℕ) → IsServed p maximum new_world
unfolding held recent times find_or find
new-IsServed p maximum = record {
  covers = record { at = λ k m h. omega arith };
  rate = λ k. omega arith;
  in_flight = λ k. refl;
  slots = λ k. omega arith;
  tracked = omega arith;
}

-- After any requests, at any times, and any releases of leases: for each key, the requests granted
-- within its window are at most its limit, the counter of requests in flight is the number of its
-- leases that were not released, which is at most its limit, and no more identities are tracked
-- than the maximum.
pub limits_hold :
    (py : Runtime) (p : RateLimitPolicy) (maximum : ℕ) (es : List Event) (k : Key)
    → let w = run py p maximum es new_world in
      (recent (window_of p k) w.now (times k w.log) ≤ request_limit p k)
      × (find_or 0 k w.limiter.active ≡ held k w.leases)
      × (held k w.leases ≤ slot_limit p k)
      × (length w.limiter.history ≤ maximum)
limits_hold py p maximum es k =
    let h = run-IsServed py p maximum es new_world (new-IsServed p maximum) in
    (h.rate k, h.in_flight k, h.slots k, h.tracked)
