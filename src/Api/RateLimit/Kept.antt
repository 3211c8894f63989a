-- ===== src/Api/RateLimit/Kept.antt =====
-- Every event keeps a limiter within its limits.
use autonomerce.Prelude.{
  ℕ, ◌+◌, ◌≤◌, ◌<◌, String, false, ltb, if◌then◌else◌, ◌==◌, string_eq, nat_eq, List, [], ◌∷◌,
  length, ◌≡◌, ◌≢◌, refl, sym, subst, ap, arith, Bool-cases, inl, inr, ◌⊎◌,
}
use autonomerce.Prelude.Text.{Runtime}
use autonomerce.Prelude.Table.{find_or, put, pair_eq, find_or-put}
use autonomerce.Prelude.Results.{ok, err}
use autonomerce.Api.RateLimit.{
  RouteBudget, RateLimitPolicy, Exceeded, Key, Limiter, trim, sweep, untracked, enter, admit, Lease,
  acquire_keys, maximum_window,
}
use autonomerce.Api.RateLimit.Slots.{
  Grants, Refuses, admit-Grants, admit-Refuses, admit-length, first_touched, both_touched,
}
use autonomerce.Api.RateLimit.Window.{
  recent, times, recent-length, recent-trim, recent_later, Covers, Covers_later, Covers-sweep,
  Covers-trim, Covers-stamp, recent_cons,
}
use autonomerce.Api.RateLimit.Served.{
  World, answered, budget_of, request_limit, slot_limit, window_of, held, IsServed, window_widest,
}

-- what `acquire_keys` does when it grants and when it refuses
module _ (p : RateLimitPolicy) (maximum now : ℕ) (b : RouteBudget) (owner peer : Key)
    (l l' : Limiter) where
  abbrev swept_of : Limiter
  swept_of = record l { history = sweep (maximum_window p) now l.active l.history }

  pub granted :
      acquire_keys p maximum now b owner peer l ≡ (ok tt, l')
      → Grants now b owner peer swept_of l' × (length l'.history ≤ maximum)
  unfolding acquire_keys
  granted h =
      let a : admit now b owner peer swept_of ≡ (ok tt, l') = ground arith in
      (
        admit-Grants now b owner peer swept_of l' a,
        ground (arith, admit-length now b owner peer swept_of),
      )

  pub refused :
      (e : Exceeded)
      → acquire_keys p maximum now b owner peer l ≡ (err e, l')
      → ((l'.history ≡ swept_of.history) × (l'.active ≡ l.active))
        ⊎ (Refuses now b owner peer swept_of l' × (length l'.history ≤ maximum))
  unfolding acquire_keys
  refused e h =
      elim (Bool-cases (
        ltb maximum (
          length swept_of.history
          + untracked owner swept_of.history
          + untracked peer swept_of.history))) [
            | inl full ↦ inl (ground arith, ground arith)
            | inr room ↦
                let a : admit now b owner peer swept_of ≡ (err e, l') = ground arith in
                inr (
                  admit-Refuses now b owner peer swept_of l' e a,
                  ground (arith, admit-length now b owner peer swept_of),
                )
          ]

  -- the histories that a call may leave, all of which cover what was granted before
  pub covered :
      (log : List (Key × ℕ))
      → b.window ≡ window_of p owner
      → b.window ≡ window_of p peer
      → Covers (window_of p) now log l.history
      → Covers (window_of p) now log swept_of.history
        × Covers (window_of p) now log (first_touched now b owner swept_of)
        × Covers (window_of p) now log (both_touched now b owner peer swept_of)
  covered log wo wp c =
      let s0 =
        Covers-sweep (window_of p) now log l.history (maximum_window p) l.active (window_widest p)
          c in
      let s1 : Covers (window_of p) now log (first_touched now b owner swept_of) =
        subst
          (λ v.
            Covers (window_of p) now log
              (put owner (trim v now (find_or [] owner swept_of.history)) swept_of.history))
          (sym wo) (Covers-trim (window_of p) now log swept_of.history owner s0) in
      let h1 = first_touched now b owner swept_of in
      let s2 : Covers (window_of p) now log (both_touched now b owner peer swept_of) =
        subst (λ v. Covers (window_of p) now log (put peer (trim v now (find_or [] peer h1)) h1))
          (sym wp) (Covers-trim (window_of p) now log h1 peer s1) in
      (s0, s1, s2)

-- one more lease holds its two keys
pub held-cons :
    (k : Key) (x : Lease) (xs : List Lease)
    → held k (x ∷ xs)
      ≡ (if x.released then 0 else (if x.owner == k then 1 else 0) + (if x.peer == k then 1 else 0))
        + held k xs
unfolding held
held-cons k x xs = refl

times-cons :
    (k j : Key) (t : ℕ) (log : List (Key × ℕ))
    → times k ((j, t) ∷ log) ≡ (if j == k then t ∷ times k log else times k log)
unfolding times
times-cons k j t log = refl

pub scopes_differ : ◌≢◌ {A = String} "owner" "ip"
scopes_differ e = cc

module _ (py : Runtime) (p : RateLimitPolicy) (maximum : ℕ) (w : World)
    (h : IsServed p maximum w) where
  -- a request is answered under the budget of its class
  module _ (elapsed : ℕ) (class owner_name peer_name : String) where
    abbrev owner : Key
    owner = ("owner", (owner_name, class))

    abbrev peer : Key
    peer = ("ip", (peer_name, class))

    abbrev budget : RouteBudget
    budget = budget_of p class

    owner_not_peer : owner ≢ peer
    owner_not_peer q = scopes_differ (ap (λ k. k.0) q)

    abbrev time : ℕ
    time = w.now + elapsed

    abbrev swept : Limiter
    swept = record w.limiter {
      history = sweep (maximum_window p) time w.limiter.active w.limiter.history;
    }

    pub before : Covers (window_of p) time w.log w.limiter.history
    before = Covers_later (window_of p) w.now w.log w.limiter.history time (omega arith) h.covers

    rate_later : (k : Key) → recent (window_of p k) time (times k w.log) ≤ request_limit p k
    rate_later k =
        omega
          (arith, h.rate k, recent_later (window_of p k) w.now time (times k w.log) (omega arith))

    module _ (l' : Limiter) where
      module _ (g : Grants time budget owner peer swept l')
          (room : length l'.history ≤ maximum) where
        covers :
            Covers (window_of p) time w.log swept.history
            × Covers (window_of p) time w.log (first_touched time budget owner swept)
            × Covers (window_of p) time w.log (both_touched time budget owner peer swept)
        covers = covered p maximum time budget owner peer w.limiter l' w.log refl refl before

        owner_rate : recent budget.window time (times owner w.log) < budget.owner_requests
        owner_rate =
            let ts = find_or [] owner swept.history in
            omega (
              arith,
              g.owner_requests,
              covers.0.at owner time (omega arith),
              recent-trim budget.window budget.window time time ts (omega arith) (omega arith),
              recent-length budget.window time (trim budget.window time ts),
            )

        peer_rate : recent budget.window time (times peer w.log) < budget.ip_requests
        peer_rate =
            let ts = find_or [] peer (first_touched time budget owner swept) in
            omega (
              arith,
              g.ip_requests,
              covers.1.at peer time (omega arith),
              recent-trim budget.window budget.window time time ts (omega arith) (omega arith),
              recent-length budget.window time (trim budget.window time ts),
            )

        abbrev log : List (Key × ℕ)
        log = (peer, time) ∷ (owner, time) ∷ w.log

        abbrev lease : Lease
        lease = record { owner = owner; peer = peer; released = false }

        granted-rate : (k : Key) → recent (window_of p k) time (times k log) ≤ request_limit p k
        granted-rate k = ground (
          arith,
          rate_later k,
          owner_rate,
          peer_rate,
          times-cons k peer time ((owner, time) ∷ w.log),
          times-cons k owner time w.log,
          recent_cons (window_of p k) time time (times k w.log),
          owner_not_peer,
          scopes_differ,
        )

        granted-in_flight : (k : Key) → find_or 0 k l'.active ≡ held k (lease ∷ w.leases)
        granted-in_flight k = ground (
          arith,
          g.active,
          h.in_flight k,
          held-cons k lease w.leases,
          find_or-put 0 owner k (find_or 0 owner w.limiter.active + 1) w.limiter.active,
          find_or-put 0 owner peer (find_or 0 owner w.limiter.active + 1) w.limiter.active,
          find_or-put 0 peer k (find_or 0 peer (enter owner w.limiter.active) + 1)
              (enter owner w.limiter.active),
          owner_not_peer,
        )

        granted-slots : (k : Key) → held k (lease ∷ w.leases) ≤ slot_limit p k
        granted-slots k = ground (
          arith,
          h.slots k,
          h.in_flight k,
          held-cons k lease w.leases,
          g.owner_free,
          g.peer_free,
          owner_not_peer,
          scopes_differ,
        )

        pub grant-IsServed : IsServed p maximum (answered time (ok lease, l') w)
        grant-IsServed = record {
          covers = rw g.history (
              Covers-stamp (window_of p) time ((owner, time) ∷ w.log) _ peer
                (Covers-stamp (window_of p) time w.log _ owner covers.2));
          rate = granted-rate;
          in_flight = granted-in_flight;
          slots = granted-slots;
          tracked = room;
        }

      pub refuse-IsServed :
          (e : Exceeded)
          → Covers (window_of p) time w.log l'.history
          → l'.active ≡ w.limiter.active
          → length l'.history ≤ maximum
          → IsServed p maximum (answered time (err e, l') w)
      refuse-IsServed e c same room = record {
        covers = c;
        rate = rate_later;
        in_flight = λ k. rw same (h.in_flight k);
        slots = h.slots;
        tracked = room;
      }
