-- ===== src/Api/RateLimit/Slots.antt =====
-- The slots of a limiter: requests in flight, and tracked identities.
use autonomerce.Prelude.{
  ℕ, ◌+◌, ◌≤◌, ◌<◌, string_eq, nat_eq, List, [], ◌∷◌, ◌++◌, length, ◌≡◌, refl, arith, inl, inr, ◌⊎◌,
}
use autonomerce.Prelude.Table.{Table, find_or, put, pair_eq, find-put, length-put}
use autonomerce.Prelude.Results.{Result, ok, err}
use autonomerce.Api.RateLimit.{
  RouteBudget, Exceeded, Key, Limiter, trim, sweep, touch, enter, stamp, untracked, admit,
}

pub sweep-length :
    (w now : ℕ) (active : Table Key ℕ) (d : Table Key (List ℕ))
    → length (sweep w now active d) ≤ length d
unfolding sweep
sweep-length w now active [] = omega arith
sweep-length w now active ((k, ts) ∷ d) = ground (arith, sweep-length w now active d)

-- what a write may do to the number of tracked identities
put-length :
    (k : Key) (ts : List ℕ) (d : Table Key (List ℕ))
    → length (put k ts d) ≡ length d + untracked k d
put-length k ts d = ground (arith, length-put k ts d)

touched-length :
    (w now : ℕ) (k : Key) (limit : ℕ) (d : Table Key (List ℕ))
    → length (touch w now k limit d).1 ≡ length d + untracked k d
unfolding touch
touched-length w now k limit d = put-length k (trim w now (find_or [] k d)) d

untracked-put :
    (k j : Key) (ts : List ℕ) (d : Table Key (List ℕ)) → untracked j (put k ts d) ≤ untracked j d
untracked-put k j ts d = ground (arith, find-put k j ts d)

untracked-put_self : (k : Key) (ts : List ℕ) (d : Table Key (List ℕ)) → untracked k (put k ts d) ≡ 0
untracked-put_self k ts d = ground (arith, find-put k k ts d)

-- the histories once both keys were looked at
abbrev pub first_touched : ℕ → RouteBudget → Key → Limiter → Table Key (List ℕ)
first_touched now b owner l = put owner (trim b.window now (find_or [] owner l.history)) l.history

abbrev pub both_touched : ℕ → RouteBudget → Key → Key → Limiter → Table Key (List ℕ)
both_touched now b owner peer l =
    let h1 = first_touched now b owner l in put peer (trim b.window now (find_or [] peer h1)) h1

-- what `admit` does when it grants a request
pub record Grants (now : ℕ) (b : RouteBudget) (owner peer : Key) (l l' : Limiter) : Type 0 where
  pub owner_requests : length (trim b.window now (find_or [] owner l.history)) < b.owner_requests
  pub ip_requests :
      length (trim b.window now (find_or [] peer (first_touched now b owner l))) < b.ip_requests
  pub owner_free : find_or 0 owner l.active < b.owner_concurrency
  pub peer_free : find_or 0 peer l.active < b.ip_concurrency
  pub history : l'.history ≡ stamp now peer (stamp now owner (both_touched now b owner peer l))
  pub active : l'.active ≡ enter peer (enter owner l.active)

-- what `admit` does when it refuses one
pub record Refuses (now : ℕ) (b : RouteBudget) (owner peer : Key) (l l' : Limiter) : Type 0 where
  pub history :
      (l'.history ≡ first_touched now b owner l) ⊎ (l'.history ≡ both_touched now b owner peer l)
  pub active : l'.active ≡ l.active

module _ (now : ℕ) (b : RouteBudget) (owner peer : Key) (l l' : Limiter) where
  pub admit-Grants : admit now b owner peer l ≡ (ok tt, l') → Grants now b owner peer l l'
  unfolding admit touch
  admit-Grants h = record {
    owner_requests = ground arith;
    ip_requests = ground arith;
    owner_free = ground arith;
    peer_free = ground arith;
    history = ground arith;
    active = ground arith;
  }

  pub admit-Refuses :
      (e : Exceeded) → admit now b owner peer l ≡ (err e, l') → Refuses now b owner peer l l'
  unfolding admit touch
  admit-Refuses e h = record { history = ground arith; active = ground arith }

result-cases :
    (r : Result Exceeded (Unit {0}) × Limiter)
    → ((l' : Limiter) × (r ≡ (ok tt, l'))) ⊎ ((e : Exceeded) × (l' : Limiter) × (r ≡ (err e, l')))
result-cases (ok tt, l') = inl (l', refl)
result-cases (err e, l') = inr (e, l', refl)

admitted_full :
    (now : ℕ) (b : RouteBudget) (owner peer : Key) (l : Limiter)
    → length (both_touched now b owner peer l)
      ≤ length l.history + untracked owner l.history + untracked peer l.history
admitted_full now b owner peer l =
    let ts = trim b.window now (find_or [] owner l.history) in
    let h1 = first_touched now b owner l in
    let us = trim b.window now (find_or [] peer h1) in
    omega (
      arith,
      put-length owner ts l.history,
      put-length peer us h1,
      untracked-put owner peer ts l.history,
    )

first_full :
    (now : ℕ) (b : RouteBudget) (owner : Key) (l : Limiter)
    → length (first_touched now b owner l) ≡ length l.history + untracked owner l.history
first_full now b owner l =
    put-length owner (trim b.window now (find_or [] owner l.history)) l.history

stamped_full :
    (now : ℕ) (b : RouteBudget) (owner peer : Key) (l : Limiter)
    → length (stamp now peer (stamp now owner (both_touched now b owner peer l)))
      ≡ length (both_touched now b owner peer l)
stamped_full now b owner peer l =
    let h1 = first_touched now b owner l in
    let ts = trim b.window now (find_or [] owner l.history) in
    let us = trim b.window now (find_or [] peer h1) in
    let h2 = both_touched now b owner peer l in
    let h3 = stamp now owner h2 in
    omega (
      arith,
      put-length owner (find_or [] owner h2 ++ now ∷ []) h2,
      put-length peer (find_or [] peer h3 ++ now ∷ []) h3,
      untracked-put_self owner ts l.history,
      untracked-put peer owner us h1,
      untracked-put_self peer us h1,
      untracked-put owner peer (find_or [] owner h2 ++ now ∷ []) h2,
    )

-- a request makes at most its own keys tracked
pub admit-length :
    (now : ℕ) (b : RouteBudget) (owner peer : Key) (l : Limiter)
    → length (admit now b owner peer l).1.history
      ≤ length l.history + untracked owner l.history + untracked peer l.history
admit-length now b owner peer l = elim (result-cases (admit now b owner peer l)) [
  | inl (l', h) ↦
      let g = admit-Grants now b owner peer l l' h in
      ground
        (arith, h, g.history, admitted_full now b owner peer l, stamped_full now b owner peer l)
  | inr (e, l', h) ↦
      let r = admit-Refuses now b owner peer l l' e h in
      ground (arith, h, r.history, admitted_full now b owner peer l, first_full now b owner l)
]
