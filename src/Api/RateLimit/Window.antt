-- ===== src/Api/RateLimit/Window.antt =====
-- The sliding window: the requests of a key that were granted lately are in its history.
use autonomerce.Prelude.{
  ℕ, ◌+◌, ◌≤◌, ltb, if◌then◌else◌, ◌==◌, string_eq, nat_eq, List, [], ◌∷◌, ◌++◌, length, ◌≡◌, refl,
  arith,
}
use autonomerce.Prelude.Table.{Table, find, find_or, put, pair_eq, find_or-put}
use autonomerce.Api.RateLimit.{Key, trim, sweep, stamp}

-- how many of the times are later than `m - window`
unfoldable pub recent : ℕ → ℕ → List ℕ → ℕ
recent w m [] = 0
recent w m (t ∷ ts) = (if ltb m (t + w) then 1 else 0) + recent w m ts

-- the times at which a key was granted a request
unfoldable pub times : Key → List (Key × ℕ) → List ℕ
times k [] = []
times k ((j, t) ∷ log) = let rest = times k log in if j == k then t ∷ rest else rest

pub recent-length : (w m : ℕ) (ts : List ℕ) → recent w m ts ≤ length ts
unfolding recent
recent-length w m [] = omega arith
recent-length w m (t ∷ ts) = ground (arith, recent-length w m ts)

pub recent_cons :
    (w m t : ℕ) (ts : List ℕ)
    → recent w m (t ∷ ts) ≡ (if ltb m (t + w) then 1 else 0) + recent w m ts
unfolding recent
recent_cons w m t ts = refl

recent-append :
    (w m t : ℕ) (ts : List ℕ)
    → recent w m (ts ++ t ∷ []) ≡ recent w m ts + (if ltb m (t + w) then 1 else 0)
unfolding recent
recent-append w m t [] = omega arith
recent-append w m t (x ∷ ts) = ground (arith, recent-append w m t ts)

pub recent_later : (w m n : ℕ) (ts : List ℕ) → m ≤ n → recent w n ts ≤ recent w m ts
unfolding recent
recent_later w m n [] h = omega arith
recent_later w m n (t ∷ ts) h = ground (arith, recent_later w m n ts h)

-- what is trimmed by a window is not recent in a shorter one
pub recent-trim :
    (w v now m : ℕ) (ts : List ℕ) → w ≤ v → now ≤ m → recent w m (trim v now ts) ≡ recent w m ts
unfolding recent trim
recent-trim w v now m [] h k = refl
recent-trim w v now m (t ∷ ts) h k = ground (arith, recent-trim w v now m ts h k)

recent_nil : (w m : ℕ) → recent w m [] ≡ 0
unfolding recent
recent_nil w m = refl

recent-sweep :
    (w v now m : ℕ) (active : Table Key ℕ) (k : Key) (d : Table Key (List ℕ))
    → w ≤ v
    → now ≤ m
    → recent w m (find_or [] k d) ≤ recent w m (find_or [] k (sweep v now active d))
unfolding sweep find_or find
recent-sweep w v now m active k [] h p = omega arith
recent-sweep w v now m active k ((j, ts) ∷ d) h p =
    ground
      (arith, recent-sweep w v now m active k d h p, recent-trim w v now m ts h p, recent_nil w m)

-- every granted request that is recent at some later time is in the history of its key
pub record Covers (window : Key → ℕ) (now : ℕ) (log : List (Key × ℕ)) (history : Table Key (List ℕ))
    : Type 0 where
  pub at :
      (k : Key) (m : ℕ)
      → now ≤ m
      → recent (window k) m (times k log) ≤ recent (window k) m (find_or [] k history)

module _ (window : Key → ℕ) (now : ℕ) (log : List (Key × ℕ)) (history : Table Key (List ℕ)) where
  pub Covers_later :
      (later : ℕ) → now ≤ later → Covers window now log history → Covers window later log history
  Covers_later later h c = record { at = λ k m p. c.at k m (omega (arith, h, p)) }

  pub Covers-sweep :
      (v : ℕ) (active : Table Key ℕ)
      → ((k : Key) → window k ≤ v)
      → Covers window now log history
      → Covers window now log (sweep v now active history)
  Covers-sweep v active widest c = record {
    at = λ k m p.
        omega (arith, c.at k m p, recent-sweep (window k) v now m active k history (widest k) p);
  }

  pub Covers-trim :
      (j : Key)
      → Covers window now log history
      → Covers window now log (put j (trim (window j) now (find_or [] j history)) history)
  Covers-trim j c = record {
    at = λ k m p. elim (pair_eq.discrete j k) [
      | yes same ↦ ground (
        arith,
        c.at k m p,
        find_or-put [] j k (trim (window j) now (find_or [] j history)) history,
        recent-trim (window j) (window j) now m (find_or [] j history),
      )
      | no other ↦ ground (
        arith,
        c.at k m p,
        find_or-put [] j k (trim (window j) now (find_or [] j history)) history,
      )
    ];
  }

  pub Covers-stamp :
      (j : Key)
      → Covers window now log history
      → Covers window now ((j, now) ∷ log) (stamp now j history)
  unfolding times
  Covers-stamp j c = record {
    at = λ k m p. ground (
      arith,
      c.at k m p,
      find_or-put [] j k (find_or [] j history ++ now ∷ []) history,
      recent-append (window k) m now (find_or [] k history),
      recent_cons (window k) m now (times k log),
    );
  }
