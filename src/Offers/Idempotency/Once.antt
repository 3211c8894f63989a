-- ===== src/Offers/Idempotency/Once.antt =====
-- `run_once` calls an operation at most once for each key, and answers for good.
use autonomerce.Prelude.{
  String, true, false, string_eq, ◌≡◌, ◌≢◌, refl, ◌⊎◌, inl, inr, none, some, List, [], ◌∷◌, arith,
  contains, Option-cases, Bool-cases,
}
use autonomerce.Prelude.Text.{Runtime}
use autonomerce.Prelude.Dict.{lookup, lookup-insert_self, is_some}
use autonomerce.Prelude.Results.{ok, Result-cases}
use autonomerce.Offers.Idempotency.{
  pending, IdempotencyRecord, IdempotencyReservation, IdempotencyError, Registry, key_of,
  new_record, reserve_at, reserve, complete, fail, Outcome, returned, uncopied, raised, World,
  fail_and_raise, settle, run_reserved, run_once,
}
use autonomerce.Offers.Idempotency.Writes.{
  Writes, reserve-Writes, complete-Writes, fail-Writes, Writes-final, Writes-taken,
}

-- a registry at a later time
pub record Later (s t : Registry) : Type 0 where
  pub final :
      (j : String) (r : IdempotencyRecord)
      → lookup j s ≡ some r
      → r.status ≢ pending
      → lookup j t ≡ some r
  pub taken : (j : String) → is_some (lookup j s) ≡ true → is_some (lookup j t) ≡ true

Later-refl : (s : Registry) → Later s s
Later-refl s = record { final = λ j r h e. h; taken = λ j h. h }

Later-trans : {s t u : Registry} → Later s t → Later t u → Later s u
Later-trans a b = record {
  final = λ j r h e. b.final j r (a.final j r h e) e;
  taken = λ j h. b.taken j (a.taken j h);
}

Writes-Later : {s t : Registry} → Writes s t → Later s t
Writes-Later w = record {
  final = λ j r h e. Writes-final j r w h e;
  taken = λ j h. Writes-taken j w h;
}

module _ (py : Runtime) (key request code : String) where
  fail_and_raise-Later :
      (e : IdempotencyError) (w : World)
      → let v = (fail_and_raise py key request code e w).1 in
        Later w.records v.records × (v.calls ≡ w.calls)
  unfolding fail_and_raise
  fail_and_raise-Later e w = elim (Result-cases (fail py key request code w.records)) [
    | inl ((r, s), h) ↦
        rw (h, fail_and_raise)
          (Writes-Later (fail-Writes py key request code w.records s r h), refl)
    | inr (other, h) ↦ rw (h, fail_and_raise) (Later-refl w.records, refl)
  ]

  settle-Later :
      (outcome : Outcome) (w : World)
      → let v = (settle py key request code outcome w).1 in
        Later w.records v.records × (v.calls ≡ w.calls)
  unfolding settle
  settle-Later raised w = fail_and_raise-Later _ w
  settle-Later uncopied w = fail_and_raise-Later _ w
  settle-Later (returned response) w =
      elim (Result-cases (complete py key request response w.records)) [
        | inl ((r, s), h) ↦
            rw (h, settle)
              (Writes-Later (complete-Writes py key request response w.records s r h), refl)
        | inr (e, h) ↦ rw (h, settle) (fail_and_raise-Later e w)
      ]

  -- what one run does: no call, or one, under a key that was free before and is taken after
  pub record Runs (w v : World) : Type 0 where
    pub later : Later w.records v.records
    pub calls :
        (v.calls ≡ w.calls)
        ⊎ ((k : String) × (v.calls ≡ k ∷ w.calls)
            × (lookup k w.records ≡ none)
            × (is_some (lookup k v.records) ≡ true))

  reserve-acquired :
      (s t : Registry) (r : IdempotencyReservation)
      → reserve py key request s ≡ ok (r, t)
      → r.acquired ≡ true
      → (lookup r.record_found.key s ≡ none) × (is_some (lookup r.record_found.key t) ≡ true)
  unfolding reserve reserve_at
  reserve-acquired s t r h new = elim (Result-cases (key_of key)) [
    | inr (e, bad) ↦ absurd (ground arith)
    | inl (selected, k) ↦ elim (Option-cases (lookup selected s)) [
      | inr (old, there) ↦ absurd (ground arith)
      | inl free ↦
          let fresh = new_record py selected request in
          (ground arith, ground (arith, lookup-insert_self selected fresh s))
    ]
  ]

  run_reserved-Runs :
      (outcome : Outcome) (w : World) (r : IdempotencyReservation) (s : Registry)
      → reserve py key request w.records ≡ ok (r, s)
      → Runs w (run_reserved py key request code outcome r (record w { records = s })).1
  unfolding run_reserved
  run_reserved-Runs outcome w r s h =
      let kept = Writes-Later (reserve-Writes py key request w.records s r h) in
      elim (Bool-cases r.acquired) [
        | inr old ↦ rw (old, run_reserved) (record { later = kept; calls = inl refl })
        | inl new ↦
            let got = reserve-acquired w.records s r h new in
            let v : World = record { records = s; calls = r.record_found.key ∷ w.calls } in
            let rest = settle-Later outcome v in
            rw (new, run_reserved)
              (record {
                later = Later-trans kept rest.0;
                calls =
                    inr (r.record_found.key, rest.1, got.0, rest.0.taken r.record_found.key got.1);
              })
      ]

  run_once-Runs :
      (outcome : Outcome) (w : World) → Runs w (run_once py key request code outcome w).1
  unfolding run_once
  run_once-Runs outcome w = elim (Result-cases (reserve py key request w.records)) [
    | inr (e, h) ↦ rw (h, run_once) (record { later = Later-refl w.records; calls = inl refl })
    | inl ((r, s), h) ↦ rw (h, run_once) (run_reserved-Runs outcome w r s h)
  ]

-- a call of `run_once`, and how its operation would end
pub record Run : Type 0 where
  pub key : String
  pub request : String
  pub failure_code : String
  pub outcome : Outcome

-- calls of `run_once`, one after another
unfoldable pub run_all : Runtime → List Run → World → World
run_all py [] w = w
run_all py (r ∷ rs) w = run_all py rs (run_once py r.key r.request r.failure_code r.outcome w).1

-- no key stands twice
abbrev pub Distinct : List String → Type 0
Distinct [] = Unit
Distinct (k ∷ ks) = (contains k ks ≡ false) × Distinct ks

-- every key is taken
abbrev pub AllTaken : Registry → List String → Type 0
AllTaken s [] = Unit
AllTaken s (k ∷ ks) = (is_some (lookup k s) ≡ true) × AllTaken s ks

AllTaken-Later : {s t : Registry} (ks : List String) → Later s t → AllTaken s ks → AllTaken t ks
AllTaken-Later [] l h = tt
AllTaken-Later (k ∷ ks) l h = (l.taken k h.0, AllTaken-Later ks l h.1)

AllTaken-free :
    (s : Registry) (k : String) (ks : List String)
    → lookup k s ≡ none
    → AllTaken s ks
    → contains k ks ≡ false
AllTaken-free s k [] free h = refl
AllTaken-free s k (j ∷ ks) free h = ground (arith, AllTaken-free s k ks free h.1, h.0)

abbrev Once : World → Type 0
Once w = Distinct w.calls × AllTaken w.records w.calls

Runs-Once :
    (py : Runtime) (key request code : String) (w v : World)
    → Runs py key request code w v
    → Once w
    → Once v
Runs-Once py key request code w v r h = elim r.calls [
  | inl same ↦ rw same (h.0, AllTaken-Later w.calls r.later h.1)
  | inr (k, more, free, taken) ↦ rw more (
    (AllTaken-free w.records k w.calls free h.1, h.0),
    (taken, AllTaken-Later w.calls r.later h.1),
  )
]

run_all-Once : (py : Runtime) (rs : List Run) (w : World) → Once w → Once (run_all py rs w)
unfolding run_all
run_all-Once py [] w h = h
run_all-Once py (r ∷ rs) w h = run_all-Once py rs _ (
    Runs-Once py r.key r.request r.failure_code w _
      (run_once-Runs py r.key r.request r.failure_code r.outcome w) h)

abbrev pub new_world : World
new_world = record { records = []; calls = [] }

-- From an empty registry, after any calls of `run_once`, whatever their operations did, no two
-- operations were called under one key, and every key with a call is still taken.
pub called_at_most_once :
    (py : Runtime) (rs : List Run)
    → let w = run_all py rs new_world in Distinct w.calls × AllTaken w.records w.calls
called_at_most_once py rs = run_all-Once py rs new_world (tt, tt)

pub run_all-Later :
    (py : Runtime) (rs : List Run) (w : World) → Later w.records (run_all py rs w).records
unfolding run_all
run_all-Later py [] w = Later-refl w.records
run_all-Later py (r ∷ rs) w =
    Later-trans (run_once-Runs py r.key r.request r.failure_code r.outcome w).later
      (run_all-Later py rs _)
