-- ===== src/Offers/Idempotency/Writes.antt =====
-- A record that is no longer pending is never written again.
use autonomerce.Prelude.{
  String, true, string_eq, ◌≡◌, ◌≢◌, refl, ◌⊎◌, inl, inr, none, some, arith, Option-cases,
}
use autonomerce.Prelude.Text.{Runtime}
use autonomerce.Prelude.Dict.{lookup, insert, lookup-insert, is_some}
use autonomerce.Prelude.Results.{ok, Result-cases}
use autonomerce.Offers.Idempotency.{
  IdempotencyStatus, pending, succeeded, failed, IdempotencyRecord, IdempotencyReservation,
  Registry, key_of, new_record, reserve_at, reserve, reserved_for, complete_record, complete,
  fail_record, fail,
}

-- what a method does to the registry: nothing, or one write, to a key that was free or pending
pub data Writes (s : Registry) : Registry → Type 0 where
  nothing : Writes s s
  granted : (key : String) (r : IdempotencyRecord) → lookup key s ≡ none → Writes s (insert key r s)
  settled :
      (key : String) (old r : IdempotencyRecord)
      → lookup key s ≡ some old
      → old.status ≡ pending
      → Writes s (insert key r s)

pub Writes-same : {s t : Registry} → t ≡ s → Writes s t
Writes-same {s} p = rw p nothing

pub status-cases : (x : IdempotencyStatus) → (x ≡ pending) ⊎ ((x ≡ succeeded) ⊎ (x ≡ failed))
status-cases pending = inl refl
status-cases succeeded = inr (inl refl)
status-cases failed = inr (inr refl)

pub reserve-Writes :
    (py : Runtime) (key request : String) (s t : Registry) (r : IdempotencyReservation)
    → reserve py key request s ≡ ok (r, t)
    → Writes s t
unfolding reserve reserve_at
reserve-Writes py key request s t r h = elim (Result-cases (key_of key)) [
  | inr (e, bad) ↦ absurd (ground arith)
  | inl (selected, k) ↦ elim (Option-cases (lookup selected s)) [
    | inr (old, there) ↦ Writes-same (ground arith)
    | inl free ↦
        let p : t ≡ insert selected (new_record py selected request) s = ground arith in
        rw p (granted selected (new_record py selected request) free)
  ]
]

pub complete-Writes :
    (py : Runtime) (key request response : String) (s t : Registry) (r : IdempotencyRecord)
    → complete py key request response s ≡ ok (r, t)
    → Writes s t
unfolding complete complete_record reserved_for
complete-Writes py key request response s t r h = elim (Result-cases (key_of key)) [
  | inr (e, bad) ↦ absurd (ground arith)
  | inl (selected, k) ↦ elim (Option-cases (lookup selected s)) [
    | inl free ↦ absurd (ground arith)
    | inr (old, there) ↦ elim (status-cases old.status) [
      | inl is_pending ↦
          let p : t ≡ insert selected r s = ground arith in
          rw p (settled selected old r there is_pending)
      | inr ended ↦ Writes-same (ground arith)
    ]
  ]
]

pub fail-Writes :
    (py : Runtime) (key request code : String) (s t : Registry) (r : IdempotencyRecord)
    → fail py key request code s ≡ ok (r, t)
    → Writes s t
unfolding fail fail_record reserved_for
fail-Writes py key request code s t r h = elim (Result-cases (key_of key)) [
  | inr (e, bad) ↦ absurd (ground arith)
  | inl (selected, k) ↦ elim (Option-cases (lookup selected s)) [
    | inl free ↦ absurd (ground arith)
    | inr (old, there) ↦ elim (status-cases old.status) [
      | inl is_pending ↦
          let p : t ≡ insert selected r s = ground arith in
          rw p (settled selected old r there is_pending)
      | inr ended ↦ Writes-same (ground arith)
    ]
  ]
]

-- what every write keeps: records that ended, and that a key is taken
pub Writes-final :
    {s t : Registry} (j : String) (r : IdempotencyRecord)
    → Writes s t
    → lookup j s ≡ some r
    → r.status ≢ pending
    → lookup j t ≡ some r
Writes-final j r nothing h ended = h
Writes-final {s} j r (granted key new free) h ended = ground (arith, lookup-insert key j new s)
Writes-final {s} j r (settled key old new there was) h ended =
    ground (arith, lookup-insert key j new s)

pub Writes-taken :
    {s t : Registry} (j : String)
    → Writes s t
    → is_some (lookup j s) ≡ true
    → is_some (lookup j t) ≡ true
Writes-taken j nothing h = h
Writes-taken {s} j (granted key new free) h = ground (arith, lookup-insert key j new s)
Writes-taken {s} j (settled key old new there was) h = ground (arith, lookup-insert key j new s)
