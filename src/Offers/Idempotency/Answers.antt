-- ===== src/Offers/Idempotency/Answers.antt =====
-- An answer of `run_once` is the answer to the same request for good.
use autonomerce.Prelude.{
  String, false, string_eq, ◌≡◌, ◌≢◌, refl, subst, inl, inr, some, List, ◌∷◌, arith, Option-cases,
  Bool-cases,
}
use autonomerce.Prelude.Text.{Runtime}
use autonomerce.Prelude.Dict.{lookup, lookup-insert_self}
use autonomerce.Prelude.Results.{ok, Result-cases}
use autonomerce.Payments.Models.Names.{get_or}
use autonomerce.Offers.Idempotency.{
  succeeded, IdempotencyRecord, IdempotencyReservation, IdempotencyError, Registry,
  request_fingerprint, key_of, reserve_at, reserve, reserved_for, complete_record, complete,
  Outcome, returned, uncopied, raised, World, fail_and_raise, replay, settle, run_reserved,
  run_once,
}
use autonomerce.Offers.Idempotency.Once.{Later, Run, run_all, run_all-Later}

-- the registry holds an answer to a request
pub record Answered (py : Runtime) (key request answer : String) (s : Registry) : Type 0 where
  pub selected : String
  pub normal : key_of key ≡ ok selected
  pub entry : IdempotencyRecord
  pub found : lookup selected s ≡ some entry
  pub status : entry.status ≡ succeeded
  pub same_request : entry.request_fingerprint ≡ request_fingerprint py request
  pub answer_is : get_or entry.response "null" ≡ answer

Answered-Later :
    (py : Runtime) (key request answer : String) (s t : Registry)
    → Later s t
    → Answered py key request answer s
    → Answered py key request answer t
Answered-Later py key request answer s t l a = record {
  selected = a.selected;
  normal = a.normal;
  entry = a.entry;
  found = l.final a.selected a.entry a.found (ground (arith, a.status));
  status = a.status;
  same_request = a.same_request;
  answer_is = a.answer_is;
}

-- a request with an answer gets it again, and its operation is not called
run_once-Answered :
    (py : Runtime) (key request code answer : String) (outcome : Outcome) (w : World)
    → Answered py key request answer w.records
    → run_once py key request code outcome w ≡ (ok answer, w)
unfolding run_once reserve reserve_at run_reserved replay
run_once-Answered py key request code answer outcome w a =
    ground (arith, a.normal, a.found, a.status, a.same_request, a.answer_is)

complete-Answered :
    (py : Runtime) (key request response : String) (s t : Registry) (r : IdempotencyRecord)
    → complete py key request response s ≡ ok (r, t)
    → Answered py key request (get_or r.response "null") t
unfolding complete complete_record reserved_for
complete-Answered py key request response s t r h = elim (Result-cases (key_of key)) [
  | inr (e, bad) ↦ absurd (ground arith)
  | inl (selected, k) ↦ elim (Option-cases (lookup selected s)) [
    | inl free ↦ absurd (ground arith)
    | inr (old, there) ↦ record {
      selected = selected;
      normal = k;
      entry = r;
      found = ground (arith, lookup-insert_self selected r s);
      status = ground arith;
      same_request = ground arith;
      answer_is = refl;
    }
  ]
]

-- a reservation that was not acquired gives the record that was there
reserve-found :
    (py : Runtime) (key request : String) (s t : Registry) (r : IdempotencyReservation)
    → reserve py key request s ≡ ok (r, t)
    → r.acquired ≡ false
    → r.record_found.status ≡ succeeded
    → Answered py key request (get_or r.record_found.response "null") t
unfolding reserve reserve_at
reserve-found py key request s t r h old done = elim (Result-cases (key_of key)) [
  | inr (e, bad) ↦ absurd (ground arith)
  | inl (selected, k) ↦ elim (Option-cases (lookup selected s)) [
    | inl free ↦ absurd (ground arith)
    | inr (e, there) ↦ record {
      selected = selected;
      normal = k;
      entry = r.record_found;
      found = ground arith;
      status = done;
      same_request = ground arith;
      answer_is = refl;
    }
  ]
]

module _ (py : Runtime) (key request code answer : String) where
  fail_and_raise-raises :
      (e : IdempotencyError) (w w' : World)
      → fail_and_raise py key request code e w ≢ (ok answer, w')
  unfolding fail_and_raise
  fail_and_raise-raises e w w' h = ground arith

  settle-Answered :
      (outcome : Outcome) (w w' : World)
      → settle py key request code outcome w ≡ (ok answer, w')
      → Answered py key request answer w'.records
  unfolding settle
  settle-Answered raised w w' h = absurd (fail_and_raise-raises _ w w' h)
  settle-Answered uncopied w w' h = absurd (fail_and_raise-raises _ w w' h)
  settle-Answered (returned response) w w' h =
      elim (Result-cases (complete py key request response w.records)) [
        | inr (e, bad) ↦ absurd (fail_and_raise-raises e w w' (ground arith))
        | inl ((r, t), c) ↦
            subst (λ a. Answered py key request a w'.records) (ground arith)
              (subst (λ s. Answered py key request (get_or r.response "null") s) (ground arith)
                (complete-Answered py key request response w.records t r c))
      ]

  gives-Answered :
      (outcome : Outcome) (w w' : World)
      → run_once py key request code outcome w ≡ (ok answer, w')
      → Answered py key request answer w'.records
  unfolding run_once run_reserved replay
  gives-Answered outcome w w' h = elim (Result-cases (reserve py key request w.records)) [
    | inr (e, bad) ↦ absurd (ground arith)
    | inl ((r, s), c) ↦ elim (Bool-cases r.acquired) [
      | inl new ↦
          settle-Answered outcome (record { records = s; calls = r.record_found.key ∷ w.calls }) w'
            (ground arith)
      | inr old ↦
          let found = reserve-found py key request w.records s r c old (ground arith) in
          subst (λ a. Answered py key request a w'.records) (ground arith)
            (subst (λ t. Answered py key request (get_or r.record_found.response "null") t)
              (ground arith) found)
    ]
  ]

-- If `run_once` answers a request, then after any further calls of `run_once`, under any keys, the
-- same request gets the same answer, and its operation is not called again.
pub answers_for_good :
    (py : Runtime) (key request code answer : String) (outcome : Outcome) (w w' : World)
    (rs : List Run) (later_code : String) (later_outcome : Outcome)
    → run_once py key request code outcome w ≡ (ok answer, w')
    → run_once py key request later_code later_outcome (run_all py rs w')
      ≡ (ok answer, run_all py rs w')
answers_for_good py key request code answer outcome w w' rs later_code later_outcome h =
    run_once-Answered py key request later_code answer later_outcome (run_all py rs w') (
      Answered-Later py key request answer w'.records (run_all py rs w').records
        (run_all-Later py rs w') (gives-Answered py key request code answer outcome w w' h))
