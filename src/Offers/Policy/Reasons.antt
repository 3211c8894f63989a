-- ===== src/Offers/Policy/Reasons.antt =====
-- packages/offerrail/policy.py: what an evaluation of a commercial policy reports.
use autonomerce.Prelude.{
  ℕ, String, Bool, true, false, ◌||◌, ◌==◌, string_eq, ◌≡◌, refl, ◌↔◌, ◌⊎◌, inl, inr, Option, List,
  [], ◌∷◌, ◌++◌, arith, Among, contains, contains_sound, if◌then◌else◌, Bool-cases,
}
use autonomerce.Prelude.Text.{Runtime}
use autonomerce.Contracts.Offers.{ServiceSku, CommercialPolicy, Proposal}
use autonomerce.Offers.Policy.{
  PolicyContext, append_once, collect, policy_tests, evaluate_commercial_policy,
}
use autonomerce.Offers.Policy.Violations.{violations}
use autonomerce.Offers.Policy.Decided.{Decides, end, ◌∷∷◌}
use autonomerce.Offers.Policy.Matches.{policy_decided}

-- one of the tests is true and carries this reason
abbrev Denies : List (Bool × String) → String → Type 0
Denies [] r = ⊥
Denies ((test, reason) ∷ tests) r = ((test ≡ true) × (reason ≡ r)) ⊎ Denies tests r

Among-append :
    (r reason : String) (rs : List String)
    → Among r (rs ++ reason ∷ []) ↔ ((reason ≡ r) ⊎ Among r rs)
Among-append r reason [] = (
  λ h. elim h [ inl p ↦ inl p | inr q ↦ elim q [ ] ],
  λ h. elim h [ inl p ↦ inl p | inr q ↦ elim q [ ] ],
)
Among-append r reason (x ∷ rs) =
    let rest = Among-append r reason rs in
    (
      λ h. elim h [
        | inl p ↦ inr (inl p)
        | inr q ↦ elim (rest.0 q) [ inl p ↦ inl p | inr a ↦ inr (inr a) ]
      ],
      λ h. elim h [
        | inl p ↦ inr (rest.1 (inl p))
        | inr q ↦ elim q [ inl p ↦ inl p | inr a ↦ inr (rest.1 (inr a)) ]
      ],
    )

Among-append_once :
    (r reason : String) (rs : List String)
    → Among r (append_once rs reason) ↔ ((reason ≡ r) ⊎ Among r rs)
unfolding append_once
Among-append_once r reason rs = elim (Bool-cases (contains reason rs)) [
  | inr fresh ↦ rw (fresh, if◌then◌else◌) (Among-append r reason rs)
  | inl there ↦
      rw (there, if◌then◌else◌)
        (λ h. inr h, λ h. elim h [ inl p ↦ rw (← p) (contains_sound reason rs there) | inr a ↦ a ])
]

collect_lem :
    (r : String) (ts : List (Bool × String)) (rs : List String)
    → Among r (collect ts rs) ↔ (Denies ts r ⊎ Among r rs)
unfolding collect
collect_lem r [] rs = (λ h. inr h, λ h. elim h [ inl d ↦ elim d [ ] | inr a ↦ a ])
collect_lem r ((false, reason) ∷ ts) rs =
    let rest = collect_lem r ts rs in
    (
      λ h. elim (rest.0 h) [ inl d ↦ inl (inr d) | inr a ↦ inr a ],
      λ h. elim h [
        | inl d ↦ elim d [ inl (bad, _) ↦ cc | inr e ↦ rest.1 (inl e) ]
        | inr a ↦ rest.1 (inr a)
      ],
    )
collect_lem r ((true, reason) ∷ ts) rs =
    let rest = collect_lem r ts (append_once rs reason) in
    let here = Among-append_once r reason rs in
    (
      λ h. elim (rest.0 h) [
        | inl d ↦ inl (inr d)
        | inr a ↦ elim (here.0 a) [ inl p ↦ inl (inl (refl, p)) | inr b ↦ inr b ]
      ],
      λ h. elim h [
        | inl d ↦ elim d [ inl (_, p) ↦ rest.1 (inr (here.1 (inl p))) | inr e ↦ rest.1 (inl e) ]
        | inr a ↦ rest.1 (inr (here.1 (inr a)))
      ],
    )

-- no reason stands twice
abbrev pub NoRepeat : List String → Type 0
NoRepeat [] = Unit
NoRepeat (r ∷ rs) = (contains r rs ≡ false) × NoRepeat rs

contains-append :
    (r reason : String) (rs : List String)
    → contains r (rs ++ reason ∷ []) ≡ (contains r rs || reason == r)
contains-append r reason [] = ground arith
contains-append r reason (x ∷ rs) = ground (arith, contains-append r reason rs)

NoRepeat-append :
    (rs : List String) (reason : String)
    → contains reason rs ≡ false
    → NoRepeat rs
    → NoRepeat (rs ++ reason ∷ [])
NoRepeat-append [] reason fresh h = (refl, tt)
NoRepeat-append (r ∷ rs) reason fresh h = (
  rw (contains-append r reason rs) (ground (arith, h.0)),
  NoRepeat-append rs reason (ground arith) h.1,
)

collect-NoRepeat :
    (ts : List (Bool × String)) (rs : List String) → NoRepeat rs → NoRepeat (collect ts rs)
unfolding collect append_once
collect-NoRepeat [] rs h = h
collect-NoRepeat ((false, reason) ∷ ts) rs h = collect-NoRepeat ts rs h
collect-NoRepeat ((true, reason) ∷ ts) rs h =
    collect-NoRepeat ts (append_once rs reason) (elim (Bool-cases (contains reason rs)) [
      | inl there ↦ rw (there, if◌then◌else◌) h
      | inr fresh ↦ rw (fresh, if◌then◌else◌) (NoRepeat-append rs reason fresh h)
    ])

-- one of the violations is there and has this reason code
abbrev pub Reports : List (Type 0 × String) → String → Type 0
Reports [] r = ⊥
Reports ((P, code) ∷ vs) r = (P × (code ≡ r)) ⊎ Reports vs r

Denies-Reports :
    (r : String) {ts : List (Bool × String)} {vs : List (Type 0 × String)}
    → Decides ts vs
    → Denies ts r ↔ Reports vs r
Denies-Reports r end = (λ h. h, λ h. h)
Denies-Reports r (p ∷∷ d) =
    let rest = Denies-Reports r d in
    (
      λ h. elim h [ inl (t, same) ↦ inl (p.0 t, same) | inr l ↦ inr (rest.0 l) ],
      λ h. elim h [ inl (v, same) ↦ inl (p.1 v, same) | inr l ↦ inr (rest.1 l) ],
    )

-- For every policy, service, proposal and context, the reason codes of an evaluation are exactly
-- those of the violations that are there, and no code stands twice.
pub evaluate_reasons :
    (py : Runtime) (clock : ℕ) (p : CommercialPolicy) (sku : ServiceSku) (o : Proposal)
    (c : PolicyContext) (reserving : Option Bool)
    → let e = evaluate_commercial_policy py clock p sku o c reserving in
      ((r : String) → Among r e.reason_codes ↔ Reports (violations py clock p sku o c reserving) r)
      × NoRepeat e.reason_codes
unfolding evaluate_commercial_policy
evaluate_reasons py clock p sku o c reserving =
    let ts = policy_tests py clock p sku o c reserving in
    (
      λ r.
          let same = Denies-Reports r (policy_decided py clock p sku o c reserving) in
          (
            λ h. elim ((collect_lem r ts []).0 h) [ inl d ↦ same.0 d | inr a ↦ elim a [ ] ],
            λ v. (collect_lem r ts []).1 (inl (same.1 v)),
          ),
      collect-NoRepeat ts [] tt,
    )
