-- ===== src/Offers/Policy/Decided.antt =====
-- packages/offerrail/policy.py: the tests on the offer, and on chain and token, decide the violations.
use autonomerce.Prelude.{
  String, Bool, true, ◌==◌, string_eq, ◌≡◌, ◌↔◌, inl, inr, List, [], ◌∷◌, ◌++◌, arith, contains,
  Bool-cases,
}
use autonomerce.Prelude.Text.{Runtime, strip}
use autonomerce.Contracts.{proposal_state_eq}
use autonomerce.Contracts.Offers.{ServiceSku, CommercialPolicy, Proposal}
use autonomerce.Offers.Policy.{proposal_tests, money_tests, chain_allowed, normalized_upper}
use autonomerce.Offers.Policy.Violations.{offer_violations, Lists, money_violations}

infixr 5 ◌∷∷◌
-- each test decides the violation at its place, and has its reason code
pub data Decides : List (Bool × String) → List (Type 0 × String) → Type 1 where
  end : Decides [] []
  ◌∷∷◌ :
      {test : Bool} {code : String} {P : Type 0} {ts : List (Bool × String)}
      {vs : List (Type 0 × String)}
      → ((test ≡ true) ↔ P)
      → Decides ts vs
      → Decides ((test, code) ∷ ts) ((P, code) ∷ vs)

pub Decides-append :
    {ts us : List (Bool × String)} {vs ws : List (Type 0 × String)}
    → Decides ts vs
    → Decides us ws
    → Decides (ts ++ us) (vs ++ ws)
Decides-append end e = e
Decides-append (p ∷∷ d) e = p ∷∷ Decides-append d e

pub offer_decided :
    (p : CommercialPolicy) (sku : ServiceSku) (o : Proposal)
    → Decides (proposal_tests p sku o) (offer_violations p sku o)
offer_decided p sku o =
    (λ h. ground arith, λ h. ground arith)
    ∷∷ (λ h. ground arith, λ h. ground arith)
    ∷∷ (
      λ h. (ground arith, ground arith, ground arith, ground arith),
      λ (a, b, c, d). ground (arith, a, b, c, d),
    )
    ∷∷ (λ h. ground arith, λ h. ground arith)
    ∷∷ (λ h. ground arith, λ h. ground arith)
    ∷∷ (λ h. ground arith, λ h. ground arith)
    ∷∷ (λ h. ground arith, λ h. ground arith)
    ∷∷ end

listed_iff :
    (py : Runtime) (chain : String) (allowed : List String)
    → (contains (py.upper (strip chain)) (normalized_upper py allowed) ≡ true)
      ↔ Lists py chain allowed
unfolding normalized_upper
listed_iff py chain [] = (λ h. ground arith, λ h. elim h [ ])
listed_iff py chain (x ∷ xs) =
    let rest = listed_iff py chain xs in
    (
      λ h. elim (Bool-cases (strip x == "")) [
        | inl blank ↦ inr (rest.0 (ground arith))
        | inr some_text ↦ elim (Bool-cases (py.upper (strip x) == py.upper (strip chain))) [
          | inl same ↦ inl (ground arith, ground arith)
          | inr other ↦ inr (rest.0 (ground arith))
        ]
      ],
      λ h. elim h [ inl (named, same) ↦ ground arith | inr later ↦ ground (arith, rest.1 later) ],
    )

pub money_decided :
    (py : Runtime) (chain token : String) (p : CommercialPolicy)
    → Decides (money_tests py chain token p) (money_violations py chain token p)
unfolding chain_allowed
money_decided py chain token p =
    let listed = listed_iff py chain p.allowed_chains in
    (λ h. ground arith, λ h. ground arith)
    ∷∷ (
      λ h. (ground arith, λ w. absurd (ground (arith, listed.1 w))),
      λ (given, w).
          elim (Bool-cases
            (contains (py.upper (strip chain)) (normalized_upper py p.allowed_chains))) [
              | inl there ↦ elim (w (listed.0 there)) [ ]
              | inr missing ↦ ground arith
            ],
    )
    ∷∷ (λ h. ground arith, λ h. ground arith)
    ∷∷ (λ h. (ground arith, ground arith, ground arith), λ (a, b, c). ground (arith, a, b, c))
    ∷∷ end
