-- ===== src/Offers/Negotiation/Counter.antt =====
-- What a counteroffer that was accepted keeps to.
use autonomerce.Prelude.{
  ℕ, ◌+◌, ◌≤◌, String, true, false, ◌==◌, string_eq, ◌≡◌, ◌≢◌, ◌⊎◌, inl, inr, Option, none, some,
  List, [], ◌∷◌, ◌++◌, arith, contains, all, Among, contains_sound, if◌then◌else◌, Bool-cases, ap,
}
use autonomerce.Prelude.Text.{Runtime, strip}
use autonomerce.Prelude.Results.{ok, Result-cases}
use autonomerce.Contracts.{offered, countered, proposal_state_eq}
use autonomerce.Contracts.Offers.{
  ServiceSku, CommercialPolicy, Proposal, NegotiationDecision, tuple_strings,
}
use autonomerce.Contracts.Offers.Kept.{make_proposal_lem}
use autonomerce.Payments.Models.Names.{get_or}
use autonomerce.Offers.Policy.Permitted.{Permits, evaluate-Permits}
use autonomerce.Offers.Proposals.{default_context}
use autonomerce.Offers.Negotiation.{
  Price, amount, not_amount, Request, chosen_price, check_maximum, chosen_delivery, chosen_outcome,
  chosen_criteria, criteria_kept, countered_with, counter_candidate, negotiate_counteroffer,
}

-- the price is within the buyer's limit, if there is one
abbrev pub WithinMaximum : ℕ → Option Price → Type 0
WithinMaximum price none = Unit
WithinMaximum price (some (amount n)) = price ≤ n
WithinMaximum price (some not_amount) = ⊥

-- a revision of a proposal that a negotiation accepts
pub record Counters (py : Runtime) (clock : ℕ) (o : Proposal) (sku : ServiceSku)
    (policy : CommercialPolicy) (r : Request) (o' : Proposal) : Type 0 where
  pub negotiable : (o.state ≡ offered) ⊎ (o.state ≡ countered)
  pub state : o'.state ≡ countered
  pub revision : o'.revision ≡ o.revision + 1
  pub same_id : o'.proposal_id ≡ o.proposal_id
  pub same_buyer : o'.buyer_agent_url ≡ o.buyer_agent_url
  pub same_expiry : o'.expires_at ≡ o.expires_at
  pub within_maximum : WithinMaximum o'.price_usdc r.buyer_maximum_price_usdc
  pub outcome : (o'.offered_outcome ≡ o.offered_outcome) ⊎ (o'.offered_outcome ≡ sku.outcome)
  pub old_criteria :
      (c : String)
      → strip c ≢ ""
      → Among c o.acceptance_criteria ⊎ Among c sku.acceptance_criteria
      → Among (strip c) o'.acceptance_criteria
  pub permitted :
      Permits py clock policy sku o' (get_or r.context (default_context false)) (some false)

tuple_strings-Among :
    (c : String) (cs : List String) → strip c ≢ "" → Among c cs → Among (strip c) (tuple_strings cs)
unfolding tuple_strings
tuple_strings-Among c [] given h = elim h [ ]
tuple_strings-Among c (x ∷ cs) given (inl p) = elim (Bool-cases (strip x == "")) [
  | inl empty ↦ absurd (ground arith)
  | inr named ↦ rw (named, if◌then◌else◌) (inl (ap strip p))
]
tuple_strings-Among c (x ∷ cs) given (inr h) =
    let rest = tuple_strings-Among c cs given h in
    elim (Bool-cases (strip x == "")) [
      | inl empty ↦ rw (empty, if◌then◌else◌) rest
      | inr named ↦ rw (named, if◌then◌else◌) (inr rest)
    ]

all_kept :
    (c : String) (required criteria : List String)
    → all (λ x. contains x criteria) required ≡ true
    → Among c required
    → Among c criteria
all_kept c [] criteria h a = elim a [ ]
all_kept c (x ∷ required) criteria h (inl p) = rw (← p) (contains_sound x criteria (ground arith))
all_kept c (x ∷ required) criteria h (inr a) = all_kept c required criteria (ground arith) a

Among-join : (c : String) (xs ys : List String) → Among c xs ⊎ Among c ys → Among c (xs ++ ys)
Among-join c [] ys (inr h) = h
Among-join c [] ys (inl h) = elim h [ ]
Among-join c (x ∷ xs) ys (inl (inl p)) = inl p
Among-join c (x ∷ xs) ys (inl (inr h)) = inr (Among-join c xs ys (inl h))
Among-join c (x ∷ xs) ys (inr h) = inr (Among-join c xs ys (inr h))

check_maximum_lem :
    (price : ℕ) (limit : Option Price)
    → check_maximum price limit ≡ ok tt
    → WithinMaximum price limit
unfolding check_maximum
check_maximum_lem price none h = tt
check_maximum_lem price (some (amount n)) h = ground arith
check_maximum_lem price (some not_amount) h = absurd (ground arith)

chosen_outcome_lem :
    (o : Proposal) (sku : ServiceSku) (requested : Option String) (outcome : String)
    → chosen_outcome o sku requested ≡ ok outcome
    → (outcome ≡ o.offered_outcome) ⊎ (outcome ≡ sku.outcome)
unfolding chosen_outcome
chosen_outcome_lem o sku requested outcome h = ground arith

module _ (py : Runtime) (clock : ℕ) (o : Proposal) (sku : ServiceSku) (policy : CommercialPolicy)
    (r : Request) (o' : Proposal) where
  counted :
      (price delivery : ℕ) (outcome : String) (criteria : List String)
      → chosen_price o r.price_usdc ≡ ok price
      → chosen_delivery o r.delivery_seconds ≡ ok delivery
      → chosen_outcome o sku r.outcome ≡ ok outcome
      → chosen_criteria o r.acceptance_criteria ≡ ok criteria
      → counter_candidate py clock o sku policy r ≡ ok o'
      → Counters py clock o sku policy r o'
  unfolding counter_candidate criteria_kept
  counted price delivery outcome criteria p d u k h =
      let kept =
        make_proposal_lem (countered_with o price delivery outcome criteria) o' (ground arith) in
      let maximum = check_maximum_lem price r.buyer_maximum_price_usdc (ground arith) in
      record {
        negotiable = ground arith;
        state = kept.state;
        revision = kept.revision;
        same_id = kept.proposal_id;
        same_buyer = kept.buyer_agent_url;
        same_expiry = kept.expires_at;
        within_maximum = rw kept.price_usdc maximum;
        outcome = rw kept.offered_outcome (chosen_outcome_lem o sku r.outcome outcome u);
        old_criteria = λ c given a. rw kept.acceptance_criteria (
            tuple_strings-Among c criteria given (
              all_kept c (o.acceptance_criteria ++ sku.acceptance_criteria) criteria (ground arith)
                (Among-join c o.acceptance_criteria sku.acceptance_criteria a)));
        permitted = (evaluate-Permits py clock policy sku o' _ _).0 (ground arith);
      }

  counter_candidate-Counters :
      counter_candidate py clock o sku policy r ≡ ok o' → Counters py clock o sku policy r o'
  unfolding counter_candidate
  counter_candidate-Counters h = elim (Result-cases (chosen_price o r.price_usdc)) [
    | inr (e, bad) ↦ absurd (ground arith)
    | inl (price, p) ↦ elim (Result-cases (chosen_delivery o r.delivery_seconds)) [
      | inr (e, bad) ↦ absurd (ground arith)
      | inl (delivery, d) ↦ elim (Result-cases (chosen_outcome o sku r.outcome)) [
        | inr (e, bad) ↦ absurd (ground arith)
        | inl (outcome, u) ↦ elim (Result-cases (chosen_criteria o r.acceptance_criteria)) [
          | inr (e, bad) ↦ absurd (ground arith)
          | inl (criteria, k) ↦ counted price delivery outcome criteria p d u k h
        ]
      ]
    ]
  ]

-- If `negotiate_counteroffer` returns a decision, then either it rejects and its proposal is the
-- one that was negotiated, or it accepts, and its proposal is the next revision: countered,
-- within the buyer's limit, with an authorized outcome and all criteria of the proposal and the
-- service, and permitted by the policy.
pub negotiate_counteroffer_lem :
    (py : Runtime) (clock : ℕ) (o : Proposal) (sku : ServiceSku) (policy : CommercialPolicy)
    (r : Request) (d : NegotiationDecision)
    → negotiate_counteroffer py clock o sku policy r ≡ ok d
    → ((d.accepted ≡ false) × (d.proposal ≡ o))
      ⊎ ((d.accepted ≡ true) × Counters py clock o sku policy r d.proposal)
unfolding negotiate_counteroffer
negotiate_counteroffer_lem py clock o sku policy r d h =
    elim (Result-cases (counter_candidate py clock o sku policy r)) [
      | inr (e, stopped) ↦ inl (ground arith, ground arith)
      | inl (candidate, passed) ↦ inr (
        ground arith,
        counter_candidate-Counters py clock o sku policy r d.proposal (ground arith),
      )
    ]
