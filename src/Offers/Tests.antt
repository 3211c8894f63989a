-- ===== src/Offers/Tests.antt =====
-- Runs of the proposal lane on concrete services, policies, proposals and operations.
use autonomerce.Prelude.{
  String, true, false, ◌≡◌, ◌↔◌, ◌⊎◌, refl, none, some, List, [], ◌∷◌, Among, String-discrete,
  ℕ_discrete, Bool-cases, ◌+◌, ◌≤◌, string_eq,
}
use autonomerce.Prelude.Text.{Runtime, no_port, strip, strip_left, strip_right, is_space, take, len}
use autonomerce.Prelude.Dict.{lookup, insert}
use autonomerce.Prelude.Results.{ok}
use autonomerce.Contracts.{draft, offered, countered, accepted, ProposalState-discrete, stable_id}
use autonomerce.Contracts.Money.{usdc_text, whole_text, fraction_text, all_places}
use autonomerce.Contracts.Offers.{
  ServiceSku, BuyerNeed, CommercialPolicy, Proposal, NegotiationDecision, make_proposal,
  need_reference, tuple_strings,
}
use autonomerce.Payments.Models.Names.{ends_with, strip_dots}
use autonomerce.Offers.Hosts.{
  hostname_from_url, safe_url, normalize_rules, normalize_host_rule, starts_with, includes, drop,
  plain_rule, matches_host,
}
use autonomerce.Offers.Policy.{
  evaluate_commercial_policy, policy_tests, collect, append_once, chain_allowed, normalized_upper,
  host_rules, is_past, require_policy_approval,
}
use autonomerce.Offers.Policy.Violations.{violations}
use autonomerce.Offers.Policy.Reasons.{Reports, NoRepeat, evaluate_reasons}
use autonomerce.Offers.Policy.Permitted.{Permits, evaluate-Permits}
use autonomerce.Offers.Proposals.{
  transition_proposal, move_proposal, proposal_is_expired, default_context, Draft, create_proposal,
  check_seller, check_expiry, expiry_text, drafted,
}
use autonomerce.Offers.Proposals.Transition.{Advances, Expects, transition_proposal_iff}
use autonomerce.Offers.Proposals.Lifecycle.{Reaches, here, step, stage, Reaches_lem}
use autonomerce.Offers.Proposals.Drafted.{Created, create_proposal-Created}
use autonomerce.Offers.Negotiation.{
  Request, amount, negotiate_counteroffer, counter_candidate, chosen_price, check_maximum,
  chosen_delivery, chosen_outcome, chosen_criteria, criteria_kept, add_criteria,
}
use autonomerce.Offers.Negotiation.Counter.{Counters, negotiate_counteroffer_lem}
use autonomerce.Offers.Idempotency.{
  succeeded, returned, raised, World, run_once, run_reserved, reserve, reserve_at, key_of, settle,
  complete, complete_record, reserved_for,
}
use autonomerce.Offers.Idempotency.Once.{
  Run, run_all, new_world, Distinct, AllTaken, called_at_most_once,
}
use autonomerce.Offers.Idempotency.Answers.{answers_for_good}

-- a runtime library for texts that are already normalized, where every URL is on one host
abbrev plain : Runtime
plain = record {
  lower = λ s. s;
  upper = λ s. s;
  casefold = λ s. s;
  isalnum = λ s. true;
  dumps_list = λ xs. elim xs [ [] ↦ "" | x ∷ rest ↦ x ];
  dumps_object = λ xs. elim xs [ [] ↦ "" | x ∷ rest ↦ x.0 ];
  sha256_hex = λ s. s;
  from_isoformat = λ s. some (record { aware = true; instant = len s });
  isoformat = λ n. "";
  url_split = λ s. some (record {
    scheme = "https";
    hostname = some "buyer.example";
    username = none;
    password = none;
    port = no_port;
  });
  idna = λ s. some s;
}

abbrev sku : ServiceSku
sku = record {
  sku_id = "sku_1";
  capability_id = "review";
  name = "Review";
  outcome = "A review";
  base_price_usdc = 2000000;
  acceptance_criteria = "complete" ∷ [];
  maximum_latency_seconds = 300;
  capacity_per_hour = 4;
}

-- prices from one to five USDC, and at most a quarter off
abbrev policy : CommercialPolicy
policy = record {
  policy_id = "policy-1";
  owner_id = "owner";
  minimum_price_usdc = 1000000;
  maximum_price_usdc = 5000000;
  maximum_discount_fraction = record { units = 25; places = 2 };
  maximum_open_proposals = 3;
  maximum_tasks_per_hour = 20;
  allowed_buyer_hosts = "example" ∷ [];
  blocked_buyer_hosts = [];
  allowed_chains = "BASE" ∷ [];
  allowed_token = "USDC";
  unattended = true;
}

abbrev need : BuyerNeed
need = record {
  need_id = "need_1";
  buyer_agent_url = "https://buyer.example";
  desired_outcome = "A review";
  maximum_price_usdc = 2500000;
  required_tags = [];
  expires_at = none;
}

abbrev wish : Draft
wish = record {
  seller_agent_url = "https://seller.example";
  problem_observed = "No review";
  price_usdc = none;
  delivery_seconds = none;
  offered_outcome = none;
  expires_at = none;
  context = none;
}

abbrev first_draft : Proposal
first_draft =
    drafted plain sku need "https://seller.example" "No review" sku.outcome 2000000 300 none

abbrev offer : Proposal
offer = record first_draft { state = offered; revision = 2 }

abbrev agreed : Proposal
agreed = record first_draft { state = accepted; revision = 3 }

evaluate-Permits_example :
    ((evaluate_commercial_policy plain 0 policy sku offer (default_context false) none).allowed
      ≡ true)
    ↔ Permits plain 0 policy sku offer (default_context false) none
evaluate-Permits_example = evaluate-Permits plain 0 policy sku offer (default_context false) none

evaluate_reasons_example :
    let e = evaluate_commercial_policy plain 0 policy sku offer (default_context false) none in
    ((r : String)
      → Among r e.reason_codes
        ↔ Reports (violations plain 0 policy sku offer (default_context false) none) r)
    × NoRepeat e.reason_codes
evaluate_reasons_example = evaluate_reasons plain 0 policy sku offer (default_context false) none

offers : transition_proposal plain 0 first_draft offered (some 1) none ≡ ok offer
unfolding transition_proposal ℕ_discrete ProposalState-discrete move_proposal proposal_is_expired
    make_proposal need_reference String-discrete strip stable_id take tuple_strings
offers = refl

accepts : transition_proposal plain 0 offer accepted (some 2) none ≡ ok agreed
unfolding transition_proposal ℕ_discrete ProposalState-discrete move_proposal proposal_is_expired
    make_proposal need_reference String-discrete strip stable_id take tuple_strings
accepts = refl

draft_made : make_proposal first_draft ≡ ok first_draft
unfolding make_proposal need_reference String-discrete strip stable_id take tuple_strings ℕ_discrete
draft_made = refl

transition_proposal_iff_example :
    (transition_proposal plain 0 first_draft offered (some 1) none ≡ ok offer) ↔ (
      Expects (some 1) 1
      × (((offered ≡ draft) × (offer ≡ first_draft))
          ⊎ Advances plain 0 none first_draft offered offer))
transition_proposal_iff_example =
    transition_proposal_iff plain 0 first_draft offered (some 1) none offer draft_made

abbrev agreed_history : Reaches plain first_draft agreed
agreed_history = step 0 accepted (some 2) none (step 0 offered (some 1) none here offers) accepts

Reaches_lem_example :
    (agreed.proposal_id ≡ first_draft.proposal_id)
    × (agreed.price_usdc ≡ first_draft.price_usdc)
    × (agreed.delivery_seconds ≡ first_draft.delivery_seconds)
    × (agreed.offered_outcome ≡ first_draft.offered_outcome)
    × (agreed.expires_at ≡ first_draft.expires_at)
    × (1 ≤ 3)
    × (3 + stage draft ≤ 1 + stage accepted)
Reaches_lem_example = Reaches_lem plain first_draft agreed agreed_history

creates : create_proposal plain 0 sku policy need wish ≡ ok first_draft
unfolding create_proposal String-discrete strip ℕ_discrete check_seller safe_url expiry_text
    check_expiry make_proposal need_reference stable_id take require_policy_approval
    evaluate_commercial_policy policy_tests hostname_from_url host_rules matches_host all_places
    fraction_text usdc_text whole_text tuple_strings ProposalState-discrete drop includes
    normalize_host_rule normalize_rules plain_rule starts_with append_once chain_allowed collect
    is_past normalized_upper ends_with strip_dots Bool-cases is_space len strip_left strip_right
creates = refl

create_proposal-Created_example : Created plain 0 sku policy need wish first_draft
create_proposal-Created_example =
    create_proposal-Created plain 0 sku policy need wish first_draft creates

-- a counteroffer of 1.8 USDC from a buyer who pays at most two
abbrev request : Request
request = record {
  price_usdc = some (amount 1800000);
  delivery_seconds = none;
  outcome = none;
  acceptance_criteria = none;
  buyer_maximum_price_usdc = some (amount 2000000);
  context = none;
}

abbrev counter : Proposal
counter = record first_draft { price_usdc = 1800000; state = countered; revision = 3 }

abbrev decided : NegotiationDecision
decided = record {
  accepted = true;
  reason_code = "within_policy";
  proposal = counter;
  policy_id = "policy-1";
}

negotiates : negotiate_counteroffer plain 0 offer sku policy request ≡ ok decided
unfolding negotiate_counteroffer counter_candidate chosen_price check_maximum chosen_delivery
    chosen_outcome chosen_criteria criteria_kept add_criteria String-discrete strip ℕ_discrete
    check_seller safe_url expiry_text check_expiry make_proposal need_reference stable_id take
    require_policy_approval evaluate_commercial_policy policy_tests hostname_from_url host_rules
    matches_host all_places fraction_text usdc_text whole_text tuple_strings ProposalState-discrete
    drop includes normalize_host_rule normalize_rules plain_rule starts_with append_once
    chain_allowed collect is_past normalized_upper ends_with strip_dots Bool-cases is_space len
    strip_left strip_right
negotiates = refl

negotiate_counteroffer_lem_example :
    ((true ≡ false) × (counter ≡ offer))
    ⊎ ((true ≡ true) × Counters plain 0 offer sku policy request counter)
negotiate_counteroffer_lem_example =
    negotiate_counteroffer_lem plain 0 offer sku policy request decided negotiates

-- three runs under two keys, one of which fails and is tried again
abbrev runs : List Run
runs =
    record { key = "k1"; request = "a"; failure_code = "unknown"; outcome = raised }
    ∷ record { key = "k1"; request = "a"; failure_code = "unknown"; outcome = returned "1" }
    ∷ record { key = "k2"; request = "b"; failure_code = "unknown"; outcome = returned "2" }
    ∷ []

called_at_most_once_example :
    let w = run_all plain runs new_world in Distinct w.calls × AllTaken w.records w.calls
called_at_most_once_example = called_at_most_once plain runs

abbrev answered : World
answered = record {
  records =
      (
        "k3",
        record {
          key = "k3";
          request_fingerprint = "sha256:c";
          status = succeeded;
          response = some "3";
          response_fingerprint = some "sha256:3";
          error_code = none;
        },
      )
      ∷ [];
  calls = "k3" ∷ [];
}

answers : run_once plain "k3" "c" "unknown" (returned "3") new_world ≡ (ok "3", answered)
unfolding run_once reserve key_of String-discrete ℕ_discrete reserve_at lookup run_reserved settle
    complete reserved_for insert complete_record
answers = refl

answers_for_good_example :
    run_once plain "k3" "c" "unknown" raised (run_all plain runs answered)
    ≡ (ok "3", run_all plain runs answered)
answers_for_good_example =
    answers_for_good plain "k3" "c" "unknown" "3" (returned "3") new_world answered runs "unknown"
      raised answers
