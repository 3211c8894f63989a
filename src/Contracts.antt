-- ===== src/Contracts.antt =====
-- apps/api/autonomerce/contracts.py: the states, stable identifiers and the payment receipt. USDC
-- amounts are whole numbers of millionths: `usdc` admits no finer amount and no negative one.
pub mod Receipt
pub mod Money
pub mod Offers
use autonomerce.Prelude.{String, ◌≡◌, List, map, Eq, ◌==◌}
use autonomerce.Prelude.Text.{Runtime, strip, take}
use Prim.Native.String.{◌++◌}

pub data ProposalState : Type 0 where
  draft offered countered accepted declined expired paid fulfilling delivered failed : ProposalState

pub data PaymentState : Type 0 where
  created policy_approved submitting confirmed failed_retryable failed_terminal : PaymentState

unfoldable pub ProposalState-discrete : Discrete ProposalState
ProposalState-discrete = hlevel

unfoldable pub PaymentState-discrete : Discrete PaymentState
PaymentState-discrete = hlevel

instance abbrev pub proposal_state_eq : Eq ProposalState
proposal_state_eq = record { discrete = ProposalState-discrete }

instance abbrev pub payment_state_eq : Eq PaymentState
payment_state_eq = record { discrete = PaymentState-discrete }

-- `stable_id`, whose callers write well-formed prefixes
unfoldable pub stable_id : Runtime → String → List String → String
unfolding strip
stable_id py prefix parts =
    prefix ++ "_" ++ take 24 (py.sha256_hex (py.dumps_list (map strip parts)))
