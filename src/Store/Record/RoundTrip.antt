-- ===== src/Store/Record/RoundTrip.antt =====
-- store/proposals.py: `to_dict` followed by `from_dict`, for statuses and whole records.
use gmail_b1_gateway.Prelude.{◌≡◌, refl, some, arith}
use gmail_b1_gateway.Errors.{ok}
use gmail_b1_gateway.Store.Record.{
  ProposalStatus, pending, confirmed, sent, failed, outcome_unknown, status_value, status_of_value,
  Proposal, to_dict, from_dict,
}

pub status_of_value-status_value : (s : ProposalStatus) → status_of_value (status_value s) ≡ some s
unfolding status_of_value status_value
status_of_value-status_value pending = refl
status_of_value-status_value confirmed = refl
status_of_value-status_value sent = refl
status_of_value-status_value failed = refl
status_of_value-status_value outcome_unknown = refl

-- A stored proposal reads back as the proposal that was stored, in every field.
pub from_dict-to_dict : (p : Proposal) → from_dict (to_dict p) ≡ ok p
unfolding from_dict to_dict
from_dict-to_dict p = ground (arith, status_of_value-status_value p.status)
