-- ===== src/Store/Record.antt =====
-- store/proposals.py: the proposal record, its status, and its storage form.
pub mod RoundTrip
use gmail_b1_gateway.Prelude.{String, Bool, true, false, Option, none, some, ℤ, ◌==◌, if◌then◌else◌}
use gmail_b1_gateway.Json.{Value, str, int, Fields, end, field, member, opt_str}
use gmail_b1_gateway.Errors.{Result, ok, err, proposal_state, ill_typed}

pub data ProposalStatus : Type 0 where
  pending confirmed sent failed outcome_unknown : ProposalStatus

-- `ProposalStatus.value`
unfoldable pub status_value : ProposalStatus → String
status_value pending = "pending"
status_value confirmed = "confirmed"
status_value sent = "sent"
status_value failed = "failed"
status_value outcome_unknown = "outcome_unknown"

-- `ProposalStatus(value)`
unfoldable pub status_of_value : String → Option ProposalStatus
status_of_value s =
    if s == "pending"
    then some pending
    else if s == "confirmed"
    then some confirmed
    else if s == "sent"
    then some sent
    else if s == "failed"
    then some failed
    else if s == "outcome_unknown"
    then some outcome_unknown
    else none

-- `_TERMINAL`
abbrev pub is_terminal : ProposalStatus → Bool
is_terminal pending = false
is_terminal confirmed = false
is_terminal _ = true

pub record Proposal : Type 0 where
  pub proposal_id : String
  pub payload_digest : String
  pub expires_at : ℤ
  pub created_at : ℤ
  pub status : ProposalStatus
  pub idempotency_key : Option String

unfoldable pub to_dict : Proposal → Fields
to_dict p = field "proposal_id" (str p.proposal_id) (
    field "payload_digest" (str p.payload_digest) (
      field "expires_at" (int p.expires_at) (
        field "created_at" (int p.created_at) (
          field "status" (str (status_value p.status))
            (field "idempotency_key" (opt_str p.idempotency_key) end)))))

-- The members that `from_dict` reads: a missing one is a `KeyError`.
abbrev pub text_member : String → Fields → Result String
text_member k d = elim (member k d) [
  | some v ↦ elim v [ str s ↦ ok s | _ ↦ err ill_typed ]
  | none ↦ err proposal_state
]

abbrev pub int_member : String → Fields → Result ℤ
int_member k d = elim (member k d) [
  | some v ↦ elim v [ int n ↦ ok n | _ ↦ err ill_typed ]
  | none ↦ err proposal_state
]

abbrev pub status_member : String → Fields → Result ProposalStatus
status_member k d = elim (member k d) [
  | some v ↦ elim v [
    | str s ↦ elim (status_of_value s) [ some st ↦ ok st | none ↦ err proposal_state ]
    | _ ↦ err proposal_state
  ]
  | none ↦ err proposal_state
]

abbrev pub opt_text_member : String → Fields → Result (Option String)
opt_text_member k d = elim (member k d) [
  | some v ↦ elim v [ str s ↦ ok (some s) | Value.null ↦ ok none | _ ↦ err ill_typed ]
  | none ↦ ok none
]

-- A conversion into the state-free `Result`, in the order of the source's keyword arguments.
abbrev bind : {A B : Type 0} → Result A → (A → Result B) → Result B
bind (ok a) f = f a
bind (err e) f = err e

unfoldable pub from_dict : Fields → Result Proposal
from_dict d = bind (text_member "proposal_id" d) λ i. bind (text_member "payload_digest" d) λ g.
    bind (int_member "expires_at" d) λ x. bind (int_member "created_at" d) λ c.
      bind (status_member "status" d) λ s. bind (opt_text_member "idempotency_key" d) λ k.
        ok (record {
          proposal_id = i;
          payload_digest = g;
          expires_at = x;
          created_at = c;
          status = s;
          idempotency_key = k;
        })
