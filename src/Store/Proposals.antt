-- ===== src/Store/Proposals.antt =====
-- store/proposals.py: `ProposalStore`, the idempotency claim, expiry and status writes.
pub mod Idempotency
pub mod Create
pub mod Reads
use Prim.Native.String.{◌++◌ as str_append}
use gmail_b1_gateway.Prelude.{
  String, Bool, true, false, not, Option, none, some, is_some, ℤ, pos, ltb_ℤ, leb_ℤ, ◌||◌,
  if◌then◌else◌,
}
use gmail_b1_gateway.Json.{str, Fields, end, field}
use gmail_b1_gateway.Errors.{
  Result, ok, err, proposal_not_found, proposal_expired, duplicate_idempotency, proposal_state,
  Action,
}
use gmail_b1_gateway.Store.Backend.{Kv, get as kv_get, put, claim, delete}
use gmail_b1_gateway.Store.Record.{
  ProposalStatus, Proposal, to_dict, from_dict, is_terminal, text_member,
}

-- `_idem_index_key`
unfoldable pub idem_index_key : String → String
idem_index_key key = str_append "idem:" key

-- The record that a claimed idempotency key holds.
abbrev pub index_entry : String → Fields
index_entry proposal_id = field "proposal_id" (str proposal_id) end

-- `_validate_ts`; the type test is the annotation.
abbrev pub is_valid_ts : ℤ → Bool
is_valid_ts t = leb_ℤ (pos 0) t

-- The last step of `create`: the claim, and the roll-back of a loser's record.
claim_key : Option String → Proposal → Action Kv Proposal
claim_key none p kv = (ok p, kv)
claim_key (some key) p kv =
    let (won, kv') = claim (idem_index_key key) (index_entry p.proposal_id) kv in
    if won then (ok p, kv') else (err duplicate_idempotency, delete p.proposal_id kv')

unfoldable pub create : Proposal → Action Kv Proposal
unfolding claim_key
create p kv =
    if not (is_valid_ts p.expires_at) || not (is_valid_ts p.created_at)
    then (err proposal_state, kv)
    else if leb_ℤ p.expires_at p.created_at
    then (err proposal_state, kv)
    else if is_some (kv_get p.proposal_id kv)
    then (err proposal_state, kv)
    else claim_key p.idempotency_key p (put p.proposal_id (to_dict p) kv)

-- A stored record, or none, as a proposal.
abbrev pub decode : Option Fields → Result Proposal
decode none = err proposal_not_found
decode (some d) = from_dict d

-- `get`
unfoldable pub read : String → Kv → Result Proposal
read proposal_id kv = decode (kv_get proposal_id kv)

abbrev follow_index : Option Fields → Kv → Result (Option Proposal)
follow_index none kv = ok none
follow_index (some d) kv = elim (text_member "proposal_id" d) [
  | ok i ↦ elim (read i kv) [ ok p ↦ ok (some p) | err e ↦ err e ]
  | err e ↦ err e
]

unfoldable pub find_by_idempotency : String → Kv → Result (Option Proposal)
unfolding read
find_by_idempotency key kv = follow_index (kv_get (idem_index_key key) kv) kv

unfoldable pub is_live : Proposal → ℤ → Result Bool
is_live p now =
    if not (is_valid_ts now)
    then err proposal_state
    else if is_terminal p.status
    then ok true
    else ok (ltb_ℤ now p.expires_at)

abbrev refuse_expired : Result Bool → Proposal → Result Proposal
refuse_expired (ok true) p = ok p
refuse_expired (ok false) p = err proposal_expired
refuse_expired (err e) p = err e

unfoldable pub get_live : String → ℤ → Kv → Result Proposal
unfolding is_live
get_live proposal_id now kv = elim (read proposal_id kv) [
  | ok p ↦ refuse_expired (is_live p now) p
  | err e ↦ err e
]

unfoldable pub set_status : String → ProposalStatus → Action Kv Proposal
set_status proposal_id status kv = elim (read proposal_id kv) [
  | ok p ↦
      let updated = record p { status = status } in
      (ok updated, put proposal_id (to_dict updated) kv)
  | err e ↦ (err e, kv)
]
