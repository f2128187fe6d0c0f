-- ===== src/SendFsm.antt =====
-- sendfsm/fsm.py: the send state machine over a proposal store, an audit ledger and a sender.
pub mod Records
pub mod Gates
pub mod Human
pub mod Provenance
pub mod AtMostOnce
pub mod Requests
pub mod Moves
pub mod Steps
use gmail_b1_gateway.Prelude.{
  String, Bool, true, false, not, Option, none, some, List, [], ◌∷◌, ◌++◌, ℤ, ltb_ℤ, if◌then◌else◌,
}
use gmail_b1_gateway.Errors.{
  Result, ok, err, illegal_transition, auto_send_not_enabled, agent_unreachable_required,
  no_auto_retry, already_settled, Action, pure, raise, lift, ◌>>=◌, ◌>>◌, raise_if, query, zoom,
}
use gmail_b1_gateway.Actionset.Switch.{
  SwitchMode, confirm_then_send, auto_send_when_agent_unreachable,
}
use gmail_b1_gateway.Store.Backend.{Kv, AppendLog}
use gmail_b1_gateway.Store.Record.{
  ProposalStatus, pending, confirmed, sent, failed, outcome_unknown, Proposal,
}
use gmail_b1_gateway.Store.Proposals.{read, get_live, set_status}
use gmail_b1_gateway.Store.Ledger
use gmail_b1_gateway.Store.Ledger.{AuditEvent, AuditEventType, record_event}

pub data Actor : Type 0 where
  human auto_unreachable : Actor

unfoldable pub actor_value : Actor → String
actor_value human = "human"
actor_value auto_unreachable = "auto_unreachable"

pub data SendResultKind : Type 0 where
  accepted rejected indeterminate : SendResultKind

pub record SendResult : Type 0 where
  pub kind : SendResultKind
  pub message_id_sha256 : Option String
  pub thread_id_sha256 : Option String
  pub error_code : Option String
  pub egress_hosts : List String

-- One call of the sender, with the audit log as it stood when the call was made.
pub record SendCall : Type 0 where
  pub proposal_id : String
  pub log_before : AppendLog

-- What a run of the Gateway changes: the proposal store, the audit log and the provider.
pub record World : Type 0 where
  pub kv : Kv
  pub log : AppendLog
  pub sends : List SendCall

-- `SendFSM`'s collaborators. The sender may answer each call as it likes; `none` is an exception.
pub record Fsm : Type 0 where
  pub sender : List SendCall → String → Option SendResult
  pub switch_mode : SwitchMode

abbrev pub on_kv : {A : Type 0} → Action Kv A → Action World A
on_kv = zoom (λ w. w.kv) (λ w s. record w { kv = s })

abbrev pub on_log : {A : Type 0} → Action AppendLog A → Action World A
on_log = zoom (λ w. w.log) (λ w s. record w { log = s })

abbrev pub is_pending : ProposalStatus → Bool
is_pending pending = true
is_pending _ = false

-- An event with the optional fields that the call leaves at their defaults.
abbrev pub event : AuditEventType → ℤ → String → AuditEvent
event t now proposal_id = record {
  event_type = t;
  at = now;
  proposal_id = proposal_id;
  payload_digest = none;
  outcome = none;
  error_code = none;
  message_id_sha256 = none;
  thread_id_sha256 = none;
  egress_hosts = [];
}

-- The approval rules of `confirm`: who may confirm, in which mode, on which signal.
unfoldable pub check_actor : SwitchMode → Actor → Option Bool → Result (Unit {0})
check_actor mode human agent_reachable = ok tt
check_actor confirm_then_send auto_unreachable agent_reachable = err auto_send_not_enabled
check_actor auto_send_when_agent_unreachable auto_unreachable (some false) = ok tt
check_actor auto_send_when_agent_unreachable auto_unreachable _ = err agent_unreachable_required

abbrev pub confirmed_event : String → Actor → ℤ → Proposal → AuditEvent
confirmed_event proposal_id actor now p = record (event Ledger.proposal_confirmed now proposal_id) {
  payload_digest = some p.payload_digest;
  outcome = some (actor_value actor);
}

unfoldable pub confirm : Fsm → String → Actor → ℤ → Option Bool → Action World (Unit {0})
unfolding check_actor set_status record_event
confirm fsm proposal_id actor now agent_reachable = do
  p ← query (λ w. get_live proposal_id now w.kv)
  raise_if (not (is_pending p.status)) illegal_transition
  lift (check_actor fsm.switch_mode actor agent_reachable)
  updated ← on_kv (set_status proposal_id confirmed)
  on_log (record_event (confirmed_event proposal_id actor now p))

-- The refusals at the head of `dispatch`.
unfoldable pub check_dispatch : ProposalStatus → Result (Unit {0})
check_dispatch outcome_unknown = err no_auto_retry
check_dispatch sent = err already_settled
check_dispatch failed = err already_settled
check_dispatch pending = err illegal_transition
check_dispatch confirmed = ok tt

abbrev pub attempted_event : String → ℤ → Proposal → AuditEvent
attempted_event proposal_id now p = record (event Ledger.send_attempted now proposal_id) {
  payload_digest = some p.payload_digest;
}

-- The injected sender: the call is made, whatever comes of it.
abbrev pub call_sender : Fsm → String → Action World (Option SendResult)
call_sender fsm proposal_id w =
    let call : SendCall = record { proposal_id = proposal_id; log_before = w.log } in
    (ok (fsm.sender w.sends proposal_id), record w { sends = w.sends ++ call ∷ [] })

-- The status a send settles in, and the event that records it.
unfoldable pub settled_status : Option SendResult → ProposalStatus
settled_status none = outcome_unknown
settled_status (some r) = elim r.kind [
  | accepted ↦ sent
  | rejected ↦ failed
  | indeterminate ↦ outcome_unknown
]

abbrev succeeded_event : String → ℤ → SendResult → AuditEvent
succeeded_event proposal_id now r = record (event Ledger.send_succeeded now proposal_id) {
  outcome = some "accepted";
  message_id_sha256 = r.message_id_sha256;
  thread_id_sha256 = r.thread_id_sha256;
  egress_hosts = r.egress_hosts;
}

abbrev failed_event : String → ℤ → SendResult → AuditEvent
failed_event proposal_id now r = record (event Ledger.send_failed now proposal_id) {
  outcome = some "rejected";
  error_code = r.error_code;
  egress_hosts = r.egress_hosts;
}

-- The event of `_settle_unknown`.
abbrev unknown_event : String → ℤ → Option String → List String → AuditEvent
unknown_event proposal_id now error_code hosts =
    record (event Ledger.outcome_unknown now proposal_id) {
      outcome = some "indeterminate";
      error_code = error_code;
      egress_hosts = hosts;
    }

unfoldable pub settled_event : String → ℤ → Option SendResult → AuditEvent
settled_event proposal_id now none = unknown_event proposal_id now (some "sender_raised") []
settled_event proposal_id now (some r) = elim r.kind [
  | accepted ↦ succeeded_event proposal_id now r
  | rejected ↦ failed_event proposal_id now r
  | indeterminate ↦ unknown_event proposal_id now r.error_code r.egress_hosts
]

-- The end of `dispatch`: the status write, the event, and the status returned.
unfoldable pub settle : String → ℤ → Option SendResult → Action World ProposalStatus
settle proposal_id now r = do
  updated ← on_kv (set_status proposal_id (settled_status r))
  on_log (record_event (settled_event proposal_id now r))
  pure (settled_status r)

unfoldable pub dispatch : Fsm → String → ℤ → Action World ProposalStatus
unfolding check_dispatch set_status record_event settle
dispatch fsm proposal_id now = do
  p ← query (λ w. read proposal_id w.kv)
  lift (check_dispatch p.status)
  on_log (record_event (attempted_event proposal_id now p))
  result ← call_sender fsm proposal_id
  settle proposal_id now result

abbrev pub expired_event : String → ℤ → AuditEvent
expired_event proposal_id now = record (event Ledger.proposal_expired now proposal_id) {
  outcome = some "expired";
}

unfoldable pub expire : String → ℤ → Action World ProposalStatus
unfolding set_status record_event
expire proposal_id now = do
  p ← query (λ w. read proposal_id w.kv)
  raise_if (not (is_pending p.status)) illegal_transition
  raise_if (ltb_ℤ now p.expires_at) illegal_transition
  updated ← on_kv (set_status proposal_id failed)
  on_log (record_event (expired_event proposal_id now))
  pure failed
