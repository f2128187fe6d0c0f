-- ===== src/Authz/Orchestrator.antt =====
-- authz/orchestrator.py: `authorize_and_send`, the gate in front of the send state machine, with the
-- record of the dispatch written on both sides of the call of Gmail.
pub mod Steps
pub mod Course
pub mod Safe
pub mod Refines
pub mod Recorded
use gmail_b1_gateway.Prelude.{String, Bool, true, false, Option, none, some, ℤ, ◌==◌, if◌then◌else◌}
use gmail_b1_gateway.Errors.{
  Result, ok, err, authorization_denied, Action, pure, ◌>>=◌, ◌>>◌, query, zoom,
}
use gmail_b1_gateway.Store.Backend.{AppendLog, append}
use gmail_b1_gateway.Store.Record.{ProposalStatus, sent, Proposal, status_value}
use gmail_b1_gateway.Store.Proposals.{read}
use gmail_b1_gateway.Json.{Fields}
use gmail_b1_gateway.SendFsm.{human, World, Fsm, confirm, dispatch}
use gmail_b1_gateway.Authz.Service.{needs_approval, AuthorizationRequest}
use gmail_b1_gateway.Authz.Gate.{Safety, Anchors, Outside, Authorization}
use gmail_b1_gateway.Authz.Gate.Authorize.{authorize}
use gmail_b1_gateway.Authz.DispatchRecord.{
  DispatchStarted, DispatchCompleted, started_row, completed_row,
}

-- What a run changes: the stores of the send machine, those of the gate, and the dispatch records.
pub record System : Type 0 where
  pub world : World
  pub safety : Safety
  pub records : AppendLog

-- How an append to the dispatch records ends. One that raises may have kept the row or not.
pub data Append : Type 0 where
  written raised raised_but_kept : Append

-- What a run observes from outside, beside the gate: its clock, the continuous clock before and
-- after the call, and how the two appends end.
pub record Run : Type 0 where
  pub outside : Outside
  pub now : ℤ
  pub mono_gmail_commit_start : ℤ
  pub started : Append
  pub mono_response_complete : ℤ
  pub completed : Append

-- `AuthorizedSendOutcome`
pub record Outcome : Type 0 where
  pub is_authorized : Bool
  pub is_sent : Bool
  pub public_code : String
  pub proposal_status : Option ProposalStatus

abbrev pub denied_outcome : Outcome
denied_outcome = record {
  is_authorized = false;
  is_sent = false;
  public_code = "denied";
  proposal_status = none;
}

-- An outcome of a run that the gate authorized.
abbrev pub outcome : Bool → String → ProposalStatus → Outcome
outcome was_sent code status = record {
  is_authorized = true;
  is_sent = was_sent;
  public_code = code;
  proposal_status = some status;
}

abbrev pub is_sent_status : ProposalStatus → Bool
is_sent_status sent = true
is_sent_status _ = false

abbrev on_world : {A : Type 0} → Action World A → Action System A
on_world = zoom (λ s. s.world) (λ s w. record s { world = w })

-- `try: ... except AuthorizationDenied`: a denial is `none`, another exception goes on.
abbrev pub caught : {A : Type 0} → Result A → Result (Option A)
caught (ok a) = ok (some a)
caught (err authorization_denied) = ok none
caught (err e) = err e

abbrev pub ask_gate :
    Anchors → AuthorizationRequest → Outside → String → Action System (Option Authorization)
ask_gate gate request out digest s =
    let (r, t) = authorize gate request out digest s.safety in (caught r, record s { safety = t })

-- `try: self._dispatch_records... except Exception`: whether the append returned.
abbrev pub append_record : Append → Fields → Action System Bool
append_record written row s = (ok true, record s { records = append row s.records })
append_record raised row s = (ok false, s)
append_record raised_but_kept row s = (ok false, record s { records = append row s.records })

module _ (gate : Anchors) (fsm : Fsm) (proposal_id : String) (request : AuthorizationRequest)
    (run : Run) where
  abbrev pub started_of : Proposal → Authorization → DispatchStarted
  started_of p a = record {
    decision_id = a.decision.decision_id;
    request_id = request.request_id;
    proposal_id = proposal_id;
    action_digest = p.payload_digest;
    mono_decision_received_ns = a.mono_decision_received;
    mono_gmail_commit_start_ns = run.mono_gmail_commit_start;
  }

  abbrev pub completed_of : Proposal → Authorization → ProposalStatus → DispatchCompleted
  completed_of p a status = record {
    decision_id = a.decision.decision_id;
    request_id = request.request_id;
    proposal_id = proposal_id;
    action_digest = p.payload_digest;
    mono_decision_received_ns = a.mono_decision_received;
    mono_gmail_commit_start_ns = run.mono_gmail_commit_start;
    mono_response_complete_ns = run.mono_response_complete;
    terminal_status = status_value status;
  }

  -- The call of Gmail, and the record after it.
  abbrev pub send_and_record : Proposal → Authorization → Action System Outcome
  send_and_record p a = do
    status ← on_world (dispatch fsm proposal_id run.now)
    recorded ← append_record run.completed (completed_row (completed_of p a status))
    pure (
        if recorded
        then outcome (is_sent_status status) (status_value status) status
        else outcome false "outcome_unknown" status)

  abbrev pub if_recorded : Bool → Proposal → Authorization → Action System Outcome
  if_recorded true p a = send_and_record p a
  if_recorded false p a = pure (outcome false "record_unavailable" p.status)

  abbrev pub confirm_and_send : Proposal → Authorization → Action System Outcome
  confirm_and_send p a = do
    on_world (confirm fsm proposal_id human run.now none)
    recorded ← append_record run.started (started_row (started_of p a))
    if_recorded recorded p a

  abbrev pub after_gate : Proposal → Option Authorization → Action System Outcome
  after_gate p none = pure denied_outcome
  after_gate p (some a) =
      if a.decision.disposition == needs_approval
      then pure (outcome false "pending_approval" p.status)
      else confirm_and_send p a

  unfoldable pub authorize_and_send : Action System Outcome
  authorize_and_send = do
    p ← query (λ s. read proposal_id s.world.kv)
    authorization ← ask_gate gate request run.outside p.payload_digest
    after_gate p authorization
