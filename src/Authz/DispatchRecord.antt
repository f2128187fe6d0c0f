-- ===== src/Authz/DispatchRecord.antt =====
-- authz/dispatch_record.py: the two rows that tie a send to the decision behind it, and the query that
-- binds a row to one proposal, request and payload.
use gmail_b1_gateway.Prelude.{
  String, Bool, false, none, some, ◌&&◌, ◌||◌, List, [], ◌∷◌, ℤ, ◌==◌, if◌then◌else◌,
}
use gmail_b1_gateway.Json.{Value, Fields, str, int, end, field, member}
use gmail_b1_gateway.Store.Backend.{AppendLog}

abbrev pub phase_started : String
phase_started = "started"

abbrev pub phase_completed : String
phase_completed = "completed"

pub record DispatchStarted : Type 0 where
  pub decision_id : String
  pub request_id : String
  pub proposal_id : String
  pub action_digest : String
  pub mono_decision_received_ns : ℤ
  pub mono_gmail_commit_start_ns : ℤ

pub record DispatchCompleted : Type 0 where
  pub decision_id : String
  pub request_id : String
  pub proposal_id : String
  pub action_digest : String
  pub mono_decision_received_ns : ℤ
  pub mono_gmail_commit_start_ns : ℤ
  pub mono_response_complete_ns : ℤ
  pub terminal_status : String

-- `DispatchStarted.to_dict`
unfoldable pub started_row : DispatchStarted → Fields
started_row r = field "phase" (str phase_started) (
    field "decision_id" (str r.decision_id) (
      field "request_id" (str r.request_id) (
        field "proposal_id" (str r.proposal_id) (
          field "action_digest" (str r.action_digest) (
            field "mono_decision_received_ns" (int r.mono_decision_received_ns)
              (field "mono_gmail_commit_start_ns" (int r.mono_gmail_commit_start_ns) end))))))

-- `DispatchCompleted.to_dict`
unfoldable pub completed_row : DispatchCompleted → Fields
completed_row r = field "phase" (str phase_completed) (
    field "decision_id" (str r.decision_id) (
      field "request_id" (str r.request_id) (
        field "proposal_id" (str r.proposal_id) (
          field "action_digest" (str r.action_digest) (
            field "mono_decision_received_ns" (int r.mono_decision_received_ns) (
              field "mono_gmail_commit_start_ns" (int r.mono_gmail_commit_start_ns) (
                field "mono_response_complete_ns" (int r.mono_response_complete_ns)
                  (field "terminal_status" (str r.terminal_status) end))))))))

abbrev pub is_text : String → Value → Bool
is_text s (str t) = t == s
is_text s _ = false

-- `r.get(k) == s` for a text.
abbrev pub has_text : String → String → Fields → Bool
has_text k s r = elim (member k r) [ some v ↦ is_text s v | none ↦ false ]

abbrev pub binds : String → String → String → Fields → Bool
binds proposal_id request_id action_digest r =
    has_text "proposal_id" proposal_id r
    && (has_text "request_id" request_id r && has_text "action_digest" action_digest r)

abbrev pub bound_rows : String → String → String → AppendLog → List Fields
bound_rows proposal_id request_id action_digest [] = []
bound_rows proposal_id request_id action_digest (r ∷ rs) =
    let rest = bound_rows proposal_id request_id action_digest rs in
    if binds proposal_id request_id action_digest r then r ∷ rest else rest

unfoldable pub find : String → String → String → AppendLog → List Fields
find proposal_id request_id action_digest log =
    if proposal_id == "" || (request_id == "" || action_digest == "")
    then []
    else bound_rows proposal_id request_id action_digest log
