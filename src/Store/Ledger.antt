-- ===== src/Store/Ledger.antt =====
-- store/ledger.py: the audit event, its entry, and the append-only ledger.
use gmail_b1_gateway.Prelude.{String, Option, List, [], ◌∷◌, ℤ, pos, leb_ℤ, if◌then◌else◌}
use gmail_b1_gateway.Json.{str, int, arr, Items, nil, cons, Fields, end, field, opt_str}
use gmail_b1_gateway.Errors.{ok, err, audit_schema, Action}
use gmail_b1_gateway.Store.Backend.{AppendLog, append}

pub data AuditEventType : Type 0 where
  proposal_created proposal_confirmed proposal_expired : AuditEventType
  send_attempted send_succeeded send_failed outcome_unknown : AuditEventType

unfoldable pub event_value : AuditEventType → String
event_value proposal_created = "proposal_created"
event_value proposal_confirmed = "proposal_confirmed"
event_value proposal_expired = "proposal_expired"
event_value send_attempted = "send_attempted"
event_value send_succeeded = "send_succeeded"
event_value send_failed = "send_failed"
event_value outcome_unknown = "outcome_unknown"

pub record AuditEvent : Type 0 where
  pub event_type : AuditEventType
  pub at : ℤ
  pub proposal_id : String
  pub payload_digest : Option String
  pub outcome : Option String
  pub error_code : Option String
  pub message_id_sha256 : Option String
  pub thread_id_sha256 : Option String
  pub egress_hosts : List String

-- `list(self.egress_hosts)`
abbrev pub host_items : List String → Items
host_items [] = nil
host_items (h ∷ hs) = cons (str h) (host_items hs)

-- `AuditEvent.to_dict`
unfoldable pub to_entry : AuditEvent → Fields
to_entry e = field "event_type" (str (event_value e.event_type)) (
    field "at" (int e.at) (
      field "proposal_id" (str e.proposal_id) (
        field "payload_digest" (opt_str e.payload_digest) (
          field "outcome" (opt_str e.outcome) (
            field "error_code" (opt_str e.error_code) (
              field "message_id_sha256" (opt_str e.message_id_sha256) (
                field "thread_id_sha256" (opt_str e.thread_id_sha256)
                  (field "egress_hosts" (arr (host_items e.egress_hosts)) end))))))))

-- `AuditLedger.record`; that the argument is an event is its type.
unfoldable pub record_event : AuditEvent → Action AppendLog (Unit {0})
record_event e log =
    if leb_ℤ (pos 0) e.at then (ok tt, append (to_entry e) log) else (err audit_schema, log)
