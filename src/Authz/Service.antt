-- ===== src/Authz/Service.antt =====
-- authz/service.py: requests, decisions and what is signed of them, the single-use consumer, and the
-- high-water mark.
use gmail_b1_gateway.Prelude.{
  String, Bool, true, false, Option, none, some, is_some, [], ◌∷◌, ◌++◌, ℤ, pos, ltb_ℤ, codes,
  if◌then◌else◌,
}
use gmail_b1_gateway.Dict.{Dict, lookup, insert}
use gmail_b1_gateway.Json.{Value, obj, Fields, str, int, end, field}
use gmail_b1_gateway.Keystore.Providers.{Bytes}
use gmail_b1_gateway.Canonicalizer.Jcs.{canonicalize}
use gmail_b1_gateway.Authz.Artifact.{Primitives}

-- `VALIDITY_CAP_SECONDS`, `CLOCK_SKEW_SECONDS`, `REQUEST_FRESHNESS_SECONDS`,
-- `DECIDED_AT_SLACK_SECONDS` and `RESPONSE_DEADLINE_NS`.
abbrev pub validity_cap_seconds : ℤ
validity_cap_seconds = pos 604800

abbrev pub clock_skew_seconds : ℤ
clock_skew_seconds = pos 300

abbrev pub request_freshness_seconds : ℤ
request_freshness_seconds = pos 300

abbrev pub decided_at_slack_seconds : ℤ
decided_at_slack_seconds = pos 300

abbrev pub response_deadline_ns : ℤ
response_deadline_ns = pos 5000000000

-- `Disposition.AUTHORIZED` and `Disposition.NEEDS_APPROVAL`
abbrev pub authorized : String
authorized = "authorized"

abbrev pub needs_approval : String
needs_approval = "needs_approval"

pub record PeerIdentity : Type 0 where
  pub machine_id : String
  pub account : String

pub record AuthorizationRequest : Type 0 where
  pub grant_envelope : Value
  pub request_id : String
  pub action_digest : String
  pub issued_at : ℤ
  pub channel_binding : String
  pub agent_sig : Option Bytes

pub record Decision : Type 0 where
  pub decision_id : String
  pub grant_id : String
  pub grant_version : String
  pub state_version : String
  pub authz_state_digest : String
  pub request_id : String
  pub action_digest : String
  pub decided_at : ℤ
  pub disposition : String
  pub approval_mode : String
  pub subject_kind : String
  pub sig : Bytes

unfoldable pub request_binding : String → AuthorizationRequest → Fields
request_binding grant_id r = field "grant_id" (str grant_id) (
    field "request_id" (str r.request_id) (
      field "action_digest" (str r.action_digest) (
        field "issued_at" (int r.issued_at) (field "channel_binding" (str r.channel_binding) end))))

unfoldable pub decision_body : Decision → Fields
decision_body d = field "decision_id" (str d.decision_id) (
    field "grant_id" (str d.grant_id) (
      field "grant_version" (str d.grant_version) (
        field "state_version" (str d.state_version) (
          field "authz_state_digest" (str d.authz_state_digest) (
            field "request_id" (str d.request_id) (
              field "action_digest" (str d.action_digest) (
                field "decided_at" (int d.decided_at) (
                  field "disposition" (str d.disposition) (
                    field "approval_mode" (str d.approval_mode)
                      (field "subject_kind" (str d.subject_kind) end))))))))))

-- `_DECISION_DOMAIN`
abbrev pub decision_domain : Bytes
decision_domain = codes "puffo-authz/decision/v1" ++ 0 ∷ []

-- `verify_decision_sig`; `none` is an exception of the canonical text.
unfoldable pub verify_decision_sig : Primitives → Bytes → Decision → Option Bool
unfolding decision_body
verify_decision_sig prim public_key d = elim (canonicalize (obj (decision_body d))) [
  | some text ↦ some (prim.verify public_key (decision_domain ++ text) d.sig)
  | none ↦ none
]

-- `LockedConsumer`
abbrev pub Consumed : Type 0
Consumed = Dict String

unfoldable pub consume_once : String → String → Consumed → Bool × Consumed
consume_once key action_digest consumed =
    if is_some (lookup key consumed)
    then (false, consumed)
    else (true, insert key action_digest consumed)

-- `HighWaterMark.raise_to`
abbrev pub raise_to : ℤ → ℤ → ℤ
raise_to version hw = if ltb_ℤ hw version then version else hw
