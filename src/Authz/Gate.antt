-- ===== src/Authz/Gate.antt =====
-- authz/gate.py: `authorize`, in its four steps. The clocks, the relay's and the cloud's answers and
-- the failures of the local state are what a run of it observes from outside.
pub mod Checks
pub mod Authentic
pub mod Authorize
pub mod Stages
pub mod Evidence
pub mod Sound
pub mod Monotone
pub mod Replay
use gmail_b1_gateway.Prelude.{
  ℕ, String, Bool, true, false, not, ◌&&◌, ◌||◌, Option, none, some, List, [], ◌∷◌, ◌++◌, ℤ, pos,
  ◌+ℤ◌, ◌-ℤ◌, ltb_ℤ, leb_ℤ, ◌==◌, if◌then◌else◌,
}
use Prim.Native.String.{◌++◌ as str_append}
use gmail_b1_gateway.Json.{Value, Items, nil, cons, Fields, str, obj, end, member}
use gmail_b1_gateway.Errors.{
  Result, ok, err, authorization_denied, escaped, Action, pure, raise, lift, gets, modify, or_raise,
  ◌>>=◌, ◌>>◌,
}
use gmail_b1_gateway.Keystore.Providers.{Bytes}
use gmail_b1_gateway.Authz.Reasons
use gmail_b1_gateway.Authz.Reasons.{DenialReason, Detail}
use gmail_b1_gateway.Authz.Artifact.{
  Parsed, valid, malformed, Primitives, signing_input, Envelope, parse_envelope, int_of,
}
use gmail_b1_gateway.Authz.Grant.{
  Grant, ApprovalMode, Subject, os_account, agent_key, auto, per_call, mode_value, kind_value,
  parse_grant_body,
}
use gmail_b1_gateway.Authz.State.{
  Membership, active, superseded, revoked, no_grant, VerifiedHead, membership, parse_head_body,
  parse_revocation_body, parse_sync_envelope,
}
use gmail_b1_gateway.Authz.Service.{
  validity_cap_seconds, clock_skew_seconds, request_freshness_seconds, decided_at_slack_seconds,
  response_deadline_ns, authorized, needs_approval, PeerIdentity, AuthorizationRequest, Decision,
  request_binding, verify_decision_sig, Consumed, consume_once, raise_to,
}
use gmail_b1_gateway.Authz.Policy.{ExpectedBinding, check_binding}

-- What `_audit.record` is given; a code is the value of a reason or a disposition.
pub data Code : Type 0 where
  denied : DenialReason → Code
  outcome : String → Code

pub record AuthzAuditEvent : Type 0 where
  pub at : ℤ
  pub request_id : String
  pub code : Code
  pub grant_id : Option String
  pub grant_id_verified : Bool
  pub subject_kind : Option String
  pub detail : Option Detail
  pub approval_mode : Option String
  pub decision_id : Option String
  pub state_version : Option String
  pub authz_state_digest : Option String
  pub action_digest : Option String

-- The local safety state and the audit.
pub record Safety : Type 0 where
  pub high_water : ℤ
  pub requests : Consumed
  pub decisions : Consumed
  pub audit : List AuthzAuditEvent

-- The gate's trust anchors and configuration.
pub record Anchors : Type 0 where
  pub prim : Primitives
  pub user_root : Bytes
  pub decision_key : Bytes
  pub pinned_issuer_fp : String
  pub gateway_account : String
  pub channel_challenge : String

-- How `decide` ends.
pub data Opinion : Type 0 where
  answer : Decision → Opinion
  unavailable : Opinion
  bad_certificate : Option Detail → Opinion
  refusal : DenialReason → Option Detail → Opinion
  crash : Opinion

-- What one call of `authorize` observes: `none` from the relay is `AuthorizationUnavailable`, and a
-- seam that is lost raises.
pub record Outside : Type 0 where
  pub now : ℤ
  pub synced : Option Value
  pub high_water_lost : Bool
  pub raise_lost : Bool
  pub peer : Option PeerIdentity
  pub requests_lost : Bool
  pub opinion : Opinion
  pub mono_sent : ℤ
  pub mono_decision_received : ℤ
  pub wall_verified : ℤ
  pub mono_response_verified : ℤ
  pub decisions_lost : Bool

pub record Authorization : Type 0 where
  pub decision : Decision
  pub mono_decision_received : ℤ

-- A reason and its detail.
abbrev pub Denial : Type 0
Denial = DenialReason × Option Detail

abbrev raw_grant_id : Value → Option String
raw_grant_id (obj d) = elim (member "body" d) [
  | some v ↦ elim v [
    | obj b ↦ elim (member "grant_id" b) [
      | some g ↦ elim g [ str s ↦ some s | _ ↦ none ]
      | none ↦ none
    ]
    | _ ↦ none
  ]
  | none ↦ none
]
raw_grant_id _ = none

abbrev bind_parsed : {A B : Type 0} → Parsed A → (A → Parsed B) → Parsed B
bind_parsed (valid a) f = f a
bind_parsed (malformed d) f = malformed d

-- `_peek_identifiers`
unfoldable pub peek_identifiers : Primitives → Value → Option String × Option String
peek_identifiers prim env =
    elim (bind_parsed (parse_envelope prim env) (λ e. parse_grant_body prim e.body)) [
      | valid g ↦ (some g.grant_id, some (kind_value g.subject))
      | malformed d ↦ (raw_grant_id env, none)
    ]

-- What the gate derives from the grant's mode: the property `permits_auto`, and the disposition.
abbrev pub disposition_of : ApprovalMode → String
disposition_of auto = authorized
disposition_of per_call = needs_approval

-- `_expected_binding`
unfoldable pub expected_binding :
    AuthorizationRequest → Grant → VerifiedHead → String → ExpectedBinding
expected_binding request grant head expected_action_digest = record {
  request_id = request.request_id;
  action_digest = expected_action_digest;
  authz_state_digest = head.digest;
  state_version = head.state_version;
  grant_id = grant.grant_id;
  grant_version = grant.grant_version;
  approval_mode = mode_value grant.approval_mode;
  subject_kind = kind_value grant.subject;
  disposition = disposition_of grant.approval_mode;
}

-- `_decided_at_in_hygiene_window`
unfoldable pub decided_at_in_hygiene_window : ℤ → ℤ → ℤ → Bool
decided_at_in_hygiene_window decided_at request_now wall_verified =
    leb_ℤ (request_now -ℤ decided_at_slack_seconds) decided_at
    && leb_ℤ decided_at (wall_verified +ℤ decided_at_slack_seconds)

module _ (gate : Anchors) (request : AuthorizationRequest) (out : Outside) where
  -- `_deny`: the audit row, and the coarse exception.
  abbrev pub denial_row : DenialReason → Option Detail → Option Grant → AuthzAuditEvent
  denial_row reason detail grant =
      let peeked = peek_identifiers gate.prim request.grant_envelope in
      record {
        at = out.now;
        request_id = request.request_id;
        code = denied reason;
        grant_id = elim grant [ some g ↦ some g.grant_id | none ↦ peeked.0 ];
        grant_id_verified = elim grant [ some g ↦ true | none ↦ false ];
        subject_kind = elim grant [ some g ↦ some (kind_value g.subject) | none ↦ peeked.1 ];
        detail = detail;
        approval_mode = none;
        decision_id = none;
        state_version = none;
        authz_state_digest = none;
        action_digest = none;
      }

  abbrev pub deny : {A : Type 0} → DenialReason → Option Detail → Option Grant → Action Safety A
  deny reason detail grant s = (
    err authorization_denied,
    record s { audit = s.audit ++ denial_row reason detail grant ∷ [] },
  )

  -- A check that passed, failed, or raised what is no authorization error.
  abbrev pub settle_check :
      {A : Type 0} → Result (Parsed A) → DenialReason → Option Grant → Action Safety A
  settle_check (ok (valid a)) reason grant = pure a
  settle_check (ok (malformed detail)) reason grant = deny reason detail grant
  settle_check (err e) reason grant = raise e
