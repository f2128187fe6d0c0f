-- ===== src/Authz/CloudService.antt =====
-- authz/service.py: `StubDecisionService`, the decision cloud over the operator's head state. The signature
-- is a parameter, and a fresh decision id is an argument.
pub mod Accepted
use gmail_b1_gateway.Prelude.{String, Bool, Option, none, some, [], ◌++◌, ℤ, if◌then◌else◌}
use gmail_b1_gateway.Json.{obj}
use gmail_b1_gateway.Keystore.Providers.{Bytes}
use gmail_b1_gateway.Canonicalizer.Jcs.{canonicalize}
use gmail_b1_gateway.Authz.Artifact.{Primitives, Parsed, valid, malformed, Envelope, parse_envelope}
use gmail_b1_gateway.Authz.Grant.{Grant, mode_value, kind_value, parse_grant_body}
use gmail_b1_gateway.Authz.Service.{AuthorizationRequest, Decision, decision_body, decision_domain}
use gmail_b1_gateway.Authz.Gate.{
  Opinion, answer, unavailable, bad_certificate, crash, disposition_of,
}
use gmail_b1_gateway.Authz.ControlPlane.{HeadState, state_version, Signer, head_digest}

-- Whether the cloud is reachable, and its signing key.
pub record CloudService : Type 0 where
  pub reachable : Bool
  pub sign : Bytes → Bytes

unfoldable pub set_cloud_reachable : Bool → CloudService → CloudService
set_cloud_reachable reachable cloud = record cloud { reachable = reachable }

-- The decision before it is signed.
unfoldable pub unsigned : HeadState → AuthorizationRequest → Grant → String → String → ℤ → Decision
unsigned st request grant digest decision_id now = record {
  decision_id = decision_id;
  grant_id = grant.grant_id;
  grant_version = grant.grant_version;
  state_version = state_version st;
  authz_state_digest = digest;
  request_id = request.request_id;
  action_digest = request.action_digest;
  decided_at = now;
  disposition = disposition_of grant.approval_mode;
  approval_mode = mode_value grant.approval_mode;
  subject_kind = kind_value grant.subject;
  sig = [];
}

abbrev pub granted : Primitives → Parsed Envelope → Parsed Grant
granted prim (malformed detail) = malformed detail
granted prim (valid e) = parse_grant_body prim e.body

module _ (prim : Primitives) (key : Signer) (cloud : CloudService) where
  -- `replace(decision, sig=...)`; a `JCSError` is a crash.
  unfoldable pub sign_decision : Decision → Opinion
  sign_decision d = elim (canonicalize (obj (decision_body d))) [
    | some text ↦ answer (record d { sig = cloud.sign (decision_domain ++ text) })
    | none ↦ crash
  ]

  abbrev pub opine : HeadState → AuthorizationRequest → String → ℤ → Parsed Grant → Opinion
  opine st request decision_id now (malformed detail) = bad_certificate detail
  opine st request decision_id now (valid grant) = elim (head_digest prim key st) [
    | some digest ↦ sign_decision (unsigned st request grant digest decision_id now)
    | none ↦ crash
  ]

  -- `decide`: the grant is read, and not verified.
  unfoldable pub decide : HeadState → AuthorizationRequest → String → ℤ → Opinion
  unfolding sign_decision unsigned
  decide st request decision_id now =
      if cloud.reachable
      then opine st request decision_id now
          (granted prim (parse_envelope prim request.grant_envelope))
      else unavailable
