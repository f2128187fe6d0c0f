-- ===== src/Authz/Gate/Authorize.antt =====
-- authz/gate.py: `authorize`, from the sync to the success row.
use Prim.Native.String.{◌++◌ as str_append}
use gmail_b1_gateway.Prelude.{
  String, Bool, true, false, not, Option, none, some, [], ◌∷◌, ◌++◌, ◌-ℤ◌, ltb_ℤ,
}
use gmail_b1_gateway.Errors.{Result, ok, err, escaped, Action, pure, raise, gets, ◌>>=◌, ◌>>◌}
use gmail_b1_gateway.Authz.Reasons
use gmail_b1_gateway.Authz.Reasons.{DenialReason}
use gmail_b1_gateway.Authz.Grant.{Grant, mode_value, kind_value}
use gmail_b1_gateway.Authz.State.{VerifiedHead}
use gmail_b1_gateway.Authz.Service.{
  response_deadline_ns, AuthorizationRequest, Decision, verify_decision_sig, consume_once, raise_to,
}
use gmail_b1_gateway.Authz.Policy.{ExpectedBinding, check_binding}
use gmail_b1_gateway.Authz.Gate.{
  outcome, AuthzAuditEvent, Safety, Anchors, Outside, answer, unavailable, bad_certificate, refusal,
  crash, Authorization, Denial, expected_binding, decided_at_in_hygiene_window, deny, settle_check,
}
use gmail_b1_gateway.Authz.Gate.Checks.{read_head, verify_grant, local_decisions}

-- "%s\x00%s" % (grant_id, request_id)
abbrev pub request_key : String → String → String
request_key grant_id request_id = str_append grant_id (str_append "\0" request_id)

module _ (gate : Anchors) (request : AuthorizationRequest) (out : Outside) where
  -- `raise self._deny(...)` where the condition holds.
  abbrev pub deny_if :
      Bool → DenialReason → Option Reasons.Detail → Option Grant → Action Safety (Unit {0})
  deny_if true reason detail grant = deny gate request out reason detail grant
  deny_if false reason detail grant = pure tt

  abbrev pub accept_version : VerifiedHead → Action Safety (Unit {0})
  accept_version head s =
      (ok tt, record s { high_water = raise_to head.state_version_int s.high_water })

  abbrev pub fetch : Action Safety VerifiedHead
  fetch = elim out.synced [
    | some env ↦ settle_check gate request out (read_head gate env) Reasons.invalid_artifact none
    | none ↦ deny gate request out Reasons.cloud_unreachable none none
  ]

  unfoldable pub sync_and_accept : Action Safety VerifiedHead
  sync_and_accept = do
    head ← fetch
    deny_if out.high_water_lost Reasons.state_unavailable none none
    hw ← gets (λ s. s.high_water)
    deny_if (ltb_ℤ head.state_version_int hw) Reasons.version_regress none none
    deny_if out.raise_lost Reasons.state_unavailable none none
    accept_version head
    pure head

  abbrev pub settle_local : Result (Option Denial) → Grant → Action Safety (Unit {0})
  settle_local (ok none) grant = pure tt
  settle_local (ok (some (reason, detail))) grant = deny gate request out reason detail (some grant)
  settle_local (err e) grant = raise e

  abbrev pub use_request : String → String → Action Safety Bool
  use_request key digest s =
      let (fresh, consumed) = consume_once key digest s.requests in
      (ok fresh, record s { requests = consumed })

  abbrev pub use_decision : String → String → Action Safety Bool
  use_decision key digest s =
      let (fresh, consumed) = consume_once key digest s.decisions in
      (ok fresh, record s { decisions = consumed })

  -- The call of the decision service, and what is caught of it.
  abbrev pub ask_cloud : Grant → Action Safety Decision
  ask_cloud grant = elim out.opinion [
    | answer d ↦ pure d
    | unavailable ↦ deny gate request out Reasons.cloud_unreachable none (some grant)
    | bad_certificate detail ↦ deny gate request out Reasons.invalid_artifact detail (some grant)
    | refusal reason detail ↦ deny gate request out reason detail (some grant)
    | crash ↦ deny gate request out Reasons.internal_error none (some grant)
  ]

  abbrev pub check_sig : Option Bool → Grant → Action Safety (Unit {0})
  check_sig (some true) grant = pure tt
  check_sig (some false) grant =
      deny gate request out Reasons.invalid_artifact (some Reasons.decision_sig_invalid)
        (some grant)
  check_sig none grant = raise escaped

  abbrev pub check_fields : Option Reasons.Detail → Grant → Action Safety (Unit {0})
  check_fields none grant = pure tt
  check_fields (some detail) grant =
      deny gate request out Reasons.invalid_artifact (some detail) (some grant)

  -- The checks of a decision, up to the deadline.
  unfoldable pub verify_decision : Grant → ExpectedBinding → Decision → Action Safety (Unit {0})
  unfolding decided_at_in_hygiene_window
  verify_decision grant expected decision = do
    check_sig (verify_decision_sig gate.prim gate.decision_key decision) grant
    check_fields (check_binding decision expected) grant
    deny_if (not (decided_at_in_hygiene_window decision.decided_at out.now out.wall_verified))
        Reasons.invalid_artifact (some Reasons.decided_at_out_of_window) (some grant)
    deny_if (ltb_ℤ response_deadline_ns (out.mono_response_verified -ℤ out.mono_sent))
        Reasons.cloud_unreachable none (some grant)

  abbrev pub success_row : Grant → VerifiedHead → ExpectedBinding → Decision → AuthzAuditEvent
  success_row grant head expected decision = record {
    at = out.now;
    request_id = request.request_id;
    code = outcome expected.disposition;
    grant_id = some grant.grant_id;
    grant_id_verified = true;
    subject_kind = some (kind_value grant.subject);
    detail = none;
    approval_mode = some (mode_value grant.approval_mode);
    decision_id = some decision.decision_id;
    state_version = some head.state_version;
    authz_state_digest = some head.digest;
    action_digest = some expected.action_digest;
  }

  abbrev pub record_success :
      Grant → VerifiedHead → ExpectedBinding → Decision → Action Safety (Unit {0})
  record_success grant head expected decision s =
      (ok tt, record s { audit = s.audit ++ success_row grant head expected decision ∷ [] })

  -- The single-use consumption of the request, burned before the cloud is asked.
  unfoldable pub burn_request : String → Grant → Action Safety (Unit {0})
  unfolding consume_once
  burn_request expected_action_digest grant = do
    deny_if out.requests_lost Reasons.state_unavailable none (some grant)
    fresh ← use_request (request_key grant.grant_id request.request_id) expected_action_digest
    deny_if (not fresh) Reasons.replay (some Reasons.request_id_reused) (some grant)

  unfoldable pub burn_decision : Grant → ExpectedBinding → Decision → Action Safety (Unit {0})
  unfolding consume_once
  burn_decision grant expected decision = do
    deny_if out.decisions_lost Reasons.state_unavailable none (some grant)
    fresh ← use_decision decision.decision_id expected.action_digest
    deny_if (not fresh) Reasons.replay (some Reasons.decision_reused) (some grant)

  -- The rest of `authorize`, from each point on.
  abbrev pub conclude :
      Grant → VerifiedHead → ExpectedBinding → Decision → Action Safety Authorization
  conclude grant head expected decision = do
    record_success grant head expected decision
    pure (record { decision = decision; mono_decision_received = out.mono_decision_received })

  abbrev pub with_decision : String → VerifiedHead → Grant → Decision → Action Safety Authorization
  with_decision expected_action_digest head grant decision =
      let expected = expected_binding request grant head expected_action_digest in
      verify_decision grant expected decision
      >> (burn_decision grant expected decision >> conclude grant head expected decision)

  abbrev pub with_request : String → VerifiedHead → Grant → Action Safety Authorization
  with_request expected_action_digest head grant = do
    decision ← ask_cloud grant
    with_decision expected_action_digest head grant decision

  abbrev pub with_grant : String → VerifiedHead → Grant → Action Safety Authorization
  with_grant expected_action_digest head grant =
      settle_local (local_decisions gate request out.now out.peer head grant) grant
      >> (burn_request expected_action_digest grant
          >> with_request expected_action_digest head grant)

  abbrev pub with_head : String → VerifiedHead → Action Safety Authorization
  with_head expected_action_digest head = do
    grant ← settle_check gate request out (verify_grant gate request) Reasons.invalid_artifact none
    with_grant expected_action_digest head grant

  unfoldable pub authorize : String → Action Safety Authorization
  unfolding sync_and_accept burn_request verify_decision burn_decision
  authorize expected_action_digest = do
    head ← sync_and_accept
    with_head expected_action_digest head
