-- ===== src/Authz/Policy/Exact.antt =====
-- authz/decision_policy.py: what it means that no check objects.
use gmail_b1_gateway.Prelude.{◌≡◌, ◌↔◌, none, [], ◌∷◌, elem, true, arith, eq_iff}
use gmail_b1_gateway.Authz.Service.{Decision, authorized, needs_approval}
use gmail_b1_gateway.Authz.Policy.{ExpectedBinding, check_binding}

-- Every bound field of the decision is the gate's own value.
pub record AgreesWith (d : Decision) (e : ExpectedBinding) : Type 0 where
  pub request_id : d.request_id ≡ e.request_id
  pub action_digest : d.action_digest ≡ e.action_digest
  pub authz_state_digest : d.authz_state_digest ≡ e.authz_state_digest
  pub grant_id : d.grant_id ≡ e.grant_id
  pub grant_version : d.grant_version ≡ e.grant_version
  pub state_version : d.state_version ≡ e.state_version
  pub approval_mode : d.approval_mode ≡ e.approval_mode
  pub subject_kind : d.subject_kind ≡ e.subject_kind
  pub disposition : d.disposition ≡ e.disposition

-- The gate's own values of the closed fields are in their enumerations.
pub record IsClosed (e : ExpectedBinding) : Type 0 where
  pub mode : elem e.approval_mode ("auto" ∷ "per_call" ∷ []) ≡ true
  pub kind : elem e.subject_kind ("os_account" ∷ "agent_key" ∷ []) ≡ true
  pub outcome : elem e.disposition (authorized ∷ needs_approval ∷ []) ≡ true

-- Against values that are in the closed enumerations, the policy passes a decision exactly when all
-- nine bound fields agree: no field is left unchecked, and none is refused without a difference.
pub check_binding_iff :
    (d : Decision) (e : ExpectedBinding) → IsClosed e → (check_binding d e ≡ none) ↔ AgreesWith d e
unfolding check_binding
check_binding_iff d e closed = (
  λ h. record {
    request_id = ground (arith, eq_iff d.request_id e.request_id);
    action_digest = ground (arith, eq_iff d.action_digest e.action_digest);
    authz_state_digest = ground (arith, eq_iff d.authz_state_digest e.authz_state_digest);
    grant_id = ground (arith, eq_iff d.grant_id e.grant_id);
    grant_version = ground (arith, eq_iff d.grant_version e.grant_version);
    state_version = ground (arith, eq_iff d.state_version e.state_version);
    approval_mode = ground (arith, eq_iff d.approval_mode e.approval_mode);
    subject_kind = ground (arith, eq_iff d.subject_kind e.subject_kind);
    disposition = ground (arith, eq_iff d.disposition e.disposition);
  },
  λ h. ground (
    arith,
    eq_iff d.request_id e.request_id,
    eq_iff d.action_digest e.action_digest,
    eq_iff d.authz_state_digest e.authz_state_digest,
    eq_iff d.grant_id e.grant_id,
    eq_iff d.grant_version e.grant_version,
    eq_iff d.state_version e.state_version,
    eq_iff d.approval_mode e.approval_mode,
    eq_iff d.subject_kind e.subject_kind,
    eq_iff d.disposition e.disposition,
  ),
)
