-- ===== src/Authz/Policy.antt =====
-- authz/decision_policy.py: the comparison of every bound field of a decision with the gate's own
-- value.
pub mod Exact
use gmail_b1_gateway.Prelude.{
  String, Bool, not, ◌&&◌, Option, none, some, List, [], ◌∷◌, elem, ◌==◌, if◌then◌else◌,
}
use gmail_b1_gateway.Authz.Reasons.{
  Detail, decision_request_mismatch, action_digest_mismatch, decision_head_mismatch,
  decision_grant_id_mismatch, decision_grant_version_mismatch, decision_version_mismatch,
  decision_approval_mode_mismatch, decision_subject_kind_mismatch, decision_disposition_mismatch,
}
use gmail_b1_gateway.Authz.Service.{Decision, authorized, needs_approval}

pub record ExpectedBinding : Type 0 where
  pub request_id : String
  pub action_digest : String
  pub authz_state_digest : String
  pub state_version : String
  pub grant_id : String
  pub grant_version : String
  pub approval_mode : String
  pub subject_kind : String
  pub disposition : String

-- One entry of `_POLICY` with a check.
abbrev pub Check : Type 0
Check = Decision → ExpectedBinding → Option Detail

abbrev compare_with : Detail → (Decision → String) → (ExpectedBinding → String) → Check
compare_with detail f g d e = if f d == g e then none else some detail

-- A closed enumeration, and equal.
abbrev closed_with : List String → Detail → (Decision → String) → (ExpectedBinding → String) → Check
closed_with values detail f g d e =
    if not (elem (f d) values) then some detail else if f d == g e then none else some detail

-- The checks of `_POLICY`, in its order; `decision_id` and `decided_at` are the gate's.
abbrev policy : List Check
policy =
    compare_with decision_request_mismatch (λ d. d.request_id) (λ e. e.request_id)
    ∷ compare_with action_digest_mismatch (λ d. d.action_digest) (λ e. e.action_digest)
    ∷ compare_with decision_head_mismatch (λ d. d.authz_state_digest) (λ e. e.authz_state_digest)
    ∷ compare_with decision_grant_id_mismatch (λ d. d.grant_id) (λ e. e.grant_id)
    ∷ compare_with decision_grant_version_mismatch (λ d. d.grant_version) (λ e. e.grant_version)
    ∷ compare_with decision_version_mismatch (λ d. d.state_version) (λ e. e.state_version)
    ∷ closed_with ("auto" ∷ "per_call" ∷ []) decision_approval_mode_mismatch (λ d. d.approval_mode)
        (λ e. e.approval_mode)
    ∷ closed_with ("os_account" ∷ "agent_key" ∷ []) decision_subject_kind_mismatch
        (λ d. d.subject_kind) (λ e. e.subject_kind)
    ∷ closed_with (authorized ∷ needs_approval ∷ []) decision_disposition_mismatch
        (λ d. d.disposition) (λ e. e.disposition)
    ∷ []

abbrev first_mismatch : List Check → Check
first_mismatch [] d e = none
first_mismatch (c ∷ cs) d e = elim (c d e) [
  | some detail ↦ some detail
  | none ↦ first_mismatch cs d e
]

unfoldable pub check_binding : Check
check_binding = first_mismatch policy
