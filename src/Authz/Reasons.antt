-- ===== src/Authz/Reasons.antt =====
-- authz/errors.py: the audit codes of a refusal, and their finer details.
pub data DenialReason : Type 0 where
  invalid_artifact cloud_unreachable revoked no_grant expired superseded : DenialReason
  validity_exceeds_policy mode_mismatch scope replay version_regress : DenialReason
  state_unavailable internal_error : DenialReason

-- The constants `DETAIL_*`, less their prefix.
pub data Detail : Type 0 where
  missing_approval_mode untrusted_issuer decision_reused decision_head_mismatch : Detail
  action_digest_mismatch decision_sig_invalid subject_identity_mismatch : Detail
  inactive_in_verified_head decision_request_mismatch decision_grant_id_mismatch : Detail
  decision_grant_version_mismatch decision_version_mismatch decision_approval_mode_mismatch : Detail
  decision_subject_kind_mismatch decision_disposition_mismatch not_yet_valid : Detail
  request_id_reused issued_at_out_of_window channel_binding_mismatch : Detail
  decided_at_out_of_window : Detail
