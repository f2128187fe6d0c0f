-- ===== src/Actionset/Prepare.antt =====
-- actionset/catalog.py, actionset/prepare.py and `ActionSet.project` of actionset/switch.py: the one
-- action of an agent. What the proposal-id factory yields is an argument.
use gmail_b1_gateway.Prelude.{
  String, Option, ℤ, pos, ◌+ℤ◌, leb_ℤ, ltb_ℤ, elem, [], ◌∷◌, List, if◌then◌else◌,
}
use gmail_b1_gateway.Json.{Value}
use gmail_b1_gateway.Errors.{Result, ok, err, value_error, unknown_action}
use gmail_b1_gateway.Keystore.Providers.{Bytes}
use gmail_b1_gateway.Canonicalizer.{
  build_canonical_payload, enforce_v1_send_policy, ◌>>=◌, ◌>>◌, pure,
}
use gmail_b1_gateway.Canonicalizer.Digest.{canonical_value, digest}

abbrev pub prepare_email_action : String
prepare_email_action = "PrepareEmail"

abbrev pub agent_actions : List String
agent_actions = prepare_email_action ∷ []

abbrev pub require_agent_action : String → Result String
require_agent_action name = if elem name agent_actions then ok name else err unknown_action

pub record PrepareEmailResult : Type 0 where
  pub proposal_id : String
  pub payload_digest : String
  pub expires_at : ℤ

module _ (sha256_hex : Bytes → String) where
  unfoldable pub prepare_email : Value → ℤ → ℤ → String → Option String → Result PrepareEmailResult
  prepare_email params now ttl_seconds proposal_id message_id = do
    (if ltb_ℤ now (pos 0) then err value_error else ok tt)
    (if leb_ℤ ttl_seconds (pos 0) then err value_error else ok tt)
    canonical ← build_canonical_payload params message_id
    enforce_v1_send_policy canonical
    payload_digest ← digest sha256_hex (canonical_value canonical)
    pure (record {
      proposal_id = proposal_id;
      payload_digest = payload_digest;
      expires_at = now +ℤ ttl_seconds;
    })

  -- `ActionSet.project`; `prepare_email` is the only action that the guard lets through.
  unfoldable pub project :
      String → Value → ℤ → ℤ → String → Option String → Result PrepareEmailResult
  unfolding prepare_email
  project name params now ttl_seconds proposal_id message_id = do
    permitted ← require_agent_action name
    prepare_email params now ttl_seconds proposal_id message_id
