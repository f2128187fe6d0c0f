-- ===== src/Authz/Gate/Checks.antt =====
-- authz/gate.py: the checks of a gate that change nothing: the synced head, the grant, and the local
-- decisions on both. An exception that the gate does not catch is `escaped`.
use gmail_b1_gateway.Prelude.{
  String, Bool, true, false, not, ◌&&◌, ◌||◌, Option, none, some, List, [], ◌∷◌, ℤ, ◌+ℤ◌, ◌-ℤ◌,
  ltb_ℤ, ◌==◌, if◌then◌else◌,
}
use gmail_b1_gateway.Json.{Value, Items, nil, cons, Fields, str, obj, member}
use gmail_b1_gateway.Errors.{Result, ok, err, escaped}
use gmail_b1_gateway.Canonicalizer.Jcs.{canonicalize}
use gmail_b1_gateway.Authz.Reasons
use gmail_b1_gateway.Authz.Reasons.{DenialReason, Detail}
use gmail_b1_gateway.Authz.Artifact.{
  Parsed, valid, malformed, signing_input, Envelope, parse_envelope, int_of,
}
use gmail_b1_gateway.Authz.Grant.{Grant, os_account, agent_key, parse_grant_body}
use gmail_b1_gateway.Authz.State.{
  active, superseded, revoked, no_grant, VerifiedHead, membership, parse_head_body,
  parse_revocation_body, parse_sync_envelope,
}
use gmail_b1_gateway.Authz.Service.{
  validity_cap_seconds, clock_skew_seconds, request_freshness_seconds, PeerIdentity,
  AuthorizationRequest, request_binding,
}
use gmail_b1_gateway.Authz.Gate.{Anchors, Denial}

-- A parse that may also raise past the gate.
abbrev pub Checked : Type 0 → Type 0
Checked A = Result (Parsed A)

abbrev pub check_bind : {A B : Type 0} → Checked A → (A → Checked B) → Checked B
check_bind (ok (valid a)) f = f a
check_bind (ok (malformed d)) f = ok (malformed d)
check_bind (err e) f = err e

abbrev pub check_pure : {A : Type 0} → A → Checked A
check_pure a = ok (valid a)

-- `scope.get("from_account") == account`
abbrev pub is_account : String → Option Value → Bool
is_account account (some (str s)) = s == account
is_account account _ = false

module _ (gate : Anchors) where
  -- The envelope has the wanted type, and the user root signed its body.
  unfoldable pub verified : String → Envelope → Checked (Unit {0})
  verified wanted e =
      if not (e.artifact_type == wanted)
      then ok (malformed none)
      else elim (signing_input gate.prim wanted e.body) [
        | some message ↦
            if gate.prim.verify gate.user_root message e.sig
            then check_pure tt
            else ok (malformed none)
        | none ↦ err escaped
      ]

  -- `_verify_revocations`
  unfoldable pub verify_revocations : Items → Checked (List String)
  unfolding verified
  verify_revocations nil = check_pure []
  verify_revocations (cons v vs) =
      let rest = verify_revocations vs in
      check_bind (ok (parse_envelope gate.prim v)) λ e.
        check_bind (verified "authz_revocation" e) λ _.
          check_bind (ok (parse_revocation_body e.body))
            λ gid. check_bind rest λ gids. check_pure (gid ∷ gids)

  abbrev pub digest_of : Fields → Checked String
  digest_of body = elim (canonicalize (obj body)) [
    | some text ↦ check_pure (gate.prim.sha256_hex text)
    | none ↦ err escaped
  ]

  -- The checks of `_sync_and_accept` on what the relay shipped.
  unfoldable pub read_head : Value → Checked VerifiedHead
  unfolding verified verify_revocations
  read_head env = check_bind (ok (parse_sync_envelope env)) λ (head_env, revocations).
      check_bind (ok (parse_envelope gate.prim (obj head_env))) λ e.
        check_bind (verified "authz_state" e) λ _.
          check_bind (ok (parse_head_body e.body)) λ (sv, pairs).
            check_bind (verify_revocations revocations) λ seen.
              check_bind (digest_of e.body) λ digest. check_pure (record {
                state_version = sv;
                state_version_int = int_of sv;
                active_grants = pairs;
                digest = digest;
                seen_revocations = seen;
              })

  -- `_verify_grant`, where a refusal is a `DenialSignal(INVALID_ARTIFACT, detail)`.
  unfoldable pub verify_grant : AuthorizationRequest → Checked Grant
  unfolding verified
  verify_grant request = check_bind (ok (parse_envelope gate.prim request.grant_envelope)) λ e.
      check_bind (verified "grant" e) λ _.
        check_bind (ok (parse_grant_body gate.prim e.body)) λ grant.
          if grant.issuer_fp == gate.pinned_issuer_fp
          then check_pure grant
          else ok (malformed (some Reasons.untrusted_issuer))

  abbrev pub is_peer : String → String → Option PeerIdentity → Bool
  is_peer machine_id account none = false
  is_peer machine_id account (some peer) = peer.machine_id == machine_id && peer.account == account

  -- The agent's signature over this request, `none` where there is no usable key.
  abbrev pub agent_signed : String → AuthorizationRequest → String → Result Bool
  agent_signed key request grant_id = elim request.agent_sig [
    | some sig ↦ elim (gate.prim.fromhex key) [
      | some raw ↦
          if not (gate.prim.is_public_key raw)
          then ok false
          else elim (canonicalize (obj (request_binding grant_id request))) [
            | some message ↦ ok (gate.prim.verify raw message sig)
            | none ↦ err escaped
          ]
      | none ↦ ok false
    ]
    | none ↦ ok false
  ]

  abbrev is_stale : ℤ → ℤ → Bool
  is_stale now issued_at =
      ltb_ℤ request_freshness_seconds (now -ℤ issued_at)
      || ltb_ℤ request_freshness_seconds (issued_at -ℤ now)

  -- The agent_key tier of `_check_subject`, after its signature.
  abbrev pub check_freshness : AuthorizationRequest → ℤ → Result (Option Denial)
  check_freshness request now =
      if is_stale now request.issued_at
      then ok (some (Reasons.invalid_artifact, some Reasons.issued_at_out_of_window))
      else if not (request.channel_binding == gate.channel_challenge)
      then ok (some (Reasons.invalid_artifact, some Reasons.channel_binding_mismatch))
      else ok none

  abbrev pub after_signature : Result Bool → AuthorizationRequest → ℤ → Result (Option Denial)
  after_signature (ok true) request now = check_freshness request now
  after_signature (ok false) request now = ok (some (Reasons.mode_mismatch, none))
  after_signature (err e) request now = err e

  unfoldable pub check_subject :
      AuthorizationRequest → ℤ → Option PeerIdentity → Grant → Result (Option Denial)
  check_subject request now peer grant = elim grant.subject [
    | os_account machine_id account ↦
        if is_peer machine_id account peer
        then ok none
        else ok (some (Reasons.mode_mismatch, some Reasons.subject_identity_mismatch))
    | agent_key key slug ↦ after_signature (agent_signed key request grant.grant_id) request now
  ]

  unfoldable pub local_decisions :
      AuthorizationRequest → ℤ → Option PeerIdentity → VerifiedHead → Grant → Result (Option Denial)
  unfolding check_subject
  local_decisions request now peer head grant =
      elim (membership head grant.grant_id grant.grant_version) [
        | revoked ↦ ok (some (Reasons.revoked, none))
        | superseded ↦ ok (some (Reasons.superseded, none))
        | no_grant ↦ ok (some (Reasons.no_grant, some Reasons.inactive_in_verified_head))
        | active ↦
            if ltb_ℤ now (grant.valid_from -ℤ clock_skew_seconds)
            then ok (some (Reasons.expired, some Reasons.not_yet_valid))
            else if ltb_ℤ (grant.valid_until +ℤ clock_skew_seconds) now
            then ok (some (Reasons.expired, none))
            else if ltb_ℤ validity_cap_seconds (grant.valid_until -ℤ grant.valid_from)
            then ok (some (Reasons.validity_exceeds_policy, none))
            else if not (is_account gate.gateway_account (member "from_account" grant.scope))
            then ok (some (Reasons.scope, none))
            else check_subject request now peer grant
      ]
