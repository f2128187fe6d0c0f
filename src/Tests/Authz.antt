-- ===== src/Tests/Authz.antt =====
-- authz/gate.py: two calls of `authorize`, for two requests under one grant, with toy primitives.
use gmail_b1_gateway.Prelude.{
  String, ◌≡◌, refl, ◌≢◌, ◌↔◌, true, false, none, some, List, [], ◌∷◌, pos, ◌≤ℤ◌, codes, length,
  beq, ◌==◌, if◌then◌else◌,
}
use gmail_b1_gateway.Dict.{lookup, insert}
use gmail_b1_gateway.Json.{Value, str, int, arr, obj, nil, cons, Fields, end, field}
use gmail_b1_gateway.Errors.{ok}
use gmail_b1_gateway.Canonicalizer.Jcs.{canonicalize}
use gmail_b1_gateway.Authz.Artifact.{Primitives, aware, parse_envelope, is_canonical_decimal}
use gmail_b1_gateway.Authz.Grant.{parse_grant_body}
use gmail_b1_gateway.Authz.State.{membership, parse_head_body, parse_sync_envelope}
use gmail_b1_gateway.Authz.Service.{
  AuthorizationRequest, Decision, verify_decision_sig, decision_body, consume_once,
}
use gmail_b1_gateway.Authz.Policy.{ExpectedBinding, check_binding}
use gmail_b1_gateway.Authz.Policy.Exact.{AgreesWith, check_binding_iff}
use gmail_b1_gateway.Authz.Gate.{
  Safety, Anchors, answer, Authorization, expected_binding, decided_at_in_hygiene_window,
}
use gmail_b1_gateway.Authz.Gate.Checks.{
  verified, verify_revocations, read_head, verify_grant, check_subject, local_decisions,
}
use gmail_b1_gateway.Authz.Gate.Authorize.{
  request_key, sync_and_accept, verify_decision, burn_request, burn_decision, authorize,
}
use gmail_b1_gateway.Authz.Gate.Evidence.{IsAuthorized}
use gmail_b1_gateway.Authz.Gate.Sound.{authorize-IsAuthorized}
use gmail_b1_gateway.Authz.Gate.Replay.{Call, authorize_all, no_replay}

-- A signature is good if it is as long as the key; a moment is 1000 or 2000.
abbrev pub prim : Primitives
prim = record {
  sha256_hex = λ b. "head-digest";
  fromhex = λ s. some (codes s);
  fromisoformat =
      λ t. if t == "2026-01-01T00:00:00+00:00" then aware (pos 1000) else aware (pos 2000);
  is_public_key = λ k. true;
  verify = λ key message sig. beq (length key) (length sig);
}

abbrev pub anchors : Anchors
anchors = record {
  prim = prim;
  user_root = 1 ∷ 2 ∷ [];
  decision_key = 3 ∷ 4 ∷ [];
  pinned_issuer_fp = "issuer";
  gateway_account = "me@example.com";
  channel_challenge = "";
}

abbrev grant_id : String
grant_id = "0123456789abcdef0123456789abcdef"

abbrev envelope : String → Fields → Value
envelope artifact_type body = obj (
    field "v" (int (pos 1))
      (field "type" (str artifact_type) (field "body" (obj body) (field "sig" (str "ab") end))))

abbrev grant_envelope : Value
grant_envelope = envelope "grant" (
    field "grant_id" (str grant_id) (
      field "grant_version" (str "1") (
        field "state_version" (str "1") (
          field "issuer_fp" (str "issuer") (
            field "subject"
              (obj (
                field "kind" (str "os_account")
                  (field "machine_id" (str "m") (field "account" (str "a") end))))
              (field "tool" (str "gmail") (
                field "action" (str "send") (
                  field "scope" (obj (field "from_account" (str "me@example.com") end)) (
                    field "approval_mode" (str "auto") (
                      field "valid_from" (str "2026-01-01T00:00:00Z")
                        (field "valid_until" (str "2026-01-02T00:00:00Z") end)))))))))))

abbrev synced : String → Value
synced version = obj (
    field "head"
      (envelope "authz_state" (
        field "state_version" (str version) (
          field "active_grants"
            (arr (
              cons (obj (field "grant_id" (str grant_id) (field "grant_version" (str "1") end)))
                nil))
            end)))
      (field "revocations" (arr nil) end))

abbrev pub request : String → AuthorizationRequest
request request_id = record {
  grant_envelope = grant_envelope;
  request_id = request_id;
  action_digest = "action";
  issued_at = pos 0;
  channel_binding = "";
  agent_sig = none;
}

abbrev pub decision : String → String → String → Decision
decision decision_id request_id version = record {
  decision_id = decision_id;
  grant_id = grant_id;
  grant_version = "1";
  state_version = version;
  authz_state_digest = "head-digest";
  request_id = request_id;
  action_digest = "action";
  decided_at = pos 1500;
  disposition = "authorized";
  approval_mode = "auto";
  subject_kind = "os_account";
  sig = 9 ∷ 9 ∷ [];
}

abbrev pub call : String → String → String → Call
call decision_id request_id version = record {
  request = request request_id;
  digest = "action";
  out = record {
    now = pos 1500;
    synced = some (synced version);
    high_water_lost = false;
    raise_lost = false;
    peer = some (record { machine_id = "m"; account = "a" });
    requests_lost = false;
    opinion = answer (decision decision_id request_id version);
    mono_sent = pos 10;
    mono_decision_received = pos 20;
    wall_verified = pos 1501;
    mono_response_verified = pos 30;
    decisions_lost = false;
  };
}

abbrev pub one : Call
one = call "d1" "r1" "4"

abbrev pub two : Call
two = call "d2" "r2" "5"

abbrev pub start : Safety
start = record { high_water = pos 3; requests = []; decisions = []; audit = [] }

abbrev pub after_one : Safety
after_one = (authorize anchors one.request one.out one.digest start).1

abbrev pub authorization : String → String → String → Authorization
authorization decision_id request_id version = record {
  decision = decision decision_id request_id version;
  mono_decision_received = pos 20;
}

pub first_is_authorized :
    authorize anchors one.request one.out one.digest start
    ≡ (ok (authorization "d1" "r1" "4"), after_one)
unfolding authorize sync_and_accept read_head parse_sync_envelope parse_envelope verified
    parse_head_body verify_revocations verify_grant parse_grant_body local_decisions membership
    check_subject burn_request consume_once lookup insert expected_binding verify_decision
    verify_decision_sig decision_body check_binding decided_at_in_hygiene_window burn_decision
    canonicalize
first_is_authorized = refl

-- The first call once more comes in between, and is refused.
abbrev between : List Call
between = one ∷ []

abbrev after_two : Safety
after_two =
    (authorize anchors two.request two.out two.digest (authorize_all anchors between after_one)).1

second_is_authorized :
    authorize anchors two.request two.out two.digest (authorize_all anchors between after_one)
    ≡ (ok (authorization "d2" "r2" "5"), after_two)
unfolding authorize sync_and_accept read_head parse_sync_envelope parse_envelope verified
    parse_head_body verify_revocations verify_grant parse_grant_body local_decisions membership
    check_subject burn_request consume_once lookup insert expected_binding verify_decision
    verify_decision_sig decision_body check_binding decided_at_in_hygiene_window burn_decision
    canonicalize authorize_all
second_is_authorized = refl

authorize-IsAuthorized_example :
    IsAuthorized anchors one.request one.out one.digest start (decision "d1" "r1" "4") after_one
authorize-IsAuthorized_example =
    authorize-IsAuthorized anchors one.request one.out one.digest start
      {a = authorization "d1" "r1" "4"} first_is_authorized

no_replay_example :
    (e : IsAuthorized anchors one.request one.out one.digest start
      (decision "d1" "r1" "4")
      after_one)
    × (f : IsAuthorized anchors two.request two.out two.digest
        (authorize_all anchors between after_one)
        (decision "d2" "r2" "5")
        after_two)
    × (request_key e.grant.grant_id "r1" ≢ request_key f.grant.grant_id "r2")
    × ((decision "d1" "r1" "4").decision_id ≢ (decision "d2" "r2" "5").decision_id)
    × (e.head.state_version_int ≤ℤ f.head.state_version_int)
no_replay_example =
    no_replay anchors one two between start after_one after_two (authorization "d1" "r1" "4")
      (authorization "d2" "r2" "5") first_is_authorized second_is_authorized

abbrev expected : ExpectedBinding
expected = record {
  request_id = "r1";
  action_digest = "action";
  authz_state_digest = "head-digest";
  state_version = "4";
  grant_id = grant_id;
  grant_version = "1";
  approval_mode = "auto";
  subject_kind = "os_account";
  disposition = "authorized";
}

check_binding_iff_example :
    (check_binding (decision "d1" "r1" "4") expected ≡ none)
    ↔ AgreesWith (decision "d1" "r1" "4") expected
check_binding_iff_example =
    check_binding_iff (decision "d1" "r1" "4") expected
      (record { mode = refl; kind = refl; outcome = refl })

-- One newline after the digits passes as a canonical decimal.
newline_is_canonical : is_canonical_decimal "1\n" ≡ true
newline_is_canonical = refl
