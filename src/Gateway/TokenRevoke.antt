-- ===== src/Gateway/TokenRevoke.antt =====
-- gateway/token_revoke.py: the revocation of a token at the provider, and its adapter for Disconnect.
pub mod Truthful
use Prim.Native.String.{◌++◌ as ◌append◌}
use gmail_b1_gateway.Prelude.{
  String, Bool, true, false, not, Option, none, some, List, [], ◌∷◌, leb, ltb, number_text, ◌==◌,
  ◌&&◌, if◌then◌else◌,
}
use gmail_b1_gateway.Json.{Value, Fields, null, str, member}
use gmail_b1_gateway.Errors.{Result, ok, err, value_error, escaped, ill_typed}
use gmail_b1_gateway.Oauth.Requests.{FormRequest, build_revoke_token_request}
use gmail_b1_gateway.Gateway.Egress.{
  Wire, HttpResponse, Posted, responded, egress_blocked, timeout, transport_error, other_error,
  EgressGuardedClient, post,
}
use gmail_b1_gateway.Gateway.OauthListener.{Web, form_request, oauth_allow_hosts, same_set}

pub data RevokeOutcome : Type 0 where
  confirmed failed unknown : RevokeOutcome

pub record RevokeResult : Type 0 where
  pub outcome : RevokeOutcome
  pub reason : Option String
  pub egress_hosts : List String

abbrev pub revoke_host : String
revoke_host = "oauth2.googleapis.com"

pub record TokenRevoker : Type 0 where
  pub client : EgressGuardedClient
  pub endpoint : String

-- `TokenRevoker.__init__`
unfoldable pub token_revoker : TokenRevoker → Result TokenRevoker
token_revoker v = if same_set v.client.allow_hosts oauth_allow_hosts then ok v else err value_error

abbrev revoke_result : RevokeOutcome → Option String → List String → RevokeResult
revoke_result outcome reason egress_hosts = record {
  outcome = outcome;
  reason = reason;
  egress_hosts = egress_hosts;
}

-- `_classify`
unfoldable pub classify : HttpResponse → RevokeResult
classify resp =
    if leb 200 resp.status && ltb resp.status 300
    then revoke_result confirmed none (resp.host ∷ [])
    else if leb 400 resp.status && ltb resp.status 500
    then revoke_result failed (some ("rejected_" append number_text resp.status)) (resp.host ∷ [])
    else revoke_result unknown (some ("server_" append number_text resp.status)) (resp.host ∷ [])

-- The end of `revoke`
unfoldable pub result_of : Posted → Result RevokeResult
unfolding classify
result_of (responded resp) = ok (classify resp)
result_of (egress_blocked host reason) =
    ok (revoke_result unknown (some "egress_blocked") (if host == "" then [] else host ∷ []))
result_of timeout = ok (revoke_result unknown (some "timeout") (revoke_host ∷ []))
result_of transport_error = ok (revoke_result unknown (some "transport") (revoke_host ∷ []))
result_of other_error = err escaped

-- A member as `or` sees it: a text that is not empty, or none.
abbrev pub truthy_text : Option Value → Result (Option String)
truthy_text none = ok none
truthy_text (some null) = ok none
truthy_text (some (str s)) = ok (if s == "" then none else some s)
truthy_text (some v) = err ill_typed

abbrev or_access_token : Fields → Result (Option String) → Result (Option String)
or_access_token credentials (ok none) = truthy_text (member "access_token" credentials)
or_access_token credentials r = r

-- The token that Disconnect revokes.
unfoldable pub token_to_revoke : Fields → Result (Option String)
token_to_revoke credentials =
    or_access_token credentials (truthy_text (member "refresh_token" credentials))

abbrev reason_or_empty : Option String → String
reason_or_empty none = ""
reason_or_empty (some s) = s

abbrev pub evidence : Result RevokeResult → Result (RevokeOutcome × String)
evidence (ok r) = ok (r.outcome, reason_or_empty r.reason)
evidence (err e) = err e

module _ (web : Web) (v : TokenRevoker) where
  abbrev pub revoke_form : Result FormRequest → Wire → Result RevokeResult × Wire
  revoke_form (err e) wire = (err e, wire)
  revoke_form (ok r) wire =
      let (p, wire') = post web.net v.client (form_request web r) wire in (result_of p, wire')

  -- `TokenRevoker.revoke`
  unfoldable pub revoke : String → Wire → Result RevokeResult × Wire
  revoke token wire = revoke_form (build_revoke_token_request token v.endpoint) wire

  abbrev pub revoke_token : Result (Option String) → Wire → Result (RevokeOutcome × String) × Wire
  revoke_token (err e) wire = (err e, wire)
  revoke_token (ok none) wire = (ok (unknown, "no_token_in_record"), wire)
  revoke_token (ok (some token)) wire = let (r, wire') = revoke token wire in (evidence r, wire')

  -- What `make_disconnect_revoker` returns.
  unfoldable pub disconnect_revoke : Fields → Wire → Result (RevokeOutcome × String) × Wire
  disconnect_revoke credentials wire = revoke_token (token_to_revoke credentials) wire
