-- ===== src/Gateway/GmailSender.antt =====
-- gateway/gmail_sender.py: the sender that the send state machine calls: an approved payload becomes
-- one call of the Gmail API behind the egress allow-list, and its end becomes a `SendResult`.
pub mod Truthful
use Prim.Native.String.{◌++◌ as ◌append◌}
use gmail_b1_gateway.Prelude.{
  ℕ, zero, suc, String, Bool, true, false, ◌&&◌, Option, none, some, List, [], ◌∷◌, leb, ltb,
  number_text, ◌==◌, if◌then◌else◌,
}
use gmail_b1_gateway.Json.{Value, Fields, str, obj, end, field, member}
use gmail_b1_gateway.Errors.{Result, ok, err}
use gmail_b1_gateway.Keystore.Providers.{Bytes}
use gmail_b1_gateway.Canonicalizer.{Canonical, enforce_v1_send_policy}
use gmail_b1_gateway.SendFsm.{SendResult, SendResultKind, accepted, rejected, indeterminate}
use gmail_b1_gateway.Gateway.Egress.{
  HttpRequest, Wire, Network, HttpResponse, Posted, responded, egress_blocked, timeout,
  transport_error, other_error, EgressGuardedClient, post,
}

-- What the standard library computes: `EmailMessage` rendered from its headers, in order, and its
-- content (`none` is an exception, as for a newline in a header), `urlsafe_b64encode` as a text,
-- `json.dumps(...).encode()`, `json.loads` of decoded bytes (`none` is a `ValueError` of either),
-- and SHA-256 of a text in hex.
pub record Codecs : Type 0 where
  pub as_bytes : Fields → String → Option Bytes
  pub urlsafe_b64encode : Bytes → String
  pub dumps : Value → Bytes
  pub loads : Bytes → Option Value
  pub sha256_hex : String → String

-- What the token provider answers.
pub data Token : Type 0 where
  access_token : String → Token
  oauth_error raised : Token

-- `GmailSender`'s collaborators. A payload that is not found is an exception. Neither provider
-- calls the sender's own transport.
pub record GmailSender : Type 0 where
  pub client : EgressGuardedClient
  pub payload_provider : String → Option Canonical
  pub token_provider : Wire → Token
  pub url : String

abbrev pub gmail_host : String
gmail_host = "gmail.googleapis.com"

abbrev pub gmail_send_url : String
gmail_send_url = "https://gmail.googleapis.com/gmail/v1/users/me/messages/send"

-- `", ".join(texts)`
abbrev comma_joined : List String → String
comma_joined [] = ""
comma_joined (s ∷ []) = s
comma_joined (s ∷ t ∷ texts) = s append (", " append comma_joined (t ∷ texts))

-- A header that is set when its list is not empty.
abbrev list_header : String → List String → Fields → Fields
list_header name [] rest = rest
list_header name (s ∷ texts) rest = field name (str (comma_joined (s ∷ texts))) rest

-- `if canonical.get("message_id")`
abbrev message_id_header : Option String → Fields
message_id_header none = end
message_id_header (some s) = if s == "" then end else field "Message-ID" (str s) end

abbrev headers_of : Canonical → Fields
headers_of c = field "To" (str (comma_joined c.recipients)) (
    list_header "Cc" c.cc
      (list_header "Bcc" c.bcc (field "Subject" (str c.subject) (message_id_header c.message_id))))

-- A result with the optional fields that the call leaves at their defaults.
abbrev send_result : SendResultKind → Option String → List String → SendResult
send_result kind error_code egress_hosts = record {
  kind = kind;
  message_id_sha256 = none;
  thread_id_sha256 = none;
  error_code = error_code;
  egress_hosts = egress_hosts;
}

unfoldable pub request_of : String → String → Bytes → HttpRequest
request_of url token body = record {
  url = url;
  headers =
      field "Authorization" (str ("Bearer " append token))
        (field "Content-Type" (str "application/json") end);
  body = body;
}

module _ (lib : Codecs) where
  unfoldable pub build_raw_message : Canonical → Option Bytes
  build_raw_message c = lib.as_bytes (headers_of c) c.body_content

  -- The request body, where the message can be rendered.
  unfoldable pub request_body : Canonical → Option Bytes
  unfolding build_raw_message
  request_body c = elim (build_raw_message c) [
    | some raw ↦ some (lib.dumps (obj (field "raw" (str (lib.urlsafe_b64encode raw)) end)))
    | none ↦ none
  ]

  -- `_sha256_hex(s) if s else None` of a member that is a text.
  abbrev hashed : Option Value → Option String
  hashed (some (str s)) = if s == "" then none else some (lib.sha256_hex s)
  hashed _ = none

  abbrev parsed_id : String → Option Value → Option String
  parsed_id key (some (obj d)) = hashed (member key d)
  parsed_id key _ = none

  -- `_classify`
  unfoldable pub classify : HttpResponse → SendResult
  classify resp =
      if leb 200 resp.status && ltb resp.status 300
      then record {
        kind = accepted;
        message_id_sha256 = parsed_id "id" (lib.loads resp.body);
        thread_id_sha256 = parsed_id "threadId" (lib.loads resp.body);
        error_code = none;
        egress_hosts = resp.host ∷ [];
      }
      else if leb 400 resp.status && ltb resp.status 500
      then send_result rejected (some ("rejected_" append number_text resp.status)) (resp.host ∷ [])
      else send_result indeterminate (some ("server_" append number_text resp.status))
          (resp.host ∷ [])

  -- `(e.host,) if e.host else ()`
  abbrev blocked_hosts : String → List String
  blocked_hosts host = if host == "" then [] else host ∷ []

  -- The end of `__call__`; `none` is an exception that goes on to the state machine.
  unfoldable pub result_of : Posted → Option SendResult
  unfolding classify
  result_of (responded resp) = some (classify resp)
  result_of (egress_blocked host reason) =
      some (send_result rejected (some "egress_blocked") (blocked_hosts host))
  result_of timeout = some (send_result indeterminate (some "TIMEOUT") (gmail_host ∷ []))
  result_of transport_error = some (send_result indeterminate (some "TRANSPORT") (gmail_host ∷ []))
  result_of other_error = none

  module _ (net : Network) (sender : GmailSender) where
    abbrev post_and_map : HttpRequest → Wire → Option SendResult × Wire
    post_and_map request wire =
        let (p, wire') = post net sender.client request wire in (result_of p, wire')

    abbrev pub with_token : Bytes → Token → Wire → Option SendResult × Wire
    with_token body (access_token token) wire = post_and_map (request_of sender.url token body) wire
    with_token body oauth_error wire =
        (some (send_result rejected (some "authorization_required") []), wire)
    with_token body raised wire = (none, wire)

    abbrev pub send_rendered : Option Bytes → Wire → Option SendResult × Wire
    send_rendered none wire = (none, wire)
    send_rendered (some body) wire = with_token body (sender.token_provider wire) wire

    abbrev pub send_checked : Canonical → Result (Unit {0}) → Wire → Option SendResult × Wire
    send_checked c (err e) wire = (some (send_result rejected (some "policy_blocked") []), wire)
    send_checked c (ok _) wire = send_rendered (request_body c) wire

    abbrev pub send_found : Option Canonical → Wire → Option SendResult × Wire
    send_found none wire = (none, wire)
    send_found (some c) wire = send_checked c (enforce_v1_send_policy c) wire

    -- `__call__`
    unfoldable pub send : String → Wire → Option SendResult × Wire
    unfolding post request_of result_of request_body enforce_v1_send_policy
    send proposal_id wire = send_found (sender.payload_provider proposal_id) wire
