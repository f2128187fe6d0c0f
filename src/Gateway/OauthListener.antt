-- ===== src/Gateway/OauthListener.antt =====
-- gateway/oauth_listener.py: the browser consent flow over a loopback listener, and the exchange of its
-- code. The listener's socket is the list of the request paths that it served until its capture was read.
pub mod Callback
pub mod Guarded
use Prim.Native.String.{◌++◌ as ◌append◌}
use gmail_b1_gateway.Prelude.{
  ℕ, String, Bool, true, false, not, Option, none, some, is_some, List, [], ◌∷◌, ◌++◌, ℤ, ltb, leb,
  elem, number_text, ◌||◌, ◌==◌, ◌&&◌, if◌then◌else◌,
}
use gmail_b1_gateway.Dict.{Dict, lookup, insert}
use gmail_b1_gateway.Json.{Value, Fields, str, int, obj, end, field, member}
use gmail_b1_gateway.Errors.{
  Result, ok, err, value_error, escaped, oauth_timeout, oauth_exchange_error, Action, pure, raise,
  lift, or_raise, raise_if, modify, ◌>>=◌, ◌>>◌,
}
use gmail_b1_gateway.Keystore.Providers.{Bytes}
use gmail_b1_gateway.Oauth.{
  Library, PkcePair, AuthorizationRequest, generate_pkce_pair, validate_request,
  build_authorization_url, extract_authorization_code,
}
use gmail_b1_gateway.Oauth.Requests.{FormRequest, Exchange, build_token_exchange_request}
use gmail_b1_gateway.Gateway.Egress.{
  HttpRequest, Wire, Network, HttpResponse, Posted, responded, egress_blocked, timeout,
  transport_error, other_error, EgressGuardedClient, post,
}
use gmail_b1_gateway.Gateway.SealedToken.{text_or_none}

-- What the standard library computes: `urlsplit` of a request's path into path and query (`none` is a
-- `ValueError`), `parse_qsl`, `ip_address(host).is_loopback` (`none` is no address), `json.loads` of decoded
-- bytes, and a text's UTF-8.
pub record Web : Type 0 where
  pub oauth : Library
  pub net : Network
  pub split_path : String → Option (String × String)
  pub parse_qsl : String → List (String × String)
  pub ip_is_loopback : String → Option Bool
  pub loads : Bytes → Option Value
  pub encode : String → Bytes
  -- `str.split()`
  pub split : String → List String

pub record TokenResult : Type 0 where
  pub access_token : String
  pub refresh_token : Option String
  pub expires_in : Option ℤ
  pub scope : Option String
  pub token_type : Option String
  pub received_at : Option ℤ

-- `exp if isinstance(exp, int) and not isinstance(exp, bool) else None`
abbrev pub int_only : Option Value → Option ℤ
int_only (some (int n)) = some n
int_only _ = none

abbrev pub result_of_fields : String → Fields → Result TokenResult
result_of_fields access_token d = elim (text_or_none (member "refresh_token" d)) [
  | err e ↦ err e
  | ok refresh_token ↦ elim (text_or_none (member "scope" d)) [
    | err e ↦ err e
    | ok scope ↦ elim (text_or_none (member "token_type" d)) [
      | err e ↦ err e
      | ok token_type ↦ ok (record {
        access_token = access_token;
        refresh_token = refresh_token;
        expires_in = int_only (member "expires_in" d);
        scope = scope;
        token_type = token_type;
        received_at = none;
      })
    ]
  ]
]

abbrev pub with_access_token : Option Value → Fields → Result TokenResult
with_access_token (some (str token)) d = result_of_fields token d
with_access_token _ d = err oauth_exchange_error

abbrev pub result_of_value : Option Value → Result TokenResult
result_of_value (some (obj d)) = with_access_token (member "access_token" d) d
result_of_value _ = err oauth_exchange_error

-- `d.setdefault(k, v)` for each pair
abbrev capture : List (String × String) → Dict String → Dict String
capture [] d = d
capture ((k, v) ∷ pairs) d = capture pairs (if is_some (lookup k d) then d else insert k v d)

-- `OAUTH_ALLOW_HOSTS`
abbrev pub oauth_allow_hosts : List String
oauth_allow_hosts = "oauth2.googleapis.com" ∷ []

abbrev subset : List String → List String → Bool
subset [] ts = true
subset (s ∷ ss) ts = elem s ts && subset ss ts

-- Equality of frozensets
abbrev pub same_set : List String → List String → Bool
same_set ss ts = subset ss ts && subset ts ss

-- `LoopbackOAuthFlow`'s arguments
pub record Flow : Type 0 where
  pub client_id : String
  pub client : EgressGuardedClient
  pub client_secret : Option String
  pub scopes : List String
  pub host : String
  pub callback_path : String
  pub auth_endpoint : String
  pub token_endpoint : String

-- What one run draws and meets: the verifier, the state, the ephemeral port, the paths served, and the
-- clock after the exchange.
pub record Session : Type 0 where
  pub verifier : String
  pub state : String
  pub port : ℕ
  pub hits : List String
  pub now : ℤ

-- The pages opened in the browser, and the calls of the transport.
pub record Outside : Type 0 where
  pub opened : List String
  pub wire : Wire

abbrev pub redirect_uri_of : Flow → Session → String
redirect_uri_of flow s =
    "http://" append (flow.host append (":" append (number_text s.port append flow.callback_path)))

abbrev pub exchange_of : Flow → Session → String → Exchange
exchange_of flow s code = record {
  code = code;
  code_verifier = s.verifier;
  client_id = flow.client_id;
  redirect_uri = redirect_uri_of flow s;
  client_secret = flow.client_secret;
  token_endpoint = flow.token_endpoint;
}

module _ (web : Web) where
  -- `TokenResult.from_response`
  unfoldable pub from_response : Bytes → Result TokenResult
  from_response body = result_of_value (web.loads body)

  -- `_is_loopback`
  unfoldable pub is_loopback : String → Bool
  is_loopback host =
      host == "localhost" || elim (web.ip_is_loopback host) [ some b ↦ b | none ↦ false ]

  -- What the capture is after `do_GET` of a path.
  abbrev capture_of :
      String → Option (String × String) → Option (Dict String) → Option (Dict String)
  capture_of callback_path none captured = captured
  capture_of callback_path (some (path, query)) captured =
      if path == callback_path then some (capture (web.parse_qsl query) []) else captured

  abbrev pub do_get : String → String → Option (Dict String) → Option (Dict String)
  do_get callback_path hit captured = capture_of callback_path (web.split_path hit) captured

  -- The capture after every hit; without one the wait times out.
  unfoldable pub served : String → List String → Option (Dict String) → Option (Dict String)
  served callback_path [] captured = captured
  served callback_path (hit ∷ hits) captured =
      served callback_path hits (do_get callback_path hit captured)

  -- The POST of a form.
  abbrev pub form_request : FormRequest → HttpRequest
  form_request r = record {
    url = r.endpoint;
    headers = field "Content-Type" (str "application/x-www-form-urlencoded") end;
    body = web.encode (web.oauth.urlencode r.body);
  }

  -- `LoopbackOAuthFlow.__init__`
  unfoldable pub loopback_flow : Flow → Result Flow
  unfolding is_loopback
  loopback_flow flow =
      if not (same_set flow.client.allow_hosts oauth_allow_hosts) || not (is_loopback flow.host)
      then err value_error
      else ok flow

  module _ (flow : Flow) (s : Session) where
    -- `_exchange` behind its post
    unfoldable pub exchanged : Posted → Result TokenResult
    unfolding from_response
    exchanged (responded resp) =
        if leb 200 resp.status && ltb resp.status 300
        then elim (from_response resp.body) [
          | ok t ↦ ok (record t { received_at = some s.now })
          | err e ↦ err e
        ]
        else err oauth_exchange_error
    exchanged _ = err escaped

    abbrev post_form : FormRequest → Action Outside TokenResult
    post_form r o =
        let (p, wire) = post web.net flow.client (form_request r) o.wire in
        (exchanged p, record o { wire = wire })

    unfoldable pub exchange : String → Action Outside TokenResult
    unfolding exchanged build_token_exchange_request post
    exchange code = do
      r ← lift (build_token_exchange_request web.oauth (exchange_of flow s code))
      post_form r

    abbrev pub authorization_request : PkcePair → AuthorizationRequest
    authorization_request pkce = record {
      client_id = flow.client_id;
      redirect_uri = redirect_uri_of flow s;
      state = s.state;
      code_challenge = pkce.challenge;
      scopes = flow.scopes;
    }

    -- `run` once the page is open.
    unfoldable pub await_callback : Action Outside TokenResult
    unfolding served extract_authorization_code exchange
    await_callback = do
      captured ← or_raise (served flow.callback_path s.hits none) oauth_timeout
      code ← lift (extract_authorization_code captured s.state)
      exchange code

    abbrev pub open_page : AuthorizationRequest → Action Outside (Unit {0})
    open_page request = modify (λ o. record o {
      opened = o.opened ++ build_authorization_url web.oauth request flow.auth_endpoint ∷ [];
    })

    -- `run`
    unfoldable pub run : Action Outside TokenResult
    run = do
      pkce ← lift (generate_pkce_pair web.oauth s.verifier)
      raise_if (not (is_loopback flow.host)) value_error
      lift (validate_request web.oauth (authorization_request pkce))
      open_page (authorization_request pkce)
      await_callback
