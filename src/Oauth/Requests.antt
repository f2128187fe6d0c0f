-- ===== src/Oauth/Requests.antt =====
-- oauth/token_request.py and oauth/revoke_request.py: the bodies of the exchange, the refresh and the
-- revocation. Nothing is sent here.
use gmail_b1_gateway.Prelude.{String, Option, none, some, ◌==◌, if◌then◌else◌}
use gmail_b1_gateway.Json.{Fields, str, end, field}
use gmail_b1_gateway.Errors.{Result, ok, err, value_error}
use gmail_b1_gateway.Oauth.{Library, ◌>>◌, pure, validate_code_verifier, validate_loopback_redirect}

-- `TokenExchangeRequest`, `RefreshTokenRequest` and `RevokeTokenRequest`
pub record FormRequest : Type 0 where
  pub endpoint : String
  pub body : Fields

-- `DEFAULT_TOKEN_ENDPOINT` and `DEFAULT_REVOKE_ENDPOINT`
abbrev pub default_token_endpoint : String
default_token_endpoint = "https://oauth2.googleapis.com/token"

abbrev pub default_revoke_endpoint : String
default_revoke_endpoint = "https://oauth2.googleapis.com/revoke"

abbrev require_text : String → Result (Unit {0})
require_text s = if s == "" then err value_error else ok tt

abbrev secret_field : Option String → Fields
secret_field none = end
secret_field (some secret) = field "client_secret" (str secret) end

-- The arguments of `build_token_exchange_request`.
pub record Exchange : Type 0 where
  pub code : String
  pub code_verifier : String
  pub client_id : String
  pub redirect_uri : String
  pub client_secret : Option String
  pub token_endpoint : String

abbrev pub exchange_body : Exchange → Fields
exchange_body x = field "grant_type" (str "authorization_code") (
    field "code" (str x.code) (
      field "redirect_uri" (str x.redirect_uri) (
        field "client_id" (str x.client_id)
          (field "code_verifier" (str x.code_verifier) (secret_field x.client_secret)))))

unfoldable pub build_token_exchange_request : Library → Exchange → Result FormRequest
unfolding validate_code_verifier validate_loopback_redirect
build_token_exchange_request lib x = do
  require_text x.code
  validate_code_verifier x.code_verifier
  validate_loopback_redirect lib x.redirect_uri
  pure (record { endpoint = x.token_endpoint; body = exchange_body x })

abbrev pub refresh_body : String → String → Option String → Fields
refresh_body refresh_token client_id client_secret = field "grant_type" (str "refresh_token") (
    field "refresh_token" (str refresh_token)
      (field "client_id" (str client_id) (secret_field client_secret)))

unfoldable pub build_refresh_token_request :
    String → String → Option String → String → Result FormRequest
build_refresh_token_request refresh_token client_id client_secret token_endpoint = do
  require_text refresh_token
  require_text client_id
  pure (record {
    endpoint = token_endpoint;
    body = refresh_body refresh_token client_id client_secret;
  })

unfoldable pub build_revoke_token_request : String → String → Result FormRequest
build_revoke_token_request token revoke_endpoint = do
  require_text token
  pure (record { endpoint = revoke_endpoint; body = field "token" (str token) end })
