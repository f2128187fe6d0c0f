-- ===== src/Gateway/TokenRefresh.antt =====
-- gateway/token_refresh.py: an access token from the sealed record, refreshed first where it is about to
-- expire. The lock makes each call one step.
pub mod Evidence
pub mod Readings
pub mod Honest
use gmail_b1_gateway.Prelude.{
  ℕ, String, Bool, true, false, not, Option, none, some, List, [], ◌∷◌, ℤ, pos, ◌+ℤ◌, ◌-ℤ◌, ltb_ℤ,
  ltb, leb, beq, ◌&&◌, if◌then◌else◌,
}
use gmail_b1_gateway.Json.{Value, Fields, null, str, member}
use gmail_b1_gateway.Errors.{
  Error, Result, ok, err, value_error, escaped, oauth_exchange_error, reauthorization_required,
  token_refresh_error, Action, pure, raise, lift, raise_if, query, zoom, ◌>>=◌, ◌>>◌,
}
use gmail_b1_gateway.Keystore.Providers.{Bytes}
use gmail_b1_gateway.Keystore.Aead.{Aesgcm}
use gmail_b1_gateway.Oauth.{gmail_send_scope}
use gmail_b1_gateway.Oauth.Requests.{
  FormRequest, build_refresh_token_request, default_token_endpoint,
}
use gmail_b1_gateway.Gateway.Egress.{
  Wire, HttpResponse, Posted, responded, other_error, EgressGuardedClient, post,
}
use gmail_b1_gateway.Gateway.TokenStore.{Blob}
use gmail_b1_gateway.Gateway.SealedToken.{TokenDb, token_record, replace_access_token}
use gmail_b1_gateway.Gateway.OauthListener.{
  Web, TokenResult, from_response, form_request, int_only, oauth_allow_hosts, same_set,
}

pub record Refresher : Type 0 where
  pub client : EgressGuardedClient
  pub refresh_skew_seconds : ℤ

-- `RefreshingTokenProvider.__init__`
unfoldable pub refreshing_token_provider : Refresher → Result Refresher
refreshing_token_provider p =
    if not (same_set p.client.allow_hosts oauth_allow_hosts)
    then err value_error
    else if ltb_ℤ p.refresh_skew_seconds (pos 0)
    then err value_error
    else ok p

-- What one call meets: the key's provider, the nonce of a seal, and the clock before and after a refresh.
pub record Meets : Type 0 where
  pub key : Result Bytes
  pub nonce : Bytes
  pub now : ℤ
  pub refreshed_at : ℤ

-- The sealed record, and the calls of the transport.
pub record Tokens : Type 0 where
  pub db : TokenDb
  pub wire : Wire

abbrev on_db : {A : Type 0} → Action TokenDb A → Action Tokens A
on_db = zoom (λ s. s.db) (λ s d. record s { db = d })

-- `record["access_token"]`
abbrev pub as_token : Option Value → Result String
as_token (some (str token)) = ok token
as_token _ = err escaped

-- `self._now() < expires_at - self._skew`, where there is a time of expiry.
abbrev pub is_fresh : ℤ → ℤ → Option ℤ → Bool
is_fresh now skew none = false
is_fresh now skew (some expires_at) = ltb_ℤ now (expires_at -ℤ skew)

abbrev pub required : Option Value → Result String
required (some (str s)) = ok s
required _ = err reauthorization_required

abbrev pub optional : Option Value → Result (Option String)
optional none = ok none
optional (some null) = ok none
optional (some (str s)) = ok (some s)
optional (some v) = err reauthorization_required

-- A refused refresh
abbrev refused : ℕ → Error
refused status = if beq status 400 then reauthorization_required else token_refresh_error

-- `except OAuthError` around the parsing
abbrev unusable : Error → Error
unusable oauth_exchange_error = token_refresh_error
unusable e = e

abbrev pub expiry : ℤ → Option ℤ → Option ℤ
expiry refreshed_at none = none
expiry refreshed_at (some expires_in) = some (refreshed_at +ℤ expires_in)

module _ (web : Web) where
  -- `frozenset(result.scope.split()) != V1_ALLOWED_SCOPES`
  abbrev is_scoped : Option String → Bool
  is_scoped none = true
  is_scoped (some scope) = same_set (web.split scope) (gmail_send_scope ∷ [])

  abbrev check_scope : TokenResult → Result TokenResult
  check_scope t = if is_scoped t.scope then ok t else err token_refresh_error

  abbrev of_response : Result TokenResult → Result TokenResult
  of_response (err e) = err (unusable e)
  of_response (ok t) = check_scope t

  -- The tokens of the refresh's answer.
  unfoldable pub refreshed : Posted → Result TokenResult
  refreshed (responded resp) =
      if leb 200 resp.status && ltb resp.status 300
      then of_response (from_response web resp.body)
      else err (refused resp.status)
  refreshed other_error = err escaped
  refreshed _ = err token_refresh_error

  -- The request of a refresh, from the stored record.
  unfoldable pub refresh_request : Fields → Result FormRequest
  refresh_request d = elim (required (member "refresh_token" d)) [
    | err e ↦ err e
    | ok refresh_token ↦ elim (required (member "client_id" d)) [
      | err e ↦ err e
      | ok client_id ↦ elim (optional (member "client_secret" d)) [
        | err e ↦ err e
        | ok client_secret ↦
            build_refresh_token_request refresh_token client_id client_secret default_token_endpoint
      ]
    ]
  ]

  module _ (c : Aesgcm Blob) (p : Refresher) (m : Meets) where
    abbrev post_form : FormRequest → Action Tokens Posted
    post_form r s =
        let (posted, wire) = post web.net p.client (form_request web r) s.wire in
        (ok posted, record s { wire = wire })

    abbrev pub replace_with : TokenResult → Action TokenDb (Unit {0})
    replace_with t =
        replace_access_token c m.key m.nonce t.access_token m.refreshed_at
          (expiry m.refreshed_at t.expires_in) t.refresh_token t.scope

    -- The end of `_refresh`.
    unfoldable pub keep : TokenResult → Action Tokens String
    keep t = do on_db (replace_with t); pure t.access_token

    -- `_refresh`
    unfoldable pub refresh : Fields → Action Tokens String
    refresh d = do
      r ← lift (refresh_request d)
      posted ← post_form r
      t ← lift (refreshed posted)
      keep t

    abbrev pub serve_or_refresh : Fields → Action Tokens String
    serve_or_refresh d =
        if is_fresh m.now p.refresh_skew_seconds (int_only (member "expires_at" d))
        then lift (as_token (member "access_token" d))
        else refresh d

    -- `access_token`
    unfoldable pub access_token : Action Tokens String
    access_token = do d ← query (λ s. token_record c m.key s.db); serve_or_refresh d
