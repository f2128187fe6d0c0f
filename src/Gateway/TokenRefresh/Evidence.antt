-- ===== src/Gateway/TokenRefresh/Evidence.antt =====
-- gateway/token_refresh.py: what stands behind a token that is served, and behind one that a refresh
-- brought. Nothing here is a function of the provider, the listener or the store.
use gmail_b1_gateway.Prelude.{
  ℕ, ◌≤◌, ◌<◌, String, ◌≡◌, ◌⊎◌, Option, none, some, [], ◌∷◌, ◌++◌, ℤ, pos, ◌+ℤ◌, ◌-ℤ◌, ◌<ℤ◌, ◌≤ℤ◌,
}
use gmail_b1_gateway.Json.{Value, null, str, int, obj, Fields, end, field, member}
use gmail_b1_gateway.Errors.{Result, ok, err}
use gmail_b1_gateway.Keystore.Providers.{Bytes}
use gmail_b1_gateway.Keystore.Aead.{Aesgcm, SealedRecord, seal, to_stored}
use gmail_b1_gateway.Oauth.Requests.{FormRequest, default_token_endpoint}
use gmail_b1_gateway.Gateway.Egress.{HttpRequest, Reply, answered}
use gmail_b1_gateway.Gateway.Egress.Cases.{IsAllowed}
use gmail_b1_gateway.Gateway.TokenStore.{Blob, json}
use gmail_b1_gateway.Gateway.SealedToken.{TokenDb, TokenWrite, token_fields, token_record, or_text}
use gmail_b1_gateway.Gateway.OauthListener.{Web, TokenResult, form_request}
use gmail_b1_gateway.Gateway.TokenRefresh.{Refresher, Meets, Tokens}

-- A member that holds this text, or holds none: it is missing or null.
abbrev pub HoldsText : Option Value → Option String → Type 0
HoldsText member none = (member ≡ none) ⊎ (member ≡ some null)
HoldsText member (some s) = member ≡ some (str s)

-- A member that holds this number, or none.
abbrev pub HoldsNumber : Option Value → Option ℤ → Type 0
HoldsNumber member (some n) = member ≡ some (int n)
HoldsNumber (some (int n)) none = ⊥
HoldsNumber _ none = Unit

-- The time of expiry, where there is a lifetime.
abbrev pub ExpiresAt : ℤ → Option ℤ → Option ℤ → Type 0
ExpiresAt from none expires_at = expires_at ≡ none
ExpiresAt from (some lifetime) expires_at = expires_at ≡ some (from +ℤ lifetime)

-- No time of expiry, or one that the clock has reached but for the skew.
abbrev pub NotEarly : ℤ → ℤ → Option Value → Type 0
NotEarly now skew (some (int expires_at)) = (expires_at -ℤ skew) ≤ℤ now
NotEarly now skew _ = Unit

abbrev pub secret_part : Option String → Fields
secret_part none = end
secret_part (some secret) = field "client_secret" (str secret) end

module _ (web : Web) (c : Aesgcm Blob) (p : Refresher) (m : Meets) where
  -- The stored token, while it has more than the skew left.
  pub record IsServed (s : Tokens) (token : String) : Type 0 where
    pub d : Fields
    pub expires_at : ℤ
    pub opens : token_record c m.key s.db ≡ ok d
    pub is_stored : member "access_token" d ≡ some (str token)
    pub expires : member "expires_at" d ≡ some (int expires_at)
    pub is_early : m.now <ℤ (expires_at -ℤ p.refresh_skew_seconds)

  -- The answer of a refresh that was accepted: its JSON object has the tokens.
  pub record IsGranted (reply : Reply) (t : TokenResult) : Type 0 where
    pub status : ℕ
    pub body : Bytes
    pub answer : Fields
    pub is_reply : reply ≡ answered status body
    pub at_least : 200 ≤ status
    pub less : status < 300
    pub parses : web.loads body ≡ some (obj answer)
    pub access : member "access_token" answer ≡ some (str t.access_token)
    pub has_refresh : HoldsText (member "refresh_token" answer) t.refresh_token
    pub scope : HoldsText (member "scope" answer) t.scope
    pub lifetime : HoldsNumber (member "expires_in" answer) t.expires_in

  -- The form carries the stored refresh token and client.
  pub record IsRefreshForm (d : Fields) (form : FormRequest) : Type 0 where
    pub refresh_token : String
    pub client_id : String
    pub client_secret : Option String
    pub has_token : member "refresh_token" d ≡ some (str refresh_token)
    pub has_client : member "client_id" d ≡ some (str client_id)
    pub has_secret : HoldsText (member "client_secret" d) client_secret
    pub at_endpoint : form.endpoint ≡ default_token_endpoint
    pub is_form :
        form.body
        ≡ field "grant_type" (str "refresh_token") (
            field "refresh_token"
              (str refresh_token)
              (field "client_id" (str client_id) (secret_part client_secret)))

  -- The row after the refresh: sealed in it is the new token with its times, the answer's refresh token and
  -- scope where it has them, and the rest of the old record.
  pub record IsReplaced (d : Fields) (t : TokenResult) (db' : TokenDb) : Type 0 where
    pub w : TokenWrite
    pub old_refresh_token : Option String
    pub old_scope : Option String
    pub sealed : SealedRecord
    pub has_refresh_token : HoldsText (member "refresh_token" d) old_refresh_token
    pub has_scope : HoldsText (member "scope" d) old_scope
    pub access_token : w.access_token ≡ t.access_token
    pub refresh_token : w.refresh_token ≡ or_text t.refresh_token old_refresh_token
    pub issued_at : w.issued_at ≡ some m.refreshed_at
    pub expires_at : ExpiresAt m.refreshed_at t.expires_in w.expires_at
    pub client_id : HoldsText (member "client_id" d) w.client_id
    pub client_secret : HoldsText (member "client_secret" d) w.client_secret
    pub scope : w.scope ≡ or_text t.scope old_scope
    pub write_origin : w.write_origin ≡ "refresh"
    pub seals : seal c m.key m.nonce (json (token_fields w)) "oauth_token" (pos 1) ≡ ok sealed
    pub row :
        db'
        ≡ some (record {
          sealed = to_stored sealed;
          write_origin = some "refresh";
          written_at = some m.refreshed_at;
        })

  -- What a call is that asked for new tokens: on success the answer's token is returned and stored,
  -- and otherwise the record is as it was.
  abbrev pub KeepsOrReplaces : Fields → HttpRequest → Tokens → Result String → TokenDb → Type 0
  KeepsOrReplaces d request s (err e) db' = db' ≡ s.db
  KeepsOrReplaces d request s (ok token) db' =
      (t : TokenResult) × IsGranted (web.net.transport s.wire request) t
      × (t.access_token ≡ token)
      × IsReplaced d t db'

  -- One call of the transport.
  pub record IsAsked (s : Tokens) (r : Result String) (s' : Tokens) : Type 0 where
    pub d : Fields
    pub form : FormRequest
    pub host : String
    pub opens : token_record c m.key s.db ≡ ok d
    pub is_late : NotEarly m.now p.refresh_skew_seconds (member "expires_at" d)
    pub is_form : IsRefreshForm d form
    pub at_host : IsAllowed web.net p.client default_token_endpoint host
    pub is_one : s'.wire ≡ s.wire ++ form_request web form ∷ []
    pub ends : KeepsOrReplaces d (form_request web form) s r s'.db

  -- A token that is returned without a request is the stored one.
  abbrev pub Served : Tokens → Result String → Type 0
  Served s (ok token) = IsServed s token
  Served s (err e) = Unit

  abbrev pub IsQuiet : Tokens → Result String × Tokens → Type 0
  IsQuiet s (r, s') = (s' ≡ s) × Served s r

  abbrev pub AccessTold : Tokens → Result String × Tokens → Type 0
  AccessTold s (r, s') = IsQuiet s (r, s') ⊎ IsAsked s r s'
