-- ===== src/Gateway/TokenRefresh/Readings.antt =====
-- gateway/token_refresh.py: what its readings of a record, of a reply and of the clock say, and what a
-- rotation writes.
use gmail_b1_gateway.Prelude.{
  subst, ℕ, ◌≤◌, ◌<◌, String, ◌≡◌, inl, inr, refl, sym, ap, ◌∙◌, false, Option, none, some, ℤ,
  arith,
}
use gmail_b1_gateway.Json.{Value, Fields, null, boolean, int, float, str, obj, arr, member}
use gmail_b1_gateway.Errors.{ok, Result-cases}
use gmail_b1_gateway.Keystore.Providers.{Bytes}
use gmail_b1_gateway.Keystore.Aead.{Aesgcm}
use gmail_b1_gateway.Oauth.Requests.{FormRequest, build_refresh_token_request}
use gmail_b1_gateway.Gateway.Egress.{answered}
use gmail_b1_gateway.Gateway.TokenStore.{Blob}
use gmail_b1_gateway.Gateway.SealedToken.{
  TokenDb, TokenWrite, token_record, text_or_none, or_text, store, replace_access_token,
}
use gmail_b1_gateway.Gateway.SealedToken.Provenance.{stored}
use gmail_b1_gateway.Gateway.OauthListener.{
  Web, TokenResult, result_of_fields, with_access_token, result_of_value, from_response, int_only,
}
use gmail_b1_gateway.Gateway.TokenRefresh.{
  Refresher, Meets, is_fresh, refresh_request, replace_with, as_token, required, optional, expiry,
}
use gmail_b1_gateway.Gateway.TokenRefresh.Evidence.{
  HoldsText, HoldsNumber, ExpiresAt, NotEarly, IsGranted, IsRefreshForm, IsReplaced,
}

pub as_token_ok : (v : Option Value) {token : String} → as_token v ≡ ok token → v ≡ some (str token)
as_token_ok (some (str s)) h = cc
as_token_ok _ h = absurd (cc)

pub required_ok : (v : Option Value) {s : String} → required v ≡ ok s → v ≡ some (str s)
required_ok (some (str s)) h = cc
required_ok _ h = absurd (cc)

pub optional_ok : (v : Option Value) (s : Option String) → optional v ≡ ok s → HoldsText v s
optional_ok none none h = inl refl
optional_ok (some null) none h = inr refl
optional_ok (some (str s)) (some t) h = cc
optional_ok _ _ h = absurd (cc)

pub text_or_none_ok : (v : Option Value) (s : Option String) → text_or_none v ≡ ok s → HoldsText v s
text_or_none_ok none none h = inl refl
text_or_none_ok (some null) none h = inr refl
text_or_none_ok (some (str s)) (some t) h = cc
text_or_none_ok _ _ h = absurd (cc)

pub int_only-some : (v : Option Value) {n : ℤ} → int_only v ≡ some n → v ≡ some (int n)
int_only-some (some (int n)) h = cc
int_only-some _ h = absurd (cc)

int_only-HoldsNumber : (v : Option Value) → HoldsNumber v (int_only v)
int_only-HoldsNumber none = tt
int_only-HoldsNumber (some null) = tt
int_only-HoldsNumber (some (boolean b)) = tt
int_only-HoldsNumber (some (int n)) = refl
int_only-HoldsNumber (some (float f)) = tt
int_only-HoldsNumber (some (str s)) = tt
int_only-HoldsNumber (some (arr vs)) = tt
int_only-HoldsNumber (some (obj d)) = tt

pub late-NotEarly :
    (now skew : ℤ) (v : Option Value) → is_fresh now skew (int_only v) ≡ false → NotEarly now skew v
late-NotEarly now skew none h = tt
late-NotEarly now skew (some null) h = tt
late-NotEarly now skew (some (boolean b)) h = tt
late-NotEarly now skew (some (int n)) h = ground (arith, h)
late-NotEarly now skew (some (float f)) h = tt
late-NotEarly now skew (some (str s)) h = tt
late-NotEarly now skew (some (arr vs)) h = tt
late-NotEarly now skew (some (obj d)) h = tt

expiry-ExpiresAt : (from : ℤ) (lifetime : Option ℤ) → ExpiresAt from lifetime (expiry from lifetime)
expiry-ExpiresAt from none = refl
expiry-ExpiresAt from (some n) = refl

module _ (web : Web) (c : Aesgcm Blob) (p : Refresher) (m : Meets) where
  module _ (status : ℕ) (body : Bytes) (at_least : 200 ≤ status) (less : status < 300) where
    fields_cases :
        (answer : Fields) (token : String) (t : TokenResult)
        → web.loads body ≡ some (obj answer)
        → member "access_token" answer ≡ some (str token)
        → result_of_fields token answer ≡ ok t
        → IsGranted web c p m (answered status body) t
    fields_cases answer token t parses access h =
        elim (Result-cases (text_or_none (member "refresh_token" answer))) [
          | inr (e, bad) ↦ absurd (ground (arith, bad, h))
          | inl (r, has_r) ↦ elim (Result-cases (text_or_none (member "scope" answer))) [
            | inr (e, bad) ↦ absurd (ground (arith, has_r, bad, h))
            | inl (s, has_s) ↦ elim (Result-cases (text_or_none (member "token_type" answer))) [
              | inr (e, bad) ↦ absurd (ground (arith, has_r, has_s, bad, h))
              | inl (k, has_k) ↦
                  let parsed : TokenResult = record {
                    access_token = token;
                    refresh_token = r;
                    expires_in = int_only (member "expires_in" answer);
                    scope = s;
                    token_type = k;
                    received_at = none;
                  } in
                  let same : parsed ≡ t = ground (arith, has_r, has_s, has_k, h) in
                  subst (λ x. IsGranted web c p m (answered status body) x) same
                    (record {
                      status = status;
                      body = body;
                      answer = answer;
                      is_reply = refl;
                      at_least = at_least;
                      less = less;
                      parses = parses;
                      access = access;
                      has_refresh = text_or_none_ok (member "refresh_token" answer) r has_r;
                      scope = text_or_none_ok (member "scope" answer) s has_s;
                      lifetime = int_only-HoldsNumber (member "expires_in" answer);
                    })
            ]
          ]
        ]

    token_cases :
        (answer : Fields) (v : Option Value) (t : TokenResult)
        → web.loads body ≡ some (obj answer)
        → member "access_token" answer ≡ v
        → with_access_token v answer ≡ ok t
        → IsGranted web c p m (answered status body) t
    token_cases answer (some (str token)) t parses access h =
        fields_cases answer token t parses access h
    token_cases answer _ t parses access h = absurd (cc)

    value_cases :
        (v : Option Value) (t : TokenResult)
        → web.loads body ≡ v
        → result_of_value v ≡ ok t
        → IsGranted web c p m (answered status body) t
    value_cases (some (obj answer)) t parses h =
        token_cases answer (member "access_token" answer) t parses refl h
    value_cases _ t parses h = absurd (cc)

    -- The tokens of a reply are those in its JSON object.
    pub from_response_ok :
        (t : TokenResult)
        → from_response web body ≡ ok t
        → IsGranted web c p m (answered status body) t
    unfolding from_response
    from_response_ok t h = value_cases (web.loads body) t refl h

  pub refresh_request_ok :
      (d : Fields) {form : FormRequest}
      → refresh_request web d ≡ ok form
      → IsRefreshForm web c p m d form
  unfolding refresh_request build_refresh_token_request
  refresh_request_ok d {form} h = elim (Result-cases (required (member "refresh_token" d))) [
    | inr (e, none') ↦ absurd (ground (arith, none', h))
    | inl (token, has_token) ↦ elim (Result-cases (required (member "client_id" d))) [
      | inr (e, none') ↦ absurd (ground (arith, has_token, none', h))
      | inl (client, has_client) ↦ elim (Result-cases (optional (member "client_secret" d))) [
        | inr (e, none') ↦ absurd (ground (arith, has_token, has_client, none', h))
        | inl (secret, has_secret) ↦ record {
          refresh_token = token;
          client_id = client;
          client_secret = secret;
          has_token = required_ok (member "refresh_token" d) has_token;
          has_client = required_ok (member "client_id" d) has_client;
          has_secret = optional_ok (member "client_secret" d) secret has_secret;
          at_endpoint = ground (arith, has_token, has_client, has_secret, h);
          is_form = ground (arith, has_token, has_client, has_secret, h);
        }
      ]
    ]
  ]

  -- A rotation that returns has sealed the old record with the new tokens in it.
  pub replace_with_ok :
      (d : Fields) (t : TokenResult) (db db' : TokenDb)
      → token_record c m.key db ≡ ok d
      → replace_with web c p m t db ≡ (ok tt, db')
      → IsReplaced web c p m d t db'
  unfolding replace_access_token
  replace_with_ok d t db db' opens h =
      elim (Result-cases (text_or_none (member "refresh_token" d))) [
        | inr (e, bad) ↦ absurd (ground (arith, opens, bad, h))
        | inl (r, has_r) ↦ elim (Result-cases (text_or_none (member "client_id" d))) [
          | inr (e, bad) ↦ absurd (ground (arith, opens, has_r, bad, h))
          | inl (i, has_i) ↦ elim (Result-cases (text_or_none (member "client_secret" d))) [
            | inr (e, bad) ↦ absurd (ground (arith, opens, has_r, has_i, bad, h))
            | inl (k, has_k) ↦ elim (Result-cases (text_or_none (member "scope" d))) [
              | inr (e, bad) ↦ absurd (ground (arith, opens, has_r, has_i, has_k, bad, h))
              | inl (s, has_s) ↦
                  let w : TokenWrite = record {
                    access_token = t.access_token;
                    refresh_token = or_text t.refresh_token r;
                    issued_at = some m.refreshed_at;
                    expires_at = expiry m.refreshed_at t.expires_in;
                    client_id = i;
                    client_secret = k;
                    scope = or_text t.scope s;
                    write_origin = "refresh";
                  } in
                  let writes : store c m.key m.nonce w db ≡ (ok tt, db') =
                    ground (arith, opens, has_r, has_i, has_k, has_s, h) in
                  let (sealed, seals, _, row) =
                    stored c m.key m.nonce w db (ap (λ x. x.0) writes) in
                  record {
                    w = w;
                    old_refresh_token = r;
                    old_scope = s;
                    sealed = sealed;
                    has_refresh_token = text_or_none_ok (member "refresh_token" d) r has_r;
                    has_scope = text_or_none_ok (member "scope" d) s has_s;
                    access_token = refl;
                    refresh_token = refl;
                    issued_at = refl;
                    expires_at = expiry-ExpiresAt m.refreshed_at t.expires_in;
                    client_id = text_or_none_ok (member "client_id" d) i has_i;
                    client_secret = text_or_none_ok (member "client_secret" d) k has_k;
                    scope = refl;
                    write_origin = refl;
                    seals = seals;
                    row = sym (ap (λ x. x.1) writes) ∙ row;
                  }
            ]
          ]
        ]
      ]
