-- ===== src/Gateway/TokenRefresh/Honest.antt =====
-- gateway/token_refresh.py: where an access token comes from.
use gmail_b1_gateway.Prelude.{
  String, ◌≡◌, ◌≢◌, inl, inr, refl, ap, subst, ◌∙◌, true, some, [], ◌∷◌, ◌++◌, ℤ, ◌-ℤ◌, ◌<ℤ◌, arith,
  Option-cases, Bool-cases,
}
use gmail_b1_gateway.Json.{Fields, member}
use gmail_b1_gateway.Errors.{Error, Result, ok, err, Result-cases}
use gmail_b1_gateway.Keystore.Aead.{Aesgcm}
use gmail_b1_gateway.Oauth.Requests.{FormRequest, default_token_endpoint}
use gmail_b1_gateway.Gateway.Egress.{
  HttpRequest, Wire, Reply, answered, Posted, responded, egress_blocked, timeout, transport_error,
  other_error, posted, post,
}
use gmail_b1_gateway.Gateway.Egress.Cases.{IsAllowed, IsUnsent, post-Posts}
use gmail_b1_gateway.Gateway.TokenStore.{Blob}
use gmail_b1_gateway.Gateway.SealedToken.{TokenDb, token_record}
use gmail_b1_gateway.Gateway.SealedToken.Rotation.{replace_error_unchanged}
use gmail_b1_gateway.Gateway.OauthListener.{Web, TokenResult, from_response, form_request, int_only}
use gmail_b1_gateway.Gateway.TokenRefresh.{
  Refresher, Meets, Tokens, is_fresh, refreshed, refresh_request, replace_with, as_token, keep,
  expiry, refresh, serve_or_refresh, access_token,
}
use gmail_b1_gateway.Gateway.TokenRefresh.Evidence.{
  NotEarly, IsServed, IsGranted, IsRefreshForm, KeepsOrReplaces, IsAsked, Served, AccessTold,
}
use gmail_b1_gateway.Gateway.TokenRefresh.Readings.{
  as_token_ok, int_only-some, late-NotEarly, from_response_ok, refresh_request_ok, replace_with_ok,
}

module _ (web : Web) (c : Aesgcm Blob) (p : Refresher) (m : Meets) where
  refreshed_unsent :
      (posted : Posted) → IsUnsent posted → (t : TokenResult) → refreshed web posted ≢ ok t
  unfolding refreshed
  refreshed_unsent (egress_blocked host reason) u t h = cc
  refreshed_unsent other_error u t h = cc
  refreshed_unsent (responded resp) u t h = absurd u
  refreshed_unsent timeout u t h = absurd u
  refreshed_unsent transport_error u t h = absurd u

  refreshed_ok :
      (host : String) (a : Reply) (t : TokenResult)
      → refreshed web (posted host a) ≡ ok t
      → IsGranted web c p m a t
  unfolding refreshed
  refreshed_ok host (answered status body) t h = elim (Result-cases (from_response web body)) [
    | inl (parsed, reads) ↦
        let same : parsed ≡ t = ground (arith, reads, h) in
        from_response_ok web c p m status body (ground (arith, h)) (ground (arith, h)) t
          (reads ∙ ap ok same)
    | inr (e, unread) ↦ absurd (ground (arith, unread, h))
  ]
  refreshed_ok host _ t h = absurd (cc)

  Served-of :
      (s : Tokens) (r : Result String)
      → ((token : String) → r ≡ ok token → IsServed web c p m s token)
      → Served web c p m s r
  Served-of s (ok token) f = f token refl
  Served-of s (err e) f = tt

  early :
      (e : ℤ)
      → is_fresh m.now p.refresh_skew_seconds (some e) ≡ true
      → m.now <ℤ (e -ℤ p.refresh_skew_seconds)
  early e h = ground (arith, h)

  fresh-IsServed :
      (s : Tokens) (d : Fields)
      → token_record c m.key s.db ≡ ok d
      → is_fresh m.now p.refresh_skew_seconds (int_only (member "expires_at" d)) ≡ true
      → (token : String) → as_token (member "access_token" d) ≡ ok token
      → IsServed web c p m s token
  fresh-IsServed s d opens fresh token h = elim (Option-cases (int_only (member "expires_at" d))) [
    | inl never ↦ absurd (cc (rw never at fresh))
    | inr (e, expires) ↦ record {
      d = d;
      expires_at = e;
      opens = opens;
      is_stored = as_token_ok (member "access_token" d) h;
      expires = int_only-some (member "expires_at" d) expires;
      is_early = early e (rw expires at fresh);
    }
  ]

  keep_ok :
      (s : Tokens) (t : TokenResult) (db' : TokenDb)
      → replace_with web c p m t s.db ≡ (ok tt, db')
      → keep web c p m t s ≡ (ok t.access_token, record s { db = db' })
  unfolding keep
  keep_ok s t db' h = ground (arith, h)

  keep_err :
      (s : Tokens) (t : TokenResult) (e : Error) (db' : TokenDb)
      → replace_with web c p m t s.db ≡ (err e, db')
      → keep web c p m t s ≡ (err e, record s { db = db' })
  unfolding keep
  keep_err s t e db' h = ground (arith, h)

  kept :
      (s : Tokens) (wire' : Wire) (request : HttpRequest) (t : TokenResult) (d : Fields)
      → token_record c m.key s.db ≡ ok d
      → IsGranted web c p m (web.net.transport s.wire request) t
      → let (r, s') = keep web c p m t (record s { wire = wire' }) in
        (s'.wire ≡ wire') × KeepsOrReplaces web c p m d request s r s'.db
  kept s wire' request t d opens granted = elim (Result-cases (replace_with web c p m t s.db).0) [
    | inr (e, failed) ↦
        rw
          (keep_err (record s { wire = wire' }) t e (replace_with web c p m t s.db).1
            (ap (λ r. (r, (replace_with web c p m t s.db).1)) failed))
          (
            refl,
            replace_error_unchanged c m.key m.nonce t.access_token m.refreshed_at
                (expiry m.refreshed_at t.expires_in) t.refresh_token t.scope s.db failed,
          )
    | inl (u, replaced) ↦
        let done : replace_with web c p m t s.db ≡ (ok tt, (replace_with web c p m t s.db).1) =
          ap (λ r. (r, (replace_with web c p m t s.db).1)) replaced in
        rw (keep_ok (record s { wire = wire' }) t (replace_with web c p m t s.db).1 done) (
          refl,
          (
            t,
            granted,
            refl,
            replace_with_ok web c p m d t s.db (replace_with web c p m t s.db).1 opens done,
          ),
        )
  ]

  asked :
      {s s' : Tokens} {r : Result String} {d : Fields} {form : FormRequest} {host : String}
      → token_record c m.key s.db ≡ ok d
      → NotEarly m.now p.refresh_skew_seconds (member "expires_at" d)
      → IsRefreshForm web c p m d form
      → IsAllowed web.net p.client default_token_endpoint host
      → s'.wire ≡ s.wire ++ form_request web form ∷ []
      → KeepsOrReplaces web c p m d (form_request web form) s r s'.db
      → IsAsked web c p m s r s'
  asked {d = d} {form = form} {host = host} opens late is_form at_host one ends = record {
    d = d;
    form = form;
    host = host;
    opens = opens;
    is_late = late;
    is_form = is_form;
    at_host = at_host;
    is_one = one;
    ends = ends;
  }

  refresh_cases :
      (s : Tokens) (d : Fields)
      → token_record c m.key s.db ≡ ok d
      → NotEarly m.now p.refresh_skew_seconds (member "expires_at" d)
      → AccessTold web c p m s (refresh web c p m d s)
  unfolding refresh
  refresh_cases s d opens late = elim (Result-cases (refresh_request web d)) [
    | inr (e, missing) ↦ rw missing (inl (refl, tt))
    | inl (form, asks) ↦
        rw asks (elim (post-Posts web.net p.client (form_request web form) s.wire) [
          | inl (unsent, quiet) ↦
              elim (Result-cases
                (refreshed web (post web.net p.client (form_request web form) s.wire).0)) [
                  | inl (t, granted) ↦ absurd (refreshed_unsent _ unsent t granted)
                  | inr (e, bad) ↦ rw bad (inl (ap (λ w. record s { wire = w }) quiet, tt))
                ]
          | inr (host, at_host, one, e) ↦
              let f = refresh_request_ok web c p m d asks in
              let at_endpoint =
                subst (λ u. IsAllowed web.net p.client u host) f.at_endpoint at_host in
              elim (Result-cases
                (refreshed web (post web.net p.client (form_request web form) s.wire).0)) [
                  | inr (x, bad) ↦ rw bad (inr (asked opens late f at_endpoint one refl))
                  | inl (t, granted) ↦
                      let (wired, ends) =
                        kept s (post web.net p.client (form_request web form) s.wire).1
                          (form_request web form) t d opens
                          (refreshed_ok host _ t (rw e at granted)) in
                      rw granted (inr (asked opens late f at_endpoint (wired ∙ one) ends))
                ]
        ])
  ]

  access_shut :
      (s : Tokens) {e : Error}
      → token_record c m.key s.db ≡ err e
      → access_token web c p m s ≡ (err e, s)
  unfolding access_token
  access_shut s h = ground (arith, h)

  access_open :
      (s : Tokens) {d : Fields}
      → token_record c m.key s.db ≡ ok d
      → access_token web c p m s ≡ serve_or_refresh web c p m d s
  unfolding access_token
  access_open s h = ground (arith, h)

  -- Where an access token comes from, whatever the record, the clock and the network: either
  -- nothing is sent and nothing changes, and a token that is returned is the stored one, which expires more than the
  -- skew after the clock's reading; or the record has no such time of expiry left, and one request is sent, to
  -- the https token endpoint at an allowed host, with the stored refresh token and client, and then a token
  -- that is returned is the one in the JSON object of a 2xx reply, and the row holds, sealed, that
  -- token with its times, the reply's refresh token and scope where it has them, and the rest of the old record,
  -- while a call that raises leaves the record as it was.
  pub access_token_told : (s : Tokens) → AccessTold web c p m s (access_token web c p m s)
  access_token_told s = elim (Result-cases (token_record c m.key s.db)) [
    | inr (e, shut) ↦ rw (access_shut s shut) (inl (refl, tt))
    | inl (d, opens) ↦
        rw (access_open s opens)
          (elim (Bool-cases
            (is_fresh m.now p.refresh_skew_seconds (int_only (member "expires_at" d)))) [
              | inl fresh ↦ rw fresh (
                  inl (
                    refl,
                    Served-of s (as_token (member "access_token" d))
                        (fresh-IsServed s d opens fresh),
                  ))
              | inr late ↦ rw late (
                  refresh_cases s d opens
                    (late-NotEarly m.now p.refresh_skew_seconds (member "expires_at" d) late))
            ])
  ]
