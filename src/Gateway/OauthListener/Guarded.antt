-- ===== src/Gateway/OauthListener/Guarded.antt =====
-- gateway/oauth_listener.py: a run that reaches the token endpoint has exchanged the code of its own
-- callback.
use gmail_b1_gateway.Prelude.{
  ℕ, ◌≤◌, ◌<◌, String, ◌≡◌, ◌≢◌, ◌⊎◌, inl, inr, refl, true, none, some, [], ◌∷◌, ◌++◌, arith,
  Option-cases, Bool-cases,
}
use gmail_b1_gateway.Dict.{Dict}
use gmail_b1_gateway.Errors.{Result, ok, err, Result-cases}
use gmail_b1_gateway.Keystore.Providers.{Bytes}
use gmail_b1_gateway.Oauth.{
  is_verifier, extract_authorization_code, validate_request, generate_pkce_pair,
}
use gmail_b1_gateway.Oauth.Requests.{exchange_body, build_token_exchange_request}
use gmail_b1_gateway.Gateway.Egress.{
  HttpRequest, Wire, Reply, answered, Posted, responded, egress_blocked, timeout, transport_error,
  other_error, posted,
}
use gmail_b1_gateway.Gateway.Egress.Cases.{IsAllowed, IsUnsent, post-Posts}
use gmail_b1_gateway.Gateway.OauthListener.{
  Web, TokenResult, Flow, Session, Outside, served, from_response, form_request, exchanged,
  exchange_of, exchange, await_callback, authorization_request, open_page, run, is_loopback,
}
use gmail_b1_gateway.Gateway.OauthListener.Callback.{
  IsCallback, extract_ok, AllSend, validate_request-AllSend, build_ok, captured-IsCallback,
  IsServed, served_cases,
}

module _ (web : Web) (flow : Flow) (s : Session) where
  -- The reply is a 2xx from whose body the tokens are read.
  pub record IsGranted (reply : Reply) (t : TokenResult) : Type 0 where
    pub status : ℕ
    pub body : Bytes
    pub parsed : TokenResult
    pub is_reply : reply ≡ answered status body
    pub at_least : 200 ≤ status
    pub less : status < 300
    pub reads : from_response web body ≡ ok parsed
    pub is_stamped : t ≡ record parsed { received_at = some s.now }

  exchanged_unsent : (p : Posted) → IsUnsent p → (t : TokenResult) → exchanged web flow s p ≢ ok t
  unfolding exchanged
  exchanged_unsent (egress_blocked host reason) u t h = cc
  exchanged_unsent other_error u t h = cc
  exchanged_unsent (responded resp) u t h = absurd u
  exchanged_unsent timeout u t h = absurd u
  exchanged_unsent transport_error u t h = absurd u

  exchanged_ok :
      (host : String) (a : Reply) (t : TokenResult)
      → exchanged web flow s (posted host a) ≡ ok t
      → IsGranted a t
  unfolding exchanged
  exchanged_ok host (answered status body) t h = elim (Result-cases (from_response web body)) [
    | inl (parsed, reads) ↦ record {
      status = status;
      body = body;
      parsed = parsed;
      is_reply = refl;
      at_least = ground (arith, h);
      less = ground (arith, h);
      reads = reads;
      is_stamped = ground (arith, reads, h);
    }
    | inr (e, unread) ↦ absurd (ground (arith, unread, h))
  ]
  exchanged_ok host _ t h = absurd (cc)

  -- Tokens that are returned were granted.
  abbrev Granted : Reply → Result TokenResult → Type 0
  Granted reply (ok t) = IsGranted reply t
  Granted reply (err e) = Unit

  Granted-of :
      (reply : Reply) (r : Result TokenResult)
      → ((t : TokenResult) → r ≡ ok t → IsGranted reply t)
      → Granted reply r
  Granted-of reply (ok t) f = f t refl
  Granted-of reply (err e) f = tt

  abbrev IsRaised : Result TokenResult → Type 0
  IsRaised (ok t) = ⊥
  IsRaised (err e) = Unit

  IsRaised-of : (r : Result TokenResult) → ((t : TokenResult) → r ≢ ok t) → IsRaised r
  IsRaised-of (ok t) f = f t refl
  IsRaised-of (err e) f = tt

  abbrev exchange_request : String → HttpRequest
  exchange_request code =
      form_request web
        (record { endpoint = flow.token_endpoint; body = exchange_body (exchange_of flow s code) })

  -- One call of the transport, with the code, and the reply that it got.
  abbrev IsExchanged : String → Wire → Result TokenResult × Outside → Type 0
  IsExchanged code wire (r, o') =
      (is_verifier s.verifier ≡ true)
      × ((host : String) × IsAllowed web.net flow.client flow.token_endpoint host)
      × (o'.wire ≡ wire ++ exchange_request code ∷ [])
      × Granted (web.net.transport wire (exchange_request code)) r

  -- Nothing left the machine, and there are no tokens.
  abbrev IsQuiet : Wire → Result TokenResult × Outside → Type 0
  IsQuiet wire (r, o') = (o'.wire ≡ wire) × IsRaised r

  exchange_cases :
      (code : String) (o : Outside)
      → IsQuiet o.wire (exchange web flow s code o)
        ⊎ IsExchanged code o.wire (exchange web flow s code o)
  unfolding exchange
  exchange_cases code o =
      elim (Result-cases (build_token_exchange_request web.oauth (exchange_of flow s code))) [
        | inr (e, refused) ↦ rw refused (inl (refl, tt))
        | inl (r, built) ↦
            let (same, verifier) = build_ok web.oauth (exchange_of flow s code) built in
            rw built (
              rw same (elim (post-Posts web.net flow.client (exchange_request code) o.wire) [
                | inl (unsent, quiet) ↦ inl (quiet, IsRaised-of _ (exchanged_unsent _ unsent))
                | inr (host, at_host, one, e) ↦ inr (
                  verifier,
                  (host, at_host),
                  one,
                  Granted-of _ _ (λ t h. exchanged_ok host _ t (rw e at h)),
                )
              ]))
      ]

  -- The exchange of the code of a callback of this very run.
  abbrev IsOwn : Wire → Result TokenResult × Outside → Type 0
  IsOwn wire x =
      (pairs : Dict String) × (code : String) × IsServed web flow.callback_path pairs s.hits
      × IsCallback pairs s.state code
      × IsExchanged code wire x

  await_cases :
      (o : Outside)
      → IsQuiet o.wire (await_callback web flow s o) ⊎ IsOwn o.wire (await_callback web flow s o)
  unfolding await_callback
  await_cases o = elim (Option-cases (served web flow.callback_path s.hits none)) [
    | inl timed_out ↦ rw timed_out (inl (refl, tt))
    | inr (captured, hit) ↦
        rw hit (elim (Result-cases (extract_authorization_code captured s.state)) [
          | inr (e, refused) ↦ rw refused (inl (refl, tt))
          | inl (code, accepted) ↦ rw accepted (elim (exchange_cases code o) [
            | inl quiet ↦ inl quiet
            | inr exchanged_once ↦ elim (served_cases web flow.callback_path s.hits none hit) [
              | inl before ↦ absurd (cc)
              | inr (pairs, own, e) ↦ inr (
                pairs,
                code,
                own,
                captured-IsCallback pairs s.state code
                    (rw e at (extract_ok captured s.state accepted)),
                exchanged_once,
              )
            ]
          ])
        ])
  ]

  -- Every scope that the page asked for is that of sending mail.
  abbrev IsScoped : Type 0
  IsScoped = AllSend flow.scopes

  abbrev pub RunTold : Outside → Result TokenResult × Outside → Type 0
  RunTold o x = IsQuiet o.wire x ⊎ (IsScoped × IsOwn o.wire x)

  -- A run of the consent flow, whatever the browser, the callbacks and the network do, ends in one of two
  -- ways. Either nothing is sent and there are no tokens. Or one request is sent, to the https
  -- token endpoint at an allowed host, with a well-formed verifier, the one of this run, and the code of a callback that
  -- the listener served: the callback's first state is the issued one, which is not
  -- empty, its first error, if any, is empty, and its first code is not; and then tokens are returned only
  -- from the body of a 2xx reply, stamped with the clock. In this case every scope
  -- asked for is that of sending mail.
  pub run_guarded : (o : Outside) → RunTold o (run web flow s o)
  unfolding run
  run_guarded o = elim (Result-cases (generate_pkce_pair web.oauth s.verifier)) [
    | inr (e, refused) ↦ rw refused (inl (refl, tt))
    | inl (pkce, paired) ↦ rw paired (elim (Bool-cases (is_loopback web flow.host)) [
      | inr routable ↦ rw routable (inl (refl, tt))
      | inl local ↦
          rw local
            (elim (Result-cases
              (validate_request web.oauth (authorization_request web flow s pkce))) [
                | inr (e, refused) ↦ rw refused (inl (refl, tt))
                | inl (u, allowed) ↦
                    rw allowed
                      (elim (await_cases
                        (open_page web flow s (authorization_request web flow s pkce) o).1) [
                          | inl quiet ↦ inl quiet
                          | inr own ↦ inr (
                            validate_request-AllSend web.oauth
                                (authorization_request web flow s pkce) allowed,
                            own,
                          )
                        ])
              ])
    ])
  ]
