-- ===== src/Gateway/OauthListener/Callback.antt =====
-- oauth/callback.py, oauth/authorize.py and gateway/oauth_listener.py: what an accepted callback carries, where it
-- came from, and what a request that was built has passed.
use gmail_b1_gateway.Prelude.{
  String, ◌≡◌, ◌≢◌, ◌⊎◌, inl, inr, refl, sym, ap, ◌∙◌, true, Option, none, some, List, [], ◌∷◌,
  arith, ◌==◌, eq_iff, Option-cases, Bool-cases,
}
use gmail_b1_gateway.Dict.{Dict, lookup, insert, lookup-insert}
use gmail_b1_gateway.Errors.{ok, Result-cases}
use gmail_b1_gateway.Oauth.{
  Library, is_verifier, state_matches, extract_authorization_code, validate_loopback_redirect,
  validate_scopes, only_allowed, gmail_send_scope, AuthorizationRequest, validate_request,
}
use gmail_b1_gateway.Oauth.Requests.{
  FormRequest, Exchange, exchange_body, build_token_exchange_request,
}
use gmail_b1_gateway.Gateway.OauthListener.{Web, served, capture, do_get}

-- The first value of a key stays.
first_of : Option String → Option String → Option String
first_of none b = b
first_of (some a) b = some a

lookup-capture :
    (k : String) (pairs d : Dict String)
    → lookup k (capture pairs d) ≡ first_of (lookup k d) (lookup k pairs)
unfolding first_of lookup
lookup-capture k [] d = ground arith
lookup-capture k ((j, v) ∷ pairs) d = ground (
  arith,
  lookup-capture k pairs d,
  lookup-capture k pairs (insert j v d),
  lookup-insert j k v d,
  eq_iff j k,
)

abbrev pub AllSend : List String → Type 0
AllSend [] = Unit
AllSend (scope ∷ scopes) = (scope ≡ gmail_send_scope) × AllSend scopes

only_allowed-AllSend : (scopes : List String) → only_allowed scopes ≡ true → AllSend scopes
only_allowed-AllSend [] h = tt
only_allowed-AllSend (s ∷ scopes) h =
    (ground (arith, eq_iff s gmail_send_scope), only_allowed-AllSend scopes (ground arith))

validate_scopes-AllSend :
    (scopes : List String) {u : Unit {0}} → validate_scopes scopes ≡ ok u → AllSend scopes
unfolding validate_scopes
validate_scopes-AllSend [] h = tt
validate_scopes-AllSend (s ∷ scopes) h = only_allowed-AllSend (s ∷ scopes) (ground arith)

pub validate_request-AllSend :
    (lib : Library) (r : AuthorizationRequest) {u : Unit {0}}
    → validate_request lib r ≡ ok u
    → AllSend r.scopes
unfolding validate_request
validate_request-AllSend lib r h =
    elim (Result-cases (validate_loopback_redirect lib r.redirect_uri)) [
      | inl (u, local) ↦ validate_scopes-AllSend r.scopes (rw local at h)
      | inr (e, routable) ↦ absurd (ground (arith, routable, h))
    ]

-- A callback that is accepted carries the issued state, no error, and a code.
pub record IsCallback (captured : Dict String) (state code : String) : Type 0 where
  pub is_issued : lookup "state" captured ≡ some state
  pub is_drawn : state ≢ ""
  pub is_granted : (lookup "error" captured ≡ none) ⊎ (lookup "error" captured ≡ some "")
  pub has_code : lookup "code" captured ≡ some code
  pub is_code : code ≢ ""

pub extract_ok :
    (captured : Dict String) (state : String) {code : String}
    → extract_authorization_code captured state ≡ ok code
    → IsCallback captured state code
unfolding extract_authorization_code state_matches
extract_ok captured state {code} h = elim (Option-cases (lookup "state" captured)) [
  | inl missing ↦ absurd (ground (arith, missing, h))
  | inr (received, present) ↦ record {
    is_issued = ground (arith, present, h, eq_iff state received);
    is_drawn = λ empty. ground (arith, present, h, eq_iff state "", empty);
    is_granted = elim (Option-cases (lookup "error" captured)) [
      | inl fine ↦ inl fine
      | inr (e, refused) ↦
          inr (refused ∙ ap some (ground (arith, present, h, refused, eq_iff e "")))
    ];
    has_code = ground (arith, present, h);
    is_code = λ empty. ground (arith, present, h, eq_iff code "", empty);
  }
]

pub build_ok :
    (lib : Library) (x : Exchange) {r : FormRequest}
    → build_token_exchange_request lib x ≡ ok r
    → (r ≡ record { endpoint = x.token_endpoint; body = exchange_body x })
      × (is_verifier x.code_verifier ≡ true)
unfolding build_token_exchange_request
build_ok lib x h = ground arith

captured_first : (k : String) (pairs : Dict String) → lookup k (capture pairs []) ≡ lookup k pairs
unfolding first_of lookup
captured_first k pairs = lookup-capture k pairs []

pub captured-IsCallback :
    (pairs : Dict String) (state code : String)
    → IsCallback (capture pairs []) state code
    → IsCallback pairs state code
captured-IsCallback pairs state code cb = record {
  is_issued = sym (captured_first "state" pairs) ∙ cb.is_issued;
  is_drawn = cb.is_drawn;
  is_granted = elim cb.is_granted [
    | inl fine ↦ inl (sym (captured_first "error" pairs) ∙ fine)
    | inr empty ↦ inr (sym (captured_first "error" pairs) ∙ empty)
  ];
  has_code = sym (captured_first "code" pairs) ∙ cb.has_code;
  is_code = cb.is_code;
}

module _ (web : Web) where
  -- One of the paths that were served is the callback, with these pairs in its query.
  pub data IsServed (callback_path : String) (pairs : Dict String) : List String → Type 0 where
    here :
        {query hit : String} {hits : List String}
        → web.split_path hit ≡ some (callback_path, query)
        → pairs ≡ web.parse_qsl query
        → IsServed callback_path pairs (hit ∷ hits)
    there :
        {hit : String} {hits : List String}
        → IsServed callback_path pairs hits
        → IsServed callback_path pairs (hit ∷ hits)

  pub served_cases :
      (callback_path : String) (hits : List String) (before : Option (Dict String))
      {captured : Dict String}
      → served web callback_path hits before ≡ some captured
      → (before ≡ some captured)
        ⊎ ((pairs : Dict String) × IsServed callback_path pairs hits
            × (captured ≡ capture pairs []))
  unfolding served
  served_cases callback_path [] before h = inl h
  served_cases callback_path (hit ∷ hits) before {captured} h =
      elim (served_cases callback_path hits (do_get web callback_path hit before) h) [
        | inr (pairs, later, e) ↦ inr (pairs, there later, e)
        | inl now ↦ elim (Option-cases (web.split_path hit)) [
          | inl unread ↦ inl (ground (arith, now, unread))
          | inr ((path, query), split) ↦ elim (Bool-cases (path == callback_path)) [
            | inl same ↦ inr (
              web.parse_qsl query,
              here (split ∙ ap (λ p. some (p, query)) ((eq_iff path callback_path).0 same)) refl,
              ground (arith, now, split, same),
            )
            | inr other ↦ inl (ground (arith, now, split, other))
          ]
        ]
      ]
