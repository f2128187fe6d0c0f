-- ===== src/Gateway/TokenRevoke/Truthful.antt =====
-- gateway/token_revoke.py: what the outcome of a revocation says of the wire.
use gmail_b1_gateway.Prelude.{
  ℕ, String, ◌≡◌, ◌⊎◌, ◌↔◌, inl, inr, refl, ap, eq_iff, false, ◌==◌, Option, none, some, [], ◌∷◌,
  ◌++◌, arith, Bool-cases, leb, ltb, ◌&&◌, if◌then◌else◌,
}
use gmail_b1_gateway.Json.{Value, Fields, null, str, end, field, member}
use gmail_b1_gateway.Errors.{Result, ok, err, Result-cases}
use gmail_b1_gateway.Keystore.Providers.{Bytes}
use gmail_b1_gateway.Oauth.Requests.{FormRequest, build_revoke_token_request}
use gmail_b1_gateway.Gateway.Egress.{
  Wire, Reply, answered, timed_out, broken, crashed, Posted, responded, egress_blocked, timeout,
  transport_error, other_error, posted,
}
use gmail_b1_gateway.Gateway.Egress.Cases.{IsTaken, IsRefused, IsAllowed, IsUnsent, post-Posts}
use gmail_b1_gateway.Gateway.OauthListener.{Web, form_request}
use gmail_b1_gateway.Gateway.TokenRevoke.{
  RevokeOutcome, confirmed, failed, unknown, RevokeResult, TokenRevoker, classify, result_of,
  truthy_text, token_to_revoke, revoke, revoke_token, disconnect_revoke, evidence,
}

-- A member that counts as no token: missing, null or the empty text.
pub data IsFalsy : Option Value → Type 0 where
  missing : IsFalsy none
  is_null : IsFalsy (some null)
  empty : IsFalsy (some (str ""))

-- The refresh token where the record has one, and otherwise the access token.
pub data IsChosen (credentials : Fields) (token : String) : Type 0 where
  whole_grant :
      member "refresh_token" credentials ≡ some (str token)
      → (token == "") ≡ false
      → IsChosen credentials token
  access_only :
      IsFalsy (member "refresh_token" credentials)
      → member "access_token" credentials ≡ some (str token)
      → (token == "") ≡ false
      → IsChosen credentials token

truthy_text_ok :
    (v : Option Value) {s : String}
    → truthy_text v ≡ ok (some s)
    → (v ≡ some (str s)) × ((s == "") ≡ false)
truthy_text_ok (some (str t)) {s} h = elim (Bool-cases (t == "")) [
  | inl e ↦ absurd (ground (arith, e, h))
  | inr e ↦ let same : t ≡ s = ground (arith, e, h) in (ap (λ x. some (str x)) same, rw same at e)
]
truthy_text_ok _ h = absurd (cc)

truthy_text-IsFalsy : (v : Option Value) → truthy_text v ≡ ok none → IsFalsy v
truthy_text-IsFalsy none h = IsFalsy.missing
truthy_text-IsFalsy (some null) h = IsFalsy.is_null
truthy_text-IsFalsy (some (str t)) h = elim (Bool-cases (t == "")) [
  | inl e ↦ rw ((eq_iff t "").0 e) IsFalsy.empty
  | inr e ↦ absurd (ground (arith, e, h))
]
truthy_text-IsFalsy _ h = absurd (cc)

token_to_revoke-IsChosen :
    (credentials : Fields) {token : String}
    → token_to_revoke credentials ≡ ok (some token)
    → IsChosen credentials token
unfolding token_to_revoke
token_to_revoke-IsChosen credentials {token} h =
    elim (Result-cases (truthy_text (member "refresh_token" credentials))) [
      | inr (e, bad) ↦ absurd (ground (arith, bad, h))
      | inl (some t, has) ↦
          let (at, full) = truthy_text_ok (member "refresh_token" credentials) has in
          let same : t ≡ token = ground (arith, has, h) in
          IsChosen.whole_grant (rw same at at) (rw same at full)
      | inl (none, lacks) ↦
          let (at, full) =
            truthy_text_ok (member "access_token" credentials) {s = token}
              (ground (arith, lacks, h)) in
          IsChosen.access_only (truthy_text-IsFalsy (member "refresh_token" credentials) lacks) at
            full
    ]

-- The outcome that is reported; an exception reports none.
abbrev outcome_of : Result (RevokeOutcome × String) → RevokeOutcome
outcome_of (ok (outcome, evidence)) = outcome
outcome_of (err e) = unknown

abbrev outcome_of_result : Result RevokeResult → RevokeOutcome
outcome_of_result (ok r) = r.outcome
outcome_of_result (err e) = unknown

-- Confirmed says that the provider accepted, failed that it refused.
abbrev IsTold : Reply → RevokeOutcome → Type 0
IsTold a outcome = ((outcome ≡ confirmed) ↔ IsTaken a) × ((outcome ≡ failed) ↔ IsRefused a)

classify_outcome :
    (status : ℕ) (body : Bytes) (host : String)
    → (classify (record { status = status; body = body; host = host })).outcome ≡ (
        if leb 200 status && ltb status 300
        then confirmed
        else if leb 400 status && ltb status 500
        then failed
        else unknown)
unfolding classify
classify_outcome status body host = elim (Bool-cases (leb 200 status && ltb status 300)) [
  | inl a ↦ rw a refl
  | inr a ↦ rw a (elim (Bool-cases (leb 400 status && ltb status 500)) [
    | inl b ↦ rw b refl
    | inr b ↦ rw b refl
  ])
]

unanswered : IsTold timed_out unknown
unanswered = (
  (λ k. absurd (ground (arith, k)), λ t. absurd t),
  (λ k. absurd (ground (arith, k)), λ t. absurd t),
)

answered-IsTold :
    (status : ℕ) (body : Bytes) (host : String)
    → IsTold
        (answered status body)
        (classify (record { status = status; body = body; host = host })).outcome
answered-IsTold status body host = rw (classify_outcome status body host) (
  (λ e. ground (arith, e), λ t. ground (arith, t)),
  (λ e. ground (arith, e), λ t. ground (arith, t)),
)

posted-IsTold :
    (host : String) (a : Reply) → IsTold a (outcome_of_result (result_of (posted host a)))
unfolding result_of
posted-IsTold host (answered status body) = answered-IsTold status body host
posted-IsTold host timed_out = unanswered
posted-IsTold host broken = unanswered
posted-IsTold host crashed = unanswered

unsent-eq-unknown : (p : Posted) → IsUnsent p → outcome_of_result (result_of p) ≡ unknown
unfolding result_of
unsent-eq-unknown (egress_blocked host reason) u = refl
unsent-eq-unknown other_error u = refl
unsent-eq-unknown (responded resp) u = absurd u
unsent-eq-unknown timeout u = absurd u
unsent-eq-unknown transport_error u = absurd u

module _ (web : Web) (v : TokenRevoker) where
  abbrev form_of : String → FormRequest
  form_of token = record { endpoint = v.endpoint; body = field "token" (str token) end }

  -- One call of the transport, with the token alone.
  abbrev IsAsked : String → Wire → RevokeOutcome → Wire → Type 0
  IsAsked token wire outcome wire' =
      ((host : String) × IsAllowed web.net v.client v.endpoint host)
      × (wire' ≡ wire ++ form_request web (form_of token) ∷ [])
      × IsTold (web.net.transport wire (form_request web (form_of token))) outcome

  abbrev pub RevokeTold : Fields → Wire → Result (RevokeOutcome × String) × Wire → Type 0
  RevokeTold credentials wire (r, wire') =
      ((outcome_of r ≡ unknown) × (wire' ≡ wire))
      ⊎ ((token : String) × IsChosen credentials token × IsAsked token wire (outcome_of r) wire')

  build_ok :
      (token : String) {r : FormRequest}
      → build_revoke_token_request token v.endpoint ≡ ok r
      → r ≡ form_of token
  unfolding build_revoke_token_request
  build_ok token h = ground (arith, h)

  revoke_cases :
      (token : String) (wire : Wire)
      → let (r, wire') = revoke web v token wire in
        ((outcome_of_result r ≡ unknown) × (wire' ≡ wire))
        ⊎ IsAsked token wire (outcome_of_result r) wire'
  unfolding revoke
  revoke_cases token wire = elim (Result-cases (build_revoke_token_request token v.endpoint)) [
    | inr (e, unbuilt) ↦ rw unbuilt (inl (refl, refl))
    | inl (r, built) ↦ rw built (
        rw (build_ok token built)
          (elim (post-Posts web.net v.client (form_request web (form_of token)) wire) [
            | inl (unsent, quiet) ↦ inl (unsent-eq-unknown _ unsent, quiet)
            | inr (host, at_host, one, e) ↦ inr (
              (host, at_host),
              one,
              rw e (posted-IsTold host (web.net.transport wire (form_request web (form_of token)))),
            )
          ]))
  ]

  evidence-outcome : (r : Result RevokeResult) → outcome_of (evidence r) ≡ outcome_of_result r
  evidence-outcome (ok r) = refl
  evidence-outcome (err e) = refl

  token_cases :
      (credentials : Fields) (wire : Wire) (r : Result (Option String))
      → token_to_revoke credentials ≡ r
      → RevokeTold credentials wire (revoke_token web v r wire)
  token_cases credentials wire (err e) h = inl (refl, refl)
  token_cases credentials wire (ok none) h = inl (refl, refl)
  token_cases credentials wire (ok (some token)) h =
      rw (evidence-outcome (revoke web v token wire).0) (elim (revoke_cases token wire) [
        | inl quiet ↦ inl quiet
        | inr asked ↦ inr (token, token_to_revoke-IsChosen credentials h, asked)
      ])

  -- Disconnect's revocation, whatever the record and the network: either nothing is sent, and the
  -- outcome is unknown; or one request is sent, to the https endpoint at an allowed host, with the record's refresh token, or its
  -- access token where the refresh token is missing, null or empty, and nothing else in its form, and
  -- then the outcome is confirmed exactly when the reply's status is from 200 to 299, and failed
  -- exactly when it is from 400 to 499. An exception counts as unknown.
  pub revoke_truthful :
      (credentials : Fields) (wire : Wire)
      → RevokeTold credentials wire (disconnect_revoke web v credentials wire)
  unfolding disconnect_revoke
  revoke_truthful credentials wire = token_cases credentials wire (token_to_revoke credentials) refl
