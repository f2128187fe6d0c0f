-- ===== src/Gateway/GmailSender/Truthful.antt =====
-- gateway/gmail_sender.py and gateway/egress.py: what a result of the sender says of the wire.
use gmail_b1_gateway.Prelude.{
  ℕ, String, ◌≡◌, ◌≢◌, ◌⊎◌, ◌↔◌, inl, inr, refl, Option, none, some, [], ◌∷◌, ◌++◌, arith,
  Bool-cases, leb, ltb, ◌&&◌, if◌then◌else◌,
}
use gmail_b1_gateway.Keystore.Providers.{Bytes}
use gmail_b1_gateway.Errors.{ok, Result-cases}
use gmail_b1_gateway.Canonicalizer.{Canonical, enforce_v1_send_policy}
use gmail_b1_gateway.Store.Record.{ProposalStatus, sent, failed, outcome_unknown}
use gmail_b1_gateway.SendFsm.{settled_status, SendResult}
use gmail_b1_gateway.Gateway.Egress.{
  HttpRequest, Wire, Reply, answered, timed_out, broken, crashed, Network, Posted, posted,
  responded, timeout, transport_error, egress_blocked, other_error,
}
use gmail_b1_gateway.Gateway.Egress.Cases.{IsTaken, IsRefused, IsAllowed, IsUnsent, post-Posts}
use gmail_b1_gateway.Gateway.GmailSender.{
  Codecs, GmailSender, Token, access_token, oauth_error, raised, request_body, result_of,
  request_of, send, classify, with_token, send_rendered, send_checked, send_found,
}

-- A status that says what the reply was.
abbrev IsTold : Reply → ProposalStatus → Type 0
IsTold a status = ((status ≡ sent) ↔ IsTaken a) × ((status ≡ failed) ↔ IsRefused a)

unanswered : IsTold timed_out outcome_unknown
unanswered = (
  (λ k. absurd (ground (arith, k)), λ t. absurd t),
  (λ k. absurd (ground (arith, k)), λ t. absurd t),
)

failed_unsent : failed ≢ sent
failed_unsent k = absurd (ground (arith, k))

unknown_unsent : outcome_unknown ≢ sent
unknown_unsent k = absurd (ground (arith, k))

module _ (lib : Codecs) where
  settled_classify :
      (status : ℕ) (body : Bytes) (host : String)
      → settled_status (some (classify lib (record { status = status; body = body; host = host })))
        ≡ (if leb 200 status && ltb status 300
            then sent
            else if leb 400 status && ltb status 500
            then failed
            else outcome_unknown)
  unfolding settled_status classify
  settled_classify status body host = elim (Bool-cases (leb 200 status && ltb status 300)) [
    | inl a ↦ rw a refl
    | inr a ↦ rw a (elim (Bool-cases (leb 400 status && ltb status 500)) [
      | inl b ↦ rw b refl
      | inr b ↦ rw b refl
    ])
  ]

  answered-IsTold :
      (status : ℕ) (body : Bytes) (host : String)
      → IsTold (answered status body) (
          settled_status
            (some (classify lib (record { status = status; body = body; host = host }))))
  answered-IsTold status body host = rw (settled_classify status body host) (
    (λ e. ground (arith, e), λ t. ground (arith, t)),
    (λ e. ground (arith, e), λ t. ground (arith, t)),
  )

  posted-IsTold :
      (host : String) (a : Reply) → IsTold a (settled_status (result_of lib (posted host a)))
  unfolding result_of settled_status
  posted-IsTold host (answered status body) = answered-IsTold status body host
  posted-IsTold host timed_out = unanswered
  posted-IsTold host broken = unanswered
  posted-IsTold host crashed = unanswered

  unsent-ne-sent : (p : Posted) → IsUnsent p → settled_status (result_of lib p) ≢ sent
  unfolding settled_status result_of
  unsent-ne-sent (egress_blocked host reason) u = failed_unsent
  unsent-ne-sent other_error u = unknown_unsent
  unsent-ne-sent (responded resp) u = absurd u
  unsent-ne-sent timeout u = absurd u
  unsent-ne-sent transport_error u = absurd u

  module _ (net : Network) where
    module _ (sender : GmailSender) (proposal_id : String) where
      -- One call on the wire, that carries the stored payload, which the policy admits.
      abbrev IsCall : HttpRequest → Type 0
      IsCall request =
          (c : Canonical) × (sender.payload_provider proposal_id ≡ some c)
          × (enforce_v1_send_policy c ≡ ok tt)
          × (request_body lib c ≡ some request.body)
          × (request.url ≡ sender.url)

      abbrev pub Told : Wire → Option SendResult × Wire → Type 0
      Told wire (r, wire') =
          ((wire' ≡ wire) × (settled_status r ≢ sent))
          ⊎ ((request : HttpRequest) × IsCall request
              × ((host : String) × IsAllowed net sender.client sender.url host)
              × (wire' ≡ wire ++ request ∷ [])
              × IsTold (net.transport wire request) (settled_status r))

      token-Told :
          (c : Canonical) (body : Bytes) (wire : Wire) (t : Token)
          → sender.payload_provider proposal_id ≡ some c
          → enforce_v1_send_policy c ≡ ok tt
          → request_body lib c ≡ some body
          → Told wire (with_token lib net sender body t wire)
      unfolding settled_status request_of
      token-Told c body wire oauth_error stored allowed rendered = inl (refl, failed_unsent)
      token-Told c body wire raised stored allowed rendered = inl (refl, unknown_unsent)
      token-Told c body wire (access_token token) stored allowed rendered =
          let request = request_of sender.url token body in
          elim (post-Posts net sender.client request wire) [
            | inl (unsent, same) ↦ inl (same, unsent-ne-sent _ unsent)
            | inr (host, at_host, one, e) ↦ inr (
              request,
              (c, stored, allowed, rendered, refl),
              (host, at_host),
              one,
              rw e (posted-IsTold host (net.transport wire request)),
            )
          ]

      rendered-Told :
          (c : Canonical) (wire : Wire) (o : Option Bytes)
          → sender.payload_provider proposal_id ≡ some c
          → enforce_v1_send_policy c ≡ ok tt
          → request_body lib c ≡ o
          → Told wire (send_rendered lib net sender o wire)
      unfolding settled_status
      rendered-Told c wire none stored allowed rendered = inl (refl, unknown_unsent)
      rendered-Told c wire (some body) stored allowed rendered =
          token-Told c body wire (sender.token_provider wire) stored allowed rendered

      checked-Told :
          (c : Canonical) (wire : Wire)
          → sender.payload_provider proposal_id ≡ some c
          → Told wire (send_checked lib net sender c (enforce_v1_send_policy c) wire)
      unfolding settled_status
      checked-Told c wire stored = elim (Result-cases (enforce_v1_send_policy c)) [
        | inl (tt, allowed) ↦
            rw allowed (rendered-Told c wire (request_body lib c) stored allowed refl)
        | inr (x, refused) ↦ rw refused (inl (refl, failed_unsent))
      ]

      found-Told :
          (wire : Wire) (o : Option Canonical)
          → sender.payload_provider proposal_id ≡ o
          → Told wire (send_found lib net sender o wire)
      unfolding settled_status
      found-Told wire none stored = inl (refl, unknown_unsent)
      found-Told wire (some c) stored = checked-Told c wire stored

      -- A call of the sender, whatever its payload, its token, the network and the allow-list, ends
      -- in one of two ways. Either the transport is not called, and the state machine does not settle in
      -- sent. Or the transport is called once, at the sender's https address of an allowed
      -- host, with the rendered message of the proposal's stored payload, which the version 1 policy admits; and
      -- then the state machine settles in sent exactly when the reply's status is from 200 to 299, in failed exactly when it
      -- is from 400 to 499, and so with no reply or any other status in neither.
      pub send_truthful : (wire : Wire) → Told wire (send lib net sender proposal_id wire)
      unfolding send
      send_truthful wire = found-Told wire (sender.payload_provider proposal_id) refl
