-- ===== src/Authz/Gate/Authentic.antt =====
-- authz/gate.py: what is signed by whom, in terms of the signatures themselves, and that the checks of the
-- gate give it.
use gmail_b1_gateway.Prelude.{
  subst, String, ◌≡◌, ◌≢◌, ◌⊎◌, inl, inr, refl, true, false, Option, none, some, List, [], ◌∷◌,
  ◌++◌, arith, ℤ, ◌-ℤ◌, ◌≤ℤ◌, elem, eq_iff, ◌==◌, ◌&&◌, Option-cases, Bool-cases,
}
use gmail_b1_gateway.Json.{Value, Fields, Items, nil, cons, obj}
use gmail_b1_gateway.Errors.{ok, err}
use gmail_b1_gateway.Keystore.Providers.{Bytes}
use gmail_b1_gateway.Canonicalizer.Jcs.{canonicalize}
use gmail_b1_gateway.Authz.Artifact.{
  Parsed, valid, malformed, Envelope, signing_input, parse_envelope,
}
use gmail_b1_gateway.Authz.Grant.{Grant, Subject, os_account, agent_key, parse_grant_body}
use gmail_b1_gateway.Authz.State.{
  VerifiedHead, membership, active, lists_pair, parse_sync_envelope, parse_head_body,
  parse_revocation_body,
}
use gmail_b1_gateway.Authz.Service.{
  request_freshness_seconds, PeerIdentity, AuthorizationRequest, request_binding, Decision,
  decision_body, decision_domain, verify_decision_sig,
}
use gmail_b1_gateway.Authz.Gate.{Anchors}
use gmail_b1_gateway.Authz.Gate.Checks.{
  Checked, check_bind, verified, verify_revocations, read_head, verify_grant, check_subject,
  is_peer, agent_signed, after_signature, digest_of,
}

-- The pair is in the list.
abbrev pub IsListed : String → String → List (String × String) → Type 0
IsListed g v [] = ⊥
IsListed g v ((h, w) ∷ pairs) = ((h ≡ g) × (w ≡ v)) ⊎ IsListed g v pairs

-- No element of the list is this one.
abbrev pub IsAbsent : String → List String → Type 0
IsAbsent g [] = Unit
IsAbsent g (h ∷ hs) = (h ≢ g) × IsAbsent g hs

module _ (gate : Anchors) where
  -- The user root signed the body under its artifact type.
  pub record IsSigned (wanted : String) (e : Envelope) : Type 0 where
    pub message : Bytes
    pub typed : e.artifact_type ≡ wanted
    pub input : signing_input gate.prim wanted e.body ≡ some message
    pub verifies : gate.prim.verify gate.user_root message e.sig ≡ true

  -- Each of the revocations is signed, and revokes the grant of its place in the list.
  abbrev pub AreSigned : Items → List String → Type 0
  AreSigned nil [] = Unit
  AreSigned (cons v vs) (g ∷ gs) =
      ((e : Envelope) × (parse_envelope gate.prim v ≡ valid e)
        × IsSigned "authz_revocation" e
        × (parse_revocation_body e.body ≡ valid g))
      × AreSigned vs gs
  AreSigned _ _ = ⊥

  -- The shipped head is signed, and so are the revocations beside it.
  pub record IsSignedHead (env : Value) (head : VerifiedHead) : Type 0 where
    pub head_env : Fields
    pub revocations : Items
    pub e : Envelope
    pub text : Bytes
    pub splits : parse_sync_envelope env ≡ valid (head_env, revocations)
    pub parses : parse_envelope gate.prim (obj head_env) ≡ valid e
    pub signed : IsSigned "authz_state" e
    pub reads : parse_head_body e.body ≡ valid (head.state_version, head.active_grants)
    pub seen : AreSigned revocations head.seen_revocations
    pub written : canonicalize (obj e.body) ≡ some text
    pub digest : head.digest ≡ gate.prim.sha256_hex text

  -- The request's grant is signed, and from the pinned issuer.
  pub record IsIssued (request : AuthorizationRequest) (grant : Grant) : Type 0 where
    pub e : Envelope
    pub parses : parse_envelope gate.prim request.grant_envelope ≡ valid e
    pub signed : IsSigned "grant" e
    pub reads : parse_grant_body gate.prim e.body ≡ valid grant
    pub pinned : grant.issuer_fp ≡ gate.pinned_issuer_fp

  -- An agent's key signed the request for this grant, lately and for this channel.
  pub record IsAgentSigned (request : AuthorizationRequest) (now : ℤ) (grant_id key : String)
      : Type 0 where
    pub sig : Bytes
    pub raw : Bytes
    pub message : Bytes
    pub has_sig : request.agent_sig ≡ some sig
    pub decodes : gate.prim.fromhex key ≡ some raw
    pub is_key : gate.prim.is_public_key raw ≡ true
    pub written : canonicalize (obj (request_binding grant_id request)) ≡ some message
    pub verifies : gate.prim.verify raw message sig ≡ true
    pub not_old : now -ℤ request.issued_at ≤ℤ request_freshness_seconds
    pub not_ahead : request.issued_at -ℤ now ≤ℤ request_freshness_seconds
    pub in_channel : request.channel_binding ≡ gate.channel_challenge

  -- The subject is the peer at the other end, or the holder of the agent's key.
  abbrev pub IsProven : AuthorizationRequest → ℤ → Option PeerIdentity → String → Subject → Type 0
  IsProven request now peer grant_id (os_account machine_id account) =
      peer ≡ some (record { machine_id = machine_id; account = account })
  IsProven request now peer grant_id (agent_key key slug) = IsAgentSigned request now grant_id key

  -- The cloud's key signed the decision.
  pub record IsDecided (d : Decision) : Type 0 where
    pub text : Bytes
    pub written : canonicalize (obj (decision_body d)) ≡ some text
    pub verifies : gate.prim.verify gate.decision_key (decision_domain ++ text) d.sig ≡ true

check_bind_ok :
    {A B : Type 0} (r : Checked A) (f : A → Checked B) {b : B}
    → check_bind r f ≡ ok (valid b)
    → (a : A) × (r ≡ ok (valid a)) × (f a ≡ ok (valid b))
check_bind_ok (ok (valid a)) f h = (a, refl, h)
check_bind_ok (ok (malformed d)) f h = absurd (cc)
check_bind_ok (err e) f h = absurd (cc)

valid_of :
    {A : Type 0} {r : Parsed A} {a : A} → ◌≡◌ {A = Checked A} (ok r) (ok (valid a)) → r ≡ valid a
valid_of h = cc

valid_injective : {A : Type 0} {a b : A} → ◌≡◌ {A = Checked A} (ok (valid a)) (ok (valid b)) → a ≡ b
valid_injective h = cc

lists_pair-IsListed :
    (g v : String) (pairs : List (String × String))
    → lists_pair g v pairs ≡ true
    → IsListed g v pairs
lists_pair-IsListed g v [] h = absurd (cc)
lists_pair-IsListed g v ((a, b) ∷ pairs) h = elim (Bool-cases (a == g && b == v)) [
  | inl here ↦ inl (ground (arith, here, eq_iff a g), ground (arith, here, eq_iff b v))
  | inr elsewhere ↦ inr (lists_pair-IsListed g v pairs (ground (arith, elsewhere, h)))
]

elem-IsAbsent : (g : String) (hs : List String) → elem g hs ≡ false → IsAbsent g hs
elem-IsAbsent g [] h = tt
elem-IsAbsent g (a ∷ hs) h =
    (λ e. absurd (ground (arith, h, e, eq_iff a g)), elem-IsAbsent g hs (ground (arith, h)))

pub membership_active :
    (head : VerifiedHead) (g v : String)
    → membership head g v ≡ active
    → IsListed g v head.active_grants × IsAbsent g head.seen_revocations
unfolding membership
membership_active head g v h = (
  lists_pair-IsListed g v head.active_grants (ground (arith, h)),
  elem-IsAbsent g head.seen_revocations (ground (arith, h)),
)

module _ (gate : Anchors) where
  verified_ok :
      (wanted : String) (e : Envelope) {u : Unit {0}}
      → verified gate wanted e ≡ ok (valid u)
      → IsSigned gate wanted e
  unfolding verified
  verified_ok wanted e h = elim (Option-cases (signing_input gate.prim wanted e.body)) [
    | inl unwritten ↦ absurd (ground (arith, h, unwritten))
    | inr (message, input) ↦ record {
      message = message;
      typed = ground (arith, h, eq_iff e.artifact_type wanted);
      input = input;
      verifies = ground (arith, h, input);
    }
  ]

  verify_revocations_ok :
      (items : Items) (ids : List String)
      → verify_revocations gate items ≡ ok (valid ids)
      → AreSigned gate items ids
  unfolding verify_revocations
  verify_revocations_ok nil [] h = tt
  verify_revocations_ok nil (g ∷ gs) h = absurd (cc)
  verify_revocations_ok (cons v vs) ids h =
      let (e, parses, h₁) = check_bind_ok (ok (parse_envelope gate.prim v)) _ h in
      let (u, signed, h₂) = check_bind_ok (verified gate "authz_revocation" e) _ h₁ in
      let (g, reads, h₃) = check_bind_ok (ok (parse_revocation_body e.body)) _ h₂ in
      let (gs, others, h₄) = check_bind_ok (verify_revocations gate vs) _ h₃ in
      let same : g ∷ gs ≡ ids = valid_injective h₄ in
      subst (λ x. AreSigned gate (cons v vs) x) same
        (
          (e, valid_of parses, verified_ok "authz_revocation" e signed, valid_of reads),
          verify_revocations_ok vs gs others,
        )

  pub read_head_ok :
      (env : Value) {head : VerifiedHead}
      → read_head gate env ≡ ok (valid head)
      → IsSignedHead gate env head
  unfolding read_head
  read_head_ok env {head} h =
      let ((head_env, revocations), splits, h₁) =
        check_bind_ok (ok (parse_sync_envelope env)) _ h in
      let (e, parses, h₂) = check_bind_ok (ok (parse_envelope gate.prim (obj head_env))) _ h₁ in
      let (u, signed, h₃) = check_bind_ok (verified gate "authz_state" e) _ h₂ in
      let ((sv, pairs), reads, h₄) = check_bind_ok (ok (parse_head_body e.body)) _ h₃ in
      let (seen, revoked, h₅) = check_bind_ok (verify_revocations gate revocations) _ h₄ in
      let (digest, digested, h₆) = check_bind_ok (digest_of gate e.body) _ h₅ in
      let same = valid_injective h₆ in
      subst (λ x. IsSignedHead gate env x) same
        (elim (Option-cases (canonicalize (obj e.body))) [
          | inl unwritten ↦ absurd (ground (arith, unwritten, digested))
          | inr (text, written) ↦ record {
            head_env = head_env;
            revocations = revocations;
            e = e;
            text = text;
            splits = valid_of splits;
            parses = valid_of parses;
            signed = verified_ok "authz_state" e signed;
            reads = valid_of reads;
            seen = verify_revocations_ok revocations seen revoked;
            written = written;
            digest = ground (arith, written, digested);
          }
        ])

  pub verify_grant_ok :
      (request : AuthorizationRequest) {grant : Grant}
      → verify_grant gate request ≡ ok (valid grant)
      → IsIssued gate request grant
  unfolding verify_grant
  verify_grant_ok request {grant} h =
      let (e, parses, h₁) =
        check_bind_ok (ok (parse_envelope gate.prim request.grant_envelope)) _ h in
      let (u, signed, h₂) = check_bind_ok (verified gate "grant" e) _ h₁ in
      let (g, reads, h₃) = check_bind_ok (ok (parse_grant_body gate.prim e.body)) _ h₂ in
      elim (Bool-cases (g.issuer_fp == gate.pinned_issuer_fp)) [
        | inr foreign ↦ absurd (ground (arith, foreign, h₃))
        | inl pinned ↦
            let same : g ≡ grant = ground (arith, pinned, h₃) in
            subst (λ x. IsIssued gate request x) same
              (record {
                e = e;
                parses = valid_of parses;
                signed = verified_ok "grant" e signed;
                reads = valid_of reads;
                pinned = (eq_iff g.issuer_fp gate.pinned_issuer_fp).0 pinned;
              })
      ]

  agent_ok :
      (request : AuthorizationRequest) (now : ℤ) (grant_id key : String)
      → after_signature gate (agent_signed gate key request grant_id) request now ≡ ok none
      → IsAgentSigned gate request now grant_id key
  agent_ok request now grant_id key h = elim (Option-cases request.agent_sig) [
    | inl unsigned ↦ absurd (ground (arith, h, unsigned))
    | inr (sig, has_sig) ↦ elim (Option-cases (gate.prim.fromhex key)) [
      | inl undecoded ↦ absurd (ground (arith, h, has_sig, undecoded))
      | inr (raw, decodes) ↦
          elim (Option-cases (canonicalize (obj (request_binding grant_id request)))) [
            | inl unwritten ↦ absurd (ground (arith, h, has_sig, decodes, unwritten))
            | inr (message, written) ↦ record {
              sig = sig;
              raw = raw;
              message = message;
              has_sig = has_sig;
              decodes = decodes;
              is_key = ground (arith, h, has_sig, decodes, written);
              written = written;
              verifies = ground (arith, h, has_sig, decodes, written);
              not_old = ground (arith, h, has_sig, decodes, written);
              not_ahead = ground (arith, h, has_sig, decodes, written);
              in_channel = ground (
                arith,
                h,
                has_sig,
                decodes,
                written,
                eq_iff request.channel_binding gate.channel_challenge,
              );
            }
          ]
    ]
  ]

  peer_ok :
      (machine_id account : String) (peer : Option PeerIdentity)
      → is_peer gate machine_id account peer ≡ true
      → peer ≡ some (record { machine_id = machine_id; account = account })
  peer_ok machine_id account none h = absurd (cc)
  peer_ok machine_id account (some peer) h =
      let machine : peer.machine_id ≡ machine_id =
        ground (arith, h, eq_iff peer.machine_id machine_id) in
      let user : peer.account ≡ account = ground (arith, h, eq_iff peer.account account) in
      cc (machine, user)

  subject_ok :
      (request : AuthorizationRequest) (now : ℤ) (peer : Option PeerIdentity) (grant : Grant)
      (subject : Subject)
      → grant.subject ≡ subject
      → check_subject gate request now peer grant ≡ ok none
      → IsProven gate request now peer grant.grant_id subject
  unfolding check_subject
  subject_ok request now peer grant (os_account machine_id account) at h =
      peer_ok machine_id account peer (ground (arith, at, h))
  subject_ok request now peer grant (agent_key key slug) at h =
      agent_ok request now grant.grant_id key (rw at at h)

  pub check_subject_ok :
      (request : AuthorizationRequest) (now : ℤ) (peer : Option PeerIdentity) (grant : Grant)
      → check_subject gate request now peer grant ≡ ok none
      → IsProven gate request now peer grant.grant_id grant.subject
  check_subject_ok request now peer grant h = subject_ok request now peer grant grant.subject refl h

  pub verify_decision_sig_ok :
      (d : Decision)
      → verify_decision_sig gate.prim gate.decision_key d ≡ some true
      → IsDecided gate d
  unfolding verify_decision_sig
  verify_decision_sig_ok d h = elim (Option-cases (canonicalize (obj (decision_body d)))) [
    | inl unwritten ↦ absurd (ground (arith, h, unwritten))
    | inr (text, written) ↦ record {
      text = text;
      written = written;
      verifies = ground (arith, h, written);
    }
  ]
