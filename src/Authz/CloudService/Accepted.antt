-- ===== src/Authz/CloudService/Accepted.antt =====
-- authz/service.py, authz/state.py and authz/gate.py: an honest cloud's decision passes the gate's checks.
use gmail_b1_gateway.Prelude.{
  String, ◌≡◌, refl, sym, ap, true, false, Option, none, some, ℤ, ◌-ℤ◌, ltb_ℤ, arith, ◌++◌, elem,
  [], ◌∷◌, ◌⊎◌, inl, inr, Option-cases,
}
use gmail_b1_gateway.Json.{Value, obj}
use gmail_b1_gateway.Errors.{ok}
use gmail_b1_gateway.Keystore.Providers.{Bytes}
use gmail_b1_gateway.Canonicalizer.Jcs.{canonicalize}
use gmail_b1_gateway.Authz.Reasons.{Detail}
use gmail_b1_gateway.Authz.Artifact.{Parsed, valid, malformed, parse_envelope}
use gmail_b1_gateway.Authz.Grant.{
  Grant, ApprovalMode, auto, per_call, Subject, os_account, agent_key, mode_value, kind_value,
  parse_grant_body,
}
use gmail_b1_gateway.Authz.State.{VerifiedHead}
use gmail_b1_gateway.Authz.Service.{
  authorized, needs_approval, response_deadline_ns, AuthorizationRequest, Decision, decision_body,
  decision_domain, verify_decision_sig,
}
use gmail_b1_gateway.Authz.Policy.{check_binding}
use gmail_b1_gateway.Authz.Policy.Exact.{AgreesWith, IsClosed, check_binding_iff}
use gmail_b1_gateway.Authz.Gate.{
  disposition_of, Safety, Anchors, Outside, answer, expected_binding, decided_at_in_hygiene_window,
}
use gmail_b1_gateway.Authz.Gate.Checks.{read_head, verified, verify_grant}
use gmail_b1_gateway.Authz.Gate.Authorize.{verify_decision}
use gmail_b1_gateway.Authz.ControlPlane.{HeadState, state_version, Signer, Relay, sync, head_digest}
use gmail_b1_gateway.Authz.ControlPlane.Emitted.{IsSigner}
use gmail_b1_gateway.Authz.ControlPlane.Synced.{IsWellFormed, synced_membership}
use gmail_b1_gateway.Authz.CloudService.{CloudService, unsigned, sign_decision, granted, decide}

-- What the gate expects is in its closed enumerations.
expected_binding-IsClosed :
    (request : AuthorizationRequest) (grant : Grant) (head : VerifiedHead) (digest : String)
    → IsClosed (expected_binding request grant head digest)
unfolding expected_binding
expected_binding-IsClosed request grant head digest = record {
  mode = by_mode grant.approval_mode;
  kind = by_kind grant.subject;
  outcome = by_outcome grant.approval_mode;
}
  where
    by_mode : (m : ApprovalMode) → elem (mode_value m) ("auto" ∷ "per_call" ∷ []) ≡ true
    by_mode auto = refl
    by_mode per_call = refl

    by_kind : (k : Subject) → elem (kind_value k) ("os_account" ∷ "agent_key" ∷ []) ≡ true
    by_kind (os_account m a) = refl
    by_kind (agent_key k s) = refl

    by_outcome :
        (m : ApprovalMode) → elem (disposition_of m) (authorized ∷ needs_approval ∷ []) ≡ true
    by_outcome auto = refl
    by_outcome per_call = refl

Parsed-cases :
    {A : Type 0} (r : Parsed A)
    → ((a : A) × (r ≡ valid a)) ⊎ ((d : Option Detail) × (r ≡ malformed d))
Parsed-cases (valid a) = inl (a, refl)
Parsed-cases (malformed d) = inr (d, refl)

module _ (gate : Anchors) (key : Signer) (cloud : CloudService) where
  verify_grant-granted :
      (request : AuthorizationRequest) {grant : Grant}
      → verify_grant gate request ≡ ok (valid grant)
      → granted gate.prim (parse_envelope gate.prim request.grant_envelope) ≡ valid grant
  unfolding verify_grant verified
  verify_grant-granted request h =
      elim (Parsed-cases (parse_envelope gate.prim request.grant_envelope)) [
        | inr (d, bad) ↦ absurd (ground (arith, bad, h))
        | inl (e, parses) ↦ elim (Parsed-cases (parse_grant_body gate.prim e.body)) [
          | inr (d, bad) ↦ absurd (ground (arith, parses, bad, h))
          | inl (grant', reads) ↦ ground (arith, parses, reads, h)
        ]
      ]

  -- Signed by the cloud's key, which verifies under the gate's.
  sign_decision_ok :
      (d : Decision) {e : Decision}
      → ((m : Bytes) → gate.prim.verify gate.decision_key m (cloud.sign m) ≡ true)
      → sign_decision gate.prim key cloud d ≡ answer e
      → (verify_decision_sig gate.prim gate.decision_key e ≡ some true)
        × (e ≡ record d { sig = e.sig })
  unfolding sign_decision verify_decision_sig decision_body
  sign_decision_ok d {e} law h = elim (Option-cases (canonicalize (obj (decision_body d)))) [
    | inl failed ↦ absurd (ground (arith, failed, h))
    | inr (text, made) ↦
        let message = decision_domain ++ text in
        let same : record d { sig = cloud.sign message } ≡ e = ground (arith, made, h) in
        rw⁻¹ same (ground (arith, made, law message), refl)
  ]

  -- What an honest cloud decides for a grant: its decision is signed, and made of the state and the grant.
  decide-unsigned :
      (st : HeadState) (request : AuthorizationRequest) (decision_id : String) (now : ℤ)
      {grant : Grant} {d : Decision} {digest : String}
      → ((m : Bytes) → gate.prim.verify gate.decision_key m (cloud.sign m) ≡ true)
      → verify_grant gate request ≡ ok (valid grant)
      → head_digest gate.prim key st ≡ some digest
      → decide gate.prim key cloud st request decision_id now ≡ answer d
      → (verify_decision_sig gate.prim gate.decision_key d ≡ some true)
        × (d ≡ record (unsigned st request grant digest decision_id now) { sig = d.sig })
  unfolding decide
  decide-unsigned st request decision_id now {grant} {d} {digest} law verifies digested h =
      let reads = verify_grant-granted request verifies in
      let signs : sign_decision gate.prim key cloud
            (unsigned st request grant digest decision_id now)
          ≡ answer d =
        ground (arith, reads, digested, h) in
      sign_decision_ok (unsigned st request grant digest decision_id now) law signs

unsigned-AgreesWith :
    (st : HeadState) (request : AuthorizationRequest) (grant : Grant) (head : VerifiedHead)
    (decision_id : String) (now : ℤ) (sig : Bytes)
    → head.state_version ≡ state_version st
    → AgreesWith
        (record (unsigned st request grant head.digest decision_id now) { sig = sig })
        (expected_binding request grant head request.action_digest)
unfolding unsigned expected_binding
unsigned-AgreesWith st request grant head decision_id now sig same = record {
  request_id = refl;
  action_digest = refl;
  authz_state_digest = refl;
  grant_id = refl;
  grant_version = refl;
  state_version = sym same;
  approval_mode = refl;
  subject_kind = refl;
  disposition = refl;
}

module _ (gate : Anchors) (key : Signer) (law : IsSigner gate key) (cloud : CloudService) where
  -- The decision of an honest cloud, over the same state that an honest relay shipped, passes every check of the
  -- gate against what the gate reads for itself of that state and of the grant: the
  -- signature, the nine bound fields, the window of its time and the deadline, where the
  -- clocks keep to both. Nothing is denied, and no state of the gate changes.
  pub decision_accepted :
      (st : HeadState) (relay : Relay) (request : AuthorizationRequest) (out : Outside)
      (decision_id : String) (now : ℤ) (s : Safety) {env : Value} {grant : Grant} {d : Decision}
      → ((m : Bytes) → gate.prim.verify gate.decision_key m (cloud.sign m) ≡ true)
      → IsWellFormed st
      → relay.withheld ≡ none
      → sync gate.prim key relay st ≡ some env
      → verify_grant gate request ≡ ok (valid grant)
      → decide gate.prim key cloud st request decision_id now ≡ answer d
      → decided_at_in_hygiene_window now out.now out.wall_verified ≡ true
      → ltb_ℤ response_deadline_ns (out.mono_response_verified -ℤ out.mono_sent) ≡ false
      → (head : VerifiedHead) × (read_head gate env ≡ ok (valid head))
        × (verify_decision gate request out grant
              (expected_binding request grant head request.action_digest)
              d
              s
            ≡ (ok tt, s))
  unfolding verify_decision unsigned
  decision_accepted st relay request out decision_id now s {env} {grant} {d} signs good honest
        synced verifies decides timely prompt =
      let (head, reads, versions, digested, _) =
        synced_membership gate key law st relay good honest synced in
      let (signed, made) =
        decide-unsigned gate key cloud st request decision_id now signs verifies digested decides in
      let expected = expected_binding request grant head request.action_digest in
      let agrees = unsigned-AgreesWith st request grant head decision_id now d.sig versions in
      let bound : check_binding d expected ≡ none = rw made (
        (check_binding_iff _ expected
            (expected_binding-IsClosed request grant head request.action_digest)).1
          agrees) in
      let decided : d.decided_at ≡ now = ap (λ (x : Decision). x.decided_at) made in
      (head, reads, rw signed (rw bound (rw decided (rw timely (rw prompt refl)))))
