-- ===== src/Authz/Gate/Stages.antt =====
-- authz/gate.py: what each stage of `authorize` has established when it does not raise.
use gmail_b1_gateway.Prelude.{
  String, ◌≡◌, Option-cases, inl, inr, true, Option, none, some, arith, ◌-ℤ◌, ◌≤ℤ◌,
}
use gmail_b1_gateway.Dict.{lookup, insert}
use gmail_b1_gateway.Json.{Value}
use gmail_b1_gateway.Errors.{Result, ok, Result-cases}
use gmail_b1_gateway.Authz.Reasons.{DenialReason}
use gmail_b1_gateway.Authz.Artifact.{Parsed, valid, malformed}
use gmail_b1_gateway.Authz.Grant.{Grant}
use gmail_b1_gateway.Authz.State.{VerifiedHead}
use gmail_b1_gateway.Authz.Service.{
  response_deadline_ns, AuthorizationRequest, Decision, verify_decision_sig, raise_to,
}
use gmail_b1_gateway.Authz.Policy.{ExpectedBinding, check_binding}
use gmail_b1_gateway.Authz.Gate.{
  Safety, Anchors, Outside, answer, decided_at_in_hygiene_window, settle_check,
}
use gmail_b1_gateway.Authz.Gate.Checks.{read_head}
use gmail_b1_gateway.Authz.Gate.Authorize.{
  request_key, sync_and_accept, verify_decision, burn_request, burn_decision, ask_cloud,
}

module _ (gate : Anchors) (request : AuthorizationRequest) (out : Outside) where
  pub settle_check_ok :
      {A : Type 0} (r : Result (Parsed A)) (reason : DenialReason) (grant : Option Grant)
      (s : Safety) {a : A} {t : Safety}
      → settle_check gate request out r reason grant s ≡ (ok a, t)
      → (r ≡ ok (valid a)) × (t ≡ s)
  settle_check_ok r reason grant s h = ground arith

  -- The head verified, and is not below the mark, which it raises.
  pub sync_and_accept_ok :
      (s : Safety) {head : VerifiedHead} {t : Safety}
      → sync_and_accept gate request out s ≡ (ok head, t)
      → ((env : Value) × (out.synced ≡ some env) × (read_head gate env ≡ ok (valid head)))
        × (s.high_water ≤ℤ head.state_version_int)
        × (t ≡ record s { high_water = raise_to head.state_version_int s.high_water })
  unfolding sync_and_accept
  sync_and_accept_ok s h = elim (Option-cases out.synced) [
    | inl missing ↦ absurd (ground arith)
    | inr (env, e) ↦ elim (Result-cases (read_head gate env)) [
      | inl (valid hd, r) ↦ ((env, e, ground arith), ground arith, ground arith)
      | inl (malformed x, r) ↦ absurd (ground arith)
      | inr (x, r) ↦ absurd (ground arith)
    ]
  ]

  pub burn_request_ok :
      (digest : String) (grant : Grant) (s : Safety) {t : Safety}
      → burn_request gate request out digest grant s ≡ (ok tt, t)
      → let key = request_key grant.grant_id request.request_id in
        (lookup key s.requests ≡ none) × (t ≡ record s { requests = insert key digest s.requests })
  unfolding burn_request
  burn_request_ok digest grant s h = ground arith

  pub burn_decision_ok :
      (grant : Grant) (e : ExpectedBinding) (d : Decision) (s : Safety) {t : Safety}
      → burn_decision gate request out grant e d s ≡ (ok tt, t)
      → (lookup d.decision_id s.decisions ≡ none)
        × (t ≡ record s { decisions = insert d.decision_id e.action_digest s.decisions })
  unfolding burn_decision
  burn_decision_ok grant e d s h = ground arith

  pub ask_cloud_ok :
      (grant : Grant) (s : Safety) {d : Decision} {t : Safety}
      → ask_cloud gate request out grant s ≡ (ok d, t)
      → (out.opinion ≡ answer d) × (t ≡ s)
  ask_cloud_ok grant s h = ground arith

  pub verify_decision_ok :
      (grant : Grant) (e : ExpectedBinding) (d : Decision) (s : Safety) {t : Safety}
      → verify_decision gate request out grant e d s ≡ (ok tt, t)
      → (verify_decision_sig gate.prim gate.decision_key d ≡ some true)
        × (check_binding d e ≡ none)
        × (decided_at_in_hygiene_window d.decided_at out.now out.wall_verified ≡ true)
        × (out.mono_response_verified -ℤ out.mono_sent ≤ℤ response_deadline_ns)
        × (t ≡ s)
  unfolding verify_decision
  verify_decision_ok grant e d s h =
      (ground arith, ground arith, ground arith, ground arith, ground arith)
