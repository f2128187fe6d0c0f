-- ===== src/Authz/Gate/Sound.antt =====
-- authz/gate.py: what an authorization rests on.
use gmail_b1_gateway.Prelude.{String, ◌≡◌, none, [], ◌∷◌, ◌++◌, arith, subst, sym, ◌≤ℤ◌, ap, ◌∙◌}
use gmail_b1_gateway.Dict.{lookup, insert}
use gmail_b1_gateway.Errors.{ok, bind_ok, ◌>>◌}
use gmail_b1_gateway.Authz.Reasons.{invalid_artifact}
use gmail_b1_gateway.Authz.Grant.{Grant}
use gmail_b1_gateway.Authz.State.{VerifiedHead}
use gmail_b1_gateway.Authz.Service.{AuthorizationRequest, Decision, raise_to}
use gmail_b1_gateway.Authz.Policy.{ExpectedBinding}
use gmail_b1_gateway.Authz.Gate.{
  Safety, Anchors, Outside, answer, Authorization, expected_binding, settle_check,
}
use gmail_b1_gateway.Authz.Policy.Exact.{AgreesWith}
use gmail_b1_gateway.Authz.Gate.Authentic.{read_head_ok, verify_grant_ok}
use gmail_b1_gateway.Authz.Gate.Checks.{verify_grant, local_decisions}
use gmail_b1_gateway.Authz.Gate.Authorize.{
  request_key, sync_and_accept, settle_local, burn_request, ask_cloud, verify_decision,
  burn_decision, success_row, authorize, with_head, with_grant, with_request, with_decision,
  conclude,
}
use gmail_b1_gateway.Authz.Gate.Stages.{
  settle_check_ok, sync_and_accept_ok, burn_request_ok, ask_cloud_ok, verify_decision_ok,
  burn_decision_ok,
}
use gmail_b1_gateway.Authz.Gate.Evidence.{
  IsLocallyAllowed, IsBound, IsAuthorized, expected_binding-eq-bound_values, raise_to-above,
  settle_local_ok, local_decisions_ok, IsBound-of_checks,
}

module _ (gate : Anchors) (request : AuthorizationRequest) (out : Outside) where
  conclude_ok :
      (grant : Grant) (head : VerifiedHead) (e : ExpectedBinding) (d : Decision) (s : Safety)
      {a : Authorization} {t : Safety}
      → conclude gate request out grant head e d s ≡ (ok a, t)
      → (a.decision ≡ d)
        × (t ≡ record s { audit = s.audit ++ success_row gate request out grant head e d ∷ [] })
  conclude_ok grant head e d s h = ground arith

  with_decision_ok :
      (digest : String) (head : VerifiedHead) (grant : Grant) (d : Decision) (s : Safety)
      {a : Authorization} {t : Safety}
      → out.opinion ≡ answer d
      → with_decision gate request out digest head grant d s ≡ (ok a, t)
      → let e = expected_binding request grant head digest in
        (a.decision ≡ d)
        × IsBound gate out e d
        × (lookup d.decision_id s.decisions ≡ none)
        × (t ≡ record s {
          decisions = insert d.decision_id digest s.decisions;
          audit = s.audit ++ success_row gate request out grant head e d ∷ [];
        })
  unfolding expected_binding
  with_decision_ok digest head grant d s answered h =
      let e = expected_binding request grant head digest in
      let last = conclude gate request out grant head e d in
      let spend = burn_decision gate request out grant e d in
      let (_, s₁, checked, h₁) =
        bind_ok (verify_decision gate request out grant e d) (λ _. spend >> last) s h in
      let (signed, agrees, window, in_time, e₁) =
        verify_decision_ok gate request out grant e d s checked in
      let (_, s₂, spent, h₂) = bind_ok spend (λ _. last) s₁ h₁ in
      let (fresh, e₂) = burn_decision_ok gate request out grant e d s₁ spent in
      let (same, e₃) = conclude_ok grant head e d s₂ h₂ in
      (
        same,
        IsBound-of_checks gate request out grant head digest d answered signed agrees window
            in_time,
        rw e₁ at fresh,
        e₃
            ∙ ap {B = Safety}
                (λ (u : Safety). record u {
                  audit = u.audit ++ success_row gate request out grant head e d ∷ [];
                })
                (e₂
                  ∙ ap {B = Safety}
                      (λ (u : Safety). record u {
                        decisions = insert d.decision_id digest u.decisions;
                      })
                      e₁),
      )

  -- The evidence of the steps after the grant was verified.
  record IsPassed (digest : String) (head : VerifiedHead) (grant : Grant) (s : Safety)
      (d : Decision) (t : Safety) : Type 0 where
    allowed : IsLocallyAllowed gate request out head grant
    bound : IsBound gate out (expected_binding request grant head digest) d
    request_fresh : lookup (request_key grant.grant_id request.request_id) s.requests ≡ none
    decision_fresh : lookup d.decision_id s.decisions ≡ none
    left : t ≡ record s {
      requests = insert (request_key grant.grant_id request.request_id) digest s.requests;
      decisions = insert d.decision_id digest s.decisions;
      audit =
          s.audit
          ++ success_row gate request out grant head (expected_binding request grant head digest) d
            ∷ [];
    }

  with_grant_ok :
      (digest : String) (head : VerifiedHead) (grant : Grant) (s : Safety) {a : Authorization}
      {t : Safety}
      → with_grant gate request out digest head grant s ≡ (ok a, t)
      → IsPassed digest head grant s a.decision t
  with_grant_ok digest head grant s {a} {t} h =
      let local = local_decisions gate request out.now out.peer head grant in
      let asked = with_request gate request out digest head grant in
      let burn = burn_request gate request out digest grant in
      let (_, s₁, decided, h₁) =
        bind_ok (settle_local gate request out local grant) (λ _. burn >> asked) s h in
      let (allowed, e₁) = settle_local_ok gate request out local grant s decided in
      let (_, s₂, burned, h₂) = bind_ok burn (λ _. asked) s₁ h₁ in
      let (request_fresh, e₂) = burn_request_ok gate request out digest grant s₁ burned in
      let (d, s₃, cloud, h₃) =
        bind_ok (ask_cloud gate request out grant)
          (with_decision gate request out digest head grant) s₂ h₂ in
      let (answered, e₃) = ask_cloud_ok gate request out grant s₂ cloud in
      let (same, bound, decision_fresh, e₄) = with_decision_ok digest head grant d s₃ answered h₃ in
      let key = request_key grant.grant_id request.request_id in
      let row =
        success_row gate request out grant head (expected_binding request grant head digest) in
      let before : s₃ ≡ record s { requests = insert key digest s.requests } =
        e₃
        ∙ e₂
        ∙ ap {B = Safety} (λ (u : Safety). record u { requests = insert key digest u.requests })
            e₁ in
      rw same (record {
        allowed = local_decisions_ok gate request out head grant allowed;
        bound = bound;
        request_fresh = rw e₁ at request_fresh;
        decision_fresh = rw before at decision_fresh;
        left =
            e₄
            ∙ ap {B = Safety}
                (λ (u : Safety). record u {
                  decisions = insert d.decision_id digest u.decisions;
                  audit = u.audit ++ row d ∷ [];
                })
                before;
      })

  -- Every authorization rests on all of this: a head whose canonical text the user root's key signed, under
  -- the head's own type, and whose version is not below the high-water mark; a grant that the same key signed as a grant, from
  -- the pinned issuer, and that the head lists in this version, while every revocation shipped beside the head is signed as one
  -- and none names this grant; the clock within the grant's validity, the validity within the cap, and the scope that of the Gateway's
  -- account; the grant's subject, which is the peer at the other end, or an agent key that signed this request lately and for this
  -- channel; a decision that the cloud's key signed, that agrees with the
  -- request, the grant and the head in all nine bound fields, within the window and the deadline; a
  -- request and a decision never consumed before. And it leaves both consumed, the mark at least at the head's version, and one
  -- more audit row.
  pub authorize-IsAuthorized :
      (digest : String) (s : Safety) {a : Authorization} {t : Safety}
      → authorize gate request out digest s ≡ (ok a, t)
      → IsAuthorized gate request out digest s a.decision t
  unfolding authorize
  authorize-IsAuthorized digest s {a} {t} h =
      let (head, s₁, synced, h₁) =
        bind_ok (sync_and_accept gate request out) (with_head gate request out digest) s h in
      let (shipped, mark, e₁) = sync_and_accept_ok gate request out s synced in
      let read_grant =
        settle_check gate request out (verify_grant gate request) invalid_artifact none in
      let (grant, s₂, settled, h₂) =
        bind_ok read_grant (with_grant gate request out digest head) s₁ h₁ in
      let (granted, e₂) =
        settle_check_ok gate request out (verify_grant gate request) invalid_artifact none s₁
          settled in
      let before : s₂ ≡ record s { high_water = raise_to head.state_version_int s.high_water } =
        e₂ ∙ e₁ in
      let passed : IsPassed digest head grant
          (record s { high_water = raise_to head.state_version_int s.high_water }) a.decision t =
        subst (λ u. IsPassed digest head grant u a.decision t) before
          (with_grant_ok digest head grant s₂ h₂) in
      record {
        head = head;
        grant = grant;
        shipped = shipped;
        head_signed = (shipped.0, shipped.1, read_head_ok gate shipped.0 shipped.2);
        not_rolled_back = mark;
        granted = granted;
        issued = verify_grant_ok gate request granted;
        allowed = passed.allowed;
        agreed =
            subst (AgreesWith a.decision)
              (expected_binding-eq-bound_values request grant head digest) passed.bound.agrees;
        raised =
            subst (λ (u : Safety). head.state_version_int ≤ℤ u.high_water) (sym passed.left)
              (raise_to-above head.state_version_int s.high_water);
        bound = passed.bound;
        request_fresh = passed.request_fresh;
        decision_fresh = passed.decision_fresh;
        left = passed.left;
      }
