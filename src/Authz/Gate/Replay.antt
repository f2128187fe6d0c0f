-- ===== src/Authz/Gate/Replay.antt =====
-- authz/gate.py: nothing is authorized twice, and no authorization goes back to an older head.
use gmail_b1_gateway.Prelude.{String, ◌≡◌, refl, ◌≢◌, some, List, [], ◌∷◌, arith, ◌≤ℤ◌, eq_refl}
use gmail_b1_gateway.Dict.{lookup, lookup-insert}
use gmail_b1_gateway.Errors.{ok}
use gmail_b1_gateway.Authz.Service.{AuthorizationRequest, Decision}
use gmail_b1_gateway.Authz.Gate.{Safety, Anchors, Outside, Authorization}
use gmail_b1_gateway.Authz.Gate.Authorize.{request_key, authorize}
use gmail_b1_gateway.Authz.Gate.Evidence.{IsAuthorized}
use gmail_b1_gateway.Authz.Gate.Sound.{authorize-IsAuthorized}
use gmail_b1_gateway.Authz.Gate.Monotone.{Later, Later-refl, Later-trans, authorize-OnlyAdds}

-- A call of `authorize`: its request, what it observes, and the digest of what is to be sent.
pub record Call : Type 0 where
  pub request : AuthorizationRequest
  pub out : Outside
  pub digest : String

unfoldable pub authorize_all : Anchors → List Call → Safety → Safety
authorize_all gate [] s = s
authorize_all gate (c ∷ cs) s = authorize_all gate cs (authorize gate c.request c.out c.digest s).1

authorize_all-Later :
    (gate : Anchors) (cs : List Call) (s : Safety) → Later s (authorize_all gate cs s)
unfolding authorize_all
authorize_all-Later gate [] s = Later-refl s
authorize_all-Later gate (c ∷ cs) s =
    Later-trans (authorize-OnlyAdds gate c.request c.out c.digest s)
      (authorize_all-Later gate cs (authorize gate c.request c.out c.digest s).1)

module _ (gate : Anchors) (request : AuthorizationRequest) (out : Outside) (digest : String)
    (s : Safety) (d : Decision) (t : Safety) (e : IsAuthorized gate request out digest s d t) where
  request_used : lookup (request_key e.grant.grant_id request.request_id) t.requests ≡ some digest
  request_used =
      rw e.left (rw (lookup-insert, eq_refl (request_key e.grant.grant_id request.request_id)) refl)

  decision_used : lookup d.decision_id t.decisions ≡ some digest
  decision_used = rw e.left (rw (lookup-insert, eq_refl d.decision_id) refl)

  mark_raised : e.head.state_version_int ≤ℤ t.high_water
  mark_raised = rw e.left (ground arith)

-- After an authorization, and any calls in between, another authorization is for another request and
-- by another decision, and its state head is no older.
pub no_replay :
    (gate : Anchors) (first second : Call) (cs : List Call) (s t u : Safety) (a b : Authorization)
    → authorize gate first.request first.out first.digest s ≡ (ok a, t)
    → authorize gate second.request second.out second.digest (authorize_all gate cs t) ≡ (ok b, u)
    → (e : IsAuthorized gate first.request first.out first.digest s a.decision t)
      × (f : IsAuthorized gate second.request second.out second.digest
          (authorize_all gate cs t)
          b.decision
          u)
      × (request_key e.grant.grant_id first.request.request_id
          ≢ request_key f.grant.grant_id second.request.request_id)
      × (a.decision.decision_id ≢ b.decision.decision_id)
      × (e.head.state_version_int ≤ℤ f.head.state_version_int)
no_replay gate first second cs s t u a b h k =
    let e = authorize-IsAuthorized gate first.request first.out first.digest s h in
    let f =
      authorize-IsAuthorized gate second.request second.out second.digest (authorize_all gate cs t)
        k in
    let later = authorize_all-Later gate cs t in
    let request_stays =
      later.requests _ _
        (request_used gate first.request first.out first.digest s a.decision t e) in
    let decision_stays =
      later.decisions _ _
        (decision_used gate first.request first.out first.digest s a.decision t e) in
    let raised = mark_raised gate first.request first.out first.digest s a.decision t e in
    (
      e,
      f,
      λ same. cc (f.request_fresh, request_stays, same),
      λ same. cc (f.decision_fresh, decision_stays, same),
      omega (arith, raised, later.mark, f.not_rolled_back),
    )
