-- ===== src/Authz/Gate/Monotone.antt =====
-- authz/gate.py: what a call of `authorize` cannot undo, whether or not it raises.
use gmail_b1_gateway.Prelude.{String, ◌≡◌, Option, none, some, arith, ◌≤ℤ◌, eq_iff}
use gmail_b1_gateway.Dict.{lookup, lookup-insert}
use gmail_b1_gateway.Errors.{Result, ok, err, Action, ◌>>=◌, ◌>>◌}
use gmail_b1_gateway.Authz.Reasons.{DenialReason, invalid_artifact}
use gmail_b1_gateway.Authz.Artifact.{Parsed}
use gmail_b1_gateway.Authz.Grant.{Grant}
use gmail_b1_gateway.Authz.State.{VerifiedHead}
use gmail_b1_gateway.Authz.Service.{AuthorizationRequest, Decision, consume_once}
use gmail_b1_gateway.Authz.Policy.{ExpectedBinding}
use gmail_b1_gateway.Authz.Gate.{Safety, Anchors, Outside, Denial, expected_binding, settle_check}
use gmail_b1_gateway.Authz.Gate.Checks.{verify_grant, local_decisions}
use gmail_b1_gateway.Authz.Gate.Authorize.{
  sync_and_accept, settle_local, burn_request, ask_cloud, verify_decision, burn_decision, authorize,
  with_head, with_grant, with_request, with_decision, conclude,
}

-- A state that may come after another: the mark is no lower, and what was consumed still is.
pub record Later (s t : Safety) : Type 0 where
  pub mark : s.high_water ≤ℤ t.high_water
  pub requests : (k v : String) → lookup k s.requests ≡ some v → lookup k t.requests ≡ some v
  pub decisions : (k v : String) → lookup k s.decisions ≡ some v → lookup k t.decisions ≡ some v

pub Later-refl : (s : Safety) → Later s s
Later-refl s = record { mark = omega arith; requests = λ k v h. h; decisions = λ k v h. h }

pub Later-trans : {s t u : Safety} → Later s t → Later t u → Later s u
Later-trans a b = record {
  mark = omega (arith, a.mark, b.mark);
  requests = λ k v h. b.requests k v (a.requests k v h);
  decisions = λ k v h. b.decisions k v (a.decisions k v h);
}

-- The action, whether or not it raises, leaves a state that may come after.
abbrev pub OnlyAdds : {A : Type 0} → Action Safety A → Type 0
OnlyAdds m = (s : Safety) → Later s (m s).1

after_bind :
    {A B : Type 0} (s : Safety) (x : Result A × Safety) (f : A → Action Safety B)
    → Later s x.1
    → ((a : A) → OnlyAdds (f a))
    → Later s (((λ _. x) >>= f) s).1
after_bind s (ok a, u) f h hf = Later-trans h (hf a u)
after_bind s (err e, u) f h hf = h

bind-OnlyAdds :
    {A B : Type 0} (m : Action Safety A) (f : A → Action Safety B)
    → OnlyAdds m
    → ((a : A) → OnlyAdds (f a))
    → OnlyAdds (m >>= f)
bind-OnlyAdds m f hm hf s = after_bind s (m s) f (hm s) hf

module _ (gate : Anchors) (request : AuthorizationRequest) (out : Outside) where
  settle_check-OnlyAdds :
      {A : Type 0} (r : Result (Parsed A)) (reason : DenialReason) (grant : Option Grant)
      → OnlyAdds (settle_check gate request out r reason grant)
  settle_check-OnlyAdds r reason grant s = record {
    mark = ground arith;
    requests = λ k v h. ground arith;
    decisions = λ k v h. ground arith;
  }

  sync_and_accept-OnlyAdds : OnlyAdds (sync_and_accept gate request out)
  unfolding sync_and_accept
  sync_and_accept-OnlyAdds s = record {
    mark = ground arith;
    requests = λ k v h. ground arith;
    decisions = λ k v h. ground arith;
  }

  settle_local-OnlyAdds :
      (r : Result (Option Denial)) (grant : Grant)
      → OnlyAdds (settle_local gate request out r grant)
  settle_local-OnlyAdds r grant s = record {
    mark = ground arith;
    requests = λ k v h. ground arith;
    decisions = λ k v h. ground arith;
  }

  burn_request-OnlyAdds :
      (digest : String) (grant : Grant) → OnlyAdds (burn_request gate request out digest grant)
  unfolding burn_request consume_once
  burn_request-OnlyAdds digest grant s = record {
    mark = ground arith;
    requests = λ k v h. grind (arith, lookup-insert, eq_iff);
    decisions = λ k v h. ground arith;
  }

  ask_cloud-OnlyAdds : (grant : Grant) → OnlyAdds (ask_cloud gate request out grant)
  ask_cloud-OnlyAdds grant s = record {
    mark = ground arith;
    requests = λ k v h. ground arith;
    decisions = λ k v h. ground arith;
  }

  verify_decision-OnlyAdds :
      (grant : Grant) (e : ExpectedBinding) (d : Decision)
      → OnlyAdds (verify_decision gate request out grant e d)
  unfolding verify_decision
  verify_decision-OnlyAdds grant e d s = record {
    mark = ground arith;
    requests = λ k v h. ground arith;
    decisions = λ k v h. ground arith;
  }

  burn_decision-OnlyAdds :
      (grant : Grant) (e : ExpectedBinding) (d : Decision)
      → OnlyAdds (burn_decision gate request out grant e d)
  unfolding burn_decision consume_once
  burn_decision-OnlyAdds grant e d s = record {
    mark = ground arith;
    requests = λ k v h. ground arith;
    decisions = λ k v h. grind (arith, lookup-insert, eq_iff);
  }

  conclude-OnlyAdds :
      (grant : Grant) (head : VerifiedHead) (e : ExpectedBinding) (d : Decision)
      → OnlyAdds (conclude gate request out grant head e d)
  conclude-OnlyAdds grant head e d s = record {
    mark = omega arith;
    requests = λ k v h. h;
    decisions = λ k v h. h;
  }

  with_decision-OnlyAdds :
      (digest : String) (head : VerifiedHead) (grant : Grant) (d : Decision)
      → OnlyAdds (with_decision gate request out digest head grant d)
  with_decision-OnlyAdds digest head grant d =
      let e = expected_binding request grant head digest in
      let last = conclude gate request out grant head e d in
      let spend = burn_decision gate request out grant e d in
      bind-OnlyAdds (verify_decision gate request out grant e d) (λ _. spend >> last)
        (verify_decision-OnlyAdds grant e d)
        λ _.
          bind-OnlyAdds spend (λ _. last) (burn_decision-OnlyAdds grant e d)
            λ _. conclude-OnlyAdds grant head e d

  with_grant-OnlyAdds :
      (digest : String) (head : VerifiedHead) (grant : Grant)
      → OnlyAdds (with_grant gate request out digest head grant)
  with_grant-OnlyAdds digest head grant =
      let local = local_decisions gate request out.now out.peer head grant in
      let asked = with_request gate request out digest head grant in
      let burn = burn_request gate request out digest grant in
      bind-OnlyAdds (settle_local gate request out local grant) (λ _. burn >> asked)
        (settle_local-OnlyAdds local grant)
        λ _.
          bind-OnlyAdds burn (λ _. asked) (burn_request-OnlyAdds digest grant)
            λ _.
              bind-OnlyAdds (ask_cloud gate request out grant)
                (with_decision gate request out digest head grant) (ask_cloud-OnlyAdds grant)
                (with_decision-OnlyAdds digest head grant)

  -- Whatever a call of `authorize` comes to, what was consumed stays consumed.
  pub authorize-OnlyAdds : (digest : String) → OnlyAdds (authorize gate request out digest)
  unfolding authorize
  authorize-OnlyAdds digest =
      bind-OnlyAdds (sync_and_accept gate request out) (with_head gate request out digest)
        sync_and_accept-OnlyAdds
        λ head.
          bind-OnlyAdds
            (settle_check gate request out (verify_grant gate request) invalid_artifact none)
            (with_grant gate request out digest head)
            (settle_check-OnlyAdds (verify_grant gate request) invalid_artifact none)
            (with_grant-OnlyAdds digest head)
