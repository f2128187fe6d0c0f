-- ===== src/Authz/Gate/Evidence.antt =====
-- authz/gate.py: the evidence that stands behind an authorization, and what its checks give of it.
use gmail_b1_gateway.Prelude.{
  ℤ, String, ◌≡◌, refl, true, Option, none, some, [], ◌∷◌, ◌++◌, arith, ◌+ℤ◌, ◌-ℤ◌, ◌≤ℤ◌, elem,
  eq_iff,
}
use gmail_b1_gateway.Dict.{lookup, insert}
use gmail_b1_gateway.Json.{Value, str, member}
use gmail_b1_gateway.Errors.{Result, ok}
use gmail_b1_gateway.Authz.Artifact.{valid}
use gmail_b1_gateway.Authz.Grant.{
  Grant, ApprovalMode, auto, per_call, Subject, os_account, agent_key, mode_value, kind_value,
}
use gmail_b1_gateway.Authz.State.{VerifiedHead, membership, active}
use gmail_b1_gateway.Authz.Service.{
  response_deadline_ns, clock_skew_seconds, validity_cap_seconds, decided_at_slack_seconds,
  AuthorizationRequest, Decision, verify_decision_sig, raise_to,
}
use gmail_b1_gateway.Authz.Policy.{ExpectedBinding, check_binding}
use gmail_b1_gateway.Authz.Policy.Exact.{AgreesWith, IsClosed, check_binding_iff}
use gmail_b1_gateway.Authz.Gate.{
  Safety, Anchors, Outside, answer, Denial, disposition_of, expected_binding,
  decided_at_in_hygiene_window,
}
use gmail_b1_gateway.Authz.Gate.Checks.{
  read_head, verify_grant, local_decisions, check_subject, is_account,
}
use gmail_b1_gateway.Authz.Gate.Authentic.{
  IsListed, IsAbsent, IsSignedHead, IsIssued, IsProven, IsDecided, membership_active,
  check_subject_ok, verify_decision_sig_ok,
}
use gmail_b1_gateway.Authz.Gate.Authorize.{request_key, settle_local, success_row}

-- The grant may act now, on this head, for this account and by this subject.
pub record IsLocallyAllowed (gate : Anchors) (request : AuthorizationRequest) (out : Outside)
    (head : VerifiedHead) (grant : Grant) : Type 0 where
  pub listed : membership head grant.grant_id grant.grant_version ≡ active
  pub started : grant.valid_from -ℤ clock_skew_seconds ≤ℤ out.now
  pub unexpired : out.now ≤ℤ grant.valid_until +ℤ clock_skew_seconds
  pub capped : grant.valid_until -ℤ grant.valid_from ≤ℤ validity_cap_seconds
  pub in_scope : member "from_account" grant.scope ≡ some (str gate.gateway_account)
  pub subject : check_subject gate request out.now out.peer grant ≡ ok none
  pub in_head : IsListed grant.grant_id grant.grant_version head.active_grants
  pub unrevoked : IsAbsent grant.grant_id head.seen_revocations
  pub proven : IsProven gate request out.now out.peer grant.grant_id grant.subject

-- The decision is the cloud's, on exactly this request, grant and head, and in time.
pub record IsBound (gate : Anchors) (out : Outside) (e : ExpectedBinding) (d : Decision)
    : Type 0 where
  pub answered : out.opinion ≡ answer d
  pub signed : verify_decision_sig gate.prim gate.decision_key d ≡ some true
  pub decided : IsDecided gate d
  pub agrees : AgreesWith d e
  pub not_before : out.now -ℤ decided_at_slack_seconds ≤ℤ d.decided_at
  pub not_after : d.decided_at ≤ℤ out.wall_verified +ℤ decided_at_slack_seconds
  pub in_time : out.mono_response_verified -ℤ out.mono_sent ≤ℤ response_deadline_ns

-- The nine values that a decision is held to: the request's, the head's, and the grant's.
abbrev pub bound_values : AuthorizationRequest → Grant → VerifiedHead → String → ExpectedBinding
bound_values request grant head digest = record {
  request_id = request.request_id;
  action_digest = digest;
  authz_state_digest = head.digest;
  state_version = head.state_version;
  grant_id = grant.grant_id;
  grant_version = grant.grant_version;
  approval_mode = mode_value grant.approval_mode;
  subject_kind = kind_value grant.subject;
  disposition = disposition_of grant.approval_mode;
}

pub expected_binding-eq-bound_values :
    (request : AuthorizationRequest) (grant : Grant) (head : VerifiedHead) (digest : String)
    → expected_binding request grant head digest ≡ bound_values request grant head digest
unfolding expected_binding
expected_binding-eq-bound_values request grant head digest = refl

pub raise_to-above : (version mark : ℤ) → version ≤ℤ raise_to version mark
raise_to-above version mark = ground arith

-- The evidence behind an authorization, from the state `s` before to the state `t` after.
pub record IsAuthorized (gate : Anchors) (request : AuthorizationRequest) (out : Outside)
    (digest : String) (s : Safety) (d : Decision) (t : Safety) : Type 0 where
  pub head : VerifiedHead
  pub grant : Grant
  pub shipped : (env : Value) × (out.synced ≡ some env) × (read_head gate env ≡ ok (valid head))
  pub head_signed : (env : Value) × (out.synced ≡ some env) × IsSignedHead gate env head
  pub not_rolled_back : s.high_water ≤ℤ head.state_version_int
  pub granted : verify_grant gate request ≡ ok (valid grant)
  pub issued : IsIssued gate request grant
  pub allowed : IsLocallyAllowed gate request out head grant
  pub agreed : AgreesWith d (bound_values request grant head digest)
  pub raised : head.state_version_int ≤ℤ t.high_water
  pub bound : IsBound gate out (expected_binding request grant head digest) d
  pub request_fresh : lookup (request_key grant.grant_id request.request_id) s.requests ≡ none
  pub decision_fresh : lookup d.decision_id s.decisions ≡ none
  pub left : t ≡ record {
    high_water = raise_to head.state_version_int s.high_water;
    requests = insert (request_key grant.grant_id request.request_id) digest s.requests;
    decisions = insert d.decision_id digest s.decisions;
    audit =
        s.audit
        ++ success_row gate request out grant head (expected_binding request grant head digest) d
          ∷ [];
  }

mode_closed : (m : ApprovalMode) → elem (mode_value m) ("auto" ∷ "per_call" ∷ []) ≡ true
mode_closed auto = refl
mode_closed per_call = refl

kind_closed : (s : Subject) → elem (kind_value s) ("os_account" ∷ "agent_key" ∷ []) ≡ true
kind_closed (os_account m a) = refl
kind_closed (agent_key k s) = refl

disposition_closed :
    (m : ApprovalMode) → elem (disposition_of m) ("authorized" ∷ "needs_approval" ∷ []) ≡ true
disposition_closed auto = refl
disposition_closed per_call = refl

is_account_ok :
    (account : String) (v : Option Value) → is_account account v ≡ true → v ≡ some (str account)
is_account_ok account (some (str s)) h = cc ((eq_iff s account).0 h)
is_account_ok account (some (Value.boolean b)) h = absurd (ground arith)
is_account_ok account (some (Value.int n)) h = absurd (ground arith)
is_account_ok account (some (Value.float f)) h = absurd (ground arith)
is_account_ok account (some (Value.arr vs)) h = absurd (ground arith)
is_account_ok account (some (Value.obj d)) h = absurd (ground arith)
is_account_ok account (some (Value.null)) h = absurd (ground arith)
is_account_ok account none h = absurd (ground arith)

expected_IsClosed :
    (request : AuthorizationRequest) (grant : Grant) (head : VerifiedHead) (digest : String)
    → IsClosed (expected_binding request grant head digest)
unfolding expected_binding
expected_IsClosed request grant head digest = record {
  mode = mode_closed grant.approval_mode;
  kind = kind_closed grant.subject;
  outcome = disposition_closed grant.approval_mode;
}

module _ (gate : Anchors) (request : AuthorizationRequest) (out : Outside) where
  pub settle_local_ok :
      (r : Result (Option Denial)) (grant : Grant) (s : Safety) {t : Safety}
      → settle_local gate request out r grant s ≡ (ok tt, t)
      → (r ≡ ok none) × (t ≡ s)
  settle_local_ok r grant s h = ground arith

  pub local_decisions_ok :
      (head : VerifiedHead) (grant : Grant)
      → local_decisions gate request out.now out.peer head grant ≡ ok none
      → IsLocallyAllowed gate request out head grant
  unfolding local_decisions
  local_decisions_ok head grant h = record {
    listed = ground arith;
    started = ground arith;
    unexpired = ground arith;
    capped = ground arith;
    in_scope =
        is_account_ok gate.gateway_account (member "from_account" grant.scope) (ground arith);
    subject = ground arith;
    in_head = (membership_active head grant.grant_id grant.grant_version (ground arith)).0;
    unrevoked = (membership_active head grant.grant_id grant.grant_version (ground arith)).1;
    proven = check_subject_ok gate request out.now out.peer grant (ground arith);
  }

  pub IsBound-of_checks :
      (grant : Grant) (head : VerifiedHead) (digest : String) (d : Decision)
      → out.opinion ≡ answer d
      → verify_decision_sig gate.prim gate.decision_key d ≡ some true
      → check_binding d (expected_binding request grant head digest) ≡ none
      → decided_at_in_hygiene_window d.decided_at out.now out.wall_verified ≡ true
      → out.mono_response_verified -ℤ out.mono_sent ≤ℤ response_deadline_ns
      → IsBound gate out (expected_binding request grant head digest) d
  unfolding decided_at_in_hygiene_window
  IsBound-of_checks grant head digest d answered signed agrees window in_time = record {
    answered = answered;
    signed = signed;
    decided = verify_decision_sig_ok gate d signed;
    agrees =
        (check_binding_iff d (expected_binding request grant head digest)
            (expected_IsClosed request grant head digest)).0
          agrees;
    not_before = ground arith;
    not_after = ground arith;
    in_time = in_time;
  }
