-- ===== src/Tests/ControlPlane.antt =====
-- authz/state.py: a state the operator keeps, shipped by a relay and read by the gate, with toy primitives.
use gmail_b1_gateway.Prelude.{
  String, ◌≡◌, refl, true, false, some, none, [], ◌∷◌, List, number_text, pos,
}
use gmail_b1_gateway.Dict.{insert, erase}
use gmail_b1_gateway.Json.{Value, str, obj, end, field}
use gmail_b1_gateway.Errors.{Error, ok, err}
use gmail_b1_gateway.Canonicalizer.Jcs.{canonicalize}
use gmail_b1_gateway.Authz.Artifact.{valid, parse_envelope}
use gmail_b1_gateway.Authz.Grant.{Grant, os_account, auto, parse_grant_body}
use gmail_b1_gateway.Authz.State.{active, membership, VerifiedHead}
use gmail_b1_gateway.Authz.Gate.{Outside}
use gmail_b1_gateway.Authz.Gate.Checks.{verified, verify_grant, read_head}
use gmail_b1_gateway.Authz.Gate.Authorize.{authorize}
use gmail_b1_gateway.Authz.ControlPlane.{
  HeadState, Signer, Relay, Order, adding, state_version, signed, head_digest, revoke, supersede,
  sync, obey, obey_all, signed_revocation, signed_head, head_body, sorted_set, insert_pair,
  signed_revocations, sorted_revocations,
}
use gmail_b1_gateway.Authz.ControlPlane.Emitted.{IsSigner}
use gmail_b1_gateway.Authz.ControlPlane.Synced.{IsWellFormed, standing, synced_membership}
use gmail_b1_gateway.Authz.ControlPlane.Revocation.{revoked_stays_denied}
use gmail_b1_gateway.Authz.Service.{decision_body}
use gmail_b1_gateway.Authz.Gate.{answer, expected_binding, decided_at_in_hygiene_window}
use gmail_b1_gateway.Authz.Gate.Authorize.{verify_decision}
use gmail_b1_gateway.Authz.CloudService.{CloudService, unsigned, sign_decision, decide}
use gmail_b1_gateway.Authz.CloudService.Accepted.{decision_accepted}
use gmail_b1_gateway.Tests.Authz.{decision, anchors, one, start}

abbrev first_grant : String
first_grant = "0123456789abcdef0123456789abcdef"

abbrev second_grant : String
second_grant = "ffffffffffffffffffffffffffffffff"

-- The toy verification asks for a signature as long as the key.
abbrev key : Signer
key = record { sign = λ m. 97 ∷ 98 ∷ []; hex = λ b. "ab" }

law : IsSigner anchors key
law = record { verifies = λ m. refl; reads_back = λ m. refl }

abbrev state : HeadState
state = record { active = (first_grant, "1") ∷ []; version_int = 4; revocations = [] }

state-IsWellFormed : IsWellFormed state
state-IsWellFormed = record { grants = (refl, refl, tt); ids = tt }

abbrev honest : Relay
honest = record { reachable = true; withheld = none; include_revocations = true }

abbrev silent : Relay
silent = record { reachable = true; withheld = none; include_revocations = false }

abbrev shipped : HeadState → Relay → Value
unfolding sync
shipped st relay = elim (sync anchors.prim key relay st) [ some env ↦ env | none ↦ obj end ]

state_ships : sync anchors.prim key honest state ≡ some (shipped state honest)
unfolding sync signed signed_revocation state_version canonicalize signed_head head_body sorted_set
    insert_pair signed_revocations sorted_revocations
state_ships = refl

synced_membership_example :
    (head : VerifiedHead) × (read_head anchors (shipped state honest) ≡ ok (valid head))
    × (head.state_version ≡ state_version state)
    × (head_digest anchors.prim key state ≡ some head.digest)
    × ((g v : String) → membership head g v ≡ standing state true g v)
synced_membership_example =
    synced_membership anchors key law state honest state-IsWellFormed refl state_ships

-- After the grant is revoked another one is added, and the relay drops the revocations.
abbrev orders : List Order
orders = adding second_grant "1" ∷ []

abbrev later : HeadState
unfolding obey_all
later = obey_all orders (revoke first_grant state)

later_ships :
    sync anchors.prim key silent (obey_all orders (revoke first_grant state))
    ≡ some (shipped later silent)
unfolding sync signed signed_revocation state_version canonicalize obey_all revoke insert erase obey
    signed_head head_body sorted_set insert_pair
later_ships = refl

abbrev after : Outside
after = record one.out { synced = some (shipped later silent) }

abbrev grant : Grant
grant = record {
  grant_id = first_grant;
  grant_version = "1";
  grant_version_int = pos 1;
  issuer_fp = "issuer";
  subject = os_account "m" "a";
  tool = "gmail";
  action = "send";
  scope = field "from_account" (str "me@example.com") end;
  approval_mode = auto;
  valid_from = pos 1000;
  valid_until = pos 2000;
  state_version = "1";
}

is_granted : verify_grant anchors one.request ≡ ok (valid grant)
unfolding verify_grant parse_envelope verified parse_grant_body canonicalize
is_granted = refl

revoked_stays_denied_example :
    (e : Error) × ((authorize anchors one.request after "action" start).0 ≡ err e)
revoked_stays_denied_example =
    revoked_stays_denied anchors key law first_grant orders state silent one.request after "action"
      start state-IsWellFormed refl ((refl, refl), tt) (refl, tt) refl later_ships refl is_granted
      refl

-- A superseded grant whose revocation the relay drops is active again.
abbrev relisted : HeadState
unfolding supersede
relisted = supersede first_grant 2 (revoke first_grant state)

lists_again : standing relisted false first_grant (number_text 2) ≡ active
unfolding supersede revoke insert erase
lists_again = refl

-- The toy cloud's signature is as long as its key, and it decides as the gate expects.
abbrev cloud : CloudService
cloud = record { reachable = true; sign = λ m. 9 ∷ 9 ∷ [] }

decides :
    decide anchors.prim key cloud state one.request "d1" (pos 1500)
    ≡ answer (decision "d1" "r1" "4")
unfolding decide parse_envelope parse_grant_body canonicalize sign_decision unsigned head_digest
    head_body sorted_set insert_pair state_version decision_body
decides = refl

timely : decided_at_in_hygiene_window (pos 1500) one.out.now one.out.wall_verified ≡ true
unfolding decided_at_in_hygiene_window
timely = refl

decision_accepted_example :
    (head : VerifiedHead) × (read_head anchors (shipped state honest) ≡ ok (valid head))
    × (verify_decision anchors one.request one.out grant
          (expected_binding one.request grant head "action")
          (decision "d1" "r1" "4")
          start
        ≡ (ok tt, start))
decision_accepted_example =
    decision_accepted anchors key law cloud state honest one.request one.out "d1" (pos 1500) start
      (λ m. refl) state-IsWellFormed refl state_ships is_granted decides timely refl
