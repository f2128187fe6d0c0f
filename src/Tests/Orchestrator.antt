-- ===== src/Tests/Orchestrator.antt =====
-- authz/orchestrator.py: a run for the sample proposal under the sample authorization.
use gmail_b1_gateway.Prelude.{◌≡◌, ◌⊎◌, refl, true, none, List, [], ◌∷◌, pos, arith}
use gmail_b1_gateway.Dict.{lookup, insert}
use gmail_b1_gateway.Errors.{ok}
use gmail_b1_gateway.Store.Backend.{put}
use gmail_b1_gateway.Store.Record.{
  pending, sent, Proposal, to_dict, from_dict, status_value, status_of_value,
}
use gmail_b1_gateway.Store.Proposals.{read}
use gmail_b1_gateway.SendFsm.{human}
use gmail_b1_gateway.SendFsm.Requests.{confirm_call, dispatch_call}
use gmail_b1_gateway.Authz.Orchestrator.{System, written, Run, outcome, authorize_and_send}
use gmail_b1_gateway.Authz.Orchestrator.Course.{IsGated}
use gmail_b1_gateway.Authz.Orchestrator.Safe.{IsReleased, authorize_and_send_guarded}
use gmail_b1_gateway.Authz.Orchestrator.Refines.{
  Activity, orchestrated, direct, IsRefined, orchestrator_refines,
}
use gmail_b1_gateway.Authz.Orchestrator.Recorded.{
  IsRecorded, sent-IsRecorded, authorize_and_send_delivers,
}
use gmail_b1_gateway.Tests.Samples.{draft, world_of, accepts, gateway}
use gmail_b1_gateway.Tests.Authz.{
  anchors, one, two, start, after_one, authorization, first_is_authorized,
}

abbrev waiting_proposal : Proposal
waiting_proposal = record (draft pending) { payload_digest = "action" }

abbrev before : System
before = record {
  world = world_of (put "p1" (to_dict waiting_proposal) []);
  safety = start;
  records = [];
}

abbrev run : Run
run = record {
  outside = one.out;
  now = pos 150;
  mono_gmail_commit_start = pos 40;
  started = written;
  mono_response_complete = pos 50;
  completed = written;
}

abbrev after : System
after = (authorize_and_send anchors gateway "p1" one.request run before).1

waiting_is_stored : read "p1" before.world.kv ≡ ok waiting_proposal
unfolding read lookup insert to_dict from_dict status_of_value status_value
waiting_is_stored = refl

gated :
    IsGated anchors gateway "p1" one.request run before waiting_proposal
      (authorization "d1" "r1" "4")
      after_one
gated = record { stored = waiting_is_stored; allowed = first_is_authorized }

authorize_and_send_delivers_example :
    (authorize_and_send anchors gateway "p1" one.request run before).0
    ≡ ok (outcome true "sent" sent)
authorize_and_send_delivers_example =
    authorize_and_send_delivers anchors gateway "p1" one.request run before waiting_proposal
      (authorization "d1" "r1" "4") after_one accepts gated (λ h. cc) refl (omega arith)
      (omega arith) refl refl refl refl

sent-IsRecorded_example :
    IsRecorded anchors gateway "p1" one.request run before after waiting_proposal
sent-IsRecorded_example =
    sent-IsRecorded anchors gateway "p1" one.request run before waiting_proposal
      (outcome true "sent" sent) waiting_is_stored (refl, refl, refl)
      authorize_and_send_delivers_example refl

authorize_and_send_guarded_example :
    (after.world.sends ≡ before.world.sends)
    ⊎ IsReleased anchors gateway "p1" one.request run before after
authorize_and_send_guarded_example =
    authorize_and_send_guarded anchors gateway "p1" one.request run before

-- The run twice, with the local confirmation and a dispatch between.
abbrev history : List Activity
history =
    orchestrated "p1" one.request run
    ∷ direct (confirm_call "p1" human (pos 151) none)
    ∷ direct (dispatch_call "p1" (pos 151))
    ∷ orchestrated "p1" two.request run
    ∷ []

orchestrator_refines_example : IsRefined anchors gateway history before
orchestrator_refines_example = orchestrator_refines anchors gateway history before
