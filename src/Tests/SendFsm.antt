-- ===== src/Tests/SendFsm.antt =====
-- sendfsm/fsm.py: runs of calls at concrete requests.
use gmail_b1_gateway.Prelude.{String, ◌≡◌, refl, ◌≢◌, ◌≤◌, ◌↔◌, none, some, [], pos, arith}
use gmail_b1_gateway.Errors.{ok, err, illegal_transition, already_settled}
use gmail_b1_gateway.Store.Record.{ProposalStatus, pending, confirmed, sent, Proposal}
use gmail_b1_gateway.Store.Proposals.{
  read, create, find_by_idempotency, get_live, is_live, set_status, idem_index_key,
}
use gmail_b1_gateway.Store.Proposals.Reads.{read-put}
use gmail_b1_gateway.SendFsm.{
  human, confirm, dispatch, expire, check_actor, check_dispatch, settle, settled_status,
  settled_event,
}
use gmail_b1_gateway.Store.Ledger.{record_event}
use gmail_b1_gateway.Store.Record.{from_dict, to_dict, status_of_value, status_value}
use gmail_b1_gateway.Dict.{lookup, insert, erase}
use gmail_b1_gateway.SendFsm.Requests.{serve, serve_all}
use gmail_b1_gateway.SendFsm.AtMostOnce.{sends_of, at_most_one_send, settled_forever}
use gmail_b1_gateway.SendFsm.Provenance.{All, IsAttributed, every_send-IsAttributed}
use gmail_b1_gateway.SendFsm.Human.{IsHumanApproved, confirm_then_send_is_human}
use gmail_b1_gateway.SendFsm.Gates.{IsConfirmable, MayApprove, confirm_ok_iff}
use gmail_b1_gateway.SendFsm.Records.{key_is_permanent}
use gmail_b1_gateway.Tests.Samples.{draft, holding, world_of, gateway, busy_day}

-- The day's two dispatches make one call of the sender.
busy_day_sends_once : sends_of "p1" (serve_all gateway busy_day (world_of [])).sends ≡ 1
unfolding serve_all serve create idem_index_key confirm check_actor get_live is_live dispatch
    check_dispatch set_status record_event settle settled_status settled_event expire lookup insert
    erase from_dict to_dict status_of_value status_value read
busy_day_sends_once = refl

at_most_one_send_example : sends_of "p1" (serve_all gateway busy_day (world_of [])).sends ≤ 1
at_most_one_send_example = at_most_one_send gateway busy_day (world_of []) "p1" refl

read-holding : (s : ProposalStatus) → read "p1" (holding s) ≡ ok (draft s)
read-holding s = read-put "p1" "p1" (draft s) []

settled_forever_example :
    let w = world_of (holding sent) in
    (read "p1" (serve_all gateway busy_day w).kv ≡ ok (draft sent))
    × (sends_of "p1" (serve_all gateway busy_day w).sends ≡ 0)
settled_forever_example =
    settled_forever gateway busy_day (world_of (holding sent)) "p1" (draft sent) (read-holding sent)
      refl

nothing_confirmed : (i : String) (p : Proposal) → read i [] ≡ ok p → p.status ≢ confirmed
unfolding read lookup
nothing_confirmed i p h e = ground arith

every_send-IsAttributed_example :
    All (IsAttributed gateway.switch_mode) (serve_all gateway busy_day (world_of [])).sends
every_send-IsAttributed_example =
    every_send-IsAttributed gateway busy_day (world_of []) refl nothing_confirmed

confirm_then_send_is_human_example :
    All IsHumanApproved (serve_all gateway busy_day (world_of [])).sends
confirm_then_send_is_human_example =
    confirm_then_send_is_human gateway busy_day (world_of []) refl refl nothing_confirmed

confirm_ok_iff_example :
    let w = world_of (holding pending) in
    ((confirm gateway "p1" human (pos 150) none w).0 ≡ ok tt)
    ↔ (IsConfirmable "p1" (pos 150) w × MayApprove gateway.switch_mode human none)
confirm_ok_iff_example =
    confirm_ok_iff gateway "p1" human (pos 150) none (world_of (holding pending))

confirm_error_unchanged_refused :
    (confirm gateway "p1" human (pos 150) none (world_of (holding sent))).0 ≡ err illegal_transition
unfolding confirm get_live is_live
confirm_error_unchanged_refused = ground (arith, read-holding sent)

dispatch_error_unchanged_settled :
    (dispatch gateway "p1" (pos 150) (world_of (holding sent))).0 ≡ err already_settled
unfolding dispatch check_dispatch
dispatch_error_unchanged_settled = ground (arith, read-holding sent)

-- The draft is created, then a second proposal asks for the same key.
draft_created : (create (draft pending) []).0 ≡ ok (draft pending)
unfolding create lookup insert idem_index_key
draft_created = refl

key_is_permanent_example :
    let w' =
      serve_all gateway busy_day (record (world_of []) { kv = (create (draft pending) []).1 }) in
    (s : ProposalStatus) × (find_by_idempotency "key" w'.kv ≡ ok (some (draft s)))
    × ((r : Proposal) → (create (record (draft pending) { proposal_id = "p9" }) w'.kv).0 ≢ ok r)
key_is_permanent_example =
    key_is_permanent gateway busy_day (world_of []) (draft pending) "key"
      (record (draft pending) { proposal_id = "p9" }) draft_created refl refl
