-- ===== src/Gateway/SendPath/Relay.antt =====
-- gateway/send_path.py: what one relayed confirmation does.
use gmail_b1_gateway.Prelude.{String, ◌≡◌, refl, none, arith, ℤ, pos, ◌≤ℤ◌, ◌<ℤ◌, eq_refl}
use gmail_b1_gateway.Errors.{Error, ok, err}
use gmail_b1_gateway.Store.Record.{pending, confirmed, Proposal, status_value}
use gmail_b1_gateway.Store.Proposals.{read}
use gmail_b1_gateway.Store.Proposals.Reads.{read-put, get_live_ok}
use gmail_b1_gateway.SendFsm.{
  human, World, Fsm, confirmed_event, attempted_event, settled_status, settled_event,
}
use gmail_b1_gateway.SendFsm.Steps.{
  settled_world, sent_world, approval, approval_ok, confirm_approved, confirm_refused,
  dispatch_confirmed,
}
use gmail_b1_gateway.SendFsm.Gates.{approval_of_human}
use gmail_b1_gateway.Gateway.SendPath.{confirm_and_dispatch}

-- A refused confirmation raises, and changes nothing.
pub relay_refused :
    (fsm : Fsm) (i : String) (now : ℤ) (w : World) {e : Error}
    → approval fsm i human now none w.kv ≡ err e
    → confirm_and_dispatch fsm i now w ≡ (err e, w)
unfolding confirm_and_dispatch
relay_refused fsm i now w h = ground (arith, confirm_refused fsm i human now none w h)

module _ (fsm : Fsm) (i : String) (now : ℤ) (w : World) (p : Proposal) where
  -- The world in which the proposal was confirmed.
  abbrev pub confirmed_world : World
  confirmed_world = settled_world w i p confirmed (confirmed_event i human now p)

  abbrev pub confirmed_proposal : Proposal
  confirmed_proposal = record p { status = confirmed }

  -- And then attempted, sent once and settled.
  abbrev pub relayed_world : World
  relayed_world =
      let r = fsm.sender w.sends i in
      settled_world (sent_world confirmed_world i (attempted_event i now confirmed_proposal)) i
        confirmed_proposal (settled_status r) (settled_event i now r)

  pub relay_approved :
      approval fsm i human now none w.kv ≡ ok p
      → let r = fsm.sender w.sends i in
        confirm_and_dispatch fsm i now w ≡ (ok (status_value (settled_status r)), relayed_world)
  unfolding confirm_and_dispatch
  relay_approved h =
      let (live, _, _) = approval_ok fsm i human now none w.kv h in
      let clock = (get_live_ok i now w.kv live).1 in
      let stored : read i confirmed_world.kv ≡ ok confirmed_proposal = rw (read-put, eq_refl i) in
      let sent = dispatch_confirmed fsm i now confirmed_world stored refl clock in
      ground (arith, confirm_approved fsm i human now none w h, sent)

  -- On a pending proposal that has not expired, at a clock reading after the epoch, the relay does
  -- not raise: it stores and logs the confirmation, logs the attempt, calls the sender once, and
  -- stores, logs and returns the status that the sender's answer settles in.
  pub relay_settles :
      read i w.kv ≡ ok p
      → p.status ≡ pending
      → pos 0 ≤ℤ now
      → now <ℤ p.expires_at
      → confirm_and_dispatch fsm i now w
        ≡ (ok (status_value (settled_status (fsm.sender w.sends i))), relayed_world)
  relay_settles stored at_pending clock live =
      relay_approved (approval_of_human fsm i now w p stored at_pending clock live)
