-- ===== src/Tests/SendPath.antt =====
-- gateway/send_path.py: one relay, and two at once, of a concrete proposal.
use gmail_b1_gateway.Prelude.{◌≡◌, refl, ◌+◌, List, [], pos, arith}
use gmail_b1_gateway.Errors.{ok}
use gmail_b1_gateway.Store.Record.{pending, status_value}
use gmail_b1_gateway.Store.Proposals.{read}
use gmail_b1_gateway.Store.Proposals.Reads.{read-put}
use gmail_b1_gateway.SendFsm.{settled_status}
use gmail_b1_gateway.SendFsm.AtMostOnce.{sends_of}
use gmail_b1_gateway.Gateway.SendPath.{confirm_and_dispatch, waiting, Pair, Turn, interleave}
use gmail_b1_gateway.Gateway.SendPath.Relay.{relayed_world, relay_settles}
use gmail_b1_gateway.Gateway.SendPath.Race.{relays_can_send_twice}
use gmail_b1_gateway.Tests.Samples.{draft, holding, world_of, gateway}

stored : read "p1" (holding pending) ≡ ok (draft pending)
stored = read-put "p1" "p1" (draft pending) []

relay_settles_example :
    let w = world_of (holding pending) in
    confirm_and_dispatch gateway "p1" (pos 150) w ≡ (
      ok (status_value (settled_status (gateway.sender w.sends "p1"))),
      relayed_world gateway "p1" (pos 150) w (draft pending),
    )
relay_settles_example =
    relay_settles gateway "p1" (pos 150) (world_of (holding pending)) (draft pending) stored refl
      (omega arith) (omega arith)

relays_can_send_twice_example :
    let w = world_of (holding pending) in
    let start : Pair = record { left = waiting; right = waiting; world = w } in
    (schedule : List Turn) × (sends_of "p1"
        (interleave gateway "p1" (pos 150) schedule start).world.sends
      ≡ sends_of "p1" w.sends + 2)
relays_can_send_twice_example =
    relays_can_send_twice gateway "p1" (pos 150) (world_of (holding pending)) (draft pending) stored
      refl (omega arith) (omega arith)
