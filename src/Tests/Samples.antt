-- ===== src/Tests/Samples.antt =====
-- A proposal and its copies in the store, a sender, and a toy cipher.
use gmail_b1_gateway.Prelude.{none, some, List, [], ◌∷◌, pos}
use gmail_b1_gateway.Actionset.Switch.{confirm_then_send}
use gmail_b1_gateway.Store.Backend.{Kv, put}
use gmail_b1_gateway.Store.Record.{ProposalStatus, pending, Proposal, to_dict}
use gmail_b1_gateway.SendFsm.{human, accepted, SendResult, World, Fsm}
use gmail_b1_gateway.SendFsm.Requests.{
  Request, new_proposal, confirm_call, dispatch_call, expire_call,
}

-- Expires at 200, created at 100, with the idempotency key "key".
abbrev pub draft : ProposalStatus → Proposal
draft s = record {
  proposal_id = "p1";
  payload_digest = "d1";
  expires_at = pos 200;
  created_at = pos 100;
  status = s;
  idempotency_key = some "key";
}

abbrev pub holding : ProposalStatus → Kv
holding s = put "p1" (to_dict (draft s)) []

abbrev pub world_of : Kv → World
world_of kv = record { kv = kv; log = []; sends = [] }

abbrev pub accepts : SendResult
accepts = record {
  kind = accepted;
  message_id_sha256 = some "m";
  thread_id_sha256 = none;
  error_code = none;
  egress_hosts = "gmail.googleapis.com" ∷ [];
}

-- The switch is confirm-then-send, and the sender accepts every message.
abbrev pub gateway : Fsm
gateway = record { sender = λ calls i. some accepts; switch_mode = confirm_then_send }

-- A new proposal, a confirmation, two dispatches and an expiry.
abbrev pub busy_day : List Request
busy_day =
    new_proposal (draft pending)
    ∷ confirm_call "p1" human (pos 150) none
    ∷ dispatch_call "p1" (pos 151)
    ∷ dispatch_call "p1" (pos 152)
    ∷ expire_call "p1" (pos 300)
    ∷ []
