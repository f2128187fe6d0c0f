-- ===== src/SendFsm/Human.antt =====
-- sendfsm/fsm.py: with the switch at confirm-then-send, a human stands before every send.
use gmail_b1_gateway.Prelude.{String, ◌≡◌, refl, subst, ◌≢◌, Bool, Option, List, [], ◌∷◌, arith, ℤ}
use gmail_b1_gateway.Errors.{ok}
use gmail_b1_gateway.Actionset.Switch.{confirm_then_send}
use gmail_b1_gateway.Store.Record.{Proposal, confirmed}
use gmail_b1_gateway.Store.Proposals.{read}
use gmail_b1_gateway.Store.Ledger.{to_entry}
use gmail_b1_gateway.SendFsm.{
  Actor, human, SendCall, World, Fsm, check_actor, confirmed_event, attempted_event,
}
use gmail_b1_gateway.SendFsm.Requests.{Request, serve_all}
use gmail_b1_gateway.SendFsm.Provenance.{
  Holds, Holds-Grows, All, IsAttributed, every_send-IsAttributed,
}

-- The log before the call holds a confirmation of its proposal by a human.
pub record IsHumanApproved (c : SendCall) : Type 0 where
  pub at : ℤ
  pub proposal : Proposal
  pub logged : Holds (to_entry (confirmed_event c.proposal_id human at proposal)) c.log_before

human_only :
    (actor : Actor) (reachable : Option Bool)
    → check_actor confirm_then_send actor reachable ≡ ok tt
    → actor ≡ human
unfolding check_actor
human_only actor reachable h = ground arith

IsHumanApproved-IsAttributed : (c : SendCall) → IsAttributed confirm_then_send c → IsHumanApproved c
IsHumanApproved-IsAttributed c h =
    let a = h.approved in
    record {
      at = a.at;
      proposal = a.proposal;
      logged = rw h.attempted (
          Holds-Grows (rw (human_only a.actor a.reachable a.allowed) at a.logged)
            (to_entry (attempted_event c.proposal_id h.now h.proposal) ∷ [], refl));
    }

All-map :
    (P Q : SendCall → Type 0)
    → ((c : SendCall) → P c → Q c)
    → (cs : List SendCall) → All P cs
    → All Q cs
All-map P Q f [] h = tt
All-map P Q f (c ∷ cs) h = (f c h.0, All-map P Q f cs h.1)

-- Under the confirm-then-send switch, from a start with nothing sent and nothing confirmed, every
-- call of the sender comes after a logged confirmation of its proposal by a human.
pub confirm_then_send_is_human :
    (fsm : Fsm) (rs : List Request) (w : World)
    → fsm.switch_mode ≡ confirm_then_send
    → w.sends ≡ []
    → ((i : String) (p : Proposal) → read i w.kv ≡ ok p → p.status ≢ confirmed)
    → All IsHumanApproved (serve_all fsm rs w).sends
confirm_then_send_is_human fsm rs w mode unsent unconfirmed =
    let cs = (serve_all fsm rs w).sends in
    All-map (IsAttributed confirm_then_send) IsHumanApproved IsHumanApproved-IsAttributed cs (
      subst (λ m. All (IsAttributed m) cs) mode
        (every_send-IsAttributed fsm rs w unsent unconfirmed))
