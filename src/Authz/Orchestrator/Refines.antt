-- ===== src/Authz/Orchestrator/Refines.antt =====
-- authz/orchestrator.py: histories in which orchestrated runs stand beside the other calls, and the
-- calls of the state machine that they come down to.
use gmail_b1_gateway.Prelude.{◌≤◌, String, ◌≡◌, refl, ap, none, List, [], ◌∷◌, ◌∙◌, eq_refl, sym}
use gmail_b1_gateway.Errors.{ok}
use gmail_b1_gateway.Store.Record.{Proposal}
use gmail_b1_gateway.Store.Proposals.{read}
use gmail_b1_gateway.Store.Proposals.Reads.{read-put, get_live_ok}
use gmail_b1_gateway.SendFsm.{human, World, Fsm}
use gmail_b1_gateway.SendFsm.Steps.{approval, approval_ok, confirm_approved, dispatch_confirmed}
use gmail_b1_gateway.SendFsm.Requests.{Request, confirm_call, dispatch_call, serve, serve_all}
use gmail_b1_gateway.SendFsm.AtMostOnce.{sends_of, at_most_one_send}
use gmail_b1_gateway.Gateway.SendPath.Relay.{confirmed_world, confirmed_proposal, relayed_world}
use gmail_b1_gateway.Authz.Service.{AuthorizationRequest}
use gmail_b1_gateway.Authz.Gate.{Anchors}
use gmail_b1_gateway.Authz.Orchestrator.{System, Run, authorize_and_send}
use gmail_b1_gateway.Authz.Orchestrator.Course.{
  missing, denied, awaiting, refused, unrecorded, released, authorize_and_send-Course,
}

-- What may happen to the Gateway: an orchestrated run, or any other call of the state machine.
pub data Activity : Type 0 where
  orchestrated : String → AuthorizationRequest → Run → Activity
  direct : Request → Activity

unfoldable pub perform : Anchors → Fsm → Activity → System → System
perform gate fsm (orchestrated i request run) s = (authorize_and_send gate fsm i request run s).1
perform gate fsm (direct r) s = record s { world = serve fsm r s.world }

unfoldable pub perform_all : Anchors → Fsm → List Activity → System → System
perform_all gate fsm [] s = s
perform_all gate fsm (x ∷ xs) s = perform_all gate fsm xs (perform gate fsm x s)

-- The calls that a history comes down to: an orchestrated run makes none, or confirms as a human, or
-- confirms as a human and dispatches, its own proposal with its one reading of the clock.
pub data Trace : List Activity → List Request → Type 0 where
  done : Trace [] []
  same :
      {xs : List Activity} {rs : List Request} (r : Request)
      → Trace xs rs
      → Trace (direct r ∷ xs) (r ∷ rs)
  silent :
      {xs : List Activity} {rs : List Request} (i : String) (request : AuthorizationRequest)
      (run : Run)
      → Trace xs rs
      → Trace (orchestrated i request run ∷ xs) rs
  confirms :
      {xs : List Activity} {rs : List Request} (i : String) (request : AuthorizationRequest)
      (run : Run)
      → Trace xs rs
      → Trace (orchestrated i request run ∷ xs) (confirm_call i human run.now none ∷ rs)
  sends :
      {xs : List Activity} {rs : List Request} (i : String) (request : AuthorizationRequest)
      (run : Run)
      → Trace xs rs
      → Trace
          (orchestrated i request run ∷ xs)
          (confirm_call i human run.now none ∷ dispatch_call i run.now ∷ rs)

serve_confirm :
    (fsm : Fsm) (i : String) (run : Run) (w : World) (p : Proposal)
    → approval fsm i human run.now none w.kv ≡ ok p
    → serve fsm (confirm_call i human run.now none) w ≡ confirmed_world fsm i run.now w p
unfolding serve
serve_confirm fsm i run w p h = ap (λ x. x.1) (confirm_approved fsm i human run.now none w h)

serve_dispatch :
    (fsm : Fsm) (i : String) (run : Run) (w : World) (p : Proposal)
    → approval fsm i human run.now none w.kv ≡ ok p
    → serve fsm (dispatch_call i run.now) (confirmed_world fsm i run.now w p)
      ≡ relayed_world fsm i run.now w p
unfolding serve
serve_dispatch fsm i run w p h =
    let (live, _, _) = approval_ok fsm i human run.now none w.kv h in
    let clock = (get_live_ok i run.now w.kv live).1 in
    let v = confirmed_world fsm i run.now w p in
    let stored : read i v.kv ≡ ok (confirmed_proposal fsm i run.now w p) =
      rw (read-put, eq_refl i) in
    ap (λ x. x.1) (dispatch_confirmed fsm i run.now v stored refl clock)

-- A trace of a history whose calls take the send machine where the history takes it.
abbrev pub IsRefined : Anchors → Fsm → List Activity → System → Type 0
IsRefined gate fsm xs s =
    (rs : List Request) × Trace xs rs
    × ((perform_all gate fsm xs s).world ≡ serve_all fsm rs s.world)

module _ (gate : Anchors) (fsm : Fsm) (i : String) (request : AuthorizationRequest) (run : Run)
    (xs : List Activity) (s : System) where
  -- One orchestrated run, before a history that is refined.
  step_refines :
      ((t : System) → IsRefined gate fsm xs t)
      → IsRefined gate fsm (orchestrated i request run ∷ xs) s
  unfolding perform_all perform serve_all
  step_refines rest =
      let t = (authorize_and_send gate fsm i request run s).1 in
      let (rs, trace, e) = rest t in
      let quiet : t.world ≡ s.world → IsRefined gate fsm (orchestrated i request run ∷ xs) s =
        λ (h : t.world ≡ s.world).
          (rs, Trace.silent i request run trace, e ∙ ap (serve_all fsm rs) h) in
      elim (authorize_and_send-Course gate fsm i request run s) [
        | missing _ _ r ↦ quiet (ap (λ x. x.1.world) r)
        | denied _ _ _ _ _ r ↦ quiet (ap (λ x. x.1.world) r)
        | awaiting _ _ _ _ _ r ↦ quiet (ap (λ x. x.1.world) r)
        | refused _ _ _ _ _ _ r ↦ quiet (ap (λ x. x.1.world) r)
        | unrecorded p a u c lost r ↦ (
          confirm_call i human run.now none ∷ rs,
          Trace.confirms i request run trace,
          e
              ∙ ap (serve_all fsm rs)
                  (ap (λ x. x.1.world) r ∙ sym (serve_confirm fsm i run s.world p c.confirmable)),
        )
        | released p a u c kept r ↦ (
          confirm_call i human run.now none ∷ dispatch_call i run.now ∷ rs,
          Trace.sends i request run trace,
          e
              ∙ ap (serve_all fsm rs) (
                  ap (λ x. x.1.world) r
                  ∙ sym (serve_dispatch fsm i run s.world p c.confirmable)
                  ∙ ap (serve fsm (dispatch_call i run.now))
                      (sym (serve_confirm fsm i run s.world p c.confirmable))),
        )
      ]

-- Every history of orchestrated runs and other calls takes the stores, the audit log and the sender
-- where some calls of the send machine take them: the other calls as they are, and for each run
-- nothing, or a confirmation by a human, or that and a dispatch, of its own proposal.
pub orchestrator_refines :
    (gate : Anchors) (fsm : Fsm) (xs : List Activity) (s : System) → IsRefined gate fsm xs s
unfolding perform_all perform serve_all
orchestrator_refines gate fsm [] s = ([], Trace.done, refl)
orchestrator_refines gate fsm (orchestrated i request run ∷ xs) s =
    step_refines gate fsm i request run xs s (orchestrator_refines gate fsm xs)
orchestrator_refines gate fsm (direct r ∷ xs) s =
    let (rs, trace, e) =
      orchestrator_refines gate fsm xs (record s { world = serve fsm r s.world }) in
    (r ∷ rs, Trace.same r trace, e)

-- From a Gateway that has sent nothing, however orchestrated runs and other calls follow each other,
-- no proposal is handed to the sender twice.
pub orchestrated_at_most_once :
    (gate : Anchors) (fsm : Fsm) (xs : List Activity) (s : System) (i : String)
    → s.world.sends ≡ []
    → sends_of i (perform_all gate fsm xs s).world.sends ≤ 1
orchestrated_at_most_once gate fsm xs s i fresh =
    let (rs, trace, e) = orchestrator_refines gate fsm xs s in
    rw e (at_most_one_send fsm rs s.world i fresh)
