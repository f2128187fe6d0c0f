-- ===== src/SendFsm/Requests.antt =====
-- The calls that reach a proposal, and runs of them: a new proposal from the proposal service
-- (which creates it pending), and the three methods of sendfsm/fsm.py. A call that raises ends
-- only itself.
use gmail_b1_gateway.Prelude.{String, Bool, Option, List, [], ◌∷◌, ℤ}
use gmail_b1_gateway.Store.Record.{pending, Proposal}
use gmail_b1_gateway.Store.Proposals.{create}
use gmail_b1_gateway.SendFsm.{Actor, World, Fsm, on_kv, confirm, dispatch, expire}

pub data Request : Type 0 where
  new_proposal : Proposal → Request
  confirm_call : String → Actor → ℤ → Option Bool → Request
  dispatch_call : String → ℤ → Request
  expire_call : String → ℤ → Request

unfoldable pub serve : Fsm → Request → World → World
serve fsm (new_proposal p) w = (on_kv (create (record p { status = pending })) w).1
serve fsm (confirm_call i actor now reachable) w = (confirm fsm i actor now reachable w).1
serve fsm (dispatch_call i now) w = (dispatch fsm i now w).1
serve fsm (expire_call i now) w = (expire i now w).1

unfoldable pub serve_all : Fsm → List Request → World → World
serve_all fsm [] w = w
serve_all fsm (r ∷ rs) w = serve_all fsm rs (serve fsm r w)
