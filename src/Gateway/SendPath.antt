-- ===== src/Gateway/SendPath.antt =====
-- gateway/send_path.py: `ConfirmDispatcher`, alone and as two callers that interleave. The server
-- handles each request on its own thread, and the `send` command runs in its own process; only
-- single accesses of the store are serialised.
pub mod Relay
pub mod Race
pub mod Alone
use gmail_b1_gateway.Prelude.{String, Bool, true, false, Option, none, some, List, [], ◌∷◌, ℤ}
use gmail_b1_gateway.Errors.{Result, ok, err, Action, pure, lift, query, ◌>>=◌, ◌>>◌}
use gmail_b1_gateway.Store.Record.{ProposalStatus, confirmed, Proposal, status_value}
use gmail_b1_gateway.Store.Proposals.{read, set_status}
use gmail_b1_gateway.Store.Ledger.{record_event}
use gmail_b1_gateway.SendFsm.{
  human, SendResult, World, Fsm, on_kv, on_log, confirmed_event, confirm, check_dispatch,
  attempted_event, call_sender, settle, dispatch,
}
use gmail_b1_gateway.SendFsm.Steps.{approval}

-- `confirm_and_dispatch`, with one reading of the clock.
unfoldable pub confirm_and_dispatch : Fsm → String → ℤ → Action World String
confirm_and_dispatch fsm proposal_id now = do
  confirm fsm proposal_id human now none
  status ← dispatch fsm proposal_id now
  pure (status_value status)

-- Where a caller stands in `confirm_and_dispatch`, by the stored record it last acted on.
pub data Caller : Type 0 where
  waiting : Caller
  -- `confirm` has read the proposal and made its checks.
  checked : Proposal → Caller
  -- `confirm` has returned.
  approved : Caller
  -- `dispatch` has read the proposal and made its checks.
  cleared : Proposal → Caller
  done : Result String → Caller

abbrev commit_confirm : String → ℤ → Proposal → Action World (Unit {0})
commit_confirm i now p = do
  updated ← on_kv (set_status i confirmed)
  on_log (record_event (confirmed_event i human now p))

abbrev commit_dispatch : Fsm → String → ℤ → Proposal → Action World ProposalStatus
commit_dispatch fsm i now p = do
  on_log (record_event (attempted_event i now p))
  result ← call_sender fsm i
  settle i now result

-- One uninterrupted stretch of a caller: the checks of `confirm`, its writes, the checks of
-- `dispatch`, and its writes with the call of the sender between them.
unfoldable pub advance : Fsm → String → ℤ → Caller → World → Caller × World
unfolding settle set_status record_event check_dispatch
advance fsm i now waiting w = elim (approval fsm i human now none w.kv) [
  | ok p ↦ (checked p, w)
  | err e ↦ (done (err e), w)
]
advance fsm i now (checked p) w =
    let (r, w') = commit_confirm i now p w in
    elim r [ ok _ ↦ (approved, w') | err e ↦ (done (err e), w') ]
advance fsm i now approved w = elim (read i w.kv) [
  | ok p ↦ elim (check_dispatch p.status) [ ok _ ↦ (cleared p, w) | err e ↦ (done (err e), w) ]
  | err e ↦ (done (err e), w)
]
advance fsm i now (cleared p) w =
    let (r, w') = commit_dispatch fsm i now p w in
    elim r [ ok s ↦ (done (ok (status_value s)), w') | err e ↦ (done (err e), w') ]
advance fsm i now (done r) w = (done r, w)

-- Two callers that confirm the same proposal, over one store.
pub record Pair : Type 0 where
  pub left : Caller
  pub right : Caller
  pub world : World

abbrev pub step_left : Fsm → String → ℤ → Pair → Pair
step_left fsm i now s =
    let (c, w) = advance fsm i now s.left s.world in record s { left = c; world = w }

abbrev pub step_right : Fsm → String → ℤ → Pair → Pair
step_right fsm i now s =
    let (c, w) = advance fsm i now s.right s.world in record s { right = c; world = w }

pub data Turn : Type 0 where
  left_turn right_turn : Turn

-- A schedule says which caller runs its next stretch.
unfoldable pub interleave : Fsm → String → ℤ → List Turn → Pair → Pair
interleave fsm i now [] s = s
interleave fsm i now (left_turn ∷ ts) s = interleave fsm i now ts (step_left fsm i now s)
interleave fsm i now (right_turn ∷ ts) s = interleave fsm i now ts (step_right fsm i now s)
