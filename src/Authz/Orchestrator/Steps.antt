-- ===== src/Authz/Orchestrator/Steps.antt =====
-- authz/orchestrator.py: what a run does after the gate, by what the checks of `confirm` say.
use gmail_b1_gateway.Prelude.{
  String, ◌≡◌, refl, true, false, none, arith, eq_refl, if◌then◌else◌, Bool,
}
use gmail_b1_gateway.Json.{Fields}
use gmail_b1_gateway.Errors.{Error, ok, err}
use gmail_b1_gateway.Store.Backend.{AppendLog, append}
use gmail_b1_gateway.Store.Record.{Proposal, ProposalStatus, status_value}
use gmail_b1_gateway.Store.Proposals.{read}
use gmail_b1_gateway.Store.Proposals.Reads.{read-put, get_live_ok}
use gmail_b1_gateway.SendFsm.{human, Fsm, settled_status}
use gmail_b1_gateway.SendFsm.Steps.{
  approval, approval_ok, confirm_approved, confirm_refused, dispatch_confirmed,
}
use gmail_b1_gateway.Gateway.SendPath.Relay.{confirmed_world, confirmed_proposal, relayed_world}
use gmail_b1_gateway.Authz.Service.{AuthorizationRequest}
use gmail_b1_gateway.Authz.Gate.{Anchors, Authorization}
use gmail_b1_gateway.Authz.DispatchRecord.{started_row, completed_row}
use gmail_b1_gateway.Authz.Orchestrator.{
  System, Append, written, raised, Run, Outcome, outcome, is_sent_status, started_of, completed_of,
  confirm_and_send,
}

abbrev pub was_written : Append → Bool
was_written written = true
was_written _ = false

-- The records after an append.
abbrev pub appended : Append → Fields → AppendLog → AppendLog
appended raised row log = log
appended _ row log = append row log

module _ (gate : Anchors) (fsm : Fsm) (i : String) (request : AuthorizationRequest) (run : Run)
    (p : Proposal) (a : Authorization) where
  -- The outcome of a run that called the sender.
  abbrev pub sent_outcome : ProposalStatus → Outcome
  sent_outcome status =
      if was_written run.completed
      then outcome (is_sent_status status) (status_value status) status
      else outcome false "outcome_unknown" status

  pub confirm_and_send_refused :
      (s : System) {e : Error}
      → approval fsm i human run.now none s.world.kv ≡ err e
      → confirm_and_send gate fsm i request run p a s ≡ (err e, s)
  confirm_and_send_refused s h = ground (arith, confirm_refused fsm i human run.now none s.world h)

  -- The record of the start was not written: the proposal stays confirmed, and no call is made.
  pub confirm_and_send_unrecorded :
      (s : System) (q : Proposal)
      → approval fsm i human run.now none s.world.kv ≡ ok q
      → was_written run.started ≡ false
      → confirm_and_send gate fsm i request run p a s ≡ (
        ok (outcome false "record_unavailable" p.status),
        record s {
          world = confirmed_world fsm i run.now s.world q;
          records =
              appended run.started (started_row (started_of gate fsm i request run p a)) s.records;
        },
      )
  confirm_and_send_unrecorded s q h lost =
      ground (arith, confirm_approved fsm i human run.now none s.world h)

  -- The record of the start was written: one call is made, and the answer settles the proposal.
  pub confirm_and_send_recorded :
      (s : System) (q : Proposal)
      → approval fsm i human run.now none s.world.kv ≡ ok q
      → was_written run.started ≡ true
      → let status = settled_status (fsm.sender s.world.sends i) in
        confirm_and_send gate fsm i request run p a s ≡ (
          ok (sent_outcome status),
          record s {
            world = relayed_world fsm i run.now s.world q;
            records =
                appended run.completed
                  (completed_row (completed_of gate fsm i request run p a status))
                  (append (started_row (started_of gate fsm i request run p a)) s.records);
          },
        )
  confirm_and_send_recorded s q h kept =
      let (live, _, _) = approval_ok fsm i human run.now none s.world.kv h in
      let clock = (get_live_ok i run.now s.world.kv live).1 in
      let v = confirmed_world fsm i run.now s.world q in
      let stored : read i v.kv ≡ ok (confirmed_proposal fsm i run.now s.world q) =
        rw (read-put, eq_refl i) in
      let dispatched = dispatch_confirmed fsm i run.now v stored refl clock in
      ground (arith, confirm_approved fsm i human run.now none s.world h, dispatched)
