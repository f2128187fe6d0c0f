-- ===== src/Authz/Orchestrator/Course.antt =====
-- authz/orchestrator.py: the ways in which a run ends, with what it leaves.
use gmail_b1_gateway.Prelude.{
  String, ◌≡◌, refl, true, false, none, some, arith, Bool-cases, inl, inr, eq_iff, ◌==◌, ◌≢◌, ap,
}
use gmail_b1_gateway.Errors.{Error, authorization_denied, Result, ok, err, Result-cases}
use gmail_b1_gateway.Store.Backend.{append}
use gmail_b1_gateway.Store.Record.{Proposal}
use gmail_b1_gateway.Store.Proposals.{read}
use gmail_b1_gateway.Store.Proposals.Reads.{get_live_ok}
use gmail_b1_gateway.SendFsm.{human, Fsm, settled_status}
use gmail_b1_gateway.SendFsm.Steps.{approval, approval_ok}
use gmail_b1_gateway.Gateway.SendPath.Relay.{confirmed_world, relayed_world}
use gmail_b1_gateway.Authz.Service.{needs_approval, AuthorizationRequest}
use gmail_b1_gateway.Authz.Gate.{Safety, Anchors, Authorization}
use gmail_b1_gateway.Authz.Gate.Authorize.{authorize}
use gmail_b1_gateway.Authz.DispatchRecord.{started_row, completed_row}
use gmail_b1_gateway.Authz.Orchestrator.{
  System, Run, Outcome, denied_outcome, outcome, started_of, completed_of, after_gate,
  confirm_and_send, authorize_and_send,
}
use gmail_b1_gateway.Authz.Orchestrator.Steps.{
  was_written, appended, sent_outcome, confirm_and_send_refused, confirm_and_send_unrecorded,
  confirm_and_send_recorded,
}

-- What the caller gets where the gate raises.
abbrev pub refusal_of : Error → Result Outcome
refusal_of authorization_denied = ok denied_outcome
refusal_of e = err e

module _ (gate : Anchors) (fsm : Fsm) (i : String) (request : AuthorizationRequest) (run : Run)
    (s : System) where
  -- The gate authorized the stored proposal, and left the state `t`.
  pub record IsGated (p : Proposal) (a : Authorization) (t : Safety) : Type 0 where
    pub stored : read i s.world.kv ≡ ok p
    pub allowed : authorize gate request run.outside p.payload_digest s.safety ≡ (ok a, t)

  -- And the checks of `confirm` pass, for an automatic grant.
  pub record IsCleared (p : Proposal) (a : Authorization) (t : Safety) : Type 0 where
    pub gated : IsGated p a t
    pub automatic : a.decision.disposition ≢ needs_approval
    pub confirmable : approval fsm i human run.now none s.world.kv ≡ ok p

  pub data Course (r : Result Outcome × System) : Type 0 where
    missing : (e : Error) → read i s.world.kv ≡ err e → r ≡ (err e, s) → Course r
    denied :
        (p : Proposal) (e : Error) (t : Safety)
        → read i s.world.kv ≡ ok p
        → authorize gate request run.outside p.payload_digest s.safety ≡ (err e, t)
        → r ≡ (refusal_of e, record s { safety = t })
        → Course r
    awaiting :
        (p : Proposal) (a : Authorization) (t : Safety)
        → IsGated p a t
        → a.decision.disposition ≡ needs_approval
        → r ≡ (ok (outcome false "pending_approval" p.status), record s { safety = t })
        → Course r
    refused :
        (p : Proposal) (a : Authorization) (t : Safety) (e : Error)
        → IsGated p a t
        → approval fsm i human run.now none s.world.kv ≡ err e
        → r ≡ (err e, record s { safety = t })
        → Course r
    unrecorded :
        (p : Proposal) (a : Authorization) (t : Safety)
        → IsCleared p a t
        → was_written run.started ≡ false
        → r ≡ (
          ok (outcome false "record_unavailable" p.status),
          record {
            world = confirmed_world fsm i run.now s.world p;
            safety = t;
            records =
                appended run.started
                  (started_row (started_of gate fsm i request run p a))
                  s.records;
          },
        )
        → Course r
    released :
        (p : Proposal) (a : Authorization) (t : Safety)
        → IsCleared p a t
        → was_written run.started ≡ true
        → r ≡ (
          ok (
              sent_outcome gate fsm i request run p a
                (settled_status (fsm.sender s.world.sends i))),
          record {
            world = relayed_world fsm i run.now s.world p;
            safety = t;
            records =
                appended run.completed
                  (completed_row (
                    completed_of gate fsm i request run p a
                      (settled_status (fsm.sender s.world.sends i))))
                  (append (started_row (started_of gate fsm i request run p a)) s.records);
          },
        )
        → Course r

  Course-confirm_and_send :
      (p : Proposal) (a : Authorization) (t : Safety)
      → IsGated p a t
      → a.decision.disposition ≢ needs_approval
      → Course (confirm_and_send gate fsm i request run p a (record s { safety = t }))
  Course-confirm_and_send p a t gated auto =
      let v : System = record s { safety = t } in
      elim (Result-cases (approval fsm i human run.now none s.world.kv)) [
        | inr (e, h) ↦
            Course.refused p a t e gated h (confirm_and_send_refused gate fsm i request run p a v h)
        | inl (q, h) ↦
            let at_q =
              (get_live_ok i run.now s.world.kv
                (approval_ok fsm i human run.now none s.world.kv h).0).0 in
            let same : q ≡ p = cc (gated.stored, at_q) in
            let h' = rw same at h in
            let cleared : IsCleared p a t = record {
              gated = gated;
              automatic = auto;
              confirmable = h';
            } in
            elim (Bool-cases (was_written run.started)) [
              | inl kept ↦
                  Course.released p a t cleared kept
                    (confirm_and_send_recorded gate fsm i request run p a v p h' kept)
              | inr lost ↦
                  Course.unrecorded p a t cleared lost
                    (confirm_and_send_unrecorded gate fsm i request run p a v p h' lost)
            ]
      ]

  Course-after_gate :
      (p : Proposal) (a : Authorization) (t : Safety)
      → IsGated p a t
      → Course (after_gate gate fsm i request run p (some a) (record s { safety = t }))
  Course-after_gate p a t gated = elim (Bool-cases (a.decision.disposition == needs_approval)) [
    | inl waits ↦
        Course.awaiting p a t gated ((eq_iff a.decision.disposition needs_approval).0 waits)
          (rw waits refl)
    | inr goes ↦ rw goes (
        Course-confirm_and_send p a t gated
          (λ e. ground (arith, e, goes, eq_iff a.decision.disposition needs_approval)))
  ]

  run_missing :
      (e : Error)
      → read i s.world.kv ≡ err e
      → authorize_and_send gate fsm i request run s ≡ (err e, s)
  unfolding authorize_and_send
  run_missing e h = ground (arith, h)

  run_denied :
      (p : Proposal) (e : Error)
      → read i s.world.kv ≡ ok p
      → (authorize gate request run.outside p.payload_digest s.safety).0 ≡ err e
      → authorize_and_send gate fsm i request run s ≡ (
        refusal_of e,
        record s { safety = (authorize gate request run.outside p.payload_digest s.safety).1 },
      )
  unfolding authorize_and_send
  run_denied p e stored h = ground (arith, stored, h)

  pub run_gated :
      (p : Proposal) (a : Authorization) (t : Safety)
      → IsGated p a t
      → authorize_and_send gate fsm i request run s
        ≡ after_gate gate fsm i request run p (some a) (record s { safety = t })
  unfolding authorize_and_send
  run_gated p a t gated = ground (arith, gated.stored, gated.allowed)

  -- Every run takes one of these courses.
  pub authorize_and_send-Course : Course (authorize_and_send gate fsm i request run s)
  authorize_and_send-Course = elim (Result-cases (read i s.world.kv)) [
    | inr (e, h) ↦ Course.missing e h (run_missing e h)
    | inl (p, stored) ↦
        let call = authorize gate request run.outside p.payload_digest s.safety in
        elim (Result-cases call.0) [
          | inr (e, h) ↦
              Course.denied p e call.1 stored (ap (λ x. (x, call.1)) h) (run_denied p e stored h)
          | inl (a, h) ↦
              let gated : IsGated p a call.1 = record {
                stored = stored;
                allowed = ap (λ x. (x, call.1)) h;
              } in
              rw (run_gated p a call.1 gated) (Course-after_gate p a call.1 gated)
        ]
  ]
