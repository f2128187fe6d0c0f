-- ===== src/Authz/Orchestrator/Recorded.antt =====
-- authz/orchestrator.py and authz/dispatch_record.py: what an outcome says of the stores, and the rows
-- that the audit query finds for it.
use gmail_b1_gateway.Prelude.{
  String, ◌≡◌, ◌≢◌, refl, ap, ◌∙◌, true, false, some, [], ◌∷◌, ◌++◌, arith, eq_refl, ◌==◌, eq_iff,
  pos, ◌≤ℤ◌, ◌<ℤ◌,
}
use mathlib.Core.List.{append_assoc}
use gmail_b1_gateway.Json.{Fields, str, member}
use gmail_b1_gateway.Errors.{Error, ok}
use gmail_b1_gateway.Store.Backend.{AppendLog, append}
use gmail_b1_gateway.Store.Record.{Proposal, ProposalStatus, pending, sent, status_value}
use gmail_b1_gateway.Store.Proposals.{read}
use gmail_b1_gateway.Store.Proposals.Reads.{read-put}
use gmail_b1_gateway.SendFsm.{Fsm, SendResult, accepted, settled_status}
use gmail_b1_gateway.SendFsm.Gates.{approval_of_human}
use gmail_b1_gateway.Gateway.SendPath.Relay.{relayed_world}
use gmail_b1_gateway.Authz.Service.{needs_approval, AuthorizationRequest}
use gmail_b1_gateway.Authz.Gate.{Safety, Anchors, Authorization}
use gmail_b1_gateway.Authz.Gate.Authorize.{authorize}
use gmail_b1_gateway.Authz.DispatchRecord.{
  DispatchStarted, DispatchCompleted, started_row, completed_row, binds, bound_rows, find,
}
use gmail_b1_gateway.Authz.Orchestrator.{
  System, written, Run, Outcome, is_sent_status, outcome, started_of, completed_of,
  authorize_and_send,
}
use gmail_b1_gateway.Authz.Orchestrator.Steps.{appended, sent_outcome, confirm_and_send_recorded}
use gmail_b1_gateway.Authz.Orchestrator.Course.{
  missing, denied, awaiting, refused, unrecorded, released, authorize_and_send-Course, IsGated,
  refusal_of, run_gated,
}

bound_rows-append :
    (i q d : String) (xs ys : AppendLog)
    → bound_rows i q d (xs ++ ys) ≡ bound_rows i q d xs ++ bound_rows i q d ys
bound_rows-append i q d [] ys = refl
bound_rows-append i q d (x ∷ xs) ys = ground (arith, bound_rows-append i q d xs ys)

-- The identifiers that `find` asks for are not empty.
abbrev pub IsBindable : String → String → String → Type 0
IsBindable i q d = (i == "" ≡ false) × (q == "" ≡ false) × (d == "" ≡ false)

find-append :
    (i q d : String) (log rows : AppendLog)
    → IsBindable i q d
    → find i q d (log ++ rows) ≡ find i q d log ++ bound_rows i q d rows
unfolding find
find-append i q d log rows (hi, hq, hd) = rw (hi, hq, hd) (bound_rows-append i q d log rows)

-- A row of a run binds to its proposal, request and payload.
started_binds :
    (r : DispatchStarted) → binds r.proposal_id r.request_id r.action_digest (started_row r) ≡ true
unfolding started_row
started_binds r = rw (eq_refl r.proposal_id, eq_refl r.request_id, eq_refl r.action_digest) refl

completed_binds :
    (r : DispatchCompleted)
    → binds r.proposal_id r.request_id r.action_digest (completed_row r) ≡ true
unfolding completed_row
completed_binds r = rw (eq_refl r.proposal_id, eq_refl r.request_id, eq_refl r.action_digest) refl

is_sent_status_iff : (x : ProposalStatus) → is_sent_status x ≡ true → x ≡ sent
is_sent_status_iff x h = ground arith

module _ (gate : Anchors) (fsm : Fsm) (i : String) (request : AuthorizationRequest)
    (run : Run) where
  -- A sent outcome of the last two calls: the sender's answer was taken as sent, and the second row
  -- was written.
  sent_outcome_ok :
      (p : Proposal) (a : Authorization) (x : ProposalStatus)
      → (sent_outcome gate fsm i request run p a x).is_sent ≡ true
      → (x ≡ sent) × (run.completed ≡ written)
  sent_outcome_ok p a x h = (ground arith, ground arith)

  -- A row tells its phase, the authorization's decision, and what the run was for.
  pub record Tells (phase : String) (p : Proposal) (a : Authorization) (row : Fields) : Type 0 where
    pub at_phase : member "phase" row ≡ some (str phase)
    pub by_decision : member "decision_id" row ≡ some (str a.decision.decision_id)
    pub for_request : member "request_id" row ≡ some (str request.request_id)
    pub for_proposal : member "proposal_id" row ≡ some (str i)
    pub for_payload : member "action_digest" row ≡ some (str p.payload_digest)

  started-Tells :
      (p : Proposal) (a : Authorization)
      → Tells "started" p a (started_row (started_of gate fsm i request run p a))
  unfolding started_row
  started-Tells p a = record {
    at_phase = refl;
    by_decision = refl;
    for_request = refl;
    for_proposal = refl;
    for_payload = refl;
  }

  completed-Tells :
      (p : Proposal) (a : Authorization)
      → Tells "completed" p a (completed_row (completed_of gate fsm i request run p a sent))
  unfolding completed_row
  completed-Tells p a = record {
    at_phase = refl;
    by_decision = refl;
    for_request = refl;
    for_proposal = refl;
    for_payload = refl;
  }

  completed_ended :
      (p : Proposal) (a : Authorization)
      → member "terminal_status" (completed_row (completed_of gate fsm i request run p a sent))
        ≡ some (str "sent")
  unfolding completed_row status_value
  completed_ended p a = refl

  -- The outcome says that the message was sent, and the audit query shows both rows.
  pub record IsRecorded (s t : System) (p : Proposal) : Type 0 where
    pub authorization : Authorization
    pub allowed :
        authorize gate request run.outside p.payload_digest s.safety ≡ (ok authorization, t.safety)
    pub now_sent : read i t.world.kv ≡ ok (record p { status = sent })
    pub first_row : Fields
    pub second_row : Fields
    pub start_tells : Tells "started" p authorization first_row
    pub end_tells : Tells "completed" p authorization second_row
    pub ended : member "terminal_status" second_row ≡ some (str "sent")
    pub two_rows :
        find i request.request_id p.payload_digest t.records
        ≡ find i request.request_id p.payload_digest s.records ++ first_row ∷ second_row ∷ []

  -- A released run whose outcome says sent.
  released-IsRecorded :
      (s : System) (p : Proposal) (a : Authorization) (u : Safety)
      → authorize gate request run.outside p.payload_digest s.safety ≡ (ok a, u)
      → IsBindable i request.request_id p.payload_digest
      → let x = settled_status (fsm.sender s.world.sends i) in
        (sent_outcome gate fsm i request run p a x).is_sent ≡ true
        → IsRecorded s
            (record {
              safety = u;
              world = relayed_world fsm i run.now s.world p;
              records =
                  appended run.completed
                    (completed_row (completed_of gate fsm i request run p a x))
                    (append (started_row (started_of gate fsm i request run p a)) s.records);
            })
            p
  released-IsRecorded s p a u authorized named h =
      let (now_sent, kept) = sent_outcome_ok p a (settled_status (fsm.sender s.world.sends i)) h in
      let first = started_of gate fsm i request run p a in
      let second = completed_of gate fsm i request run p a sent in
      let one = started_binds first in
      let two = completed_binds second in
      record {
        authorization = a;
        allowed = authorized;
        first_row = started_row first;
        second_row = completed_row second;
        start_tells = started-Tells p a;
        end_tells = completed-Tells p a;
        ended = completed_ended p a;
        now_sent = rw (read-put, eq_refl i, now_sent) refl;
        two_rows =
            rw (kept, now_sent)
              (rw (append_assoc s.records (started_row first ∷ []) (completed_row second ∷ [])) (
                find-append i request.request_id p.payload_digest s.records
                  (started_row first ∷ completed_row second ∷ []) named
                ∙ ap (λ xs. find i request.request_id p.payload_digest s.records ++ xs)
                    (rw (one, two) refl)));
      }

denied_not_sent : (e : Error) {o : Outcome} → refusal_of e ≡ ok o → o.is_sent ≡ false
denied_not_sent e h = ground arith

-- An outcome that says sent is never lossy: the stored proposal is in the status sent, and the audit
-- query for the proposal, the request and the payload finds, after what it found before, exactly a row of the
-- start and a row of the end that ended in sent, both with this request, proposal and payload and with the decision of the authorization that the gate returned in this run, for
-- this request and the stored payload's digest. The three identifiers must not be empty.
pub sent-IsRecorded :
    (gate : Anchors) (fsm : Fsm) (i : String) (request : AuthorizationRequest) (run : Run)
    (s : System) (p : Proposal) (o : Outcome)
    → read i s.world.kv ≡ ok p
    → IsBindable i request.request_id p.payload_digest
    → (authorize_and_send gate fsm i request run s).0 ≡ ok o
    → o.is_sent ≡ true
    → IsRecorded gate fsm i request run s (authorize_and_send gate fsm i request run s).1 p
sent-IsRecorded gate fsm i request run s p o stored named h is_sent =
    elim (authorize_and_send-Course gate fsm i request run s) [
      | missing e _ r ↦ absurd (ground (arith, h, ap (λ x. x.0) r))
      | denied q e t _ _ r ↦
          absurd (cc (denied_not_sent e {o = o} (cc (h, ap (λ x. x.0) r)), is_sent))
      | awaiting q a t _ _ r ↦ absurd (ground (arith, h, ap (λ x. x.0) r))
      | refused q a t e _ _ r ↦ absurd (ground (arith, h, ap (λ x. x.0) r))
      | unrecorded q a t c _ r ↦ absurd (ground (arith, h, ap (λ x. x.0) r))
      | released q a t c _ r ↦
          let same : q ≡ p = cc (c.gated.stored, stored) in
          let x = settled_status (fsm.sender s.world.sends i) in
          let is_o : o ≡ sent_outcome gate fsm i request run q a x = cc (h, ap (λ x. x.0) r) in
          rw r (
            rw same (
              released-IsRecorded gate fsm i request run s p a t (rw same at c.gated.allowed) named
                (rw is_o at is_sent)))
    ]

-- Where the gate authorizes a stored proposal under an automatic grant, the proposal is pending and not
-- expired at a clock reading after the epoch, both rows are written and the sender accepts, the run
-- returns and says sent.
pub authorize_and_send_delivers :
    (gate : Anchors) (fsm : Fsm) (i : String) (request : AuthorizationRequest) (run : Run)
    (s : System) (p : Proposal) (a : Authorization) (t : Safety) (x : SendResult)
    → IsGated gate fsm i request run s p a t
    → a.decision.disposition ≢ needs_approval
    → p.status ≡ pending
    → pos 0 ≤ℤ run.now
    → run.now <ℤ p.expires_at
    → run.started ≡ written
    → run.completed ≡ written
    → fsm.sender s.world.sends i ≡ some x
    → x.kind ≡ accepted
    → (authorize_and_send gate fsm i request run s).0 ≡ ok (outcome true "sent" sent)
unfolding settled_status status_value
authorize_and_send_delivers gate fsm i request run s p a t x gated auto waiting clock live one two
      answers accepts =
    let may = approval_of_human fsm i run.now s.world p gated.stored waiting clock live in
    let v : System = record s { safety = t } in
    let sends = confirm_and_send_recorded gate fsm i request run p a v p may (rw one refl) in
    let goes : (a.decision.disposition == needs_approval) ≡ false =
      ground (arith, eq_iff a.decision.disposition needs_approval) in
    ground (
      arith,
      ap (λ r. r.0) (run_gated gate fsm i request run s p a t gated),
      ap (λ r. r.0) sends,
      goes,
      two,
      answers,
    )
