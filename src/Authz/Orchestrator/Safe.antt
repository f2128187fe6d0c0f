-- ===== src/Authz/Orchestrator/Safe.antt =====
-- authz/orchestrator.py: what stands before a send, and that the runs add nothing to what the state
-- machine does.
use gmail_b1_gateway.Prelude.{
  String, ◌≡◌, refl, ◌≢◌, ◌⊎◌, inl, inr, ap, true, none, List, [], ◌∷◌, ◌++◌, arith, pos, ◌≤ℤ◌,
  ◌<ℤ◌, ◌∙◌,
}
use mathlib.Core.List.{append_assoc}
use gmail_b1_gateway.Json.{Fields}
use gmail_b1_gateway.Errors.{ok}
use gmail_b1_gateway.Store.Record.{Proposal, pending}
use gmail_b1_gateway.Store.Proposals.{read}
use gmail_b1_gateway.Store.Backend.{append}
use gmail_b1_gateway.Gateway.SendPath.Relay.{relayed_world}
use gmail_b1_gateway.SendFsm.{human, SendCall, Fsm, settled_status}
use gmail_b1_gateway.SendFsm.Gates.{approval-IsConfirmable}
use gmail_b1_gateway.Authz.Grant.{ApprovalMode, auto, per_call}
use gmail_b1_gateway.Authz.Service.{needs_approval, AuthorizationRequest}
use gmail_b1_gateway.Authz.Gate.{Safety, Anchors, Authorization, disposition_of, expected_binding}
use gmail_b1_gateway.Authz.Gate.Evidence.{IsAuthorized}
use gmail_b1_gateway.Authz.Gate.Sound.{authorize-IsAuthorized}
use gmail_b1_gateway.Authz.DispatchRecord.{started_row, completed_row}
use gmail_b1_gateway.Authz.Orchestrator.{
  System, Append, written, raised, raised_but_kept, Run, started_of, completed_of,
  authorize_and_send,
}
use gmail_b1_gateway.Authz.Orchestrator.Steps.{was_written, appended}
use gmail_b1_gateway.Authz.Orchestrator.Course.{
  missing, denied, awaiting, refused, unrecorded, released, authorize_and_send-Course, IsCleared,
}

module _ (gate : Anchors) (fsm : Fsm) (i : String) (request : AuthorizationRequest) (run : Run)
    (s t : System) where
  -- What stands behind a call of the sender, in a run from `s` to `t`.
  pub record IsReleased : Type 0 where
    pub proposal : Proposal
    pub authorization : Authorization
    pub stored : read i s.world.kv ≡ ok proposal
    pub at_pending : proposal.status ≡ pending
    pub after_epoch : pos 0 ≤ℤ run.now
    pub live : run.now <ℤ proposal.expires_at
    pub gated :
        IsAuthorized gate request run.outside proposal.payload_digest s.safety
          authorization.decision t.safety
    pub automatic : gated.grant.approval_mode ≡ auto
    pub same_payload : authorization.decision.action_digest ≡ proposal.payload_digest
    pub record_written : run.started ≡ written
    pub recorded :
        (later : List Fields) × (t.records
          ≡ s.records
            ++ started_row (started_of gate fsm i request run proposal authorization) ∷ later)
    pub one_call :
        (call : SendCall) × (call.proposal_id ≡ i) × (t.world.sends ≡ s.world.sends ++ call ∷ [])

mode_of_disposition : (m : ApprovalMode) → disposition_of m ≢ needs_approval → m ≡ auto
mode_of_disposition auto h = refl
mode_of_disposition per_call h = absurd (h refl)

pub was_written_ok : (x : Append) → was_written x ≡ true → x ≡ written
was_written_ok x h = ground arith

-- The second row comes after the first, if it comes.
appended_later :
    (x : Append) (first second : Fields) (log : List Fields)
    → (later : List Fields) × (appended x second (log ++ first ∷ []) ≡ log ++ first ∷ later)
appended_later written first second log = (second ∷ [], append_assoc log (first ∷ []) (second ∷ []))
appended_later raised first second log = ([], refl)
appended_later raised_but_kept first second log =
    (second ∷ [], append_assoc log (first ∷ []) (second ∷ []))

module _ (gate : Anchors) (fsm : Fsm) (i : String) (request : AuthorizationRequest) (run : Run)
    (s : System) where
  -- The state that a run leaves in which the call was made.
  abbrev released_system : Proposal → Authorization → Safety → System
  released_system p a t = record {
    world = relayed_world fsm i run.now s.world p;
    safety = t;
    records =
        appended run.completed
          (completed_row
            (completed_of gate fsm i request run p a (settled_status (fsm.sender s.world.sends i))))
          (append (started_row (started_of gate fsm i request run p a)) s.records);
  }

  released-IsReleased :
      (p : Proposal) (a : Authorization) (t : Safety)
      → IsCleared gate fsm i request run s p a t
      → was_written run.started ≡ true
      → IsReleased gate fsm i request run s (released_system p a t)
  unfolding expected_binding
  released-IsReleased p a t c kept =
      let evidence =
        authorize-IsAuthorized gate request run.outside p.payload_digest s.safety c.gated.allowed in
      let agrees = evidence.bound.agrees in
      let (q, at_q, waiting, epoch, live) =
        approval-IsConfirmable fsm i human run.now none s.world c.confirmable in
      let same : q ≡ p = cc (at_q, c.gated.stored) in
      record {
        proposal = p;
        authorization = a;
        stored = c.gated.stored;
        at_pending = rw same at waiting;
        after_epoch = epoch;
        live = rw same at live;
        gated = evidence;
        automatic =
            mode_of_disposition evidence.grant.approval_mode
              (λ e. c.automatic (agrees.disposition ∙ e));
        same_payload = agrees.action_digest;
        record_written = was_written_ok run.started kept;
        recorded =
            appended_later run.completed (started_row (started_of gate fsm i request run p a)) _
              s.records;
        one_call = (_, refl, refl);
      }

  -- A run leaves the sender alone, or all of this stands behind its one call: the stored proposal was
  -- pending and not expired at a clock reading after the epoch; the gate's evidence for the digest of
  -- that stored proposal, under an automatic grant, with a decision on that same digest; and a record
  -- that ties the decision to the request, the proposal and the digest, written before the call.
  pub authorize_and_send_guarded :
      let t = (authorize_and_send gate fsm i request run s).1 in
      (t.world.sends ≡ s.world.sends) ⊎ IsReleased gate fsm i request run s t
  authorize_and_send_guarded = elim (authorize_and_send-Course gate fsm i request run s) [
    | missing e h r ↦ inl (ap (λ x. x.1.world.sends) r)
    | denied p e t stored h r ↦ inl (ap (λ x. x.1.world.sends) r)
    | awaiting p a t g h r ↦ inl (ap (λ x. x.1.world.sends) r)
    | refused p a t e g h r ↦ inl (ap (λ x. x.1.world.sends) r)
    | unrecorded p a t c lost r ↦ inl (ap (λ x. x.1.world.sends) r)
    | released p a t c kept r ↦ inr (rw r (released-IsReleased p a t c kept))
  ]
