-- ===== src/SendFsm/Provenance.antt =====
-- What the audit log shows of every call of the sender: the attempt was logged right before it, and
-- an approval that the switch mode allows before that.
use mathlib.Core.List.{append-nil, append_assoc}
use gmail_b1_gateway.Prelude.{
  String, ◌≡◌, refl, sym, ◌≢◌, ◌∙◌, ap, inl, inr, Bool, true, Option, List, [], ◌∷◌, ◌++◌, arith, ℤ,
  eq_iff, ◌==◌, Bool-cases,
}
use gmail_b1_gateway.Json.{Fields}
use gmail_b1_gateway.Errors.{ok}
use gmail_b1_gateway.Actionset.Switch.{SwitchMode}
use gmail_b1_gateway.Store.Backend.{Kv, AppendLog, put}
use gmail_b1_gateway.Store.Record.{Proposal, confirmed, failed, is_terminal, to_dict}
use gmail_b1_gateway.Store.Proposals.{read}
use gmail_b1_gateway.Store.Proposals.Reads.{read-put}
use gmail_b1_gateway.Store.Ledger.{to_entry}
use gmail_b1_gateway.SendFsm.{
  Actor, SendCall, World, Fsm, check_actor, confirmed_event, attempted_event, settled_event,
  expired_event, settled_status,
}
use gmail_b1_gateway.SendFsm.Steps.{settled_world}
use gmail_b1_gateway.SendFsm.Moves.{Move, serve-Move}
use gmail_b1_gateway.SendFsm.AtMostOnce.{is_terminal-settled_status}
use gmail_b1_gateway.SendFsm.Requests.{Request, serve, serve_all}

-- The log holds the entry.
abbrev pub Holds : Fields → AppendLog → Type 0
Holds entry log = (before after : AppendLog) × (log ≡ before ++ entry ∷ after)

-- The log has grown by appending.
abbrev pub Grows : AppendLog → AppendLog → Type 0
Grows log log' = (after : AppendLog) × (log' ≡ log ++ after)

Grows-refl : (log : AppendLog) → Grows log log
Grows-refl log = ([], sym (append-nil log))

pub Holds-Grows : {entry : Fields} {a b : AppendLog} → Holds entry a → Grows a b → Holds entry b
Holds-Grows {entry} (x, y, e) (z, f) = (x, y ++ z, rw (f, e) (append_assoc x (entry ∷ y) z))

-- An approval of the proposal that the switch mode allows, in the log.
pub record IsApproved (mode : SwitchMode) (i : String) (log : AppendLog) : Type 0 where
  pub actor : Actor
  pub reachable : Option Bool
  pub at : ℤ
  pub proposal : Proposal
  pub allowed : check_actor mode actor reachable ≡ ok tt
  pub logged : Holds (to_entry (confirmed_event i actor at proposal)) log

IsApproved-Grows :
    {mode : SwitchMode} {i : String} {a b : AppendLog}
    → IsApproved mode i a
    → Grows a b
    → IsApproved mode i b
IsApproved-Grows h g = record {
  actor = h.actor;
  reachable = h.reachable;
  at = h.at;
  proposal = h.proposal;
  allowed = h.allowed;
  logged = Holds-Grows h.logged g;
}

-- The call was made right after its attempt was logged, and after an approval.
pub record IsAttributed (mode : SwitchMode) (c : SendCall) : Type 0 where
  pub now : ℤ
  pub proposal : Proposal
  pub earlier : AppendLog
  pub attempted :
      c.log_before ≡ earlier ++ to_entry (attempted_event c.proposal_id now proposal) ∷ []
  pub approved : IsApproved mode c.proposal_id earlier

abbrev pub All : (SendCall → Type 0) → List SendCall → Type 0
All P [] = Unit
All P (c ∷ cs) = P c × All P cs

All-append_one :
    (P : SendCall → Type 0) (cs : List SendCall) {c : SendCall}
    → All P cs
    → P c
    → All P (cs ++ c ∷ [])
All-append_one P [] h p = (p, tt)
All-append_one P (c ∷ cs) h p = (h.0, All-append_one P cs h.1 p)

pub record HasProvenance (mode : SwitchMode) (w : World) : Type 0 where
  pub ready :
      (i : String) (p : Proposal)
      → read i w.kv ≡ ok p
      → p.status ≡ confirmed
      → IsApproved mode i w.log
  pub calls : All (IsAttributed mode) w.sends

-- A record that was overwritten by a settled one is not confirmed, so a confirmed one is old.
read_confirmed :
    (i j : String) (p x : Proposal) (kv : Kv)
    → is_terminal x.status ≡ true
    → read i (put j (to_dict x) kv) ≡ ok p
    → p.status ≡ confirmed
    → read i kv ≡ ok p
read_confirmed i j p x kv done h at_confirmed =
    let h' = rw read-put at h in ground (arith, eq_iff j i)

-- A world that differs by a settled record and a longer log.
settles :
    (mode : SwitchMode) (w w' : World) (j : String) (x : Proposal)
    → HasProvenance mode w
    → is_terminal x.status ≡ true
    → w'.kv ≡ put j (to_dict x) w.kv
    → Grows w.log w'.log
    → All (IsAttributed mode) w'.sends
    → HasProvenance mode w'
settles mode w w' j x h done e g calls = record {
  ready = λ i p at_p at_confirmed.
      IsApproved-Grows
        (h.ready i p (read_confirmed i j p x w.kv done (rw e at at_p) at_confirmed) at_confirmed) g;
  calls = calls;
}

approve_ready :
    (fsm : Fsm) (w : World) (j : String) (q : Proposal) (actor : Actor) (now : ℤ)
    (reachable : Option Bool)
    → HasProvenance fsm.switch_mode w
    → check_actor fsm.switch_mode actor reachable ≡ ok tt
    → HasProvenance fsm.switch_mode (settled_world w j q confirmed (confirmed_event j actor now q))
approve_ready fsm w j q actor now reachable h may =
    let e = to_entry (confirmed_event j actor now q) in
    let grown : Grows w.log (w.log ++ e ∷ []) = (e ∷ [], refl) in
    record {
      ready = λ i p at_p at_confirmed. elim (Bool-cases (j == i)) [
        | inl same ↦ rw (← (eq_iff j i).0 same) (record {
          actor = actor;
          reachable = reachable;
          at = now;
          proposal = q;
          allowed = may;
          logged = (w.log, [], refl);
        })
        | inr differ ↦
            IsApproved-Grows (h.ready i p (rw (read-put, differ) at at_p) at_confirmed) grown
      ];
      calls = h.calls;
    }

Move-HasProvenance :
    {fsm : Fsm} {w w' : World}
    → HasProvenance fsm.switch_mode w
    → Move fsm w w'
    → HasProvenance fsm.switch_mode w'
Move-HasProvenance h (Move.stay e) = rw e h
Move-HasProvenance {w} h (Move.add s l keeps fresh) = record {
  ready = λ i p at_p at_confirmed. elim (fresh i p at_p) [
    | inl old ↦ rw l (h.ready i p old at_confirmed)
    | inr new ↦ absurd (ground arith)
  ];
  calls = rw s h.calls;
}
Move-HasProvenance {fsm} {w} h (Move.approve j q actor now reachable may at_q g e) =
    rw e (approve_ready fsm w j q actor now reachable h may)
Move-HasProvenance {fsm} {w} {w'} h (Move.send j q now r at_q g e) =
    settles fsm.switch_mode w w' j (record q { status = settled_status r }) h
      (is_terminal-settled_status r) (ap (λ x. x.kv) e)
      (
        to_entry (attempted_event j now q) ∷ to_entry (settled_event j now r) ∷ [],
        ap (λ x. x.log) e ∙ append_assoc w.log _ _,
      )
      (rw e (
        All-append_one (IsAttributed fsm.switch_mode) w.sends h.calls (record {
          now = now;
          proposal = q;
          earlier = w.log;
          attempted = refl;
          approved = h.ready j q at_q g;
        })))
Move-HasProvenance {fsm} {w} {w'} h (Move.lapse j q now at_q g e) =
    settles fsm.switch_mode w w' j (record q { status = failed }) h refl (ap (λ x. x.kv) e)
      (to_entry (expired_event j now) ∷ [], ap (λ x. x.log) e) (rw e h.calls)
Move-HasProvenance {fsm} {w} {w'} h (Move.lapse_unlogged j q now at_q g c e) =
    settles fsm.switch_mode w w' j (record q { status = failed }) h refl (ap (λ x. x.kv) e)
      (rw e (Grows-refl w.log)) (rw e h.calls)

serve_all-HasProvenance :
    (fsm : Fsm) (rs : List Request) (w : World)
    → HasProvenance fsm.switch_mode w
    → HasProvenance fsm.switch_mode (serve_all fsm rs w)
unfolding serve_all
serve_all-HasProvenance fsm [] w h = h
serve_all-HasProvenance fsm (r ∷ rs) w h =
    serve_all-HasProvenance fsm rs (serve fsm r w) (Move-HasProvenance h (serve-Move fsm r w))

-- A Gateway that starts with nothing sent and nothing confirmed: every call it ever makes of the
-- sender directly follows its own logged attempt, and that follows a logged approval of the same
-- proposal by an actor, and on a reachability signal, that the switch mode allows.
pub every_send-IsAttributed :
    (fsm : Fsm) (rs : List Request) (w : World)
    → w.sends ≡ []
    → ((i : String) (p : Proposal) → read i w.kv ≡ ok p → p.status ≢ confirmed)
    → All (IsAttributed fsm.switch_mode) (serve_all fsm rs w).sends
every_send-IsAttributed fsm rs w unsent unconfirmed =
    let start : HasProvenance fsm.switch_mode w = record {
      ready = λ i p at_p at_confirmed. absurd (unconfirmed i p at_p at_confirmed);
      calls = rw unsent tt;
    } in
    (serve_all-HasProvenance fsm rs w start).calls
