-- ===== src/SendFsm/Steps.antt =====
-- sendfsm/fsm.py: each method as a check on the stored proposal and one change of the world.
use gmail_b1_gateway.Prelude.{
  String, ◌≡◌, Bool, true, false, not, Option, [], ◌∷◌, ◌++◌, arith, ℤ, pos, leb_ℤ, ltb_ℤ, ◌||◌,
  if◌then◌else◌,
}
use gmail_b1_gateway.Errors.{Error, Result, ok, err, illegal_transition, audit_schema}
use gmail_b1_gateway.Store.Backend.{Kv, put, append}
use gmail_b1_gateway.Store.Record.{ProposalStatus, confirmed, failed, Proposal, to_dict}
use gmail_b1_gateway.Store.Proposals.{read, get_live}
use gmail_b1_gateway.Store.Proposals.Reads.{set_status_found, get_live_ok}
use gmail_b1_gateway.Store.Ledger.{AuditEvent, to_entry}
use gmail_b1_gateway.SendFsm.{
  Actor, SendResult, SendCall, World, Fsm, is_pending, check_actor, confirmed_event, confirm,
  check_dispatch, attempted_event, settled_status, settled_event, dispatch, expired_event, expire,
}

-- A status write and one more event in the log.
abbrev pub settled_world : World → String → Proposal → ProposalStatus → AuditEvent → World
settled_world w i p s e = record w {
  kv = put i (to_dict (record p { status = s })) w.kv;
  log = append (to_entry e) w.log;
}

-- The conditions of `confirm`, as a function of the stored proposal.
abbrev pub approval : Fsm → String → Actor → ℤ → Option Bool → Kv → Result Proposal
approval fsm i actor now reachable kv = elim (get_live i now kv) [
  | ok p ↦
      if not (is_pending p.status)
      then err illegal_transition
      else elim (check_actor fsm.switch_mode actor reachable) [ ok _ ↦ ok p | err e ↦ err e ]
  | err e ↦ err e
]

pub approval_ok :
    (fsm : Fsm) (i : String) (actor : Actor) (now : ℤ) (reachable : Option Bool) (kv : Kv)
    {p : Proposal}
    → approval fsm i actor now reachable kv ≡ ok p
    → (get_live i now kv ≡ ok p)
      × (is_pending p.status ≡ true)
      × (check_actor fsm.switch_mode actor reachable ≡ ok tt)
approval_ok fsm i actor now reachable kv h = ground arith

module _ (fsm : Fsm) (i : String) (actor : Actor) (now : ℤ) (reachable : Option Bool)
    (w : World) where
  pub confirm_approved :
      {p : Proposal}
      → approval fsm i actor now reachable w.kv ≡ ok p
      → confirm fsm i actor now reachable w
        ≡ (ok tt, settled_world w i p confirmed (confirmed_event i actor now p))
  unfolding confirm
  confirm_approved {p} h =
      let (live, waiting, may) = approval_ok fsm i actor now reachable w.kv h in
      let (stored, clock) = get_live_ok i now w.kv live in
      ground (arith, set_status_found i confirmed w.kv stored)

  pub confirm_refused :
      {e : Error}
      → approval fsm i actor now reachable w.kv ≡ err e
      → confirm fsm i actor now reachable w ≡ (err e, w)
  unfolding confirm
  confirm_refused {e} h = ground arith

pub at-settled_event :
    (i : String) (now : ℤ) (r : Option SendResult) → (settled_event i now r).at ≡ now
unfolding settled_event
at-settled_event i now r = ground arith

-- The world in which a send was attempted and its call made.
abbrev pub sent_world : World → String → AuditEvent → World
sent_world w i e =
    let log' = append (to_entry e) w.log in
    let call : SendCall = record { proposal_id = i; log_before = log' } in
    record w { log = log'; sends = w.sends ++ call ∷ [] }

module _ (fsm : Fsm) (i : String) (now : ℤ) (w : World) {p : Proposal}
    (stored : read i w.kv ≡ ok p) where
  -- A confirmed proposal is attempted once, and settled by what the sender answered.
  pub dispatch_confirmed :
      p.status ≡ confirmed
      → leb_ℤ (pos 0) now ≡ true
      → let r = fsm.sender w.sends i in
        dispatch fsm i now w ≡ (
          ok (settled_status r),
          settled_world
              (sent_world w i (attempted_event i now p))
              i
              p
              (settled_status r)
              (settled_event i now r),
        )
  unfolding dispatch
  dispatch_confirmed at_confirmed clock =
      let r = fsm.sender w.sends i in
      ground (arith, set_status_found i (settled_status r) w.kv stored, at-settled_event i now r)

  -- Before the epoch the ledger refuses the attempt, and no call is made.
  pub dispatch_bad_clock :
      p.status ≡ confirmed
      → leb_ℤ (pos 0) now ≡ false
      → dispatch fsm i now w ≡ (err audit_schema, w)
  unfolding dispatch
  dispatch_bad_clock at_confirmed clock = ground arith

  -- A proposal that may not be dispatched is left alone.
  pub dispatch_refused :
      {e : Error} → check_dispatch p.status ≡ err e → dispatch fsm i now w ≡ (err e, w)
  unfolding dispatch
  dispatch_refused h = ground arith

pub dispatch_missing :
    (fsm : Fsm) (i : String) (now : ℤ) (w : World) {e : Error}
    → read i w.kv ≡ err e
    → dispatch fsm i now w ≡ (err e, w)
unfolding dispatch
dispatch_missing fsm i now w h = ground arith

module _ (i : String) (now : ℤ) (w : World) {p : Proposal} (stored : read i w.kv ≡ ok p) where
  pub expire_due :
      is_pending p.status ≡ true
      → ltb_ℤ now p.expires_at ≡ false
      → leb_ℤ (pos 0) now ≡ true
      → expire i now w ≡ (ok failed, settled_world w i p failed (expired_event i now))
  unfolding expire
  expire_due waiting due clock = ground (arith, set_status_found i failed w.kv stored)

  pub expire_refused :
      not (is_pending p.status) || ltb_ℤ now p.expires_at ≡ true
      → expire i now w ≡ (err illegal_transition, w)
  unfolding expire
  expire_refused h = ground arith

pub expire_missing :
    (i : String) (now : ℤ) (w : World) {e : Error}
    → read i w.kv ≡ err e
    → expire i now w ≡ (err e, w)
unfolding expire
expire_missing i now w h = ground arith

-- Before the epoch, on a record that expired before the epoch, the status is written and the
-- ledger refuses the event.
pub expire_unlogged :
    (i : String) (now : ℤ) (w : World) {p : Proposal}
    → read i w.kv ≡ ok p
    → is_pending p.status ≡ true
    → ltb_ℤ now p.expires_at ≡ false
    → leb_ℤ (pos 0) now ≡ false
    → expire i now w
      ≡ (err audit_schema, record w { kv = put i (to_dict (record p { status = failed })) w.kv })
unfolding expire
expire_unlogged i now w stored waiting due clock =
    ground (arith, set_status_found i failed w.kv stored)
