-- ===== src/SendFsm/Gates.antt =====
-- sendfsm/fsm.py: when exactly `confirm` succeeds, and what a call that raises leaves behind.
use gmail_b1_gateway.Prelude.{
  String, ◌≡◌, ap, ◌⊎◌, ◌↔◌, inl, inr, Bool, false, Option, none, some, arith, ℤ, pos, leb_ℤ, ◌≤ℤ◌,
  ◌<ℤ◌, Bool-cases,
}
use gmail_b1_gateway.Errors.{Error, ok, err}
use gmail_b1_gateway.Actionset.Switch.{SwitchMode, auto_send_when_agent_unreachable}
use gmail_b1_gateway.Store.Record.{pending, Proposal}
use gmail_b1_gateway.Store.Proposals.{read, get_live, is_live}
use gmail_b1_gateway.SendFsm.{
  Actor, human, auto_unreachable, World, Fsm, check_actor, check_dispatch, confirm, dispatch,
}
use gmail_b1_gateway.SendFsm.Steps.{
  approval, approval_ok, confirm_approved, confirm_refused, dispatch_confirmed, dispatch_bad_clock,
  dispatch_refused, dispatch_missing,
}
use gmail_b1_gateway.SendFsm.Moves.{check_dispatch_ok}
use gmail_b1_gateway.Errors.{Result-cases}

-- A human may always confirm; the automatic path needs the auto switch and a definite signal that
-- the agent is unreachable.
abbrev pub MayApprove : SwitchMode → Actor → Option Bool → Type 0
MayApprove mode actor reachable =
    (actor ≡ human)
    ⊎ ((actor ≡ auto_unreachable)
        × (mode ≡ auto_send_when_agent_unreachable)
        × (reachable ≡ some false))

-- The stored proposal is pending and not past its expiry, at a reading of the clock after the epoch.
abbrev pub IsConfirmable : String → ℤ → World → Type 0
IsConfirmable i now w =
    (p : Proposal) × (read i w.kv ≡ ok p)
    × (p.status ≡ pending)
    × (pos 0 ≤ℤ now)
    × (now <ℤ p.expires_at)

check_actor_iff :
    (mode : SwitchMode) (actor : Actor) (reachable : Option Bool)
    → (check_actor mode actor reachable ≡ ok tt) ↔ MayApprove mode actor reachable
unfolding check_actor
check_actor_iff mode actor reachable = (λ h. ground arith, λ h. ground arith)

module _ (fsm : Fsm) (i : String) (actor : Actor) (now : ℤ) (reachable : Option Bool)
    (w : World) where
  confirm-ok_approval :
      (confirm fsm i actor now reachable w).0 ≡ ok tt
      → (p : Proposal) × (approval fsm i actor now reachable w.kv ≡ ok p)
  confirm-ok_approval h = elim (Result-cases (approval fsm i actor now reachable w.kv)) [
    | inl found ↦ found
    | inr (e, refused) ↦
        absurd (cc (ap (λ x. x.0) (confirm_refused fsm i actor now reachable w refused)))
  ]

  pub approval-IsConfirmable :
      {p : Proposal} → approval fsm i actor now reachable w.kv ≡ ok p → IsConfirmable i now w
  unfolding get_live is_live
  approval-IsConfirmable {p} h = (p, ground arith, ground arith, ground arith, ground arith)

  IsConfirmable-approval :
      IsConfirmable i now w
      → check_actor fsm.switch_mode actor reachable ≡ ok tt
      → (p : Proposal) × (approval fsm i actor now reachable w.kv ≡ ok p)
  unfolding get_live is_live
  IsConfirmable-approval (p, stored, waiting, clock, live) may = (p, ground arith)

  -- `confirm` succeeds exactly when the stored proposal is pending and live at a valid clock
  -- reading, and the actor may approve it in this switch mode on this signal.
  pub confirm_ok_iff :
      ((confirm fsm i actor now reachable w).0 ≡ ok tt)
      ↔ (IsConfirmable i now w × MayApprove fsm.switch_mode actor reachable)
  confirm_ok_iff = (
    λ h.
        let (p, found) = confirm-ok_approval h in
        (
          approval-IsConfirmable found,
          (check_actor_iff fsm.switch_mode actor reachable).0
              (approval_ok fsm i actor now reachable w.kv found).2,
        ),
    λ (c, may).
        let (p, found) =
          IsConfirmable-approval c ((check_actor_iff fsm.switch_mode actor reachable).1 may) in
        ap (λ x. x.0) (confirm_approved fsm i actor now reachable w found),
  )

  -- A `confirm` that raises has changed nothing: no status, no event, no call.
  confirm_error_unchanged :
      {e : Error}
      → (confirm fsm i actor now reachable w).0 ≡ err e
      → (confirm fsm i actor now reachable w).1 ≡ w
  confirm_error_unchanged h = elim (Result-cases (approval fsm i actor now reachable w.kv)) [
    | inl (p, found) ↦
        absurd (cc (ap (λ x. x.0) (confirm_approved fsm i actor now reachable w found)))
    | inr (e, refused) ↦ ap (λ x. x.1) (confirm_refused fsm i actor now reachable w refused)
  ]

module _ (fsm : Fsm) (i : String) (now : ℤ) (w : World) where
  dispatch_stored_error :
      (p : Proposal) {e : Error}
      → read i w.kv ≡ ok p
      → (dispatch fsm i now w).0 ≡ err e
      → (dispatch fsm i now w).1 ≡ w
  dispatch_stored_error p stored h = elim (Result-cases (check_dispatch p.status)) [
    | inl (u, may) ↦
        let at_confirmed = check_dispatch_ok p.status u may in
        elim (Bool-cases (leb_ℤ (pos 0) now)) [
          | inl clock ↦
              absurd (cc (ap (λ x. x.0) (dispatch_confirmed fsm i now w stored at_confirmed clock)))
          | inr clock ↦ ap (λ x. x.1) (dispatch_bad_clock fsm i now w stored at_confirmed clock)
        ]
    | inr (e, refused) ↦ ap (λ x. x.1) (dispatch_refused fsm i now w stored refused)
  ]

  -- A `dispatch` that raises has changed nothing, and in particular has not called the sender.
  pub dispatch_error_unchanged :
      {e : Error} → (dispatch fsm i now w).0 ≡ err e → (dispatch fsm i now w).1 ≡ w
  dispatch_error_unchanged h = elim (Result-cases (read i w.kv)) [
    | inl (p, stored) ↦ dispatch_stored_error p stored h
    | inr (e, missing) ↦ ap (λ x. x.1) (dispatch_missing fsm i now w missing)
  ]

-- The checks of `confirm` pass for a human at a pending, live proposal.
pub approval_of_human :
    (fsm : Fsm) (i : String) (now : ℤ) (w : World) (p : Proposal)
    → read i w.kv ≡ ok p
    → p.status ≡ pending
    → pos 0 ≤ℤ now
    → now <ℤ p.expires_at
    → approval fsm i human now none w.kv ≡ ok p
unfolding get_live is_live check_actor
approval_of_human fsm i now w p stored waiting clock live = ground arith
