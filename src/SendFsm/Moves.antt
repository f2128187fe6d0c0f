-- ===== src/SendFsm/Moves.antt =====
-- The moves of the world, with the methods' checks left out, and that every call is one of them.
use gmail_b1_gateway.Prelude.{
  String, ◌≡◌, refl, Bool, true, false, not, Option, some, ◌||◌, arith, ℤ, pos, leb_ℤ, ltb_ℤ, ◌<ℤ◌,
  inl, inr, Bool-cases, ◌⊎◌, ap,
}
use gmail_b1_gateway.Dict.{lookup}
use gmail_b1_gateway.Json.{Fields}
use gmail_b1_gateway.Errors.{Result, ok, Result-cases}
use gmail_b1_gateway.Store.Record.{ProposalStatus, pending, confirmed, failed, Proposal, to_dict}
use gmail_b1_gateway.Store.Backend.{Kv, put}
use gmail_b1_gateway.Store.Proposals.{read, create}
use gmail_b1_gateway.Store.Proposals.Reads.{get_live_ok}
use gmail_b1_gateway.Store.Proposals.Create.{create-keeps, read-create}
use gmail_b1_gateway.SendFsm.{
  Actor, SendResult, World, Fsm, is_pending, check_actor, check_dispatch, confirmed_event,
  attempted_event, settled_status, settled_event, expired_event, confirm, dispatch, expire,
}
use gmail_b1_gateway.SendFsm.Steps.{
  settled_world, sent_world, approval, approval_ok, confirm_approved, confirm_refused,
  dispatch_confirmed, dispatch_bad_clock, dispatch_refused, dispatch_missing, expire_unlogged,
  expire_due, expire_refused, expire_missing,
}
use gmail_b1_gateway.SendFsm.Requests.{
  Request, new_proposal, confirm_call, dispatch_call, expire_call, serve,
}

pub data Move (fsm : Fsm) (w : World) (w' : World) : Type 0 where
  stay : w' ≡ w → Move fsm w w'
  -- Records are added, none is changed or lost, and a new proposal is pending.
  add :
      w'.sends ≡ w.sends
      → w'.log ≡ w.log
      → ((j : String) (d : Fields) → lookup j w.kv ≡ some d → lookup j w'.kv ≡ some d)
      → ((j : String) (p : Proposal)
          → read j w'.kv ≡ ok p
          → (read j w.kv ≡ ok p) ⊎ (p.status ≡ pending))
      → Move fsm w w'
  approve :
      (i : String) (p : Proposal) (actor : Actor) (now : ℤ) (reachable : Option Bool)
      → check_actor fsm.switch_mode actor reachable ≡ ok tt
      → read i w.kv ≡ ok p
      → p.status ≡ pending
      → w' ≡ settled_world w i p confirmed (confirmed_event i actor now p)
      → Move fsm w w'
  send :
      (i : String) (p : Proposal) (now : ℤ) (r : Option SendResult)
      → read i w.kv ≡ ok p
      → p.status ≡ confirmed
      → w'
        ≡ settled_world
            (sent_world w i (attempted_event i now p))
            i
            p
            (settled_status r)
            (settled_event i now r)
      → Move fsm w w'
  lapse :
      (i : String) (p : Proposal) (now : ℤ)
      → read i w.kv ≡ ok p
      → p.status ≡ pending
      → w' ≡ settled_world w i p failed (expired_event i now)
      → Move fsm w w'
  -- Only at a clock reading before the epoch.
  lapse_unlogged :
      (i : String) (p : Proposal) (now : ℤ)
      → read i w.kv ≡ ok p
      → p.status ≡ pending
      → now <ℤ pos 0
      → w' ≡ record w { kv = put i (to_dict (record p { status = failed })) w.kv }
      → Move fsm w w'

-- The world that a call leaves.
after : {A : Type 0} {r r' : Result A × World} → r ≡ r' → r.1 ≡ r'.1
after h = ap (λ x. x.1) h

pub is_pending_iff : (s : ProposalStatus) → is_pending s ≡ true → s ≡ pending
is_pending_iff s h = ground arith

pub check_dispatch_ok :
    (s : ProposalStatus) (u : Unit {0}) → check_dispatch s ≡ ok u → s ≡ confirmed
unfolding check_dispatch
check_dispatch_ok s u h = ground arith

confirm-Move :
    (fsm : Fsm) (i : String) (actor : Actor) (now : ℤ) (reachable : Option Bool) (w : World)
    → Move fsm w (confirm fsm i actor now reachable w).1
confirm-Move fsm i actor now reachable w =
    elim (Result-cases (approval fsm i actor now reachable w.kv)) [
      | inl (p, h) ↦
          let (live, waiting, may) = approval_ok fsm i actor now reachable w.kv h in
          Move.approve i p actor now reachable may (get_live_ok i now w.kv live).0
            (is_pending_iff p.status waiting)
            (after (confirm_approved fsm i actor now reachable w h))
      | inr (e, h) ↦ Move.stay (after (confirm_refused fsm i actor now reachable w h))
    ]

dispatch_stored :
    (fsm : Fsm) (i : String) (now : ℤ) (w : World) (p : Proposal)
    → read i w.kv ≡ ok p
    → Move fsm w (dispatch fsm i now w).1
dispatch_stored fsm i now w p stored = elim (Result-cases (check_dispatch p.status)) [
  | inl (u, h) ↦ elim (Bool-cases (leb_ℤ (pos 0) now)) [
    | inl clock ↦
        let at_confirmed = check_dispatch_ok p.status u h in
        Move.send i p now (fsm.sender w.sends i) stored at_confirmed
          (after (dispatch_confirmed fsm i now w stored at_confirmed clock))
    | inr clock ↦
        Move.stay
          (after (dispatch_bad_clock fsm i now w stored (check_dispatch_ok p.status u h) clock))
  ]
  | inr (e, h) ↦ Move.stay (after (dispatch_refused fsm i now w stored h))
]

dispatch-Move : (fsm : Fsm) (i : String) (now : ℤ) (w : World) → Move fsm w (dispatch fsm i now w).1
dispatch-Move fsm i now w = elim (Result-cases (read i w.kv)) [
  | inl (p, stored) ↦ dispatch_stored fsm i now w p stored
  | inr (e, h) ↦ Move.stay (after (dispatch_missing fsm i now w h))
]

expire_stored :
    (fsm : Fsm) (i : String) (now : ℤ) (w : World) (p : Proposal)
    → read i w.kv ≡ ok p
    → Move fsm w (expire i now w).1
expire_stored fsm i now w p stored =
    elim (Bool-cases (not (is_pending p.status) || ltb_ℤ now p.expires_at)) [
      | inl no_go ↦ Move.stay (after (expire_refused i now w stored no_go))
      | inr go ↦
          let waiting : is_pending p.status ≡ true = ground arith in
          let due : ltb_ℤ now p.expires_at ≡ false = ground arith in
          elim (Bool-cases (leb_ℤ (pos 0) now)) [
            | inl clock ↦
                Move.lapse i p now stored (is_pending_iff p.status waiting)
                  (after (expire_due i now w stored waiting due clock))
            | inr clock ↦
                Move.lapse_unlogged i p now stored (is_pending_iff p.status waiting) (ground arith)
                  (after (expire_unlogged i now w stored waiting due clock))
          ]
    ]

expire-Move : (fsm : Fsm) (i : String) (now : ℤ) (w : World) → Move fsm w (expire i now w).1
expire-Move fsm i now w = elim (Result-cases (read i w.kv)) [
  | inl (p, stored) ↦ expire_stored fsm i now w p stored
  | inr (e, h) ↦ Move.stay (after (expire_missing i now w h))
]

read-create_new :
    (p : Proposal) (kv : Kv) (j : String) {q : Proposal}
    → read j (create (record p { status = pending }) kv).1 ≡ ok q
    → (read j kv ≡ ok q) ⊎ (q.status ≡ pending)
read-create_new p kv j h = elim (read-create (record p { status = pending }) kv j h) [
  | inl old ↦ inl old
  | inr e ↦ inr (ap (λ x. x.status) e)
]

-- Whatever a call is and whether it raises, it makes one move of the world or leaves it alone.
pub serve-Move : (fsm : Fsm) (r : Request) (w : World) → Move fsm w (serve fsm r w)
unfolding serve
serve-Move fsm (new_proposal p) w =
    Move.add refl refl (λ j d. create-keeps (record p { status = pending }) w.kv j)
      (λ j q. read-create_new p w.kv j)
serve-Move fsm (confirm_call i actor now reachable) w = confirm-Move fsm i actor now reachable w
serve-Move fsm (dispatch_call i now) w = dispatch-Move fsm i now w
serve-Move fsm (expire_call i now) w = expire-Move fsm i now w
