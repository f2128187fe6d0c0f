-- ===== src/Gateway/SendPath/Race.antt =====
-- gateway/send_path.py: two callers of `confirm_and_dispatch` for one proposal.
use gmail_b1_gateway.Prelude.{
  ◌+◌, String, ◌≡◌, refl, ap, ◌∙◌, none, List, ◌∷◌, [], ◌++◌, arith, ℤ, pos, leb_ℤ, ◌≤ℤ◌, ◌<ℤ◌,
  eq_iff, eq_refl, true,
}
use gmail_b1_gateway.Errors.{ok}
use gmail_b1_gateway.Store.Record.{pending, confirmed, Proposal, status_value}
use gmail_b1_gateway.Store.Proposals.{read}
use gmail_b1_gateway.Store.Proposals.Reads.{read-put, get_live_ok, set_status_found}
use gmail_b1_gateway.SendFsm.{
  SendCall, human, World, Fsm, confirmed_event, attempted_event, settled_status, settled_event,
}
use gmail_b1_gateway.SendFsm.Steps.{
  settled_world, sent_world, approval, approval_ok, at-settled_event,
}
use gmail_b1_gateway.SendFsm.AtMostOnce.{sends_of, sends_of-append}
use gmail_b1_gateway.SendFsm.Gates.{approval_of_human}
use gmail_b1_gateway.Gateway.SendPath.{
  Caller, waiting, checked, approved, cleared, done, advance, Pair, step_left, step_right, Turn,
  left_turn, right_turn, interleave,
}

module _ (fsm : Fsm) (i : String) (now : ℤ) where
  pub advance_waiting :
      (w : World) {p : Proposal}
      → approval fsm i human now none w.kv ≡ ok p
      → advance fsm i now waiting w ≡ (checked p, w)
  unfolding advance
  advance_waiting w h = ground arith

  pub advance_checked :
      (w : World) (p : Proposal) {q : Proposal}
      → read i w.kv ≡ ok q
      → leb_ℤ (pos 0) now ≡ true
      → advance fsm i now (checked p) w
        ≡ (approved, settled_world w i q confirmed (confirmed_event i human now p))
  unfolding advance
  advance_checked w p h clock = ground (arith, set_status_found i confirmed w.kv h)

  pub advance_approved :
      (w : World) {q : Proposal}
      → read i w.kv ≡ ok q
      → q.status ≡ confirmed
      → advance fsm i now approved w ≡ (cleared q, w)
  unfolding advance
  advance_approved w h at_confirmed = ground arith

  pub advance_cleared :
      (w : World) (p : Proposal) {q : Proposal}
      → read i w.kv ≡ ok q
      → leb_ℤ (pos 0) now ≡ true
      → let r = fsm.sender w.sends i in
        advance fsm i now (cleared p) w ≡ (
          done (ok (status_value (settled_status r))),
          settled_world
              (sent_world w i (attempted_event i now p))
              i
              q
              (settled_status r)
              (settled_event i now r),
        )
  unfolding advance
  advance_cleared w p h clock =
      let r = fsm.sender w.sends i in
      ground (arith, set_status_found i (settled_status r) w.kv h, at-settled_event i now r)

abbrev pair : Caller → Caller → World → Pair
pair l r w = record { left = l; right = r; world = w }

-- Both callers check before either writes, and both are cleared before either sends.
abbrev pub close_race : List Turn
close_race =
    left_turn ∷ right_turn ∷ left_turn ∷ right_turn ∷ left_turn ∷ right_turn ∷ left_turn
    ∷ right_turn ∷ []

abbrev round : Fsm → String → ℤ → Pair → Pair
round fsm i now s = step_right fsm i now (step_left fsm i now s)

-- A stretch of each caller, the left one first.
round_lem :
    (fsm : Fsm) (i : String) (now : ℤ) (b c d : Caller) (w v u : World)
    → advance fsm i now b w ≡ (c, v)
    → advance fsm i now b v ≡ (d, u)
    → round fsm i now (pair b b w) ≡ pair c d u
round_lem fsm i now b c d w v u first second = ground (arith, first, second)

-- Two calls were made for the proposal.
sent_twice :
    (i : String) (cs : List SendCall) (c d : SendCall)
    → c.proposal_id ≡ i
    → d.proposal_id ≡ i
    → sends_of i ((cs ++ c ∷ []) ++ d ∷ []) ≡ sends_of i cs + 2
sent_twice i cs c d of_c of_d = ground (
  arith,
  sends_of-append i (cs ++ c ∷ []) (d ∷ []),
  sends_of-append i cs (c ∷ []),
  eq_iff c.proposal_id i,
  eq_iff d.proposal_id i,
)

-- The store's accesses are serialised one by one, and the relay is not: whenever a proposal is
-- pending and live, there is a schedule of two relays of it after which the sender has been called
-- for it twice more than before.
pub relays_can_send_twice :
    (fsm : Fsm) (i : String) (now : ℤ) (w : World) (p : Proposal)
    → read i w.kv ≡ ok p
    → p.status ≡ pending
    → pos 0 ≤ℤ now
    → now <ℤ p.expires_at
    → let start : Pair = record { left = waiting; right = waiting; world = w } in
      (schedule : List Turn) × (sends_of i (interleave fsm i now schedule start).world.sends
        ≡ sends_of i w.sends + 2)
unfolding interleave
relays_can_send_twice fsm i now w p stored at_pending clock live =
    let ready = approval_of_human fsm i now w p stored at_pending clock live in
    let epoch = (get_live_ok i now w.kv (approval_ok fsm i human now none w.kv ready).0).1 in
    let once = advance_waiting fsm i now w ready in
    let q : Proposal = record p { status = confirmed } in
    let v₁ = settled_world w i p confirmed (confirmed_event i human now p) in
    let u₁ = settled_world v₁ i q confirmed (confirmed_event i human now p) in
    let at_v₁ : read i v₁.kv ≡ ok q = rw (read-put, eq_refl i) in
    let at_u₁ : read i u₁.kv ≡ ok q = rw (read-put, eq_refl i) in
    let cleared_once = advance_approved fsm i now u₁ at_u₁ refl in
    let r = fsm.sender u₁.sends i in
    let v₂ =
      settled_world (sent_world u₁ i (attempted_event i now q)) i q (settled_status r)
        (settled_event i now r) in
    let x : Proposal = record q { status = settled_status r } in
    let at_v₂ : read i v₂.kv ≡ ok x = rw (read-put, eq_refl i) in
    let r' = fsm.sender v₂.sends i in
    let u₂ =
      settled_world (sent_world v₂ i (attempted_event i now q)) i x (settled_status r')
        (settled_event i now r') in
    let go = round fsm i now in
    let both_checked = round_lem fsm i now waiting (checked p) (checked p) w w w once once in
    let both_confirmed =
      round_lem fsm i now (checked p) approved approved w v₁ u₁
        (advance_checked fsm i now w p stored epoch) (advance_checked fsm i now v₁ p at_v₁ epoch) in
    let both_cleared =
      round_lem fsm i now approved (cleared q) (cleared q) u₁ u₁ u₁ cleared_once cleared_once in
    let both_sent =
      round_lem fsm i now (cleared q) (done (ok (status_value (settled_status r))))
        (done (ok (status_value (settled_status r')))) u₁ v₂ u₂
        (advance_cleared fsm i now u₁ q at_u₁ epoch) (advance_cleared fsm i now v₂ q at_v₂ epoch) in
    let raced =
      ap (λ s. go (go (go s))) both_checked
      ∙ ap (λ s. go (go s)) both_confirmed
      ∙ ap go both_cleared
      ∙ both_sent in
    (close_race, ap (λ s. sends_of i s.world.sends) raced ∙ sent_twice i w.sends _ _ refl refl)
