-- ===== src/Gateway/SendPath/Alone.antt =====
-- gateway/send_path.py: the stretches of one caller, run with no other caller between them.
use gmail_b1_gateway.Prelude.{
  String, ◌≡◌, refl, ap, ◌∙◌, none, ◌∷◌, [], arith, ℤ, inl, inr, eq_refl,
}
use gmail_b1_gateway.Errors.{Error, ok, err}
use gmail_b1_gateway.Store.Record.{Proposal}
use gmail_b1_gateway.Store.Proposals.{read}
use gmail_b1_gateway.Store.Proposals.Reads.{read-put, get_live_ok}
use gmail_b1_gateway.SendFsm.{human, World, Fsm}
use gmail_b1_gateway.SendFsm.Steps.{approval, approval_ok, confirm_refused}
use gmail_b1_gateway.Errors.{Result-cases}
use gmail_b1_gateway.Gateway.SendPath.{
  Caller, waiting, checked, approved, cleared, done, advance, Pair, step_left, left_turn,
  interleave, confirm_and_dispatch,
}
use gmail_b1_gateway.Gateway.SendPath.Relay.{confirmed_world, confirmed_proposal, relay_approved}
use gmail_b1_gateway.Gateway.SendPath.Race.{
  advance_waiting, advance_checked, advance_approved, advance_cleared,
}

module _ (fsm : Fsm) (i : String) (now : ℤ) (other : Caller) where
  abbrev alone : Caller → World → Pair
  alone c w = record { left = c; right = other; world = w }

  stretch :
      (c d : Caller) (w v : World)
      → advance fsm i now c w ≡ (d, v)
      → step_left fsm i now (alone c w) ≡ alone d v
  stretch c d w v h = ground (arith, h)

  alone_refused :
      (w : World) {e : Error}
      → approval fsm i human now none w.kv ≡ err e
      → let (r, w') = confirm_and_dispatch fsm i now w in
        interleave fsm i now (left_turn ∷ left_turn ∷ left_turn ∷ left_turn ∷ []) (alone waiting w)
        ≡ alone (done r) w'
  unfolding interleave advance confirm_and_dispatch
  alone_refused w h = ground (arith, confirm_refused fsm i human now none w h)

  alone_approved :
      (w : World) (p : Proposal)
      → approval fsm i human now none w.kv ≡ ok p
      → let (r, w') = confirm_and_dispatch fsm i now w in
        interleave fsm i now (left_turn ∷ left_turn ∷ left_turn ∷ left_turn ∷ []) (alone waiting w)
        ≡ alone (done r) w'
  unfolding interleave
  alone_approved w p h =
      let (live, _, _) = approval_ok fsm i human now none w.kv h in
      let (stored, epoch) = get_live_ok i now w.kv live in
      let v = confirmed_world fsm i now w p in
      let q = confirmed_proposal fsm i now w p in
      let at_v : read i v.kv ≡ ok q = rw (read-put, eq_refl i) in
      let go = step_left fsm i now in
      let s₁ = stretch waiting (checked p) w w (advance_waiting fsm i now w h) in
      let s₂ = stretch (checked p) approved w v (advance_checked fsm i now w p stored epoch) in
      let s₃ = stretch approved (cleared q) v v (advance_approved fsm i now v at_v refl) in
      let s₄ = stretch (cleared q) _ v _ (advance_cleared fsm i now v q at_v epoch) in
      rw (relay_approved fsm i now w p h)
        (ap (λ s. go (go (go s))) s₁ ∙ ap (λ s. go (go s)) s₂ ∙ ap go s₃ ∙ s₄)

  -- With no other caller in between, the four stretches of a caller end with the result, and in
  -- the world, of `confirm_and_dispatch`, whether that raises or returns.
  alone-eq-confirm_and_dispatch :
      (w : World)
      → let (r, w') = confirm_and_dispatch fsm i now w in
        interleave fsm i now
          (left_turn ∷ left_turn ∷ left_turn ∷ left_turn ∷ [])
          (record { left = waiting; right = other; world = w })
        ≡ record { left = done r; right = other; world = w' }
  alone-eq-confirm_and_dispatch w = elim (Result-cases (approval fsm i human now none w.kv)) [
    | inl (p, h) ↦ alone_approved w p h
    | inr (e, h) ↦ alone_refused w h
  ]
