-- ===== src/SendFsm/AtMostOnce.antt =====
-- No proposal is ever handed to the sender twice, and a settled proposal never changes again.
use gmail_b1_gateway.Prelude.{
  ◌∙◌, ℤ, Bool-cases, eq_refl, ℕ, zero, suc, ◌+◌, ◌≤◌, String, ◌≡◌, refl, ◌⊎◌, inl, inr, true,
  false, some, List, [], ◌∷◌, ◌++◌, arith, eq_iff, ◌==◌, if◌then◌else◌, Option, ap,
}
use gmail_b1_gateway.Dict.{lookup}
use gmail_b1_gateway.Json.{Fields}
use gmail_b1_gateway.Errors.{ok}
use gmail_b1_gateway.Store.Backend.{Kv, put}
use gmail_b1_gateway.Store.Record.{Proposal, to_dict, confirmed, is_terminal}
use gmail_b1_gateway.Store.Proposals.{read}
use gmail_b1_gateway.Store.Proposals.Reads.{read-put}
use gmail_b1_gateway.SendFsm.{
  SendCall, SendResult, World, Fsm, settled_status, attempted_event, settled_event,
}
use gmail_b1_gateway.SendFsm.Steps.{sent_world, settled_world}
use gmail_b1_gateway.SendFsm.Moves.{Move, serve-Move}
use gmail_b1_gateway.SendFsm.Requests.{Request, serve, serve_all}

-- How often the sender was called for a proposal.
abbrev pub sends_of : String → List SendCall → ℕ
sends_of i [] = 0
sends_of i (c ∷ cs) = let rest = sends_of i cs in if c.proposal_id == i then suc rest else rest

pub sends_of-append :
    (i : String) (cs ds : List SendCall) → sends_of i (cs ++ ds) ≡ sends_of i cs + sends_of i ds
sends_of-append i [] ds = omega arith
sends_of-append i (c ∷ cs) ds = ground (arith, sends_of-append i cs ds)

zero_or_pos : (n : ℕ) → (n ≡ 0) ⊎ (1 ≤ n)
zero_or_pos zero = inl refl
zero_or_pos (suc n) = inr (omega arith)

-- The stored proposal is in a terminal status.
abbrev pub IsSettled : String → Kv → Type 0
IsSettled i kv = (p : Proposal) × (read i kv ≡ ok p) × (is_terminal p.status ≡ true)

pub record IsSafe (i : String) (w : World) : Type 0 where
  pub once : sends_of i w.sends ≤ 1
  pub settled : 1 ≤ sends_of i w.sends → IsSettled i w.kv

-- A record that is added leaves what was readable.
pub read-keeps :
    (j : String) (kv kv' : Kv)
    → ((j : String) (d : Fields) → lookup j kv ≡ some d → lookup j kv' ≡ some d)
    → {p : Proposal} → read j kv ≡ ok p
    → read j kv' ≡ ok p
unfolding read
read-keeps j kv kv' keeps h = grind (arith, keeps)

-- A write to an unsettled proposal's record does not reach a settled one.
overwrite_unsettled :
    (i j : String) (p q x : Proposal) (kv : Kv)
    → read i kv ≡ ok p
    → is_terminal p.status ≡ true
    → read j kv ≡ ok q
    → is_terminal q.status ≡ false
    → read i (put j (to_dict x) kv) ≡ ok p
overwrite_unsettled i j p q x kv stored done other open_yet =
    rw read-put (ground (arith, eq_iff j i))

-- Once settled, a stored proposal is what it was after any move.
pub Move-keeps_settled :
    {fsm : Fsm} {w w' : World} (i : String) (p : Proposal)
    → read i w.kv ≡ ok p
    → is_terminal p.status ≡ true
    → Move fsm w w'
    → read i w'.kv ≡ ok p
Move-keeps_settled i p stored done (Move.stay e) = rw e stored
Move-keeps_settled {w} {w'} i p stored done (Move.add s l keeps fresh) =
    read-keeps i w.kv w'.kv keeps stored
Move-keeps_settled {w} {w'} i p stored done (Move.approve j q actor now reach may h at_pending e) =
    rw e (overwrite_unsettled i j p q _ w.kv stored done h (ground arith))
Move-keeps_settled {w} {w'} i p stored done (Move.send j q now r h at_confirmed e) =
    rw e (overwrite_unsettled i j p q _ w.kv stored done h (ground arith))
Move-keeps_settled {w} {w'} i p stored done (Move.lapse j q now h at_pending e) =
    rw e (overwrite_unsettled i j p q _ w.kv stored done h (ground arith))
Move-keeps_settled {w} {w'} i p stored done (Move.lapse_unlogged j q now h at_pending clock e) =
    rw e (overwrite_unsettled i j p q _ w.kv stored done h (ground arith))

pub is_terminal-settled_status : (r : Option SendResult) → is_terminal (settled_status r) ≡ true
unfolding settled_status
is_terminal-settled_status r = ground arith

-- A proposal that is not settled was not sent.
unsent :
    (i : String) (w : World) {q : Proposal}
    → IsSafe i w
    → read i w.kv ≡ ok q
    → is_terminal q.status ≡ false
    → sends_of i w.sends ≡ 0
unsent i w safe stored open_yet = elim (zero_or_pos (sends_of i w.sends)) [
  | inl none_yet ↦ none_yet
  | inr some_sent ↦ let (p, at_p, done) = safe.settled some_sent in absurd (ground arith)
]

-- A move that makes no call keeps the invariant.
quiet :
    {fsm : Fsm} (i : String) {w w' : World}
    → IsSafe i w
    → w'.sends ≡ w.sends
    → Move fsm w w'
    → IsSafe i w'
quiet i {w} {w'} safe same m = record {
  once = rw same safe.once;
  settled = λ h.
      let (p, at_p, done) = safe.settled (rw same at h) in
      (p, Move-keeps_settled i p at_p done m, done);
}

-- The proposal that is sent has its one call, and is settled.
sent_IsSafe :
    (i : String) (q : Proposal) (now : ℤ) (r : Option SendResult) (w : World)
    → IsSafe i w
    → read i w.kv ≡ ok q
    → q.status ≡ confirmed
    → IsSafe i (
        settled_world
          (sent_world w i (attempted_event i now q))
          i
          q
          (settled_status r)
          (settled_event i now r))
sent_IsSafe i q now r w safe stored at_confirmed =
    let before = unsent i w safe stored (ground arith) in
    record {
      once = rw sends_of-append (ground (arith, eq_refl i));
      settled = λ _. (
        record q { status = settled_status r },
        rw (read-put, eq_refl i),
        is_terminal-settled_status r,
      );
    }

-- For every other proposal nothing was sent.
other_IsSafe :
    {fsm : Fsm} (i j : String) {w w' : World} (c : SendCall)
    → IsSafe i w
    → c.proposal_id ≡ j
    → (j == i) ≡ false
    → w'.sends ≡ w.sends ++ c ∷ []
    → Move fsm w w'
    → IsSafe i w'
other_IsSafe i j {w} {w'} c safe of_j differ sent_j m =
    let same : sends_of i w'.sends ≡ sends_of i w.sends =
      rw sent_j (rw sends_of-append (ground arith)) in
    record {
      once = rw same safe.once;
      settled = λ h.
          let (p, at_p, done) = safe.settled (rw same at h) in
          (p, Move-keeps_settled i p at_p done m, done);
    }

pub Move-IsSafe : {fsm : Fsm} {w w' : World} (i : String) → IsSafe i w → Move fsm w w' → IsSafe i w'
Move-IsSafe {fsm} {w} {w'} i safe (Move.stay e) =
    quiet {fsm = fsm} i safe (ap (λ x. x.sends) e) (Move.stay e)
Move-IsSafe {fsm} {w} {w'} i safe (Move.add s l keeps fresh) =
    quiet {fsm = fsm} i safe s (Move.add s l keeps fresh)
Move-IsSafe {fsm} {w} {w'} i safe (Move.approve j q actor now reach may h g e) =
    quiet {fsm = fsm} i safe (ap (λ x. x.sends) e) (Move.approve j q actor now reach may h g e)
Move-IsSafe {fsm} {w} {w'} i safe (Move.send j q now r h g e) = elim (Bool-cases (j == i)) [
  | inl same ↦
      let ij : j ≡ i = (eq_iff j i).0 same in
      rw e (rw ij (sent_IsSafe i q now r w safe (rw ij at h) g))
  | inr differ ↦
      other_IsSafe {fsm = fsm} i j _ safe refl differ (ap (λ x. x.sends) e)
        (Move.send j q now r h g e)
]
Move-IsSafe {fsm} {w} {w'} i safe (Move.lapse j q now h g e) =
    quiet {fsm = fsm} i safe (ap (λ x. x.sends) e) (Move.lapse j q now h g e)
Move-IsSafe {fsm} {w} {w'} i safe (Move.lapse_unlogged j q now h g c e) =
    quiet {fsm = fsm} i safe (ap (λ x. x.sends) e) (Move.lapse_unlogged j q now h g c e)

serve_all-IsSafe :
    (fsm : Fsm) (i : String) (rs : List Request) (w : World)
    → IsSafe i w
    → IsSafe i (serve_all fsm rs w)
unfolding serve_all
serve_all-IsSafe fsm i [] w safe = safe
serve_all-IsSafe fsm i (r ∷ rs) w safe =
    serve_all-IsSafe fsm i rs (serve fsm r w) (Move-IsSafe i safe (serve-Move fsm r w))

-- A move makes no call for a settled proposal.
Move-sends_settled :
    {fsm : Fsm} {w w' : World} (i : String) (p : Proposal)
    → read i w.kv ≡ ok p
    → is_terminal p.status ≡ true
    → Move fsm w w'
    → sends_of i w'.sends ≡ sends_of i w.sends
Move-sends_settled i p stored done (Move.stay e) = rw e refl
Move-sends_settled i p stored done (Move.add s l keeps fresh) = rw s refl
Move-sends_settled i p stored done (Move.approve j q actor now reach may h g e) = rw e refl
Move-sends_settled i p stored done (Move.send j q now r h g e) =
    rw e (rw sends_of-append (ground (arith, eq_iff j i)))
Move-sends_settled i p stored done (Move.lapse j q now h g e) = rw e refl
Move-sends_settled i p stored done (Move.lapse_unlogged j q now h g c e) = rw e refl

-- From a Gateway that has sent nothing, whatever the stored records, whatever calls come one after
-- the other, and however the sender answers, no proposal is handed to the sender twice.
pub at_most_one_send :
    (fsm : Fsm) (rs : List Request) (w : World) (i : String)
    → w.sends ≡ []
    → sends_of i (serve_all fsm rs w).sends ≤ 1
at_most_one_send fsm rs w i fresh =
    let start : IsSafe i w = record {
      once = rw fresh (omega arith);
      settled = λ h. absurd (omega (arith, ap (sends_of i) fresh));
    } in
    (serve_all-IsSafe fsm i rs w start).once

-- A sent, failed or outcome-unknown proposal keeps its whole record through any later calls, and
-- the sender is not called for it again.
pub settled_forever :
    (fsm : Fsm) (rs : List Request) (w : World) (i : String) (p : Proposal)
    → read i w.kv ≡ ok p
    → is_terminal p.status ≡ true
    → (read i (serve_all fsm rs w).kv ≡ ok p)
      × (sends_of i (serve_all fsm rs w).sends ≡ sends_of i w.sends)
unfolding serve_all
settled_forever fsm [] w i p stored done = (stored, refl)
settled_forever fsm (r ∷ rs) w i p stored done =
    let m = serve-Move fsm r w in
    let (kept, calls) =
      settled_forever fsm rs (serve fsm r w) i p (Move-keeps_settled i p stored done m) done in
    (kept, calls ∙ Move-sends_settled i p stored done m)
