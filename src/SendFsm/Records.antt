-- ===== src/SendFsm/Records.antt =====
-- What no run of calls can change in the store: a proposal's record but for its status, and the
-- claim of an idempotency key.
use gmail_b1_gateway.Prelude.{
  Bool-cases, inl, inr, String, ◌≡◌, ◌≢◌, some, List, [], ◌∷◌, arith, eq_iff, ◌==◌,
}
use gmail_b1_gateway.Dict.{lookup, lookup-insert, lookup-erase}
use gmail_b1_gateway.Errors.{ok}
use gmail_b1_gateway.Store.Backend.{Kv, put}
use gmail_b1_gateway.Store.Record.{ProposalStatus, Proposal, to_dict}
use gmail_b1_gateway.Store.Record.RoundTrip.{from_dict-to_dict}
use gmail_b1_gateway.Store.Proposals.{
  create, read, find_by_idempotency, idem_index_key, index_entry,
}
use gmail_b1_gateway.Store.Proposals.Create.{from_dict-index_entry}
use gmail_b1_gateway.Store.Proposals.Reads.{read-put}
use gmail_b1_gateway.SendFsm.{World, Fsm}
use gmail_b1_gateway.SendFsm.Moves.{Move, serve-Move}
use gmail_b1_gateway.SendFsm.AtMostOnce.{read-keeps}
use gmail_b1_gateway.SendFsm.Requests.{Request, serve, serve_all}

-- The stored proposal, in whatever status.
abbrev pub IsStored : String → Proposal → Kv → Type 0
IsStored i p kv = (s : ProposalStatus) × (read i kv ≡ ok (record p { status = s }))

abbrev IsIndexed : String → String → Kv → Type 0
IsIndexed k i kv = lookup (idem_index_key k) kv ≡ some (index_entry i)

-- A status write to any proposal keeps all the other fields of every proposal.
rewrite-IsStored :
    (i j : String) (p q : Proposal) (s : ProposalStatus) (kv : Kv)
    → IsStored i p kv
    → read j kv ≡ ok q
    → IsStored i p (put j (to_dict (record q { status = s })) kv)
rewrite-IsStored i j p q s kv (t, stored) other = elim (Bool-cases (j == i)) [
  | inl same ↦ (s, rw (read-put, same) (ground (arith, eq_iff j i)))
  | inr differ ↦ (t, rw (read-put, differ) stored)
]

-- An index entry cannot be read as a proposal, so no status write lands on it.
rewrite-IsIndexed :
    (k i j : String) (q x : Proposal) (kv : Kv)
    → IsIndexed k i kv
    → read j kv ≡ ok q
    → IsIndexed k i (put j (to_dict x) kv)
unfolding read
rewrite-IsIndexed k i j q x kv h other =
    rw lookup-insert (ground (arith, eq_iff j (idem_index_key k), from_dict-index_entry i))

module _ (k i : String) (p : Proposal) where
  pub record IsClaimed (kv : Kv) : Type 0 where
    pub indexed : IsIndexed k i kv
    pub stored : IsStored i p kv

  rewrite-IsClaimed :
      (j : String) (q : Proposal) (s : ProposalStatus) (kv : Kv)
      → IsClaimed kv
      → read j kv ≡ ok q
      → IsClaimed (put j (to_dict (record q { status = s })) kv)
  rewrite-IsClaimed j q s kv h other = record {
    indexed = rewrite-IsIndexed k i j q (record q { status = s }) kv h.indexed other;
    stored = rewrite-IsStored i j p q s kv h.stored other;
  }

  Move-IsClaimed : {fsm : Fsm} {w w' : World} → IsClaimed w.kv → Move fsm w w' → IsClaimed w'.kv
  Move-IsClaimed h (Move.stay e) = rw e h
  Move-IsClaimed {fsm} {w} {w'} h (Move.add s l keeps fresh) = record {
    indexed = keeps (idem_index_key k) (index_entry i) h.indexed;
    stored = (h.stored.0, read-keeps i w.kv w'.kv keeps h.stored.1);
  }
  Move-IsClaimed {fsm} {w} h (Move.approve j q actor now reachable may at_q g e) =
      rw e (rewrite-IsClaimed j q _ w.kv h at_q)
  Move-IsClaimed {fsm} {w} h (Move.send j q now r at_q g e) =
      rw e (rewrite-IsClaimed j q _ w.kv h at_q)
  Move-IsClaimed {fsm} {w} h (Move.lapse j q now at_q g e) =
      rw e (rewrite-IsClaimed j q _ w.kv h at_q)
  Move-IsClaimed {fsm} {w} h (Move.lapse_unlogged j q now at_q g c e) =
      rw e (rewrite-IsClaimed j q _ w.kv h at_q)

  serve_all-IsClaimed :
      (fsm : Fsm) (rs : List Request) (w : World)
      → IsClaimed w.kv
      → IsClaimed (serve_all fsm rs w).kv
  unfolding serve_all
  serve_all-IsClaimed fsm [] w h = h
  serve_all-IsClaimed fsm (r ∷ rs) w h =
      serve_all-IsClaimed fsm rs (serve fsm r w) (Move-IsClaimed h (serve-Move fsm r w))

  find_claimed :
      (kv : Kv)
      → (h : IsClaimed kv) → find_by_idempotency k kv ≡ ok (some (record p { status = h.stored.0 }))
  unfolding find_by_idempotency read
  find_claimed kv h = ground (arith, h.indexed, h.stored.1)

  duplicate_refused :
      (kv : Kv) (q r : Proposal)
      → IsClaimed kv
      → q.idempotency_key ≡ some k
      → (create q kv).0 ≢ ok r
  unfolding create
  duplicate_refused kv q r h key won = grind (arith, h.indexed, lookup-insert, eq_iff)

created-IsClaimed :
    (p : Proposal) (kv : Kv) (k : String)
    → (create p kv).0 ≡ ok p
    → p.idempotency_key ≡ some k
    → IsClaimed k p.proposal_id p (create p kv).1
unfolding create read
created-IsClaimed p kv k h key = record {
  indexed = grind (arith, lookup-insert, lookup-erase, eq_iff);
  stored = (p.status, grind (arith, lookup-insert, lookup-erase, eq_iff, from_dict-to_dict p));
}

-- Once `create` has stored a proposal under an idempotency key, then after any further calls the
-- key still finds that proposal, changed at most in its status, and a `create` for the same key
-- does not return a proposal.
pub key_is_permanent :
    (fsm : Fsm) (rs : List Request) (w : World) (p : Proposal) (k : String) (q : Proposal)
    → (create p w.kv).0 ≡ ok p
    → p.idempotency_key ≡ some k
    → q.idempotency_key ≡ some k
    → let w' = serve_all fsm rs (record w { kv = (create p w.kv).1 }) in
      (s : ProposalStatus) × (find_by_idempotency k w'.kv ≡ ok (some (record p { status = s })))
      × ((r : Proposal) → (create q w'.kv).0 ≢ ok r)
key_is_permanent fsm rs w p k q created key same_key =
    let v : World = record w { kv = (create p w.kv).1 } in
    let claimed =
      serve_all-IsClaimed k p.proposal_id p fsm rs v (created-IsClaimed p w.kv k created key) in
    (
      claimed.stored.0,
      find_claimed k p.proposal_id p (serve_all fsm rs v).kv claimed,
      λ r. duplicate_refused k p.proposal_id p (serve_all fsm rs v).kv q r claimed same_key,
    )
