-- ===== src/Gateway/ProposalService/Laws.antt =====
-- gateway/proposal_api.py: what `propose` keeps, and that it may be repeated.
use gmail_b1_gateway.Prelude.{
  String, ◌≡◌, inl, inr, refl, ap, ◌∙◌, false, not, ◌&&◌, none, some, arith, is_some,
}
use gmail_b1_gateway.Dict.{lookup}
use gmail_b1_gateway.Json.{Fields}
use gmail_b1_gateway.Errors.{ok, Result-cases}
use gmail_b1_gateway.Store.Record.{Proposal}
use gmail_b1_gateway.Store.Proposals.{create, find_by_idempotency}
use gmail_b1_gateway.Store.Proposals.Idempotency.{create_found}
use gmail_b1_gateway.Canonicalizer.{Canonical}
use gmail_b1_gateway.Actionset.Prepare.{PrepareEmailResult}
use gmail_b1_gateway.Gateway.ProposalService.{
  Stores, Config, Mint, idempotency_key, of_proposal, pending_proposal, freeze_and_create, propose,
}
use gmail_b1_gateway.Gateway.ProposalService.Frozen.{IsFrozen, freeze_and_create-IsFrozen}
use gmail_b1_gateway.Gateway.ProposalService.Proposed.{refused, replayed, written, propose-Course}

-- If every stored proposal has the payload that its digest commits to, this stays so through a `propose`
-- with a proposal id that is not stored yet, whether it raises, repeats, or writes.
pub propose-IsFrozen :
    (config : Config) (mint : Mint) (params : Fields) (s : Stores)
    → lookup mint.proposal_id s.proposals ≡ none
    → IsFrozen config s
    → IsFrozen config (propose config mint params s).1
propose-IsFrozen config mint params s fresh frozen = elim (propose-Course config mint params s) [
  | refused e r ↦ rw r frozen
  | replayed key p h k r ↦ rw r frozen
  | written key h w ↦ rw w.wrote (
      freeze_and_create-IsFrozen config mint w.result w.canonical key s
        (ap (λ i. lookup i s.proposals) w.new_id ∙ fresh) w.committed frozen)
]

module _ (config : Config) (mint : Mint) (k : String) where
  -- What a write returned is what the key now finds.
  freeze_and_create_found :
      (result : PrepareEmailResult) (canonical : Canonical) (s : Stores) {r : Fields}
      → let (a, t) = freeze_and_create config mint result canonical (some k) s in
        a ≡ ok r
        → (p : Proposal) × (find_by_idempotency k t.proposals ≡ ok (some p)) × (r ≡ of_proposal p)
  unfolding freeze_and_create
  freeze_and_create_found result canonical s {r} h =
      let p = pending_proposal config mint result (some k) in
      elim (Result-cases (create p s.proposals).0) [
        | inl (q, made) ↦
            let (same, found) = create_found p q s.proposals k made refl in
            (p, ground (arith, made, found), ground (arith, made))
        | inr (e, lost) ↦ elim (Result-cases (find_by_idempotency k (create p s.proposals).1)) [
          | inr (x, f) ↦ absurd (ground (arith, lost, f))
          | inl (none, f) ↦ absurd (ground (arith, lost, f))
          | inl (some winner, f) ↦ (winner, ground (arith, lost, f), ground (arith, lost, f))
        ]
      ]

  -- After a `propose` that returned, its key finds the proposal whose identifiers it returned.
  propose_found :
      (params : Fields) (s : Stores) {r : Fields}
      → idempotency_key params ≡ ok (some k)
      → (propose config mint params s).0 ≡ ok r
      → (p : Proposal) × (find_by_idempotency k (propose config mint params s).1.proposals
          ≡ ok (some p))
        × (r ≡ of_proposal p)
  propose_found params s {r} keyed h = elim (propose-Course config mint params s) [
    | refused e c ↦ absurd (cc (h, ap (λ x. x.0) c))
    | replayed key p h' found c ↦
        let same : key ≡ some k = cc (keyed, h') in
        rw c (p, rw same at found, cc (h, ap (λ x. x.0) c))
    | written key h' w ↦
        let same : key ≡ some k = cc (keyed, h') in
        let wrote = rw same at w.wrote in
        rw wrote (freeze_and_create_found w.result w.canonical s {r = r} (rw wrote at h))
  ]

propose_replays :
    (config : Config) (mint : Mint) (params : Fields) (k : String) (s : Stores) (p : Proposal)
    → idempotency_key params ≡ ok (some k)
    → find_by_idempotency k s.proposals ≡ ok (some p)
    → (config.require_message_id && not (is_some mint.message_id_factory)) ≡ false
    → propose config mint params s ≡ (ok (of_proposal p), s)
unfolding propose
propose_replays config mint params k s p keyed found has_factory =
    ground (arith, has_factory, keyed, found)

-- A `propose` that returned under an idempotency key, on whatever stores, may be repeated under that key
-- with any other content, clock and ids: it returns the same identifiers, and changes nothing.
pub propose_idempotent :
    (config : Config) (first second : Mint) (params params' : Fields) (k : String) (s : Stores)
    {r : Fields}
    → idempotency_key params ≡ ok (some k)
    → idempotency_key params' ≡ ok (some k)
    → (config.require_message_id && not (is_some second.message_id_factory)) ≡ false
    → (propose config first params s).0 ≡ ok r
    → propose config second params' (propose config first params s).1
      ≡ (ok r, (propose config first params s).1)
propose_idempotent config first second params params' k s {r} keyed keyed' has_factory h =
    let (p, found, same) = propose_found config first k params s keyed h in
    rw same (
      propose_replays config second params' k (propose config first params s).1 p keyed' found
        has_factory)
