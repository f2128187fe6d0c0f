-- ===== src/Gateway/ProposalService/Frozen.antt =====
-- gateway/proposal_api.py: every proposal has the bytes that its digest commits to.
use gmail_b1_gateway.Prelude.{
  String, ◌≡◌, ◌≢◌, inl, inr, ap, ◌∙◌, sym, false, none, some, arith, eq_iff, eq_refl, Option, ◌==◌,
  Bool-cases,
}
use gmail_b1_gateway.Dict.{lookup, insert, lookup-insert, lookup-erase}
use gmail_b1_gateway.Json.{obj, Fields}
use gmail_b1_gateway.Errors.{ok, Result-cases}
use gmail_b1_gateway.Store.Backend.{Kv}
use gmail_b1_gateway.Store.Record.{Proposal}
use gmail_b1_gateway.Store.Proposals.{create, read}
use gmail_b1_gateway.Store.Proposals.Create.{read-create_at}
use gmail_b1_gateway.Store.Proposals.Idempotency.{create_error_unchanged}
use gmail_b1_gateway.Canonicalizer.{Canonical}
use gmail_b1_gateway.Canonicalizer.Digest.{canonical_fields, digest}
use gmail_b1_gateway.Actionset.Prepare.{PrepareEmailResult}
use gmail_b1_gateway.Gateway.ProposalService.{
  Stores, Config, Mint, pending_proposal, freeze_and_create,
}

-- Every readable proposal has a payload in the content store, whose canonical text has the digest that the proposal
-- commits to.
abbrev pub IsFrozen : Config → Stores → Type 0
IsFrozen config s =
    (i : String) (p : Proposal)
    → read i s.proposals ≡ ok p
    → (payload : Fields) × (lookup i s.payloads ≡ some payload)
      × (digest config.sha256_hex (obj payload) ≡ ok p.payload_digest)

-- What is readable is there.
read-lookup : (i : String) (kv : Kv) {p : Proposal} → lookup i kv ≡ none → read i kv ≢ ok p
unfolding read
read-lookup i kv absent h = ground (arith, absent)

module _ (config : Config) (mint : Mint) (result : PrepareEmailResult) (canonical : Canonical)
    (key : Option String) (s : Stores) where
  abbrev new_proposal : Proposal
  new_proposal = pending_proposal config mint result key

  abbrev after : Stores
  after = (freeze_and_create config mint result canonical key s).1

  -- The proposals are what `create` leaves.
  proposals_after : after.proposals ≡ (create new_proposal s.proposals).1
  unfolding freeze_and_create
  proposals_after = ground arith

  -- No payload but the new one is touched.
  payloads_after :
      (i : String)
      → (result.proposal_id == i) ≡ false
      → lookup i after.payloads ≡ lookup i s.payloads
  unfolding freeze_and_create
  payloads_after i differ = ground (
    arith,
    differ,
    lookup-insert result.proposal_id i (canonical_fields canonical) s.payloads,
    lookup-erase result.proposal_id i
        (insert result.proposal_id (canonical_fields canonical) s.payloads),
  )

  payload_of_created :
      (q : Proposal)
      → (create new_proposal s.proposals).0 ≡ ok q
      → lookup result.proposal_id after.payloads ≡ some (canonical_fields canonical)
  unfolding freeze_and_create
  payload_of_created q h = ground (
    arith,
    h,
    lookup-insert result.proposal_id result.proposal_id (canonical_fields canonical) s.payloads,
    eq_refl result.proposal_id,
  )

  module _ (fresh : lookup result.proposal_id s.proposals ≡ none)
      (same : digest config.sha256_hex (obj (canonical_fields canonical))
        ≡ ok result.payload_digest)
      (frozen : IsFrozen config s) where
    -- A proposal that was there keeps its payload.
    old_frozen :
        (i : String) (p : Proposal)
        → read i s.proposals ≡ ok p
        → (payload : Fields) × (lookup i after.payloads ≡ some payload)
          × (digest config.sha256_hex (obj payload) ≡ ok p.payload_digest)
    old_frozen i p h =
        let (payload, stored, hash) = frozen i p h in
        elim (Bool-cases (result.proposal_id == i)) [
          | inl at_new ↦
              let e : result.proposal_id ≡ i = (eq_iff result.proposal_id i).0 at_new in
              absurd (read-lookup i s.proposals {p = p} (rw e at fresh) h)
          | inr differ ↦ (payload, payloads_after i differ ∙ stored, hash)
        ]

    -- The new proposal has the payload that was put before it.
    new_frozen :
        {q : Proposal}
        → read result.proposal_id (create new_proposal s.proposals).1 ≡ ok q
        → lookup result.proposal_id after.payloads ≡ some (canonical_fields canonical)
    new_frozen {q} h = elim (Result-cases (create new_proposal s.proposals).0) [
      | inl (p, made) ↦ payload_of_created p made
      | inr (e, lost) ↦ absurd (
          read-lookup result.proposal_id (create new_proposal s.proposals).1 {p = q}
            (create_error_unchanged new_proposal s.proposals result.proposal_id lost ∙ fresh) h)
    ]

    pub freeze_and_create-IsFrozen : IsFrozen config after
    freeze_and_create-IsFrozen i p h =
        let read_after = rw proposals_after at h in
        elim (read-create_at new_proposal s.proposals i read_after) [
          | inl old ↦ old_frozen i p old
          | inr (e, at_id) ↦ (
            canonical_fields canonical,
            rw at_id (new_frozen {q = p} (rw at_id at read_after)),
            same ∙ ap (λ x. ok x.payload_digest) (sym e),
          )
        ]
