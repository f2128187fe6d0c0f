-- ===== src/Gateway/ProposalService/Proposed.antt =====
-- gateway/proposal_api.py: what one `propose` does to the two stores.
use gmail_b1_gateway.Prelude.{
  String, ◌≡◌, ◌⊎◌, inl, inr, false, not, ◌&&◌, none, some, arith, eq_iff, Option, ◌==◌, Bool-cases,
  is_some,
}
use gmail_b1_gateway.Json.{obj, Fields}
use gmail_b1_gateway.Errors.{Error, payload_schema, Result, ok, err, Result-cases}
use gmail_b1_gateway.Store.Record.{Proposal}
use gmail_b1_gateway.Canonicalizer.{Canonical, build_canonical_payload}
use gmail_b1_gateway.Canonicalizer.Digest.{canonical_fields, digest}
use gmail_b1_gateway.Actionset.Prepare.{PrepareEmailResult, prepare_email}
use gmail_b1_gateway.Gateway.ProposalService.{
  Stores, Config, Mint, minted, is_missing, idempotency_key, existing_of, of_proposal,
  freeze_and_create, propose_new, propose,
}

module _ (config : Config) (mint : Mint) (params : Fields) (s : Stores) where
  -- The call wrote: with the factory's id, and a payload of the digest that it committed to.
  pub record IsWritten (key : Option String) (r : Result Fields × Stores) : Type 0 where
    pub result : PrepareEmailResult
    pub canonical : Canonical
    pub of_params : build_canonical_payload (obj params) (minted config mint) ≡ ok canonical
    pub new_id : result.proposal_id ≡ mint.proposal_id
    pub committed :
        digest config.sha256_hex (obj (canonical_fields canonical)) ≡ ok result.payload_digest
    pub wrote : r ≡ freeze_and_create config mint result canonical key s

  prepare_email_id :
      (result : PrepareEmailResult)
      → prepare_email config.sha256_hex
          (obj params)
          mint.now
          config.ttl_seconds
          mint.proposal_id
          (minted config mint)
        ≡ ok result
      → result.proposal_id ≡ mint.proposal_id
  unfolding prepare_email
  prepare_email_id result h = ground arith

  digest_agrees : (a b : String) {d : Result String} → d ≡ ok a → not (a == b) ≡ false → d ≡ ok b
  digest_agrees a b h same = ground (arith, eq_iff a b)

  new_cases :
      (key : Option String)
      → ((e : Error) × (propose_new config mint params key s ≡ (err e, s)))
        ⊎ IsWritten key (propose_new config mint params key s)
  unfolding propose_new
  new_cases key =
      let m = minted config mint in
      elim (Bool-cases (config.require_message_id && is_missing m)) [
        | inl lacking ↦ inl (payload_schema, ground (arith, lacking))
        | inr has_id ↦
            elim (Result-cases (
              prepare_email config.sha256_hex (obj params) mint.now config.ttl_seconds
                mint.proposal_id m)) [
                  | inr (e, h) ↦ inl (e, ground (arith, has_id, h))
                  | inl (result, h) ↦ elim (Result-cases (build_canonical_payload (obj params) m)) [
                    | inr (e, k) ↦ inl (e, ground (arith, has_id, h, k))
                    | inl (canonical, k) ↦
                        elim (Result-cases
                          (digest config.sha256_hex (obj (canonical_fields canonical)))) [
                            | inr (e, d) ↦ inl (e, ground (arith, has_id, h, k, d))
                            | inl (again, d) ↦
                                elim (Bool-cases (not (again == result.payload_digest))) [
                                  | inl differ ↦
                                      inl (payload_schema, ground (arith, has_id, h, k, d, differ))
                                  | inr same ↦ inr (record {
                                    result = result;
                                    canonical = canonical;
                                    of_params = k;
                                    new_id = prepare_email_id result h;
                                    committed = digest_agrees again result.payload_digest d same;
                                    wrote = ground (arith, has_id, h, k, d, same);
                                  })
                                ]
                          ]
                  ]
                ]
      ]

  -- How a call ends: it raises and changes nothing, or it repeats what the key already has and changes
  -- nothing, or it writes a new proposal with its payload.
  pub data Course (r : Result Fields × Stores) : Type 0 where
    refused : (e : Error) → r ≡ (err e, s) → Course r
    replayed :
        (key : Option String) (p : Proposal)
        → idempotency_key params ≡ ok key
        → existing_of key s.proposals ≡ ok (some p)
        → r ≡ (ok (of_proposal p), s)
        → Course r
    written : (key : Option String) → idempotency_key params ≡ ok key → IsWritten key r → Course r

  pub propose-Course : Course (propose config mint params s)
  unfolding propose
  propose-Course =
      elim (Bool-cases (config.require_message_id && not (is_some mint.message_id_factory))) [
        | inl lacking ↦ Course.refused payload_schema (ground (arith, lacking))
        | inr has_factory ↦ elim (Result-cases (idempotency_key params)) [
          | inr (e, h) ↦ Course.refused e (ground (arith, has_factory, h))
          | inl (key, h) ↦ elim (Result-cases (existing_of key s.proposals)) [
            | inr (e, k) ↦ Course.refused e (ground (arith, has_factory, h, k))
            | inl (some p, k) ↦ Course.replayed key p h k (ground (arith, has_factory, h, k))
            | inl (none, k) ↦ elim (new_cases key) [
              | inl (e, same) ↦ Course.refused e (ground (arith, has_factory, h, k, same))
              | inr w ↦ Course.written key h (record {
                result = w.result;
                canonical = w.canonical;
                of_params = w.of_params;
                new_id = w.new_id;
                committed = w.committed;
                wrote = ground (arith, has_factory, h, k, w.wrote);
              })
            ]
          ]
        ]
      ]
