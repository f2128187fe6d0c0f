-- ===== src/Gateway/ProposalService.antt =====
-- gateway/proposal_api.py: `ProposalService`, over the proposal store and the store of payloads.
pub mod Frozen
pub mod Proposed
pub mod Laws
use gmail_b1_gateway.Prelude.{
  String, Bool, true, false, not, ◌&&◌, Option, none, some, is_some, ℤ, ◌==◌, if◌then◌else◌,
}
use gmail_b1_gateway.Json.{Value, null, str, int, obj, Fields, end, field, member}
use gmail_b1_gateway.Errors.{
  Error, Result, ok, err, proposal_not_found, payload_schema, duplicate_idempotency, Action, pure,
  raise, lift, ◌>>=◌, ◌>>◌, raise_if, query, modify, or_raise,
}
use gmail_b1_gateway.Keystore.Providers.{Bytes}
use gmail_b1_gateway.Canonicalizer.{Canonical, build_canonical_payload}
use gmail_b1_gateway.Canonicalizer.Digest.{canonical_fields, digest}
use gmail_b1_gateway.Store.Backend.{Kv, get as kv_get, put as kv_put, delete as kv_delete}
use gmail_b1_gateway.Store.Record.{Proposal, pending, status_value}
use gmail_b1_gateway.Store.Proposals.{create, read, find_by_idempotency}
use gmail_b1_gateway.Actionset.Prepare.{PrepareEmailResult, prepare_email}

-- The proposal store and the content store.
pub record Stores : Type 0 where
  pub proposals : Kv
  pub payloads : Kv

pub record Config : Type 0 where
  pub sha256_hex : Bytes → String
  pub ttl_seconds : ℤ
  pub require_message_id : Bool

-- What a call is given: the clock, the factory's proposal id, and what the Message-ID factory yields,
-- if there is one.
pub record Mint : Type 0 where
  pub now : ℤ
  pub proposal_id : String
  pub message_id_factory : Option (Option String)

-- `_identifiers`
abbrev pub identifiers : String → String → ℤ → Fields
identifiers proposal_id payload_digest expires_at =
    field "proposal_id" (str proposal_id)
      (field "payload_digest" (str payload_digest) (field "expires_at" (int expires_at) end))

abbrev pub of_proposal : Proposal → Fields
of_proposal p = identifiers p.proposal_id p.payload_digest p.expires_at

-- `params.get("idempotency_key")`, which must be a text or `None`.
abbrev key_of : Option Value → Result (Option String)
key_of none = ok none
key_of (some null) = ok none
key_of (some (str s)) = ok (some s)
key_of (some v) = err payload_schema

abbrev pub idempotency_key : Fields → Result (Option String)
idempotency_key params = key_of (member "idempotency_key" params)

abbrev joined_id : Option (Option String) → Option String
joined_id none = none
joined_id (some m) = m

-- `not message_id`
abbrev is_missing : Option String → Bool
is_missing none = true
is_missing (some s) = s == ""

abbrev with_proposals : {A : Type 0} → Action Kv A → Action Stores A
with_proposals m s = let (r, kv) = m s.proposals in (r, record s { proposals = kv })

abbrev pub existing_of : Option String → Kv → Result (Option Proposal)
existing_of none kv = ok none
existing_of (some key) kv = find_by_idempotency key kv

module _ (config : Config) (mint : Mint) where
  abbrev pub minted : Option String
  minted = joined_id mint.message_id_factory

  abbrev pub pending_proposal : PrepareEmailResult → Option String → Proposal
  pending_proposal result key = record {
    proposal_id = result.proposal_id;
    payload_digest = result.payload_digest;
    expires_at = result.expires_at;
    created_at = mint.now;
    status = pending;
    idempotency_key = key;
  }

  -- What stands under `except DuplicateIdempotencyError`.
  abbrev yield_to_winner : String → Option String → Action Stores Fields
  yield_to_winner proposal_id key = do
    modify (λ s. record s { payloads = kv_delete proposal_id s.payloads })
    existing ← query (λ s. existing_of key s.proposals)
    winner ← or_raise existing duplicate_idempotency
    pure (of_proposal winner)

  abbrev created : PrepareEmailResult → Option String → Result Proposal → Action Stores Fields
  created result key (ok p) =
      pure (identifiers result.proposal_id result.payload_digest result.expires_at)
  created result key (err duplicate_idempotency) = yield_to_winner result.proposal_id key
  created result key (err e) = raise e

  -- `self._payloads.put` and `self._proposals.create`.
  unfoldable pub freeze_and_create :
      PrepareEmailResult → Canonical → Option String → Action Stores Fields
  freeze_and_create result canonical key s =
      let frozen = record s {
        payloads = kv_put result.proposal_id (canonical_fields canonical) s.payloads;
      } in
      let (r, kv) = create (pending_proposal result key) s.proposals in
      created result key r (record frozen { proposals = kv })

  -- A new proposal, once the key was not found.
  unfoldable pub propose_new : Fields → Option String → Action Stores Fields
  propose_new params key = do
    raise_if (config.require_message_id && is_missing minted) payload_schema
    result ← lift (
        prepare_email config.sha256_hex (obj params) mint.now config.ttl_seconds mint.proposal_id
          minted)
    canonical ← lift (build_canonical_payload (obj params) minted)
    again ← lift (digest config.sha256_hex (obj (canonical_fields canonical)))
    raise_if (not (again == result.payload_digest)) payload_schema
    freeze_and_create result canonical key

  abbrev replay_or : Option Proposal → Fields → Option String → Action Stores Fields
  replay_or (some p) params key = pure (of_proposal p)
  replay_or none params key = propose_new params key

  unfoldable pub propose : Fields → Action Stores Fields
  propose params = do
    raise_if (config.require_message_id && not (is_some mint.message_id_factory)) payload_schema
    key ← lift (idempotency_key params)
    existing ← query (λ s. existing_of key s.proposals)
    replay_or existing params key

-- `get_status`
abbrev pub status_of : Proposal → Fields
status_of p = field "proposal_id" (str p.proposal_id) (
    field "status" (str (status_value p.status)) (
      field "payload_digest" (str p.payload_digest)
        (field "expires_at" (int p.expires_at) (field "created_at" (int p.created_at) end))))

unfoldable pub get_status : String → Stores → Result Fields
get_status proposal_id s = elim (read proposal_id s.proposals) [
  | ok p ↦ ok (status_of p)
  | err e ↦ err e
]

unfoldable pub load_payload : String → Stores → Result Fields
load_payload proposal_id s = elim (kv_get proposal_id s.payloads) [
  | some raw ↦ ok raw
  | none ↦ err proposal_not_found
]
