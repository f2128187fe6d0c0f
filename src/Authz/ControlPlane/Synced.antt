-- ===== src/Authz/ControlPlane/Synced.antt =====
-- authz/state.py and authz/gate.py: what the gate reads of a state that an honest relay ships.
use gmail_b1_gateway.Prelude.{
  String, ◌≡◌, refl, Bool, true, false, Option, none, some, List, [], arith, ◌&&◌, elem,
  if◌then◌else◌, is_some, Option-cases, Bool-cases, inl, inr,
}
use gmail_b1_gateway.Dict.{lookup}
use gmail_b1_gateway.Json.{Value, Items, Fields, obj, arr, nil, field, end}
use gmail_b1_gateway.Errors.{ok}
use gmail_b1_gateway.Keystore.Decimal.Canonical.{number_text-canonical}
use gmail_b1_gateway.Canonicalizer.Jcs.{canonicalize}
use gmail_b1_gateway.Authz.Artifact.{valid, int_of}
use gmail_b1_gateway.Authz.State.{
  Membership, active, superseded, revoked, no_grant, VerifiedHead, membership, lists_pair,
  lists_grant, parse_sync_envelope,
}
use gmail_b1_gateway.Authz.Gate.{Anchors}
use gmail_b1_gateway.Authz.Gate.Checks.{check_pure, verify_revocations, read_head}
use gmail_b1_gateway.Authz.ControlPlane.{
  HeadState, state_version, sorted_set, sorted_revocations, head_body, Signer, Relay, head_type,
  signed_head, signed_revocations, head_digest, sync,
}
use gmail_b1_gateway.Authz.ControlPlane.Sorted.{
  ids, lists_pair-sorted_set, lists_grant-sorted_set, elem-sorted_revocations,
}
use gmail_b1_gateway.Authz.ControlPlane.Emitted.{
  AreGrants, AreIds, IsSigner, signed_ok, verified_ok, parse_head_body-head_body,
  verify_revocations-sign_all, sorted_revocations-AreIds,
}

-- Every grant of the state has an id and a version as the parsers want them.
pub record IsWellFormed (st : HeadState) : Type 0 where
  pub grants : AreGrants st.active
  pub ids : AreIds st.revocations

-- What the state says of a grant, to a gate that is shown the revocations or not.
abbrev pub standing : HeadState → Bool → String → String → Membership
standing st shown grant_id grant_version =
    if shown && is_some (lookup grant_id st.revocations)
    then revoked
    else if lists_pair grant_id grant_version st.active
    then active
    else if lists_grant grant_id st.active
    then superseded
    else no_grant

-- The revocations that a relay ships.
abbrev shipped_ids : HeadState → Bool → List String
shipped_ids st shown = if shown then ids (sorted_revocations st.revocations) else []

elem-shipped_ids :
    (g : String) (st : HeadState) (shown : Bool)
    → elem g (shipped_ids st shown) ≡ (shown && is_some (lookup g st.revocations))
elem-shipped_ids g st true = elem-sorted_revocations g st.revocations
elem-shipped_ids g st false = refl

abbrev head_read : HeadState → Bool → String → VerifiedHead
head_read st shown digest = record {
  state_version = state_version st;
  state_version_int = int_of (state_version st);
  active_grants = sorted_set st.active;
  digest = digest;
  seen_revocations = shipped_ids st shown;
}

membership-head_read :
    (st : HeadState) (shown : Bool) (digest g v : String)
    → membership (head_read st shown digest) g v ≡ standing st shown g v
unfolding membership
membership-head_read st shown digest g v =
    rw (elem-shipped_ids g st shown)
      (rw (lists_pair-sorted_set g v st.active) (rw (lists_grant-sorted_set g st.active) refl))

module _ (gate : Anchors) (key : Signer) (law : IsSigner gate key) where
  abbrev shipped : Relay → HeadState → Option Items
  shipped relay st =
      if relay.include_revocations then signed_revocations gate.prim key st else some nil

  shipped_ok :
      (st : HeadState) (relay : Relay) {env : Value}
      → relay.withheld ≡ none
      → sync gate.prim key relay st ≡ some env
      → (head : Fields) × (revocations : Items) × (signed_head gate.prim key st ≡ some head)
        × (shipped relay st ≡ some revocations)
        × (env ≡ obj (field "head" (obj head) (field "revocations" (arr revocations) end)))
  unfolding sync
  shipped_ok st relay {env} honest h = elim (Bool-cases relay.reachable) [
    | inr down ↦ absurd (ground (arith, down, h))
    | inl up ↦ elim (Option-cases (signed_head gate.prim key st)) [
      | inl unsigned ↦ absurd (ground (arith, up, honest, unsigned, h))
      | inr (head, signs) ↦ elim (Option-cases (shipped relay st)) [
        | inl unsigned ↦ absurd (ground (arith, up, honest, signs, unsigned, h))
        | inr (revocations, ships) ↦
            (head, revocations, signs, ships, ground (arith, up, honest, signs, ships, h))
      ]
    ]
  ]

  revocations_ok :
      (st : HeadState) (shown : Bool) (envs : Items)
      → AreIds st.revocations
      → (if shown then signed_revocations gate.prim key st else some nil) ≡ some envs
      → verify_revocations gate envs ≡ check_pure (shipped_ids st shown)
  unfolding signed_revocations verify_revocations
  revocations_ok st true envs all h =
      verify_revocations-sign_all gate key law (sorted_revocations st.revocations) envs
        (sorted_revocations-AreIds st.revocations all) h
  revocations_ok st false envs all h = let e : nil ≡ envs = cc in rw⁻¹ e refl

  read_head-sync :
      (st : HeadState) (relay : Relay) {env : Value}
      → IsWellFormed st
      → relay.withheld ≡ none
      → sync gate.prim key relay st ≡ some env
      → (digest : String) × (head_digest gate.prim key st ≡ some digest)
        × (read_head gate env ≡ check_pure (head_read st relay.include_revocations digest))
  unfolding read_head parse_sync_envelope head_digest signed_head state_version
  read_head-sync st relay {env} good honest h =
      let (head, revocations, signs, ships, shape) = shipped_ok st relay honest h in
      let body = head_body (state_version st) st.active in
      let (message, made, parses) = signed_ok gate key law head_type body head refl signs in
      let checks = verified_ok gate key law head_type body message made in
      let reads =
        parse_head_body-head_body (state_version st) st.active
          (number_text-canonical st.version_int) good.grants in
      let seen = revocations_ok st relay.include_revocations revocations good.ids ships in
      elim (Option-cases (canonicalize (obj body))) [
        | inl failed ↦ absurd (ground (arith, failed, made))
        | inr (text, canonical) ↦ (
          gate.prim.sha256_hex text,
          ground (arith, canonical),
          rw shape (rw parses (rw checks (rw reads (rw seen (ground (arith, canonical)))))),
        )
      ]

  -- What an honest relay ships of a well-formed state, the gate accepts as a head with the state's own
  -- version and digest, and it classifies every grant and version as the state has it: revoked where
  -- the revocations were shipped and have the grant, active where it is listed so, superseded where it is
  -- listed in another version, and otherwise unknown.
  pub synced_membership :
      (st : HeadState) (relay : Relay) {env : Value}
      → IsWellFormed st
      → relay.withheld ≡ none
      → sync gate.prim key relay st ≡ some env
      → (head : VerifiedHead) × (read_head gate env ≡ ok (valid head))
        × (head.state_version ≡ state_version st)
        × (head_digest gate.prim key st ≡ some head.digest)
        × ((g v : String) → membership head g v ≡ standing st relay.include_revocations g v)
  synced_membership st relay good honest h =
      let (digest, digested, reads) = read_head-sync st relay good honest h in
      (
        head_read st relay.include_revocations digest,
        reads,
        refl,
        digested,
        membership-head_read st relay.include_revocations digest,
      )
