-- ===== src/Authz/ControlPlane/Emitted.antt =====
-- authz/state.py and authz/gate.py: what the control plane signs, the gate reads back.
use gmail_b1_gateway.Prelude.{
  ℕ, String, pos, ◌≡◌, inl, inr, refl, true, false, some, List, [], ◌∷◌, arith, number_text, ◌==◌,
  eq_refl, Bool-cases, Option-cases,
}
use gmail_b1_gateway.Dict.{Dict}
use gmail_b1_gateway.Json.{Items, Fields, obj, int, str, field, end, nil, cons}
use gmail_b1_gateway.Keystore.Providers.{Bytes}
use gmail_b1_gateway.Keystore.Decimal.Canonical.{number_text-canonical}
use gmail_b1_gateway.Authz.Artifact.{
  valid, signing_input, parse_envelope, is_grant_id, is_canonical_decimal,
}
use gmail_b1_gateway.Authz.State.{parse_entries, parse_head_body, parse_revocation_body}
use gmail_b1_gateway.Authz.Gate.{Anchors}
use gmail_b1_gateway.Authz.Gate.Checks.{check_pure, verified, verify_revocations}
use gmail_b1_gateway.Authz.ControlPlane.Sorted.{ids}
use gmail_b1_gateway.Authz.ControlPlane.{
  insert_pair, le_pair, le_text, same_pair, sorted_set, entry_items, head_body, revocation_body,
  insert_revocation, sorted_revocations, Signer, revocation_type, signed, signed_revocation,
  sign_all,
}

-- Grant ids and versions as the parsers want them.
abbrev pub AreGrants : List (String × String) → Type 0
AreGrants [] = Unit
AreGrants ((g, v) ∷ pairs) =
    (is_grant_id g ≡ true) × (is_canonical_decimal v ≡ true) × AreGrants pairs

abbrev pub AreIds : Dict ℕ → Type 0
AreIds [] = Unit
AreIds ((g, n) ∷ rs) = (is_grant_id g ≡ true) × AreIds rs

insert_revocation-AreIds :
    (g : String) (n : ℕ) (rs : Dict ℕ)
    → is_grant_id g ≡ true
    → AreIds rs
    → AreIds (insert_revocation g n rs)
unfolding insert_revocation
insert_revocation-AreIds g n [] h all = (h, tt)
insert_revocation-AreIds g n ((k, m) ∷ rs) h all = elim (Bool-cases (le_text g k)) [
  | inl early ↦ rw early (h, all)
  | inr late ↦ rw late (all.0, insert_revocation-AreIds g n rs h all.1)
]

pub sorted_revocations-AreIds : (rs : Dict ℕ) → AreIds rs → AreIds (sorted_revocations rs)
unfolding sorted_revocations
sorted_revocations-AreIds [] all = tt
sorted_revocations-AreIds ((g, n) ∷ rs) all =
    insert_revocation-AreIds g n (sorted_revocations rs) all.0 (sorted_revocations-AreIds rs all.1)

insert_pair-AreGrants :
    (g v : String) (pairs : List (String × String))
    → is_grant_id g ≡ true
    → is_canonical_decimal v ≡ true
    → AreGrants pairs
    → AreGrants (insert_pair (g, v) pairs)
unfolding insert_pair
insert_pair-AreGrants g v [] h k all = (h, k, tt)
insert_pair-AreGrants g v ((a, b) ∷ pairs) h k all = elim (Bool-cases (same_pair (a, b) (g, v))) [
  | inl same ↦ rw same all
  | inr other ↦ rw other (elim (Bool-cases (le_pair (g, v) (a, b))) [
    | inl early ↦ rw early (h, k, all)
    | inr late ↦ rw late (all.0, all.1, insert_pair-AreGrants g v pairs h k all.2)
  ])
]

sorted_set-AreGrants :
    (pairs : List (String × String)) → AreGrants pairs → AreGrants (sorted_set pairs)
unfolding sorted_set
sorted_set-AreGrants [] all = tt
sorted_set-AreGrants ((g, v) ∷ pairs) all =
    insert_pair-AreGrants g v (sorted_set pairs) all.0 all.1 (sorted_set-AreGrants pairs all.2)

parse_entries-entry_items :
    (pairs : List (String × String))
    → AreGrants pairs
    → parse_entries (entry_items pairs) ≡ valid pairs
parse_entries-entry_items [] all = refl
parse_entries-entry_items ((g, v) ∷ pairs) all =
    rw (all.0) (rw (all.1) (rw (parse_entries-entry_items pairs all.2) refl))

-- A head body reads back as it was written, with its pairs sorted.
pub parse_head_body-head_body :
    (version : String) (pairs : List (String × String))
    → is_canonical_decimal version ≡ true
    → AreGrants pairs
    → parse_head_body (head_body version pairs) ≡ valid (version, sorted_set pairs)
unfolding parse_head_body head_body
parse_head_body-head_body version pairs h all =
    rw h (rw (parse_entries-entry_items (sorted_set pairs) (sorted_set-AreGrants pairs all)) refl)

parse_revocation_body-revocation_body :
    (g version : String)
    → is_grant_id g ≡ true
    → is_canonical_decimal version ≡ true
    → parse_revocation_body (revocation_body g version) ≡ valid g
unfolding parse_revocation_body revocation_body
parse_revocation_body-revocation_body g version h k = rw h (rw k refl)

-- A signature under the key verifies under the user root, and its text reads back.
pub record IsSigner (gate : Anchors) (key : Signer) : Type 0 where
  pub verifies : (m : Bytes) → gate.prim.verify gate.user_root m (key.sign m) ≡ true
  pub reads_back : (m : Bytes) → gate.prim.fromhex (key.hex (key.sign m)) ≡ some (key.sign m)

module _ (gate : Anchors) (key : Signer) (law : IsSigner gate key) where
  -- The envelope of a signed body, as it is parsed.
  pub signed_ok :
      (t : String) (body env : Fields)
      → (t == "") ≡ false
      → signed gate.prim key t body ≡ some env
      → (message : Bytes) × (signing_input gate.prim t body ≡ some message)
        × (parse_envelope gate.prim (obj env)
            ≡ valid (record { artifact_type = t; body = body; sig = key.sign message }))
  unfolding signed parse_envelope
  signed_ok t body env named h = elim (Option-cases (signing_input gate.prim t body)) [
    | inl failed ↦ absurd (ground (arith, failed, h))
    | inr (message, made) ↦
        let same : field "v" (int (pos 1)) (
              field "type" (str t)
                (field "body" (obj body) (field "sig" (str (key.hex (key.sign message))) end)))
            ≡ env =
          ground (arith, made, h) in
        (message, made, rw⁻¹ same (ground (arith, named, law.reads_back message)))
  ]

  pub verified_ok :
      (t : String) (body : Fields) (message : Bytes)
      → signing_input gate.prim t body ≡ some message
      → verified gate t (record { artifact_type = t; body = body; sig = key.sign message })
        ≡ check_pure tt
  unfolding verified
  verified_ok t body message made = rw (eq_refl t) (rw made (rw (law.verifies message) refl))

  -- The revocations that were signed are read back, each by its grant.
  pub verify_revocations-sign_all :
      (rs : Dict ℕ) (envs : Items)
      → AreIds rs
      → sign_all gate.prim key rs ≡ some envs
      → verify_revocations gate envs ≡ check_pure (ids rs)
  unfolding verify_revocations sign_all signed_revocation
  verify_revocations-sign_all [] envs all h = let e : nil ≡ envs = cc in rw⁻¹ e refl
  verify_revocations-sign_all ((g, n) ∷ rs) envs all h =
      let body = revocation_body g (number_text n) in
      elim (Option-cases (signed gate.prim key revocation_type body)) [
        | inl unsigned ↦ absurd (ground (arith, unsigned, h))
        | inr (env, made) ↦ elim (Option-cases (sign_all gate.prim key rs)) [
          | inl unsigned ↦ absurd (ground (arith, made, unsigned, h))
          | inr (rest, others) ↦
              let e : cons (obj env) rest ≡ envs = ground (arith, made, others, h) in
              let (message, signs, parses) = signed_ok revocation_type body env refl made in
              let checks = verified_ok revocation_type body message signs in
              let reads =
                parse_revocation_body-revocation_body g (number_text n) all.0
                  (number_text-canonical n) in
              rw⁻¹ e (
                rw parses (
                  rw checks
                    (rw reads (rw (verify_revocations-sign_all rs rest all.1 others) refl))))
        ]
      ]
