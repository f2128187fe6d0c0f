-- ===== src/Authz/ControlPlane.antt =====
-- authz/state.py: the operator's control plane over the signed head, and the relay that ships it. The
-- user root's signature and its hex text are parameters.
pub mod Sorted
pub mod Emitted
pub mod Synced
pub mod Revocation
use gmail_b1_gateway.Prelude.{
  ℕ, ◌+◌, String, Bool, true, false, Option, none, some, List, [], ◌∷◌, ℤ, pos, beq, codes,
  number_text, ◌==◌, ◌&&◌, if◌then◌else◌,
}
use gmail_b1_gateway.Dict.{Dict, insert, erase}
use gmail_b1_gateway.Json.{Value, Items, Fields, str, int, obj, arr, nil, cons, end, field}
use gmail_b1_gateway.Keystore.Providers.{Bytes}
use gmail_b1_gateway.Canonicalizer.Jcs.{canonicalize, le_bytes}
use gmail_b1_gateway.Authz.Artifact.{Primitives, signing_input}

-- A version is never negative: it starts where the operator sets it and only grows.
pub record HeadState : Type 0 where
  pub active : Dict String
  pub version_int : ℕ
  pub revocations : Dict ℕ

unfoldable pub state_version : HeadState → String
state_version st = number_text st.version_int

unfoldable pub revoke : String → HeadState → HeadState
revoke grant_id st = record {
  active = erase grant_id st.active;
  version_int = st.version_int + 1;
  revocations = insert grant_id (st.version_int + 1) st.revocations;
}

unfoldable pub supersede : String → ℕ → HeadState → HeadState
supersede grant_id new_version st = record st {
  active = insert grant_id (number_text new_version) st.active;
  version_int = st.version_int + 1;
}

unfoldable pub add : String → String → HeadState → HeadState
add grant_id grant_version st = record {
  active = insert grant_id grant_version st.active;
  version_int = st.version_int + 1;
  revocations = erase grant_id st.revocations;
}

-- The order of texts, by code points.
abbrev pub le_text : String → String → Bool
le_text s t = le_bytes (codes s) (codes t)

abbrev pub le_pair : String × String → String × String → Bool
le_pair (g, v) (h, w) = if g == h then le_text v w else le_text g h

abbrev pub same_pair : String × String → String × String → Bool
same_pair (g, v) (h, w) = g == h && v == w

-- `sorted(set(pairs))`
unfoldable pub insert_pair : String × String → List (String × String) → List (String × String)
unfolding le_bytes
insert_pair p [] = p ∷ []
insert_pair p (q ∷ pairs) =
    let rest = insert_pair p pairs in
    if same_pair q p then q ∷ pairs else if le_pair p q then p ∷ (q ∷ pairs) else q ∷ rest

unfoldable pub sorted_set : List (String × String) → List (String × String)
sorted_set [] = []
sorted_set (p ∷ pairs) = insert_pair p (sorted_set pairs)

abbrev pub entry_value : String × String → Value
entry_value (gid, gver) = obj (field "grant_id" (str gid) (field "grant_version" (str gver) end))

abbrev pub entry_items : List (String × String) → Items
entry_items [] = nil
entry_items (p ∷ pairs) = cons (entry_value p) (entry_items pairs)

unfoldable pub head_body : String → List (String × String) → Fields
head_body version active_grants =
    field "state_version" (str version)
      (field "active_grants" (arr (entry_items (sorted_set active_grants))) end)

unfoldable pub revocation_body : String → String → Fields
revocation_body grant_id version =
    field "grant_id" (str grant_id) (field "state_version" (str version) end)

-- `sorted(self._revocations.items())`, whose keys differ.
unfoldable pub insert_revocation : String → ℕ → Dict ℕ → Dict ℕ
insert_revocation g n [] = (g, n) ∷ []
insert_revocation g n ((h, m) ∷ rs) =
    let rest = insert_revocation g n rs in
    if le_text g h then (g, n) ∷ ((h, m) ∷ rs) else (h, m) ∷ rest

unfoldable pub sorted_revocations : Dict ℕ → Dict ℕ
sorted_revocations [] = []
sorted_revocations ((g, n) ∷ rs) = insert_revocation g n (sorted_revocations rs)

-- `Ed25519PrivateKey.sign` under the user root, and `bytes.hex`.
pub record Signer : Type 0 where
  pub sign : Bytes → Bytes
  pub hex : Bytes → String

abbrev pub head_type : String
head_type = "authz_state"

abbrev pub revocation_type : String
revocation_type = "authz_revocation"

-- What a relay ships for the next sync.
pub record Relay : Type 0 where
  pub reachable : Bool
  pub withheld : Option Fields
  pub include_revocations : Bool

module _ (prim : Primitives) (key : Signer) where
  -- The envelope; `none` is a `JCSError`.
  unfoldable pub signed : String → Fields → Option Fields
  signed artifact_type body = elim (signing_input prim artifact_type body) [
    | some message ↦ some (
        field "v" (int (pos 1)) (
          field "type" (str artifact_type)
            (field "body" (obj body) (field "sig" (str (key.hex (key.sign message))) end))))
    | none ↦ none
  ]

  unfoldable pub signed_head : HeadState → Option Fields
  signed_head st = signed head_type (head_body (state_version st) st.active)

  unfoldable pub signed_revocation : String → ℕ → Option Fields
  unfolding signed revocation_body
  signed_revocation grant_id n = signed revocation_type (revocation_body grant_id (number_text n))

  abbrev cons_signed : Option Fields → Option Items → Option Items
  cons_signed (some env) (some envs) = some (cons (obj env) envs)
  cons_signed _ _ = none

  unfoldable pub sign_all : Dict ℕ → Option Items
  unfolding signed_revocation
  sign_all [] = some nil
  sign_all ((g, n) ∷ rs) = cons_signed (signed_revocation g n) (sign_all rs)

  unfoldable pub signed_revocations : HeadState → Option Items
  unfolding sign_all
  signed_revocations st = sign_all (sorted_revocations st.revocations)

  unfoldable pub head_digest : HeadState → Option String
  head_digest st = elim (canonicalize (obj (head_body (state_version st) st.active))) [
    | some text ↦ some (prim.sha256_hex text)
    | none ↦ none
  ]

  abbrev pub sync_envelope : Option Fields → Option Items → Option Value
  sync_envelope (some head) (some revocations) =
      some (obj (field "head" (obj head) (field "revocations" (arr revocations) end)))
  sync_envelope _ _ = none

  abbrev head_of : Relay → HeadState → Option Fields
  head_of relay st = elim relay.withheld [ some head ↦ some head | none ↦ signed_head st ]

  abbrev revocations_of : Relay → HeadState → Option Items
  revocations_of relay st = if relay.include_revocations then signed_revocations st else some nil

  -- `StubSyncSource.sync`: `none` is `AuthorizationUnavailable`, or a `JCSError`.
  unfoldable pub sync : Relay → HeadState → Option Value
  sync relay st =
      if relay.reachable then sync_envelope (head_of relay st) (revocations_of relay st) else none

  -- `pin_and_withhold`
  unfoldable pub pin_and_withhold : HeadState → Relay → Relay
  unfolding signed_head
  pin_and_withhold st relay = record relay { withheld = signed_head st }

-- `set_reachable`, `withhold_revocations` and `resume`
unfoldable pub set_reachable : Bool → Relay → Relay
set_reachable reachable relay = record relay { reachable = reachable }

unfoldable pub withhold_revocations : Relay → Relay
withhold_revocations relay = record relay { include_revocations = false }

unfoldable pub resume : Relay → Relay
resume relay = record relay { withheld = none; include_revocations = true }

-- The operator's calls.
pub data Order : Type 0 where
  revoking : String → Order
  superseding : String → ℕ → Order
  adding : String → String → Order

unfoldable pub obey : Order → HeadState → HeadState
unfolding revoke supersede add
obey (revoking g) st = revoke g st
obey (superseding g n) st = supersede g n st
obey (adding g v) st = add g v st

unfoldable pub obey_all : List Order → HeadState → HeadState
obey_all [] st = st
obey_all (o ∷ orders) st = obey_all orders (obey o st)
