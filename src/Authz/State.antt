-- ===== src/Authz/State.antt =====
-- authz/state.py: the synced state head and the revocations beside it, parsed fail-closed, and how a
-- verified head classifies a grant.
use gmail_b1_gateway.Prelude.{
  String, Bool, false, ◌&&◌, ◌||◌, Option, none, some, is_some, List, [], ◌∷◌, ℤ, elem, ◌==◌,
  if◌then◌else◌,
}
use gmail_b1_gateway.Json.{Value, Items, Fields, arr, nil, cons, member}
use gmail_b1_gateway.Authz.Artifact.{
  Parsed, valid, malformed, ◌>>=◌, ◌>>◌, pure, demand, has_only, is_canonical_decimal, is_grant_id,
  as_object, as_text,
}

pub data Membership : Type 0 where
  active superseded revoked no_grant : Membership

pub record VerifiedHead : Type 0 where
  pub state_version : String
  pub state_version_int : ℤ
  pub active_grants : List (String × String)
  pub digest : String
  pub seen_revocations : List String

-- `(gid, gver) in pairs`
abbrev pub lists_pair : String → String → List (String × String) → Bool
lists_pair gid gver [] = false
lists_pair gid gver ((g, v) ∷ pairs) = (g == gid && v == gver) || lists_pair gid gver pairs

-- `any(g == gid for g, _ in pairs)`
abbrev pub lists_grant : String → List (String × String) → Bool
lists_grant gid [] = false
lists_grant gid ((g, v) ∷ pairs) = g == gid || lists_grant gid pairs

unfoldable pub membership : VerifiedHead → String → String → Membership
membership head grant_id grant_version =
    if elem grant_id head.seen_revocations
    then revoked
    else if lists_pair grant_id grant_version head.active_grants
    then active
    else if lists_grant grant_id head.active_grants
    then superseded
    else no_grant

-- `set(d) == {a, b}`
abbrev has_exactly : String → String → Fields → Bool
has_exactly a b d = has_only (a ∷ b ∷ []) d && (is_some (member a d) && is_some (member b d))

abbrev decimal_text : String → Fields → Parsed String
decimal_text k d = do s ← as_text (member k d); demand (is_canonical_decimal s); pure s

abbrev grant_id_text : Fields → Parsed String
grant_id_text d = do s ← as_text (member "grant_id" d); demand (is_grant_id s); pure s

abbrev pub parse_entry : Value → Parsed (String × String)
parse_entry v = do
  d ← as_object (some v)
  demand (has_exactly "grant_id" "grant_version" d)
  gid ← grant_id_text d
  gver ← decimal_text "grant_version" d
  pure (gid, gver)

abbrev pub parse_entries : Items → Parsed (List (String × String))
parse_entries nil = valid []
parse_entries (cons v vs) =
    parse_entry v >>= λ pair. parse_entries vs >>= λ pairs. pure (pair ∷ pairs)

abbrev as_list : Option Value → Parsed Items
as_list (some (arr vs)) = valid vs
as_list _ = malformed none

-- `parse_head_body`: the version and the active pairs; the version's number is `int_of` it.
unfoldable pub parse_head_body : Fields → Parsed (String × List (String × String))
parse_head_body d = do
  demand (has_only ("state_version" ∷ "active_grants" ∷ []) d)
  sv ← decimal_text "state_version" d
  entries ← as_list (member "active_grants" d)
  pairs ← parse_entries entries
  pure (sv, pairs)

unfoldable pub parse_revocation_body : Fields → Parsed String
parse_revocation_body d = do
  demand (has_exactly "grant_id" "state_version" d)
  gid ← grant_id_text d
  sv ← decimal_text "state_version" d
  pure gid

-- `env.get("revocations", [])`
abbrev list_or_none : Option Value → Parsed Items
list_or_none none = valid nil
list_or_none (some v) = as_list (some v)

unfoldable pub parse_sync_envelope : Value → Parsed (Fields × Items)
parse_sync_envelope env = do
  d ← as_object (some env)
  demand (has_only ("head" ∷ "revocations" ∷ []) d)
  head_env ← as_object (member "head" d)
  revocations ← list_or_none (member "revocations" d)
  pure (head_env, revocations)
