-- ===== src/Gateway/SealedToken.antt =====
-- gateway/send_path.py: `SealedTokenStore`, the sealed OAuth token and the provenance of its last
-- write, in one row. The row is the value under `_KEY`, the only key that the store touches.
pub mod Provenance
pub mod Rotation
use gmail_b1_gateway.Prelude.{
  String, Bool, true, false, not, Option, none, some, is_some, List, [], ◌∷◌, ℤ, pos, beq_ℤ, elem,
  ◌==◌, ◌&&◌, ◌||◌, if◌then◌else◌,
}
use gmail_b1_gateway.Json.{Value, Fields, null, str, int, end, field, member, opt_str}
use gmail_b1_gateway.Errors.{
  Result, ok, err, key_unavailable, key_material, value_error, ill_typed, Action, raise_if, modify,
  query, lift, ◌>>=◌, ◌>>◌,
}
use gmail_b1_gateway.Keystore.Providers.{Bytes}
use gmail_b1_gateway.Keystore.Aead.{
  Aesgcm, SealedRecord, StoredRecord, to_stored, of_stored, seal, unseal,
}
use gmail_b1_gateway.Gateway.TokenStore.{Blob, json, other}

-- The stored dict: a sealed record, and the provenance beside it; `none` is a missing member.
pub record TokenRow : Type 0 where
  pub sealed : StoredRecord
  pub write_origin : Option String
  pub written_at : Option ℤ

abbrev pub TokenDb : Type 0
TokenDb = Option TokenRow

-- The arguments of `store`.
pub record TokenWrite : Type 0 where
  pub access_token : String
  pub refresh_token : Option String
  pub issued_at : Option ℤ
  pub expires_at : Option ℤ
  pub client_id : Option String
  pub client_secret : Option String
  pub scope : Option String
  pub write_origin : String

-- `_RECORD_TYPE`
abbrev pub token_type : String
token_type = "oauth_token"

-- `_WRITE_ORIGINS`
abbrev pub write_origins : List String
write_origins = "authorize" ∷ "refresh" ∷ []

abbrev pub opt_int : Option ℤ → Value
opt_int none = null
opt_int (some n) = int n

-- The dict that is sealed.
abbrev pub token_fields : TokenWrite → Fields
token_fields w = field "access_token" (str w.access_token) (
    field "refresh_token" (opt_str w.refresh_token) (
      field "issued_at" (opt_int w.issued_at) (
        field "expires_at" (opt_int w.expires_at) (
          field "client_id" (opt_str w.client_id) (
            field "client_secret" (opt_str w.client_secret) (
              field "scope" (opt_str w.scope) (
                field "write_origin" (str w.write_origin)
                  (field "written_at" (opt_int w.issued_at) end))))))))

-- `d.get(k)` of a member that is a text or null, and of one that is a number or null. The source would pass
-- another value on untyped; here it is `ill_typed`.
abbrev pub text_or_none : Option Value → Result (Option String)
text_or_none none = ok none
text_or_none (some null) = ok none
text_or_none (some (str s)) = ok (some s)
text_or_none (some v) = err ill_typed

abbrev pub int_or_none : Option Value → Result (Option ℤ)
int_or_none none = ok none
int_or_none (some null) = ok none
int_or_none (some (int n)) = ok (some n)
int_or_none (some v) = err ill_typed

abbrev pub same_text : Option String → Option String → Bool
same_text none none = true
same_text (some s) (some t) = s == t
same_text _ _ = false

abbrev pub same_int : Option ℤ → Option ℤ → Bool
same_int none none = true
same_int (some m) (some n) = beq_ℤ m n
same_int _ _ = false

abbrev pub is_origin : Option String → Bool
is_origin none = false
is_origin (some s) = elem s write_origins

-- Whether the provenance beside the record contradicts the one inside, in a record that has any.
unfoldable pub mismatched : Option String → Option String → Option ℤ → Option ℤ → Bool
mismatched outer_origin inner_origin outer_at inner_at =
    (is_some outer_origin || is_some inner_origin)
    && (not (same_text outer_origin inner_origin)
        || (not (is_origin outer_origin) || not (same_int outer_at inner_at)))

abbrev is_text : Option Value → Bool
is_text (some (str s)) = true
is_text _ = false

-- The checks of `_open` behind the decryption.
unfoldable pub check_opened : TokenRow → Fields → Result Fields
unfolding mismatched
check_opened row d =
    if not (is_text (member "access_token" d))
    then err key_material
    else elim (text_or_none (member "write_origin" d)) [
      | err e ↦ err e
      | ok inner_origin ↦ elim (int_or_none (member "written_at" d)) [
        | err e ↦ err e
        | ok inner_at ↦
            if mismatched row.write_origin inner_origin row.written_at inner_at
            then err key_material
            else ok d
      ]
    ]

-- `json.loads` of what was opened
abbrev check_blob : TokenRow → Blob → Result Fields
check_blob row (json d) = check_opened row d
check_blob row (other b) = err value_error

-- `a or b` of texts
abbrev pub or_text : Option String → Option String → Option String
or_text none b = b
or_text (some s) b = if s == "" then b else some s

abbrev pub row_of : TokenWrite → SealedRecord → TokenRow
row_of w s = record {
  sealed = to_stored s;
  write_origin = some w.write_origin;
  written_at = w.issued_at;
}

module _ (c : Aesgcm Blob) where
  abbrev pub open_record : Result Bytes → TokenRow → Result Fields
  open_record provider row = elim (of_stored row.sealed) [
    | ok s ↦ elim (unseal c provider s) [ ok b ↦ check_blob row b | err e ↦ err e ]
    | err e ↦ err e
  ]

  -- `_open`, and `token_record`, which copies what it returns.
  unfoldable pub token_record : Result Bytes → TokenDb → Result Fields
  unfolding check_opened
  token_record provider none = err key_unavailable
  token_record provider (some row) = open_record provider row

  -- `access_token`
  unfoldable pub stored_access_token : Result Bytes → TokenDb → Result Value
  stored_access_token provider db = elim (token_record provider db) [
    | ok d ↦ elim (member "access_token" d) [ some v ↦ ok v | none ↦ err key_material ]
    | err e ↦ err e
  ]

  -- `store`, with the provider's answer and the nonce drawn for the seal.
  unfoldable pub store : Result Bytes → Bytes → TokenWrite → Action TokenDb (Unit {0})
  store provider nonce w = do
    raise_if (not (elem w.write_origin write_origins)) value_error
    s ← lift (seal c provider nonce (json (token_fields w)) token_type (pos 1))
    modify (λ db. some (row_of w s))

  abbrev current_text : String → Fields → Action TokenDb (Option String)
  current_text key d = lift (text_or_none (member key d))

  -- `replace_access_token`
  unfoldable pub replace_access_token :
      Result Bytes
      → Bytes
      → String
      → ℤ
      → Option ℤ
      → Option String
      → Option String
      → Action TokenDb (Unit {0})
  unfolding token_record store
  replace_access_token provider nonce access_token issued_at expires_at refresh_token scope = do
    current ← query (token_record provider)
    old_refresh_token ← current_text "refresh_token" current
    client_id ← current_text "client_id" current
    client_secret ← current_text "client_secret" current
    old_scope ← current_text "scope" current
    store provider nonce (record {
      access_token = access_token;
      refresh_token = or_text refresh_token old_refresh_token;
      issued_at = some issued_at;
      expires_at = expires_at;
      client_id = client_id;
      client_secret = client_secret;
      scope = or_text scope old_scope;
      write_origin = "refresh";
    })
