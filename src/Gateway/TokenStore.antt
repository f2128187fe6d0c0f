-- ===== src/Gateway/TokenStore.antt =====
-- gateway/sealed_token_store.py with the record types of gateway/token_store.py: sealed
-- credentials, the commit record, the voided operations and the generation barrier, in one row.
-- The row is the value under `_STATE_KEY`, the only key that the store touches; a missing member of
-- the row is its default. Each call is one transaction of `SqliteKV.update`.
pub mod Voids
pub mod Generations
pub mod Credentials
use gmail_b1_gateway.Prelude.{
  ℕ, String, Bool, true, false, not, Option, none, some, is_some, List, [], ◌∷◌, ◌++◌, ℤ, pos, ◌+ℤ◌,
  max_ℤ, ltb_ℤ, leb_ℤ, beq_ℤ, elem, ◌==◌, ◌&&◌, if◌then◌else◌,
}
use gmail_b1_gateway.Json.{Fields}
use gmail_b1_gateway.Errors.{
  Error, Result, ok, err, key_unavailable, key_backend_unavailable, key_material, decryption,
  credentials_missing, keychain_unavailable, credentials_corrupt, commit_invalidated, Action,
}
use gmail_b1_gateway.Keystore.Providers.{Bytes}
use gmail_b1_gateway.Keystore.Aead.{
  Aesgcm, SealedRecord, StoredRecord, to_stored, of_stored, seal, unseal,
}

-- What is sealed: the JSON text of a dict, kept as the dict, or other bytes.
pub data Blob : Type 0 where
  json : Fields → Blob
  other : Bytes → Blob

pub record CommitRecord : Type 0 where
  pub operation_id : String
  pub connection_id : String
  pub result_id : String
  pub version : ℤ
  pub generation : ℤ
  pub ack_pending : Bool
  pub invalidated : Bool

pub record Row : Type 0 where
  pub sealed : Option StoredRecord
  pub commit : Option CommitRecord
  pub invalidated_ops : List String
  pub barrier : ℤ
  pub last_generation : ℤ

-- The stored row, if one was ever written.
abbrev pub Db : Type 0
Db = Option Row

-- `current or {}`
abbrev pub current : Db → Row
current (some row) = row
current none = record {
  sealed = none;
  commit = none;
  invalidated_ops = [];
  barrier = pos 0;
  last_generation = pos 0;
}

unfoldable pub reserve_generation : Db → ℤ × Db
reserve_generation db =
    let row = current db in
    let g = max_ℤ row.last_generation row.barrier +ℤ pos 1 in
    (g, some (record row { last_generation = g }))

unfoldable pub current_barrier : Db → ℤ
current_barrier db = (current db).barrier

unfoldable pub void_generation : ℤ → Db → Db
void_generation generation db =
    let row = current db in some (record row { barrier = max_ℤ row.barrier generation })

-- The arguments of `save_commit`.
pub record Saving : Type 0 where
  pub operation_id : String
  pub connection_id : String
  pub result_id : String
  pub version : ℤ
  pub generation : ℤ
  pub credentials : Fields
  pub ack_pending : Bool

-- `_RECORD_TYPE` and `_SEAL_VERSION`
abbrev pub credentials_type : String
credentials_type = "oauth_credentials"

abbrev pub fresh_commit : Saving → CommitRecord
fresh_commit a = record {
  operation_id = a.operation_id;
  connection_id = a.connection_id;
  result_id = a.result_id;
  version = a.version;
  generation = a.generation;
  ack_pending = a.ack_pending;
  invalidated = false;
}

-- The transaction of `save_commit`, with the credentials already sealed.
unfoldable pub commit_sealed : Saving → SealedRecord → Action Db CommitRecord
commit_sealed a s db =
    let row = current db in
    if elem a.operation_id row.invalidated_ops
    then (err commit_invalidated, db)
    else if leb_ℤ a.generation row.barrier
    then (err commit_invalidated, db)
    else (
      ok (fresh_commit a),
      some (record row { sealed = some (to_stored s); commit = some (fresh_commit a) }),
    )

-- Which bucket a failed decryption falls into; another exception goes through.
abbrev pub bucket : Error → Error
bucket key_unavailable = credentials_missing
bucket key_backend_unavailable = keychain_unavailable
bucket key_material = credentials_corrupt
bucket decryption = credentials_corrupt
bucket e = e

-- `json.loads` of what was opened
abbrev pub parse_credentials : Blob → Result Fields
parse_credentials (json d) = ok d
parse_credentials (other b) = err credentials_corrupt

module _ (c : Aesgcm Blob) where
  -- `save_commit`, with the provider's answer and the nonce drawn for the seal.
  unfoldable pub save_commit : Result Bytes → Bytes → Saving → Action Db CommitRecord
  unfolding commit_sealed
  save_commit provider nonce a db =
      elim (seal c provider nonce (json a.credentials) credentials_type (pos 1)) [
        | ok s ↦ commit_sealed a s db
        | err e ↦ (err e, db)
      ]

  -- `_open`
  unfoldable pub open_sealed : Result Bytes → StoredRecord → Result Fields
  open_sealed provider r = elim (of_stored r) [
    | ok s ↦ elim (unseal c provider s) [ ok b ↦ parse_credentials b | err e ↦ err (bucket e) ]
    | err e ↦ err credentials_corrupt
  ]

  unfoldable pub load_credentials : Result Bytes → Db → Result Fields
  unfolding open_sealed
  load_credentials provider db = elim (current db).sealed [
    | some r ↦ open_sealed provider r
    | none ↦ err credentials_missing
  ]

unfoldable pub load_commit : Db → Option CommitRecord
load_commit db = (current db).commit

unfoldable pub is_acked_by : String → String → ℤ → CommitRecord → Bool
is_acked_by operation_id result_id version c =
    c.operation_id == operation_id && (c.result_id == result_id && beq_ℤ c.version version)

unfoldable pub mark_ack_confirmed : String → String → ℤ → Db → Bool × Db
unfolding is_acked_by
mark_ack_confirmed operation_id result_id version db = elim (current db).commit [
  | none ↦ (false, db)
  | some c ↦
      if not (is_acked_by operation_id result_id version c)
      then (false, db)
      else if not c.ack_pending
      then (true, db)
      else (true, some (record (current db) { commit = some (record c { ack_pending = false }) }))
]

-- The operations voided so far, with this one.
abbrev pub add_op : String → List String → List String
add_op op ops = if elem op ops then ops else ops ++ op ∷ []

unfoldable pub invalidate_commit : String → Db → Bool × Db
invalidate_commit operation_id db =
    let row = current db in
    let voided : Row = record row { invalidated_ops = add_op operation_id row.invalidated_ops } in
    elim row.commit [
      | none ↦ (false, some voided)
      | some c ↦
          if c.operation_id == operation_id
          then (true, some (record voided { commit = some (record c { invalidated = true }) }))
          else (false, some voided)
    ]

unfoldable pub clear_credentials : Db → Bool × Db
clear_credentials db = elim (current db).sealed [
  | none ↦ (false, db)
  | some s ↦ (true, some (record (current db) { sealed = none }))
]

-- The calls that change the row, each with what it takes from outside.
pub data Call : Type 0 where
  reserve : Call
  void : ℤ → Call
  save : Result Bytes → Bytes → Saving → Call
  ack : String → String → ℤ → Call
  invalidate : String → Call
  clear : Call

unfoldable pub serve : Aesgcm Blob → Call → Db → Db
serve c reserve db = (reserve_generation db).1
serve c (void g) db = void_generation g db
serve c (save provider nonce a) db = (save_commit c provider nonce a db).1
serve c (ack o r v) db = (mark_ack_confirmed o r v db).1
serve c (invalidate o) db = (invalidate_commit o db).1
serve c clear db = (clear_credentials db).1

unfoldable pub serve_all : Aesgcm Blob → List Call → Db → Db
serve_all c [] db = db
serve_all c (x ∷ xs) db = serve_all c xs (serve c x db)
