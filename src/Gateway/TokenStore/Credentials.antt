-- ===== src/Gateway/TokenStore/Credentials.antt =====
-- gateway/sealed_token_store.py: what a commit stores, how it is read back, and what a clearing and
-- an acknowledgement leave alone.
use gmail_b1_gateway.Prelude.{
  ℕ, String, ◌≡◌, refl, ◌≢◌, ◌↔◌, inl, inr, true, false, Option, none, some, List, arith, ℤ, pos,
  eq_iff, if◌then◌else◌, Option-cases, eq_of_parts, is_some,
}
use gmail_b1_gateway.Errors.{
  Result, ok, err, Result-cases, key_unavailable, key_backend_unavailable, credentials_missing,
  keychain_unavailable, credentials_corrupt,
}
use gmail_b1_gateway.Keystore.Providers.{Bytes}
use gmail_b1_gateway.Keystore.Aead.{
  Aesgcm, IsAuthenticated, SealedRecord, to_stored, of_stored, seal, unseal, require_dek, aad,
}
use gmail_b1_gateway.Keystore.Aead.Binding.{seal-unseal}
use gmail_b1_gateway.Gateway.TokenStore.{
  Blob, json, CommitRecord, Db, current, Saving, fresh_commit, credentials_type, save_commit,
  load_credentials, load_commit, is_acked_by, mark_ack_confirmed, clear_credentials,
}

-- The parts of the row that outlive the credentials.
pub record KeepsVoids (db db' : Db) : Type 0 where
  pub invalidated_ops : (current db').invalidated_ops ≡ (current db).invalidated_ops
  pub barrier : (current db').barrier ≡ (current db).barrier
  pub last_generation : (current db').last_generation ≡ (current db).last_generation

module _ (c : Aesgcm Blob) where
  save_sealed :
      (provider : Result Bytes) (nonce : Bytes) (a : Saving) (db : Db) {r : CommitRecord}
      → (save_commit c provider nonce a db).0 ≡ ok r
      → (s : SealedRecord) × (seal c provider nonce (json a.credentials) credentials_type (pos 1)
          ≡ ok s)
        × (save_commit c provider nonce a db ≡ (
          ok (fresh_commit a),
          some
              (record (current db) { sealed = some (to_stored s); commit = some (fresh_commit a) }),
        ))
  unfolding save_commit
  save_sealed provider nonce a db h =
      elim (Result-cases (seal c provider nonce (json a.credentials) credentials_type (pos 1))) [
        | inl (s, sealed) ↦ (s, sealed, ground arith)
        | inr (e, unsealed) ↦ absurd (ground arith)
      ]

  -- A commit that returns has stored its record, not invalidated, together with credentials that
  -- read back under the same key; the voids, the barrier and the generations are as they were.
  pub save_commit-load :
      (provider : Result Bytes) (nonce : Bytes) (a : Saving)
      (law : IsAuthenticated c (json a.credentials)) (db : Db) {r : CommitRecord}
      → (save_commit c provider nonce a db).0 ≡ ok r
      → let db' = (save_commit c provider nonce a db).1 in
        (load_commit db' ≡ some (fresh_commit a))
        × (load_credentials c provider db' ≡ ok a.credentials)
        × KeepsVoids db db'
  unfolding load_commit load_credentials
  save_commit-load provider nonce a law db h =
      let (s, sealed, e) = save_sealed provider nonce a db h in
      let (stored, opened) =
        seal-unseal c (json a.credentials) law provider nonce credentials_type (pos 1) sealed in
      rw e (
        refl,
        ground (arith, stored, opened),
        record { invalidated_ops = refl; barrier = refl; last_generation = refl },
      )

  -- What a stored seal comes to, with every provider.
  reopened :
      (dek nonce : Bytes) (a : Saving) (db : Db) {r : CommitRecord}
      → (save_commit c (ok dek) nonce a db).0 ≡ ok r
      → (s : SealedRecord) × (tag : List ℕ) × (aad s.record_type s.version ≡ ok tag)
        × (s.ciphertext ≡ c.encrypt dek s.nonce (json a.credentials) tag)
        × (of_stored (to_stored s) ≡ ok s)
        × ((current (save_commit c (ok dek) nonce a db).1).sealed ≡ some (to_stored s))
  unfolding seal require_dek of_stored to_stored
  reopened dek nonce a db h =
      let (s, sealed, e) = save_sealed (ok dek) nonce a db h in
      elim (Result-cases (aad credentials_type (pos 1))) [
        | inl (tag, of_tag) ↦ (s, tag, ground arith, ground arith, ground arith, rw e refl)
        | inr (x, no_tag) ↦ absurd (ground arith)
      ]

  -- After a commit that returned, a missing key, a keychain that is down and a key other than that
  -- of the seal, of whatever length, each raise their own bucket, and no credentials come back.
  pub load_credentials_buckets :
      (dek nonce : Bytes) (a : Saving) (law : IsAuthenticated c (json a.credentials)) (db : Db)
      {r : CommitRecord}
      → (save_commit c (ok dek) nonce a db).0 ≡ ok r
      → (other_dek : Bytes) → dek ≢ other_dek
      → let db' = (save_commit c (ok dek) nonce a db).1 in
        (load_credentials c (err key_unavailable) db' ≡ err credentials_missing)
        × (load_credentials c (err key_backend_unavailable) db' ≡ err keychain_unavailable)
        × (load_credentials c (ok other_dek) db' ≡ err credentials_corrupt)
  unfolding load_credentials unseal require_dek
  load_credentials_buckets dek nonce a law db h other_dek differ =
      let (s, tag, of_tag, of_cipher, stored, at_row) = reopened dek nonce a db h in
      let shut = law.binds dek other_dek s.nonce s.nonce tag tag (inl differ) in
      (
        ground (arith, at_row, stored, of_tag),
        ground (arith, at_row, stored, of_tag),
        ground (arith, at_row, stored, of_tag, shut, of_cipher),
      )

-- A clearing drops the credentials and nothing else: the commit, the voided operations, the barrier
-- and the generations stay. It returns whether there were any, and a load then finds none.
clear_credentials_lem :
    (c : Aesgcm Blob) (provider : Result Bytes) (db : Db)
    → let (dropped, db') = clear_credentials db in
      (dropped ≡ is_some (current db).sealed)
      × (load_credentials c provider db' ≡ err credentials_missing)
      × (load_commit db' ≡ load_commit db)
      × KeepsVoids db db'
unfolding clear_credentials load_credentials load_commit
clear_credentials_lem c provider db = elim (Option-cases (current db).sealed) [
  | inl e ↦ (
    ground arith,
    ground arith,
    ground arith,
    record {
      invalidated_ops = ground arith;
      barrier = ground arith;
      last_generation = ground arith;
    },
  )
  | inr (s, e) ↦ (
    ground arith,
    ground arith,
    ground arith,
    record {
      invalidated_ops = ground arith;
      barrier = ground arith;
      last_generation = ground arith;
    },
  )
]

-- The commit with its acknowledgement settled.
abbrev pub acked : Option CommitRecord → Option CommitRecord
acked none = none
acked (some r) = some (record r { ack_pending = false })

-- Whether a commit is the one with this operation, result and version.
abbrev pub IsCommitOf : String → String → ℤ → Option CommitRecord → Type 0
IsCommitOf o i v none = ⊥
IsCommitOf o i v (some r) = (r.operation_id ≡ o) × (r.result_id ≡ i) × (r.version ≡ v)

is_acked_by_lem :
    (o i : String) (v : ℤ) (r : CommitRecord)
    → (is_acked_by o i v r ≡ true) ↔ IsCommitOf o i v (some r)
unfolding is_acked_by
is_acked_by_lem o i v r = (
  λ h. ground (arith, eq_iff r.operation_id o, eq_iff r.result_id i, eq_of_parts r.version v),
  λ h. ground (arith, eq_iff r.operation_id o, eq_iff r.result_id i),
)

-- An acknowledgement answers true exactly when the stored commit has its operation, its result and
-- its version; then the commit's pending mark is cleared, and otherwise the commit is as it was.
-- The credentials and the voids are as they were either way.
mark_ack_confirmed_lem :
    (o i : String) (v : ℤ) (db : Db)
    → let (answer, db') = mark_ack_confirmed o i v db in
      ((answer ≡ true) ↔ IsCommitOf o i v (load_commit db))
      × (load_commit db' ≡ (if answer then acked (load_commit db) else load_commit db))
      × ((current db').sealed ≡ (current db).sealed)
      × KeepsVoids db db'
unfolding mark_ack_confirmed load_commit
mark_ack_confirmed_lem o i v db = elim (Option-cases (current db).commit) [
  | inl e ↦ (
    ground arith,
    ground arith,
    ground arith,
    record {
      invalidated_ops = ground arith;
      barrier = ground arith;
      last_generation = ground arith;
    },
  )
  | inr (r, e) ↦ (
    let exact = is_acked_by_lem o i v r in (λ h. ground (arith, exact), λ h. ground (arith, exact)),
    ground arith,
    ground arith,
    record {
      invalidated_ops = ground arith;
      barrier = ground arith;
      last_generation = ground arith;
    },
  )
]
