-- ===== src/Keystore/Aead.antt =====
-- keystore/aead.py: sealing and opening under a key that a provider gives. AES-GCM is a third
-- party's: `Aesgcm` is its interface and `IsAuthenticated` what its documentation promises. What is
-- sealed is of a type of the client's; texts are code points, before their UTF-8 encoding.
pub mod Binding
use gmail_b1_gateway.Prelude.{
  ℕ, zero, suc, ◌⊎◌, String, ◌≡◌, ◌≢◌, Bool, true, false, Option, none, some, List, [], ◌∷◌, ◌++◌,
  ℤ, pos, negsuc, length, beq, codes, ◌==◌, ◌||◌, if◌then◌else◌,
}
use gmail_b1_gateway.Errors.{Result, ok, err, key_material, sealed_record, decryption}
use gmail_b1_gateway.Keystore.Decimal.{decimal}
use gmail_b1_gateway.Keystore.Providers.{Bytes, Encoded, base64, invalid, dek_len}

-- `AESGCM(dek).encrypt(nonce, plaintext, aad)` and `.decrypt(nonce, ciphertext, aad)`, where `none`
-- is `InvalidTag`.
pub record Aesgcm (P : Type 0) : Type 0 where
  pub encrypt : Bytes → Bytes → P → List ℕ → Bytes
  pub decrypt : Bytes → Bytes → Bytes → List ℕ → Option P

-- For one plaintext: what was encrypted decrypts, and not under another key or other associated data.
pub record IsAuthenticated {P : Type 0} (c : Aesgcm P) (p : P) : Type 0 where
  pub opens :
      (dek nonce : Bytes) (aad : List ℕ)
      → c.decrypt dek nonce (c.encrypt dek nonce p aad) aad ≡ some p
  pub binds :
      (dek dek' nonce nonce' : Bytes) (aad aad' : List ℕ)
      → (dek ≢ dek') ⊎ (aad ≢ aad')
      → c.decrypt dek' nonce' (c.encrypt dek nonce p aad) aad' ≡ none

-- `_require_dek`
unfoldable pub require_dek : Result Bytes → Result Bytes
require_dek (ok dek) = if beq (length dek) dek_len then ok dek else err key_material
require_dek (err e) = err e

-- `_aad`: the tag of a record type and a version.
unfoldable pub aad : String → ℤ → Result (List ℕ)
aad record_type (negsuc n) = err sealed_record
aad record_type (pos zero) = err sealed_record
aad record_type (pos (suc n)) =
    if record_type == ""
    then err sealed_record
    else ok (codes "gmail-gateway/keystore/v" ++ (decimal (suc n) ++ 47 ∷ codes record_type))

-- `_NONCE_LEN`
abbrev pub nonce_len : ℕ
nonce_len = 12

pub record SealedRecord : Type 0 where
  pub version : ℤ
  pub record_type : String
  pub nonce : Bytes
  pub ciphertext : Bytes

-- The storage form: the bytes as base64 text.
pub record StoredRecord : Type 0 where
  pub version : ℤ
  pub record_type : String
  pub nonce : Encoded
  pub ciphertext : Encoded

unfoldable pub to_stored : SealedRecord → StoredRecord
to_stored s = record {
  version = s.version;
  record_type = s.record_type;
  nonce = base64 s.nonce;
  ciphertext = base64 s.ciphertext;
}

abbrev check_stored : ℤ → String → Encoded → Encoded → Result SealedRecord
check_stored v t (base64 n) (base64 c) =
    if beq (length n) nonce_len
    then elim (aad t v) [
      | ok _ ↦ ok (record { version = v; record_type = t; nonce = n; ciphertext = c })
      | err e ↦ err e
    ]
    else err sealed_record
check_stored v t _ _ = err sealed_record

-- `from_dict`
unfoldable pub of_stored : StoredRecord → Result SealedRecord
of_stored r = check_stored r.version r.record_type r.nonce r.ciphertext

module _ {P : Type 0} (c : Aesgcm P) where
  -- `seal`, with the nonce that its factory returns.
  unfoldable pub seal : Result Bytes → Bytes → P → String → ℤ → Result SealedRecord
  seal provider nonce p record_type version = elim (aad record_type version) [
    | ok tag ↦
        if beq (length nonce) nonce_len
        then elim (require_dek provider) [
          | ok dek ↦ ok (record {
            version = version;
            record_type = record_type;
            nonce = nonce;
            ciphertext = c.encrypt dek nonce p tag;
          })
          | err e ↦ err e
        ]
        else err sealed_record
    | err e ↦ err e
  ]

  -- `open`
  unfoldable pub unseal : Result Bytes → SealedRecord → Result P
  unseal provider s = elim (aad s.record_type s.version) [
    | ok tag ↦ elim (require_dek provider) [
      | ok dek ↦ elim (c.decrypt dek s.nonce s.ciphertext tag) [
        | some p ↦ ok p
        | none ↦ err decryption
      ]
      | err e ↦ err e
    ]
    | err e ↦ err e
  ]
