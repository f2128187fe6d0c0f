-- ===== src/Gateway/SealedToken/Provenance.antt =====
-- gateway/send_path.py: what was stored opens with its provenance, and with no other beside it.
use gmail_b1_gateway.Prelude.{
  String, ◌≡◌, ◌≢◌, ◌⊎◌, inl, inr, refl, ap, ◌↔◌, true, false, Option, none, some, ℤ, pos, arith,
  eq_iff, eq_of_parts, elem, ◌==◌, Bool-cases, ◌∙◌, if◌then◌else◌,
}
use gmail_b1_gateway.Json.{str, opt_str}
use gmail_b1_gateway.Errors.{Result, ok, err, key_material, Result-cases}
use gmail_b1_gateway.Keystore.Providers.{Bytes}
use gmail_b1_gateway.Keystore.Aead.{Aesgcm, IsAuthenticated, SealedRecord, seal}
use gmail_b1_gateway.Keystore.Aead.Binding.{seal-unseal}
use gmail_b1_gateway.Gateway.TokenStore.{Blob, json}
use gmail_b1_gateway.Gateway.SealedToken.{
  TokenRow, TokenDb, TokenWrite, token_type, write_origins, token_fields, mismatched, same_text,
  same_int, text_or_none, int_or_none, opt_int, check_opened, token_record, stored_access_token,
  row_of, store,
}

-- The provenance inside a record is the only one that it accepts beside it.
same_int_iff : (m n : Option ℤ) → (same_int m n ≡ true) ↔ (m ≡ n)
same_int_iff none none = (λ _. refl, λ _. refl)
same_int_iff none (some n) = (λ h. cc, λ h. cc)
same_int_iff (some m) none = (λ h. cc, λ h. cc)
same_int_iff (some m) (some n) =
    (λ h. ap some (eq_of_parts m n (ground (arith, h))), λ h. ground (arith, h))

same_text_iff : (s t : Option String) → (same_text s t ≡ true) ↔ (s ≡ t)
same_text_iff none none = (λ _. refl, λ _. refl)
same_text_iff none (some t) = (λ h. cc, λ h. cc)
same_text_iff (some s) none = (λ h. cc, λ h. cc)
same_text_iff (some s) (some t) = (λ h. ap some ((eq_iff s t).0 h), λ h. (eq_iff s t).1 (cc h))

mismatched_iff :
    (o : String) (i : Option ℤ) (origin : Option String) (at : Option ℤ)
    → elem o write_origins ≡ true
    → (mismatched origin (some o) at i ≡ false) ↔ ((origin ≡ some o) × (at ≡ i))
unfolding mismatched
mismatched_iff o i none at known = (λ h. cc, λ h. cc)
mismatched_iff o i (some p) at known = elim (Bool-cases (p == o)) [
  | inr other ↦ (λ h. absurd (ground (arith, h)), λ h. absurd (ground (arith, h, eq_iff p o)))
  | inl same ↦
      let e : p ≡ o = (eq_iff p o).0 same in rw e (ground (arith, same_int_iff at i, eq_iff o o))
]

int_or_none-opt_int : (i : Option ℤ) → int_or_none (some (opt_int i)) ≡ ok i
int_or_none-opt_int none = refl
int_or_none-opt_int (some n) = refl

pub text_or_none-opt_str : (s : Option String) → text_or_none (some (opt_str s)) ≡ ok s
text_or_none-opt_str none = refl
text_or_none-opt_str (some s) = refl

check_written :
    (w : TokenWrite) (row : TokenRow)
    → check_opened row (token_fields w) ≡ (
        if mismatched row.write_origin (some w.write_origin) row.written_at w.issued_at
        then err key_material
        else ok (token_fields w))
unfolding check_opened
check_written w row = rw (int_or_none-opt_int w.issued_at) refl

module _ (c : Aesgcm Blob) where
  -- What a `store` that returns has sealed and written.
  pub stored :
      (provider : Result Bytes) (nonce : Bytes) (w : TokenWrite) (db : TokenDb)
      → (store c provider nonce w db).0 ≡ ok tt
      → (s : SealedRecord) × (seal c provider nonce (json (token_fields w)) token_type (pos 1)
          ≡ ok s)
        × (elem w.write_origin write_origins ≡ true)
        × ((store c provider nonce w db).1 ≡ some (row_of w s))
  unfolding store
  stored provider nonce w db h =
      elim (Result-cases (seal c provider nonce (json (token_fields w)) token_type (pos 1))) [
        | inl (s, sealed) ↦ (s, sealed, ground arith, ground arith)
        | inr (e, unsealed) ↦ absurd (ground arith)
      ]

  opened :
      (provider : Result Bytes) (nonce : Bytes) (w : TokenWrite)
      (law : IsAuthenticated c (json (token_fields w))) {s : SealedRecord} (origin : Option String)
      (at : Option ℤ)
      → seal c provider nonce (json (token_fields w)) token_type (pos 1) ≡ ok s
      → token_record c provider
          (some (record (row_of w s) { write_origin = origin; written_at = at }))
        ≡ check_opened
            (record (row_of w s) { write_origin = origin; written_at = at })
            (token_fields w)
  unfolding token_record
  opened provider nonce w law {s} origin at sealed =
      let (back, unsealed) =
        seal-unseal c (json (token_fields w)) law provider nonce token_type (pos 1) sealed in
      ground (arith, back, unsealed)

  -- What `store` stored opens under the same key exactly as it was stored, access token included.
  pub store-token_record :
      (provider : Result Bytes) (nonce : Bytes) (w : TokenWrite)
      (law : IsAuthenticated c (json (token_fields w))) (db : TokenDb)
      → (store c provider nonce w db).0 ≡ ok tt
      → let db' = (store c provider nonce w db).1 in
        (token_record c provider db' ≡ ok (token_fields w))
        × (stored_access_token c provider db' ≡ ok (str w.access_token))
  unfolding stored_access_token
  store-token_record provider nonce w law db h =
      let (s, sealed, known, e) = stored provider nonce w db h in
      let matched =
        (mismatched_iff w.write_origin w.issued_at (some w.write_origin) w.issued_at known).1
          (refl, refl) in
      let reads =
        opened provider nonce w law (some w.write_origin) w.issued_at sealed
        ∙ check_written w (row_of w s) in
      ground (arith, e, reads, matched)

  -- A stored record beside which another origin or another time stands than it was stored with, or
  -- none, is refused, under the same key.
  pub provenance_refused :
      (provider : Result Bytes) (nonce : Bytes) (w : TokenWrite)
      (law : IsAuthenticated c (json (token_fields w))) (db : TokenDb) {row : TokenRow}
      (origin : Option String) (at : Option ℤ)
      → store c provider nonce w db ≡ (ok tt, some row)
      → (origin ≢ row.write_origin) ⊎ (at ≢ row.written_at)
      → token_record c provider (some (record row { write_origin = origin; written_at = at }))
        ≡ err key_material
  provenance_refused provider nonce w law db {row} origin at h differ =
      let (s, sealed, known, e) = stored provider nonce w db (ap (λ x. x.0) h) in
      let same : row ≡ row_of w s = ground (arith, h, e) in
      let moved = record (row_of w s) { write_origin = origin; written_at = at } in
      rw same (elim (Bool-cases (mismatched origin (some w.write_origin) at w.issued_at)) [
        | inl differs ↦
            opened provider nonce w law origin at sealed ∙ (check_written w moved ∙ rw differs refl)
        | inr agrees ↦
            let (same_origin, same_at) =
              (mismatched_iff w.write_origin w.issued_at origin at known).0 agrees in
            absurd (elim (rw same at differ) [ inl ne ↦ ne same_origin | inr ne ↦ ne same_at ])
      ])
