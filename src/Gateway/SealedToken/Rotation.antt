-- ===== src/Gateway/SealedToken/Rotation.antt =====
-- gateway/send_path.py: what a refresh replaces in the stored record, and what it keeps.
use gmail_b1_gateway.Prelude.{String, ◌≡◌, ap, Option, some, ℤ, arith}
use gmail_b1_gateway.Errors.{Error, Result, ok, err}
use gmail_b1_gateway.Keystore.Providers.{Bytes}
use gmail_b1_gateway.Keystore.Aead.{Aesgcm, IsAuthenticated}
use gmail_b1_gateway.Gateway.TokenStore.{Blob, json}
use gmail_b1_gateway.Gateway.SealedToken.{
  TokenDb, TokenWrite, token_fields, token_record, store, or_text, replace_access_token,
}
use gmail_b1_gateway.Gateway.SealedToken.Provenance.{text_or_none-opt_str, store-token_record}

-- The record after a refresh: the new access token with its times, the answer's refresh token and scope
-- where it has them, and the rest as it was.
abbrev pub rotated : TokenWrite → String → ℤ → Option ℤ → Option String → Option String → TokenWrite
rotated w access_token issued_at expires_at refresh_token scope = record w {
  access_token = access_token;
  refresh_token = or_text refresh_token w.refresh_token;
  issued_at = some issued_at;
  expires_at = expires_at;
  scope = or_text scope w.scope;
  write_origin = "refresh";
}

module _ (c : Aesgcm Blob) where
  pub store_error_unchanged :
      (provider : Result Bytes) (nonce : Bytes) (w : TokenWrite) (db : TokenDb) {e : Error}
      → (store c provider nonce w db).0 ≡ err e
      → (store c provider nonce w db).1 ≡ db
  unfolding store
  store_error_unchanged provider nonce w db h = ground arith

  pub replace-eq-store :
      (provider : Result Bytes) (nonce : Bytes) (w : TokenWrite) (access_token : String)
      (issued_at : ℤ) (expires_at : Option ℤ) (refresh_token scope : Option String) (db : TokenDb)
      → token_record c provider db ≡ ok (token_fields w)
      → replace_access_token c provider nonce access_token issued_at expires_at refresh_token scope
          db
        ≡ store c provider nonce
            (rotated w access_token issued_at expires_at refresh_token scope)
            db
  unfolding replace_access_token
  replace-eq-store provider nonce w access_token issued_at expires_at refresh_token scope db h =
      ground (
        arith,
        h,
        text_or_none-opt_str w.refresh_token,
        text_or_none-opt_str w.client_id,
        text_or_none-opt_str w.client_secret,
        text_or_none-opt_str w.scope,
      )

  -- A rotation over a stored record: it opens with the new token, and keeps the client's credentials, and
  -- the old refresh token and scope where the refresh brought none.
  pub rotation_keeps :
      (provider : Result Bytes) (first second : Bytes) (w : TokenWrite) (access_token : String)
      (issued_at : ℤ) (expires_at : Option ℤ) (refresh_token scope : Option String) (db : TokenDb)
      (law : IsAuthenticated c (json (token_fields w)))
      (law' : IsAuthenticated c
        (json (token_fields (rotated w access_token issued_at expires_at refresh_token scope))))
      {stored after : TokenDb}
      → store c provider first w db ≡ (ok tt, stored)
      → replace_access_token c provider second access_token issued_at expires_at refresh_token scope
          stored
        ≡ (ok tt, after)
      → token_record c provider after
        ≡ ok (token_fields (rotated w access_token issued_at expires_at refresh_token scope))
  rotation_keeps provider first second w access_token issued_at expires_at refresh_token scope db
        law law' {stored} {after} h k =
      let w' = rotated w access_token issued_at expires_at refresh_token scope in
      let reads = rw h at (store-token_record c provider first w law db (ap (λ x. x.0) h)).0 in
      let same =
        replace-eq-store provider second w access_token issued_at expires_at refresh_token scope
          stored reads in
      let k' = rw same at k in
      rw k' at (store-token_record c provider second w' law' stored (ap (λ x. x.0) k')).0

  -- A rotation that raises leaves the record as it was.
  pub replace_error_unchanged :
      (provider : Result Bytes) (nonce : Bytes) (access_token : String) (issued_at : ℤ)
      (expires_at : Option ℤ) (refresh_token scope : Option String) (db : TokenDb) {e : Error}
      → (replace_access_token c provider nonce access_token issued_at expires_at refresh_token scope
          db).0
        ≡ err e
      → (replace_access_token c provider nonce access_token issued_at expires_at refresh_token scope
          db).1
        ≡ db
  unfolding replace_access_token store
  replace_error_unchanged provider nonce access_token issued_at expires_at refresh_token scope db
        h =
      ground arith
