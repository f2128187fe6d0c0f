-- ===== src/Tests/SealedToken.antt =====
-- gateway/send_path.py: a stored token, a rotation, and records with another provenance.
use gmail_b1_gateway.Prelude.{
  String, Bool, false, ◌≡◌, ◌≢◌, ◌++◌, codes, inl, eq_iff, refl, none, some, pos, ◌∷◌, ◌==◌,
}
use gmail_b1_gateway.Json.{str, member}
use gmail_b1_gateway.Errors.{ok, err, key_material}
use gmail_b1_gateway.Keystore.Aead.{Aesgcm, seal, unseal, to_stored, of_stored, aad, require_dek}
use gmail_b1_gateway.Keystore.Decimal.{decimal}
use gmail_b1_gateway.Gateway.TokenStore.{Blob, json, other}
use gmail_b1_gateway.Gateway.SealedToken.{
  TokenRow, TokenDb, TokenWrite, token_fields, token_record, check_opened, store,
  replace_access_token,
}
use gmail_b1_gateway.Gateway.SealedToken.Provenance.{provenance_refused}
use gmail_b1_gateway.Gateway.SealedToken.Rotation.{rotated, rotation_keeps}
use gmail_b1_gateway.Tests.Keystore.{toy_pair, toy_pair-IsAuthenticated, key, fresh}

abbrev pub first : TokenWrite
first = record {
  access_token = "t1";
  refresh_token = some "r1";
  issued_at = some (pos 100);
  expires_at = some (pos 3700);
  client_id = some "client";
  client_secret = none;
  scope = some "https://www.googleapis.com/auth/gmail.send";
  write_origin = "authorize";
}

abbrev pub second : TokenWrite
second = rotated first "t2" (pos 3650) (some (pos 7250)) none none

abbrev is_first : Blob → Bool
is_first (json d) = elim (member "access_token" d) [
  | some v ↦ elim v [ str s ↦ s == "t1" | _ ↦ false ]
  | none ↦ false
]
is_first (other b) = false

abbrev pub cipher : Aesgcm Blob
cipher = toy_pair (json (token_fields first)) (json (token_fields second)) is_first

abbrev pub stored : TokenDb
stored = (store cipher (ok key) fresh first none).1

abbrev after : TokenDb
after =
    (replace_access_token cipher (ok key) fresh "t2" (pos 3650) (some (pos 7250)) none none
      stored).1

stores : store cipher (ok key) fresh first none ≡ (ok tt, stored)
unfolding store seal aad require_dek toy_pair decimal
stores = refl

rotates :
    replace_access_token cipher (ok key) fresh "t2" (pos 3650) (some (pos 7250)) none none stored
    ≡ (ok tt, after)
unfolding replace_access_token token_record check_opened store seal unseal to_stored of_stored aad
    require_dek toy_pair decimal
rotates = refl

rotation_keeps_example : token_record cipher (ok key) after ≡ ok (token_fields second)
rotation_keeps_example =
    rotation_keeps cipher (ok key) fresh fresh first "t2" (pos 3650) (some (pos 7250)) none none
      none
      (toy_pair-IsAuthenticated (json (token_fields first)) (json (token_fields second)) is_first
        (json (token_fields first)) refl)
      (toy_pair-IsAuthenticated (json (token_fields first)) (json (token_fields second)) is_first
        (json (token_fields second)) refl)
      stores rotates

abbrev row : TokenRow
row = record {
  sealed = to_stored (record {
    version = pos 1;
    record_type = "oauth_token";
    nonce = fresh;
    ciphertext = 1 ∷ 32 ∷ (key ++ codes "gmail-gateway/keystore/v1/oauth_token");
  });
  write_origin = some "authorize";
  written_at = some (pos 100);
}

stores_row : store cipher (ok key) fresh first none ≡ (ok tt, some row)
unfolding store seal aad require_dek toy_pair decimal
stores_row = refl

abbrev refreshed : String
refreshed = "refresh"

origins_differ : some refreshed ≢ row.write_origin
origins_differ e = cc ((eq_iff refreshed "authorize").1 (cc))

provenance_refused_example :
    token_record cipher (ok key) (some (record row { write_origin = some "refresh" }))
    ≡ err key_material
provenance_refused_example =
    provenance_refused cipher (ok key) fresh first
      (toy_pair-IsAuthenticated (json (token_fields first)) (json (token_fields second)) is_first
        (json (token_fields first)) refl)
      none (some "refresh") (some (pos 100)) stores_row (inl origins_differ)
