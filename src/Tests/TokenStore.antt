-- ===== src/Tests/TokenStore.antt =====
-- gateway/sealed_token_store.py: commits, voids and clearings on concrete rows.
use gmail_b1_gateway.Prelude.{◌≡◌, refl, none, some, List, [], ◌∷◌, pos, arith, true}
use gmail_b1_gateway.Json.{Fields, end, field, str}
use gmail_b1_gateway.Errors.{
  ok, err, key_unavailable, key_backend_unavailable, credentials_missing, keychain_unavailable,
  credentials_corrupt,
}
use gmail_b1_gateway.Keystore.Aead.{Aesgcm, seal, aad, require_dek}
use gmail_b1_gateway.Keystore.Decimal.{decimal}
use gmail_b1_gateway.Gateway.TokenStore.{
  Blob, json, Db, Saving, fresh_commit, save_commit, commit_sealed, load_credentials, load_commit,
  void_generation, invalidate_commit, Call, reserve, clear, save, serve_all,
}
use gmail_b1_gateway.Gateway.TokenStore.Voids.{IsRefused, invalidated_stays_out, barrier_stays_up}
use gmail_b1_gateway.Gateway.TokenStore.Credentials.{
  KeepsVoids, save_commit-load, load_credentials_buckets,
}
use gmail_b1_gateway.Tests.Keystore.{toy, toy-IsAuthenticated, key, fresh}

abbrev tokens : Fields
tokens = field "access_token" (str "t") end

abbrev saving : Saving
saving = record {
  operation_id = "op1";
  connection_id = "c1";
  result_id = "r1";
  version = pos 1;
  generation = pos 3;
  credentials = tokens;
  ack_pending = true;
}

abbrev cipher : Aesgcm Blob
cipher = toy (json tokens)

abbrev later_calls : List Call
later_calls = clear ∷ reserve ∷ save (ok key) fresh saving ∷ []

abbrev committed : Db → Db
committed db = (save_commit cipher (ok key) fresh saving db).1

invalidated_stays_out_example :
    let later = serve_all cipher later_calls (invalidate_commit "op1" none).1 in
    IsRefused (save_commit cipher (ok key) fresh saving later) later
invalidated_stays_out_example =
    invalidated_stays_out cipher "op1" later_calls none (ok key) fresh saving refl

barrier_stays_up_example :
    let later = serve_all cipher later_calls (void_generation (pos 5) none) in
    IsRefused (save_commit cipher (ok key) fresh saving later) later
barrier_stays_up_example =
    barrier_stays_up cipher (pos 5) later_calls none (ok key) fresh saving (omega arith)

commits : (save_commit cipher (ok key) fresh saving none).0 ≡ ok (fresh_commit saving)
unfolding save_commit commit_sealed seal aad require_dek toy decimal
commits = refl

save_commit-load_example :
    (load_commit (committed none) ≡ some (fresh_commit saving))
    × (load_credentials cipher (ok key) (committed none) ≡ ok tokens)
    × KeepsVoids none (committed none)
save_commit-load_example =
    save_commit-load cipher (ok key) fresh saving (toy-IsAuthenticated (json tokens)) none commits

load_credentials_buckets_example :
    (load_credentials cipher (err key_unavailable) (committed none) ≡ err credentials_missing)
    × (load_credentials cipher (err key_backend_unavailable) (committed none)
        ≡ err keychain_unavailable)
    × (load_credentials cipher (ok fresh) (committed none) ≡ err credentials_corrupt)
load_credentials_buckets_example =
    load_credentials_buckets cipher key fresh saving (toy-IsAuthenticated (json tokens)) none
      commits fresh (λ e. ground arith)
