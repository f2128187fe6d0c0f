-- ===== src/Tests/TokenRefresh.antt =====
-- gateway/token_refresh.py: a stored token that is served, and one that is refreshed.
use gmail_b1_gateway.Prelude.{◌≡◌, refl, [], ◌∷◌, pos, ℤ}
use gmail_b1_gateway.Errors.{ok}
use gmail_b1_gateway.Keystore.Aead.{seal, unseal, to_stored, of_stored, aad, require_dek}
use gmail_b1_gateway.Keystore.Decimal.{decimal}
use gmail_b1_gateway.Oauth.Requests.{build_refresh_token_request}
use gmail_b1_gateway.Gateway.Egress.{post}
use gmail_b1_gateway.Gateway.SealedToken.{token_record, check_opened, store, replace_access_token}
use gmail_b1_gateway.Gateway.OauthListener.{from_response}
use gmail_b1_gateway.Gateway.TokenRefresh.{
  Refresher, Meets, Tokens, refreshed, refresh_request, keep, refresh, access_token,
}
use gmail_b1_gateway.Gateway.TokenRefresh.Evidence.{AccessTold}
use gmail_b1_gateway.Gateway.TokenRefresh.Honest.{access_token_told}
use gmail_b1_gateway.Tests.Keystore.{toy_pair, key, fresh}
use gmail_b1_gateway.Tests.SealedToken.{cipher, stored}
use gmail_b1_gateway.Tests.Oauth.{web}

abbrev provider : Refresher
provider = record {
  client = record { allow_hosts = "oauth2.googleapis.com" ∷ [] };
  refresh_skew_seconds = pos 60;
}

abbrev at : ℤ → Meets
at now = record { key = ok key; nonce = fresh; now = now; refreshed_at = pos 3650 }

abbrev tokens : Tokens
tokens = record { db = stored; wire = [] }

served : access_token web cipher provider (at (pos 3639)) tokens ≡ (ok "t1", tokens)
unfolding access_token token_record check_opened store seal unseal to_stored of_stored aad
    require_dek toy_pair decimal
served = refl

refreshes : (access_token web cipher provider (at (pos 3640)) tokens).0 ≡ ok "t2"
unfolding access_token refresh refresh_request build_refresh_token_request post refreshed
    from_response keep replace_access_token token_record check_opened store seal unseal to_stored
    of_stored aad require_dek toy_pair decimal
refreshes = refl

access_token_told_example :
    AccessTold web cipher provider
      (at (pos 3640))
      tokens
      (access_token web cipher provider (at (pos 3640)) tokens)
access_token_told_example = access_token_told web cipher provider (at (pos 3640)) tokens
