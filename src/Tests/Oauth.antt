-- ===== src/Tests/Oauth.antt =====
-- gateway/oauth_listener.py and gateway/token_revoke.py: a consent flow with a forged callback and a revocation, over toy codecs.
use gmail_b1_gateway.Prelude.{
  String, true, ◌≡◌, refl, none, some, [], ◌∷◌, pos, codes, ◌==◌, List, if◌then◌else◌,
}
use gmail_b1_gateway.Dict.{lookup, insert}
use gmail_b1_gateway.Json.{Fields, str, int, obj, field, end}
use gmail_b1_gateway.Errors.{Result, ok, err, oauth_timeout, state_mismatch}
use gmail_b1_gateway.Oauth.{
  port, is_verifier, generate_pkce_pair, validate_request, gmail_send_scope,
}
use gmail_b1_gateway.Oauth.Requests.{
  build_revoke_token_request, default_token_endpoint, default_revoke_endpoint,
}
use gmail_b1_gateway.Gateway.Egress.{answered, post}
use gmail_b1_gateway.Gateway.OauthListener.{
  Web, TokenResult, Flow, Session, Outside, is_loopback, await_callback, run,
}
use gmail_b1_gateway.Gateway.OauthListener.Guarded.{RunTold, run_guarded}
use gmail_b1_gateway.Gateway.TokenRevoke.{
  TokenRevoker, confirmed, result_of, token_to_revoke, revoke, disconnect_revoke,
}
use gmail_b1_gateway.Gateway.TokenRevoke.Truthful.{RevokeTold, revoke_truthful}

-- The paths are "/cb" with the query of the same letters.
abbrev pub web : Web
web = record {
  oauth = record {
    split_redirect = λ uri. some (record {
      scheme = "http";
      username = none;
      password = none;
      hostname = some "127.0.0.1";
      port = port 8080;
    });
    urlencode = λ body. "form";
    s256 = λ verifier. "challenge";
  };
  net = record {
    urlsplit = λ url. some (record { scheme = "https"; hostname = some "oauth2.googleapis.com" });
    lower = λ s. s;
    transport = λ wire request. answered 200 (codes "{}");
  };
  split_path = λ path. if path == "favicon" then some ("/favicon", "") else some ("/cb", path);
  parse_qsl = λ query.
      if query == "forged"
      then ("state", "other") ∷ ("code", "evil") ∷ []
      else ("state", "drawn") ∷ ("code", "c1") ∷ ("code", "evil") ∷ [];
  ip_is_loopback = λ host. some true;
  loads = λ body.
      some (obj (field "access_token" (str "t2") (field "expires_in" (int (pos 3600)) end)));
  encode = λ s. codes s;
  split = λ s. s ∷ [];
}

abbrev flow : Flow
flow = record {
  client_id = "client";
  client = record { allow_hosts = "oauth2.googleapis.com" ∷ [] };
  client_secret = none;
  scopes = gmail_send_scope ∷ [];
  host = "127.0.0.1";
  callback_path = "/cb";
  auth_endpoint = "https://accounts.google.com/o/oauth2/v2/auth";
  token_endpoint = default_token_endpoint;
}

abbrev session : List String → Session
session hits = record {
  verifier = "0123456789abcdefghijABCDEFGHIJ-._~0123456789";
  state = "drawn";
  port = 8080;
  hits = hits;
  now = pos 500;
}

abbrev untouched : Outside
untouched = record { opened = []; wire = [] }

abbrev tokens : TokenResult
tokens = record {
  access_token = "t2";
  refresh_token = none;
  expires_in = some (pos 3600);
  scope = none;
  token_type = none;
  received_at = some (pos 500);
}

abbrev outcome : List String → Result TokenResult
outcome hits = (run web flow (session hits) untouched).0

grants : outcome ("favicon" ∷ "callback" ∷ []) ≡ ok tokens
unfolding run generate_pkce_pair is_loopback validate_request await_callback lookup insert
    is_verifier
grants = refl

forged : outcome ("forged" ∷ []) ≡ err state_mismatch
unfolding run generate_pkce_pair is_loopback validate_request await_callback lookup insert
    is_verifier
forged = refl

times_out : outcome ("favicon" ∷ []) ≡ err oauth_timeout
unfolding run generate_pkce_pair is_loopback validate_request await_callback lookup insert
    is_verifier
times_out = refl

run_guarded_example :
    RunTold web flow
      (session ("callback" ∷ []))
      untouched
      (run web flow (session ("callback" ∷ [])) untouched)
run_guarded_example = run_guarded web flow (session ("callback" ∷ [])) untouched

abbrev revoker : TokenRevoker
revoker = record { client = flow.client; endpoint = default_revoke_endpoint }

-- The refresh token goes first.
abbrev credentials : Fields
credentials = field "access_token" (str "t") (field "refresh_token" (str "r") end)

chooses : token_to_revoke credentials ≡ ok (some "r")
unfolding token_to_revoke
chooses = refl

revokes : (disconnect_revoke web revoker credentials []).0 ≡ ok (confirmed, "")
unfolding disconnect_revoke token_to_revoke revoke build_revoke_token_request post result_of
revokes = refl

revoke_truthful_example :
    RevokeTold web revoker credentials [] (disconnect_revoke web revoker credentials [])
revoke_truthful_example = revoke_truthful web revoker credentials []
