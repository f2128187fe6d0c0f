-- ===== src/Oauth.antt =====
-- oauth/: the OAuth authorization-code flow with PKCE, without its sockets. URL parsing, urlencoding,
-- and SHA-256 with base64url are parameters. A frozenset is a list without repetitions.
pub mod Requests
use Prim.Native.String.{◌++◌ as ◌append◌}
use gmail_b1_gateway.Prelude.{
  ℕ, String, Bool, true, false, not, Option, none, some, List, [], ◌∷◌, elem, codes, length, leb,
  beq, compare_digest, ◌==◌, ◌&&◌, ◌||◌, if◌then◌else◌,
}
use gmail_b1_gateway.Json.{Fields, str, end, field}
use gmail_b1_gateway.Dict.{Dict, lookup}
use gmail_b1_gateway.Errors.{
  Result, ok, err, loopback_required, scope_violation, pkce_error, state_mismatch, missing_code,
  provider_error, value_error, escaped,
}

-- `parts.port`, which raises a `ValueError` for a port that is no number in range.
pub data Port : Type 0 where
  no_port bad_port : Port
  port : ℕ → Port

-- What is read of `urlsplit(redirect_uri)`.
pub record Redirect : Type 0 where
  pub scheme : String
  pub username : Option String
  pub password : Option String
  pub hostname : Option String
  pub port : Port

-- `urlsplit` may raise a `ValueError`, which is `none`.
pub record Library : Type 0 where
  pub split_redirect : String → Option Redirect
  pub urlencode : Fields → String
  -- `_b64url_nopad(hashlib.sha256(verifier.encode("ascii")).digest())`
  pub s256 : String → String

infixl 5 ◌>>=◌ ◌>>◌
abbrev pub ◌>>=◌ : {A B : Type 0} → Result A → (A → Result B) → Result B
ok a >>= f = f a
err e >>= f = err e

abbrev pub ◌>>◌ : {B : Type 0} → Result (Unit {0}) → Result B → Result B
r >> s = r >>= λ _. s

abbrev pub pure : {A : Type 0} → A → Result A
pure a = ok a

-- oauth/pkce.py

abbrev is_alphanumeric : ℕ → Bool
is_alphanumeric c = (leb 48 c && leb c 57) || ((leb 65 c && leb c 90) || (leb 97 c && leb c 122))

-- `[A-Za-z0-9\-._~]`
abbrev pub is_unreserved : ℕ → Bool
is_unreserved c = is_alphanumeric c || (beq c 45 || (beq c 46 || (beq c 95 || beq c 126)))

-- What stands before one last newline: `$` matches there too.
abbrev chomped : List ℕ → List ℕ
chomped [] = []
chomped (c ∷ []) = if beq c 10 then [] else c ∷ []
chomped (c ∷ d ∷ cs) = c ∷ chomped (d ∷ cs)

abbrev all_unreserved : List ℕ → Bool
all_unreserved [] = true
all_unreserved (c ∷ cs) = is_unreserved c && all_unreserved cs

-- `_VERIFIER_ALPHABET.match`
unfoldable pub is_verifier : String → Bool
is_verifier s =
    let cs = chomped (codes s) in all_unreserved cs && (leb 43 (length cs) && leb (length cs) 128)

unfoldable pub validate_code_verifier : String → Result (Unit {0})
validate_code_verifier verifier = if is_verifier verifier then ok tt else err pkce_error

pub record PkcePair : Type 0 where
  pub verifier : String
  pub challenge : String

-- oauth/state.py

-- Two empty texts never match; a text that is not ASCII raises a `TypeError`.
unfoldable pub state_matches : String → String → Result Bool
state_matches expected received =
    if expected == "" || received == ""
    then ok false
    else elim (compare_digest expected received) [ some b ↦ ok b | none ↦ err escaped ]

-- oauth/callback.py

abbrev get_or_empty : Option String → String
get_or_empty none = ""
get_or_empty (some s) = s

abbrev refuse_provider_error : Option String → Result (Unit {0})
refuse_provider_error none = ok tt
refuse_provider_error (some s) = if s == "" then ok tt else err provider_error

abbrev require_code : Option String → Result String
require_code none = err missing_code
require_code (some code) = if code == "" then err missing_code else ok code

abbrev require_state : Bool → Result (Unit {0})
require_state matches = if matches then ok tt else err state_mismatch

unfoldable pub extract_authorization_code : Dict String → String → Result String
unfolding state_matches
extract_authorization_code params expected_state = do
  matches ← state_matches expected_state (get_or_empty (lookup "state" params))
  require_state matches
  refuse_provider_error (lookup "error" params)
  require_code (lookup "code" params)

-- oauth/redirect.py

-- `_LOOPBACK_HOSTS`
abbrev pub loopback_hosts : List String
loopback_hosts = "127.0.0.1" ∷ "::1" ∷ "localhost" ∷ []

abbrev has_text : Option String → Bool
has_text none = false
has_text (some s) = not (s == "")

abbrev is_listed : Option String → Bool
is_listed none = false
is_listed (some host) = elem host loopback_hosts

abbrev check_port : Port → Result (Unit {0})
check_port no_port = err loopback_required
check_port bad_port = err value_error
check_port (port n) = ok tt

abbrev check_redirect : Option Redirect → Result (Unit {0})
check_redirect none = err value_error
check_redirect (some r) =
    if not (r.scheme == "http") || (has_text r.username || has_text r.password)
    then err loopback_required
    else if not (is_listed r.hostname)
    then err loopback_required
    else check_port r.port

-- oauth/authorize.py

-- `V1_ALLOWED_SCOPES`
abbrev pub gmail_send_scope : String
gmail_send_scope = "https://www.googleapis.com/auth/gmail.send"

abbrev pub only_allowed : List String → Bool
only_allowed [] = true
only_allowed (s ∷ scopes) = s == gmail_send_scope && only_allowed scopes

-- `_validate_scopes`
unfoldable pub validate_scopes : List String → Result (Unit {0})
validate_scopes [] = err scope_violation
validate_scopes (s ∷ scopes) = if only_allowed (s ∷ scopes) then ok tt else err scope_violation

pub record AuthorizationRequest : Type 0 where
  pub client_id : String
  pub redirect_uri : String
  pub state : String
  pub code_challenge : String
  pub scopes : List String

module _ (lib : Library) where
  unfoldable pub validate_loopback_redirect : String → Result (Unit {0})
  validate_loopback_redirect redirect_uri = check_redirect (lib.split_redirect redirect_uri)

  unfoldable pub code_challenge : String → Result String
  unfolding validate_code_verifier
  code_challenge verifier = do validate_code_verifier verifier; pure (lib.s256 verifier)

  -- `generate_pkce_pair`, with the verifier that `generate_code_verifier` drew.
  unfoldable pub generate_pkce_pair : String → Result PkcePair
  unfolding code_challenge
  generate_pkce_pair verifier = do
    challenge ← code_challenge verifier
    pure (record { verifier = verifier; challenge = challenge })

  -- `AuthorizationRequest.__post_init__`
  unfoldable pub validate_request : AuthorizationRequest → Result (Unit {0})
  unfolding validate_loopback_redirect validate_scopes
  validate_request r = do validate_loopback_redirect r.redirect_uri; validate_scopes r.scopes

  -- `" ".join(sorted(scopes))`: a validated set has one element.
  abbrev space_joined : List String → String
  space_joined [] = ""
  space_joined (s ∷ []) = s
  space_joined (s ∷ t ∷ scopes) = s append (" " append space_joined (t ∷ scopes))

  unfoldable pub build_authorization_url : AuthorizationRequest → String → String
  build_authorization_url r auth_endpoint =
      let params = field "client_id" (str r.client_id) (
        field "redirect_uri" (str r.redirect_uri) (
          field "response_type" (str "code") (
            field "scope" (str (space_joined r.scopes)) (
              field "state" (str r.state) (
                field "code_challenge" (str r.code_challenge) (
                  field "code_challenge_method" (str "S256") (
                    field "access_type" (str "offline")
                      (field "prompt" (str "consent") end)))))))) in
      auth_endpoint append ("?" append lib.urlencode params)
