-- ===== src/Tests/ProposalApi.antt =====
-- gateway/proposal_api.py: proposals over the HTTP channel, with a toy digest.
use Prim.Native.String.{◌++◌ as str_append}
use gmail_b1_gateway.Prelude.{
  ◌≢◌, String, ◌≡◌, ◌⊎◌, refl, true, false, none, some, [], ◌∷◌, pos, beq, length, if◌then◌else◌,
}
use gmail_b1_gateway.Dict.{lookup, insert}
use gmail_b1_gateway.Json.{Fields, str, arr, obj, nil, cons, end, field}
use gmail_b1_gateway.Errors.{ok}
use gmail_b1_gateway.Keystore.Providers.{Bytes}
use gmail_b1_gateway.Canonicalizer.{build_canonical_payload, enforce_v1_send_policy}
use gmail_b1_gateway.Canonicalizer.Digest.{canonical_fields}
use gmail_b1_gateway.Canonicalizer.Jcs.{canonicalize}
use gmail_b1_gateway.Store.Proposals.{create, read, find_by_idempotency, idem_index_key}
use gmail_b1_gateway.Actionset.Prepare.{prepare_email}
use gmail_b1_gateway.Gateway.ProposalService.{
  Stores, Config, Mint, identifiers, freeze_and_create, propose_new, propose,
}
use gmail_b1_gateway.Gateway.ProposalService.Frozen.{IsFrozen}
use gmail_b1_gateway.Gateway.ProposalService.Laws.{propose_idempotent}
use gmail_b1_gateway.Gateway.ProposalApi.{
  State, post, Request, dropped, Server, uniform_404, proposal_id_from_path, confirm_id_from_path,
  after_prefix, before_suffix, authed, handle,
}
use gmail_b1_gateway.Gateway.ProposalApi.Surface.{IsServed, HasBearer, IsNotAscii, closed_surface}
use gmail_b1_gateway.Gateway.ProposalApi.Content.{stores_of, handle-IsFrozen}
use gmail_b1_gateway.Tests.Samples.{world_of, gateway}

abbrev params : String → Fields
params content = field "account_handle" (str "me") (
    field "to" (arr (cons (str "you@example.com") nil)) (
      field "subject" (str "Hello") (
        field "body" (obj (field "format" (str "text") (field "content" (str content) end)))
          (field "idempotency_key" (str "key") end))))

abbrev config : Config
config = record {
  sha256_hex = λ (b : Bytes). if beq (length b) 0 then "empty" else "text";
  ttl_seconds = pos 100;
  require_message_id = true;
}

abbrev mint : String → Mint
mint proposal_id = record {
  now = pos 150;
  proposal_id = proposal_id;
  message_id_factory = some (some "<id>");
}

abbrev no_stores : Stores
no_stores = record { proposals = []; payloads = [] }

first_proposal :
    (propose config (mint "p9") (params "Hi") no_stores).0 ≡ ok (identifiers "p9" "text" (pos 250))
unfolding propose propose_new freeze_and_create prepare_email build_canonical_payload
    enforce_v1_send_policy canonical_fields canonicalize create find_by_idempotency idem_index_key
    lookup insert
first_proposal = refl

propose_idempotent_example :
    propose config
      (mint "p10")
      (params "Bye")
      (propose config (mint "p9") (params "Hi") no_stores).1
    ≡ (
      ok (identifiers "p9" "text" (pos 250)),
      (propose config (mint "p9") (params "Hi") no_stores).1,
    )
propose_idempotent_example =
    propose_idempotent config (mint "p9") (mint "p10") (params "Hi") (params "Bye") "key" no_stores
      {r = identifiers "p9" "text" (pos 250)} refl refl refl first_proposal

abbrev server : Server
server = record {
  config = config;
  mint = mint "p9";
  session_bearer = "secret";
  confirm = some gateway;
  loads = λ b. some (obj (params "Hi"));
}

abbrev request : String → Request
request token = record {
  method = post;
  path = "/proposal";
  authorization = some (str_append "Bearer " token);
  content_length = some (pos 1);
  rfile = 123 ∷ [];
}

abbrev idle : State
idle = record { world = world_of []; payloads = [] }

wrong_token : authed server (request "guess") ≡ some false
unfolding authed after_prefix
wrong_token = refl

not_ascii : authed server (request "é") ≡ none
unfolding authed after_prefix
not_ascii = refl

ids :
    (proposal_id_from_path "/proposal/a/b" ≡ none)
    × (proposal_id_from_path "/proposal/p1" ≡ some "p1")
    × (confirm_id_from_path "/proposal/p1/confirm" ≡ some "p1")
    × (confirm_id_from_path "/proposal/confirm" ≡ none)
unfolding proposal_id_from_path confirm_id_from_path after_prefix before_suffix
ids = (refl, refl, refl, refl)

bearer_minted : server.session_bearer ≢ ""
bearer_minted e = cc

closed_surface_example :
    (handle server (request "secret") idle ≡ (uniform_404, idle))
    ⊎ ((handle server (request "secret") idle ≡ (dropped, idle))
        × IsNotAscii server (request "secret"))
    ⊎ (HasBearer server (request "secret") × IsServed server (request "secret"))
closed_surface_example = closed_surface server bearer_minted (request "secret") idle

idle-IsFrozen : IsFrozen config (stores_of idle)
unfolding read lookup
idle-IsFrozen i p h = absurd (cc h)

nothing_stored : lookup "p9" idle.world.kv ≡ none
unfolding lookup
nothing_stored = refl

handle-IsFrozen_example : IsFrozen config (stores_of (handle server (request "secret") idle).1)
handle-IsFrozen_example =
    handle-IsFrozen server (request "secret") idle nothing_stored idle-IsFrozen
