-- ===== src/Gateway/ProposalApi.antt =====
-- gateway/proposal_api.py: the HTTP handler of the proposal channel. A request's path is what `urlsplit`
-- leaves of it, and `json.loads` is a parameter.
pub mod Surface
pub mod Content
use Prim.Native.Char.{code}
use gmail_b1_gateway.Prelude.{
  ℕ, zero, suc, String, Bool, true, false, not, ◌&&◌, ◌||◌, Option, none, some, List, [], ◌∷◌, ℤ,
  pos, negsuc, codes, beq, leb, leb_ℤ, ltb_ℤ, ◌==◌, if◌then◌else◌, compare_digest,
}
use gmail_b1_gateway.Json.{Value, str, obj, Fields, end, field}
use gmail_b1_gateway.Errors.{
  Error, Result, ok, err, proposal_not_found, proposal_expired, proposal_state, audit_schema,
  illegal_transition, no_auto_retry, already_settled, payload_schema, attachments_not_supported,
  jcs_error, value_error, Action, ◌>>=◌,
}
use gmail_b1_gateway.Keystore.Providers.{Bytes}
use gmail_b1_gateway.Store.Backend.{Kv}
use gmail_b1_gateway.SendFsm.{World, Fsm}
use gmail_b1_gateway.Gateway.SendPath.{confirm_and_dispatch}
use gmail_b1_gateway.Gateway.ProposalService.{Stores, Config, Mint, propose, get_status}

-- What the channel's requests may change.
pub record State : Type 0 where
  pub world : World
  pub payloads : Kv

-- `GET`, `POST`, and any other command.
pub data Method : Type 0 where
  get post other : Method

-- The header `Content-Length` as a number, where it is one, with 0 for a missing one.
pub record Request : Type 0 where
  pub method : Method
  pub path : String
  pub authorization : Option String
  pub content_length : Option ℤ
  pub rfile : Bytes

-- A response, or a connection that is closed without one because the handler raised.
pub data Response : Type 0 where
  reply : ℕ → Fields → Response
  dropped : Response

pub record Server : Type 0 where
  pub config : Config
  pub mint : Mint
  pub session_bearer : String
  -- The mounted dispatcher.
  pub confirm : Option Fsm
  pub loads : Bytes → Option Value

abbrev pub error_body : String → Fields
error_body code = field "error" (str code) end

abbrev pub uniform_404 : Response
uniform_404 = reply 404 (error_body "not_found")

abbrev bad_request : String → Response
bad_request code = reply 400 (error_body code)

-- `s.removeprefix(p)` where `s` starts with `p`.
unfoldable pub after_prefix : String → String → Option String
after_prefix String.[] s = some s
after_prefix (String.◌∷◌ c p) String.[] = none
after_prefix (String.◌∷◌ c p) (String.◌∷◌ d s) =
    let rest = after_prefix p s in if beq (code c) (code d) then rest else none

-- `s.removesuffix(t)` where `s` ends with `t`.
unfoldable pub before_suffix : String → String → Option String
before_suffix t String.[] = if t == "" then some "" else none
before_suffix t (String.◌∷◌ c s) =
    let rest = before_suffix t s in
    if String.◌∷◌ c s == t
    then some ""
    else elim rest [ some r ↦ some (String.◌∷◌ c r) | none ↦ none ]

abbrev has_slash : List ℕ → Bool
has_slash [] = false
has_slash (c ∷ cs) = beq c 47 || has_slash cs

-- One id segment, not empty.
abbrev pub is_segment : String → Bool
is_segment s = not (s == "" || has_slash (codes s))

abbrev segment : Option String → Option String
segment none = none
segment (some s) = if is_segment s then some s else none

-- `_proposal_id_from_path`
unfoldable pub proposal_id_from_path : String → Option String
proposal_id_from_path path = segment (after_prefix "/proposal/" path)

-- `_confirm_id_from_path`. Where prefix and suffix share their slash the source's slice is empty, and
-- here the rest does not end with the suffix: no id either way.
unfoldable pub confirm_id_from_path : String → Option String
confirm_id_from_path path = elim (after_prefix "/proposal/" path) [
  | some rest ↦ segment (before_suffix "/confirm" rest)
  | none ↦ none
]

abbrev pub presented : Option String → String
presented none = ""
presented (some header) = elim (after_prefix "Bearer " header) [ some token ↦ token | none ↦ "" ]

-- `_authed`
unfoldable pub authed : Server → Request → Option Bool
authed server r = compare_digest (presented r.authorization) server.session_bearer

abbrev pub max_body_bytes : ℤ
max_body_bytes = pos 1048576

abbrev take : ℕ → Bytes → Bytes
take zero b = []
take (suc n) [] = []
take (suc n) (x ∷ b) = x ∷ take n b

abbrev body_of_length : ℤ → Bytes → Option Bytes
body_of_length (negsuc n) rfile = none
body_of_length (pos n) rfile =
    if leb_ℤ (pos n) (pos 0) || ltb_ℤ max_body_bytes (pos n) then none else some (take n rfile)

-- `_read_request_body`
unfoldable pub read_request_body : Request → Option Bytes
read_request_body r = elim r.content_length [ some n ↦ body_of_length n r.rfile | none ↦ none ]

abbrev pub on_stores : {A : Type 0} → Action Stores A → Action State A
on_stores m s =
    let stores : Stores = record { proposals = s.world.kv; payloads = s.payloads } in
    let (r, t) = m stores in
    (r, record s { world = record s.world { kv = t.proposals }; payloads = t.payloads })

abbrev pub on_world : {A : Type 0} → Action World A → Action State A
on_world m s = let (r, w) = m s.world in (r, record s { world = w })

-- The response to what `propose` raised or returned.
unfoldable pub propose_response : Result Fields → Response
propose_response (ok d) = reply 200 d
propose_response (err attachments_not_supported) = bad_request "attachments_not_supported_in_v1"
propose_response (err payload_schema) = bad_request "invalid_payload"
propose_response (err jcs_error) = bad_request "invalid_payload"
propose_response (err value_error) = bad_request "invalid_payload"
propose_response (err proposal_state) = bad_request "invalid_payload"
propose_response (err e) = dropped

abbrev propose_parsed : Server → Option Value → State → Response × State
propose_parsed server (some (obj params)) s =
    let (r, t) = on_stores (propose server.config server.mint params) s in (propose_response r, t)
propose_parsed server v s = (bad_request "invalid_request", s)

-- `_handle_propose`
unfoldable pub handle_propose : Server → Option Bytes → State → Response × State
unfolding propose_response
handle_propose server none s = (bad_request "invalid_request", s)
handle_propose server (some []) s = (bad_request "invalid_request", s)
handle_propose server (some body) s = propose_parsed server (server.loads body) s

unfoldable pub status_response : Result Fields → Response
status_response (ok d) = reply 200 d
status_response (err proposal_not_found) = uniform_404
status_response (err e) = dropped

-- `_handle_status`
unfoldable pub handle_status : String → State → Response × State
unfolding status_response
handle_status proposal_id s = (
  status_response
      (get_status proposal_id (record { proposals = s.world.kv; payloads = s.payloads })),
  s,
)

unfoldable pub confirm_response : String → Result String → Response
confirm_response proposal_id (ok status) =
    reply 200 (field "proposal_id" (str proposal_id) (field "status" (str status) end))
confirm_response proposal_id (err proposal_not_found) = uniform_404
confirm_response proposal_id (err proposal_expired) = reply 409 (error_body "expired")
confirm_response proposal_id (err illegal_transition) = reply 409 (error_body "conflict")
confirm_response proposal_id (err already_settled) = reply 409 (error_body "conflict")
confirm_response proposal_id (err no_auto_retry) = reply 409 (error_body "conflict")
confirm_response proposal_id (err e) = dropped

-- `_handle_confirm`
unfoldable pub handle_confirm : Fsm → ℤ → String → State → Response × State
unfolding confirm_response
handle_confirm fsm now proposal_id s =
    let (r, t) = on_world (confirm_and_dispatch fsm proposal_id now) s in
    (confirm_response proposal_id r, t)

abbrev route_confirm : Server → Option String → State → Response × State
route_confirm server none s = (uniform_404, s)
route_confirm server (some cid) s = elim server.confirm [
  | some fsm ↦ handle_confirm fsm server.mint.now cid s
  | none ↦ (uniform_404, s)
]

-- `do_POST` and `do_GET`, once the bearer was compared.
abbrev post_authed : Server → Request → Option Bool → State → Response × State
post_authed server r none s = (dropped, s)
post_authed server r (some false) s = (uniform_404, s)
post_authed server r (some true) s =
    if r.path == "/proposal"
    then handle_propose server (read_request_body r) s
    else route_confirm server (confirm_id_from_path r.path) s

abbrev get_authed : Option String → Option Bool → State → Response × State
get_authed pid none s = (dropped, s)
get_authed pid (some false) s = (uniform_404, s)
get_authed none (some true) s = (uniform_404, s)
get_authed (some pid) (some true) s = handle_status pid s

abbrev by_method : Server → Request → Method → State → Response × State
by_method server r post s = post_authed server r (authed server r) s
by_method server r get s = get_authed (proposal_id_from_path r.path) (authed server r) s
by_method server r other s = (uniform_404, s)

unfoldable pub handle : Server → Request → State → Response × State
handle server r s = by_method server r r.method s
