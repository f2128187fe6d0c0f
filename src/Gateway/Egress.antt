-- ===== src/Gateway/Egress.antt =====
-- gateway/egress.py: the HTTP client that refuses every host outside its allow-list. `urlsplit`,
-- `str.lower` and the transport are parameters.
pub mod Cases
use gmail_b1_gateway.Prelude.{
  ℕ, String, Option, none, some, List, [], ◌∷◌, ◌++◌, map, elem, ◌==◌, if◌then◌else◌,
}
use gmail_b1_gateway.Json.{Fields}
use gmail_b1_gateway.Keystore.Providers.{Bytes}

-- The two parts of `urlsplit(url)` that are read.
pub record Parts : Type 0 where
  pub scheme : String
  pub hostname : Option String

-- The arguments of one call of the transport, whose method is always POST.
pub record HttpRequest : Type 0 where
  pub url : String
  pub headers : Fields
  pub body : Bytes

-- Every call of the transport so far.
abbrev pub Wire : Type 0
Wire = List HttpRequest

-- How a call of the transport ends: with a response of any status, with `socket.timeout`, with a
-- `URLError` or another `OSError`, or with any other exception.
pub data Reply : Type 0 where
  answered : ℕ → Bytes → Reply
  timed_out broken crashed : Reply

-- `urlsplit` may raise a `ValueError`, which is `none`.
pub record Network : Type 0 where
  pub urlsplit : String → Option Parts
  pub lower : String → String
  pub transport : Wire → HttpRequest → Reply

pub record HttpResponse : Type 0 where
  pub status : ℕ
  pub body : Bytes
  pub host : String

pub data BlockReason : Type 0 where
  scheme_not_https host_not_allowed : BlockReason

-- What `post` returns or raises.
pub data Posted : Type 0 where
  responded : HttpResponse → Posted
  -- `EgressBlockedError`, whose host is the empty text where there is none.
  egress_blocked : String → BlockReason → Posted
  timeout transport_error other_error : Posted

pub record EgressGuardedClient : Type 0 where
  pub allow_hosts : List String

-- `EgressGuardedClient.__init__`
abbrev pub guarded_client : Network → List String → EgressGuardedClient
guarded_client net allow_hosts = record { allow_hosts = map net.lower allow_hosts }

-- `host or ""`
abbrev host_or_empty : Option String → String
host_or_empty none = ""
host_or_empty (some host) = host

abbrev pub posted : String → Reply → Posted
posted host (answered status body) =
    responded (record { status = status; body = body; host = host })
posted host timed_out = timeout
posted host broken = transport_error
posted host crashed = other_error

module _ (net : Network) (client : EgressGuardedClient) where
  -- The check of the host, and the call of the transport behind it.
  abbrev pub post_to : Option String → HttpRequest → Wire → Posted × Wire
  post_to none request wire = (egress_blocked "" host_not_allowed, wire)
  post_to (some host) request wire =
      if elem host client.allow_hosts
      then (posted host (net.transport wire request), wire ++ request ∷ [])
      else (egress_blocked host host_not_allowed, wire)

  abbrev pub post_parts : Option Parts → HttpRequest → Wire → Posted × Wire
  post_parts none request wire = (other_error, wire)
  post_parts (some parts) request wire =
      if parts.scheme == "https"
      then post_to parts.hostname request wire
      else (egress_blocked (host_or_empty parts.hostname) scheme_not_https, wire)

  -- `post`
  unfoldable pub post : HttpRequest → Wire → Posted × Wire
  post request wire = post_parts (net.urlsplit request.url) request wire
