-- ===== src/Lib.antt =====
-- gmail-b1-gateway: a gateway that sends a person's e-mail only as they approved it.
--
-- An agent asks for an e-mail and gets a proposal. A person, or under an opt-in switch the
-- unreachable-agent path, confirms it; the gateway then hands it to the provider, and writes an
-- audit trail around that. OAuth credentials lie sealed under a key from the operating
-- system's keychain.
--
-- Parts, with their files:
-- - Prelude, Dict, Json, Errors: Python's integers, dicts and JSON values, the exceptions, and calls
--   that return a result and the state they leave.
-- - Store (store/proposals.py, store/backend.py, store/ledger.py): Store/Record is the proposal and
--   its storage form, Store/Proposals the methods of ProposalStore, Store/Ledger the audit log.
--   Store/Backend is the in-memory backend.
-- - Gateway/Persistence (gateway/persistence.py): the SQLite tables, as a connection with what is
--   committed and what its open transaction holds, under statements, commits and rollbacks that
--   fail. It stands behind the interface of Store/Backend.
-- - Actionset (actionset/): the switch mode, the closed catalog and the one action of an agent.
-- - Gateway/ProposalService, Gateway/ProposalApi (gateway/proposal_api.py): propose, status and
--   payload over the two stores, and the HTTP handler in front of them and of the relay.
-- - SendFsm (sendfsm/fsm.py): confirm, dispatch and expire over a world of store, log and calls of
--   the sender. SendFsm/Requests is a run of calls, SendFsm/Moves what one call may do.
-- - Gateway/SendPath (gateway/send_path.py): ConfirmDispatcher, and two relays that interleave.
--   Gateway/SealedToken is SealedTokenStore of the same file: one row, sealed, with its provenance.
-- - Oauth (oauth/): the checks of verifier, state, callback, redirect and scopes, and the page's
--   address; Oauth/Requests the forms of exchange, refresh and revocation.
-- - Gateway/OauthListener (gateway/oauth_listener.py): a run of the consent flow. Gateway/TokenRefresh
--   (gateway/token_refresh.py) serves the sealed token, refreshed where it must be (its Evidence says
--   what then stands in the record and on the wire), and
--   Gateway/TokenRevoke (gateway/token_revoke.py) revokes one. All three send through Gateway/Egress.
-- - Gateway/Egress (gateway/egress.py) and Gateway/GmailSender (gateway/gmail_sender.py): the client
--   that refuses hosts outside its allow-list, and the sender in front of it, over a list of
--   the transport's calls; Gateway/Egress/Cases is what a call of the client can do. The sender's
--   answers are among those that SendFsm takes as a parameter.
-- - Gateway/TokenStore (gateway/sealed_token_store.py, gateway/token_store.py): the row of sealed
--   credentials, commit record, voided operations and generations.
-- - Gateway/Supervisor (gateway/supervisor.py): start, health and stop over the children that run; what
--   the processes do is an argument of each call. Gateway/Supervisor/OneChild is its invariant,
--   Gateway/Supervisor/Ended how a stop ends.
-- - Canonicalizer (canonicalizer/payload.py): the closed schema of a request to send, its
--   normalised payload, and the send policy of the first version; Canonicalizer/Jcs
--   (canonicalizer/jcs.py) is the canonical JSON text, and Canonicalizer/Digest the payload's digest.
-- - Authz (authz/): Authz/Artifact and Authz/Grant parse what is signed (authz/capability.py),
--   Authz/State the state head and revocations (authz/state.py), Authz/Service has requests,
--   decisions and the consumers (authz/service.py), Authz/Policy the comparison of a decision's
--   fields (authz/decision_policy.py), Authz/Gate the gate (authz/gate.py) with authz/audit.py and
--   authz/errors.py. What a call of the gate observes of clocks, relay and cloud is a record.
--   Authz/Gate/Authentic says what is signed by whom, apart from the gate's own tests.
--   Authz/ControlPlane (authz/state.py) is the operator's side: HeadState and the relay StubSyncSource;
--   Authz/CloudService (authz/service.py) the decision service over the same state.
--   Authz/Orchestrator (authz/orchestrator.py) puts the gate in front of SendFsm, and
--   Authz/DispatchRecord (authz/dispatch_record.py) has the rows that it writes around a send.
-- - Keystore (keystore/aead.py, keystore/providers.py): sealing under a provider's key.
-- - Tests: concrete inputs.
--
-- How they correspond: a method is the function of its name, in snake case, that takes the state and
-- returns its result, a value or an exception, and the state. `get` of the proposal store is `read`,
-- `open` and `to_dict`/`from_dict` of the AEAD layer are `unseal`, `to_stored` and `of_stored`, and
-- `_open` of the credential store is `open_sealed`. `propose` and the HTTP handler take what the
-- factories and the clock yield as a record. Integers are unbounded, as Python's are. A clock
-- reading, a nonce and a provider's answer are arguments. A call that raises keeps what it had
-- written, as in the source.
--
-- Parameters: the sender's answers, any function of the calls so far, where `none` is an exception;
-- SHA-256, Ed25519, hex decoding, date parsing and json.loads; the transport, urlsplit, and the
-- rendering of a message; for OAuth the records Library (URL parsing, urlencoding,
-- SHA-256 with base64url) and Web (the callback's path and query, addresses, UTF-8), and the
-- user root's and the cloud's signatures, with the hypothesis that the gate verifies and reads them;
-- what processes do under the supervisor; AES-GCM, with its laws for the plaintext at hand as a
-- hypothesis. Its opening under another key or with other associated data is taken to fail always, which holds
-- for it up to forgery.
--
-- Fuel: only the decimal digits of a number use it (Keystore/Decimal and Prelude/Numerals):
-- the number itself, which is at least its count of divisions by ten.
--
-- Not modelled: sockets, urlsplit and header parsing, SQLite's own files and locks, the keychain and
-- the network, which are input and output; the command lines.
pub mod Prelude
pub mod Dict
pub mod Json
pub mod Errors
pub mod Store
pub mod Actionset
pub mod SendFsm
pub mod Gateway
pub mod Keystore
pub mod Oauth
pub mod Authz
pub mod Canonicalizer
mod Tests
