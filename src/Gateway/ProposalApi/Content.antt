-- ===== src/Gateway/ProposalApi/Content.antt =====
-- gateway/proposal_api.py: the payloads under the whole channel, confirmations included.
use gmail_b1_gateway.Prelude.{
  ℤ, String, ◌≡◌, ◌⊎◌, inl, inr, refl, ap, ◌∙◌, sym, Bool, true, false, none, some, Option, arith,
  eq_iff, eq_refl, ◌==◌, Bool-cases, Option-cases, [], ◌∷◌,
}
use gmail_b1_gateway.Dict.{lookup}
use gmail_b1_gateway.Json.{Value, obj, Fields}
use gmail_b1_gateway.Errors.{ok, Result-cases}
use gmail_b1_gateway.Keystore.Providers.{Bytes}
use gmail_b1_gateway.Store.Backend.{Kv, put}
use gmail_b1_gateway.Store.Record.{Proposal, ProposalStatus, to_dict}
use gmail_b1_gateway.Store.Proposals.{read}
use gmail_b1_gateway.Store.Proposals.Reads.{read-put, get_live_ok}
use gmail_b1_gateway.SendFsm.{human, Fsm, settled_status}
use gmail_b1_gateway.SendFsm.Steps.{approval, approval_ok}
use gmail_b1_gateway.Gateway.SendPath.{confirm_and_dispatch}
use gmail_b1_gateway.Gateway.SendPath.Relay.{relay_refused, relay_approved, confirmed_proposal}
use gmail_b1_gateway.Gateway.ProposalService.{Stores, Config, propose}
use gmail_b1_gateway.Gateway.ProposalService.Frozen.{IsFrozen}
use gmail_b1_gateway.Gateway.ProposalService.Laws.{propose-IsFrozen}
use gmail_b1_gateway.Gateway.ProposalApi.{
  State, Method, get, post, other, Request, Server, authed, by_method, read_request_body, on_stores,
  on_world, propose_parsed, handle_propose, handle_status, handle_confirm, confirm_id_from_path,
  proposal_id_from_path, get_authed, post_authed, handle,
}

abbrev pub stores_of : State → Stores
stores_of s = record { proposals = s.world.kv; payloads = s.payloads }

-- A status write keeps the digest, and so the payload.
status_IsFrozen :
    (config : Config) (i : String) (p : Proposal) (x : ProposalStatus) (kv payloads : Kv)
    → read i kv ≡ ok p
    → IsFrozen config (record { proposals = kv; payloads = payloads })
    → IsFrozen config
        (record { proposals = put i (to_dict (record p { status = x })) kv; payloads = payloads })
status_IsFrozen config i p x kv payloads stored frozen j q h = elim (Bool-cases (i == j)) [
  | inl same ↦
      let ij : i ≡ j = (eq_iff i j).0 same in
      let (payload, found, hash) = frozen j p (rw ij at stored) in
      let new : q ≡ record p { status = x } =
        ground (arith, h, read-put i j (record p { status = x }) kv, same) in
      (payload, found, hash ∙ ap (λ r. ok r.payload_digest) (sym new))
  | inr differ ↦ frozen j q (ground (arith, h, read-put i j (record p { status = x }) kv, differ))
]

confirm_IsFrozen :
    (config : Config) (fsm : Fsm) (now : ℤ) (i : String) (s : State)
    → IsFrozen config (stores_of s)
    → IsFrozen config (stores_of (on_world (confirm_and_dispatch fsm i now) s).1)
confirm_IsFrozen config fsm now i s frozen =
    elim (Result-cases (approval fsm i human now none s.world.kv)) [
      | inl (p, h) ↦
          let (live, _, _) = approval_ok fsm i human now none s.world.kv h in
          let (stored, _) = get_live_ok i now s.world.kv live in
          let q = confirmed_proposal fsm i now s.world p in
          let once = status_IsFrozen config i p q.status s.world.kv s.payloads stored frozen in
          let kv = put i (to_dict q) s.world.kv in
          let at_q : read i kv ≡ ok q = rw (read-put, eq_refl i) in
          rw (relay_approved fsm i now s.world p h) (
            status_IsFrozen config i q (settled_status (fsm.sender s.world.sends i)) kv s.payloads
              at_q once)
      | inr (e, h) ↦ rw (relay_refused fsm i now s.world h) frozen
    ]

-- What a request may make of the state.
abbrev Changed : Server → State → State → Type 0
Changed server s t =
    (t ≡ s)
    ⊎ ((params : Fields) × (t ≡ (on_stores (propose server.config server.mint params) s).1))
    ⊎ ((fsm : Fsm) × (i : String) × (t
          ≡ (on_world (confirm_and_dispatch fsm i server.mint.now) s).1))

module _ (server : Server) (s : State) where
  parsed_Changed : (v : Option Value) → Changed server s (propose_parsed server v s).1
  parsed_Changed (some (obj params)) = inr (inl (params, refl))
  parsed_Changed v = inl refl

  propose_Changed : (body : Option Bytes) → Changed server s (handle_propose server body s).1
  unfolding handle_propose
  propose_Changed none = inl refl
  propose_Changed (some []) = inl refl
  propose_Changed (some (b ∷ bs)) = parsed_Changed (server.loads (b ∷ bs))

  post_Changed : (r : Request) (o : Option Bool) → Changed server s (post_authed server r o s).1
  unfolding handle_confirm
  post_Changed r none = inl refl
  post_Changed r (some false) = inl refl
  post_Changed r (some true) = elim (Bool-cases (r.path == "/proposal")) [
    | inl whole ↦ rw whole (propose_Changed (read_request_body r))
    | inr part ↦ elim (Option-cases (confirm_id_from_path r.path)) [
      | inl e ↦ rw (part, e) (inl refl)
      | inr (id, e) ↦ elim (Option-cases server.confirm) [
        | inl off ↦ inl (ground (arith, part, e, off))
        | inr (fsm, on) ↦ inr (inr (fsm, id, ground (arith, part, e, on)))
      ]
    ]
  ]

  get_Changed : (pid : Option String) (o : Option Bool) → Changed server s (get_authed pid o s).1
  unfolding handle_status
  get_Changed pid none = inl refl
  get_Changed pid (some false) = inl refl
  get_Changed none (some true) = inl refl
  get_Changed (some pid) (some true) = inl refl

  method_Changed : (r : Request) (m : Method) → Changed server s (by_method server r m s).1
  method_Changed r post = post_Changed r (authed server r)
  method_Changed r get = get_Changed (proposal_id_from_path r.path) (authed server r)
  method_Changed r other = inl refl

-- If every stored proposal has the payload that its digest commits to, this stays so through any request
-- of the channel, confirmed sends included, where the id that the factory gives is not stored yet.
pub handle-IsFrozen :
    (server : Server) (r : Request) (s : State)
    → lookup server.mint.proposal_id s.world.kv ≡ none
    → IsFrozen server.config (stores_of s)
    → IsFrozen server.config (stores_of (handle server r s).1)
unfolding handle
handle-IsFrozen server r s fresh frozen = elim (method_Changed server s r r.method) [
  | inl same ↦ rw same frozen
  | inr (inl (params, e)) ↦
      rw e (propose-IsFrozen server.config server.mint params (stores_of s) fresh frozen)
  | inr (inr (fsm, i, e)) ↦ rw e (confirm_IsFrozen server.config fsm server.mint.now i s frozen)
]
