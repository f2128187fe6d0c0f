-- ===== src/Errors.antt =====
-- The exceptions of store/errors.py, sendfsm/errors.py, keystore/errors.py, gateway/token_store.py, gateway/supervisor.py,
-- actionset/errors.py, oauth/errors.py and canonicalizer/payload.py, and the calls that may raise one: a method takes the state and returns its result and the state.
use gmail_b1_gateway.Prelude.{
  arith, ◌≡◌, refl, ◌⊎◌, inl, inr, Bool, Option, none, some, if◌then◌else◌,
}

pub data Error : Type 0 where
  proposal_not_found proposal_expired duplicate_idempotency proposal_state audit_schema : Error
  illegal_transition auto_send_not_enabled agent_unreachable_required : Error
  no_auto_retry already_settled : Error
  payload_schema attachments_not_supported unknown_action jcs_error value_error : Error
  key_unavailable key_backend_unavailable key_material sealed_record decryption : Error
  credentials_missing keychain_unavailable credentials_corrupt commit_invalidated : Error
  authorization_denied supervisor_error : Error
  loopback_required scope_violation pkce_error state_mismatch missing_code provider_error : Error
  oauth_timeout oauth_exchange_error reauthorization_required token_refresh_error : Error
  -- `ConnectionEvicted`, an `sqlite3.Error`, and the refusal to run without durability.
  connection_evicted database_error not_durable : Error
  -- An exception that no layer of the gate catches.
  escaped : Error
  -- A stored value of another type than the annotation says, where Python would go on with it.
  ill_typed : Error

pub data Result {ℓ} (A : Type ℓ) : Type ℓ where
  ok : A → Result A
  err : Error → Result A

abbrev pub map_ok {ℓ κ} : {A : Type ℓ} {B : Type κ} → (A → B) → Result A → Result B
map_ok f (ok a) = ok (f a)
map_ok f (err e) = err e

-- To split on a computed result and keep the equation.
pub Result-cases :
    {A : Type 0} (r : Result A) → ((a : A) × (r ≡ ok a)) ⊎ ((e : Error) × (r ≡ err e))
Result-cases (ok a) = inl (a, refl)
Result-cases (err e) = inr (e, refl)

-- What a method wrote before it raised stays written, so the state comes back on both ways.
abbrev pub Action : Type 0 → Type 0 → Type 0
Action S A = S → Result A × S

module _ {S A : Type 0} where
  abbrev pub pure : A → Action S A
  pure a s = (ok a, s)

  abbrev pub raise : Error → Action S A
  raise e s = (err e, s)

  abbrev pub lift : Result A → Action S A
  lift r s = (r, s)

  abbrev pub gets : (S → A) → Action S A
  gets f s = (ok (f s), s)

  abbrev pub or_raise : Option A → Error → Action S A
  or_raise none e = raise e
  or_raise (some a) _ = pure a

infixl 5 ◌>>=◌ ◌>>◌
abbrev pub ◌>>=◌ : {S A B : Type 0} → Action S A → (A → Action S B) → Action S B
◌>>=◌ m f s = let (r, s') = m s in elim r [ ok a ↦ f a s' | err e ↦ raise e s' ]

abbrev pub ◌>>◌ : {S B : Type 0} → Action S (Unit {0}) → Action S B → Action S B
m >> k = m >>= λ _. k

abbrev pub raise_if : {S : Type 0} → Bool → Error → Action S (Unit {0})
raise_if b e s = (if b then err e else ok tt, s)

abbrev pub modify : {S : Type 0} → (S → S) → Action S (Unit {0})
modify f s = (ok tt, f s)

module _ {S A : Type 0} where
  -- A call that only reads the state.
  abbrev pub query : (S → Result A) → Action S A
  query f s = (f s, s)

  -- A method of a part of the state: `part` reads that part and `with_part` writes it back.
  abbrev pub zoom : {T : Type 0} → (T → S) → (T → S → T) → Action S A → Action T A
  zoom part with_part m t = let (r, s) = m (part t) in (r, with_part t s)

-- What a chain that returned has returned at its first step.
pub bind_ok :
    {S A B : Type 0} (m : Action S A) (f : A → Action S B) (s : S) {b : B} {t : S}
    → (m >>= f) s ≡ (ok b, t)
    → (a : A) × (u : S) × (m s ≡ (ok a, u)) × (f a u ≡ (ok b, t))
bind_ok m f s h = elim (Result-cases (m s).0) [
  | inl (a, e) ↦ (a, (m s).1, ground (arith, e), ground (arith, e, h))
  | inr (x, e) ↦ absurd (ground (arith, e, h))
]
