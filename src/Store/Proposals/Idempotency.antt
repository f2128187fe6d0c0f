-- ===== src/Store/Proposals/Idempotency.antt =====
-- store/proposals.py: one proposal for one idempotency key, and the roll-back of a losing `create`.
use gmail_b1_gateway.Prelude.{
  String, ◌≡◌, ◌≢◌, Option, none, some, arith, eq_iff, eq_refl, ◌↔◌, pos, ◌≤ℤ◌, ◌<ℤ◌, Option-cases,
  inl, inr,
}
use gmail_b1_gateway.Dict.{lookup, lookup-insert, lookup-erase}
use gmail_b1_gateway.Errors.{Error, ok, err}
use gmail_b1_gateway.Store.Backend.{Kv}
use gmail_b1_gateway.Store.Record.{Proposal, to_dict}
use gmail_b1_gateway.Store.Record.RoundTrip.{from_dict-to_dict}
use gmail_b1_gateway.Store.Proposals.{create, read, find_by_idempotency, idem_index_key}

-- What `create` demands of a proposal before it writes.
pub record IsAdmissible (p : Proposal) (kv : Kv) : Type 0 where
  pub created : pos 0 ≤ℤ p.created_at
  pub expires : p.created_at <ℤ p.expires_at
  pub fresh : lookup p.proposal_id kv ≡ none

-- A `create` that raises, at whatever point, leaves every key of the store as it was: a proposal
-- that lost its claim is rolled back.
pub create_error_unchanged :
    (p : Proposal) (kv : Kv) {e : Error} (j : String)
    → (create p kv).0 ≡ err e
    → lookup j (create p kv).1 ≡ lookup j kv
unfolding create
create_error_unchanged p kv j h = grind (arith, lookup-insert, lookup-erase, eq_iff)

-- A `create` that returns, for a proposal with an idempotency key, returns the proposal it was given,
-- and the key then finds it.
pub create_found :
    (p q : Proposal) (kv : Kv) (k : String)
    → (create p kv).0 ≡ ok q
    → p.idempotency_key ≡ some k
    → (q ≡ p) × (find_by_idempotency k (create p kv).1 ≡ ok (some p))
unfolding create find_by_idempotency read
create_found p q kv k h key =
    grind (arith, lookup-insert, lookup-erase, eq_iff, from_dict-to_dict p)

-- Nothing is stored under the index key of the proposal's idempotency key, and that is not the
-- proposal's own id.
abbrev pub IsUnclaimed : Proposal → Option String → Kv → Type 0
IsUnclaimed p none kv = Unit
IsUnclaimed p (some k) kv =
    (lookup (idem_index_key k) kv ≡ none) × (p.proposal_id ≢ idem_index_key k)

-- `create` returns exactly when the times are in order, the id is new and the key is unclaimed.
pub create_ok_iff :
    (p : Proposal) (kv : Kv)
    → ((create p kv).0 ≡ ok p) ↔ (IsAdmissible p kv × IsUnclaimed p p.idempotency_key kv)
unfolding create
create_ok_iff p kv = elim (Option-cases p.idempotency_key) [
  | inl unkeyed ↦ (λ h. ground (arith, eq_refl p.proposal_id), λ h. ground arith)
  | inr (k, keyed) ↦ (
    λ h. ground (
      arith,
      lookup-insert p.proposal_id (idem_index_key k) (to_dict p) kv,
      eq_iff p.proposal_id (idem_index_key k),
    ),
    λ h. ground (
      arith,
      lookup-insert p.proposal_id (idem_index_key k) (to_dict p) kv,
      eq_iff p.proposal_id (idem_index_key k),
    ),
  )
]
