-- ===== src/Store/Proposals/Create.antt =====
-- store/proposals.py: what `create` writes, and what it leaves alone.
use gmail_b1_gateway.Prelude.{String, ◌⊎◌, inl, inr, ◌≡◌, refl, ◌≢◌, some, arith, eq_iff}
use gmail_b1_gateway.Dict.{lookup, lookup-insert, lookup-erase}
use gmail_b1_gateway.Json.{Fields}
use gmail_b1_gateway.Errors.{ok, err, proposal_state}
use gmail_b1_gateway.Store.Backend.{Kv}
use gmail_b1_gateway.Store.Record.{Proposal, from_dict}
use gmail_b1_gateway.Store.Proposals.{create, read, decode, index_entry}
use gmail_b1_gateway.Store.Record.RoundTrip.{from_dict-to_dict}

-- Whatever `create` does, with or without an error, every record that was there still is.
pub create-keeps :
    (p : Proposal) (kv : Kv) (j : String) {d : Fields}
    → lookup j kv ≡ some d
    → lookup j (create p kv).1 ≡ some d
unfolding create
create-keeps p kv j h = grind (arith, lookup-insert, lookup-erase, eq_iff)

-- An index entry is not a proposal record.
pub from_dict-index_entry : (i : String) → from_dict (index_entry i) ≡ err proposal_state
unfolding from_dict
from_dict-index_entry i = refl

decode-index_entry : (i : String) (q : Proposal) → decode (some (index_entry i)) ≢ ok q
decode-index_entry i q h = cc (from_dict-index_entry i)

-- The only proposal that `create` makes readable is the one it was given, under its own id.
pub read-create_at :
    (p : Proposal) (kv : Kv) (j : String) {q : Proposal}
    → read j (create p kv).1 ≡ ok q
    → (read j kv ≡ ok q) ⊎ ((q ≡ p) × (j ≡ p.proposal_id))
unfolding create read
read-create_at p kv j {q} h = grind (
  arith,
  lookup-insert,
  lookup-erase,
  eq_iff,
  from_dict-to_dict p,
  from_dict-index_entry p.proposal_id,
)

pub read-create :
    (p : Proposal) (kv : Kv) (j : String) {q : Proposal}
    → read j (create p kv).1 ≡ ok q
    → (read j kv ≡ ok q) ⊎ (q ≡ p)
read-create p kv j h = elim (read-create_at p kv j h) [ inl old ↦ inl old | inr (e, _) ↦ inr e ]
