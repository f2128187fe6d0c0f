-- ===== src/Store/Proposals/Reads.antt =====
-- store/proposals.py: what `get` sees after a write of the store.
use gmail_b1_gateway.Prelude.{ℤ, pos, leb_ℤ, String, ◌≡◌, arith, true, ◌==◌, if◌then◌else◌}
use gmail_b1_gateway.Dict.{lookup-insert, lookup-erase}
use gmail_b1_gateway.Errors.{ok, err, proposal_not_found}
use gmail_b1_gateway.Store.Backend.{Kv, put, delete}
use gmail_b1_gateway.Store.Record.{ProposalStatus, Proposal, to_dict}
use gmail_b1_gateway.Store.Record.RoundTrip.{from_dict-to_dict}
use gmail_b1_gateway.Store.Proposals.{read, get_live, set_status}

pub read-put :
    (i j : String) (p : Proposal) (kv : Kv)
    → read j (put i (to_dict p) kv) ≡ (if i == j then ok p else read j kv)
unfolding read
read-put i j p kv = rw lookup-insert (ground (arith, from_dict-to_dict p))

pub read-delete :
    (i j : String) (kv : Kv)
    → read j (delete i kv) ≡ (if i == j then err proposal_not_found else read j kv)
unfolding read
read-delete i j kv = rw lookup-erase (ground arith)

-- A status write to a record that is there.
pub set_status_found :
    (i : String) (s : ProposalStatus) (kv : Kv) {p : Proposal}
    → read i kv ≡ ok p
    → set_status i s kv
      ≡ (ok (record p { status = s }), put i (to_dict (record p { status = s })) kv)
unfolding set_status
set_status_found i s kv h = rw (h, set_status)

-- `get_live` returns the stored record, at a valid clock reading.
pub get_live_ok :
    (i : String) (now : ℤ) (kv : Kv) {p : Proposal}
    → get_live i now kv ≡ ok p
    → (read i kv ≡ ok p) × (leb_ℤ (pos 0) now ≡ true)
unfolding get_live
get_live_ok i now kv h = ground arith
