-- ===== src/Tests/Store.antt =====
-- store/proposals.py: `create` on concrete stores, and a record that reads back.
use gmail_b1_gateway.Prelude.{◌≡◌, refl, ◌↔◌, some, [], ◌∷◌}
use gmail_b1_gateway.Dict.{lookup, insert}
use gmail_b1_gateway.Errors.{ok, err, duplicate_idempotency}
use gmail_b1_gateway.Store.Backend.{Kv}
use gmail_b1_gateway.Store.Record.{pending}
use gmail_b1_gateway.Store.Proposals.{create, idem_index_key, index_entry}
use gmail_b1_gateway.Store.Proposals.Idempotency.{IsAdmissible, IsUnclaimed, create_ok_iff}
use gmail_b1_gateway.Tests.Samples.{draft}

-- Another proposal holds the key "key".
abbrev claimed : Kv
claimed = (idem_index_key "key", index_entry "p0") ∷ []

create_ok_iff_example :
    ((create (draft pending) claimed).0 ≡ ok (draft pending))
    ↔ (IsAdmissible (draft pending) claimed × IsUnclaimed (draft pending) (some "key") claimed)
create_ok_iff_example = create_ok_iff (draft pending) claimed

loses : (create (draft pending) claimed).0 ≡ err duplicate_idempotency
unfolding create lookup insert idem_index_key
loses = refl

wins : (create (draft pending) []).0 ≡ ok (draft pending)
unfolding create lookup insert idem_index_key
wins = refl
