-- ===== src/Tests/Persistence.antt =====
-- gateway/persistence.py: a run in which a commit fails, and then a rollback.
use gmail_b1_gateway.Prelude.{◌≡◌, refl, inr, true, false, none, List, [], ◌∷◌, pos}
use gmail_b1_gateway.Dict.{lookup, insert, erase}
use gmail_b1_gateway.Json.{Fields, str, end, field}
use gmail_b1_gateway.Errors.{ok, err, connection_evicted, not_durable}
use gmail_b1_gateway.Store.Backend.{Kv}
use gmail_b1_gateway.Gateway.Persistence.{
  Sqlite, Faults, executed, durable, left_pending, write, select, get, put, claim, delete, connect,
}
use gmail_b1_gateway.Gateway.Persistence.Refines.{
  Call, get_call, put_call, claim_call, delete_call, serve,
}
use gmail_b1_gateway.Gateway.Persistence.History.{
  Attempt, run, returned, specified_all, run-eq-returned,
}

abbrev empty : Sqlite Kv
empty = record { conn = record { committed = []; pending = none; closed = false }; broken = false }

abbrev fine : Faults
fine = record {
  execute = executed;
  commit = durable;
  rollback_raises = false;
  close_raises = false;
}

abbrev full_disk : Faults
full_disk = record fine { commit = left_pending }

abbrev worse : Faults
worse = record full_disk { rollback_raises = true }

abbrev entry : Fields
entry = field "k" (str "v") end

abbrev under : Faults → Call → Attempt
under x call = record { call = call; writing = x; reading = fine }

abbrev bad_day : List Attempt
bad_day =
    under fine (put_call "a" entry)
    ∷ under full_disk (put_call "b" entry)
    ∷ under fine (claim_call "c" entry)
    ∷ under worse (delete_call "a")
    ∷ under fine (put_call "d" entry)
    ∷ []

only_returned : returned bad_day empty ≡ put_call "a" entry ∷ claim_call "c" entry ∷ []
unfolding returned serve put claim delete write lookup insert erase
only_returned = refl

evicted : (serve fine fine (get_call "a") (run bad_day empty)).0 ≡ err connection_evicted
unfolding run serve get select put claim delete write lookup insert erase
evicted = refl

weak_mode : connect {T = Kv} "DELETE" (pos 2) [] ≡ err not_durable
unfolding connect
weak_mode = refl

upper_case : connect "WAL" (pos 2) [] ≡ ok empty
unfolding connect
upper_case = refl

run-eq-returned_example :
    (run bad_day empty).conn.committed ≡ specified_all (returned bad_day empty) []
run-eq-returned_example = run-eq-returned bad_day empty (inr refl)
