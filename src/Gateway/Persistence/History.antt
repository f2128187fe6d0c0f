-- ===== src/Gateway/Persistence/History.antt =====
-- gateway/persistence.py: a run of calls on one SQLite table, some of which fail.
use gmail_b1_gateway.Prelude.{◌≡◌, refl, sym, ap, ◌∙◌, List, [], ◌∷◌}
use gmail_b1_gateway.Errors.{Result, ok, err}
use gmail_b1_gateway.Store.Backend.{Kv}
use gmail_b1_gateway.Gateway.Persistence.{Sqlite, Faults}
use gmail_b1_gateway.Gateway.Persistence.Writes.{IsClean}
use gmail_b1_gateway.Gateway.Persistence.Refines.{
  Call, Answer, specified, serve, Refines, serve-Refines,
}

-- A call, and what its `SELECT` and its write meet.
pub record Attempt : Type 0 where
  pub call : Call
  pub writing : Faults
  pub reading : Faults

abbrev pub attempt : Attempt → Sqlite Kv → Result Answer × Sqlite Kv
attempt x s = serve x.writing x.reading x.call s

unfoldable pub run : List Attempt → Sqlite Kv → Sqlite Kv
run [] s = s
run (x ∷ xs) s = run xs (attempt x s).1

abbrev keep_if_ok : Result Answer → Call → List Call → List Call
keep_if_ok (ok a) call calls = call ∷ calls
keep_if_ok (err e) call calls = calls

-- The calls that returned.
unfoldable pub returned : List Attempt → Sqlite Kv → List Call
returned [] s = []
returned (x ∷ xs) s = keep_if_ok (attempt x s).0 x.call (returned xs (attempt x s).1)

unfoldable pub specified_all : List Call → Kv → Kv
specified_all [] kv = kv
specified_all (call ∷ calls) kv = specified_all calls (specified call kv).1

-- The table that a call left, by whether it returned.
after_call :
    (call : Call) (calls : List Call) (s : Sqlite Kv) (r : Result Answer × Sqlite Kv)
    → Refines call s r
    → specified_all calls r.1.conn.committed
      ≡ specified_all (keep_if_ok r.0 call calls) s.conn.committed
unfolding specified_all
after_call call calls s (ok a, t) (e, clean) = ap (λ x. specified_all calls x.1) (sym e)
after_call call calls s (err x, t) (e, clean) = ap (specified_all calls) e

still-IsClean :
    (call : Call) (s : Sqlite Kv) (r : Result Answer × Sqlite Kv) → Refines call s r → IsClean r.1
still-IsClean call s (ok a, t) (e, clean) = clean
still-IsClean call s (err x, t) (e, clean) = clean

-- However the statements, commits and rollbacks of a run fail, the committed table is the one that the
-- calls which returned make of the table at the start, in their order: a call that raised is in no later
-- commit.
pub run-eq-returned :
    (xs : List Attempt) (s : Sqlite Kv)
    → IsClean s
    → (run xs s).conn.committed ≡ specified_all (returned xs s) s.conn.committed
unfolding run returned specified_all
run-eq-returned [] s clean = refl
run-eq-returned (x ∷ xs) s clean =
    let one = serve-Refines x.writing x.reading x.call s clean in
    run-eq-returned xs (attempt x s).1 (still-IsClean x.call s (attempt x s) one)
    ∙ after_call x.call (returned xs (attempt x s).1) s (attempt x s) one
