-- ===== src/Gateway/Persistence/Refines.antt =====
-- gateway/persistence.py: `SqliteKV` under any faults, against the table of store/backend.py.
use gmail_b1_gateway.Prelude.{
  String, ◌≡◌, inl, inr, none, some, refl, arith, ap, ◌∙◌, sym, Bool, Option, List, map,
}
use gmail_b1_gateway.Json.{Fields}
use gmail_b1_gateway.Errors.{Error, Result, ok, err, Result-cases, Action, map_ok}
use gmail_b1_gateway.Store.Backend.{
  Kv, get as kv_get, put as kv_put, claim as kv_claim, delete as kv_delete,
}
use gmail_b1_gateway.Gateway.Persistence.{
  Sqlite, Faults, view, write, select, get, put, claim, delete, update, values, write_result,
}
use gmail_b1_gateway.Gateway.Persistence.Writes.{
  IsClean, Wrote, write-Wrote, write_broken, select_ok, select_state,
}

-- A call of the table; the function of `update` may raise, and `none` is its `ABORT`.
pub data Call : Type 0 where
  get_call : String → Call
  put_call : String → Fields → Call
  claim_call : String → Fields → Call
  delete_call : String → Call
  update_call : String → (Option Fields → Result (Option Fields)) → Call
  values_call : Call

pub data Answer : Type 0 where
  nothing : Answer
  row : Option Fields → Answer
  won : Bool → Answer
  rows : List Fields → Answer

-- The call on the table of store/backend.py.
abbrev stored : String → Result (Option Fields) → Kv → Result Answer × Kv
stored key (err e) kv = (err e, kv)
stored key (ok none) kv = (ok (row none), kv)
stored key (ok (some value)) kv = (ok (row (some value)), kv_put key value kv)

unfoldable pub specified : Call → Action Kv Answer
specified (get_call key) kv = (ok (row (kv_get key kv)), kv)
specified (put_call key value) kv = (ok nothing, kv_put key value kv)
specified (claim_call key value) kv = let (b, kv') = kv_claim key value kv in (ok (won b), kv')
specified (delete_call key) kv = (ok nothing, kv_delete key kv)
specified (update_call key fn) kv = stored key (fn (kv_get key kv)) kv
specified values_call kv = (ok (rows (map (λ r. r.1) kv)), kv)

abbrev answered : {A S : Type 0} → (A → Answer) → Action S A → Action S Answer
answered f m s = let (r, t) = m s in (map_ok f r, t)

-- The call on the SQLite table, with what its statements meet.
unfoldable pub serve : Faults → Faults → Call → Action (Sqlite Kv) Answer
serve x y (get_call key) = answered row (get x key)
serve x y (put_call key value) = answered (λ _. nothing) (put x key value)
serve x y (claim_call key value) = answered won (claim x key value)
serve x y (delete_call key) = answered (λ _. nothing) (delete x key)
serve x y (update_call key fn) = answered row (update x y key fn)
serve x y values_call = answered rows (values x)

-- A call that returned did what is specified; one that raised did nothing.
abbrev pub Refines : Call → Sqlite Kv → Result Answer × Sqlite Kv → Type 0
Refines call s (ok a, t) = (specified call s.conn.committed ≡ (ok a, t.conn.committed)) × IsClean t
Refines call s (err e, t) = (t.conn.committed ≡ s.conn.committed) × IsClean t

map_ok-map_ok :
    {A B C : Type 0} (g : B → C) (f : A → B) (r : Result A)
    → map_ok g (map_ok f r) ≡ map_ok (λ a. g (f a)) r
map_ok-map_ok g f (ok a) = refl
map_ok-map_ok g f (err e) = refl

module _ (call : Call) (s : Sqlite Kv) where
  of_write :
      (f : Kv → Kv) (a : Answer) (r : Result (Unit {0}) × Sqlite Kv)
      → specified call s.conn.committed ≡ (ok a, f s.conn.committed)
      → Wrote f s r
      → Refines call s (map_ok (λ _. a) r.0, r.1)
  of_write f a (ok _, t) spec (e, clean) = (spec ∙ ap (λ kv. (ok a, kv)) (sym e), clean)
  of_write f a (err x, t) spec h = h

  of_select :
      {A : Type 0} (x : Faults) (f : Kv → A) (answer : A → Answer)
      → specified call s.conn.committed ≡ (ok (answer (f s.conn.committed)), s.conn.committed)
      → IsClean s
      → Refines call s (map_ok answer (select x f s).0, (select x f s).1)
  of_select x f answer spec clean = elim (Result-cases (select x f s).0) [
    | inl (a, e) ↦
        let read = select_ok x f s clean e in
        rw (e, select_state x f s)
          (spec ∙ ap (λ b. (ok (answer b), s.conn.committed)) (sym read), clean)
    | inr (e, h) ↦ rw (h, select_state x f s) (refl, clean)
  ]

module _ (x y : Faults) (s : Sqlite Kv) (clean : IsClean s) where
  get-Refines : (key : String) → Refines (get_call key) s (serve x y (get_call key) s)
  unfolding serve get specified
  get-Refines key = of_select (get_call key) s x (kv_get key) row refl clean

  put-Refines :
      (key : String) (value : Fields)
      → Refines (put_call key value) s (serve x y (put_call key value) s)
  unfolding serve put specified
  put-Refines key value =
      of_write (put_call key value) s (kv_put key value) nothing (write x (kv_put key value) s) refl
        (write-Wrote x (kv_put key value) s clean)

  delete-Refines : (key : String) → Refines (delete_call key) s (serve x y (delete_call key) s)
  unfolding serve delete specified
  delete-Refines key =
      of_write (delete_call key) s (kv_delete key) nothing (write x (kv_delete key) s) refl
        (write-Wrote x (kv_delete key) s clean)

  values-Refines : Refines values_call s (serve x y values_call s)
  unfolding serve values specified
  values-Refines = of_select values_call s x (map (λ r. r.1)) rows refl clean

  claim_lem :
      (key : String) (value : Fields)
      → let (r, t) = write x (λ kv. (kv_claim key value kv).1) s in
        claim x key value s ≡ (map_ok (λ _. (kv_claim key value (view s.conn)).0) r, t)
  unfolding claim
  claim_lem key value =
      let insert = λ (kv : Kv). (kv_claim key value kv).1 in
      elim (Result-cases (write x insert s).0) [
        | inl (_, e) ↦ ground (arith, e)
        | inr (_, e) ↦ ground (arith, e)
      ]

  claim_live :
      (key : String) (value : Fields)
      → view s.conn ≡ s.conn.committed
      → Refines (claim_call key value) s (serve x y (claim_call key value) s)
  unfolding serve specified
  claim_live key value same =
      let insert = λ (kv : Kv). (kv_claim key value kv).1 in
      let first = (kv_claim key value (view s.conn)).0 in
      let spec : specified (claim_call key value) s.conn.committed
          ≡ (ok (won first), insert s.conn.committed) =
        ap (λ kv. (ok (won (kv_claim key value kv).0), insert s.conn.committed)) (sym same) in
      let done =
        of_write (claim_call key value) s insert (won first) (write x insert s) spec
          (write-Wrote x insert s clean) in
      rw (claim_lem key value)
        (rw (map_ok-map_ok won (λ (_ : Unit {0}). first) (write x insert s).0) done)

  claim-Refines :
      (key : String) (value : Fields)
      → Refines (claim_call key value) s (serve x y (claim_call key value) s)
  unfolding serve
  claim-Refines key value = elim clean [
    | inl broken ↦
        rw (claim_lem key value)
          (rw (write_broken x (λ kv. (kv_claim key value kv).1) s broken) (refl, inl broken))
    | inr settled ↦ claim_live key value (ground (arith, settled))
  ]

  write_result_lem :
      (key : String) (value : Fields)
      → let (r, t) = write x (kv_put key value) s in
        write_result x key (ok (some value)) s ≡ (map_ok (λ _. some value) r, t)
  write_result_lem key value = elim (Result-cases (write x (kv_put key value) s).0) [
    | inl (_, e) ↦ ground (arith, e)
    | inr (_, e) ↦ ground (arith, e)
  ]

  -- What `update` does with the row that it read.
  update_read :
      (key : String) (fn : Option Fields → Result (Option Fields)) (r : Result (Option Fields))
      → r ≡ fn (kv_get key s.conn.committed)
      → let (a, t) = write_result x key r s in Refines (update_call key fn) s (map_ok row a, t)
  unfolding specified
  update_read key fn (err e) h = (refl, clean)
  update_read key fn (ok none) h = (ap (λ r. stored key r s.conn.committed) (sym h), clean)
  update_read key fn (ok (some value)) h =
      let spec : specified (update_call key fn) s.conn.committed
          ≡ (ok (row (some value)), kv_put key value s.conn.committed) =
        ap (λ r. stored key r s.conn.committed) (sym h) in
      let done =
        of_write (update_call key fn) s (kv_put key value) (row (some value))
          (write x (kv_put key value) s) spec (write-Wrote x (kv_put key value) s clean) in
      rw (write_result_lem key value) (
        rw (map_ok-map_ok row (λ (_ : Unit {0}). some value) (write x (kv_put key value) s).0) done)

  update_unread :
      (key : String) (fn : Option Fields → Result (Option Fields)) (e : Error)
      → (select y (kv_get key) s).0 ≡ err e
      → update x y key fn s ≡ (err e, s)
  unfolding update
  update_unread key fn e h = ground (arith, h, select_state y (kv_get key) s)

  update_reads :
      (key : String) (fn : Option Fields → Result (Option Fields)) (current : Option Fields)
      → (select y (kv_get key) s).0 ≡ ok current
      → update x y key fn s ≡ write_result x key (fn current) s
  unfolding update
  update_reads key fn current h = ground (arith, h, select_state y (kv_get key) s)

  update-Refines :
      (key : String) (fn : Option Fields → Result (Option Fields))
      → Refines (update_call key fn) s (serve x y (update_call key fn) s)
  unfolding serve
  update-Refines key fn = elim (Result-cases (select y (kv_get key) s).0) [
    | inr (e, h) ↦ rw (update_unread key fn e h) (refl, clean)
    | inl (current, h) ↦
        let read = select_ok y (kv_get key) s clean h in
        rw (update_reads key fn current h) (update_read key fn (fn current) (ap fn read))
  ]

-- Whatever its statements meet, a call of the SQLite table that returns has answered, and committed,
-- what the same call of the in-memory table does; one that raises has committed nothing; and both leave
-- no write in an open transaction of a connection that is still used.
pub serve-Refines :
    (x y : Faults) (call : Call) (s : Sqlite Kv) → IsClean s → Refines call s (serve x y call s)
serve-Refines x y (get_call key) s clean = get-Refines x y s clean key
serve-Refines x y (put_call key value) s clean = put-Refines x y s clean key value
serve-Refines x y (claim_call key value) s clean = claim-Refines x y s clean key value
serve-Refines x y (delete_call key) s clean = delete-Refines x y s clean key
serve-Refines x y (update_call key fn) s clean = update-Refines x y s clean key fn
serve-Refines x y values_call s clean = values-Refines x y s clean
