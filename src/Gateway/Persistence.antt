-- ===== src/Gateway/Persistence.antt =====
-- gateway/persistence.py: the key-value table and the append-only table in SQLite, and what they do
-- when a write fails. A row's JSON text is the record that it holds.
pub mod Writes
pub mod Refines
pub mod History
use gmail_b1_gateway.Prelude.{
  ℕ, ◌+◌, String, Bool, true, false, not, ◌&&◌, ◌||◌, Option, none, some, is_some, List, [], ◌∷◌,
  map, ℤ, pos, ltb_ℤ, codes, leb, beq, if◌then◌else◌,
}
use gmail_b1_gateway.Json.{Fields}
use gmail_b1_gateway.Errors.{
  Result, ok, err, connection_evicted, database_error, not_durable, Action, pure, raise, gets,
  ◌>>=◌, ◌>>◌, raise_if, zoom,
}
use gmail_b1_gateway.Dict.{Dict}
use gmail_b1_gateway.Store.Backend.{
  Kv, AppendLog, get as kv_get, put as kv_put, claim as kv_claim, delete as kv_delete,
  append as log_append,
}

-- An sqlite3 connection to a database with one table: what is committed, and what its open transaction
-- has made of that.
pub record Connection (T : Type 0) : Type 0 where
  pub committed : T
  pub pending : Option T
  pub closed : Bool

pub record Sqlite (T : Type 0) : Type 0 where
  pub conn : Connection T
  pub broken : Bool

-- How a statement ends: one that raises may have opened the transaction.
pub data Execute : Type 0 where
  executed refused refused_in_transaction : Execute

-- How a commit ends: one that raises leaves the transaction open, or SQLite has rolled it back.
pub data Commit : Type 0 where
  durable left_pending rolled_back : Commit

-- What one call meets.
pub record Faults : Type 0 where
  pub execute : Execute
  pub commit : Commit
  pub rollback_raises : Bool
  pub close_raises : Bool

abbrev is_executed : Execute → Bool
is_executed executed = true
is_executed _ = false

module _ {T : Type 0} where
  -- What the connection's own statements see.
  abbrev pub view : Connection T → T
  view c = elim c.pending [ some t ↦ t | none ↦ c.committed ]

  abbrev execute : Execute → (T → T) → Action (Connection T) (Unit {0})
  execute x f c = if c.closed then (err database_error, c) else elim x [
    | executed ↦ (ok tt, record c { pending = some (f (view c)) })
    | refused ↦ (err database_error, c)
    | refused_in_transaction ↦ (err database_error, record c { pending = some (view c) })
  ]

  abbrev commit : Commit → Action (Connection T) (Unit {0})
  commit x c = if c.closed then (err database_error, c) else elim x [
    | durable ↦ (ok tt, record c { committed = view c; pending = none })
    | left_pending ↦ (err database_error, c)
    | rolled_back ↦ (err database_error, record c { pending = none })
  ]

  abbrev rollback : Bool → Action (Connection T) (Unit {0})
  rollback raises c =
      if c.closed || raises then (err database_error, c) else (ok tt, record c { pending = none })

  -- `close` drops an open transaction.
  abbrev close_connection : Bool → Connection T → Connection T
  close_connection raises c = if raises then c else record c { pending = none; closed = true }

  -- `_ensure_live`
  abbrev ensure_live : Action (Sqlite T) (Unit {0})
  ensure_live s = (if s.broken then err connection_evicted else ok tt, s)

  abbrev after_rollback : Faults → Result (Unit {0}) × Connection T → Sqlite T
  after_rollback x (ok _, c) = record { conn = c; broken = false }
  after_rollback x (err e, c) = record { conn = close_connection x.close_raises c; broken = true }

  -- `_discard_failed_write`, called where the connection is not broken yet.
  unfoldable pub discard_failed_write : Faults → Connection T → Sqlite T
  discard_failed_write x c = after_rollback x (rollback x.rollback_raises c)

  abbrev after_write : Faults → Result (Unit {0}) × Connection T → Result (Unit {0}) × Sqlite T
  after_write x (ok _, c) = (ok tt, record { conn = c; broken = false })
  after_write x (err e, c) = (err e, discard_failed_write x c)

  -- `execute` and `commit` of one write, with the recovery that every mutator has.
  unfoldable pub write : Faults → (T → T) → Action (Sqlite T) (Unit {0})
  unfolding discard_failed_write
  write x f = ensure_live >> λ s. after_write x ((execute x.execute f >> commit x.commit) s.conn)

  abbrev raise_if_unreadable : Faults → Action (Sqlite T) (Unit {0})
  raise_if_unreadable x s =
      (if s.conn.closed || not (is_executed x.execute) then err database_error else ok tt, s)

  -- A `SELECT`, which opens no transaction.
  unfoldable pub select : {A : Type 0} → Faults → (T → A) → Action (Sqlite T) A
  select x f = do ensure_live; raise_if_unreadable x; gets (λ s. f (view s.conn))

  -- `close`
  unfoldable pub close : Faults → Action (Sqlite T) (Unit {0})
  close x s = (
    if x.close_raises then err database_error else ok tt,
    record s { conn = close_connection x.close_raises s.conn },
  )

module _ (x : Faults) where
  -- `SqliteKV`
  unfoldable pub get : String → Action (Sqlite Kv) (Option Fields)
  get key = select x (kv_get key)

  unfoldable pub put : String → Fields → Action (Sqlite Kv) (Unit {0})
  put key value = write x (kv_put key value)

  -- `ON CONFLICT(key) DO NOTHING`, and whether the row count is 1.
  unfoldable pub claim : String → Fields → Action (Sqlite Kv) Bool
  claim key value = do
    won ← gets (λ s. (kv_claim key value (view s.conn)).0)
    write x (λ kv. (kv_claim key value kv).1)
    pure won

  unfoldable pub delete : String → Action (Sqlite Kv) (Unit {0})
  delete key = write x (kv_delete key)

  abbrev pub write_result : String → Result (Option Fields) → Action (Sqlite Kv) (Option Fields)
  write_result key (err e) = raise e
  write_result key (ok none) = pure none
  write_result key (ok (some value)) = write x (kv_put key value) >> pure (some value)

  -- `fn` may raise; `ABORT` is `none`. The `SELECT` and the write may fail on their own.
  unfoldable pub update :
      Faults
      → String
      → (Option Fields → Result (Option Fields))
      → Action (Sqlite Kv) (Option Fields)
  update reading key fn = do current ← select reading (kv_get key); write_result key (fn current)

  unfoldable pub values : Action (Sqlite Kv) (List Fields)
  values = select x (map (λ row. row.1))

  -- `SqliteAppendLog`
  unfoldable pub append : Fields → Action (Sqlite AppendLog) (Unit {0})
  append entry = write x (log_append entry)

  unfoldable pub entries : Action (Sqlite AppendLog) (List Fields)
  entries = select x (λ log. log)

-- `str(mode).lower()` against "wal".
abbrev lower : ℕ → ℕ
lower c = if leb 65 c && leb c 90 then c + 32 else c

abbrev same_codes : List ℕ → List ℕ → Bool
same_codes [] [] = true
same_codes [] (d ∷ ds) = false
same_codes (c ∷ cs) [] = false
same_codes (c ∷ cs) (d ∷ ds) = let rest = same_codes cs ds in beq (lower c) d && rest

-- `_connect`, on what the two PRAGMA statements answer, and the table that it finds or makes.
unfoldable pub connect : {T : Type 0} → String → ℤ → T → Result (Sqlite T)
connect mode sync table =
    if not (same_codes (codes mode) (codes "wal")) || ltb_ℤ sync (pos 2)
    then err not_durable
    else ok (record {
      conn = record { committed = table; pending = none; closed = false };
      broken = false;
    })
