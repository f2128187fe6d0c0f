-- ===== src/Store/Backend.antt =====
-- store/backend.py: the keyed record store and the append-only log, as their in-memory classes
-- keep them. A record is a dict; `get` and `put` copy it, so nothing is shared.
use gmail_b1_gateway.Prelude.{String, Bool, true, false, Option, List, [], ◌∷◌, ◌++◌}
use gmail_b1_gateway.Dict.{Dict, lookup, insert, erase}
use gmail_b1_gateway.Json.{Fields}

-- `InMemoryKV`
abbrev pub Kv : Type 0
Kv = Dict Fields

abbrev pub get : String → Kv → Option Fields
get key kv = lookup key kv

abbrev pub put : String → Fields → Kv → Kv
put key value kv = insert key value kv

-- `claim`: put-if-absent, and whether this caller won.
abbrev pub claim : String → Fields → Kv → Bool × Kv
claim key value kv = elim (lookup key kv) [
  | Option.none ↦ (true, insert key value kv)
  | Option.some _ ↦ (false, kv)
]

abbrev pub delete : String → Kv → Kv
delete key kv = erase key kv

-- `InMemoryAppendLog`
abbrev pub AppendLog : Type 0
AppendLog = List Fields

abbrev pub append : Fields → AppendLog → AppendLog
append entry log = log ++ entry ∷ []
