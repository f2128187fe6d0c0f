-- ===== src/Json.antt =====
-- JSON-like values: the dicts that the stores keep and that arrive from outside. A float is the text
-- that Python prints of it.
use gmail_b1_gateway.Prelude.{String, Bool, Option, none, some, ℤ, ◌==◌, if◌then◌else◌}

mutual
  pub data Value : Type 0 where
    null : Value
    boolean : Bool → Value
    int : ℤ → Value
    float : String → Value
    str : String → Value
    obj : Fields → Value
    arr : Items → Value

  pub data Items : Type 0 where
    nil : Items
    cons : Value → Items → Items

  pub data Fields : Type 0 where
    end : Fields
    field : String → Value → Fields → Fields

-- `str | None` as a value.
abbrev pub opt_str : Option String → Value
opt_str none = null
opt_str (some s) = str s

-- `d[k]` and `d.get(k)` on an object's members; `none` is a missing key.
abbrev pub member : String → Fields → Option Value
member k end = none
member k (field j v fs) = if j == k then some v else member k fs
