-- ===== src/Canonicalizer/Jcs.antt =====
-- canonicalizer/jcs.py: the canonical JSON text. A text is its code points up to the last step, which
-- encodes them as UTF-8. A `String` holds no lone surrogate, where Python's encoding would raise.
pub mod Texts
pub mod Prefix
pub mod Injective
use Prim.Native.Nat.{◌/◌, ◌%◌}
use gmail_b1_gateway.Prelude.{
  ℕ, zero, suc, ◌+◌, ◌-◌, String, Bool, true, false, ◌&&◌, ◌||◌, Option, none, some, List, [], ◌∷◌,
  ◌++◌, ℤ, pos, negsuc, codes, ltb, leb, beq, if◌then◌else◌,
}
use gmail_b1_gateway.Json.{
  Value, Items, Fields, null, boolean, int, float, str, arr, obj, nil, cons, end, field,
}
use gmail_b1_gateway.Keystore.Providers.{Bytes}
use gmail_b1_gateway.Keystore.Decimal.{decimal}

-- `_MAX_SAFE_INTEGER`
abbrev pub max_safe_integer : ℕ
max_safe_integer = 9007199254740991

-- A lowercase hexadecimal digit.
abbrev hex_digit : ℕ → ℕ
hex_digit n = if ltb n 10 then 48 + n else 87 + n

-- `_SHORT_ESCAPES.get(cp)`: the letter after the backslash.
abbrev short_escape : ℕ → Option ℕ
short_escape cp =
    if beq cp 8
    then some 98
    else if beq cp 9
    then some 116
    else if beq cp 10
    then some 110
    else if beq cp 12
    then some 102
    else if beq cp 13
    then some 114
    else if beq cp 34
    then some 34
    else if beq cp 92
    then some 92
    else none

-- What one code point adds to the text of a string.
unfoldable pub escape : ℕ → List ℕ
escape cp = elim (short_escape cp) [
  | some letter ↦ 92 ∷ letter ∷ []
  | none ↦
      if ltb cp 32
      then 92 ∷ 117 ∷ 48 ∷ 48 ∷ hex_digit (cp / 16) ∷ hex_digit (cp % 16) ∷ []
      else cp ∷ []
]

abbrev pub escape_all : List ℕ → List ℕ
escape_all [] = []
escape_all (cp ∷ cps) = escape cp ++ escape_all cps

-- `_serialize_string`
abbrev pub serialize_string : String → List ℕ
serialize_string s = 34 ∷ (escape_all (codes s) ++ 34 ∷ [])

-- `_serialize_number`; `none` is a `JcsError`.
unfoldable pub serialize_number : ℤ → Option (List ℕ)
serialize_number (pos n) = if leb n max_safe_integer then some (decimal n) else none
serialize_number (negsuc n) =
    if leb (suc n) max_safe_integer then some (45 ∷ decimal (suc n)) else none

-- UTF-16, each code unit as two bytes.
abbrev big_endian : ℕ → List ℕ → List ℕ
big_endian unit rest = (unit / 256) ∷ (unit % 256) ∷ rest

abbrev utf16 : List ℕ → List ℕ
utf16 [] = []
utf16 (cp ∷ cps) =
    let rest = utf16 cps in
    if ltb cp 65536
    then big_endian cp rest
    else big_endian (55296 + (cp - 65536) / 1024) (big_endian (56320 + (cp - 65536) % 1024) rest)

-- `_utf16_sort_key`
unfoldable pub utf16_sort_key : String → List ℕ
utf16_sort_key key = utf16 (codes key)

-- Python's `<=` of byte strings.
unfoldable pub le_bytes : List ℕ → List ℕ → Bool
le_bytes [] bs = true
le_bytes (a ∷ cs) [] = false
le_bytes (a ∷ cs) (b ∷ bs) = let rest = le_bytes cs bs in ltb a b || (beq a b && rest)

-- `sorted(value.items(), key=...)`: equal keys keep their order.
unfoldable pub insert_member : String → Value → Fields → Fields
insert_member k v end = field k v end
insert_member k v (field j w d) =
    if le_bytes (utf16_sort_key k) (utf16_sort_key j)
    then field k v (field j w d)
    else field j w (insert_member k v d)

unfoldable pub sorted : Fields → Fields
sorted end = end
sorted (field k v d) = insert_member k v (sorted d)

-- The value with the members of every object in the order in which they are serialized.
unfoldable mutual
  pub ordered : Value → Value
  ordered null = null
  ordered (boolean b) = boolean b
  ordered (int n) = int n
  ordered (float f) = float f
  ordered (str s) = str s
  ordered (arr vs) = arr (ordered_items vs)
  ordered (obj d) = obj (sorted (ordered_members d))

  pub ordered_items : Items → Items
  ordered_items nil = nil
  ordered_items (cons v vs) = cons (ordered v) (ordered_items vs)

  pub ordered_members : Fields → Fields
  ordered_members end = end
  ordered_members (field k v d) = field k (ordered v) (ordered_members d)

-- `",".join(texts)`
abbrev pub joined_rest : List (List ℕ) → List ℕ
joined_rest [] = []
joined_rest (t ∷ ts) = 44 ∷ (t ++ joined_rest ts)

abbrev pub joined : List (List ℕ) → List ℕ
joined [] = []
joined (t ∷ ts) = t ++ joined_rest ts

infixl 5 ◌>>=◌
abbrev pub ◌>>=◌ : {A B : Type 0} → Option A → (A → Option B) → Option B
none >>= f = none
some a >>= f = f a

-- `_serialize`, of a value whose members are in order.
unfoldable mutual
  pub serialize : Value → Option (List ℕ)
  serialize null = some (110 ∷ 117 ∷ 108 ∷ 108 ∷ [])
  serialize (boolean true) = some (116 ∷ 114 ∷ 117 ∷ 101 ∷ [])
  serialize (boolean false) = some (102 ∷ 97 ∷ 108 ∷ 115 ∷ 101 ∷ [])
  serialize (int n) = serialize_number n
  serialize (float f) = none
  serialize (str s) = some (serialize_string s)
  serialize (arr vs) = serialize_items vs >>= λ ts. some (91 ∷ (joined ts ++ 93 ∷ []))
  serialize (obj d) = serialize_members d >>= λ ts. some (123 ∷ (joined ts ++ 125 ∷ []))

  pub serialize_items : Items → Option (List (List ℕ))
  serialize_items nil = some []
  serialize_items (cons v vs) = serialize v >>= λ t. serialize_items vs >>= λ ts. some (t ∷ ts)

  pub serialize_members : Fields → Option (List (List ℕ))
  serialize_members end = some []
  serialize_members (field k v d) =
      serialize v >>= λ t. serialize_members d >>= λ ts. some ((serialize_string k ++ 58 ∷ t) ∷ ts)

-- One code point in UTF-8.
unfoldable pub utf8 : ℕ → List ℕ
utf8 cp =
    if ltb cp 128
    then cp ∷ []
    else if ltb cp 2048
    then (192 + cp / 64) ∷ (128 + cp % 64) ∷ []
    else if ltb cp 65536
    then (224 + cp / 4096) ∷ (128 + cp / 64 % 64) ∷ (128 + cp % 64) ∷ []
    else (240 + cp / 262144) ∷ (128 + cp / 4096 % 64) ∷ (128 + cp / 64 % 64) ∷ (128 + cp % 64) ∷ []

abbrev pub encode : List ℕ → Bytes
encode [] = []
encode (cp ∷ cps) = utf8 cp ++ encode cps

unfoldable pub canonicalize : Value → Option Bytes
unfolding serialize ordered sorted insert_member le_bytes utf16_sort_key serialize_number escape
    utf8 decimal
canonicalize value = serialize (ordered value) >>= λ t. some (encode t)
