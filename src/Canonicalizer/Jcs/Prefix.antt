-- ===== src/Canonicalizer/Jcs/Prefix.antt =====
-- canonicalizer/jcs.py: a value and what follows it are read off the text.
use gmail_b1_gateway.Prelude.{
  ℕ, ◌<◌, String, ◌≡◌, ◌||◌, ◌&&◌, some, List, [], ◌∷◌, ◌++◌, arith, inl, inr, ℤ, pos, negsuc, beq,
  leb, if◌then◌else◌, Option-cases,
}
use gmail_b1_gateway.Json.{
  Value, Items, Fields, null, boolean, int, float, str, arr, obj, cons, field,
}
use gmail_b1_gateway.Keystore.Decimal.{EndsNumber, decimal_head}
use gmail_b1_gateway.Canonicalizer.Jcs.{
  serialize_string, serialize_number, joined, joined_rest, serialize, serialize_items,
  serialize_members,
}

-- What a first code point says of a value's type.
abbrev pub kind_of_head : ℕ → ℕ
kind_of_head c =
    if beq c 110
    then 0
    else if beq c 116 || beq c 102
    then 1
    else if beq c 34
    then 2
    else if beq c 91
    then 3
    else if beq c 123
    then 4
    else if beq c 45 || (leb 48 c && leb c 57)
    then 5
    else 6

abbrev pub kind : Value → ℕ
kind null = 0
kind (boolean b) = 1
kind (str s) = 2
kind (arr vs) = 3
kind (obj d) = 4
kind (int n) = 5
kind (float f) = 6

-- The text is not empty, and its head is that of a value of this kind.
abbrev pub Heads : List ℕ → ℕ → Type 0
Heads [] k = ⊥
Heads (c ∷ cs) k = (kind_of_head c ≡ k) × (k < 6)

serialize_number_head : (n : ℤ) (t : List ℕ) → serialize_number n ≡ some t → Heads t 5
unfolding serialize_number
serialize_number_head (pos n) [] h = let (d, ds, at, digit) = decimal_head n in ground (arith, at)
serialize_number_head (pos n) (c ∷ cs) h =
    let (d, ds, at, digit) = decimal_head n in ground (arith, at, digit)
serialize_number_head (negsuc n) [] h = ground arith
serialize_number_head (negsuc n) (c ∷ cs) h = ground arith

pub serialize_head : (v : Value) (t : List ℕ) → serialize v ≡ some t → Heads t (kind v)
unfolding serialize
serialize_head (int n) t h = serialize_number_head n t h
serialize_head v [] h = ground arith
serialize_head v (c ∷ cs) h = ground arith

-- The parts of an array's and of an object's text.
pub items_ok :
    (v : Value) (vs : Items) (ts : List (List ℕ))
    → serialize_items (cons v vs) ≡ some ts
    → (t : List ℕ) × (us : List (List ℕ)) × (serialize v ≡ some t)
      × (serialize_items vs ≡ some us)
      × (ts ≡ t ∷ us)
unfolding serialize_items
items_ok v vs ts h = elim (Option-cases (serialize v)) [
  | inl e ↦ absurd (ground (arith, e))
  | inr (t, e) ↦ elim (Option-cases (serialize_items vs)) [
    | inl f ↦ absurd (ground (arith, e, f))
    | inr (us, f) ↦ (t, us, e, f, ground (arith, e, f))
  ]
]

pub members_ok :
    (k : String) (v : Value) (d : Fields) (ts : List (List ℕ))
    → serialize_members (field k v d) ≡ some ts
    → (t : List ℕ) × (us : List (List ℕ)) × (serialize v ≡ some t)
      × (serialize_members d ≡ some us)
      × (ts ≡ (serialize_string k ++ 58 ∷ t) ∷ us)
unfolding serialize_members
members_ok k v d ts h = elim (Option-cases (serialize v)) [
  | inl e ↦ absurd (ground (arith, e))
  | inr (t, e) ↦ elim (Option-cases (serialize_members d)) [
    | inl f ↦ absurd (ground (arith, e, f))
    | inr (us, f) ↦ (t, us, e, f, ground (arith, e, f))
  ]
]

pub array_ok :
    (vs : Items) (t : List ℕ)
    → serialize (arr vs) ≡ some t
    → (ts : List (List ℕ)) × (serialize_items vs ≡ some ts) × (t ≡ 91 ∷ (joined ts ++ 93 ∷ []))
unfolding serialize
array_ok vs t h = elim (Option-cases (serialize_items vs)) [
  | inl f ↦ absurd (ground (arith, f))
  | inr (ts, f) ↦ (ts, f, ground (arith, f))
]

pub object_ok :
    (d : Fields) (t : List ℕ)
    → serialize (obj d) ≡ some t
    → (ts : List (List ℕ)) × (serialize_members d ≡ some ts) × (t ≡ 123 ∷ (joined ts ++ 125 ∷ []))
unfolding serialize
object_ok d t h = elim (Option-cases (serialize_members d)) [
  | inl f ↦ absurd (ground (arith, f))
  | inr (ts, f) ↦ (ts, f, ground (arith, f))
]

-- What follows a value inside an array or an object does not go on with a number.
pub rest_ends :
    (ts : List (List ℕ)) (c : ℕ) (r : List ℕ) → 57 < c → EndsNumber (joined_rest ts ++ c ∷ r)
rest_ends [] c r h = inr h
rest_ends (t ∷ ts) c r h = inl (omega arith)
