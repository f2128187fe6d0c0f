-- ===== src/Canonicalizer/Jcs/Texts.antt =====
-- canonicalizer/jcs.py: strings, numbers and UTF-8 are read off their text.
use Prim.Native.Nat.{◌/◌, ◌%◌, ◌*◌}
use gmail_b1_gateway.Prelude.{
  ℕ, suc, ◌+◌, ◌-◌, ◌<◌, String, ◌≡◌, ◌≢◌, refl, sym, ap, ◌∙◌, some, List, [], ◌∷◌, ◌++◌, arith,
  inl, inr, ◌⊎◌, ℤ, pos, negsuc, codes, codes_injective, beq, if◌then◌else◌, ltb, Option-cases,
  Bool-cases,
}
use mathlib.Core.List.{append_assoc}
use gmail_b1_gateway.Keystore.Decimal.{EndsNumber, decimal_head, decimal_prefix}
use gmail_b1_gateway.Canonicalizer.Jcs.{
  hex_digit, short_escape, escape, escape_all, serialize_string, serialize_number, utf8, encode,
}

-- The code point that an escape stands for, and what follows it.
abbrev long_escape : ℕ → ℕ
long_escape c = if ltb c 58 then c - 48 else c - 87

abbrev letter_code : ℕ → ℕ
letter_code e =
    if beq e 98
    then 8
    else if beq e 116
    then 9
    else if beq e 110
    then 10
    else if beq e 102
    then 12
    else if beq e 114
    then 13
    else e

abbrev after_backslash : List ℕ → ℕ × List ℕ
after_backslash (e ∷ a ∷ b ∷ c ∷ d ∷ r) =
    if beq e 117
    then (long_escape c * 16 + long_escape d, r)
    else (letter_code e, a ∷ b ∷ c ∷ d ∷ r)
after_backslash (e ∷ r) = (letter_code e, r)
after_backslash [] = (0, [])

unescape : List ℕ → ℕ × List ℕ
unescape [] = (0, [])
unescape (c ∷ r) = if beq c 92 then after_backslash r else (c, r)

unescape-escape : (c : ℕ) (r : List ℕ) → unescape (escape c ++ r) ≡ (c, r)
unfolding unescape escape
unescape-escape c r = ground arith

-- The first code point of an escape is no closing quote.
escape_head : (c : ℕ) → (h : ℕ) × (t : List ℕ) × (escape c ≡ h ∷ t) × ((h < 34) ⊎ (34 < h))
unfolding escape
escape_head c = elim (Option-cases (short_escape c)) [
  | inr (letter, e) ↦ (92, letter ∷ [], ground (arith, e), inr (omega arith))
  | inl long ↦ elim (Bool-cases (ltb c 32)) [
    | inl control ↦ (
      92,
      117 ∷ 48 ∷ 48 ∷ hex_digit (c / 16) ∷ hex_digit (c % 16) ∷ [],
      ground (arith, long, control),
      inr (omega arith),
    )
    | inr plain ↦ (c, [], ground (arith, long, plain), ground (arith, long))
  ]
]

escape_all_prefix :
    (cs ds r r' : List ℕ)
    → escape_all cs ++ 34 ∷ r ≡ escape_all ds ++ 34 ∷ r'
    → (cs ≡ ds) × (r ≡ r')
escape_all_prefix [] [] r r' e = (refl, cc)
escape_all_prefix [] (d ∷ ds) r r' e =
    let (h, t, at, differs) = escape_head d in absurd (ground (arith, at))
escape_all_prefix (c ∷ cs) [] r r' e =
    let (h, t, at, differs) = escape_head c in absurd (ground (arith, at))
escape_all_prefix (c ∷ cs) (d ∷ ds) r r' e =
    let left = append_assoc (escape c) (escape_all cs) (34 ∷ r) in
    let right = append_assoc (escape d) (escape_all ds) (34 ∷ r') in
    let same : (c, escape_all cs ++ 34 ∷ r) ≡ (d, escape_all ds ++ 34 ∷ r') =
      sym (unescape-escape c (escape_all cs ++ 34 ∷ r))
      ∙ ap unescape (sym left ∙ e ∙ right)
      ∙ unescape-escape d (escape_all ds ++ 34 ∷ r') in
    let (rest, after) = escape_all_prefix cs ds r r' (ap (λ x. x.1) same) in
    (cc (ap (λ x. x.0) same, rest), after)

-- A string and what follows it are read off their text.
pub serialize_string-prefix :
    (s t : String) (r r' : List ℕ)
    → serialize_string s ++ r ≡ serialize_string t ++ r'
    → (s ≡ t) × (r ≡ r')
serialize_string-prefix s t r r' e =
    let left = append_assoc (escape_all (codes s)) (34 ∷ []) r in
    let right = append_assoc (escape_all (codes t)) (34 ∷ []) r' in
    let inner : escape_all (codes s) ++ 34 ∷ r ≡ escape_all (codes t) ++ 34 ∷ r' =
      cc (e, left, right) in
    let (same, after) = escape_all_prefix (codes s) (codes t) r r' inner in
    (codes_injective s t same, after)

-- A number and what follows it, if that does not begin with a digit.
pub serialize_number-prefix :
    (m n : ℤ) (t t' r r' : List ℕ)
    → serialize_number m ≡ some t
    → serialize_number n ≡ some t'
    → EndsNumber r
    → EndsNumber r'
    → t ++ r ≡ t' ++ r'
    → (m ≡ n) × (r ≡ r')
unfolding serialize_number
serialize_number-prefix (pos m) (pos n) t t' r r' h k f g e =
    let (same, after) = decimal_prefix m n r r' f g (ground (arith, h, k, e)) in
    (ap pos same, after)
serialize_number-prefix (negsuc m) (negsuc n) t t' r r' h k f g e =
    let (same, after) = decimal_prefix (suc m) (suc n) r r' f g (ground (arith, h, k, e)) in
    (cc same, after)
serialize_number-prefix (pos m) (negsuc n) t t' r r' h k f g e =
    let (d, ds, at, digit) = decimal_head m in absurd (ground (arith, h, k, e, at, digit))
serialize_number-prefix (negsuc m) (pos n) t t' r r' h k f g e =
    let (d, ds, at, digit) = decimal_head n in absurd (ground (arith, h, k, e, at, digit))

utf8-ne-nil : (c : ℕ) (r : List ℕ) → utf8 c ++ r ≢ []
unfolding utf8
utf8-ne-nil c r e = ground arith

utf8-injective : (c d : ℕ) (r r' : List ℕ) → utf8 c ++ r ≡ utf8 d ++ r' → (c ≡ d) × (r ≡ r')
unfolding utf8
utf8-injective c d r r' e = ground arith

pub encode-injective : (cs ds : List ℕ) → encode cs ≡ encode ds → cs ≡ ds
encode-injective [] [] e = refl
encode-injective [] (d ∷ ds) e = absurd (utf8-ne-nil d (encode ds) (sym e))
encode-injective (c ∷ cs) [] e = absurd (utf8-ne-nil c (encode cs) e)
encode-injective (c ∷ cs) (d ∷ ds) e =
    let (same, rest) = utf8-injective c d (encode cs) (encode ds) e in
    cc (same, encode-injective cs ds rest)
