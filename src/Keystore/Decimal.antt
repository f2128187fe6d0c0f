-- ===== src/Keystore/Decimal.antt =====
-- Python's `%d` for a number that is not negative: its decimal digits, as code points.
pub mod Canonical
use Prim.Native.Nat.{◌*◌, ◌/◌, ◌%◌}
use gmail_b1_gateway.Prelude.{
  ℕ, zero, suc, ◌+◌, ◌-◌, ◌≤◌, ◌<◌, ◌⊎◌, ◌≡◌, refl, sym, ap, ◌∙◌, inl, inr, List, [], ◌∷◌, ◌++◌,
  arith, ltb, if◌then◌else◌, Bool-cases,
}

-- With at least as much fuel as the number the digits are complete.
digits : ℕ → ℕ → List ℕ
digits zero n = (48 + n) ∷ []
digits (suc fuel) n =
    let higher = digits fuel (n / 10) in
    if ltb n 10 then (48 + n) ∷ [] else higher ++ (48 + n % 10) ∷ []

unfoldable pub decimal : ℕ → List ℕ
unfolding digits
decimal n = digits n n

-- The number that a row of digits stands for.
abbrev value_from : ℕ → List ℕ → ℕ
value_from acc [] = acc
value_from acc (c ∷ cs) = value_from (acc * 10 + (c - 48)) cs

value_from-append :
    (acc : ℕ) (cs ds : List ℕ) → value_from acc (cs ++ ds) ≡ value_from (value_from acc cs) ds
value_from-append acc [] ds = refl
value_from-append acc (c ∷ cs) ds = value_from-append (acc * 10 + (c - 48)) cs ds

value-digits : (fuel n : ℕ) → n ≤ fuel → value_from 0 (digits fuel n) ≡ n
unfolding digits
value-digits zero n h = omega arith
value-digits (suc fuel) n h = elim (Bool-cases (ltb n 10)) [
  | inl small ↦ rw small (omega arith)
  | inr large ↦
      rw large (rw value_from-append (ground (arith, value-digits fuel (n / 10) (ground arith))))
]

-- Every digit is a digit.
abbrev pub IsDigit : ℕ → Type 0
IsDigit c = (48 ≤ c) × (c ≤ 57)

abbrev AreDigits : List ℕ → Type 0
AreDigits [] = Unit
AreDigits (c ∷ cs) = IsDigit c × AreDigits cs

AreDigits-append : (cs : List ℕ) {c : ℕ} → AreDigits cs → IsDigit c → AreDigits (cs ++ c ∷ [])
AreDigits-append [] h l = (l, tt)
AreDigits-append (d ∷ cs) h l = (h.0, AreDigits-append cs h.1 l)

digits-AreDigits : (fuel n : ℕ) → n ≤ fuel → AreDigits (digits fuel n)
unfolding digits
digits-AreDigits zero n h = (omega arith, tt)
digits-AreDigits (suc fuel) n h = elim (Bool-cases (ltb n 10)) [
  | inl small ↦ rw small (ground arith, tt)
  | inr large ↦ rw large (
      AreDigits-append (digits fuel (n / 10)) (digits-AreDigits fuel (n / 10) (ground arith))
        (omega arith))
]

-- The first digit, which is there.
head-IsDigit :
    (cs : List ℕ) {c : ℕ}
    → AreDigits cs
    → IsDigit c
    → (d : ℕ) × (ds : List ℕ) × (cs ++ c ∷ [] ≡ d ∷ ds) × IsDigit d
head-IsDigit [] {c} h l = (c, [], refl, l)
head-IsDigit (d ∷ cs) {c} h l = (d, cs ++ c ∷ [], refl, h.0)

digits_head :
    (fuel n : ℕ) → n ≤ fuel → (d : ℕ) × (ds : List ℕ) × (digits fuel n ≡ d ∷ ds) × IsDigit d
unfolding digits
digits_head zero n h = (48 + n, [], refl, omega arith)
digits_head (suc fuel) n h = elim (Bool-cases (ltb n 10)) [
  | inl small ↦ rw small (48 + n, [], refl, ground arith)
  | inr large ↦ rw large (
      head-IsDigit (digits fuel (n / 10)) (digits-AreDigits fuel (n / 10) (ground arith))
        (omega arith))
]

pub decimal_head : (n : ℕ) → (d : ℕ) × (ds : List ℕ) × (decimal n ≡ d ∷ ds) × IsDigit d
unfolding decimal
decimal_head n = digits_head n n (omega arith)

-- What follows a number does not begin with a digit.
abbrev pub EndsNumber : List ℕ → Type 0
EndsNumber [] = Unit
EndsNumber (c ∷ cs) = (c < 48) ⊎ (57 < c)

split_digits :
    (cs ds rest rest' : List ℕ)
    → AreDigits cs
    → AreDigits ds
    → EndsNumber rest
    → EndsNumber rest'
    → cs ++ rest ≡ ds ++ rest'
    → (cs ≡ ds) × (rest ≡ rest')
split_digits [] [] rest rest' h k f g e = (refl, cc)
split_digits [] (d ∷ ds) [] rest' h k f g e = absurd (ground arith)
split_digits [] (d ∷ ds) (c ∷ rest) rest' h k f g e = absurd (ground arith)
split_digits (c ∷ cs) [] rest [] h k f g e = absurd (ground arith)
split_digits (c ∷ cs) [] rest (d ∷ rest') h k f g e = absurd (ground arith)
split_digits (c ∷ cs) (d ∷ ds) rest rest' h k f g e =
    let ih = split_digits cs ds rest rest' h.1 k.1 f g (cc) in (cc ih.0, ih.1)

-- A number and a rest that does not begin with a digit are read off their text.
pub decimal_prefix :
    (m n : ℕ) (rest rest' : List ℕ)
    → EndsNumber rest
    → EndsNumber rest'
    → decimal m ++ rest ≡ decimal n ++ rest'
    → (m ≡ n) × (rest ≡ rest')
unfolding decimal
decimal_prefix m n rest rest' f g e =
    let (same, after) =
      split_digits (digits m m) (digits n n) rest rest' (digits-AreDigits m m (omega arith))
        (digits-AreDigits n n (omega arith)) f g e in
    (
      sym (value-digits m m (omega arith))
          ∙ ap (value_from 0) same
          ∙ value-digits n n (omega arith),
      after,
    )

-- A number, a slash and a rest are read off their text.
pub decimal_slash :
    (m n : ℕ) (rest rest' : List ℕ)
    → decimal m ++ 47 ∷ rest ≡ decimal n ++ 47 ∷ rest'
    → (m ≡ n) × (rest ≡ rest')
decimal_slash m n rest rest' e =
    let (same, after) =
      decimal_prefix m n (47 ∷ rest) (47 ∷ rest') (inl (omega arith)) (inl (omega arith)) e in
    (same, cc after)
