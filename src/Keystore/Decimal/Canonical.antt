-- ===== src/Keystore/Decimal/Canonical.antt =====
-- The two ways to print a number agree, and what they print is a canonical decimal.
use Prim.Native.Nat.{◌/◌, ◌%◌}
use Prim.Native.String.append.{nil, cons}
use Prim.Native.Char.{code}
use Prim.Native.String.{◌++◌ as ◌append◌}
use gmail_b1_gateway.Prelude.{
  ℕ, zero, suc, ◌+◌, ◌≤◌, ◌<◌, ◌≡◌, refl, ap, inl, inr, String, true, List, [], ◌∷◌, ◌++◌, arith,
  codes, number_text, number_digits, digit_text, ltb, Bool-cases,
}
use gmail_b1_gateway.Keystore.Decimal.{digits, AreDigits, digits-AreDigits}
use gmail_b1_gateway.Authz.Artifact.{is_canonical_decimal, decimal_codes, digits_to_end}

codes-append : (s t : String) → codes (s append t) ≡ codes s ++ codes t
codes-append String.[] t = rw (nil t) refl
codes-append (String.◌∷◌ c s) t = rw (cons c s t) (ap (λ cs. code c ∷ cs) (codes-append s t))

codes-digit_text : (d : ℕ) → d < 10 → codes (digit_text d) ≡ (48 + d) ∷ []
codes-digit_text zero h = refl
codes-digit_text (suc zero) h = refl
codes-digit_text (suc (suc zero)) h = refl
codes-digit_text (suc (suc (suc zero))) h = refl
codes-digit_text (suc (suc (suc (suc zero)))) h = refl
codes-digit_text (suc (suc (suc (suc (suc zero))))) h = refl
codes-digit_text (suc (suc (suc (suc (suc (suc zero)))))) h = refl
codes-digit_text (suc (suc (suc (suc (suc (suc (suc zero))))))) h = refl
codes-digit_text (suc (suc (suc (suc (suc (suc (suc (suc zero)))))))) h = refl
codes-digit_text (suc (suc (suc (suc (suc (suc (suc (suc (suc zero))))))))) h = refl
codes-digit_text (suc (suc (suc (suc (suc (suc (suc (suc (suc (suc n)))))))))) h =
    absurd (omega arith)

codes-number_digits : (fuel n : ℕ) → n ≤ fuel → codes (number_digits fuel n) ≡ digits fuel n
unfolding digits
codes-number_digits zero n h = codes-digit_text n (omega arith)
codes-number_digits (suc fuel) n h = elim (Bool-cases (ltb n 10)) [
  | inl small ↦ rw small (codes-digit_text n (ground arith))
  | inr large ↦ rw large (
      rw (codes-append (number_digits fuel (n / 10)) (digit_text (n % 10))) (
        rw (codes-number_digits fuel (n / 10) (ground arith))
          (rw (codes-digit_text (n % 10) (omega arith)) refl)))
]

-- No number but zero begins with a zero.
leads :
    (fuel n : ℕ) → n ≤ fuel → 0 < n → (d : ℕ) × (ds : List ℕ) × (digits fuel n ≡ d ∷ ds) × (49 ≤ d)
unfolding digits
leads zero n h p = absurd (omega arith)
leads (suc fuel) n h p = elim (Bool-cases (ltb n 10)) [
  | inl small ↦ rw small (48 + n, [], refl, omega arith)
  | inr large ↦
      let (d, ds, e, lead) = leads fuel (n / 10) (ground arith) (ground arith) in
      rw large (d, ds ++ (48 + n % 10) ∷ [], ap (λ cs. cs ++ (48 + n % 10) ∷ []) e, lead)
]

digits_to_end_lem : (cs : List ℕ) → AreDigits cs → digits_to_end cs ≡ true
digits_to_end_lem [] h = refl
digits_to_end_lem (c ∷ cs) h = ground (arith, digits_to_end_lem cs h.1)

canonical_codes :
    (cs : List ℕ) (d : ℕ) (ds : List ℕ)
    → cs ≡ d ∷ ds
    → 49 ≤ d
    → AreDigits cs
    → decimal_codes cs ≡ true
canonical_codes [] d ds e lead h = cc
canonical_codes (c ∷ cs) d ds e lead h = ground (arith, digits_to_end_lem cs h.1)

pub number_text-canonical : (n : ℕ) → is_canonical_decimal (number_text n) ≡ true
unfolding digits
number_text-canonical zero = refl
number_text-canonical (suc n) =
    let (d, ds, e, lead) = leads (suc n) (suc n) (omega arith) (omega arith) in
    rw (codes-number_digits (suc n) (suc n) (omega arith)) (
      canonical_codes (digits (suc n) (suc n)) d ds e lead
        (digits-AreDigits (suc n) (suc n) (omega arith)))
