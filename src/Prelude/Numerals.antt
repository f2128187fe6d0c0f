-- ===== src/Prelude/Numerals.antt =====
-- Python's `%d` of a number that is not negative, as a text.
use Prim.Native.Nat.{ℕ, zero, suc, ◌/◌, ◌%◌}
use Prim.Native.String.{String, ◌++◌ as ◌append◌}
use gmail_b1_gateway.Prelude.Tests.{ltb, beq, if◌then◌else◌}

-- The digits, with at least as much fuel as the number.
abbrev pub digit_text : ℕ → String
digit_text n =
    if beq n 0
    then "0"
    else if beq n 1
    then "1"
    else if beq n 2
    then "2"
    else if beq n 3
    then "3"
    else if beq n 4
    then "4"
    else if beq n 5
    then "5"
    else if beq n 6
    then "6"
    else if beq n 7
    then "7"
    else if beq n 8
    then "8"
    else "9"

abbrev pub number_digits : ℕ → ℕ → String
number_digits zero n = digit_text n
number_digits (suc fuel) n =
    let higher = number_digits fuel (n / 10) in
    if ltb n 10 then digit_text n else higher append digit_text (n % 10)

abbrev pub number_text : ℕ → String
number_text n = number_digits n n
