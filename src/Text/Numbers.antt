-- ===== src/Text/Numbers.antt =====
-- strconv: a number written in decimal is read back.
use pobj.Prelude.{
  ◌≡◌, ◌≢◌, refl, sym, ◌∙◌, ap, ℕ, zero, suc, ◌+◌, ◌*◌, ◌/◌, ◌%◌, ◌<◌, Bool, true, false, ◌&&◌, [],
  ◌∷◌, some, arith, ltb, leb,
}
use pobj.Prelude.Int.{pos}
use pobj.Text.{Text}
use pobj.Text.Words.{trim_space, trim_left, trim_right, is_space}
use pobj.Text.Parts.{decimal, decimal_onto, digits_from, digits_of, signed, atoi}

-- The bytes of a decimal number.
abbrev is_digit : ℕ → Bool
is_digit c = leb b'0' c && leb c b'9'

digit : (n : ℕ) → n < 10 → is_digit (b'0' + n) ≡ true
digit n h = ground arith

digits_from-digit :
    (acc n : ℕ) (s : Text)
    → n < 10
    → digits_from acc ((b'0' + n) ∷ s) ≡ digits_from (acc * 10 + n) s
unfolding digits_from
digits_from-digit acc n s h = ground arith

digits_from-decimal :
    (rounds n : ℕ) (out : Text)
    → n < rounds
    → digits_from 0 (decimal_onto rounds n out) ≡ digits_from n out
unfolding decimal_onto
digits_from-decimal zero n out h = absurd (omega arith)
digits_from-decimal (suc rounds) n out h = ground (
  arith,
  digits_from-digit 0 n out,
  digits_from-digit (n / 10) (n % 10) out,
  digits_from-decimal rounds (n / 10) ((b'0' + n % 10) ∷ out),
)

-- All bytes are digits, and there is one at least.
abbrev IsNumeral : Text → Type 0
IsNumeral t = (c : ℕ) × (s : Text) × (t ≡ c ∷ s) × (is_digit c ≡ true)

decimal_onto-IsNumeral :
    (rounds n : ℕ) (out : Text) → n < rounds → IsNumeral (decimal_onto rounds n out)
unfolding decimal_onto
decimal_onto-IsNumeral zero n out h = absurd (omega arith)
decimal_onto-IsNumeral (suc rounds) n out h =
    (elim (ltb n 10) as (λ b. ltb n 10 ≡ b → IsNumeral (decimal_onto (suc rounds) n out)) [
      | true ↦ λ e. (b'0' + n, out, ground (arith, e), digit n (ground (arith, e)))
      | false ↦ λ e.
          let (c, s, q, d) =
            decimal_onto-IsNumeral rounds (n / 10) ((b'0' + n % 10) ∷ out) (ground (arith, e)) in
          (c, s, ground (arith, e, q), d)
    ])
      refl

pub decimal-filled : (n : ℕ) → decimal n ≢ []
unfolding decimal
decimal-filled n e =
    let (c, s, is, d) = decimal_onto-IsNumeral (suc n) n [] (omega arith) in
    absurd (ground (arith, is, e))

unfoldable pub all_digits : Text → Bool
all_digits [] = true
all_digits (c ∷ s) = is_digit c && all_digits s

decimal_onto-all_digits :
    (rounds n : ℕ) (out : Text)
    → n < rounds
    → all_digits out ≡ true
    → all_digits (decimal_onto rounds n out) ≡ true
unfolding decimal_onto all_digits
decimal_onto-all_digits zero n out h d = absurd (omega arith)
decimal_onto-all_digits (suc rounds) n out h d = ground (
  arith,
  d,
  digit n,
  digit (n % 10),
  decimal_onto-all_digits rounds (n / 10) ((b'0' + n % 10) ∷ out),
)

pub decimal-all_digits : (n : ℕ) → all_digits (decimal n) ≡ true
unfolding decimal all_digits
decimal-all_digits n = decimal_onto-all_digits (suc n) n [] (omega arith) refl

trim_left-all_digits : (s : Text) → all_digits s ≡ true → trim_left s ≡ s
unfolding all_digits trim_left is_space
trim_left-all_digits [] h = refl
trim_left-all_digits (c ∷ s) h = ground arith

trim_right-all_digits : (s : Text) → all_digits s ≡ true → trim_right s ≡ s
unfolding all_digits trim_right is_space
trim_right-all_digits [] h = refl
trim_right-all_digits (c ∷ s) h = ground (arith, trim_right-all_digits s)

pub trim_space-decimal : (n : ℕ) → trim_space (decimal n) ≡ decimal n
unfolding trim_space
trim_space-decimal n =
    let d = decimal-all_digits n in
    rw (trim_left-all_digits (decimal n) d) (trim_right-all_digits (decimal n) d)

pub atoi-decimal : (n : ℕ) → n < 0x8000000000000000 → atoi (decimal n) ≡ some (pos n)
unfolding atoi decimal digits_of signed
atoi-decimal n h =
    let (c, s, e, d) = decimal_onto-IsNumeral (suc n) n [] (omega arith) in
    let read : digits_from 0 (c ∷ s) ≡ some n =
      ap (digits_from 0) (sym e) ∙ digits_from-decimal (suc n) n [] (omega arith) in
    rw e (ground (arith, read, d))
