-- ===== src/Text/Parts.antt =====
-- Functions of packages strings, strconv and encoding/hex on byte sequences.
use pobj.Prelude.Int.{negsuc, pos, ℤ}
use pobj.Prelude.{
  zero, suc, false, true, ◌*◌, Bool, ℕ, ◌+◌, ◌-◌, ◌/◌, ◌%◌, ◌&&◌, List, [], ◌∷◌, ◌++◌, Option, none,
  some, leb, ltb, eqb, if◌then◌else◌,
}
use pobj.Text.{Text}

-- strings.Split(s, sep) for a separator of one byte: one part more than there are separators.
unfoldable pub split_onto : ℕ → Text → Text → List Text
split_onto sep part [] = part ∷ []
split_onto sep part (c ∷ s) =
    let next = split_onto sep [] s in
    let more = split_onto sep (part ++ c ∷ []) s in if eqb c sep then part ∷ next else more

unfoldable pub split : ℕ → Text → List Text
unfolding split_onto
split sep s = split_onto sep [] s

-- strings.SplitN(s, sep, 2) for a separator of one byte: before the first separator, and what is
-- behind it if there is one.
unfoldable pub split_two : ℕ → Text → Text × Option Text
split_two sep [] = ([], none)
split_two sep (c ∷ s) =
    let (before, behind) = split_two sep s in
    if eqb c sep then ([], some s) else (c ∷ before, behind)

-- hex.EncodeToString
hex_digit : ℕ → ℕ
hex_digit n = if ltb n 10 then b'0' + n else b'a' + (n - 10)

unfoldable pub hex_encode : List ℕ → Text
unfolding hex_digit
hex_encode [] = []
hex_encode (b ∷ bs) = hex_digit (b / 16) ∷ hex_digit (b % 16) ∷ hex_encode bs

-- strings.ToUpper on one ASCII byte.
to_upper_byte : ℕ → ℕ
to_upper_byte c = if leb b'a' c && leb c b'z' then c - 32 else c

-- strings.ToUpper on ASCII text.
unfoldable pub to_upper : Text → Text
unfolding to_upper_byte
to_upper [] = []
to_upper (c ∷ s) = to_upper_byte c ∷ to_upper s

-- strconv.Atoi on a 64-bit machine: an optional sign, decimal digits, and a value that fits an int64.
unfoldable pub digits_from : ℕ → Text → Option ℕ
digits_from acc [] = some acc
digits_from acc (c ∷ s) =
    let rest = digits_from (acc * 10 + (c - b'0')) s in
    if leb b'0' c && leb c b'9' then rest else none

unfoldable pub digits_of : Text → Option ℕ
unfolding digits_from
digits_of [] = none
digits_of (c ∷ s) = digits_from 0 (c ∷ s)

unfoldable pub signed : Bool → Option ℕ → Option ℤ
signed minus none = none
signed false (some n) = if ltb n 0x8000000000000000 then some (pos n) else none
signed true (some zero) = some (pos 0)
signed true (some (suc n)) = if ltb n 0x8000000000000000 then some (negsuc n) else none

unfoldable pub atoi : Text → Option ℤ
unfolding digits_of signed
atoi [] = none
atoi (c ∷ s) =
    if eqb c b'-'
    then signed true (digits_of s)
    else if eqb c b'+'
    then signed false (digits_of s)
    else signed false (digits_of (c ∷ s))

-- strconv.Itoa on numbers that are not negative; the rounds are the number of digits at most.
unfoldable pub decimal_onto : ℕ → ℕ → Text → Text
decimal_onto zero n out = out
decimal_onto (suc rounds) n out =
    let more = decimal_onto rounds (n / 10) ((b'0' + n % 10) ∷ out) in
    if ltb n 10 then (b'0' + n) ∷ out else more

unfoldable pub decimal : ℕ → Text
unfolding decimal_onto
decimal n = decimal_onto (suc n) n []

-- strconv.Itoa, and fmt.Sprintf("%d", …).
unfoldable pub decimal_ℤ : ℤ → Text
unfolding decimal
decimal_ℤ (pos n) = decimal n
decimal_ℤ (negsuc n) = b'-' ∷ decimal (suc n)
