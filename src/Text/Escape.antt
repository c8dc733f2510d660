-- ===== src/Text/Escape.antt =====
-- net/url: QueryEscape, QueryUnescape and ParseQuery.
use pobj.Text.Words.{contains_byte}
use pobj.Text.Parts.{split_two, split}
use pobj.Dict.{put, get, Dict}
use pobj.Prelude.{
  ◌≡◌, refl, arith, false, ◌%◌, ◌/◌, ◌*◌, none, some, ltb, eqb, leb, if◌then◌else◌, Option, ℕ, ◌+◌,
  ◌-◌, Bool, ◌&&◌, ◌||◌, List, [], ◌∷◌, ◌++◌,
}
use pobj.Text.{◌==◌, Text, lit}

is_unreserved : ℕ → Bool
is_unreserved c =
    (leb b'a' c && leb c b'z')
    || (leb b'A' c && leb c b'Z')
    || (leb b'0' c && leb c b'9')
    || eqb c b'-'
    || eqb c b'_'
    || eqb c b'.'
    || eqb c b'~'

upper_hex : ℕ → ℕ
upper_hex n = if ltb n 10 then b'0' + n else b'A' + (n - 10)

unfoldable pub query_escape : Text → Text
unfolding is_unreserved upper_hex
query_escape [] = []
query_escape (c ∷ s) =
    let rest = query_escape s in
    if is_unreserved c
    then c ∷ rest
    else if eqb c 32
    then b'+' ∷ rest
    else b'%' ∷ upper_hex (c / 16) ∷ upper_hex (c % 16) ∷ rest

unhex : ℕ → Option ℕ
unhex c =
    if leb b'0' c && leb c b'9'
    then some (c - b'0')
    else if leb b'a' c && leb c b'f'
    then some (c - b'a' + 10)
    else if leb b'A' c && leb c b'F'
    then some (c - b'A' + 10)
    else none

before : ℕ → Option Text → Option Text
before c none = none
before c (some s) = some (c ∷ s)

hex_pair : Option ℕ → Option ℕ → Option Text → Option Text
unfolding before
hex_pair none lo rest = none
hex_pair (some h) none rest = none
hex_pair (some h) (some l) rest = before (16 * h + l) rest

-- The bytes behind a percent sign: none yet, or the first of two.
pub data Pending : Type 0 where
  no_digit : Pending
  first_digit : Pending
  second_digit : ℕ → Pending

-- `plus` is what a plus sign stands for.
unescape_from : ℕ → Pending → Text → Option Text
unfolding unhex before hex_pair
unescape_from plus no_digit [] = some []
unescape_from plus first_digit [] = none
unescape_from plus (second_digit a) [] = none
unescape_from plus no_digit (c ∷ s) =
    let plain = unescape_from plus no_digit s in
    let escaped = unescape_from plus first_digit s in
    if eqb c b'%' then escaped else if eqb c b'+' then before plus plain else before c plain
unescape_from plus first_digit (c ∷ s) = unescape_from plus (second_digit c) s
unescape_from plus (second_digit a) (c ∷ s) =
    hex_pair (unhex a) (unhex c) (unescape_from plus no_digit s)

-- None for a percent sign that two hexadecimal digits do not follow.
unfoldable pub query_unescape : Text → Option Text
unfolding unescape_from
query_unescape s = unescape_from 32 no_digit s

unfoldable pub path_unescape : Text → Option Text
unfolding unescape_from
path_unescape s = unescape_from b'+' no_digit s

pub path_unescape-plain : (s : Text) → contains_byte b'%' s ≡ false → path_unescape s ≡ some s
unfolding path_unescape unescape_from before contains_byte
path_unescape-plain [] h = refl
path_unescape-plain (c ∷ s) h = ground (arith, h, path_unescape-plain s)

or_none : Option Text → Text
or_none none = []
or_none (some v) = v

values_at : Option (List Text) → List Text
values_at none = []
values_at (some vs) = vs

-- m[key] = append(m[key], value), unless an unescape has failed.
add_value : Option Text → Option Text → Dict (List Text) → Dict (List Text)
unfolding values_at get put
add_value none v m = m
add_value (some k) none m = m
add_value (some k) (some v) m = put m k (values_at (get m k) ++ v ∷ [])

add_part : Text → Dict (List Text) → Dict (List Text)
unfolding add_value query_unescape split_two contains_byte or_none ◌==◌
add_part part m =
    if contains_byte b';' part || part == lit ""
    then m
    else let (key, value) = split_two b'=' part in
      add_value (query_unescape key) (query_unescape (or_none value)) m

add_parts : List Text → Dict (List Text) → Dict (List Text)
unfolding add_part
add_parts [] m = m
add_parts (part ∷ parts) m = add_parts parts (add_part part m)

-- The values; the error is not looked at by the code.
unfoldable pub parse_query : Text → Dict (List Text)
unfolding add_parts split
parse_query query = add_parts (split b'&' query) []
