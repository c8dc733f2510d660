-- ===== src/Text/Words.antt =====
-- More functions of package strings, on ASCII text: ToLower, Join, Fields, TrimSpace, ReplaceAll and
-- Contains of one byte; and http.CanonicalHeaderKey.
use pobj.Prelude.{
  length, leb, if◌then◌else◌, eqb, ℕ, zero, suc, ◌+◌, ◌-◌, Bool, true, false, ◌&&◌, ◌||◌, List, [],
  ◌∷◌, ◌++◌,
}
use pobj.Text.{Text, lit, has_prefix}

unfoldable pub to_lower_byte : ℕ → ℕ
to_lower_byte c = if leb b'A' c && leb c b'Z' then c + 32 else c

unfoldable pub to_lower : Text → Text
unfolding to_lower_byte
to_lower [] = []
to_lower (c ∷ s) = to_lower_byte c ∷ to_lower s

unfoldable pub join : Text → List Text → Text
join sep [] = []
join sep (part ∷ []) = part
join sep (part ∷ next ∷ parts) = part ++ sep ++ join sep (next ∷ parts)

-- Tab, newline, vertical tab, form feed, carriage return and space.
unfoldable pub is_space : ℕ → Bool
is_space c = (leb 9 c && leb c 13) || eqb c 32

non_empty : Text → List Text → List Text
non_empty [] parts = parts
non_empty (c ∷ s) parts = (c ∷ s) ∷ parts

fields_onto : Text → Text → List Text
unfolding is_space non_empty
fields_onto word [] = non_empty word []
fields_onto word (c ∷ s) =
    let next = fields_onto [] s in
    let more = fields_onto (word ++ c ∷ []) s in if is_space c then non_empty word next else more

unfoldable pub fields : Text → List Text
unfolding fields_onto
fields s = fields_onto [] s

unfoldable pub trim_left : Text → Text
unfolding is_space
trim_left [] = []
trim_left (c ∷ s) = let rest = trim_left s in if is_space c then rest else c ∷ s

-- A byte before a text that is trimmed on the right.
before_trimmed : ℕ → Text → Text
unfolding is_space
before_trimmed c [] = if is_space c then [] else c ∷ []
before_trimmed c (d ∷ s) = c ∷ d ∷ s

unfoldable pub trim_right : Text → Text
unfolding before_trimmed
trim_right [] = []
trim_right (c ∷ s) = before_trimmed c (trim_right s)

unfoldable pub trim_space : Text → Text
unfolding trim_left trim_right
trim_space s = trim_right (trim_left s)

-- With the number of bytes left of an occurrence that has been replaced.
replace_from : ℕ → Text → Text → Text → Text
unfolding has_prefix
replace_from skip old new [] = []
replace_from (suc skip) old new (c ∷ s) = replace_from skip old new s
replace_from zero old new (c ∷ s) =
    let rest = replace_from (length old - 1) old new s in
    let kept = replace_from 0 old new s in if has_prefix old (c ∷ s) then new ++ rest else c ∷ kept

-- For a non-empty `old`.
unfoldable pub replace_all : Text → Text → Text → Text
unfolding replace_from
replace_all old new s = replace_from 0 old new s

unfoldable pub contains_byte : ℕ → Text → Bool
contains_byte b [] = false
contains_byte b (c ∷ s) = eqb c b || contains_byte b s

-- The bytes of an RFC 7230 token: letters, digits and !#$%&'*+-.^_`|~
is_token_byte : ℕ → Bool
unfolding contains_byte
is_token_byte c =
    (leb b'a' c && leb c b'z')
    || (leb b'A' c && leb c b'Z')
    || (leb b'0' c && leb c b'9')
    || contains_byte c (lit "!#$%&'*+-.^_`|~")

all_token : Text → Bool
unfolding is_token_byte
all_token [] = true
all_token (c ∷ s) = is_token_byte c && all_token s

-- Upper case at the start and behind a dash, lower case elsewhere.
capitals : Bool → Text → Text
unfolding to_lower_byte
capitals up [] = []
capitals true (c ∷ s) = (if leb b'a' c && leb c b'z' then c - 32 else c) ∷ capitals (eqb c b'-') s
capitals false (c ∷ s) = to_lower_byte c ∷ capitals (eqb c b'-') s

-- A key with a byte that no header has stays as it is.
unfoldable pub canonical_header_key : Text → Text
unfolding all_token capitals
canonical_header_key k = if all_token k then capitals true k else k
