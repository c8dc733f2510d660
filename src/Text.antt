-- ===== src/Text.antt =====
-- Go strings: sequences of bytes, compared bytewise, with the functions of package strings that
-- the program calls.
pub mod Order
pub mod Sorted
pub mod Parts
pub mod Words
pub mod Escape
pub mod Url
pub mod Numbers
use Prim.Native.Char.{code}
use pobj.Prelude.{
  leb, ◌-◌, subst, ℕ, zero, suc, String, ◌≡◌, refl, ◌↔◌, Bool, true, false, ◌&&◌, not, List, [],
  ◌∷◌, ◌++◌, Option, none, some, arith, ltb, eqb, eqb_iff, if◌then◌else◌, ap, drop, length,
}

abbrev pub Text : Type 0
Text = List ℕ

-- A string literal of the source; those of the program are ASCII.
abbrev pub lit : String → Text
lit String.[] = []
lit (String.◌∷◌ c s) = code c ∷ lit s

infix 50 ◌==◌
unfoldable pub ◌==◌ : Text → Text → Bool
[] == [] = true
[] == (y ∷ ys) = false
(x ∷ xs) == [] = false
(x ∷ xs) == (y ∷ ys) = eqb x y && xs == ys

pub eq_of_== : (s t : Text) → (s == t) ≡ true → s ≡ t
unfolding ◌==◌
eq_of_== [] [] h = refl
eq_of_== [] (y ∷ ys) h = ground arith
eq_of_== (x ∷ xs) [] h = ground arith
eq_of_== (x ∷ xs) (y ∷ ys) h = ground (arith, eq_of_== xs ys)

pub ==-refl : (s : Text) → (s == s) ≡ true
unfolding ◌==◌
==-refl [] = refl
==-refl (x ∷ xs) = ground (arith, ==-refl xs)

pub ==_iff : (s t : Text) → ((s == t) ≡ true) ↔ (s ≡ t)
==_iff s t = (eq_of_== s t, λ e. subst (λ u. (s == u) ≡ true) e (==-refl s))

-- `s < t` on Go strings.
unfoldable pub lt_text : Text → Text → Bool
lt_text [] [] = false
lt_text [] (y ∷ ys) = true
lt_text (x ∷ xs) [] = false
lt_text (x ∷ xs) (y ∷ ys) = if ltb x y then true else if ltb y x then false else lt_text xs ys

-- `s <= t` on Go strings.
unfoldable pub le_text : Text → Text → Bool
unfolding lt_text
le_text s t = not (lt_text t s)

-- strings.HasPrefix(s, prefix), the prefix first.
unfoldable pub has_prefix : Text → Text → Bool
has_prefix [] s = true
has_prefix (p ∷ ps) [] = false
has_prefix (p ∷ ps) (x ∷ xs) = eqb p x && has_prefix ps xs

-- strings.TrimPrefix(s, prefix), the prefix first.
unfoldable pub trim_prefix : Text → Text → Text
unfolding has_prefix
trim_prefix p s = if has_prefix p s then drop (length p) s else s

pub has_prefix-append : (p s : Text) → has_prefix p (p ++ s) ≡ true
unfolding has_prefix
has_prefix-append [] s = refl
has_prefix-append (x ∷ p) s = ground (arith, has_prefix-append p s)

pub has_prefix-same : (p q s : Text) → has_prefix (p ++ q) (p ++ s) ≡ has_prefix q s
unfolding has_prefix
has_prefix-same [] q s = refl
has_prefix-same (x ∷ p) q s = ground (arith, has_prefix-same p q s)

drop-append : (p s : Text) → drop (length p) (p ++ s) ≡ s
drop-append [] s = refl
drop-append (x ∷ p) s = drop-append p s

pub trim_prefix-append : (p s : Text) → trim_prefix p (p ++ s) ≡ s
unfolding trim_prefix
trim_prefix-append p s = rw (has_prefix-append p s) (drop-append p s)

pub append-trim_prefix : (p s : Text) → has_prefix p s ≡ true → p ++ drop (length p) s ≡ s
unfolding has_prefix
append-trim_prefix [] s h = refl
append-trim_prefix (x ∷ p) [] h = ground arith
append-trim_prefix (x ∷ p) (y ∷ s) h = ground (arith, append-trim_prefix p s)

-- strings.HasSuffix(s, suffix), the suffix first.
unfoldable pub has_suffix : Text → Text → Bool
unfolding ◌==◌
has_suffix p s = leb (length p) (length s) && drop (length s - length p) s == p
