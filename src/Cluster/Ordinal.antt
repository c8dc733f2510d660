-- ===== src/Cluster/Ordinal.antt =====
-- parseOrdinal of internal/cluster/cluster.go: the number at the end of a pod's name.
use pobj.Prelude.{◌≡◌, ◌≢◌, refl, ap, sym, ℕ, ◌<◌, true, List, [], ◌∷◌, ◌++◌, arith}
use pobj.Prelude.Int.{pos}
use mathlib.Core.List.{append-nil, append_assoc}
use pobj.Text.{Text, lit}
use pobj.Text.Parts.{decimal, split, split_onto}
use pobj.Text.Numbers.{all_digits, decimal-all_digits, atoi-decimal}
use pobj.Cluster.{last_of, or_zero, parse_ordinal}

split_onto-all_digits :
    (part d : Text) → all_digits d ≡ true → split_onto b'-' part d ≡ (part ++ d) ∷ []
unfolding split_onto all_digits
split_onto-all_digits part [] h = ap (λ t. t ∷ []) (sym (append-nil part))
split_onto-all_digits part (c ∷ d) h =
    ground (arith, h, split_onto-all_digits (part ++ c ∷ []) d, append_assoc part (c ∷ []) d)

split_onto-filled : (part s : Text) → split_onto b'-' part s ≢ []
unfolding split_onto
split_onto-filled part [] e = absurd (ground (arith, e))
split_onto-filled part (c ∷ s) e = absurd (ground (arith, e, split_onto-filled (part ++ c ∷ []) s))

last_of-∷ : (x : Text) (xs : List Text) → xs ≢ [] → last_of (x ∷ xs) ≡ last_of xs
unfolding last_of
last_of-∷ x [] n = absurd (n refl)
last_of-∷ x (y ∷ ys) n = refl

last_of-split :
    (part a d : Text) → all_digits d ≡ true → last_of (split_onto b'-' part (a ++ b'-' ∷ d)) ≡ d
unfolding split_onto last_of
last_of-split part [] d h = rw (split_onto-all_digits [] d h, last_of) refl
last_of-split part (c ∷ a) d h = ground (
  arith,
  last_of-split (part ++ c ∷ []) a d h,
  last_of-split [] a d h,
  last_of-∷ part (split_onto b'-' [] (a ++ b'-' ∷ d)) (split_onto-filled [] (a ++ b'-' ∷ d)),
)

-- The pod `name-i` has the ordinal i, whatever dashes are in the name.
pub parse_ordinal-pod :
    (name : Text) (i : ℕ)
    → i < 0x8000000000000000
    → parse_ordinal ((name ++ lit "-") ++ decimal i) ≡ pos i
unfolding parse_ordinal split or_zero
parse_ordinal-pod name i h =
    rw
      (
        append_assoc name (lit "-") (decimal i),
        last_of-split [] name (decimal i) (decimal-all_digits i),
        atoi-decimal i h,
        parse_ordinal,
      )
      refl
