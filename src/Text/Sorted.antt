-- ===== src/Text/Sorted.antt =====
-- Lists of Go strings in strictly ascending order, and sort.Strings on lists without repetition.
use pobj.Prelude.{arith, inr, inl, ◌⊎◌, true, [], Bool-cases, ◌≡◌, ◌∷◌, ◌↔◌, List, All}
use pobj.Text.{Text, lt_text, le_text}
use pobj.Text.Order.{lt_of_not_le, lt_of_le_ne, lt_text_trans}
use pobj.Sort.{insert, sort}

abbrev pub IsAscending : List Text → Type 0
IsAscending [] = Unit
IsAscending (x ∷ xs) = All (λ y. lt_text x y ≡ true) xs × IsAscending xs

abbrev pub In : Text → List Text → Type 0
In a [] = ⊥
In a (x ∷ xs) = (x ≡ a) ⊎ In a xs

-- No element stands twice.
abbrev pub IsDistinct : List Text → Type 0
IsDistinct [] = Unit
IsDistinct (x ∷ xs) = (In x xs → ⊥) × IsDistinct xs

All-trans :
    (a x : Text) (xs : List Text)
    → lt_text a x ≡ true
    → All (λ y. lt_text x y ≡ true) xs
    → All (λ y. lt_text a y ≡ true) xs
All-trans a x [] h k = tt
All-trans a x (y ∷ xs) h (k, ks) = (lt_text_trans a x y h k, All-trans a x xs h ks)

All-insert :
    (P : Text → Type 0) (a : Text) (xs : List Text) → P a → All P xs → All P (insert le_text a xs)
unfolding insert
All-insert P a [] p h = (p, tt)
All-insert P a (x ∷ xs) p (q, h) = elim (Bool-cases (le_text a x)) [
  | inl e ↦ rw e (p, (q, h))
  | inr e ↦ rw e (q, All-insert P a xs p h)
]

insert-IsAscending :
    (a : Text) (xs : List Text) → (In a xs → ⊥) → IsAscending xs → IsAscending (insert le_text a xs)
unfolding insert
insert-IsAscending a [] n h = (tt, tt)
insert-IsAscending a (x ∷ xs) n (below, h) = elim (Bool-cases (le_text a x)) [
  | inl e ↦
      let lt = lt_of_le_ne a x e (λ p. n (inl p)) in
      rw e ((lt, All-trans a x xs lt below), (below, h))
  | inr e ↦ rw e (
    All-insert (λ y. lt_text x y ≡ true) a xs (lt_of_not_le a x e) below,
    insert-IsAscending a xs (λ i. n (inr i)) h,
  )
]

In-insert : (a b : Text) (xs : List Text) → In b (insert le_text a xs) ↔ ((a ≡ b) ⊎ In b xs)
unfolding insert
In-insert a b [] = (λ h. h, λ h. h)
In-insert a b (x ∷ xs) =
    (λ h. ground (arith, (In-insert a b xs).0), λ h. ground (arith, (In-insert a b xs).1))

-- Sorting keeps the elements.
pub In-sort : (b : Text) (xs : List Text) → In b (sort le_text xs) ↔ In b xs
unfolding sort
In-sort b [] = (λ h. h, λ h. h)
In-sort b (x ∷ xs) =
    let (to, from) = In-insert x b (sort le_text xs) in
    let (down, up) = In-sort b xs in
    (
      λ h. elim (to h) [ inl e ↦ inl e | inr i ↦ inr (down i) ],
      λ h. from (elim h [ inl e ↦ inl e | inr i ↦ inr (up i) ]),
    )

-- Sorting a list without repetition gives a strictly ascending list.
pub sort-IsAscending : (xs : List Text) → IsDistinct xs → IsAscending (sort le_text xs)
unfolding sort
sort-IsAscending [] h = tt
sort-IsAscending (x ∷ xs) (n, h) =
    insert-IsAscending x (sort le_text xs) (λ i. n ((In-sort x xs).0 i)) (sort-IsAscending xs h)
