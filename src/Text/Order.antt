-- ===== src/Text/Order.antt =====
-- The order of Go strings is a strict total order.
use pobj.Prelude.{inr, inl, Bool-cases, ◌≢◌, ◌≡◌, refl, true, false, not, [], ◌∷◌, arith}
use pobj.Text.{Text, lt_text, le_text}

pub lt_text_irrefl : (s : Text) → lt_text s s ≡ false
unfolding lt_text
lt_text_irrefl [] = refl
lt_text_irrefl (x ∷ s) = ground (arith, lt_text_irrefl s)

pub lt_text_trans : (s t u : Text) → lt_text s t ≡ true → lt_text t u ≡ true → lt_text s u ≡ true
unfolding lt_text
lt_text_trans [] [] u h k = ground arith
lt_text_trans [] (y ∷ t) [] h k = ground arith
lt_text_trans [] (y ∷ t) (z ∷ u) h k = refl
lt_text_trans (x ∷ s) [] u h k = ground arith
lt_text_trans (x ∷ s) (y ∷ t) [] h k = ground arith
lt_text_trans (x ∷ s) (y ∷ t) (z ∷ u) h k = ground (arith, lt_text_trans s t u)

pub eq_of_not_lt : (s t : Text) → lt_text s t ≡ false → lt_text t s ≡ false → s ≡ t
unfolding lt_text
eq_of_not_lt [] [] h k = refl
eq_of_not_lt [] (y ∷ t) h k = ground arith
eq_of_not_lt (x ∷ s) [] h k = ground arith
eq_of_not_lt (x ∷ s) (y ∷ t) h k = ground (arith, eq_of_not_lt s t)

pub lt_text-asymm : (s t : Text) → lt_text s t ≡ true → lt_text t s ≡ false
unfolding lt_text
lt_text-asymm [] [] h = refl
lt_text-asymm [] (y ∷ t) h = refl
lt_text-asymm (x ∷ s) [] h = ground arith
lt_text-asymm (x ∷ s) (y ∷ t) h = ground (arith, lt_text-asymm s t)

pub le_text-total : (s t : Text) → le_text s t ≡ false → le_text t s ≡ true
unfolding le_text
le_text-total s t h = ground (arith, lt_text-asymm t s)

pub le_text_antisymm : (s t : Text) → le_text s t ≡ true → le_text t s ≡ true → s ≡ t
unfolding le_text
le_text_antisymm s t h k = ground (arith, eq_of_not_lt s t)

pub le_text_trans : (s t u : Text) → le_text s t ≡ true → le_text t u ≡ true → le_text s u ≡ true
unfolding le_text lt_text
le_text_trans [] t u h k = lt_nil u
  where
    lt_nil : (u : Text) → not (lt_text u []) ≡ true
    lt_nil [] = refl
    lt_nil (x ∷ u) = refl
le_text_trans (x ∷ s) [] u h k = ground arith
le_text_trans (x ∷ s) (y ∷ t) [] h k = ground arith
le_text_trans (x ∷ s) (y ∷ t) (z ∷ u) h k = ground (arith, le_text_trans s t u)

pub lt_of_le_ne : (s t : Text) → le_text s t ≡ true → t ≢ s → lt_text s t ≡ true
unfolding le_text
lt_of_le_ne s t h n = elim (Bool-cases (lt_text s t)) [
  | inl e ↦ e
  | inr e ↦ absurd (n (ground (arith, eq_of_not_lt t s)))
]

pub lt_of_not_le : (s t : Text) → le_text s t ≡ false → lt_text t s ≡ true
unfolding le_text
lt_of_not_le s t h = ground arith
