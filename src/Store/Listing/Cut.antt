-- ===== src/Store/Listing/Cut.antt =====
-- The cut of a page out of the sorted keys (ListObjectsV2 of internal/objectd/store.go).
use native.Mathlib.Nat.{le_refl}
use pobj.Prelude.{
  false, take, sym, ltb, ◌≢◌, ◌∙◌, not, if◌then◌else◌, inr, zero, refl, inl, ap, [], Bool-cases,
  ◌∷◌, arith, ◌-◌, true, suc, ◌≤◌, ◌≡◌, ◌<◌, ℕ, List, keep, drop, length, All,
}
use pobj.Text.{==_iff, ◌==◌, Text, lt_text, le_text, lit}
use pobj.Text.Order.{lt_text_trans, lt_text_irrefl, lt_text-asymm}
use pobj.Text.Sorted.{IsAscending}
use pobj.Store.Listing.{cut_page, start_from, start_of, key_at}

-- The keys behind a token.
abbrev pub behind : Text → List Text → List Text
behind token ks = keep (lt_text token) ks

behind-All :
    (token : Text) (ks : List Text) → All (λ k. lt_text token k ≡ true) ks → behind token ks ≡ ks
behind-All token [] h = refl
behind-All token (k ∷ ks) (p, h) = rw p (ap (λ l. k ∷ l) (behind-All token ks h))

All-trans :
    (t x : Text) (xs : List Text)
    → lt_text t x ≡ true
    → All (λ y. lt_text x y ≡ true) xs
    → All (λ y. lt_text t y ≡ true) xs
All-trans t x [] h k = tt
All-trans t x (y ∷ xs) h (k, ks) = (lt_text_trans t x y h k, All-trans t x xs h ks)

start_from-All :
    (token : Text) (i start : ℕ) (ks : List Text)
    → All (λ k. lt_text token k ≡ true) ks
    → start_from token i start ks ≡ start
unfolding start_from le_text
start_from-All token i start [] h = refl
start_from-All token i start (k ∷ ks) (p, h) = rw p (start_from-All token (suc i) start ks h)

sub_self : (i : ℕ) → i - i ≡ 0
sub_self i = omega arith

sub-suc : (i n : ℕ) → suc i ≤ n → n - i ≡ suc (n - suc i)
sub-suc i n h = omega arith

-- On ascending keys the loop stops at the first key behind the token.
drop-start_from :
    (token : Text) (i : ℕ) (ks : List Text)
    → IsAscending ks
    → (i ≤ start_from token i i ks) × (drop (start_from token i i ks - i) ks ≡ behind token ks)
unfolding start_from le_text
drop-start_from token i [] h = (omega arith, ground arith)
drop-start_from token i (k ∷ ks) (above, h) = elim (Bool-cases (lt_text token k)) [
  | inl p ↦
      let beyond = All-trans token k ks p above in
      rw (p, start_from-All token (suc i) i ks beyond, sub_self i, behind-All token ks beyond)
        (le_refl i, refl)
  | inr p ↦
      let (le, rest) = drop-start_from token (suc i) ks h in
      rw (p, sub-suc i (start_from token (suc i) (suc i) ks) le) (omega arith, rest)
]

sub_zero : (n : ℕ) → n ≡ n - 0
sub_zero n = omega arith

-- The keys that a page starts from.
abbrev pub current : Text → List Text → List Text
current token all = if not (token == lit "") then behind token all else all

pub drop-start_of :
    (token : Text) (all : List Text)
    → IsAscending all
    → drop (start_of token all) all ≡ current token all
unfolding start_of
drop-start_of token all h = elim (Bool-cases (token == lit "")) [
  | inl e ↦ rw e refl
  | inr e ↦ rw e (
      ap (λ n. drop n all) (sub_zero (start_from token 0 0 all))
      ∙ (drop-start_from token 0 all h).1)
]

pub All-key_at :
    (P : Text → Type 0) (n : ℕ) (ks : List Text) → All P ks → n < length ks → P (key_at ks n)
unfolding key_at
All-key_at P n [] h l = absurd (omega arith)
All-key_at P zero (k ∷ ks) (p, h) l = p
All-key_at P (suc n) (k ∷ ks) (p, h) l = All-key_at P n ks h (omega arith)

-- Behind the last key of a page stand the keys that the page left out.
pub behind-key_at :
    (n : ℕ) (ks : List Text)
    → IsAscending ks
    → n < length ks
    → behind (key_at ks n) ks ≡ drop (suc n) ks
unfolding key_at
behind-key_at n [] h l = absurd (omega arith)
behind-key_at zero (k ∷ ks) (above, h) l = rw (lt_text_irrefl k) (behind-All k ks above)
behind-key_at (suc n) (k ∷ ks) (above, h) l =
    rw
      (lt_text-asymm k (key_at ks n)
        (All-key_at (λ y. lt_text k y ≡ true) n ks above (omega arith)))
      (behind-key_at n ks h (omega arith))

pub behind-behind :
    (t u : Text) (ks : List Text) → lt_text t u ≡ true → behind u (behind t ks) ≡ behind u ks
behind-behind t u [] h = refl
behind-behind t u (k ∷ ks) h = ground (arith, behind-behind t u ks h, lt_text_trans t u k h)

All-behind :
    (P : Text → Type 0) (t : Text) (ks : List Text)
    → All P ks
    → All (λ k. P k × (lt_text t k ≡ true)) (behind t ks)
All-behind P t [] h = tt
All-behind P t (k ∷ ks) (p, h) = elim (Bool-cases (lt_text t k)) [
  | inl e ↦ rw e ((p, e), All-behind P t ks h)
  | inr e ↦ rw e (All-behind P t ks h)
]

All-left : (P Q : Text → Type 0) (ks : List Text) → All (λ k. P k × Q k) ks → All P ks × All Q ks
All-left P Q [] h = (tt, tt)
All-left P Q (k ∷ ks) ((p, q), h) = let (ps, qs) = All-left P Q ks h in ((p, ps), (q, qs))

behind-IsAscending : (t : Text) (ks : List Text) → IsAscending ks → IsAscending (behind t ks)
behind-IsAscending t [] h = tt
behind-IsAscending t (k ∷ ks) (above, h) = elim (Bool-cases (lt_text t k)) [
  | inl e ↦ rw e (
    (All-left (λ y. lt_text k y ≡ true) (λ y. lt_text t y ≡ true) (behind t ks)
        (All-behind (λ y. lt_text k y ≡ true) t ks above)).0,
    behind-IsAscending t ks h,
  )
  | inr e ↦ rw e (behind-IsAscending t ks h)
]

ne_empty : (t : Text) → t ≢ [] → (t == []) ≡ false
ne_empty t n = ground (arith, ==_iff t [])

-- What the keys from a token on keep of the whole list.
pub record Rest (all cur : List Text) : Type 0 where
  pub ascending : IsAscending cur
  pub full : All (λ k. k ≢ []) cur
  pub next : (n : ℕ) → n < length cur → behind (key_at cur n) all ≡ behind (key_at cur n) cur

pub current-Rest :
    (token : Text) (all : List Text)
    → IsAscending all
    → All (λ k. k ≢ []) all
    → Rest all (current token all)
current-Rest token all asc full = elim (Bool-cases (token == lit "")) [
  | inl e ↦ rw e (record { ascending = asc; full = full; next = λ n l. refl })
  | inr e ↦
      let (ne, lt) =
        All-left (λ k. k ≢ []) (λ k. lt_text token k ≡ true) (behind token all)
          (All-behind (λ k. k ≢ []) token all full) in
      rw e (record {
        ascending = behind-IsAscending token all asc;
        full = ne;
        next = λ n l. sym (
            behind-behind token (key_at (behind token all) n) all
              (All-key_at (λ k. lt_text token k ≡ true) n (behind token all) lt l));
      })
]

-- The page and its token, from the keys behind the given token.
pub cut_page-current :
    (token : Text) (max : ℕ) (all : List Text)
    → IsAscending all
    → cut_page token max all ≡ (
        if ltb max (length (current token all))
        then (take max (current token all), key_at (current token all) (max - 1), true)
        else (current token all, lit "", false))
unfolding cut_page
cut_page-current token max all asc = rw (drop-start_of token all asc) refl

-- The keys behind the token of a page are those that the page left out.
pub current-key_at :
    (token : Text) (n : ℕ) (all : List Text)
    → IsAscending all
    → All (λ k. k ≢ []) all
    → n < length (current token all)
    → current (key_at (current token all) n) all ≡ drop (suc n) (current token all)
current-key_at token n all asc full l =
    let rest = current-Rest token all asc full in
    let next : Text = key_at (current token all) n in
    let named : next ≢ [] = All-key_at (λ k. k ≢ []) n (current token all) rest.full l in
    rw (ne_empty next named) (rest.next n l ∙ behind-key_at n (current token all) rest.ascending l)
