-- ===== src/Exec.antt =====
-- Errors as values, and operations that change a state and may fail. What was changed before a
-- failure stays changed: the state comes back beside the error too.
use pobj.Prelude.{arith, refl, ◌≡◌, Option, none, some, Bool, true, false}
use pobj.Text.{Text, lit}

-- Go's `error`: the two exported values of internal/objectd, and any other with its text.
pub data Error : Type 0 where
  not_found forbidden : Error
  failed : Text → Error

-- err.Error()
unfoldable pub error_text : Error → Text
error_text not_found = lit "not found"
error_text forbidden = lit "forbidden"
error_text (failed text) = text

-- errors.Is(err, ErrNotFound)
unfoldable pub is_not_found : Error → Bool
is_not_found not_found = true
is_not_found _ = false

pub data Result {ℓ} (A : Type ℓ) : Type ℓ where
  ok : A → Result A
  err : Error → Result A

abbrev pub Exec {ℓ} : Type ℓ → Type ℓ → Type ℓ
Exec S A = S → Result A × S

module _ {ℓ} {S A : Type ℓ} where
  abbrev pub pure : A → Exec S A
  pure a s = (ok a, s)

  abbrev pub fail : Error → Exec S A
  fail e s = (err e, s)

  abbrev pub lift : Result A → Exec S A
  lift r s = (r, s)

  abbrev pub gets : (S → A) → Exec S A
  gets f s = (ok (f s), s)

  abbrev pub or_fail : Error → Option A → Exec S A
  or_fail e none s = (err e, s)
  or_fail e (some a) s = (ok a, s)

module _ {S : Type 0} where
  abbrev pub modify : (S → S) → Exec S (Unit {0})
  modify f s = (ok tt, f s)

  -- A call of the environment: `none` if it succeeds.
  abbrev pub attempt : Option Error → Exec S (Unit {0})
  attempt none s = (ok tt, s)
  attempt (some e) s = (err e, s)

module _ {ℓ} {S A B : Type ℓ} where
  abbrev pub continue : Result A → (A → Exec S B) → Exec S B
  continue (ok a) f s = f a s
  continue (err e) f s = (err e, s)

  infixl 5 ◌>>=◌ ◌>>◌
  abbrev pub ◌>>=◌ : Exec S A → (A → Exec S B) → Exec S B
  ◌>>=◌ m f s = let (r, s') = m s in continue r f s'

  abbrev pub ◌>>◌ : Exec S A → Exec S B → Exec S B
  m >> n = m >>= λ _. n

module _ {S : Type 0} (m n : Exec S Unit) (s : S) where
  -- Two steps succeed if each does, the second from where the first ends.
  pub >>-ok :
      ((m >> n) s).0 ≡ ok tt
      → ((m s).0 ≡ ok tt) × ((n (m s).1).0 ≡ ok tt) × (((m >> n) s).1 ≡ (n (m s).1).1)
  >>-ok h = ground arith

  -- Two steps that succeed and change nothing do so together.
  pub >>-fixed : m s ≡ (ok tt, s) → n s ≡ (ok tt, s) → (m >> n) s ≡ (ok tt, s)
  >>-fixed h k = ground arith

-- A step that binds a result succeeds if its two parts do, the second from where the first ends.
pub >>=-ok :
    {S A B : Type 0} (m : Exec S A) (f : A → Exec S B) (s : S) {b : B}
    → ((m >>= f) s).0 ≡ ok b
    → (a : A) × ((m s).0 ≡ ok a) × ((f a (m s).1).0 ≡ ok b) × (((m >>= f) s).1 ≡ (f a (m s).1).1)
>>=-ok {S} {A} {B} m f s {b} h = from (m s).0 refl
  where
    from :
        (r : Result A)
        → (m s).0 ≡ r
        → (a : A) × ((m s).0 ≡ ok a)
          × ((f a (m s).1).0 ≡ ok b)
          × (((m >>= f) s).1 ≡ (f a (m s).1).1)
    from (ok a) e = (a, e, ground (arith, e, h), ground (arith, e))
    from (err x) e = absurd (ground (arith, e, h))
