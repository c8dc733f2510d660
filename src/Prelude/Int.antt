-- ===== src/Prelude/Int.antt =====
-- Go's signed `int`, as far as the program needs it. `negsuc n` is -(n + 1).
use pobj.Prelude.{arith, eqb_iff, ap, ◌≡◌}
use Prim.Native.Nat.{ℕ}
use mathlib.Core.Bool.{Bool, true, false}
use pobj.Prelude.Tests.{ltb, eqb}

pub data ℤ : Type 0 where
  pos : ℕ → ℤ
  negsuc : ℕ → ℤ

-- The number if it is not negative, and 0 otherwise.
abbrev pub to_ℕ : ℤ → ℕ
to_ℕ (pos n) = n
to_ℕ (negsuc n) = 0

-- a < b
abbrev pub ltb_ℤ : ℤ → ℤ → Bool
ltb_ℤ (pos a) (pos b) = ltb a b
ltb_ℤ (pos a) (negsuc b) = false
ltb_ℤ (negsuc a) (pos b) = true
ltb_ℤ (negsuc a) (negsuc b) = ltb b a

abbrev pub eqb_ℤ : ℤ → ℤ → Bool
eqb_ℤ (pos a) (pos b) = eqb a b
eqb_ℤ (negsuc a) (negsuc b) = eqb a b
eqb_ℤ _ _ = false

pub eqb_ℤ-≡ : (a b : ℤ) → eqb_ℤ a b ≡ true → a ≡ b
eqb_ℤ-≡ (pos m) (pos n) h = ap pos ((eqb_iff m n).0 h)
eqb_ℤ-≡ (negsuc m) (negsuc n) h = ap negsuc ((eqb_iff m n).0 h)
eqb_ℤ-≡ (pos m) (negsuc n) h = ground arith
eqb_ℤ-≡ (negsuc m) (pos n) h = ground arith
