-- ===== src/Operator/Settled.antt =====
-- The get, create or update that the ensure functions of controllers/objectservice_controller.go
-- share, on the objects of one kind.
use pobj.Prelude.{if◌then◌else◌, ◌≡◌, ◌≢◌, refl, Option, none, some, [], ◌∷◌, arith}
use pobj.Text.{Text, ==_iff, ==-refl}
use pobj.Dict.{Dict, get, put, get-put}
use pobj.Exec.{Error, Result, ok, err, is_not_found}
use pobj.Kube.{Calls, read, create_in, update_in}

-- No call fails.
abbrev pub no_failures : Calls
no_failures = record {
  get = λ kind name. none;
  create = λ kind name. none;
  update = λ kind name. none;
  update_status = none;
  own = λ kind. none;
}

-- The object under a name is one that the update leaves as it is.
abbrev pub IsSettled : {V : Type 0} → Dict V → Text → (V → V) → Type 0
IsSettled {V} d name f = (v : V) × (get d name ≡ some v) × (f v ≡ v)

pub put_same :
    {V : Type 0} (d : Dict V) (name : Text) (v : V) → get d name ≡ some v → put d name v ≡ d
unfolding get put
put_same [] name v h = ground arith
put_same ((j, w) ∷ d) name v h = ground (arith, put_same d name v)

IsSettled-put :
    {V : Type 0} (d : Dict V) (name : Text) (f : V → V) (v : V)
    → f v ≡ v
    → IsSettled (put d name v) name f
IsSettled-put d name f v h = (v, ground (arith, get-put d name name v, ==-refl name), h)

pub IsSettled-put_ne :
    {V : Type 0} (d : Dict V) (name other : Text) (f : V → V) (w : V)
    → other ≢ name
    → IsSettled d name f
    → IsSettled (put d other w) name f
IsSettled-put_ne d name other f w ne (v, g, e) =
    (v, ground (arith, get-put d other name w, ==_iff other name), e)

-- The objects of one kind after such calls, with the answers to Get, SetControllerReference, Create
-- and Update, the object to create and the change to make to one that is there.
unfoldable pub upserted :
    {V : Type 0}
    → Option Error
    → Option Error
    → Option Error
    → Option Error
    → Dict V
    → Text
    → V
    → (V → V)
    → Result (Unit {0}) × Dict V
unfolding is_not_found get put
upserted g o c u d name v f = elim (read g d name) [
  | ok w ↦ update_in u d name (f w)
  | err e ↦
      if is_not_found e
      then elim o [ none ↦ create_in c d name v | some x ↦ (err x, d) ]
      else (err e, d)
]

module _ {V : Type 0} (g o c u : Option Error) (d : Dict V) (name : Text) (v : V) (f : V → V) where
  pub upserted-IsSettled :
      f v ≡ v
      → ((w : V) → f (f w) ≡ f w)
      → (upserted g o c u d name v f).0 ≡ ok tt
      → IsSettled (upserted g o c u d name v f).1 name f
  unfolding upserted
  upserted-IsSettled fv ff h = from (read g d name) refl
    where
      from : (r : Result V) → read g d name ≡ r → IsSettled (upserted g o c u d name v f).1 name f
      from (ok w) e = (f w, ground (arith, e, get-put d name name (f w), ==-refl name), ff w)
      from (err x) e = (v, ground (arith, e, get-put d name name v, ==-refl name), fv)

  -- Another name of the same kind is left alone.
  pub upserted-IsSettled_ne :
      (other : Text) (k : V → V)
      → name ≢ other
      → IsSettled d other k
      → IsSettled (upserted g o c u d name v f).1 other k
  unfolding upserted
  upserted-IsSettled_ne other k ne (x, here, e) = (x, from (read g d name) refl, e)
    where
      from : (r : Result V) → read g d name ≡ r → get (upserted g o c u d name v f).1 other ≡ some x
      from (ok w) q = ground (arith, q, get-put d name other (f w), ==_iff name other)
      from (err x) q = ground (arith, q, get-put d name other v, ==_iff name other)

pub upserted_settled :
    {V : Type 0} (d : Dict V) (name : Text) (v : V) (f : V → V)
    → IsSettled d name f
    → upserted none none none none d name v f ≡ (ok tt, d)
unfolding upserted
upserted_settled d name v f (w, g, e) = ground (arith, put_same d name w g)
