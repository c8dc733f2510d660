-- ===== src/Store/Ops.antt =====
-- The methods of internal/objectd/store.go that change the store, as one type of requests.
use pobj.Prelude.{refl, ◌≡◌, Bool}
use pobj.Text.{Text}
use pobj.Exec.{Result, ok, err, Exec}
use pobj.Store.{Store, Platform, Io, AccessKey}
use pobj.Store.Buckets
use pobj.Store.Objects
use pobj.Store.Access

pub data Op : Type 0 where
  create_bucket delete_bucket : Text → Op
  put_object : Text → Text → Text → Op
  delete_object : Text → Text → Op
  create_access : Text → Bool → Op
  put_access : AccessKey → Op
  delete_access : Text → Op

-- The error of a result, its value left out.
abbrev pub outcome {ℓ} : {A : Type ℓ} → Result A × Store → Result (Unit {0}) × Store
outcome (ok a, s) = (ok tt, s)
outcome (err e, s) = (err e, s)

pub outcome_store {ℓ} : {A : Type ℓ} (p : Result A × Store) → (outcome p).1 ≡ p.1
outcome_store (ok a, s) = refl
outcome_store (err e, s) = refl

unfoldable pub run : Platform → Io → Op → Exec Store Unit
run lib io (create_bucket name) s = Buckets.create_bucket lib io name s
run lib io (delete_bucket name) s = Buckets.delete_bucket lib io name s
run lib io (put_object bucket key body) s = outcome (Objects.put_object lib io bucket key body s)
run lib io (delete_object bucket key) s = Objects.delete_object lib io bucket key s
run lib io (create_access bucket read_only) s =
    outcome (Access.create_access lib io bucket read_only s)
run lib io (put_access a) s = Access.put_access lib io a s
run lib io (delete_access access_key) s = Access.delete_access lib io access_key s
