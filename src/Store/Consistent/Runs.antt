-- ===== src/Store/Consistent/Runs.antt =====
-- Every operation of internal/objectd/store.go keeps the invariant, whether it succeeds or fails.
use pobj.Prelude.{refl}
use pobj.Store.Durable.{empty_store}
use pobj.Store.Objects.{find_record}
use pobj.Dict.{get}
use pobj.Store.Consistent.{arith, find_record, IsConsistent, Shrinks-IsConsistent}
use pobj.Store.Consistent.Steps.{
  create_bucket-Shrinks, delete_bucket-Shrinks, delete_object-Shrinks,
}
use pobj.Store.Consistent.Grants.{
  SameObjects-Shrinks, put_access-SameObjects, create_access-SameObjects, delete_access-SameObjects,
}
use pobj.Store.Consistent.Puts.{IsFresh, put_object-IsConsistent}
use pobj.Store.Ops.{outcome_store, Op, run}
use pobj.Store.{Text, get, Store, Platform, Io}

-- The random name drawn by a put is not taken; other operations draw no file name.
abbrev pub DrawsFresh : Platform → Io → Op → Store → Type 0
DrawsFresh lib io (Op.put_object bucket key body) s = IsFresh lib io bucket s
DrawsFresh lib io _ s = Unit

-- Every operation, successful or failed, keeps the invariant: bucket names are valid, no key is
-- empty, each record has its own file in its bucket's directory, and that file has the size and the
-- hash of the record. Assumed is that a put does not draw the name of an existing file.
pub run-IsConsistent :
    (lib : Platform) (io : Io) (op : Op) (s : Store)
    → IsConsistent lib s
    → DrawsFresh lib io op s
    → IsConsistent lib (run lib io op s).1
unfolding run
run-IsConsistent lib io (Op.create_bucket name) s h f =
    Shrinks-IsConsistent h (create_bucket-Shrinks lib io name s)
run-IsConsistent lib io (Op.delete_bucket name) s h f =
    Shrinks-IsConsistent h (delete_bucket-Shrinks lib io name s h)
run-IsConsistent lib io (Op.put_object bucket key body) s h f =
    rw outcome_store (put_object-IsConsistent lib io bucket key body s h f)
run-IsConsistent lib io (Op.delete_object bucket key) s h f =
    Shrinks-IsConsistent h (delete_object-Shrinks lib io bucket key s h)
run-IsConsistent lib io (Op.create_access bucket read_only) s h f = rw outcome_store (
    Shrinks-IsConsistent h
      (SameObjects-Shrinks (create_access-SameObjects lib io bucket read_only s)))
run-IsConsistent lib io (Op.put_access a) s h f =
    Shrinks-IsConsistent h (SameObjects-Shrinks (put_access-SameObjects lib io a s))
run-IsConsistent lib io (Op.delete_access access_key) s h f =
    Shrinks-IsConsistent h (SameObjects-Shrinks (delete_access-SameObjects lib io access_key s))

pub empty_store-IsConsistent :
    (lib : Platform) (data_dir : Text) → IsConsistent lib (empty_store data_dir)
unfolding find_record get
empty_store-IsConsistent lib data_dir = record {
  named = λ bucket b e. ground arith;
  keyed = λ bucket. refl;
  stored = λ bucket key rec e. absurd (ground arith);
  located = λ bucket key rec e. absurd (ground arith);
  separate = λ b k b' k' rec rec' e. absurd (ground arith);
}
