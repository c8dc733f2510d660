-- ===== src/Store/Scope.antt =====
-- Each operation of internal/objectd/store.go on one bucket leaves the other buckets as they are.
use pobj.Prelude.{refl, none, some, arith, Option, ◌≡◌, ◌≢◌}
use pobj.Exec.{Result, ok, err}
use pobj.Text.{Text, ==_iff}
use pobj.Dict.{delete, get, put, get-put, get-delete}
use pobj.Store.{Store, Platform, Io, BucketState}
use pobj.Store.Buckets.{create_bucket, delete_bucket, new_bucket}
use pobj.Store.Objects.{
  put_object, write_file, record_object, delete_object, drop_object, new_record,
}
use pobj.Store.Frames.{state-record_object}
use pobj.Store.Durable.{write_file-meta_file}

module _ (lib : Platform) (io : Io) (bucket other : Text) (ne : bucket ≢ other) (s : Store) where
  pub get-create_bucket_ne : get (create_bucket lib io bucket s).1.state other ≡ get s.state other
  unfolding create_bucket
  get-create_bucket_ne =
      ground (arith, ==_iff bucket other, get-put s.state bucket other (new_bucket lib io))

  pub get-delete_bucket_ne : get (delete_bucket lib io bucket s).1.state other ≡ get s.state other
  unfolding delete_bucket
  get-delete_bucket_ne = ground (arith, ==_iff bucket other, get-delete s.state bucket other)

  record_object_ne :
      (key body path : Text) (b : BucketState) (t : Store)
      → t.state ≡ s.state
      → get (record_object lib io bucket key b body path t).1.state other ≡ get s.state other
  record_object_ne key body path b t same = ground (
    arith,
    same,
    state-record_object lib io bucket key b body path t,
    ==_iff bucket other,
    get-put t.state bucket other
        (record b { objects = put b.objects key (new_record lib io body path) }),
  )

  pub get-put_object_ne :
      (key body : Text)
      → get (put_object lib io bucket key body s).1.state other ≡ get s.state other
  unfolding put_object
  get-put_object_ne key body =
      from (get s.state bucket) (write_file lib io bucket body s).0 refl refl
    where
      from :
          (o : Option BucketState) (w : Result Text)
          → get s.state bucket ≡ o
          → (write_file lib io bucket body s).0 ≡ w
          → get (put_object lib io bucket key body s).1.state other ≡ get s.state other
      from none w g e = ground arith
      from (some b) (err x) g e = ground (arith, write_file-meta_file lib io bucket body s)
      from (some b) (ok path) g e = ground (
        arith,
        write_file-meta_file lib io bucket body s,
        record_object_ne key body path b (write_file lib io bucket body s).1,
      )

  pub get-delete_object_ne :
      (key : Text) → get (delete_object lib io bucket key s).1.state other ≡ get s.state other
  unfolding delete_object drop_object
  get-delete_object_ne key = from (get s.state bucket) refl
    where
      from :
          (o : Option BucketState)
          → get s.state bucket ≡ o
          → get (delete_object lib io bucket key s).1.state other ≡ get s.state other
      from none g = ground arith
      from (some b) g = ground (
        arith,
        ==_iff bucket other,
        get-put s.state bucket other (record b { objects = delete b.objects key }),
      )
