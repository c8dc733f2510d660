-- ===== src/Tests/Store.antt =====
-- Tests of internal/objectd/store.go, and the theorems about it at concrete stores.
use pobj.Store.Refines.{Trace, initial, succeeded, Trace-view, performed}
use pobj.Store.View.{view}
use pobj.Dict.{put}
use pobj.Text.{◌==◌}
use pobj.Store.Objects.{record_object}
use pobj.Store.Objects.{write_file}
use pobj.Tests.Fixtures.{decode_names}
use pobj.Tests.Fixtures.{encode_names}
use pobj.Text.Parts.{hex_encode}
use pobj.Prelude.Int.{pos}
use pobj.Store.Listing.Pages.{all_pages_complete, all_pages}
use pobj.Store.Consistent.Runs.{empty_store-IsConsistent, run-IsConsistent}
use pobj.Store.ReadBack.{open_object-Matches, open_object-ok}
use pobj.Store.Names.{not_below, object_path, bucket_dir, valid_bucket}
use pobj.Store.Listing.{metas_of, listed_keys}
use pobj.Store.Consistent.Puts.{IsFresh}
use pobj.Store.Consistent.{IsConsistent}
use pobj.Dict.{IsMap, get, Dict}
use pobj.Store.PutGet.{open_object-put_object}
use pobj.Store.Objects.{get_object_meta, open_object, put_object, delete_object}
use pobj.Exec.{Result, failed, err, ok}
use pobj.Store.Durable.{
  run-not_torn, create_bucket-forgotten, here, next, Written, Serves-IsDurable,
  empty_store-IsDurable, Decodes, run-IsDurable, IsDurable,
}
use pobj.Text.{has_prefix, Text, lit}
use pobj.Store.Ops.{Op, run}
use pobj.Store.{ObjectRecord, Store, BucketState, decode, ObjectMeta, MetaState}
use pobj.Store.Buckets.{create_bucket}
use pobj.Prelude.{ap, List, subst, false, ◌++◌, [], ◌⊎◌, ◌∷◌, none, length, ℕ, arith, ◌≡◌, refl}
use pobj.Tests.Fixtures.{record_a, fresh_bucket, disk_full, later, one_bucket, no_files, tiny, calm}

create_photos : (create_bucket tiny calm (lit "photos") no_files).0 ≡ ok tt
unfolding create_bucket valid_bucket get
create_photos = refl

decodes :
    (state : MetaState) (b : Text)
    → tiny.marshal state ≡ ok b
    → decode tiny b ≡ ok state
    → Decodes tiny state
decodes state b m d b' m' = ground (arith, m, d)

run-IsDurable_example : IsDurable tiny (run tiny calm (Op.create_bucket (lit "photos")) no_files).1
unfolding run create_bucket valid_bucket get encode_names decode decode_names
run-IsDurable_example =
    run-IsDurable tiny calm (Op.create_bucket (lit "photos")) no_files
      (empty_store-IsDurable tiny (lit "/data")) refl
      (decodes one_bucket.state (lit "{photos;") refl refl)

abbrev meta_a : ObjectMeta
meta_a = record {
  bucket = lit "photos";
  key = lit "a";
  size = 2;
  etag = lit "hash of hi";
  mod_time = 0;
  path = lit "/data/objects/photos/ab";
}

put_a : (put_object tiny calm (lit "photos") (lit "a") (lit "hi") one_bucket).0 ≡ ok meta_a
unfolding put_object write_file record_object
put_a = refl

open_object-put_object_example :
    (◌≡◌ {A = ℕ} 2 2)
    × (lit "hash of hi" ≡ tiny.sha256_hex (lit "hi"))
    × (open_object tiny later
          (lit "photos")
          (lit "a")
          (put_object tiny calm (lit "photos") (lit "a") (lit "hi") one_bucket).1
        ≡ ok (meta_a, lit "hi"))
open_object-put_object_example =
    open_object-put_object tiny calm later (lit "photos") (lit "a") (lit "hi") one_bucket put_a refl

-- The store that the empty one becomes by a CreateBucket and a PutObject.
abbrev created : Store
created = (run tiny calm (Op.create_bucket (lit "photos")) no_files).1

abbrev put_a_op : Op
put_a_op = Op.put_object (lit "photos") (lit "a") (lit "hi")

abbrev pub stored : Store
stored = (run tiny calm put_a_op created).1

created-IsConsistent : IsConsistent tiny created
created-IsConsistent =
    run-IsConsistent tiny calm (Op.create_bucket (lit "photos")) no_files
      (empty_store-IsConsistent tiny (lit "/data")) tt

no_file-created : (path : Text) → get created.disk.files path ≡ none
unfolding run create_bucket get valid_bucket
no_file-created path = refl

run-IsConsistent_example : IsConsistent tiny stored
run-IsConsistent_example =
    run-IsConsistent tiny calm put_a_op created created-IsConsistent
      (λ bytes e. no_file-created (object_path created.data_dir (lit "photos") (hex_encode bytes)))

pub stored-IsConsistent : IsConsistent tiny stored
stored-IsConsistent =
    run-IsConsistent tiny calm put_a_op created created-IsConsistent
      (λ bytes e. no_file-created (object_path created.data_dir (lit "photos") (hex_encode bytes)))

meta-stored : get_object_meta tiny (lit "photos") (lit "a") stored ≡ ok meta_a
unfolding run create_bucket put_object get_object_meta valid_bucket write_file record_object
meta-stored = refl

read-stored : open_object tiny calm (lit "photos") (lit "a") stored ≡ ok (meta_a, lit "hi")
unfolding run create_bucket put_object open_object valid_bucket write_file record_object
read-stored = refl

open_object-Matches_example :
    (meta_a.bucket ≡ lit "photos")
    × (meta_a.key ≡ lit "a")
    × (◌≡◌ {A = ℕ} 2 (length (lit "hi")))
    × (meta_a.etag ≡ tiny.sha256_hex (lit "hi"))
open_object-Matches_example =
    open_object-Matches tiny calm (lit "photos") (lit "a") stored stored-IsConsistent read-stored

open_object-ok_example :
    (content : Text) × (open_object tiny calm (lit "photos") (lit "a") stored
      ≡ ok (meta_a, content))
open_object-ok_example =
    open_object-ok tiny calm (lit "photos") (lit "a") stored stored-IsConsistent refl meta-stored

a_not_b : (lit "photos" ≡ lit "photos") × (lit "a" ≡ lit "b") → ⊥
a_not_b h = ground (arith, h.1)

abbrev pub drawn_of : Result (List ℕ) → List ℕ
drawn_of (ok bytes) = bytes
drawn_of (err e) = []

stored-IsFresh : IsFresh tiny later (lit "photos") stored
unfolding run create_bucket put_object valid_bucket write_file record_object
stored-IsFresh bytes e =
    subst
      (λ drawn.
        get stored.disk.files (object_path stored.data_dir (lit "photos") (hex_encode drawn))
        ≡ none)
      (ap drawn_of e) refl

deleted-stored : (delete_object tiny calm (lit "photos") (lit "a") stored).0 ≡ ok tt
unfolding run create_bucket put_object delete_object valid_bucket write_file record_object
deleted-stored = refl

deleted_op-ok : (run tiny calm (Op.delete_object (lit "photos") (lit "a")) stored).0 ≡ ok tt
unfolding run
deleted_op-ok = deleted-stored

created_op-ok : (run tiny calm (Op.create_bucket (lit "photos")) no_files).0 ≡ ok tt
unfolding run
created_op-ok = create_photos

put_op-ok : (run tiny calm put_a_op created).0 ≡ ok tt
unfolding run create_bucket put_object valid_bucket write_file record_object get
put_op-ok = refl

abbrev three_ops : List Op
three_ops =
    Op.delete_object (lit "photos") (lit "a") ∷ put_a_op ∷ Op.create_bucket (lit "photos") ∷ []

stored-Trace :
    Trace tiny no_files three_ops
      (run tiny calm (Op.delete_object (lit "photos") (lit "a")) stored).1
stored-Trace = succeeded calm (Op.delete_object (lit "photos") (lit "a")) tt deleted_op-ok (
    succeeded calm put_a_op
      (λ bytes e. no_file-created (object_path created.data_dir (lit "photos") (hex_encode bytes)))
      put_op-ok (succeeded calm (Op.create_bucket (lit "photos")) tt created_op-ok initial))

Trace-view_example :
    view (run tiny calm (Op.delete_object (lit "photos") (lit "a")) stored).1
    ≡ performed three_ops (view no_files)
Trace-view_example =
    Trace-view tiny no_files (run tiny calm (Op.delete_object (lit "photos") (lit "a")) stored).1
      three_ops (empty_store-IsConsistent tiny (lit "/data")) stored-Trace

run-not_torn_example :
    ((run tiny disk_full put_a_op one_bucket).1.disk.meta_file ≡ one_bucket.disk.meta_file)
    ⊎ Written tiny (run tiny disk_full put_a_op one_bucket).1
run-not_torn_example = run-not_torn tiny disk_full put_a_op one_bucket

Serves-IsDurable_example : IsDurable tiny created
unfolding run create_bucket valid_bucket get encode_names decode decode_names
Serves-IsDurable_example = Serves-IsDurable (empty_store-IsDurable tiny (lit "/data")) (
    next calm (Op.create_bucket (lit "photos")) here refl
      (decodes one_bucket.state (lit "{photos;") refl refl))

not_below_example :
    has_prefix
      (bucket_dir (lit "/data") (lit "pho") ++ lit "/")
      (object_path (lit "/data") (lit "photos") (lit "ab"))
    ≡ false
unfolding valid_bucket
not_below_example =
    not_below (lit "/data") (lit "pho") (lit "photos") (lit "ab") refl refl (λ e. ground (arith, e))

-- Three keys, two of them with the prefix, listed one to a page.
abbrev three_keys : Dict ObjectRecord
three_keys = (lit "b/2", record_a) ∷ (lit "a", record_a) ∷ (lit "b/1", record_a) ∷ []

listed : listed_keys (lit "b/") three_keys ≡ lit "b/1" ∷ lit "b/2" ∷ []
unfolding listed_keys
listed = refl

three_keys-IsMap : IsMap three_keys
unfolding get ◌==◌
three_keys-IsMap = (refl, (refl, (refl, tt)))

abbrev three_objects : BucketState
three_objects = record fresh_bucket { objects = three_keys }

abbrev listing_store : Store
listing_store = record no_files { state = (lit "photos", three_objects) ∷ [] }

all_pages_complete_example :
    all_pages 3 tiny (lit "photos") (lit "b/") (pos 1) listing_store (lit "")
    ≡ metas_of tiny (lit "photos") three_keys (listed_keys (lit "b/") three_keys)
unfolding get listed_keys ◌==◌
all_pages_complete_example =
    all_pages_complete tiny (lit "photos") (lit "b/") (pos 1) listing_store three_objects refl 3
      three_keys-IsMap refl (ground arith)

create_bucket-forgotten_example :
    ((create_bucket tiny disk_full (lit "photos") no_files).0
      ≡ err (failed (lit "no space left on device")))
    × ((create_bucket tiny calm
          (lit "photos")
          (create_bucket tiny disk_full (lit "photos") no_files).1).0
        ≡ ok tt)
    × ((create_bucket tiny calm
          (lit "photos")
          (create_bucket tiny disk_full (lit "photos") no_files).1).1.disk.meta_file
        ≡ none)
unfolding valid_bucket get encode_names put
create_bucket-forgotten_example =
    create_bucket-forgotten tiny disk_full calm (lit "photos") (lit "{photos;")
      (failed (lit "no space left on device")) no_files refl refl refl refl refl
