-- ===== src/Store/Buckets.antt =====
-- internal/objectd/store.go: CreateBucket, DeleteBucket, ListBuckets.
use pobj.Prelude.{Bool, true, ◌&&◌, none, some, List, [], ◌∷◌, ◌++◌, map, if◌then◌else◌, not}
use pobj.Text.{Text, lit, has_prefix, le_text}
use pobj.Dict.{Dict, get, put, delete}
use pobj.Sort.{sort}
use pobj.Exec.{ok, err, Exec, not_found, failed, modify, attempt, ◌>>◌}
use pobj.Store.{Store, Platform, Io, BucketState, Bucket, persist_locked}
use pobj.Store.Names.{valid_bucket, bucket_dir}

-- The files below the directory that are removed go.
unfoldable pub remove_below : (Text → Bool) → Text → Dict Text → Dict Text
unfolding has_prefix
remove_below removed dir [] = []
remove_below removed dir ((path, content) ∷ files) =
    if removed path && has_prefix (dir ++ lit "/") path
    then remove_below removed dir files
    else (path, content) ∷ remove_below removed dir files

-- A write into the map, by which the pointer `b` of the source shows the change.
abbrev pub set_bucket : Text → BucketState → Store → Store
set_bucket name b s = record s { state = put s.state name b }

unfoldable pub new_bucket : Platform → Io → BucketState
new_bucket lib io = record { created_at = lib.format_time io.now; objects = []; access = [] }

module _ (lib : Platform) (io : Io) where
  unfoldable pub create_bucket : Text → Exec Store Unit
  unfolding persist_locked put new_bucket
  create_bucket name s =
      if not (valid_bucket name)
      then (err (failed (lit "invalid bucket name")), s)
      else elim (get s.state name) [
        | some b ↦ (ok tt, s)
        | none ↦
            (do
              modify (set_bucket name (new_bucket lib io))
              attempt io.mkdir
              persist_locked lib io)
              s
      ]

  remove_files : (Text → Bool) → Text → Store → Store
  unfolding remove_below bucket_dir
  remove_files removed name s = record s {
    disk = record s.disk { files = remove_below removed (bucket_dir s.data_dir name) s.disk.files };
  }

  -- os.RemoveAll of the directory of the bucket.
  remove_dir : Text → Exec Store Unit
  unfolding remove_files
  remove_dir name s = elim io.remove_all [
    | some e ↦ (err e, remove_files io.removed name s)
    | none ↦ (ok tt, remove_files (λ path. true) name s)
  ]

  unfoldable pub delete_bucket : Text → Exec Store Unit
  unfolding persist_locked delete remove_dir
  delete_bucket name s = elim (get s.state name) [
    | none ↦ (err not_found, s)
    | some b ↦ elim b.objects [
      | _ ∷ _ ↦ (err (failed (lit "bucket not empty")), s)
      | [] ↦
          (do
            modify (λ s. record s { state = delete s.state name })
            persist_locked lib io
            remove_dir name)
            s
    ]
  ]

bucket_of : Platform → Text × BucketState → Bucket
bucket_of lib (name, b) = record { name = name; created_at = lib.parse_time b.created_at }

unfoldable pub list_buckets : Platform → Store → List Bucket
unfolding sort bucket_of
list_buckets lib s = sort (λ a b. le_text a.name b.name) (map (bucket_of lib) s.state)
