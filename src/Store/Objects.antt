-- ===== src/Store/Objects.antt =====
-- internal/objectd/store.go: PutObject, GetObjectMeta, OpenObject, DeleteObject.
use pobj.Prelude.{ℕ, Option, none, some, List, [], if◌then◌else◌, not, length}
use pobj.Text.{Text, lit, ◌==◌}
use pobj.Text.Parts.{hex_encode}
use pobj.Dict.{Dict, get, put, delete}
use pobj.Exec.{
  Result, ok, err, Exec, not_found, failed, pure, fail, modify, attempt, lift, gets, ◌>>=◌, ◌>>◌,
}
use pobj.Store.{
  Store, Platform, Io, BucketState, MetaState, ObjectRecord, ObjectMeta, persist_locked,
}
use pobj.Store.Names.{object_path}
use pobj.Store.Buckets.{set_bucket}

abbrev pub set_files : (Dict Text → Dict Text) → Store → Store
set_files f s = record s { disk = record s.disk { files = f s.disk.files } }

-- The two `ok` tests of a read: the bucket, then the key.
unfoldable pub find_record : MetaState → Text → Text → Option ObjectRecord
unfolding get
find_record state bucket key = elim (get state bucket) [ none ↦ none | some b ↦ get b.objects key ]

unfoldable pub meta_of : Platform → Text → Text → ObjectRecord → ObjectMeta
meta_of lib bucket key rec = record {
  bucket = bucket;
  key = key;
  size = rec.size;
  etag = rec.etag;
  mod_time = lib.parse_time rec.mod_time;
  path = rec.path;
}

-- rand.Read and hex.EncodeToString
unfoldable pub random_hex : Result (List ℕ) → Result Text
unfolding hex_encode
random_hex (ok bytes) = ok (hex_encode bytes)
random_hex (err e) = err e

unfoldable pub get_object_meta : Platform → Text → Text → Store → Result ObjectMeta
unfolding meta_of get
get_object_meta lib bucket key s = elim (get s.state bucket) [
  | none ↦ err not_found
  | some b ↦ elim (get b.objects key) [
    | none ↦ err not_found
    | some rec ↦ ok (meta_of lib bucket key rec)
  ]
]

module _ (lib : Platform) (io : Io) where
  -- _ = os.Remove(path)
  unfoldable pub remove_file : Text → Exec Store Unit
  unfolding delete
  remove_file path s = elim io.remove [
    | none ↦ (ok tt, set_files (λ files. delete files path) s)
    | some e ↦ (ok tt, s)
  ]

  -- os.Create(path)
  create_file : Text → Exec Store Unit
  unfolding put
  create_file path s = elim io.create [
    | none ↦ (ok tt, set_files (λ files. put files path []) s)
    | some e ↦ (err e, s)
  ]

  abbrev remove_and_fail : Text → Exec Store Unit → Exec Store Unit
  remove_and_fail path m s = let (r, s') = remove_file path s in m s'

  -- io.Copy(io.MultiWriter(f, h), body) and f.Close(), with what follows their errors.
  copy_body : Text → Text → Exec Store Unit
  unfolding remove_file put
  copy_body path body s = elim io.copy [
    | some e ↦
        (do modify (set_files (λ files. put files path io.partial)); remove_file path; fail e) s
    | none ↦
        (do
          modify (set_files (λ files. put files path body))
          elim io.close [ none ↦ pure tt | some e ↦ (do remove_file path; fail e) ])
          s
  ]

  -- if prev, ok := b.Objects[key]; ok && prev.Path != path { _ = os.Remove(prev.Path) }
  remove_previous : Option ObjectRecord → Text → Exec Store Unit
  unfolding remove_file ◌==◌
  remove_previous none path = pure tt
  remove_previous (some prev) path =
      if not (prev.path == path) then remove_file prev.path else pure tt

  unfoldable pub new_record : Text → Text → ObjectRecord
  new_record body path = record {
    size = length body;
    etag = lib.sha256_hex body;
    mod_time = lib.format_time io.now;
    path = path;
  }

  -- From MkdirAll to the checks of the two errors: the object file is written, and has this path.
  unfoldable pub write_file : Text → Text → Exec Store Text
  unfolding object_path random_hex create_file copy_body
  write_file bucket body = do
    attempt io.mkdir
    id ← lift (random_hex io.random)
    path ← gets (λ s. object_path s.data_dir bucket id)
    create_file path
    copy_body path body
    pure path

  -- From the removal of the previous file to the return.
  unfoldable pub record_object : Text → Text → BucketState → Text → Text → Exec Store ObjectMeta
  unfolding remove_previous new_record persist_locked put get
  record_object bucket key b body path = do
    remove_previous (get b.objects key) path
    modify (set_bucket bucket (record b { objects = put b.objects key (new_record body path) }))
    persist_locked lib io
    pure (record {
      bucket = bucket;
      key = key;
      size = length body;
      etag = lib.sha256_hex body;
      mod_time = io.now;
      path = path;
    })

  -- What stands behind the first two tests; `b` is the bucket that they found.
  unfoldable pub store_object : Text → Text → BucketState → Text → Exec Store ObjectMeta
  store_object bucket key b body = do
    path ← write_file bucket body
    record_object bucket key b body path

  unfoldable pub put_object : Text → Text → Text → Exec Store ObjectMeta
  unfolding store_object ◌==◌ get
  put_object bucket key body s = elim (get s.state bucket) [
    | none ↦ (err not_found, s)
    | some b ↦
        if key == lit ""
        then (err (failed (lit "empty key")), s)
        else store_object bucket key b body s
  ]

  -- os.Open and a read of the whole file.
  unfoldable pub open_path : ObjectMeta → Store → Result (ObjectMeta × Text)
  unfolding get
  open_path m s = elim (get s.disk.files m.path) [
    | none ↦ err not_found
    | some content ↦ elim io.read [ none ↦ ok (m, content) | some e ↦ err e ]
  ]

  unfoldable pub open_object : Text → Text → Store → Result (ObjectMeta × Text)
  unfolding get_object_meta open_path
  open_object bucket key s = elim (get_object_meta lib bucket key s) [
    | err e ↦ err e
    | ok m ↦ open_path m s
  ]

  -- What stands behind the two tests, for the record that they found.
  unfoldable pub drop_object : Text → Text → BucketState → ObjectRecord → Exec Store Unit
  unfolding persist_locked delete remove_file
  drop_object bucket key b rec = do
    modify (set_bucket bucket (record b { objects = delete b.objects key }))
    persist_locked lib io
    remove_file rec.path

  unfoldable pub delete_object : Text → Text → Exec Store Unit
  unfolding drop_object get
  delete_object bucket key s = elim (get s.state bucket) [
    | none ↦ (err not_found, s)
    | some b ↦ elim (get b.objects key) [
      | none ↦ (ok tt, s)
      | some rec ↦ drop_object bucket key b rec s
    ]
  ]
