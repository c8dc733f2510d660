-- ===== src/Store/Frames.antt =====
-- What each step of internal/objectd/store.go does to the object records and to the object files,
-- and what it leaves alone.
use pobj.Prelude.{◌≡◌, ◌≢◌, refl, ℕ, Option, none, some, List, [], arith}
use pobj.Text.{Text, ==_iff, ==-refl}
use pobj.Text.Parts.{hex_encode}
use pobj.Dict.{get, put, get-put, get-delete}
use pobj.Exec.{ok}
use pobj.Store.{Store, Platform, Io, BucketState, ObjectRecord}
use pobj.Store.Names.{object_path}
use pobj.Store.Objects.{new_record, write_file, record_object}

module _ (lib : Platform) (io : Io) where
  -- Only the new file is touched.
  pub files-write_file :
      (bucket body : Text) (bytes : List ℕ) (s : Store) (path : Text)
      → io.random ≡ ok bytes
      → path ≢ object_path s.data_dir bucket (hex_encode bytes)
      → get (write_file lib io bucket body s).1.disk.files path ≡ get s.disk.files path
  unfolding write_file
  files-write_file bucket body bytes s path r ne =
      let files = s.disk.files in
      let new = object_path s.data_dir bucket (hex_encode bytes) in
      ground (
        arith,
        ==_iff new path,
        get-put files new path [],
        get-put (put files new []) new path body,
        get-put (put files new []) new path io.partial,
        get-delete (put (put files new []) new body) new path,
        get-delete (put (put files new []) new io.partial) new path,
      )

  -- If the step succeeds, the new file holds the body.
  pub write_file-ok :
      (bucket body : Text) (bytes : List ℕ) (s : Store) {path : Text}
      → io.random ≡ ok bytes
      → (write_file lib io bucket body s).0 ≡ ok path
      → (path ≡ object_path s.data_dir bucket (hex_encode bytes))
        × (get (write_file lib io bucket body s).1.disk.files path ≡ some body)
  unfolding write_file
  write_file-ok bucket body bytes s r h =
      let files = s.disk.files in
      let new = object_path s.data_dir bucket (hex_encode bytes) in
      ground (arith, ==-refl new, get-put (put files new []) new new body)

  -- The record is written, also if metadata.json is not.
  pub state-record_object :
      (bucket key : Text) (b : BucketState) (body path : Text) (s : Store)
      → (record_object lib io bucket key b body path s).1.state
        ≡ put s.state bucket
            (record b { objects = put b.objects key (new_record lib io body path) })
  unfolding record_object
  state-record_object bucket key b body path s = ground arith

  -- At most the file of the record that the key had is removed.
  pub files-record_object :
      (bucket key : Text) (b : BucketState) (body path : Text) (s : Store) (q : Text)
      → ((rec : ObjectRecord) → get b.objects key ≡ some rec → (rec.path ≡ q) → path ≡ q)
      → get (record_object lib io bucket key b body path s).1.disk.files q ≡ get s.disk.files q
  unfolding record_object
  files-record_object bucket key b body path s q other = from (get b.objects key) refl
    where
      from :
          (o : Option ObjectRecord)
          → get b.objects key ≡ o
          → get (record_object lib io bucket key b body path s).1.disk.files q ≡ get s.disk.files q
      from none e = ground arith
      from (some rec) e = ground (
        arith,
        other rec e,
        ==_iff rec.path path,
        ==_iff rec.path q,
        get-delete s.disk.files rec.path q,
      )
