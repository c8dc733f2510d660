-- ===== src/Store/Durable.antt =====
-- What a restart reads back: metadata.json against the state in memory.
use pobj.Prelude.{◌≡◌, ◌≢◌, refl, ◌⊎◌, inl, inr, Bool, true, Option, none, some, [], arith}
use pobj.Text.{Text, ==-refl}
use pobj.Exec.{Error, Result, ok, err}
use pobj.Store.{
  Store, Disk, Platform, Io, MetaState, BucketState, ObjectMeta, AccessKey, persist_locked, decode,
  open_store,
}
use pobj.Store.Names.{valid_bucket}
use pobj.Dict.{get, put, get-put}
use pobj.Store.Buckets.{new_bucket, create_bucket, delete_bucket}
use pobj.Store.Objects.{put_object, write_file, record_object, delete_object}
use pobj.Store.Access.{create_access, put_access, delete_access}
use pobj.Store.Ops.{Op, run}

abbrev pub bytes_of : Result Text → Option Text
bytes_of (ok b) = some b
bytes_of (err e) = none

-- metadata.json holds the state.
pub record Written (lib : Platform) (s : Store) : Type 0 where
  pub on_disk : s.disk.meta_file ≡ bytes_of (lib.marshal s.state)
  pub there : s.disk.meta_file ≢ none

-- Neither the state nor metadata.json changed.
pub record Same (s s' : Store) : Type 0 where
  pub state : s'.state ≡ s.state
  pub meta_file : s'.disk.meta_file ≡ s.disk.meta_file

abbrev pub Saved : Platform → Store → Store → Type 0
Saved lib s s' = Same s s' ⊎ Written lib s'

-- Surroundings where the data directory can be made and read.
abbrev pub readable : Io → Io
readable io = record io { mkdir = none; read = none }

-- A restart, with the data directory readable, finds the state that memory has.
abbrev pub IsDurable : Platform → Store → Type 0
IsDurable lib s = (io : Io) → open_store lib (readable io) s.data_dir s.disk ≡ ok s

-- What encoding/json is relied on for: the bytes written for this state are read as this state.
abbrev pub Decodes : Platform → MetaState → Type 0
Decodes lib state = (b : Text) → lib.marshal state ≡ ok b → decode lib b ≡ ok state

module _ (lib : Platform) (io : Io) where
  persist_locked-Written :
      (s : Store) → (persist_locked lib io s).0 ≡ ok tt → Written lib (persist_locked lib io s).1
  unfolding persist_locked
  persist_locked-Written s h = ground arith

  create_bucket-Saved :
      (name : Text) (s : Store)
      → (create_bucket lib io name s).0 ≡ ok tt
      → Saved lib s (create_bucket lib io name s).1
  unfolding create_bucket
  create_bucket-Saved name s h = ground arith

  delete_bucket-Saved :
      (name : Text) (s : Store)
      → (delete_bucket lib io name s).0 ≡ ok tt
      → Saved lib s (delete_bucket lib io name s).1
  unfolding delete_bucket
  delete_bucket-Saved name s h = ground arith

  -- Writing an object file changes files only.
  pub write_file-meta_file :
      (bucket body : Text) (s : Store)
      → ((write_file lib io bucket body s).1.state ≡ s.state)
        × ((write_file lib io bucket body s).1.data_dir ≡ s.data_dir)
        × ((write_file lib io bucket body s).1.disk.meta_file ≡ s.disk.meta_file)
  unfolding write_file
  write_file-meta_file bucket body s = ground arith

  pub data_dir-record_object :
      (bucket key : Text) (b : BucketState) (body path : Text) (s : Store)
      → (record_object lib io bucket key b body path s).1.data_dir ≡ s.data_dir
  unfolding record_object
  data_dir-record_object bucket key b body path s = ground arith

  put_object-Saved :
      (bucket key body : Text) (s : Store) {m : ObjectMeta}
      → (put_object lib io bucket key body s).0 ≡ ok m
      → Saved lib s (put_object lib io bucket key body s).1
  unfolding put_object record_object
  put_object-Saved bucket key body s h = ground (arith, write_file-meta_file bucket body s)

  delete_object-Saved :
      (bucket key : Text) (s : Store)
      → (delete_object lib io bucket key s).0 ≡ ok tt
      → Saved lib s (delete_object lib io bucket key s).1
  unfolding delete_object
  delete_object-Saved bucket key s h = ground arith

  create_access-Saved :
      (bucket : Text) (read_only : Bool) (s : Store) {a : AccessKey}
      → (create_access lib io bucket read_only s).0 ≡ ok a
      → Saved lib s (create_access lib io bucket read_only s).1
  unfolding create_access
  create_access-Saved bucket read_only s h = ground arith

  put_access-Saved :
      (a : AccessKey) (s : Store)
      → (put_access lib io a s).0 ≡ ok tt
      → Saved lib s (put_access lib io a s).1
  unfolding put_access
  put_access-Saved a s h = ground arith

  delete_access-Saved :
      (access_key : Text) (s : Store)
      → (delete_access lib io access_key s).0 ≡ ok tt
      → Saved lib s (delete_access lib io access_key s).1
  unfolding delete_access
  delete_access-Saved access_key s h = ground arith

  run-Saved : (op : Op) (s : Store) → (run lib io op s).0 ≡ ok tt → Saved lib s (run lib io op s).1
  unfolding run
  run-Saved (Op.create_bucket name) s h = create_bucket-Saved name s h
  run-Saved (Op.delete_bucket name) s h = delete_bucket-Saved name s h
  run-Saved (Op.put_object bucket key body) s h = grind (arith, put_object-Saved)
  run-Saved (Op.delete_object bucket key) s h = delete_object-Saved bucket key s h
  run-Saved (Op.create_access bucket read_only) s h = grind (arith, create_access-Saved)
  run-Saved (Op.put_access a) s h = put_access-Saved a s h
  run-Saved (Op.delete_access access_key) s h = delete_access-Saved access_key s h

  data_dir-run : (op : Op) (s : Store) → (run lib io op s).1.data_dir ≡ s.data_dir
  unfolding run create_bucket delete_bucket put_object record_object delete_object create_access
      put_access delete_access
  data_dir-run (Op.create_bucket name) s = ground arith
  data_dir-run (Op.put_object bucket key body) s =
      ground (arith, write_file-meta_file bucket body s)
  data_dir-run _ s = ground arith

  -- Whatever fails on the way, metadata.json is not torn: after an operation, successful or not, it
  -- is the file from before or a whole snapshot of the state that memory has then.
  pub run-not_torn :
      (op : Op) (s : Store)
      → ((run lib io op s).1.disk.meta_file ≡ s.disk.meta_file) ⊎ Written lib (run lib io op s).1
  unfolding run create_bucket delete_bucket put_object record_object delete_object create_access
      put_access delete_access
  run-not_torn (Op.create_bucket name) s = ground arith
  run-not_torn (Op.put_object bucket key body) s =
      ground (arith, write_file-meta_file bucket body s)
  run-not_torn _ s = ground arith

Written-IsDurable :
    (lib : Platform) (s : Store) → Written lib s → Decodes lib s.state → IsDurable lib s
unfolding open_store
Written-IsDurable lib s w d io = from (lib.marshal s.state) refl
  where
    from :
        (r : Result Text)
        → lib.marshal s.state ≡ r
        → open_store lib (readable io) s.data_dir s.disk ≡ ok s
    from (ok b) e = ground (arith, d b e)
    from (err x) e = ground arith

-- An operation that reports success leaves a durable store durable: a restart right after it, with
-- the data directory readable, finds the very state that memory has. Assumed is that the JSON of
-- that state is read back as it.
pub run-IsDurable :
    (lib : Platform) (io : Io) (op : Op) (s : Store)
    → IsDurable lib s
    → (run lib io op s).0 ≡ ok tt
    → Decodes lib (run lib io op s).1.state
    → IsDurable lib (run lib io op s).1
unfolding open_store
run-IsDurable lib io op s h done d = from (run-Saved lib io op s done)
  where
    from : Saved lib s (run lib io op s).1 → IsDurable lib (run lib io op s).1
    from (inl same) io' = ground (arith, h io', data_dir-run lib io op s)
    from (inr w) io' = Written-IsDurable lib (run lib io op s).1 w d io'

-- The serving of requests one after another, each with what its surroundings answer.
pub data Serves (lib : Platform) (s : Store) : Store → Type 0 where
  here : Serves lib s s
  next :
      {t : Store} (io : Io) (op : Op)
      → Serves lib s t
      → (run lib io op t).0 ≡ ok tt
      → Decodes lib (run lib io op t).1.state
      → Serves lib s (run lib io op t).1

-- From a durable store, such as the one on an empty data directory, any number of successful
-- operations leaves a durable store, which a restart finds again. Assumed is, for each state
-- written, that its JSON is read back as it.
pub Serves-IsDurable :
    {lib : Platform} {s t : Store} → IsDurable lib s → Serves lib s t → IsDurable lib t
Serves-IsDurable h here = h
Serves-IsDurable {lib} h (next {t = t} io op r done d) =
    run-IsDurable lib io op t (Serves-IsDurable h r) done d

abbrev pub empty_disk : Disk
empty_disk = record { files = []; meta_file = none; tmp_file = none }

abbrev pub empty_store : Text → Store
empty_store data_dir = record { data_dir = data_dir; state = []; disk = empty_disk }

pub empty_store-IsDurable :
    (lib : Platform) (data_dir : Text) → IsDurable lib (empty_store data_dir)
unfolding open_store
empty_store-IsDurable lib data_dir io = ground arith

-- A create of a valid name that is not taken, which fails to write metadata.json, is remembered by
-- memory alone: the first call reports the error, the next call for that name reports success at
-- once, and metadata.json is still as it was before the first.
pub create_bucket-forgotten :
    (lib : Platform) (io io' : Io) (name b : Text) (e : Error) (s : Store)
    → valid_bucket name ≡ true
    → get s.state name ≡ none
    → io.mkdir ≡ none
    → lib.marshal (put s.state name (new_bucket lib io)) ≡ ok b
    → io.write ≡ some e
    → ((create_bucket lib io name s).0 ≡ err e)
      × ((create_bucket lib io' name (create_bucket lib io name s).1).0 ≡ ok tt)
      × ((create_bucket lib io' name (create_bucket lib io name s).1).1.disk.meta_file
          ≡ s.disk.meta_file)
unfolding create_bucket
create_bucket-forgotten lib io io' name b e s v g mk m w =
    ground (arith, get-put s.state name name (new_bucket lib io), ==-refl name)
