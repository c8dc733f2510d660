-- ===== src/Store/PutGet.antt =====
-- What a read finds behind a PutObject (internal/objectd/store.go).
use pobj.Prelude.{
  ◌≡◌, refl, sym, ◌∙◌, ap, Option, none, some, List, arith, length, true, false, Bool, ℕ,
}
use pobj.Text.{Text, lit, ◌==◌, ==-refl}
use pobj.Dict.{get, get-put}
use pobj.Exec.{Result, ok, err}
use pobj.Store.{Store, Platform, Io, BucketState, ObjectMeta}
use pobj.Store.Objects.{
  find_record, open_object, put_object, store_object, write_file, record_object, new_record,
}
use pobj.Store.Frames.{write_file-ok, state-record_object, files-record_object}
use pobj.Store.Consistent.Puts.{no_name}
use pobj.Store.Consistent.Steps.{find_record-put}
use pobj.Store.ReadBack.{open_record, open_object-open_record}

module _ (lib : Platform) (io : Io) (bucket key : Text) where
  -- The metadata that a successful put returns.
  abbrev pub put_meta : Text → Text → ObjectMeta
  put_meta body path = record {
    bucket = bucket;
    key = key;
    size = length body;
    etag = lib.sha256_hex body;
    mod_time = io.now;
    path = path;
  }

  record_object-ok :
      (b : BucketState) (body path : Text) (s : Store) {m : ObjectMeta}
      → (record_object lib io bucket key b body path s).0 ≡ ok m
      → m ≡ put_meta body path
  unfolding record_object
  record_object-ok b body path s h = ground arith

  -- What the state and the files are behind a successful put.
  pub record Stored (body : Text) (m : ObjectMeta) (t : Store) : Type 0 where
    pub meta : m ≡ put_meta body m.path
    pub found : find_record t.state bucket key ≡ some (new_record lib io body m.path)
    pub content : get t.disk.files m.path ≡ some body

  record_object-Stored :
      (b : BucketState) (body path : Text) (s : Store) {m : ObjectMeta}
      → get s.disk.files path ≡ some body
      → (record_object lib io bucket key b body path s).0 ≡ ok m
      → Stored body m (record_object lib io bucket key b body path s).1
  record_object-Stored b body path s {m} w h =
      let e = record_object-ok b body path s h in
      let at : m.path ≡ path = ap (λ (x : ObjectMeta). x.path) e in
      record {
        meta = e ∙ ap (put_meta body) (sym at);
        found =
            rw
              (
                state-record_object lib io bucket key b body path s,
                find_record-put,
                ==-refl bucket,
                at,
                get-put,
                ==-refl key,
              )
              refl;
        content =
            rw (at, files-record_object lib io bucket key b body path s path (λ rec e p. refl)) w;
      }

  store_object-Stored :
      (b : BucketState) (body : Text) (s : Store) {m : ObjectMeta}
      → (store_object lib io bucket key b body s).0 ≡ ok m
      → Stored body m (store_object lib io bucket key b body s).1
  unfolding store_object
  store_object-Stored b body s {m} h = from (write_file lib io bucket body s).0 io.random refl refl
    where
      from :
          (o : Result Text) (r : Result (List ℕ))
          → (write_file lib io bucket body s).0 ≡ o
          → io.random ≡ r
          → Stored body m (store_object lib io bucket key b body s).1
      from (err x) r e f = absurd (ground arith)
      from (ok path) (err x) e f = absurd (no_name lib io bucket body path s x f e)
      from (ok path) (ok bytes) e f =
          rw (e, store_object)
            (record_object-Stored b body path (write_file lib io bucket body s).1
              (write_file-ok lib io bucket body bytes s f e).1 (rw (e, store_object) at h))

  pub put_object-Stored :
      (body : Text) (s : Store) {m : ObjectMeta}
      → (put_object lib io bucket key body s).0 ≡ ok m
      → Stored body m (put_object lib io bucket key body s).1
  unfolding put_object
  put_object-Stored body s {m} h = from (get s.state bucket) (key == lit "") refl refl
    where
      from :
          (o : Option BucketState) (empty : Bool)
          → get s.state bucket ≡ o
          → (key == lit "") ≡ empty
          → Stored body m (put_object lib io bucket key body s).1
      from none empty g e = absurd (ground arith)
      from (some b) true g e = absurd (ground arith)
      from (some b) false g e =
          rw (g, e, put_object) (store_object-Stored b body s (rw (g, e, put_object) at h))

-- A successful PutObject is read back, if the file system answers the read: a read of the key
-- returns the bytes that were put, with their length as the size and their SHA-256 as the entity
-- tag.
pub open_object-put_object :
    (lib : Platform) (io io' : Io) (bucket key body : Text) (s : Store) {m : ObjectMeta}
    → (put_object lib io bucket key body s).0 ≡ ok m
    → io'.read ≡ none
    → (m.size ≡ length body)
      × (m.etag ≡ lib.sha256_hex body)
      × (open_object lib io' bucket key (put_object lib io bucket key body s).1
          ≡ ok (record m { mod_time = lib.parse_time (lib.format_time io.now) }, body))
unfolding open_record new_record
open_object-put_object lib io io' bucket key body s {m} h rd =
    let t : Store = (put_object lib io bucket key body s).1 in
    let st = put_object-Stored lib io bucket key body s h in
    (
      ap (λ (x : ObjectMeta). x.size) st.meta,
      ap (λ (x : ObjectMeta). x.etag) st.meta,
      ground (arith, open_object-open_record lib io' bucket key t, st.meta, st.found, st.content),
    )
