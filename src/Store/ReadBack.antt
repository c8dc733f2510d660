-- ===== src/Store/ReadBack.antt =====
-- What PutObject and DeleteObject do to later reads (internal/objectd/store.go).
use pobj.Prelude.{◌≡◌, refl, Option, none, some, arith, length}
use pobj.Text.{Text}
use pobj.Dict.{get}
use pobj.Exec.{Result, ok, err, not_found}
use pobj.Store.{Store, Platform, Io, BucketState, ObjectRecord, ObjectMeta}
use pobj.Store.Objects.{find_record, get_object_meta, open_object, open_path, meta_of}
use pobj.Store.Consistent.{IsConsistent, Matches}

-- A read in terms of the record that it finds.
unfoldable pub open_record :
    Platform → Io → Text → Text → Store → Option ObjectRecord → Result (ObjectMeta × Text)
unfolding open_path meta_of
open_record lib io bucket key s none = err not_found
open_record lib io bucket key s (some rec) = open_path lib io (meta_of lib bucket key rec) s

pub open_object-open_record :
    (lib : Platform) (io : Io) (bucket key : Text) (s : Store)
    → open_object lib io bucket key s
      ≡ open_record lib io bucket key s (find_record s.state bucket key)
unfolding open_object open_record find_record
open_object-open_record lib io bucket key s = ground arith

meta-find_record :
    (lib : Platform) (bucket key : Text) (s : Store) {m : ObjectMeta}
    → get_object_meta lib bucket key s ≡ ok m
    → (rec : ObjectRecord) × (find_record s.state bucket key ≡ some rec)
      × (m ≡ meta_of lib bucket key rec)
unfolding get_object_meta find_record
meta-find_record lib bucket key s {m} e = from (get s.state bucket) refl
  where
    inner :
        (b : BucketState) (o : Option ObjectRecord)
        → get s.state bucket ≡ some b
        → get b.objects key ≡ o
        → (rec : ObjectRecord) × (find_record s.state bucket key ≡ some rec)
          × (m ≡ meta_of lib bucket key rec)
    inner b none g r = ground arith
    inner b (some rec) g r = (rec, ground arith, ground arith)

    from :
        (o : Option BucketState)
        → get s.state bucket ≡ o
        → (rec : ObjectRecord) × (find_record s.state bucket key ≡ some rec)
          × (m ≡ meta_of lib bucket key rec)
    from none g = ground arith
    from (some b) g = inner b (get b.objects key) g refl

module _ (lib : Platform) (io : Io) (bucket key : Text) (s : Store) where
  -- In a consistent store a read that returns content returns what the metadata says: its length is
  -- the size and its SHA-256 the entity tag.
  pub open_object-Matches :
      {m : ObjectMeta} {content : Text}
      → IsConsistent lib s
      → open_object lib io bucket key s ≡ ok (m, content)
      → (m.bucket ≡ bucket)
        × (m.key ≡ key)
        × (m.size ≡ length content)
        × (m.etag ≡ lib.sha256_hex content)
  unfolding open_record
  open_object-Matches {m} {content} h e = from (find_record s.state bucket key) refl
    where
      file :
          (rec : ObjectRecord) (f : Option Text)
          → find_record s.state bucket key ≡ some rec
          → get s.disk.files rec.path ≡ f
          → Matches lib rec f
          → (m.bucket ≡ bucket)
            × (m.key ≡ key)
            × (m.size ≡ length content)
            × (m.etag ≡ lib.sha256_hex content)
      file rec none g f k = absurd k
      file rec (some c) g f k = ground (arith, open_object-open_record lib io bucket key s)

      from :
          (o : Option ObjectRecord)
          → find_record s.state bucket key ≡ o
          → (m.bucket ≡ bucket)
            × (m.key ≡ key)
            × (m.size ≡ length content)
            × (m.etag ≡ lib.sha256_hex content)
      from none g = ground (arith, open_object-open_record lib io bucket key s)
      from (some rec) g = file rec (get s.disk.files rec.path) g refl (h.stored bucket key rec g)

  -- In a consistent store every object that has metadata can be read, if the file system answers
  -- the read.
  pub open_object-ok :
      {m : ObjectMeta}
      → IsConsistent lib s
      → io.read ≡ none
      → get_object_meta lib bucket key s ≡ ok m
      → (content : Text) × (open_object lib io bucket key s ≡ ok (m, content))
  unfolding open_record
  open_object-ok {m} h rd e =
      let (rec, g, q) = meta-find_record lib bucket key s e in
      file rec (get s.disk.files rec.path) g q refl (h.stored bucket key rec g)
    where
      file :
          (rec : ObjectRecord) (f : Option Text)
          → find_record s.state bucket key ≡ some rec
          → m ≡ meta_of lib bucket key rec
          → get s.disk.files rec.path ≡ f
          → Matches lib rec f
          → (content : Text) × (open_object lib io bucket key s ≡ ok (m, content))
      file rec none g q f k = absurd k
      file rec (some c) g q f k = (c, ground (arith, open_object-open_record lib io bucket key s))
