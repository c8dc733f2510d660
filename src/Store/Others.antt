-- ===== src/Store/Others.antt =====
-- PutObject and DeleteObject leave every other object as it is (internal/objectd/store.go).
use pobj.Text.{==-refl, lit, ◌==◌, ==_iff}
use pobj.Exec.{not_found, ok, err, Result}
use pobj.Store.Frames.{state-record_object}
use pobj.Dict.{get-delete, delete, put, get-put, get}
use pobj.Store.Objects.{
  drop_object, delete_object, put_object, new_record, write_file, record_object, open_object,
  store_object, find_record,
}
use pobj.Prelude.{false, true, Bool, none, ap, refl, arith, some, Option, ◌∙◌, ◌≡◌}
use pobj.Store.ReadBack.{open_object-open_record, open_record}
use pobj.Store.{ObjectRecord, BucketState, Store, Text, Io, Platform}
use pobj.Store.Consistent.Puts.{IsFresh, kept_file, write_file-files, write_file-Shrinks}
use pobj.Store.Consistent.{IsConsistent, Shrinks-IsConsistent}
use pobj.Store.Durable.{write_file-meta_file}

-- A read at one place finds the same in `t` as in `s`.
pub record SameRead (bucket key : Text) (s t : Store) : Type 0 where
  pub found : find_record t.state bucket key ≡ find_record s.state bucket key
  pub content :
      (rec : ObjectRecord)
      → find_record s.state bucket key ≡ some rec
      → get t.disk.files rec.path ≡ get s.disk.files rec.path

pub SameRead-refl : (bucket key : Text) (s : Store) → SameRead bucket key s s
SameRead-refl bucket key s = record { found = refl; content = λ rec e. refl }

SameRead-trans :
    (bucket key : Text) (s t u : Store)
    → SameRead bucket key s t
    → SameRead bucket key t u
    → SameRead bucket key s u
SameRead-trans bucket key s t u h k = record {
  found = k.found ∙ h.found;
  content = λ rec e. k.content rec (h.found ∙ e) ∙ h.content rec e;
}

pub open_object-SameRead :
    (lib : Platform) (io : Io) (bucket key : Text) (s t : Store)
    → SameRead bucket key s t
    → open_object lib io bucket key t ≡ open_object lib io bucket key s
unfolding open_record
open_object-SameRead lib io bucket key s t h = from (find_record s.state bucket key) refl
  where
    from :
        (o : Option ObjectRecord)
        → find_record s.state bucket key ≡ o
        → open_object lib io bucket key t ≡ open_object lib io bucket key s
    from none e = ground (
      arith,
      h.found,
      open_object-open_record lib io bucket key s,
      open_object-open_record lib io bucket key t,
    )
    from (some rec) e = ground (
      arith,
      h.found,
      h.content rec e,
      open_object-open_record lib io bucket key s,
      open_object-open_record lib io bucket key t,
    )

module _ (lib : Platform) (io : Io) (bucket key : Text) (bucket' key' : Text)
    (other : (bucket ≡ bucket') × (key ≡ key') → ⊥) where
  record_object-SameRead :
      (b : BucketState) (body path : Text) (s : Store)
      → IsConsistent lib s
      → get s.state bucket ≡ some b
      → SameRead bucket' key' s (record_object lib io bucket key b body path s).1
  unfolding find_record
  record_object-SameRead b body path s h g = record {
    found = ground (
      arith,
      other,
      state-record_object lib io bucket key b body path s,
      ==_iff bucket bucket',
      ==_iff key key',
      get-put s.state bucket bucket'
          (record b { objects = put b.objects key (new_record lib io body path) }),
      get-put b.objects key key' (new_record lib io body path),
    );
    content = λ rec e. kept_file lib io bucket key b body path s bucket' key' rec h g e other;
  }

  store_object-SameRead :
      (b : BucketState) (body : Text) (s : Store)
      → IsConsistent lib s
      → IsFresh lib io bucket s
      → get s.state bucket ≡ some b
      → SameRead bucket' key' s (store_object lib io bucket key b body s).1
  unfolding store_object
  store_object-SameRead b body s h fresh g = from (write_file lib io bucket body s).0 refl
    where
      w : Store
      w = (write_file lib io bucket body s).1

      state : w.state ≡ s.state
      state = (write_file-meta_file lib io bucket body s).0

      written : SameRead bucket' key' s w
      written = record {
        found = ap (λ st. find_record st bucket' key') state;
        content = λ rec e. write_file-files lib io bucket key body s bucket' key' rec h fresh e;
      }

      after_write : IsConsistent lib w
      after_write = Shrinks-IsConsistent h (write_file-Shrinks lib io bucket body s h fresh)

      from :
          (o : Result Text)
          → (write_file lib io bucket body s).0 ≡ o
          → SameRead bucket' key' s (store_object lib io bucket key b body s).1
      from (err x) e = rw (e, store_object) written
      from (ok path) e =
          rw (e, store_object)
            (SameRead-trans bucket' key' s w (record_object lib io bucket key b body path w).1
              written (record_object-SameRead b body path w after_write (rw state g)))

  pub put_object-SameRead :
      (body : Text) (s : Store)
      → IsConsistent lib s
      → IsFresh lib io bucket s
      → SameRead bucket' key' s (put_object lib io bucket key body s).1
  unfolding put_object
  put_object-SameRead body s h fresh = from (get s.state bucket) (key == lit "") refl refl
    where
      from :
          (o : Option BucketState) (empty : Bool)
          → get s.state bucket ≡ o
          → (key == lit "") ≡ empty
          → SameRead bucket' key' s (put_object lib io bucket key body s).1
      from none empty g e = rw (g, put_object) (SameRead-refl bucket' key' s)
      from (some b) true g e = rw (g, e, put_object) (SameRead-refl bucket' key' s)
      from (some b) false g e = rw (g, e, put_object) (store_object-SameRead b body s h fresh g)

-- PutObject, successful or failed, changes no other object: a GetObject of another bucket or another
-- key has the result that it had before. Assumed is the invariant of the store, and that the put
-- does not draw the name of an existing file.
pub open_object-put_object_ne :
    (lib : Platform) (io io' : Io) (bucket key bucket' key' body : Text) (s : Store)
    → ((bucket ≡ bucket') × (key ≡ key') → ⊥)
    → IsConsistent lib s
    → IsFresh lib io bucket s
    → open_object lib io' bucket' key' (put_object lib io bucket key body s).1
      ≡ open_object lib io' bucket' key' s
open_object-put_object_ne lib io io' bucket key bucket' key' body s other h fresh =
    open_object-SameRead lib io' bucket' key' s (put_object lib io bucket key body s).1
      (put_object-SameRead lib io bucket key bucket' key' other body s h fresh)

-- A successful DeleteObject, with the key there or not, leaves no object under the key.
pub open_object-delete_object :
    (lib : Platform) (io io' : Io) (bucket key : Text) (s : Store)
    → (delete_object lib io bucket key s).0 ≡ ok tt
    → open_object lib io' bucket key (delete_object lib io bucket key s).1 ≡ err not_found
unfolding delete_object drop_object find_record open_record
open_object-delete_object lib io io' bucket key s h = ground (
  arith,
  open_object-open_record lib io' bucket key (delete_object lib io bucket key s).1,
  gone (get s.state bucket) refl,
)
  where
    inner :
        (b : BucketState) (o : Option ObjectRecord)
        → get s.state bucket ≡ some b
        → get b.objects key ≡ o
        → find_record (delete_object lib io bucket key s).1.state bucket key ≡ none
    inner b none g r = ground arith
    inner b (some rec) g r = ground (
      arith,
      ==-refl bucket,
      ==-refl key,
      get-put s.state bucket bucket (record b { objects = delete b.objects key }),
      get-delete b.objects key key,
    )

    gone :
        (o : Option BucketState)
        → get s.state bucket ≡ o
        → find_record (delete_object lib io bucket key s).1.state bucket key ≡ none
    gone none g = ground arith
    gone (some b) g = inner b (get b.objects key) g refl
