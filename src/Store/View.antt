-- ===== src/Store/View.antt =====
-- The object store (internal/objectd/store.go) as a function from buckets and keys to contents.
use pobj.Prelude.{◌≡◌, refl, ap, ◌∙◌, ◌&&◌, Option, some, none, arith, if◌then◌else◌}
use pobj.Text.{Text, ◌==◌, ==_iff}
use pobj.Dict.{get, delete, get-put, get-delete}
use pobj.Store.{Store, Platform, Io, BucketState, ObjectRecord}
use pobj.Store.Buckets.{create_bucket, delete_bucket, new_bucket}
use pobj.Store.Objects.{find_record, delete_object, drop_object}
use pobj.Store.Ops.{Op}
use pobj.Store.Others.{SameRead}
use pobj.Store.Consistent.{IsConsistent, Shrinks}
use pobj.Store.Consistent.Steps.{
  create_bucket-Shrinks, delete_bucket-Shrinks, delete_object-Shrinks,
}
use pobj.Store.Consistent.Grants.{SameObjects, same_record}

-- The content under a bucket and a key.
abbrev pub View : Type 0
View = Text → Text → Option Text

unfoldable pub content_of : Store → Option ObjectRecord → Option Text
unfolding get
content_of s none = none
content_of s (some rec) = get s.disk.files rec.path

unfoldable pub view : Store → View
unfolding find_record content_of
view s bucket key = content_of s (find_record s.state bucket key)

-- What an operation that succeeds is to do.
unfoldable pub applied : Op → View → View
unfolding ◌==◌
applied (Op.put_object bucket key body) v b k = if bucket == b && key == k then some body else v b k
applied (Op.delete_object bucket key) v b k = if bucket == b && key == k then none else v b k
applied _ v b k = v b k

pub view-SameRead : (b k : Text) (s t : Store) → SameRead b k s t → view t b k ≡ view s b k
unfolding view content_of
view-SameRead b k s t h = from (find_record s.state b k) refl
  where
    from : (o : Option ObjectRecord) → find_record s.state b k ≡ o → view t b k ≡ view s b k
    from none e = ground (arith, e, h.found)
    from (some rec) e = ground (arith, e, h.found, h.content rec e)

pub SameObjects-SameRead : (b k : Text) (s t : Store) → SameObjects s t → SameRead b k s t
SameObjects-SameRead b k s t h = record {
  found = same_record s.state t.state b k (h.objects b);
  content = λ rec e. ap (λ f. get f rec.path) h.files;
}

Shrinks-SameRead :
    (b k : Text) (s t : Store)
    → Shrinks s t
    → find_record t.state b k ≡ find_record s.state b k
    → SameRead b k s t
Shrinks-SameRead b k s t h same = record {
  found = same;
  content = λ rec e. h.files b k rec (same ∙ e);
}

module _ (lib : Platform) (io : Io) (b k : Text) where
  pub create_bucket-SameRead :
      (name : Text) (s : Store) → SameRead b k s (create_bucket lib io name s).1
  unfolding create_bucket find_record new_bucket get
  create_bucket-SameRead name s =
      Shrinks-SameRead b k s (create_bucket lib io name s).1 (create_bucket-Shrinks lib io name s)
        (ground (arith, ==_iff name b, get-put s.state name b (new_bucket lib io)))

  pub delete_bucket-SameRead :
      (name : Text) (s : Store)
      → IsConsistent lib s
      → SameRead b k s (delete_bucket lib io name s).1
  unfolding delete_bucket find_record get
  delete_bucket-SameRead name s h =
      Shrinks-SameRead b k s (delete_bucket lib io name s).1 (delete_bucket-Shrinks lib io name s h)
        (ground (arith, ==_iff name b, get-delete s.state name b))

  pub delete_object-SameRead :
      (bucket key : Text) (s : Store)
      → ((bucket ≡ b) × (key ≡ k) → ⊥)
      → IsConsistent lib s
      → SameRead b k s (delete_object lib io bucket key s).1
  unfolding delete_object drop_object find_record
  delete_object-SameRead bucket key s other h =
      Shrinks-SameRead b k s (delete_object lib io bucket key s).1
        (delete_object-Shrinks lib io bucket key s h) (from (get s.state bucket) refl)
    where
      from :
          (o : Option BucketState)
          → get s.state bucket ≡ o
          → find_record (delete_object lib io bucket key s).1.state b k ≡ find_record s.state b k
      from none g = ground (arith, g)
      from (some c) g = ground (
        arith,
        g,
        other,
        ==_iff bucket b,
        ==_iff key k,
        get-put s.state bucket b (record c { objects = delete c.objects key }),
        get-delete c.objects key k,
      )
