-- ===== src/Store/Consistent/Steps.antt =====
-- The operations that take records away or leave them keep the invariant.
use pobj.Prelude.{
  Bool, true, [], ◌∷◌, ◌++◌, ◌≡◌, refl, true, false, Option, none, some, arith, if◌then◌else◌,
}
use pobj.Text.{Text, lit, ◌==◌, ==_iff, has_prefix}
use pobj.Dict.{Dict, get, put, delete, get-put, get-delete}
use pobj.Store.{Store, Platform, Io, MetaState, BucketState, ObjectRecord}
use pobj.Store.Names.{valid_bucket, bucket_dir, not_below}
use pobj.Store.Buckets.{new_bucket, create_bucket, delete_bucket, remove_below}
use pobj.Store.Objects.{find_record, drop_object, delete_object}
use pobj.Store.Consistent.{Shrinks-refl, IsConsistent, Shrinks}

pub find_record-put :
    (st : MetaState) (name : Text) (c : BucketState) (bucket key : Text)
    → find_record (put st name c) bucket key
      ≡ (if name == bucket then get c.objects key else find_record st bucket key)
unfolding find_record
find_record-put st name c bucket key = ground (arith, get-put st name bucket c)

pub find_record-delete :
    (st : MetaState) (name bucket key : Text)
    → find_record (delete st name) bucket key
      ≡ (if name == bucket then none else find_record st bucket key)
unfolding find_record
find_record-delete st name bucket key = ground (arith, get-delete st name bucket)

get-remove_below :
    (removed : Text → Bool) (dir : Text) (files : Dict Text) (path : Text)
    → has_prefix (dir ++ lit "/") path ≡ false
    → get (remove_below removed dir files) path ≡ get files path
unfolding remove_below get
get-remove_below removed dir [] path h = refl
get-remove_below removed dir (◌∷◌ (p, c) files) path h =
    ground (arith, ==_iff p path, get-remove_below removed dir files path h)

module _ (lib : Platform) (io : Io) where
  pub create_bucket-Shrinks : (name : Text) (s : Store) → Shrinks s (create_bucket lib io name s).1
  unfolding create_bucket get
  create_bucket-Shrinks name s = record {
    data_dir = ground arith;
    named = λ bucket b e h.
        ground (arith, h b, get-put s.state name bucket (new_bucket lib io), ==_iff name bucket);
    records = λ bucket key rec e.
        ground (arith, find_record-put s.state name (new_bucket lib io) bucket key);
    files = λ bucket key rec e. ground arith;
  }

  -- A record that stands elsewhere has its file elsewhere.
  delete_bucket-files :
      (removed : Text → Bool) (name bucket key : Text) (b : BucketState) (rec : ObjectRecord)
      (s : Store)
      → IsConsistent lib s
      → get s.state name ≡ some b
      → (name == bucket) ≡ false
      → find_record s.state bucket key ≡ some rec
      → get (remove_below removed (bucket_dir s.data_dir name) s.disk.files) rec.path
        ≡ get s.disk.files rec.path
  unfolding find_record
  delete_bucket-files removed name bucket key b rec s h g ne e =
      let (id, at) = h.located bucket key rec e in
      get-remove_below removed (bucket_dir s.data_dir name) s.disk.files rec.path (
        rw at (
          not_below s.data_dir name bucket id (h.named name b g)
            (owner_valid (get s.state bucket) refl) (λ q. cc (ne, (==_iff name bucket).1 q))))
    where
      owner_valid : (o : Option BucketState) → get s.state bucket ≡ o → valid_bucket bucket ≡ true
      owner_valid none x = ground arith
      owner_valid (some c) x = h.named bucket c x

  pub delete_bucket-Shrinks :
      (name : Text) (s : Store) → IsConsistent lib s → Shrinks s (delete_bucket lib io name s).1
  unfolding delete_bucket
  delete_bucket-Shrinks name s h = from (get s.state name) refl
    where
      from :
          (o : Option BucketState)
          → get s.state name ≡ o
          → Shrinks s (delete_bucket lib io name s).1
      from none g = rw (g, delete_bucket) (Shrinks-refl s)
      from (some b) g = record {
        data_dir = ground arith;
        named = λ bucket c e k. ground (arith, k c, get-delete s.state name bucket);
        records = λ bucket key rec e. ground (arith, find_record-delete s.state name bucket key);
        files = λ bucket key rec e. ground (
          arith,
          find_record-delete s.state name bucket key,
          delete_bucket-files io.removed name bucket key b rec s h g,
          delete_bucket-files (λ path. true) name bucket key b rec s h g,
        );
      }

  drop_object-Shrinks :
      (bucket key : Text) (b : BucketState) (rec : ObjectRecord) (s : Store)
      → IsConsistent lib s
      → get s.state bucket ≡ some b
      → get b.objects key ≡ some rec
      → Shrinks s (drop_object lib io bucket key b rec s).1
  unfolding drop_object find_record
  drop_object-Shrinks bucket key b rec s h g r = record {
    data_dir = ground arith;
    named = λ bucket' c e k. ground (
      arith,
      k c,
      h.named bucket b g,
      ==_iff bucket bucket',
      get-put s.state bucket bucket' (record b { objects = delete b.objects key }),
    );
    records = λ bucket' key' rec' e. ground (
      arith,
      ==_iff bucket bucket',
      get-put s.state bucket bucket' (record b { objects = delete b.objects key }),
      get-delete b.objects key key',
    );
    files = λ bucket' key' rec' e. ground (
      arith,
      ==_iff bucket bucket',
      ==_iff key key',
      ==_iff rec.path rec'.path,
      get-put s.state bucket bucket' (record b { objects = delete b.objects key }),
      get-delete b.objects key key',
      get-delete s.disk.files rec.path rec'.path,
      h.separate bucket key bucket' key' rec rec',
    );
  }

  pub delete_object-Shrinks :
      (bucket key : Text) (s : Store)
      → IsConsistent lib s
      → Shrinks s (delete_object lib io bucket key s).1
  unfolding delete_object
  delete_object-Shrinks bucket key s h = from (get s.state bucket) refl
    where
      inner :
          (b : BucketState) (o : Option ObjectRecord)
          → get s.state bucket ≡ some b
          → get b.objects key ≡ o
          → Shrinks s (delete_object lib io bucket key s).1
      inner b none g r = rw (g, r, delete_object) (Shrinks-refl s)
      inner b (some rec) g r =
          rw (g, r, delete_object) (drop_object-Shrinks bucket key b rec s h g r)

      from :
          (o : Option BucketState)
          → get s.state bucket ≡ o
          → Shrinks s (delete_object lib io bucket key s).1
      from none g = rw (g, delete_object) (Shrinks-refl s)
      from (some b) g = inner b (get b.objects key) g refl
