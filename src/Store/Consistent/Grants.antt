-- ===== src/Store/Consistent/Grants.antt =====
-- The operations on access keys leave the object records and the object files as they are.
use pobj.Prelude.{ap, ◌∙◌, sym, ◌≡◌, refl, Option, none, some, [], ◌∷◌, arith, Bool, true}
use pobj.Text.{Text, ==_iff}
use pobj.Dict.{Dict, get, put, get-put}
use pobj.Exec.{Result, ok, err}
use pobj.Store.{Store, Platform, Io, MetaState, BucketState, ObjectRecord, AccessKey}
use pobj.Store.Names.{valid_bucket}
use pobj.Store.Objects.{random_hex, find_record}
use pobj.Store.Access.{new_access, create_access, put_access, delete_access, revoke, access_record}
use pobj.Store.Consistent.{Shrinks}

abbrev pub objects_of : Option BucketState → Option (Dict ObjectRecord)
objects_of none = none
objects_of (some b) = some b.objects

-- The same buckets by name, each with the same objects; the files and the directory are the same.
pub record SameObjects (s t : Store) : Type 0 where
  pub data_dir : t.data_dir ≡ s.data_dir
  pub files : t.disk.files ≡ s.disk.files
  pub objects : (bucket : Text) → objects_of (get t.state bucket) ≡ objects_of (get s.state bucket)

pub same_record :
    (st st' : MetaState) (bucket key : Text)
    → objects_of (get st' bucket) ≡ objects_of (get st bucket)
    → find_record st' bucket key ≡ find_record st bucket key
unfolding find_record
same_record st st' bucket key h = ground arith

pub SameObjects-Shrinks : {s t : Store} → SameObjects s t → Shrinks s t
SameObjects-Shrinks {s} {t} h = record {
  data_dir = h.data_dir;
  named = λ bucket b e k. from bucket (get s.state bucket) refl b e k;
  records = λ bucket key rec e. sym (same_record s.state t.state bucket key (h.objects bucket)) ∙ e;
  files = λ bucket key rec e. ap (λ f. get f rec.path) h.files;
}
  where
    from :
        (bucket : Text) (o : Option BucketState)
        → get s.state bucket ≡ o
        → (b : BucketState) → get t.state bucket ≡ some b
        → ((c : BucketState) → get s.state bucket ≡ some c → valid_bucket bucket ≡ true)
        → valid_bucket bucket ≡ true
    from bucket none g b e k = ground (arith, h.objects bucket)
    from bucket (some c) g b e k = k c g

SameObjects-refl : (s : Store) → SameObjects s s
SameObjects-refl s = record { data_dir = refl; files = refl; objects = λ bucket. refl }

abbrev or_old : MetaState → Option MetaState → MetaState
or_old st none = st
or_old st (some st') = st'

objects-revoke :
    (access_key : Text) (st : MetaState) (bucket : Text)
    → objects_of (get (or_old st (revoke access_key st)) bucket) ≡ objects_of (get st bucket)
unfolding revoke get
objects-revoke k [] bucket = refl
objects-revoke k ((name, b) ∷ st) bucket = ground (arith, objects-revoke k st bucket)

module _ (lib : Platform) (io : Io) where
  pub put_access-SameObjects : (a : AccessKey) (s : Store) → SameObjects s (put_access lib io a s).1
  unfolding put_access
  put_access-SameObjects a s = from (get s.state a.bucket) refl
    where
      from :
          (o : Option BucketState)
          → get s.state a.bucket ≡ o
          → SameObjects s (put_access lib io a s).1
      from none g = rw (g, put_access) (SameObjects-refl s)
      from (some b) g = record {
        data_dir = ground arith;
        files = ground arith;
        objects = λ bucket. ground (
          arith,
          ==_iff a.bucket bucket,
          get-put s.state a.bucket bucket
              (record b { access = put b.access a.access_key (access_record a) }),
        );
      }

  pub create_access-SameObjects :
      (bucket : Text) (read_only : Bool) (s : Store)
      → SameObjects s (create_access lib io bucket read_only s).1
  unfolding create_access
  create_access-SameObjects bucket read_only s =
      from (random_hex io.random) (random_hex io.random_secret) refl refl
    where
      from :
          (raw sk : Result Text)
          → random_hex io.random ≡ raw
          → random_hex io.random_secret ≡ sk
          → SameObjects s (create_access lib io bucket read_only s).1
      from (ok raw) (ok sk) e f =
          let same = put_access-SameObjects (new_access bucket read_only raw sk) s in
          record {
            data_dir = ground (arith, same.data_dir);
            files = ground (arith, same.files);
            objects = λ name. ground (arith, same.objects name);
          }
      from (err x) _ e f = record {
        data_dir = ground arith;
        files = ground arith;
        objects = λ name. ground arith;
      }
      from (ok raw) (err x) e f = record {
        data_dir = ground arith;
        files = ground arith;
        objects = λ name. ground arith;
      }

  pub delete_access-SameObjects :
      (access_key : Text) (s : Store) → SameObjects s (delete_access lib io access_key s).1
  unfolding delete_access
  delete_access-SameObjects k s = from (revoke k s.state) refl
    where
      from :
          (o : Option MetaState) → revoke k s.state ≡ o → SameObjects s (delete_access lib io k s).1
      from none g = rw (g, delete_access) (SameObjects-refl s)
      from (some st) g = record {
        data_dir = ground arith;
        files = ground arith;
        objects = λ bucket. ground (arith, objects-revoke k s.state bucket);
      }
