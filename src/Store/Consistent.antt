-- ===== src/Store/Consistent.antt =====
-- The invariant that ties the object records of internal/objectd/store.go to the object files.
pub mod Steps
pub mod Grants
pub mod Puts
pub mod Runs
use pobj.Prelude.{
  ◌≡◌, ◌≢◌, refl, sym, ap, subst, ◌∙◌, true, Option, none, some, List, [], length, arith, ℕ,
}
use pobj.Text.{Text}
use pobj.Dict.{Dict, get}
use pobj.Store.{Store, Platform, ObjectRecord, BucketState, MetaState}
use pobj.Store.Names.{valid_bucket, object_path}
use pobj.Store.Objects.{find_record}

-- A file that has the size and the hash that the record says.
abbrev pub Matches : Platform → ObjectRecord → Option Text → Type 0
Matches lib rec none = ⊥
Matches lib rec (some content) = (rec.size ≡ length content) × (rec.etag ≡ lib.sha256_hex content)

-- The record's file lies in its bucket's directory.
abbrev pub IsIn : Text → Text → Text → Type 0
IsIn data_dir bucket path = (id : Text) × (path ≡ object_path data_dir bucket id)

pub record IsConsistent (lib : Platform) (s : Store) : Type 0 where
  pub named :
      (bucket : Text) (b : BucketState) → get s.state bucket ≡ some b → valid_bucket bucket ≡ true
  pub keyed : (bucket : Text) → find_record s.state bucket [] ≡ none
  pub stored :
      (bucket key : Text) (rec : ObjectRecord)
      → find_record s.state bucket key ≡ some rec
      → Matches lib rec (get s.disk.files rec.path)
  pub located :
      (bucket key : Text) (rec : ObjectRecord)
      → find_record s.state bucket key ≡ some rec
      → IsIn s.data_dir bucket rec.path
  pub separate :
      (bucket key bucket' key' : Text) (rec rec' : ObjectRecord)
      → find_record s.state bucket key ≡ some rec
      → find_record s.state bucket' key' ≡ some rec'
      → rec.path ≡ rec'.path
      → (bucket ≡ bucket') × (key ≡ key')

-- What stays in `t` stood in `s`, and its file is untouched.
pub record Shrinks (s t : Store) : Type 0 where
  pub data_dir : t.data_dir ≡ s.data_dir
  pub named :
      (bucket : Text) (b : BucketState)
      → get t.state bucket ≡ some b
      → ((c : BucketState) → get s.state bucket ≡ some c → valid_bucket bucket ≡ true)
      → valid_bucket bucket ≡ true
  pub records :
      (bucket key : Text) (rec : ObjectRecord)
      → find_record t.state bucket key ≡ some rec
      → find_record s.state bucket key ≡ some rec
  pub files :
      (bucket key : Text) (rec : ObjectRecord)
      → find_record t.state bucket key ≡ some rec
      → get t.disk.files rec.path ≡ get s.disk.files rec.path

pub Shrinks-refl : (s : Store) → Shrinks s s
Shrinks-refl s = record {
  data_dir = refl;
  named = λ bucket b e h. h b e;
  records = λ bucket key rec e. e;
  files = λ bucket key rec e. refl;
}

pub Shrinks-IsConsistent :
    {lib : Platform} {s t : Store} → IsConsistent lib s → Shrinks s t → IsConsistent lib t
Shrinks-IsConsistent {lib} {s} {t} h sh = record {
  named = λ bucket b e. sh.named bucket b e (h.named bucket);
  keyed = λ bucket. no_record bucket (find_record t.state bucket []) refl;
  stored = λ bucket key rec e.
      subst (Matches lib rec) (sym (sh.files bucket key rec e))
        (h.stored bucket key rec (sh.records bucket key rec e));
  located = λ bucket key rec e.
      subst (λ d. IsIn d bucket rec.path) (sym sh.data_dir)
        (h.located bucket key rec (sh.records bucket key rec e));
  separate = λ bucket key bucket' key' rec rec' e e'.
      h.separate bucket key bucket' key' rec rec' (sh.records bucket key rec e)
        (sh.records bucket' key' rec' e');
}
  where
    no_record :
        (bucket : Text) (o : Option ObjectRecord)
        → find_record t.state bucket [] ≡ o
        → find_record t.state bucket [] ≡ none
    no_record bucket none e = e
    no_record bucket (some rec) e = ground (arith, sh.records bucket [] rec e, h.keyed bucket)
