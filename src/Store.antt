-- ===== src/Store.antt =====
-- internal/objectd/store.go: the state of the object store, what it asks of its surroundings, and
-- its metadata file. The operations and their laws stand in the modules below. Each method that
-- changes the store holds the mutex from its first access to its return, so these run one after
-- another. OpenObject lets it go before it opens the file; here a read is one step too.
pub mod Names
pub mod Buckets
pub mod Objects
pub mod Listing
pub mod Access
pub mod Credentials
pub mod Ops
pub mod Durable
pub mod Frames
pub mod Consistent
pub mod ReadBack
pub mod View
pub mod Refines
pub mod PutGet
pub mod Others
pub mod Scope
use pobj.Prelude.{ℕ, Bool, Option, none, some, List, [], ◌∷◌, ◌++◌, if◌then◌else◌, ltb, leb, ◌||◌}
use pobj.Text.{Text, lit}
use pobj.Dict.{Dict, get, put, delete}
use pobj.Exec.{Error, Result, ok, err, Exec, lift, modify, attempt, continue, ◌>>=◌, ◌>>◌}

pub record ObjectRecord : Type 0 where
  pub size : ℕ
  pub etag : Text
  pub mod_time : Text
  pub path : Text

pub record AccessRecord : Type 0 where
  pub secret_key : Text
  pub read_only : Bool

pub record BucketState : Type 0 where
  pub created_at : Text
  pub objects : Dict ObjectRecord
  pub access : Dict AccessRecord

abbrev pub MetaState : Type 0
MetaState = Dict BucketState

pub record Bucket : Type 0 where
  pub name : Text
  pub created_at : ℕ

pub record ObjectMeta : Type 0 where
  pub bucket : Text
  pub key : Text
  pub size : ℕ
  pub etag : Text
  pub mod_time : ℕ
  pub path : Text

pub record AccessKey : Type 0 where
  pub access_key : Text
  pub secret_key : Text
  pub bucket : Text
  pub read_only : Bool

-- The files below the data directory: object files by path, metadata.json, and metadata.json.tmp.
pub record Disk : Type 0 where
  pub files : Dict Text
  pub meta_file : Option Text
  pub tmp_file : Option Text

pub record Store : Type 0 where
  pub data_dir : Text
  pub state : MetaState
  pub disk : Disk

-- The standard library's functions that the store relies on: crypto/sha256 with encoding/hex,
-- encoding/json on `metaState`, and time.Time with its RFC 3339 and HTTP formats.
pub record Platform : Type 0 where
  pub sha256_hex : Text → Text
  pub marshal : MetaState → Result Text
  pub unmarshal : Text → Result MetaState
  pub format_time : ℕ → Text
  pub parse_time : Text → ℕ
  pub http_time : ℕ → Text

-- What the surroundings answer to the calls of one operation: `none` is success. `partial` is what
-- a copy that fails leaves in its file; `written` is what a WriteFile that fails leaves in its file,
-- if it was opened; `removed` are the paths that a RemoveAll that fails has removed.
pub record Io : Type 0 where
  pub now : ℕ
  pub mkdir : Option Error
  pub create : Option Error
  pub copy : Option Error
  pub close : Option Error
  pub write : Option Error
  pub rename : Option Error
  pub remove : Option Error
  pub remove_all : Option Error
  pub read : Option Error
  pub random : Result (List ℕ)
  pub random_secret : Result (List ℕ)
  pub partial : Text
  pub written : Option Text
  pub removed : Text → Bool

module _ (lib : Platform) where
  unfoldable pub decode : Text → Result MetaState
  decode [] = ok []
  decode (c ∷ b) = lib.unmarshal (c ∷ b)

-- A file that is written to, or left as it is.
abbrev or_before : Option Text → Option Text → Option Text
or_before none before = before
or_before (some content) before = some content

module _ (lib : Platform) (io : Io) where
  -- os.WriteFile(tmp, b, 0o600)
  unfoldable pub write_tmp : Text → Exec Store Unit
  write_tmp b s = elim io.write [
    | none ↦ (ok tt, record s { disk = record s.disk { tmp_file = some b } })
    | some e ↦ (
      err e,
      record s { disk = record s.disk { tmp_file = or_before io.written s.disk.tmp_file } },
    )
  ]

  -- os.Rename(tmp, s.metaPath)
  unfoldable pub rename_tmp : Exec Store Unit
  rename_tmp s = elim io.rename [
    | none ↦
        (ok tt, record s { disk = record s.disk { meta_file = s.disk.tmp_file; tmp_file = none } })
    | some e ↦ (err e, s)
  ]

  unfoldable pub persist_locked : Exec Store Unit
  unfolding write_tmp rename_tmp
  persist_locked s = (do b ← lift (lib.marshal s.state); write_tmp b; rename_tmp) s

  -- The method `load`, over the bytes of metadata.json: the state that it leaves behind.
  unfoldable pub load : Disk → Result MetaState
  unfolding decode
  load d = elim d.meta_file [
    | none ↦ ok []
    | some b ↦ elim io.read [ some e ↦ err e | none ↦ decode lib b ]
  ]

  unfoldable pub open_store : Text → Disk → Result Store
  unfolding load
  open_store data_dir d = elim io.mkdir [
    | some e ↦ err e
    | none ↦ elim (load d) [
      | err e ↦ err e
      | ok state ↦ ok (record { data_dir = data_dir; state = state; disk = d })
    ]
  ]
