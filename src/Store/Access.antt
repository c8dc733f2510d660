-- ===== src/Store/Access.antt =====
-- internal/objectd/store.go: CreateAccess, PutAccess, DeleteAccess, LookupAccessKey.
use pobj.Prelude.{Bool, Option, none, some, [], ◌∷◌, ◌++◌}
use pobj.Text.{Text, lit}
use pobj.Text.Parts.{to_upper}
use pobj.Dict.{get, put, delete}
use pobj.Exec.{Result, ok, err, Exec, not_found, pure, modify, lift, ◌>>=◌, ◌>>◌}
use pobj.Store.{Store, Platform, Io, MetaState, AccessKey, AccessRecord, persist_locked}
use pobj.Store.Buckets.{set_bucket}
use pobj.Store.Objects.{random_hex}

abbrev pub access_record : AccessKey → AccessRecord
access_record a = record { secret_key = a.secret_key; read_only = a.read_only }

-- The loop of DeleteAccess: the buckets with the key gone from the first that has it.
unfoldable pub revoke : Text → MetaState → Option MetaState
unfolding get delete
revoke access_key [] = none
revoke access_key ((name, b) ∷ rest) = elim (get b.access access_key) [
  | some rec ↦ some ((name, record b { access = delete b.access access_key }) ∷ rest)
  | none ↦ elim (revoke access_key rest) [ none ↦ none | some rest' ↦ some ((name, b) ∷ rest') ]
]

unfoldable pub new_access : Text → Bool → Text → Text → AccessKey
unfolding to_upper
new_access bucket read_only raw sk = record {
  access_key = lit "PX" ++ to_upper raw;
  secret_key = sk;
  bucket = bucket;
  read_only = read_only;
}

module _ (lib : Platform) (io : Io) where
  -- putAccessLocked; PutAccess is this under the lock.
  unfoldable pub put_access : AccessKey → Exec Store Unit
  unfolding get put persist_locked
  put_access a s = elim (get s.state a.bucket) [
    | none ↦ (err not_found, s)
    | some b ↦
        (do
          modify (
              set_bucket a.bucket
                (record b { access = put b.access a.access_key (access_record a) }))
          persist_locked lib io)
          s
  ]

  unfoldable pub make_access : Text → Bool → Exec Store AccessKey
  unfolding random_hex put_access new_access
  make_access bucket read_only = do
    raw ← lift (random_hex io.random)
    sk ← lift (random_hex io.random_secret)
    put_access (new_access bucket read_only raw sk)
    pure (new_access bucket read_only raw sk)

  unfoldable pub create_access : Text → Bool → Exec Store AccessKey
  unfolding make_access get
  create_access bucket read_only s = elim (get s.state bucket) [
    | none ↦ (err not_found, s)
    | some b ↦ make_access bucket read_only s
  ]

  unfoldable pub delete_access : Text → Exec Store Unit
  unfolding revoke persist_locked
  delete_access access_key s = elim (revoke access_key s.state) [
    | none ↦ (ok tt, s)
    | some state ↦ (do modify (λ s. record s { state = state }); persist_locked lib io) s
  ]

-- The loop of LookupAccessKey: the first bucket that has the key.
unfoldable pub lookup_in : Text → MetaState → Option AccessKey
unfolding get
lookup_in access_key [] = none
lookup_in access_key ((name, b) ∷ rest) = elim (get b.access access_key) [
  | some rec ↦ some (record {
    access_key = access_key;
    secret_key = rec.secret_key;
    bucket = name;
    read_only = rec.read_only;
  })
  | none ↦ lookup_in access_key rest
]

unfoldable pub lookup_access_key : Text → Store → Result AccessKey
unfolding lookup_in
lookup_access_key access_key s = elim (lookup_in access_key s.state) [
  | none ↦ err not_found
  | some a ↦ ok a
]
