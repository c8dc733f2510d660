-- ===== src/Store/Credentials.antt =====
-- What LookupAccessKey finds after keys are granted and revoked (internal/objectd/store.go).
use pobj.Store.Objects.{random_hex}
use pobj.Exec.{Result, ok, not_found, err}
use pobj.Text.{==_iff, ==-refl}
use pobj.Store.Access.{access_record, delete_access, create_access}
use pobj.Store.Access.{new_access, make_access, lookup_access_key, put_access, revoke, lookup_in}
use pobj.Store.{AccessKey, AccessRecord, BucketState, Store, MetaState, Text, Io, Platform}
use pobj.Dict.{get-put, get-delete, put, get}
use pobj.Prelude.{ℕ, Bool, ◌≤◌, length, some, none, [], Option, ◌∷◌, List, ◌≡◌, ◌≢◌, refl, arith}

-- The buckets that hold an access key.
unfoldable pub holders : Text → MetaState → List Text
unfolding get
holders ak [] = []
holders ak ((name, b) ∷ rest) = elim (get b.access ak) [
  | some rec ↦ name ∷ holders ak rest
  | none ↦ holders ak rest
]

unfoldable pub drop_first : List Text → List Text
drop_first [] = []
drop_first (x ∷ xs) = xs

drop_first-[] : (xs : List Text) → length xs ≤ 1 → drop_first xs ≡ []
unfolding drop_first
drop_first-[] [] l = refl
drop_first-[] (x ∷ []) l = refl
drop_first-[] (x ∷ y ∷ xs) l = absurd (ground arith)

abbrev pub revoke_or_same : Text → MetaState → Option MetaState → MetaState
revoke_or_same ak state none = state
revoke_or_same ak state (some state') = state'

holders-lookup_in :
    (ak : Text) (state : MetaState) → lookup_in ak state ≡ none → holders ak state ≡ []
unfolding holders lookup_in
holders-lookup_in ak [] h = refl
holders-lookup_in ak ((name, b) ∷ rest) h = ground (arith, holders-lookup_in ak rest)

lookup_in-holders :
    (ak : Text) (state : MetaState) → holders ak state ≡ [] → lookup_in ak state ≡ none
unfolding holders lookup_in
lookup_in-holders ak [] h = refl
lookup_in-holders ak ((name, b) ∷ rest) h = ground (arith, lookup_in-holders ak rest)

-- The loop of DeleteAccess takes the key from the first bucket that holds it.
holders-revoke :
    (ak : Text) (state : MetaState)
    → holders ak (revoke_or_same ak state (revoke ak state)) ≡ drop_first (holders ak state)
unfolding holders revoke drop_first
holders-revoke ak [] = refl
holders-revoke ak ((name, b) ∷ rest) =
    ground (arith, holders-revoke ak rest, get-delete b.access ak ak, ==-refl ak)

lookup_in-revoke :
    (ak other : Text) (state : MetaState)
    → ak ≢ other
    → lookup_in other (revoke_or_same ak state (revoke ak state)) ≡ lookup_in other state
unfolding lookup_in revoke
lookup_in-revoke ak other [] ne = refl
lookup_in-revoke ak other ((name, b) ∷ rest) ne =
    ground (arith, lookup_in-revoke ak other rest, get-delete b.access ak other, ==_iff ak other)

lookup_in-put :
    (ak name : Text) (state : MetaState) (b : BucketState) (rec : AccessRecord)
    → lookup_in ak state ≡ none
    → get b.access ak ≡ some rec
    → lookup_in ak (put state name b)
      ≡ some (record {
        access_key = ak;
        secret_key = rec.secret_key;
        bucket = name;
        read_only = rec.read_only;
      })
unfolding lookup_in put
lookup_in-put ak name [] b rec h g = ground arith
lookup_in-put ak name ((n, c) ∷ rest) b rec h g =
    ground (arith, lookup_in-put ak name rest b rec, ==_iff n name)

lookup_in-put_other :
    (ak name : Text) (state : MetaState) (b b' : BucketState)
    → get state name ≡ some b
    → get b'.access ak ≡ get b.access ak
    → lookup_in ak (put state name b') ≡ lookup_in ak state
unfolding lookup_in put get
lookup_in-put_other ak name [] b b' e g = ground arith
lookup_in-put_other ak name ((n, c) ∷ rest) b b' e g =
    ground (arith, lookup_in-put_other ak name rest b b', ==_iff n name)

module _ (lib : Platform) (io : Io) (s : Store) where
  state-put_access :
      (a : AccessKey) (b : BucketState)
      → get s.state a.bucket ≡ some b
      → (put_access lib io a s).1.state
        ≡ put s.state a.bucket (record b { access = put b.access a.access_key (access_record a) })
  unfolding put_access
  state-put_access a b e = ground arith

  state-delete_access :
      (ak : Text)
      → (delete_access lib io ak s).1.state ≡ revoke_or_same ak s.state (revoke ak s.state)
  unfolding delete_access
  state-delete_access ak = ground arith

  -- A key that no bucket has yet is found, once it is stored, with just the secret, the bucket and
  -- the permission that it was stored with.
  pub lookup-put_access :
      (a : AccessKey)
      → lookup_access_key a.access_key s ≡ err not_found
      → (put_access lib io a s).0 ≡ ok tt
      → lookup_access_key a.access_key (put_access lib io a s).1 ≡ ok a
  unfolding put_access lookup_access_key
  lookup-put_access a h done = from (get s.state a.bucket) refl
    where
      from :
          (o : Option BucketState)
          → get s.state a.bucket ≡ o
          → lookup_access_key a.access_key (put_access lib io a s).1 ≡ ok a
      from none e = ground arith
      from (some b) e =
          let acc = put b.access a.access_key (access_record a) in
          ground (
            arith,
            state-put_access a b e,
            get-put b.access a.access_key a.access_key (access_record a),
            ==-refl a.access_key,
            lookup_in-put a.access_key a.bucket s.state (record b { access = acc })
                (access_record a),
          )

  -- CreateAccess in terms of putAccessLocked.
  create_access-put_access :
      (bucket : Text) (read_only : Bool) {a : AccessKey}
      → (create_access lib io bucket read_only s).0 ≡ ok a
      → ((create_access lib io bucket read_only s).1 ≡ (put_access lib io a s).1)
        × ((put_access lib io a s).0 ≡ ok tt)
        × (a.bucket ≡ bucket)
        × (a.read_only ≡ read_only)
  unfolding create_access make_access new_access random_hex
  create_access-put_access bucket read_only {a} done = from io.random io.random_secret refl refl
    where
      from :
          (r r' : Result (List ℕ))
          → io.random ≡ r
          → io.random_secret ≡ r'
          → ((create_access lib io bucket read_only s).1 ≡ (put_access lib io a s).1)
            × ((put_access lib io a s).0 ≡ ok tt)
            × (a.bucket ≡ bucket)
            × (a.read_only ≡ read_only)
      from (err e) r' e1 e2 = ground arith
      from (ok x) (err e) e1 e2 = ground arith
      from (ok x) (ok y) e1 e2 = ground arith

  -- A key granted by CreateAccess is looked up as the very key that was returned, if the random
  -- identifier drawn for it is not in use.
  pub lookup-create_access :
      (bucket : Text) (read_only : Bool) {a : AccessKey}
      → (create_access lib io bucket read_only s).0 ≡ ok a
      → lookup_access_key a.access_key s ≡ err not_found
      → (lookup_access_key a.access_key (create_access lib io bucket read_only s).1 ≡ ok a)
        × (a.bucket ≡ bucket)
        × (a.read_only ≡ read_only)
  lookup-create_access bucket read_only {a} done h =
      let (after, done', b, ro) = create_access-put_access bucket read_only done in
      (rw (after) (lookup-put_access a h done'), b, ro)

  -- Storing a key leaves what is found under every other key as it is, also when it fails.
  pub lookup-put_access_ne :
      (a : AccessKey) (other : Text)
      → a.access_key ≢ other
      → lookup_access_key other (put_access lib io a s).1 ≡ lookup_access_key other s
  unfolding put_access lookup_access_key
  lookup-put_access_ne a other ne = from (get s.state a.bucket) refl
    where
      from :
          (o : Option BucketState)
          → get s.state a.bucket ≡ o
          → lookup_access_key other (put_access lib io a s).1 ≡ lookup_access_key other s
      from none e = ground arith
      from (some b) e =
          let acc = put b.access a.access_key (access_record a) in
          ground (
            arith,
            state-put_access a b e,
            get-put b.access a.access_key other (access_record a),
            ==_iff a.access_key other,
            lookup_in-put_other other a.bucket s.state b (record b { access = acc }) e,
          )

  -- A key that at most one bucket holds is found no more after it is revoked.
  pub lookup-delete_access :
      (ak : Text)
      → length (holders ak s.state) ≤ 1
      → lookup_access_key ak (delete_access lib io ak s).1 ≡ err not_found
  unfolding delete_access lookup_access_key
  lookup-delete_access ak l =
      let state' = revoke_or_same ak s.state (revoke ak s.state) in
      ground (
        arith,
        state-delete_access ak,
        drop_first-[] (holders ak s.state) l,
        holders-revoke ak s.state,
        lookup_in-holders ak state',
      )

  -- Revoking a key leaves what is found under every other key as it is, also when it fails.
  pub lookup-delete_access_ne :
      (ak other : Text)
      → ak ≢ other
      → lookup_access_key other (delete_access lib io ak s).1 ≡ lookup_access_key other s
  unfolding delete_access lookup_access_key
  lookup-delete_access_ne ak other ne =
      ground (arith, state-delete_access ak, lookup_in-revoke ak other s.state ne)
