-- ===== src/Cosi/Granted.antt =====
-- The event of a BucketAccess (internal/cosi/listeners.go), and the secret that it writes.
use pobj.Prelude.{
  ◌≡◌, ◌≢◌, ◌∙◌, sym, ap, subst, refl, Bool, true, false, [], ◌∷◌, Option, none, some, arith,
  if◌then◌else◌,
}
use pobj.Text.{Text, lit, ◌==◌, ==_iff, ==-refl}
use pobj.Dict.{Dict, get, put, get-put}
use pobj.Exec.{Error, Result, ok, err, ◌>>=◌, >>-ok, >>=-ok}
use pobj.Kube.{Secret, read}
use pobj.Store.{AccessKey}
use pobj.Cosi.Objects.{
  AccessStatus, Bucket, BucketAccessClass, Claim, get_bucket, get_claim, World, Calls, Kind,
  BucketAccess, key, get_secret, update_access_status,
}
use pobj.Cosi.AdminClient.{create_access}
use pobj.Cosi.Ready.{write_status-ok}
use pobj.Cosi.Listener.{
  Listener, asked, merged, credentials_data, ensure_secret, granted, on_bucket, bound, read_only_of,
  add_bucket_access,
}

-- The value that the last of the new entries for a key leaves.
unfoldable final : Dict Text → Text → Option Text → Option Text
unfolding ◌==◌
final [] k o = o
final ((j, v) ∷ d) k o = final d k (if j == k then some v else o)

get-merged : (old new : Dict Text) (k : Text) → get (merged old new) k ≡ final new k (get old k)
unfolding merged final
get-merged old [] k = refl
get-merged old ((j, v) ∷ d) k = get-merged (put old j v) d k ∙ ap (final d k) (get-put old j k v)

module _ {W : Type 0} (l : Listener W) (calls : Calls) where
  -- The secret names the bucket and has the key and its secret.
  abbrev Holds : Text → AccessKey → Secret → Type 0
  Holds bucket creds x =
      (get x.contents (lit "BUCKET_NAME") ≡ some bucket)
      × (get x.contents (lit "AWS_ACCESS_KEY_ID") ≡ some creds.access_key)
      × (get x.contents (lit "AWS_SECRET_ACCESS_KEY") ≡ some creds.secret_key)

  credentials_data-Holds :
      (bucket : Text) (creds : AccessKey) (type : Text) (owner : Option Text)
      → Holds bucket creds
          (record { type = type; contents = credentials_data l calls bucket creds; owner = owner })
  unfolding credentials_data get ◌==◌
  credentials_data-Holds bucket creds type owner = (refl, refl, refl)

  -- Whatever was in the secret.
  merged-Holds :
      (bucket : Text) (creds : AccessKey) (old : Dict Text) (type : Text) (owner : Option Text)
      → Holds bucket creds (record {
        type = type;
        contents = merged old (credentials_data l calls bucket creds);
        owner = owner;
      })
  unfolding credentials_data final ◌==◌
  merged-Holds bucket creds old type owner = (
    get-merged old data_ (lit "BUCKET_NAME") ∙ ground arith,
    get-merged old data_ (lit "AWS_ACCESS_KEY_ID") ∙ ground arith,
    get-merged old data_ (lit "AWS_SECRET_ACCESS_KEY") ∙ ground arith,
  )
    where
      data_ : Dict Text
      data_ = credentials_data l calls bucket creds

  ensure_secret-Holds :
      (ns name bucket : Text) (creds : AccessKey) (s : World W)
      → (ensure_secret l calls ns name bucket creds s).0 ≡ ok tt
      → (x : Secret) × (get (ensure_secret l calls ns name bucket creds s).1.secrets (key ns name)
          ≡ some x)
        × Holds bucket creds x
  unfolding ensure_secret
  ensure_secret-Holds ns name bucket creds s h = from (get_secret calls (key ns name) s).0 refl
    where
      from :
          (r : Result Secret)
          → (get_secret calls (key ns name) s).0 ≡ r
          → (x : Secret) × (get
                (ensure_secret l calls ns name bucket creds s).1.secrets
                (key ns name)
              ≡ some x)
            × Holds bucket creds x
      from (ok old) e =
          let x = record old {
            contents = merged old.contents (credentials_data l calls bucket creds);
          } in
          (
            x,
            ground (
              arith,
              e,
              h,
              get-put s.secrets (key ns name) (key ns name) x,
              ==-refl (key ns name),
            ),
            merged-Holds bucket creds old.contents old.type old.owner,
          )
      from (err q) e =
          let x : Secret = record {
            type = lit "";
            contents = credentials_data l calls bucket creds;
            owner = none;
          } in
          (
            x,
            ground (
              arith,
              e,
              h,
              get-put s.secrets (key ns name) (key ns name) x,
              ==-refl (key ns name),
            ),
            credentials_data-Holds bucket creds (lit "") none,
          )

  ensure_secret-rest :
      (ns name bucket : Text) (creds : AccessKey) (s : World W)
      → let t = (ensure_secret l calls ns name bucket creds s).1 in
        (t.world ≡ s.world) × (t.accesses ≡ s.accesses)
  unfolding ensure_secret
  ensure_secret-rest ns name bucket creds s = (ground arith, ground arith)

  -- From the ready bucket on: a success leaves the key of the admin API in the secret, and its name
  -- in the status.
  abbrev pub Grants : BucketAccess → Bool → Text → World W → World W → Type 0
  Grants b read_only bucket s t =
      (creds : AccessKey) × (create_access l.admin bucket read_only s.world ≡ (ok creds, t.world))
      × ((a : BucketAccess) × (get t.accesses (key b.namespace b.name) ≡ some a)
          × (a.status ≡ record { access_granted = true; account_id = creds.access_key }))
      × ((x : Secret) × (get t.secrets (key b.namespace b.credentials_secret_name) ≡ some x)
          × Holds bucket creds x)

  pub granted-Grants :
      (b : BucketAccess) (read_only : Bool) (bucket : Text) (s : World W)
      → (granted l calls b read_only bucket s).0 ≡ ok tt
      → Grants b read_only bucket s (granted l calls b read_only bucket s).1
  granted-Grants b read_only bucket s h =
      let (creds, e1, h1, q1) = >>=-ok (asked (create_access l.admin bucket read_only)) _ s h in
      let s1 = (asked (create_access l.admin bucket read_only) s).1 in
      let (h2, h3, q2) =
        >>-ok (ensure_secret l calls b.namespace b.credentials_secret_name bucket creds) _ s1 h1 in
      let s2 = (ensure_secret l calls b.namespace b.credentials_secret_name bucket creds s1).1 in
      let status : AccessStatus = record { access_granted = true; account_id = creds.access_key } in
      let (a, e4, h4, q4) =
        >>=-ok (update_access_status calls (key b.namespace b.name) status) _ s2 h3 in
      let q = q1 ∙ q2 ∙ q4 in
      let (x, at, holds) =
        ensure_secret-Holds b.namespace b.credentials_secret_name bucket creds s1 h2 in
      let (world, accesses) =
        ensure_secret-rest b.namespace b.credentials_secret_name bucket creds s1 in
      let (there, (w, made)) =
        write_status-ok (calls.update_status Kind.access (key b.namespace b.name)) s2.accesses
          (key b.namespace b.name) (λ stored. record stored { status = status }) e4 in
      (
        creds,
        (λ i. (e1 i, (sym world ∙ sym (ap (λ t. t.world) q)) i)),
        (a, ap (λ t. get t.accesses (key b.namespace b.name)) q ∙ there, ap (λ t. t.status) made),
        (x, ap (λ t. get t.secrets (key b.namespace b.credentials_secret_name)) q ∙ at, holds),
      )

  read-ok :
      {V : Type 0} (o : Option Error) (d : Dict V) (name : Text) {v : V}
      → read o d name ≡ ok v
      → get d name ≡ some v
  read-ok o d name h = ground arith

  -- The claim is bound to a bucket that is ready.
  abbrev pub Bound : BucketAccess → Claim → Bucket → World W → Type 0
  Bound b bc bucket s =
      (get s.claims (key b.namespace b.bucket_claim_name) ≡ some bc)
      × (bc.status.bucket_name ≢ [])
      × (get s.buckets bc.status.bucket_name ≡ some bucket)
      × (bucket.status.bucket_ready ≡ true)

  bound-Grants :
      (b : BucketAccess) (bac : BucketAccessClass) (bc : Claim) (s : World W)
      → get s.claims (key b.namespace b.bucket_claim_name) ≡ some bc
      → (bound l calls b bac bc s).0 ≡ ok tt
      → (bucket : Bucket) × Bound b bc bucket s
        × Grants b
            (read_only_of (get bac.parameters (lit "readonly")))
            bucket.status.bucket_id
            s
            (bound l calls b bac bc s).1
  bound-Grants b bac bc s g h = from (bc.status.bucket_name == lit "") refl
    where
      read_only : Bool
      read_only = read_only_of (get bac.parameters (lit "readonly"))

      from :
          (e : Bool)
          → (bc.status.bucket_name == lit "") ≡ e
          → (bucket : Bucket) × Bound b bc bucket s
            × Grants b
                (read_only_of (get bac.parameters (lit "readonly")))
                bucket.status.bucket_id
                s
                (bound l calls b bac bc s).1
      from true e = absurd (ground (arith, e, h))
      from false e =
          let (bucket, e1, h1, q1) =
            >>=-ok (get_bucket calls bc.status.bucket_name) (on_bucket l calls b bac) s
              (ground (arith, e, h)) in
          let ready : bucket.status.bucket_ready ≡ true = ground (arith, h1) in
          let same : on_bucket l calls b bac bucket s
              ≡ granted l calls b read_only bucket.status.bucket_id s =
            rw ready refl in
          let whole : bound l calls b bac bc s
              ≡ (get_bucket calls bc.status.bucket_name >>= on_bucket l calls b bac) s =
            rw e refl in
          let grants =
            granted-Grants b read_only bucket.status.bucket_id s (sym (ap (λ t. t.0) same) ∙ h1) in
          (
            bucket,
            (
              g,
              λ z. absurd (ground (arith, z, e, ==_iff bc.status.bucket_name [])),
              read-ok (calls.get Kind.bucket bc.status.bucket_name) s.buckets bc.status.bucket_name
                  e1,
              ready,
            ),
            subst (Grants b read_only bucket.status.bucket_id s)
                (sym (ap (λ t. t.1) whole ∙ q1 ∙ ap (λ t. t.1) same)) grants,
          )

  -- A BucketAccess event that succeeds, for an access that is not granted and a class of this
  -- driver, has found its claim bound to a ready bucket; the access key that the admin API has
  -- made for that bucket is in the secret that the access names, with its secret key and the
  -- bucket, and the status of the access is granted with that key as the account. Assumed is
  -- that reading the access class does not fail.
  pub add_bucket_access-Grants :
      (b : BucketAccess) (s : World W) {bac : BucketAccessClass}
      → b.status.access_granted ≡ false
      → calls.get Kind.access_class b.bucket_access_class_name ≡ none
      → get s.access_classes b.bucket_access_class_name ≡ some bac
      → bac.driver_name ≡ l.driver_name
      → (add_bucket_access l calls b s).0 ≡ ok tt
      → (bc : Claim) × (bucket : Bucket) × Bound b bc bucket s
        × Grants b
            (read_only_of (get bac.parameters (lit "readonly")))
            bucket.status.bucket_id
            s
            (add_bucket_access l calls b s).1
  unfolding add_bucket_access
  add_bucket_access-Grants b s {bac} new c g mine h =
      let claim_name = key b.namespace b.bucket_claim_name in
      let same : add_bucket_access l calls b s
          ≡ (get_claim calls claim_name >>= bound l calls b bac) s =
        rw (new, c, g, (==_iff bac.driver_name l.driver_name).1 mine, add_bucket_access) refl in
      let (bc, e, h1, q) =
        >>=-ok (get_claim calls claim_name) (bound l calls b bac) s
          (sym (ap (λ t. t.0) same) ∙ h) in
      let (bucket, is_bound, grants) =
        bound-Grants b bac bc s (read-ok (calls.get Kind.claim claim_name) s.claims claim_name e)
          h1 in
      (
        bc,
        bucket,
        is_bound,
        subst
            (Grants b (read_only_of (get bac.parameters (lit "readonly"))) bucket.status.bucket_id
              s)
            (sym (ap (λ t. t.1) same ∙ q)) grants,
      )
