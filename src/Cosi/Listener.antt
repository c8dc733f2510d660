-- ===== src/Cosi/Listener.antt =====
-- internal/cosi/listeners.go: the events of buckets, claims and accesses.
use pobj.Prelude.{Bool, true, false, not, ◌||◌, ◌++◌, Option, none, some, [], ◌∷◌, if◌then◌else◌}
use pobj.Text.{Text, lit, ◌==◌}
use pobj.Dict.{Dict, get, put}
use pobj.Exec.{Error, Result, ok, err, failed, Exec, pure, fail, is_not_found, ◌>>=◌, ◌>>◌}
use pobj.Store.{AccessKey}
use pobj.Cosi.{claim_bucket_name}
use pobj.Cosi.Objects.{
  World, Calls, Bucket, Claim, ClaimReference, BucketClass, BucketAccess, BucketAccessClass, key,
  get_bucket, get_claim, get_class, get_access_class, get_secret, update_bucket_status,
  update_claim_status, update_access_status, create_bucket_object, create_secret, update_secret,
  delete_secret,
}
use pobj.Cosi.AdminClient.{AdminClient, create_bucket, delete_bucket, create_access, delete_access}

-- `marshal_info` is json.Marshal of a BucketInfo: the bucket, the endpoint, the region and the key.
pub record Listener (W : Type 0) : Type 0 where
  pub driver_name : Text
  pub endpoint : Text
  pub region : Text
  pub ca_bundle : Text
  pub admin : AdminClient W
  pub marshal_info : Text → Text → Text → AccessKey → Text

-- A call of the admin API.
abbrev pub asked : {W A : Type 0} → (W → Result A × W) → Exec (World W) A
asked f s = let (r, w) = f s.world in (r, record s { world = w })

-- The test for a nil reference, or one without a name or a namespace.
abbrev pub claim_key : Option ClaimReference → Option Text
claim_key none = none
claim_key (some r) =
    if r.name == lit "" || r.namespace == lit "" then none else some (key r.namespace r.name)

-- strconv.ParseBool, with false for what it does not parse.
unfoldable pub parse_bool : Text → Bool
unfolding ◌==◌
parse_bool v =
    v == lit "1"
    || v == lit "t"
    || v == lit "T"
    || v == lit "true"
    || v == lit "TRUE"
    || v == lit "True"

abbrev pub read_only_of : Option Text → Bool
read_only_of none = false
read_only_of (some v) = parse_bool v

-- existing.StringData = data, as the API server writes it into the data.
unfoldable pub merged : Dict Text → Dict Text → Dict Text
unfolding put
merged old [] = old
merged old ((k, v) ∷ data_) = merged (put old k v) data_

already_exists : Error → Bool
unfolding ◌==◌
already_exists (failed t) = t == lit "already exists"
already_exists _ = false

unless_exists : {W : Type 0} → Result (Unit {0}) × World W → Result (Unit {0}) × World W
unfolding already_exists
unless_exists (ok u, s) = (ok u, s)
unless_exists (err e, s) = (if already_exists e then ok tt else err e, s)

module _ {W : Type 0} (l : Listener W) (calls : Calls) where
  unfoldable pub sync_claim : Bucket → Option Text → Exec (World W) Unit
  unfolding is_not_found get put ◌==◌
  sync_claim b none s = (ok tt, s)
  sync_claim b (some name) s = elim (get_claim calls name s).0 [
    | err e ↦ (if is_not_found e then ok tt else err e, s)
    | ok bc ↦
        (do
          update_claim_status calls name (record {
            bucket_name = if bc.status.bucket_name == lit "" then b.name else bc.status.bucket_name;
            bucket_ready = b.status.bucket_ready;
          })
          pure tt)
          s
  ]

  unfoldable pub sync_claim_ready_from_bucket : Bucket → Exec (World W) Unit
  unfolding sync_claim ◌==◌
  sync_claim_ready_from_bucket b = sync_claim b (claim_key b.spec.bucket_claim)

  -- UpdateStatus of a copy that is ready, and what follows it.
  abbrev pub bind : Bucket → Text → Exec (World W) Unit
  bind b bucket_name = do
    updated ←
        update_bucket_status calls b.name (record { bucket_ready = true; bucket_id = bucket_name })
    sync_claim_ready_from_bucket updated

  unfoldable pub add : Bucket → Exec (World W) Unit
  unfolding sync_claim_ready_from_bucket create_bucket get put ◌==◌
  add b =
      if not (b.spec.driver_name == l.driver_name) || b.status.bucket_ready
      then sync_claim_ready_from_bucket b
      else if not (b.spec.existing_bucket_id == lit "")
      then bind b b.spec.existing_bucket_id
      else do asked (create_bucket l.admin b.name); bind b b.name

  unfoldable pub update : Bucket → Bucket → Exec (World W) Unit
  unfolding add sync_claim_ready_from_bucket
  update old new = do add new; sync_claim_ready_from_bucket new

  unfoldable pub delete : Bucket → Exec (World W) Unit
  unfolding delete_bucket ◌==◌
  delete b =
      if not (b.spec.driver_name == l.driver_name)
      then pure tt
      else if b.spec.deletion_policy == lit "Delete"
      then asked (
          delete_bucket l.admin
            (if b.status.bucket_id == lit "" then b.name else b.status.bucket_id))
      else pure tt

  abbrev claim_bucket : Claim → BucketClass → Text → Bucket
  claim_bucket bc class bucket_name = record {
    name = bucket_name;
    spec = record {
      driver_name = l.driver_name;
      bucket_class_name = class.name;
      existing_bucket_id = lit "";
      protocols = bc.protocols;
      parameters = class.parameters;
      deletion_policy =
          if class.deletion_policy == lit "" then lit "Delete" else class.deletion_policy;
      bucket_claim =
          some (record { namespace = bc.meta.namespace; name = bc.meta.name; uid = bc.meta.uid });
    };
    status = record { bucket_ready = false; bucket_id = lit "" };
  }

  unfoldable pub ensure_claim_bucket : Claim → BucketClass → Text → Exec (World W) Unit
  unfolding unless_exists is_not_found get put ◌==◌
  ensure_claim_bucket bc class bucket_name s = elim (get_bucket calls bucket_name s).0 [
    | ok b ↦ (ok tt, s)
    | err e ↦
        if is_not_found e
        then unless_exists
            (create_bucket_object calls bucket_name (claim_bucket bc class bucket_name) s)
        else (err e, s)
  ]

  -- From the name of the bucket on.
  abbrev claimed : Claim → Text → Exec (World W) Unit
  claimed bc bucket_name = do
    b ← get_bucket calls bucket_name
    update_claim_status calls (key bc.meta.namespace bc.meta.name)
        (record { bucket_name = bucket_name; bucket_ready = b.status.bucket_ready })
    pure tt

  abbrev named_claim : Claim → BucketClass → Exec (World W) Unit
  named_claim bc class =
      if bc.existing_bucket_name == lit ""
      then (do
        ensure_claim_bucket bc class (claim_bucket_name bc.meta)
        claimed bc (claim_bucket_name bc.meta))
      else claimed bc bc.existing_bucket_name

  unfoldable pub add_bucket_claim : Claim → Exec (World W) Unit
  unfolding ensure_claim_bucket claim_bucket_name get put ◌==◌
  add_bucket_claim bc =
      if bc.bucket_class_name == lit ""
      then fail (failed (lit "bucketClassName is required"))
      else do
        class ← get_class calls bc.bucket_class_name
        if not (class.driver_name == l.driver_name) then pure tt else named_claim bc class

  -- The data of the secret with the credentials.
  unfoldable pub credentials_data : Text → AccessKey → Dict Text
  unfolding ◌==◌
  credentials_data bucket_name creds =
      (lit "BUCKET_NAME", bucket_name)
      ∷ (lit "BUCKET_HOST", l.endpoint)
      ∷ (lit "AWS_REGION", l.region)
      ∷ (lit "AWS_ACCESS_KEY_ID", creds.access_key)
      ∷ (lit "AWS_SECRET_ACCESS_KEY", creds.secret_key)
      ∷ (lit "COSI_BUCKET_INFO", l.marshal_info bucket_name l.endpoint l.region creds)
      ∷ (if l.ca_bundle == lit "" then [] else (lit "AWS_CA_BUNDLE_PEM", l.ca_bundle) ∷ [])

  unfoldable pub ensure_secret : Text → Text → Text → AccessKey → Exec (World W) Unit
  unfolding credentials_data merged is_not_found get put ◌==◌
  ensure_secret ns name bucket_name creds s =
      if name == lit ""
      then (err (failed (lit "credentialsSecretName is required")), s)
      else elim (get_secret calls (key ns name) s).0 [
        | ok existing ↦
            update_secret calls (key ns name)
              (record existing {
                contents = merged existing.contents (credentials_data bucket_name creds);
              })
              s
        | err e ↦
            if is_not_found e
            then create_secret calls (key ns name)
                (record {
                  type = lit "";
                  contents = credentials_data bucket_name creds;
                  owner = none;
                })
                s
            else (err e, s)
      ]

  -- From the bucket on, once it is known to be ready.
  abbrev pub granted : BucketAccess → Bool → Text → Exec (World W) Unit
  granted b read_only bucket_id = do
    creds ← asked (create_access l.admin bucket_id read_only)
    ensure_secret b.namespace b.credentials_secret_name bucket_id creds
    update_access_status calls (key b.namespace b.name)
        (record { access_granted = true; account_id = creds.access_key })
    pure tt

  abbrev pub on_bucket : BucketAccess → BucketAccessClass → Bucket → Exec (World W) Unit
  on_bucket b bac bucket =
      if not bucket.status.bucket_ready
      then fail (failed ((lit "bucket " ++ bucket.name) ++ lit " not ready"))
      else granted b (read_only_of (get bac.parameters (lit "readonly"))) bucket.status.bucket_id

  abbrev pub bound : BucketAccess → BucketAccessClass → Claim → Exec (World W) Unit
  bound b bac bc =
      if bc.status.bucket_name == lit ""
      then fail (failed ((lit "bucket claim " ++ b.bucket_claim_name) ++ lit " is not bound yet"))
      else do bucket ← get_bucket calls bc.status.bucket_name; on_bucket b bac bucket

  unfoldable pub add_bucket_access : BucketAccess → Exec (World W) Unit
  unfolding create_access ensure_secret parse_bool get put ◌==◌
  add_bucket_access b = if b.status.access_granted then pure tt else do
    bac ← get_access_class calls b.bucket_access_class_name
    if not (bac.driver_name == l.driver_name)
        then pure tt
        else do bc ← get_claim calls (key b.namespace b.bucket_claim_name); bound b bac bc

  unfoldable pub delete_bucket_access : BucketAccess → Exec (World W) Unit
  unfolding delete_access ◌==◌
  delete_bucket_access b = do
    if b.status.account_id == lit ""
        then pure tt
        else asked (delete_access l.admin b.status.account_id)
    if b.credentials_secret_name == lit ""
        then pure tt
        else delete_secret calls (key b.namespace b.credentials_secret_name)
