-- ===== src/Tests/Driver.antt =====
-- The theorems about the events of the COSI driver at concrete inputs.
use pobj.Prelude.{◌≡◌, refl, ℕ, suc, true, false, none, some, [], ◌∷◌}
use pobj.Text.{lit, ◌==◌}
use pobj.Dict.{get, put}
use pobj.Exec.{ok}
use pobj.Store.{AccessKey}
use pobj.Cosi.Objects.{World, Calls, Bucket, Claim, BucketAccess, BucketAccessClass}
use pobj.Cosi.AdminClient.{AdminClient}
use pobj.Cosi.Listener.{Listener, update, add_bucket_access, read_only_of}
use pobj.Cosi.Ready.{update_stale}
use pobj.Cosi.Granted.{Bound, Grants, add_bucket_access-Grants}

abbrev calm_calls : Calls
calm_calls = record {
  get = λ kind name. none;
  create = λ kind name. none;
  update = λ kind name. none;
  update_status = λ kind name. none;
  delete = λ kind name. none;
}

abbrev pub new_key : AccessKey
new_key = record {
  access_key = lit "PX1";
  secret_key = lit "s3cr3t";
  bucket = lit "photos";
  read_only = true;
}

-- A server that answers every request by 200 and counts them.
abbrev pub counting : AdminClient ℕ
counting = record {
  base_url = lit "https://store:19000";
  token = lit "secret";
  send = λ method url headers body w.
      (ok (record { status_code = 200; status = lit "200 OK"; body = lit "{}" }), suc w);
  marshal_name = λ name. name;
  marshal_grant = λ bucket read_only. bucket;
  decode_access_key = λ body. ok new_key;
}

abbrev driver : Listener ℕ
driver = record {
  driver_name = lit "entity.io/s3";
  endpoint = lit "store:9000";
  region = lit "us-east-1";
  ca_bundle = lit "ca";
  admin = counting;
  marshal_info = λ bucket endpoint region creds. bucket;
}

abbrev new_bucket : Bucket
new_bucket = record {
  name = lit "photos";
  spec = record {
    driver_name = lit "entity.io/s3";
    bucket_class_name = lit "fast";
    existing_bucket_id = lit "";
    protocols = lit "S3" ∷ [];
    parameters = [];
    deletion_policy = lit "Delete";
    bucket_claim = some (record { namespace = lit "apps"; name = lit "album"; uid = lit "1" });
  };
  status = record { bucket_ready = false; bucket_id = lit "" };
}

abbrev album : Claim
album = record {
  meta = record { namespace = lit "apps"; name = lit "album"; uid = lit "1" };
  bucket_class_name = lit "fast";
  existing_bucket_name = lit "";
  protocols = lit "S3" ∷ [];
  status = record { bucket_name = lit "photos"; bucket_ready = false };
}

abbrev access : BucketAccess
access = record {
  name = lit "reader";
  namespace = lit "apps";
  bucket_claim_name = lit "album";
  bucket_access_class_name = lit "readers";
  credentials_secret_name = lit "album-keys";
  status = record { access_granted = false; account_id = lit "" };
}

abbrev readers : BucketAccessClass
readers = record {
  driver_name = lit "entity.io/s3";
  parameters = (lit "readonly", lit "true") ∷ [];
}

abbrev before : World ℕ
before = record {
  buckets = (lit "photos", new_bucket) ∷ [];
  claims = (lit "apps/album", album) ∷ [];
  classes = [];
  accesses = (lit "apps/reader", access) ∷ [];
  access_classes = (lit "readers", readers) ∷ [];
  secrets = [];
  world = 0;
}

abbrev ready_bucket : Bucket
ready_bucket = record new_bucket {
  status = record { bucket_ready = true; bucket_id = lit "photos" };
}

abbrev ready : World ℕ
ready = record before { buckets = (lit "photos", ready_bucket) ∷ [] }

update_stale_example :
    let t = (update driver calm_calls new_bucket new_bucket before).1 in
    ((b : Bucket) × (get t.buckets (lit "photos") ≡ some b) × (b.status.bucket_ready ≡ true))
    × ((c : Claim) × (get t.claims (lit "apps/album") ≡ some c) × (c.status.bucket_ready ≡ false))
unfolding update get put ◌==◌
update_stale_example =
    update_stale driver calm_calls new_bucket new_bucket (lit "apps/album") before refl refl refl
      refl refl refl

add_bucket_access-Grants_example :
    (bc : Claim) × (bucket : Bucket) × Bound driver calm_calls access bc bucket ready
    × Grants driver calm_calls access
        (read_only_of (get readers.parameters (lit "readonly")))
        bucket.status.bucket_id
        ready
        (add_bucket_access driver calm_calls access ready).1
unfolding add_bucket_access get put ◌==◌
add_bucket_access-Grants_example =
    add_bucket_access-Grants driver calm_calls access ready refl refl refl refl refl
