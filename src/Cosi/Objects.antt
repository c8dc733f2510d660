-- ===== src/Cosi/Objects.antt =====
-- The COSI objects that internal/cosi/listeners.go works on, and the API calls on them. Objects with
-- a namespace stand under `namespace/name`.
use pobj.Prelude.{Bool, Option, none, some, List, ◌++◌}
use pobj.Text.{Text, lit}
use pobj.Dict.{Dict, get, put, delete}
use pobj.Exec.{Error, Result, ok, err, Exec, not_found}
use pobj.Kube.{Secret, read, create_in, update_in}
use pobj.Cosi.{BucketClaim}

-- Bucket.Spec.BucketClaim, if it is not nil.
pub record ClaimReference : Type 0 where
  pub namespace : Text
  pub name : Text
  pub uid : Text

pub record BucketSpec : Type 0 where
  pub driver_name : Text
  pub bucket_class_name : Text
  pub existing_bucket_id : Text
  pub protocols : List Text
  pub parameters : Dict Text
  pub deletion_policy : Text
  pub bucket_claim : Option ClaimReference

pub record BucketStatus : Type 0 where
  pub bucket_ready : Bool
  pub bucket_id : Text

pub record Bucket : Type 0 where
  pub name : Text
  pub spec : BucketSpec
  pub status : BucketStatus

pub record ClaimStatus : Type 0 where
  pub bucket_name : Text
  pub bucket_ready : Bool

pub record Claim : Type 0 where
  pub meta : BucketClaim
  pub bucket_class_name : Text
  pub existing_bucket_name : Text
  pub protocols : List Text
  pub status : ClaimStatus

pub record BucketClass : Type 0 where
  pub name : Text
  pub driver_name : Text
  pub deletion_policy : Text
  pub parameters : Dict Text

pub record BucketAccessClass : Type 0 where
  pub driver_name : Text
  pub parameters : Dict Text

pub record AccessStatus : Type 0 where
  pub access_granted : Bool
  pub account_id : Text

pub record BucketAccess : Type 0 where
  pub name : Text
  pub namespace : Text
  pub bucket_claim_name : Text
  pub bucket_access_class_name : Text
  pub credentials_secret_name : Text
  pub status : AccessStatus

-- The objects of the API server, and `world`, what the admin API stands before.
pub record World (W : Type 0) : Type 0 where
  pub buckets : Dict Bucket
  pub claims : Dict Claim
  pub classes : Dict BucketClass
  pub accesses : Dict BucketAccess
  pub access_classes : Dict BucketAccessClass
  pub secrets : Dict Secret
  pub world : W

pub data Kind : Type 0 where
  bucket claim class access access_class secret : Kind

-- What the API server answers to the calls of one event: `none` is no failure of its own.
pub record Calls : Type 0 where
  pub get : Kind → Text → Option Error
  pub create : Kind → Text → Option Error
  pub update : Kind → Text → Option Error
  pub update_status : Kind → Text → Option Error
  pub delete : Kind → Text → Option Error

abbrev pub key : Text → Text → Text
key namespace name = (namespace ++ lit "/") ++ name

module _ {V : Type 0} where
  abbrev write_found : Option V → Dict V → Text → (V → V) → Result V × Dict V
  write_found none d name f = (err not_found, d)
  write_found (some stored) d name f = (ok (f stored), put d name (f stored))

  -- UpdateStatus: only the status is written, here by `f`; the object comes back as it is then.
  abbrev pub write_status : Option Error → Dict V → Text → (V → V) → Result V × Dict V
  write_status (some e) d name f = (err e, d)
  write_status none d name f = write_found (get d name) d name f

module _ {W : Type 0} (calls : Calls) where
  abbrev pub get_bucket : Text → Exec (World W) Bucket
  get_bucket name s = (read (calls.get Kind.bucket name) s.buckets name, s)

  abbrev pub get_claim : Text → Exec (World W) Claim
  get_claim name s = (read (calls.get Kind.claim name) s.claims name, s)

  abbrev pub get_class : Text → Exec (World W) BucketClass
  get_class name s = (read (calls.get Kind.class name) s.classes name, s)

  abbrev pub get_access_class : Text → Exec (World W) BucketAccessClass
  get_access_class name s = (read (calls.get Kind.access_class name) s.access_classes name, s)

  abbrev pub get_secret : Text → Exec (World W) Secret
  get_secret name s = (read (calls.get Kind.secret name) s.secrets name, s)

  abbrev pub update_bucket_status : Text → BucketStatus → Exec (World W) Bucket
  update_bucket_status name status s =
      let (r, d) =
        write_status (calls.update_status Kind.bucket name) s.buckets name
          (λ stored. record stored { status = status }) in
      (r, record s { buckets = d })

  abbrev pub update_claim_status : Text → ClaimStatus → Exec (World W) Claim
  update_claim_status name status s =
      let (r, d) =
        write_status (calls.update_status Kind.claim name) s.claims name
          (λ stored. record stored { status = status }) in
      (r, record s { claims = d })

  abbrev pub update_access_status : Text → AccessStatus → Exec (World W) BucketAccess
  update_access_status name status s =
      let (r, d) =
        write_status (calls.update_status Kind.access name) s.accesses name
          (λ stored. record stored { status = status }) in
      (r, record s { accesses = d })

  abbrev pub create_bucket_object : Text → Bucket → Exec (World W) Unit
  create_bucket_object name b s =
      let (r, d) = create_in (calls.create Kind.bucket name) s.buckets name b in
      (r, record s { buckets = d })

  abbrev pub create_secret : Text → Secret → Exec (World W) Unit
  create_secret name v s =
      let (r, d) = create_in (calls.create Kind.secret name) s.secrets name v in
      (r, record s { secrets = d })

  abbrev pub update_secret : Text → Secret → Exec (World W) Unit
  update_secret name v s =
      let (r, d) = update_in (calls.update Kind.secret name) s.secrets name v in
      (r, record s { secrets = d })

  -- The deletion of a secret whose error is dropped.
  unfoldable pub delete_secret : Text → Exec (World W) Unit
  unfolding delete
  delete_secret name s = elim (calls.delete Kind.secret name) [
    | none ↦ (ok tt, record s { secrets = delete s.secrets name })
    | some e ↦ (ok tt, s)
  ]
