-- ===== src/Kube.antt =====
-- The Kubernetes API as the operator and the COSI driver use it: the objects of one namespace by
-- name, with the fields that the program writes or reads, and calls that may fail. The API server
-- is not part of the repository: `Calls` holds its answers.
use pobj.Prelude.{if◌then◌else◌, ℕ, Bool, Option, none, some, List}
use pobj.Prelude.Int.{ℤ}
use pobj.Text.{Text, lit}
use pobj.Dict.{Dict, get, put}
use pobj.Exec.{Error, Result, ok, err, Exec, not_found, failed, is_not_found}

-- corev1.Secret; a write of `stringData` ends up in the contents.
pub record Secret : Type 0 where
  pub type : Text
  pub contents : Dict Text
  pub owner : Option Text

pub record ServicePort : Type 0 where
  pub name : Text
  pub port : ℤ
  pub target_port : ℤ

pub record Service : Type 0 where
  pub labels : Dict Text
  pub owner : Option Text
  pub type : Text
  pub cluster_ip : Text
  pub ports : List ServicePort
  pub selector : Dict Text

-- A value, a field of the pod, or a key of a secret.
pub data EnvSource : Type 0 where
  value : Text → EnvSource
  field_ref : Text → EnvSource
  secret_key_ref : Text → Text → EnvSource

pub record Container : Type 0 where
  pub name : Text
  pub image : Text
  pub command : List Text
  pub ports : List (ℤ × Text)
  pub env : Dict EnvSource
  -- The name of a volume, the path, and whether it is read-only.
  pub mounts : List (Text × Text × Bool)

-- Volumes are names of volumes with the secrets that they hold.
pub record PodTemplate : Type 0 where
  pub labels : Dict Text
  pub service_account : Text
  pub containers : List Container
  pub volumes : Dict Text

pub record VolumeClaim : Type 0 where
  pub name : Text
  pub access_modes : List Text
  pub storage : Text
  pub storage_class : Text

pub record StatefulSet : Type 0 where
  pub owner : Option Text
  pub service_name : Text
  pub replicas : ℤ
  pub selector : Dict Text
  pub template : PodTemplate
  pub claims : List VolumeClaim
  pub ready_replicas : ℤ

pub record DeploymentSpec : Type 0 where
  pub replicas : ℤ
  pub selector : Dict Text
  pub template : PodTemplate

pub record Deployment : Type 0 where
  pub owner : Option Text
  pub spec : DeploymentSpec

-- A Certificate of cert-manager.
pub record CertificateRequest : Type 0 where
  pub secret_name : Text
  pub dns_names : List Text
  pub is_ca : Bool
  pub issuer_name : Text
  pub issuer_kind : Text
  pub issuer_group : Text
  pub algorithm : Text
  pub size : ℕ
  pub usages : List Text
  pub duration : Text
  pub renew_before : Text

pub data Kind : Type 0 where
  object_service secret service stateful_set deployment certificate : Kind

-- What the API server answers to the calls of one run: `none` is no failure of its own. `own` is
-- controllerutil.SetControllerReference.
pub record Calls : Type 0 where
  pub get : Kind → Text → Option Error
  pub create : Kind → Text → Option Error
  pub update : Kind → Text → Option Error
  pub update_status : Option Error
  pub own : Kind → Option Error

module _ {V : Type 0} where
  abbrev read_found : Option V → Result V
  read_found none = err not_found
  read_found (some v) = ok v

  -- r.Get
  abbrev pub read : Option Error → Dict V → Text → Result V
  read (some e) d name = err e
  read none d name = read_found (get d name)

  abbrev pub create_new : Option V → Dict V → Text → V → Result (Unit {0}) × Dict V
  create_new none d name v = (ok tt, put d name v)
  create_new (some w) d name v = (err (failed (lit "already exists")), d)

  -- r.Create
  abbrev pub create_in : Option Error → Dict V → Text → V → Result (Unit {0}) × Dict V
  create_in (some e) d name v = (err e, d)
  create_in none d name v = create_new (get d name) d name v

  abbrev pub update_found : Option V → Dict V → Text → V → Result (Unit {0}) × Dict V
  update_found none d name v = (err not_found, d)
  update_found (some w) d name v = (ok tt, put d name v)

  -- r.Update
  abbrev pub update_in : Option Error → Dict V → Text → V → Result (Unit {0}) × Dict V
  update_in (some e) d name v = (err e, d)
  update_in none d name v = update_found (get d name) d name v

  -- err := r.Get(…); if IsNotFound(err) { create }; if err != nil { return err }; update
  abbrev pub upsert :
      {S : Type 0} → Result V → Exec S (Unit {0}) → (V → Exec S (Unit {0})) → Exec S (Unit {0})
  upsert (ok v) create update s = update v s
  upsert (err e) create update s = if is_not_found e then create s else (err e, s)
