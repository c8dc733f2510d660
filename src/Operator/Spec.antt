-- ===== src/Operator/Spec.antt =====
-- api/v1alpha1/objectservice_types.go, and the defaults of Reconcile in
-- controllers/objectservice_controller.go.
use pobj.Prelude.{Bool, ◌++◌, if◌then◌else◌}
use pobj.Prelude.Int.{ℤ, pos, ltb_ℤ, eqb_ℤ}
use pobj.Text.{Text, lit, ◌==◌}

pub record ObjectServiceSpec : Type 0 where
  pub replicas : ℤ
  pub storage_class_name : Text
  pub volume_size : Text
  pub service_type : Text
  pub port : ℤ
  pub tls_secret_name : Text
  pub use_cert_manager : Bool
  pub issuer_ref_name : Text
  pub issuer_ref_kind : Text
  pub issuer_ref_group : Text
  pub admin_secret_name : Text
  pub data_path : Text
  pub enable_versioning : Bool
  pub force_path_style : Bool

pub record ObjectServiceStatus : Type 0 where
  pub phase : Text
  pub ready_replicas : ℤ
  pub service_endpoint : Text
  pub observed_generation : ℤ

pub record ObjectService : Type 0 where
  pub name : Text
  pub namespace : Text
  pub generation : ℤ
  pub spec : ObjectServiceSpec
  pub status : ObjectServiceStatus

-- if v == "" { v = d }
abbrev pub or_else : Text → Text → Text
or_else v d = if v == lit "" then d else v

unfoldable pub with_defaults : ObjectService → ObjectService
unfolding ◌==◌
with_defaults obj =
    let spec = obj.spec in
    record obj {
      spec = record spec {
        replicas = if ltb_ℤ (pos 0) spec.replicas then spec.replicas else pos 1;
        port = if eqb_ℤ spec.port (pos 0) then pos 9000 else spec.port;
        service_type = or_else spec.service_type (lit "ClusterIP");
        data_path = or_else spec.data_path (lit "/data");
        volume_size = or_else spec.volume_size (lit "100Gi");
        admin_secret_name = or_else spec.admin_secret_name (obj.name ++ lit "-admin");
        tls_secret_name = or_else spec.tls_secret_name (obj.name ++ lit "-tls");
      };
    }

-- The names of the objects that belong to the service.
unfoldable pub headless_name : ObjectService → Text
headless_name obj = obj.name ++ lit "-headless"

unfoldable pub cosi_name : ObjectService → Text
cosi_name obj = obj.name ++ lit "-cosi"
