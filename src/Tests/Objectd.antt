-- ===== src/Tests/Objectd.antt =====
-- The theorems about the start of a pod at concrete inputs.
use pobj.Prelude.{
  if◌then◌else◌, ◌≡◌, ◌≢◌, ◌↔◌, refl, ap, Bool, true, false, none, some, [], ◌∷◌, arith, Option,
}
use pobj.Prelude.Int.{pos}
use pobj.Text.{Text, lit, ◌==◌}
use pobj.Text.Parts.{decimal}
use pobj.Dict.{get}
use pobj.Exec.{ok}
use pobj.Kube.{Secret, EnvSource, value, field_ref, secret_key_ref}
use pobj.Store.{Disk, open_store}
use pobj.Cluster.{new}
use pobj.Operator.Spec.{ObjectService}
use pobj.Operator.Tls.{content}
use pobj.Operator.Workloads.{objectd_env}
use pobj.Objectd.{
  Env, get_env, tls_enabled, cluster_cfg, Files, TlsConfig, ClientAuth, verify_client_cert_if_given,
  Process, serving, panicked, started, boot,
}
use pobj.Objectd.Environment.{IsRun, pod, intended, new-operator}
use pobj.Objectd.Start.{IsSecured, boot-serving, boot-panicked}
use pobj.Cluster.{Cluster, admin_host}
use pobj.Operator.Tls.{dns_names}
use pobj.Objectd.Hosts.{covers, has_dot, covers-admin_host}
use pobj.Tests.Fixtures.{tiny, calm, no_files}
use pobj.Tests.Operator.{store_service}

abbrev admin_secret : Secret
admin_secret = record {
  type = lit "";
  contents = (lit "adminToken", lit "abcd") ∷ [];
  owner = some (lit "store");
}

abbrev pub named_service : ObjectService
named_service =
    let spec = store_service.spec in
    record store_service {
      spec = record spec {
        admin_secret_name = lit "store-admin";
        tls_secret_name = lit "store-tls";
        data_path = lit "/data";
      };
    }

-- The variables of the third pod.
resolved : Option EnvSource → Text
unfolding content ◌==◌
resolved none = []
resolved (some (value v)) = v
resolved (some (field_ref path)) =
    if path == lit "metadata.name" then lit "store-2" else lit "default"
resolved (some (secret_key_ref name k)) = content admin_secret k

third_env : Env
unfolding resolved objectd_env get
third_env k = resolved (get (objectd_env named_service) k)

third_IsRun :
    IsRun named_service
      (pod named_service (λ name. admin_secret) third_env 2)
      (λ name. admin_secret)
      third_env
unfolding third_env resolved ◌==◌ decimal
third_IsRun = record {
  values = λ k v h. ap resolved h;
  names = λ k h. ap resolved h;
  namespaces = λ k h. ap resolved h;
  secrets = λ k name key h. ap resolved h;
}

new-operator_example :
    new (cluster_cfg third_env)
    ≡ record { cfg = intended named_service (λ name. admin_secret) third_env 2; ordinal = pos 2 }
new-operator_example =
    new-operator named_service (λ name. admin_secret) third_env 2 2 8999 third_IsRun
      (λ e. absurd (ground (arith, e))) (λ e. absurd (ground (arith, e))) refl refl (omega arith)
      (omega arith) (omega arith)

-- A disk without metadata, files that can be read, and a CA file with a certificate or without.
abbrev fresh_disk : Disk
fresh_disk = no_files.disk

abbrev files : Bool → Files
files found = record {
  load_key_pair = λ cert key. ok (lit "pair");
  read_file = λ name. ok (lit "ca");
  append_certs = λ pem. found;
}

abbrev secure : TlsConfig
secure = record {
  min_version = 0x0303;
  certificate = lit "pair";
  client_cas = some (lit "ca");
  client_auth = ClientAuth.no_client_cert;
}

abbrev running : Process
running =
    let p = started third_env no_files in
    record p {
      s3_server = record p.s3_server { tls_config = some secure };
      admin_server = record p.admin_server {
        tls_config = some (record secure { client_auth = verify_client_cert_if_given });
      };
    }

runs : boot tiny calm (files true) third_env fresh_disk ≡ serving running
unfolding boot third_env resolved content ◌==◌ objectd_env get
runs = refl

boot-serving_example :
    (running.token ≡ third_env (lit "ENTITY_ADMIN_TOKEN"))
    × (running.token ≢ [])
    × (open_store tiny calm (get_env third_env (lit "ENTITY_DATA_DIR") (lit "/data")) fresh_disk
        ≡ ok running.store)
    × IsSecured (tls_enabled third_env) running
boot-serving_example = boot-serving tiny calm (files true) third_env fresh_disk running runs

boot-panicked_example :
    (boot tiny calm (files false) third_env fresh_disk ≡ panicked)
    ↔ ((files false).append_certs (lit "ca") ≡ false)
unfolding third_env resolved content ◌==◌ objectd_env get open_store tls_enabled
boot-panicked_example =
    boot-panicked tiny calm (files false) third_env fresh_disk (lit "ca") (lit "pair")
      (λ e. absurd (ground (arith, e))) no_files refl refl refl (λ e. absurd (ground (arith, e)))
      refl

abbrev third_pod : Cluster
third_pod = record {
  cfg = intended named_service (λ name. admin_secret) third_env 2;
  ordinal = pos 2;
}

covers-admin_host_example : covers (dns_names named_service) (admin_host third_pod (pos 1)) ≡ true
unfolding has_dot
covers-admin_host_example = covers-admin_host named_service third_pod 1 refl refl refl refl
