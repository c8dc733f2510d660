-- ===== src/Operator/Workloads.antt =====
-- controllers/objectservice_controller.go: ensureHeadlessService, ensureService, ensureStatefulSet
-- and ensureCOSIDeployment.
use pobj.Prelude.{true, false, some, List, [], ◌∷◌, ◌++◌}
use pobj.Prelude.Int.{pos}
use pobj.Text.{Text, lit}
use pobj.Text.Parts.{decimal_ℤ}
use pobj.Dict.{Dict}
use pobj.Exec.{Result, ok, err, failed, error_text, Exec, is_not_found, ◌>>◌}
use pobj.Kube.{
  Calls, Kind, Service, ServicePort, StatefulSet, DeploymentSpec, PodTemplate, EnvSource, value,
  field_ref, secret_key_ref, read, upsert,
}
use pobj.Operator.Spec.{ObjectService, headless_name, cosi_name}
use pobj.Operator.Namespace.{
  Namespace, own, create_service, update_service, create_stateful_set, update_stateful_set,
  create_deployment, update_deployment,
}

abbrev pub app_labels : Text → Dict Text
app_labels name = (lit "app", name) ∷ []

abbrev pub service_ports : ObjectService → List ServicePort
service_ports obj =
    record { name = lit "s3"; port = obj.spec.port; target_port = obj.spec.port }
    ∷ record { name = lit "admin"; port = pos 19000; target_port = pos 19000 }
    ∷ []

abbrev tls_dir : Text
tls_dir = lit "/etc/entity/tls"

-- fmt.Sprintf("%s.%s.svc.cluster.local:%d", …)
unfoldable pub endpoint_of : ObjectService → Text
unfolding decimal_ℤ
endpoint_of obj =
    ((((obj.name ++ lit ".") ++ obj.namespace) ++ lit ".svc.cluster.local") ++ lit ":")
    ++ decimal_ℤ obj.spec.port

unfoldable pub admin_url_of : ObjectService → Text
admin_url_of obj =
    (((lit "https://" ++ obj.name) ++ lit ".") ++ obj.namespace) ++ lit ".svc.cluster.local:19000"

unfoldable pub objectd_env : ObjectService → Dict EnvSource
unfolding headless_name decimal_ℤ
objectd_env obj =
    (lit "ENTITY_DATA_DIR", value obj.spec.data_path)
    ∷ (lit "ENTITY_S3_PORT", value (decimal_ℤ obj.spec.port))
    ∷ (lit "ENTITY_ADMIN_PORT", value (lit "19000"))
    ∷ (lit "ENTITY_SERVICE_NAME", value obj.name)
    ∷ (lit "ENTITY_HEADLESS_SERVICE_NAME", value (headless_name obj))
    ∷ (lit "ENTITY_REPLICAS", value (decimal_ℤ obj.spec.replicas))
    ∷ (lit "POD_NAME", field_ref (lit "metadata.name"))
    ∷ (lit "POD_NAMESPACE", field_ref (lit "metadata.namespace"))
    ∷ (lit "ENTITY_TLS_ENABLED", value (lit "true"))
    ∷ (lit "ENTITY_TLS_CERT_FILE", value (tls_dir ++ lit "/tls.crt"))
    ∷ (lit "ENTITY_TLS_KEY_FILE", value (tls_dir ++ lit "/tls.key"))
    ∷ (lit "ENTITY_TLS_CA_FILE", value (tls_dir ++ lit "/ca.crt"))
    ∷ (lit "ENTITY_ADMIN_TOKEN", secret_key_ref obj.spec.admin_secret_name (lit "adminToken"))
    ∷ []

unfoldable pub cosi_env : ObjectService → Dict EnvSource
unfolding endpoint_of admin_url_of
cosi_env obj =
    (lit "ENTITY_DRIVER_NAME", value (lit "entity.io/s3"))
    ∷ (lit "ENTITY_S3_ENDPOINT", value (endpoint_of obj))
    ∷ (lit "ENTITY_S3_REGION", value (lit "us-east-1"))
    ∷ (lit "ENTITY_S3_CA_PEM", secret_key_ref obj.spec.tls_secret_name (lit "ca.crt"))
    ∷ (lit "ENTITY_ADMIN_URL", value (admin_url_of obj))
    ∷ (lit "ENTITY_ADMIN_CA_PEM", secret_key_ref obj.spec.tls_secret_name (lit "ca.crt"))
    ∷ (lit "ENTITY_ADMIN_TOKEN", secret_key_ref obj.spec.admin_secret_name (lit "adminToken"))
    ∷ (lit "POD_NAME", field_ref (lit "metadata.name"))
    ∷ (lit "POD_NAMESPACE", field_ref (lit "metadata.namespace"))
    ∷ []

unfoldable pub headless_service : ObjectService → Service
headless_service obj = record {
  labels = app_labels obj.name;
  owner = some obj.name;
  type = lit "";
  cluster_ip = lit "None";
  ports = service_ports obj;
  selector = app_labels obj.name;
}

unfoldable pub client_service : ObjectService → Service
client_service obj = record {
  labels = app_labels obj.name;
  owner = some obj.name;
  type = obj.spec.service_type;
  cluster_ip = lit "";
  ports = service_ports obj;
  selector = app_labels obj.name;
}

module _ (image : Text) (obj : ObjectService) where
  unfoldable pub objectd_template : PodTemplate
  unfolding objectd_env
  objectd_template = record {
    labels = app_labels obj.name;
    service_account = lit "";
    containers =
        record {
          name = lit "objectd";
          image = image;
          command = lit "/entity-objectd" ∷ [];
          ports = (obj.spec.port, lit "s3") ∷ (pos 19000, lit "admin") ∷ [];
          env = objectd_env obj;
          mounts = (lit "data", obj.spec.data_path, false) ∷ (lit "tls", tls_dir, true) ∷ [];
        }
        ∷ [];
    volumes = (lit "tls", obj.spec.tls_secret_name) ∷ [];
  }

  -- `quantity` is the volume size as resource.ParseQuantity reads it.
  unfoldable pub stateful_set_of : Text → StatefulSet
  unfolding objectd_template headless_name
  stateful_set_of quantity = record {
    owner = some obj.name;
    service_name = headless_name obj;
    replicas = obj.spec.replicas;
    selector = app_labels obj.name;
    template = objectd_template;
    claims =
        record {
          name = lit "data";
          access_modes = lit "ReadWriteOnce" ∷ [];
          storage = quantity;
          storage_class = obj.spec.storage_class_name;
        }
        ∷ [];
    ready_replicas = pos 0;
  }

  unfoldable pub cosi_deployment : DeploymentSpec
  unfolding cosi_env cosi_name
  cosi_deployment = record {
    replicas = pos 1;
    selector = app_labels (cosi_name obj);
    template = record {
      labels = app_labels (cosi_name obj);
      service_account = lit "entity-cosi-driver";
      containers =
          record {
            name = lit "cosidriver";
            image = image;
            command = lit "/entity-cosidriver" ∷ [];
            ports = [];
            env = cosi_env obj;
            mounts = [];
          }
          ∷ [];
      volumes = [];
    };
  }

module _ (calls : Calls) (obj : ObjectService) where
  unfoldable pub ensure_headless_service : Exec Namespace Unit
  unfolding headless_service headless_name is_not_found
  ensure_headless_service s =
      let name = headless_name obj in
      upsert (read (calls.get Kind.service name) s.services name)
        (do own calls Kind.service; create_service calls name (headless_service obj))
        (λ svc. update_service calls name (record svc {
          cluster_ip = lit "None";
          ports = service_ports obj;
          selector = app_labels obj.name;
        }))
        s

  unfoldable pub ensure_service : Exec Namespace Unit
  unfolding client_service is_not_found
  ensure_service s =
      let name = obj.name in
      upsert (read (calls.get Kind.service name) s.services name)
        (do own calls Kind.service; create_service calls name (client_service obj))
        (λ svc. update_service calls name (record svc {
          type = obj.spec.service_type;
          ports = service_ports obj;
          selector = app_labels obj.name;
        }))
        s

  -- resource.ParseQuantity is `parse_quantity`. The call to the API comes first, its error last.
  unfoldable pub ensure_stateful_set : (Text → Result Text) → Text → Exec Namespace Unit
  unfolding stateful_set_of error_text is_not_found
  ensure_stateful_set parse_quantity image s = elim (parse_quantity obj.spec.volume_size) [
    | err e ↦ (
      err (
          failed (
            ((lit "invalid volumeSize \"" ++ obj.spec.volume_size) ++ lit "\": ") ++ error_text e)),
      s,
    )
    | ok quantity ↦
        let desired = stateful_set_of image obj quantity in
        upsert (read (calls.get Kind.stateful_set obj.name) s.stateful_sets obj.name)
          (do own calls Kind.stateful_set; create_stateful_set calls obj.name desired)
          (λ sts. update_stateful_set calls obj.name (record sts {
            replicas = desired.replicas;
            template = desired.template;
            service_name = desired.service_name;
            claims = desired.claims;
          }))
          s
  ]

  unfoldable pub ensure_cosi_deployment : Text → Exec Namespace Unit
  unfolding cosi_deployment cosi_name is_not_found
  ensure_cosi_deployment image s =
      let name = cosi_name obj in
      let spec = cosi_deployment image obj in
      upsert (read (calls.get Kind.deployment name) s.deployments name)
        (do
          own calls Kind.deployment
          create_deployment calls name (record { owner = some obj.name; spec = spec }))
        (λ dep. update_deployment calls name (record dep { spec = spec })) s
