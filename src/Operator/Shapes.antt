-- ===== src/Operator/Shapes.antt =====
-- The four ensure functions for workloads (controllers/objectservice_controller.go) as instances of
-- one get, create or update, each on the objects of its own kind.
use pobj.Dict.{Dict}
use pobj.Prelude.{◌≡◌, some, arith}
use pobj.Text.{Text, lit}
use pobj.Exec.{Result, ok}
use pobj.Kube.{Calls, Kind, Service, StatefulSet, Deployment}
use pobj.Operator.Spec.{ObjectService, headless_name, cosi_name}
use pobj.Operator.Namespace.{Namespace}
use pobj.Operator.Workloads.{
  service_ports, app_labels, headless_service, client_service, stateful_set_of, cosi_deployment,
  ensure_headless_service, ensure_service, ensure_stateful_set, ensure_cosi_deployment,
}
use pobj.Operator.Settled.{upserted}

abbrev pub headless_update : ObjectService → Service → Service
headless_update obj svc = record svc {
  cluster_ip = lit "None";
  ports = service_ports obj;
  selector = app_labels obj.name;
}

abbrev pub service_update : ObjectService → Service → Service
service_update obj svc = record svc {
  type = obj.spec.service_type;
  ports = service_ports obj;
  selector = app_labels obj.name;
}

abbrev pub stateful_set_update : Text → ObjectService → Text → StatefulSet → StatefulSet
stateful_set_update image obj quantity sts =
    let desired = stateful_set_of image obj quantity in
    record sts {
      replicas = desired.replicas;
      template = desired.template;
      service_name = desired.service_name;
      claims = desired.claims;
    }

abbrev pub deployment_update : Text → ObjectService → Deployment → Deployment
deployment_update image obj dep = record dep { spec = cosi_deployment image obj }

module _ (calls : Calls) (obj : ObjectService) (s : Namespace) where
  abbrev pub headless_outcome : Result (Unit {0}) × Dict Service
  headless_outcome =
      let name = headless_name obj in
      upserted (calls.get Kind.service name) (calls.own Kind.service)
        (calls.create Kind.service name) (calls.update Kind.service name) s.services name
        (headless_service obj) (headless_update obj)

  pub ensure_headless_service-upserted :
      ensure_headless_service calls obj s
      ≡ (headless_outcome.0, record s { services = headless_outcome.1 })
  unfolding ensure_headless_service upserted
  ensure_headless_service-upserted = ground arith

  abbrev pub service_outcome : Result (Unit {0}) × Dict Service
  service_outcome =
      let name = obj.name in
      upserted (calls.get Kind.service name) (calls.own Kind.service)
        (calls.create Kind.service name) (calls.update Kind.service name) s.services name
        (client_service obj) (service_update obj)

  pub ensure_service-upserted :
      ensure_service calls obj s ≡ (service_outcome.0, record s { services = service_outcome.1 })
  unfolding ensure_service upserted
  ensure_service-upserted = ground arith

  abbrev pub stateful_set_outcome : Text → Text → Result (Unit {0}) × Dict StatefulSet
  stateful_set_outcome image quantity =
      let name = obj.name in
      upserted (calls.get Kind.stateful_set name) (calls.own Kind.stateful_set)
        (calls.create Kind.stateful_set name) (calls.update Kind.stateful_set name) s.stateful_sets
        name (stateful_set_of image obj quantity) (stateful_set_update image obj quantity)

  pub ensure_stateful_set-upserted :
      (parse_quantity : Text → Result Text) (image : Text) {quantity : Text}
      → parse_quantity obj.spec.volume_size ≡ ok quantity
      → ensure_stateful_set calls obj parse_quantity image s ≡ (
        (stateful_set_outcome image quantity).0,
        record s { stateful_sets = (stateful_set_outcome image quantity).1 },
      )
  unfolding ensure_stateful_set upserted
  ensure_stateful_set-upserted parse_quantity image q = ground arith

  abbrev pub cosi_outcome : Text → Result (Unit {0}) × Dict Deployment
  cosi_outcome image =
      let name = cosi_name obj in
      upserted (calls.get Kind.deployment name) (calls.own Kind.deployment)
        (calls.create Kind.deployment name) (calls.update Kind.deployment name) s.deployments name
        (record { owner = some obj.name; spec = cosi_deployment image obj })
        (deployment_update image obj)

  pub ensure_cosi_deployment-upserted :
      (image : Text)
      → ensure_cosi_deployment calls obj image s
        ≡ ((cosi_outcome image).0, record s { deployments = (cosi_outcome image).1 })
  unfolding ensure_cosi_deployment upserted
  ensure_cosi_deployment-upserted image = ground arith
