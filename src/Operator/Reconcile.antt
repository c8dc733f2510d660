-- ===== src/Operator/Reconcile.antt =====
-- controllers/objectservice_controller.go: Reconcile.
use pobj.Prelude.{if◌then◌else◌, ℕ, Option, none, some}
use pobj.Text.{Text, lit}
use pobj.Dict.{get, put}
use pobj.Exec.{not_found, Result, ok, err, Exec, is_not_found, ◌>>◌}
use pobj.Kube.{Calls, Kind, StatefulSet, read}
use pobj.Operator.Spec.{ObjectService, ObjectServiceStatus, with_defaults}
use pobj.Operator.Pki.{Pki, Draws}
use pobj.Operator.Namespace.{Namespace}
use pobj.Operator.Tls.{ensure_admin_secret, ensure_tls}
use pobj.Operator.Workloads.{
  ensure_headless_service, ensure_service, ensure_stateful_set, ensure_cosi_deployment, endpoint_of,
}

-- What a reconciler is made with, and the libraries that it uses.
pub record Reconciler : Type 0 where
  pub operator_image : Text
  pub pki : Pki
  pub parse_quantity : Text → Result Text

-- r.Status().Update writes the status alone: the rest of the object stays as it is stored.
abbrev store_status :
    ObjectServiceStatus → Option ObjectService → Text → Namespace → Result (Unit {0}) × Namespace
store_status status none name s = (err not_found, s)
store_status status (some stored) name s = (
  ok tt,
  record s { object_services = put s.object_services name (record stored { status = status }) },
)

-- if err := r.Get(…, sts); err == nil { obj.Status.ReadyReplicas = sts.Status.ReadyReplicas }
abbrev ready_from : ObjectServiceStatus → Result StatefulSet → ObjectServiceStatus
ready_from status (ok sts) = record status { ready_replicas = sts.ready_replicas }
ready_from status (err e) = status

module _ (r : Reconciler) (calls : Calls) (draws : Draws) (now : ℕ) where
  unfoldable pub status_of : ObjectService → Namespace → ObjectServiceStatus
  unfolding endpoint_of get
  status_of obj s =
      record (ready_from obj.status
        (read (calls.get Kind.stateful_set obj.name) s.stateful_sets obj.name)) {
          phase = lit "Ready";
          service_endpoint = endpoint_of obj;
          observed_generation = obj.generation;
        }

  unfoldable pub update_status : ObjectService → Exec Namespace Unit
  unfolding status_of get put
  update_status obj s = elim calls.update_status [
    | some e ↦ (err e, s)
    | none ↦ store_status (status_of obj s) (get s.object_services obj.name) obj.name s
  ]

  -- The six calls, in their order, each behind the success of those before it.
  unfoldable pub ensure_all : ObjectService → Exec Namespace Unit
  unfolding ensure_admin_secret ensure_tls ensure_headless_service ensure_service
      ensure_stateful_set ensure_cosi_deployment
  ensure_all obj = do
    ensure_admin_secret calls r.pki draws now obj
    ensure_tls calls r.pki draws now obj
    ensure_headless_service calls obj
    ensure_service calls obj
    ensure_stateful_set calls obj r.parse_quantity r.operator_image
    ensure_cosi_deployment calls obj r.operator_image

  -- Reconcile for the service `name`. An object that is gone is no error.
  unfoldable pub reconcile : Text → Exec Namespace Unit
  unfolding with_defaults ensure_all update_status is_not_found
  reconcile name s = elim (read (calls.get Kind.object_service name) s.object_services name) [
    | err e ↦ if is_not_found e then (ok tt, s) else (err e, s)
    | ok stored ↦ let obj = with_defaults stored in (do ensure_all obj; update_status obj) s
  ]
