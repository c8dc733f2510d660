-- ===== src/Operator/Namespace.antt =====
-- controllers/objectservice_controller.go: the state that a run of the operator changes, which is
-- the objects of the service's namespace, and the calls on it.
use pobj.Prelude.{some, none}
use pobj.Text.{Text}
use pobj.Dict.{Dict}
use pobj.Exec.{err, ok, Exec}
use pobj.Kube.{
  Calls, Kind, Secret, Service, StatefulSet, Deployment, CertificateRequest, create_in, update_in,
}
use pobj.Operator.Spec.{ObjectService}

pub record Namespace : Type 0 where
  pub object_services : Dict ObjectService
  pub secrets : Dict Secret
  pub services : Dict Service
  pub stateful_sets : Dict StatefulSet
  pub deployments : Dict Deployment
  pub certificates : Dict CertificateRequest

module _ (calls : Calls) where
  abbrev pub create_secret : Text → Secret → Exec Namespace Unit
  create_secret name v s =
      let (r, d) = create_in (calls.create Kind.secret name) s.secrets name v in
      (r, record s { secrets = d })

  abbrev pub update_secret : Text → Secret → Exec Namespace Unit
  update_secret name v s =
      let (r, d) = update_in (calls.update Kind.secret name) s.secrets name v in
      (r, record s { secrets = d })

  abbrev pub create_service : Text → Service → Exec Namespace Unit
  create_service name v s =
      let (r, d) = create_in (calls.create Kind.service name) s.services name v in
      (r, record s { services = d })

  abbrev pub update_service : Text → Service → Exec Namespace Unit
  update_service name v s =
      let (r, d) = update_in (calls.update Kind.service name) s.services name v in
      (r, record s { services = d })

  abbrev pub create_stateful_set : Text → StatefulSet → Exec Namespace Unit
  create_stateful_set name v s =
      let (r, d) = create_in (calls.create Kind.stateful_set name) s.stateful_sets name v in
      (r, record s { stateful_sets = d })

  abbrev pub update_stateful_set : Text → StatefulSet → Exec Namespace Unit
  update_stateful_set name v s =
      let (r, d) = update_in (calls.update Kind.stateful_set name) s.stateful_sets name v in
      (r, record s { stateful_sets = d })

  abbrev pub create_deployment : Text → Deployment → Exec Namespace Unit
  create_deployment name v s =
      let (r, d) = create_in (calls.create Kind.deployment name) s.deployments name v in
      (r, record s { deployments = d })

  abbrev pub update_deployment : Text → Deployment → Exec Namespace Unit
  update_deployment name v s =
      let (r, d) = update_in (calls.update Kind.deployment name) s.deployments name v in
      (r, record s { deployments = d })

  abbrev pub create_certificate : Text → CertificateRequest → Exec Namespace Unit
  create_certificate name v s =
      let (r, d) = create_in (calls.create Kind.certificate name) s.certificates name v in
      (r, record s { certificates = d })

  abbrev pub update_certificate : Text → CertificateRequest → Exec Namespace Unit
  update_certificate name v s =
      let (r, d) = update_in (calls.update Kind.certificate name) s.certificates name v in
      (r, record s { certificates = d })

  -- controllerutil.SetControllerReference, on an object that is about to be created.
  abbrev pub own : Kind → Exec Namespace Unit
  own kind s = elim (calls.own kind) [ none ↦ (ok tt, s) | some e ↦ (err e, s) ]
