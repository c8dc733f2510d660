-- ===== src/Operator/Frame.antt =====
-- The six calls of Reconcile (controllers/objectservice_controller.go): the parts of the namespace that
-- they do not write.
use pobj.Prelude.{ap, ℕ, arith}
use pobj.Dict.{Dict}
use pobj.Exec.{Exec, ◌>>◌}
use pobj.Kube.{Calls, Secret}
use pobj.Operator.Spec.{ObjectService}
use pobj.Operator.Pki.{Draws}
use pobj.Operator.Namespace.{Namespace}
use pobj.Operator.Keeps.{
  Keeps, Keeps->>=, services_in, object_services-Ignores, Keeps-ensure_tls,
  Keeps-ensure_admin_secret,
}
use pobj.Operator.Tls.{ensure_admin_secret, ensure_tls}
use pobj.Operator.Workloads.{
  ensure_headless_service, ensure_service, ensure_stateful_set, ensure_cosi_deployment,
}
use pobj.Operator.Shapes.{
  ensure_headless_service-upserted, ensure_service-upserted, ensure_cosi_deployment-upserted,
}
use pobj.Operator.Reconcile.{Reconciler, ensure_all}

abbrev pub kept_parts : Namespace → Dict Secret × Dict ObjectService
kept_parts s = (s.secrets, s.object_services)

module _ (r : Reconciler) (calls : Calls) (draws : Draws) (now : ℕ) (obj : ObjectService) where
  abbrev pub workloads : Exec Namespace Unit
  workloads = do
    ensure_headless_service calls obj
    ensure_service calls obj
    ensure_stateful_set calls obj r.parse_quantity r.operator_image
    ensure_cosi_deployment calls obj r.operator_image

  -- The last four calls leave the secrets and the object services alone.
  pub Keeps-workloads : Keeps kept_parts workloads
  unfolding ensure_stateful_set
  Keeps-workloads =
      let view = kept_parts in
      Keeps->>= view (ensure_headless_service calls obj) _
        (λ s. ground (arith, ensure_headless_service-upserted calls obj s))
        (λ u.
          Keeps->>= view (ensure_service calls obj) _
            (λ s. ground (arith, ensure_service-upserted calls obj s))
            (λ u.
              Keeps->>= view (ensure_stateful_set calls obj r.parse_quantity r.operator_image) _
                (λ s. ground arith)
                (λ u s.
                  ground (arith, ensure_cosi_deployment-upserted calls obj s r.operator_image))))

  pub Keeps-ensure_all : Keeps services_in (ensure_all r calls draws now obj)
  unfolding ensure_all
  Keeps-ensure_all =
      let view = services_in in
      Keeps->>= view (ensure_admin_secret calls r.pki draws now obj) _
        (Keeps-ensure_admin_secret calls view r.pki draws now obj
          (object_services-Ignores calls obj.spec.admin_secret_name))
        (λ u.
          Keeps->>= view (ensure_tls calls r.pki draws now obj) _
            (Keeps-ensure_tls calls view r.pki draws now obj
              (object_services-Ignores calls obj.spec.tls_secret_name))
            (λ u s. ap (λ p. p.1) (Keeps-workloads s)))
