-- ===== src/Operator/Idle.antt =====
-- A namespace that is as a service asks for, and the ensure functions of
-- controllers/objectservice_controller.go on it.
use pobj.Prelude.{◌++◌, ◌≡◌, refl, ℕ, Bool, true, false, some, arith}
use pobj.Text.{Text, lit}
use pobj.Exec.{ok, >>-fixed}
use pobj.Operator.Spec.{ObjectService, headless_name, cosi_name}
use pobj.Operator.Pki.{Pki, Draws}
use pobj.Operator.Namespace.{Namespace}
use pobj.Operator.Settled.{no_failures, IsSettled, upserted_settled}
use pobj.Operator.Secrets.{
  Has, TlsReady, is_tls_ready, CertificateReady, ensure_certificate-upserted,
}
use pobj.Operator.Tls.{
  ensure_certificate, certificate_of, ensure_admin_secret, ensure_tls, check_tls, create_or_rotate,
}
use pobj.Operator.Workloads.{
  headless_service, client_service, stateful_set_of, cosi_deployment, ensure_headless_service,
  ensure_service, ensure_stateful_set, ensure_cosi_deployment,
}
use pobj.Operator.Shapes.{
  headless_update, service_update, stateful_set_update, deployment_update,
  ensure_headless_service-upserted, ensure_service-upserted, ensure_stateful_set-upserted,
  ensure_cosi_deployment-upserted,
}
use pobj.Operator.Reconcile.{Reconciler, ensure_all}

-- The objects are what the service asks for.
pub record IsSteady (r : Reconciler) (now : ℕ) (obj : ObjectService) (s : Namespace) : Type 0 where
  pub quantity : Text
  pub quantity_read : r.parse_quantity obj.spec.volume_size ≡ ok quantity
  pub admin : Has s.secrets obj.spec.admin_secret_name
  pub tls : TlsReady r.pki now obj s.secrets
  pub certificate : obj.spec.use_cert_manager ≡ true → CertificateReady obj s.certificates
  pub headless : IsSettled s.services (headless_name obj) (headless_update obj)
  pub service : IsSettled s.services obj.name (service_update obj)
  pub stateful_set :
      IsSettled s.stateful_sets obj.name (stateful_set_update r.operator_image obj quantity)
  pub cosi : IsSettled s.deployments (cosi_name obj) (deployment_update r.operator_image obj)

-- What a run without failures does where nothing is left to be done.
module _ (pki : Pki) (draws : Draws) (now : ℕ) (obj : ObjectService) (s : Namespace) where
  pub ensure_admin_secret_settled :
      Has s.secrets obj.spec.admin_secret_name
      → ensure_admin_secret no_failures pki draws now obj s ≡ (ok tt, s)
  unfolding ensure_admin_secret
  ensure_admin_secret_settled (x, g) = ground arith

  ensure_certificate_settled :
      CertificateReady obj s.certificates
      → ensure_certificate no_failures pki draws now obj s ≡ (ok tt, s)
  ensure_certificate_settled (ne, c) = ground (
    arith,
    ensure_certificate-upserted no_failures pki draws now obj s ne,
    upserted_settled s.certificates (obj.name ++ lit "-tls") (certificate_of obj)
        (λ c. certificate_of obj) c,
  )

  pub ensure_tls_settled :
      TlsReady pki now obj s.secrets
      → (obj.spec.use_cert_manager ≡ true → CertificateReady obj s.certificates)
      → ensure_tls no_failures pki draws now obj s ≡ (ok tt, s)
  unfolding ensure_tls check_tls create_or_rotate is_tls_ready
  ensure_tls_settled (x, g, q) c = from obj.spec.use_cert_manager refl
    where
      from :
          (b : Bool)
          → obj.spec.use_cert_manager ≡ b
          → ensure_tls no_failures pki draws now obj s ≡ (ok tt, s)
      from true cm = ground (arith, cm, g, q, ensure_certificate_settled (c cm))
      from false cm = ground (arith, cm, g, q)

module _ (r : Reconciler) (draws : Draws) (now : ℕ) (obj : ObjectService) (s : Namespace) where
  pub ensure_all_steady :
      IsSteady r now obj s → ensure_all r no_failures draws now obj s ≡ (ok tt, s)
  unfolding ensure_all
  ensure_all_steady st =
      >>-fixed (ensure_admin_secret no_failures r.pki draws now obj) _ s
        (ensure_admin_secret_settled r.pki draws now obj s st.admin)
        (>>-fixed (ensure_tls no_failures r.pki draws now obj) _ s
          (ensure_tls_settled r.pki draws now obj s st.tls st.certificate)
          (>>-fixed (ensure_headless_service no_failures obj) _ s headless_fixed (
            >>-fixed (ensure_service no_failures obj) _ s service_fixed (
              >>-fixed (ensure_stateful_set no_failures obj r.parse_quantity r.operator_image) _ s
                stateful_set_fixed cosi_fixed))))
    where
      headless_fixed : ensure_headless_service no_failures obj s ≡ (ok tt, s)
      headless_fixed = ground (
        arith,
        ensure_headless_service-upserted no_failures obj s,
        upserted_settled s.services (headless_name obj) (headless_service obj) (headless_update obj)
            st.headless,
      )

      service_fixed : ensure_service no_failures obj s ≡ (ok tt, s)
      service_fixed = ground (
        arith,
        ensure_service-upserted no_failures obj s,
        upserted_settled s.services obj.name (client_service obj) (service_update obj) st.service,
      )

      stateful_set_fixed :
          ensure_stateful_set no_failures obj r.parse_quantity r.operator_image s ≡ (ok tt, s)
      stateful_set_fixed = ground (
        arith,
        ensure_stateful_set-upserted no_failures obj s r.parse_quantity r.operator_image
            st.quantity_read,
        upserted_settled s.stateful_sets obj.name (stateful_set_of r.operator_image obj st.quantity)
            (stateful_set_update r.operator_image obj st.quantity) st.stateful_set,
      )

      cosi_fixed : ensure_cosi_deployment no_failures obj r.operator_image s ≡ (ok tt, s)
      cosi_fixed = ground (
        arith,
        ensure_cosi_deployment-upserted no_failures obj s r.operator_image,
        upserted_settled s.deployments (cosi_name obj)
            (record { owner = some obj.name; spec = cosi_deployment r.operator_image obj })
            (deployment_update r.operator_image obj) st.cosi,
      )
