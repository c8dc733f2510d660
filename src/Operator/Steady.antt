-- ===== src/Operator/Steady.antt =====
-- The six calls of Reconcile (controllers/objectservice_controller.go) when they all succeed.
use pobj.Prelude.{
  length, length-append, ◌≡◌, ◌≢◌, ◌∙◌, sym, ap, refl, ℕ, Bool, true, false, some, arith,
}
use pobj.Text.{Text, lit, ◌==◌, ==_iff}
use pobj.Dict.{get}
use pobj.Exec.{Error, Exec, Result, ok, err, >>-ok, ◌>>◌}
use pobj.Kube.{Calls, Kind}
use pobj.Operator.Spec.{ObjectService, headless_name, cosi_name}
use pobj.Operator.Pki.{Draws}
use pobj.Operator.Namespace.{Namespace}
use pobj.Operator.Rotation.{IsLawful}
use pobj.Operator.Settled.{IsSettled, upserted-IsSettled, upserted-IsSettled_ne}
use pobj.Operator.Keeps.{secret_at, secret_at-Ignores, Keeps-ensure_tls}
use pobj.Operator.Secrets.{
  Has, TlsReady, CertificateReady, ensure_admin_secret-Has, ensure_tls-TlsReady,
  ensure_tls-CertificateReady,
}
use pobj.Operator.Idle.{IsSteady}
use pobj.Operator.Tls.{ensure_admin_secret, ensure_tls}
use pobj.Operator.Workloads.{
  headless_service, client_service, stateful_set_of, cosi_deployment, ensure_headless_service,
  ensure_service, ensure_stateful_set, ensure_cosi_deployment,
}
use pobj.Operator.Shapes.{
  headless_update, service_update, stateful_set_update, deployment_update,
  ensure_headless_service-upserted, ensure_service-upserted, ensure_stateful_set-upserted,
  ensure_cosi_deployment-upserted,
}
use pobj.Operator.Reconcile.{Reconciler, ensure_all}

-- The headless service and the one for clients do not share a name.
name_headless : (obj : ObjectService) → obj.name ≢ headless_name obj
unfolding headless_name
name_headless obj e = absurd (omega (arith, ap length e, length-append obj.name (lit "-headless")))

module _ (r : Reconciler) (calls : Calls) (draws : Draws) (now : ℕ) (obj : ObjectService) where
  -- The services.
  abbrev ServicesSettled : Namespace → Type 0
  ServicesSettled s =
      IsSettled s.services (headless_name obj) (headless_update obj)
      × IsSettled s.services obj.name (service_update obj)

  headless-IsSettled :
      (s : Namespace)
      → (ensure_headless_service calls obj s).0 ≡ ok tt
      → IsSettled
          (ensure_headless_service calls obj s).1.services
          (headless_name obj)
          (headless_update obj)
  unfolding headless_service
  headless-IsSettled s h =
      let e = ensure_headless_service-upserted calls obj s in
      let name = headless_name obj in
      rw e (
        upserted-IsSettled (calls.get Kind.service name) (calls.own Kind.service)
          (calls.create Kind.service name) (calls.update Kind.service name) s.services name
          (headless_service obj) (headless_update obj) refl (λ w. refl) (ground (arith, e, h)))

  services-Settled :
      (s : Namespace)
      → IsSettled s.services (headless_name obj) (headless_update obj)
      → (ensure_service calls obj s).0 ≡ ok tt
      → ServicesSettled (ensure_service calls obj s).1
  unfolding client_service
  services-Settled s p h =
      let e = ensure_service-upserted calls obj s in
      let name = obj.name in
      (
        rw e (
            upserted-IsSettled_ne (calls.get Kind.service name) (calls.own Kind.service)
              (calls.create Kind.service name) (calls.update Kind.service name) s.services name
              (client_service obj) (service_update obj) (headless_name obj) (headless_update obj)
              (name_headless obj) p),
        rw e (
            upserted-IsSettled (calls.get Kind.service name) (calls.own Kind.service)
              (calls.create Kind.service name) (calls.update Kind.service name) s.services name
              (client_service obj) (service_update obj) refl (λ w. refl) (ground (arith, e, h))),
      )

  -- The stateful set.
  abbrev StatefulSetSettled : Namespace → Type 0
  StatefulSetSettled s =
      (q : Text) × (r.parse_quantity obj.spec.volume_size ≡ ok q)
      × IsSettled s.stateful_sets obj.name (stateful_set_update r.operator_image obj q)

  quantity_refused :
      (s : Namespace) {x : Error}
      → r.parse_quantity obj.spec.volume_size ≡ err x
      → (ensure_stateful_set calls obj r.parse_quantity r.operator_image s).0 ≢ ok tt
  unfolding ensure_stateful_set
  quantity_refused s q h = absurd (ground (arith, q, h))

  stateful_set-Settled :
      (s : Namespace)
      → (ensure_stateful_set calls obj r.parse_quantity r.operator_image s).0 ≡ ok tt
      → StatefulSetSettled (ensure_stateful_set calls obj r.parse_quantity r.operator_image s).1
  unfolding stateful_set_of
  stateful_set-Settled s h = from (r.parse_quantity obj.spec.volume_size) refl
    where
      from :
          (p : Result Text)
          → r.parse_quantity obj.spec.volume_size ≡ p
          → StatefulSetSettled (ensure_stateful_set calls obj r.parse_quantity r.operator_image s).1
      from (err x) q = absurd (quantity_refused s q h)
      from (ok quantity) q =
          let name = obj.name in
          let e = ensure_stateful_set-upserted calls obj s r.parse_quantity r.operator_image q in
          let settled =
            upserted-IsSettled (calls.get Kind.stateful_set name) (calls.own Kind.stateful_set)
              (calls.create Kind.stateful_set name) (calls.update Kind.stateful_set name)
              s.stateful_sets name (stateful_set_of r.operator_image obj quantity)
              (stateful_set_update r.operator_image obj quantity) refl (λ w. refl)
              (ground (arith, e, h)) in
          (quantity, q, rw e settled)

  -- The deployment.
  cosi-IsSettled :
      (s : Namespace)
      → (ensure_cosi_deployment calls obj r.operator_image s).0 ≡ ok tt
      → IsSettled
          (ensure_cosi_deployment calls obj r.operator_image s).1.deployments
          (cosi_name obj)
          (deployment_update r.operator_image obj)
  cosi-IsSettled s h =
      let name = cosi_name obj in
      let e = ensure_cosi_deployment-upserted calls obj s r.operator_image in
      rw e (
        upserted-IsSettled (calls.get Kind.deployment name) (calls.own Kind.deployment)
          (calls.create Kind.deployment name) (calls.update Kind.deployment name) s.deployments name
          (record { owner = some obj.name; spec = cosi_deployment r.operator_image obj })
          (deployment_update r.operator_image obj) refl (λ w. refl) (ground (arith, e, h)))

  -- What the last four calls do not touch.
  abbrev Frame : Namespace → Namespace → Type 0
  Frame s t = (t.secrets ≡ s.secrets) × (t.certificates ≡ s.certificates)

  headless-Frame : (s : Namespace) → Frame s (ensure_headless_service calls obj s).1
  headless-Frame s =
      let e = ensure_headless_service-upserted calls obj s in (ground (arith, e), ground (arith, e))

  service-Frame : (s : Namespace) → Frame s (ensure_service calls obj s).1
  service-Frame s =
      let e = ensure_service-upserted calls obj s in (ground (arith, e), ground (arith, e))

  stateful_set-Frame :
      (s : Namespace)
      → let t = (ensure_stateful_set calls obj r.parse_quantity r.operator_image s).1 in
        Frame s t × (t.services ≡ s.services)
  unfolding ensure_stateful_set
  stateful_set-Frame s = ((ground arith, ground arith), ground arith)

  cosi-Frame :
      (s : Namespace)
      → let t = (ensure_cosi_deployment calls obj r.operator_image s).1 in
        Frame s t × (t.services ≡ s.services) × (t.stateful_sets ≡ s.stateful_sets)
  cosi-Frame s =
      let e = ensure_cosi_deployment-upserted calls obj s r.operator_image in
      ((ground (arith, e), ground (arith, e)), ground (arith, e), ground (arith, e))

  -- The two secrets, behind the first two calls.
  admin-Has :
      (s : Namespace)
      → IsLawful r.pki
      → Has s.secrets obj.spec.admin_secret_name
      → (ensure_tls calls r.pki draws now obj s).0 ≡ ok tt
      → Has (ensure_tls calls r.pki draws now obj s).1.secrets obj.spec.admin_secret_name
  admin-Has s law (x, g) h = from (obj.spec.tls_secret_name == obj.spec.admin_secret_name) refl
    where
      from :
          (b : Bool)
          → (obj.spec.tls_secret_name == obj.spec.admin_secret_name) ≡ b
          → Has (ensure_tls calls r.pki draws now obj s).1.secrets obj.spec.admin_secret_name
      from true q =
          let (y, k, t) = ensure_tls-TlsReady calls r.pki draws now obj s law h in
          let same : obj.spec.tls_secret_name ≡ obj.spec.admin_secret_name =
            ground (arith, ==_iff obj.spec.tls_secret_name obj.spec.admin_secret_name) in
          (y, sym (ap (get (ensure_tls calls r.pki draws now obj s).1.secrets) same) ∙ k)
      from false q =
          let other : obj.spec.tls_secret_name ≢ obj.spec.admin_secret_name = λ z.
            absurd
              (ground (arith, z, q, ==_iff obj.spec.tls_secret_name obj.spec.admin_secret_name)) in
          (
            x,
            Keeps-ensure_tls calls (secret_at obj.spec.admin_secret_name) r.pki draws now obj
                  (secret_at-Ignores calls obj.spec.admin_secret_name obj.spec.tls_secret_name
                    other)
                  s
                ∙ g,
          )

  abbrev workloads : Exec Namespace Unit
  workloads = do
    ensure_headless_service calls obj
    ensure_service calls obj
    ensure_stateful_set calls obj r.parse_quantity r.operator_image
    ensure_cosi_deployment calls obj r.operator_image

  workloads-IsSteady :
      (s : Namespace)
      → Has s.secrets obj.spec.admin_secret_name
      → TlsReady r.pki now obj s.secrets
      → (obj.spec.use_cert_manager ≡ true → CertificateReady obj s.certificates)
      → (workloads s).0 ≡ ok tt
      → IsSteady r now obj (workloads s).1
  workloads-IsSteady s admin tls certificate h =
      let (h1, k1, q1) = >>-ok (ensure_headless_service calls obj) _ s h in
      let s1 = (ensure_headless_service calls obj s).1 in
      let (h2, k2, q2) = >>-ok (ensure_service calls obj) _ s1 k1 in
      let s2 = (ensure_service calls obj s1).1 in
      let (h3, h4, q3) =
        >>-ok (ensure_stateful_set calls obj r.parse_quantity r.operator_image) _ s2 k2 in
      let s3 = (ensure_stateful_set calls obj r.parse_quantity r.operator_image s2).1 in
      let (f1, c1) = headless-Frame s in
      let (f2, c2) = service-Frame s1 in
      let ((f3, c3), v3) = stateful_set-Frame s2 in
      let ((f4, c4), v4, t4) = cosi-Frame s3 in
      let q = q1 ∙ q2 ∙ q3 in
      let secrets : (workloads s).1.secrets ≡ s.secrets =
        ap (λ t. t.secrets) q ∙ f4 ∙ f3 ∙ f2 ∙ f1 in
      let certificates : (workloads s).1.certificates ≡ s.certificates =
        ap (λ t. t.certificates) q ∙ c4 ∙ c3 ∙ c2 ∙ c1 in
      let services : (workloads s).1.services ≡ s2.services = ap (λ t. t.services) q ∙ v4 ∙ v3 in
      let sets : (workloads s).1.stateful_sets ≡ s3.stateful_sets =
        ap (λ t. t.stateful_sets) q ∙ t4 in
      let (a, b) = services-Settled s1 (headless-IsSettled s h1) h2 in
      let (quantity, read, set) = stateful_set-Settled s2 h3 in
      record {
        quantity = quantity;
        quantity_read = read;
        admin = rw secrets admin;
        tls = rw secrets tls;
        certificate = λ z. rw certificates (certificate z);
        headless = rw services a;
        service = rw services b;
        stateful_set = rw sets set;
        cosi = rw q (cosi-IsSettled s3 h4);
      }

  pub ensure_all-IsSteady :
      (s : Namespace)
      → IsLawful r.pki
      → (ensure_all r calls draws now obj s).0 ≡ ok tt
      → IsSteady r now obj (ensure_all r calls draws now obj s).1
  unfolding ensure_all
  ensure_all-IsSteady s law h =
      let (h1, k1, q1) = >>-ok (ensure_admin_secret calls r.pki draws now obj) _ s h in
      let s1 = (ensure_admin_secret calls r.pki draws now obj s).1 in
      let (h2, k2, q2) = >>-ok (ensure_tls calls r.pki draws now obj) workloads s1 k1 in
      let s2 = (ensure_tls calls r.pki draws now obj s1).1 in
      let st =
        workloads-IsSteady s2
          (admin-Has s1 law (ensure_admin_secret-Has calls r.pki draws now obj s h1) h2)
          (ensure_tls-TlsReady calls r.pki draws now obj s1 law h2)
          (λ cm. ensure_tls-CertificateReady calls r.pki draws now obj s1 cm h2) k2 in
      rw (q1 ∙ q2) st
