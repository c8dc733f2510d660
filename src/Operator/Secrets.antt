-- ===== src/Operator/Secrets.antt =====
-- The two secrets of a service (controllers/objectservice_controller.go): ensureAdminSecret and
-- ensureTLS when they succeed.
use pobj.Prelude.{
  ◌++◌, [], ◌∷◌, ◌≡◌, ◌≢◌, refl, ℕ, Bool, true, false, not, Option, none, some, arith,
  if◌then◌else◌,
}
use pobj.Text.{Text, lit, ==_iff}
use pobj.Text.Parts.{hex_encode}
use pobj.Dict.{Dict, get}
use pobj.Exec.{Result, ok, err, Exec, is_not_found, >>=-ok, lift}
use pobj.Kube.{Calls, Kind, Secret, CertificateRequest, read}
use pobj.Operator.Spec.{ObjectService}
use pobj.Operator.Pki.{Pki, Draws}
use pobj.Operator.Namespace.{Namespace, own, update_secret}
use pobj.Operator.Rotation.{IsLawful, needs_rotation-self_signed}
use pobj.Operator.Tls.{issuing, ensure_tls}
use pobj.Operator.Settled.{IsSettled, upserted, upserted-IsSettled}
use pobj.Operator.Keeps.{create_secret-ok, update_secret-ok}
use pobj.Operator.Tls.{
  rotate, issuing, ensure_certificate, certificate_of, ensure_admin_secret, create_admin_secret,
  check_tls, create_or_rotate, self_signed, needs_rotation,
}

-- There is a secret under the name.
abbrev pub Has : Dict Secret → Text → Type 0
Has d name = (x : Secret) × (get d name ≡ some x)

has_ca : Option Text → Bool
has_ca none = false
has_ca (some ca) = true

-- ensureTLS has nothing to do to a secret.
unfoldable pub is_tls_ready : Pki → ℕ → ObjectService → Secret → Bool
unfolding has_ca get
is_tls_ready pki now obj x =
    if obj.spec.use_cert_manager
    then has_ca (get x.contents (lit "ca.crt"))
    else not (needs_rotation pki now x)

abbrev pub TlsReady : Pki → ℕ → ObjectService → Dict Secret → Type 0
TlsReady pki now obj d =
    (x : Secret) × (get d obj.spec.tls_secret_name ≡ some x) × (is_tls_ready pki now obj x ≡ true)

abbrev pub CertificateReady : ObjectService → Dict CertificateRequest → Type 0
CertificateReady obj d =
    (obj.spec.issuer_ref_name ≢ []) × IsSettled d (obj.name ++ lit "-tls") (λ c. certificate_of obj)

module _ (calls : Calls) (pki : Pki) (draws : Draws) (now : ℕ) (obj : ObjectService) where
  create_admin_secret-Has :
      (s : Namespace)
      → (create_admin_secret calls pki draws now obj s).0 ≡ ok tt
      → Has (create_admin_secret calls pki draws now obj s).1.secrets obj.spec.admin_secret_name
  unfolding create_admin_secret
  create_admin_secret-Has s h =
      let (bytes, e1, h1, s1) = >>=-ok (lift draws.token) _ s h in
      let (u, e2, h2, s2) = >>=-ok (own calls Kind.secret) _ s h1 in
      let made : Secret = record {
        type = lit "";
        contents = (lit "adminToken", hex_encode bytes) ∷ [];
        owner = some obj.name;
      } in
      (
        made,
        rw (s1, s2)
            (create_secret-ok calls obj.spec.admin_secret_name made (own calls Kind.secret s).1 h2),
      )

  pub ensure_admin_secret-Has :
      (s : Namespace)
      → (ensure_admin_secret calls pki draws now obj s).0 ≡ ok tt
      → Has (ensure_admin_secret calls pki draws now obj s).1.secrets obj.spec.admin_secret_name
  unfolding ensure_admin_secret
  ensure_admin_secret-Has s h =
      from
        (read (calls.get Kind.secret obj.spec.admin_secret_name) s.secrets
          obj.spec.admin_secret_name)
        refl
    where
      from :
          (r : Result Secret)
          → read
              (calls.get Kind.secret obj.spec.admin_secret_name)
              s.secrets
              obj.spec.admin_secret_name
            ≡ r
          → Has (ensure_admin_secret calls pki draws now obj s).1.secrets obj.spec.admin_secret_name
      from (ok x) e = (x, ground (arith, e))
      from (err x) e =
          let h1 : (create_admin_secret calls pki draws now obj s).0 ≡ ok tt =
            ground (arith, e, h) in
          let (y, g) = create_admin_secret-Has s h1 in (y, ground (arith, e, h, g))

  -- A secret that is there is never replaced by ensureAdminSecret.
  pub ensure_admin_secret_there :
      (s : Namespace) {x : Secret}
      → get s.secrets obj.spec.admin_secret_name ≡ some x
      → (ensure_admin_secret calls pki draws now obj s).1 ≡ s
  unfolding ensure_admin_secret
  ensure_admin_secret_there s g = ground arith

  rotate-ok :
      (write : Secret → Exec Namespace Unit) (s : Namespace)
      → (rotate calls pki draws now obj write s).0 ≡ ok tt
      → (x : Secret) × (self_signed calls pki draws now obj ≡ ok x)
        × ((write x s).0 ≡ ok tt)
        × ((rotate calls pki draws now obj write s).1 ≡ (write x s).1)
  rotate-ok write s h =
      let (x, e1, h1, s1) = >>=-ok (lift (self_signed calls pki draws now obj)) _ s h in
      (x, e1, ground (arith, h1), ground (arith, s1, h1))

  self_signed_ready :
      {x : Secret}
      → IsLawful pki
      → self_signed calls pki draws now obj ≡ ok x
      → needs_rotation pki now x ≡ false
  self_signed_ready law h =
      needs_rotation-self_signed pki draws now calls obj now law h (omega arith)

  abbrev Fresh : Dict Secret → Type 0
  Fresh d =
      (x : Secret) × (get d obj.spec.tls_secret_name ≡ some x) × (needs_rotation pki now x ≡ false)

  create-Fresh :
      (s : Namespace)
      → IsLawful pki
      → (create_or_rotate calls pki draws now obj none s).0 ≡ ok tt
      → Fresh (create_or_rotate calls pki draws now obj none s).1.secrets
  unfolding create_or_rotate
  create-Fresh s law h =
      let (x, e, h1, s1) = rotate-ok _ s h in
      (x, rw s1 (create_secret-ok calls obj.spec.tls_secret_name x s h1), self_signed_ready law e)

  create_or_rotate-Fresh :
      (y : Secret) (s : Namespace)
      → IsLawful pki
      → get s.secrets obj.spec.tls_secret_name ≡ some y
      → (create_or_rotate calls pki draws now obj (some y) s).0 ≡ ok tt
      → Fresh (create_or_rotate calls pki draws now obj (some y) s).1.secrets
  unfolding create_or_rotate
  create_or_rotate-Fresh y s law g h = from (needs_rotation pki now y) refl
    where
      from :
          (b : Bool)
          → needs_rotation pki now y ≡ b
          → Fresh (create_or_rotate calls pki draws now obj (some y) s).1.secrets
      from false q = (y, ground (arith, q, g), q)
      from true q =
          let h0 : (rotate calls pki draws now obj (update_secret calls obj.spec.tls_secret_name)
                s).0
              ≡ ok tt =
            ground (arith, q, h) in
          let (x, e, h1, s1) = rotate-ok _ s h0 in
          (
            x,
            rw (q, s1) (update_secret-ok calls obj.spec.tls_secret_name x s h1),
            self_signed_ready law e,
          )

  -- ensureTLS behind the call for cert-manager.
  abbrev checked : Namespace → Result (Unit {0}) × Namespace
  checked s =
      check_tls calls pki draws now obj
        (read (calls.get Kind.secret obj.spec.tls_secret_name) s.secrets obj.spec.tls_secret_name) s

  checked-TlsReady :
      (s : Namespace)
      → IsLawful pki
      → (checked s).0 ≡ ok tt
      → TlsReady pki now obj (checked s).1.secrets
  unfolding check_tls is_tls_ready
  checked-TlsReady s law h =
      from
        (read (calls.get Kind.secret obj.spec.tls_secret_name) s.secrets obj.spec.tls_secret_name)
        refl obj.spec.use_cert_manager refl
    where
      from :
          (r : Result Secret)
          → read (calls.get Kind.secret obj.spec.tls_secret_name) s.secrets obj.spec.tls_secret_name
            ≡ r
          → (b : Bool) → obj.spec.use_cert_manager ≡ b
          → TlsReady pki now obj (checked s).1.secrets
      from (ok y) e true cm = (y, ground (arith, e, cm, h), ground (arith, e, cm, h))
      from (err x) e true cm = absurd (ground (arith, e, cm, h))
      from (ok y) e false cm =
          let (x, g, q) =
            create_or_rotate-Fresh y s law (ground (arith, e)) (ground (arith, e, cm, h)) in
          (x, ground (arith, e, cm, g), ground (arith, cm, q))
      from (err x) e false cm =
          let found : is_not_found x ≡ true = ground (arith, e, cm, h) in
          let (y, g, q) = create-Fresh s law (ground (arith, e, cm, h, found)) in
          (y, ground (arith, e, cm, found, g), ground (arith, cm, q))

  -- With cert-manager nothing is changed there.
  checked_same : (s : Namespace) → obj.spec.use_cert_manager ≡ true → (checked s).1 ≡ s
  unfolding check_tls
  checked_same s cm = ground arith

  pub ensure_certificate-upserted :
      (s : Namespace)
      → obj.spec.issuer_ref_name ≢ []
      → let name = obj.name ++ lit "-tls" in
        let next =
          upserted
            (calls.get Kind.certificate name)
            none
            (calls.create Kind.certificate name)
            (calls.update Kind.certificate name)
            s.certificates
            name
            (certificate_of obj)
            (λ c. certificate_of obj) in
        ensure_certificate calls pki draws now obj s ≡ (next.0, record s { certificates = next.1 })
  unfolding ensure_certificate upserted
  ensure_certificate-upserted s ne = ground (arith, ==_iff obj.spec.issuer_ref_name [])

  ensure_certificate-CertificateReady :
      (s : Namespace)
      → (ensure_certificate calls pki draws now obj s).0 ≡ ok tt
      → CertificateReady obj (ensure_certificate calls pki draws now obj s).1.certificates
  unfolding ensure_certificate
  ensure_certificate-CertificateReady s h =
      let ne : obj.spec.issuer_ref_name ≢ [] =
        λ z. absurd (ground (arith, z, h, ==_iff obj.spec.issuer_ref_name [])) in
      let name = obj.name ++ lit "-tls" in
      let e = ensure_certificate-upserted s ne in
      let ready =
        upserted-IsSettled (calls.get Kind.certificate name) none
          (calls.create Kind.certificate name) (calls.update Kind.certificate name) s.certificates
          name (certificate_of obj) (λ c. certificate_of obj) refl (λ w. refl)
          (ground (arith, e, h)) in
      (ne, rw e ready)

  pub ensure_tls-TlsReady :
      (s : Namespace)
      → IsLawful pki
      → (ensure_tls calls pki draws now obj s).0 ≡ ok tt
      → TlsReady pki now obj (ensure_tls calls pki draws now obj s).1.secrets
  unfolding ensure_tls
  ensure_tls-TlsReady s law h =
      let (u, e, k, q) = >>=-ok (issuing calls pki draws now obj) _ s h in
      rw q (checked-TlsReady (issuing calls pki draws now obj s).1 law k)

  pub ensure_tls-CertificateReady :
      (s : Namespace)
      → obj.spec.use_cert_manager ≡ true
      → (ensure_tls calls pki draws now obj s).0 ≡ ok tt
      → CertificateReady obj (ensure_tls calls pki draws now obj s).1.certificates
  unfolding ensure_tls
  ensure_tls-CertificateReady s cm h =
      let (u, e, k, q) = >>=-ok (issuing calls pki draws now obj) _ s h in
      let same : issuing calls pki draws now obj s ≡ ensure_certificate calls pki draws now obj s =
        ground (arith, cm) in
      rw (q, checked_same (issuing calls pki draws now obj s).1 cm, same)
        (ensure_certificate-CertificateReady s (ground (arith, same, e)))
