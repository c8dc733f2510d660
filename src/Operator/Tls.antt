-- ===== src/Operator/Tls.antt =====
-- controllers/objectservice_controller.go: ensureTLS, ensureCertManagerCertificate,
-- createOrRotateSelfSignedTLSSecret and ensureAdminSecret.
use pobj.Prelude.{
  ◌*◌, ℕ, ◌+◌, Bool, true, ◌||◌, Option, none, some, List, [], ◌∷◌, ◌++◌, ltb, if◌then◌else◌,
}
use pobj.Text.{Text, lit, ◌==◌}
use pobj.Text.Parts.{hex_encode}
use pobj.Dict.{get}
use pobj.Exec.{Result, ok, err, failed, Exec, is_not_found, ◌>>=◌, ◌>>◌, lift, fail, pure}
use pobj.Kube.{Calls, Kind, Secret, CertificateRequest, read, upsert}
use pobj.Operator.Spec.{ObjectService, or_else, headless_name}
use pobj.Operator.Pki.{Pki, Draws, X509, day, parse_leaf_cert, new_ca, new_leaf_cert}
use pobj.Operator.Namespace.{
  Namespace, own, create_secret, update_secret, create_certificate, update_certificate,
}

-- fmt.Sprintf with dots between its parts.
abbrev dotted : Text → Text → Text
dotted a b = (a ++ lit ".") ++ b

-- The names that a certificate is made for.
unfoldable pub dns_names : ObjectService → List Text
unfolding headless_name
dns_names obj =
    let name = obj.name in
    let namespace = obj.namespace in
    name
    ∷ dotted name namespace
    ∷ (dotted name namespace ++ lit ".svc")
    ∷ (dotted name namespace ++ lit ".svc.cluster.local")
    ∷ ((lit "*." ++ dotted (headless_name obj) namespace) ++ lit ".svc.cluster.local")
    ∷ []

unfoldable pub certificate_of : ObjectService → CertificateRequest
unfolding dns_names ◌==◌
certificate_of obj = record {
  secret_name = obj.spec.tls_secret_name;
  dns_names = dns_names obj;
  is_ca = true;
  issuer_name = obj.spec.issuer_ref_name;
  issuer_kind = or_else obj.spec.issuer_ref_kind (lit "Issuer");
  issuer_group = or_else obj.spec.issuer_ref_group (lit "cert-manager.io");
  algorithm = lit "RSA";
  size = 2048;
  usages = lit "server auth" ∷ lit "client auth" ∷ [];
  duration = lit "2160h";
  renew_before = lit "720h";
}

-- existing.Data[k]; a key that is not there is as an empty value.
unfoldable pub content : Secret → Text → Text
unfolding get
content s k = elim (get s.contents k) [ none ↦ [] | some v ↦ v ]

-- From the parsing of the certificate on: an error, or less than thirty days left.
abbrev expires : ℕ → Result X509 → Bool
expires now (err e) = true
expires now (ok cert) = ltb cert.not_after (now + 30 * day)

module _ (pki : Pki) where
  -- needRotate, for a secret that is there.
  unfoldable pub needs_rotation : ℕ → Secret → Bool
  unfolding content parse_leaf_cert ◌==◌
  needs_rotation now s =
      if content s (lit "tls.crt") == lit ""
        || content s (lit "tls.key") == lit ""
        || content s (lit "ca.crt") == lit ""
      then true
      else expires now (parse_leaf_cert pki (content s (lit "tls.crt")))

module _ (calls : Calls) (pki : Pki) (draws : Draws) (now : ℕ) (obj : ObjectService) where
  abbrev pub tls_secret : Text × Text → Text → Secret
  tls_secret (cert_pem, key_pem) ca_pem = record {
    type = lit "kubernetes.io/tls";
    contents = (lit "tls.crt", cert_pem) ∷ (lit "tls.key", key_pem) ∷ (lit "ca.crt", ca_pem) ∷ [];
    owner = some obj.name;
  }

  -- The two certificates of a rotation, as the secret that holds them.
  unfoldable pub self_signed : Result Secret
  unfolding new_ca new_leaf_cert dns_names
  self_signed = elim (new_ca pki draws now (obj.name ++ lit "-entity-ca")) [
    | err e ↦ err e
    | ok (ca_pem, ca_key_pem) ↦
        elim (new_leaf_cert pki draws now (obj.name ++ lit "-entity") (dns_names obj) ca_pem
          ca_key_pem) [ err e ↦ err e | ok leaf ↦ ok (tls_secret leaf ca_pem) ]
  ]

  -- Behind the test of needRotate, with what is done with the new secret.
  abbrev pub rotate : (Secret → Exec Namespace Unit) → Exec Namespace Unit
  rotate write = do s ← lift self_signed; own calls Kind.secret; write s

  unfoldable pub create_or_rotate : Option Secret → Exec Namespace Unit
  unfolding needs_rotation self_signed
  create_or_rotate none = rotate (create_secret calls obj.spec.tls_secret_name)
  create_or_rotate (some existing) =
      if needs_rotation pki now existing
      then rotate (update_secret calls obj.spec.tls_secret_name)
      else pure tt

  unfoldable pub ensure_certificate : Exec Namespace Unit
  unfolding certificate_of ◌==◌ is_not_found
  ensure_certificate s =
      let name = obj.name ++ lit "-tls" in
      if obj.spec.issuer_ref_name == lit ""
      then (err (failed (lit "issuerRefName is required when useCertManager=true")), s)
      else upsert (read (calls.get Kind.certificate name) s.certificates name)
          (create_certificate calls name (certificate_of obj))
          (λ existing. update_certificate calls name (certificate_of obj)) s

  -- ensureTLS behind the call for cert-manager, with what the lookup of the secret gives.
  unfoldable pub check_tls : Result Secret → Exec Namespace Unit
  unfolding create_or_rotate is_not_found get
  check_tls (err e) =
      if is_not_found e
      then if obj.spec.use_cert_manager
        then fail (
            failed
              (lit "waiting for cert-manager to create TLS secret " ++ obj.spec.tls_secret_name))
        else create_or_rotate none
      else fail e
  check_tls (ok secret) =
      if obj.spec.use_cert_manager
      then elim (get secret.contents (lit "ca.crt")) [
        | some ca ↦ pure tt
        | none ↦ fail (
            failed (
              (lit "TLS secret " ++ obj.spec.tls_secret_name)
              ++ lit " is missing ca.crt required for internal trust"))
      ]
      else create_or_rotate (some secret)

  abbrev pub issuing : Exec Namespace Unit
  issuing = if obj.spec.use_cert_manager then ensure_certificate else pure tt

  unfoldable pub ensure_tls : Exec Namespace Unit
  unfolding ensure_certificate check_tls
  ensure_tls = do
    issuing
    λ s.
        check_tls
          (read (calls.get Kind.secret obj.spec.tls_secret_name) s.secrets obj.spec.tls_secret_name)
          s

  -- `draws.token` is what the random source fills the 32 bytes with.
  unfoldable pub create_admin_secret : Exec Namespace Unit
  unfolding hex_encode
  create_admin_secret = do
    bytes ← lift draws.token
    own calls Kind.secret
    create_secret calls obj.spec.admin_secret_name (record {
      type = lit "";
      contents = (lit "adminToken", hex_encode bytes) ∷ [];
      owner = some obj.name;
    })

  unfoldable pub ensure_admin_secret : Exec Namespace Unit
  unfolding create_admin_secret is_not_found
  ensure_admin_secret s =
      let name = obj.spec.admin_secret_name in
      elim (read (calls.get Kind.secret name) s.secrets name) [
        | ok secret ↦ (ok tt, s)
        | err e ↦ if is_not_found e then create_admin_secret s else (err e, s)
      ]
