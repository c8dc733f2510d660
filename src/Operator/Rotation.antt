-- ===== src/Operator/Rotation.antt =====
-- The certificates of createOrRotateSelfSignedTLSSecret and when they are replaced
-- (controllers/objectservice_controller.go).
use pobj.Operator.Spec.{ObjectService}
use pobj.Dict.{get}
use pobj.Operator.Tls.{tls_secret, dns_names, content, content, self_signed, needs_rotation}
use pobj.Prelude.{refl, ◌∙◌, sym, false, ◌*◌, ◌+◌, ◌≤◌, ◌++◌, List, [], ◌≡◌, ◌≢◌, ℕ, some, arith}
use pobj.Text.{◌==◌, ==_iff, Text, lit}
use pobj.Exec.{err, Result, ok}
use pobj.Kube.{Calls, Secret}
use pobj.Operator.Pki.{
  day, or_error, ca_template, >>=-parts, Pki, Draws, X509, parse_leaf_cert, new_leaf_cert,
  leaf_template, new_ca,
}

-- What encoding/pem and crypto/x509 are relied on for: PEM is decoded as what was encoded, it is
-- not empty, and a certificate that was created is parsed as its template says.
pub record IsLawful (pki : Pki) : Type 0 where
  pub decodes : (type der : Text) → pki.pem_decode (pki.pem_encode type der) ≡ some der
  pub filled : (type der : Text) → pki.pem_encode type der ≢ []
  pub issued :
      (template parent : X509) (public key : Text) {der : Text}
      → pki.create_certificate template parent public key ≡ ok der
      → pki.parse_certificate der ≡ ok template

module _ (pki : Pki) (draws : Draws) (now : ℕ) where
  new_ca-pems :
      (cn : Text) {cert key : Text}
      → new_ca pki draws now cn ≡ ok (cert, key)
      → (der : Text) × (cert ≡ pki.pem_encode (lit "CERTIFICATE") der)
  unfolding new_ca
  new_ca-pems cn h =
      let (key, k, h1) = >>=-parts draws.ca_key _ h in
      let (der, d, h2) =
        >>=-parts
          (pki.create_certificate (ca_template draws now cn) (ca_template draws now cn)
            (pki.public_key key) key)
          _ h1 in
      (der, ground (arith, h2))

  new_leaf_cert-parsed :
      (cn : Text) (dns : List Text) (ca_pem ca_key_pem : Text) {cert key : Text}
      → IsLawful pki
      → new_leaf_cert pki draws now cn dns ca_pem ca_key_pem ≡ ok (cert, key)
      → (parse_leaf_cert pki cert ≡ ok (leaf_template draws now cn dns)) × (cert ≢ []) × (key ≢ [])
  unfolding new_leaf_cert parse_leaf_cert
  new_leaf_cert-parsed cn dns ca_pem ca_key_pem {cert} {key} law h =
      let (ca_der, e1, h1) =
        >>=-parts (or_error (lit "invalid ca cert") (pki.pem_decode ca_pem)) _ h in
      let (ca, e2, h2) = >>=-parts (pki.parse_certificate ca_der) _ h1 in
      let (ca_key_der, e3, h3) =
        >>=-parts (or_error (lit "invalid ca key") (pki.pem_decode ca_key_pem)) _ h2 in
      let (ca_key, e4, h4) = >>=-parts (pki.parse_private_key ca_key_der) _ h3 in
      let (leaf_key, e5, h5) = >>=-parts draws.leaf_key _ h4 in
      let (der, e6, h6) =
        >>=-parts
          (pki.create_certificate (leaf_template draws now cn dns) ca (pki.public_key leaf_key)
            ca_key)
          _ h5 in
      let parsed =
        law.issued (leaf_template draws now cn dns) ca (pki.public_key leaf_key) ca_key e6 in
      let decoded = law.decodes (lit "CERTIFICATE") der in
      let full = law.filled (lit "CERTIFICATE") der in
      let full_key = law.filled (lit "RSA PRIVATE KEY") (pki.marshal_private_key leaf_key) in
      (
        ground (arith, h6, parsed, decoded),
        λ z. full (ground (arith, h6, z)),
        λ z. full_key (ground (arith, h6, z)),
      )

  -- The secret of a rotation: its three parts are filled, and the certificate is the leaf.
  abbrev IsLeaf : ObjectService → Secret → Type 0
  IsLeaf obj x =
      (content x (lit "tls.crt") ≢ [])
      × (content x (lit "tls.key") ≢ [])
      × (content x (lit "ca.crt") ≢ [])
      × (parse_leaf_cert pki (content x (lit "tls.crt"))
          ≡ ok (leaf_template draws now (obj.name ++ lit "-entity") (dns_names obj)))

  pub self_signed-IsLeaf :
      (calls : Calls) (obj : ObjectService) {x : Secret}
      → IsLawful pki
      → self_signed calls pki draws now obj ≡ ok x
      → IsLeaf obj x
  unfolding self_signed content get ◌==◌
  self_signed-IsLeaf calls obj {x} law h =
      from_ca (new_ca pki draws now (obj.name ++ lit "-entity-ca")) refl
    where
      from_leaf :
          (ca_pem ca_key_pem : Text) (r : Result (Text × Text))
          → new_ca pki draws now (obj.name ++ lit "-entity-ca") ≡ ok (ca_pem, ca_key_pem)
          → new_leaf_cert pki draws now
              (obj.name ++ lit "-entity")
              (dns_names obj)
              ca_pem
              ca_key_pem
            ≡ r
          → IsLeaf obj x
      from_leaf ca_pem ca_key_pem (err e) q p = absurd (ground (arith, q, p, h))
      from_leaf ca_pem ca_key_pem (ok (cert, key)) q p =
          let (parsed, full, full_key) =
            new_leaf_cert-parsed (obj.name ++ lit "-entity") (dns_names obj) ca_pem ca_key_pem law
              p in
          let (der, e) = new_ca-pems (obj.name ++ lit "-entity-ca") q in
          let full_ca : ca_pem ≢ [] = λ z. law.filled (lit "CERTIFICATE") der (sym e ∙ z) in
          rw (sym made) (full, full_key, full_ca, parsed)
        where
          made : tls_secret calls pki draws now obj (cert, key) ca_pem ≡ x
          made = ground (arith, q, p, h)

      from_ca :
          (r : Result (Text × Text))
          → new_ca pki draws now (obj.name ++ lit "-entity-ca") ≡ r
          → IsLeaf obj x
      from_ca (err e) q = absurd (ground (arith, q, h))
      from_ca (ok (ca_pem, ca_key_pem)) q =
          from_leaf ca_pem ca_key_pem
            (new_leaf_cert pki draws now (obj.name ++ lit "-entity") (dns_names obj) ca_pem
              ca_key_pem)
            q refl

  -- A self-signed certificate that the operator makes is not replaced for 150 days. Assumed is
  -- that the PKI is lawful: PEM is decoded as what was encoded and is not empty, and a
  -- certificate is parsed as the template it was made from.
  pub needs_rotation-self_signed :
      (calls : Calls) (obj : ObjectService) (later : ℕ) {x : Secret}
      → IsLawful pki
      → self_signed calls pki draws now obj ≡ ok x
      → later ≤ now + 150 * day
      → needs_rotation pki later x ≡ false
  unfolding needs_rotation leaf_template
  needs_rotation-self_signed calls obj later {x} law h l =
      let (c, k, a, p) = self_signed-IsLeaf calls obj law h in
      rw
        (
          not_empty (content x (lit "tls.crt")) c,
          not_empty (content x (lit "tls.key")) k,
          not_empty (content x (lit "ca.crt")) a,
          p,
          needs_rotation,
        )
        (ground arith)
    where
      not_empty : (t : Text) → t ≢ [] → (t == []) ≡ false
      not_empty t n = ground (arith, ==_iff t [])
