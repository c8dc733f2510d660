-- ===== src/Operator/Pki.antt =====
-- controllers/objectservice_controller.go: the self-signed certificates (parseLeafCert, newCA,
-- newLeafCert). Times are seconds; `now` is the time of the run.
use pobj.Prelude.{
  refl, arith, ◌≡◌, ◌*◌, ℕ, ◌+◌, ◌-◌, Bool, true, false, Option, none, some, List, [], ◌∷◌,
}
use pobj.Text.{Text, lit}
use pobj.Http.{KeyUsage}
use pobj.Exec.{Result, ok, err, failed}

pub data CertKeyUsage : Type 0 where
  cert_sign crl_sign digital_signature key_encipherment : CertKeyUsage

-- x509.Certificate, as far as the program sets or reads it.
pub record X509 : Type 0 where
  pub serial_number : ℕ
  pub common_name : Text
  pub dns_names : List Text
  pub not_before : ℕ
  pub not_after : ℕ
  pub key_usage : List CertKeyUsage
  pub ext_key_usage : List KeyUsage
  pub basic_constraints_valid : Bool
  pub is_ca : Bool

-- encoding/pem and crypto/x509. Keys and DER are bytes; `create_certificate` takes the template, the
-- parent, the public key and the signing key.
pub record Pki : Type 0 where
  pub pem_decode : Text → Option Text
  pub pem_encode : Text → Text → Text
  pub parse_certificate : Text → Result X509
  pub parse_private_key : Text → Result Text
  pub marshal_private_key : Text → Text
  pub public_key : Text → Text
  pub create_certificate : X509 → X509 → Text → Text → Result Text

-- What the random source gives to one run.
pub record Draws : Type 0 where
  pub token : Result (List ℕ)
  pub ca_key : Result Text
  pub ca_serial : ℕ
  pub leaf_key : Result Text
  pub leaf_serial : ℕ

abbrev pub hour : ℕ
hour = 3600

abbrev pub day : ℕ
day = 86400

unfoldable pub ca_template : Draws → ℕ → Text → X509
ca_template draws now cn = record {
  serial_number = draws.ca_serial;
  common_name = cn;
  dns_names = [];
  not_before = now - hour;
  not_after = now + 365 * day;
  key_usage = CertKeyUsage.cert_sign ∷ CertKeyUsage.crl_sign ∷ [];
  ext_key_usage = [];
  basic_constraints_valid = true;
  is_ca = true;
}

unfoldable pub leaf_template : Draws → ℕ → Text → List Text → X509
leaf_template draws now cn dns = record {
  serial_number = draws.leaf_serial;
  common_name = cn;
  dns_names = dns;
  not_before = now - hour;
  not_after = now + 180 * day;
  key_usage = CertKeyUsage.digital_signature ∷ CertKeyUsage.key_encipherment ∷ [];
  ext_key_usage = KeyUsage.other_usage ∷ KeyUsage.client_auth ∷ [];
  basic_constraints_valid = true;
  is_ca = false;
}

-- Steps that may fail and change nothing: an error ends the sequence.
module _ {A B : Type 0} where
  infixl 5 ◌>>=◌
  abbrev pub ◌>>=◌ : Result A → (A → Result B) → Result B
  step >>= next = elim step [ err failure ↦ err failure | ok value ↦ next value ]

  -- The value that the first step of a sequence has given, if the sequence gives one.
  pub >>=-parts :
      (step : Result A) (next : A → Result B) {last : B}
      → step >>= next ≡ ok last
      → (value : A) × (step ≡ ok value) × (next value ≡ ok last)
  >>=-parts (err failure) next done = absurd (ground (arith, done))
  >>=-parts (ok value) next done = (value, refl, done)

abbrev pub or_error : {A : Type 0} → Text → Option A → Result A
or_error message none = err (failed message)
or_error message (some a) = ok a

pub or_error-eq-ok :
    {A : Type 0} (message : Text) (o : Option A) {a : A} → or_error message o ≡ ok a → o ≡ some a
or_error-eq-ok message none h = absurd (ground arith)
or_error-eq-ok message (some x) h = ground arith

module _ (pki : Pki) where
  unfoldable pub parse_leaf_cert : Text → Result X509
  parse_leaf_cert pem = do
    der ← or_error (lit "invalid cert pem") (pki.pem_decode pem)
    pki.parse_certificate der

  -- The certificate and the key, each as PEM.
  abbrev pems : Text → Text → Text × Text
  pems der key = (
    pki.pem_encode (lit "CERTIFICATE") der,
    pki.pem_encode (lit "RSA PRIVATE KEY") (pki.marshal_private_key key),
  )

  unfoldable pub new_ca : Draws → ℕ → Text → Result (Text × Text)
  unfolding ca_template
  new_ca draws now cn = do
    key ← draws.ca_key
    let template = ca_template draws now cn
    der ← pki.create_certificate template template (pki.public_key key) key
    ok (pems der key)

  unfoldable pub new_leaf_cert : Draws → ℕ → Text → List Text → Text → Text → Result (Text × Text)
  unfolding leaf_template
  new_leaf_cert draws now cn dns ca_pem ca_key_pem = do
    ca_der ← or_error (lit "invalid ca cert") (pki.pem_decode ca_pem)
    ca ← pki.parse_certificate ca_der
    ca_key_der ← or_error (lit "invalid ca key") (pki.pem_decode ca_key_pem)
    ca_key ← pki.parse_private_key ca_key_der
    key ← draws.leaf_key
    der ← pki.create_certificate (leaf_template draws now cn dns) ca (pki.public_key key) ca_key
    ok (pems der key)
