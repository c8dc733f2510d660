-- ===== src/Tests/Codec.antt =====
-- Test data: a working, lossless encoding of certificates, for a small PKI.
use pobj.Prelude.{
  ◌≡◌, sym, refl, ap, ◌∙◌, ℕ, zero, suc, Bool, true, false, Option, some, none, List, [], ◌∷◌,
  length, arith, eqb, if◌then◌else◌,
}
use pobj.Text.{Text}
use pobj.Http.{KeyUsage}
use pobj.Exec.{Result, ok, err, failed}
use pobj.Operator.Pki.{CertKeyUsage, X509, Pki}
use pobj.Operator.Rotation.{IsLawful}

-- What stands before the rest of a text is read back, with the rest.
record Codec (A : Type 0) : Type 0 where
  enc : A → Text → Text
  dec : Text → Option (A × Text)
  law : (a : A) (rest : Text) → dec (enc a rest) ≡ some (a, rest)

abbrev first : Text → Option (ℕ × Text)
first [] = none
first (n ∷ t) = some (n, t)

abbrev number : Codec ℕ
number = record { enc = λ n rest. n ∷ rest; dec = first; law = λ n rest. refl }

module _ {A B : Type 0} where
  abbrev add_second : A → Option (B × Text) → Option ((A × B) × Text)
  add_second a none = none
  add_second a (some (b, t)) = some ((a, b), t)

  abbrev then_dec : (Text → Option (B × Text)) → Option (A × Text) → Option ((A × B) × Text)
  then_dec dec none = none
  then_dec dec (some (a, t)) = add_second a (dec t)

  abbrev both : Codec A → Codec B → Codec (A × B)
  both c d = record {
    enc = λ p rest. c.enc p.0 (d.enc p.1 rest);
    dec = λ t. then_dec d.dec (c.dec t);
    law = λ p rest.
        ap (then_dec d.dec) (c.law p.0 (d.enc p.1 rest)) ∙ ap (add_second p.0) (d.law p.1 rest);
  }

  abbrev mapped : (A → B) → Option (A × Text) → Option (B × Text)
  mapped f none = none
  mapped f (some (a, t)) = some (f a, t)

  abbrev via : (f : A → B) (g : B → A) → ((b : B) → f (g b) ≡ b) → Codec A → Codec B
  via f g e c = record {
    enc = λ b rest. c.enc (g b) rest;
    dec = λ t. mapped f (c.dec t);
    law = λ b rest. ap (mapped f) (c.law (g b) rest) ∙ ap (λ x. some (x, rest)) (e b);
  }

module _ {A : Type 0} (c : Codec A) where
  abbrev enc_all : List A → Text → Text
  enc_all [] rest = rest
  enc_all (x ∷ xs) rest = c.enc x (enc_all xs rest)

  abbrev cons_dec : Option ((A × List A) × Text) → Option (List A × Text)
  cons_dec none = none
  cons_dec (some ((x, xs), t)) = some (x ∷ xs, t)

  abbrev dec_all : ℕ → Text → Option (List A × Text)
  dec_all zero t = some ([], t)
  dec_all (suc n) t = cons_dec (then_dec (dec_all n) (c.dec t))

  abbrev dec_all-enc_all :
      (xs : List A) (rest : Text) → dec_all (length xs) (enc_all xs rest) ≡ some (xs, rest)
  dec_all-enc_all [] rest = refl
  dec_all-enc_all (x ∷ xs) rest =
      ap (λ o. cons_dec (then_dec (dec_all (length xs)) o)) (c.law x (enc_all xs rest))
      ∙ ap (λ o. cons_dec (add_second x o)) (dec_all-enc_all xs rest)

  abbrev dec_counted : Text → Option (List A × Text)
  dec_counted [] = none
  dec_counted (n ∷ t) = dec_all n t

  abbrev listed : Codec (List A)
  listed = record {
    enc = λ xs rest. length xs ∷ enc_all xs rest;
    dec = dec_counted;
    law = λ xs rest. dec_all-enc_all xs rest;
  }

abbrev flag : Bool → ℕ
flag false = 0
flag true = 1

abbrev usage : CertKeyUsage → ℕ
usage CertKeyUsage.cert_sign = 0
usage CertKeyUsage.crl_sign = 1
usage CertKeyUsage.digital_signature = 2
usage CertKeyUsage.key_encipherment = 3

abbrev usage_of : ℕ → CertKeyUsage
usage_of n =
    if eqb n 0
    then CertKeyUsage.cert_sign
    else if eqb n 1
    then CertKeyUsage.crl_sign
    else if eqb n 2
    then CertKeyUsage.digital_signature
    else CertKeyUsage.key_encipherment

abbrev usage_of-usage : (u : CertKeyUsage) → usage_of (usage u) ≡ u
usage_of-usage CertKeyUsage.cert_sign = refl
usage_of-usage CertKeyUsage.crl_sign = refl
usage_of-usage CertKeyUsage.digital_signature = refl
usage_of-usage CertKeyUsage.key_encipherment = refl

abbrev ext_usage : KeyUsage → ℕ
ext_usage KeyUsage.client_auth = 0
ext_usage KeyUsage.other_usage = 1

abbrev ext_usage_of : ℕ → KeyUsage
ext_usage_of n = if eqb n 0 then KeyUsage.client_auth else KeyUsage.other_usage

abbrev ext_usage_of-ext_usage : (u : KeyUsage) → ext_usage_of (ext_usage u) ≡ u
ext_usage_of-ext_usage KeyUsage.client_auth = refl
ext_usage_of-ext_usage KeyUsage.other_usage = refl

abbrev flag-flag : (b : Bool) → eqb (flag b) 1 ≡ b
flag-flag true = refl
flag-flag false = refl

abbrev truth : Codec Bool
truth = via (λ n. eqb n 1) flag flag-flag number

abbrev Parts : Type 0
Parts =
    (ℕ × List ℕ)
    × ((List (List ℕ) × (ℕ × ℕ)) × ((List CertKeyUsage × List KeyUsage) × (Bool × Bool)))

abbrev parts : X509 → Parts
parts x = (
  (x.serial_number, x.common_name),
  (
    (x.dns_names, (x.not_before, x.not_after)),
    ((x.key_usage, x.ext_key_usage), (x.basic_constraints_valid, x.is_ca)),
  ),
)

abbrev whole : Parts → X509
whole p = record {
  serial_number = p.0.0;
  common_name = p.0.1;
  dns_names = p.1.0.0;
  not_before = p.1.0.1.0;
  not_after = p.1.0.1.1;
  key_usage = p.1.1.0.0;
  ext_key_usage = p.1.1.0.1;
  basic_constraints_valid = p.1.1.1.0;
  is_ca = p.1.1.1.1;
}

abbrev certificate_codec : Codec X509
certificate_codec =
    via whole parts (λ x. refl)
      (both (both number (listed number)) (
        both (both (listed (listed number)) (both number number)) (
          both
            (both (listed (via usage_of usage usage_of-usage number))
              (listed (via ext_usage_of ext_usage ext_usage_of-ext_usage number)))
            (both truth truth))))

abbrev parsed : Option (X509 × Text) → Result X509
parsed none = err (failed [])
parsed (some (x, t)) = ok x

abbrev without_first : Text → Option Text
without_first [] = none
without_first (c ∷ t) = some t

-- PEM is one byte before the DER, and a key is its own DER.
abbrev pub small_pki : Pki
small_pki = record {
  pem_decode = without_first;
  pem_encode = λ type der. b'P' ∷ der;
  parse_certificate = λ der. parsed (certificate_codec.dec der);
  parse_private_key = λ der. ok der;
  marshal_private_key = λ key. key;
  public_key = λ key. key;
  create_certificate = λ template parent public key. ok (certificate_codec.enc template []);
}

result_of : X509 → Result (List ℕ) → List ℕ
result_of x (ok t) = t
result_of x (err e) = []

pub small_pki-IsLawful : IsLawful small_pki
unfolding result_of
small_pki-IsLawful = record {
  decodes = λ type der. refl;
  filled = λ type der e. absurd (ground (arith, e));
  issued = λ template parent public key h.
      ap (λ r. parsed (certificate_codec.dec (result_of template r))) (sym h)
      ∙ ap parsed (certificate_codec.law template []);
}
