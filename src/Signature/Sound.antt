-- ===== src/Signature/Sound.antt =====
-- What a request that authenticates has shown (internal/s3/sigv4.go).
use pobj.Text.Parts.{split}
use pobj.Exec.{err, Result, ok}
use pobj.Signature.{
  auth_field, expected_signature, AuthResult, verify_sig_v4, check_signature, check_scope,
  CredentialsResolver,
}
use pobj.Http.{Request}
use pobj.Prelude.{true, false, Bool}
use pobj.Text.{Text, lit, ◌==◌, ==_iff}
use pobj.Store.{Platform}
use pobj.Prelude.{Bool, [], ◌∷◌, List, ◌≡◌, refl, arith}

module _ (lib : Platform) (hmac : Text → Text → Text) (r : Request)
    (resolver : CredentialsResolver) where
  check_signature-ok :
      (access_key date region signed sig : Text) {auth : AuthResult}
      → check_signature lib hmac r resolver access_key date region signed sig ≡ ok auth
      → (secret : Text) × (auth.access_key ≡ access_key)
        × (resolver access_key ≡ ok (secret, auth.bucket, auth.read_only))
        × (sig ≡ expected_signature lib hmac secret date region signed r)
  unfolding check_signature
  check_signature-ok access_key date region signed sig {auth} h = from (resolver access_key) refl
    where
      from :
          (o : Result (Text × Text × Bool))
          → resolver access_key ≡ o
          → (secret : Text) × (auth.access_key ≡ access_key)
            × (resolver access_key ≡ ok (secret, auth.bucket, auth.read_only))
            × (sig ≡ expected_signature lib hmac secret date region signed r)
      from (err e) g = absurd (ground arith)
      from (ok (secret, bucket, read_only)) g =
          let same = ==_iff (expected_signature lib hmac secret date region signed r) sig in
          (secret, ground (arith), ground (arith), ground (arith, same))

  check_scope-ok :
      (scope : List Text) (signed sig : Text) {auth : AuthResult}
      → check_scope lib hmac r resolver scope signed sig ≡ ok auth
      → (secret : Text) × (date : Text) × (region : Text) × (last : Text) × (scope
          ≡ auth.access_key ∷ date ∷ region ∷ lit "s3" ∷ last ∷ [])
        × (resolver auth.access_key ≡ ok (secret, auth.bucket, auth.read_only))
        × (sig ≡ expected_signature lib hmac secret date region signed r)
  unfolding check_scope
  check_scope-ok (access_key ∷ date ∷ region ∷ service ∷ last ∷ []) signed sig {auth} h =
      from (service == lit "s3") (r.header (lit "X-Amz-Date") == lit "") refl refl
    where
      from :
          (s3 no_date : Bool)
          → (service == lit "s3") ≡ s3
          → (r.header (lit "X-Amz-Date") == lit "") ≡ no_date
          → (secret : Text) × (date' : Text) × (region' : Text) × (last' : Text) × (access_key
                ∷ date ∷ region ∷ service ∷ last ∷ []
              ≡ auth.access_key ∷ date' ∷ region' ∷ lit "s3" ∷ last' ∷ [])
            × (resolver auth.access_key ≡ ok (secret, auth.bucket, auth.read_only))
            × (sig ≡ expected_signature lib hmac secret date' region' signed r)
      from false no_date e f = absurd (ground arith)
      from true true e f = absurd (ground arith)
      from true false e f =
          let (secret, name, found, signature) =
            check_signature-ok access_key date region signed sig (rw (e, f, check_scope) at h) in
          (
            secret,
            date,
            region,
            last,
            rw (name, (==_iff service (lit "s3")).0 e) refl,
            rw (name) found,
            signature,
          )
  check_scope-ok _ signed sig h = absurd (ground arith)

  -- A request authenticates only as the owner of a key that the resolver knows, with the bucket and
  -- the permission of that key, and only with the signature that the key's secret gives for this very
  -- request and for the scope in the Credential field, whose service is s3.
  pub verify_sig_v4-ok :
      {auth : AuthResult}
      → verify_sig_v4 lib hmac r resolver ≡ ok auth
      → (secret : Text) × (date : Text) × (region : Text) × (last : Text) × (split b'/'
            (auth_field r (lit "Credential"))
          ≡ auth.access_key ∷ date ∷ region ∷ lit "s3" ∷ last ∷ [])
        × (resolver auth.access_key ≡ ok (secret, auth.bucket, auth.read_only))
        × (auth_field r (lit "Signature")
            ≡ expected_signature lib hmac secret date region (auth_field r (lit "SignedHeaders")) r)
  unfolding verify_sig_v4
  verify_sig_v4-ok {auth} h =
      check_scope-ok (split b'/' (auth_field r (lit "Credential")))
        (auth_field r (lit "SignedHeaders")) (auth_field r (lit "Signature")) (ground arith)
