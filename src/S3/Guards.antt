-- ===== src/S3/Guards.antt =====
-- Who may change the store by the S3 API (internal/s3/handler.go).
use pobj.Prelude.{refl, Bool, true, false, arith, ◌≢◌, ◌≡◌, Option}
use pobj.Exec.{Error, Result, ok, err}
use pobj.Text.{Text, ◌==◌, ==_iff}
use pobj.Http.{Request}
use pobj.Signature.{verify_sig_v4}
use pobj.Store.{Platform, Io}
use pobj.Cluster.{Cluster, Net}
use pobj.Cluster.Leader.{in_charge}
use pobj.S3.{
  lookup, AuthResult, Node, split_path, serve_as, serve_http, dispatch, proxied,
  should_proxy_to_leader, is_mutating_s3,
}
use pobj.S3.Isolation.{read_only_unchanged}

module _ {W : Type 0} (lib : Platform) (io : Io) (net : Net W) (cluster : Option Cluster) where
  serve_as-changed :
      (auth : AuthResult) (r : Request) (bucket key : Text) (n : Node W)
      → (serve_as lib io net cluster auth r bucket key n).1.store ≢ n.store
      → (auth.bucket ≡ bucket) × (auth.read_only ≡ false) × (in_charge net cluster r n.world ≡ true)
  unfolding serve_as dispatch proxied should_proxy_to_leader is_mutating_s3 in_charge
  serve_as-changed auth r bucket key n ne = (
    own (auth.bucket == bucket) refl,
    writer auth.read_only refl,
    charge (in_charge net cluster r n.world) refl,
  )
    where
      own : (b : Bool) → (auth.bucket == bucket) ≡ b → auth.bucket ≡ bucket
      own true e = (==_iff auth.bucket bucket).0 e
      own false e = absurd (ne (ground (arith, e)))

      writer : (b : Bool) → auth.read_only ≡ b → auth.read_only ≡ false
      writer true e =
          absurd (ne (ground (arith, read_only_unchanged lib io net cluster auth r bucket key n e)))
      writer false e = e

      charge :
          (b : Bool) → in_charge net cluster r n.world ≡ b → in_charge net cluster r n.world ≡ true
      charge true e = e
      charge false e = absurd (ne (ground (arith, e)))

  pub serve_http-denied :
      (hmac : Text → Text → Text) (r : Request) (n : Node W) {e : Error}
      → verify_sig_v4 lib hmac r (lookup n.store) ≡ err e
      → ((serve_http lib io net cluster hmac r n).1 ≡ n)
        × ((serve_http lib io net cluster hmac r n).0.status ≡ 403)
  unfolding serve_http
  serve_http-denied hmac r n v = ground arith

  -- A request to the S3 API that changes the store of the server has a signature that verifies,
  -- by a key for the very bucket that its path names which is not read-only, and the server is
  -- in charge: it is alone, or the request is marked as a replication, or the server takes
  -- itself for the leader.
  pub serve_http-verify_sig_v4 :
      (hmac : Text → Text → Text) (r : Request) (n : Node W)
      → (serve_http lib io net cluster hmac r n).1.store ≢ n.store
      → (auth : AuthResult) × (verify_sig_v4 lib hmac r (lookup n.store) ≡ ok auth)
        × (auth.bucket ≡ (split_path r.path).0)
        × (auth.read_only ≡ false)
        × (in_charge net cluster r n.world ≡ true)
  unfolding serve_http
  serve_http-verify_sig_v4 hmac r n ne = from (verify_sig_v4 lib hmac r (lookup n.store)) refl
    where
      from :
          (o : Result AuthResult)
          → verify_sig_v4 lib hmac r (lookup n.store) ≡ o
          → (auth : AuthResult) × (verify_sig_v4 lib hmac r (lookup n.store) ≡ ok auth)
            × (auth.bucket ≡ (split_path r.path).0)
            × (auth.read_only ≡ false)
            × (in_charge net cluster r n.world ≡ true)
      from (err e) v = absurd (ne (ground (arith, v)))
      from (ok auth) v =
          let (bucket, key) = split_path r.path in
          let (own, writer, charge) =
            serve_as-changed auth r bucket key n (λ e. ne (ground (arith, v, e))) in
          (auth, v, own, writer, charge)
