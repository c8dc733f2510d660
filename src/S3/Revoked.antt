-- ===== src/S3/Revoked.antt =====
-- Requests signed with a key that has been revoked (internal/s3/handler.go).
use pobj.Prelude.{◌≡◌, refl, sym, ◌∙◌, ◌≤◌, List, ◌∷◌, Option, length, arith}
use pobj.Text.{Text, lit}
use pobj.Text.Parts.{split}
use pobj.Exec.{Result, ok, err, not_found}
use pobj.Http.{Request}
use pobj.Store.{Store, Platform, Io}
use pobj.Store.Access.{delete_access}
use pobj.Store.Credentials.{holders, lookup-delete_access}
use pobj.Cluster.{Cluster, Net}
use pobj.Signature.{AuthResult, auth_field, verify_sig_v4}
use pobj.Signature.Sound.{verify_sig_v4-ok}
use pobj.S3.{Node, lookup, serve_http}
use pobj.S3.Guards.{serve_http-denied}

module _ {W : Type 0} (lib : Platform) (io : Io) (net : Net W) (cluster : Option Cluster) where
  -- Once a key that at most one bucket holds is revoked, every request whose Credential field names
  -- it is answered by 403 and changes nothing, whatever else it says and however it is signed.
  pub serve_http-delete_access :
      (hmac : Text → Text → Text) (io' : Io) (ak : Text) (scope : List Text) (r : Request)
      (n : Node W)
      → length (holders ak n.store.state) ≤ 1
      → split b'/' (auth_field r (lit "Credential")) ≡ ak ∷ scope
      → ((serve_http lib io net cluster hmac r
            (record n { store = (delete_access lib io' ak n.store).1 })).0.status
          ≡ 403)
        × ((serve_http lib io net cluster hmac r
              (record n { store = (delete_access lib io' ak n.store).1 })).1
            ≡ record n { store = (delete_access lib io' ak n.store).1 })
  unfolding lookup
  serve_http-delete_access hmac io' ak scope r n l names =
      from (verify_sig_v4 lib hmac r (lookup after)) refl
    where
      after : Store
      after = (delete_access lib io' ak n.store).1

      after_node : Node W
      after_node = record n { store = (delete_access lib io' ak n.store).1 }

      unknown : lookup after ak ≡ err not_found
      unknown = ground (arith, lookup-delete_access lib io' n.store ak l)

      first_of : {x : Text} {xs : List Text} → ak ∷ scope ≡ x ∷ xs → ak ≡ x
      first_of e = ground arith

      known :
          (auth : AuthResult) (secret : Text)
          → ak ≡ auth.access_key
          → lookup after auth.access_key ≡ ok (secret, auth.bucket, auth.read_only)
          → ⊥
      known auth secret e f = ground (arith, unknown, e, f)

      from :
          (o : Result AuthResult)
          → verify_sig_v4 lib hmac r (lookup after) ≡ o
          → ((serve_http lib io net cluster hmac r after_node).0.status ≡ 403)
            × ((serve_http lib io net cluster hmac r after_node).1 ≡ after_node)
      from (err e) v =
          let (same, status) = serve_http-denied lib io net cluster hmac r after_node v in
          (status, same)
      from (ok auth) v =
          let (secret, date, region, last, scope', found, sig) =
            verify_sig_v4-ok lib hmac r (lookup after) v in
          absurd (known auth secret (first_of (sym names ∙ scope')) found)
