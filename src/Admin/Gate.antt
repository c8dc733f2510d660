-- ===== src/Admin/Gate.antt =====
-- Who may use the admin API, and what a server that is not the leader does
-- (internal/admin/handler.go).
use pobj.Prelude.{refl, Bool, false, true, arith, ◌++◌, ◌≢◌, ◌≡◌, ◌||◌, Option}
use pobj.Cluster.{Cluster, Net}
use pobj.Cluster.Leader.{in_charge}
use pobj.Http.{Method, Json, Request, same_method}
use pobj.Text.{Text, lit, ◌==◌, ==_iff}
use pobj.Admin.{serve_http, should_proxy_to_leader, proxied, dispatch}
use pobj.S3.{Node}
use pobj.Store.{Io, Platform}

module _ {W : Type 0} (lib : Platform) (io : Io) (json : Json) (net : Net W)
    (cluster : Option Cluster) (token : Text) (r : Request) (n : Node W) where
  -- A request without the shared token is answered by 401, and neither the store nor the network
  -- sees anything of it.
  pub serve_http-unauthorized :
      r.header (lit "Authorization") ≢ (lit "Bearer " ++ token)
      → ((serve_http lib io json net cluster token r n).0.status ≡ 401)
        × ((serve_http lib io json net cluster token r n).1 ≡ n)
  unfolding serve_http
  serve_http-unauthorized ne =
      ground (arith, ==_iff (r.header (lit "Authorization")) (lit "Bearer " ++ token))

  dispatch-quiet :
      (same_method r.method Method.post || same_method r.method Method.delete) ≡ false
      → (dispatch lib io json net cluster r n).1 ≡ n
  unfolding dispatch
  dispatch-quiet m = ground arith

  store-proxied : (proxied lib io json net cluster r n).1.store ≡ n.store
  unfolding proxied
  store-proxied = ground arith

  follower-proxies :
      in_charge net cluster r n.world ≡ false
      → (same_method r.method Method.post || same_method r.method Method.delete) ≡ true
      → should_proxy_to_leader lib io json net cluster r n.world ≡ true
  unfolding should_proxy_to_leader in_charge
  follower-proxies e m = ground (arith, e, m)

  serve_http-follower :
      in_charge net cluster r n.world ≡ false
      → (serve_http lib io json net cluster token r n).1.store ≡ n.store
  unfolding serve_http
  serve_http-follower e = ground (arith, e, store-proxied, dispatch-quiet, follower-proxies)

  -- A request to the admin API that changes the store of the server carries the shared token,
  -- and the server is in charge: it is alone, or the request is marked as a replication, or the
  -- server takes itself for the leader.
  pub serve_http-in_charge :
      (serve_http lib io json net cluster token r n).1.store ≢ n.store
      → (r.header (lit "Authorization") ≡ lit "Bearer " ++ token)
        × (in_charge net cluster r n.world ≡ true)
  serve_http-in_charge ne = (
    holder (r.header (lit "Authorization") == (lit "Bearer " ++ token)) refl,
    charge (in_charge net cluster r n.world) refl,
  )
    where
      holder :
          (b : Bool)
          → (r.header (lit "Authorization") == (lit "Bearer " ++ token)) ≡ b
          → r.header (lit "Authorization") ≡ lit "Bearer " ++ token
      holder true e = (==_iff (r.header (lit "Authorization")) (lit "Bearer " ++ token)).0 e
      holder false e = absurd (
          ne (
            ground (
              arith,
              e,
              ==_iff (r.header (lit "Authorization")) (lit "Bearer " ++ token),
              serve_http-unauthorized,
            )))

      charge :
          (b : Bool) → in_charge net cluster r n.world ≡ b → in_charge net cluster r n.world ≡ true
      charge true e = e
      charge false e = absurd (ne (serve_http-follower e))
