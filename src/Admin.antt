-- ===== src/Admin.antt =====
-- internal/admin/handler.go: the admin API.
pub mod Gate
use pobj.Prelude.{◌||◌, some, false, none, ◌&&◌, not, [], ◌∷◌, ◌++◌, if◌then◌else◌, Bool, Option}
use pobj.Store.Buckets
use pobj.Store.Access
use pobj.Exec.{Error, Result, ok, err, error_text, is_not_found}
use pobj.Http.{
  Method, Request, Response, Body, bare, plain_error, not_found_page, same_method, Json,
}
use pobj.Store.{Store, Platform, Io, AccessKey}
use pobj.Text.{Text, lit, ◌==◌, has_prefix, trim_prefix}
use pobj.Cluster.{
  Cluster, Net, enabled, is_internal_replication, is_leader, proxy_to_leader, replicate,
}
use pobj.S3.{Node}

answered : {W : Type 0} → Response → Node W → Result (Unit {0}) × W → Response × Node W
unfolding error_text
answered done n (ok _, w) = (done, record n { world = w })
answered done n (err e, w) = (plain_error (error_text e) 503, record n { world = w })

-- A request body decoded by `decode`, where an unreadable body counts as undecodable.
decoded : {A : Type 0} → (Text → Result A) → Result Text → Result A
decoded decode (ok body) = decode body
decoded decode (err e) = err e

module _ {W : Type 0} (lib : Platform) (io : Io) (json : Json) (net : Net W)
    (cluster : Option Cluster) where
  unfoldable pub replicate_then : Method → Text → Text → Response → Node W → Response × Node W
  unfolding replicate answered
  replicate_then method path body done n = elim cluster [
    | none ↦ (done, n)
    | some c ↦
        if enabled c then answered done n (replicate net c method path body n.world) else (done, n)
  ]

  created : Text → Result (Unit {0}) × Store → Node W → Response × Node W
  unfolding replicate_then error_text
  created name (err e, s) n = (plain_error (error_text e) 400, record n { store = s })
  created name (ok _, s) n =
      replicate_then Method.post (lit "/_cluster/replicate/buckets/" ++ name) [] (bare 201)
        (record n { store = s })

  unfoldable pub create_bucket : Request → Node W → Response × Node W
  unfolding decoded created ◌==◌
  create_bucket r n = elim (decoded json.decode_name r.body) [
    | err e ↦ (plain_error (lit "invalid body") 400, n)
    | ok name ↦
        if name == lit ""
        then (plain_error (lit "invalid body") 400, n)
        else created name (Buckets.create_bucket lib io name n.store) n
  ]

  deleted : Text → Result (Unit {0}) × Store → Node W → Response × Node W
  unfolding replicate_then error_text is_not_found
  deleted name (err e, s) n = (
    if is_not_found e then plain_error (lit "not found") 404 else plain_error (error_text e) 409,
    record n { store = s },
  )
  deleted name (ok _, s) n =
      replicate_then Method.delete (lit "/_cluster/replicate/buckets/" ++ name) [] (bare 204)
        (record n { store = s })

  unfoldable pub delete_bucket : Request → Node W → Response × Node W
  unfolding deleted trim_prefix ◌==◌
  delete_bucket r n =
      let name = trim_prefix (lit "/admin/buckets/") r.path in
      if name == lit ""
      then (plain_error (lit "missing bucket") 400, n)
      else deleted name (Buckets.delete_bucket lib io name n.store) n

  granted : Result AccessKey × Store → Node W → Response × Node W
  unfolding replicate_then error_text
  granted (err e, s) n = (plain_error (error_text e) 400, record n { store = s })
  granted (ok ak, s) n =
      replicate_then Method.post (lit "/_cluster/replicate/access") (json.encode_access_key ak)
        (record {
          status = 200;
          headers = (lit "Content-Type", lit "application/json") ∷ [];
          body = Body.access_json ak;
        })
        (record n { store = s })

  unfoldable pub create_access : Request → Node W → Response × Node W
  unfolding decoded granted ◌==◌
  create_access r n = elim (decoded json.decode_grant r.body) [
    | err e ↦ (plain_error (lit "invalid body") 400, n)
    | ok (bucket, read_only) ↦
        if bucket == lit ""
        then (plain_error (lit "invalid body") 400, n)
        else granted (Access.create_access lib io bucket read_only n.store) n
  ]

  revoked : Text → Result (Unit {0}) × Store → Node W → Response × Node W
  unfolding replicate_then error_text
  revoked access_key (err e, s) n = (plain_error (error_text e) 500, record n { store = s })
  revoked access_key (ok _, s) n =
      replicate_then Method.delete (lit "/_cluster/replicate/access/" ++ access_key) [] (bare 204)
        (record n { store = s })

  unfoldable pub delete_access : Request → Node W → Response × Node W
  unfolding revoked trim_prefix ◌==◌
  delete_access r n =
      let access_key = trim_prefix (lit "/admin/access/") r.path in
      if access_key == lit ""
      then (plain_error (lit "missing access key") 400, n)
      else revoked access_key (Access.delete_access lib io access_key n.store) n

  unfoldable pub should_proxy_to_leader : Request → W → Bool
  unfolding is_leader is_internal_replication
  should_proxy_to_leader r w = elim cluster [
    | none ↦ false
    | some c ↦
        if not (enabled c) || is_internal_replication r
        then false
        else if not (same_method r.method Method.post) && not (same_method r.method Method.delete)
        then false
        else not (is_leader net c w)
  ]

  proxied : Request → Node W → Response × Node W
  unfolding proxy_to_leader error_text
  proxied r n = elim cluster [
    | none ↦ (bare 200, n)
    | some c ↦
        let (answer, w) = proxy_to_leader net c r n.world in
        (
          elim answer [ ok response ↦ response | err e ↦ plain_error (error_text e) 503 ],
          record n { world = w },
        )
  ]

  -- The chain of `if`s on method and path.
  unfoldable pub dispatch : Request → Node W → Response × Node W
  unfolding create_bucket delete_bucket create_access delete_access has_prefix ◌==◌
  dispatch r n =
      if same_method r.method Method.post && r.path == lit "/admin/buckets"
      then create_bucket r n
      else if same_method r.method Method.delete && has_prefix (lit "/admin/buckets/") r.path
      then delete_bucket r n
      else if same_method r.method Method.post && r.path == lit "/admin/access"
      then create_access r n
      else if same_method r.method Method.delete && has_prefix (lit "/admin/access/") r.path
      then delete_access r n
      else (not_found_page, n)

  unfoldable pub serve_http : Text → Request → Node W → Response × Node W
  unfolding dispatch should_proxy_to_leader proxied ◌==◌
  serve_http token r n =
      if not (r.header (lit "Authorization") == (lit "Bearer " ++ token))
      then (plain_error (lit "unauthorized") 401, n)
      else if should_proxy_to_leader r n.world
      then proxied r n
      else dispatch r n
