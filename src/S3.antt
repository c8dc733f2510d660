-- ===== src/S3.antt =====
-- internal/s3/handler.go: the S3 API.
pub mod Isolation
pub mod Guards
pub mod Acked
pub mod Revoked
use pobj.Store.Access.{lookup_access_key}
use pobj.Signature.{CredentialsResolver, verify_sig_v4, AuthResult}
use pobj.Prelude.Int.{pos, ℤ}
use pobj.Prelude.{
  false, ◌||◌, true, none, ◌&&◌, some, not, ◌++◌, keep, if◌then◌else◌, [], ◌∷◌, ℕ, Option, List,
  Bool,
}
use pobj.Store.Buckets
use pobj.Store.Objects
use pobj.Store.Listing
use pobj.Store.Access
use pobj.Exec.{Error, Result, ok, err, error_text, is_not_found}
use pobj.Http.{Method, Request, Response, Body, bare, same_method}
use pobj.Store.{Store, Platform, Io, ObjectMeta, AccessKey, Bucket}
use pobj.Text.{Text, lit, ◌==◌, trim_prefix}
use pobj.Text.Parts.{split_two, atoi, decimal}
use pobj.Cluster.{
  Cluster, Net, enabled, is_internal_replication, is_leader, proxy_to_leader, replicate,
}

-- Resolver.Lookup
unfoldable pub lookup : Store → CredentialsResolver
unfolding lookup_access_key
lookup s access_key = elim (lookup_access_key access_key s) [
  | err e ↦ err e
  | ok a ↦ ok (a.secret_key, a.bucket, a.read_only)
]

-- One server process: its store, and the state of everything that it reaches over the network.
pub record Node (W : Type 0) : Type 0 where
  pub store : Store
  pub world : W

after_slash : Text × Option Text → Text × Text
after_slash (bucket, none) = (bucket, [])
after_slash (bucket, some key) = (bucket, key)

unfoldable pub split_path : Text → Text × Text
unfolding after_slash split_two trim_prefix ◌==◌
split_path p =
    let q = trim_prefix (lit "/") p in
    if q == lit "" then ([], []) else after_slash (split_two b'/' q)

-- writeError
abbrev pub write_error : Text → Text → ℕ → Response
write_error code message status = record {
  status = status;
  headers = (lit "Content-Type", lit "application/xml") ∷ [];
  body = Body.error_xml code message;
}

-- writeXML of a result.
abbrev pub write_xml : Body → Response
write_xml body = record {
  status = 200;
  headers = (lit "Content-Type", lit "application/xml") ∷ [];
  body = body;
}

unfoldable pub is_mutating_s3 : Method → Text → Text → Bool
unfolding ◌==◌
is_mutating_s3 method bucket key =
    if same_method method Method.put && not (bucket == lit "")
    then true
    else if same_method method Method.delete && not (bucket == lit "")
    then true
    else false

-- fmt.Sprintf("\"%s\"", etag)
unfoldable pub quoted : Text → Text
quoted etag = (b'"' ∷ etag) ++ b'"' ∷ []

or_default : Option ℤ → ℤ
or_default none = pos 1000
or_default (some v) = v

-- maxKeys of listObjectsV2.
unfoldable pub max_keys_of : Request → ℤ
unfolding atoi or_default ◌==◌
max_keys_of r =
    let mk = r.query (lit "max-keys") in
    if not (mk == lit "") then or_default (atoi mk) else pos 1000

module _ (lib : Platform) (io : Io) where
  allowed : Text → List Bucket → List Bucket
  unfolding ◌==◌
  allowed bucket bs = keep (λ b. not (not (bucket == lit "") && not (b.name == bucket))) bs

  unfoldable pub list_buckets : Text → Store → Response
  unfolding allowed
  list_buckets allowed_bucket s =
      write_xml (Body.bucket_list (allowed allowed_bucket (Buckets.list_buckets lib s)))

  unfoldable pub list_objects_v2 : Request → Text → Store → Response
  unfolding max_keys_of error_text
  list_objects_v2 r bucket s =
      let prefix = r.query (lit "prefix") in
      elim (Listing.list_objects_v2 lib bucket prefix (r.query (lit "continuation-token"))
        (max_keys_of r) s) [
          | err e ↦ write_error (lit "InternalError") (error_text e) 500
          | ok page ↦ write_xml (Body.object_list bucket prefix (max_keys_of r) page)
        ]

  object_headers : ObjectMeta → List (Text × Text)
  unfolding quoted decimal
  object_headers m =
      (lit "ETag", quoted m.etag)
      ∷ (lit "Content-Length", decimal m.size)
      ∷ (lit "Last-Modified", lib.http_time m.mod_time)
      ∷ []

  missing : Error → Response
  unfolding is_not_found error_text
  missing e =
      if is_not_found e
      then write_error (lit "NoSuchKey") (lit "object not found") 404
      else write_error (lit "InternalError") (error_text e) 500

  unfoldable pub get_object : Text → Text → Store → Response
  unfolding missing object_headers
  get_object bucket key s = elim (Objects.open_object lib io bucket key s) [
    | err e ↦ missing e
    | ok (m, content) ↦ record {
      status = 200;
      headers = object_headers m;
      body = Body.content content;
    }
  ]

  unfoldable pub head_object : Text → Text → Store → Response
  unfolding missing object_headers
  head_object bucket key s = elim (Objects.get_object_meta lib bucket key s) [
    | err e ↦ missing e
    | ok m ↦ record { status = 200; headers = object_headers m; body = Body.empty }
  ]

-- The response behind a replication, and the node with what the network did.
answered : {W : Type 0} → Response → Node W → Result (Unit {0}) × W → Response × Node W
unfolding error_text
answered done n (ok _, w) = (done, record n { world = w })
answered done n (err e, w) =
    (write_error (lit "InternalError") (error_text e) 503, record n { world = w })

module _ {W : Type 0} (lib : Platform) (io : Io) (net : Net W) (cluster : Option Cluster) where
  -- if h.Cluster != nil && h.Cluster.Enabled() { Replicate … }, and the response if that succeeds.
  unfoldable pub replicate_then : Method → Text → Text → Response → Node W → Response × Node W
  unfolding replicate error_text answered
  replicate_then method path body done n = elim cluster [
    | none ↦ (done, n)
    | some c ↦
        if enabled c then answered done n (replicate net c method path body n.world) else (done, n)
  ]

  unfoldable pub create_bucket : Text → Node W → Response × Node W
  unfolding replicate_then error_text
  create_bucket bucket n =
      let (r, s) = Buckets.create_bucket lib io bucket n.store in
      elim r [
        | err e ↦ (write_error (lit "InvalidBucketName") (error_text e) 400, record n { store = s })
        | ok _ ↦
            replicate_then Method.post (lit "/_cluster/replicate/buckets/" ++ bucket) [] (bare 200)
              (record n { store = s })
      ]

  unfoldable pub delete_bucket : Text → Node W → Response × Node W
  unfolding replicate_then error_text is_not_found
  delete_bucket bucket n =
      let (r, s) = Buckets.delete_bucket lib io bucket n.store in
      elim r [
        | err e ↦ (
          if is_not_found e
              then write_error (lit "NoSuchBucket") (lit "bucket does not exist") 404
              else write_error (lit "BucketNotEmpty") (error_text e) 409,
          record n { store = s },
        )
        | ok _ ↦
            replicate_then Method.delete (lit "/_cluster/replicate/buckets/" ++ bucket) []
              (bare 204) (record n { store = s })
      ]

  put_payload : Text → Text → Text → Node W → Response × Node W
  unfolding replicate_then error_text is_not_found quoted
  put_payload bucket key payload n =
      let (r, s) = Objects.put_object lib io bucket key payload n.store in
      elim r [
        | err e ↦ (
          if is_not_found e
              then write_error (lit "NoSuchBucket") (error_text e) 404
              else write_error (lit "InternalError") (error_text e) 500,
          record n { store = s },
        )
        | ok m ↦
            replicate_then Method.put
              (((lit "/_cluster/replicate/objects/" ++ bucket) ++ lit "/") ++ key) payload
              (record {
                status = 200;
                headers = (lit "ETag", quoted m.etag) ∷ [];
                body = Body.empty;
              })
              (record n { store = s })
      ]

  unfoldable pub put_object : Request → Text → Text → Node W → Response × Node W
  unfolding put_payload error_text
  put_object r bucket key n = elim r.body [
    | err e ↦ (write_error (lit "InternalError") (error_text e) 400, n)
    | ok payload ↦ put_payload bucket key payload n
  ]

  replicate_delete : Text → Text → Node W → Response × Node W
  unfolding replicate_then
  replicate_delete bucket key n =
      replicate_then Method.delete
        (((lit "/_cluster/replicate/objects/" ++ bucket) ++ lit "/") ++ key) [] (bare 204) n

  unfoldable pub delete_object : Text → Text → Node W → Response × Node W
  unfolding replicate_delete error_text is_not_found
  delete_object bucket key n =
      let (r, s) = Objects.delete_object lib io bucket key n.store in
      elim r [
        | err e ↦
            if not (is_not_found e)
            then (write_error (lit "InternalError") (error_text e) 500, record n { store = s })
            else replicate_delete bucket key (record n { store = s })
        | ok _ ↦ replicate_delete bucket key (record n { store = s })
      ]

  unfoldable pub should_proxy_to_leader : Request → Text → Text → W → Bool
  unfolding is_mutating_s3 is_leader is_internal_replication
  should_proxy_to_leader r bucket key w = elim cluster [
    | none ↦ false
    | some c ↦
        if not (enabled c) || is_internal_replication r
        then false
        else if not (is_mutating_s3 r.method bucket key)
        then false
        else not (is_leader net c w)
  ]

  proxied : Request → Node W → Response × Node W
  unfolding proxy_to_leader error_text
  proxied r n = elim cluster [
    | none ↦ (bare 200, n)
    | some c ↦
        let (answer, w) = proxy_to_leader net c r n.world in
        (
          elim answer [
            | ok response ↦ response
            | err e ↦ write_error (lit "InternalError") (error_text e) 503
          ],
          record n { world = w },
        )
  ]

  -- The `switch` of ServeHTTP.
  unfoldable pub dispatch : AuthResult → Request → Text → Text → Node W → Response × Node W
  unfolding create_bucket delete_bucket put_object delete_object list_buckets list_objects_v2
      get_object head_object ◌==◌
  dispatch auth r bucket key n =
      let no_bucket = bucket == lit "" in
      let no_key = key == lit "" in
      if same_method r.method Method.get && no_bucket && no_key
      then (list_buckets lib io auth.bucket n.store, n)
      else if same_method r.method Method.put && not no_bucket && no_key
      then create_bucket bucket n
      else if same_method r.method Method.delete && not no_bucket && no_key
      then delete_bucket bucket n
      else if same_method r.method Method.get
          && not no_bucket
          && no_key
          && r.query (lit "list-type") == lit "2"
      then (list_objects_v2 lib io r bucket n.store, n)
      else if same_method r.method Method.put && not no_bucket && not no_key
      then put_object r bucket key n
      else if same_method r.method Method.get && not no_bucket && not no_key
      then (get_object lib io bucket key n.store, n)
      else if same_method r.method Method.head && not no_bucket && not no_key
      then (head_object lib io bucket key n.store, n)
      else if same_method r.method Method.delete && not no_bucket && not no_key
      then delete_object bucket key n
      else (write_error (lit "NotImplemented") (lit "operation not implemented") 501, n)

  -- ServeHTTP behind the authentication.
  unfoldable pub serve_as : AuthResult → Request → Text → Text → Node W → Response × Node W
  unfolding dispatch should_proxy_to_leader proxied ◌==◌
  serve_as auth r bucket key n =
      if not (bucket == lit "") && not (auth.bucket == bucket)
      then (write_error (lit "AccessDenied") (lit "bucket not allowed") 403, n)
      else if auth.read_only
          && (same_method r.method Method.put
              || same_method r.method Method.post
              || same_method r.method Method.delete)
      then (write_error (lit "AccessDenied") (lit "read-only credentials") 403, n)
      else if should_proxy_to_leader r bucket key n.world
      then proxied r n
      else dispatch auth r bucket key n

  -- `hmac` is crypto/hmac with SHA-256, on bytes.
  unfoldable pub serve_http : (Text → Text → Text) → Request → Node W → Response × Node W
  unfolding serve_as split_path error_text verify_sig_v4 lookup
  serve_http hmac r n = elim (verify_sig_v4 lib hmac r (lookup n.store)) [
    | err e ↦ (write_error (lit "AccessDenied") (error_text e) 403, n)
    | ok auth ↦ let (bucket, key) = split_path r.path in serve_as auth r bucket key n
  ]
