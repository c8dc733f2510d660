-- ===== src/Replication.antt =====
-- internal/cluster/replication_handler.go: the admin server's side of replication.
pub mod Gate
use pobj.Prelude.{
  ◌++◌, eqb, ◌∷◌, ◌&&◌, not, true, none, if◌then◌else◌, false, [], ℕ, some, Option, List, Bool,
}
use pobj.Store.Buckets
use pobj.Store.Objects
use pobj.Store.Access
use pobj.Exec.{Error, Result, ok, err, error_text, is_not_found}
use pobj.Http.{
  text, Method, Request, Response, bare, plain_error, not_found_page, same_method, Certificate,
  KeyUsage, client_auth, ConnectionState, Json,
}
use pobj.Store.{Store, Platform, Io}
use pobj.Text.{Text, lit, ◌==◌, has_prefix, trim_prefix}
use pobj.Text.Parts.{split_two}

-- The loop of `hasClientAuthUsage`.
has_client_auth_usage : List KeyUsage → Bool
has_client_auth_usage [] = false
has_client_auth_usage (KeyUsage.client_auth ∷ us) = true
has_client_auth_usage (KeyUsage.other_usage ∷ us) = has_client_auth_usage us

leaf_usage : Option (List KeyUsage) → Bool
unfolding has_client_auth_usage
leaf_usage none = true
leaf_usage (some us) = has_client_auth_usage us

-- The checks of `hasPeerClientCert` on the certificates of the peer.
leaf_ok : ℕ → List Certificate → Bool
unfolding leaf_usage
leaf_ok chains [] = false
leaf_ok chains (leaf ∷ certs) = if eqb chains 0 then false else leaf_usage leaf.ext_key_usage

unfoldable pub has_peer_client_cert : Request → Bool
unfolding leaf_ok
has_peer_client_cert r = elim r.tls [
  | none ↦ false
  | some state ↦ leaf_ok state.verified_chains state.peer_certificates
]

-- An outcome of a store operation: 204, or the error's text with a status.
abbrev pub reply : {A : Type 0} → ℕ → Result A × Store → Response × Store
reply status (ok a, s) = (bare 204, s)
reply status (err e, s) = (plain_error (error_text e) status, s)

-- The same where ErrNotFound counts as success.
abbrev pub reply_missing : ℕ → Result (Unit {0}) × Store → Response × Store
reply_missing status (ok a, s) = (bare 204, s)
reply_missing status (err e, s) =
    if is_not_found e then (bare 204, s) else (plain_error (error_text e) status, s)

module _ (lib : Platform) (io : Io) (json : Json) where
  -- An object path in two parts, or 400.
  abbrev with_parts :
      (Text → Text → Store → Response × Store) → Text × Option Text → Store → Response × Store
  with_parts f (bucket, none) s = (plain_error (lit "invalid path") 400, s)
  with_parts f (bucket, some key) s = f bucket key s

  -- PutObject copies from the request's body; a body that cannot be read makes io.Copy fail.
  put_body : Result Text → Text → Text → Store → Response × Store
  unfolding error_text
  put_body (ok body) bucket key s = reply 400 (Objects.put_object lib io bucket key body s)
  put_body (err e) bucket key s =
      reply 400 (Objects.put_object lib (record io { copy = some e }) bucket key [] s)

  decoded_access : Result Text → Store → Response × Store
  unfolding error_text
  decoded_access (err e) s = (plain_error (lit "invalid body") 400, s)
  decoded_access (ok body) s = elim (json.decode_access_key body) [
    | err e ↦ (plain_error (lit "invalid body") 400, s)
    | ok a ↦ reply 400 (Access.put_access lib io a s)
  ]

  -- The `switch`, behind the four checks.
  unfoldable pub dispatch : Request → Store → Response × Store
  unfolding put_body decoded_access has_prefix trim_prefix split_two ◌==◌ error_text is_not_found
  dispatch r s =
      let buckets = lit "/_cluster/replicate/buckets/" in
      let objects = lit "/_cluster/replicate/objects/" in
      let access = lit "/_cluster/replicate/access/" in
      if same_method r.method Method.post && has_prefix buckets r.path
      then reply 400 (Buckets.create_bucket lib io (trim_prefix buckets r.path) s)
      else if same_method r.method Method.delete && has_prefix buckets r.path
      then reply_missing 409 (Buckets.delete_bucket lib io (trim_prefix buckets r.path) s)
      else if same_method r.method Method.put && has_prefix objects r.path
      then with_parts (put_body r.body) (split_two b'/' (trim_prefix objects r.path)) s
      else if same_method r.method Method.delete && has_prefix objects r.path
      then with_parts
          (λ bucket key s. reply_missing 400 (Objects.delete_object lib io bucket key s))
          (split_two b'/' (trim_prefix objects r.path)) s
      else if same_method r.method Method.post && r.path == lit "/_cluster/replicate/access"
      then decoded_access r.body s
      else if same_method r.method Method.delete && has_prefix access r.path
      then reply 500 (Access.delete_access lib io (trim_prefix access r.path) s)
      else (not_found_page, s)

  unfoldable pub serve_http : Text → Request → Store → Response × Store
  unfolding dispatch has_peer_client_cert ◌==◌
  serve_http token r s =
      if not (r.header (lit "Authorization") == (lit "Bearer " ++ token))
      then (plain_error (lit "unauthorized") 401, s)
      else if r.path == lit "/_cluster/health"
      then (record { status = 200; headers = []; body = text (lit "ok") }, s)
      else if not (r.header (lit "X-ENTITY-Internal-Replication") == lit "true")
      then (plain_error (lit "forbidden") 403, s)
      else if not (has_peer_client_cert r)
      then (plain_error (lit "mTLS required") 403, s)
      else dispatch r s
