-- ===== src/Tests/Servers.antt =====
-- The handlers at concrete requests (internal/s3/handler.go, internal/admin/handler.go,
-- internal/cluster/replication_handler.go).
use pobj.Signature.Sound.{verify_sig_v4-ok}
use pobj.S3.Revoked.{serve_http-delete_access}
use pobj.Store.Access.{delete_access}
use pobj.Text.Parts.{split}
use pobj.Store.Credentials.{holders}
use pobj.Signature.{expected_signature, auth_field, verify_sig_v4}
use pobj.Store.Names.{valid_bucket}
use pobj.Store.Buckets.{create_bucket}
use pobj.Store.Objects.{record_object}
use pobj.Store.Objects.{write_file}
use pobj.Store.Objects.{put_object}
use pobj.Replication.Gate.{serve_http-IsPeer}
use pobj.Store.{BucketState, Store}
use pobj.S3.Isolation.{serve_http-read_only}
use pobj.Exec.{failed, err, ok}
use pobj.Admin.Gate.{serve_http-in_charge}
use pobj.Text.{◌==◌, Text, lit}
use pobj.S3.{lookup, Node}
use pobj.Http.{Request, Method, Json}
use pobj.Dict.{get}
use pobj.Cluster.Leader.{in_charge}
use pobj.Objectd.{Process, AdminHandler, handler, cluster_handler, serve_admin_port}
use pobj.Objectd.Ports.{serve_admin_port-no_token}
use pobj.Prelude.{
  Bool, ap, Option, ◌≢◌, ◌∷◌, arith, [], ◌++◌, some, if◌then◌else◌, none, ◌≡◌, refl, true, false,
}
use pobj.Tests.Fixtures.{no_files, fresh_bucket, one_bucket, tiny, calm, three, two_up}
use pobj.S3
use pobj.Admin
use pobj.Replication

abbrev pub request : Method → Text → Request
request method path = record {
  method = method;
  path = path;
  raw_query = [];
  query = λ name. [];
  header = λ name. [];
  header_values = λ name. [];
  host = lit "localhost";
  escaped_path = path;
  body = ok (lit "hi");
  tls = none;
}

abbrev node : Node (Unit {0})
node = record { store = one_bucket; world = tt }

-- A keyed hash of one byte.
abbrev pub flat_hmac : Text → Text → Text
flat_hmac secret message = 171 ∷ []

abbrev pub signed_headers : Text → Text
signed_headers name =
    if name == lit "Authorization"
    then lit
        "AWS4-HMAC-SHA256 Credential=PXAB/20260101/eu/s3/aws4_request, SignedHeaders=host, Signature=ab"
    else if name == lit "X-Amz-Date"
    then lit "20260101T000000Z"
    else []

abbrev store_with : Bool → Store
store_with read_only = record no_files {
  state =
      (
        lit "photos",
        record fresh_bucket {
          access = (lit "PXAB", record { secret_key = lit "12"; read_only = read_only }) ∷ [];
        },
      )
      ∷ [];
}

abbrev node_with : Bool → Node (Unit {0})
node_with read_only = record { store = store_with read_only; world = tt }

abbrev signed_put : Request
signed_put = record (request Method.put (lit "/photos/a")) { header = signed_headers }

accepted :
    (read_only : Bool)
    → verify_sig_v4 tiny flat_hmac signed_put (lookup (store_with read_only))
      ≡ ok (record { access_key = lit "PXAB"; bucket = lit "photos"; read_only = read_only })
unfolding verify_sig_v4 lookup
accepted read_only = refl

abbrev put_a_request : Request
put_a_request = request Method.put (lit "/photos/a")

stored_by_writer :
    (S3.serve_http tiny calm two_up none flat_hmac signed_put (node_with false)).0.status ≡ 200
unfolding S3.serve_http put_object write_file record_object
stored_by_writer = refl

verify_sig_v4-ok_example :
    (secret : Text) × (date : Text) × (region : Text) × (last : Text) × (split b'/'
        (auth_field signed_put (lit "Credential"))
      ≡ lit "PXAB" ∷ date ∷ region ∷ lit "s3" ∷ last ∷ [])
    × (lookup (store_with false) (lit "PXAB") ≡ ok (secret, lit "photos", false))
    × (auth_field signed_put (lit "Signature")
        ≡ expected_signature tiny flat_hmac secret date region
            (auth_field signed_put (lit "SignedHeaders"))
            signed_put)
verify_sig_v4-ok_example =
    verify_sig_v4-ok tiny flat_hmac signed_put (lookup (store_with false)) (accepted false)

serve_http-read_only_example :
    (S3.serve_http tiny calm two_up none flat_hmac signed_put (node_with true)).1 ≡ node_with true
serve_http-read_only_example =
    serve_http-read_only tiny calm two_up none flat_hmac signed_put (node_with true) (accepted true)
      refl

serve_http-delete_access_example :
    ((S3.serve_http tiny calm two_up none flat_hmac signed_put (record (node_with false) {
      store = (delete_access tiny calm (lit "PXAB") (store_with false)).1;
    })).0.status
      ≡ 403)
    × ((S3.serve_http tiny calm two_up none flat_hmac signed_put (record (node_with false) {
      store = (delete_access tiny calm (lit "PXAB") (store_with false)).1;
    })).1
        ≡ record (node_with false) {
          store = (delete_access tiny calm (lit "PXAB") (store_with false)).1;
        })
unfolding holders auth_field ◌==◌
serve_http-delete_access_example =
    serve_http-delete_access tiny calm two_up none flat_hmac calm (lit "PXAB")
      (lit "20260101" ∷ lit "eu" ∷ lit "s3" ∷ lit "aws4_request" ∷ []) signed_put (node_with false)
      (ground arith) refl

abbrev pub no_json : Json
no_json = record {
  decode_name = λ body. ok body;
  decode_grant = λ body. err (failed body);
  decode_access_key = λ body. err (failed body);
  encode_access_key = λ a. [];
}

abbrev peer_headers : Text → Text
peer_headers name =
    if name == lit "Authorization"
    then lit "Bearer secret"
    else if name == lit "X-ENTITY-Internal-Replication"
    then lit "true"
    else []

abbrev pub replication_request : Request
replication_request = record (request Method.post (lit "/_cluster/replicate/buckets/videos")) {
  header = peer_headers;
  tls =
      some
        (record { peer_certificates = record { ext_key_usage = none } ∷ []; verified_chains = 1 });
}

replicated_bucket :
    (Replication.serve_http tiny calm no_json (lit "secret") replication_request one_bucket).1
    ≢ one_bucket
unfolding Replication.serve_http get create_bucket valid_bucket
replicated_bucket e = ground (arith, found)
  where
    found : ◌≡◌ {A = Option BucketState} (some fresh_bucket) none
    found = ap (λ (s : Store). get s.state (lit "videos")) e

serve_http-IsPeer_example :
    (peer_headers (lit "Authorization") ≡ lit "Bearer " ++ lit "secret")
    × (peer_headers (lit "X-ENTITY-Internal-Replication") ≡ lit "true")
    × (Replication.has_peer_client_cert replication_request ≡ true)
serve_http-IsPeer_example =
    serve_http-IsPeer tiny calm no_json (lit "secret") replication_request one_bucket
      replicated_bucket

abbrev process : Process
process = record {
  cluster = three;
  token = lit "secret";
  store = one_bucket;
  s3_server = record { addr = lit ":9000"; tls_config = none };
  admin_server = record { addr = lit ":19000"; tls_config = none };
}

serve_admin_port-no_token_example :
    ((serve_admin_port tiny calm no_json two_up process
        (handler cluster_handler)
        put_a_request
        node).1
      ≡ node)
    × ((h : AdminHandler)
        → handler cluster_handler ≡ handler h
        → (serve_admin_port tiny calm no_json two_up process
            (handler cluster_handler)
            put_a_request
            node).0.status
          ≡ 401)
serve_admin_port-no_token_example =
    serve_admin_port-no_token tiny calm no_json two_up process (handler cluster_handler)
      put_a_request node (λ e. ground arith)

abbrev create_request : Request
create_request = record (request Method.post (lit "/admin/buckets")) {
  body = ok (lit "videos");
  header = λ name. if name == lit "Authorization" then lit "Bearer secret" else [];
}

created_by_alone :
    (Admin.serve_http tiny calm no_json two_up none (lit "secret") create_request node).1.store
    ≢ node.store
unfolding Admin.serve_http Admin.create_bucket create_bucket valid_bucket get
created_by_alone e = ground (arith, found)
  where
    found : ◌≡◌ {A = Option BucketState} (some fresh_bucket) none
    found = ap (λ (s : Store). get s.state (lit "videos")) e

serve_http-in_charge_example :
    (create_request.header (lit "Authorization") ≡ lit "Bearer " ++ lit "secret")
    × (in_charge two_up none create_request tt ≡ true)
serve_http-in_charge_example =
    serve_http-in_charge tiny calm no_json two_up none (lit "secret") create_request node
      created_by_alone
