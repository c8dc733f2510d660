-- ===== src/Tests/Delivery.antt =====
-- A replicated object, sent by one server and taken by another.
use pobj.Prelude.{◌≡◌, refl, true, ◌++◌, [], ◌≢◌, Bool, false, if◌then◌else◌}
use pobj.Text.{Text, lit, ◌==◌}
use pobj.Exec.{ok}
use pobj.Http.{Method, Request, bare}
use pobj.Store.Objects.{put_object}
use pobj.Store.Names.{valid_bucket}
use pobj.Text.Url.{all, url_path}
use pobj.Cluster.{admin_url}
use pobj.Cluster.Address.{IsAddressed}
use pobj.Cluster.Transport.{Client, peer_request, set_header, authorization}
use pobj.Cluster.Delivery.{IsReceived, serve_http-peer_request}
use pobj.Replication.{serve_http, reply, has_peer_client_cert}
use pobj.Tests.Fixtures.{calm, tiny, one_bucket, three}
use pobj.Tests.Servers.{no_json, replication_request}

abbrev client : Client (Unit {0})
client = record {
  parses = λ url. true;
  host_of = λ url. lit "peer";
  exchange = λ request w. (ok (bare 204), w);
}

abbrev put_path : Text
put_path = ((lit "/_cluster/replicate/objects/" ++ lit "photos") ++ lit "/") ++ lit "2026/a b:c"

-- The client adds a header of its own.
received_headers : Text → Text
received_headers =
    set_header (lit "X-ENTITY-Internal-Replication") (lit "true")
      (authorization three (set_header (lit "User-Agent") (lit "Go-http-client/1.1") (λ name. [])))

received_put : Request
unfolding received_headers
received_put = record replication_request {
  method = Method.put;
  path = lit "/_cluster/replicate/objects/photos/2026/a b:c";
  header = received_headers;
  body = ok (lit "hi");
}

abbrev Extends : (Text → Text) → (Text → Text) → Type 0
Extends more less = (k : Text) → less k ≢ [] → more k ≡ less k

set_header-Extends :
    (a v : Text) (more less : Text → Text)
    → Extends more less
    → Extends (set_header a v more) (set_header a v less)
unfolding ◌==◌
set_header-Extends a v more less h k = from (k == a)
  where
    from :
        (b : Bool)
        → (if b then v else less k) ≢ []
        → (if b then v else more k) ≡ (if b then v else less k)
    from true n = refl
    from false n = h k n

received_put-IsReceived :
    IsReceived (peer_request three client 1 Method.put put_path (lit "hi")) received_put
unfolding received_put received_headers peer_request url_path admin_url
received_put-IsReceived = record {
  method = refl;
  path = refl;
  header = set_header-Extends (lit "X-ENTITY-Internal-Replication") (lit "true") _ _ (
      set_header-Extends (lit "Authorization") (lit "Bearer secret")
        (set_header (lit "User-Agent") (lit "Go-http-client/1.1") (λ name. [])) (λ name. [])
        (λ k n. absurd (n refl)));
  body = refl;
}

received_put-cert : has_peer_client_cert received_put ≡ true
unfolding has_peer_client_cert received_put
received_put-cert = refl

three_IsAddressed : IsAddressed three.cfg 19000
unfolding all
three_IsAddressed = record { name = refl; headless = refl; namespace = refl; admin_port = refl }

serve_http-peer_request_example :
    serve_http tiny calm no_json (lit "secret") received_put one_bucket
    ≡ reply 400 (put_object tiny calm (lit "photos") (lit "2026/a b:c") (lit "hi") one_bucket)
unfolding valid_bucket all
serve_http-peer_request_example =
    serve_http-peer_request client three tiny calm no_json 1 19000 (lit "photos") (lit "2026/a b:c")
      (lit "hi") received_put one_bucket three_IsAddressed refl refl received_put-IsReceived
      received_put-cert
