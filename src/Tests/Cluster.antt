-- ===== src/Tests/Cluster.antt =====
-- The leader and replication in a cluster of three (internal/cluster/cluster.go).
use pobj.S3.Acked.{put_object-majority}
use pobj.S3
use pobj.Store.Objects
use pobj.S3.{Node}
use pobj.Store.{ObjectMeta}
use pobj.Exec.{ok}
use pobj.Text.{lit}
use pobj.Http.{Request, Method}
use pobj.Cluster.Quorum.{replicate-majority, count_below, replicate-intersect, has_change}
use pobj.Cluster.Leader.{leader-IsLeast, IsLeast}
use pobj.Cluster.{leader, replicate, admin_url}
use pobj.Cluster.Transport.{Service, base}
use pobj.Cluster.Proxy.{has_colon, base-s3}
use pobj.Prelude.Int.{pos}
use pobj.Prelude.{some, none, ◌*◌, ◌↔◌, [], arith, ◌<◌, ℕ, ◌≡◌, refl, true}
use pobj.Tests.Fixtures.{calm, tiny, one_bucket, three, other_server, two_up}

replicated :
    (replicate two_up three Method.post (lit "/_cluster/replicate/buckets/photos") [] tt).0 ≡ ok tt
unfolding replicate
replicated = refl

replicate-majority_example :
    ((replicate two_up three Method.post (lit "/_cluster/replicate/buckets/photos") [] tt).0
      ≡ ok tt)
    ↔ (3
        < 2
          * count_below
              (has_change two_up three Method.post (lit "/_cluster/replicate/buckets/photos") [] tt)
              3)
replicate-majority_example =
    replicate-majority two_up three Method.post (lit "/_cluster/replicate/buckets/photos") [] 0 refl
      tt (omega arith) refl

replicate-intersect_example :
    (i : ℕ) × (i < 3)
    × (has_change two_up three Method.put (lit "/a") [] tt i ≡ true)
    × (has_change two_up other_server Method.put (lit "/b") [] tt i ≡ true)
unfolding replicate
replicate-intersect_example =
    replicate-intersect two_up three other_server 0 1 Method.put Method.put (lit "/a") (lit "/b") []
      [] tt tt refl refl refl (omega arith) (omega arith) refl refl refl refl

leader-IsLeast_example : IsLeast (λ j. two_up.healthy j tt) 3 (leader two_up three tt)
leader-IsLeast_example = leader-IsLeast two_up three tt 1 refl (omega arith) refl

base-s3_example :
    base three Service.s3 2
    ≡ admin_url
        (record three { cfg = record (three.cfg) { admin_port = three.cfg.s3_port } })
        (pos 2)
unfolding has_colon
base-s3_example = base-s3 three 2 19000 refl refl refl refl

abbrev put_request : Request
put_request = record {
  method = Method.put;
  path = lit "/photos/a";
  raw_query = [];
  query = λ name. [];
  header = λ name. [];
  header_values = λ name. [];
  host = lit "localhost";
  escaped_path = lit "/photos/a";
  body = ok (lit "hi");
  tls = none;
}

abbrev node_0 : Node (Unit {0})
node_0 = record { store = one_bucket; world = tt }

-- One PutObject through the S3 API, by the server with the ordinal 0.
put_acked :
    (S3.put_object tiny calm two_up
      (some three)
      put_request
      (lit "photos")
      (lit "a")
      node_0).0.status
    ≡ 200
unfolding S3.put_object replicate Objects.put_object Objects.write_file Objects.record_object
put_acked = refl

put_object-majority_example :
    (m : ObjectMeta) × ((Objects.put_object tiny calm
        (lit "photos")
        (lit "a")
        (lit "hi")
        one_bucket).0
      ≡ ok m)
    × (3
        < 2
          * count_below
              (has_change two_up three Method.put
                (lit "/_cluster/replicate/objects/photos/a")
                (lit "hi")
                tt)
              3)
put_object-majority_example =
    put_object-majority tiny calm two_up three 0 put_request (lit "photos") (lit "a") (lit "hi")
      node_0 refl (omega arith) refl refl put_acked
